-- ===== src/Launch/Commands/Dangers.antt =====
-- Which commands and arguments src/core/launch-policy.ts holds dangerous, described without its tests:
-- names and flags are written out here again.
use Prim.Native.Char.{Char, code}
use Prim.Native.String.{◌++◌}
use text.Mathlib.TextEquality.{Char-path}
use text.Mathlib.TextLemmas.{nil-append, cons-append, nil≢cons}
use gptqueue.Prelude.{
  or_iff, ℕ, String, Bool, true, false, ◌&&◌, ◌||◌, not, List, [], ◌∷◌, ◌≡◌, ◌≢◌, ◌↔◌, ◌⊎◌, inl,
  inr, refl, ap, sym, ◌∙◌, any, Any, any_iff, ◌==◌, str_eq, str_eq_iff, starts_with, and_iff,
  if◌then◌else◌, arith,
}
use gptqueue.Launch.Paths.{basename}
use gptqueue.Launch.Commands.{
  lower_code, lowers_to, has_lower, has, is_inline_letter, is_line_end, is_glued_flag,
  dangerous_shell_basenames, dangerous_interpreter_basenames, dangerous_awk_basenames,
  dangerous_interpreter_args, is_inline_code_arg, is_dangerous_delegator, is_dangerous_interpreter,
}

abbrev codes : String → List ℕ
codes String.[] = []
codes (String.◌∷◌ c s) = code c ∷ codes s

-- The code points of a text in lower case.
abbrev lowered : String → List ℕ
lowered String.[] = []
lowered (String.◌∷◌ c s) = lower_code (code c) ∷ lowered s

-- The last component of the command's path, in lower case, is one of the names.
abbrev pub IsNamed : List String → String → Type 0
IsNamed names command = Any (λ name. lowered (basename command) ≡ codes name) names

abbrev pub IsShell : String → Type 0
IsShell =
    IsNamed ("sh" ∷ "bash" ∷ "zsh" ∷ "dash" ∷ "fish" ∷ "ksh" ∷ "cmd" ∷ "powershell" ∷ "pwsh" ∷ [])

abbrev pub IsAwk : String → Type 0
IsAwk = IsNamed ("awk" ∷ "gawk" ∷ "mawk" ∷ [])

abbrev pub IsInterpreter : String → Type 0
IsInterpreter = IsNamed (
    "node" ∷ "nodejs" ∷ "deno" ∷ "bun" ∷ "tsx" ∷ "ts-node" ∷ "python" ∷ "python2" ∷ "python3"
    ∷ "ruby" ∷ "perl" ∷ "php" ∷ [])

-- A flag of one letter with something behind it that does not begin a new line.
abbrev pub IsGlued : String → Type 0
IsGlued arg =
    (c : Char) × (d : Char) × (e : Char) × (s : String) × (arg
      ≡ String.◌∷◌ c (String.◌∷◌ d (String.◌∷◌ e s)))
    × (code c ≡ b'-')
    × Any (λ letter. code d ≡ letter) (b'e' ∷ b'c' ∷ b'E' ∷ b'p' ∷ b'r' ∷ [])
    × (code e ≢ 10)
    × (code e ≢ 13)
    × (code e ≢ 0x2028)
    × (code e ≢ 0x2029)

-- An argument that is a flag for inline code, with or without the code.
abbrev pub IsInline : String → Type 0
IsInline arg =
    Any (λ flag. arg ≡ flag)
      ("-e" ∷ "--eval" ∷ "-c" ∷ "--command" ∷ "-p" ∷ "--print" ∷ "-E" ∷ "-r" ∷ [])
    ⊎ Any (λ flag. (program : String) × (arg ≡ flag ++ program))
        ("--eval=" ∷ "--print=" ∷ "--command=" ∷ [])
    ⊎ IsGlued arg

abbrev pub RunsInline : String → List String → Type 0
RunsInline command args = IsAwk command ⊎ IsInterpreter command × Any IsInline args

same_code : (a b : ℕ) → ((a == b) ≡ true) ↔ (a ≡ b)
same_code a b = ground arith

cons_same : (a b : ℕ) (xs ys : List ℕ) → (a ≡ b) × (xs ≡ ys) → ◌≡◌ {A = List ℕ} (a ∷ xs) (b ∷ ys)
cons_same a b xs ys (e, f) = cc

same_cons : (a b : ℕ) (xs ys : List ℕ) → ◌≡◌ {A = List ℕ} (a ∷ xs) (b ∷ ys) → (a ≡ b) × (xs ≡ ys)
same_cons a b xs ys e = ground arith

lowers_to_iff : (s t : String) → (lowers_to s t ≡ true) ↔ (lowered s ≡ codes t)
lowers_to_iff String.[] String.[] = (λ e. refl, λ e. refl)
lowers_to_iff String.[] (String.◌∷◌ d t) = ground arith
lowers_to_iff (String.◌∷◌ c s) String.[] = ground arith
lowers_to_iff (String.◌∷◌ c s) (String.◌∷◌ d t) = (
  λ e.
      let (a, b) = (and_iff (lower_code (code c) == code d) (lowers_to s t)).0 e in
      cons_same _ _ _ _ ((same_code _ _).0 a, (lowers_to_iff s t).0 b),
  λ e.
      let (a, b) = same_cons _ _ _ _ e in
      (and_iff (lower_code (code c) == code d) (lowers_to s t)).1
        ((same_code _ _).1 a, (lowers_to_iff s t).1 b),
)

has_lower_iff :
    (names : List String) (command : String)
    → (has_lower names (basename command) ≡ true) ↔ IsNamed names command
has_lower_iff names command = any_iff _ (λ name. lowers_to_iff (basename command) name) names

pub starts_with_iff :
    (s p : String) → (starts_with s p ≡ true) ↔ ((rest : String) × (s ≡ p ++ rest))
starts_with_iff s String.[] = (λ e. (s, sym (nil-append s)), λ e. refl)
starts_with_iff String.[] (String.◌∷◌ d p) =
    (λ e. absurd (ground arith), λ (rest, e). absurd (nil≢cons (e ∙ cons-append d p rest)))
starts_with_iff (String.◌∷◌ c s) (String.◌∷◌ d p) = (
  λ e.
      let (a, b) = (and_iff (code c == code d) (starts_with s p)).0 e in
      let (rest, same) = (starts_with_iff s p).0 b in
      (rest, cons_text (Char-path c d ((same_code _ _).0 a)) same ∙ sym (cons-append d p rest)),
  λ (rest, e).
      let (a, b) = text_cons (e ∙ cons-append d p rest) in
      (and_iff (code c == code d) (starts_with s p)).1
        ((same_code _ _).1 (ap code a), (starts_with_iff s p).1 (rest, b)),
)
  where
    cons_text : {x y : String} → c ≡ d → x ≡ y → String.◌∷◌ c x ≡ String.◌∷◌ d y
    cons_text e f = cc

    text_cons : {x y : String} → String.◌∷◌ c x ≡ String.◌∷◌ d y → (c ≡ d) × (x ≡ y)
    text_cons e = ground arith

letter_iff :
    (n : ℕ)
    → (is_inline_letter n ≡ true)
      ↔ Any (λ letter. n ≡ letter) (b'e' ∷ b'c' ∷ b'E' ∷ b'p' ∷ b'r' ∷ [])
letter_iff n = ground arith

not_line_end_iff :
    (n : ℕ) → (not (is_line_end n) ≡ true) ↔ ((n ≢ 10) × (n ≢ 13) × (n ≢ 0x2028) × (n ≢ 0x2029))
not_line_end_iff n = ground arith

is_glued_flag-IsGlued : (arg : String) → is_glued_flag arg ≡ true → IsGlued arg
is_glued_flag-IsGlued String.[] h = absurd (ground arith)
is_glued_flag-IsGlued (String.◌∷◌ c String.[]) h = absurd (ground arith)
is_glued_flag-IsGlued (String.◌∷◌ c (String.◌∷◌ d String.[])) h = absurd (ground arith)
is_glued_flag-IsGlued (String.◌∷◌ c (String.◌∷◌ d (String.◌∷◌ e s))) h =
    let (ab, z) =
      (and_iff ((code c == b'-') && is_inline_letter (code d)) (not (is_line_end (code e)))).0 h in
    let (a, b) = (and_iff (code c == b'-') (is_inline_letter (code d))).0 ab in
    let (p, q, r, t) = (not_line_end_iff (code e)).0 z in
    (c, d, e, s, refl, (same_code _ _).0 a, (letter_iff (code d)).0 b, p, q, r, t)

IsGlued-is_glued_flag : (arg : String) → IsGlued arg → is_glued_flag arg ≡ true
IsGlued-is_glued_flag arg (c, d, e, s, same, a, b, p, q, r, t) =
    ap is_glued_flag same
    ∙ (and_iff ((code c == b'-') && is_inline_letter (code d)) (not (is_line_end (code e)))).1 (
      (and_iff (code c == b'-') (is_inline_letter (code d))).1
          ((same_code _ _).1 a, (letter_iff (code d)).1 b),
      (not_line_end_iff (code e)).1 (p, q, r, t),
    )

or3_iff :
    {P Q R : Type 0} (a b c : Bool)
    → (a ≡ true) ↔ P
    → (b ≡ true) ↔ Q
    → (c ≡ true) ↔ R
    → (((a || b) || c) ≡ true) ↔ (P ⊎ Q ⊎ R)
or3_iff true b c f g h = (λ e. inl (f.0 refl), λ e. refl)
or3_iff false b c f g h = or_iff false (b || c) f (or_iff b c g h)

-- What starts with one of the three long flags.
long_flags_iff :
    (arg : String)
    → ((starts_with arg "--eval=" || starts_with arg "--print=" || starts_with arg "--command=")
        ≡ true)
      ↔ Any
          (λ flag. (program : String) × (arg ≡ flag ++ program))
          ("--eval=" ∷ "--print=" ∷ "--command=" ∷ [])
long_flags_iff arg =
    let (to, back) =
      any_iff (λ flag. starts_with arg flag) (λ flag. starts_with_iff arg flag)
        ("--eval=" ∷ "--print=" ∷ "--command=" ∷ []) in
    (λ e. to (sym same ∙ e), λ h. same ∙ back h)
  where
    regrouped : (a b c : Bool) → (a || b || c) ≡ (a || (b || (c || false)))
    regrouped a b c = ground arith

    same :
        (starts_with arg "--eval=" || starts_with arg "--print=" || starts_with arg "--command=")
        ≡ any (λ flag. starts_with arg flag) ("--eval=" ∷ "--print=" ∷ "--command=" ∷ [])
    same =
        regrouped (starts_with arg "--eval=") (starts_with arg "--print=")
          (starts_with arg "--command=")

is_inline_code_arg_iff : (arg : String) → (is_inline_code_arg arg ≡ true) ↔ IsInline arg
unfolding is_inline_code_arg
is_inline_code_arg_iff arg =
    or3_iff (has dangerous_interpreter_args arg)
      (starts_with arg "--eval=" || starts_with arg "--print=" || starts_with arg "--command=")
      (is_glued_flag arg)
      (any_iff (λ flag. str_eq arg flag) (λ flag. str_eq_iff arg flag) dangerous_interpreter_args)
      (long_flags_iff arg) (is_glued_flag-IsGlued arg, IsGlued-is_glued_flag arg)

-- The two tests are these descriptions.
pub delegator_iff : (command : String) → (is_dangerous_delegator command ≡ true) ↔ IsShell command
unfolding is_dangerous_delegator
delegator_iff command = has_lower_iff dangerous_shell_basenames command

pub interpreter_iff :
    (command : String) (args : List String)
    → (is_dangerous_interpreter command args ≡ true) ↔ RunsInline command args
unfolding is_dangerous_interpreter
interpreter_iff command args =
    by_tests (has_lower dangerous_awk_basenames (basename command))
      (has_lower dangerous_interpreter_basenames (basename command))
      (any (λ arg. is_inline_code_arg arg) args) (has_lower_iff dangerous_awk_basenames command)
      (has_lower_iff dangerous_interpreter_basenames command)
      (any_iff _ (λ arg. is_inline_code_arg_iff arg) args)
  where
    no : false ≡ true → ⊥
    no e = ground arith

    by_tests :
        {P Q R : Type 0} (a b c : Bool)
        → (a ≡ true) ↔ P
        → (b ≡ true) ↔ Q
        → (c ≡ true) ↔ R
        → ((if a then true else if b then c else false) ≡ true) ↔ (P ⊎ Q × R)
    by_tests true b c f g h = (λ e. inl (f.0 refl), λ e. refl)
    by_tests false true c f g h = (
      λ e. inr (g.0 refl, h.0 e),
      λ e. elim e [ inl p ↦ absurd (no (f.1 p)) | inr (q, r) ↦ h.1 r ],
    )
    by_tests false false c f g h = (
      λ e. absurd (no e),
      λ e. elim e [ inl p ↦ absurd (no (f.1 p)) | inr (q, r) ↦ absurd (no (g.1 q)) ],
    )
