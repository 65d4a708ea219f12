-- ===== src/Launch/Commands/Laws.antt =====
-- What the tests of Launch/Commands.antt decide: src/core/launch-policy.ts.
use Prim.Native.Char.{code}
use gptqueue.Prelude.{
  String, Bool, true, false, ◌&&◌, not, List, [], ◌∷◌, ◌≡◌, ◌↔◌, ◌⊎◌, inl, inr, refl, any, Any,
  any_iff, ◌==◌, str_eq, str_eq_iff, str_eq_refl, and_iff, Bool-cases, arith, ap, subst,
  if◌then◌else◌,
}
use gptqueue.Launch.Paths.{is_absolute, resolve, basename}
use gptqueue.Launch.Commands.{
  LaunchAllowlistEntry, LaunchAllowlistConfig, command_matches, args_match_template,
  launch_matches_config, is_inline_code_arg, is_dangerous_interpreter, has_lower,
  dangerous_awk_basenames, dangerous_interpreter_basenames,
}

-- The identity of commands: the same bare name, or absolute paths that resolve to the same one.
abbrev pub SameCommand : String → String → String → Type 0
SameCommand cwd a b =
    ((is_absolute a ≡ false) × (a ≡ b))
    ⊎ ((is_absolute a ≡ true) × (is_absolute b ≡ true) × (resolve cwd a ≡ resolve cwd b))

-- An entry grants a command with exactly these arguments.
abbrev pub Grants : String → String → List String → LaunchAllowlistEntry → Type 0
Grants cwd command args entry =
    SameCommand cwd command entry.command × Any (λ template. args ≡ template) entry.allowed_args

matches-same : (cwd a b : String) → command_matches cwd a b ≡ true → SameCommand cwd a b
unfolding command_matches
matches-same cwd a b e = elim (Bool-cases (is_absolute a)) [
  | inl abs ↦
      let (x, y) =
        (and_iff (is_absolute b) (str_eq (resolve cwd a) (resolve cwd b))).0 (rw abs at e) in
      inr (abs, x, (str_eq_iff _ _).0 y)
  | inr bare ↦
      let (x, y) = (and_iff (not (is_absolute b)) (str_eq a b)).0 (rw bare at e) in
      inl (bare, (str_eq_iff _ _).0 y)
]

same-matches : (cwd a b : String) → SameCommand cwd a b → command_matches cwd a b ≡ true
unfolding command_matches
same-matches cwd a b (inl (bare, e)) =
    subst (λ c. command_matches cwd a c ≡ true) e (rw (bare, str_eq_refl a) refl)
same-matches cwd a b (inr (x, y, e)) = rw (x, y, (str_eq_iff _ _).1 e) refl

pub command_matches_iff :
    (cwd a b : String) → (command_matches cwd a b ≡ true) ↔ SameCommand cwd a b
command_matches_iff cwd a b = (matches-same cwd a b, same-matches cwd a b)

args_match_refl : (xs : List String) → args_match_template xs xs ≡ true
unfolding args_match_template
args_match_refl [] = refl
args_match_refl (x ∷ xs) = rw (str_eq_refl x, args_match_refl xs) refl

args_match_equal : (xs ys : List String) → args_match_template xs ys ≡ true → xs ≡ ys
unfolding args_match_template
args_match_equal [] [] e = refl
args_match_equal [] (y ∷ ys) e = absurd (ground arith)
args_match_equal (x ∷ xs) [] e = absurd (ground arith)
args_match_equal (x ∷ xs) (y ∷ ys) e =
    let (a, b) = (and_iff (str_eq x y) (args_match_template xs ys)).0 e in
    let same = (str_eq_iff x y).0 a in let rest = args_match_equal xs ys b in cc

pub args_match_iff : (xs ys : List String) → (args_match_template xs ys ≡ true) ↔ (xs ≡ ys)
args_match_iff xs ys = (
  args_match_equal xs ys,
  λ e. subst (λ zs. args_match_template xs zs ≡ true) e (args_match_refl xs),
)

-- A command and its arguments match the allowlist just when one of its entries has the same
-- command (the same bare name, or an absolute path that resolves to the same path) and a template
-- that is the list of arguments, complete and in order.
pub launch_matches_iff :
    (cwd command : String) (args : List String) (config : LaunchAllowlistConfig)
    → (launch_matches_config cwd command args config ≡ true)
      ↔ Any (Grants cwd command args) config.commands
unfolding launch_matches_config
launch_matches_iff cwd command args config = any_iff _ (λ entry. entry_iff entry) config.commands
  where
    templates_iff :
        (ts : List (List String))
        → (any (λ template. args_match_template args template) ts ≡ true)
          ↔ Any (λ template. args ≡ template) ts
    templates_iff ts = any_iff _ (λ t. args_match_iff args t) ts

    entry_iff :
        (entry : LaunchAllowlistEntry)
        → ((command_matches cwd command entry.command
              && any (λ template. args_match_template args template) entry.allowed_args)
            ≡ true)
          ↔ Grants cwd command args entry
    entry_iff entry = (
      λ e.
          let (a, b) =
            (and_iff (command_matches cwd command entry.command)
                (any (λ template. args_match_template args template) entry.allowed_args)).0
              e in
          (matches-same cwd command entry.command a, (templates_iff entry.allowed_args).0 b),
      λ (a, b).
          (and_iff (command_matches cwd command entry.command)
              (any (λ template. args_match_template args template) entry.allowed_args)).1
            (same-matches cwd command entry.command a, (templates_iff entry.allowed_args).1 b),
    )

-- `-c`, a line feed, and a program, in one argument.
abbrev pub flag_with : String → String
flag_with program = String.◌∷◌ "-" (String.◌∷◌ "c" (String.◌∷◌ "\n" program))

-- Whether the third character is a line feed.
abbrev third_is_line_feed : String → Bool
third_is_line_feed (String.◌∷◌ c (String.◌∷◌ d (String.◌∷◌ e s))) = code e == 10
third_is_line_feed _ = false

no_flag : (s flag : String) → third_is_line_feed flag ≡ false → str_eq (flag_with s) flag ≡ false
no_flag s flag h = elim (Bool-cases (str_eq (flag_with s) flag)) [
  | inl same ↦ absurd (differ (ap third_is_line_feed ((str_eq_iff _ _).0 same)))
  | inr other ↦ other
]
  where
    differ : third_is_line_feed (flag_with s) ≡ third_is_line_feed flag → ⊥
    differ e = ground (arith, e, h)

line_feed_not_inline : (s : String) → is_inline_code_arg (flag_with s) ≡ false
unfolding is_inline_code_arg
line_feed_not_inline s =
    rw
      (
        no_flag s "-e" refl,
        no_flag s "--eval" refl,
        no_flag s "-c" refl,
        no_flag s "--command" refl,
        no_flag s "-p" refl,
        no_flag s "--print" refl,
        no_flag s "-E" refl,
        no_flag s "-r" refl,
      )
      refl

-- Inline code that follows the flag `-c` behind a line feed, in the same argument, is not taken
-- for inline code: whatever the code is, a command outside the awk family passes the test for
-- dangerous interpreters with it.
pub inline-line_feed :
    (command program : String)
    → has_lower dangerous_awk_basenames (basename command) ≡ false
    → is_dangerous_interpreter command (flag_with program ∷ []) ≡ false
unfolding is_dangerous_interpreter
inline-line_feed command program h =
    rw (h, line_feed_not_inline program)
      (never (has_lower dangerous_interpreter_basenames (basename command)))
  where
    never : (b : Bool) → (if b then false else false) ≡ false
    never true = refl
    never false = refl
