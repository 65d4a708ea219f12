-- ===== src/Launch/Paths.antt =====
-- The functions of Node's `path` (POSIX) that src/core/launch-policy.ts calls.
use Prim.Native.Char.{Char, code}
use Prim.Native.String.{◌++◌}
use gptqueue.Prelude.{
  String, Bool, false, List, [], ◌∷◌, if◌then◌else◌, ◌==◌, str_eq, is_empty_text,
}

abbrev pub is_slash : Char → Bool
is_slash c = code c == b'/'

-- `isAbsolute(path)`
abbrev pub is_absolute : String → Bool
is_absolute String.[] = false
is_absolute (String.◌∷◌ c s) = is_slash c

-- The last component that is not empty, where `current` has been read of the one at the front.
unfoldable pub last_component : String → String → String → String
last_component last current String.[] = if is_empty_text current then last else current
last_component last current (String.◌∷◌ c s) =
    last_component (if is_slash c then if is_empty_text current then last else current else last)
      (if is_slash c then String.[] else current ++ String.◌∷◌ c String.[]) s

-- `basename(path)`
unfoldable pub basename : String → String
unfolding last_component
basename path = last_component String.[] String.[] path

-- The components between the slashes of a path, the last one first, after those already read.
unfoldable pub components : List String → String → String → List String
components before current String.[] = current ∷ before
components before current (String.◌∷◌ c s) =
    components (if is_slash c then current ∷ before else before)
      (if is_slash c then String.[] else current ++ String.◌∷◌ c String.[]) s

abbrev pub parent : List String → List String
parent [] = []
parent (s ∷ ss) = ss

-- The components of an absolute path without empty ones, `.` and `..`, the last one first.
unfoldable pub normalized : List String → List String
normalized [] = []
normalized (s ∷ ss) =
    let above = normalized ss in
    if is_empty_text s
    then above
    else if str_eq s "."
    then above
    else if str_eq s ".."
    then parent above
    else s ∷ above

unfoldable pub joined : String → List String → String
joined behind [] = behind
joined behind (s ∷ ss) = joined ("/" ++ (s ++ behind)) ss

abbrev pub or_root : String → String
or_root path = if is_empty_text path then "/" else path

-- `resolve(path)` in a process that works in `cwd`, an absolute path.
unfoldable pub resolve : String → String → String
unfolding components normalized joined
resolve cwd path = or_root (
    joined String.[] (
      normalized
        (components [] String.[] (if is_absolute path then path else cwd ++ ("/" ++ path)))))
