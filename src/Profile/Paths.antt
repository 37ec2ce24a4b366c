-- ===== src/Profile/Paths.antt =====
-- src/domain/profile.ts: `normalizedTargetPath` and the reasons for which a path is refused.
use Prim.Native.Char.{Char, code}
use text.Mathlib.Text.{starts_with}
use codexport.Base.{
  Bool, true, false, not, ◌&&◌, ◌||◌, ℕ, ◌+◌, String, List, [], ◌∷◌, map, Option, none, some, ◌==◌,
  nat_eq, string_eq, any, contains, filter, if◌then◌else◌, join, template, leb, ◌≡◌, refl,
}
use codexport.Domain.{Platform, windows, platform_eq}

-- What the language and Unicode give: `trim().length === 0`, `normalize("NFC")`, `toLowerCase()`.
pub record TextEnv : Type 0 where
  pub is_blank : String → Bool
  pub nfc : String → String
  pub lower : String → String

-- `test` holds of a character of the text.
any_char : (ℕ → Bool) → String → Bool
any_char test String.[] = false
any_char test (String.◌∷◌ c s) = test (code c) || any_char test s

-- `value.includes(character)`
abbrev has_char : ℕ → String → Bool
has_char n s = any_char (λ c. c == n) s

abbrev one_of : List ℕ → ℕ → Bool
one_of cs c = contains c cs

-- `value.replaceAll("\\", "/")`
with_slashes : String → String
with_slashes String.[] = ""
with_slashes (String.◌∷◌ c s) = String.◌∷◌ (if code c == b'\\' then "/" else c) (with_slashes s)

push_char : Char → List String → List String
push_char c [] = String.◌∷◌ c String.[] ∷ []
push_char c (s ∷ ss) = String.◌∷◌ c s ∷ ss

-- `value.split("/")`
unfoldable pub split_slash : String → List String
unfolding push_char
split_slash String.[] = "" ∷ []
split_slash (String.◌∷◌ c s) =
    let rest = split_slash s in if code c == b'/' then "" ∷ rest else push_char c rest

is_letter : ℕ → Bool
is_letter n = (leb b'A' n && leb n b'Z') || (leb b'a' n && leb n b'z')

-- `/^([A-Za-z]):(?=\/|$)/u`: the letter of a drive, and the text after the colon.
drive_of : String → Option (String × String)
unfolding is_letter
drive_of (String.◌∷◌ a (String.◌∷◌ b s)) =
    if is_letter (code a) && code b == b':' && (s == "" || starts_with s "/")
    then some (String.◌∷◌ a String.[], s)
    else none
drive_of _ = none

-- `/^[A-Za-z]:/u`
starts_with_drive : String → Bool
unfolding is_letter
starts_with_drive (String.◌∷◌ a (String.◌∷◌ b s)) = is_letter (code a) && code b == b':'
starts_with_drive _ = false

-- `value.endsWith(character)`
ends_with_char : ℕ → String → Bool
ends_with_char n String.[] = false
ends_with_char n (String.◌∷◌ c String.[]) = code c == n
ends_with_char n (String.◌∷◌ c (String.◌∷◌ d s)) = ends_with_char n (String.◌∷◌ d s)

-- The text before the first dot, and the text after it.
stem : String → String × String
stem String.[] = ("", "")
stem (String.◌∷◌ c s) =
    let rest = stem s in if code c == b'.' then ("", s) else (String.◌∷◌ c rest.0, rest.1)

fold_case : ℕ → ℕ
fold_case n = if leb b'A' n && leb n b'Z' then n + 32 else n

-- Equal but for the case of ASCII letters.
same_folded : String → String → Bool
unfolding fold_case
same_folded String.[] String.[] = true
same_folded String.[] (String.◌∷◌ d t) = false
same_folded (String.◌∷◌ c s) String.[] = false
same_folded (String.◌∷◌ c s) (String.◌∷◌ d t) =
    fold_case (code c) == fold_case (code d) && same_folded s t

abbrev reserved_names : List String
reserved_names =
    "con" ∷ "prn" ∷ "aux" ∷ "nul" ∷ "com1" ∷ "com2" ∷ "com3" ∷ "com4" ∷ "com5" ∷ "com6" ∷ "com7"
    ∷ "com8" ∷ "com9" ∷ "lpt1" ∷ "lpt2" ∷ "lpt3" ∷ "lpt4" ∷ "lpt5" ∷ "lpt6" ∷ "lpt7" ∷ "lpt8"
    ∷ "lpt9" ∷ []

-- `/^(?:con|prn|aux|nul|com[1-9]|lpt[1-9])(?:\..*)?$/iu`, where `.` is no line terminator.
is_reserved_name : String → Bool
unfolding stem same_folded any_char
is_reserved_name segment =
    any (λ name. same_folded name (stem segment).0) reserved_names
    && not (any_char (one_of (10 ∷ 13 ∷ 8232 ∷ 8233 ∷ [])) (stem segment).1)

-- The loop over the segments for Windows.
windows_reason : List String → Option String
unfolding any_char ends_with_char is_reserved_name
windows_reason [] = none
windows_reason (segment ∷ segments) =
    let rest = windows_reason segments in
    if any_char (one_of (b'<' ∷ b'>' ∷ b':' ∷ 34 ∷ b'|' ∷ b'?' ∷ b'*' ∷ [])) segment
    then some "reserved character in managed file path"
    else if ends_with_char b'.' segment || ends_with_char b' ' segment
    then some "trailing dot or space in managed file path"
    else if is_reserved_name segment
    then some "reserved Windows name in managed file path"
    else rest

-- `a` or `b` joined by a slash, in the forms of `normalizedTargetPath`.
with_prefix : String → String → String
unfolding template
with_prefix prefix normalized =
    if prefix == "/"
    then (if normalized == "" then "/" else template ("/" ∷ normalized ∷ []))
    else if prefix == ""
    then (if normalized == "" then "." else normalized)
    else (if normalized == ""
        then template (prefix ∷ "/" ∷ [])
        else template (prefix ∷ "/" ∷ normalized ∷ []))

module _ (env : TextEnv) where
  -- `segments` of `normalizedTargetPath`
  segments_of : String → List String
  unfolding split_slash
  segments_of body = map env.nfc (filter (λ s. not (s == "" || s == ".")) (split_slash body))

  -- `normalizedValue` of `normalizedTargetPath`
  normalized_value : String → String
  unfolding drive_of segments_of with_prefix join template
  normalized_value slashed = elim (drive_of slashed) [
    | none ↦
        with_prefix (if starts_with slashed "/" then "/" else "") (join "/" (segments_of slashed))
    | some drive ↦
        with_prefix (template (env.lower drive.0 ∷ ":" ∷ [])) (join "/" (segments_of drive.1))
  ]

  -- `normalizedTargetPath`
  unfoldable pub normalized_target_path : String → Platform → String
  unfolding with_slashes normalized_value
  normalized_target_path value platform =
      let normalized = normalized_value (with_slashes value) in
      if platform == windows then env.lower normalized else normalized

  -- `invalidTargetReason`
  unfoldable pub invalid_target_reason : String → Option String
  unfolding any_char with_slashes split_slash
  invalid_target_reason target =
      if env.is_blank target
      then some "empty target"
      else if has_char 0 target
      then some "null byte in target"
      else if any (λ segment. segment == "..") (split_slash (with_slashes target))
      then some "parent traversal in target"
      else if any_char (one_of (b'*' ∷ b'?' ∷ b'[' ∷ b']' ∷ [])) target
      then some "glob in target"
      else none

  -- The last tests of `invalidRelativeTargetReason`.
  windows_or_glob_reason : String → Platform → Option String
  unfolding windows_reason split_slash any_char
  windows_or_glob_reason path platform =
      elim (if platform == windows then windows_reason (split_slash path) else none) [
        | some reason ↦ some reason
        | none ↦
            if any_char (one_of (b'*' ∷ b'?' ∷ b'[' ∷ b']' ∷ [])) path
            then some "glob in managed file path"
            else none
      ]

  -- `invalidRelativeTargetReason`
  unfoldable pub invalid_relative_target_reason : String → Platform → Option String
  unfolding any_char with_slashes split_slash starts_with_drive windows_or_glob_reason
  invalid_relative_target_reason path platform =
      if env.is_blank path
      then some "empty managed file path"
      else if has_char 0 path
      then some "null byte in managed file path"
      else if starts_with path "/" || starts_with path "\\" || starts_with_drive path
      then some "managed file path must be relative to its resource target"
      else if any (λ segment. segment == "..") (split_slash (with_slashes path))
      then some "parent traversal in managed file path"
      else if has_char b'\\' path
      then some "alternate path separator in managed file path"
      else if any (λ segment. segment == "" || segment == ".") (split_slash path)
      then some "managed file path is not canonical"
      else if not (env.nfc path == path)
      then some "managed file path is not canonical"
      else windows_or_glob_reason path platform

-- Tests with the texts as they are.
abbrev pub plain_text : TextEnv
plain_text = record { is_blank = λ s. s == ""; nfc = λ s. s; lower = λ s. s }

normalized_target_path_drive : normalized_target_path plain_text "c:\\a//./b" windows ≡ "c:/a/b"
unfolding normalized_target_path
normalized_target_path_drive = refl

relative_reason_reserved :
    invalid_relative_target_reason plain_text "a/CoM1.txt" windows
    ≡ some "reserved Windows name in managed file path"
unfolding invalid_relative_target_reason
relative_reason_reserved = refl

backslash_is_one : with_slashes "\\" ≡ "/"
unfolding with_slashes
backslash_is_one = refl
