-- ===== src/Base/Text.antt =====
-- Text: the order of JavaScript's `<`, templates, and the parent of a slash-separated path.
use Prim.Native.Nat.{ℕ, zero, suc, ◌+◌, ◌-◌, ◌/◌, ◌%◌}
use Prim.Native.Char.{Char, char, code, nul}
use Prim.Native.String
use Prim.Native.String.{String, [], ◌∷◌}
use mathlib.Core.Path.{◌≡◌, refl}
use mathlib.Core.Bool.{Bool, true, false}
use mathlib.Core.List
use mathlib.Core.List.{List}
use codexport.Base.Tests.{ltb, nat_beq, if◌then◌else◌}

-- A template literal: its parts, one after the other.
unfoldable pub template : List String → String
template List.[] = ""
template (List.◌∷◌ s r) = String.◌++◌ s (template r)

-- `values.join(separator)`
unfoldable pub join : String → List String → String
join sep List.[] = ""
join sep (List.◌∷◌ s List.[]) = s
join sep (List.◌∷◌ s (List.◌∷◌ t r)) = String.◌++◌ s (String.◌++◌ sep (join sep (List.◌∷◌ t r)))

-- The UTF-16 code units of a code point, before the units of the rest.
push_units : ℕ → List ℕ → List ℕ
push_units n r =
    if ltb n 65536
    then List.◌∷◌ n r
    else List.◌∷◌ (55296 + (n - 65536) / 1024) (List.◌∷◌ (56320 + (n - 65536) % 1024) r)

unfoldable pub units : String → List ℕ
unfolding push_units
units [] = List.[]
units (c ∷ s) = push_units (code c) (units s)

unfoldable pub units_lt : List ℕ → List ℕ → Bool
units_lt List.[] List.[] = false
units_lt List.[] (List.◌∷◌ y ys) = true
units_lt (List.◌∷◌ x xs) List.[] = false
units_lt (List.◌∷◌ x xs) (List.◌∷◌ y ys) =
    if ltb x y then true else if ltb y x then false else units_lt xs ys

-- `left < right` of two strings: by UTF-16 code units.
unfoldable pub text_lt : String → String → Bool
unfolding units units_lt
text_lt s t = units_lt (units s) (units t)

-- The proper prefixes of a path that end before a slash, the longest first: `path.slice(0, i)`
-- for each index `i` that `lastIndexOf("/")` gives, over and over.
unfoldable pub ancestors : String → List String
ancestors [] = List.[]
ancestors (c ∷ s) =
    List.◌++◌ (List.map (λ p. c ∷ p) (ancestors s))
      (if nat_beq (code c) b'/' then List.◌∷◌ [] List.[] else List.[])

ancestors_nearest_first : ancestors "a/b/c" ≡ List.◌∷◌ "a/b" (List.◌∷◌ "a" List.[])
unfolding ancestors
ancestors_nearest_first = refl

-- The texts "\0" and "\n".
abbrev pub nul_text : String
nul_text = nul ∷ []

abbrev pub line_break : String
line_break = char 10 tt ∷ []

octal_digit : ℕ → Char
octal_digit zero = "0"
octal_digit (suc zero) = "1"
octal_digit (suc (suc zero)) = "2"
octal_digit (suc (suc (suc zero))) = "3"
octal_digit (suc (suc (suc (suc zero)))) = "4"
octal_digit (suc (suc (suc (suc (suc zero))))) = "5"
octal_digit (suc (suc (suc (suc (suc (suc zero)))))) = "6"
octal_digit _ = "7"

-- The octal digits of `n` before `rest`. A number has no more digits than its value plus one.
octal_from : ℕ → ℕ → String → String
octal_from zero n rest = rest
octal_from (suc f) n rest =
    let here = octal_digit (n % 8) ∷ rest in
    let more = octal_from f (n / 8) here in if ltb n 8 then here else more

-- `n.toString(8)`
unfoldable pub octal : ℕ → String
unfolding octal_digit octal_from
octal n = octal_from (suc n) n ""

octal_mode : octal 493 ≡ "755"
unfolding octal
octal_mode = refl
