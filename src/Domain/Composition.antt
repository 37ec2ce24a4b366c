-- ===== src/Domain/Composition.antt =====
-- src/domain/text-composition.ts: the Source payload and the local suffix of an append-local file.
use Prim.Native.Char.{Char, code}
use Prim.Native.String.{String, [], ◌∷◌, ◌++◌}
use text.Mathlib.TextLemmas.{nil-append, cons-append, append_assoc}
use codexport.Base.{
  Bool, true, false, not, ◌≡◌, refl, sym, ap, ◌∙◌, inl, inr, ◌||◌, ℕ, Option, none, some,
  if◌then◌else◌, nat_beq, nat_beq_iff, arith, Bool-cases, Option-cases, is_some, ◌==◌, string_eq,
}

abbrev pub source_text_start : String
source_text_start = "<!-- canonfig:source:start -->"

abbrev pub source_text_end : String
source_text_end = "<!-- canonfig:source:end -->"

-- `TextComposition`
pub data TextComposition : Type 0 where
  unmanaged : (local : String) → TextComposition
  managed : (source local : String) → TextComposition

-- What stands after a prefix.
unfoldable pub strip : String → String → Option String
strip [] s = some s
strip (c ∷ p) [] = none
strip (c ∷ p) (d ∷ s) = let rest = strip p s in if nat_beq (code c) (code d) then rest else none

abbrev push : Char → Option (String × String) → Option (String × String)
push c none = none
push c (some (before, after)) = some (c ∷ before, after)

-- `indexOf` and two `slice`s: what stands before and after the first occurrence.
unfoldable pub split_at : String → String → Option (String × String)
unfolding strip
split_at p [] = elim (strip p []) [ none ↦ none | some after ↦ some ("", after) ]
split_at p (c ∷ s) =
    let rest = split_at p s in
    elim (strip p (c ∷ s)) [ none ↦ push c rest | some after ↦ some ("", after) ]

-- `text.includes(pattern)`
unfoldable pub includes : String → String → Bool
unfolding split_at
includes p s = is_some (split_at p s)

unfoldable pub has_code : ℕ → String → Bool
has_code n [] = false
has_code n (c ∷ s) = nat_beq (code c) n || has_code n s

strip-append : (p s : String) → strip p (p ++ s) ≡ some s
unfolding strip
strip-append [] s = rw nil-append refl
strip-append (c ∷ p) s =
    rw cons-append (ground (arith, strip-append p s, nat_beq_iff (code c) (code c)))

-- A pattern without a line feed that stands before one, stands whole before it.
strip-before :
    (p s t r : String)
    → has_code 10 p ≡ false
    → strip p (s ++ ("\n" ∷ t)) ≡ some r
    → is_some (strip p s) ≡ true
unfolding strip has_code
strip-before [] s t r h e = refl
strip-before (c ∷ p) [] t r h e = absurd (ground (arith, rw nil-append at e))
strip-before (c ∷ p) (d ∷ s) t r h e = elim (Bool-cases (nat_beq (code c) (code d))) [
  | inl same ↦ ground (
    arith,
    same,
    strip-before p s t r (ground (arith, h)) (ground (arith, same, rw cons-append at e)),
  )
  | inr other ↦ absurd (ground (arith, other, rw cons-append at e))
]

strip-append_left : (p u s r : String) → strip (p ++ u) s ≡ some r → is_some (strip p s) ≡ true
unfolding strip
strip-append_left [] u s r e = refl
strip-append_left (c ∷ p) u [] r e = absurd (ground (arith, rw cons-append at e))
strip-append_left (c ∷ p) u (d ∷ s) r e = elim (Bool-cases (nat_beq (code c) (code d))) [
  | inl same ↦
      ground (arith, same, strip-append_left p u s r (ground (arith, same, rw cons-append at e)))
  | inr other ↦ absurd (ground (arith, other, rw cons-append at e))
]

split_at-head : (p s r : String) → strip p s ≡ some r → split_at p s ≡ some ("", r)
unfolding split_at
split_at-head p [] r e = ground (arith, e)
split_at-head p (c ∷ s) r e = ground (arith, e)

includes_of_strip : (p s : String) → is_some (strip p s) ≡ true → includes p s ≡ true
unfolding includes split_at
includes_of_strip p [] h = ground (arith, h)
includes_of_strip p (c ∷ s) h = ground (arith, h)

includes-tail :
    (p : String) (c : Char) (s : String) → includes p (c ∷ s) ≡ false → includes p s ≡ false
unfolding includes split_at
includes-tail p c s h = ground (arith, h)

-- `\n${marker}${u}`
abbrev closing_of : String → String → String
closing_of e u = "\n" ∷ (e ++ u)

no_strip :
    (e u : String) (c : Char) (s t : String)
    → has_code 10 e ≡ false
    → includes e (c ∷ s) ≡ false
    → strip (closing_of e u) (c ∷ (s ++ (closing_of e u ++ t))) ≡ none
unfolding strip
no_strip e u c s t h k =
    elim (Option-cases (strip (closing_of e u) (c ∷ (s ++ (closing_of e u ++ t))))) [
      | inl stuck ↦ stuck
      | inr (r, found) ↦
          let inner : strip (e ++ u) (s ++ (closing_of e u ++ t)) ≡ some r =
            ground (arith, found) in
          let short = strip-append_left e u (s ++ (closing_of e u ++ t)) r inner in
          absurd (refuted short)
    ]
  where
    refuted : is_some (strip e (s ++ (closing_of e u ++ t))) ≡ true → ⊥
    refuted short = elim (Option-cases (strip e (s ++ (closing_of e u ++ t)))) [
      | inl stuck ↦ ground (arith, stuck, short)
      | inr (r, found) ↦
          let before = strip-before e s ((e ++ u) ++ t) r h (rw (← cons-append) found) in
          cc (sym (includes_of_strip e s before) ∙ includes-tail e c s k)
    ]

split_at-closing :
    (e u s t : String)
    → has_code 10 e ≡ false
    → includes e s ≡ false
    → split_at (closing_of e u) (s ++ (closing_of e u ++ t)) ≡ some (s, t)
unfolding split_at
split_at-closing e u [] t h k =
    rw nil-append
      (split_at-head (closing_of e u) (closing_of e u ++ t) t (strip-append (closing_of e u) t))
split_at-closing e u (c ∷ s) t h k =
    rw cons-append
      (ground (arith, no_strip e u c s t h k, split_at-closing e u s t h (includes-tail e c s k)))

-- What `parseTextComposition` gives or throws, after the decoding of the bytes.
pub data Parsed : Type 0 where
  parsed : TextComposition → Parsed
  broken : (message : String) → Parsed

-- `containsSourceMarker`
unfoldable pub contains_source_marker : String → Bool
unfolding includes
contains_source_marker text = includes source_text_start text || includes source_text_end text

-- `opening` and `closing`
abbrev pub opening : String
opening = source_text_start ++ "\n"

abbrev pub closing : String
closing = closing_of source_text_end "\n\n"

abbrev parse_payload : Option (String × String) → Parsed
parse_payload none = broken "append-local Source markers are missing, misplaced, or malformed"
parse_payload (some (source, local)) =
    if contains_source_marker source || contains_source_marker local
    then broken "append-local target contains repeated Source markers"
    else parsed (managed source local)

abbrev parse_body : Option String → Parsed
parse_body none = broken "append-local Source markers are missing, misplaced, or malformed"
parse_body (some body) = parse_payload (split_at closing body)

-- `parseTextComposition`
unfoldable pub parse_text_composition : String → Parsed
unfolding has_code strip split_at contains_source_marker
parse_text_composition text =
    if has_code 0 text
    then broken "append-local target contains NUL characters"
    else if not (contains_source_marker text)
    then parsed (unmanaged text)
    else parse_body (strip opening text)

-- The local text that `composeTextFile` keeps.
unfoldable pub kept_local : String → Option TextComposition → String
kept_local source none = ""
kept_local source (some (unmanaged local)) = if local == source then "" else local
kept_local source (some (managed _ local)) = local

-- `composeTextFile`, before the encoding.
unfoldable pub compose_text_file : String → Option TextComposition → String
unfolding kept_local
compose_text_file source current = opening ++ (source ++ (closing ++ kept_local source current))

includes_at_head : (p s : String) → includes p (p ++ s) ≡ true
includes_at_head p s = includes_of_strip p (p ++ s) (rw strip-append refl)

has_code-append : (n : ℕ) (s t : String) → has_code n (s ++ t) ≡ (has_code n s || has_code n t)
unfolding has_code
has_code-append n [] t = rw nil-append refl
has_code-append n (c ∷ s) t = rw cons-append (ground (arith, has_code-append n s t))

opening-no_nul : has_code 0 opening ≡ false
unfolding has_code
opening-no_nul = refl

closing-no_nul : has_code 0 closing ≡ false
unfolding has_code
closing-no_nul = refl

end-no_line_feed : has_code 10 source_text_end ≡ false
unfolding has_code
end-no_line_feed = refl

-- Where neither the Source payload nor the local text that is kept has a NUL or a Source marker, the
-- file that is composed of them is read back as this payload and this local text.
pub parse_text_composition-compose_text_file :
    (source : String) (current : Option TextComposition)
    → has_code 0 source ≡ false
    → has_code 0 (kept_local source current) ≡ false
    → contains_source_marker source ≡ false
    → contains_source_marker (kept_local source current) ≡ false
    → parse_text_composition (compose_text_file source current)
      ≡ parsed (managed source (kept_local source current))
unfolding parse_text_composition compose_text_file contains_source_marker
parse_text_composition-compose_text_file source current n m h k = ground (
  arith,
  has_code-append 0 opening (source ++ (closing ++ kept_local source current)),
  has_code-append 0 source (closing ++ kept_local source current),
  has_code-append 0 closing (kept_local source current),
  opening-no_nul,
  closing-no_nul,
  n,
  m,
  h,
  k,
  ap (includes source_text_start)
      (append_assoc source_text_start "\n" (source ++ (closing ++ kept_local source current))),
  includes_at_head source_text_start ("\n" ++ (source ++ (closing ++ kept_local source current))),
  strip-append opening (source ++ (closing ++ kept_local source current)),
  split_at-closing source_text_end "\n\n" source (kept_local source current) end-no_line_feed
      (ground (arith, h)),
)
