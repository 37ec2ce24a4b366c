-- ===== src/Base/Lists.antt =====
-- Lists, over the native numbers, and sets as lists in the order of insertion.
use Prim.Native.Nat.{ℕ, suc, ◌+◌}
use mathlib.Core.Path.{◌≡◌, refl, sym, ap}
use mathlib.Core.Bool.{Bool, true, false, ◌&&◌, ◌||◌}
use mathlib.Core.Logic.{inl, inr}
use mathlib.Core.List.{List, [], ◌∷◌, ◌++◌, map, Memᴰ}
use native.Mathlib.Omega.{arith}
use codexport.Base.Tests.{Eq, ◌==◌, if◌then◌else◌, Bool-cases}

module _ {ℓ} {A : Type ℓ} where
  abbrev pub length : List A → ℕ
  length [] = 0
  length (x ∷ xs) = suc (length xs)

  pub length-append : (xs ys : List A) → length (xs ++ ys) ≡ length xs + length ys
  length-append [] ys = omega arith
  length-append (x ∷ xs) ys = omega (arith, length-append xs ys)

  -- `filter`, `every` and `some` with a Boolean test.
  abbrev pub filter : (A → Bool) → List A → List A
  filter p [] = []
  filter p (x ∷ xs) = if p x then x ∷ filter p xs else filter p xs

  abbrev pub all : (A → Bool) → List A → Bool
  all p [] = true
  all p (x ∷ xs) = p x && all p xs

  abbrev pub any : (A → Bool) → List A → Bool
  any p [] = false
  any p (x ∷ xs) = p x || any p xs

module _ {ℓ κ} {A : Type ℓ} where
  -- Every member has the property.
  abbrev pub All : (A → Type κ) → List A → Type κ
  All P [] = Unit
  All P (x ∷ xs) = P x × All P xs

  pub All-append : (P : A → Type κ) (xs ys : List A) → All P xs → All P ys → All P (xs ++ ys)
  All-append P [] ys left right = right
  All-append P (x ∷ xs) ys (head, tail) right = (head, All-append P xs ys tail right)

  pub All_at : (P : A → Type κ) {a : A} (xs : List A) → All P xs → Memᴰ a xs → P a
  All_at P [] h m = elim m [ ]
  All_at P (x ∷ xs) h (Memᴰ.head e) = rw e h.0
  All_at P (x ∷ xs) h (Memᴰ.tail m) = All_at P xs h.1 m

  pub All-of : (P : A → Type κ) (xs : List A) → ((a : A) → Memᴰ a xs → P a) → All P xs
  All-of P [] f = tt
  All-of P (x ∷ xs) f = (f x (Memᴰ.head refl), All-of P xs (λ a m. f a (Memᴰ.tail m)))

module _ {ℓ} {A : Type ℓ} where
  pub mem_of_mem-filter :
      (p : A → Bool) {a : A} (xs : List A) → Memᴰ a (filter p xs) → Memᴰ a xs × (p a ≡ true)
  mem_of_mem-filter p [] m = elim m [ ]
  mem_of_mem-filter p {a} (x ∷ xs) m = elim (Bool-cases (p x)) [
    | inl keep ↦ kept keep (mem_of_mem-filter p xs) (rw keep at m)
    | inr drop ↦ let (h, q) = mem_of_mem-filter p xs (rw drop at m) in (Memᴰ.tail h, q)
  ]
    where
      kept :
          p x ≡ true
          → (Memᴰ a (filter p xs) → Memᴰ a xs × (p a ≡ true))
          → Memᴰ a (x ∷ filter p xs)
          → Memᴰ a (x ∷ xs) × (p a ≡ true)
      kept keep rest (Memᴰ.head e) = (Memᴰ.head e, rw e keep)
      kept keep rest (Memᴰ.tail t) = let (h, q) = rest t in (Memᴰ.tail h, q)

  pub mem-filter_of_mem :
      (p : A → Bool) {a : A} (xs : List A) → Memᴰ a xs → p a ≡ true → Memᴰ a (filter p xs)
  mem-filter_of_mem p [] m h = elim m [ ]
  mem-filter_of_mem p (x ∷ xs) (Memᴰ.head e) h = rw (← e) (rw h (Memᴰ.head refl))
  mem-filter_of_mem p (x ∷ xs) (Memᴰ.tail m) h = elim (Bool-cases (p x)) [
    | inl keep ↦ rw keep (Memᴰ.tail (mem-filter_of_mem p xs m h))
    | inr drop ↦ rw drop (mem-filter_of_mem p xs m h)
  ]

module _ {ℓ} {A : Type ℓ} ⦃e : Eq A⦄ where
  -- `includes` of an array and `has` of a set.
  abbrev pub contains : A → List A → Bool
  contains a [] = false
  contains a (x ∷ xs) = x == a || contains a xs

  pub contains-append :
      (a : A) (xs ys : List A) → contains a (xs ++ ys) ≡ (contains a xs || contains a ys)
  contains-append a [] ys = refl
  contains-append a (x ∷ xs) ys = ground (arith, contains-append a xs ys)

  pub contains_of_mem : {a : A} (xs : List A) → Memᴰ a xs → contains a xs ≡ true
  contains_of_mem [] m = elim m [ ]
  contains_of_mem {a} (x ∷ xs) (Memᴰ.head p) = ground (arith, e.beq_iff x a)
  contains_of_mem (x ∷ xs) (Memᴰ.tail m) = ground (arith, contains_of_mem xs m)

  pub mem_of_contains : (a : A) (xs : List A) → contains a xs ≡ true → Memᴰ a xs
  mem_of_contains a [] h = cc
  mem_of_contains a (x ∷ xs) h = elim (Bool-cases (x == a)) [
    | inl same ↦ Memᴰ.head (sym ((e.beq_iff x a).0 same))
    | inr other ↦ Memᴰ.tail (mem_of_contains a xs (ground arith))
  ]

  -- `add` of a set: the order is that of insertion.
  abbrev pub set_add : List A → A → List A
  set_add s a = if contains a s then s else s ++ a ∷ []

  -- `new Set(values)`, from a set that is there.
  unfoldable pub set_from : List A → List A → List A
  set_from s [] = s
  set_from s (x ∷ xs) = set_from (set_add s x) xs

  abbrev pub to_set : List A → List A
  to_set = set_from []

  -- No member stands twice.
  abbrev pub IsSetList : List A → Type 0
  IsSetList [] = Unit
  IsSetList (x ∷ xs) = (contains x xs ≡ false) × IsSetList xs

  pub contains-set_add :
      (s : List A) (b a : A) → contains a (set_add s b) ≡ (contains a s || b == a)
  contains-set_add s b a = ground (arith, contains-append a s (b ∷ []), e.beq_iff b a)

  pub contains-set_from :
      (a : A) (s xs : List A) → contains a (set_from s xs) ≡ (contains a s || contains a xs)
  unfolding set_from
  contains-set_from a s [] = ground arith
  contains-set_from a s (x ∷ xs) =
      ground (arith, contains-set_from a (set_add s x) xs, contains-set_add s x a)

  pub IsSetList-concat :
      (s : List A) (b : A) → IsSetList s → contains b s ≡ false → IsSetList (s ++ b ∷ [])
  IsSetList-concat [] b h n = (refl, tt)
  IsSetList-concat (x ∷ s) b (hx, h) n = (
    ground (arith, contains-append x s (b ∷ []), e.beq_iff b x, e.beq_iff x b),
    IsSetList-concat s b h (ground arith),
  )

  pub IsSetList-set_add : (s : List A) (b : A) → IsSetList s → IsSetList (set_add s b)
  IsSetList-set_add s b h = elim (Bool-cases (contains b s)) [
    | inl old ↦ rw old h
    | inr new ↦ rw new (IsSetList-concat s b h new)
  ]

  pub IsSetList-set_from : (s xs : List A) → IsSetList s → IsSetList (set_from s xs)
  unfolding set_from
  IsSetList-set_from s [] h = h
  IsSetList-set_from s (x ∷ xs) h = IsSetList-set_from (set_add s x) xs (IsSetList-set_add s x h)

  pub contains-filter :
      (p : A → Bool) (a : A) (xs : List A) → contains a (filter p xs) ≡ (contains a xs && p a)
  contains-filter p a [] = refl
  contains-filter p a (x ∷ xs) = elim (Bool-cases (x == a)) [
    | inl same ↦ rw ((e.beq_iff x a).0 same) (ground (arith, e.beq_iff a a, contains-filter p a xs))
    | inr other ↦ ground (arith, contains-filter p a xs)
  ]

module _ {ℓ} {A : Type ℓ} where
  pub eq_of_mem-singleton : {a b : A} → Memᴰ a (b ∷ []) → a ≡ b
  eq_of_mem-singleton (Memᴰ.head p) = p
  eq_of_mem-singleton (Memᴰ.tail t) = elim t [ ]

module _ {ℓ κ} {A : Type ℓ} {B : Type κ} (f : A → B) where
  pub mem_of_mem-map : {b : B} (xs : List A) → Memᴰ b (map f xs) → (a : A) × Memᴰ a xs × (f a ≡ b)
  mem_of_mem-map [] m = elim m [ ]
  mem_of_mem-map (x ∷ xs) (Memᴰ.head p) = (x, Memᴰ.head refl, sym p)
  mem_of_mem-map (x ∷ xs) (Memᴰ.tail t) = let (a, m, e) = mem_of_mem-map xs t in (a, Memᴰ.tail m, e)

  pub mem-map_of_mem : {a : A} (xs : List A) → Memᴰ a xs → Memᴰ (f a) (map f xs)
  mem-map_of_mem [] m = elim m [ ]
  mem-map_of_mem (x ∷ xs) (Memᴰ.head p) = Memᴰ.head (ap f p)
  mem-map_of_mem (x ∷ xs) (Memᴰ.tail t) = Memᴰ.tail (mem-map_of_mem xs t)
