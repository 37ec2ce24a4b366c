-- ===== src/Base/Order.antt =====
-- Sorting by a strict order, as `sort` with a comparator does, and sorted sets of texts.
use Prim.Native.Nat.{ℕ}
use Prim.Native.String.{String}
use mathlib.Core.Path.{◌≡◌, refl, ap, ◌∙◌}
use mathlib.Core.Bool.{Bool, true, false, ◌||◌}
use mathlib.Core.Logic.{inl, inr, ◌↔◌}
use mathlib.Core.List.{List, [], ◌∷◌, Memᴰ, map}
use native.Mathlib.Omega.{arith}
use text.Mathlib.TextEquality.{eq_iff}
use codexport.Base.Tests.{eq_of_beq, Eq, string_eq, ◌==◌, if◌then◌else◌, Bool-cases}
use codexport.Base.Lists.{
  All, All_at, contains, filter, mem_of_mem-filter, mem-filter_of_mem, to_set, IsSetList,
  contains-set_from, IsSetList-set_from,
}
use codexport.Base.Text.{units, units_lt, text_lt}

module _ {ℓ} {A : Type ℓ} (lt : A → A → Bool) where
  -- A stable sort: an element goes before the first one that it is less than or ties with.
  insert : A → List A → List A
  insert a [] = a ∷ []
  insert a (x ∷ xs) = if lt x a then x ∷ insert a xs else a ∷ x ∷ xs

  unfoldable pub sort : List A → List A
  unfolding insert
  sort [] = []
  sort (x ∷ xs) = insert x (sort xs)

  -- No later element is less than an earlier one.
  abbrev pub IsSorted : List A → Type 0
  IsSorted [] = Unit
  IsSorted (x ∷ xs) = All (λ y. lt y x ≡ false) xs × IsSorted xs

  mem_of_mem-insert : {b : A} (a : A) (xs : List A) → Memᴰ b (insert a xs) → Memᴰ b (a ∷ xs)
  unfolding insert
  mem_of_mem-insert a [] m = m
  mem_of_mem-insert {b} a (x ∷ xs) m = elim (Bool-cases (lt x a)) [
    | inl less ↦ behind (mem_of_mem-insert a xs) (rw less at m)
    | inr other ↦ rw other at m
  ]
    where
      behind :
          (Memᴰ b (insert a xs) → Memᴰ b (a ∷ xs)) → Memᴰ b (x ∷ insert a xs) → Memᴰ b (a ∷ x ∷ xs)
      behind f (Memᴰ.head h) = Memᴰ.tail (Memᴰ.head h)
      behind f (Memᴰ.tail t) = swap (f t)
        where
          swap : Memᴰ b (a ∷ xs) → Memᴰ b (a ∷ x ∷ xs)
          swap (Memᴰ.head h) = Memᴰ.head h
          swap (Memᴰ.tail t) = Memᴰ.tail (Memᴰ.tail t)

  mem-insert_of_mem : {b : A} (a : A) (xs : List A) → Memᴰ b (a ∷ xs) → Memᴰ b (insert a xs)
  unfolding insert
  mem-insert_of_mem a [] m = m
  mem-insert_of_mem {b} a (x ∷ xs) m = elim (Bool-cases (lt x a)) [
    | inl less ↦ rw less (behind (mem-insert_of_mem a xs) m)
    | inr other ↦ rw other m
  ]
    where
      behind :
          (Memᴰ b (a ∷ xs) → Memᴰ b (insert a xs)) → Memᴰ b (a ∷ x ∷ xs) → Memᴰ b (x ∷ insert a xs)
      behind f (Memᴰ.head h) = Memᴰ.tail (f (Memᴰ.head h))
      behind f (Memᴰ.tail (Memᴰ.head h)) = Memᴰ.head h
      behind f (Memᴰ.tail (Memᴰ.tail t)) = Memᴰ.tail (f (Memᴰ.tail t))

  -- A sort has the members of its list.
  pub mem_of_mem-sort : {b : A} (xs : List A) → Memᴰ b (sort xs) → Memᴰ b xs
  unfolding sort
  mem_of_mem-sort [] m = m
  mem_of_mem-sort {b} (x ∷ xs) m = behind (mem_of_mem-sort xs) (mem_of_mem-insert x (sort xs) m)
    where
      behind : (Memᴰ b (sort xs) → Memᴰ b xs) → Memᴰ b (x ∷ sort xs) → Memᴰ b (x ∷ xs)
      behind f (Memᴰ.head h) = Memᴰ.head h
      behind f (Memᴰ.tail t) = Memᴰ.tail (f t)

  pub mem-sort_of_mem : {b : A} (xs : List A) → Memᴰ b xs → Memᴰ b (sort xs)
  unfolding sort
  mem-sort_of_mem [] m = m
  mem-sort_of_mem (x ∷ xs) (Memᴰ.head h) = mem-insert_of_mem x (sort xs) (Memᴰ.head h)
  mem-sort_of_mem (x ∷ xs) (Memᴰ.tail t) =
      mem-insert_of_mem x (sort xs) (Memᴰ.tail (mem-sort_of_mem xs t))

-- What a comparator needs for its sort to order: `not (b < a)` is a total preorder.
pub record IsOrder {ℓ} {A : Type ℓ} (lt : A → A → Bool) : Type ℓ where
  pub asym : (a b : A) → lt a b ≡ true → lt b a ≡ false
  pub le_trans : (a b c : A) → lt b a ≡ false → lt c b ≡ false → lt c a ≡ false

module _ {ℓ} {A : Type ℓ} {lt : A → A → Bool} (o : IsOrder lt) where
  All-le :
      (a b : A) (xs : List A)
      → lt b a ≡ false
      → All (λ y. lt y b ≡ false) xs
      → All (λ y. lt y a ≡ false) xs
  All-le a b [] h k = tt
  All-le a b (x ∷ xs) h k = (o.le_trans a b x h k.0, All-le a b xs h k.1)

  All-insert : (P : A → Type 0) (a : A) (xs : List A) → P a → All P xs → All P (insert lt a xs)
  unfolding insert
  All-insert P a [] h k = (h, tt)
  All-insert P a (x ∷ xs) h k = elim (Bool-cases (lt x a)) [
    | inl less ↦ rw less (k.0, All-insert P a xs h k.1)
    | inr other ↦ rw other (h, k)
  ]

  insert-IsSorted : (a : A) (xs : List A) → IsSorted lt xs → IsSorted lt (insert lt a xs)
  unfolding insert
  insert-IsSorted a [] h = (tt, tt)
  insert-IsSorted a (x ∷ xs) h = elim (Bool-cases (lt x a)) [
    | inl less ↦
        rw less
          (All-insert (λ y. lt y x ≡ false) a xs (o.asym x a less) h.0, insert-IsSorted a xs h.1)
    | inr other ↦ rw other ((other, All-le a x xs other h.0), h)
  ]

  pub sort-IsSorted : (xs : List A) → IsSorted lt (sort lt xs)
  unfolding sort
  sort-IsSorted [] = tt
  sort-IsSorted (x ∷ xs) = insert-IsSorted x (sort lt xs) (sort-IsSorted xs)

  irrefl : (a : A) → lt a a ≡ false
  irrefl a = elim (Bool-cases (lt a a)) [ inl less ↦ o.asym a a less | inr other ↦ other ]

  -- The first element of a sorted list is before no other.
  pub least_of_sort :
      (xs : List A) {a b : A} {rest : List A} → sort lt xs ≡ a ∷ rest → Memᴰ b xs → lt b a ≡ false
  least_of_sort xs {a} {b} {rest} e m =
      of_tail (rw e at (sort-IsSorted xs)) (rw e at (mem-sort_of_mem lt xs m))
    where
      of_tail : IsSorted lt (a ∷ rest) → Memᴰ b (a ∷ rest) → lt b a ≡ false
      of_tail h (Memᴰ.head p) = rw p (irrefl a)
      of_tail h (Memᴰ.tail t) = All_at (λ y. lt y a ≡ false) rest h.0 t

module _ {ℓ} {A : Type ℓ} ⦃e : Eq A⦄ (lt : A → A → Bool) where
  contains-insert :
      (a b : A) (xs : List A) → contains a (insert lt b xs) ≡ (b == a || contains a xs)
  unfolding insert
  contains-insert a b [] = refl
  contains-insert a b (x ∷ xs) = ground (arith, contains-insert a b xs)

  -- Sorting keeps the members.
  pub contains-sort : (a : A) (xs : List A) → contains a (sort lt xs) ≡ contains a xs
  unfolding sort
  contains-sort a [] = refl
  contains-sort a (x ∷ xs) = ground (arith, contains-insert a x (sort lt xs), contains-sort a xs)

  insert-IsSetList :
      (a : A) (xs : List A) → contains a xs ≡ false → IsSetList xs → IsSetList (insert lt a xs)
  unfolding insert
  insert-IsSetList a [] n h = (refl, tt)
  insert-IsSetList a (x ∷ xs) n h = elim (Bool-cases (lt x a)) [
    | inl less ↦ rw less (
      ground (arith, contains-insert x a xs, e.beq_iff a x, e.beq_iff x a),
      insert-IsSetList a xs (ground arith) h.1,
    )
    | inr other ↦ rw other (n, h)
  ]

  pub sort-IsSetList : (xs : List A) → IsSetList xs → IsSetList (sort lt xs)
  unfolding sort
  sort-IsSetList [] h = tt
  sort-IsSetList (x ∷ xs) h =
      insert-IsSetList x (sort lt xs) (rw contains-sort h.0) (sort-IsSetList xs h.1)

-- `[...new Set(values)].sort(compareText)`
unfoldable pub sorted_unique : List String → List String
sorted_unique xs = sort text_lt (to_set xs)

pub contains-sorted_unique :
    (a : String) (xs : List String) → contains a (sorted_unique xs) ≡ contains a xs
unfolding sorted_unique
contains-sorted_unique a xs = contains-sort text_lt a (to_set xs) ∙ contains-set_from a [] xs

pub sorted_unique-IsSetList : (xs : List String) → IsSetList (sorted_unique xs)
unfolding sorted_unique
sorted_unique-IsSetList xs = sort-IsSetList text_lt (to_set xs) (IsSetList-set_from [] xs tt)

units_lt_asym : (a b : List ℕ) → units_lt a b ≡ true → units_lt b a ≡ false
unfolding units_lt
units_lt_asym [] [] h = refl
units_lt_asym [] (y ∷ ys) h = refl
units_lt_asym (x ∷ xs) [] h = cc
units_lt_asym (x ∷ xs) (y ∷ ys) h = ground (arith, units_lt_asym xs ys)

units_le_trans :
    (a b c : List ℕ) → units_lt b a ≡ false → units_lt c b ≡ false → units_lt c a ≡ false
unfolding units_lt
units_le_trans [] b [] h k = refl
units_le_trans [] [] (z ∷ zs) h k = refl
units_le_trans [] (y ∷ ys) (z ∷ zs) h k = refl
units_le_trans (x ∷ xs) [] c h k = cc
units_le_trans (x ∷ xs) (y ∷ ys) [] h k = cc
units_le_trans (x ∷ xs) (y ∷ ys) (z ∷ zs) h k = ground (arith, units_le_trans xs ys zs)

-- The order of texts is a total preorder.
pub text_lt-IsOrder : IsOrder text_lt
unfolding text_lt
text_lt-IsOrder = record {
  asym = λ a b. units_lt_asym (units a) (units b);
  le_trans = λ a b c. units_le_trans (units a) (units b) (units c);
}

pub sorted_unique-IsSorted : (xs : List String) → IsSorted text_lt (sorted_unique xs)
unfolding sorted_unique
sorted_unique-IsSorted xs = sort-IsSorted text_lt-IsOrder (to_set xs)

-- The paths of the entries that pass a test, sorted.
pub contains-sort-map_iff {ℓ} :
    {A : Type ℓ} (f : A → String) (p : A → Bool) (k : String) (xs : List A)
    → (contains k (sort text_lt (map f (filter p xs))) ≡ true)
      ↔ ((a : A) × Memᴰ a xs × (p a ≡ true) × (f a ≡ k))
contains-sort-map_iff {A} f p k xs = (found xs, λ (a, m, h, e). kept a m h e)
  where
    in_map : (ys : List A) → contains k (map f ys) ≡ true → (a : A) × Memᴰ a ys × (f a ≡ k)
    in_map [] h = cc
    in_map (y ∷ ys) h = elim (Bool-cases (f y == k)) [
      | inl same ↦ (y, Memᴰ.head refl, eq_of_beq same)
      | inr other ↦ let (a, m, e) = in_map ys (ground arith) in (a, Memᴰ.tail m, e)
    ]

    of_map : (a : A) (ys : List A) → Memᴰ a ys → f a ≡ k → contains k (map f ys) ≡ true
    of_map a [] m e = elim m [ ]
    of_map a (y ∷ ys) (Memᴰ.head h) e = ground (arith, eq_iff (f y) k, ap f h)
    of_map a (y ∷ ys) (Memᴰ.tail t) e = ground (arith, of_map a ys t e)

    found :
        (ys : List A)
        → contains k (sort text_lt (map f (filter p ys))) ≡ true
        → (a : A) × Memᴰ a ys × (p a ≡ true) × (f a ≡ k)
    found ys h =
        let (a, m, e) = in_map (filter p ys) (rw contains-sort at h) in
        let (m', q) = mem_of_mem-filter p ys m in (a, m', q, e)

    kept :
        (a : A)
        → Memᴰ a xs
        → p a ≡ true
        → f a ≡ k
        → contains k (sort text_lt (map f (filter p xs))) ≡ true
    kept a m h e = rw contains-sort (of_map a (filter p xs) (mem-filter_of_mem p xs m h) e)
