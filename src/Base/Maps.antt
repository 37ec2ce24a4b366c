-- ===== src/Base/Maps.antt =====
-- `Map` as an association list in the order of insertion. Setting a key that is there keeps its
-- place.
use mathlib.Core.Path.{◌≡◌, refl}
use mathlib.Core.Bool.{◌||◌}
use mathlib.Core.Logic.{inl, inr, ◌⊎◌}
use mathlib.Core.Option.{Option, none, some}
use mathlib.Core.List.{List, [], ◌∷◌, Memᴰ}
use native.Mathlib.Omega.{arith}
use codexport.Base.Tests.{Eq, ◌==◌, if◌then◌else◌, is_some, Bool-cases}
use codexport.Base.Lists.{contains, IsSetList}

module _ {ℓ κ} {K : Type ℓ} {V : Type κ} where
  abbrev pub keys : List (K × V) → List K
  keys [] = []
  keys ((k, v) ∷ m) = k ∷ keys m

  abbrev pub values : List (K × V) → List V
  values [] = []
  values ((k, v) ∷ m) = v ∷ values m

module _ {ℓ κ} {K : Type ℓ} {V : Type κ} ⦃e : Eq K⦄ where
  unfoldable pub map_get : K → List (K × V) → Option V
  map_get k [] = none
  map_get k ((j, v) ∷ m) = if j == k then some v else map_get k m

  unfoldable pub map_set : K → V → List (K × V) → List (K × V)
  map_set k v [] = (k, v) ∷ []
  map_set k v ((j, w) ∷ m) = if j == k then (j, v) ∷ m else (j, w) ∷ map_set k v m

  -- `new Map(entries)`, from a map that is there.
  unfoldable pub map_from : List (K × V) → List (K × V) → List (K × V)
  map_from m [] = m
  map_from m ((k, v) ∷ es) = map_from (map_set k v m) es

  pub map_get-map_set :
      (k j : K) (v : V) (m : List (K × V))
      → map_get j (map_set k v m) ≡ (if k == j then some v else map_get j m)
  unfolding map_get map_set
  map_get-map_set k j v [] = refl
  map_get-map_set k j v ((i, w) ∷ m) =
      ground (arith, e.beq_iff k j, e.beq_iff i k, e.beq_iff i j, map_get-map_set k j v m)

  pub keys-map_set :
      (k j : K) (v : V) (m : List (K × V))
      → contains j (keys (map_set k v m)) ≡ (contains j (keys m) || k == j)
  unfolding map_set
  keys-map_set k j v [] = ground arith
  keys-map_set k j v ((i, w) ∷ m) =
      ground (arith, e.beq_iff k j, e.beq_iff i k, e.beq_iff i j, keys-map_set k j v m)

  -- `has` and `get` agree.
  pub contains-keys : (k : K) (m : List (K × V)) → contains k (keys m) ≡ is_some (map_get k m)
  unfolding map_get
  contains-keys k [] = refl
  contains-keys k ((j, v) ∷ m) = ground (arith, contains-keys k m)

  pub mem_of_map_get : (k : K) (m : List (K × V)) {v : V} → map_get k m ≡ some v → Memᴰ (k, v) m
  unfolding map_get
  mem_of_map_get k [] h = cc
  mem_of_map_get k ((j, w) ∷ m) h = elim (Bool-cases (j == k)) [
    | inl same ↦ Memᴰ.head (ground (arith, e.beq_iff j k))
    | inr other ↦ Memᴰ.tail (mem_of_map_get k m (ground arith))
  ]

  pub IsSetList-map_set :
      (k : K) (v : V) (m : List (K × V)) → IsSetList (keys m) → IsSetList (keys (map_set k v m))
  unfolding map_set
  IsSetList-map_set k v [] h = (refl, tt)
  IsSetList-map_set k v ((i, w) ∷ m) h = elim (Bool-cases (i == k)) [
    | inl same ↦ rw same h
    | inr other ↦ rw other (
      ground (arith, keys-map_set k i v m, e.beq_iff i k, e.beq_iff k i),
      IsSetList-map_set k v m h.1,
    )
  ]

  -- What a map built from entries holds is one of them.
  pub mem_of_map_from :
      (k : K) {v : V} (m es : List (K × V))
      → map_get k (map_from m es) ≡ some v
      → (map_get k m ≡ some v) ⊎ Memᴰ (k, v) es
  unfolding map_from
  mem_of_map_from k m [] h = inl h
  mem_of_map_from k {v} m ((j, w) ∷ es) h = elim (mem_of_map_from k (map_set j w m) es h) [
    | inr there ↦ inr (Memᴰ.tail there)
    | inl set ↦ elim (Bool-cases (j == k)) [
      | inl same ↦ inr (Memᴰ.head (ground (arith, map_get-map_set j k w m, e.beq_iff j k)))
      | inr other ↦ inl (ground (arith, map_get-map_set j k w m))
    ]
  ]
