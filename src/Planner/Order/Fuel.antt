-- ===== src/Planner/Order/Fuel.antt =====
-- planner.ts: the depth of `visit` in `orderResources`.
use codexport.Base.{
  true, false, ◌≡◌, ◌≢◌, refl, inl, inr, ℕ, zero, suc, ◌+◌, ◌<◌, String, List, [], ◌∷◌, ◌++◌, none,
  arith, keys, length, length-append, contains, contains-append, contains-keys, IsSetList,
  IsSetList-concat, IsSubset, length-le_of_IsSubset, string_eq, map_get, eq_iff, Option-cases,
  Bool-cases, text_lt,
}
use codexport.Base.Order.{sorted_unique, sort}
use codexport.Domain.{PublishedResource}
use codexport.Planner.Data.{TextMap}
use codexport.Planner.Order.{
  Walk, Visited, visited, cyclic, out_of_fuel, slice_from, visit_all, close, visit, order_fuel,
  walk_all, start,
}

pub slice_from-none :
    (id : String) (active : List String) → slice_from id active ≡ none → contains id active ≡ false
unfolding slice_from
slice_from-none id [] h = refl
slice_from-none id (a ∷ active) h = ground (arith, slice_from-none id active)

visit_all-fuel :
    (v : String → Walk → Visited)
    → ((id : String) (w : Walk) → v id w ≢ out_of_fuel)
    → (ids : List String) (w : Walk) → visit_all v ids w ≢ out_of_fuel
unfolding visit_all
visit_all-fuel v h [] w = λ e. cc
visit_all-fuel v h (id ∷ ids) w = go (v id w) refl (visit_all-fuel v h ids)
  where
    go :
        (x : Visited)
        → v id w ≡ x
        → ((w' : Walk) → visit_all v ids w' ≢ out_of_fuel)
        → visit_all v (id ∷ ids) w ≢ out_of_fuel
    go (visited w') x rest = λ e. rest w' (ground (arith, e))
    go (cyclic cycle) x rest = λ e. ground (arith, e)
    go out_of_fuel x rest = λ e. h id w x

close-fuel :
    (id : String) (r : PublishedResource) (x : Visited)
    → x ≢ out_of_fuel
    → close id r x ≢ out_of_fuel
unfolding close
close-fuel id r (visited w) h = λ e. cc
close-fuel id r (cyclic c) h = λ e. cc
close-fuel id r out_of_fuel h = h

module _ (resources : TextMap PublishedResource) where
  -- A stack of distinct resources with enough fuel for the resources that are not on it.
  abbrev Fueled : ℕ → List String → Type 0
  Fueled f active =
      IsSetList active
      × IsSubset active (keys resources)
      × (length (keys resources) < f + length active)

  Fueled-push :
      (f : ℕ) (active : List String) (id : String)
      → Fueled (suc f) active
      → contains id active ≡ false
      → contains id (keys resources) ≡ true
      → Fueled f (active ++ id ∷ [])
  Fueled-push f active id (s, h, n) new known = (
    IsSetList-concat active id s new,
    λ a m. ground (arith, contains-append a active (id ∷ []), h a, eq_iff id a, m),
    omega (arith, length-append active (id ∷ []), n),
  )

  visit-fuel :
      (f : ℕ) (active : List String) (id : String) (w : Walk)
      → Fueled f active
      → visit resources f active id w ≢ out_of_fuel
  unfolding visit
  visit-fuel zero active id w (s, h, n) =
      λ e. omega (arith, length-le_of_IsSubset active (keys resources) s h, n)
  visit-fuel (suc f) active id w k = elim (Bool-cases (contains id w.complete)) [
    | inl done ↦ λ e. ground (arith, e)
    | inr fresh ↦ elim (Option-cases (slice_from id active)) [
      | inr (tail, s) ↦ λ e. ground (arith, e)
      | inl new ↦ elim (Option-cases (map_get id resources)) [
        | inl m ↦ λ e. ground (arith, e)
        | inr (r, m) ↦ λ e.
            close-fuel id r _
              (visit_all-fuel (visit resources f (active ++ id ∷ []))
                (λ id' w'. visit-fuel f (active ++ id ∷ []) id' w' (
                  Fueled-push f active id k (slice_from-none id active new)
                    (ground (arith, contains-keys id resources))))
                (sorted_unique r.depends_on) w)
              (ground (arith, e))
      ]
    ]
  ]

  -- The search over all resources ends within the fuel that `order_resources` gives it, so the
  -- result of `order_resources` is never the one for a search that is out of fuel.
  pub walk_all-fuel : walk_all resources ≢ out_of_fuel
  unfolding walk_all
  walk_all-fuel =
      visit_all-fuel (visit resources (order_fuel resources) [])
        (λ id w. visit-fuel (order_fuel resources) [] id w (tt, λ a m. cc, omega arith))
        (sort text_lt (keys resources)) (start resources)
