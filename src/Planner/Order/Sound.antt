-- ===== src/Planner/Order/Sound.antt =====
-- planner.ts: what `orderResources` returns for the resources that `indexInput` has indexed.
use codexport.Base.{
  All, sym, true, ◌≡◌, refl, inl, inr, ℕ, zero, suc, String, List, [], ◌∷◌, ◌++◌, map, none, some,
  arith, keys, values, contains, contains-keys, IsSetList, string_eq, map_get, map_set,
  map_get-map_set, eq_iff, Option-cases, Bool-cases, text_lt, subst,
}
use mathlib.Core.List.{Memᴰ}
use codexport.Base.Order.{sorted_unique, sort, contains-sort}
use codexport.Domain.{PublishedResource}
use codexport.Planner.Data.{TextMap, ok}
use codexport.Planner.Index.{index_unique, index_from}
use codexport.Planner.Order.{
  Walk, Visited, visited, cyclic, out_of_fuel, slice_from, visit_all, visit, order_fuel, walk_all,
  start, order_resources, missing_from, undeclared,
}
use codexport.Planner.Order.Fuel.{slice_from-none, walk_all-fuel}
use codexport.Planner.Order.Topological.{
  ids, HasDependencies, IsOrdered, Reaches, visit_all-Reaches, close-visited, Reaches-refl,
  unknown-Reaches, IsOrdered-push, close-Reaches,
}

-- Each resource is indexed by its identifier.
abbrev IsKeyed : TextMap PublishedResource → Type 0
IsKeyed resources =
    (id : String) (r : PublishedResource) → map_get id resources ≡ some r → r.id ≡ id

abbrev pub entry_of : PublishedResource → String × PublishedResource
entry_of r = (r.id, r)

index_from-IsKeyed :
    (collection : String) (m : TextMap PublishedResource) (rs : List PublishedResource)
    (resources : TextMap PublishedResource)
    → IsKeyed m
    → index_from collection m (map entry_of rs) ≡ ok resources
    → IsKeyed resources
unfolding index_from
index_from-IsKeyed collection m [] resources k e = λ id r h. k id r (ground (arith, e, h))
index_from-IsKeyed collection m (r ∷ rs) resources k e =
    index_from-IsKeyed collection (map_set r.id r m) rs resources
      (λ id x h. ground (arith, map_get-map_set r.id id r m, eq_iff r.id id, k id x, h))
      (ground (arith, e))

index_unique-IsKeyed :
    (collection : String) (rs : List PublishedResource) (resources : TextMap PublishedResource)
    → index_unique collection (map entry_of rs) ≡ ok resources
    → IsKeyed resources
unfolding index_unique map_get
index_unique-IsKeyed collection rs resources e =
    index_from-IsKeyed collection [] rs resources (λ id r h. cc) e

undeclared-none :
    (resources : TextMap PublishedResource) (ds : List String) (d : String)
    → undeclared resources ds ≡ none
    → contains d ds ≡ true
    → contains d (keys resources) ≡ true
unfolding undeclared
undeclared-none resources [] d h m = cc
undeclared-none resources (x ∷ ds) d h m =
    ground (arith, undeclared-none resources ds d, eq_iff x d, h, m)

missing_from-none :
    (resources : TextMap PublishedResource) (rs : List PublishedResource) (r : PublishedResource)
    (d : String)
    → missing_from resources rs ≡ none
    → Memᴰ r rs
    → contains d r.depends_on ≡ true
    → contains d (keys resources) ≡ true
unfolding missing_from
missing_from-none resources [] r d h m k = elim m [ ]
missing_from-none resources (x ∷ rs) r d h (Memᴰ.head p) k =
    undeclared-none resources x.depends_on d (ground (arith, h)) (ground (arith, p, k))
missing_from-none resources (x ∷ rs) r d h (Memᴰ.tail t) k =
    missing_from-none resources rs r d (ground (arith, h)) t k

module _ (resources : TextMap PublishedResource) (keyed : IsKeyed resources) where
  visit-Reaches :
      (f : ℕ) (active : List String) (id : String) (w w' : Walk)
      → IsOrdered resources active w
      → visit resources f active id w ≡ visited w'
      → Reaches resources active (id ∷ []) w w'
  unfolding visit
  visit-Reaches zero active id w w' o e = absurd (ground (arith, e))
  visit-Reaches (suc f) active id w w' o e = elim (Bool-cases (contains id w.complete)) [
    | inl done ↦ Reaches-refl resources active id w w' o (ground (arith, e)) done
    | inr fresh ↦ elim (Option-cases (slice_from id active)) [
      | inr (tail, s) ↦ absurd (ground (arith, e))
      | inl new ↦ elim (Option-cases (map_get id resources)) [
        | inl m ↦
            subst (λ x. Reaches resources active (id ∷ []) w x) (ground (arith, e))
              (unknown-Reaches resources active id w o (ground (arith, contains-keys id resources))
                (slice_from-none id active new))
        | inr (r, m) ↦
            let (w1, found, complete, ordered) =
              close-visited resources id r
                (visit_all (visit resources f (active ++ id ∷ [])) (sorted_unique r.depends_on) w)
                w' (ground (arith, e)) in
            close-Reaches resources active id r w w1 w' (keyed id r m)
              (subst (λ x. map_get x resources ≡ some r) (sym (keyed id r m)) m)
              (ground (arith, contains-keys id resources)) (slice_from-none id active new)
              (visit_all-Reaches resources (active ++ id ∷ [])
                (visit resources f (active ++ id ∷ [])) (λ d. visit-Reaches f (active ++ id ∷ []) d)
                (sorted_unique r.depends_on) w w1 (IsOrdered-push resources active id w o fresh)
                found)
              complete ordered
      ]
    ]
  ]

  walk_all-Reaches :
      (w : Walk)
      → walk_all resources ≡ visited w
      → Reaches resources [] (sort text_lt (keys resources)) (start resources) w
  unfolding walk_all
  walk_all-Reaches w e =
      visit_all-Reaches resources [] (visit resources (order_fuel resources) [])
        (λ id. visit-Reaches (order_fuel resources) [] id) (sort text_lt (keys resources))
        (start resources) w
        (record {
          dependencies = tt;
          distinct = tt;
          real = tt;
          closed = λ id m k. cc;
          complete_ids = λ id m. cc;
          undone = λ id m. refl;
        })
        e

-- What an order of the indexed resources has.
pub record IsDependencyOrder (resources : TextMap PublishedResource)
    (ordered : List PublishedResource) : Type 0 where
  pub before : HasDependencies resources [] ordered
  pub declared :
      (r : PublishedResource) (d : String)
      → Memᴰ r (values resources)
      → contains d r.depends_on ≡ true
      → contains d (keys resources) ≡ true
  pub distinct : IsSetList (ids ordered)
  pub real : All (λ (r : PublishedResource). map_get r.id resources ≡ some r) ordered
  pub same_ids : (id : String) → contains id (ids ordered) ≡ contains id (keys resources)

-- For published resources that are indexed without a duplicate, an order that `order_resources`
-- returns has each of them exactly once, and each dependency before the resource that declares it;
-- every declared dependency is then a resource.
pub order_resources-IsDependencyOrder :
    (collection : String) (rs : List PublishedResource) (resources : TextMap PublishedResource)
    (ordered : List PublishedResource)
    → index_unique collection (map entry_of rs) ≡ ok resources
    → order_resources resources ≡ ok ordered
    → IsDependencyOrder resources ordered
unfolding order_resources
order_resources-IsDependencyOrder collection rs resources ordered indexed e =
    elim (Option-cases (missing_from resources (values resources))) [
      | inr (error, missing) ↦ absurd (ground (arith, e))
      | inl none_missing ↦ go none_missing (walk_all resources) refl
    ]
  where
    go :
        missing_from resources (values resources) ≡ none
        → (x : Visited) → walk_all resources ≡ x
        → IsDependencyOrder resources ordered
    go n (cyclic c) x = absurd (ground (arith, e))
    go n out_of_fuel x = absurd (walk_all-fuel resources x)
    go n (visited w) x =
        let keyed = index_unique-IsKeyed collection rs resources indexed in
        let reached = walk_all-Reaches resources keyed w x in
        let o = reached.ordered in
        let same : w.ordered ≡ ordered = ground (arith, e) in
        record {
          before = subst (λ l. HasDependencies resources [] l) same o.dependencies;
          declared = λ r d m k. missing_from-none resources (values resources) r d n m k;
          distinct = subst (λ l. IsSetList (ids l)) same o.distinct;
          real =
              subst (λ l. All (λ (r : PublishedResource). map_get r.id resources ≡ some r) l) same
                o.real;
          same_ids = λ id.
              subst (λ l. contains id (ids l) ≡ contains id (keys resources)) same
                (ground (
                  arith,
                  o.closed id,
                  o.complete_ids id,
                  reached.done id,
                  contains-sort text_lt id (keys resources),
                ));
        }
