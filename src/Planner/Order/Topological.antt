-- ===== src/Planner/Order/Topological.antt =====
-- planner.ts: the invariant of the walk of `orderResources`, through `visit` and its loops.
use codexport.Base.{
  All, All-append, map_get, some, true, false, ◌≡◌, refl, inl, inr, ◌||◌, ◌&&◌, String, List, [],
  ◌∷◌, ◌++◌, map, arith, keys, contains, contains-append, IsSetList, string_eq, ◌==◌, eq_iff,
  Bool-cases, set_add, contains-set_add, subst,
}
use codexport.Base.Order.{sorted_unique, contains-sorted_unique}
use codexport.Domain.{PublishedResource}
use codexport.Planner.Data.{TextMap}
use codexport.Planner.Order.{Walk, Visited, visited, cyclic, out_of_fuel, visit_all, close}

abbrev pub ids : List PublishedResource → List String
ids rs = map (λ (r : PublishedResource). r.id) rs

ids-append :
    (id : String) (rs : List PublishedResource) (r : PublishedResource)
    → contains id (ids (rs ++ r ∷ [])) ≡ (contains id (ids rs) || r.id == id)
ids-append id [] r = ground arith
ids-append id (x ∷ rs) r = ground (arith, ids-append id rs r)

ids-append-IsSetList :
    (rs : List PublishedResource) (r : PublishedResource)
    → IsSetList (ids rs)
    → contains r.id (ids rs) ≡ false
    → IsSetList (ids (rs ++ r ∷ []))
ids-append-IsSetList [] r h n = (refl, tt)
ids-append-IsSetList (x ∷ rs) r h n = (
  ground (arith, ids-append x.id rs r, h.0, eq_iff r.id x.id, eq_iff x.id r.id),
  ids-append-IsSetList rs r h.1 (ground arith),
)

module _ (resources : TextMap PublishedResource) where
  -- Each dependency that is a resource stands in the list before its resource, or is in `seen`.
  abbrev pub HasDependencies : (seen : List String) → List PublishedResource → Type 0
  HasDependencies seen [] = Unit
  HasDependencies seen (r ∷ rs) =
      ((d : String)
        → contains d r.depends_on ≡ true
        → contains d (keys resources) ≡ true
        → contains d seen ≡ true)
      × HasDependencies (r.id ∷ seen) rs

  HasDependencies-append :
      (seen : List String) (rs : List PublishedResource) (r : PublishedResource)
      → HasDependencies seen rs
      → ((d : String)
          → contains d r.depends_on ≡ true
          → contains d (keys resources) ≡ true
          → (contains d seen || contains d (ids rs)) ≡ true)
      → HasDependencies seen (rs ++ r ∷ [])
  HasDependencies-append seen [] r h k = (λ d m n. ground (arith, k d m n), tt)
  HasDependencies-append seen (x ∷ rs) r h k =
      (h.0, HasDependencies-append (x.id ∷ seen) rs r h.1 (λ d m n. ground (arith, k d m n)))

  -- What holds between two visits below a stack of active resources.
  pub record IsOrdered (active : List String) (w : Walk) : Type 0 where
    pub dependencies : HasDependencies [] w.ordered
    pub distinct : IsSetList (ids w.ordered)
    pub real : All (λ (r : PublishedResource). map_get r.id resources ≡ some r) w.ordered
    pub closed :
        (id : String)
        → contains id w.complete ≡ true
        → contains id (keys resources) ≡ true
        → contains id (ids w.ordered) ≡ true
    pub complete_ids :
        (id : String)
        → contains id (ids w.ordered) ≡ true
        → (contains id w.complete && contains id (keys resources)) ≡ true
    pub undone : (id : String) → contains id active ≡ true → contains id w.complete ≡ false

  -- What a visit of some identifiers achieves.
  pub record Reaches (active visits : List String) (w : Walk) (w' : Walk) : Type 0 where
    pub ordered : IsOrdered active w'
    pub grows : (id : String) → contains id w.complete ≡ true → contains id w'.complete ≡ true
    pub done : (id : String) → contains id visits ≡ true → contains id w'.complete ≡ true

  pub visit_all-Reaches :
      (active : List String) (v : String → Walk → Visited)
      → ((id : String) (w : Walk) (w' : Walk)
          → IsOrdered active w
          → v id w ≡ visited w'
          → Reaches active (id ∷ []) w w')
      → (visits : List String) (w : Walk) (w' : Walk) → IsOrdered active w
      → visit_all v visits w ≡ visited w'
      → Reaches active visits w w'
  unfolding visit_all
  visit_all-Reaches active v h [] w w' o e = record {
    ordered = subst (λ x. IsOrdered active x) (ground (arith, e)) o;
    grows = λ id m. ground (arith, e, m);
    done = λ id m. ground (arith, m);
  }
  visit_all-Reaches active v h (id ∷ visits) w w' o e =
      go (v id w) refl (visit_all-Reaches active v h visits)
    where
      go :
          (x : Visited)
          → v id w ≡ x
          → ((w1 : Walk) (w2 : Walk)
              → IsOrdered active w1
              → visit_all v visits w1 ≡ visited w2
              → Reaches active visits w1 w2)
          → Reaches active (id ∷ visits) w w'
      go (cyclic c) x rest = absurd (ground (arith, e))
      go out_of_fuel x rest = absurd (ground (arith, e))
      go (visited w1) x rest =
          let first = h id w w1 o x in
          let later = rest w1 w' first.ordered (ground (arith, e)) in
          record {
            ordered = later.ordered;
            grows = λ a m. later.grows a (first.grows a m);
            done = λ a m. elim (Bool-cases (id == a)) [
              | inl same ↦ later.grows a (first.done a (ground arith))
              | inr other ↦ later.done a (ground (arith, m))
            ];
          }

  pub close-visited :
      (id : String) (r : PublishedResource) (x : Visited) (w' : Walk)
      → close id r x ≡ visited w'
      → (w : Walk) × (x ≡ visited w)
        × (w'.complete ≡ set_add w.complete id)
        × (w'.ordered ≡ w.ordered ++ r ∷ [])
  unfolding close
  close-visited id r (visited w) w' e = (w, refl, ground (arith, e), ground (arith, e))
  close-visited id r (cyclic c) w' e = absurd (ground (arith, e))
  close-visited id r out_of_fuel w' e = absurd (ground (arith, e))

  pub Reaches-refl :
      (active : List String) (id : String) (w w' : Walk)
      → IsOrdered active w
      → w ≡ w'
      → contains id w.complete ≡ true
      → Reaches active (id ∷ []) w w'
  Reaches-refl active id w w' o e done = record {
    ordered = subst (λ x. IsOrdered active x) e o;
    grows = λ a m. ground (arith, e, m);
    done = λ a m. ground (arith, e, m, eq_iff id a, done);
  }

  -- A visit of an identifier that is no resource.
  pub unknown-Reaches :
      (active : List String) (id : String) (w : Walk)
      → IsOrdered active w
      → contains id (keys resources) ≡ false
      → contains id active ≡ false
      → Reaches active (id ∷ []) w (record w { complete = set_add w.complete id })
  unknown-Reaches active id w o unknown new = record {
    ordered = record {
      dependencies = o.dependencies;
      distinct = o.distinct;
      real = o.real;
      closed =
          λ a m k. ground (arith, contains-set_add w.complete id a, eq_iff id a, o.closed a, m, k);
      complete_ids = λ a m. ground (arith, contains-set_add w.complete id a, o.complete_ids a m);
      undone =
          λ a m. ground (arith, contains-set_add w.complete id a, eq_iff id a, o.undone a m, m);
    };
    grows = λ a m. ground (arith, contains-set_add w.complete id a, m);
    done = λ a m. ground (arith, contains-set_add w.complete id a, m);
  }

  pub IsOrdered-push :
      (active : List String) (id : String) (w : Walk)
      → IsOrdered active w
      → contains id w.complete ≡ false
      → IsOrdered (active ++ id ∷ []) w
  IsOrdered-push active id w o fresh = record {
    dependencies = o.dependencies;
    distinct = o.distinct;
    real = o.real;
    closed = o.closed;
    complete_ids = o.complete_ids;
    undone = λ a m. ground (arith, contains-append a active (id ∷ []), eq_iff id a, o.undone a, m);
  }

  -- A visit of a resource, after its dependencies.
  pub close-Reaches :
      (active : List String) (id : String) (r : PublishedResource) (w w1 w' : Walk)
      → r.id ≡ id
      → map_get r.id resources ≡ some r
      → contains id (keys resources) ≡ true
      → contains id active ≡ false
      → Reaches (active ++ id ∷ []) (sorted_unique r.depends_on) w w1
      → w'.complete ≡ set_add w1.complete id
      → w'.ordered ≡ w1.ordered ++ r ∷ []
      → Reaches active (id ∷ []) w w'
  close-Reaches active id r w w1 w' same real known new reached c l =
      let o = reached.ordered in
      let fresh = o.undone id (ground (arith, contains-append id active (id ∷ []), eq_iff id id)) in
      record {
        ordered = record {
          dependencies = rw l (
              HasDependencies-append [] w1.ordered r o.dependencies (λ d m n.
                ground (
                  arith,
                  o.closed d,
                  reached.done d,
                  contains-sorted_unique d r.depends_on,
                  m,
                  n,
                )));
          real = rw l (
              All-append (λ (x : PublishedResource). map_get x.id resources ≡ some x) w1.ordered
                (r ∷ []) o.real (real, tt));
          distinct = rw l (
              ids-append-IsSetList w1.ordered r o.distinct
                (ground (arith, o.complete_ids id, fresh, same)));
          closed = λ a m k. rw l (
              ground (
                arith,
                ids-append a w1.ordered r,
                same,
                c,
                contains-set_add w1.complete id a,
                o.closed a,
                m,
                k,
              ));
          complete_ids = λ a m.
              let there = rw l at m in
              ground (
                arith,
                ids-append a w1.ordered r,
                same,
                c,
                contains-set_add w1.complete id a,
                o.complete_ids a,
                there,
                eq_iff id a,
                known,
              );
          undone = λ a m. ground (
            arith,
            c,
            contains-set_add w1.complete id a,
            eq_iff id a,
            o.undone a,
            contains-append a active (id ∷ []),
            m,
            new,
          );
        };
        grows = λ a m. ground (arith, c, contains-set_add w1.complete id a, reached.grows a, m);
        done = λ a m. ground (arith, c, contains-set_add w1.complete id a, m);
      }
