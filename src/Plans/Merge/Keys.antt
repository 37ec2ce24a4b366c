-- ===== src/Plans/Merge/Keys.antt =====
-- Which keys a merge writes and prunes.
use codexport.Base.{
  true, false, ◌≡◌, refl, ◌&&◌, not, String, List, [], ◌∷◌, Option, inl, inr, arith, Bool-cases,
  contains, filter, contains-filter, contains-set_from, to_set, string_eq, or_else,
}
use codexport.Base.Order.{sorted_unique, contains-sorted_unique}
use codexport.Domain.{PlanningContext, ConfigSpec, write_config}
use codexport.Plans.Env.{PlanEnv, draft, no_op_draft}
use codexport.Plans.Merge.{
  overlay_conflicts, prunable_keys, overlay_conflict, owned_keys_of, is_empty, merge_config,
}

-- The pruned keys are the owned keys that are neither declared nor claimed by the overlay.
contains-prunable_keys :
    (key : String) (owned declared overlay : List String)
    → contains key (prunable_keys owned declared overlay)
      ≡ (contains key owned && not (contains key declared) && not (contains key overlay))
unfolding prunable_keys
contains-prunable_keys key owned declared overlay = ground (
  arith,
  contains-filter (λ k. not (contains k overlay)) key
      (sorted_unique (filter (λ k. not (contains k (to_set declared))) owned)),
  contains-sorted_unique key (filter (λ k. not (contains k (to_set declared))) owned),
  contains-filter (λ k. not (contains k (to_set declared))) key owned,
  contains-set_from key [] declared,
)

pub contains_of_is_empty :
    (key : String) (ks : List String) → is_empty ks ≡ true → contains key ks ≡ false
contains_of_is_empty key [] h = refl
contains_of_is_empty key (k ∷ ks) h = cc

-- What a merge that writes has settled about a key.
pub record IsMerged (c : PlanningContext) (config : ConfigSpec) (keys removes : List String)
    (key : String) : Type 0 where
  pub written : contains key keys ≡ contains key config.keys
  pub pruned : contains key removes ≡ (
      contains key (owned_keys_of c)
      && not (contains key config.keys)
      && not (contains key c.overlay_keys))
  pub no_conflict : (contains key config.keys && contains key c.overlay_keys) ≡ false

-- A merge that writes writes exactly the declared keys, prunes exactly the owned keys that are
-- neither declared nor in the Local Overlay, and is planned only if no declared key is in the
-- Local Overlay.
pub merge_config-IsMerged :
    (env : PlanEnv) (c : PlanningContext) (config : ConfigSpec) (target : String)
    (keys : List String) (removes : Option (List String)) (key : String)
    → merge_config env c config ≡ draft (write_config target keys removes) ∷ []
    → IsMerged c config keys (or_else removes []) key
unfolding merge_config overlay_conflict no_op_draft
merge_config-IsMerged env c config target keys removes key h =
    elim (Bool-cases (is_empty (overlay_conflicts config.keys c.overlay_keys))) [
      | inr conflict ↦ absurd (ground arith)
      | inl free ↦
          elim (Bool-cases
            (is_empty (prunable_keys (owned_keys_of c) config.keys c.overlay_keys))) [
              | inl kept ↦ record {
                written = ground (arith, contains-sorted_unique key config.keys);
                pruned = ground (
                  arith,
                  contains_of_is_empty key
                      (prunable_keys (owned_keys_of c) config.keys c.overlay_keys),
                  contains-prunable_keys key (owned_keys_of c) config.keys c.overlay_keys,
                );
                no_conflict = disjoint free;
              }
              | inr some_pruned ↦ record {
                written = ground (arith, contains-sorted_unique key config.keys);
                pruned = ground (
                  arith,
                  contains-prunable_keys key (owned_keys_of c) config.keys c.overlay_keys,
                );
                no_conflict = disjoint free;
              }
            ]
    ]
  where
    disjoint :
        is_empty (overlay_conflicts config.keys c.overlay_keys) ≡ true
        → (contains key config.keys && contains key c.overlay_keys) ≡ false
    disjoint free = ground (
      arith,
      contains_of_is_empty key (overlay_conflicts config.keys c.overlay_keys),
      conflicts_lem,
    )
      where
        conflicts_lem :
            contains key (overlay_conflicts config.keys c.overlay_keys)
            ≡ (contains key config.keys && contains key c.overlay_keys)
        conflicts_lem =
            unfold overlay_conflicts in
            contains-filter (λ k. contains k c.overlay_keys) key config.keys
