-- ===== src/Plans/Dispatch/Removal.antt =====
-- What the removal of a resource may take away.
use codexport.Base.{
  true, ◌≡◌, refl, ◌⊎◌, inl, inr, ◌≢◌, String, List, [], Option, none, some, arith, Bool-cases,
  contains, string_eq, or_else, option_beq_iff, option_eq, ◌==◌, eq_of_beq,
}
use codexport.Base.Order.{contains-sorted_unique}
use codexport.Domain.{
  PlanningContext, AppliedRecord, absent, append_local, kind_eq, policy_eq, tool, credential,
  FileEntry,
}
use codexport.Plans.Env.{PlanEnv, Draft}
use codexport.Plans.Entries.{paths_of}
use codexport.Plans.Matching.{observed_matches_applied}
use codexport.Plans.Drift.{drift_draft}
use codexport.Plans.Dispatch.{
  removal, source_observed, has_source, tree_removal, removal_by_kind, remove_appended,
  plan_removed,
}

abbrev pub owned_paths : Option (List FileEntry) → List String
owned_paths none = []
owned_paths (some fs) = paths_of fs

-- Why a removal may be planned.
pub record IsWithdrawn (env : PlanEnv) (c : PlanningContext) (target : String)
    (paths keys : List String) : Type 0 where
  pub applied : AppliedRecord
  pub recorded : c.applied ≡ some applied
  pub same_target : applied.target ≡ some target
  pub same_kind : applied.kind ≡ some c.resource.kind
  pub same_policy : applied.policy ≡ some c.resource.policy
  pub unedited :
      (c.observed ≡ absent)
      ⊎ (((c.resource.policy ≢ append_local) × (observed_matches_applied env c ≡ true))
          ⊎ ((c.resource.policy ≡ append_local)
              × (has_source c.observed ≡ true)
              × (observed_matches_applied env (record c { observed = source_observed c.observed })
                  ≡ true)))
  pub owned_paths_only :
      (path : String)
      → contains path paths ≡ true
      → contains path (owned_paths applied.owned_files) ≡ true
  pub owned_keys_only :
      (key : String)
      → contains key keys ≡ true
      → contains key (or_else applied.owned_keys []) ≡ true
  pub not_software :
      c.resource.policy ≢ append_local → (c.resource.kind ≢ tool) × (c.resource.kind ≢ credential)

module _ (env : PlanEnv) (c : PlanningContext) (target : String) (paths keys : List String) where
  abbrev IsThis : List Draft → Type 0
  IsThis ds = ds ≡ removal target paths keys

  -- Where the target is unedited, what is removed is owned.
  kind-owned :
      (applied : AppliedRecord) (t : String)
      → IsThis (removal_by_kind c applied t)
      → (t ≡ target)
        × ((path : String)
            → contains path paths ≡ true
            → contains path (owned_paths applied.owned_files) ≡ true)
        × ((key : String)
            → contains key keys ≡ true
            → contains key (or_else applied.owned_keys []) ≡ true)
        × ((c.resource.kind ≢ tool) × (c.resource.kind ≢ credential))
  unfolding removal_by_kind tree_removal
  kind-owned applied t h = (
    ground arith,
    λ path m. ground (arith, contains-sorted_unique path (owned_paths applied.owned_files)),
    λ key m. ground (arith, contains-sorted_unique key (or_else applied.owned_keys [])),
    (λ e. ground arith, λ e. ground arith),
  )

  appended-unedited :
      (applied : AppliedRecord) (t : String)
      → IsThis (remove_appended env c applied t)
      → (t ≡ target)
        × (paths ≡ [])
        × (keys ≡ [])
        × ((c.observed ≡ absent)
            ⊎ ((has_source c.observed ≡ true)
                × (observed_matches_applied env (record c { observed = source_observed c.observed })
                    ≡ true)))
  unfolding remove_appended drift_draft
  appended-unedited applied t h = ground arith

  none_in :
      (keys : List String)
      → keys ≡ []
      → (owned : List String) (key : String) → contains key keys ≡ true
      → contains key owned ≡ true
  none_in keys e owned key m = absurd (cc (rw e at m))

  -- A removal is planned only for a resource that was applied with this kind and policy, at the
  -- target that was applied, where the observed state matches the applied one by
  -- `observed_matches_applied` (that of its Source payload, under `append-local`); it names only owned paths and owned keys, and never a tool or a
  -- credential, unless its policy is `append-local`.
  pub plan_removed-IsWithdrawn :
      plan_removed env c ≡ removal target paths keys → IsWithdrawn env c target paths keys
  unfolding plan_removed
  plan_removed-IsWithdrawn h = of_applied c.applied refl
    where
      of_target :
          (applied : AppliedRecord)
          → c.applied ≡ some applied
          → (t : Option String) → applied.target ≡ t
          → IsWithdrawn env c target paths keys
      of_target applied a none t = absurd (ground arith)
      of_target applied a (some place) t = elim (Bool-cases (c.resource.policy == append_local)) [
        | inl appending ↦
            let (same, no_paths, no_keys, cause) = appended-unedited applied place (ground arith) in
            record {
              applied = applied;
              recorded = a;
              same_target = ground arith;
              same_kind = ground (arith, option_beq_iff applied.kind (some c.resource.kind));
              same_policy = ground (arith, option_beq_iff applied.policy (some c.resource.policy));
              unedited = elim cause [
                | inl gone ↦ inl gone
                | inr (source, matches) ↦ inr (inr (eq_of_beq appending, source, matches))
              ];
              owned_paths_only = none_in paths no_paths (owned_paths applied.owned_files);
              owned_keys_only = none_in keys no_keys (or_else applied.owned_keys []);
              not_software = λ n. absurd (n (eq_of_beq appending));
            }
        | inr other ↦
            let (same, of_paths, of_keys, software) = kind-owned applied place (ground arith) in
            record {
              applied = applied;
              recorded = a;
              same_target = ground arith;
              same_kind = ground (arith, option_beq_iff applied.kind (some c.resource.kind));
              same_policy = ground (arith, option_beq_iff applied.policy (some c.resource.policy));
              unedited = inr (inl (λ e. ground arith, ground arith));
              owned_paths_only = of_paths;
              owned_keys_only = of_keys;
              not_software = λ n. software;
            }
      ]

      of_applied : (a : Option AppliedRecord) → c.applied ≡ a → IsWithdrawn env c target paths keys
      of_applied none a = absurd (ground arith)
      of_applied (some applied) a = of_target applied a applied.target refl
