-- ===== src/Plans/Dispatch.antt =====
-- resource-plans.ts: the removal of a resource, and the dispatch on the Apply Policy.
pub mod Total
pub mod Removal
pub mod Converged
pub mod Intent
use codexport.Base.{
  Bool, true, false, ◌&&◌, ◌||◌, not, String, List, [], ◌∷◌, Option, none, some, ◌==◌, is_none,
  is_some, if◌then◌else◌, or_else, option_eq,
}
use codexport.Base.Order.{sorted_unique}
use codexport.Domain.{
  ApplyPolicy, file, directory, config, skill, tool, credential, kind_eq, replace, mirror_owned,
  merge, replace_if_unmodified, append_local, ensure, require_local, policy_eq, ResourceKind,
  ObservedState, absent, present, PresentState, PlanningContext, AppliedRecord, remove_resource,
}
use codexport.Plans.Env.{PlanEnv, Draft, draft, Planned, drafts, throws, undecodable}
use codexport.Plans.Entries.{observed_digest, paths_of}
use codexport.Plans.Matching.{observed_matches_applied}
use codexport.Plans.Drift.{drift_draft, directory_root_conflict}
use codexport.Plans.Replace.{plan_replace}
use codexport.Plans.Unmodified.{plan_replace_if_unmodified, plan_append_local}
use codexport.Plans.Decoding.{first_undecodable, decoded_of_resource, decoded_of_removed}
use codexport.Plans.Merge.{plan_merge, plan_mirror}
use codexport.Plans.Ensure.{plan_ensure, plan_require_local}

abbrev pub removal : String → List String → List String → List Draft
removal target paths keys = draft (remove_resource target paths keys) ∷ []

-- The observed state with the digest of its Source payload, as removal compares it.
unfoldable pub source_observed : ObservedState → ObservedState
source_observed (present p) = elim p.managed_source_digest [
  | none ↦ present p
  | some digest ↦ present (record p { digest = digest })
]
source_observed o = o

abbrev pub has_source : ObservedState → Bool
has_source (present p) = is_some p.managed_source_digest
has_source _ = false

abbrev pub is_absent : ObservedState → Bool
is_absent absent = true
is_absent _ = false

-- The `directory` and `skill` case of `planRemovedResource`.
unfoldable pub tree_removal : ApplyPolicy → AppliedRecord → String → List Draft
unfolding sorted_unique
tree_removal policy applied target =
    if policy == mirror_owned || policy == replace || policy == replace_if_unmodified
    then elim applied.owned_files [
      | none ↦ []
      | some files ↦ removal target (sorted_unique (paths_of files)) []
    ]
    else []

-- The `switch` of `planRemovedResource`, where the follower has not edited the target.
unfoldable pub removal_by_kind : PlanningContext → AppliedRecord → String → List Draft
unfolding sorted_unique tree_removal
removal_by_kind c applied target = elim c.resource.kind [
  | file ↦
      if c.resource.policy == replace || c.resource.policy == replace_if_unmodified
      then removal target [] []
      else []
  | config ↦
      if c.resource.policy == replace
      then removal target [] []
      else if not (c.resource.policy == merge) || is_none applied.config_format
      then []
      else elim applied.owned_keys [
        | none ↦ []
        | some keys ↦ removal target [] (sorted_unique keys)
      ]
  | directory ↦ tree_removal c.resource.policy applied target
  | skill ↦ tree_removal c.resource.policy applied target
  | tool ↦ []
  | credential ↦ []
]

module _ (env : PlanEnv) where
  -- The branch of `planRemovedResource` for `append-local`.
  unfoldable pub remove_appended : PlanningContext → AppliedRecord → String → List Draft
  unfolding source_observed observed_matches_applied observed_digest drift_draft
  remove_appended c applied target =
      if not (is_absent c.observed)
        && (not (has_source c.observed)
            || not
                (observed_matches_applied env (record c { observed = source_observed c.observed })))
      then drift_draft c applied.digest
          (or_else (observed_digest env c.observed) (env.sha256_hex "canonfig:invalid-text-target"))
          none none
        ∷ []
      else removal target [] []

  -- `planRemovedResource`, where every digest that it reads decodes.
  unfoldable pub plan_removed : PlanningContext → List Draft
  unfolding remove_appended observed_matches_applied removal_by_kind
  plan_removed c = elim c.applied [
    | none ↦ []
    | some applied ↦ elim applied.target [
      | none ↦ []
      | some target ↦
          if not (applied.kind == some c.resource.kind)
            || not (applied.policy == some c.resource.policy)
          then []
          else if c.resource.policy == append_local
          then remove_appended c applied target
          else if observed_matches_applied env c
          then removal_by_kind c applied target
          else []
    ]
  ]

  -- The `switch` of `planResource`.
  unfoldable pub plan_by_policy : PlanningContext → Planned
  unfolding plan_replace plan_mirror plan_merge plan_replace_if_unmodified plan_append_local
      plan_ensure plan_require_local
  plan_by_policy c = elim c.resource.policy [
    | replace ↦ drafts (plan_replace env c)
    | mirror_owned ↦ drafts (plan_mirror env c)
    | merge ↦ drafts (plan_merge env c)
    | replace_if_unmodified ↦ drafts (plan_replace_if_unmodified env c)
    | append_local ↦ plan_append_local env c
    | ensure ↦ plan_ensure env c
    | require_local ↦ plan_require_local c
  ]

  -- The plan of a resource where every digest that `planResource` reads decodes.
  unfoldable pub plan_decoded : PlanningContext → Planned
  unfolding directory_root_conflict plan_by_policy
  plan_decoded c = elim (directory_root_conflict env c) [
    | some conflict ↦ drafts (conflict ∷ [])
    | none ↦ plan_by_policy c
  ]

  -- `planResource`
  unfoldable pub plan_resource : PlanningContext → Planned
  unfolding plan_decoded decoded_of_resource first_undecodable
  plan_resource c = elim (first_undecodable (decoded_of_resource env c)) [
    | some text ↦ throws (undecodable text)
    | none ↦ plan_decoded c
  ]

  -- `planRemoved`, with what it throws.
  unfoldable pub plan_withdrawn : PlanningContext → Planned
  unfolding plan_removed decoded_of_removed first_undecodable
  plan_withdrawn c = elim (first_undecodable (decoded_of_removed env c)) [
    | some text ↦ throws (undecodable text)
    | none ↦ drafts (plan_removed c)
  ]
