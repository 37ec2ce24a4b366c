-- ===== src/Plans/Dispatch/Intent.antt =====
-- resource-plans.ts: the executable bit and the mode of the writes that are planned.
use codexport.Base.{
  Bool, true, false, not, ◌≡◌, refl, inl, inr, ◌||◌, String, List, [], ◌∷◌, Option, none, some,
  arith, Option-cases, Bool-cases, All, subst, template, or_else, ◌==◌, option_eq, if◌then◌else◌,
}
use codexport.Domain.{
  PlanningContext, DesiredResource, file_resource, ActionDetail, write_file, append_local, ToolSpec,
  ToolRecipe, ObservedState, present, kind_eq, policy_eq, absent, directory_state, unverifiable,
  tool_resource, credential_resource, human_action, ApplyPolicy, AppliedRecord,
}
use codexport.Plans.Env.{PlanEnv, Draft, draft, drafts, no_op_draft}
use codexport.Plans.Entries.{desired_resource_digest}
use codexport.Plans.Matching.{observed_matches_applied}
use codexport.Plans.Drift.{
  drift_draft, DriftState, unchanged, converged, remote_only, local_only, conflicting,
  detect_skill_drift,
}
use codexport.Plans.Replace.{
  plan_replace, replacement, replace_directory, write_file_draft, unresolved_agent_task,
  missing_agent_install_bounds, agent_draft, resolve_summary,
}
use codexport.Plans.Unmodified.{
  plan_replace_if_unmodified, plan_unmodified, by_drift, executable_drift, unreadable_target,
  drift_input, current_digest, unverifiable_digest, is_unverifiable, is_converged_skill,
  is_shape_conflict,
}
use codexport.Plans.Merge.{plan_merge, merge_config, overlay_conflict, plan_mirror}
use codexport.Plans.Ensure.{
  plan_ensure, install_missing, recipe_obstacle, installation, chosen_recipe, plan_require_local,
}
use codexport.Plans.Dispatch.{plan_removed, remove_appended, removal_by_kind, tree_removal}

-- A write has the executable bit and the mode of the wanted file, or none for another resource.
abbrev pub HasIntent : DesiredResource → ActionDetail → Type 0
HasIntent (file_resource f) (write_file w) =
    (w.executable ≡ some f.executable) × (w.mode ≡ some f.mode)
HasIntent d (write_file w) = (w.executable ≡ none) × (w.mode ≡ none)
HasIntent d _ = Unit

abbrev AllIntended : DesiredResource → List Draft → Type 0
AllIntended d ds = All (λ (x : Draft). HasIntent d x.detail) ds

abbrev is_present : ObservedState → Bool
is_present (present _) = true
is_present _ = false

module _ (env : PlanEnv) (c : PlanningContext) where
  task-intended : (s : String) → HasIntent c.desired (unresolved_agent_task env c s).detail
  unfolding unresolved_agent_task missing_agent_install_bounds agent_draft
  task-intended s = ground arith

  replace-intended : AllIntended c.desired (plan_replace env c)
  unfolding plan_replace replacement replace_directory write_file_draft no_op_draft
  replace-intended = ground (arith, task-intended (resolve_summary env c))

  drift-intended :
      (d : String) (current : Option String) (s : DriftState)
      → AllIntended c.desired (by_drift env c d current s)
  unfolding by_drift drift_draft executable_drift no_op_draft
  drift-intended d current unchanged = ground arith
  drift-intended d current converged = ground arith
  drift-intended d current remote_only = replace-intended
  drift-intended d none local_only = replace-intended
  drift-intended d none conflicting = replace-intended
  drift-intended d (some x) local_only = ground arith
  drift-intended d (some x) conflicting = ground arith

  unmodified_at-intended :
      (d e : String) (current : Option String) (s : DriftState) (p q r : Bool)
      → AllIntended c.desired (
          if p
          then unreadable_target c ∷ []
          else if q
          then no_op_draft ∷ []
          else if r
          then executable_drift c d e ∷ []
          else by_drift env c d current s)
  unfolding unreadable_target executable_drift drift_draft no_op_draft
  unmodified_at-intended d e current s true q r = ground arith
  unmodified_at-intended d e current s false true r = ground arith
  unmodified_at-intended d e current s false false true = ground arith
  unmodified_at-intended d e current s false false false = drift-intended d current s

  plan_unmodified-intended : (d : String) → AllIntended c.desired (plan_unmodified env c d)
  unfolding plan_unmodified
  plan_unmodified-intended d =
      unmodified_at-intended d (or_else (current_digest env c) (unverifiable_digest env))
        (current_digest env c) (detect_skill_drift (drift_input c d (current_digest env c)))
        (is_unverifiable c.observed) (is_converged_skill env c) (is_shape_conflict env c)

  unmodified-intended : AllIntended c.desired (plan_replace_if_unmodified env c)
  unfolding plan_replace_if_unmodified
  unmodified-intended = elim (Option-cases (desired_resource_digest env c.desired)) [
    | inl nothing ↦
        rw (nothing, plan_replace_if_unmodified) (task-intended (resolve_summary env c), tt)
    | inr (d, found) ↦ rw (found, plan_replace_if_unmodified) (plan_unmodified-intended d)
  ]

  merge-intended : AllIntended c.desired (plan_merge env c)
  unfolding plan_merge merge_config overlay_conflict no_op_draft
  merge-intended = ground arith

  mirror-intended : AllIntended c.desired (plan_mirror env c)
  unfolding plan_mirror no_op_draft
  mirror-intended = ground arith

  tree_removal-intended :
      (p : ApplyPolicy) (a : AppliedRecord) (t : String)
      → AllIntended c.desired (tree_removal p a t)
  unfolding tree_removal
  tree_removal-intended p a t = ground arith

  by_kind-intended :
      (a : AppliedRecord) (t : String) → AllIntended c.desired (removal_by_kind c a t)
  unfolding removal_by_kind
  by_kind-intended a t = ground (arith, tree_removal-intended c.resource.policy a t)

  appended-intended :
      (a : AppliedRecord) (t : String) → AllIntended c.desired (remove_appended env c a t)
  unfolding remove_appended drift_draft
  appended-intended a t = ground arith

  removed_at-intended :
      (a : AppliedRecord) (t : String) (p q r : Bool)
      → AllIntended c.desired (
          if p
          then []
          else if q
          then remove_appended env c a t
          else if r
          then removal_by_kind c a t
          else [])
  removed_at-intended a t true q r = tt
  removed_at-intended a t false true r = appended-intended a t
  removed_at-intended a t false false true = by_kind-intended a t
  removed_at-intended a t false false false = tt

  pub removed-intended : AllIntended c.desired (plan_removed env c)
  unfolding plan_removed
  removed-intended = elim (Option-cases c.applied) [
    | inl nothing ↦ rw (nothing, plan_removed) tt
    | inr (a, applied) ↦ elim (Option-cases a.target) [
      | inl nowhere ↦ rw (applied, nowhere, plan_removed) tt
      | inr (t, target) ↦
          rw (applied, target, plan_removed)
            (removed_at-intended a t
              (not (a.kind == some c.resource.kind) || not (a.policy == some c.resource.policy))
              (c.resource.policy == append_local) (observed_matches_applied env c))
    ]
  ]

obstacle-intended :
    (env : PlanEnv) (w : DesiredResource) (t : ToolSpec) (r : ToolRecipe) (o : Draft)
    → recipe_obstacle env t r ≡ some o
    → HasIntent w o.detail
unfolding recipe_obstacle
obstacle-intended env w t r o h = ground arith

module _ (env : PlanEnv) (c : PlanningContext) where
  missing-intended : (t : ToolSpec) → AllIntended c.desired (install_missing env c t)
  unfolding install_missing installation
  missing-intended t = elim (Option-cases (chosen_recipe c.platform t.recipes)) [
    | inl nothing ↦ rw (nothing, install_missing) (task-intended env c _, tt)
    | inr (r, found) ↦ elim (Option-cases (recipe_obstacle env t r)) [
      | inr (o, obstacle) ↦
          rw (found, obstacle, install_missing) (obstacle-intended env c.desired t r o obstacle, tt)
      | inl free ↦ rw (found, free, install_missing) (ground arith)
    ]
  ]

  ensure-intended : (ds : List Draft) → plan_ensure env c ≡ drafts ds → AllIntended c.desired ds
  unfolding plan_ensure no_op_draft
  ensure-intended ds h = of_desired c.desired refl
    where
      same :
          (xs : List Draft)
          → plan_ensure env c ≡ drafts xs
          → AllIntended c.desired xs
          → AllIntended c.desired ds
      same xs k p = subst (λ l. AllIntended c.desired l) (cc) p

      of_observed :
          (t : ToolSpec)
          → c.desired ≡ tool_resource t
          → (o : ObservedState) → c.observed ≡ o
          → AllIntended c.desired ds
      of_observed t w (present p) o = same (no_op_draft ∷ []) (ground arith) (ground arith)
      of_observed t w (unverifiable r) o =
          same
            (unresolved_agent_task env c (template ("Verify or install tool " ∷ t.tool_id ∷ []))
              ∷ [])
            (ground arith) (task-intended env c _, tt)
      of_observed t w absent o = same (install_missing env c t) (ground arith) (missing-intended t)
      of_observed t w (directory_state s) o =
          same (install_missing env c t) (ground arith) (missing-intended t)

      of_desired : (d : DesiredResource) → c.desired ≡ d → AllIntended c.desired ds
      of_desired (tool_resource t) w = of_observed t w c.observed refl
      of_desired _ w = absurd (ground arith)

  require-intended : (ds : List Draft) → plan_require_local c ≡ drafts ds → AllIntended c.desired ds
  unfolding plan_require_local no_op_draft
  require-intended ds h = of_desired c.desired refl
    where
      same :
          (xs : List Draft)
          → plan_require_local c ≡ drafts xs
          → AllIntended c.desired xs
          → AllIntended c.desired ds
      same xs k p = subst (λ l. AllIntended c.desired l) (cc) p

      of_desired : (d : DesiredResource) → c.desired ≡ d → AllIntended c.desired ds
      of_desired (credential_resource a b) w = elim (Bool-cases (is_present c.observed)) [
        | inl there ↦ same (no_op_draft ∷ []) (ground arith) (ground arith)
        | inr missing ↦
            same
              (draft (human_action (template ("Local credential " ∷ a ∷ " is unavailable" ∷ [])) b)
                ∷ [])
              (ground arith) (ground arith)
      ]
      of_desired _ w = absurd (ground arith)
