-- ===== src/Plans/Dispatch/Converged.antt =====
-- resource-plans.ts: `planResource` where the observed state is the wanted one.
use codexport.Base.{
  true, false, ◌≡◌, refl, ◌⊎◌, inl, inr, String, Option, none, some, arith, any, Option-cases,
}
use codexport.Domain.{
  PlanningContext, replace, replace_if_unmodified, ensure, require_local, ApplyPolicy,
}
use codexport.Plans.Env.{PlanEnv, Draft, writes, no_op_draft}
use codexport.Plans.Entries.{desired_resource_digest}
use codexport.Plans.Matching.{observed_matches_desired}
use codexport.Plans.Drift.{
  drift_draft, directory_root_conflict, DriftState, unchanged, converged, detect_skill_drift,
}
use codexport.Plans.Replace.{plan_replace, resolve_summary}
use codexport.Plans.Unmodified.{
  by_drift, plan_unmodified, plan_replace_if_unmodified, executable_drift, unreadable_target,
  drift_input, current_digest,
}
use codexport.Plans.Unmodified.Safety.{any_writes, unresolved-writes}
use codexport.Plans.Ensure.{plan_ensure, plan_require_local}
use codexport.Plans.Dispatch.{plan_by_policy, plan_decoded, plan_resource}
use codexport.Plans.Decoding.{first_undecodable, decoded_of_resource}

-- The policies under which the wanted state alone decides.
abbrev pub IsStateful : ApplyPolicy → Type 0
IsStateful p = (p ≡ replace) ⊎ (p ≡ replace_if_unmodified) ⊎ (p ≡ ensure) ⊎ (p ≡ require_local)

module _ (env : PlanEnv) (c : PlanningContext)
    (h : observed_matches_desired env c.desired c.observed ≡ true) where
  replace-writes : any writes (plan_replace env c) ≡ false
  unfolding plan_replace writes no_op_draft
  replace-writes = ground (arith, unresolved-writes env c (resolve_summary env c))

  drift-writes :
      (d : String) (current : Option String) (s : DriftState)
      → any writes (by_drift env c d current s) ≡ false
  unfolding by_drift writes drift_draft executable_drift no_op_draft
  drift-writes d current unchanged = ground arith
  drift-writes d current converged = ground arith
  drift-writes d none s = ground (arith, replace-writes)
  drift-writes d (some current) s = ground (arith, replace-writes)

  unmodified-writes : any writes (plan_replace_if_unmodified env c) ≡ false
  unfolding plan_replace_if_unmodified plan_unmodified writes drift_draft executable_drift
      unreadable_target no_op_draft
  unmodified-writes = elim (Option-cases (desired_resource_digest env c.desired)) [
    | inl nothing ↦
        rw (nothing, plan_replace_if_unmodified)
          (ground (arith, unresolved-writes env c (resolve_summary env c)))
    | inr (d, found) ↦
        rw (found, plan_replace_if_unmodified)
          (ground (
            arith,
            drift-writes d (current_digest env c)
                (detect_skill_drift (drift_input c d (current_digest env c))),
          ))
  ]

  root-writes : (d : Draft) → directory_root_conflict env c ≡ some d → writes d ≡ false
  unfolding directory_root_conflict drift_draft writes
  root-writes d e = ground arith

  by_policy-writes : IsStateful c.resource.policy → any_writes (plan_by_policy env c) ≡ false
  unfolding plan_by_policy plan_ensure plan_require_local observed_matches_desired no_op_draft
      writes
  by_policy-writes s = ground (arith, replace-writes, unmodified-writes)

  decoded-writes : IsStateful c.resource.policy → any_writes (plan_decoded env c) ≡ false
  unfolding plan_decoded
  decoded-writes s = elim (Option-cases (directory_root_conflict env c)) [
    | inr (d, conflict) ↦ rw (conflict, plan_decoded) (ground (arith, root-writes d conflict))
    | inl free ↦ rw (free, plan_decoded) (by_policy-writes s)
  ]

  -- A resource whose observed state is the wanted one is not written, installed or removed under
  -- `replace`, `replace-if-unmodified`, `ensure` and `require-local`.
  pub converged-no_writes : IsStateful c.resource.policy → any_writes (plan_resource env c) ≡ false
  unfolding plan_resource
  converged-no_writes s = elim (Option-cases (first_undecodable (decoded_of_resource env c))) [
    | inr (text, bad) ↦ rw (bad, plan_resource) refl
    | inl good ↦ rw (good, plan_resource) (decoded-writes s)
  ]
