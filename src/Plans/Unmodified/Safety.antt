-- ===== src/Plans/Unmodified/Safety.antt =====
-- What `replace-if-unmodified` writes over.
use codexport.Base.{
  Bool, true, false, ◌≡◌, refl, String, [], ◌∷◌, Option, none, some, ◌⊎◌, inl, inr, any, arith,
  Option-cases, option_beq_iff, string_eq, nat_eq, option_eq, ◌||◌, ◌≢◌,
}
use codexport.Domain.{
  PlanningContext, AppliedRecord, absent, present, ObservedState, PresentState, DesiredResource,
  file_resource, unverifiable, directory_state, FileSpec, regular, append_local, object_kind_eq,
  policy_eq,
}
use codexport.Plans.Env.{PlanEnv, Planned, drafts, throws, writes, no_op_draft}
use codexport.Plans.Entries.{observed_digest, desired_resource_digest}
use codexport.Plans.Drift.{
  DriftInput, DriftState, remote_only, detect_skill_drift, is_as_applied, drift_draft,
  observed_resource_mode,
}
use codexport.Plans.Replace.{
  unresolved_agent_task, missing_agent_install_bounds, agent_draft, resolve_summary,
}
use codexport.Plans.Unmodified.{
  current_digest, drift_input, by_drift, plan_unmodified, compares_file, compares_skill_root,
  executable_drift, is_unverifiable, plan_replace_if_unmodified, applied_field, unreadable_target,
  append_to_present, plan_append_local, unreadable_text,
}

-- Drift is only "remote" where nothing is there and nothing was applied, or where the target
-- is as it was applied.
detect-remote_only :
    (i : DriftInput)
    → detect_skill_drift i ≡ remote_only
    → ((i.applied_digest ≡ none) × (i.observed_digest ≡ none)) ⊎ (is_as_applied i ≡ true)
unfolding detect_skill_drift
detect-remote_only i h = ground arith

module _ (env : PlanEnv) (c : PlanningContext) where
  -- The target has the digest that was applied and, where file permissions are compared and a
  -- mode was recorded, the mode that was applied.
  pub record IsUnedited : Type 0 where
    pub applied : AppliedRecord
    pub recorded : c.applied ≡ some applied
    pub same_digest : current_digest env c ≡ some applied.digest
    pub same_mode :
        (compares_file c.desired || compares_skill_root c.desired c.observed) ≡ true
        → (applied.mode ≡ none) ⊎ (observed_resource_mode c.observed ≡ applied.mode)

  drift-writes :
      (d : String) (current : Option String) (s : DriftState)
      → any writes (by_drift env c d current s) ≡ true
      → (s ≡ remote_only) ⊎ (current ≡ none)
  unfolding by_drift writes drift_draft executable_drift no_op_draft
  drift-writes d current remote_only h = inl refl
  drift-writes d none s h = inr refl
  drift-writes d (some current) s h = ground arith

  unmodified-writes :
      (d : String)
      → any writes (plan_unmodified env c d) ≡ true
      → (is_unverifiable c.observed ≡ false)
        × ((detect_skill_drift (drift_input c d (current_digest env c)) ≡ remote_only)
            ⊎ (current_digest env c ≡ none))
  unfolding plan_unmodified writes unreadable_target drift_draft executable_drift no_op_draft
  unmodified-writes d h = ground (
    arith,
    drift-writes d (current_digest env c)
        (detect_skill_drift (drift_input c d (current_digest env c))),
  )

  absent_of_no_digest :
      is_unverifiable c.observed ≡ false → current_digest env c ≡ none → c.observed ≡ absent
  unfolding current_digest observed_digest
  absent_of_no_digest v h = ground arith

  unedited :
      (d : String)
      → is_unverifiable c.observed ≡ false
      → is_as_applied (drift_input c d (current_digest env c)) ≡ true
      → (c.observed ≡ absent) ⊎ IsUnedited
  unfolding is_as_applied drift_input compares_file compares_skill_root observed_resource_mode
  unedited d v h = elim (Option-cases c.applied) [
    | inl none_applied ↦ inl (absent_of_no_digest v (ground arith))
    | inr (applied, recorded) ↦ inr (record {
      applied = applied;
      recorded = recorded;
      same_digest = ground (arith, option_beq_iff (current_digest env c) (some applied.digest));
      same_mode =
          λ k. ground (arith, option_beq_iff (observed_resource_mode c.observed) applied.mode);
    })
  ]

  pub unresolved-writes : (summary : String) → writes (unresolved_agent_task env c summary) ≡ false
  unfolding unresolved_agent_task missing_agent_install_bounds agent_draft writes
  unresolved-writes summary = ground arith

  unwritten : (summary : String) → any writes (unresolved_agent_task env c summary ∷ []) ≡ true → ⊥
  unwritten summary h = ground (arith, unresolved-writes summary)

  -- Under `replace-if-unmodified` a plan changes the target only if the target is absent, or if it
  -- is unedited: its digest is the applied one and, where permissions are compared and a mode was
  -- recorded, so is its mode.
  pub replace_if_unmodified-IsUnedited :
      any writes (plan_replace_if_unmodified env c) ≡ true → (c.observed ≡ absent) ⊎ IsUnedited
  unfolding plan_replace_if_unmodified drift_input
  replace_if_unmodified-IsUnedited h = elim (Option-cases (desired_resource_digest env c.desired)) [
    | inl missing ↦
        absurd (unwritten (resolve_summary env c) (rw (missing, plan_replace_if_unmodified) at h))
    | inr (d, found) ↦
        let (v, cause) = unmodified-writes d (rw (found, plan_replace_if_unmodified) at h) in
        elim cause [
          | inr undefined ↦ inl (absent_of_no_digest v undefined)
          | inl remote ↦ elim (detect-remote_only (drift_input c d (current_digest env c)) remote) [
            | inl nothing ↦ inl (absent_of_no_digest v nothing.1)
            | inr same ↦ unedited d v same
          ]
        ]
  ]

-- The context that `planAppendLocal` hands on: the target by the digest of its Source payload.
abbrev pub as_source : PlanningContext → PresentState → String → PlanningContext
as_source c p source = record c { observed = present (record p { digest = source }) }

-- What `append-local` writes over: nothing, a text that Canonfig does not manage yet, or a Source
-- payload that nobody edited.
pub data Adoptable (env : PlanEnv) (c : PlanningContext) : Type 0 where
  missing : c.observed ≡ absent → Adoptable env c
  unmanaged :
      (p : PresentState)
      → c.observed ≡ present p
      → p.managed_source_digest ≡ none
      → p.object_kind ≡ some regular
      → applied_field (λ applied. applied.policy) c.applied ≢ some append_local
      → Adoptable env c
  managed :
      (p : PresentState) (source : String)
      → c.observed ≡ present p
      → p.managed_source_digest ≡ some source
      → p.object_kind ≡ some regular
      → IsUnedited env (as_source c p source)
      → Adoptable env c

abbrev pub any_writes : Planned → Bool
any_writes (drafts ds) = any writes ds
any_writes (throws _) = false

append_to_present-writes :
    (env : PlanEnv) (c : PlanningContext) (f : FileSpec) (p : PresentState)
    → c.observed ≡ present p
    → any writes (append_to_present env c f p) ≡ true
    → Adoptable env c
unfolding append_to_present writes drift_draft
append_to_present-writes env c f p e h = elim (Option-cases p.managed_source_digest) [
  | inl none_managed ↦
      unmanaged p e none_managed (ground (arith, option_beq_iff p.object_kind (some regular)))
        (λ appended. ground (
          arith,
          option_beq_iff (applied_field (λ applied. applied.policy) c.applied) (some append_local),
        ))
  | inr (source, found) ↦
      managed p source e found (ground (arith, option_beq_iff p.object_kind (some regular)))
        (elim (replace_if_unmodified-IsUnedited env (as_source c p source) (ground arith)) [
          | inl gone ↦ absurd (cc gone)
          | inr same ↦ same
        ])
]

-- Under `append-local` a plan changes the target only if the target is absent, if it is a regular
-- text without Source markers that was not applied under this policy, or if the digest of its
-- Source payload, and its recorded mode, are those that were applied.
pub append_local-Adoptable :
    (env : PlanEnv) (c : PlanningContext)
    → any_writes (plan_append_local env c) ≡ true
    → Adoptable env c
unfolding plan_append_local writes drift_draft unreadable_text
append_local-Adoptable env c h = of_desired c.desired refl
  where
    of_observed :
        (f : FileSpec)
        → c.desired ≡ file_resource f
        → (o : ObservedState) → c.observed ≡ o
        → Adoptable env c
    of_observed f d absent e = missing e
    of_observed f d (unverifiable reason) e = absurd (ground arith)
    of_observed f d (directory_state s) e = absurd (ground arith)
    of_observed f d (present p) e = append_to_present-writes env c f p e (ground arith)

    of_desired : (d : DesiredResource) → c.desired ≡ d → Adoptable env c
    of_desired (file_resource f) d = of_observed f d c.observed refl
    of_desired _ d = absurd (ground arith)
