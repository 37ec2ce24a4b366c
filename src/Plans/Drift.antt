-- ===== src/Plans/Drift.antt =====
-- resource-plans.ts: three-way drift, and the conflicts that it is reported by.
use codexport.Base.{
  Bool, true, false, ◌&&◌, ◌||◌, not, String, Option, none, some, ◌==◌, ℕ, bool_eq, nat_eq,
  string_eq, option_eq, is_none, if◌then◌else◌, or_else,
}
use codexport.Domain.{
  DesiredResource, file_resource, directory_resource, config_resource, skill_resource,
  tool_resource, credential_resource, directory_object, object_kind_eq, ObservedState, absent,
  present, directory_state, unverifiable, PlanningContext, drift_conflict,
}
use codexport.Plans.Env.{PlanEnv, Draft, draft}
use codexport.Plans.Entries.{desired_resource_digest}
use codexport.Plans.Matching.{unknown_or}

pub data DriftState : Type 0 where
  unchanged local_only remote_only converged conflicting : DriftState

-- `SkillDriftInput`
pub record DriftInput : Type 0 where
  pub desired_digest : String
  pub observed_digest : Option String
  pub applied_digest : Option String
  pub desired_executable : Option Bool
  pub observed_executable : Option Bool
  pub applied_executable : Option Bool
  pub desired_mode : Option ℕ
  pub observed_mode : Option ℕ
  pub applied_mode : Option ℕ

module _ (i : DriftInput) where
  -- The constant `observedMatchesDesired` of `detectSkillDrift`.
  unfoldable pub is_as_desired : Bool
  is_as_desired =
      i.observed_digest == some i.desired_digest
      && (if is_none i.desired_mode
          then is_none i.desired_executable || i.observed_executable == i.desired_executable
          else i.observed_mode == i.desired_mode)

  -- The constant `observedMatchesApplied` of `detectSkillDrift`.
  unfoldable pub is_as_applied : Bool
  is_as_applied =
      i.observed_digest == i.applied_digest
      && (if is_none i.applied_mode
          then is_none i.applied_executable || i.observed_executable == i.applied_executable
          else i.observed_mode == i.applied_mode)

  -- The constant `desiredMatchesApplied` of `detectSkillDrift`.
  unfoldable pub is_desired_applied : Bool
  is_desired_applied =
      some i.desired_digest == i.applied_digest
      && (if is_none i.desired_mode || is_none i.applied_mode
          then is_none i.desired_executable || i.applied_executable == i.desired_executable
          else i.applied_mode == i.desired_mode)

  -- `detectSkillDrift`
  unfoldable pub detect_skill_drift : DriftState
  unfolding is_as_desired is_as_applied is_desired_applied
  detect_skill_drift =
      if is_as_desired
      then (if is_desired_applied then unchanged else converged)
      else if is_none i.applied_digest
      then (if is_none i.observed_digest then remote_only else conflicting)
      else if is_as_applied
      then remote_only
      else if is_desired_applied
      then local_only
      else conflicting

-- `desiredResourceMode`
unfoldable pub desired_resource_mode : DesiredResource → Option ℕ
desired_resource_mode (file_resource f) = some f.mode
desired_resource_mode (directory_resource tree) = some tree.mode
desired_resource_mode (skill_resource _ tree) = some tree.mode
desired_resource_mode (config_resource _) = none
desired_resource_mode (tool_resource _) = none
desired_resource_mode (credential_resource _ _) = none

-- `observedResourceMode`
unfoldable pub observed_resource_mode : ObservedState → Option ℕ
observed_resource_mode absent = none
observed_resource_mode (present p) = p.mode
observed_resource_mode (directory_state d) = some d.mode
observed_resource_mode (unverifiable _) = none

-- `driftConflict`
unfoldable pub drift_draft : PlanningContext → String → String → Option Bool → Option Bool → Draft
unfolding desired_resource_mode observed_resource_mode
drift_draft c desired_digest current_digest desired_executable observed_executable = draft (
    drift_conflict (record {
      target = c.resource.target;
      desired_digest = desired_digest;
      observed_digest = current_digest;
      desired_executable = desired_executable;
      observed_executable = observed_executable;
      desired_mode = desired_resource_mode c.desired;
      observed_mode = observed_resource_mode c.observed;
    }))

-- `desired.kind === "directory" || desired.kind === "skill"`
abbrev pub is_tree : DesiredResource → Bool
is_tree (directory_resource _) = true
is_tree (skill_resource _ _) = true
is_tree _ = false

module _ (env : PlanEnv) where
  -- `observedDigestForDirectoryRoot`
  unfoldable pub directory_root_digest : ObservedState → String
  directory_root_digest (present p) = p.digest
  directory_root_digest _ = env.sha256_hex "canonfig:unverifiable-directory-root"

  -- The observed states that `directoryRootConflict` lets pass.
  unfoldable pub is_root_acceptable : ObservedState → Bool
  is_root_acceptable absent = true
  is_root_acceptable (present p) = is_none p.object_kind
  is_root_acceptable (directory_state d) = unknown_or directory_object d.object_kind
  is_root_acceptable (unverifiable _) = false

  -- `directoryRootConflict`; a tree always has a digest.
  unfoldable pub directory_root_conflict : PlanningContext → Option Draft
  unfolding directory_root_digest is_root_acceptable drift_draft desired_resource_digest
  directory_root_conflict c =
      if not (is_tree c.desired) || is_root_acceptable c.observed
      then none
      else some (
          drift_draft c (or_else (desired_resource_digest env c.desired) "")
            (directory_root_digest c.observed) none none)
