-- ===== src/Plans/Env.antt =====
-- What the planning of a resource takes from elsewhere, and what it gives back.
use codexport.Base.{Bool, true, false, String, List, Option, none}
use codexport.Domain.{
  ToolRecipe, ActionDetail, ActionKind, AgentTaskDraft, detail_kind, no_op, ResourceKind,
  write_file, write_config, mirror_directory, remove_resource, install_tool,
}

-- SHA-256 is `node:crypto`'s. The other two are functions of src/domain/recipe-versions.ts
-- (`isMissingAutomaticRecipeVersion`) and src/agent/agent-resolution.service.ts
-- (`isNestedCommandLauncher`), which are not modelled here.
pub record PlanEnv : Type 0 where
  pub sha256_hex : String → String
  pub is_missing_version : ToolRecipe → Bool
  pub is_nested_launcher : String → Bool

-- `ResourceActionDraft`
pub record Draft : Type 0 where
  pub kind : ActionKind
  pub detail : ActionDetail
  pub task : Option AgentTaskDraft

-- A draft without a task, whose kind is that of its detail.
abbrev pub draft : ActionDetail → Draft
draft detail = record { kind = detail_kind detail; detail = detail; task = none }

-- `InvalidObservedStateError`
pub record InvalidObservedState : Type 0 where
  pub resource : String
  pub kind : ResourceKind
  pub observed_state : String

-- What planning throws: an `InvalidObservedStateError`, or the error of the schema library for a text
-- that is no digest.
pub data Thrown : Type 0 where
  invalid_observed_state : InvalidObservedState → Thrown
  undecodable : (text : String) → Thrown

-- Planning gives drafts, or throws.
pub data Planned : Type 0 where
  drafts : List Draft → Planned
  throws : Thrown → Planned

-- `noOp`
unfoldable pub no_op_draft : Draft
no_op_draft = draft no_op

-- A draft that changes its target on the follower.
unfoldable pub writes : Draft → Bool
writes d = elim d.detail [
  | write_file _ ↦ true
  | write_config _ _ _ ↦ true
  | mirror_directory _ _ _ ↦ true
  | remove_resource _ _ _ ↦ true
  | install_tool _ ↦ true
  | _ ↦ false
]
