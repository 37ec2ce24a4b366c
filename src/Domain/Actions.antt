-- ===== src/Domain/Actions.antt =====
-- src/domain/synchronization.ts: planned actions and their details.
use Prim.Native.Nat.{ℕ}
use Prim.Native.String.{String}
use mathlib.Core.Path.{◌≡◌}
use mathlib.Core.Logic.{◌↔◌}
use mathlib.Core.Bool.{Bool, true, false}
use mathlib.Core.Option.{Option}
use mathlib.Core.List.{List}
use native.Mathlib.Omega.{arith}
use codexport.Base.{Eq}
use codexport.Domain.Resource.{RecipeMethod, RecipeIndexPolicy, RecipeSource, BuildPolicy}

pub record WriteFile : Type 0 where
  pub target : String
  pub digest : String
  pub executable : Option Bool
  pub mode : Option ℕ
  pub previous_source_digest : Option String

pub record InstallTool : Type 0 where
  pub tool_id : String
  pub method : RecipeMethod
  pub package_name : String
  pub version : Option String
  pub index_policy : Option RecipeIndexPolicy
  pub source : Option RecipeSource
  pub build_policy : Option BuildPolicy

pub record Drift : Type 0 where
  pub target : String
  pub desired_digest : String
  pub observed_digest : String
  pub desired_executable : Option Bool
  pub observed_executable : Option Bool
  pub desired_mode : Option ℕ
  pub observed_mode : Option ℕ

pub data ActionDetail : Type 0 where
  no_op : ActionDetail
  transfer_blob : (blob : String) (bytes : ℕ) → ActionDetail
  write_file : WriteFile → ActionDetail
  write_config :
      (target : String) (keys : List String) (removes : Option (List String)) → ActionDetail
  mirror_directory : (target : String) (adds removes : List String) → ActionDetail
  remove_resource : (target : String) (paths keys : List String) → ActionDetail
  install_tool : InstallTool → ActionDetail
  verify_only : (method : String) → ActionDetail
  human_action : (reason instructions : String) → ActionDetail
  agent_task : (task_id summary : String) → ActionDetail
  drift_conflict : Drift → ActionDetail

pub data ActionKind : Type 0 where
  no_op_kind transfer_blob_kind write_file_kind write_config_kind mirror_directory_kind
        remove_resource_kind install_tool_kind verify_only_kind human_action_kind agent_task_kind
        drift_conflict_kind :
      ActionKind

-- The tag `kind` of a detail.
abbrev pub detail_kind : ActionDetail → ActionKind
detail_kind no_op = no_op_kind
detail_kind (transfer_blob _ _) = transfer_blob_kind
detail_kind (write_file _) = write_file_kind
detail_kind (write_config _ _ _) = write_config_kind
detail_kind (mirror_directory _ _ _) = mirror_directory_kind
detail_kind (remove_resource _ _ _) = remove_resource_kind
detail_kind (install_tool _) = install_tool_kind
detail_kind (verify_only _) = verify_only_kind
detail_kind (human_action _ _) = human_action_kind
detail_kind (agent_task _ _) = agent_task_kind
detail_kind (drift_conflict _) = drift_conflict_kind

abbrev pub action_kind_beq : ActionKind → ActionKind → Bool
action_kind_beq no_op_kind no_op_kind = true
action_kind_beq transfer_blob_kind transfer_blob_kind = true
action_kind_beq write_file_kind write_file_kind = true
action_kind_beq write_config_kind write_config_kind = true
action_kind_beq mirror_directory_kind mirror_directory_kind = true
action_kind_beq remove_resource_kind remove_resource_kind = true
action_kind_beq install_tool_kind install_tool_kind = true
action_kind_beq verify_only_kind verify_only_kind = true
action_kind_beq human_action_kind human_action_kind = true
action_kind_beq agent_task_kind agent_task_kind = true
action_kind_beq drift_conflict_kind drift_conflict_kind = true
action_kind_beq _ _ = false

pub action_kind_beq_iff : (a b : ActionKind) → (action_kind_beq a b ≡ true) ↔ (a ≡ b)
action_kind_beq_iff a b = ground arith

instance abbrev pub action_kind_eq : Eq ActionKind
action_kind_eq = record { beq = action_kind_beq; beq_iff = action_kind_beq_iff }

pub record PlannedAction : Type 0 where
  pub id : String
  pub resource : String
  pub kind : ActionKind
  pub detail : ActionDetail
  pub before : List String

-- What only a person may do, and an agent never.
pub data Forbidden : Type 0 where
  elevation login restart reboot : Forbidden

pub data Behavior : Type 0 where
  leaf script_interpreter : Behavior

pub record ExecutableAuthorization : Type 0 where
  pub executable : String
  pub behavior : Behavior

-- A task without its identifier, as a draft holds it.
pub record AgentTaskDraft : Type 0 where
  pub resource : String
  pub summary : String
  pub desired_outcome : String
  pub observed_evidence : List String
  pub allowed_paths : List String
  pub allowed_executables : List String
  pub executable_authorizations : List ExecutableAuthorization
  pub allowed_origins : List String
  pub forbidden : List Forbidden
  pub time_limit_seconds : ℕ
  pub output_limit_bytes : ℕ
  pub verification_command : List String

pub record PlannedAgentTask : Type 0 where
  pub id : String
  pub draft : AgentTaskDraft
