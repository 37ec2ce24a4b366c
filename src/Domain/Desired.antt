-- ===== src/Domain/Desired.antt =====
-- src/synchronization/synchronization.types.ts and src/domain/profile.ts: what a revision
-- publishes and wants.
use Prim.Native.Nat.{ℕ}
use Prim.Native.String.{String}
use mathlib.Core.Bool.{Bool}
use mathlib.Core.Option.{Option}
use mathlib.Core.List.{List}
use codexport.Domain.Resource.{
  ResourceKind, ApplyPolicy, Platform, RecipeMethod, BuildPolicy, RecipeIndexPolicy, RecipeSource,
  ConfigFormat, file, directory, config, skill, tool, credential,
}

pub record AvailableBlob : Type 0 where
  pub id : String
  pub bytes : ℕ

pub record DesiredFile : Type 0 where
  pub path : String
  pub digest : String
  pub executable : Bool
  pub mode : ℕ
  pub symlink_to : Option String

pub record DesiredDirectory : Type 0 where
  pub path : String
  pub mode : ℕ

-- The fields of a wanted file resource.
pub record FileSpec : Type 0 where
  pub digest : String
  pub executable : Bool
  pub mode : ℕ
  pub symlink_to : Option String

-- The fields that a wanted directory and a wanted skill share.
pub record TreeSpec : Type 0 where
  pub mode : ℕ
  pub directories : List DesiredDirectory
  pub files : List DesiredFile

pub record ConfigSpec : Type 0 where
  pub digest : String
  pub format : ConfigFormat
  pub keys : List String

pub record ToolRecipe : Type 0 where
  pub platform : Platform
  pub method : RecipeMethod
  pub package_name : String
  pub version : Option String
  pub index_policy : Option RecipeIndexPolicy
  pub source : Option RecipeSource
  pub build_policy : Option BuildPolicy

pub record AgentInstall : Type 0 where
  pub paths : List String
  pub origins : Option (List String)

pub record ToolSpec : Type 0 where
  pub tool_id : String
  pub recipes : List ToolRecipe
  pub login_required : Bool
  pub login_instructions : Option String
  pub agent_install : Option AgentInstall

pub data DesiredResource : Type 0 where
  file_resource : FileSpec → DesiredResource
  directory_resource : TreeSpec → DesiredResource
  config_resource : ConfigSpec → DesiredResource
  skill_resource : (digest : String) → TreeSpec → DesiredResource
  tool_resource : ToolSpec → DesiredResource
  credential_resource : (reference instructions : String) → DesiredResource

-- The tag `kind` of a wanted resource.
abbrev pub desired_kind : DesiredResource → ResourceKind
desired_kind (file_resource _) = file
desired_kind (directory_resource _) = directory
desired_kind (config_resource _) = config
desired_kind (skill_resource _ _) = skill
desired_kind (tool_resource _) = tool
desired_kind (credential_resource _ _) = credential

pub record PublishedResource : Type 0 where
  pub id : String
  pub kind : ResourceKind
  pub policy : ApplyPolicy
  pub target : String
  pub groups : Option (List String)
  pub depends_on : List String
  pub blobs : List String

-- How a resource is verified.
pub data VerificationInput : Type 0 where
  digest_check : (digest : String) → VerificationInput
  command_check : (command : List String) (expect_contains : Option String) → VerificationInput
  executable_present : (executable : String) → VerificationInput
  credential_present : (reference : String) → VerificationInput
  symlink_check : (target : String) → VerificationInput

pub record DesiredResourceEntry : Type 0 where
  pub resource : String
  pub desired : DesiredResource
  pub verification : VerificationInput

-- The part of `PlanningProfileRevision` that planning and applying read.
pub record PlanningRevision : Type 0 where
  pub id : String
  pub resources : List PublishedResource
  pub desired : List DesiredResourceEntry
  pub blobs : List AvailableBlob
  pub removed_resources : Option (List String)
