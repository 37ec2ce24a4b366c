-- ===== src/Domain/Observed.antt =====
-- src/domain/synchronization.ts: the observed state of a target, and what was last applied.
use Prim.Native.Nat.{ℕ}
use Prim.Native.String.{String}
use mathlib.Core.Path.{◌≡◌}
use mathlib.Core.Logic.{◌↔◌}
use mathlib.Core.Bool.{Bool, true, false}
use mathlib.Core.Option.{Option}
use mathlib.Core.List.{List}
use native.Mathlib.Omega.{arith}
use codexport.Base.{Eq}
use codexport.Domain.Resource.{ResourceKind, ApplyPolicy, Platform, ConfigFormat}
use codexport.Domain.Desired.{PublishedResource, DesiredResource}

pub data ObjectKind : Type 0 where
  regular directory_object symlink reparse_point special : ObjectKind

abbrev pub object_kind_beq : ObjectKind → ObjectKind → Bool
object_kind_beq regular regular = true
object_kind_beq directory_object directory_object = true
object_kind_beq symlink symlink = true
object_kind_beq reparse_point reparse_point = true
object_kind_beq special special = true
object_kind_beq _ _ = false

pub object_kind_beq_iff : (a b : ObjectKind) → (object_kind_beq a b ≡ true) ↔ (a ≡ b)
object_kind_beq_iff a b = ground arith

instance abbrev pub object_kind_eq : Eq ObjectKind
object_kind_eq = record { beq = object_kind_beq; beq_iff = object_kind_beq_iff }

unfoldable pub object_kind_text : ObjectKind → String
object_kind_text regular = "regular"
object_kind_text directory_object = "directory"
object_kind_text symlink = "symlink"
object_kind_text reparse_point = "reparse-point"
object_kind_text special = "special"

-- One entry of a directory tree, wanted, observed or owned.
pub record FileEntry : Type 0 where
  pub path : String
  pub digest : String
  pub executable : Option Bool
  pub mode : Option ℕ
  pub object_kind : Option ObjectKind
  pub symlink_to : Option String

pub data ObservedFile : Type 0 where
  absent_file : (path : String) → ObservedFile
  present_file : FileEntry → ObservedFile

pub record PresentState : Type 0 where
  pub digest : String
  pub managed_source_digest : Option String
  pub executable : Bool
  pub mode : Option ℕ
  pub object_kind : Option ObjectKind
  pub symlink_to : Option String

pub record DirectoryState : Type 0 where
  pub object_kind : Option ObjectKind
  pub mode : ℕ
  pub files : List ObservedFile

pub data ObservedState : Type 0 where
  absent : ObservedState
  present : PresentState → ObservedState
  directory_state : DirectoryState → ObservedState
  unverifiable : (reason : String) → ObservedState

unfoldable pub state_text : ObservedState → String
state_text absent = "absent"
state_text (present _) = "present"
state_text (directory_state _) = "directory"
state_text (unverifiable _) = "unverifiable"

pub record AppliedRecord : Type 0 where
  pub resource : String
  pub revision : String
  pub digest : String
  pub applied_at : String
  pub kind : Option ResourceKind
  pub policy : Option ApplyPolicy
  pub target : Option String
  pub executable : Option Bool
  pub mode : Option ℕ
  pub symlink_to : Option String
  pub owned_files : Option (List FileEntry)
  pub owned_keys : Option (List String)
  pub config_format : Option ConfigFormat

-- `ResourcePlanningContext`
pub record PlanningContext : Type 0 where
  pub resource : PublishedResource
  pub desired : DesiredResource
  pub observed : ObservedState
  pub overlay_keys : List String
  pub applied : Option AppliedRecord
  pub platform : Platform
