-- ===== src/Domain/Resource.antt =====
-- src/domain/resource.ts and src/domain/recipe-versions.ts: kinds, policies, recipes.
use Prim.Native.String.{String}
use mathlib.Core.Path.{◌≡◌}
use mathlib.Core.Logic.{◌↔◌}
use mathlib.Core.Bool.{Bool, true, false}
use mathlib.Core.Option.{Option}
use mathlib.Core.List.{List, [], ◌∷◌}
use native.Mathlib.Omega.{arith}
use codexport.Base.{Eq, ◌==◌, any}

pub data ResourceKind : Type 0 where
  file directory config skill tool credential : ResourceKind

pub data ApplyPolicy : Type 0 where
  replace mirror_owned merge replace_if_unmodified append_local ensure require_local : ApplyPolicy

pub data Platform : Type 0 where
  linux macos windows : Platform

pub data RecipeMethod : Type 0 where
  npm pnpm bun brew homebrew apt winget uv cargo source : RecipeMethod

pub data BuildCapability : Type 0 where
  read_files write_files network execute : BuildCapability

pub data ConfigFormat : Type 0 where
  toml json yaml : ConfigFormat

pub record BuildStep : Type 0 where
  pub executable : String
  pub arguments : List String

pub record RequiredBuild : Type 0 where
  pub reviewed_by : String
  pub reviewed_at : String
  pub executables : List String
  pub paths : List String
  pub origins : List String
  pub capabilities : List BuildCapability
  pub steps : List BuildStep

pub data BuildPolicy : Type 0 where
  scripts_disabled : BuildPolicy
  required : RequiredBuild → BuildPolicy

pub record RecipeIndexPolicy : Type 0 where
  pub url : String
  pub reviewed_by : String
  pub reviewed_at : String

-- A bare locator, or a locator with its integrity value.
pub data RecipeSource : Type 0 where
  locator : String → RecipeSource
  metadata : String → Option String → RecipeSource

-- The test of two literals of a union: `===` on their names.
abbrev pub kind_beq : ResourceKind → ResourceKind → Bool
kind_beq file file = true
kind_beq directory directory = true
kind_beq config config = true
kind_beq skill skill = true
kind_beq tool tool = true
kind_beq credential credential = true
kind_beq _ _ = false

abbrev pub policy_beq : ApplyPolicy → ApplyPolicy → Bool
policy_beq replace replace = true
policy_beq mirror_owned mirror_owned = true
policy_beq merge merge = true
policy_beq replace_if_unmodified replace_if_unmodified = true
policy_beq append_local append_local = true
policy_beq ensure ensure = true
policy_beq require_local require_local = true
policy_beq _ _ = false

abbrev pub platform_beq : Platform → Platform → Bool
platform_beq linux linux = true
platform_beq macos macos = true
platform_beq windows windows = true
platform_beq _ _ = false

pub kind_beq_iff : (a b : ResourceKind) → (kind_beq a b ≡ true) ↔ (a ≡ b)
kind_beq_iff a b = ground arith

pub policy_beq_iff : (a b : ApplyPolicy) → (policy_beq a b ≡ true) ↔ (a ≡ b)
policy_beq_iff a b = ground arith

pub platform_beq_iff : (a b : Platform) → (platform_beq a b ≡ true) ↔ (a ≡ b)
platform_beq_iff a b = ground arith

instance abbrev pub kind_eq : Eq ResourceKind
kind_eq = record { beq = kind_beq; beq_iff = kind_beq_iff }

instance abbrev pub policy_eq : Eq ApplyPolicy
policy_eq = record { beq = policy_beq; beq_iff = policy_beq_iff }

instance abbrev pub platform_eq : Eq Platform
platform_eq = record { beq = platform_beq; beq_iff = platform_beq_iff }

-- `defaultPolicyForKind`
unfoldable pub default_policy_for_kind : ResourceKind → ApplyPolicy
default_policy_for_kind file = replace
default_policy_for_kind directory = mirror_owned
default_policy_for_kind config = merge
default_policy_for_kind skill = replace_if_unmodified
default_policy_for_kind tool = ensure
default_policy_for_kind credential = require_local

-- `compatiblePolicies`
unfoldable pub compatible_policies : ResourceKind → List ApplyPolicy
compatible_policies file = replace ∷ replace_if_unmodified ∷ append_local ∷ []
compatible_policies directory = mirror_owned ∷ replace ∷ []
compatible_policies config = merge ∷ replace ∷ []
compatible_policies skill = replace_if_unmodified ∷ replace ∷ []
compatible_policies tool = ensure ∷ []
compatible_policies credential = require_local ∷ []

-- `policyCompatibleWithKind`
unfoldable pub policy_compatible_with_kind : ResourceKind → ApplyPolicy → Bool
unfolding compatible_policies
policy_compatible_with_kind kind policy =
    any (λ candidate. candidate == policy) (compatible_policies kind)

-- The words of the source for a kind and a method, as its messages print them.
unfoldable pub kind_text : ResourceKind → String
kind_text file = "file"
kind_text directory = "directory"
kind_text config = "config"
kind_text skill = "skill"
kind_text tool = "tool"
kind_text credential = "credential"

unfoldable pub method_text : RecipeMethod → String
method_text npm = "npm"
method_text pnpm = "pnpm"
method_text bun = "bun"
method_text brew = "brew"
method_text homebrew = "homebrew"
method_text apt = "apt"
method_text winget = "winget"
method_text uv = "uv"
method_text cargo = "cargo"
method_text source = "source"
