-- ===== src/Plans/Ensure/Automatic.antt =====
-- Which recipes are run by themselves.
use mathlib.Core.List.{Memᴰ}
use codexport.Base.{
  true, false, ◌≡◌, ◌≢◌, List, none, ◌⊎◌, eq_of_mem-singleton, eq_of_mem-singleton,
}
use codexport.Domain.{
  PlanningContext, tool_resource, ToolSpec, ToolRecipe, Platform, platform_eq, InstallTool,
  install_tool, bun, DirectoryState, cargo, source, absent, directory_state,
}
use codexport.Plans.Env.{PlanEnv, Draft}
use codexport.Plans.Recipes.{recipe_lt}
use codexport.Plans.Ensure.{source_text, source_integrity, is_https, is_npm_family, requires_build}

-- The recipe that is tried is listed, is for the platform, and no such recipe is before it.
pub record IsChosen (platform : Platform) (recipes : List ToolRecipe) (r : ToolRecipe)
    : Type 0 where
  pub listed : Memᴰ r recipes
  pub for_platform : r.platform ≡ platform
  pub least :
      (other : ToolRecipe)
      → Memᴰ other recipes
      → other.platform ≡ platform
      → recipe_lt other r ≡ false

-- What holds of an installation that a plan makes by itself.
pub record IsAutomatic (env : PlanEnv) (c : PlanningContext) (i : InstallTool) : Type 0 where
  pub tool : ToolSpec
  pub recipe : ToolRecipe
  pub wanted : c.desired ≡ tool_resource tool
  pub chosen : IsChosen c.platform tool.recipes recipe
  pub as_reviewed : i ≡ record {
    tool_id = tool.tool_id;
    method = recipe.method;
    package_name = recipe.package_name;
    version = recipe.version;
    index_policy = recipe.index_policy;
    source = recipe.source;
    build_policy = recipe.build_policy;
  }
  pub versioned : env.is_missing_version recipe ≡ false
  pub not_source : recipe.method ≢ source
  pub not_cargo : recipe.method ≢ cargo
  pub no_build : requires_build recipe.build_policy ≡ false
  pub has_integrity :
      is_npm_family recipe.method ≡ true
      → is_https (source_text recipe.source) ≡ true
      → (recipe.method ≢ bun) × (source_integrity recipe.source ≢ none)
  -- Observed to be missing: neither present nor unverifiable.
  pub missing : (c.observed ≡ absent) ⊎ ((d : DirectoryState) × (c.observed ≡ directory_state d))

module _ (env : PlanEnv) (c : PlanningContext) where
  -- The installation drafts hold one installation, and perhaps a login.
  IsInstallation : ToolSpec → ToolRecipe → Draft → Type 0
  IsInstallation tool r d =
      (i : InstallTool)
      → d.detail ≡ install_tool i
      → i ≡ record {
        tool_id = tool.tool_id;
        method = r.method;
        package_name = r.package_name;
        version = r.version;
        index_policy = r.index_policy;
        source = r.source;
        build_policy = r.build_policy;
      }
