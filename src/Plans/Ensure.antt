-- ===== src/Plans/Ensure.antt =====
-- resource-plans.ts: the policies `ensure` and `require-local`.
pub mod Automatic
use text.Mathlib.Text.{starts_with}
use codexport.Base.{
  Bool, true, false, ◌&&◌, ◌||◌, String, List, [], ◌∷◌, Option, none, some, ◌==◌, is_none,
  if◌then◌else◌, or_else, template, filter,
}
use codexport.Base.Order.{sort}
use codexport.Domain.{
  DesiredResource, tool_resource, credential_resource, ToolSpec, ToolRecipe, RecipeMethod, npm,
  pnpm, bun, cargo, source, RecipeSource, locator, metadata, BuildPolicy, scripts_disabled,
  required, Platform, platform_eq, ObservedState, absent, present, directory_state, unverifiable,
  PlanningContext, human_action, install_tool, method_text, state_text,
}
use codexport.Plans.Env.{
  PlanEnv, Draft, draft, no_op_draft, Planned, drafts, throws, InvalidObservedState,
  invalid_observed_state,
}
use codexport.Plans.Replace.{unresolved_agent_task}
use codexport.Plans.Recipes.{recipe_lt}

-- `recipeSourceDetails(source).source` and `.integrity` of src/domain/recipe-versions.ts.
unfoldable pub source_text : Option RecipeSource → Option String
source_text none = none
source_text (some (locator l)) = some l
source_text (some (metadata l i)) = some l

unfoldable pub source_integrity : Option RecipeSource → Option String
source_integrity none = none
source_integrity (some (locator l)) = none
source_integrity (some (metadata l i)) = i

unfoldable pub is_https : Option String → Bool
is_https none = false
is_https (some s) = starts_with s "https://"

-- `method === "npm" || method === "pnpm" || method === "bun"`
abbrev pub is_npm_family : RecipeMethod → Bool
is_npm_family npm = true
is_npm_family pnpm = true
is_npm_family bun = true
is_npm_family _ = false

abbrev pub is_source_method : RecipeMethod → Bool
is_source_method source = true
is_source_method _ = false

abbrev pub is_cargo : RecipeMethod → Bool
is_cargo cargo = true
is_cargo _ = false

abbrev pub is_bun : RecipeMethod → Bool
is_bun bun = true
is_bun _ = false

-- `(buildPolicy?.mode ?? "scripts-disabled") === "scripts-disabled"`
abbrev pub has_scripts_disabled : Option BuildPolicy → Bool
has_scripts_disabled (some (required _)) = false
has_scripts_disabled _ = true

-- `buildPolicy?.mode === "required"`
abbrev pub requires_build : Option BuildPolicy → Bool
requires_build (some (required _)) = true
requires_build _ = false

-- A human action of a reason and instructions, each a template.
abbrev ask : List String → List String → Draft
ask reason instructions = draft (human_action (template reason) (template instructions))

abbrev at_version : ToolRecipe → String
at_version r = or_else r.version "the declared version"

-- Why a recipe is not run by itself: the human actions of `planEnsure` before the installation.
unfoldable pub recipe_obstacle : PlanEnv → ToolSpec → ToolRecipe → Option Draft
unfolding template method_text source_text source_integrity is_https
recipe_obstacle env tool r =
    let tool_id = tool.tool_id in
    let method = method_text r.method in
    let https = is_https (source_text r.source) in
    if env.is_missing_version r
    then some (
        ask ("Installing " ∷ tool_id ∷ " requires a deterministic " ∷ method ∷ " version" ∷ []) (
          "The reviewed " ∷ method ∷ " recipe for " ∷ r.package_name
          ∷ " has no exact version. Add a deterministic version to the profile, or install the tool manually, then rerun synchronization."
          ∷ []))
    else if is_source_method r.method
    then some (
        ask ("Installing " ∷ tool_id ∷ " from source requires Human Action Required" ∷ []) (
          "Canonfig preserves the reviewed source recipe at revision "
          ∷ or_else r.version "unknown"
          ∷ ", but it cannot automatically check out or build source code. Apply the bounded source build manually, then rerun synchronization."
          ∷ []))
    else if is_cargo r.method && has_scripts_disabled r.build_policy
    then some (
        ask ("Installing " ∷ tool_id ∷ " with Cargo requires Human Action Required" ∷ []) (
          "Cargo may execute build.rs and procedural macros for " ∷ r.package_name
          ∷ ", but Cargo has no disable-scripts mode. Review and apply this recipe with a separately bounded builder policy, then rerun synchronization."
          ∷ []))
    else if is_bun r.method && https
    then some (
        ask ("Installing " ∷ tool_id ∷ " with bun requires Human Action Required" ∷ []) (
          "bun cannot guarantee an offline installation of the reviewed tarball for "
          ∷ r.package_name
          ∷ "@"
          ∷ at_version r
          ∷ ", so Canonfig will not run it. Install the package manually, or declare an npm or pnpm recipe, then run synchronization again."
          ∷ []))
    else if is_npm_family r.method && https && is_none (source_integrity r.source)
    then some (
        ask ("Installing " ∷ tool_id ∷ " requires a reviewed npm artifact integrity" ∷ []) (
          "The reviewed "
          ∷ method
          ∷ " tarball for "
          ∷ r.package_name
          ∷ "@"
          ∷ at_version r
          ∷ " has no supported sha256 or sha512 SRI value. Add a lockfile integrity value, or install the package manually and rerun synchronization."
          ∷ []))
    else if requires_build r.build_policy
    then some (
        ask ("Installing " ∷ tool_id ∷ " requires reviewed build hooks" ∷ []) (
          "The " ∷ method
          ∷ " recipe has a reviewed build policy, but Canonfig's current process executor cannot confine lifecycle descendants. Run the bounded build plan manually within its declared executable, path, origin, and capability bounds, then rerun synchronization."
          ∷ []))
    else none

-- The installation, and the login that it may need.
unfoldable pub installation : ToolSpec → ToolRecipe → List Draft
unfolding template
installation tool r =
    draft (
      install_tool (record {
        tool_id = tool.tool_id;
        method = r.method;
        package_name = r.package_name;
        version = r.version;
        index_policy = r.index_policy;
        source = r.source;
        build_policy = r.build_policy;
      }))
    ∷ (if tool.login_required
        then draft (
            human_action (template (tool.tool_id ∷ " requires a local login" ∷ [])) (
              or_else tool.login_instructions
                (template ("Log in to " ∷ tool.tool_id ∷ ", then rerun synchronization." ∷ []))))
          ∷ []
        else [])

abbrev pub head? {ℓ} : {A : Type ℓ} → List A → Option A
head? [] = none
head? (x ∷ xs) = some x

-- The recipe that is tried: the least one for the platform.
unfoldable pub chosen_recipe : Platform → List ToolRecipe → Option ToolRecipe
unfolding sort recipe_lt
chosen_recipe platform recipes =
    head? (sort recipe_lt (filter (λ (r : ToolRecipe). r.platform == platform) recipes))

abbrev pub invalid_state : PlanningContext → InvalidObservedState
invalid_state c = record {
  resource = c.resource.id;
  kind = c.resource.kind;
  observed_state = state_text c.observed;
}

module _ (env : PlanEnv) where
  -- `planEnsure`, of a tool that is not observed to be present.
  unfoldable pub install_missing : PlanningContext → ToolSpec → List Draft
  unfolding chosen_recipe unresolved_agent_task recipe_obstacle installation template
  install_missing c tool = elim (chosen_recipe c.platform tool.recipes) [
    | none ↦
        unresolved_agent_task env c
          (template ("Find an installation recipe for " ∷ tool.tool_id ∷ []))
        ∷ []
    | some r ↦ elim (recipe_obstacle env tool r) [
      | some obstacle ↦ obstacle ∷ []
      | none ↦ installation tool r
    ]
  ]

  -- `planEnsure`
  unfoldable pub plan_ensure : PlanningContext → Planned
  unfolding install_missing unresolved_agent_task no_op_draft state_text template
  plan_ensure c = elim c.desired [
    | tool_resource tool ↦ elim c.observed [
      | present _ ↦ drafts (no_op_draft ∷ [])
      | unverifiable _ ↦ drafts (
          unresolved_agent_task env c (template ("Verify or install tool " ∷ tool.tool_id ∷ []))
          ∷ [])
      | _ ↦ drafts (install_missing c tool)
    ]
    | _ ↦ throws (invalid_observed_state (invalid_state c))
  ]

-- `planRequireLocal`
unfoldable pub plan_require_local : PlanningContext → Planned
unfolding no_op_draft state_text template
plan_require_local c = elim c.desired [
  | credential_resource reference instructions ↦ elim c.observed [
    | present _ ↦ drafts (no_op_draft ∷ [])
    | _ ↦ drafts (
        draft (
          human_action (template ("Local credential " ∷ reference ∷ " is unavailable" ∷ []))
            instructions)
        ∷ [])
  ]
  | _ ↦ throws (invalid_observed_state (invalid_state c))
]
