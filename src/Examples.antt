-- ===== src/Examples.antt =====
-- The theorems on concrete resources: a text, a configuration, a directory and a tool.
pub mod Planning
pub mod Running
pub mod Decoding
use mathlib.Core.List.{Memᴰ}
use codexport.Base.{
  true, false, ◌≡◌, map, ◌≢◌, ◌⊎◌, inl, refl, String, List, [], ◌∷◌, Option, none, some, any,
  contains, map_get, map_set, set_from, keys, IsSetList, ◌↔◌, string_eq,
}
use codexport.Domain.{
  PublishedResource, ResourceKind, file, directory, config, tool, ApplyPolicy, replace,
  replace_if_unmodified, append_local, merge, mirror_owned, ensure, linux, npm, ConfigSpec, toml,
  file_resource, directory_resource, config_resource, tool_resource, DesiredFile, FileEntry,
  present_file, regular, PresentState, absent, present, directory_state, ObservedState,
  AppliedRecord, PlanningContext, write_config, InstallTool, transfer_blob, transfer_blob_kind,
  DesiredResource, policy_compatible_with_kind,
}
use codexport.Plans.Env.{PlanEnv, draft, writes, no_op_draft}
use codexport.Plans.Entries.{file_signature}
use codexport.Plans.Matching.{signatures_by_path, observed_matches_desired}
use codexport.Plans.Replace.{observed_entries}
use codexport.Plans.Unmodified.{plan_replace_if_unmodified, plan_append_local}
use codexport.Plans.Unmodified.Safety.{
  IsUnedited, Adoptable, any_writes, replace_if_unmodified-IsUnedited, append_local-Adoptable,
}
use codexport.Plans.Merge.{merge_config, plan_mirror, mirror_removes, mirror_entries}
use codexport.Plans.Merge.Keys.{IsMerged, merge_config-IsMerged}
use codexport.Plans.Merge.Mirror.{IsRemovable, mirror_removes-IsRemovable, mirror_no_op-converged}
use codexport.Plans.Dispatch.{plan_resource, plan_removed, removal}
use codexport.Plans.Dispatch.Removal.{IsWithdrawn, plan_removed-IsWithdrawn}
use codexport.Plans.Dispatch.Converged.{converged-no_writes}
use codexport.Planner.Data.{ok}
use codexport.Planner.Index.{index_unique}
use codexport.Planner.Index.Unique.{index_unique_iff}
use codexport.Planner.Transfers.{TransferPlan, plan_transfers, transfer_id}
use codexport.Planner.Transfers.Required.{IsTransferPlan, plan_transfers-IsTransferPlan}
use codexport.Planner.Order.{walk_all, out_of_fuel, order_resources}
use codexport.Planner.Order.Sound.{entry_of, IsDependencyOrder, order_resources-IsDependencyOrder}
use codexport.Planner.Order.Fuel.{walk_all-fuel}

-- An environment: a text is its own digest.
abbrev pub plain_env : PlanEnv
plain_env = record {
  sha256_hex = λ text. text;
  is_missing_version = λ r. false;
  is_nested_launcher = λ executable. false;
}

abbrev pub resource_of : ResourceKind → ApplyPolicy → PublishedResource
resource_of kind policy = record {
  id = "guide";
  kind = kind;
  policy = policy;
  target = "/home/agent/guide";
  groups = none;
  depends_on = [];
  blobs = [];
}

abbrev pub applied_as : ResourceKind → ApplyPolicy → AppliedRecord
applied_as kind policy = record {
  resource = "guide";
  revision = "one";
  digest = "old";
  applied_at = "2026-01-01T00:00:00Z";
  kind = some kind;
  policy = some policy;
  target = some "/home/agent/guide";
  executable = some false;
  mode = some 420;
  symlink_to = none;
  owned_files = none;
  owned_keys = some ("a" ∷ "b" ∷ []);
  config_format = some toml;
}

abbrev pub context :
    ResourceKind
    → ApplyPolicy
    → DesiredResource
    → ObservedState
    → Option AppliedRecord
    → PlanningContext
context kind policy desired observed applied = record {
  resource = resource_of kind policy;
  desired = desired;
  observed = observed;
  overlay_keys = "c" ∷ [];
  applied = applied;
  platform = linux;
}

abbrev pub text : DesiredResource
text = file_resource (record { digest = "new"; executable = false; mode = 420; symlink_to = none })

abbrev pub present_text : String → Option String → PresentState
present_text digest source = record {
  digest = digest;
  managed_source_digest = source;
  executable = false;
  mode = some 420;
  object_kind = some regular;
  symlink_to = none;
}

-- An unedited text with a new revision.
abbrev unedited_text : PlanningContext
unedited_text =
    context file replace_if_unmodified text (present (present_text "old" none))
      (some (applied_as file replace_if_unmodified))

unedited_text-writes : any writes (plan_replace_if_unmodified plain_env unedited_text) ≡ true
unfolding plan_replace_if_unmodified writes
unedited_text-writes = refl

replace_if_unmodified-IsUnedited_example :
    (unedited_text.observed ≡ absent) ⊎ IsUnedited plain_env unedited_text
replace_if_unmodified-IsUnedited_example =
    replace_if_unmodified-IsUnedited plain_env unedited_text unedited_text-writes

-- A text whose Source payload nobody edited.
abbrev pub managed_text : PlanningContext
managed_text =
    context file append_local text (present (present_text "mixed" (some "old")))
      (some (applied_as file append_local))

managed_text-writes : any_writes (plan_append_local plain_env managed_text) ≡ true
unfolding plan_append_local writes
managed_text-writes = refl

append_local-Adoptable_example : Adoptable plain_env managed_text
append_local-Adoptable_example = append_local-Adoptable plain_env managed_text managed_text-writes

-- A configuration that has lost the key "b".
abbrev config_spec : ConfigSpec
config_spec = record { digest = "new"; format = toml; keys = "a" ∷ [] }

abbrev shorter_config : PlanningContext
shorter_config =
    context config merge (config_resource config_spec) (present (present_text "old" none))
      (some (applied_as config merge))

shorter_config-merged :
    merge_config plain_env shorter_config config_spec
    ≡ draft (write_config "/home/agent/guide" ("a" ∷ []) (some ("b" ∷ []))) ∷ []
unfolding merge_config
shorter_config-merged = refl

merge_config-IsMerged_example : IsMerged shorter_config config_spec ("a" ∷ []) ("b" ∷ []) "b"
merge_config-IsMerged_example =
    merge_config-IsMerged plain_env shorter_config config_spec "/home/agent/guide" ("a" ∷ [])
      (some ("b" ∷ [])) "b" shorter_config-merged

-- Directories with one file.
abbrev entry : String → FileEntry
entry path = record {
  path = path;
  digest = "old";
  executable = some false;
  mode = some 420;
  object_kind = none;
  symlink_to = none;
}

abbrev tree : List DesiredFile → DesiredResource
tree files = directory_resource (record { mode = 493; directories = []; files = files })

abbrev observed_tree : ObservedState
observed_tree =
    directory_state
      (record { object_kind = none; mode = 493; files = present_file (entry "x") ∷ [] })

abbrev emptied_directory : PlanningContext
emptied_directory =
    context directory mirror_owned (tree []) observed_tree
      (some (record (applied_as directory mirror_owned) { owned_files = some (entry "x" ∷ []) }))

emptied_directory-removes : contains "x" (mirror_removes plain_env emptied_directory) ≡ true
unfolding mirror_removes map_set
emptied_directory-removes = refl

mirror_removes-IsRemovable_example : IsRemovable plain_env emptied_directory "x"
mirror_removes-IsRemovable_example =
    mirror_removes-IsRemovable plain_env emptied_directory "x" emptied_directory-removes

abbrev settled_directory : PlanningContext
settled_directory =
    context directory mirror_owned
      (tree (
        record { path = "x"; digest = "old"; executable = false; mode = 420; symlink_to = none }
        ∷ []))
      observed_tree none

settled_directory-plan : plan_mirror plain_env settled_directory ≡ no_op_draft ∷ []
unfolding plan_mirror no_op_draft map_set
settled_directory-plan = refl

settled_directory-entry : Memᴰ (entry "x") (mirror_entries plain_env settled_directory)
unfolding mirror_entries
settled_directory-entry = Memᴰ.head refl

mirror_no_op-converged_example :
    map_get "x" (signatures_by_path (observed_entries settled_directory.observed))
    ≡ some (file_signature (entry "x"))
mirror_no_op-converged_example =
    mirror_no_op-converged plain_env settled_directory (entry "x") settled_directory-plan
      settled_directory-entry

-- A tool with an npm recipe.
abbrev missing_tool : PlanningContext
missing_tool =
    context tool ensure
      (tool_resource (record {
        tool_id = "jq";
        recipes =
            record {
              platform = linux;
              method = npm;
              package_name = "jq";
              version = some "1.0.0";
              index_policy = none;
              source = none;
              build_policy = none;
            }
            ∷ [];
        login_required = false;
        login_instructions = none;
        agent_install = none;
      }))
      absent none

abbrev jq : InstallTool
jq = record {
  tool_id = "jq";
  method = npm;
  package_name = "jq";
  version = some "1.0.0";
  index_policy = none;
  source = none;
  build_policy = none;
}

-- A text that is no longer published.
unedited_text-removed : plan_removed plain_env unedited_text ≡ removal "/home/agent/guide" [] []
unfolding plan_removed
unedited_text-removed = refl

plan_removed-IsWithdrawn_example : IsWithdrawn plain_env unedited_text "/home/agent/guide" [] []
plan_removed-IsWithdrawn_example =
    plan_removed-IsWithdrawn plain_env unedited_text "/home/agent/guide" [] [] unedited_text-removed

-- A text at its wanted state.
abbrev settled_text : PlanningContext
settled_text = context file replace text (present (present_text "new" none)) none

settled_text-matches :
    observed_matches_desired plain_env settled_text.desired settled_text.observed ≡ true
unfolding observed_matches_desired
settled_text-matches = refl

converged-no_writes_example : any_writes (plan_resource plain_env settled_text) ≡ false
converged-no_writes_example =
    converged-no_writes plain_env settled_text settled_text-matches (inl refl)

-- Two resources that depend on each other.
walk_all-fuel_example :
    walk_all (
      ("a", record (resource_of file replace) { depends_on = "b" ∷ [] })
      ∷ ("b", record (resource_of file replace) { depends_on = "a" ∷ [] })
      ∷ [])
    ≢ out_of_fuel
walk_all-fuel_example = walk_all-fuel (
    ("a", record (resource_of file replace) { depends_on = "b" ∷ [] })
    ∷ ("b", record (resource_of file replace) { depends_on = "a" ∷ [] })
    ∷ [])

-- A resource that is listed before its dependency.
abbrev listed : List PublishedResource
listed =
    record (resource_of file replace) { id = "a"; depends_on = "b" ∷ [] }
    ∷ record (resource_of file replace) { id = "b" }
    ∷ []

listed-indexed : index_unique "revision.resources" (map entry_of listed) ≡ ok (map entry_of listed)
unfolding index_unique
listed-indexed = refl

listed-ordered :
    order_resources (map entry_of listed)
    ≡ ok (
        record (resource_of file replace) { id = "b" }
        ∷ record (resource_of file replace) { id = "a"; depends_on = "b" ∷ [] }
        ∷ [])
unfolding order_resources map_get map_set set_from
listed-ordered = refl

order_resources-IsDependencyOrder_example : IsDependencyOrder (map entry_of listed) (
    record (resource_of file replace) { id = "b" }
    ∷ record (resource_of file replace) { id = "a"; depends_on = "b" ∷ [] }
    ∷ [])
order_resources-IsDependencyOrder_example =
    order_resources-IsDependencyOrder "revision.resources" listed (map entry_of listed)
      (record (resource_of file replace) { id = "b" }
        ∷ record (resource_of file replace) { id = "a"; depends_on = "b" ∷ [] }
        ∷ [])
      listed-indexed listed-ordered

index_unique_iff_example :
    (index_unique "revision.resources" (map entry_of listed) ≡ ok (map entry_of listed))
    ↔ ((map entry_of listed ≡ map entry_of listed) × IsSetList (keys (map entry_of listed)))
index_unique_iff_example =
    index_unique_iff "revision.resources" (map entry_of listed) (map entry_of listed)

-- Two resources that share a blob, and one that the follower has.
abbrev sharing : List PublishedResource
sharing =
    record (resource_of file replace) { id = "b"; blobs = "y" ∷ "x" ∷ [] }
    ∷ record (resource_of file replace) { id = "a"; blobs = "y" ∷ [] }
    ∷ []

abbrev shared_plan : TransferPlan
shared_plan = record {
  actions =
      record {
        id = "transfer:y";
        resource = "a";
        kind = transfer_blob_kind;
        detail = transfer_blob "y" 3;
        before = [];
      }
      ∷ [];
  by_blob = ("y", "transfer:y") ∷ [];
  required_blobs = "y" ∷ [];
}

shared_plan-planned :
    plan_transfers sharing (("y", record { id = "y"; bytes = 3 }) ∷ []) ("x" ∷ []) ≡ ok shared_plan
unfolding plan_transfers map_get map_set transfer_id
shared_plan-planned = refl

plan_transfers-IsTransferPlan_example : IsTransferPlan sharing ("x" ∷ []) shared_plan
plan_transfers-IsTransferPlan_example =
    plan_transfers-IsTransferPlan sharing (("y", record { id = "y"; bytes = 3 }) ∷ []) ("x" ∷ [])
      shared_plan shared_plan-planned
