-- ===== src/Examples/Planning.antt =====
-- The theorems on whole plans: a revision of one text, planned and run.
use mathlib.Core.List.{Memᴰ, Permᴰ}
use codexport.Domain.Composition.{
  managed, parsed, parse_text_composition, compose_text_file, contains_source_marker, has_code,
  unmanaged, parse_text_composition-compose_text_file,
}
use codexport.Base.{
  eq_iff, false, ◌≡◌, ◌≢◌, refl, String, [], ◌∷◌, none, some, map_get, map_set, set_from, string_eq,
}
use codexport.Domain.{
  file, directory, replace, linux, PlanningRevision, digest_check, absent, PlannedAction,
  write_file_kind, write_file,
}
use codexport.Profile.Paths.{plain_text, normalized_target_path}
use codexport.Profile.Targets.{PathResource, is_filesystem_kind, overlaps, validate_path_conflicts}
use codexport.Profile.Targets.Disjoint.{targets-disjoint}
use codexport.Planner.Data.{PlannerInput}
use codexport.Planner.Synchronize.{
  PlannerEnv, PlannedSynchronization, planned, plan_synchronization,
}
use codexport.Planner.Synchronize.Accepted.{IsPlanOf, plan_synchronization-IsPlanOf}
use codexport.Executor.Contexts.{
  DigestEnv, RunInput, ActionState, ordered, out_of_fuel, execution_contexts, default_limits,
  catalog_of,
}
use codexport.Executor.Contexts.Sound.{
  IsRunnable, actions_of, execution_contexts-IsRunnable, execution_contexts-plan_synchronization,
  execution_contexts-fuel,
}
use codexport.Examples.{plain_env, resource_of, text}

-- Two directories side by side.
abbrev place : String → PathResource
place id = record { id = id; kind = directory; target = id; entries = [] }

places-valid :
    validate_path_conflicts plain_text linux (place "/home/a" ∷ place "/home/b" ∷ []) ≡ []
unfolding validate_path_conflicts map_get map_set
places-valid = refl

targets-disjoint_example :
    overlaps
      (normalized_target_path plain_text "/home/a" linux)
      (normalized_target_path plain_text "/home/b" linux)
    ≡ false
unfolding is_filesystem_kind
targets-disjoint_example =
    targets-disjoint plain_text linux (place "/home/a" ∷ place "/home/b" ∷ []) (place "/home/a")
      (place "/home/b") places-valid (Memᴰ.head refl) (Memᴰ.tail (Memᴰ.head refl)) refl refl
      (λ e. absurd (cc ((eq_iff "/home/a" "/home/b").1 e)))

-- The root and a directory below it.
root_and_child : validate_path_conflicts plain_text linux (place "/" ∷ place "/home/a" ∷ []) ≡ []
unfolding validate_path_conflicts map_get map_set
root_and_child = refl

-- A revision with a text, and a follower that does not have it.
abbrev pub revision : PlanningRevision
revision = record {
  id = "two";
  resources = resource_of file replace ∷ [];
  desired = record { resource = "guide"; desired = text; verification = digest_check "new" } ∷ [];
  blobs = [];
  removed_resources = none;
}

abbrev pub planner : PlannerEnv
planner = record {
  validation = record { plan = plain_env; text = plain_text; recipe_error = λ r. none };
  encode = λ b. b.revision;
}

abbrev pub request : PlannerInput
request = record {
  revision = revision;
  follower = "laptop";
  platform = linux;
  observed_resources = record { resource = "guide"; observed = absent } ∷ [];
  available_blobs = [];
  local_overlay = [];
  applied_resources = [];
}

abbrev pub writing : PlannedAction
writing = record {
  id = "action:guide:0:write-file";
  resource = "guide";
  kind = write_file_kind;
  detail = write_file (record {
    target = "/home/agent/guide";
    digest = "new";
    executable = some false;
    mode = some 420;
    previous_source_digest = none;
  });
  before = [];
}

abbrev pub plan : PlannedSynchronization
plan = record {
  body = record {
    revision = "two";
    follower = "laptop";
    required_blobs = [];
    actions = writing ∷ [];
    agent_tasks = [];
  };
  digest = "two";
  encoded = "two";
}

pub request-planned : plan_synchronization planner request ≡ planned plan
unfolding plan_synchronization map_get map_set set_from
request-planned = refl

plan_synchronization-IsPlanOf_example : IsPlanOf planner request plan
plan_synchronization-IsPlanOf_example =
    plan_synchronization-IsPlanOf planner request plan request-planned

-- A run of this plan.
abbrev pub digests : DigestEnv
digests = record { sha256_hex = λ s. s; encode = λ b. b.revision }

abbrev pub run : RunInput
run = record {
  id = "run";
  plan = plan;
  revision = revision;
  applied_resources = [];
  artifacts = [];
  known_secrets = [];
  agent = none;
  has_agent_resolution = false;
  limits = record {
    maximum_file_bytes = none;
    process_timeout_milliseconds = none;
    maximum_process_output_bytes = none;
    verification_concurrency = none;
  };
}

abbrev pub state : ActionState
state = record {
  run = "run";
  action = writing;
  resource = resource_of file replace;
  desired = text;
  verification = digest_check "new";
  limits = default_limits;
}

run-ordered : execution_contexts digests run default_limits ≡ ordered (state ∷ [])
unfolding execution_contexts map_get map_set set_from
run-ordered = refl

execution_contexts-IsRunnable_example :
    IsRunnable "run" default_limits (catalog_of revision) [] (state ∷ [])
    × Permᴰ (writing ∷ []) (writing ∷ [])
execution_contexts-IsRunnable_example =
    execution_contexts-IsRunnable digests run default_limits (state ∷ []) run-ordered

execution_contexts-plan_synchronization_example : actions_of (state ∷ []) ≡ plan.body.actions
execution_contexts-plan_synchronization_example =
    execution_contexts-plan_synchronization planner request plan request-planned digests run
      default_limits (state ∷ []) refl run-ordered

execution_contexts-fuel_example : execution_contexts digests run default_limits ≢ out_of_fuel
execution_contexts-fuel_example = execution_contexts-fuel digests run default_limits

-- A file of the follower that the Source adopts.
parse_text_composition-compose_text_file_example :
    parse_text_composition (compose_text_file "rules" (some (unmanaged "mine")))
    ≡ parsed (managed "rules" "mine")
unfolding has_code contains_source_marker compose_text_file
parse_text_composition-compose_text_file_example =
    parse_text_composition-compose_text_file "rules" (some (unmanaged "mine")) refl refl refl refl
