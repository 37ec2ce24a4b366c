-- ===== src/Examples/Decoding.antt =====
-- The theorems on the digests that planning decodes.
use mathlib.Core.List.{Memᴰ}
use codexport.Base.{
  ◌⊎◌, true, ◌≡◌, refl, String, [], ◌∷◌, none, some, arith, map_get, map_set, set_from, string_eq,
}
use codexport.Domain.{
  file, append_local, replace_if_unmodified, present, PresentState, AppliedRecord, PlanningContext,
  policy_compatible_with_kind,
}
use codexport.Plans.Env.{undecodable}
use codexport.Plans.Decoding.{is_content_digest}
use codexport.Plans.Dispatch.{plan_resource}
use codexport.Plans.Decoding.Digests.{HasDigests}
use codexport.Plans.Dispatch.Total.{Plans, plan_resource-Plans}
use codexport.Planner.Data.{PlannerInput, PlanningError, ObservedEntry}
use codexport.Planner.Synchronize.{
  PlannedSynchronization, planned, refused, died, plan_synchronization,
}
use codexport.Planner.Synchronize.Live.{IsDecodable, plan_synchronization-ends}
use codexport.Planner.Synchronize.Validated.{IsUndecodable, plan_synchronization-died}
use codexport.Examples.{plain_env, resource_of, text, context, present_text, applied_as}
use codexport.Examples.Planning.{planner, request, revision}

abbrev mixed_digest : String
mixed_digest = "a1a1a1a1a1a1a1a1a1a1a1a1a1a1a1a1a1a1a1a1a1a1a1a1a1a1a1a1a1a1a1a1"

abbrev source_digest : String
source_digest = "0f0f0f0f0f0f0f0f0f0f0f0f0f0f0f0f0f0f0f0f0f0f0f0f0f0f0f0f0f0f0f0f"

mixed-is_digest : is_content_digest mixed_digest ≡ true
unfolding is_content_digest
mixed-is_digest = refl

source-is_digest : is_content_digest source_digest ≡ true
unfolding is_content_digest
source-is_digest = refl

-- An adopted text whose observed and applied digests are digests.
abbrev digested_text : PlanningContext
digested_text =
    context file append_local text (present (present_text mixed_digest (some source_digest)))
      (some (record (applied_as file append_local) { digest = source_digest }))

digested_text-HasDigests : HasDigests digested_text
digested_text-HasDigests = record {
  observed = λ p e. ground (arith, e, mixed-is_digest);
  source = λ p s e k. ground (arith, e, k, source-is_digest);
  applied = λ a e. ground (arith, e, source-is_digest);
}

plan_resource-Plans_example : Plans (plan_resource plain_env digested_text)
unfolding policy_compatible_with_kind
plan_resource-Plans_example =
    plan_resource-Plans plain_env digested_text refl refl digested_text-HasDigests

-- A follower with an edited text, whose digests are digests.
abbrev edited : PlannerInput
edited = record request {
  revision = record revision { resources = resource_of file replace_if_unmodified ∷ [] };
  observed_resources =
      record { resource = "guide"; observed = present (present_text mixed_digest none) } ∷ [];
  applied_resources =
      record (applied_as file replace_if_unmodified) { digest = source_digest } ∷ [];
}

edited-IsDecodable : IsDecodable edited
edited-IsDecodable = record { observed = of_observed; source = of_source; applied = of_applied }
  where
    of_observed :
        (e : ObservedEntry) (p : PresentState)
        → Memᴰ e edited.observed_resources
        → e.observed ≡ present p
        → is_content_digest p.digest ≡ true
    of_observed e p (Memᴰ.head same) k = ground (arith, same, k, mixed-is_digest)
    of_observed e p (Memᴰ.tail m) k = elim m [ ]

    of_source :
        (e : ObservedEntry) (p : PresentState) (s : String)
        → Memᴰ e edited.observed_resources
        → e.observed ≡ present p
        → p.managed_source_digest ≡ some s
        → is_content_digest s ≡ true
    of_source e p s (Memᴰ.head same) k n = ground (arith, same, k, n)
    of_source e p s (Memᴰ.tail m) k n = elim m [ ]

    of_applied :
        (a : AppliedRecord) → Memᴰ a edited.applied_resources → is_content_digest a.digest ≡ true
    of_applied a (Memᴰ.head same) = ground (arith, same, source-is_digest)
    of_applied a (Memᴰ.tail m) = elim m [ ]

plan_synchronization-ends_example :
    ((p : PlannedSynchronization) × (plan_synchronization planner edited ≡ planned p))
    ⊎ ((e : PlanningError) × (plan_synchronization planner edited ≡ refused e))
plan_synchronization-ends_example = plan_synchronization-ends planner edited edited-IsDecodable

-- A follower whose record of what was applied has the text "old" for a digest.
abbrev spoilt : PlannerInput
spoilt = record request {
  revision = record revision { resources = resource_of file replace_if_unmodified ∷ [] };
  observed_resources =
      record { resource = "guide"; observed = present (present_text mixed_digest none) } ∷ [];
  applied_resources = applied_as file replace_if_unmodified ∷ [];
}

spoilt-died : plan_synchronization planner spoilt ≡ died (undecodable "old")
unfolding plan_synchronization map_get map_set set_from
spoilt-died = refl

plan_synchronization-died_example : IsUndecodable (undecodable "old")
plan_synchronization-died_example =
    plan_synchronization-died planner spoilt (undecodable "old") spoilt-died
