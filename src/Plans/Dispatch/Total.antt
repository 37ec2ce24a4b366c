-- ===== src/Plans/Dispatch/Total.antt =====
-- resource-plans.ts: when `planResource` throws.
use codexport.Base.{
  ◌≡◌, false, true, refl, String, List, ◌∷◌, [], arith, Option-cases, inl, inr, ◌⊎◌,
}
use codexport.Domain.{policy_compatible_with_kind, desired_kind, PlanningContext}
use codexport.Plans.Env.{PlanEnv, Draft, Planned, drafts, throws, Thrown, undecodable}
use codexport.Plans.Drift.{directory_root_conflict}
use codexport.Plans.Unmodified.{plan_append_local}
use codexport.Plans.Ensure.{plan_ensure, plan_require_local}
use codexport.Plans.Decoding.{
  is_content_digest, first_undecodable, decoded_of_resource, decoded_of_removed,
}
use codexport.Plans.Decoding.Digests.{
  HasDigests, first_undecodable-some, first_undecodable-none, resource-digests, removed-digests,
}
use codexport.Plans.Dispatch.{
  plan_by_policy, plan_decoded, plan_resource, plan_removed, plan_withdrawn,
}

-- It plans, and does not throw.
abbrev pub Plans : Planned → Type 0
Plans p = (ds : List Draft) × (p ≡ drafts ds)

pub Planned-cases : (p : Planned) → Plans p ⊎ ((x : Thrown) × (p ≡ throws x))
Planned-cases (drafts ds) = inl (ds, refl)
Planned-cases (throws x) = inr (x, refl)

module _ (env : PlanEnv) (c : PlanningContext) where
  by_policy-Plans :
      policy_compatible_with_kind c.resource.kind c.resource.policy ≡ true
      → desired_kind c.desired ≡ c.resource.kind
      → Plans (plan_by_policy env c)
  unfolding plan_by_policy policy_compatible_with_kind plan_append_local plan_ensure
      plan_require_local
  by_policy-Plans h k = elim (Planned-cases (plan_by_policy env c)) [
    | inl planned ↦ planned
    | inr (x, thrown) ↦ absurd (ground arith)
  ]

  decoded-Plans :
      policy_compatible_with_kind c.resource.kind c.resource.policy ≡ true
      → desired_kind c.desired ≡ c.resource.kind
      → Plans (plan_decoded env c)
  unfolding plan_decoded
  decoded-Plans h k = elim (Option-cases (directory_root_conflict env c)) [
    | inr (d, conflict) ↦ (d ∷ [], rw (conflict, plan_decoded))
    | inl free ↦ let (ds, planned) = by_policy-Plans h k in (ds, rw (free, plan_decoded) planned)
  ]

  -- Where the policy fits the kind of the resource, the wanted state is of that kind, and the texts
  -- that the observed state (its Source payload included) and the applied record give as digests are
  -- digests, the planning of a resource does not throw.
  pub plan_resource-Plans :
      policy_compatible_with_kind c.resource.kind c.resource.policy ≡ true
      → desired_kind c.desired ≡ c.resource.kind
      → HasDigests c
      → Plans (plan_resource env c)
  unfolding plan_resource
  plan_resource-Plans h k w =
      let (ds, planned) = decoded-Plans h k in
      let good = first_undecodable-none (decoded_of_resource env c) (resource-digests env c w) in
      (ds, rw (good, plan_resource) planned)

  -- What it throws else, where policy and kinds fit: the error for a text that is no digest.
  pub plan_resource-undecodable :
      policy_compatible_with_kind c.resource.kind c.resource.policy ≡ true
      → desired_kind c.desired ≡ c.resource.kind
      → (x : Thrown) → plan_resource env c ≡ throws x
      → (t : String) × (x ≡ undecodable t) × (is_content_digest t ≡ false)
  unfolding plan_resource
  plan_resource-undecodable h k x e =
      elim (Option-cases (first_undecodable (decoded_of_resource env c))) [
        | inr (t, bad) ↦
            (t, ground (arith, bad, e), first_undecodable-some (decoded_of_resource env c) t bad)
        | inl good ↦
            let (ds, planned) = decoded-Plans h k in absurd (ground (arith, good, planned, e))
      ]

  pub plan_withdrawn-undecodable :
      (x : Thrown)
      → plan_withdrawn env c ≡ throws x
      → (t : String) × (x ≡ undecodable t) × (is_content_digest t ≡ false)
  unfolding plan_withdrawn
  plan_withdrawn-undecodable x e =
      elim (Option-cases (first_undecodable (decoded_of_removed env c))) [
        | inr (t, bad) ↦
            (t, ground (arith, bad, e), first_undecodable-some (decoded_of_removed env c) t bad)
        | inl good ↦ absurd (ground (arith, good, e))
      ]

  pub plan_withdrawn-Plans : HasDigests c → Plans (plan_withdrawn env c)
  unfolding plan_withdrawn
  plan_withdrawn-Plans w =
      let good = first_undecodable-none (decoded_of_removed env c) (removed-digests env c w) in
      (plan_removed env c, rw (good, plan_withdrawn) refl)
