-- ===== src/Plans/Decoding/Digests.antt =====
-- resource-plans.ts: where the digests of a context are digests, every one that planning reads decodes.
use codexport.Base.{
  true, false, ◌≡◌, refl, String, List, [], ◌∷◌, Option, none, some, arith, All, All-append,
  Option-cases, Bool-cases, inl, inr, not, ◌||◌, ◌&&◌, is_none, ◌==◌, option_eq, if◌then◌else◌,
}
use codexport.Domain.{
  PlanningContext, ObservedState, present, absent, directory_state, unverifiable, AppliedRecord,
  PresentState, DesiredResource, file_resource, append_local, replace_if_unmodified, ApplyPolicy,
  policy_eq, kind_eq, regular, object_kind_eq,
}
use codexport.Plans.Env.{PlanEnv}
use codexport.Plans.Entries.{desired_resource_digest}
use codexport.Plans.Matching.{observed_matches_applied}
use codexport.Plans.Drift.{is_tree, is_root_acceptable}
use codexport.Plans.Unmodified.{
  is_unverifiable, is_converged_skill, is_shape_conflict, applied_field,
}
use codexport.Plans.Decoding.{
  is_content_digest, first_undecodable, decoded_of_observed, decoded_of_applied, decoded_unmodified,
  decoded_of_text, decoded_append_local, decoded_by_policy, decoded_of_resource,
  decoded_of_appended, decoded_of_removed,
}

-- A text that is found not to decode is no digest.
pub first_undecodable-some :
    (texts : List String) (t : String)
    → first_undecodable texts ≡ some t
    → is_content_digest t ≡ false
unfolding first_undecodable
first_undecodable-some [] t h = absurd (ground (arith, h))
first_undecodable-some (s ∷ texts) t h = elim (Bool-cases (is_content_digest s)) [
  | inl good ↦ first_undecodable-some texts t (rw (good, first_undecodable) at h)
  | inr bad ↦ ground (arith, bad, h)
]

abbrev pub AreDigests : List String → Type 0
AreDigests = All (λ (s : String). is_content_digest s ≡ true)

pub first_undecodable-none :
    (texts : List String) → AreDigests texts → first_undecodable texts ≡ none
unfolding first_undecodable
first_undecodable-none [] h = refl
first_undecodable-none (s ∷ texts) h = ground (arith, h.0, first_undecodable-none texts h.1)

-- The texts of the observed and of the applied state that stand for digests are digests.
pub record HasDigests (c : PlanningContext) : Type 0 where
  pub observed : (p : PresentState) → c.observed ≡ present p → is_content_digest p.digest ≡ true
  pub source :
      (p : PresentState) (s : String)
      → c.observed ≡ present p
      → p.managed_source_digest ≡ some s
      → is_content_digest s ≡ true
  pub applied : (a : AppliedRecord) → c.applied ≡ some a → is_content_digest a.digest ≡ true

observed-digests :
    (o : ObservedState)
    → ((p : PresentState) → o ≡ present p → is_content_digest p.digest ≡ true)
    → AreDigests (decoded_of_observed o)
unfolding decoded_of_observed
observed-digests (present p) h = (h p refl, tt)
observed-digests absent h = tt
observed-digests (directory_state d) h = tt
observed-digests (unverifiable r) h = tt

applied-digests :
    (o : Option AppliedRecord)
    → ((a : AppliedRecord) → o ≡ some a → is_content_digest a.digest ≡ true)
    → AreDigests (decoded_of_applied o)
unfolding decoded_of_applied
applied-digests none h = tt
applied-digests (some a) h = (h a refl, tt)

module _ (env : PlanEnv) where
  unmodified-digests :
      (c : PlanningContext)
      → ((p : PresentState) → c.observed ≡ present p → is_content_digest p.digest ≡ true)
      → ((a : AppliedRecord) → c.applied ≡ some a → is_content_digest a.digest ≡ true)
      → AreDigests (decoded_unmodified env c)
  unfolding decoded_unmodified
  unmodified-digests c h k =
      elim (Bool-cases (
        is_none (desired_resource_digest env c.desired)
        || (is_unverifiable c.observed || is_converged_skill env c))) [
          | inl early ↦ rw (early, decoded_unmodified) tt
          | inr late ↦
              rw (late, decoded_unmodified)
                (All-append (λ (s : String). is_content_digest s ≡ true)
                  (decoded_of_observed c.observed)
                  (if is_shape_conflict env c then [] else decoded_of_applied c.applied)
                  (observed-digests c.observed h)
                  (elim (Bool-cases (is_shape_conflict env c)) [
                    | inl conflict ↦ rw conflict tt
                    | inr same ↦ rw same (applied-digests c.applied k)
                  ]))
        ]

  text-digests :
      (c : PlanningContext) (p : PresentState)
      → HasDigests c
      → c.observed ≡ present p
      → AreDigests (decoded_of_text env c p)
  unfolding decoded_of_text
  text-digests c p h o =
      elim (Bool-cases (
        not (p.object_kind == some regular)
        || (is_none p.managed_source_digest
            && applied_field (λ (a : AppliedRecord). a.policy) c.applied == some append_local))) [
              | inl conflict ↦ rw (conflict, decoded_of_text) (h.observed p o, tt)
              | inr fine ↦ elim (Option-cases p.managed_source_digest) [
                | inl local ↦ rw (fine, local, decoded_of_text) tt
                | inr (source, found) ↦
                    rw (fine, found, decoded_of_text)
                      (unmodified-digests
                        (record c { observed = present (record p { digest = source }) })
                        (λ q e. ground (arith, e, h.source p source o found)) h.applied)
              ]
            ]

  append-digests : (c : PlanningContext) → HasDigests c → AreDigests (decoded_append_local env c)
  unfolding decoded_append_local
  append-digests c h = go c.desired refl c.observed refl
    where
      go :
          (d : DesiredResource)
          → c.desired ≡ d
          → (o : ObservedState) → c.observed ≡ o
          → AreDigests (decoded_append_local env c)
      go (file_resource f) d (present p) o = rw (d, o, decoded_append_local) (text-digests c p h o)
      go (file_resource f) d _ o = rw (d, o, decoded_append_local) tt
      go _ d _ o = rw (d, decoded_append_local) tt

  policy-digests : (c : PlanningContext) → HasDigests c → AreDigests (decoded_by_policy env c)
  unfolding decoded_by_policy
  policy-digests c h = go c.resource.policy refl
    where
      go : (p : ApplyPolicy) → c.resource.policy ≡ p → AreDigests (decoded_by_policy env c)
      go replace_if_unmodified e =
          rw (e, decoded_by_policy) (unmodified-digests c h.observed h.applied)
      go append_local e = rw (e, decoded_by_policy) (append-digests c h)
      go _ e = rw (e, decoded_by_policy) tt

  pub resource-digests :
      (c : PlanningContext) → HasDigests c → AreDigests (decoded_of_resource env c)
  unfolding decoded_of_resource
  resource-digests c h =
      elim (Bool-cases (not (is_tree c.desired) || is_root_acceptable env c.observed)) [
        | inl fine ↦ rw (fine, decoded_of_resource) (policy-digests c h)
        | inr conflict ↦ rw (conflict, decoded_of_resource) (observed-digests c.observed h.observed)
      ]

  appended-digests :
      (c : PlanningContext) (a : AppliedRecord)
      → HasDigests c
      → c.applied ≡ some a
      → AreDigests (decoded_of_appended env c a)
  unfolding decoded_of_appended
  appended-digests c a h k = go c.observed refl
    where
      of_present :
          (p : PresentState) (source : Option String)
          → c.observed ≡ present p
          → p.managed_source_digest ≡ source
          → AreDigests (decoded_of_appended env c a)
      of_present p none o m = rw (o, m, decoded_of_appended) (h.applied a k, (h.observed p o, tt))
      of_present p (some source) o m =
          elim (Bool-cases (
            observed_matches_applied env
              (record c { observed = present (record p { digest = source }) }))) [
                | inl same ↦ ground (arith, o, m, same, h.source p source o m)
                | inr edited ↦
                    ground
                      (arith, o, m, edited, h.source p source o m, h.applied a k, h.observed p o)
              ]

      go : (o : ObservedState) → c.observed ≡ o → AreDigests (decoded_of_appended env c a)
      go absent o = rw (o, decoded_of_appended) tt
      go (present p) o = of_present p p.managed_source_digest o refl
      go (directory_state d) o = rw (o, decoded_of_appended) (h.applied a k, tt)
      go (unverifiable r) o = rw (o, decoded_of_appended) (h.applied a k, tt)

  pub removed-digests : (c : PlanningContext) → HasDigests c → AreDigests (decoded_of_removed env c)
  unfolding decoded_of_removed
  removed-digests c h = elim (Option-cases c.applied) [
    | inl nothing ↦ rw (nothing, decoded_of_removed) tt
    | inr (a, applied) ↦
        elim (Bool-cases (
          is_none a.target
          || not (a.kind == some c.resource.kind)
          || not (a.policy == some c.resource.policy))) [
            | inl other ↦ rw (applied, other, decoded_of_removed) tt
            | inr owned ↦ elim (Bool-cases (c.resource.policy == append_local)) [
              | inl text ↦
                  rw (applied, owned, text, decoded_of_removed) (appended-digests c a h applied)
              | inr plain ↦
                  rw (applied, owned, plain, decoded_of_removed)
                    (observed-digests c.observed h.observed)
            ]
          ]
  ]
