-- ===== src/Plans/Decoding.antt =====
-- resource-plans.ts: the calls of `Schema.decodeUnknownSync(ContentDigest)`, which throw on a text that
-- is no digest. The functions of a policy give what they return where every call succeeds; here are
-- the texts that each of them decodes, in the order of the calls. The schema is that of
-- src/domain/brand.ts.
pub mod Digests
use Prim.Native.Char.{code}
use codexport.Base.{
  Bool, true, ◌&&◌, ◌||◌, not, ℕ, String, List, [], ◌∷◌, ◌++◌, Option, none, some, ◌==◌, nat_eq,
  option_eq, leb, length, is_none, if◌then◌else◌,
}
use codexport.Domain.{
  file_resource, ObservedState, absent, present, PresentState, PlanningContext, AppliedRecord,
  replace_if_unmodified, append_local, policy_eq, kind_eq, regular, object_kind_eq,
}
use codexport.Plans.Env.{PlanEnv}
use codexport.Plans.Entries.{desired_resource_digest}
use codexport.Plans.Matching.{observed_matches_applied}
use codexport.Plans.Drift.{is_tree, is_root_acceptable}
use codexport.Plans.Unmodified.{
  is_unverifiable, is_converged_skill, is_shape_conflict, applied_field,
}

-- The code points of a text.
abbrev code_points : String → List ℕ
code_points String.[] = []
code_points (String.◌∷◌ c s) = code c ∷ code_points s

abbrev is_lower_hex : ℕ → Bool
is_lower_hex n = (leb b'a' n && leb n b'f') || (leb b'0' n && leb n b'9')

abbrev are_lower_hex : List ℕ → Bool
are_lower_hex [] = true
are_lower_hex (n ∷ ns) = is_lower_hex n && are_lower_hex ns

-- `ContentDigest`: 64 lower-case hexadecimal digits.
unfoldable pub is_content_digest : String → Bool
is_content_digest s = length (code_points s) == 64 && are_lower_hex (code_points s)

-- The first text that does not decode.
unfoldable pub first_undecodable : List String → Option String
unfolding is_content_digest
first_undecodable [] = none
first_undecodable (s ∷ texts) = if is_content_digest s then first_undecodable texts else some s

-- `observedDigest`, and `observedDigestForDirectoryRoot`.
unfoldable pub decoded_of_observed : ObservedState → List String
decoded_of_observed (present p) = p.digest ∷ []
decoded_of_observed _ = []

unfoldable pub decoded_of_applied : Option AppliedRecord → List String
decoded_of_applied none = []
decoded_of_applied (some applied) = applied.digest ∷ []

module _ (env : PlanEnv) where
  -- `planReplaceIfUnmodified`
  unfoldable pub decoded_unmodified : PlanningContext → List String
  unfolding desired_resource_digest is_converged_skill is_shape_conflict decoded_of_observed
      decoded_of_applied
  decoded_unmodified c =
      if is_none (desired_resource_digest env c.desired)
        || (is_unverifiable c.observed || is_converged_skill env c)
      then []
      else decoded_of_observed c.observed
        ++ (if is_shape_conflict env c then [] else decoded_of_applied c.applied)

  -- `planAppendLocal`, of a wanted file and a present target.
  unfoldable pub decoded_of_text : PlanningContext → PresentState → List String
  unfolding decoded_unmodified
  decoded_of_text c p =
      let was_appended = applied_field (λ applied. applied.policy) c.applied == some append_local in
      if not (p.object_kind == some regular) || (is_none p.managed_source_digest && was_appended)
      then p.digest ∷ []
      else elim p.managed_source_digest [
        | none ↦ []
        | some source ↦
            decoded_unmodified (record c { observed = present (record p { digest = source }) })
      ]

  -- `planAppendLocal`
  unfoldable pub decoded_append_local : PlanningContext → List String
  unfolding decoded_of_text
  decoded_append_local c = elim c.desired [
    | file_resource f ↦ elim c.observed [ present p ↦ decoded_of_text c p | _ ↦ [] ]
    | _ ↦ []
  ]

  -- The `switch` of `planResource`: the other policies decode nothing.
  unfoldable pub decoded_by_policy : PlanningContext → List String
  unfolding decoded_unmodified decoded_append_local
  decoded_by_policy c = elim c.resource.policy [
    | replace_if_unmodified ↦ decoded_unmodified c
    | append_local ↦ decoded_append_local c
    | _ ↦ []
  ]

  -- `planResource`: `directoryRootConflict` decodes where it is a conflict, and ends the planning.
  unfoldable pub decoded_of_resource : PlanningContext → List String
  unfolding decoded_of_observed decoded_by_policy is_root_acceptable
  decoded_of_resource c =
      if not (is_tree c.desired) || is_root_acceptable env c.observed
      then decoded_by_policy c
      else decoded_of_observed c.observed

  -- The branch of `planRemovedResource` for `append-local`.
  unfoldable pub decoded_of_appended : PlanningContext → AppliedRecord → List String
  unfolding observed_matches_applied
  decoded_of_appended c applied = elim c.observed [
    | absent ↦ []
    | present p ↦ elim p.managed_source_digest [
      | none ↦ applied.digest ∷ p.digest ∷ []
      | some source ↦
          source
          ∷ (if observed_matches_applied env
                (record c { observed = present (record p { digest = source }) })
              then []
              else applied.digest ∷ p.digest ∷ [])
    ]
    | _ ↦ applied.digest ∷ []
  ]

  -- `planRemovedResource`: `observedMatchesApplied` decodes the digest of a present object.
  unfoldable pub decoded_of_removed : PlanningContext → List String
  unfolding decoded_of_appended decoded_of_observed
  decoded_of_removed c = elim c.applied [
    | none ↦ []
    | some applied ↦
        if is_none applied.target
          || not (applied.kind == some c.resource.kind)
          || not (applied.policy == some c.resource.policy)
        then []
        else if c.resource.policy == append_local
        then decoded_of_appended c applied
        else decoded_of_observed c.observed
  ]
