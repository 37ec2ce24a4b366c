-- ===== src/Planner/Synchronize/Validated.antt =====
-- planner.ts: what `validateResourceInputs` has settled when a plan is built.
use mathlib.Core.List.{Memᴰ}
use codexport.Base.{
  true, false, ◌≡◌, refl, sym, ◌∙◌, String, List, [], ◌∷◌, inl, inr, Option, none, some, arith,
  Option-cases, Bool-cases, map_get, subst, eq_of_beq, ◌==◌, string_eq, ◌&&◌, contains, to_set,
  or_else,
}
use codexport.Domain.{
  PublishedResource, DesiredResource, ObservedState, VerificationInput, desired_kind,
  policy_compatible_with_kind, kind_eq, append_local, policy_eq,
}
use codexport.Plans.Env.{Planned, drafts, throws, Thrown, undecodable}
use codexport.Plans.Decoding.{is_content_digest}
use codexport.Plans.Dispatch.Total.{plan_resource-undecodable, plan_withdrawn-undecodable}
use codexport.Planner.Data.{PlannerInput, IndexedInput}
use codexport.Planner.Transfers.{TransferPlan, plan_transfers}
use codexport.Planner.Validate.{
  ValidationEnv, verification_compatible, is_not_text, verification_error, desired_error,
  resource_error, first_resource_error, validate_resource_inputs,
}
use codexport.Planner.Build.{
  Building, Built, built, thrown, build_resource, build_resources, build_plan, drafts_of,
  context_of,
}
use codexport.Planner.Synchronize.{PlannerEnv, died, plan_synchronization, synchronize_ordered}
use codexport.Planner.Synchronize.Accepted.{
  IsValidated, plan_synchronization-cases, Result-cases, Built-cases,
}

module _ (env : ValidationEnv) (indexed : IndexedInput) where
  -- What holds of a resource that is validated.
  pub record IsSettled (r : PublishedResource) : Type 0 where
    pub policy : policy_compatible_with_kind r.kind r.policy ≡ true
    pub wanted : DesiredResource
    pub has_wanted : map_get r.id indexed.desired ≡ some wanted
    pub same_kind : desired_kind wanted ≡ r.kind
    pub is_text : r.policy ≡ append_local → is_not_text wanted ≡ false
    pub verification : VerificationInput
    pub has_verification : map_get r.id indexed.verification ≡ some verification
    pub compatible : verification_compatible r.kind wanted verification ≡ true

  verified :
      (r : PublishedResource) (d : DesiredResource) (v : Option VerificationInput)
      → verification_error env r d v ≡ none
      → (w : VerificationInput) × (v ≡ some w) × (verification_compatible r.kind d w ≡ true)
  unfolding verification_error
  verified r d none h = cc
  verified r d (some v) h = (v, refl, ground (arith, h))

  IsSettled-desired :
      (r : PublishedResource) (d : DesiredResource)
      → policy_compatible_with_kind r.kind r.policy ≡ true
      → map_get r.id indexed.desired ≡ some d
      → desired_error env indexed r d ≡ none
      → IsSettled r
  unfolding desired_error
  IsSettled-desired r d p found h = elim (Bool-cases (desired_kind d == r.kind)) [
    | inr other ↦ absurd (ground (arith, h))
    | inl same ↦ elim (Bool-cases (r.policy == append_local && is_not_text d)) [
      | inl bad ↦ absurd (ground (arith, h))
      | inr fine ↦
          elim (Option-cases (verification_error env r d (map_get r.id indexed.verification))) [
            | inr (e, bad) ↦ absurd (ground (arith, h))
            | inl good ↦
                let (w, has, compatible) = verified r d (map_get r.id indexed.verification) good in
                record {
                  policy = p;
                  wanted = d;
                  has_wanted = found;
                  same_kind = eq_of_beq same;
                  is_text = λ e. ground (arith, fine, e);
                  verification = w;
                  has_verification = has;
                  compatible = compatible;
                }
          ]
    ]
  ]

  settled : (r : PublishedResource) → resource_error env indexed r ≡ none → IsSettled r
  unfolding resource_error
  settled r h = elim (Bool-cases (policy_compatible_with_kind r.kind r.policy)) [
    | inr bad ↦ absurd (ground (arith, h))
    | inl fine ↦ elim (Option-cases (map_get r.id indexed.desired)) [
      | inl missing ↦ absurd (ground (arith, h))
      | inr (d, found) ↦ IsSettled-desired r d fine found (ground (arith, h))
    ]
  ]

  first-none :
      (rs : List PublishedResource) {r : PublishedResource}
      → first_resource_error env indexed rs ≡ none
      → Memᴰ r rs
      → resource_error env indexed r ≡ none
  unfolding first_resource_error
  first-none [] h m = elim m [ ]
  first-none (x ∷ rs) h (Memᴰ.head p) =
      subst (λ y. resource_error env indexed y ≡ none) (sym p) (ground (arith, h))
  first-none (x ∷ rs) h (Memᴰ.tail m) = first-none rs (ground (arith, h)) m

pub valid-IsSettled :
    (env : PlannerEnv) (input : PlannerInput) (indexed : IndexedInput)
    (ordered : List PublishedResource)
    → IsValidated env input indexed ordered
    → {r : PublishedResource} → Memᴰ r ordered
    → IsSettled env.validation indexed r
unfolding validate_resource_inputs
valid-IsSettled env input indexed ordered v {r} m =
    settled env.validation indexed r
      (first-none env.validation indexed ordered (ground (arith, v.valid)) m)

-- The error of the schema library, for a text that is no digest.
abbrev pub IsUndecodable : Thrown → Type 0
IsUndecodable e = (t : String) × (e ≡ undecodable t) × (is_content_digest t ≡ false)

thrown-injective : {x y : Thrown} → thrown x ≡ thrown y → x ≡ y
thrown-injective e = ground (arith, e)

module _ (env : PlannerEnv) (input : PlannerInput) (indexed : IndexedInput)
    (transfer : TransferPlan) where
  drafts_of-throws :
      (r : PublishedResource) (d : DesiredResource) (o : ObservedState) (e : Thrown)
      → policy_compatible_with_kind r.kind r.policy ≡ true
      → desired_kind d ≡ r.kind
      → drafts_of env.validation.plan input indexed transfer
          (context_of env.validation.plan input indexed transfer r d o)
        ≡ throws e
      → IsUndecodable e
  unfolding drafts_of context_of
  drafts_of-throws r d o e p k failed =
      let c = context_of env.validation.plan input indexed transfer r d o in
      elim (Bool-cases
        (contains c.resource.id (to_set (or_else input.revision.removed_resources [])))) [
          | inl removed ↦
              plan_withdrawn-undecodable env.validation.plan c e (ground (arith, removed, failed))
          | inr kept ↦
              plan_resource-undecodable env.validation.plan c p k e (ground (arith, kept, failed))
        ]

  build_resource-thrown :
      (r : PublishedResource) (b : Building) (e : Thrown)
      → IsSettled env.validation indexed r
      → build_resource env.validation.plan input indexed transfer r b ≡ thrown e
      → IsUndecodable e
  unfolding build_resource
  build_resource-thrown r b e s failed = elim (Option-cases (map_get r.id indexed.observed)) [
    | inl missing ↦ absurd (ground (arith, s.has_wanted, missing, failed))
    | inr (o, observed) ↦
        go o observed
          (drafts_of env.validation.plan input indexed transfer
            (context_of env.validation.plan input indexed transfer r s.wanted o))
          refl
  ]
    where
      go :
          (o : ObservedState)
          → map_get r.id indexed.observed ≡ some o
          → (x : Planned)
          → drafts_of env.validation.plan input indexed transfer
              (context_of env.validation.plan input indexed transfer r s.wanted o)
            ≡ x
          → IsUndecodable e
      go o observed (drafts ds) x = absurd (ground (arith, s.has_wanted, observed, x, failed))
      go o observed (throws y) x =
          let same : y ≡ e = thrown-injective (ground (arith, s.has_wanted, observed, x, failed)) in
          subst IsUndecodable same (drafts_of-throws r s.wanted o y s.policy s.same_kind x)

  build_resources-thrown :
      (rs : List PublishedResource) (b : Building) (e : Thrown)
      → ((r : PublishedResource) → Memᴰ r rs → IsSettled env.validation indexed r)
      → build_resources env.validation.plan input indexed transfer rs b ≡ thrown e
      → IsUndecodable e
  unfolding build_resources
  build_resources-thrown [] b e f h = absurd (ground (arith, h))
  build_resources-thrown (r ∷ rs) b e f h =
      go (build_resource env.validation.plan input indexed transfer r b) refl
        (build_resources-thrown rs)
    where
      go :
          (x : Built)
          → build_resource env.validation.plan input indexed transfer r b ≡ x
          → ((c : Building) (y : Thrown)
              → ((r : PublishedResource) → Memᴰ r rs → IsSettled env.validation indexed r)
              → build_resources env.validation.plan input indexed transfer rs c ≡ thrown y
              → IsUndecodable y)
          → IsUndecodable e
      go (built c) x rest = rest c e (λ y m. f y (Memᴰ.tail m)) (ground (arith, x, h))
      go (thrown y) x rest =
          build_resource-thrown r b e (f r (Memᴰ.head refl)) (ground (arith, x, h))

-- What `plan_synchronization` throws is only the error of the schema library for a text that is no
-- digest, and never an `InvalidObservedStateError`: the validation of the inputs refuses each policy
-- and wanted state for which `planResource` would throw that.
pub plan_synchronization-died :
    (env : PlannerEnv) (input : PlannerInput) (e : Thrown)
    → plan_synchronization env input ≡ died e
    → IsUndecodable e
unfolding synchronize_ordered build_plan
plan_synchronization-died env input e h = elim (plan_synchronization-cases env input) [
  | inl (error, failed) ↦ absurd (cc (sym failed ∙ h))
  | inr (indexed, ordered, v) ↦
      elim (Result-cases (plan_transfers ordered indexed.blobs input.available_blobs)) [
        | inl (error, failed) ↦ absurd (ground (arith, v.outcome, failed, h))
        | inr (transfer, transferred) ↦
            let start : Building = record {
              actions = transfer.actions;
              tasks = [];
              terminals = [];
            } in
            elim (Built-cases env input
              (build_resources env.validation.plan input indexed transfer ordered start)) [
                | inl (b, done) ↦ absurd (ground (arith, v.outcome, transferred, done, h))
                | inr (x, failed) ↦
                    subst IsUndecodable (ground (arith, v.outcome, transferred, failed, h)) (
                      build_resources-thrown env input indexed transfer ordered start x
                        (λ r m. valid-IsSettled env input indexed ordered v m) failed)
              ]
      ]
]
