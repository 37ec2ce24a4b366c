-- ===== src/Planner/Build/Scheduled.antt =====
-- planner.ts: the invariant of the loops of `buildPlan`.
use codexport.Base.{
  true, false, ◌≡◌, refl, sym, ◌∙◌, inl, inr, ◌||◌, ℕ, String, List, [], ◌∷◌, ◌++◌, arith, contains,
  IsSetList, All, string_eq, ◌==◌, eq_iff, Bool-cases, subst,
}
use codexport.Base.Order.{contains-sorted_unique}
use codexport.Domain.{
  PlannedAction, ActionKind, detail_kind, ActionDetail, agent_task, PublishedResource,
}
use codexport.Plans.Env.{Draft}
use codexport.Planner.Transfers.{transfer_id}
use codexport.Planner.Transfers.Required.{action_ids}
use codexport.Planner.Build.{draft_action_id, materialize_draft, materialized_detail}
use codexport.Planner.Build.Ids.{eq_of_draft_action_id, transfer_id-ne-draft_action_id}

-- Each action waits only for actions that stand before it, or are in `seen`.
abbrev pub IsScheduled : (seen : List String) → List PlannedAction → Type 0
IsScheduled seen [] = Unit
IsScheduled seen (a ∷ rest) =
    ((id : String) → contains id a.before ≡ true → contains id seen ≡ true)
    × IsScheduled (a.id ∷ seen) rest

abbrev pub IsTyped : List PlannedAction → Type 0
IsTyped actions = All (λ (a : PlannedAction). a.kind ≡ detail_kind a.detail) actions

pub contains-action_ids-concat :
    (id : String) (actions : List PlannedAction) (a : PlannedAction)
    → contains id (action_ids (actions ++ a ∷ []))
      ≡ (contains id (action_ids actions) || a.id == id)
contains-action_ids-concat id [] a = ground arith
contains-action_ids-concat id (x ∷ actions) a =
    ground (arith, contains-action_ids-concat id actions a)

IsScheduled-concat :
    (seen : List String) (actions : List PlannedAction) (a : PlannedAction)
    → IsScheduled seen actions
    → ((id : String)
        → contains id a.before ≡ true
        → (contains id seen || contains id (action_ids actions)) ≡ true)
    → IsScheduled seen (actions ++ a ∷ [])
IsScheduled-concat seen [] a h k = (λ id m. ground (arith, k id m), tt)
IsScheduled-concat seen (x ∷ actions) a h k =
    (h.0, IsScheduled-concat (x.id ∷ seen) actions a h.1 (λ id m. ground (arith, k id m)))

IsTyped-concat :
    (actions : List PlannedAction) (a : PlannedAction)
    → IsTyped actions
    → a.kind ≡ detail_kind a.detail
    → IsTyped (actions ++ a ∷ [])
IsTyped-concat [] a h k = (k, tt)
IsTyped-concat (x ∷ actions) a h k = (h.0, IsTyped-concat actions a h.1 k)

distinct-concat :
    (actions : List PlannedAction) (a : PlannedAction)
    → IsSetList (action_ids actions)
    → contains a.id (action_ids actions) ≡ false
    → IsSetList (action_ids (actions ++ a ∷ []))
distinct-concat [] a h n = (refl, tt)
distinct-concat (x ∷ actions) a h n = (
  ground
      (arith, contains-action_ids-concat x.id actions a, eq_iff a.id x.id, eq_iff x.id a.id, h.0),
  distinct-concat actions a h.1 (ground arith),
)

-- Where an identifier comes from: a transfer, or a draft of a resource at an ordinal in `P`.
pub data Origin (P : String → ℕ → Type 0) (id : String) : Type 0 where
  of_transfer : (blob : String) → id ≡ transfer_id blob → Origin P id
  of_draft :
      (r : String) (n : ℕ) (k : ActionKind) → P r n → id ≡ draft_action_id r n k → Origin P id

pub Origin-weaken :
    (P Q : String → ℕ → Type 0) {id : String}
    → ((r : String) (n : ℕ) → P r n → Q r n)
    → Origin P id
    → Origin Q id
Origin-weaken P Q f (of_transfer blob e) = of_transfer blob e
Origin-weaken P Q f (of_draft r n k p e) = of_draft r n k (f r n p) e

-- What holds of the actions at any time.
pub record IsWellBuilt (P : String → ℕ → Type 0) (resources : List String)
    (actions : List PlannedAction) : Type 0 where
  pub scheduled : IsScheduled [] actions
  pub typed : IsTyped actions
  pub distinct : IsSetList (action_ids actions)
  pub origin : (id : String) → contains id (action_ids actions) ≡ true → Origin P id
  pub known : All (λ (a : PlannedAction). contains a.resource resources ≡ true) actions

detail_kind-materialized :
    (d : ActionDetail) (r : String) (n : ℕ)
    → detail_kind (materialized_detail d r n) ≡ detail_kind d
unfolding materialized_detail
detail_kind-materialized (agent_task t s) r n = refl
detail_kind-materialized d r n = refl

known-concat :
    (resources : List String) (actions : List PlannedAction) (a : PlannedAction)
    → All (λ (x : PlannedAction). contains x.resource resources ≡ true) actions
    → contains a.resource resources ≡ true
    → All (λ (x : PlannedAction). contains x.resource resources ≡ true) (actions ++ a ∷ [])
known-concat resources [] a h k = (k, tt)
known-concat resources (x ∷ actions) a h k = (h.0, known-concat resources actions a h.1 k)

-- One more action of a resource.
pub IsWellBuilt-push :
    (P Q : String → ℕ → Type 0) (resources : List String) (actions : List PlannedAction) (d : Draft)
    (r : PublishedResource) (n : ℕ) (prerequisites : List String)
    → IsWellBuilt P resources actions
    → ((s : String) (m : ℕ) → P s m → Q s m)
    → Q r.id n
    → (P r.id n → ⊥)
    → contains r.id resources ≡ true
    → ((id : String) → contains id prerequisites ≡ true → contains id (action_ids actions) ≡ true)
    → IsWellBuilt Q resources (actions ++ (materialize_draft d r n prerequisites).action ∷ [])
unfolding materialize_draft
IsWellBuilt-push P Q resources actions d r n prerequisites w weaken here new member earlier =
    record {
      scheduled =
          IsScheduled-concat [] actions action w.scheduled
            (λ id m. earlier id (sym (contains-sorted_unique id prerequisites) ∙ m));
      typed =
          IsTyped-concat actions action w.typed (sym (detail_kind-materialized d.detail r.id n));
      distinct = distinct-concat actions action w.distinct fresh;
      origin = λ id m. elim (Bool-cases (contains id (action_ids actions))) [
        | inl old ↦ Origin-weaken P Q weaken (w.origin id old)
        | inr added ↦
            of_draft r.id n d.kind here
              (ground (arith, contains-action_ids-concat id actions action, eq_iff action.id id))
      ];
      known = known-concat resources actions action w.known member;
    }
  where
    action : PlannedAction
    action = (materialize_draft d r n prerequisites).action

    clash : Origin P (draft_action_id r.id n d.kind) → ⊥
    clash (of_transfer blob e) = transfer_id-ne-draft_action_id blob r.id n d.kind (sym e)
    clash (of_draft s m k p e) =
        let (same, ordinal) = eq_of_draft_action_id r.id s n m d.kind k e in
        new (subst (λ x. P x n) (sym same) (subst (λ x. P s x) (sym ordinal) p))

    fresh : contains (draft_action_id r.id n d.kind) (action_ids actions) ≡ false
    fresh = elim (Bool-cases (contains (draft_action_id r.id n d.kind) (action_ids actions))) [
      | inr absent ↦ absent
      | inl old ↦ absurd (clash (w.origin (draft_action_id r.id n d.kind) old))
    ]
