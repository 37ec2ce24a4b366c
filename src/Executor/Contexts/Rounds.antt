-- ===== src/Executor/Contexts/Rounds.antt =====
-- executor.ts: one round of the loop of `executionContexts`.
use codexport.Base.{
  true, false, not, ◌≡◌, refl, sym, subst, inl, inr, ◌||◌, suc, String, List, [], ◌∷◌, some, arith,
  contains, string_eq, ◌==◌, eq_iff, Bool-cases, Option-cases, map_get, all, length,
}
use mathlib.Core.List.{Permᴰ}
use mathlib.Core.List.Permᴰ
use codexport.Domain.{
  PlannedAction, PublishedResource, DesiredResourceEntry, detail_kind, action_kind_eq,
}
use codexport.Planner.Validate.{verification_compatible}
use codexport.Executor.Contexts.{
  Limits, ActionState, take_ready, has_other_intent, Catalog, checked, check_against, check_action,
}

-- The prerequisites of an action are in `completed`.
abbrev pub IsReady : List String → PlannedAction → Type 0
IsReady completed a = (id : String) → contains id a.before ≡ true → contains id completed ≡ true

all-contains :
    (completed ids : List String)
    → all (λ id. contains id completed) ids ≡ true
    → (id : String) → contains id ids ≡ true
    → contains id completed ≡ true
all-contains completed [] h id m = cc
all-contains completed (x ∷ ids) h id m =
    ground (arith, eq_iff x id, all-contains completed ids (ground arith) id, h, m)

contains-all :
    (completed ids : List String)
    → ((id : String) → contains id ids ≡ true → contains id completed ≡ true)
    → all (λ id. contains id completed) ids ≡ true
contains-all completed [] h = refl
contains-all completed (x ∷ ids) h =
    ground (arith, eq_iff x x, h x, contains-all completed ids (λ id m. h id (ground (arith, m))))

-- The action that a round takes is ready, and the others stay.
pub take_ready-IsReady :
    (completed : List String) (actions : List PlannedAction) (a : PlannedAction)
    (others : List PlannedAction)
    → take_ready completed actions ≡ some (a, others)
    → IsReady completed a × Permᴰ actions (a ∷ others)
unfolding take_ready
take_ready-IsReady completed [] a others e = absurd (ground (arith, e))
take_ready-IsReady completed (x ∷ actions) a others e =
    elim (Bool-cases (all (λ id. contains id completed) x.before)) [
      | inl ready ↦
          let first : x ≡ a = ground (arith, ready, e) in
          let rest : actions ≡ others = ground (arith, ready, e) in
          (
            subst (IsReady completed) first (all-contains completed x.before ready),
            Permᴰ.cons first (subst (Permᴰ actions) rest (Permᴰ.refl actions)),
          )
      | inr waiting ↦ elim (Option-cases (take_ready completed actions)) [
        | inl stuck ↦ absurd (ground (arith, waiting, stuck, e))
        | inr ((b, rest), taken) ↦
            later waiting b rest taken (take_ready-IsReady completed actions b rest taken)
      ]
    ]
  where
    later :
        all (λ id. contains id completed) x.before ≡ false
        → (b : PlannedAction) (rest : List PlannedAction)
        → take_ready completed actions ≡ some (b, rest)
        → IsReady completed b × Permᴰ actions (b ∷ rest)
        → IsReady completed a × Permᴰ (x ∷ actions) (a ∷ others)
    later waiting b rest taken (ready, perm) =
        let first : b ≡ a = ground (arith, waiting, taken, e) in
        let left : x ∷ rest ≡ others = ground (arith, waiting, taken, e) in
        (
          subst (IsReady completed) first ready,
          subst (λ (l : List PlannedAction). Permᴰ (x ∷ actions) (a ∷ l)) left
              (Permᴰ.trans (Permᴰ.cons refl perm)
                (Permᴰ.trans (Permᴰ.swap refl refl) (Permᴰ.cons first (Permᴰ.refl (x ∷ rest))))),
        )

-- A round leaves one action less.
pub length-take_ready :
    (completed : List String) (actions : List PlannedAction) (a : PlannedAction)
    (others : List PlannedAction)
    → take_ready completed actions ≡ some (a, others)
    → length actions ≡ suc (length others)
unfolding take_ready
length-take_ready completed [] a others e = absurd (ground (arith, e))
length-take_ready completed (x ∷ actions) a others e =
    elim (Option-cases (take_ready completed actions)) [
      | inl stuck ↦ ground (arith, stuck, e)
      | inr ((b, rest), taken) ↦
          ground (arith, taken, e, length-take_ready completed actions b rest taken)
    ]

-- A list whose first action is ready.
pub take_ready-head :
    (completed : List String) (a : PlannedAction) (actions : List PlannedAction)
    → IsReady completed a
    → take_ready completed (a ∷ actions) ≡ some (a, actions)
unfolding take_ready
take_ready-head completed a actions h = ground (arith, contains-all completed a.before h)

-- A context that has passed the checks of a round with the actions `seen`.
pub record IsChecked (run : String) (limits : Limits) (catalog : Catalog) (seen : List String)
    (a : PlannedAction) (s : ActionState) : Type 0 where
  pub action : s.action ≡ a
  pub same_run : s.run ≡ run
  pub same_limits : s.limits ≡ limits
  pub fresh : contains a.id seen ≡ false
  pub typed : (a.kind == detail_kind a.detail) ≡ true
  pub resource : map_get a.resource catalog.resources ≡ some s.resource
  pub entry : DesiredResourceEntry
  pub found : map_get a.resource catalog.desired ≡ some entry
  pub desired : s.desired ≡ entry.desired
  pub verification : s.verification ≡ entry.verification
  pub compatible : verification_compatible s.resource.kind s.desired s.verification ≡ true
  pub intended : has_other_intent a.detail s.desired ≡ false

-- The context of an action that passes.
abbrev state_of :
    String → Limits → PlannedAction → PublishedResource → DesiredResourceEntry → ActionState
state_of run limits a r entry = record {
  run = run;
  action = a;
  resource = r;
  desired = entry.desired;
  verification = entry.verification;
  limits = limits;
}

checked-injective : {s t : ActionState} → checked s ≡ checked t → s ≡ t
checked-injective e = ground (arith, e)

check_against-checked :
    (run : String) (limits : Limits) (a : PlannedAction) (r : PublishedResource)
    (entry : DesiredResourceEntry) (s : ActionState)
    → check_against run limits a r entry ≡ checked s
    → (verification_compatible r.kind entry.desired entry.verification ≡ true)
      × (has_other_intent a.detail entry.desired ≡ false)
      × (s ≡ state_of run limits a r entry)
unfolding check_against
check_against-checked run limits a r entry s e =
    elim (Bool-cases (verification_compatible r.kind entry.desired entry.verification)) [
      | inr bad ↦ absurd (ground (arith, bad, e))
      | inl fits ↦ elim (Bool-cases (has_other_intent a.detail entry.desired)) [
        | inl other ↦ absurd (ground (arith, fits, other, e))
        | inr same ↦ (fits, same, checked-injective (ground (arith, fits, same, e)))
      ]
    ]

pub check_action-IsChecked :
    (run : String) (limits : Limits) (catalog : Catalog) (seen : List String) (a : PlannedAction)
    (s : ActionState)
    → check_action run limits catalog seen a ≡ checked s
    → IsChecked run limits catalog seen a s
unfolding check_action
check_action-IsChecked run limits catalog seen a s e =
    elim (Bool-cases (contains a.id seen || not (a.kind == detail_kind a.detail))) [
      | inl bad ↦ absurd (ground (arith, bad, e))
      | inr good ↦ elim (Option-cases (map_get a.resource catalog.resources)) [
        | inl missing ↦ absurd (ground (arith, good, missing, e))
        | inr (r, found) ↦ elim (Option-cases (map_get a.resource catalog.desired)) [
          | inl missing ↦ absurd (ground (arith, good, found, missing, e))
          | inr (entry, wanted) ↦ checked-IsChecked good r found entry wanted
        ]
      ]
    ]
  where
    checked-IsChecked :
        (contains a.id seen || not (a.kind == detail_kind a.detail)) ≡ false
        → (r : PublishedResource) → map_get a.resource catalog.resources ≡ some r
        → (entry : DesiredResourceEntry) → map_get a.resource catalog.desired ≡ some entry
        → IsChecked run limits catalog seen a s
    checked-IsChecked good r found entry wanted =
        let (fits, same, is) =
          check_against-checked run limits a r entry s (ground (arith, good, found, wanted, e)) in
        subst (IsChecked run limits catalog seen a) (sym is) (record {
          action = refl;
          same_run = refl;
          same_limits = refl;
          fresh = ground (arith, good);
          typed = ground (arith, good);
          resource = found;
          entry = entry;
          found = wanted;
          desired = refl;
          verification = refl;
          compatible = fits;
          intended = same;
        })
