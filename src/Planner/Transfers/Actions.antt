-- ===== src/Planner/Transfers/Actions.antt =====
-- planner.ts: the actions of `planTransfers`, as the start of a plan.
use codexport.Base.{
  true, ◌≡◌, refl, inl, inr, ◌||◌, String, List, [], ◌∷◌, ◌++◌, some, arith, contains, All,
  string_eq, ◌==◌, eq_iff, map_get, map_set, map_get-map_set, Option-cases, subst, to_set,
}
use codexport.Domain.{
  PublishedResource, AvailableBlob, PlannedAction, detail_kind, transfer_blob_kind,
}
use codexport.Planner.Data.{TextMap, Result, ok, fail}
use codexport.Planner.Order.Topological.{ids}
use codexport.Planner.Transfers.{
  TransferPlan, own_blob, own_blobs, blob_owners, transfer_id, transfer_action, transfers_from,
  required_blobs, plan_transfers,
}
use codexport.Planner.Transfers.Required.{action_ids}

-- The owners are among the resources.
abbrev AreOwned : List String → TextMap String → Type 0
AreOwned resources owners =
    (blob owner : String) → map_get blob owners ≡ some owner → contains owner resources ≡ true

own_blob-AreOwned :
    (resources : List String) (r : String) (owners : TextMap String) (blob : String)
    → contains r resources ≡ true
    → AreOwned resources owners
    → AreOwned resources (own_blob r owners blob)
unfolding own_blob
own_blob-AreOwned resources r owners blob member h b o e =
    ground (arith, map_get-map_set blob b r owners, h b o, e, member)

own_blobs-AreOwned :
    (resources : List String) (r : String) (blobs : List String) (owners : TextMap String)
    → contains r resources ≡ true
    → AreOwned resources owners
    → AreOwned resources (own_blobs r owners blobs)
unfolding own_blobs
own_blobs-AreOwned resources r [] owners member h = h
own_blobs-AreOwned resources r (blob ∷ blobs) owners member h =
    own_blobs-AreOwned resources r blobs (own_blob r owners blob) member
      (own_blob-AreOwned resources r owners blob member h)

blob_owners-AreOwned :
    (resources : List String) (rs : List PublishedResource) (owners : TextMap String)
    → ((r : String) → contains r (ids rs) ≡ true → contains r resources ≡ true)
    → AreOwned resources owners
    → AreOwned resources (blob_owners owners rs)
unfolding blob_owners
blob_owners-AreOwned resources [] owners f h = h
blob_owners-AreOwned resources (r ∷ rs) owners f h =
    blob_owners-AreOwned resources rs (own_blobs r.id owners r.blobs)
      (λ x m. f x (ground (arith, m)))
      (own_blobs-AreOwned resources r.id r.blobs owners (f r.id (ground (arith, eq_iff r.id r.id)))
        h)

-- An action that waits for nothing, has the kind of its detail, and is of a known resource.
pub record IsFirst (resources : List String) (a : PlannedAction) : Type 0 where
  pub waits_for_none : a.before ≡ []
  pub typed : a.kind ≡ detail_kind a.detail
  pub is_transfer : a.kind ≡ transfer_blob_kind
  pub known : contains a.resource resources ≡ true

All-concat {ℓ} :
    {A : Type ℓ} (P : A → Type 0) (xs : List A) (x : A) → All P xs → P x → All P (xs ++ x ∷ [])
All-concat P [] x h k = (k, tt)
All-concat P (y ∷ xs) x h k = (h.0, All-concat P xs x h.1 k)

-- What the loop over the required blobs keeps.
pub record IsTransferred (resources : List String) (actions : List PlannedAction)
    (by_blob : TextMap String) : Type 0 where
  pub first : All (IsFirst resources) actions
  pub blob_ids :
      (k id : String) → map_get k by_blob ≡ some id → contains id (action_ids actions) ≡ true

contains-concat :
    (id : String) (actions : List PlannedAction) (a : PlannedAction)
    → contains id (action_ids (actions ++ a ∷ []))
      ≡ (contains id (action_ids actions) || a.id == id)
contains-concat id [] a = ground arith
contains-concat id (x ∷ actions) a = ground (arith, contains-concat id actions a)

transfers_from-IsTransferred :
    (resources : List String) (owners : TextMap String) (blobs : TextMap AvailableBlob)
    (required : List String) (actions : List PlannedAction) (by_blob : TextMap String)
    (p : List PlannedAction × TextMap String)
    → AreOwned resources owners
    → IsTransferred resources actions by_blob
    → transfers_from owners blobs actions by_blob required ≡ ok p
    → IsTransferred resources p.0 p.1
unfolding transfers_from
transfers_from-IsTransferred resources owners blobs [] actions by_blob p o t e = record {
  first = subst (λ x. All (IsFirst resources) x) (ground (arith, e)) t.first;
  blob_ids = λ k id m. ground (arith, e, t.blob_ids k id, m);
}
transfers_from-IsTransferred resources owners blobs (b ∷ required) actions by_blob p o t e =
    elim (Option-cases (map_get b blobs)) [
      | inl unknown ↦ absurd (ground (arith, e))
      | inr (metadata, known) ↦ elim (Option-cases (map_get b owners)) [
        | inl unowned ↦ absurd (ground (arith, e))
        | inr (owner, owned) ↦
            let a = transfer_action b owner metadata in
            transfers_from-IsTransferred resources owners blobs required (actions ++ a ∷ [])
              (map_set b (transfer_id b) by_blob) p o
              (record {
                first = All-concat (IsFirst resources) actions a t.first (record {
                  waits_for_none = refl;
                  typed = refl;
                  is_transfer = refl;
                  known = o b owner owned;
                });
                blob_ids = λ k id m. ground (
                  arith,
                  contains-concat id actions a,
                  map_get-map_set b k (transfer_id b) by_blob,
                  t.blob_ids k id,
                  eq_iff (transfer_id b) id,
                  m,
                );
              })
              (ground (arith, e))
      ]
    ]

-- A plan of transfers starts a plan of actions.
pub plan_transfers-IsTransferred :
    (rs : List PublishedResource) (blobs : TextMap AvailableBlob) (available : List String)
    (p : TransferPlan)
    → plan_transfers rs blobs available ≡ ok p
    → IsTransferred (ids rs) p.actions p.by_blob
unfolding plan_transfers map_get
plan_transfers-IsTransferred rs blobs available p e =
    go (transfers_from owners blobs [] [] required) refl
  where
    owners : TextMap String
    owners = blob_owners [] rs

    required : List String
    required = required_blobs owners (to_set available)

    go :
        (x : Result (List PlannedAction × TextMap String))
        → transfers_from owners blobs [] [] required ≡ x
        → IsTransferred (ids rs) p.actions p.by_blob
    go (fail error) x = absurd (ground (arith, e))
    go (ok planned) x =
        let t =
          transfers_from-IsTransferred (ids rs) owners blobs required [] [] planned
            (blob_owners-AreOwned (ids rs) rs [] (λ r m. m) (λ b o k. cc))
            (record { first = tt; blob_ids = λ k id m. cc }) x in
        record {
          first = subst (λ x. All (IsFirst (ids rs)) x) (ground (arith, e)) t.first;
          blob_ids = λ k id m. ground (arith, e, t.blob_ids k id, m);
        }
