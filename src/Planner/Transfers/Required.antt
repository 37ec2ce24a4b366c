-- ===== src/Planner/Transfers/Required.antt =====
-- planner.ts: the blobs that `planTransfers` requires, and its actions.
use codexport.Base.{
  Bool, ◌≡◌, refl, ◌||◌, ◌&&◌, not, inl, inr, String, List, [], ◌∷◌, ◌++◌, map, any, filter, arith,
  keys, contains, contains-filter, contains-set_from, to_set, IsSetList, string_eq, map_get,
  map_set, keys-map_set, contains-keys, IsSetList-map_set, eq_iff, Option-cases, Bool-cases,
  text_lt, ◌==◌, ◌∙◌,
}
use codexport.Base.Order.{contains-sort, sort-IsSetList, sort-IsSorted, IsSorted, text_lt-IsOrder}
use codexport.Domain.{PublishedResource, AvailableBlob, PlannedAction}
use codexport.Planner.Data.{TextMap, Result, ok, fail}
use codexport.Planner.Transfers.{
  TransferPlan, own_blob, own_blobs, blob_owners, transfer_id, transfer_action, transfers_from,
  required_blobs, plan_transfers,
}

keys-own_blob :
    (b resource blob : String) (owners : TextMap String)
    → contains b (keys (own_blob resource owners blob)) ≡ (contains b (keys owners) || blob == b)
unfolding own_blob
keys-own_blob b resource blob owners =
    ground (arith, keys-map_set blob b resource owners, contains-keys blob owners, eq_iff blob b)

IsSetList-own_blob :
    (resource blob : String) (owners : TextMap String)
    → IsSetList (keys owners)
    → IsSetList (keys (own_blob resource owners blob))
unfolding own_blob
IsSetList-own_blob resource blob owners h = elim (Option-cases (map_get blob owners)) [
  | inl new ↦ rw (new, own_blob) (IsSetList-map_set blob resource owners h)
  | inr (owner, old) ↦ elim (Bool-cases (text_lt resource owner)) [
    | inl less ↦ rw (old, less, own_blob) (IsSetList-map_set blob resource owners h)
    | inr other ↦ rw (old, other, own_blob) h
  ]
]

keys-own_blobs :
    (b resource : String) (blobs : List String) (owners : TextMap String)
    → contains b (keys (own_blobs resource owners blobs))
      ≡ (contains b (keys owners) || contains b blobs)
unfolding own_blobs
keys-own_blobs b resource [] owners = ground arith
keys-own_blobs b resource (blob ∷ blobs) owners = ground (
  arith,
  keys-own_blobs b resource blobs (own_blob resource owners blob),
  keys-own_blob b resource blob owners,
)

IsSetList-own_blobs :
    (resource : String) (blobs : List String) (owners : TextMap String)
    → IsSetList (keys owners)
    → IsSetList (keys (own_blobs resource owners blobs))
unfolding own_blobs
IsSetList-own_blobs resource [] owners h = h
IsSetList-own_blobs resource (blob ∷ blobs) owners h =
    IsSetList-own_blobs resource blobs (own_blob resource owners blob)
      (IsSetList-own_blob resource blob owners h)

-- A blob that a resource names.
abbrev pub is_named : String → List PublishedResource → Bool
is_named b rs = any (λ (r : PublishedResource). contains b r.blobs) rs

keys-blob_owners :
    (b : String) (rs : List PublishedResource) (owners : TextMap String)
    → contains b (keys (blob_owners owners rs)) ≡ (contains b (keys owners) || is_named b rs)
unfolding blob_owners
keys-blob_owners b [] owners = ground arith
keys-blob_owners b (r ∷ rs) owners = ground (
  arith,
  keys-blob_owners b rs (own_blobs r.id owners r.blobs),
  keys-own_blobs b r.id r.blobs owners,
)

IsSetList-blob_owners :
    (rs : List PublishedResource) (owners : TextMap String)
    → IsSetList (keys owners)
    → IsSetList (keys (blob_owners owners rs))
unfolding blob_owners
IsSetList-blob_owners [] owners h = h
IsSetList-blob_owners (r ∷ rs) owners h =
    IsSetList-blob_owners rs (own_blobs r.id owners r.blobs)
      (IsSetList-own_blobs r.id r.blobs owners h)

filter-IsSetList : (p : String → Bool) (xs : List String) → IsSetList xs → IsSetList (filter p xs)
filter-IsSetList p [] h = tt
filter-IsSetList p (x ∷ xs) h = elim (Bool-cases (p x)) [
  | inl keep ↦ rw keep (ground (arith, contains-filter p x xs, h.0), filter-IsSetList p xs h.1)
  | inr drop ↦ rw drop (filter-IsSetList p xs h.1)
]

abbrev pub action_ids : List PlannedAction → List String
action_ids actions = map (λ (a : PlannedAction). a.id) actions

pub action_ids-concat :
    (actions : List PlannedAction) (a : PlannedAction) (xs : List String)
    → action_ids (actions ++ a ∷ []) ++ xs ≡ action_ids actions ++ a.id ∷ xs
action_ids-concat [] a xs = refl
action_ids-concat (b ∷ actions) a xs = ground (arith, action_ids-concat actions a xs)

append_nil : (xs : List String) → xs ++ [] ≡ xs
append_nil [] = refl
append_nil (x ∷ xs) = ground (arith, append_nil xs)

transfers_from-ids :
    (owners : TextMap String) (blobs : TextMap AvailableBlob) (required : List String)
    (actions : List PlannedAction) (by_blob : TextMap String)
    (p : List PlannedAction × TextMap String)
    → transfers_from owners blobs actions by_blob required ≡ ok p
    → action_ids p.0 ≡ action_ids actions ++ map transfer_id required
unfolding transfers_from
transfers_from-ids owners blobs [] actions by_blob p e =
    ground (arith, e, append_nil (action_ids actions))
transfers_from-ids owners blobs (b ∷ required) actions by_blob p e =
    elim (Option-cases (map_get b blobs)) [
      | inl unknown ↦ absurd (ground (arith, e))
      | inr (metadata, known) ↦ elim (Option-cases (map_get b owners)) [
        | inl unowned ↦ absurd (ground (arith, e))
        | inr (owner, owned) ↦
            transfers_from-ids owners blobs required
              (actions ++ transfer_action b owner metadata ∷ []) (map_set b (transfer_id b) by_blob)
              p (ground (arith, e))
            ∙ action_ids-concat actions (transfer_action b owner metadata)
                (map transfer_id required)
      ]
    ]

-- What a plan of transfers has.
pub record IsTransferPlan (rs : List PublishedResource) (available : List String) (p : TransferPlan)
    : Type 0 where
  pub required :
      (b : String) → contains b p.required_blobs ≡ (is_named b rs && not (contains b available))
  pub distinct : IsSetList p.required_blobs
  pub sorted : IsSorted text_lt p.required_blobs
  pub one_each : action_ids p.actions ≡ map transfer_id p.required_blobs

-- A plan of transfers requires exactly the blobs that a resource names and that are not available,
-- each once and in the order of texts, and has exactly one action for each of them, in that order.
pub plan_transfers-IsTransferPlan :
    (rs : List PublishedResource) (blobs : TextMap AvailableBlob) (available : List String)
    (p : TransferPlan)
    → plan_transfers rs blobs available ≡ ok p
    → IsTransferPlan rs available p
unfolding plan_transfers required_blobs
plan_transfers-IsTransferPlan rs blobs available p e =
    go (transfers_from owners blobs [] [] required) refl
  where
    owners : TextMap String
    owners = blob_owners [] rs

    required : List String
    required = required_blobs owners (to_set available)

    go :
        (x : Result (List PlannedAction × TextMap String))
        → transfers_from owners blobs [] [] required ≡ x
        → IsTransferPlan rs available p
    go (fail error) x = absurd (ground (arith, e))
    go (ok planned) x =
        let same : p.required_blobs ≡ required = ground (arith, e) in
        let actions : p.actions ≡ planned.0 = ground (arith, e) in
        record {
          required = λ b. rw same (
              ground (
                arith,
                contains-sort text_lt b
                    (filter (λ c. not (contains c (to_set available))) (keys owners)),
                contains-filter (λ c. not (contains c (to_set available))) b (keys owners),
                contains-set_from b [] available,
                keys-blob_owners b rs [],
              ));
          distinct = rw same (
              sort-IsSetList text_lt
                (filter (λ c. not (contains c (to_set available))) (keys owners))
                (filter-IsSetList (λ c. not (contains c (to_set available))) (keys owners)
                  (IsSetList-blob_owners rs [] tt)));
          sorted = rw same (
              sort-IsSorted text_lt-IsOrder
                (filter (λ c. not (contains c (to_set available))) (keys owners)));
          one_each = rw (same, actions) (transfers_from-ids owners blobs required [] [] planned x);
        }
