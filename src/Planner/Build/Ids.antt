-- ===== src/Planner/Build/Ids.antt =====
-- planner.ts: the identifiers that `materializeDraft` and `planTransfers` give to actions.
use Prim.Native.Char.{code}
use Prim.Native.String.{◌++◌}
use text.Mathlib.TextLemmas.{
  append_assoc, append_cancel_left, append_cancel_right, cons-append, head-eq_of_cons-eq,
}
use codexport.Base.{false, ◌≡◌, refl, sym, ap, ◌∙◌, String, ℕ, template, arith}
use codexport.Base.Decimal.{decimal, has_colon, decimal-no_colon, eq_of_decimal, split_at_colon}
use codexport.Domain.{
  ActionKind, agent_task_kind, no_op_kind, transfer_blob_kind, write_file_kind, write_config_kind,
  mirror_directory_kind, remove_resource_kind, install_tool_kind, verify_only_kind,
  human_action_kind, drift_conflict_kind,
}
use codexport.Planner.Transfers.{transfer_id}
use codexport.Planner.Build.{action_kind_text, draft_action_id}

kind-no_colon : (k : ActionKind) → has_colon (action_kind_text k ++ "") ≡ false
unfolding action_kind_text has_colon
kind-no_colon no_op_kind = refl
kind-no_colon transfer_blob_kind = refl
kind-no_colon write_file_kind = refl
kind-no_colon write_config_kind = refl
kind-no_colon mirror_directory_kind = refl
kind-no_colon remove_resource_kind = refl
kind-no_colon install_tool_kind = refl
kind-no_colon verify_only_kind = refl
kind-no_colon human_action_kind = refl
kind-no_colon agent_task_kind = refl
kind-no_colon drift_conflict_kind = refl

regroup : (r o t : String) → (r ++ (":" ++ o)) ++ t ≡ r ++ (":" ++ (o ++ t))
regroup r o t = append_assoc r (":" ++ o) t ∙ ap (λ x. r ++ x) (append_assoc ":" o t)

-- The identifier of an action tells the resource and the ordinal.
pub eq_of_draft_action_id :
    (r s : String) (m n : ℕ) (j k : ActionKind)
    → draft_action_id r m j ≡ draft_action_id s n k
    → (r ≡ s) × (m ≡ n)
unfolding draft_action_id template
eq_of_draft_action_id r s m n j k e =
    let inner = append_cancel_left "action:" _ _ e in
    let (front, kinds) =
      split_at_colon (r ++ (":" ++ decimal m)) (s ++ (":" ++ decimal n)) (action_kind_text j ++ "")
        (action_kind_text k ++ "") (kind-no_colon j) (kind-no_colon k)
        (regroup r (decimal m) (":" ++ (action_kind_text j ++ ""))
          ∙ inner
          ∙ sym (regroup s (decimal n) (":" ++ (action_kind_text k ++ "")))) in
    let (same, numerals) =
      split_at_colon r s (decimal m) (decimal n) (decimal-no_colon m) (decimal-no_colon n) front in
    (same, eq_of_decimal m n numerals)

pub eq_of_transfer_id : (b c : String) → transfer_id b ≡ transfer_id c → b ≡ c
unfolding transfer_id template
eq_of_transfer_id b c e = append_cancel_right b c "" (append_cancel_left "transfer:" _ _ e)

-- No action of a resource has the identifier of a transfer.
pub transfer_id-ne-draft_action_id :
    (b r : String) (n : ℕ) (k : ActionKind) → transfer_id b ≡ draft_action_id r n k → ⊥
unfolding transfer_id draft_action_id template
transfer_id-ne-draft_action_id b r n k e =
    let heads =
      head-eq_of_cons-eq (sym (cons-append "t" "ransfer:" _) ∙ e ∙ cons-append "a" "ction:" _) in
    omega (arith, ap code heads)
