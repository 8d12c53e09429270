-- ===== src/Decision/Receipts.antt =====
-- The execution receipts of internal/decision/service.go, checked against the dispatch tickets.
use Prim.Native.Nat.{ℕ}
use Prim.Native.Char.{code}
use Prim.Native.String.{slice, len}
use package.text.Mathlib.Text.{starts_with}
use agent_infra_system.Base.{
  String, Bool, true, false, not, ◌&&◌, ◌||◌, ◌≡◌, refl, Option, none, some, List, [], ◌∷◌, ◌==◌,
  is_empty, if◌then◌else◌, nat_eq,
}
use agent_infra_system.Base.Dict.{Dict, lookup}
use agent_infra_system.Base.Float.{float_gt}
use agent_infra_system.Base.Text.{trim_space, to_lower, is_blank}
use agent_infra_system.Base.Time.{Time, after, is_zero}
use agent_infra_system.Decision.Types.{
  Service, DispatchTicket, ExecutionReceipt, ExecutionReceiptResult,
}

-- The text before the first of `&?#`.
before_cut : String → String
before_cut String.[] = ""
before_cut (String.◌∷◌ c s) =
    let rest = before_cut s in
    if nat_eq (code c) b'&' || nat_eq (code c) b'?' || nat_eq (code c) b'#'
    then ""
    else String.◌∷◌ c rest

-- What follows the first `ticket_id=` of the lower-case text, in the text as given.
after_ticket_id : String → String → Option String
after_ticket_id String.[] ref = none
after_ticket_id lower String.[] = none
after_ticket_id (String.◌∷◌ c lower) (String.◌∷◌ d ref) =
    let rest = after_ticket_id lower ref in
    if starts_with (String.◌∷◌ c lower) "ticket_id="
    then some (slice (String.◌∷◌ d ref) 10 (len (String.◌∷◌ d ref)))
    else rest

has_separator : String → Bool
has_separator String.[] = false
has_separator (String.◌∷◌ c s) =
    nat_eq (code c) b'/' || nat_eq (code c) b'?' || nat_eq (code c) b'#' || has_separator s

unfoldable pub extract_ticket_id_from_execution_receipt_ref : String → String
unfolding before_cut after_ticket_id has_separator
extract_ticket_id_from_execution_receipt_ref given =
    let ref = trim_space given in
    let lower = to_lower ref in
    if ref == ""
    then ""
    else if starts_with lower "ticket://"
    then trim_space (slice ref 9 (len ref))
    else if starts_with lower "ticket:"
    then trim_space (slice ref 7 (len ref))
    else if starts_with lower "rcpt://"
    then trim_space (slice ref 7 (len ref))
    else elim (after_ticket_id lower ref) [
      | some part ↦ trim_space (before_cut part)
      | none ↦ if has_separator ref then "" else ref
    ]

-- `m[k]`, which is 0 where the key is missing
unfoldable pub amount : String → Dict ℕ → ℕ
amount k m = elim (lookup k m) [ none ↦ 0 | some n ↦ n ]

-- `quotaExceeded`: some need of `requested` is more than what `quota` has of it.
unfoldable pub quota_exceeded : Dict ℕ → Dict ℕ → Bool
quota_exceeded [] quota = false
quota_exceeded ((k, need) ∷ rest) quota =
    float_gt need (amount k quota) || quota_exceeded rest quota

-- The checks of a receipt against its ticket: the reason of the first that fails.
unfoldable pub refuse_receipt : ExecutionReceipt → DispatchTicket → Option String
refuse_receipt receipt ticket =
    if after receipt.received_at ticket.expires_at
    then some "ticket_expired"
    else if is_blank receipt.run_id || is_blank receipt.step_id || is_blank receipt.tenant_id
    then some "receipt_binding_missing"
    else if not (receipt.run_id == ticket.run_id)
        || not (receipt.step_id == ticket.step_id)
        || not (receipt.tenant_id == ticket.tenant_id)
    then some "ticket_binding_mismatch"
    else if quota_exceeded receipt.used_resources ticket.allowed_resources
    then some "resource_exceed_ticket"
    else none

unfoldable pub validate_execution_receipt : ExecutionReceipt → Service → ExecutionReceiptResult
validate_execution_receipt receipt s = elim (lookup receipt.ticket_id s.tickets) [
  | none ↦ record { accepted = false; reason_codes = "ticket_not_found" ∷ [] }
  | some ticket ↦ elim (refuse_receipt receipt ticket) [
    | some reason ↦ record { accepted = false; reason_codes = reason ∷ [] }
    | none ↦ record { accepted = true; reason_codes = [] }
  ]
]

-- The checks of a receipt reference against its ticket.
unfoldable pub refuse_reference : String → String → String → Time → DispatchTicket → Option String
refuse_reference run_id step_id tenant_id now ticket =
    if after now ticket.expires_at
    then some "ticket_expired"
    else if is_blank run_id || is_blank step_id
    then some "execution_binding_missing"
    else if not (ticket.run_id == run_id) || not (ticket.step_id == step_id)
    then some "ticket_binding_mismatch"
    else if not (is_blank tenant_id) && not (ticket.tenant_id == tenant_id)
    then some "ticket_binding_mismatch"
    else none

unfoldable pub validate_execution_receipt_ref :
    String → String → String → String → Time → Service → Bool × List String
validate_execution_receipt_ref run_id step_id tenant_id receipt_ref now s =
    let ticket_id = extract_ticket_id_from_execution_receipt_ref receipt_ref in
    if ticket_id == ""
    then (false, "execution_receipt_ticket_missing" ∷ [])
    else elim (lookup ticket_id s.tickets) [
      | none ↦ (false, "ticket_not_found" ∷ [])
      | some ticket ↦ elim (refuse_reference run_id step_id tenant_id now ticket) [
        | some reason ↦ (false, reason ∷ [])
        | none ↦ (true, [])
      ]
    ]

-- The receipt that a run hands in; a zero time stands for the present.
unfoldable pub receipt_of :
    String → String → String → String → Dict ℕ → Time → Time → ExecutionReceipt
receipt_of ticket_id run_id step_id tenant_id used received_at now = record {
  ticket_id = ticket_id;
  run_id = run_id;
  step_id = step_id;
  tenant_id = tenant_id;
  used_resources = used;
  received_at = if is_zero received_at then now else received_at;
}

unfoldable pub validate_execution_receipt_for_run :
    String → String → String → String → Dict ℕ → Time → Time → Service → Bool × List String
validate_execution_receipt_for_run run_id step_id tenant_id receipt_ref used received_at now s =
    let ticket_id = extract_ticket_id_from_execution_receipt_ref receipt_ref in
    if ticket_id == ""
    then (false, "execution_receipt_ticket_missing" ∷ [])
    else if is_empty used
    then (false, "execution_receipt_usage_missing" ∷ [])
    else let result =
        validate_execution_receipt
          (receipt_of ticket_id run_id step_id tenant_id used received_at now) s in
      (result.accepted, result.reason_codes)

extract_example :
    (extract_ticket_id_from_execution_receipt_ref " Ticket://t1 " ≡ "t1")
    × (extract_ticket_id_from_execution_receipt_ref "https://x?Ticket_ID=t2&a=b" ≡ "t2")
    × (extract_ticket_id_from_execution_receipt_ref "a/b" ≡ "")
    × (extract_ticket_id_from_execution_receipt_ref "t3" ≡ "t3")
unfolding extract_ticket_id_from_execution_receipt_ref trim_space to_lower
extract_example = (refl, refl, refl, refl)
