-- ===== src/Decision/Gate/Sound.antt =====
-- What the final gate before a side effect has checked when it opens.
use agent_infra_system.Base.{
  ℕ, String, true, false, ◌≡◌, refl, Option, none, some, [], ◌∷◌, All, arith, eq_iff, is_empty, inl,
  inr, Option-cases,
}
use agent_infra_system.Base.Dict.{Dict, lookup}
use agent_infra_system.Base.Float.{float_gt}
use agent_infra_system.Base.Text.{trim_space, to_upper}
use agent_infra_system.Base.Time.{Time, after}
use agent_infra_system.Decision.Statuses.{is_confirmed}
use agent_infra_system.Decision.Types.{
  Service, PendingDecision, StoredDecision, DispatchTicket, ExecutionReceipt, SideEffectGateRequest,
  RunStatePort, RunStateReference,
}
use agent_infra_system.Decision.Receipts.{
  extract_ticket_id_from_execution_receipt_ref, amount, quota_exceeded, refuse_receipt, receipt_of,
  validate_execution_receipt, validate_execution_receipt_for_run,
}
use agent_infra_system.Decision.Gate.{
  hash_ref_of, is_stable, is_executable_response, can_execute_side_effect, refuse_run_state,
  can_execute_side_effect_final,
}

-- The decision is confirmed and stored with a stable hash, and it allows the action.
pub record IsBacked (decision_id : String) (s : Service) : Type 0 where
  pub confirmation : PendingDecision
  pub confirmation_found : lookup decision_id s.pending ≡ some confirmation
  pub confirmed : is_confirmed confirmation.status ≡ true
  pub decision : StoredDecision
  pub decision_found : lookup decision_id s.decisions ≡ some decision
  pub stable : is_stable (hash_ref_of decision) ≡ true
  pub executable : is_executable_response decision ≡ true

-- No resource is used beyond what the ticket allows of it.
abbrev pub IsWithin : Dict ℕ → Dict ℕ → Type 0
IsWithin used allowed = All (λ entry. float_gt entry.1 (amount entry.0 allowed) ≡ false) used

-- A ticket that is bound as the receipt, has not expired at its time and covers its usage.
pub record IsCovered (receipt : ExecutionReceipt) (s : Service) : Type 0 where
  pub ticket : DispatchTicket
  pub ticket_found : lookup receipt.ticket_id s.tickets ≡ some ticket
  pub in_time : after receipt.received_at ticket.expires_at ≡ false
  pub same_run : receipt.run_id ≡ ticket.run_id
  pub same_step : receipt.step_id ≡ ticket.step_id
  pub same_tenant : receipt.tenant_id ≡ ticket.tenant_id
  pub within : IsWithin receipt.used_resources ticket.allowed_resources

-- The run is known and running.
pub record IsRunning (port : Option RunStatePort) (run_id : String) : Type 0 where
  pub answers : RunStatePort
  pub port_set : port ≡ some answers
  pub reference : RunStateReference
  pub run_found : answers run_id ≡ some reference
  pub running : to_upper (trim_space reference.state) ≡ "RUNNING"

pub record MayExecute (req : SideEffectGateRequest) (now : Time) (s : Service) : Type 0 where
  pub backed : IsBacked req.decision_id s
  pub running : IsRunning s.run_state_port req.run_id
  pub used : is_empty req.execution_used_resources ≡ false
  pub covered :
      IsCovered
        (receipt_of
          (extract_ticket_id_from_execution_receipt_ref req.execution_receipt_ref)
          req.run_id
          req.step_id
          req.tenant_id
          req.execution_used_resources
          req.execution_receipt_at
          now)
        s

pub quota_exceeded-IsWithin :
    (used allowed : Dict ℕ) → quota_exceeded used allowed ≡ false → IsWithin used allowed
unfolding quota_exceeded
quota_exceeded-IsWithin [] allowed h = tt
quota_exceeded-IsWithin ((k, need) ∷ rest) allowed h =
    ground (arith, quota_exceeded-IsWithin rest allowed)

can_execute-IsBacked :
    (id : String) (s : Service) → can_execute_side_effect id s ≡ true → IsBacked id s
unfolding can_execute_side_effect
can_execute-IsBacked id s h = elim (Option-cases (lookup id s.pending)) [
  | inl free ↦ absurd (ground arith)
  | inr (p, found) ↦ elim (Option-cases (lookup id s.decisions)) [
    | inl unknown ↦ absurd (ground arith)
    | inr (d, stored) ↦ record {
      confirmation = p;
      confirmation_found = found;
      confirmed = ground arith;
      decision = d;
      decision_found = stored;
      stable = ground arith;
      executable = ground arith;
    }
  ]
]

refuse_run_state-IsRunning :
    (port : Option RunStatePort) (run_id : String)
    → refuse_run_state port run_id ≡ none
    → IsRunning port run_id
unfolding refuse_run_state
refuse_run_state-IsRunning none run_id h = absurd (ground arith)
refuse_run_state-IsRunning (some port) run_id h = elim (Option-cases (port run_id)) [
  | inl unknown ↦ absurd (ground arith)
  | inr (ref, found) ↦ record {
    answers = port;
    port_set = refl;
    reference = ref;
    run_found = found;
    running = ground (arith, eq_iff (to_upper (trim_space ref.state)) "RUNNING");
  }
]

refuse_receipt-IsCovered :
    (receipt : ExecutionReceipt) (t : DispatchTicket) (s : Service)
    → lookup receipt.ticket_id s.tickets ≡ some t
    → refuse_receipt receipt t ≡ none
    → IsCovered receipt s
unfolding refuse_receipt
refuse_receipt-IsCovered receipt t s found h =
    let enough : quota_exceeded receipt.used_resources t.allowed_resources ≡ false = ground arith in
    record {
      ticket = t;
      ticket_found = found;
      in_time = ground arith;
      same_run = ground (arith, eq_iff receipt.run_id t.run_id);
      same_step = ground (arith, eq_iff receipt.step_id t.step_id);
      same_tenant = ground (arith, eq_iff receipt.tenant_id t.tenant_id);
      within = quota_exceeded-IsWithin receipt.used_resources t.allowed_resources enough;
    }

-- An accepted receipt is covered by its ticket.
pub validate_execution_receipt-IsCovered :
    (receipt : ExecutionReceipt) (s : Service)
    → (validate_execution_receipt receipt s).accepted ≡ true
    → IsCovered receipt s
unfolding validate_execution_receipt
validate_execution_receipt-IsCovered receipt s h =
    elim (Option-cases (lookup receipt.ticket_id s.tickets)) [
      | inl unknown ↦ absurd (ground arith)
      | inr (t, found) ↦
          let passed : refuse_receipt receipt t ≡ none = ground arith in
          refuse_receipt-IsCovered receipt t s found passed
    ]

-- Where the final gate opens, the decision is confirmed and stored with a stable hash and an executable
-- answer, the run is running, resources were used, and a ticket bound to run, step and tenant had not
-- expired and allows each resource used.
pub gate-MayExecute :
    (req : SideEffectGateRequest) (now : Time) (s : Service)
    → (can_execute_side_effect_final req now s).0 ≡ true
    → MayExecute req now s
unfolding can_execute_side_effect_final validate_execution_receipt_for_run
gate-MayExecute req now s h =
    let backed : can_execute_side_effect req.decision_id s ≡ true = ground arith in
    elim (Option-cases (refuse_run_state s.run_state_port req.run_id)) [
      | inr (reason, refused) ↦ absurd (ground arith)
      | inl running ↦
          let ticket_id = extract_ticket_id_from_execution_receipt_ref req.execution_receipt_ref in
          let receipt =
            receipt_of ticket_id req.run_id req.step_id req.tenant_id req.execution_used_resources
              req.execution_receipt_at now in
          let accepted : (validate_execution_receipt receipt s).accepted ≡ true = ground arith in
          record {
            backed = can_execute-IsBacked req.decision_id s backed;
            running = refuse_run_state-IsRunning s.run_state_port req.run_id running;
            used = ground arith;
            covered = validate_execution_receipt-IsCovered receipt s accepted;
          }
    ]
