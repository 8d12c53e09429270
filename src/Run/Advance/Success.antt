-- ===== src/Run/Advance/Success.antt =====
-- What a successful advance proves of its request, and what it writes.
use agent_infra_system.Base.{
  String, true, false, ◌≡◌, refl, ◌∙◌, ap, sym, none, some, [], ◌∷◌, ◌++◌, arith,
}
use agent_infra_system.Base.Int.{◌<ℤ◌, int64_succ}
use agent_infra_system.Base.Dict.{lookup}
use agent_infra_system.Base.Text.{is_blank}
use agent_infra_system.Base.Time.{Time}
use agent_infra_system.Platform.{Platform}
use agent_infra_system.Run.States.{
  State, is_terminal_state, is_waiting_state, is_allowed_transition, parse_next_state,
}
use agent_infra_system.Run.Types.{
  Kernel, ok, RunInstance, DecisionPort, DecisionReference, AdvanceRunRequest, AdvanceRunResponse,
  StepIntegrity,
}
use agent_infra_system.Run.Steps.{step_integrities}
use agent_infra_system.Run.Setup.{put_run}
use agent_infra_system.Run.Obligations.{enforce_decision_obligations}
use agent_infra_system.Run.Obligations.Enforce.{
  AllAccepted, enforce_decision_obligations_iff, enforce_decision_obligations-SameState,
}
use agent_infra_system.Run.Advance.{precheck_advance, advance_run, advance_found}
use agent_infra_system.Run.Advance.Gate.{pass, decision_gate}
use agent_infra_system.Run.Advance.Authorised.{IsBacked, IsBound, decision_gate_iff}
use agent_infra_system.Run.Advance.Commit.{
  idempotency_key, advanced_instance, advance_response, normal_step, advance_commit,
  validate_next_state,
}
use agent_infra_system.Run.Advance.Effect.{
  with_tags, advance_found-ok, advance_fresh-ok, advance_gated-ok, advance_step-ok, precheck-live,
  validate_next_state-ok, commit-writes, advanced_instance-progress,
}
use agent_infra_system.Run.Frames.{step_integrities-same}

-- Everything that has to hold before a run moves: it is live and not waiting; the caller has seen
-- its current version; the step is new; a decision port backs a bound, executable decision whose
-- obligations are all accepted; the next state is allowed, and both hashes are given.
pub record IsAuthorised ⦃platform : Platform⦄ (run_id : String) (req : AdvanceRunRequest)
    (k : Kernel) (r : RunInstance) (next : State) : Type 0 where
  pub live : is_terminal_state r.view.state ≡ false
  pub not_waiting : is_waiting_state r.view.state ≡ false
  pub version_seen : req.expected_state_version ≡ r.view.state_version
  pub step_is_new : r.view.current_step_seq_id <ℤ req.incoming_step_seq_id
  pub port : DecisionPort
  pub port_set : k.decision_port ≡ some port
  pub ref : DecisionReference
  pub backed : IsBacked port run_id r.view.tenant_id req ref
  pub bound : IsBound run_id req ref
  pub obligations_accepted : AllAccepted req ref 0 ref.obligations
  pub next_named : parse_next_state req.next_state ≡ some next
  pub next_allowed : is_allowed_transition r.view.state next ≡ true
  pub input_hashed : is_blank req.input_hash ≡ false
  pub output_hashed : is_blank req.output_hash ≡ false

-- The run moved to `next` under a new version and sequence number, its chain grew by one step that
-- follows the old head, and the answer reports the new view.
pub record Moves (run_id : String) (req : AdvanceRunRequest) (k k' : Kernel) (r : RunInstance)
    (next : State) (resp : AdvanceRunResponse) : Type 0 where
  pub after : RunInstance
  pub stored : lookup run_id k'.runs ≡ some after
  pub in_state : after.view.state ≡ next
  pub version_bumped : after.view.state_version ≡ int64_succ r.view.state_version
  pub seq_taken : after.view.current_step_seq_id ≡ req.incoming_step_seq_id
  pub step : StepIntegrity
  pub chain_grown : step_integrities run_id k' ≡ step_integrities run_id k ++ step ∷ []
  pub step_linked : step.previous_step_hash ≡ r.view.last_step_hash
  pub step_decided : step.decision_hash ≡ req.decision_ref.decision_hash
  pub step_heads : step.step_hash ≡ after.view.last_step_hash
  pub state_reported : resp.new_state ≡ next
  pub version_reported : resp.state_version ≡ after.view.state_version
  pub hash_reported : resp.step_hash ≡ after.view.last_step_hash

module _ ⦃platform : Platform⦄ (run_id : String) (req : AdvanceRunRequest) (now : Time)
    (r : RunInstance) (k k' : Kernel) (resp : AdvanceRunResponse)
    (found : lookup run_id k.runs ≡ some r)
    (uncached : lookup (idempotency_key run_id req) k.idempotency ≡ none)
    (done : advance_run run_id req now k ≡ (k', ok resp)) where
  opened : advance_found run_id req now r k ≡ (k', ok resp)
  unfolding advance_run
  opened = ground arith

  -- The run with its tags, and the kernel, as the obligations leave them.
  pub tagged : DecisionReference → RunInstance
  tagged ref =
      with_tags (enforce_decision_obligations r.view.run_id req ref now k r.view.attached_tags).1 r

  pub enforced : DecisionReference → Kernel
  unfolding tagged
  enforced ref =
      put_run run_id (tagged ref)
        (enforce_decision_obligations r.view.run_id req ref now k r.view.attached_tags).0

  pub record Trace : Type 0 where
    pub ref : DecisionReference
    pub next : State
    pub hash : String
    pub checked : precheck_advance r.view.state req ≡ none
    pub version_seen : req.expected_state_version ≡ r.view.state_version
    pub step_is_new : r.view.current_step_seq_id <ℤ req.incoming_step_seq_id
    pub gate : decision_gate k.decision_port run_id r.view.tenant_id req ≡ pass ref
    pub accepted :
        (enforce_decision_obligations r.view.run_id req ref now k r.view.attached_tags).2 ≡ none
    pub validated : validate_next_state r.view.state req ≡ ok next
    pub committed :
        advance_commit run_id req ref now (tagged ref) next hash (enforced ref) ≡ (k', ok resp)

  pub trace : Trace
  unfolding tagged enforced
  trace =
      let (checked, e1) = advance_found-ok run_id req now r k k' resp uncached opened in
      let (ref, version, seq, gate, e2) = advance_fresh-ok run_id req now r k k' resp e1 in
      let (accepted, e3) = advance_gated-ok run_id req now ref r k k' resp e2 in
      let (next, h, validated, hashed, e4) =
        advance_step-ok run_id req now ref (tagged ref) (enforced ref) k' resp e3 in
      record {
        ref = ref;
        next = next;
        hash = h;
        checked = checked;
        version_seen = version;
        step_is_new = seq;
        gate = gate;
        accepted = accepted;
        validated = validated;
        committed = e4;
      }

  writes :
      (lookup run_id k'.runs
        ≡ some (advanced_instance trace.next req trace.hash now (tagged trace.ref)))
      × (step_integrities run_id k'
          ≡ step_integrities run_id (enforced trace.ref)
            ++ normal_step (tagged trace.ref).view run_id req trace.hash now ∷ [])
      × (resp
          ≡ advance_response
              (advanced_instance trace.next req trace.hash now (tagged trace.ref)).view
              trace.hash)
  writes =
      commit-writes run_id req now trace.ref (tagged trace.ref) trace.next trace.hash
        (enforced trace.ref) k' resp trace.committed

  progress :
      let v = (advanced_instance trace.next req trace.hash now (tagged trace.ref)).view in
      (v.state ≡ trace.next)
      × (v.state_version ≡ int64_succ r.view.state_version)
      × (v.current_step_seq_id ≡ req.incoming_step_seq_id)
      × (v.last_step_hash ≡ trace.hash)
  unfolding tagged
  progress =
      let (s, v, q, h, _) =
        advanced_instance-progress trace.next req trace.hash now (tagged trace.ref) in
      (s, v, q, h)

  pub next_reported : resp.new_state ≡ trace.next
  unfolding advance_response
  next_reported = ap (λ (x : AdvanceRunResponse). x.new_state) writes.2 ∙ progress.0

  -- An advance of a stored run that answers, and not from the idempotency cache, was authorised to
  -- go to the state that the answer names (`IsAuthorised`): the run was live and not waiting, at the
  -- version that the caller saw, the step new, the decision backed and bound, its obligations
  -- accepted, the next state allowed, and both hashes given.
  pub advance_run-IsAuthorised : IsAuthorised run_id req k r resp.new_state
  advance_run-IsAuthorised =
      let (live, not_waiting) = precheck-live run_id req now r.view.state trace.checked in
      let (port, port_set, backed, bound) =
        (decision_gate_iff k.decision_port run_id r.view.tenant_id req trace.ref).0 trace.gate in
      let (named, allowed, input, output) =
        validate_next_state-ok run_id req now r.view.state trace.next trace.validated in
      record {
        live = live;
        not_waiting = not_waiting;
        version_seen = trace.version_seen;
        step_is_new = trace.step_is_new;
        port = port;
        port_set = port_set;
        ref = trace.ref;
        backed = backed;
        bound = bound;
        obligations_accepted =
            (enforce_decision_obligations_iff r.view.run_id req trace.ref now k
                r.view.attached_tags).0
              trace.accepted;
        next_named = named ∙ ap some (sym next_reported);
        next_allowed = ap (is_allowed_transition r.view.state) next_reported ∙ allowed;
        input_hashed = input;
        output_hashed = output;
      }

  -- An advance of a stored run that answers, and not from the idempotency cache, stores the run in
  -- the state that the answer names, under the next version, the incoming sequence number and a new
  -- head, and appends to its chain the one step that leads from the old head to the new one.
  pub advance_run-Moves : Moves run_id req k k' r resp.new_state resp
  unfolding normal_step advance_response tagged enforced
  advance_run-Moves =
      let (stored, grown, answer) = writes in
      let (s, v, q, h) = progress in
      let outcome =
        enforce_decision_obligations r.view.run_id req trace.ref now k r.view.attached_tags in
      let same =
        enforce_decision_obligations-SameState r.view.run_id req trace.ref now k
          r.view.attached_tags in
      record {
        after = advanced_instance trace.next req trace.hash now (tagged trace.ref);
        stored = stored;
        in_state = s ∙ sym next_reported;
        version_bumped = v;
        seq_taken = q;
        step = normal_step (tagged trace.ref).view run_id req trace.hash now;
        chain_grown =
            grown
            ∙ ap (λ l. l ++ normal_step (tagged trace.ref).view run_id req trace.hash now ∷ [])
                (step_integrities-same run_id k (enforced trace.ref) same.step_integrity_same);
        step_linked = refl;
        step_decided = refl;
        step_heads = sym h;
        state_reported = refl;
        version_reported = ap (λ (x : AdvanceRunResponse). x.state_version) answer;
        hash_reported = ap (λ (x : AdvanceRunResponse). x.step_hash) answer ∙ sym h;
      }
