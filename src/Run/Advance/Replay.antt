-- ===== src/Run/Advance/Replay.antt =====
-- The idempotency cache of an advance: a repeated request is answered from it.
use agent_infra_system.Base.{String, false, ◌≡◌, ◌∙◌, ap, sym, none, some, arith}
use agent_infra_system.Base.Dict.{lookup}
use agent_infra_system.Base.Time.{Time}
use agent_infra_system.Platform.{Platform}
use agent_infra_system.Run.States.{State, is_terminal_state, is_waiting_state}
use agent_infra_system.Run.Types.{
  Kernel, ok, RunInstance, DecisionReference, AdvanceRunRequest, AdvanceRunResponse,
}
use agent_infra_system.Run.Outbox.{emit}
use agent_infra_system.Run.Steps.{append_step}
use agent_infra_system.Run.Advance.{precheck_advance, advance_found, advance_run}
use agent_infra_system.Run.Advance.Commit.{idempotency_key, advance_commit}
use agent_infra_system.Run.Advance.Success.{
  advance_run-Moves, trace, tagged, enforced, next_reported,
}
use agent_infra_system.Run.Frames.{lookup-insert_self}

-- A commit to a state that is not terminal leaves its answer in the cache.
commit-caches :
    ⦃platform : Platform⦄ (run_id : String) (req : AdvanceRunRequest) (ref : DecisionReference)
    (now : Time) (r : RunInstance) (next : State) (h : String) (k k' : Kernel)
    (resp : AdvanceRunResponse)
    → is_terminal_state next ≡ false
    → advance_commit run_id req ref now r next h k ≡ (k', ok resp)
    → lookup (idempotency_key run_id req) k'.idempotency
      ≡ some (record { run_id = run_id; response = resp; created_at = now; last_access_at = now })
unfolding advance_commit emit append_step
commit-caches run_id req ref now r next h k k' resp live e = ground (
  arith,
  lookup-insert_self (idempotency_key run_id req)
      (record { run_id = run_id; response = resp; created_at = now; last_access_at = now })
      k.idempotency,
)

precheck_again :
    (before next : State) (req : AdvanceRunRequest)
    → precheck_advance before req ≡ none
    → is_terminal_state next ≡ false
    → is_waiting_state next ≡ false
    → precheck_advance next req ≡ none
unfolding precheck_advance
precheck_again before next req e live ready = ground arith

-- After an advance of a stored run that answers, not from the idempotency cache, with a state that is
-- neither terminal nor waiting, the same request at any time has the same answer, and changes neither
-- the runs, nor the chains, nor the outbox.
pub advance_run_replays :
    ⦃platform : Platform⦄ (run_id : String) (req : AdvanceRunRequest) (now : Time) (r : RunInstance)
    (k k' : Kernel) (resp : AdvanceRunResponse) (found : lookup run_id k.runs ≡ some r)
    (uncached : lookup (idempotency_key run_id req) k.idempotency ≡ none)
    (done : advance_run run_id req now k ≡ (k', ok resp))
    → is_terminal_state resp.new_state ≡ false
    → is_waiting_state resp.new_state ≡ false
    → (later : Time)
    → let (k2, answer) = advance_run run_id req later k' in
      (answer ≡ ok resp)
      × (k2.runs ≡ k'.runs)
      × (k2.step_integrity ≡ k'.step_integrity)
      × (k2.outbox ≡ k'.outbox)
unfolding advance_run advance_found
advance_run_replays run_id req now r k k' resp found uncached done live ready later =
    let t = trace run_id req now r k k' resp found uncached done in
    let m = advance_run-Moves run_id req now r k k' resp found uncached done in
    let same : t.next ≡ resp.new_state =
      sym (next_reported run_id req now r k k' resp found uncached done) in
    let cached =
      commit-caches run_id req t.ref now
        (tagged run_id req now r k k' resp found uncached done t.ref) t.next t.hash
        (enforced run_id req now r k k' resp found uncached done t.ref) k' resp
        (ap is_terminal_state same ∙ live) t.committed in
    let passed =
      precheck_again r.view.state m.after.view.state req t.checked
        (ap is_terminal_state m.in_state ∙ live) (ap is_waiting_state m.in_state ∙ ready) in
    ground (arith, m.stored, cached, passed)
