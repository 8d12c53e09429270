-- ===== src/Decision/Repair/Ending.antt =====
-- Three repairs, each after the time to live, end a pending decision.
use agent_infra_system.Base.{
  suc, String, true, false, not, ◌≡◌, refl, ◌∙◌, ap, subst, some, [], ◌∷◌, if_induction,
}
use agent_infra_system.Base.Int.{leb_ℤ}
use agent_infra_system.Base.Dict.{Dict, lookup}
use agent_infra_system.Base.Dict.Unique.{Unique}
use agent_infra_system.Base.Time.{Time, sub}
use agent_infra_system.Platform.{Platform}
use agent_infra_system.Decision.Statuses.{PendingStatus}
use agent_infra_system.Decision.Types.{Service, ServiceConfig, PendingDecision, PendingRepairResult}
use agent_infra_system.Decision.Events.{emit_event}
use agent_infra_system.Decision.Pending.{put_pending}
use agent_infra_system.Decision.Repair.{
  is_stuck, repair_status, repaired_decision, repair_one, count_repair, repair_all,
  repair_pending_decisions,
}
use agent_infra_system.Decision.Repair.Rounds.{repair-at, repaired_if_stuck}
use agent_infra_system.Decision.Refines.Repairs.{repair-Carries}

record SameConfig (c : ServiceConfig) (x : Service × PendingRepairResult) : Type 0 where
  config_is : x.0.cfg ≡ c

-- What the next repair needs to know: the decision is stored, the keys are unique, the settings are
-- the same.
record Holds (id : String) (p : PendingDecision) (c : ServiceConfig) (s : Service) : Type 0 where
  stored : lookup id s.pending ≡ some p
  unique : Unique s.pending
  settings : s.cfg ≡ c

module _ ⦃platform : Platform⦄ where
  repair_all-cfg :
      (now : Time) (todo : Dict PendingDecision) (s : Service) (r : PendingRepairResult)
      → SameConfig s.cfg (repair_all now todo (s, r))
  unfolding repair_all repair_one put_pending emit_event
  repair_all-cfg now [] s r = record { config_is = refl }
  repair_all-cfg now ((id, p) ∷ rest) s r =
      if_induction (λ (x : Service × PendingRepairResult). SameConfig s.cfg (repair_all now rest x))
        (is_stuck now s.cfg.pending_decision_ttl p)
        (λ stuck.
          repair_all-cfg now rest (repair_one now id p s) (count_repair (suc p.repair_attempts) r))
        (λ fine. repair_all-cfg now rest s r)

  repair-Holds :
      (now : Time) (id : String) (p : PendingDecision) (c : ServiceConfig) (s : Service)
      → Holds id p c s
      → is_stuck now c.pending_decision_ttl p ≡ true
      → Holds id (repaired_decision now p) c (repair_pending_decisions now s).0
  unfolding repair_pending_decisions
  repair-Holds now id p c s h stuck =
      let same : is_stuck now s.cfg.pending_decision_ttl p ≡ true = rw h.settings stuck in
      let changed : repaired_if_stuck now s.cfg.pending_decision_ttl p ≡ repaired_decision now p =
        rw same refl in
      record {
        stored = repair-at now id p s h.unique h.stored ∙ ap (λ q. some q) changed;
        unique = (repair-Carries now s h.unique).unique h.unique;
        settings = (repair_all-cfg now s.pending s _).config_is ∙ h.settings;
      }

  -- A decision that is pending, has not been repaired and is stuck at the first of three repairs, each
  -- later than the one before by more than the time to live, is on safeguard hold after the third.
  pub repairs_end :
      (first second third : Time) (id : String) (p : PendingDecision) (s : Service)
      → Unique s.pending
      → lookup id s.pending ≡ some p
      → p.repair_attempts ≡ 0
      → let ttl = s.cfg.pending_decision_ttl in
        let after = λ (now : Time) (x : Service). (repair_pending_decisions now x).0 in
        is_stuck first ttl p ≡ true
        → leb_ℤ (sub second first) ttl ≡ false
        → leb_ℤ (sub third second) ttl ≡ false
        → lookup id (after third (after second (after first s))).pending
          ≡ some (record p {
            repair_attempts = 3;
            last_updated_at = third;
            status = PendingStatus.safeguard_hold;
          })
  unfolding repaired_decision repair_status is_stuck
  repairs_end first second third id p s u found fresh stuck late later =
      let once = record p {
        repair_attempts = 1;
        last_updated_at = first;
        status = PendingStatus.pending;
      } in
      let twice = record p {
        repair_attempts = 2;
        last_updated_at = second;
        status = PendingStatus.pending;
      } in
      let s1 = (repair_pending_decisions first s).0 in
      let s2 = (repair_pending_decisions second s1).0 in
      let is_once : repaired_decision first p ≡ once = rw fresh refl in
      let h1 =
        repair-Holds first id p s.cfg s (record { stored = found; unique = u; settings = refl })
          stuck in
      let h2 =
        repair-Holds second id once s.cfg s1 (subst (λ q. Holds id q s.cfg s1) is_once h1)
          (ap not late) in
      (repair-Holds third id twice s.cfg s2 h2 (ap not later)).stored
