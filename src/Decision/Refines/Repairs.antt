-- ===== src/Decision/Refines/Repairs.antt =====
-- A repair refines the abstract view, decision by decision, and so does the cleanup.
use agent_infra_system.Base.{
  ℕ, suc, ◌≤◌, String, true, ◌≡◌, refl, inl, inr, [], ◌∷◌, arith, Bool-cases,
}
use agent_infra_system.Base.Dict.{Dict, insert}
use agent_infra_system.Base.Dict.Unique.{Unique, Agrees, Agrees-insert, Agrees-refl}
use agent_infra_system.Base.Time.{Time, Duration}
use agent_infra_system.Platform.{Platform}
use agent_infra_system.Decision.Statuses.{is_pending}
use agent_infra_system.Decision.Types.{Service, PendingDecision, PendingRepairResult}
use agent_infra_system.Decision.Events.{emit_event}
use agent_infra_system.Decision.Pending.{put_pending}
use agent_infra_system.Decision.Repair.{
  is_stuck, repair_status, repaired_decision, repair_one, count_repair, repair_all,
  repair_pending_decisions,
}
use agent_infra_system.Decision.Spec.{
  Follows, Follows-moved, Carries, Carries-refl, Carries-trans, Carries-moved, may_become-pending,
}

is_stuck-pending :
    (now : Time) (ttl : Duration) (p : PendingDecision)
    → is_stuck now ttl p ≡ true
    → is_pending p.status ≡ true
unfolding is_stuck
is_stuck-pending now ttl p h = ground arith

repair_status-InBudget : (n : ℕ) → is_pending (repair_status n) ≡ true → n ≤ 2
unfolding repair_status
repair_status-InBudget n h = ground arith

repaired-Follows :
    (now : Time) (p : PendingDecision)
    → is_pending p.status ≡ true
    → Follows p (repaired_decision now p)
unfolding repaired_decision
repaired-Follows now p h =
    Follows-moved p (repaired_decision now p) refl refl refl refl refl
      (may_become-pending p.status (repair_status (suc p.repair_attempts)) h)
      (λ b e. repair_status-InBudget (suc p.repair_attempts) e)

-- What the loop does to the pending decisions, with its counts left out.
record Repairs (m : Dict PendingDecision) (x : Service × PendingRepairResult) : Type 0 where
  repairs_to : Carries m x.0.pending

module _ ⦃platform : Platform⦄ where
  repair_one-pending :
      (now : Time) (id : String) (p : PendingDecision) (s : Service)
      → (repair_one now id p s).pending ≡ insert id (repaired_decision now p) s.pending
  unfolding repair_one put_pending emit_event
  repair_one-pending now id p s = refl

  repair_all-Repairs :
      (now : Time) (todo : Dict PendingDecision) (s : Service) (r : PendingRepairResult)
      → Unique todo
      → Agrees todo s.pending
      → Repairs s.pending (repair_all now todo (s, r))
  unfolding repair_all
  repair_all-Repairs now [] s r u a = record { repairs_to = Carries-refl s.pending }
  repair_all-Repairs now ((id, p) ∷ rest) s r u a =
      elim (Bool-cases (is_stuck now s.cfg.pending_decision_ttl p)) [
        | inl stuck ↦
            let s1 = repair_one now id p s in
            let follows =
              repaired-Follows now p (is_stuck-pending now s.cfg.pending_decision_ttl p stuck) in
            let written = repair_one-pending now id p s in
            let step : Carries s.pending s1.pending =
              rw written (Carries-moved id s.pending p (repaired_decision now p) a.0 follows) in
            let agrees : Agrees rest s1.pending =
              rw (repair_one-pending now id p s)
                (Agrees-insert id (repaired_decision now p) rest s.pending u.0 a.1) in
            let more =
              repair_all-Repairs now rest s1 (count_repair (suc p.repair_attempts) r) u.1 agrees in
            rw stuck (record { repairs_to = Carries-trans step more.repairs_to })
        | inr fine ↦ rw fine (repair_all-Repairs now rest s r u.1 a.1)
      ]

  pub repair-Carries :
      (now : Time) (s : Service)
      → Unique s.pending
      → Carries s.pending (repair_pending_decisions now s).0.pending
  unfolding repair_pending_decisions
  repair-Carries now s u =
      (repair_all-Repairs now s.pending s _ u (Agrees-refl s.pending u)).repairs_to
