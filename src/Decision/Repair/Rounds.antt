-- ===== src/Decision/Repair/Rounds.antt =====
-- What a repair does to each decision, and what repeated repairs lead to.
use agent_infra_system.Base.{
  ℕ, suc, ◌≤◌, String, true, false, ◌≡◌, refl, ◌∙◌, ap, sym, inl, inr, Option, none, some, [], ◌∷◌,
  arith, eq_iff, ◌==◌, if◌then◌else◌, Bool-cases,
}
use agent_infra_system.Base.Dict.{Dict, lookup, lookup-insert}
use agent_infra_system.Base.Dict.Unique.{Unique, Agrees, Agrees-refl}
use agent_infra_system.Base.Time.{Time, Duration}
use agent_infra_system.Platform.{Platform}
use agent_infra_system.Decision.Types.{Service, ServiceConfig, PendingDecision, PendingRepairResult}
use agent_infra_system.Decision.Events.{emit_event}
use agent_infra_system.Decision.Pending.{put_pending}
use agent_infra_system.Decision.Repair.{
  is_stuck, repaired_decision, repair_one, count_repair, repair_all, repair_pending_decisions,
}
use agent_infra_system.Decision.Spec.{InBudget}
use agent_infra_system.Decision.Refines.Fate.{IsSound}

count_repair-escalated :
    (n : ℕ) (r : PendingRepairResult) → n ≤ 2 → (count_repair (suc n) r).escalated ≡ r.escalated
unfolding count_repair
count_repair-escalated n r h = ground arith

is_stuck-InBudget :
    (now : Time) (ttl : Duration) (p : PendingDecision)
    → InBudget p
    → is_stuck now ttl p ≡ true
    → p.repair_attempts ≤ 2
unfolding is_stuck
is_stuck-InBudget now ttl p b h = b (ground arith)

-- The effect of one repair on one decision.
abbrev pub repaired_if_stuck : Time → Duration → PendingDecision → PendingDecision
repaired_if_stuck now ttl p = if is_stuck now ttl p then repaired_decision now p else p

-- The count of escalations, and the decision under an id, after the loop.
record Escalates (n : ℕ) (x : Service × PendingRepairResult) : Type 0 where
  count_is : x.1.escalated ≡ n

record Leaves (id : String) (o : Option PendingDecision) (x : Service × PendingRepairResult)
    : Type 0 where
  lookup_is : lookup id x.0.pending ≡ o

module _ ⦃platform : Platform⦄ where
  repair_all-escalated :
      (now : Time) (m todo : Dict PendingDecision)
      → ((id : String) (p : PendingDecision) → lookup id m ≡ some p → InBudget p)
      → Agrees todo m
      → (s : Service) (r : PendingRepairResult) → Escalates r.escalated (repair_all now todo (s, r))
  unfolding repair_all
  repair_all-escalated now m [] budget a s r = record { count_is = refl }
  repair_all-escalated now m ((id, p) ∷ rest) budget a s r =
      let ttl = s.cfg.pending_decision_ttl in
      elim (Bool-cases (is_stuck now ttl p)) [
        | inl stuck ↦
            let few = is_stuck-InBudget now ttl p (budget id p a.0) stuck in
            let more =
              repair_all-escalated now m rest budget a.1 (repair_one now id p s)
                (count_repair (suc p.repair_attempts) r) in
            let same = count_repair-escalated p.repair_attempts r few in
            rw stuck (record { count_is = more.count_is ∙ same })
        | inr fine ↦ rw fine (repair_all-escalated now m rest budget a.1 s r)
      ]

  -- In a state that the kernel reaches, a repair never escalates a decision.
  pub repair_never_escalates :
      (now : Time) (s : Service)
      → IsSound s.pending
      → (repair_pending_decisions now s).1.escalated ≡ 0
  unfolding repair_pending_decisions
  repair_never_escalates now s w =
      (repair_all-escalated now s.pending s.pending w.in_budget (Agrees-refl s.pending w.unique) s
        _).count_is

  repair_one-cfg :
      (now : Time) (id : String) (p : PendingDecision) (s : Service)
      → (repair_one now id p s).cfg ≡ s.cfg
  unfolding repair_one put_pending emit_event
  repair_one-cfg now id p s = refl

  repair_one-lookup :
      (now : Time) (key : String) (p : PendingDecision) (s : Service) (id : String)
      → lookup id (repair_one now key p s).pending
        ≡ (if key == id then some (repaired_decision now p) else lookup id s.pending)
  unfolding repair_one put_pending emit_event
  repair_one-lookup now key p s id = lookup-insert key id (repaired_decision now p) s.pending

  -- The loop changes no decision that is not on its list.
  repair_all-other :
      (now : Time) (todo : Dict PendingDecision) (id : String) (s : Service)
      (r : PendingRepairResult)
      → lookup id todo ≡ none
      → Leaves id (lookup id s.pending) (repair_all now todo (s, r))
  unfolding repair_all lookup
  repair_all-other now [] id s r n = record { lookup_is = refl }
  repair_all-other now ((key, p) ∷ rest) id s r n =
      let later : lookup id rest ≡ none = ground arith in
      let other : (key == id) ≡ false = ground arith in
      elim (Bool-cases (is_stuck now s.cfg.pending_decision_ttl p)) [
        | inl stuck ↦
            let more =
              repair_all-other now rest id (repair_one now key p s)
                (count_repair (suc p.repair_attempts) r) later in
            let same : lookup id (repair_one now key p s).pending ≡ lookup id s.pending =
              ground (arith, repair_one-lookup now key p s id) in
            rw stuck (record { lookup_is = more.lookup_is ∙ same })
        | inr fine ↦ rw fine (repair_all-other now rest id s r later)
      ]

  -- The loop gives each decision on its list what one repair gives it.
  repair_all-at :
      (now : Time) (todo : Dict PendingDecision) (id : String) (p : PendingDecision) (s : Service)
      (r : PendingRepairResult)
      → Unique todo
      → lookup id todo ≡ some p
      → lookup id s.pending ≡ some p
      → Leaves id
          (some (repaired_if_stuck now s.cfg.pending_decision_ttl p))
          (repair_all now todo (s, r))
  unfolding repair_all lookup
  repair_all-at now [] id p s r u listed held = absurd (ground arith)
  repair_all-at now ((key, q) ∷ rest) id p s r u listed held =
      let ttl = s.cfg.pending_decision_ttl in
      let s1 = repair_one now key q s in
      let r1 = count_repair (suc q.repair_attempts) r in
      let same_ttl =
        ap (λ (c : ServiceConfig). c.pending_decision_ttl) (repair_one-cfg now key q s) in
      elim (Bool-cases (key == id)) [
        | inl same ↦
            let e = (eq_iff key id).0 same in
            let q_is : q ≡ p = ground arith in
            let later : lookup id rest ≡ none = rw (sym e) u.0 in
            elim (Bool-cases (is_stuck now ttl q)) [
              | inl stuck ↦
                  let more = repair_all-other now rest id s1 r1 later in
                  let written : lookup id s1.pending ≡ some (repaired_if_stuck now ttl p) =
                    rw (sym q_is) (rw stuck (ground (arith, repair_one-lookup now key q s id))) in
                  rw stuck (record { lookup_is = more.lookup_is ∙ written })
              | inr fine ↦
                  let more = repair_all-other now rest id s r later in
                  let left : some p ≡ some (repaired_if_stuck now ttl p) =
                    rw (sym q_is) (rw fine refl) in
                  rw fine (record { lookup_is = more.lookup_is ∙ held ∙ left })
            ]
        | inr other ↦
            let further : lookup id rest ≡ some p = ground arith in
            elim (Bool-cases (is_stuck now ttl q)) [
              | inl stuck ↦
                  let kept : lookup id s1.pending ≡ some p =
                    ground (arith, repair_one-lookup now key q s id) in
                  let more = repair_all-at now rest id p s1 r1 u.1 further kept in
                  let ends = ap (λ (t : Duration). some (repaired_if_stuck now t p)) same_ttl in
                  rw stuck (record { lookup_is = more.lookup_is ∙ ends })
              | inr fine ↦ rw fine (repair_all-at now rest id p s r u.1 further held)
            ]
      ]

  -- A repair gives each decision what it gives it by itself.
  pub repair-at :
      (now : Time) (id : String) (p : PendingDecision) (s : Service)
      → Unique s.pending
      → lookup id s.pending ≡ some p
      → lookup id (repair_pending_decisions now s).0.pending
        ≡ some (repaired_if_stuck now s.cfg.pending_decision_ttl p)
  unfolding repair_pending_decisions
  repair-at now id p s u found = (repair_all-at now s.pending id p s _ u found found).lookup_is
