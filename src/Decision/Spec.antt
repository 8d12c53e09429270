-- ===== src/Decision/Spec.antt =====
-- The abstract view of pending decisions: what one locked region of the decision kernel may do to any
-- one of them. A region refines it if it is a `PendingTransition`.
use agent_infra_system.Base.{
  ◌≤◌, String, Bool, true, false, ◌≡◌, refl, ◌∙◌, ap, sym, subst, inl, inr, none, some, arith,
  eq_iff, ◌==◌, Bool-cases, Option-cases,
}
use agent_infra_system.Base.Dict.{Dict, lookup, insert, lookup-insert}
use agent_infra_system.Base.Dict.Unique.{Unique, insert-Unique}
use agent_infra_system.Decision.Statuses.{PendingStatus, is_pending, is_confirmed}
use agent_infra_system.Decision.Types.{PendingDecision}

-- The status machine: pending leads anywhere, confirmed to the safeguard hold, the others nowhere.
abbrev pub may_become : PendingStatus → PendingStatus → Bool
may_become PendingStatus.pending b = true
may_become PendingStatus.confirmed PendingStatus.confirmed = true
may_become PendingStatus.confirmed PendingStatus.safeguard_hold = true
may_become PendingStatus.safeguard_hold PendingStatus.safeguard_hold = true
may_become PendingStatus.escalated_oncall PendingStatus.escalated_oncall = true
may_become PendingStatus.manually_closed PendingStatus.manually_closed = true
may_become a b = false

-- A text that is not blank stays.
abbrev pub IsKept : String → String → Type 0
IsKept held after = (held == "") ≡ false → after ≡ held

-- While a decision is pending, it has been repaired twice at most.
abbrev pub InBudget : PendingDecision → Type 0
InBudget p = is_pending p.status ≡ true → p.repair_attempts ≤ 2

-- What stays of a pending decision, and how its status moves.
pub record Follows (p p' : PendingDecision) : Type 0 where
  pub id_same : p'.decision_id ≡ p.decision_id
  pub created_same : p'.created_at ≡ p.created_at
  pub run_kept : IsKept p.run_id p'.run_id
  pub step_kept : IsKept p.step_id p'.step_id
  pub owner_kept : IsKept p.owner_key p'.owner_key
  pub moves : may_become p.status p'.status ≡ true
  pub budget_kept : InBudget p → InBudget p'

-- A new pending decision stands under its own id and has not been repaired.
pub record Opens (id : String) (p : PendingDecision) : Type 0 where
  pub under_id : p.decision_id ≡ id
  pub starts_pending : p.status ≡ PendingStatus.pending
  pub unrepaired : p.repair_attempts ≡ 0

-- What one region may do to the decision that is pending under `id`, if any.
pub data PendingChange (id : String) (s s' : Dict PendingDecision) : Type 0 where
  kept : lookup id s' ≡ lookup id s → PendingChange id s s'
  moved :
      (p p' : PendingDecision)
      → lookup id s ≡ some p
      → lookup id s' ≡ some p'
      → Follows p p'
      → PendingChange id s s'
  opened :
      (p : PendingDecision)
      → lookup id s ≡ none
      → lookup id s' ≡ some p
      → Opens id p
      → PendingChange id s s'
  removed :
      (p : PendingDecision)
      → lookup id s ≡ some p
      → is_pending p.status ≡ false
      → lookup id s' ≡ none
      → PendingChange id s s'

pub record PendingTransition (s s' : Dict PendingDecision) : Type 0 where
  pub changes : (id : String) → PendingChange id s s'
  pub unique : Unique s → Unique s'

-- The decisions that are pending stay so, each as `Follows` says, and no other becomes pending.
pub record Carries (s s' : Dict PendingDecision) : Type 0 where
  pub carries :
      (id : String) (p : PendingDecision)
      → lookup id s ≡ some p
      → (p' : PendingDecision) × (lookup id s' ≡ some p') × Follows p p'
  pub none_new : (id : String) → lookup id s ≡ none → lookup id s' ≡ none
  pub unique : Unique s → Unique s'

pub Carries-PendingTransition :
    {s s' : Dict PendingDecision} → Carries s s' → PendingTransition s s'
Carries-PendingTransition {s} {s'} c = record {
  changes = λ id. elim (Option-cases (lookup id s)) [
    | inl free ↦ kept (c.none_new id free ∙ sym free)
    | inr (p, found) ↦
        let (p', after, follows) = c.carries id p found in moved p p' found after follows
  ];
  unique = c.unique;
}

pub PendingTransition-same : (s s' : Dict PendingDecision) → s' ≡ s → PendingTransition s s'
PendingTransition-same s s' e = record {
  changes = λ id. kept (ap (lookup id) e);
  unique = λ u. rw e u;
}

pub may_become_refl : (a : PendingStatus) → may_become a a ≡ true
may_become_refl PendingStatus.pending = refl
may_become_refl PendingStatus.confirmed = refl
may_become_refl PendingStatus.safeguard_hold = refl
may_become_refl PendingStatus.escalated_oncall = refl
may_become_refl PendingStatus.manually_closed = refl

pub may_become-pending : (a b : PendingStatus) → is_pending a ≡ true → may_become a b ≡ true
may_become-pending PendingStatus.pending b h = refl
may_become-pending _ b h = absurd (ground arith)

pub may_become-confirmed :
    (a : PendingStatus) → is_confirmed a ≡ true → may_become a PendingStatus.safeguard_hold ≡ true
may_become-confirmed PendingStatus.confirmed h = refl
may_become-confirmed PendingStatus.pending h = refl
may_become-confirmed _ h = absurd (ground arith)

-- The status moves, and all that `Follows` keeps is as it was.
pub Follows-moved :
    (p p' : PendingDecision)
    → p'.decision_id ≡ p.decision_id
    → p'.created_at ≡ p.created_at
    → p'.run_id ≡ p.run_id
    → p'.step_id ≡ p.step_id
    → p'.owner_key ≡ p.owner_key
    → may_become p.status p'.status ≡ true
    → (InBudget p → InBudget p')
    → Follows p p'
Follows-moved p p' a b c d e f g = record {
  id_same = a;
  created_same = b;
  run_kept = λ h. c;
  step_kept = λ h. d;
  owner_kept = λ h. e;
  moves = f;
  budget_kept = g;
}

pub Follows-refl : (p : PendingDecision) → Follows p p
Follows-refl p = Follows-moved p p refl refl refl refl refl (may_become_refl p.status) (λ b. b)

may_become_trans :
    (a b c : PendingStatus) → may_become a b ≡ true → may_become b c ≡ true → may_become a c ≡ true
may_become_trans PendingStatus.pending b c h k = refl
may_become_trans PendingStatus.confirmed PendingStatus.confirmed c h k = k
may_become_trans PendingStatus.confirmed PendingStatus.safeguard_hold PendingStatus.safeguard_hold h
      k =
    refl
may_become_trans PendingStatus.safeguard_hold PendingStatus.safeguard_hold c h k = k
may_become_trans PendingStatus.escalated_oncall PendingStatus.escalated_oncall c h k = k
may_become_trans PendingStatus.manually_closed PendingStatus.manually_closed c h k = k
may_become_trans _ _ _ h k = absurd (ground arith)

IsKept-trans : (a b c : String) → IsKept a b → IsKept b c → IsKept a c
IsKept-trans a b c f g h = ground (arith, f h, g)

pub Follows-trans : {p q r : PendingDecision} → Follows p q → Follows q r → Follows p r
Follows-trans {p} {q} {r} f g = record {
  id_same = g.id_same ∙ f.id_same;
  created_same = g.created_same ∙ f.created_same;
  run_kept = IsKept-trans p.run_id q.run_id r.run_id f.run_kept g.run_kept;
  step_kept = IsKept-trans p.step_id q.step_id r.step_id f.step_kept g.step_kept;
  owner_kept = IsKept-trans p.owner_key q.owner_key r.owner_key f.owner_kept g.owner_kept;
  moves = may_become_trans p.status q.status r.status f.moves g.moves;
  budget_kept = λ b. g.budget_kept (f.budget_kept b);
}

-- One pending decision is written, and all else stays.
pub PendingTransition-moved :
    (key : String) (s s' : Dict PendingDecision) (p p' : PendingDecision)
    → lookup key s ≡ some p
    → s' ≡ insert key p' s
    → Follows p p'
    → PendingTransition s s'
PendingTransition-moved key s s' p p' found written f = record {
  changes = λ id. elim (Bool-cases (key == id)) [
    | inl same ↦
        moved p p' (rw (sym ((eq_iff key id).0 same)) found)
          (rw written (ground (arith, lookup-insert key id p' s))) f
    | inr other ↦ kept (rw written (ground (arith, lookup-insert key id p' s)))
  ];
  unique = λ u. rw written (insert-Unique key p' s u);
}

-- A decision is opened under an id that was free.
pub PendingTransition-opened :
    (key : String) (s s' : Dict PendingDecision) (p : PendingDecision)
    → lookup key s ≡ none
    → s' ≡ insert key p s
    → Opens key p
    → PendingTransition s s'
PendingTransition-opened key s s' p free written o = record {
  changes = λ id. elim (Bool-cases (key == id)) [
    | inl same ↦
        let e = (eq_iff key id).0 same in
        opened p (rw (sym e) free) (rw written (ground (arith, lookup-insert key id p s)))
          (subst (λ i. Opens i p) e o)
    | inr other ↦ kept (rw written (ground (arith, lookup-insert key id p s)))
  ];
  unique = λ u. rw written (insert-Unique key p s u);
}

pub Carries-refl : (s : Dict PendingDecision) → Carries s s
Carries-refl s = record {
  carries = λ id p found. (p, found, Follows-refl p);
  none_new = λ id free. free;
  unique = λ u. u;
}

pub Carries-trans : {s t u : Dict PendingDecision} → Carries s t → Carries t u → Carries s u
Carries-trans a b = record {
  carries = λ id p found.
      let (q, there, f) = a.carries id p found in
      let (r, after, g) = b.carries id q there in (r, after, Follows-trans f g);
  none_new = λ id free. b.none_new id (a.none_new id free);
  unique = λ u. b.unique (a.unique u);
}

-- One pending decision is written.
pub Carries-moved :
    (key : String) (s : Dict PendingDecision) (p p' : PendingDecision)
    → lookup key s ≡ some p
    → Follows p p'
    → Carries s (insert key p' s)
Carries-moved key s p p' found f = record {
  carries = λ id q there. elim (Bool-cases (key == id)) [
    | inl same ↦
        let held : lookup id s ≡ some p = rw (sym ((eq_iff key id).0 same)) found in
        let q_is : p ≡ q = ground arith in
        (p', ground (arith, lookup-insert key id p' s), subst (λ x. Follows x p') q_is f)
    | inr other ↦ (q, ground (arith, lookup-insert key id p' s), Follows-refl q)
  ];
  none_new = λ id free. ground (
    arith,
    lookup-insert key id p' s,
    eq_iff key id,
    λ (e : key ≡ id). subst (λ i. lookup i s ≡ some p) e found,
  );
  unique = λ u. insert-Unique key p' s u;
}
