-- ===== src/Decision/Refines/Fate.antt =====
-- What becomes of a pending decision along any interleaving of locked regions, and what holds of all
-- of them in every state that the kernel reaches.
use agent_infra_system.Base.{String, ◌≡◌, ◌∙◌, sym, ◌⊎◌, inl, inr, none, some, [], arith}
use agent_infra_system.Base.Dict.{Dict, lookup}
use agent_infra_system.Base.Dict.Unique.{Unique}
use agent_infra_system.Platform.{Platform}
use agent_infra_system.Decision.Types.{Service, PendingDecision}
use agent_infra_system.Decision.Spec.{
  PendingChange, kept, moved, opened, removed, Follows, Follows-refl, Follows-trans, InBudget,
}
use agent_infra_system.Decision.Refines.Regions.{Trace, start, next, Region-PendingTransition}

-- The decision that follows `p` under `id`.
pub record Successor (id : String) (p : PendingDecision) (m : Dict PendingDecision) : Type 0 where
  pub after : PendingDecision
  pub stored : lookup id m ≡ some after
  pub follows : Follows p after

Successor-step :
    {id : String} {m m' : Dict PendingDecision} {p : PendingDecision}
    → PendingChange id m m'
    → Successor id p m
    → (lookup id m' ≡ none) ⊎ Successor id p m'
Successor-step (kept same) r =
    inr (record { after = r.after; stored = same ∙ r.stored; follows = r.follows })
Successor-step {p} (moved q q' found written f) r =
    let q_is : q ≡ r.after = let e = r.stored in ground arith in
    inr
      (record { after = q'; stored = written; follows = Follows-trans r.follows (rw (sym q_is) f) })
Successor-step (opened q free written o) r = let e = r.stored in absurd (ground arith)
Successor-step (removed q found settled gone) r = inl gone

module _ ⦃platform : Platform⦄ where
  -- At some point of the trace after its start, no decision is pending under `id`.
  abbrev pub Vanishes : {s s' : Service} → String → Trace s s' → Type 0
  Vanishes id start = ⊥
  Vanishes {s} {s'} id (next t r) = (lookup id s'.pending ≡ none) ⊎ Vanishes id t

  Trace-Unique : {s s' : Service} → Trace s s' → Unique s.pending → Unique s'.pending
  Trace-Unique start u = u
  Trace-Unique (next t r) u =
      let before = Trace-Unique t u in (Region-PendingTransition before r).unique before

  -- Along any interleaving of locked regions, a pending decision is deleted at some point, or its
  -- successor is stored in the end: with its id, creation time and bindings, and a status that the
  -- status machine leads to from the one before.
  pub Trace-Successor :
      {s s' : Service} (id : String) (p : PendingDecision)
      → Unique s.pending
      → lookup id s.pending ≡ some p
      → (t : Trace s s') → Vanishes id t ⊎ Successor id p s'.pending
  Trace-Successor id p u found start =
      inr (record { after = p; stored = found; follows = Follows-refl p })
  Trace-Successor id p u found (next t r) = elim (Trace-Successor id p u found t) [
    | inl gone ↦ inl (inr gone)
    | inr q ↦ elim (Successor-step ((Region-PendingTransition (Trace-Unique t u) r).changes id) q) [
      | inl gone ↦ inl (inl gone)
      | inr after ↦ inr after
    ]
  ]

-- Each pending decision stands once, under its own id, and has been repaired twice at most while it
-- is pending.
pub record IsSound (m : Dict PendingDecision) : Type 0 where
  pub unique : Unique m
  pub keyed : (id : String) (p : PendingDecision) → lookup id m ≡ some p → p.decision_id ≡ id
  pub in_budget : (id : String) (p : PendingDecision) → lookup id m ≡ some p → InBudget p

Change-keyed :
    {id : String} {m m' : Dict PendingDecision}
    → IsSound m
    → PendingChange id m m'
    → (p : PendingDecision) → lookup id m' ≡ some p
    → (p.decision_id ≡ id) × InBudget p
Change-keyed {id} w (kept same) p e = (w.keyed id p (sym same ∙ e), w.in_budget id p (sym same ∙ e))
Change-keyed {id} w (moved q q' found written f) p e =
    let q_is : q' ≡ p = ground arith in
    rw (sym q_is) (f.id_same ∙ w.keyed id q found, f.budget_kept (w.in_budget id q found))
Change-keyed {id} w (opened q free written o) p e =
    let q_is : q ≡ p = ground arith in
    let n = o.unrepaired in rw (sym q_is) (o.under_id, λ h. omega arith)
Change-keyed w (removed q found settled gone) p e = absurd (ground arith)

module _ ⦃platform : Platform⦄ where
  -- From a kernel with no pending decision, every interleaving of locked regions leads to one whose
  -- pending decisions stand once, each under its own id, repaired twice at most while it is pending.
  pub Trace-IsSound : {s s' : Service} → s.pending ≡ [] → Trace s s' → IsSound s'.pending
  unfolding lookup
  Trace-IsSound e start = record {
    unique = rw e tt;
    keyed = rw e (λ id p h. absurd (ground arith));
    in_budget = rw e (λ id p h. absurd (ground arith));
  }
  Trace-IsSound e (next t r) =
      let w = Trace-IsSound e t in
      let step = Region-PendingTransition w.unique r in
      record {
        unique = step.unique w.unique;
        keyed = λ id p h. (Change-keyed w (step.changes id) p h).0;
        in_budget = λ id p h. (Change-keyed w (step.changes id) p h).1;
      }
