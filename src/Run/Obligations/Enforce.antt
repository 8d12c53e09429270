-- ===== src/Run/Obligations/Enforce.antt =====
-- The loop over the obligations goes on exactly when it refuses none of them, wherever it stands.
use agent_infra_system.Base.{
  ℕ, suc, String, Bool, true, false, ◌≡◌, refl, ◌≢◌, ◌↔◌, subst, none, List, [], ◌∷◌, ◌++◌, arith,
}
use agent_infra_system.Base.Dict.{Dict}
use agent_infra_system.Base.Time.{Time}
use agent_infra_system.Platform.{Platform}
use agent_infra_system.Run.Types.{Kernel, DecisionObligation, DecisionReference, AdvanceRunRequest}
use agent_infra_system.Run.Frames.{SameState, SameState-refl, emit-SameState}
use agent_infra_system.Run.Obligations.{
  Verdict, pass, tag, audit, refuse, judge, apply_verdict, enforce_from,
  enforce_decision_obligations, obligation_type,
}

abbrev pub is_refusal : Verdict → Bool
is_refusal (refuse event payload e) = true
is_refusal _ = false

module _ ⦃platform : Platform⦄ (req : AdvanceRunRequest) (ref : DecisionReference) where
  -- No obligation of the list, counted from `idx`, is refused.
  abbrev pub AllAccepted : ℕ → List DecisionObligation → Type 0
  AllAccepted idx [] = Unit
  AllAccepted idx (ob ∷ obs) =
      (is_refusal (judge req ref idx ob) ≡ false) × AllAccepted (suc idx) obs

  module _ (run_id : String) (now : Time) where
    apply_verdict-SameState :
        (v : Verdict) (k : Kernel) (tags : Dict String)
        → SameState k (apply_verdict run_id req.step_id now v k tags).0
    unfolding apply_verdict
    apply_verdict-SameState pass k tags = SameState-refl k
    apply_verdict-SameState (tag key value payload) k tags =
        emit-SameState _ run_id req.step_id _ now k
    apply_verdict-SameState (audit payload) k tags = emit-SameState _ run_id req.step_id _ now k
    apply_verdict-SameState (refuse event payload e) k tags =
        emit-SameState _ run_id req.step_id _ now k

    enforce_from-SameState :
        (idx : ℕ) (obs : List DecisionObligation) (k : Kernel) (tags : Dict String)
        → SameState k (enforce_from run_id req ref now idx obs k tags).0
    unfolding enforce_from
    enforce_from-SameState idx [] k tags = SameState-refl k
    enforce_from-SameState idx (ob ∷ obs) k tags =
        let (k', tags', e) = apply_verdict run_id req.step_id now (judge req ref idx ob) k tags in
        ground (
          arith,
          apply_verdict-SameState (judge req ref idx ob) k tags,
          enforce_from-SameState (suc idx) obs k' tags',
        )

    apply_verdict_refusal :
        (v : Verdict) (k : Kernel) (tags : Dict String)
        → ((apply_verdict run_id req.step_id now v k tags).2 ≡ none) ↔ (is_refusal v ≡ false)
    unfolding apply_verdict
    apply_verdict_refusal v k tags = ground arith

    enforce_from_iff :
        (idx : ℕ) (obs : List DecisionObligation) (k : Kernel) (tags : Dict String)
        → ((enforce_from run_id req ref now idx obs k tags).2 ≡ none) ↔ AllAccepted idx obs
    unfolding enforce_from
    enforce_from_iff idx [] k tags = (λ _. tt, λ _. refl)
    enforce_from_iff idx (ob ∷ obs) k tags =
        let (k', tags', e) = apply_verdict run_id req.step_id now (judge req ref idx ob) k tags in
        ground (
          arith,
          apply_verdict_refusal (judge req ref idx ob) k tags,
          enforce_from_iff (suc idx) obs k' tags',
        )

module _ ⦃platform : Platform⦄ (run_id : String) (req : AdvanceRunRequest) (ref : DecisionReference)
    (now : Time) (k : Kernel) (tags : Dict String) where
  -- The obligations let an advance go on exactly when none of them, judged by itself, is refused.
  pub enforce_decision_obligations_iff :
      ((enforce_decision_obligations run_id req ref now k tags).2 ≡ none)
      ↔ AllAccepted req ref 0 ref.obligations
  unfolding enforce_decision_obligations
  enforce_decision_obligations_iff = enforce_from_iff req ref run_id now 0 ref.obligations k tags

  pub enforce_decision_obligations-SameState :
      SameState k (enforce_decision_obligations run_id req ref now k tags).0
  unfolding enforce_decision_obligations
  enforce_decision_obligations-SameState =
      enforce_from-SameState req ref run_id now 0 ref.obligations k tags

AllAccepted-at :
    ⦃platform : Platform⦄ (req : AdvanceRunRequest) (ref : DecisionReference) (idx : ℕ)
    (before after : List DecisionObligation) (ob : DecisionObligation)
    → AllAccepted req ref idx (before ++ ob ∷ after)
    → (i : ℕ) × (is_refusal (judge req ref i ob) ≡ false)
AllAccepted-at req ref idx [] after ob h = (idx, h.0)
AllAccepted-at req ref idx (x ∷ before) after ob h =
    AllAccepted-at req ref (suc idx) before after ob h.1

judge_deny :
    ⦃platform : Platform⦄ (req : AdvanceRunRequest) (ref : DecisionReference) (idx : ℕ)
    (ob : DecisionObligation)
    → obligation_type ob ≡ "deny_execution"
    → is_refusal (judge req ref idx ob) ≡ true
unfolding judge
judge_deny req ref idx ob e = rw e (ground arith)

-- A `deny_execution` obligation stops the advance wherever it stands in the list, in any phase.
pub deny_execution_blocks :
    ⦃platform : Platform⦄ (run_id : String) (req : AdvanceRunRequest) (ref : DecisionReference)
    (now : Time) (k : Kernel) (tags : Dict String) (before after : List DecisionObligation)
    (ob : DecisionObligation)
    → ref.obligations ≡ before ++ ob ∷ after
    → obligation_type ob ≡ "deny_execution"
    → (enforce_decision_obligations run_id req ref now k tags).2 ≢ none
deny_execution_blocks run_id req ref now k tags before after ob e deny accepted =
    let all = (enforce_decision_obligations_iff run_id req ref now k tags).0 accepted in
    let (i, accepted_at) =
      AllAccepted-at req ref 0 before after ob (subst (AllAccepted req ref 0) e all) in
    cc (judge_deny req ref i ob deny)
