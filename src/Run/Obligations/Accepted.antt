-- ===== src/Run/Obligations/Accepted.antt =====
-- What an obligation asks for, read off `enforceDecisionObligationsLocked` of internal/run/kernel.go
-- without its control flow, and the loop against that reading.
use Prim.Native.String.{len}
use agent_infra_system.Base.{
  ℕ, suc, ◌≤◌, String, Bool, true, false, not, ◌&&◌, ◌≡◌, refl, sym, ap, ◌∙◌, ◌↔◌, ◌⊎◌, inl, inr,
  none, some, List, [], ◌∷◌, arith, All, ◌==◌, eq_iff, if◌then◌else◌, Bool-cases, Option-cases,
}
use agent_infra_system.Base.Int.{pos, leb_ℤ}
use agent_infra_system.Base.Dict.{Dict}
use agent_infra_system.Base.Text.{trim_space, to_lower, to_upper}
use agent_infra_system.Base.Time.{Time}
use agent_infra_system.Platform.{Platform}
use agent_infra_system.Run.Types.{Kernel, DecisionObligation, DecisionReference, AdvanceRunRequest}
use agent_infra_system.Run.Obligations.{
  Verdict, pass, judge, by_type, phase_mismatch, limit_param, unsupported, deny_execution,
  require_template, obligation_type, obligation_phase, run_phase, template_id,
  is_obligation_phase_allowed, enforce_decision_obligations,
}
use agent_infra_system.Run.Obligations.Limits.{
  parse_limit_value, check_limit, enforce_limit_param_obligation,
}
use agent_infra_system.Run.Obligations.Templates.{
  contains, extract_template_evidence_ids, receipt_ref_has_template_evidence,
}
use agent_infra_system.Run.Obligations.Enforce.{
  is_refusal, AllAccepted, enforce_decision_obligations_iff,
}

-- Before the context only its own obligations are in phase, before a tool also those of the context.
abbrev pub PhaseFits : String → String → Type 0
PhaseFits run_phase phase =
    ((run_phase ≡ "PRE_CONTEXT") × (phase ≡ "PRE_CONTEXT"))
    ⊎ ((run_phase ≡ "PRE_TOOL") × ((phase ≡ "PRE_CONTEXT") ⊎ (phase ≡ "PRE_TOOL")))

abbrev pub InPhase : DecisionReference → DecisionObligation → Type 0
InPhase ref ob =
    PhaseFits (to_upper (trim_space (run_phase ref)))
      (to_upper (trim_space (obligation_phase (run_phase ref) ob)))

-- The limit `n` on the target is kept; there are three targets.
abbrev pub IsWithin : AdvanceRunRequest → String → ℕ → Type 0
IsWithin req target n =
    ((target ≡ "max_input_hash_len") × (len req.input_hash ≤ n))
    ⊎ ((target ≡ "max_output_hash_len") × (len req.output_hash ≤ n))
    ⊎ ((target ≡ "max_step_seq_id") × (leb_ℤ req.incoming_step_seq_id (pos n) ≡ true))

pub record IsLimited (req : AdvanceRunRequest) (ob : DecisionObligation) : Type 0 where
  pub limit : ℕ
  pub parsed : parse_limit_value (trim_space ob.value) ≡ some limit
  pub within : IsWithin req (to_lower (trim_space ob.target)) limit

abbrev pub IsIn : String → List String → Type 0
IsIn s [] = ⊥
IsIn s (x ∷ xs) = (x ≡ s) ⊎ IsIn s xs

module _ ⦃platform : Platform⦄ (req : AdvanceRunRequest) where
  -- The receipt shows the template, or none is named.
  abbrev pub IsEvidenced : DecisionObligation → Type 0
  IsEvidenced ob =
      (template_id ob ≡ "")
      ⊎ (trim_space (template_id ob) ≡ "")
      ⊎ IsIn (trim_space (template_id ob)) (extract_template_evidence_ids req.execution_receipt_ref)

  -- What an obligation of a supported type asks for.
  pub data Meets (ob : DecisionObligation) : Type 0 where
    limited : obligation_type ob ≡ "limit_param" → IsLimited req ob → Meets ob
    tagged : obligation_type ob ≡ "attach_tag" → Meets ob
    evidenced : obligation_type ob ≡ "require_template" → IsEvidenced ob → Meets ob
    audited : obligation_type ob ≡ "emit_audit" → Meets ob

  -- The obligation names no type, or it is in phase and what it asks for holds.
  abbrev pub Accepts : DecisionReference → DecisionObligation → Type 0
  Accepts ref ob = (obligation_type ob ≡ "") ⊎ (InPhase ref ob × Meets ob)

phase_iff :
    (rp op : String)
    → (is_obligation_phase_allowed rp op ≡ true)
      ↔ PhaseFits (to_upper (trim_space rp)) (to_upper (trim_space op))
unfolding is_obligation_phase_allowed
phase_iff rp op =
    let r = to_upper (trim_space rp) in
    let o = to_upper (trim_space op) in
    (
      λ h. ground (
        arith,
        eq_iff r "PRE_CONTEXT",
        eq_iff r "PRE_TOOL",
        eq_iff o "PRE_CONTEXT",
        eq_iff o "PRE_TOOL",
      ),
      λ f. elim f [
        | inl (x, y) ↦ rw (x, y) refl
        | inr (x, inl y) ↦ rw (x, y) refl
        | inr (x, inr y) ↦ rw (x, y) refl
      ],
    )

check_limit_iff :
    (req : AdvanceRunRequest) (target : String) (n : ℕ)
    → (check_limit req target n ≡ none) ↔ IsWithin req target n
unfolding check_limit
check_limit_iff req target n = (
  λ h. ground (
    arith,
    eq_iff target "max_input_hash_len",
    eq_iff target "max_output_hash_len",
    eq_iff target "max_step_seq_id",
  ),
  λ w. elim w [
    | inl (e, b) ↦ rw e (ground arith)
    | inr (inl (e, b)) ↦ rw e (ground arith)
    | inr (inr (e, b)) ↦ rw e (ground arith)
  ],
)

limit_iff :
    (req : AdvanceRunRequest) (ob : DecisionObligation)
    → (enforce_limit_param_obligation req ob ≡ none) ↔ IsLimited req ob
unfolding enforce_limit_param_obligation
limit_iff req ob =
    let within = check_limit_iff req (to_lower (trim_space ob.target)) in
    (
      λ h. elim (Option-cases (parse_limit_value (trim_space ob.value))) [
        | inl failed ↦ absurd (ground arith)
        | inr (n, parsed) ↦ record {
          limit = n;
          parsed = parsed;
          within = (within n).0 (ground arith);
        }
      ],
      λ l. let parsed = l.parsed in let kept = (within l.limit).1 l.within in ground arith,
    )

contains_iff : (l : List String) (s : String) → (contains l s ≡ true) ↔ IsIn s l
unfolding contains
contains_iff [] s = (λ h. absurd (ground arith), λ f. absurd f)
contains_iff (x ∷ l) s = ground (arith, eq_iff x s, contains_iff l s)

refusal_if : (b : Bool) (v : Verdict) → is_refusal v ≡ true → is_refusal (if b then v else pass) ≡ b
refusal_if true v h = h
refusal_if false v h = refl

module _ ⦃platform : Platform⦄ (req : AdvanceRunRequest) (ref : DecisionReference) where
  evidence_iff :
      (ob : DecisionObligation)
      → ((not (template_id ob == "")
            && not (receipt_ref_has_template_evidence req.execution_receipt_ref (template_id ob)))
          ≡ false)
        ↔ IsEvidenced req ob
  unfolding receipt_ref_has_template_evidence
  evidence_iff ob =
      let id = template_id ob in
      ground (
        arith,
        eq_iff id "",
        eq_iff (trim_space id) "",
        contains_iff (extract_template_evidence_ids req.execution_receipt_ref) (trim_space id),
      )

  require_iff :
      (ob : DecisionObligation) (idx : ℕ)
      → (is_refusal (require_template req ref ob idx) ≡ false) ↔ IsEvidenced req ob
  unfolding require_template template_id
  require_iff ob idx =
      let shown = evidence_iff ob in
      let is =
        refusal_if
          (not (template_id ob == "")
            && not (receipt_ref_has_template_evidence req.execution_receipt_ref (template_id ob)))
          _ refl in
      (λ h. shown.0 (sym is ∙ h), λ e. is ∙ shown.1 e)

  module _ (idx : ℕ) (ob : DecisionObligation) where
    by_type_requires :
        obligation_type ob ≡ "require_template"
        → by_type req ref idx ob ≡ require_template req ref ob idx
    unfolding by_type
    by_type_requires e = rw e refl

    by_type-Meets : is_refusal (by_type req ref idx ob) ≡ false → Meets req ob
    unfolding by_type limit_param unsupported deny_execution
    by_type-Meets h =
        let t = obligation_type ob in
        elim (Bool-cases (t == "deny_execution")) [
          | inl denied ↦ absurd (ground arith)
          | inr n1 ↦ elim (Bool-cases (t == "limit_param")) [
            | inl e ↦ limited ((eq_iff t "limit_param").0 e) ((limit_iff req ob).0 (ground arith))
            | inr n2 ↦ elim (Bool-cases (t == "attach_tag")) [
              | inl e ↦ tagged ((eq_iff t "attach_tag").0 e)
              | inr n3 ↦ elim (Bool-cases (t == "require_template")) [
                | inl e ↦
                    let named = (eq_iff t "require_template").0 e in
                    evidenced named
                      ((require_iff ob idx).0 (sym (ap is_refusal (by_type_requires named)) ∙ h))
                | inr n4 ↦ elim (Bool-cases (t == "emit_audit")) [
                  | inl e ↦ audited ((eq_iff t "emit_audit").0 e)
                  | inr n5 ↦ absurd (ground arith)
                ]
              ]
            ]
          ]
        ]

    Meets-by_type : Meets req ob → is_refusal (by_type req ref idx ob) ≡ false
    unfolding by_type limit_param
    Meets-by_type (limited e l) = let none_over = (limit_iff req ob).1 l in rw e (ground arith)
    Meets-by_type (tagged e) = rw e refl
    Meets-by_type (evidenced e s) = let shown = (require_iff ob idx).1 s in rw e shown
    Meets-by_type (audited e) = rw e refl

    judge_iff : (is_refusal (judge req ref idx ob) ≡ false) ↔ Accepts req ref ob
    unfolding judge phase_mismatch
    judge_iff =
        let t = obligation_type ob in
        let phase = phase_iff (run_phase ref) (obligation_phase (run_phase ref) ob) in
        (
          λ h. elim (Bool-cases (t == "")) [
            | inl blank ↦ inl ((eq_iff t "").0 blank)
            | inr typed ↦ inr (phase.0 (ground arith), by_type-Meets (ground arith))
          ],
          λ a. elim a [
            | inl blank ↦ rw blank refl
            | inr (in_phase, meets) ↦
                let allowed = phase.1 in_phase in let met = Meets-by_type meets in ground arith
          ],
        )

  accepted_iff :
      (idx : ℕ) (obs : List DecisionObligation)
      → AllAccepted req ref idx obs ↔ All (Accepts req ref) obs
  accepted_iff idx [] = (λ _. tt, λ _. tt)
  accepted_iff idx (ob ∷ obs) =
      let here = judge_iff idx ob in
      let later = accepted_iff (suc idx) obs in
      (λ h. (here.0 h.0, later.0 h.1), λ a. (here.1 a.0, later.1 a.1))

-- The obligations of a decision let an advance go on exactly when each of them names no type, or is in
-- phase and is met: a limit on one of the three targets is kept, a template is shown by the receipt,
-- and tags and audits are always met. Any other type, `deny_execution` among them, is refused.
pub obligations_met :
    ⦃platform : Platform⦄ (run_id : String) (req : AdvanceRunRequest) (ref : DecisionReference)
    (now : Time) (k : Kernel) (tags : Dict String)
    → ((enforce_decision_obligations run_id req ref now k tags).2 ≡ none)
      ↔ All (Accepts req ref) ref.obligations
obligations_met run_id req ref now k tags =
    let all = enforce_decision_obligations_iff run_id req ref now k tags in
    let each = accepted_iff req ref 0 ref.obligations in
    (λ h. each.0 (all.0 h), λ a. all.1 (each.1 a))
