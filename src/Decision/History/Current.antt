-- ===== src/Decision/History/Current.antt =====
-- The version that a decision is recorded under reads back as it was recorded.
use agent_infra_system.Base.{
  ℕ, zero, suc, ◌-◌, ◌≤◌, String, false, ◌≡◌, refl, ◌∙◌, ap, sym, ◌⊎◌, Option, none, some, List, [],
  ◌∷◌, ◌++◌, arith, length, drop, is_empty, All, if◌then◌else◌, inl, inr, Bool-cases, length-append,
  drop-snoc, if_induction, option_induction, subst,
}
use agent_infra_system.Base.Int.{
  ℤ, pos, leb_ℤ, eq_ℤ, int64_succ, ◌<ℤ◌, max_int64, int64_succ-lt, eq_ℤ_refl,
}
use agent_infra_system.Base.Dict.{Dict, lookup}
use agent_infra_system.Run.Frames.{lookup-insert_self}
use agent_infra_system.Decision.Types.{Service, StoredDecision, Field}
use agent_infra_system.Decision.History.{
  cap_decision_history, replace_last, put_decision, history_of, is_same_decision,
  record_decision_locked, get_decision, find_version, get_decision_by_version,
}

-- Every version in the list is below `v`.
abbrev pub IsBelow : ℤ → List StoredDecision → Type 0
IsBelow v = All (λ d. d.version <ℤ v)

-- The decision is stored, its history ends in it, and the versions before it are smaller.
pub record IsCurrent (id : String) (d : StoredDecision) (s : Service) : Type 0 where
  pub stored : lookup id s.decisions ≡ some d
  pub older : List StoredDecision
  pub history_is : lookup id s.decision_history ≡ some (older ++ d ∷ [])
  pub below : IsBelow d.version older

IsBelow-drop : (n : ℕ) (v : ℤ) (l : List StoredDecision) → IsBelow v l → IsBelow v (drop n l)
IsBelow-drop zero v l h = h
IsBelow-drop (suc n) v [] h = tt
IsBelow-drop (suc n) v (d ∷ l) h = IsBelow-drop n v l h.1

IsBelow-snoc :
    (v w : ℤ) (l : List StoredDecision) (d : StoredDecision)
    → IsBelow v l
    → v <ℤ w
    → d.version <ℤ w
    → IsBelow w (l ++ d ∷ [])
IsBelow-snoc v w [] d h lt e = (e, tt)
IsBelow-snoc v w (x ∷ l) d h lt e = (omega (arith, h.0), IsBelow-snoc v w l d h.1 lt e)

replace_last-snoc :
    (next d : StoredDecision) (l : List StoredDecision)
    → replace_last next (l ++ d ∷ []) ≡ l ++ next ∷ []
unfolding replace_last
replace_last-snoc next d [] = refl
replace_last-snoc next d (x ∷ []) = refl
replace_last-snoc next d (x ∷ y ∷ l) = ap (λ t. x ∷ t) (replace_last-snoc next d (y ∷ l))

-- With a positive limit, the last entry stays last.
cap-snoc :
    (max : ℕ) (l : List StoredDecision) (d : StoredDecision)
    → 1 ≤ max
    → (n : ℕ) × (cap_decision_history (pos max) (l ++ d ∷ []) ≡ drop n l ++ d ∷ [])
unfolding cap_decision_history
cap-snoc max l d h = elim (Bool-cases (leb_ℤ (pos (length (l ++ d ∷ []))) (pos max))) [
  | inl short ↦ (0, ground arith)
  | inr long ↦
      let n = length (l ++ d ∷ []) - max in
      (n, ground (arith, drop-snoc n l d (omega (arith, length-append l (d ∷ [])))))
]

-- A decision that is put behind older versions is current.
put_decision-IsCurrent :
    (id : String) (d : StoredDecision) (older : List StoredDecision) (s : Service) (max : ℕ)
    → s.cfg.decision_max_history_versions ≡ pos max
    → 1 ≤ max
    → IsBelow d.version older
    → IsCurrent id d (put_decision id d (older ++ d ∷ []) s)
unfolding put_decision
put_decision-IsCurrent id d older s max limit h below =
    let (n, capped) = cap-snoc max older d h in
    record {
      stored = lookup-insert_self id d s.decisions;
      older = drop n older;
      history_is = lookup-insert_self id _ s.decision_history ∙ ap (λ l. some l) (rw limit capped);
      below = IsBelow-drop n d.version older below;
    }

find_version-snoc :
    (older : List StoredDecision) (d : StoredDecision)
    → IsBelow d.version older
    → find_version d.version (older ++ d ∷ []) ≡ some d
unfolding find_version
find_version-snoc [] d h = ground (arith, eq_ℤ_refl d.version)
find_version-snoc (x ∷ older) d h =
    let other : eq_ℤ x.version d.version ≡ false = ground (arith, h.0) in
    ground (arith, find_version-snoc older d h.1)

history_of-current :
    (id : String) (d : StoredDecision) (s : Service) (c : IsCurrent id d s)
    → history_of id s ≡ c.older ++ d ∷ []
unfolding history_of
history_of-current id d s c = let found = c.history_is in ground arith

-- The version of the current decision reads back as that decision.
pub current_reads_back :
    (id : String) (d : StoredDecision) (s : Service)
    → IsCurrent id d s
    → get_decision_by_version id d.version s ≡ some d
unfolding get_decision_by_version
current_reads_back id d s c =
    ap (λ l. find_version d.version l) (history_of-current id d s c)
    ∙ find_version-snoc c.older d c.below

-- The decision has no version yet, or a current one whose version can count up.
abbrev pub CanRecord : String → Service → Type 0
CanRecord id s =
    (lookup id s.decisions ≡ none)
    ⊎ ((d : StoredDecision) × IsCurrent id d s × (d.version <ℤ pos max_int64))

nonempty : (l : List StoredDecision) (d : StoredDecision) → is_empty (l ++ d ∷ []) ≡ false
nonempty [] d = refl
nonempty (x ∷ l) d = refl

module _ (marshal_fields : Dict Field → Option String) (id : String) (next : StoredDecision)
    (s : Service) (max : ℕ) (limit : s.cfg.decision_max_history_versions ≡ pos max)
    (h : 1 ≤ max) where
  -- The version that was recorded last, as what was handed in under its version.
  pub record Recorded (s' : Service) : Type 0 where
    pub version : ℤ
    pub current : IsCurrent id (record next { version = version }) s'

  record_same :
      (d : StoredDecision)
      → (c : IsCurrent id d s)
      → Recorded (
          put_decision id
            (record next { version = d.version })
            (replace_last (record next { version = d.version }) (history_of id s))
            s)
  record_same d c =
      let again = record next { version = d.version } in
      record {
        version = d.version;
        current =
            rw (history_of-current id d s c, replace_last-snoc again d c.older)
              (put_decision-IsCurrent id again c.older s max limit h c.below);
      }

  record_newer :
      (d : StoredDecision)
      → IsCurrent id d s
      → d.version <ℤ pos max_int64
      → let newer = record next { version = int64_succ d.version } in
        let history = history_of id s in
        Recorded
          (put_decision id newer ((if is_empty history then d ∷ [] else history) ++ newer ∷ []) s)
  record_newer d c room =
      let newer = record next { version = int64_succ d.version } in
      let grows = int64_succ-lt d.version room in
      let below = IsBelow-snoc d.version newer.version c.older d c.below grows grows in
      record {
        version = newer.version;
        current =
            rw (history_of-current id d s c, nonempty c.older d)
              (put_decision-IsCurrent id newer (c.older ++ d ∷ []) s max limit h below);
      }

  record_found :
      (d : StoredDecision)
      → IsCurrent id d s
      → d.version <ℤ pos max_int64
      → let newer = record next { version = int64_succ d.version } in
        let history = history_of id s in
        Recorded (
          if is_same_decision marshal_fields d next
          then put_decision id
              (record next { version = d.version })
              (replace_last (record next { version = d.version }) history)
              s
          else put_decision id newer
              ((if is_empty history then d ∷ [] else history) ++ newer ∷ [])
              s)
  record_found d c room =
      if_induction Recorded (is_same_decision marshal_fields d next) (λ same. record_same d c)
        (λ other. record_newer d c room)

  record-Recorded : CanRecord id s → Recorded (record_decision_locked marshal_fields id next s)
  unfolding record_decision_locked
  record-Recorded ready =
      option_induction Recorded (lookup id s.decisions)
        (λ free. record {
          version = pos 1;
          current = put_decision-IsCurrent id (record next { version = pos 1 }) [] s max limit h tt;
        })
        (λ d found. elim ready [
          | inl free ↦ absurd (ground arith)
          | inr (e, c, room) ↦
              let stored = c.stored in
              let same : e ≡ d = ground arith in
              record_found d (subst (λ x. IsCurrent id x s) same c) (rw (sym same) room)
        ])

  -- With a positive limit on the history, a decision that is recorded anew, or over a current one whose
  -- version can still count up, is the one that is stored, and its version reads back as what was
  -- handed in, under that version.
  pub record_reads_back :
      CanRecord id s
      → let s' = record_decision_locked marshal_fields id next s in
        (version : ℤ) × (get_decision id s' ≡ some (record next { version = version }))
        × (get_decision_by_version id version s' ≡ some (record next { version = version }))
  unfolding get_decision
  record_reads_back ready =
      let r = record-Recorded ready in
      (
        r.version,
        r.current.stored,
        current_reads_back id (record next { version = r.version })
            (record_decision_locked marshal_fields id next s) r.current,
      )
