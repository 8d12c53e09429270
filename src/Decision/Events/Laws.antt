-- ===== src/Decision/Events/Laws.antt =====
-- The outbox of the decision kernel: its bound, its last event and the event time it has seen.
use agent_infra_system.Base.{
  ℕ, ◌+◌, ◌-◌, ◌≤◌, String, true, ◌≡◌, refl, ◌∙◌, List, [], ◌∷◌, ◌++◌, arith, length, drop,
  length-drop, length-append, drop-drop, drop-snoc, if◌then◌else◌, inl, inr, Bool-cases,
}
use agent_infra_system.Base.Int.{u64, pos, leb_ℤ, ltb_ℤ}
use agent_infra_system.Base.Time.{Time, Duration, sub}
use agent_infra_system.Platform.{Platform, Value}
use agent_infra_system.Decision.Types.{Service, Event}
use agent_infra_system.Decision.Events.{
  decision_event, count_outdated, excess, trimmed, trim_outbox_locked, emit_event,
}

-- An event that is no older than the retention is not counted, nor is any after it.
count_outdated-snoc :
    (now : Time) (retention : Duration) (l : List Event) (e : Event)
    → leb_ℤ (sub now e.event_ts) retention ≡ true
    → count_outdated now retention (l ++ e ∷ []) ≤ length l
unfolding count_outdated
count_outdated-snoc now retention [] e h = ground arith
count_outdated-snoc now retention (x ∷ l) e h =
    ground (arith, count_outdated-snoc now retention l e h)

-- Trimming drops a number of events at the front, down to the maximum.
trimmed_drops :
    (now : Time) (retention : Duration) (max : ℕ) (l : List Event)
    → let (kept, count) = trimmed now retention (pos max) l in
      (kept ≡ drop count l) × (length kept ≤ max)
unfolding trimmed excess
trimmed_drops now retention max l =
    let cut = if ltb_ℤ (pos 0) retention then count_outdated now retention l else 0 in
    let kept = drop cut l in
    (drop-drop cut (length kept - max) l, omega (arith, length-drop (length kept - max) kept))

-- With a positive maximum, trimming keeps a last event of the present.
trimmed_keeps :
    (now : Time) (retention : Duration) (max : ℕ) (l : List Event) (e : Event)
    → 1 ≤ max
    → e.event_ts ≡ now
    → (trimmed now retention (pos max) (l ++ e ∷ [])).1 ≤ length l
unfolding trimmed excess
trimmed_keeps now retention max l e h same = elim (Bool-cases (ltb_ℤ (pos 0) retention)) [
  | inl on ↦
      let young : leb_ℤ (sub now e.event_ts) retention ≡ true = rw same (ground arith) in
      rw on (
        omega (
          arith,
          count_outdated-snoc now retention l e young,
          length-drop (count_outdated now retention (l ++ e ∷ [])) (l ++ e ∷ []),
          length-append l (e ∷ []),
        ))
  | inr off ↦ rw off (omega (arith, length-append l (e ∷ [])))
]

-- With a positive maximum, an emitted event stands last in the outbox, before it stand the old events
-- but for some at the front, the outbox is no longer than the maximum, and the largest event time seen
-- is neither before the one seen so far nor before that of the event.
pub emit_event_outbox :
    ⦃platform : Platform⦄ (event decision_id run_id step_id : String)
    (payload : List (String × Value)) (at : Time) (s : Service) (max : ℕ)
    → s.cfg.outbox_max_events ≡ pos max
    → 1 ≤ max
    → let s' = emit_event event decision_id run_id step_id payload at s in
      let e = decision_event s'.event_seq event decision_id run_id step_id payload at in
      (length s'.outbox ≤ max)
      × ((lost : ℕ) × (s'.outbox ≡ drop lost s.outbox ++ e ∷ []))
      × (s.max_observed_event_ts ≤ s'.max_observed_event_ts)
      × (at ≤ s'.max_observed_event_ts)
unfolding emit_event trim_outbox_locked decision_event
emit_event_outbox event decision_id run_id step_id payload at s max bound h =
    let e = decision_event (u64 (s.event_seq + 1)) event decision_id run_id step_id payload at in
    let dropped = trimmed_drops at s.cfg.outbox_retention max (s.outbox ++ e ∷ []) in
    let kept = trimmed_keeps at s.cfg.outbox_retention max s.outbox e h refl in
    rw bound (
      dropped.1,
      (
        (trimmed at s.cfg.outbox_retention (pos max) (s.outbox ++ e ∷ [])).1,
        dropped.0 ∙ drop-snoc _ s.outbox e kept,
      ),
      ground arith,
      ground arith,
    )
