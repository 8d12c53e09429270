-- ===== src/Run/Outbox/Laws.antt =====
-- The outbox: its bound, what trimming keeps, and what draining hands out.
use Prim.Native.Nat.{min}
use agent_infra_system.Base.{
  ℕ, ◌+◌, ◌-◌, ◌≤◌, String, true, ◌≡◌, refl, ◌∙◌, List, [], ◌∷◌, ◌++◌, arith, length, drop,
  length-drop, length-take, length-append, take-append-drop, drop-drop, drop-snoc, ◌||◌, is_empty,
  if◌then◌else◌, inl, inr, Bool-cases,
}
use agent_infra_system.Base.Int.{ℤ, u64, pos, negsuc, pos_part, leb_ℤ, ltb_ℤ}
use agent_infra_system.Base.Time.{Time, Duration, sub}
use agent_infra_system.Platform.{Platform, Value}
use agent_infra_system.Run.Types.{Kernel, KernelEvent}
use agent_infra_system.Run.Outbox.{
  event_of, count_expired, overflow, trim_outbox, cleanup_outbox, emit, drain_outbox,
}

-- An event that is no older than the retention is not counted, nor is any after it.
count_expired-snoc :
    (now : Time) (retention : Duration) (l : List KernelEvent) (e : KernelEvent)
    → leb_ℤ (sub now e.event_ts) retention ≡ true
    → count_expired now retention (l ++ e ∷ []) ≤ length l
unfolding count_expired
count_expired-snoc now retention [] e h = ground arith
count_expired-snoc now retention (x ∷ l) e h =
    ground (arith, count_expired-snoc now retention l e h)

-- Trimming drops a number of events at the front, down to the maximum.
trim_outbox_drops :
    (now : Time) (retention : Duration) (max : ℕ) (l : List KernelEvent)
    → let (kept, trimmed) = trim_outbox now retention (pos max) l in
      (kept ≡ drop trimmed l) × (length kept ≤ max)
unfolding trim_outbox overflow
trim_outbox_drops now retention max l =
    let cut = if ltb_ℤ (pos 0) retention then count_expired now retention l else 0 in
    let kept = drop cut l in
    (drop-drop cut (length kept - max) l, omega (arith, length-drop (length kept - max) kept))

-- With a positive maximum, trimming keeps a last event of the present.
trim_outbox_keeps :
    (now : Time) (retention : Duration) (max : ℕ) (l : List KernelEvent) (e : KernelEvent)
    → 1 ≤ max
    → e.event_ts ≡ now
    → (trim_outbox now retention (pos max) (l ++ e ∷ [])).1 ≤ length l
unfolding trim_outbox overflow
trim_outbox_keeps now retention max l e h same = elim (Bool-cases (ltb_ℤ (pos 0) retention)) [
  | inl on ↦
      let young : leb_ℤ (sub now e.event_ts) retention ≡ true = rw same (ground arith) in
      rw on (
        omega (
          arith,
          count_expired-snoc now retention l e young,
          length-drop (count_expired now retention (l ++ e ∷ [])) (l ++ e ∷ []),
          length-append l (e ∷ []),
        ))
  | inr off ↦ rw off (omega (arith, length-append l (e ∷ [])))
]

-- With a positive maximum, an emitted event stands last in the outbox, before it stand the old events
-- but for some at the front, and the outbox is no longer than the maximum.
pub emit_outbox :
    ⦃platform : Platform⦄ (event run_id step_id : String) (payload : List (String × Value))
    (now : Time) (k : Kernel) (max : ℕ)
    → k.cfg.outbox_max_events ≡ pos max
    → 1 ≤ max
    → let k' = emit event run_id step_id payload now k in
      (length k'.outbox ≤ max)
      × ((lost : ℕ) × (k'.outbox
            ≡ drop lost k.outbox ++ event_of k'.event_seq event run_id step_id payload now ∷ []))
unfolding emit cleanup_outbox event_of
emit_outbox event run_id step_id payload now k max bound h =
    let e = event_of (u64 (k.event_seq + 1)) event run_id step_id payload now in
    let dropped = trim_outbox_drops now k.cfg.outbox_retention max (k.outbox ++ e ∷ []) in
    let kept = trim_outbox_keeps now k.cfg.outbox_retention max k.outbox e h refl in
    rw bound (
      dropped.1,
      (
        (trim_outbox now k.cfg.outbox_retention (pos max) (k.outbox ++ e ∷ [])).1,
        dropped.0 ∙ drop-snoc _ k.outbox e kept,
      ),
    )

none_drained :
    (limit : ℤ) (l : List KernelEvent)
    → (leb_ℤ limit (pos 0) || is_empty l) ≡ true
    → 0 ≡ min (pos_part limit) (length l)
none_drained limit [] h = omega arith
none_drained (pos n) (e ∷ l) h = ground arith
none_drained (negsuc n) (e ∷ l) h = omega arith

-- A drain hands out the oldest events, exactly as many as `limit` asks for or as there are, and keeps
-- the others, in their order; a limit that is not positive asks for none.
pub drain_outbox_splits :
    (limit : ℤ) (k : Kernel)
    → let (k', drained) = drain_outbox limit k in
      (drained ++ k'.outbox ≡ k.outbox) × (length drained ≡ min (pos_part limit) (length k.outbox))
unfolding drain_outbox
drain_outbox_splits limit k = elim (Bool-cases (leb_ℤ limit (pos 0) || is_empty k.outbox)) [
  | inl none_due ↦ rw none_due (refl, none_drained limit k.outbox none_due)
  | inr due ↦
      rw due (take-append-drop (pos_part limit) k.outbox, length-take (pos_part limit) k.outbox)
]
