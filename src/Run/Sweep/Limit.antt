-- ===== src/Run/Sweep/Limit.antt =====
-- A sweep looks at no more runs than its batch limit, and leaves the others to the maintenance.
use agent_infra_system.Base.{
  Bool, ◌+◌, ◌<◌, ◌⊎◌, none, ◌++◌, length, length-append, ℕ, suc, ◌≤◌, String, ◌≡◌, refl, ◌∙◌, ap,
  inl, inr, List, [], ◌∷◌, arith, Bool-cases, Option-cases, if_induction,
}
use agent_infra_system.Base.Int.{pos, leb_ℤ}
use agent_infra_system.Base.Dict.{Dict, lookup, keys, lookup-erase}
use agent_infra_system.Base.Time.{Time}
use agent_infra_system.Platform.{Platform}
use agent_infra_system.Run.Types.{Kernel, Config, RunInstance, SweepResult}
use agent_infra_system.Run.Outbox.{cleanup_outbox}
use agent_infra_system.Run.Caches.{
  cleanup_run_scoped_caches, apply_maintenance, delete_run, delete_runs, cleanup_terminal_runs,
  cleanup_continuations, cleanup_idempotency, cleanup_create_runs, is_retired_run,
}
use agent_infra_system.Run.Obligations.Templates.{sort_strings}
use agent_infra_system.Run.Sweep.{no_result, ttl_round, sweep_one, sweep_runs, sweep_ttl}
use agent_infra_system.Run.Sweep.Rounds.{Scans, ttl_round-Scans}

-- The text is in the list.
abbrev pub IsIn : String → List String → Type 0
IsIn s [] = ⊥
IsIn s (x ∷ xs) = (x ≡ s) ⊎ IsIn s xs

IsIn-left : (s : String) (l r : List String) → IsIn s l → IsIn s (l ++ r)
IsIn-left s [] r i = absurd i
IsIn-left s (x ∷ l) r (inl e) = inl e
IsIn-left s (x ∷ l) r (inr i) = inr (IsIn-left s l r i)

IsIn-right : (s : String) (l r : List String) → IsIn s r → IsIn s (l ++ r)
IsIn-right s [] r i = i
IsIn-right s (x ∷ l) r i = inr (IsIn-right s l r i)

delete_runs-spares :
    (p : RunInstance → Bool) (todo : Dict RunInstance) (k : Kernel) (id : String)
    → (lookup id (delete_runs p todo k).0.runs ≡ lookup id k.runs)
      ⊎ (lookup id (delete_runs p todo k).0.runs ≡ none)
unfolding delete_runs delete_run cleanup_run_scoped_caches
delete_runs-spares p [] k id = inl refl
delete_runs-spares p ((key, r) ∷ rest) k id = elim (Bool-cases (p r)) [
  | inl old ↦
      let erased = lookup-erase key id k.runs in
      rw old (elim (delete_runs-spares p rest (delete_run key k) id) [
        | inl same ↦ ground (arith, erased, same)
        | inr gone ↦ inr gone
      ])
  | inr young ↦ rw young (delete_runs-spares p rest k id)
]

apply_maintenance_scanned :
    (now : Time) (k : Kernel) (result : SweepResult)
    → (apply_maintenance now k result).1.scanned ≡ result.scanned
unfolding apply_maintenance
apply_maintenance_scanned now k result = refl

-- The maintenance keeps a run or deletes it.
apply_maintenance-spares :
    (now : Time) (k : Kernel) (result : SweepResult) (id : String)
    → (lookup id (apply_maintenance now k result).0.runs ≡ lookup id k.runs)
      ⊎ (lookup id (apply_maintenance now k result).0.runs ≡ none)
unfolding apply_maintenance cleanup_terminal_runs cleanup_continuations cleanup_idempotency
    cleanup_create_runs cleanup_outbox
apply_maintenance-spares now k result id =
    let k2 = (cleanup_idempotency now (cleanup_continuations now k).0).0 in
    if_induction
      (λ (x : Kernel × ℕ). (lookup id x.0.runs ≡ lookup id k.runs) ⊎ (lookup id x.0.runs ≡ none))
      (leb_ℤ k.cfg.run_retention (pos 0)) (λ off. inl refl)
      (λ on. delete_runs-spares (is_retired_run now k.cfg.run_retention) k.runs k2 id)

-- The runs of `visited` were scanned, at most `limit` in all, and no other has changed.
record Visits (limit : ℕ) (k : Kernel) (before : ℕ) (x : Kernel × SweepResult) : Type 0 where
  visited : List String
  counted : x.1.scanned ≡ before + length visited
  bounded : x.1.scanned ≤ limit
  spared : (id : String) → ¬ IsIn id visited → lookup id x.0.runs ≡ lookup id k.runs

module _ (round : String → RunInstance → Kernel → SweepResult → Kernel × SweepResult)
    (each : (key : String) (r : RunInstance) (k : Kernel) (result : SweepResult)
      → Scans key k result.scanned (round key r k result)) where
  sweep_one-Visits :
      (key : String) (k : Kernel) (result : SweepResult) (limit : ℕ)
      → result.scanned < limit
      → ((sweep_one round key k result).0.cfg ≡ k.cfg)
        × Visits limit k result.scanned (sweep_one round key k result)
  unfolding sweep_one
  sweep_one-Visits key k result limit room = elim (Option-cases (lookup key k.runs)) [
    | inl gone ↦
        rw (gone, sweep_one)
          (
            refl,
            record {
              visited = [];
              counted = omega arith;
              bounded = omega arith;
              spared = λ id n. refl;
            },
          )
    | inr (r, found) ↦
        let scans = each key r k (record result { scanned = suc result.scanned }) in
        let n = scans.scanned_same in
        rw (found, sweep_one)
          (
            scans.cfg_same,
            record {
              visited = key ∷ [];
              counted = omega arith;
              bounded = omega arith;
              spared = λ id n. scans.spares id (λ e. n (inl e));
            },
          )
  ]

  sweep_runs-Visits :
      (todo : List String) (k : Kernel) (result : SweepResult) (limit : ℕ)
      → k.cfg.sweep_batch_limit ≡ pos limit
      → result.scanned ≤ limit
      → Visits limit k result.scanned (sweep_runs round todo k result)
  unfolding sweep_runs
  sweep_runs-Visits [] k result limit bound h = record {
    visited = [];
    counted = omega arith;
    bounded = h;
    spared = λ id n. refl;
  }
  sweep_runs-Visits (key ∷ rest) k result limit bound h =
      if_induction (Visits limit k result.scanned)
        (leb_ℤ k.cfg.sweep_batch_limit (pos result.scanned))
        (λ full. record { visited = []; counted = omega arith; bounded = h; spared = λ id n. refl })
        (λ room.
          let (k1, result1) = sweep_one round key k result in
          let (same, one) = sweep_one-Visits key k result limit (ground arith) in
          let more =
            sweep_runs-Visits rest k1 result1 limit
              (ap (λ (c : Config). c.sweep_batch_limit) same ∙ bound) one.bounded in
          let a = one.counted in
          let b = more.counted in
          record {
            visited = one.visited ++ more.visited;
            counted = omega (arith, length-append one.visited more.visited);
            bounded = more.bounded;
            spared = λ id n.
                more.spared id (λ i. n (IsIn-right id one.visited more.visited i))
                ∙ one.spared id (λ i. n (IsIn-left id one.visited more.visited i));
          })

-- With a batch limit that is not negative, a TTL sweep answers how many runs it scanned, which are at
-- most as many as the limit, and every other run is as it was, unless the maintenance deletes it.
pub sweep_ttl_visits :
    ⦃platform : Platform⦄ (now : Time) (k : Kernel) (limit : ℕ)
    → k.cfg.sweep_batch_limit ≡ pos limit
    → let (k', result) = sweep_ttl now k in
      (visited : List String) × (result.scanned ≡ length visited)
      × (length visited ≤ limit)
      × ((id : String)
          → ¬ IsIn id visited
          → (lookup id k'.runs ≡ lookup id k.runs) ⊎ (lookup id k'.runs ≡ none))
unfolding sweep_ttl
sweep_ttl_visits now k limit bound =
    let swept =
      sweep_runs-Visits (λ key r. ttl_round key now r) (λ key r l x. ttl_round-Scans key now r l x)
        (sort_strings (keys k.runs)) k no_result limit bound (omega arith) in
    let (k1, result) =
      sweep_runs (λ key r. ttl_round key now r) (sort_strings (keys k.runs)) k no_result in
    (
      swept.visited,
      (let a = swept.counted in let b = apply_maintenance_scanned now k1 result in omega arith),
      (let a = swept.counted in let b = swept.bounded in omega arith),
      λ id n. elim (apply_maintenance-spares now k1 result id) [
        | inl kept ↦ inl (kept ∙ swept.spared id n)
        | inr gone ↦ inr gone
      ],
    )
