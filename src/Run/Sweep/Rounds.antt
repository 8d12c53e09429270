-- ===== src/Run/Sweep/Rounds.antt =====
-- What one round of a sweep leaves alone: the configuration and every run but its own.
use agent_infra_system.Base.{
  ◌≢◌, ◌==◌, eq_iff, ℕ, String, not, ◌≡◌, refl, ◌∙◌, ap, inl, inr, arith, Bool-cases, Option-cases,
  if_induction,
}
use agent_infra_system.Base.Int.{ℤ, int64_succ}
use agent_infra_system.Base.Dict.{lookup, insert, lookup-insert}
use agent_infra_system.Base.Time.{Time}
use agent_infra_system.Platform.{Platform}
use agent_infra_system.Run.Types.{Kernel, RunInstance, SweepResult}
use agent_infra_system.Run.Outbox.{emit}
use agent_infra_system.Run.Steps.{append_synthetic_step, synthetic_hash, append_step, on_step}
use agent_infra_system.Run.Caches.{cleanup_run_scoped_caches}
use agent_infra_system.Run.Refines.Synthetic.{on_step_induction}
use agent_infra_system.Run.Sweep.{
  zombie_terminate, is_ttl_breach, is_risky, ttl_force_abort, ttl_force_review, ttl_round,
}

-- Only the run under `key` may change.
abbrev pub Spares : String → Kernel → Kernel → Type 0
Spares key k k' = (id : String) → key ≢ id → lookup id k'.runs ≡ lookup id k.runs

-- A round keeps the configuration, the count of the runs that were scanned, and every other run.
pub record Scans (key : String) (k : Kernel) (n : ℕ) (x : Kernel × SweepResult) : Type 0 where
  pub cfg_same : x.0.cfg ≡ k.cfg
  pub scanned_same : x.1.scanned ≡ n
  pub spares : Spares key k x.0

pub put_spares :
    (key : String) (r : RunInstance) (k : Kernel) (id : String)
    → key ≢ id
    → lookup id (insert key r k.runs) ≡ lookup id k.runs
put_spares key r k id other = elim (Bool-cases (key == id)) [
  | inl same ↦ absurd (other ((eq_iff key id).0 same))
  | inr apart ↦ ground (arith, lookup-insert key id r k.runs)
]

module _ ⦃platform : Platform⦄ where
  synthetic_cfg :
      (r : RunInstance) (step_id : String) (seq : ℤ) (t i o : String) (now : Time) (k : Kernel)
      → (append_synthetic_step r step_id seq t i o now k).0.cfg ≡ k.cfg
  unfolding append_synthetic_step emit append_step
  synthetic_cfg r step_id seq t i o now k =
      elim (Option-cases (synthetic_hash r.view.last_step_hash t i o)) [
        | inl failed ↦ rw (failed, append_synthetic_step) refl
        | inr (h, hashed) ↦ rw (hashed, append_synthetic_step) refl
      ]

  synthetic_runs :
      (r : RunInstance) (step_id : String) (seq : ℤ) (t i o : String) (now : Time) (k : Kernel)
      → (append_synthetic_step r step_id seq t i o now k).0.runs ≡ k.runs
  unfolding append_synthetic_step emit append_step
  synthetic_runs r step_id seq t i o now k =
      elim (Option-cases (synthetic_hash r.view.last_step_hash t i o)) [
        | inl failed ↦ rw (failed, append_synthetic_step) refl
        | inr (h, hashed) ↦ rw (hashed, append_synthetic_step) refl
      ]

  module _ (key : String) (now : Time) (r : RunInstance) (k : Kernel) (result : SweepResult) where
    stepped :
        (t i : String) (failed : SweepResult) (after : String → Kernel → Kernel)
        (done : SweepResult)
        → ((h : String) (k1 : Kernel) → ((after h k1).cfg ≡ k1.cfg) × Spares key k1 (after h k1))
        → failed.scanned ≡ result.scanned
        → done.scanned ≡ result.scanned
        → Scans key k result.scanned (
            on_step
              (append_synthetic_step r r.view.active_step_id
                (int64_succ r.view.current_step_seq_id)
                t
                i
                ""
                now
                k)
              (λ e k1. (k1, failed))
              λ h k1. (after h k1, done))
    stepped t i failed after done keeps f d =
        let seq = int64_succ r.view.current_step_seq_id in
        let m = append_synthetic_step r r.view.active_step_id seq t i "" now k in
        let same = synthetic_cfg r r.view.active_step_id seq t i "" now k in
        let runs = synthetic_runs r r.view.active_step_id seq t i "" now k in
        on_step_induction (Scans key k result.scanned) m (λ e k1. (k1, failed))
          (λ h k1. (after h k1, done))
          (λ e x. record {
            cfg_same = same;
            scanned_same = f;
            spares = λ id other. ap (lookup id) runs;
          })
          (λ h x. record {
            cfg_same = (keeps h m.0).0 ∙ same;
            scanned_same = d;
            spares = λ id other. (keeps h m.0).1 id other ∙ ap (lookup id) runs;
          })

    pub ttl_round-Scans : Scans key k result.scanned (ttl_round key now r k result)
    unfolding ttl_round ttl_force_abort ttl_force_review emit cleanup_run_scoped_caches
    ttl_round-Scans =
        if_induction (Scans key k result.scanned) (not (is_ttl_breach k.cfg now r))
          (λ fine. record { cfg_same = refl; scanned_same = refl; spares = λ id other. refl })
          λ breached.
            if_induction (Scans key k result.scanned) (is_risky r)
              (λ risky. stepped _ _ _ _ _ (λ h k1. (refl, put_spares key _ k1)) refl refl)
              (λ safe. stepped _ _ _ _ _ (λ h k1. (refl, put_spares key _ k1)) refl refl)

    pub zombie_terminate-Scans : Scans key k result.scanned (zombie_terminate key now r k result)
    unfolding zombie_terminate emit cleanup_run_scoped_caches
    zombie_terminate-Scans = elim (Bool-cases (is_risky r)) [
      | inl risky ↦ rw risky (stepped _ _ _ _ _ (λ h k1. (refl, put_spares key _ k1)) refl refl)
      | inr safe ↦ rw safe (stepped _ _ _ _ _ (λ h k1. (refl, put_spares key _ k1)) refl refl)
    ]
