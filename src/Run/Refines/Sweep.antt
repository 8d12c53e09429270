-- ===== src/Run/Refines/Sweep.antt =====
-- The sweeps and the maintenance refine the abstract view, as transitions one after another.
use agent_infra_system.Base.{
  ℕ, suc, String, true, false, not, ◌≡◌, ◌∙◌, ap, none, refl, inl, inr, some, List, [], ◌∷◌, arith,
  Bool-cases, if_induction, option_induction,
}
use agent_infra_system.Base.Int.{pos, int64_succ, leb_ℤ}
use agent_infra_system.Base.Dict.{lookup}
use agent_infra_system.Base.Time.{Time, sub}
use agent_infra_system.Platform.{Platform}
use agent_infra_system.Run.States.{State, RootType, is_terminal_state}
use agent_infra_system.Run.Types.{Kernel, Config, RunInstance, SweepResult}
use agent_infra_system.Run.Outbox.{emit}
use agent_infra_system.Run.Setup.{put_run}
use agent_infra_system.Run.Caches.{cleanup_run_scoped_caches}
use agent_infra_system.Run.Sweep.{
  swept_instance, is_ttl_breach, is_risky, is_early_scan, count_zombie, ttl_force_abort,
  ttl_force_review, ttl_round, zombie_terminate, zombie_round, sweep_one, sweep_runs,
}
use agent_infra_system.Run.Frames.{lookup-insert_self}
use agent_infra_system.Run.Spec.{Edit, Transition, Transition-edited, Steps, stay, next, is_imposed}
use agent_infra_system.Run.Spec.Invariant.{Inv, Steps-Inv}
use agent_infra_system.Run.Sweep.Rounds.{Spares, put_spares, zombie_terminate-Scans}
use agent_infra_system.Run.Refines.Synthetic.{Leads, Leads-unchanged, Stepped}
use agent_infra_system.Run.Refines.Requests.{Stepped-anchored, on_step-Leads}

swept_instance-Stepped :
    (state : State) (t : RootType) (reason source h : String) (now : Time) (r : RunInstance)
    → is_terminal_state r.view.state ≡ false
    → is_imposed state ≡ true
    → Stepped
        (int64_succ r.view.current_step_seq_id)
        h
        r
        (swept_instance state t reason source h now r)
unfolding swept_instance
swept_instance-Stepped state t reason source h now r live imposed =
    Stepped-anchored _ h r (swept_instance state t reason source h now r) t h _ refl refl live refl
      refl refl (inr imposed)

-- No id that was free has a run afterwards.
abbrev pub NoNew : Kernel → Kernel → Type 0
NoNew k k' = (id : String) → lookup id k.runs ≡ none → lookup id k'.runs ≡ none

-- Transitions one after another, none of which stores a new run.
pub data Walk (k : Kernel) : Kernel → Type 0 where
  halt : Walk k k
  onward : {l m : Kernel} → Walk k l → Transition l m → NoNew l m → Walk k m

pub Walk-Steps : {k k' : Kernel} → Walk k k' → Steps k k'
Walk-Steps halt = stay
Walk-Steps (onward w t n) = next (Walk-Steps w) t

pub Walk-join : {k l m : Kernel} → Walk k l → Walk l m → Walk k m
Walk-join p halt = p
Walk-join p (onward q t n) = onward (Walk-join p q) t n

-- The kernel that a round answers with is some transitions away.
pub record Walks {ℓ} {A : Type ℓ} (k : Kernel) (x : Kernel × A) : Type 0 where
  pub walks_to : Walk k x.0

pub Walks-unchanged {ℓ} : {A : Type ℓ} (k : Kernel) (a : A) → Walks k (k, a)
Walks-unchanged k a = record { walks_to = halt }

pub Walks-next {ℓ} :
    {A : Type ℓ} (k k' : Kernel) (a : A) → Transition k k' → NoNew k k' → Walks k (k', a)
Walks-next k k' a t n = record { walks_to = onward halt t n }

-- A round that changes the run under `key` alone, where there is one, stores no new run.
pub Spares-NoNew :
    (key : String) (r : RunInstance) (k k' : Kernel)
    → lookup key k.runs ≡ some r
    → Spares key k k'
    → NoNew k k'
Spares-NoNew key r k k' found spares id free =
    spares id (λ e. let at = ap (λ i. lookup i k.runs) e in absurd (ground arith)) ∙ free

module _ ⦃platform : Platform⦄ (key : String) (now : Time) (r : RunInstance) (k : Kernel)
    (result : SweepResult) (keyed : r.view.run_id ≡ key) (found : lookup key k.runs ≡ some r) where
  ttl_force_abort-Leads :
      is_terminal_state r.view.state ≡ false → Leads k (ttl_force_abort key now r k result)
  unfolding ttl_force_abort emit cleanup_run_scoped_caches
  ttl_force_abort-Leads live =
      on_step-Leads key now r k keyed found _ _ _ _ _ _
        (λ h.
          swept_instance State.force_abort RootType.aborted "ttl_breach_risk" "ttl_sweeper" h now r)
        _ _ (λ h k1. refl) (λ h k1. refl) (λ h. swept_instance-Stepped _ _ _ _ h now r live refl)

  ttl_force_review-Leads :
      is_terminal_state r.view.state ≡ false → Leads k (ttl_force_review key now r k result)
  unfolding ttl_force_review emit
  ttl_force_review-Leads live =
      on_step-Leads key now r k keyed found _ _ _ _ _ _
        (λ h.
          swept_instance State.force_review_required RootType.review_hold "ttl_breach" "ttl_sweeper"
            h now r)
        _ _ (λ h k1. refl) (λ h k1. refl) (λ h. swept_instance-Stepped _ _ _ _ h now r live refl)

  ttl_round-live :
      (c : Config) → not (is_ttl_breach c now r) ≡ false → is_terminal_state r.view.state ≡ false
  unfolding is_ttl_breach
  ttl_round-live c h = ground arith

  pub ttl_round-Leads : Leads k (ttl_round key now r k result)
  unfolding ttl_round
  ttl_round-Leads =
      if_induction (Leads k) (not (is_ttl_breach k.cfg now r)) (λ fine. Leads-unchanged k result)
        λ breached.
          if_induction (Leads k) (is_risky r)
            (λ risky. ttl_force_abort-Leads (ttl_round-live k.cfg breached))
            (λ safe. ttl_force_review-Leads (ttl_round-live k.cfg breached))

  zombie_terminate-Leads :
      is_terminal_state r.view.state ≡ false → Leads k (zombie_terminate key now r k result)
  unfolding zombie_terminate emit cleanup_run_scoped_caches
  zombie_terminate-Leads live = elim (Bool-cases (is_risky r)) [
    | inl risky ↦ rw risky (
        on_step-Leads key now r k keyed found _ _ _ _ _ _
          (λ h.
            swept_instance State.force_abort RootType.aborted "no_progress" "zombie_sweeper" h now
              r)
          _ _ (λ h k1. refl) (λ h k1. refl) (λ h. swept_instance-Stepped _ _ _ _ h now r live refl))
    | inr safe ↦ rw safe (
        on_step-Leads key now r k keyed found _ _ _ _ _ _
          (λ h.
            swept_instance State.force_review_required RootType.review_hold "no_progress"
              "zombie_sweeper" h now r)
          _ _ (λ h k1. refl) (λ h k1. refl) (λ h. swept_instance-Stepped _ _ _ _ h now r live refl))
  ]

scanned-Edit : (n : ℕ) (r : RunInstance) → Edit r (record r { no_progress_scans = n })
scanned-Edit n r = record {
  id_same = refl;
  version_same = refl;
  seq_same = refl;
  head_same = refl;
  state_kept = inl refl;
}

-- A zombie round counts the scan first, and may then end the run.
pub zombie_round-Walks :
    ⦃platform : Platform⦄ (key : String) (now : Time) (r : RunInstance) (k : Kernel)
    (result : SweepResult)
    → r.view.run_id ≡ key
    → lookup key k.runs ≡ some r
    → Walks k (zombie_round key now r k result)
unfolding zombie_round
zombie_round-Walks key now r k result keyed found =
    let r1 : RunInstance = record r { no_progress_scans = suc r.no_progress_scans } in
    let k1 = put_run key r1 k in
    let rescanned = λ (n : ℕ).
      Transition-edited key k (put_run key (record r { no_progress_scans = n }) k) r
        (record r { no_progress_scans = n }) found refl refl (scanned-Edit n r) in
    let no_new = λ (n : ℕ).
      Spares-NoNew key r k (put_run key (record r { no_progress_scans = n }) k) found
        (put_spares key (record r { no_progress_scans = n }) k) in
    if_induction (Walks k) (is_terminal_state r.view.state) (λ ended. Walks-unchanged k result)
      λ live.
        if_induction (Walks k)
          (leb_ℤ (sub now r.view.last_progress_at) k.cfg.zombie_no_progress_window)
          (λ progressed. Walks-next k _ result (rescanned 0) (no_new 0))
          λ stuck.
            if_induction (Walks k) (is_early_scan r)
              (λ early.
                Walks-next k k1 result (rescanned (suc r.no_progress_scans))
                  (no_new (suc r.no_progress_scans)))
              λ late.
                let terminated =
                  zombie_terminate-Leads key now r1 k1 (count_zombie r result) keyed
                    (lookup-insert_self key r1 k.runs) live in
                let scans = zombie_terminate-Scans key now r1 k1 (count_zombie r result) in
                record {
                  walks_to =
                      onward
                        (onward halt (rescanned (suc r.no_progress_scans))
                          (no_new (suc r.no_progress_scans)))
                        terminated.leads_to
                        (Spares-NoNew key r1 k1
                          (zombie_terminate key now r1 k1 (count_zombie r result)).0
                          (lookup-insert_self key r1 k.runs) scans.spares);
                }

module _ (round : String → RunInstance → Kernel → SweepResult → Kernel × SweepResult)
    (each : (key : String) (r : RunInstance) (k : Kernel) (result : SweepResult)
      → r.view.run_id ≡ key
      → lookup key k.runs ≡ some r
      → Walks k (round key r k result)) where
  sweep_one-Walks :
      (key : String) (k : Kernel) (result : SweepResult)
      → Inv k
      → Walks k (sweep_one round key k result)
  unfolding sweep_one
  sweep_one-Walks key k result inv =
      option_induction (Walks k) (lookup key k.runs) (λ gone. Walks-unchanged k result)
        λ r found. each key r k _ (inv.keyed key r found) found

  -- A sweep is the transitions of its rounds.
  pub sweep_runs-Walks :
      (todo : List String) (k : Kernel) (result : SweepResult)
      → Inv k
      → Walks k (sweep_runs round todo k result)
  unfolding sweep_runs
  sweep_runs-Walks [] k result inv = Walks-unchanged k result
  sweep_runs-Walks (key ∷ rest) k result inv =
      let one = sweep_one-Walks key k result inv in
      let (k1, result1) = sweep_one round key k result in
      let more = sweep_runs-Walks rest k1 result1 (Steps-Inv inv (Walk-Steps one.walks_to)) in
      if_induction (Walks k) (leb_ℤ k.cfg.sweep_batch_limit (pos result.scanned))
        (λ full. Walks-unchanged k result)
        (λ room. record { walks_to = Walk-join one.walks_to more.walks_to })
