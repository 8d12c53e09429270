-- ===== src/Run/Roots/Laws.antt =====
-- What anchoring a root changes, and when its version moves.
use agent_infra_system.Base.{String, ◌≡◌, ◌≢◌, some, arith, eq_iff}
use agent_infra_system.Base.Int.{int64_succ}
use agent_infra_system.Base.Text.{trim_space}
use agent_infra_system.Run.States.{State, RootType}
use agent_infra_system.Run.Types.{RunView}
use agent_infra_system.Run.Roots.{anchor_root, anchor_by_state}

-- The fields of a view that no anchor writes, as far as the operations rely on them.
pub record SameProgress (v w : RunView) : Type 0 where
  pub id_same : w.run_id ≡ v.run_id
  pub state_same : w.state ≡ v.state
  pub step_same : w.active_step_id ≡ v.active_step_id
  pub version_same : w.state_version ≡ v.state_version
  pub seq_same : w.current_step_seq_id ≡ v.current_step_seq_id
  pub head_same : w.last_step_hash ≡ v.last_step_hash
  pub reason_same : w.terminal_reason ≡ v.terminal_reason
  pub source_same : w.terminal_source ≡ v.terminal_source

pub anchor_root-SameProgress :
    (t : RootType) (root : String) (v : RunView) → SameProgress v (anchor_root t root v)
unfolding anchor_root
anchor_root-SameProgress t root v = ground arith

pub anchor_by_state-SameProgress :
    (s : State) (root : String) (v : RunView) → SameProgress v (anchor_by_state s root v)
unfolding anchor_by_state
anchor_by_state-SameProgress s root v = ground arith

-- A blank root changes nothing; another one becomes, trimmed, the root of the view, under its type.
-- The version of the root counts up by one where the root has changed, and stays where it has not.
pub anchor_root_versions :
    (t : RootType) (root : String) (v : RunView)
    → let w = anchor_root t root v in
      (trim_space root ≡ "" → w ≡ v)
      × (trim_space root ≢ ""
          → (w.run_integrity_root ≡ trim_space root) × (w.integrity_root_type ≡ some t))
      × (w.run_integrity_root ≡ v.run_integrity_root
          → w.run_integrity_root_version ≡ v.run_integrity_root_version)
      × (w.run_integrity_root ≢ v.run_integrity_root
          → w.run_integrity_root_version ≡ int64_succ v.run_integrity_root_version)
unfolding anchor_root
anchor_root_versions t root v =
    ground (arith, eq_iff (trim_space root) "", eq_iff (trim_space root) v.run_integrity_root)
