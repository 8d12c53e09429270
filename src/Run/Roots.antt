-- ===== src/Run/Roots.antt =====
-- The integrity root of a run: `anchorRootLocked` and `anchorByStateLocked` of
-- internal/run/kernel.go, and the safeguard hold that the refusals of `AdvanceRun` share.
pub mod Laws
use agent_infra_system.Base.{String, not, some, if◌then◌else◌, ◌==◌}
use agent_infra_system.Base.Int.{int64_succ}
use agent_infra_system.Base.Text.{trim_space}
use agent_infra_system.Base.Time.{Time}
use agent_infra_system.Run.States.{State, RootType}
use agent_infra_system.Run.Types.{RunView, RunInstance, RootAnchors}

set_anchor : RootType → String → RootAnchors → RootAnchors
set_anchor RootType.completed root a = record a { completed_root = root }
set_anchor RootType.partial root a = record a { partial_root = root }
set_anchor RootType.reconciled root a = record a { reconciled_root = root }
set_anchor RootType.review_hold root a = record a { review_hold_root = root }
set_anchor RootType.aborted root a = record a { aborted_root = root }

-- The version moves only when the value of the root does.
change_root : String → RunView → RunView
change_root root v =
    if not (root == v.run_integrity_root)
    then record v {
      run_integrity_root = root;
      run_integrity_root_version = int64_succ v.run_integrity_root_version;
    }
    else v

unfoldable pub anchor_root : RootType → String → RunView → RunView
unfolding set_anchor change_root
anchor_root root_type raw v =
    let root = trim_space raw in
    let changed = change_root root v in
    if root == "" then v else record changed {
      integrity_root_type = some root_type;
      root_anchors = set_anchor root_type root changed.root_anchors;
    }

-- FAILED and SAFEGUARD_HOLD have no case.
unfoldable pub anchor_by_state : State → String → RunView → RunView
unfolding anchor_root
anchor_by_state State.running step_hash v = anchor_root RootType.partial step_hash v
anchor_by_state State.completed step_hash v = anchor_root RootType.completed step_hash v
anchor_by_state State.parked step_hash v = anchor_root RootType.partial step_hash v
anchor_by_state State.awaiting_approval step_hash v = anchor_root RootType.partial step_hash v
anchor_by_state State.reconciling step_hash v = anchor_root RootType.reconciled step_hash v
anchor_by_state State.force_review_required step_hash v =
    anchor_root RootType.review_hold step_hash v
anchor_by_state State.force_abort step_hash v = anchor_root RootType.aborted step_hash v
anchor_by_state State.aborted step_hash v = anchor_root RootType.aborted step_hash v
anchor_by_state State.failed step_hash v = v
anchor_by_state State.safeguard_hold step_hash v = v

-- `r.view.State = StateSafeguardHold; r.view.UpdatedAt = now;
-- k.anchorRootLocked(r, RootTypePartial, r.view.LastStepHash)`
unfoldable pub hold : Time → RunInstance → RunInstance
unfolding anchor_root
hold now r = record r {
  view =
      anchor_root RootType.partial r.view.last_step_hash
        (record r.view { state = State.safeguard_hold; updated_at = now });
}
