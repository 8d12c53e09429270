-- ===== src/Decision/Contracts.antt =====
-- The store of feature-signal contracts, internal/decision/contract_store.go: its snapshots, their
-- revisions and the channels of its watchers. A clone of a snapshot is the snapshot itself. A channel
-- is the list of what is queued in it, with the sender that waits for room in it, if any; an operation
-- on a cancelled context is an error.
pub mod Cache
pub mod Latest
pub mod Queued
pub mod Delivered
pub mod Blocked
use agent_infra_system.Base.{
  ℕ, suc, ◌+◌, String, Bool, true, false, Option, none, some, List, [], ◌∷◌, ◌++◌, length, drop,
  if◌then◌else◌, ltb, leb, nat_eq,
}
use agent_infra_system.Base.Int.{ℤ, pos, negsuc, u64}
use agent_infra_system.Base.Dict.{Dict}
use agent_infra_system.Base.Time.{Time, is_zero}

pub record ScopeRef : Type 0 where
  pub org_id : String
  pub workspace_id : String
  pub project_id : String

pub record FeatureSignalContract : Type 0 where
  pub required_fields : List String
  pub schema_version : String
  pub trusted_producer_ids : List String
  pub max_freshness_ms : ℤ
  pub max_drift_score : ℕ  -- float64, as its bit pattern

pub record FeatureSignalContractVersion : Type 0 where
  pub version : ℤ
  pub contract_key : String
  pub storage_key : String
  pub risk_tier : String
  pub phase : String
  pub required_fields : List String
  pub schema_version : String
  pub trusted_producer_ids : List String
  pub max_freshness_ms : ℤ
  pub max_drift_score : ℕ
  pub scope : ScopeRef
  pub contract_hash : String
  pub status : String
  pub activation_at : Time
  pub reason : String
  pub actor : String
  pub created_at : Time

pub record FeatureSignalContractRollbackRecord : Type 0 where
  pub rollback_id : String
  pub contract_key : String
  pub storage_key : String
  pub scope : ScopeRef
  pub previous_version : ℤ
  pub target_version : ℤ
  pub previous_required_fields : List String
  pub target_required_fields : List String
  pub previous_contract_hash : String
  pub target_contract_hash : String
  pub reason : String
  pub actor : String
  pub created_at : Time

-- `FeatureSignalContractStoreSnapshot`
pub record Snapshot : Type 0 where
  pub revision : ℕ
  pub generated_at : Time
  pub active : Dict FeatureSignalContract
  pub meta : Dict Time
  pub history : Dict (List FeatureSignalContractVersion)
  pub rollbacks : Dict (List FeatureSignalContractRollbackRecord)
  pub scheduled : Dict (List FeatureSignalContractVersion)

abbrev pub empty_snapshot : Snapshot
empty_snapshot = record {
  revision = 0;
  generated_at = 0;
  active = [];
  meta = [];
  history = [];
  rollbacks = [];
  scheduled = [];
}

-- A watcher's channel, under its number. `sending` is the snapshot that `Watch` is blocked on sending
-- into it, where the channel was full.
pub record Channel : Type 0 where
  pub id : ℕ
  pub capacity : ℕ
  pub queued : List Snapshot
  pub sending : Option Snapshot

-- `InMemoryFeatureSignalContractStore`
pub record ContractStore : Type 0 where
  pub snapshot : Snapshot
  pub watchers : List Channel
  pub next_watch_id : ℕ
  pub watch_buffer : ℕ

-- A buffer that is not positive is 16; a seed without a revision is left out.
unfoldable pub new_contract_store : ℤ → Snapshot → ContractStore
new_contract_store (pos n) seed = record {
  snapshot = if nat_eq seed.revision 0 then empty_snapshot else seed;
  watchers = [];
  next_watch_id = 0;
  watch_buffer = if nat_eq n 0 then 16 else n;
}
new_contract_store (negsuc n) seed = record {
  snapshot = if nat_eq seed.revision 0 then empty_snapshot else seed;
  watchers = [];
  next_watch_id = 0;
  watch_buffer = 16;
}

-- `<-ch` on a channel that may be full: the oldest snapshot is taken out, and a sender that is blocked
-- puts its own at the end at once.
unfoldable pub make_room : Channel → Channel
make_room ch = record ch {
  queued = drop 1 ch.queued ++ elim ch.sending [ none ↦ [] | some x ↦ x ∷ [] ];
  sending = none;
}

-- `select { case ch <- emit: default: }`
unfoldable pub try_send : Snapshot → Channel → Channel
try_send new ch =
    if ltb (length ch.queued) ch.capacity then record ch { queued = ch.queued ++ new ∷ [] } else ch

-- What `PutSnapshot` does with one watcher: where the channel is full, it makes room and tries again.
unfoldable pub offer : Snapshot → Channel → Channel
offer new ch =
    if ltb (length ch.queued) ch.capacity then try_send new ch else try_send new (make_room ch)

unfoldable pub offer_all : Snapshot → List Channel → List Channel
offer_all new [] = []
offer_all new (ch ∷ chs) = offer new ch ∷ offer_all new chs

-- The snapshot as it is stored: after the revision of the current one, and with a time.
unfoldable pub stamped : ℕ → Time → Snapshot → Snapshot
stamped current now next = record next {
  revision = if leb next.revision current then u64 (current + 1) else next.revision;
  generated_at = if is_zero next.generated_at then now else next.generated_at;
}

-- `cancelled` is the context's.
unfoldable pub get_snapshot : Bool → ContractStore → Option Snapshot
get_snapshot cancelled s = if cancelled then none else some s.snapshot

unfoldable pub put_snapshot :
    Bool → Time → Snapshot → ContractStore → ContractStore × Option Snapshot
put_snapshot cancelled now next s =
    let new = stamped s.snapshot.revision now next in
    if cancelled
    then (s, none)
    else (record s { snapshot = new; watchers = offer_all new s.watchers }, some new)

-- The locked part of `Watch`: the new channel, and the snapshot to be sent on it afterwards, if any.
unfoldable pub watch : ContractStore → ContractStore × Option Snapshot
watch s = (
  record s {
    watchers =
        record { id = s.next_watch_id; capacity = s.watch_buffer; queued = []; sending = none }
        ∷ s.watchers;
    next_watch_id = s.next_watch_id + 1;
  },
  if nat_eq s.snapshot.revision 0 then none else some s.snapshot,
)
