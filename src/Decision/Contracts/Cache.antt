-- ===== src/Decision/Contracts/Cache.antt =====
-- The cache of the contract store in the decision kernel, internal/decision/contract_runtime.go: the
-- contract fields of `Service`, and how snapshots enter them.
use agent_infra_system.Base.{
  ℕ, ◌+◌, Bool, false, Option, none, some, List, if◌then◌else◌, ltb, nat_eq,
}
use agent_infra_system.Base.Int.{u64}
use agent_infra_system.Base.Dict.{Dict}
use agent_infra_system.Base.Time.{Time}
use agent_infra_system.Decision.Contracts.{
  FeatureSignalContract, FeatureSignalContractVersion, FeatureSignalContractRollbackRecord,
  Snapshot, ContractStore, get_snapshot, put_snapshot,
}

pub record ContractCache : Type 0 where
  pub contracts_scoped : Dict FeatureSignalContract
  pub contract_meta : Dict Time
  pub contract_history : Dict (List FeatureSignalContractVersion)
  pub contract_rollbacks : Dict (List FeatureSignalContractRollbackRecord)
  pub contract_scheduled : Dict (List FeatureSignalContractVersion)
  pub store_version : ℕ

unfoldable pub next_store_revision : ℕ → ℕ
next_store_revision current = if nat_eq current 0 then 1 else u64 (current + 1)

unfoldable pub build_snapshot : Time → ContractCache → Snapshot
build_snapshot now c = record {
  revision = c.store_version;
  generated_at = now;
  active = c.contracts_scoped;
  meta = c.contract_meta;
  history = c.contract_history;
  rollbacks = c.contract_rollbacks;
  scheduled = c.contract_scheduled;
}

unfoldable pub apply_snapshot : Snapshot → ContractCache → ContractCache
apply_snapshot snap c = record {
  contracts_scoped = snap.active;
  contract_meta = snap.meta;
  contract_history = snap.history;
  contract_rollbacks = snap.rollbacks;
  contract_scheduled = snap.scheduled;
  store_version = if nat_eq snap.revision 0 then c.store_version else snap.revision;
}

-- `commitContractSnapshotLocked`, with the in-memory store or none; its context is never cancelled.
unfoldable pub commit_snapshot :
    Time → Snapshot → Option ContractStore → ContractCache → Option ContractStore × ContractCache
commit_snapshot now given store c =
    let snap =
      if nat_eq given.revision 0
      then record given { revision = next_store_revision c.store_version }
      else given in
    elim store [
      | none ↦ (none, apply_snapshot snap c)
      | some s ↦
          let (s', committed) = put_snapshot false now snap s in
          elim committed [
            | none ↦ (some s', c)
            | some new ↦ (
              some s',
              apply_snapshot
                  (if nat_eq new.revision 0 then record new { revision = snap.revision } else new)
                  c,
            )
          ]
    ]

-- `publishContractSnapshotLocked`
unfoldable pub publish_snapshot :
    Time → Option ContractStore → ContractCache → Option ContractStore × ContractCache
publish_snapshot now store c =
    let snap = build_snapshot now c in
    commit_snapshot now
      (if nat_eq snap.revision 0
        then record snap { revision = next_store_revision c.store_version }
        else snap)
      store c

-- `syncContractCacheFromStoreLocked`
unfoldable pub sync_cache : Bool → Option ContractStore → ContractCache → ContractCache
sync_cache cancelled none c = c
sync_cache cancelled (some s) c = elim (get_snapshot cancelled s) [
  | none ↦ c
  | some snap ↦ if nat_eq snap.revision 0 then c else apply_snapshot snap c
]

-- What the watcher does with a snapshot that it receives.
unfoldable pub take_snapshot : Snapshot → ContractCache → ContractCache
take_snapshot snap c = if ltb c.store_version snap.revision then apply_snapshot snap c else c

-- The end of `NewKernel`: a store with a snapshot fills the cache, another one is filled from it.
unfoldable pub bootstrap :
    Time → Option ContractStore → ContractCache → Option ContractStore × ContractCache
bootstrap now none c = (none, c)
bootstrap now (some s) c = elim (get_snapshot false s) [
  | none ↦ publish_snapshot now (some s) c
  | some snap ↦
      if nat_eq snap.revision 0
      then publish_snapshot now (some s) c
      else (some s, apply_snapshot snap c)
]
