-- ===== src/Decision/Tests/Contracts.antt =====
-- The theorems on the contract store at concrete stores.
use agent_infra_system.Base.{◌<◌, ◌≡◌, refl, none, some, [], ◌∷◌, false, arith}
use agent_infra_system.Base.Int.{pos}
use agent_infra_system.Decision.Contracts.{
  Snapshot, ContractStore, Channel, empty_snapshot, new_contract_store, watch, put_snapshot,
  offer_all,
}
use agent_infra_system.Decision.Contracts.Cache.{ContractCache, apply_snapshot, take_snapshot}
use agent_infra_system.Decision.Contracts.Latest.{Watched, watched}
use agent_infra_system.Decision.Contracts.Blocked.{released, take_all, put_blocked_loses}
use agent_infra_system.Run.Tests.Fixtures.{noon}

abbrev seed : Snapshot
seed = record empty_snapshot { revision = 5; meta = ("k", 1) ∷ [] }

abbrev newer : Snapshot
newer = record empty_snapshot { revision = 6; generated_at = 7; meta = ("k", 2) ∷ [] }

abbrev fresh_cache : ContractCache
fresh_cache = record {
  contracts_scoped = [];
  contract_meta = [];
  contract_history = [];
  contract_rollbacks = [];
  contract_scheduled = [];
  store_version = 0;
}

-- The cache after the bootstrap of a kernel.
abbrev booted : ContractCache
unfolding apply_snapshot
booted = apply_snapshot seed fresh_cache

abbrev small_store : ContractStore
unfolding new_contract_store
small_store = new_contract_store (pos 1) seed

abbrev registered : Watched
unfolding watched watch
registered = watched small_store booted

abbrev channel : Channel
channel = record { id = 0; capacity = 1; queued = []; sending = none }

abbrev received : Watched
unfolding take_snapshot apply_snapshot
received = record {
  store = record small_store { snapshot = newer; watchers = channel ∷ []; next_watch_id = 1 };
  cache = take_snapshot newer booted;
  initial = none;
  taken = none;
}

-- One snapshot was put before the first was sent, and `Watch` is blocked.
abbrev full_channel : Channel
full_channel = record channel { queued = newer ∷ []; sending = some seed }

abbrev overtaken : ContractStore
unfolding new_contract_store
overtaken = record small_store { snapshot = newer; watchers = full_channel ∷ []; next_watch_id = 1 }

put_blocked_loses_example :
    let s' = (put_snapshot false noon seed overtaken).0 in
    (s'.watchers ≡ released seed full_channel ∷ [])
    × ((take_all (seed ∷ []) fresh_cache).store_version < s'.snapshot.revision)
unfolding put_snapshot offer_all overtaken new_contract_store
put_blocked_loses_example =
    put_blocked_loses noon seed seed overtaken full_channel [] fresh_cache refl refl (omega arith)
      refl (omega arith) (omega arith, tt) (omega arith) (omega arith)
