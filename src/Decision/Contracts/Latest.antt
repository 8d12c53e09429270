-- ===== src/Decision/Contracts/Latest.antt =====
-- A decision kernel and a contract store that others write to: the steps of
-- internal/decision/contract_store.go and of the watcher in internal/decision/contract_runtime.go,
-- and when the cache has the latest snapshot.
use agent_infra_system.Base.{
  ◌+◌, ◌^◌, ◌≤◌, ◌<◌, Bool, false, ◌≡◌, ◌⊎◌, Option, none, some, List, [], ◌∷◌, ◌++◌, length, All,
}
use agent_infra_system.Base.Time.{Time}
use agent_infra_system.Decision.Contracts.{Snapshot, ContractStore, Channel, put_snapshot, watch}
use agent_infra_system.Decision.Contracts.Cache.{
  ContractCache, apply_snapshot, commit_snapshot, sync_cache, take_snapshot,
}

-- The store, the cache, the snapshot that `Watch` has still to send before it returns, and the one
-- that the watcher has received and not yet applied.
pub record Watched : Type 0 where
  pub store : ContractStore
  pub cache : ContractCache
  pub initial : Option Snapshot
  pub taken : Option Snapshot

-- The store after `Watch`, whose channel is the first.
unfoldable pub watched : ContractStore → ContractCache → Watched
watched s c =
    let (s', initial) = watch s in record { store = s'; cache = c; initial = initial; taken = none }

-- One step: another writer puts a snapshot, the kernel commits one, `Watch` sends the initial one
-- into a channel with room, the watcher receives one after `Watch` has returned, and applies it later
-- under the lock, the kernel synchronises, or something happens to the other channels. The step that
-- is missing is that `Watch` finds its channel full and is blocked.
pub data Step (w : Watched) : Watched → Type 0 where
  put :
      (now : Time) (given : Snapshot)
      → w.store.snapshot.revision + 1 < 2 ^ 64
      → Step w (record w { store = (put_snapshot false now given w.store).0 })
  commit :
      (now : Time) (given : Snapshot) (s' : ContractStore) (c' : ContractCache)
      → w.store.snapshot.revision + 1 < 2 ^ 64
      → commit_snapshot now given (some w.store) w.cache ≡ (some s', c')
      → Step w (record w { store = s'; cache = c' })
  send :
      (x : Snapshot) (ch : Channel) (others : List Channel)
      → w.initial ≡ some x
      → w.store.watchers ≡ ch ∷ others
      → length ch.queued < ch.capacity
      → Step w (record w {
        store = record w.store { watchers = record ch { queued = ch.queued ++ x ∷ [] } ∷ others };
        initial = none;
      })
  receive :
      (x : Snapshot) (rest : List Snapshot) (ch : Channel) (others : List Channel)
      → w.initial ≡ none
      → w.taken ≡ none
      → w.store.watchers ≡ ch ∷ others
      → ch.queued ≡ x ∷ rest
      → Step w (record w {
        store = record w.store { watchers = record ch { queued = rest } ∷ others };
        taken = some x;
      })
  apply :
      (x : Snapshot)
      → w.taken ≡ some x
      → Step w (record w { cache = take_snapshot x w.cache; taken = none })
  synchronise :
      (cancelled : Bool) → Step w (record w { cache = sync_cache cancelled (some w.store) w.cache })
  elsewhere :
      (ch : Channel) (others others' : List Channel)
      → w.store.watchers ≡ ch ∷ others
      → Step w (record w { store = record w.store { watchers = ch ∷ others' } })

pub data Steps (w : Watched) : Watched → Type 0 where
  start : Steps w w
  next : {v u : Watched} → Steps w v → Step v u → Steps w u

-- The cache is behind the snapshot, or has what is in it.
pub record IsBehind (snap : Snapshot) (c : ContractCache) : Type 0 where
  pub version_le : c.store_version ≤ snap.revision
  pub agrees : c.store_version ≡ snap.revision → (snap.revision ≡ 0) ⊎ (apply_snapshot snap c ≡ c)

-- `x` is `snap` or an older snapshot.
abbrev pub IsOld : Snapshot → Snapshot → Type 0
IsOld snap x = (x.revision < snap.revision) ⊎ (x ≡ snap)

abbrev pub Waits : Snapshot → List Snapshot → Type 0
Waits snap [] = ⊥
Waits snap (x ∷ xs) = (x ≡ snap) ⊎ Waits snap xs

-- Nothing that waits is newer than the snapshot, which waits itself while the cache is behind it.
pub record InTouch (w : Watched) : Type 0 where
  pub channel : Channel
  pub others : List Channel
  pub is_first : w.store.watchers ≡ channel ∷ others
  pub has_room : 0 < channel.capacity
  pub fits : length channel.queued ≤ channel.capacity
  pub unblocked : channel.sending ≡ none
  pub behind : IsBehind w.store.snapshot w.cache
  pub old : All (IsOld w.store.snapshot) channel.queued
  pub initial_old : (x : Snapshot) → w.initial ≡ some x → IsOld w.store.snapshot x
  pub taken_old : (x : Snapshot) → w.taken ≡ some x → IsOld w.store.snapshot x
  pub delivers :
      w.cache.store_version < w.store.snapshot.revision
      → Waits w.store.snapshot channel.queued
        ⊎ (w.initial ≡ some w.store.snapshot)
        ⊎ (w.taken ≡ some w.store.snapshot)
