-- ===== src/Decision/Contracts/Blocked.antt =====
-- What a put does to a watcher whose `Watch` is blocked on its first snapshot
-- (internal/decision/contract_store.go): `Watch` goes on, and the new snapshot is lost to it.
use agent_infra_system.Base.{
  ℕ, ◌+◌, ◌^◌, ◌≤◌, ◌<◌, false, ◌≡◌, refl, ap, ◌∙◌, some, none, List, [], ◌∷◌, ◌++◌, length, drop,
  All, ltb, arith, length-append, length-drop,
}
use agent_infra_system.Base.Time.{Time}
use agent_infra_system.Decision.Contracts.{
  Snapshot, ContractStore, Channel, make_room, try_send, offer, offer_all, put_snapshot, stamped,
}
use agent_infra_system.Decision.Contracts.Cache.{ContractCache, apply_snapshot, take_snapshot}
use agent_infra_system.Decision.Contracts.Queued.{stamped-newer}

-- What the sender that was blocked leaves.
abbrev pub released : Snapshot → Channel → Channel
released x ch = record ch { queued = drop 1 ch.queued ++ x ∷ []; sending = none }

-- The watcher receives and applies the snapshots one after another.
abbrev pub take_all : List Snapshot → ContractCache → ContractCache
take_all [] c = c
take_all (x ∷ l) c = take_all l (take_snapshot x c)

offer_blocked :
    (new x : Snapshot) (ch : Channel)
    → ch.sending ≡ some x
    → 0 < ch.capacity
    → length ch.queued ≡ ch.capacity
    → offer new ch ≡ released x ch
unfolding offer try_send make_room
offer_blocked new x ch blocked room full =
    let shorter = length-drop 1 ch.queued in
    let longer = length-append (drop 1 ch.queued) (x ∷ []) in
    let first : ltb (length ch.queued) ch.capacity ≡ false = ground arith in
    let again : ltb (length (drop 1 ch.queued ++ x ∷ [])) ch.capacity ≡ false = ground arith in
    rw (first, blocked, again) refl

take_snapshot-bounded :
    (n : ℕ) (x : Snapshot) (c : ContractCache)
    → x.revision ≤ n
    → c.store_version ≤ n
    → (take_snapshot x c).store_version ≤ n
unfolding take_snapshot apply_snapshot
take_snapshot-bounded n x c a b = ground arith

take_all-bounded :
    (n : ℕ) (l : List Snapshot) (c : ContractCache)
    → All (λ x. x.revision ≤ n) l
    → c.store_version ≤ n
    → (take_all l c).store_version ≤ n
take_all-bounded n [] c a b = b
take_all-bounded n (x ∷ l) c a b =
    take_all-bounded n l (take_snapshot x c) a.1 (take_snapshot-bounded n x c a.0 b)

released-bounded :
    (n : ℕ) (x : Snapshot) (l : List Snapshot)
    → All (λ y. y.revision ≤ n) l
    → x.revision ≤ n
    → All (λ y. y.revision ≤ n) (l ++ x ∷ [])
released-bounded n x [] a b = (b, tt)
released-bounded n x (y ∷ l) a b = (a.0, released-bounded n x l a.1 b)

dropped-bounded :
    (n : ℕ) (l : List Snapshot) → All (λ y. y.revision ≤ n) l → All (λ y. y.revision ≤ n) (drop 1 l)
dropped-bounded n [] a = tt
dropped-bounded n (y ∷ l) a = a.1

-- Where the first channel is full and `Watch` is blocked on sending a snapshot into it, an accepted put
-- lets `Watch` go on, drops the oldest queued snapshot and does not queue the new one: a cache that was
-- no newer than the store is behind it after all that is queued has been received and applied.
pub put_blocked_loses :
    (now : Time) (given x : Snapshot) (s : ContractStore) (ch : Channel) (others : List Channel)
    (c : ContractCache)
    → s.watchers ≡ ch ∷ others
    → ch.sending ≡ some x
    → 0 < ch.capacity
    → length ch.queued ≡ ch.capacity
    → s.snapshot.revision + 1 < 2 ^ 64
    → All (λ y. y.revision ≤ s.snapshot.revision) ch.queued
    → x.revision ≤ s.snapshot.revision
    → c.store_version ≤ s.snapshot.revision
    → let s' = (put_snapshot false now given s).0 in
      (s'.watchers ≡ released x ch ∷ offer_all s'.snapshot others)
      × ((take_all (released x ch).queued c).store_version < s'.snapshot.revision)
unfolding put_snapshot offer_all
put_blocked_loses now given x s ch others c first blocked room full more old x_old c_old =
    let new = stamped s.snapshot.revision now given in
    let newer = stamped-newer s.snapshot.revision now given more in
    let seen =
      take_all-bounded s.snapshot.revision (drop 1 ch.queued ++ x ∷ []) c
        (released-bounded s.snapshot.revision x (drop 1 ch.queued)
          (dropped-bounded s.snapshot.revision ch.queued old) x_old)
        c_old in
    (
      ap (offer_all new) first
          ∙ ap (λ h. h ∷ offer_all new others) (offer_blocked new x ch blocked room full),
      omega arith,
    )
