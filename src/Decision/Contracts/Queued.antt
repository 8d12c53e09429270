-- ===== src/Decision/Contracts/Queued.antt =====
-- The queue of a watcher's channel and the cache: what an offer puts and what a receipt takes
-- (internal/decision/contract_store.go, internal/decision/contract_runtime.go).
use mathlib.Core.List.{append-nil}
use agent_infra_system.Base.{
  none, length-drop, ℕ, ◌≤◌, drop, subst, length-append, ◌+◌, ◌^◌, ◌<◌, ◌≡◌, ◌≢◌, refl, sym, ap,
  inl, inr, some, List, [], ◌∷◌, ◌++◌, length, All, nat_eq, ltb, arith, if_induction, if◌then◌else◌,
}
use agent_infra_system.Base.Time.{Time}
use agent_infra_system.Decision.Contracts.{
  Snapshot, ContractStore, Channel, offer, try_send, make_room, offer_all, stamped, put_snapshot,
}
use agent_infra_system.Decision.Contracts.Cache.{
  ContractCache, apply_snapshot, commit_snapshot, take_snapshot, next_store_revision,
}
use agent_infra_system.Decision.Contracts.Latest.{Watched, IsBehind, IsOld, Waits, InTouch}

pub stamped-newer :
    (current : ℕ) (now : Time) (given : Snapshot)
    → current + 1 < 2 ^ 64
    → current < (stamped current now given).revision
unfolding stamped
stamped-newer current now given room = ground arith

pub apply-IsBehind :
    (snap : Snapshot) (c : ContractCache)
    → snap.revision ≢ 0
    → IsBehind snap (apply_snapshot snap c)
unfolding apply_snapshot
apply-IsBehind snap c there = record {
  version_le = ground arith;
  agrees = λ same. inr (ground arith);
}

pub apply-version :
    (snap : Snapshot) (c : ContractCache)
    → snap.revision ≢ 0
    → (apply_snapshot snap c).store_version ≡ snap.revision
unfolding apply_snapshot
apply-version snap c there = ground arith

pub Waits-snoc : (snap : Snapshot) (l : List Snapshot) → Waits snap (l ++ snap ∷ [])
Waits-snoc snap [] = inl refl
Waits-snoc snap (x ∷ l) = inr (Waits-snoc snap l)

pub Waits-append : (snap : Snapshot) (l r : List Snapshot) → Waits snap l → Waits snap (l ++ r)
Waits-append snap [] r w = absurd w
Waits-append snap (x ∷ l) r (inl e) = inl e
Waits-append snap (x ∷ l) r (inr w) = inr (Waits-append snap l r w)

pub All-snoc :
    (snap x : Snapshot) (l : List Snapshot)
    → All (IsOld snap) l
    → IsOld snap x
    → All (IsOld snap) (l ++ x ∷ [])
All-snoc snap x [] a o = (o, tt)
All-snoc snap x (y ∷ l) (b, a) o = (b, All-snoc snap x l a o)

IsOld-newer :
    (snap new x : Snapshot)
    → snap.revision < new.revision
    → IsOld snap x
    → x.revision < new.revision
IsOld-newer snap new x newer (inl lt) = omega arith
IsOld-newer snap new x newer (inr e) = rw e newer

All-older :
    (snap new : Snapshot) (l : List Snapshot)
    → snap.revision < new.revision
    → All (IsOld snap) l
    → All (IsOld new) l
All-older snap new [] newer a = tt
All-older snap new (x ∷ l) newer (o, a) =
    (inl (IsOld-newer snap new x newer o), All-older snap new l newer a)

All-drop : (snap : Snapshot) (l : List Snapshot) → All (IsOld snap) l → All (IsOld snap) (drop 1 l)
All-drop snap [] a = tt
All-drop snap (x ∷ l) a = a.1

-- What an offer leaves in a channel with no blocked sender.
record IsOffered (new : Snapshot) (ch ch' : Channel) : Type 0 where
  pub capacity_same : ch'.capacity ≡ ch.capacity
  pub fits_still : length ch'.queued ≤ ch'.capacity
  pub unblocked_still : ch'.sending ≡ none
  pub last :
      (l : List Snapshot) × (ch'.queued ≡ l ++ new ∷ [])
      × (All (IsOld new) ch.queued → All (IsOld new) l)

make_room_unblocked :
    (ch : Channel)
    → ch.sending ≡ none
    → make_room ch ≡ record ch { queued = drop 1 ch.queued; sending = none }
unfolding make_room
make_room_unblocked ch unblocked =
    let same = append-nil (drop 1 ch.queued) in rw (unblocked, same) refl

sent-IsOffered :
    (new : Snapshot) (ch : Channel)
    → length ch.queued < ch.capacity
    → ch.sending ≡ none
    → IsOffered new ch (try_send new ch)
unfolding try_send
sent-IsOffered new ch room unblocked =
    if_induction (IsOffered new ch) (ltb (length ch.queued) ch.capacity)
      (λ below. record {
        capacity_same = refl;
        fits_still = let n = length-append ch.queued (new ∷ []) in omega arith;
        unblocked_still = unblocked;
        last = (ch.queued, refl, λ a. a);
      })
      (λ full. absurd (ground arith))

-- Without a blocked sender, an offer ends the queue with the new snapshot: where the channel is full,
-- the oldest one goes.
offer-IsOffered :
    (new : Snapshot) (ch : Channel)
    → 0 < ch.capacity
    → length ch.queued ≤ ch.capacity
    → ch.sending ≡ none
    → IsOffered new ch (offer new ch)
unfolding offer
offer-IsOffered new ch room fits unblocked =
    if_induction (IsOffered new ch) (ltb (length ch.queued) ch.capacity)
      (λ below. sent-IsOffered new ch (ground arith) unblocked)
      (λ full.
        let emptied : Channel = record ch { queued = drop 1 ch.queued; sending = none } in
        let shorter = length-drop 1 ch.queued in
        let sent = sent-IsOffered new emptied (omega arith) refl in
        let (l, is, all) = sent.last in
        let o : IsOffered new ch (try_send new emptied) = record {
          capacity_same = sent.capacity_same;
          fits_still = sent.fits_still;
          unblocked_still = sent.unblocked_still;
          last = (l, is, λ a. all (All-drop new ch.queued a));
        } in
        subst (λ c. IsOffered new ch (try_send new c)) (sym (make_room_unblocked ch unblocked)) o)

-- After a newer snapshot has been put, whatever the cache then is.
pub offered-InTouch :
    (w : Watched) (new : Snapshot) (c' : ContractCache)
    → w.store.snapshot.revision < new.revision
    → IsBehind new c'
    → InTouch w
    → InTouch (record w {
      store = record w.store { snapshot = new; watchers = offer_all new w.store.watchers };
      cache = c';
    })
unfolding offer_all
offered-InTouch w new c' newer b t =
    let offered = offer-IsOffered new t.channel t.has_room t.fits t.unblocked in
    let (l, is, all) = offered.last in
    let older = All-older w.store.snapshot new t.channel.queued newer t.old in
    record {
      channel = offer new t.channel;
      others = offer_all new t.others;
      is_first = ap (offer_all new) t.is_first;
      has_room = let o = offered.capacity_same in let r = t.has_room in omega arith;
      fits = offered.fits_still;
      unblocked = offered.unblocked_still;
      behind = b;
      old = subst (All (IsOld new)) (sym is) (All-snoc new new l (all older) (inr refl));
      initial_old =
          λ x waits. inl (IsOld-newer w.store.snapshot new x newer (t.initial_old x waits));
      taken_old = λ x waits. inl (IsOld-newer w.store.snapshot new x newer (t.taken_old x waits));
      delivers = λ late. inl (subst (Waits new) (sym is) (Waits-snoc new l));
    }

-- A commit puts a newer snapshot, and applies it.
pub commit-applies :
    (now : Time) (given : Snapshot) (s : ContractStore) (c : ContractCache)
    → s.snapshot.revision + 1 < 2 ^ 64
    → (new : Snapshot) × (s.snapshot.revision < new.revision)
      × (commit_snapshot now given (some s) c ≡ (
        some (record s { snapshot = new; watchers = offer_all new s.watchers }),
        apply_snapshot new c,
      ))
unfolding commit_snapshot put_snapshot
commit-applies now given s c room =
    let snap : Snapshot =
      if nat_eq given.revision 0
      then record given { revision = next_store_revision c.store_version }
      else given in
    let new = stamped s.snapshot.revision now snap in
    let newer = stamped-newer s.snapshot.revision now snap room in (new, newer, ground arith)

-- The watcher takes a snapshot of the queue.
pub taken-IsBehind :
    (snap x : Snapshot) (c : ContractCache)
    → IsOld snap x
    → IsBehind snap c
    → IsBehind snap (take_snapshot x c)
unfolding take_snapshot
taken-IsBehind snap x c o b =
    if_induction (IsBehind snap) (ltb c.store_version x.revision)
      (λ newer. elim o [
        | inl lt ↦
            let v = apply-version x c (λ e. absurd (ground arith)) in
            record { version_le = omega arith; agrees = λ same. absurd (omega arith) }
        | inr e ↦ rw (sym e) (apply-IsBehind x c (λ z. absurd (ground arith)))
      ])
      (λ older. b)

pub behind-IsBehind :
    (snap new : Snapshot) (c : ContractCache)
    → snap.revision < new.revision
    → IsBehind snap c
    → IsBehind new c
behind-IsBehind snap new c newer b =
    let le = b.version_le in
    record { version_le = omega arith; agrees = λ same. absurd (omega arith) }
