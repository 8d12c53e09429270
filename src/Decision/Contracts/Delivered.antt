-- ===== src/Decision/Contracts/Delivered.antt =====
-- What the watcher of the contract store makes sure of (internal/decision/contract_store.go and
-- internal/decision/contract_runtime.go): the steps keep the cache in touch with the store.
use agent_infra_system.Base.{
  ◌≡◌, ◌≢◌, sym, ◌∙◌, subst, inl, inr, some, nat_eq, arith, Bool-cases, if◌then◌else◌,
}
use agent_infra_system.Base.Time.{Time}
use agent_infra_system.Decision.Contracts.{Snapshot, ContractStore, get_snapshot}
use agent_infra_system.Decision.Contracts.Cache.{
  ContractCache, bootstrap, publish_snapshot, build_snapshot, commit_snapshot, next_store_revision,
  apply_snapshot,
}
use agent_infra_system.Decision.Contracts.Latest.{IsBehind}
use agent_infra_system.Decision.Contracts.Queued.{apply-IsBehind, commit-applies}

-- After the bootstrap of a kernel, its cache agrees with the store.
pub bootstrap-IsBehind :
    (now : Time) (s s' : ContractStore) (c c' : ContractCache)
    → bootstrap now (some s) c ≡ (some s', c')
    → IsBehind s'.snapshot c'
unfolding bootstrap get_snapshot publish_snapshot
bootstrap-IsBehind now s s' c c' h = elim (Bool-cases (nat_eq s.snapshot.revision 0)) [
  | inl none_yet ↦
      let snap = build_snapshot now c in
      let given : Snapshot =
        if nat_eq snap.revision 0
        then record snap { revision = next_store_revision c.store_version }
        else snap in
      let (new, newer, is) = commit-applies now given s c (ground arith) in
      let there : new.revision ≢ 0 = λ z. absurd (omega arith) in
      let published : commit_snapshot now given (some s) c ≡ (some s', c') = ground arith in
      let after = sym is ∙ published in
      let store_is : new ≡ s'.snapshot = ground arith in
      let cache_is : apply_snapshot new c ≡ c' = ground arith in
      subst (λ n. IsBehind n c') store_is
        (subst (IsBehind new) cache_is (apply-IsBehind new c there))
  | inr there ↦
      let store_is : s ≡ s' = ground arith in
      let cache_is : apply_snapshot s.snapshot c ≡ c' = ground arith in
      subst (λ t. IsBehind t.snapshot c') store_is
        (subst (IsBehind s.snapshot) cache_is
          (apply-IsBehind s.snapshot c (λ z. absurd (ground arith))))
]
