-- ===== src/Wallet/Sync/Rebuilt.antt =====
-- What a sync that rebuilt the primary wallet leaves in the tables.
use test_app_pkcs.Prelude.{
  ℕ, suc, ◌≡◌, ◌≤◌, ◌<◌, ◌^◌, ap, sym, ◌∙◌, Bool, true, ◌||◌, Option, none, some, Distinct, length,
  arith,
}
use test_app_pkcs.Prelude.Result.{ok, ok-injective}
use test_app_pkcs.Prelude.Sql.{update_where}
use test_app_pkcs.Db.Wallets.{WalletRow}
use test_app_pkcs.Db.Wallets.Updates.{by_id}
use test_app_pkcs.Db.Versions.{VersionDb}
use test_app_pkcs.Db.Versions.{reverted}
use test_app_pkcs.Wallet.Reconcile.Reverted.{is_reversed}
use test_app_pkcs.Wallet.Step.{>>>-eq-ok, pure}
use test_app_pkcs.Wallet.Sync.{
  SyncResult, SyncSummary, Backend, SyncLib, Synced, persist_sync, sync_versions, sync_inner,
  summary_of, graphs, reconcile, sync_through, or_missing, sync, sync_indexed, sync_choice,
  reveal_each, reveal_version_wallets_to_inner, after_persist, after_inner, after_versions,
}
use test_app_pkcs.Wallet.Sync.Persisted.{
  Replaced, persist_sync-Replaced, reconcile_ok, Replaced-along,
}

module _ {W C : Type 0} (lib : SyncLib W C) (wallet : ℕ) where
  -- The backend that `sync` uses.
  abbrev pub first_of : Option (Backend W C) → Backend W C → Backend W C
  first_of none other = other
  first_of (some backend) other = backend

  abbrev pub chosen : Backend W C
  chosen = first_of lib.esplora (first_of lib.electrum (or_missing lib wallet lib.rpc))

  -- What a sync of `s` through `backend` that rebuilt the primary wallet leaves.
  abbrev pub Rebuilt : Backend W C → WalletRow → VersionDb → Synced W C → Synced W C → Type 0
  Rebuilt backend row db s t =
      (r : SyncResult C) × ((backend s.inner).0 ≡ ok r)
      × Replaced lib wallet s.aggregate r.tip_height row r.changeset t
      × (t.versions.db ≡ record db {
        versions =
            update_where (is_reversed lib.txids wallet (graphs lib wallet t)) reverted db.versions;
      })

  or_true : (a b : Bool) → b ≡ true → (a || b) ≡ true
  or_true a b e = ground arith

  sync_through-Rebuilt :
      (backend : Backend W C) (n : ℕ) (row : WalletRow) (db : VersionDb) (s t : Synced W C)
      (sum : SyncSummary)
      → by_id wallet s.accounts ≡ some row
      → s.versions ≡ record { served = suc n; db = db }
      → Distinct (λ r. r.id) db.versions
      → length db.versions < 2 ^ 32
      → length db.versions ≤ n
      → sync_through lib wallet backend s ≡ (ok sum, t)
      → sum.reorg_rebuilt ≡ true
      → Rebuilt backend row db s t
  unfolding sync_through
  sync_through-Rebuilt backend n row db s t sum e v d small served run b =
      let (any_reorg, s1, run1, rest1) =
        >>>-eq-ok (sync_versions lib wallet backend) (after_versions lib wallet backend) s t sum
          run in
      let (r, s2, run2, rest2) =
        >>>-eq-ok (sync_inner lib wallet backend) (after_inner lib wallet any_reorg) s1 t sum
          rest1 in
      let (_, s3, run3, rest3) =
        >>>-eq-ok (persist_sync lib wallet (summary_of lib wallet 0 r) r.changeset)
          (λ _. after_persist lib wallet any_reorg r) s2 t sum rest2 in
      let (m, s4, run4, rest4) =
        >>>-eq-ok (reconcile lib wallet (any_reorg || r.reorg_rebuilt))
          (λ m. pure (summary_of lib wallet m r)) s3 t sum rest3 in
      let rebuilt : r.reorg_rebuilt ≡ true =
        ap (λ x. x.reorg_rebuilt)
          (ok-injective (summary_of lib wallet m r) sum (ap (λ p. p.0) rest4))
        ∙ b in
      let found =
        ap (λ p. by_id wallet p.1.accounts) (sym run2)
        ∙ ap (λ p. by_id wallet p.1.accounts) (sym run1)
        ∙ e in
      let (replaced, v3) =
        persist_sync-Replaced lib wallet (summary_of lib wallet 0 r) r.changeset row s2 s3 rebuilt
          found run3 in
      let v2 = ap (λ p. p.1.versions) (sym run2) ∙ ap (λ p. p.1.versions) (sym run1) in
      let (rows, a, c) =
        reconcile_ok lib wallet (any_reorg || r.reorg_rebuilt) m n db s3 s4
          (or_true any_reorg r.reorg_rebuilt rebuilt) (v3 ∙ v2 ∙ v) d small served run4 in
      let g = ap (λ p. p.1.aggregate) (sym run2) ∙ ap (λ p. p.1.aggregate) (sym run1) in
      let last = ap (λ p. p.1) rest4 in
      (
        r,
        ap (λ p. (backend p.1.inner).0) run1 ∙ ap (λ p. p.0) run2,
        Replaced-along lib wallet s.aggregate s2.aggregate r.tip_height row r.changeset s3 t g
            (sym (ap (λ x. x.aggregate) last) ∙ a) (sym (ap (λ x. x.accounts) last) ∙ c) replaced,
        rw (sym last) rows,
      )

  sync_indexed-Rebuilt :
      (backend : Backend W C) (n : ℕ) (row : WalletRow) (db : VersionDb) (s t : Synced W C)
      (sum : SyncSummary)
      → by_id wallet s.accounts ≡ some row
      → s.versions ≡ record { served = suc n; db = db }
      → Distinct (λ r. r.id) db.versions
      → length db.versions < 2 ^ 32
      → length db.versions ≤ n
      → sync_indexed lib wallet backend s ≡ (ok sum, t)
      → sum.reorg_rebuilt ≡ true
      → Rebuilt backend row db s t
  unfolding reveal_version_wallets_to_inner
  sync_indexed-Rebuilt backend n row db s t sum =
      sync_through-Rebuilt backend n row db
        (record s {
          version_wallets = reveal_each lib wallet (lib.derivation_index s.inner) s.version_wallets;
        })
        t sum

  -- If sync succeeds and reports that the primary wallet was rebuilt, the aggregate is the changeset
  -- that the backend in use staged, with nothing of the old one, and the wallet's row holds its JSON
  -- and the tip; if none was staged, only the row's tip changes. Of the wallet's complete versions,
  -- exactly those whose recorded sweep is in no graph of the synced wallets are back at pending, with
  -- no sweep; no other version changes. Conditions: version ids are distinct, the table has fewer than
  -- 2^32 rows, and the server serves one statement on it more than it has rows.
  pub sync-Rebuilt :
      (n : ℕ) (row : WalletRow) (db : VersionDb) (s t : Synced W C) (sum : SyncSummary)
      → by_id wallet s.accounts ≡ some row
      → s.versions ≡ record { served = suc n; db = db }
      → Distinct (λ r. r.id) db.versions
      → length db.versions < 2 ^ 32
      → length db.versions ≤ n
      → sync lib wallet s ≡ (ok sum, t)
      → sum.reorg_rebuilt ≡ true
      → Rebuilt chosen row db s t
  unfolding sync
  sync-Rebuilt n row db s t sum e v d small served run b = with_choice lib.esplora lib.electrum run
    where
      with_choice :
          (a c : Option (Backend W C))
          → sync_choice lib wallet a c s ≡ (ok sum, t)
          → Rebuilt (first_of a (first_of c (or_missing lib wallet lib.rpc))) row db s t
      with_choice (some x) c h = sync_indexed-Rebuilt x n row db s t sum e v d small served h b
      with_choice none (some x) h = sync_indexed-Rebuilt x n row db s t sum e v d small served h b
      with_choice none none h =
          sync_through-Rebuilt (or_missing lib wallet lib.rpc) n row db s t sum e v d small served h
            b
