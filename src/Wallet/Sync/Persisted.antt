-- ===== src/Wallet/Sync/Persisted.antt =====
-- What `persist_sync` and the reconciliation leave after the primary wallet was rebuilt.
use test_app_pkcs.Prelude.{
  ℕ, suc, ◌≡◌, ◌≤◌, ◌<◌, ◌^◌, refl, ap, sym, ◌∙◌, Bool, true, String, Option, none, some, Distinct,
  length,
}
use test_app_pkcs.Prelude.Result.{ok}
use test_app_pkcs.Prelude.Sql.{update_where}
use test_app_pkcs.Db.Wallets.{WalletRow, set_changeset, set_tip}
use test_app_pkcs.Db.Wallets.Updates.{
  by_id, by_id-update_wallet_changeset, by_id-update_wallet_tip_only,
}
use test_app_pkcs.Db.Versions.{VersionDb}
use test_app_pkcs.Db.Versions.{reverted}
use test_app_pkcs.Wallet.Reconcile.Reverted.{is_reversed, reconcile_reverted_migrations_lem}
use test_app_pkcs.Wallet.Reconcile.{reconcile_reverted_migrations}
use test_app_pkcs.Wallet.Step.{err-ok}
use test_app_pkcs.Wallet.Send.{as_i32}
use test_app_pkcs.Wallet.Sync.{
  SyncSummary, SyncLib, Synced, persist_sync, graphs, reconcile, write_json, replace_or_merge,
}

module _ {W C : Type 0} (lib : SyncLib W C) (wallet : ℕ) where
  -- The wallet's row and the aggregate after a rebuild that staged `delta`: nothing of the old
  -- aggregate is left.
  abbrev pub Replaced : C → ℕ → WalletRow → Option C → Synced W C → Type 0
  Replaced agg tip row none t =
      (t.aggregate ≡ agg) × (by_id wallet t.accounts ≡ some (set_tip (as_i32 tip) row))
  Replaced agg tip row (some delta) t =
      (t.aggregate ≡ delta)
      × (json : String) × (lib.to_json delta ≡ some json)
      × (by_id wallet t.accounts ≡ some (set_changeset json (as_i32 tip) row))

  write_json_ok :
      (tip : ℕ) (made : Option String) (row : WalletRow) (s t : Synced W C)
      → by_id wallet s.accounts ≡ some row
      → write_json lib wallet tip made s ≡ (ok tt, t)
      → (json : String) × (made ≡ some json)
        × (by_id wallet t.accounts ≡ some (set_changeset json (as_i32 tip) row))
        × (t.aggregate ≡ s.aggregate)
        × (t.versions ≡ s.versions)
  write_json_ok tip none row s t e run = absurd (err-ok (ap (λ p. p.0) run))
  write_json_ok tip (some json) row s t e run = (
    json,
    refl,
    ap (λ p. by_id wallet p.1.accounts) (sym run)
        ∙ by_id-update_wallet_changeset wallet (as_i32 tip) json row s.accounts e,
    ap (λ p. p.1.aggregate) (sym run),
    ap (λ p. p.1.versions) (sym run),
  )

  pub persist_sync-Replaced :
      (sum : SyncSummary) (delta : Option C) (row : WalletRow) (s t : Synced W C)
      → sum.reorg_rebuilt ≡ true
      → by_id wallet s.accounts ≡ some row
      → persist_sync lib wallet sum delta s ≡ (ok tt, t)
      → Replaced s.aggregate sum.tip_height row delta t × (t.versions ≡ s.versions)
  unfolding persist_sync
  persist_sync-Replaced sum none row s t b e run = (
    (
      ap (λ p. p.1.aggregate) (sym run),
      ap (λ p. by_id wallet p.1.accounts) (sym run)
          ∙ by_id-update_wallet_tip_only wallet (as_i32 sum.tip_height) row s.accounts e,
    ),
    ap (λ p. p.1.versions) (sym run),
  )
  persist_sync-Replaced sum (some delta) row s t b e run =
      let agg = replace_or_merge lib wallet sum.reorg_rebuilt s.aggregate delta in
      let same : agg ≡ delta = rw b refl in
      let (json, made, found, a, v) =
        write_json_ok sum.tip_height (lib.to_json agg) row (record s { aggregate = agg }) t e run in
      ((a ∙ same, json, sym (ap lib.to_json same) ∙ made, found), v)

  pub reconcile_ok :
      (any_reorg : Bool) (m n : ℕ) (db : VersionDb) (s t : Synced W C)
      → any_reorg ≡ true
      → s.versions ≡ record { served = suc n; db = db }
      → Distinct (λ r. r.id) db.versions
      → length db.versions < 2 ^ 32
      → length db.versions ≤ n
      → reconcile lib wallet any_reorg s ≡ (ok m, t)
      → (t.versions.db ≡ record db {
        versions =
            update_where (is_reversed lib.txids wallet (graphs lib wallet t)) reverted db.versions;
      })
        × (t.aggregate ≡ s.aggregate)
        × (t.accounts ≡ s.accounts)
  reconcile_ok any_reorg m n db s t b v d small served run =
      let (count, ran, rows, sum) =
        reconcile_reverted_migrations_lem lib.txids wallet n (graphs lib wallet s) db d small
          served in
      let left : (reconcile_reverted_migrations lib.txids any_reorg wallet (graphs lib wallet s)
            s.versions).1.db
          ≡ record db {
            versions =
                update_where (is_reversed lib.txids wallet (graphs lib wallet s)) reverted
                  db.versions;
          } =
        rw (b, v) rows in
      (
        ap (λ p. p.1.versions.db) (sym run)
            ∙ left
            ∙ ap
                (λ g. record db {
                  versions = update_where (is_reversed lib.txids wallet g) reverted db.versions;
                })
                (ap (λ p. graphs lib wallet p.1) run),
        ap (λ p. p.1.aggregate) (sym run),
        ap (λ p. p.1.accounts) (sym run),
      )

  pub Replaced-along :
      (agg was : C) (tip : ℕ) (row : WalletRow) (delta : Option C) (u t : Synced W C)
      → was ≡ agg
      → t.aggregate ≡ u.aggregate
      → t.accounts ≡ u.accounts
      → Replaced was tip row delta u
      → Replaced agg tip row delta t
  Replaced-along agg was tip row none u t g a c p = (a ∙ p.0 ∙ g, ap (by_id wallet) c ∙ p.1)
  Replaced-along agg was tip row (some delta) u t g a c (x, json, j, f) =
      (a ∙ x, json, j, ap (by_id wallet) c ∙ f)
