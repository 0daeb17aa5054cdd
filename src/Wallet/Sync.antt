-- ===== src/Wallet/Sync.antt =====
-- Syncing the Bitcoin wallet: `UserWallet::sync`, `sync_esplora`, `sync_electrum`, `persist_sync` and
-- `reveal_version_wallets_to_inner` of `src/wallet.rs`. A backend's sync of one BDK wallet is a
-- parameter.
pub mod Persisted
pub mod Rebuilt
use test_app_pkcs.Prelude.{
  ℕ, String, Bool, true, false, ◌||◌, Option, none, some, List, [], ◌∷◌, map,
}
use test_app_pkcs.Prelude.Result.{Result, ok, err}
use test_app_pkcs.Prelude.Sql.{SqlxError, Conn}
use test_app_pkcs.Chain.{HashText}
use test_app_pkcs.Db.Wallets.{WalletDb, update_wallet_changeset, update_wallet_tip_only}
use test_app_pkcs.Db.Versions.{VersionDb}
use test_app_pkcs.Wallet.{WalletError, sqlx, from_sqlx, encode_change_set, rpc_client_missing}
use test_app_pkcs.Wallet.Step.{Step, pure, ◌>>>◌}
use test_app_pkcs.Wallet.Reconcile.{Graphs, reconcile_reverted_migrations}
use test_app_pkcs.Wallet.Send.{as_i32}

-- What a backend reports of one wallet, with the staged changeset of type `C`.
pub record SyncResult (C : Type 0) : Type 0 where
  pub tip_height : ℕ
  pub blocks_synced : ℕ
  pub new_mempool_txs : ℕ
  pub reorg_rebuilt : Bool
  pub changeset : Option C

pub record SyncSummary : Type 0 where
  pub tip_height : ℕ
  pub new_blocks : ℕ
  pub new_mempool_txs : ℕ
  pub reorg_rebuilt : Bool
  pub migrations_reverted : ℕ

abbrev pub Backend : Type 0 → Type 0 → Type 0
Backend W C = W → Result WalletError (SyncResult C) × W

pub record SyncLib (W C : Type 0) : Type 0 where
  pub esplora : Option (Backend W C)
  pub electrum : Option (Backend W C)
  pub rpc : Option (Backend W C)
  pub derivation_index : W → Option ℕ
  pub reveal_addresses_to : ℕ → W → W
  pub transactions : W → List ℕ
  pub merge : C → C → C
  pub to_json : C → Option String
  pub txids : HashText

-- The wallet's handle and the tables.
pub record Synced (W C : Type 0) : Type 0 where
  pub version_wallets : List W
  pub inner : W
  pub aggregate : C
  pub accounts : WalletDb
  pub versions : Conn VersionDb

module _ {W C : Type 0} (lib : SyncLib W C) (wallet : ℕ) where
  open lib use {
    esplora, electrum, rpc, derivation_index, reveal_addresses_to, transactions, merge, to_json,
    txids,
  }

  abbrev pub replace_or_merge : Bool → C → C → C
  replace_or_merge true agg delta = delta
  replace_or_merge false agg delta = merge agg delta

  abbrev pub write_json : ℕ → Option String → Step (Synced W C) (Unit {0})
  write_json tip none s = (err encode_change_set, s)
  write_json tip (some json) s =
      (ok tt, record s { accounts = update_wallet_changeset wallet json (as_i32 tip) s.accounts })

  unfoldable pub persist_sync : SyncSummary → Option C → Step (Synced W C) (Unit {0})
  persist_sync summary none s = (
    ok tt,
    record s { accounts = update_wallet_tip_only wallet (as_i32 summary.tip_height) s.accounts },
  )
  persist_sync summary (some delta) s =
      let agg = replace_or_merge summary.reorg_rebuilt s.aggregate delta in
      write_json summary.tip_height (to_json agg) (record s { aggregate = agg })

  abbrev pub reveal_each : Option ℕ → List W → List W
  reveal_each none ws = ws
  reveal_each (some idx) ws = map (reveal_addresses_to idx) ws

  unfoldable pub reveal_version_wallets_to_inner : Step (Synced W C) (Unit {0})
  reveal_version_wallets_to_inner s = (
    ok tt,
    record s { version_wallets = reveal_each (derivation_index s.inner) s.version_wallets },
  )

  abbrev pub then_sync :
      W
      → (Bool → Result WalletError Bool × List W)
      → List W
      → Result WalletError (SyncResult C)
      → Result WalletError Bool × List W
  then_sync w rest ws (err e) = (err e, w ∷ ws)
  then_sync w rest ws (ok r) = let out = rest r.reorg_rebuilt in (out.0, w ∷ out.1)

  -- The loop over the version wallets, which says whether any was rebuilt.
  unfoldable pub sync_each : Backend W C → Bool → List W → Result WalletError Bool × List W
  sync_each backend any_reorg [] = (ok any_reorg, [])
  sync_each backend any_reorg (w ∷ ws) =
      let out = backend w in
      then_sync out.1 (λ rebuilt. sync_each backend (any_reorg || rebuilt) ws) ws out.0

  abbrev pub sync_versions : Backend W C → Step (Synced W C) Bool
  sync_versions backend s =
      let out = sync_each backend false s.version_wallets in
      (out.0, record s { version_wallets = out.1 })

  abbrev pub sync_inner : Backend W C → Step (Synced W C) (SyncResult C)
  sync_inner backend s = let out = backend s.inner in (out.0, record s { inner = out.1 })

  abbrev pub summary_of : ℕ → SyncResult C → SyncSummary
  summary_of reverted r = record {
    tip_height = r.tip_height;
    new_blocks = r.blocks_synced;
    new_mempool_txs = r.new_mempool_txs;
    reorg_rebuilt = r.reorg_rebuilt;
    migrations_reverted = reverted;
  }

  abbrev pub graphs : Synced W C → Graphs
  graphs s = record {
    version_wallets = map transactions s.version_wallets;
    inner = transactions s.inner;
  }

  abbrev pub reconcile : Bool → Step (Synced W C) ℕ
  reconcile any_reorg s =
      let out = reconcile_reverted_migrations txids any_reorg wallet (graphs s) s.versions in
      (from_sqlx out.0, record s { versions = out.1 })

  abbrev pub after_persist : Bool → SyncResult C → Step (Synced W C) SyncSummary
  after_persist any_reorg result = reconcile (any_reorg || result.reorg_rebuilt) >>> λ reverted.
      pure (summary_of reverted result)

  abbrev pub after_inner : Bool → SyncResult C → Step (Synced W C) SyncSummary
  after_inner any_reorg result =
      persist_sync (summary_of 0 result) result.changeset >>> λ _. after_persist any_reorg result

  abbrev pub after_versions : Backend W C → Bool → Step (Synced W C) SyncSummary
  after_versions backend any_reorg = sync_inner backend >>> after_inner any_reorg

  unfoldable pub sync_through : Backend W C → Step (Synced W C) SyncSummary
  sync_through backend = sync_versions backend >>> after_versions backend

  abbrev pub missing_rpc : Backend W C
  missing_rpc w = (err rpc_client_missing, w)

  abbrev pub or_missing : Option (Backend W C) → Backend W C
  or_missing none = missing_rpc
  or_missing (some backend) = backend

  -- `sync_esplora` and `sync_electrum` reveal first.
  abbrev pub sync_indexed : Backend W C → Step (Synced W C) SyncSummary
  sync_indexed backend = reveal_version_wallets_to_inner >>> λ _. sync_through backend

  abbrev pub sync_choice :
      Option (Backend W C) → Option (Backend W C) → Step (Synced W C) SyncSummary
  sync_choice (some backend) other = sync_indexed backend
  sync_choice none (some backend) = sync_indexed backend
  sync_choice none none = sync_through (or_missing rpc)

  unfoldable pub sync : Step (Synced W C) SyncSummary
  unfolding sync_through reveal_version_wallets_to_inner
  sync = sync_choice esplora electrum
