-- ===== src/Tests/Syncs.antt =====
-- Syncing the Bitcoin wallet.
use test_app_pkcs.Prelude.{
  arith, ℕ, ◌≡◌, refl, ◌+◌, true, none, some, List, [], ◌∷◌, any, keep, find?,
}
use test_app_pkcs.Prelude.Result.{ok}
use test_app_pkcs.Prelude.Sql.{update_where, sort_by, insert_by}
use test_app_pkcs.Db.Wallets.{WalletRow, WalletDb, update_wallet_changeset}
use test_app_pkcs.Db.Versions.{
  not_applicable, pending, list_federation_versions_for_wallet, reconcile_migration,
}
use test_app_pkcs.Wallet.Reconcile.{
  contains, insert, insert_wanted, insert_all, candidates, revert_absent, txids_present_in_graph,
  reconcile_reverted_migrations,
}
use test_app_pkcs.Wallet.Sync.{
  SyncSummary, Backend, SyncLib, Synced, persist_sync, sync_each, sync_through,
  reveal_version_wallets_to_inner, sync,
}
use test_app_pkcs.Wallet.Sync.Rebuilt.{Rebuilt, sync-Rebuilt, chosen}
use test_app_pkcs.Tests.Data.{hashes}
use test_app_pkcs.Tests.Versions.{version, versions}

-- A BDK wallet is its txids, and a changeset a number. The reorg took the sweep away.
abbrev emptied : Backend (List ℕ) ℕ
emptied w = (
  ok (record {
    tip_height = 90;
    blocks_synced = 2;
    new_mempool_txs = 0;
    reorg_rebuilt = true;
    changeset = some 7;
  }),
  [],
)

abbrev lib : SyncLib (List ℕ) ℕ
lib = record {
  esplora = some emptied;
  electrum = none;
  rpc = none;
  derivation_index = λ w. some 3;
  reveal_addresses_to = λ idx w. w;
  transactions = λ w. w;
  merge = λ a b. a + b;
  to_json = λ c. some "{}";
  txids = hashes;
}

abbrev row : WalletRow
row = record {
  id = 1;
  user_id = 5;
  account_idx = 0;
  descriptor = "wsh";
  bdk_changeset = some "old";
  chain_tip_height = some 95;
}

abbrev accounts : WalletRow → WalletDb
accounts r = record { users = 5 ∷ []; wallets = r ∷ []; elements_wallets = [] }

abbrev before : Synced (List ℕ) ℕ
before = record {
  version_wallets = (4 ∷ []) ∷ [];
  inner = 4 ∷ [];
  aggregate = 100;
  accounts = accounts row;
  versions = record { served = 3; db = versions };
}

abbrev after : Synced (List ℕ) ℕ
after = record {
  version_wallets = [] ∷ [];
  inner = [];
  aggregate = 7;
  accounts = accounts (record row { bdk_changeset = some "{}"; chain_tip_height = some 90 });
  versions = record {
    served = 1;
    db = record versions {
      versions = version 21 1 not_applicable none ∷ version 20 0 pending none ∷ [];
    };
  };
}

abbrev summary : SyncSummary
summary = record {
  tip_height = 90;
  new_blocks = 2;
  new_mempool_txs = 0;
  reorg_rebuilt = true;
  migrations_reverted = 1;
}

sync_run : sync lib 1 before ≡ (ok summary, after)
unfolding sync sync_through sync_each persist_sync reveal_version_wallets_to_inner
    update_wallet_changeset reconcile_reverted_migrations candidates revert_absent
    list_federation_versions_for_wallet reconcile_migration txids_present_in_graph insert_wanted
    insert_all contains insert any keep update_where sort_by insert_by
sync_run = refl

sync_example : Rebuilt lib 1 (chosen lib 1) row versions before after
unfolding find?
sync_example =
    sync-Rebuilt lib 1 2 row versions before after summary refl refl ((refl, tt), (tt, tt))
      (omega arith) (omega arith) sync_run refl
