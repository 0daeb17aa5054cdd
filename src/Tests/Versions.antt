-- ===== src/Tests/Versions.antt =====
-- Federation versions: the tables, the migration tool and the reconciliation.
use test_app_pkcs.Prelude.{
  ℕ, ◌+◌, String, ◌≡◌, refl, true, none, some, Option, [], ◌∷◌, arith, any, keep, ltb, ◌&&◌,
}
use test_app_pkcs.Prelude.Result.{ok}
use test_app_pkcs.Prelude.Sql.{update_where, sort_by, insert_by}
use test_app_pkcs.Db.Versions.{
  VersionRow, VersionDb, MigrationStatus, not_applicable, pending, complete, of_wallet, new_row,
  reverted, list_federation_versions_for_wallet, reconcile_migration, set_migration_complete,
}
use test_app_pkcs.Db.Versions.Migration.{start, step, swept, reconciled, IsSound, Run-IsSound}
use test_app_pkcs.Migration.{
  NewFederation, Step2, run_migration, begin_version, version_of, mark_swept, max_index,
}
use test_app_pkcs.Migration.Begin.{begin_version_lem}
use test_app_pkcs.Migration.Stack.{Extended}
use test_app_pkcs.Migration.Done.{Left, run_migration_lem}
use test_app_pkcs.Migration.Sweep.{marked, mark_swept_lem}
use test_app_pkcs.Wallet.Reconcile.{
  Graphs, contains, insert, insert_wanted, insert_all, candidates, revert_absent,
  txids_present_in_graph, reconcile_reverted_migrations,
}
use test_app_pkcs.Wallet.Reconcile.Loop.{completes}
use test_app_pkcs.Wallet.Reconcile.Reverted.{is_reversed, reconcile_reverted_migrations_lem}
use test_app_pkcs.Tests.Data.{hashes, unary}

abbrev pub version : ℕ → ℕ → MigrationStatus → Option String → VersionRow
version id index status sweep = record {
  id = id;
  wallet_id = some 1;
  elements_wallet_id = none;
  version_index = index;
  descriptor = "wsh";
  threshold = 2;
  signer_count = 3;
  federation_snapshot = "{}";
  wallet_handle = "w";
  blinding_key = none;
  migration_status = status;
  migration_sweep_txid = sweep;
}

-- A swept version, and its successor.
abbrev pub versions : VersionDb
versions = record {
  wallets = 1 ∷ [];
  elements_wallets = [];
  versions = version 21 1 not_applicable none ∷ version 20 0 complete (some (unary 4)) ∷ [];
}

abbrev elsewhere : Graphs
elsewhere = record { version_wallets = (6 ∷ []) ∷ []; inner = [] }

reconcile_example :
    let out =
      reconcile_reverted_migrations hashes true 1 elsewhere
        (record { served = 3; db = versions }) in
    (m : ℕ) × (out.0 ≡ ok m)
    × (out.1.db ≡ record versions {
      versions = update_where (is_reversed hashes 1 elsewhere) reverted versions.versions;
    })
    × (m + completes out.1.db.versions ≡ completes versions.versions)
reconcile_example =
    reconcile_reverted_migrations_lem hashes 1 2 elsewhere versions ((refl, tt), (tt, tt))
      (omega arith) (omega arith)

-- The run itself: one version is turned back.
reconcile_run :
    reconcile_reverted_migrations hashes true 1 elsewhere (record { served = 3; db = versions }) ≡ (
      ok 1,
      record {
        served = 1;
        db = record versions {
          versions = version 21 1 not_applicable none ∷ version 20 0 pending none ∷ [];
        };
      },
    )
unfolding reconcile_reverted_migrations candidates revert_absent list_federation_versions_for_wallet
    reconcile_migration txids_present_in_graph insert_wanted insert_all contains insert any keep
    update_where sort_by insert_by
reconcile_run = refl

abbrev three : NewFederation
three = record {
  descriptor = "new";
  threshold = 2;
  signer_count = 3;
  federation_snapshot = "{}";
  wallet_handle = "w";
}

begin_example :
    (t : VersionDb) × (begin_version 30 1 three versions ≡ ok t)
    × Extended (of_wallet 1) versions.versions (new_row 30 (version_of 1 2 three)) t.versions
unfolding any keep
begin_example =
    begin_version_lem 1 30 three versions refl refl refl (omega arith)
      ((λ e. omega arith), ((λ e. omega arith), tt))

mark_example : mark_swept 1 (some (unary 9)) versions ≡ record versions {
  versions =
      update_where
        (λ r.
          of_wallet 1 r
          && ltb r.version_index (max_index (list_federation_versions_for_wallet 1 versions)))
        (marked (some (unary 9)))
        versions.versions;
}
mark_example = mark_swept_lem 1 (some (unary 9)) versions ((refl, tt), (tt, tt))

done_example :
    (t : VersionDb) × (run_migration 30 1 three (Step2.swept (some (unary 9))) versions ≡ ok t)
    × Left 1 30 three versions (Step2.swept (some (unary 9))) t
unfolding any keep
done_example =
    run_migration_lem 1 30 three versions (Step2.swept (some (unary 9))) refl refl refl
      (omega arith) ((λ e. omega arith), ((λ e. omega arith), tt)) refl ((refl, tt), (tt, tt))

-- A reorg of the recorded sweep, and the sweep that replaces it.
run_example :
    IsSound (set_migration_complete 20 (unary 9) (reconcile_migration 20 (unary 4) versions).1)
run_example =
    Run-IsSound (step (step start (reconciled 20 (unary 4))) (swept 20 (unary 9)))
      (((λ e. refl), ((λ e. cc), tt)), ((refl, tt), (tt, tt)))
