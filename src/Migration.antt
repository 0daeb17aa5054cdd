-- ===== src/Migration.antt =====
-- What `examples/federation_migration.rs` does to the federation versions of a Bitcoin wallet: Step 1
-- adds a version and marks the older ones, and the end of Step 2 marks the swept ones, if it is reached.
pub mod Stack
pub mod Begin
pub mod Sweep
pub mod Done
pub mod Cli
pub mod Elements
use test_app_pkcs.Prelude.{
  ℕ, ◌^◌, String, Option, none, some, List, [], ◌∷◌, ltb, length, if◌then◌else◌,
}
use test_app_pkcs.Prelude.Result.{Result, ok, err, ◌>>=◌}
use test_app_pkcs.Prelude.Sql.{SqlxError}
use test_app_pkcs.Db.Versions.{
  VersionDb, VersionRow, NewFederationVersion, set_migration_complete, update_migration_status,
  list_federation_versions_for_wallet, insert_federation_version,
  set_pending_migration_for_older_versions,
}

-- `i32::try_from(n).unwrap_or(0)`
abbrev pub i32_or_zero : ℕ → ℕ
i32_or_zero n = if ltb n (2 ^ 31) then n else 0

-- The federation that the operator configured, as its row records it.
pub record NewFederation : Type 0 where
  pub descriptor : String
  pub threshold : ℕ
  pub signer_count : ℕ
  pub federation_snapshot : String
  pub wallet_handle : String

abbrev pub version_of : ℕ → ℕ → NewFederation → NewFederationVersion
version_of w index f = record {
  wallet_id = some w;
  elements_wallet_id = none;
  version_index = index;
  descriptor = f.descriptor;
  threshold = i32_or_zero f.threshold;
  signer_count = i32_or_zero f.signer_count;
  federation_snapshot = f.federation_snapshot;
  wallet_handle = f.wallet_handle;
  blinding_key = none;
}

abbrev pub next_index : ℕ → VersionDb → ℕ
next_index w s = i32_or_zero (length (list_federation_versions_for_wallet w s))

-- Step 1 for one wallet; `id` is the id that the server draws for the row.
unfoldable pub begin_version : ℕ → ℕ → NewFederation → VersionDb → Result SqlxError VersionDb
begin_version id w f s =
    insert_federation_version id (version_of w (next_index w s) f) s >>= λ (row, t).
    ok (set_pending_migration_for_older_versions w (next_index w s) t)

-- `versions.iter().map(|v| v.version_index).max().unwrap_or(0)`
unfoldable pub max_index : List VersionRow → ℕ
max_index [] = 0
max_index (v ∷ vs) =
    let rest = max_index vs in if ltb v.version_index rest then rest else v.version_index

abbrev pub ignored : VersionDb → Result SqlxError (Unit {0} × VersionDb) → VersionDb
ignored s (ok (tt, t)) = t
ignored s (err e) = s

-- The sweep's txid is recorded if there is one for the account.
abbrev pub mark_version : Option String → VersionRow → VersionDb → VersionDb
mark_version (some txid) v s = set_migration_complete v.id txid s
mark_version none v s = ignored s (update_migration_status v.id "complete" s)

unfoldable pub mark_older : Option String → ℕ → List VersionRow → VersionDb → VersionDb
mark_older sweep m [] s = s
mark_older sweep m (v ∷ vs) s =
    mark_older sweep m vs (if ltb v.version_index m then mark_version sweep v s else s)

-- After the sweep of a wallet: each version older than its newest is complete.
unfoldable pub mark_swept : ℕ → Option String → VersionDb → VersionDb
mark_swept w sweep s =
    let versions = list_federation_versions_for_wallet w s in
    mark_older sweep (max_index versions) versions s

-- How Step 2 ends for a wallet: there is nothing to move, the operator declines, the sweep fails, or it
-- succeeds, with the txid in `account_sweep_txid` if there is one.
pub data Step2 : Type 0 where
  no_funds declined failed : Step2
  swept : Option String → Step2

-- Every end but a sweep that succeeds leaves the program before the marking.
unfoldable pub after_step2 : ℕ → Step2 → VersionDb → VersionDb
unfolding mark_swept
after_step2 w no_funds s = s
after_step2 w declined s = s
after_step2 w failed s = s
after_step2 w (swept sweep) s = mark_swept w sweep s

-- A run without `--sweep-only`.
unfoldable pub run_migration :
    ℕ → ℕ → NewFederation → Step2 → VersionDb → Result SqlxError VersionDb
unfolding begin_version after_step2
run_migration id w f step2 s = begin_version id w f s >>= λ t. ok (after_step2 w step2 t)
