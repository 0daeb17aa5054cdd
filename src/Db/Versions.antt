-- ===== src/Db/Versions.antt =====
-- The table `federation_versions` (migrations 0005, 0006 and 0008) and the functions of `src/db.rs`
-- on it.
pub mod Order
pub mod Migration
use text.Mathlib.Text.{◌==◌ as str_eq}
use test_app_pkcs.Prelude.{
  ℕ, zero, suc, ◌+◌, String, ◌≡◌, Bool, not, ◌&&◌, ◌||◌, true, false, Option, none, some, List, [],
  ◌∷◌, ◌++◌, any, find?, keep, ltb, leb, ◌==◌, if◌then◌else◌, length,
}
use test_app_pkcs.Prelude.Result.{Result, ok, err}
use test_app_pkcs.Prelude.Sql.{
  SqlxError, check_violation, unique_violation, foreign_key_violation, row_not_found, update_where,
  sort_by,
}
use test_app_pkcs.Db.{is_some_of}

-- The texts that the CHECK on `migration_status` allows.
pub data MigrationStatus : Type 0 where
  not_applicable pending in_progress complete : MigrationStatus

unfoldable pub status_of : String → Option MigrationStatus
status_of s =
    if str_eq s "not_applicable"
    then some not_applicable
    else if str_eq s "pending"
    then some pending
    else if str_eq s "in_progress"
    then some in_progress
    else if str_eq s "complete"
    then some complete
    else none

abbrev pub is_complete : MigrationStatus → Bool
is_complete complete = true
is_complete _ = false

abbrev pub is_in_progress : MigrationStatus → Bool
is_in_progress in_progress = true
is_in_progress _ = false

abbrev pub is_not_applicable : MigrationStatus → Bool
is_not_applicable not_applicable = true
is_not_applicable _ = false

pub record VersionRow : Type 0 where
  pub id : ℕ
  pub wallet_id : Option ℕ
  pub elements_wallet_id : Option ℕ
  pub version_index : ℕ
  pub descriptor : String
  pub threshold : ℕ
  pub signer_count : ℕ
  pub federation_snapshot : String
  pub wallet_handle : String
  pub blinding_key : Option String
  pub migration_status : MigrationStatus
  pub migration_sweep_txid : Option String

pub record NewFederationVersion : Type 0 where
  pub wallet_id : Option ℕ
  pub elements_wallet_id : Option ℕ
  pub version_index : ℕ
  pub descriptor : String
  pub threshold : ℕ
  pub signer_count : ℕ
  pub federation_snapshot : String
  pub wallet_handle : String
  pub blinding_key : Option String

-- `wallets` and `elements_wallets` are the ids that the foreign keys refer to.
pub record VersionDb : Type 0 where
  pub wallets : List ℕ
  pub elements_wallets : List ℕ
  pub versions : List VersionRow

abbrev pub of_wallet : ℕ → VersionRow → Bool
of_wallet w r = is_some_of w r.wallet_id

abbrev pub of_elements_wallet : ℕ → VersionRow → Bool
of_elements_wallet w r = is_some_of w r.elements_wallet_id

-- NULLs do not conflict.
abbrev pub same_slot : Option ℕ → ℕ → (VersionRow → Option ℕ) → VersionRow → Bool
same_slot none i column r = false
same_slot (some w) i column r = is_some_of w (column r) && r.version_index == i

abbrev pub one_owner : Option ℕ → Option ℕ → Bool
one_owner none (some w) = true
one_owner (some w) none = true
one_owner _ _ = false

abbrev pub refers : List ℕ → Option ℕ → Bool
refers ids none = true
refers ids (some w) = any (λ x. x == w) ids

abbrev pub new_row : ℕ → NewFederationVersion → VersionRow
new_row id v = record {
  id = id;
  wallet_id = v.wallet_id;
  elements_wallet_id = v.elements_wallet_id;
  version_index = v.version_index;
  descriptor = v.descriptor;
  threshold = v.threshold;
  signer_count = v.signer_count;
  federation_snapshot = v.federation_snapshot;
  wallet_handle = v.wallet_handle;
  blinding_key = v.blinding_key;
  migration_status = not_applicable;
  migration_sweep_txid = none;
}

-- `id` is the fresh id that the server draws. The conflict clause covers the Bitcoin slot alone, and
-- its DO NOTHING returns no row, which `fetch_one` reports as an error.
unfoldable pub insert_federation_version :
    ℕ → NewFederationVersion → VersionDb → Result SqlxError (VersionRow × VersionDb)
insert_federation_version id v s =
    if not (one_owner v.wallet_id v.elements_wallet_id) || (v.threshold == 0 || v.signer_count == 0)
    then err check_violation
    else if any (same_slot v.wallet_id v.version_index (λ r. r.wallet_id)) s.versions
    then err row_not_found
    else if any (same_slot v.elements_wallet_id v.version_index (λ r. r.elements_wallet_id))
        s.versions
    then err unique_violation
    else if refers s.wallets v.wallet_id && refers s.elements_wallets v.elements_wallet_id
    then ok (new_row id v, record s { versions = s.versions ++ new_row id v ∷ [] })
    else err foreign_key_violation

abbrev pub by_index : List VersionRow → List VersionRow
by_index = sort_by (λ r. r.version_index)

unfoldable pub list_federation_versions_for_wallet : ℕ → VersionDb → List VersionRow
list_federation_versions_for_wallet w s = by_index (keep (of_wallet w) s.versions)

unfoldable pub list_federation_versions_for_elements_wallet : ℕ → VersionDb → List VersionRow
list_federation_versions_for_elements_wallet w s = by_index (keep (of_elements_wallet w) s.versions)

unfoldable pub federation_version_count_for_wallet : ℕ → VersionDb → ℕ
federation_version_count_for_wallet w s = length (keep (of_wallet w) s.versions)

unfoldable pub federation_version_count_for_elements_wallet : ℕ → VersionDb → ℕ
federation_version_count_for_elements_wallet w s = length (keep (of_elements_wallet w) s.versions)

abbrev pub has_id : ℕ → VersionRow → Bool
has_id id r = r.id == id

abbrev pub with_status : MigrationStatus → VersionRow → VersionRow
with_status m r = record r { migration_status = m }

abbrev pub set_status :
    ℕ → Option MigrationStatus → VersionDb → Result SqlxError (Unit {0} × VersionDb)
set_status id (some m) s =
    ok (tt, record s { versions = update_where (has_id id) (with_status m) s.versions })
set_status id none s = if any (has_id id) s.versions then err check_violation else ok (tt, s)

-- A text that the CHECK refuses is an error only if there is a row to write it to.
unfoldable pub update_migration_status :
    ℕ → String → VersionDb → Result SqlxError (Unit {0} × VersionDb)
unfolding status_of
update_migration_status id status s = set_status id (status_of status) s

abbrev pub completed : String → VersionRow → VersionRow
completed txid r = record r { migration_status = complete; migration_sweep_txid = some txid }

unfoldable pub set_migration_complete : ℕ → String → VersionDb → VersionDb
set_migration_complete id txid s = record s {
  versions = update_where (has_id id) (completed txid) s.versions;
}

abbrev pub is_text : String → Option String → Bool
is_text t none = false
is_text t (some x) = str_eq x t

abbrev pub swept_by : ℕ → String → VersionRow → Bool
swept_by id txid r =
    r.id == id && (is_complete r.migration_status && is_text txid r.migration_sweep_txid)

abbrev pub reverted : VersionRow → VersionRow
reverted r = record r { migration_status = pending; migration_sweep_txid = none }

-- `rows_affected() == 1`
unfoldable pub reconcile_migration : ℕ → String → VersionDb → Bool × VersionDb
reconcile_migration id txid s = (
  length (keep (swept_by id txid) s.versions) == 1,
  record s { versions = update_where (swept_by id txid) reverted s.versions },
)

abbrev pub is_older : (VersionRow → Bool) → ℕ → VersionRow → Bool
is_older owned current r =
    owned r && (ltb r.version_index current && is_not_applicable r.migration_status)

unfoldable pub set_pending_migration_for_older_versions : ℕ → ℕ → VersionDb → VersionDb
set_pending_migration_for_older_versions w current s = record s {
  versions = update_where (is_older (of_wallet w) current) (with_status pending) s.versions;
}

unfoldable pub set_pending_migration_for_older_elements_versions : ℕ → ℕ → VersionDb → VersionDb
set_pending_migration_for_older_elements_versions w current s = record s {
  versions =
      update_where (is_older (of_elements_wallet w) current) (with_status pending) s.versions;
}

unfoldable pub has_in_progress_migration : ℕ → VersionDb → Bool
has_in_progress_migration w s =
    ltb 0 (length (keep (λ r. of_wallet w r && is_in_progress r.migration_status) s.versions))

unfoldable pub has_in_progress_elements_migration : ℕ → VersionDb → Bool
has_in_progress_elements_migration w s =
    ltb 0
      (length (keep (λ r. of_elements_wallet w r && is_in_progress r.migration_status) s.versions))
