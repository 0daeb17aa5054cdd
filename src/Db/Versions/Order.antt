-- ===== src/Db/Versions/Order.antt =====
-- The order of a wallet's federation versions.
use mathlib.Core.List.{Perm}
use test_app_pkcs.Prelude.{ℕ, ◌≤◌, ◌≡◌, some, keep, All}
use test_app_pkcs.Prelude.Sql.{sort_by}
use test_app_pkcs.Prelude.Sort.{last?, Sorted, sort_by-Sorted, sort_by-perm, last?-max}
use test_app_pkcs.Db.Versions.{
  VersionRow, VersionDb, of_wallet, list_federation_versions_for_wallet,
}

-- A wallet's versions are listed once each, from the oldest to the newest: the list is a permutation
-- of the wallet's rows, its indices rise, and none is above the index of the last.
pub list_federation_versions_for_wallet_lem :
    (w : ℕ) (s : VersionDb)
    → let rows = list_federation_versions_for_wallet w s in
      Perm rows (keep (of_wallet w) s.versions)
      × Sorted (λ r. r.version_index) rows
      × ((z : VersionRow) → last? rows ≡ some z → All (λ r. r.version_index ≤ z.version_index) rows)
unfolding list_federation_versions_for_wallet
list_federation_versions_for_wallet_lem w s =
    let mine = keep (of_wallet w) s.versions in
    let sorted = sort_by-Sorted (λ r. r.version_index) mine in
    (
      sort_by-perm (λ r. r.version_index) mine,
      sorted,
      λ z e. last?-max (λ r. r.version_index) (sort_by (λ r. r.version_index) mine) z sorted e,
    )
