-- ===== src/Migration/Begin.antt =====
-- What a Bitcoin wallet's stack of versions looks like after `begin_version`.
use test_app_pkcs.Prelude.{
  ℕ, ◌<◌, ◌^◌, ◌≡◌, refl, true, false, some, none, List, [], ◌∷◌, ◌++◌, arith, any, keep, length,
  All, ◌==◌, ◌∙◌, ap,
}
use test_app_pkcs.Prelude.Result.{ok}
use test_app_pkcs.Prelude.Sql.{update_where, update_where-append}
use test_app_pkcs.Prelude.Sort.{length-sort_by}
use test_app_pkcs.Db.Versions.{
  VersionRow, VersionDb, of_wallet, new_row, is_older, with_status, pending, same_slot,
  list_federation_versions_for_wallet, insert_federation_version,
  set_pending_migration_for_older_versions,
}
use test_app_pkcs.Migration.{NewFederation, begin_version, version_of, i32_or_zero, next_index}
use test_app_pkcs.Migration.Stack.{IsStack, Extended, aged, next-Extended}

module _ (w : ℕ) where
  free_slot :
      (n : ℕ) (rows : List VersionRow)
      → All (λ r. of_wallet w r ≡ true → r.version_index < n) rows
      → any (same_slot (some w) n (λ r. r.wallet_id)) rows ≡ false
  unfolding any
  free_slot n [] h = refl
  free_slot n (r ∷ rows) h = ground (arith, h.0, free_slot n rows h.1)

  no_slot :
      (n : ℕ) (rows : List VersionRow)
      → any (same_slot none n (λ r. r.elements_wallet_id)) rows ≡ false
  unfolding any
  no_slot n [] = refl
  no_slot n (r ∷ rows) = no_slot n rows

  module _ (id : ℕ) (f : NewFederation) (s : VersionDb) where
    abbrev pub count : ℕ
    count = length (keep (of_wallet w) s.versions)

    abbrev pub added : VersionRow
    added = new_row id (version_of w count f)

    abbrev pub next : VersionDb
    next = record s { versions = aged (of_wallet w) count s.versions ++ added ∷ [] }

    next_index-count : count < 2 ^ 31 → next_index w s ≡ count
    unfolding list_federation_versions_for_wallet
    next_index-count small =
        rw (length-sort_by (λ r. r.version_index) (keep (of_wallet w) s.versions)) (ground arith)

    aged-added : aged (of_wallet w) count (s.versions ++ added ∷ []) ≡ next.versions
    unfolding update_where
    aged-added =
        update_where-append (is_older (of_wallet w) count) (with_status pending) s.versions
          (added ∷ [])
        ∙ ground arith

    pub begin-next :
        (i32_or_zero f.threshold == 0) ≡ false
        → (i32_or_zero f.signer_count == 0) ≡ false
        → any (λ x. x == w) s.wallets ≡ true
        → count < 2 ^ 31
        → IsStack (of_wallet w) s.versions
        → begin_version id w f s ≡ ok next
    unfolding begin_version insert_federation_version set_pending_migration_for_older_versions
    begin-next t g known small stack =
        rw
          (
            next_index-count small,
            t,
            g,
            free_slot count s.versions stack,
            no_slot count s.versions,
            known,
          )
          (ap (λ rows. ok (record s { versions = rows })) aged-added)

    -- Step 1 succeeds for a known wallet that has fewer than 2^31 versions, their indices below their
    -- number, with a threshold and a signer count from 1 to 2^31 - 1. The wallet's indices are again
    -- below their number; the new version is the last that is listed, and `not_applicable`; no older
    -- version of the wallet is left `not_applicable`; and the rows of other wallets are as they were.
    pub begin_version_lem :
        (i32_or_zero f.threshold == 0) ≡ false
        → (i32_or_zero f.signer_count == 0) ≡ false
        → any (λ x. x == w) s.wallets ≡ true
        → count < 2 ^ 31
        → IsStack (of_wallet w) s.versions
        → (t : VersionDb) × (begin_version id w f s ≡ ok t)
          × Extended (of_wallet w) s.versions added t.versions
    begin_version_lem t g known small stack = (
      next,
      begin-next t g known small stack,
      next-Extended (of_wallet w) (λ r. refl) s.versions added (ground arith) refl stack,
    )
