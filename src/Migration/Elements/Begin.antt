-- ===== src/Migration/Elements/Begin.antt =====
-- An Elements wallet's stack of versions after Step 1.
use test_app_pkcs.Prelude.{
  ℕ, ◌<◌, ◌^◌, ◌≡◌, refl, sym, Bool, true, false, String, some, none, List, [], ◌∷◌, ◌++◌, arith,
  any, keep, length, All, ◌==◌, ◌∙◌, ap,
}
use test_app_pkcs.Prelude.Result.{ok, ok_or, ok-injective, >>=-eq-ok}
use test_app_pkcs.Prelude.Sql.{update_where, update_where-append}
use test_app_pkcs.Prelude.Sort.{length-sort_by}
use test_app_pkcs.Config.{AppConfig}
use test_app_pkcs.Db.Versions.{
  VersionRow, VersionDb, of_elements_wallet, new_row, is_older, with_status, pending, same_slot,
  list_federation_versions_for_elements_wallet, insert_federation_version,
  set_pending_migration_for_older_elements_versions,
}
use test_app_pkcs.Elements.{descriptor}
use test_app_pkcs.Elements.Manager.{Settings, Lib, derivation_path_for, pick, add_signers}
use test_app_pkcs.Elements.Manager.Load.{UserElementsWallet}
use test_app_pkcs.Migration.{i32_or_zero}
use test_app_pkcs.Migration.Cli.{MigrationConfig}
use test_app_pkcs.Migration.Stack.{IsStack, Extended, aged, next-Extended}
use test_app_pkcs.Migration.Elements.{
  NewElementsFederation, signer_positions, new_key, build_new_elements_federation, version_of,
  begin_elements_version,
}

free_slot :
    (w n : ℕ) (rows : List VersionRow)
    → All (λ r. of_elements_wallet w r ≡ true → r.version_index < n) rows
    → any (same_slot (some w) n (λ r. r.elements_wallet_id)) rows ≡ false
unfolding any
free_slot w n [] h = refl
free_slot w n (r ∷ rows) h = ground (arith, h.0, free_slot w n rows h.1)

no_slot : (n : ℕ) (rows : List VersionRow) → any (same_slot none n (λ r. r.wallet_id)) rows ≡ false
unfolding any
no_slot n [] = refl
no_slot n (r ∷ rows) = no_slot n rows

module _ {S N B : Type 0} (cfg : Settings) (lib : Lib S N B) where
  -- What the new federation is made of.
  pub built-parts :
      (mcfg : MigrationConfig) (app : AppConfig) (uw : UserElementsWallet S N) (s : VersionDb)
      (f : NewElementsFederation)
      → build_new_elements_federation cfg lib mcfg app uw s ≡ ok f
      → let versions = list_federation_versions_for_elements_wallet uw.wallet_id s in
        (f.mbk ≡ new_key cfg lib mcfg uw versions) × (f.version ≡ i32_or_zero (length versions))
  unfolding build_new_elements_federation
  built-parts mcfg app uw s f h =
      let versions = list_federation_versions_for_elements_wallet uw.wallet_id s in
      let mbk = new_key cfg lib mcfg uw versions in
      let (path, e0, h0) =
        >>=-eq-ok (derivation_path_for cfg.bip48_coin_index uw.account_idx) _ h in
      let (positions, e1, h1) =
        >>=-eq-ok (signer_positions app.federation.hsm_tokens mcfg.signers) _ h0 in
      let (all, e2, h2) = >>=-eq-ok (lib.signers_for uw.user_id path) _ h1 in
      let (patched, e3, h3) = >>=-eq-ok (pick cfg lib all positions) _ h2 in
      let (builder, e4, h4) =
        >>=-eq-ok (ok_or (lib.new_builder mcfg.threshold mbk) descriptor) _ h3 in
      let (signed, e5, h5) = >>=-eq-ok (add_signers cfg lib patched builder) _ h4 in
      let (multipath, e6, h6) = >>=-eq-ok (ok_or (lib.build signed) descriptor) _ h5 in
      let same = ok-injective _ f h6 in (ap (λ x. x.mbk) (sym same), ap (λ x. x.version) (sym same))

  module _ (text : List ℕ → String) (handle : ℕ → ℕ → String) (id : ℕ) (mcfg : MigrationConfig)
      (app : AppConfig) (uw : UserElementsWallet S N) (f : NewElementsFederation)
      (s : VersionDb) where
    abbrev pub added : VersionRow
    added = new_row id (version_of cfg lib text handle mcfg uw f)

    abbrev mine : VersionRow → Bool
    mine = of_elements_wallet uw.wallet_id

    -- Step 1 for an Elements account succeeds with the federation that was built for it: for a known
    -- wallet that has fewer than 2^31 versions, their indices below their number, with a threshold and
    -- a signer count that a positive i32 holds. The indices are again below their number, the new version is listed last,
    -- no older version of the wallet is left not_applicable, and other rows are untouched.
    pub begin_elements_version_lem :
        build_new_elements_federation cfg lib mcfg app uw s ≡ ok f
        → (i32_or_zero mcfg.threshold == 0) ≡ false
        → (i32_or_zero (length mcfg.signers) == 0) ≡ false
        → any (λ x. x == uw.wallet_id) s.elements_wallets ≡ true
        → length (keep (of_elements_wallet uw.wallet_id) s.versions) < 2 ^ 31
        → IsStack (of_elements_wallet uw.wallet_id) s.versions
        → (t : VersionDb) × (begin_elements_version cfg lib text handle id mcfg uw f s ≡ ok t)
          × Extended (of_elements_wallet uw.wallet_id) s.versions added t.versions
    unfolding begin_elements_version insert_federation_version
        set_pending_migration_for_older_elements_versions
        list_federation_versions_for_elements_wallet update_where
    begin_elements_version_lem made t g known small stack =
        let rows = keep mine s.versions in
        let listed = length-sort_by (λ r. r.version_index) rows in
        let numbered : f.version ≡ length rows =
          (built-parts mcfg app uw s f made).1 ∙ rw listed (ground arith) in
        let below : All (λ r. mine r ≡ true → r.version_index < f.version) s.versions =
          rw numbered stack in
        let after = record s { versions = aged mine f.version s.versions ++ added ∷ [] } in
        let marked : aged mine f.version (s.versions ++ added ∷ []) ≡ after.versions =
          update_where-append (is_older mine f.version) (with_status pending) s.versions
            (added ∷ [])
          ∙ ground arith in
        (
          after,
          rw
              (
                t,
                g,
                no_slot f.version s.versions,
                free_slot uw.wallet_id f.version s.versions below,
                known,
              )
              (ap (λ xs. ok (record s { versions = xs })) marked),
          next-Extended mine (λ r. refl) s.versions added (ground arith) numbered stack,
        )
