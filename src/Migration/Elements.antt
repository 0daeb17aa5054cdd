-- ===== src/Migration/Elements.antt =====
-- The Elements half of `examples/federation_migration.rs`: the federation that an account moves to,
-- Step 1, and the marking of the versions after the sweep.
pub mod Begin
pub mod Loaded
pub mod Sweep
use test_app_pkcs.Prelude.{
  ℕ, suc, String, Bool, Option, none, some, List, [], ◌∷◌, any, length, ◌==◌, if◌then◌else◌,
}
use test_app_pkcs.Prelude.Result.{Result, ok, err, ok_or, ◌>>=◌}
use test_app_pkcs.Prelude.Sql.{SqlxError}
use test_app_pkcs.Prelude.Sort.{last?}
use test_app_pkcs.Config.{HsmTokenConfig, AppConfig}
use test_app_pkcs.Config.Text.{text_eq}
use test_app_pkcs.Db.Versions.{
  VersionRow, VersionDb, NewFederationVersion, list_federation_versions_for_elements_wallet,
  insert_federation_version, set_pending_migration_for_older_elements_versions,
}
use test_app_pkcs.Wallet.Descriptor.{codes}
use test_app_pkcs.Elements.{ElementsWalletError, not_found, panicked, descriptor}
use test_app_pkcs.Elements.BlindingKey.{hex_encode_bytes, hex_decode_bytes}
use test_app_pkcs.Elements.BlindingKey.Derived.{Hashers, derive_elements_mbk}
use test_app_pkcs.Elements.Manager.{Settings, Lib, derivation_path_for, pick, add_signers}
use test_app_pkcs.Elements.Manager.Load.{UserElementsWallet}
use test_app_pkcs.Migration.{i32_or_zero, max_index, mark_older}
use test_app_pkcs.Migration.Cli.{MigrationConfig}

-- `(multipath_descriptor, mbk_bytes, version_index)`
pub record NewElementsFederation : Type 0 where
  pub new_descriptor : String
  pub mbk : List ℕ
  pub version : ℕ

abbrev pub next : Option ℕ → Option ℕ
next none = none
next (some i) = some (suc i)

-- `hsm_tokens.iter().position(|t| t.label == *label)`
unfoldable pub position : List ℕ → List HsmTokenConfig → Option ℕ
unfolding text_eq
position label [] = none
position label (t ∷ ts) =
    let rest = next (position label ts) in if text_eq t.label label then some 0 else rest

-- A label that no token has is the panic of `expect`.
unfoldable pub signer_positions :
    List HsmTokenConfig → List (List ℕ) → Result ElementsWalletError (List ℕ)
unfolding position
signer_positions tokens [] = ok []
signer_positions tokens (label ∷ labels) = do
  i ← ok_or (position label tokens) panicked
  rest ← signer_positions tokens labels
  ok (i ∷ rest)

module _ (hashers : Hashers) where
  abbrev pub decoded_or : ℕ → ℕ → ℕ → Option String → List ℕ
  decoded_or user account version none = derive_elements_mbk hashers user account version
  decoded_or user account version (some hex) = hex_decode_bytes (codes hex)

  -- The key that is carried over where it is not rotated.
  abbrev pub inherited_key : ℕ → ℕ → Option VersionRow → List ℕ
  inherited_key user account none = derive_elements_mbk hashers user account 0
  inherited_key user account (some latest) = decoded_or user account 0 latest.blinding_key

  abbrev pub stored_federation : ℕ → ℕ → Option VersionRow → Option NewElementsFederation
  stored_federation user account none = none
  stored_federation user account (some v) = some (record {
    new_descriptor = v.descriptor;
    mbk = decoded_or user account v.version_index v.blinding_key;
    version = v.version_index;
  })

module _ {S N B : Type 0} (cfg : Settings) (lib : Lib S N B) where
  abbrev pub new_key : MigrationConfig → UserElementsWallet S N → List VersionRow → List ℕ
  new_key mcfg uw versions =
      if mcfg.rotate_blinding_key
      then derive_elements_mbk lib.hashers uw.user_id uw.account_idx (i32_or_zero (length versions))
      else inherited_key lib.hashers uw.user_id uw.account_idx (last? versions)

  unfoldable pub build_new_elements_federation :
      MigrationConfig
      → AppConfig
      → UserElementsWallet S N
      → VersionDb
      → Result ElementsWalletError NewElementsFederation
  unfolding derivation_path_for signer_positions pick add_signers derive_elements_mbk
      hex_decode_bytes
  build_new_elements_federation mcfg app uw s = do
    path ← derivation_path_for cfg.bip48_coin_index uw.account_idx
    positions ← signer_positions app.federation.hsm_tokens mcfg.signers
    all ← lib.signers_for uw.user_id path
    patched ← pick cfg lib all positions
    let versions = list_federation_versions_for_elements_wallet uw.wallet_id s
    let mbk = new_key mcfg uw versions
    builder ← ok_or (lib.new_builder mcfg.threshold mbk) descriptor
    signed ← add_signers cfg lib patched builder
    multipath ← ok_or (lib.build signed) descriptor
    ok (record { new_descriptor = multipath; mbk = mbk; version = i32_or_zero (length versions) })

  -- Where an account's funds go: with `--sweep-only`, to the federation that is recorded last.
  unfoldable pub resolved :
      Bool
      → MigrationConfig
      → AppConfig
      → UserElementsWallet S N
      → VersionDb
      → Result ElementsWalletError NewElementsFederation
  unfolding build_new_elements_federation
  resolved sweep_only mcfg app uw s =
      if sweep_only
      then ok_or
          (stored_federation lib.hashers uw.user_id uw.account_idx
            (last? (list_federation_versions_for_elements_wallet uw.wallet_id s)))
          not_found
      else build_new_elements_federation mcfg app uw s

  -- `text` is the text of its ASCII codes; `handle` is the formatted name of a version.
  abbrev pub version_of :
      (List ℕ → String)
      → (ℕ → ℕ → String)
      → MigrationConfig
      → UserElementsWallet S N
      → NewElementsFederation
      → NewFederationVersion
  version_of text handle mcfg uw f = record {
    wallet_id = none;
    elements_wallet_id = some uw.wallet_id;
    version_index = f.version;
    descriptor = f.new_descriptor;
    threshold = i32_or_zero mcfg.threshold;
    signer_count = i32_or_zero (length mcfg.signers);
    federation_snapshot = lib.snapshot f.new_descriptor;
    wallet_handle = handle uw.account_idx f.version;
    blinding_key = some (text (hex_encode_bytes f.mbk));
  }

  -- Step 1 for one account; `id` is the id that the server draws for the row.
  unfoldable pub begin_elements_version :
      (List ℕ → String)
      → (ℕ → ℕ → String)
      → ℕ
      → MigrationConfig
      → UserElementsWallet S N
      → NewElementsFederation
      → VersionDb
      → Result SqlxError VersionDb
  begin_elements_version text handle id mcfg uw f s =
      insert_federation_version id (version_of text handle mcfg uw f) s >>= λ (row, t).
      ok (set_pending_migration_for_older_elements_versions uw.wallet_id f.version t)

-- A sweep that was broadcast: its txid, and the accounts and amounts that it carried.
pub record Swept : Type 0 where
  pub txid : String
  pub report : List (ℕ × ℕ)

abbrev pub later : Option String → Option String → Option String
later (some txid) older = some txid
later none older = older

-- `account_sweep_txid`: the last sweep that carried an output of the account.
unfoldable pub account_sweep_txid : ℕ → List Swept → Option String
account_sweep_txid account [] = none
account_sweep_txid account (t ∷ ts) =
    let rest = account_sweep_txid account ts in
    later rest (if any (λ o. o.0 == account) t.report then some t.txid else none)

-- The marking after the sweeps, for one account.
unfoldable pub mark_swept_elements : ℕ → ℕ → List Swept → VersionDb → VersionDb
unfolding account_sweep_txid
mark_swept_elements wallet account txs s =
    let versions = list_federation_versions_for_elements_wallet wallet s in
    mark_older (account_sweep_txid account txs) (max_index versions) versions s
