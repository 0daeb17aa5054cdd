-- ===== src/Wallet/Manager.antt =====
-- `WalletManager` of `src/wallet.rs`: creating a user's row, and loading a wallet from it.
pub mod Ensure
pub mod Load
pub mod Signers
use test_app_pkcs.Prelude.{
  ℕ, suc, ◌+◌, ◌^◌, String, Bool, Option, none, some, List, [], ◌∷◌, ltb, ◌==◌, if◌then◌else◌,
  get_elem?, find?, length,
}
use text.Mathlib.Text.{◌==◌ as str_eq}
use test_app_pkcs.Prelude.Result.{Result, ok, err, ok_or, ◌>>=◌}
use test_app_pkcs.Prelude.Sort.{last?}
use test_app_pkcs.Db.Wallets.{
  WalletRow, NewWallet, WalletDb, insert_wallet, find_wallet_for_user, next_account_idx,
  update_wallet_descriptor_and_changeset,
}
use test_app_pkcs.Db.Versions.{
  VersionRow, VersionDb, list_federation_versions_for_wallet, insert_federation_version,
}
use test_app_pkcs.Migration.{i32_or_zero}
use test_app_pkcs.Wallet.{
  WalletError, from_sqlx, hsm, sign, script_type_unavailable, create_wallet, panicked,
}

-- `ChildNumber::from_hardened_idx`, as the number that BIP-32 writes
abbrev pub from_hardened_idx : ℕ → Result WalletError ℕ
from_hardened_idx n = if ltb n (2 ^ 31) then ok (n + 2 ^ 31) else err sign

unfoldable pub derivation_path_for : ℕ → ℕ → Result WalletError (List ℕ)
derivation_path_for coin account = do
  purpose ← from_hardened_idx 48
  c ← from_hardened_idx coin
  a ← from_hardened_idx account
  script ← from_hardened_idx 2
  ok (purpose ∷ c ∷ a ∷ script ∷ [])

-- The app's settings that the manager keeps.
pub record Settings : Type 0 where
  pub bip48_coin_index : ℕ
  pub fed_signer_indices : List ℕ
  pub fed_threshold : ℕ

-- The HSM, the federation builder and BDK, as the manager calls them. `S` is a signer, `F` a
-- federation, `W` a BDK wallet.
pub record Lib (S F W : Type 0) : Type 0 where
  pub signers_for : ℕ → List ℕ → Result WalletError (List S)
  pub supports : List S → Bool
  pub with_config : ℕ → List S → Result WalletError F
  pub reconstruct : VersionRow → List S → Result WalletError F
  pub threshold : F → ℕ
  pub total_signers : F → ℕ
  pub multipath : F → String
  pub snapshot : F → String
  pub create : String → Result WalletError W
  pub init_or_load : String → Option String → Result WalletError (W × String)
  pub take_staged : W → String
  pub tip : W → ℕ
  pub external_index : W → Option ℕ
  pub reveal_to : ℕ → W → W
  pub handle : ℕ → String

-- Both tables, and the cache of loaded wallets.
pub record AppDb : Type 0 where
  pub accounts : WalletDb
  pub stacks : VersionDb

module _ {S F W : Type 0} (cfg : Settings) (lib : Lib S F W) where
  open lib use {
    signers_for, supports, with_config, reconstruct, threshold, total_signers, multipath, snapshot,
    create, init_or_load, take_staged, tip, external_index, reveal_to, handle,
  }

  -- `fed_signer_indices.iter().map(|&idx| all_signers[idx])`
  unfoldable pub pick : List S → List ℕ → Result WalletError (List S)
  pick all [] = ok []
  pick all (i ∷ is) = do
    signer ← ok_or (get_elem? all i) panicked
    rest ← pick all is
    ok (signer ∷ rest)

  abbrev pub eligible : List S → Result WalletError (List S)
  eligible signers = if supports signers then ok signers else err script_type_unavailable

  -- What `create_wallet_for_user_at` writes.
  unfoldable pub new_wallet : ℕ → ℕ → Result WalletError NewWallet
  new_wallet user account = do
    path ← derivation_path_for cfg.bip48_coin_index account
    all ← signers_for user path
    picked ← pick all cfg.fed_signer_indices
    patched ← eligible picked
    fed ← with_config cfg.fed_threshold patched
    probe ← create (multipath fed)
    ok (record {
      user_id = user;
      account_idx = account;
      descriptor = multipath fed;
      bdk_changeset = take_staged probe;
      chain_tip_height = i32_or_zero (tip probe);
    })

  unfoldable pub create_wallet_for_user_at :
      ℕ → ℕ → ℕ → WalletDb → Result WalletError (WalletRow × WalletDb)
  create_wallet_for_user_at id user account s =
      new_wallet user account >>= λ v. from_sqlx (insert_wallet id v s)

  unfoldable pub create_wallet_for_user :
      ℕ → ℕ → WalletDb → Result WalletError (WalletRow × WalletDb)
  unfolding create_wallet_for_user_at
  create_wallet_for_user id user s =
      from_sqlx (next_account_idx s) >>= λ account. create_wallet_for_user_at id user account s

  abbrev pub row_or :
      WalletDb
      → Result WalletError (WalletRow × WalletDb)
      → Option WalletRow
      → Result WalletError (WalletRow × WalletDb)
  row_or s make none = make
  row_or s make (some row) = ok (row, s)

  unfoldable pub ensure_wallet_for_user :
      ℕ → ℕ → WalletDb → Result WalletError (WalletRow × WalletDb)
  unfolding create_wallet_for_user
  ensure_wallet_for_user id user s =
      row_or s (create_wallet_for_user id user s) (find_wallet_for_user user s)

  unfoldable pub ensure_wallet_for_user_at :
      ℕ → ℕ → ℕ → WalletDb → Result WalletError (WalletRow × WalletDb)
  unfolding create_wallet_for_user_at
  ensure_wallet_for_user_at id user account s =
      row_or s (create_wallet_for_user_at id user account s) (find_wallet_for_user user s)
