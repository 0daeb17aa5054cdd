-- ===== src/Elements/Manager.antt =====
-- `ElementsWalletManager` of `src/elements_wallet.rs`: creating a user's row and finding the network.
pub mod Load
use test_app_pkcs.Prelude.{
  Bool, ℕ, ◌+◌, ◌^◌, String, Option, none, some, List, [], ◌∷◌, ltb, if◌then◌else◌, get_elem?,
}
use test_app_pkcs.Prelude.Result.{Result, ok, err, ok_or, ◌>>=◌}
use test_app_pkcs.Prelude.Step.{Action, lift, pure, ◌>>>◌}
use test_app_pkcs.Config.{
  AppConfig, ElementsConfig, ElementsNetwork, liquid, liquid_testnet, elements_regtest, RpcConfig,
}
use test_app_pkcs.Db.Wallets.{
  ElementsWalletRow, NewElementsWallet, WalletDb, insert_elements_wallet,
  find_elements_wallet_for_user, next_elements_account_idx,
}
use test_app_pkcs.Db.Versions.{VersionDb}
use test_app_pkcs.Elements.{ElementsWalletError, from_sqlx, sign, panicked, descriptor}
use test_app_pkcs.Elements.BlindingKey.Derived.{Hashers, derive_master_blinding_key}

-- `ChildNumber::from_hardened_idx`, as the number that BIP-32 writes
abbrev pub from_hardened_idx : ℕ → Result ElementsWalletError ℕ
from_hardened_idx n = if ltb n (2 ^ 31) then ok (n + 2 ^ 31) else err sign

unfoldable pub derivation_path_for : ℕ → ℕ → Result ElementsWalletError (List ℕ)
derivation_path_for coin account = do
  purpose ← from_hardened_idx 48
  c ← from_hardened_idx coin
  a ← from_hardened_idx account
  script ← from_hardened_idx 2
  ok (purpose ∷ c ∷ a ∷ script ∷ [])

-- The settings that the manager keeps.
pub record Settings : Type 0 where
  pub elements : ElementsConfig
  pub bip48_coin_index : ℕ
  pub fed_threshold : ℕ
  pub fed_signer_indices : List ℕ

-- `ElementsWalletManager::new`
abbrev pub new : AppConfig → Settings
new c = record {
  elements = c.elements;
  bip48_coin_index = c.btc.bip48_coin_index;
  fed_threshold = c.federation.fed_threshold;
  fed_signer_indices = c.federation.fed_signer_indices;
}

-- The HSM, the node, and the builder of descriptors. `S` is a signer, `N` an LWK network, `B` the
-- state of the builder, which `build` turns into the text of a multipath descriptor.
pub record Lib (S N B : Type 0) : Type 0 where
  pub signers_for : ℕ → List ℕ → Result ElementsWalletError (List S)
  pub to_lwk : ElementsNetwork → N
  pub node_lwk_network : RpcConfig → Result ElementsWalletError N
  pub hashers : Hashers
  pub hex_encode : List ℕ → String
  pub new_builder : ℕ → List ℕ → Option B
  pub add_signer : S → B → Option B
  pub build : B → Option String
  pub daemon_name : ℕ → String
  pub snapshot : String → String

-- The tables, the network once it is known, and whether the server serves the UPDATE that corrects a
-- row's descriptor.
pub record ElementsDb (N : Type 0) : Type 0 where
  pub accounts : WalletDb
  pub stacks : VersionDb
  pub lwk_net : Option N
  pub serves_update : Bool

module _ {S N B : Type 0} (cfg : Settings) (lib : Lib S N B) where
  open lib use {
    signers_for, to_lwk, node_lwk_network, hashers, hex_encode, new_builder, add_signer, build,
    daemon_name,
  }

  -- Only the test network asks the node.
  abbrev pub ask_network : ElementsNetwork → Result ElementsWalletError N
  ask_network elements_regtest = node_lwk_network cfg.elements.rpc
  ask_network liquid = ok (to_lwk liquid)
  ask_network liquid_testnet = ok (to_lwk liquid_testnet)

  abbrev pub keep_network : N → Action ElementsWalletError (ElementsDb N) N
  keep_network n s = (ok n, record s { lwk_net = some n })

  abbrev pub known_network : Option N → Action ElementsWalletError (ElementsDb N) N
  known_network (some n) = pure n
  known_network none = lift (ask_network cfg.elements.elements_network) >>> keep_network

  unfoldable pub lwk_network : Action ElementsWalletError (ElementsDb N) N
  lwk_network s = known_network s.lwk_net s

  -- `fed_signer_indices.iter().map(|&idx| all_signers[idx])`
  unfoldable pub pick : List S → List ℕ → Result ElementsWalletError (List S)
  pick all [] = ok []
  pick all (i ∷ is) = do
    signer ← ok_or (get_elem? all i) panicked
    rest ← pick all is
    ok (signer ∷ rest)

  unfoldable pub add_signers : List S → B → Result ElementsWalletError B
  add_signers [] b = ok b
  add_signers (signer ∷ signers) b = ok_or (add_signer signer b) descriptor >>= add_signers signers

  -- What `create_wallet_for_user_at` writes.
  unfoldable pub new_wallet : ℕ → ℕ → Result ElementsWalletError NewElementsWallet
  unfolding derive_master_blinding_key derivation_path_for pick add_signers
  new_wallet user account = do
    path ← derivation_path_for cfg.bip48_coin_index account
    all ← signers_for user path
    patched ← pick all cfg.fed_signer_indices
    builder ←
        ok_or (new_builder cfg.fed_threshold (derive_master_blinding_key hashers user account))
          descriptor
    signed ← add_signers patched builder
    multipath ← ok_or (build signed) descriptor
    ok (record {
      user_id = user;
      account_idx = account;
      descriptor = multipath;
      master_blinding_key = hex_encode (derive_master_blinding_key hashers user account);
      daemon_wallet_name = daemon_name account;
    })

  unfoldable pub create_wallet_for_user_at :
      ℕ → ℕ → ℕ → WalletDb → Result ElementsWalletError (ElementsWalletRow × WalletDb)
  unfolding new_wallet
  create_wallet_for_user_at id user account s =
      new_wallet user account >>= λ v. from_sqlx (insert_elements_wallet id v s)

  unfoldable pub create_wallet_for_user :
      ℕ → ℕ → WalletDb → Result ElementsWalletError (ElementsWalletRow × WalletDb)
  unfolding create_wallet_for_user_at
  create_wallet_for_user id user s = from_sqlx (next_elements_account_idx s) >>= λ account.
      create_wallet_for_user_at id user account s

  abbrev pub row_or :
      WalletDb
      → Result ElementsWalletError (ElementsWalletRow × WalletDb)
      → Option ElementsWalletRow
      → Result ElementsWalletError (ElementsWalletRow × WalletDb)
  row_or s make none = make
  row_or s make (some row) = ok (row, s)

  unfoldable pub ensure_wallet_for_user :
      ℕ → ℕ → WalletDb → Result ElementsWalletError (ElementsWalletRow × WalletDb)
  unfolding create_wallet_for_user
  ensure_wallet_for_user id user s =
      row_or s (create_wallet_for_user id user s) (find_elements_wallet_for_user user s)

  unfoldable pub ensure_wallet_for_user_at :
      ℕ → ℕ → ℕ → WalletDb → Result ElementsWalletError (ElementsWalletRow × WalletDb)
  unfolding create_wallet_for_user_at
  ensure_wallet_for_user_at id user account s =
      row_or s (create_wallet_for_user_at id user account s) (find_elements_wallet_for_user user s)
