-- ===== src/Tests/Wallets.antt =====
-- Creating and loading a wallet, over libraries of texts: a federation is its descriptor, and so is
-- a BDK wallet.
use test_app_pkcs.Prelude.{
  true, keep, ℕ, String, ◌≡◌, refl, none, some, List, [], ◌∷◌, ◌++◌, any, find?,
}
use test_app_pkcs.Prelude.Result.{ok}
use test_app_pkcs.Prelude.Sql.{sort_by, update_where}
use test_app_pkcs.Db.Wallets.{
  WalletRow, WalletDb, insert_wallet, find_wallet_for_user, next_free, next_account_idx,
  update_wallet_descriptor_and_changeset,
}
use test_app_pkcs.Db.Versions.{not_applicable, VersionRow, list_federation_versions_for_wallet}
use test_app_pkcs.Wallet.Manager.{
  Settings, Lib, AppDb, pick, derivation_path_for, new_wallet, create_wallet_for_user_at,
  create_wallet_for_user, ensure_wallet_for_user,
}
use test_app_pkcs.Wallet.Manager.Ensure.{IsKeyed, ensure_wallet_for_user_lem}
use test_app_pkcs.Wallet.Manager.Load.{
  Stack, UserWallet, current_federation, latest_version, inner_for,
  rebind_inner_to_current_federation, build_federated_wallet, push_versions, metadata_wallets,
  build_user_wallet,
}
use test_app_pkcs.Wallet.Manager.Load.Rebound.{Names, build_user_wallet_lem}

abbrev settings : Settings
settings = record { bip48_coin_index = 1; fed_signer_indices = 0 ∷ 2 ∷ []; fed_threshold = 2 }

abbrev pub lib : Lib ℕ String String
lib = record {
  signers_for = λ user path. ok (7 ∷ 8 ∷ 9 ∷ []);
  supports = λ signers. true;
  with_config = λ threshold signers. ok "wsh";
  reconstruct = λ version signers. ok version.descriptor;
  threshold = λ f. 2;
  total_signers = λ f. 2;
  multipath = λ f. f;
  snapshot = λ f. "{}";
  create = λ desc. ok desc;
  init_or_load = λ desc changeset. ok (desc, "{}");
  take_staged = λ w. "{}";
  tip = λ w. 0;
  external_index = λ w. some 3;
  reveal_to = λ n w. w;
  handle = λ id. "w";
}

abbrev stack : Stack String String (List String)
stack = record {
  new = λ f w. ok (f ∷ []);
  with_federation = λ v f w. ok (v ++ f ∷ []);
  federations = λ v. v;
}

abbrev wallet : ℕ → ℕ → ℕ → String → WalletRow
wallet id user account descriptor = record {
  id = id;
  user_id = user;
  account_idx = account;
  descriptor = descriptor;
  bdk_changeset = some "{}";
  chain_tip_height = some 0;
}

abbrev before : WalletDb
before = record { users = 4 ∷ 5 ∷ []; wallets = wallet 10 4 0 "wsh" ∷ []; elements_wallets = [] }

abbrev after : WalletDb
after = record before { wallets = wallet 10 4 0 "wsh" ∷ wallet 11 5 1 "wsh" ∷ [] }

ensure_example :
    IsKeyed after
    × (find_wallet_for_user 5 after ≡ some (wallet 11 5 1 "wsh"))
    × (ensure_wallet_for_user settings lib 12 5 after ≡ ok (wallet 11 5 1 "wsh", after))
unfolding ensure_wallet_for_user create_wallet_for_user create_wallet_for_user_at new_wallet pick
    derivation_path_for find_wallet_for_user next_account_idx next_free insert_wallet any find?
ensure_example =
    ensure_wallet_for_user_lem settings lib 11 12 5 before after (wallet 11 5 1 "wsh")
      ((tt, tt), (tt, tt)) refl

abbrev newest : VersionRow
newest = record {
  id = 20;
  wallet_id = some 10;
  elements_wallet_id = none;
  version_index = 0;
  descriptor = "new";
  threshold = 2;
  signer_count = 2;
  federation_snapshot = "{}";
  wallet_handle = "w";
  blinding_key = none;
  migration_status = not_applicable;
  migration_sweep_txid = none;
}

-- The row still names the federation from before a migration.
abbrev drifted : AppDb
drifted = record {
  accounts = before;
  stacks = record { wallets = 10 ∷ []; elements_wallets = []; versions = newest ∷ [] };
}

abbrev healed : AppDb
healed = record drifted { accounts = record before { wallets = wallet 10 4 0 "new" ∷ [] } }

abbrev loaded : UserWallet String String (List String)
loaded = record {
  user_id = 4;
  wallet_id = 10;
  account_idx = 0;
  federation = "new";
  federated_wallet = "new" ∷ [];
  version_wallets = "new" ∷ [];
  inner = "new";
  aggregate = "{}";
}

rebound_example :
    ((signers : List ℕ) × (current_federation settings lib stack signers
          (latest_version settings lib stack 10 drifted)
        ≡ ok "new"))
    × Names settings lib stack 10 "new" healed
unfolding build_user_wallet derivation_path_for inner_for rebind_inner_to_current_federation
    build_federated_wallet push_versions metadata_wallets list_federation_versions_for_wallet
    update_wallet_descriptor_and_changeset update_where keep sort_by find?
rebound_example =
    build_user_wallet_lem settings lib stack 30 4 (wallet 10 4 0 "wsh") drifted healed loaded refl
      refl
