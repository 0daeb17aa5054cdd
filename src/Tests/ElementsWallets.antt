-- ===== src/Tests/ElementsWallets.antt =====
-- Loading an Elements wallet after a migration that rotated its blinding key, and what the ingestion
-- scans for it. A hex text is that of a key of 32 bytes.
use test_app_pkcs.Prelude.{
  true, ℕ, ◌+◌, String, ◌≡◌, refl, Option, none, some, List, [], ◌∷◌, ◌++◌, map, keep, find?,
}
use test_app_pkcs.Prelude.Result.{ok, err}
use test_app_pkcs.Prelude.Sql.{sort_by, update_where}
use test_app_pkcs.Db.Wallets.{
  ElementsWalletRow, WalletDb, update_elements_wallet_descriptor, list_all_elements_wallets,
}
use test_app_pkcs.Db.Versions.{
  VersionRow, VersionDb, pending, list_federation_versions_for_elements_wallet,
}
use test_app_pkcs.Elements.{hsm}
use test_app_pkcs.Elements.BlindingKey.{
  hex_encode_bytes, from_str_radix, parse_bytes, parse_mbk_hex, parse_mbk,
}
use test_app_pkcs.Elements.BlindingKey.Derived.{
  Hashers, derive_master_blinding_key, derive_elements_mbk,
}
use test_app_pkcs.Elements.BlindingKey.Derived.Readable.{derive_elements_mbk_lem}
use test_app_pkcs.Elements.Manager.{
  Settings, Lib, ElementsDb, derivation_path_for, lwk_network, new,
}
use test_app_pkcs.Elements.Manager.Load.{
  UserElementsWallet, version_key, build_user_wallet, bind_wallet,
}
use test_app_pkcs.Elements.Manager.Load.Rebound.{
  Names, latest_of, newest, build_elements_wallet_lem, build_elements_wallet_again,
}
use test_app_pkcs.Elements.Ingest.{IngestLib, load_wallet_versions, entries_of, version_entries}
use test_app_pkcs.Tests.Configs.{config}

abbrev pub hashers : Hashers
hashers = record {
  account = λ user account version. elim version [ none ↦ user | some v ↦ user + v ];
  labelled = λ h. h + 1;
}

derived_example :
    let key = derive_elements_mbk hashers 4 0 1 in
    (parse_mbk_hex (hex_encode_bytes key) ≡ some key)
    × (parse_mbk (hex_encode_bytes key) ≡ some key)
    × (derive_elements_mbk hashers 4 0 0 ≡ derive_master_blinding_key hashers 4 0)
derived_example = derive_elements_mbk_lem hashers 4 0 1

abbrev pub lib : Lib ℕ ℕ ℕ
lib = record {
  signers_for = λ user path. ok (7 ∷ 8 ∷ []);
  to_lwk = λ net. 1;
  node_lwk_network = λ rpc. err hsm;
  hashers = hashers;
  hex_encode = λ bytes. "00";
  new_builder = λ threshold key. some 0;
  add_signer = λ signer b. some (b + 1);
  build = λ b. some "ct";
  daemon_name = λ account. "w";
  snapshot = λ desc. "{}";
}

-- The key 0303…
abbrev pub threes : String
threes = "0303030303030303030303030303030303030303030303030303030303030303"

abbrev pub row : String → String → ElementsWalletRow
row desc hex = record {
  id = 10;
  user_id = 4;
  account_idx = 0;
  descriptor = desc;
  master_blinding_key = hex;
  daemon_wallet_name = "w";
  chain_tip_height = none;
}

abbrev pub version : ℕ → String → Option String → VersionRow
version index desc hex = record {
  id = 20 + index;
  wallet_id = none;
  elements_wallet_id = some 10;
  version_index = index;
  descriptor = desc;
  threshold = 2;
  signer_count = 2;
  federation_snapshot = "{}";
  wallet_handle = "w";
  blinding_key = hex;
  migration_status = pending;
  migration_sweep_txid = none;
}

abbrev pub stacks : VersionDb
stacks = record {
  wallets = [];
  elements_wallets = 10 ∷ [];
  versions = version 1 "new" (some threes) ∷ version 0 "old" none ∷ [];
}

abbrev pub accounts : String → String → WalletDb
accounts desc hex = record { users = 4 ∷ []; wallets = []; elements_wallets = row desc hex ∷ [] }

abbrev drifted : ElementsDb ℕ
drifted = record {
  accounts = accounts "old" threes;
  stacks = stacks;
  lwk_net = none;
  serves_update = true;
}

abbrev pub corrected : ElementsDb ℕ
corrected = record {
  accounts = accounts "new" threes;
  stacks = stacks;
  lwk_net = some 1;
  serves_update = true;
}

abbrev pub settings : Settings
settings = new config

abbrev pub loaded : List ℕ → UserElementsWallet ℕ ℕ
loaded key = record {
  user_id = 4;
  wallet_id = 10;
  account_idx = 0;
  settings = settings.elements;
  lwk_net = 1;
  descriptor = "new";
  mbk = key;
  daemon_wallet_name = "w";
  signers = 7 ∷ 8 ∷ [];
  federation_version_count = 2;
}

abbrev four_threes : List ℕ
four_threes = 3 ∷ 3 ∷ 3 ∷ 3 ∷ []

abbrev pub rotated : List ℕ
rotated =
    (four_threes ++ four_threes ++ four_threes ++ four_threes)
    ++ four_threes
    ++ four_threes
    ++ four_threes
    ++ four_threes

abbrev pub base : List ℕ
base = derive_master_blinding_key hashers 4 0

first_load :
    build_user_wallet settings lib 30 4 (row "old" threes) drifted
    ≡ (ok (loaded rotated), corrected)
unfolding build_user_wallet derivation_path_for lwk_network bind_wallet parse_mbk_hex parse_bytes
    from_str_radix list_federation_versions_for_elements_wallet keep sort_by
    update_elements_wallet_descriptor update_where
first_load = refl

second_load :
    build_user_wallet settings lib 31 4 (row "new" threes) corrected ≡ (ok (loaded base), corrected)
unfolding build_user_wallet derivation_path_for lwk_network bind_wallet
    list_federation_versions_for_elements_wallet keep sort_by
second_load = refl

bound_example :
    ((loaded rotated).descriptor ≡ newest "old" (latest_of settings lib 10 drifted))
    × Names settings lib 10 "new" corrected
unfolding find?
bound_example =
    build_elements_wallet_lem settings lib 30 4 (row "old" threes) drifted corrected
      (loaded rotated) refl first_load

again_example :
    ((loaded rotated).descriptor ≡ "new")
    × ((loaded base).descriptor ≡ "new")
    × ((loaded rotated).mbk ≡ version_key base (version 1 "new" (some threes)))
    × ((loaded base).mbk ≡ base)
unfolding find? list_federation_versions_for_elements_wallet keep sort_by
again_example =
    build_elements_wallet_again settings lib 30 31 4 (row "old" threes) (row "new" threes)
      (version 1 "new" (some threes)) drifted corrected corrected (loaded rotated) (loaded base)
      refl refl refl refl first_load refl second_load

-- The rotated key is not the one that the second load takes.
rotated_key : version_key base (version 1 "new" (some threes)) ≡ rotated
unfolding parse_mbk_hex parse_bytes from_str_radix
rotated_key = refl

abbrev ingest : IngestLib String ℕ ℕ ℕ ℕ ℕ
ingest = record {
  from_descriptor_str = λ desc key net lwk. some desc;
  to_lwk = λ net. 1;
  new_electrum = λ url. some 0;
  new_esplora = λ url lwk auth. none;
  new_waterfalls = λ url lwk auth. none;
  sync = λ wallet ws c d. (none, c, d);
  new_rpc = λ rpc. some 0;
  node_lwk_network = λ r net. some 2;
  new_engine = 0;
  register_wallet = λ wallet w g. some (g + 1);
  engine_sync = λ r g d. (none, d);
}

scanned_run :
    map (λ e. e.descriptor) (load_wallet_versions (accounts "old" threes) stacks)
    ≡ "old" ∷ "new" ∷ []
unfolding load_wallet_versions entries_of version_entries list_all_elements_wallets parse_mbk
    parse_bytes from_str_radix list_federation_versions_for_elements_wallet keep sort_by
scanned_run = refl
