-- ===== src/Elements/Addresses.antt =====
-- The addresses of the Elements wallet and their history (`src/elements_wallet.rs`). Amounts are in
-- satoshis; the code divides them by 10^8 into an `f64`.
pub mod Activity
use test_app_pkcs.Prelude.{
  ℕ, zero, suc, ◌+◌, ◌-◌, ◌^◌, String, Bool, true, false, not, ◌&&◌, Option, none, some, List, [],
  ◌∷◌, ◌++◌, map, keep, find?, ltb, ◌==◌, if◌then◌else◌,
}
use test_app_pkcs.Prelude.Result.{Result, ok, err, ok_or, ◌>>=◌}
use test_app_pkcs.Prelude.Sql.{sort_by, upsert}
use test_app_pkcs.Chain.Utxos.{
  UtxoLib, UtxoDb, CapturedUtxo, OutPoint, KeychainKind, external, internal,
}
use test_app_pkcs.Chain.Utxos.Codec.{list_for_wallet}
use test_app_pkcs.Db.Versions.{VersionRow, VersionDb, list_federation_versions_for_elements_wallet}
use test_app_pkcs.Elements.{ElementsWalletError, bad_address, descriptor}
use test_app_pkcs.Elements.Backend.{Clients, tip_height_via_backend}
use test_app_pkcs.Elements.Balances.{
  Coin, SpkBalances, AssetBalances, balances_by_spk, balances_by_spk_per_asset, ordered_assets, get,
  add_u64,
}
use test_app_pkcs.Elements.Manager.Load.{UserElementsWallet, version_key}
use test_app_pkcs.Elements.Send.{pipeline_err}

pub record ElementsRevealedAddress : Type 0 where
  pub index : ℕ
  pub address : ℕ
  pub received : ℕ
  pub unspent : ℕ

pub record AssetAddressGroup : Type 0 where
  pub asset_id : ℕ
  pub is_policy : Bool
  pub addresses : List ElementsRevealedAddress
  pub change_addresses : List ElementsRevealedAddress

-- `(version_index, wallet_handle, addrs)`, and `VersionAssetGroup`
pub record VersionGroup (A : Type 0) : Type 0 where
  pub version_index : ℕ
  pub wallet_handle : String
  pub group : A

-- A wollet of type `W`, of emvault. Addresses are numbers, and `address_from_str` reads their texts.
pub record AddressLib (N W : Type 0) : Type 0 where
  pub utxos : UtxoLib
  pub from_descriptor_str : String → List ℕ → N → Option W
  pub address : W → KeychainKind → ℕ → Option ℕ
  pub script_pubkey : ℕ → ℕ
  pub address_from_str : String → Option ℕ
  pub policy_asset : N → ℕ

-- What the code keeps of a version.
pub record Spec : Type 0 where
  pub version_index : ℕ
  pub wallet_handle : String
  pub descriptor : String
  pub mbk : List ℕ

unfoldable pub ok_map {ℓ κ λe} :
    {E : Type λe} {A : Type ℓ} {B : Type κ} → (A → Result E B) → List A → Result E (List B)
ok_map f [] = ok []
ok_map f (x ∷ xs) = do y ← f x; ys ← ok_map f xs; ok (y ∷ ys)

-- `[0u8; 32]`
unfoldable pub zeros : ℕ → List ℕ
zeros zero = []
zeros (suc n) = 0 ∷ zeros n

abbrev pub balances_or_empty : Option (ℕ × SpkBalances) → SpkBalances
balances_or_empty none = ([], [])
balances_or_empty (some e) = e.1

module _ {S N C R T W : Type 0} (clients : Clients C R T N) (lib : AddressLib N W)
    (uw : UserElementsWallet S N) where
  open lib use {from_descriptor_str, address, script_pubkey, address_from_str, policy_asset}

  abbrev pub coin_at : CapturedUtxo → Coin
  coin_at u = record {
    script_pubkey = lib.utxos.script_pubkey u.txout;
    asset = lib.utxos.asset u.secrets;
    value = lib.utxos.value u.secrets;
    is_spent = u.is_spent;
  }

  abbrev pub listed : UtxoDb → Result ElementsWalletError (List CapturedUtxo)
  listed db = pipeline_err (list_for_wallet lib.utxos uw.wallet_id db)

  abbrev pub revealed : SpkBalances → ℕ → ℕ → ElementsRevealedAddress
  revealed m i addr = record {
    index = i;
    address = addr;
    received = get m.0 (script_pubkey addr);
    unspent = get m.1 (script_pubkey addr);
  }

  unfoldable pub derive_from :
      W
      → KeychainKind
      → SpkBalances
      → ℕ
      → ℕ
      → Result ElementsWalletError (List ElementsRevealedAddress)
  derive_from wollet chain m i zero = ok []
  derive_from wollet chain m i (suc n) = do
    addr ← ok_or (address wollet chain i) descriptor
    rest ← derive_from wollet chain m (suc i) n
    ok (revealed m i addr ∷ rest)

  unfoldable pub derive_with_balances :
      String
      → List ℕ
      → ℕ
      → KeychainKind
      → SpkBalances
      → Result ElementsWalletError (List ElementsRevealedAddress)
  unfolding derive_from
  derive_with_balances desc mbk count chain m = do
    wollet ← ok_or (from_descriptor_str desc mbk uw.lwk_net) descriptor
    derive_from wollet chain m 0 count

  unfoldable pub derive_addresses_for_descriptor :
      ℕ
      → KeychainKind
      → String
      → List ℕ
      → UtxoDb
      → Result ElementsWalletError (List ElementsRevealedAddress)
  unfolding derive_with_balances
  derive_addresses_for_descriptor zero chain desc mbk db = ok []
  derive_addresses_for_descriptor (suc n) chain desc mbk db = do
    utxos ← listed db
    derive_with_balances desc mbk (suc n) chain (balances_by_spk (map coin_at utxos))

  unfoldable pub derive_addresses :
      ℕ → KeychainKind → UtxoDb → Result ElementsWalletError (List ElementsRevealedAddress)
  unfolding derive_addresses_for_descriptor
  derive_addresses count chain db =
      derive_addresses_for_descriptor count chain uw.descriptor uw.mbk db

  unfoldable pub reveal_addresses :
      ℕ → UtxoDb → Result ElementsWalletError (List ElementsRevealedAddress)
  unfolding derive_addresses
  reveal_addresses count db = derive_addresses count external db

  unfoldable pub change_addresses :
      ℕ → UtxoDb → Result ElementsWalletError (List ElementsRevealedAddress)
  unfolding derive_addresses
  change_addresses count db = derive_addresses count internal db

  unfoldable pub change_addresses_for_version :
      ℕ → String → UtxoDb → Result ElementsWalletError (List ElementsRevealedAddress)
  unfolding derive_addresses_for_descriptor zeros
  change_addresses_for_version count desc db =
      derive_addresses_for_descriptor count internal desc (zeros 32) db

  abbrev pub spec_of : VersionRow → Spec
  spec_of v = record {
    version_index = v.version_index;
    wallet_handle = v.wallet_handle;
    descriptor = v.descriptor;
    mbk = version_key uw.mbk v;
  }

  abbrev pub grouped : {A : Type 0} → Spec → A → VersionGroup A
  grouped s g = record {
    version_index = s.version_index;
    wallet_handle = s.wallet_handle;
    group = g;
  }

  abbrev pub reveal_spec :
      ℕ
      → SpkBalances
      → Spec
      → Result ElementsWalletError (VersionGroup (List ElementsRevealedAddress))
  reveal_spec count m s = do
    addrs ← derive_with_balances s.descriptor s.mbk count external m
    ok (grouped s addrs)

  abbrev pub own_spec : Spec
  own_spec = record {
    version_index = 0;
    wallet_handle = uw.daemon_wallet_name;
    descriptor = uw.descriptor;
    mbk = uw.mbk;
  }

  abbrev pub reveal_listed :
      ℕ
      → List VersionRow
      → UtxoDb
      → Result ElementsWalletError (List (VersionGroup (List ElementsRevealedAddress)))
  reveal_listed count [] db = do addrs ← reveal_addresses count db; ok (grouped own_spec addrs ∷ [])
  reveal_listed count (v ∷ vs) db = do
    utxos ← listed db
    ok_map (reveal_spec count (balances_by_spk (map coin_at utxos))) (map spec_of (v ∷ vs))

  unfoldable pub reveal_addresses_all_versions :
      ℕ
      → VersionDb
      → UtxoDb
      → Result ElementsWalletError (List (VersionGroup (List ElementsRevealedAddress)))
  unfolding derive_with_balances reveal_addresses ok_map
  reveal_addresses_all_versions count stacks db =
      reveal_listed count (list_federation_versions_for_elements_wallet uw.wallet_id stacks) db

  -- The addresses of one asset, with the totals of its coins alone.
  abbrev pub asset_group :
      ℕ
      → KeychainKind
      → String
      → List ℕ
      → AssetBalances
      → ℕ
      → Result ElementsWalletError AssetAddressGroup
  asset_group count chain desc mbk per_asset asset = do
    addrs ←
        derive_with_balances desc mbk count chain
          (balances_or_empty (find? (λ e. e.0 == asset) per_asset))
    ok (record {
      asset_id = asset;
      is_policy = asset == policy_asset uw.lwk_net;
      addresses = addrs;
      change_addresses = [];
    })

  unfoldable pub asset_groups :
      ℕ
      → KeychainKind
      → String
      → List ℕ
      → List Coin
      → Result ElementsWalletError (List AssetAddressGroup)
  unfolding derive_with_balances ok_map
  asset_groups count chain desc mbk coins =
      let per_asset = balances_by_spk_per_asset coins in
      ok_map (asset_group count chain desc mbk per_asset)
        (ordered_assets per_asset (policy_asset uw.lwk_net))

  unfoldable pub change_addresses_by_asset :
      ℕ → String → UtxoDb → Result ElementsWalletError (List AssetAddressGroup)
  unfolding asset_groups zeros
  change_addresses_by_asset count desc db = do
    utxos ← listed db
    asset_groups count internal desc (zeros 32) (map coin_at utxos)

  abbrev pub specs_or_own : List VersionRow → List Spec
  specs_or_own [] = own_spec ∷ []
  specs_or_own (v ∷ vs) = map spec_of (v ∷ vs)

  abbrev pub reveal_assets :
      ℕ → List Coin → Spec → Result ElementsWalletError (VersionGroup (List AssetAddressGroup))
  reveal_assets count coins s = do
    assets ← asset_groups count external s.descriptor s.mbk coins
    ok (grouped s assets)

  unfoldable pub reveal_addresses_all_versions_by_asset :
      ℕ
      → VersionDb
      → UtxoDb
      → Result ElementsWalletError (List (VersionGroup (List AssetAddressGroup)))
  unfolding asset_groups ok_map
  reveal_addresses_all_versions_by_asset count stacks db = do
    utxos ← listed db
    ok_map (reveal_assets count (map coin_at utxos))
        (specs_or_own (list_federation_versions_for_elements_wallet uw.wallet_id stacks))
