-- ===== src/Elements/Addresses/Activity.antt =====
-- `address_history` and `address_history_by_asset` of `src/elements_wallet.rs`.
pub mod Shown
use test_app_pkcs.Prelude.{
  ℕ, ◌+◌, ◌-◌, ◌^◌, String, Bool, true, false, not, Option, none, some, List, [], ◌∷◌, ◌++◌, map,
  keep, any, find?, ltb, ◌==◌, if◌then◌else◌,
}
use test_app_pkcs.Prelude.Result.{Result, ok, err, ok_or, ◌>>=◌}
use test_app_pkcs.Prelude.Sql.{sort_by, upsert}
use test_app_pkcs.Chain.Utxos.{UtxoDb, CapturedUtxo, OutPoint}
use test_app_pkcs.Elements.{ElementsWalletError, bad_address}
use test_app_pkcs.Elements.Addresses.{AddressLib, coin_at, listed}
use test_app_pkcs.Elements.Backend.{Clients, tip_height_via_backend}
use test_app_pkcs.Elements.Balances.{add_u64}
use test_app_pkcs.Elements.Manager.Load.{UserElementsWallet}

pub record ElementsAddressReceipt : Type 0 where
  pub outpoint : OutPoint
  pub amount : ℕ
  pub confirmations : ℕ
  pub is_spent : Bool

-- The variables of both loops.
pub record Received : Type 0 where
  pub total_received : ℕ
  pub unspent : ℕ
  pub receipts : List ElementsAddressReceipt

pub record ElementsAddressActivity : Type 0 where
  pub tip_height : ℕ
  pub total_received : ℕ
  pub unspent : ℕ
  pub receipts : List ElementsAddressReceipt

pub record AddressAssetActivity : Type 0 where
  pub asset_id : ℕ
  pub is_policy : Bool
  pub received : Received

-- `tip.saturating_sub(height).saturating_add(1)` of a `u32`
abbrev pub confirmations_at : ℕ → ℕ → ℕ
confirmations_at tip height =
    if ltb (tip - height + 1) (2 ^ 32) then tip - height + 1 else tip - height

abbrev pub u32_or_max : ℕ → ℕ
u32_or_max n = if ltb n (2 ^ 32) then n else 2 ^ 32 - 1

abbrev pub none_yet : Received
none_yet = record { total_received = 0; unspent = 0; receipts = [] }

-- A map from assets, the entry of an asset at most once.
abbrev pub ByAsset : Type 0
ByAsset = List (ℕ × Received)

module _ {S N C R T W : Type 0} (clients : Clients C R T N) (lib : AddressLib N W)
    (uw : UserElementsWallet S N) where
  open lib use {script_pubkey, address_from_str, policy_asset}

  abbrev pub receipt_of : ℕ → CapturedUtxo → ElementsAddressReceipt
  receipt_of tip u = record {
    outpoint = u.outpoint;
    amount = lib.utxos.value u.secrets;
    confirmations = confirmations_at tip u.height;
    is_spent = u.is_spent;
  }

  abbrev pub receive : ℕ → CapturedUtxo → Received → Received
  receive tip u r = record {
    total_received = add_u64 r.total_received (lib.utxos.value u.secrets);
    unspent = if u.is_spent then r.unspent else add_u64 r.unspent (lib.utxos.value u.secrets);
    receipts = r.receipts ++ receipt_of tip u ∷ [];
  }

  unfoldable pub receive_all : ℕ → List CapturedUtxo → Received → Received
  receive_all tip [] r = r
  receive_all tip (u ∷ us) r = receive_all tip us (receive tip u r)

  abbrev pub pays_to : ℕ → CapturedUtxo → Bool
  pays_to spk u = lib.utxos.script_pubkey u.txout == spk

  -- What both begin with: the address, the tip, and the coins at the address's script.
  abbrev pub coins_at : String → UtxoDb → Result ElementsWalletError (ℕ × List CapturedUtxo)
  coins_at text db = do
    addr ← ok_or (address_from_str text) bad_address
    tip ← tip_height_via_backend clients uw.settings uw.lwk_net
    utxos ← listed clients lib uw db
    ok (u32_or_max tip, keep (pays_to (script_pubkey addr)) utxos)

  abbrev pub activity : ℕ → Received → ElementsAddressActivity
  activity tip r = record {
    tip_height = tip;
    total_received = r.total_received;
    unspent = r.unspent;
    receipts = r.receipts;
  }

  unfoldable pub address_history :
      String → UtxoDb → Result ElementsWalletError ElementsAddressActivity
  unfolding receive_all tip_height_via_backend
  address_history text db = do
    (tip, utxos) ← coins_at text db
    ok (activity tip (receive_all tip utxos none_yet))

  unfoldable pub receive_by_asset : ℕ → List CapturedUtxo → ByAsset → ByAsset
  receive_by_asset tip [] m = m
  receive_by_asset tip (u ∷ us) m =
      let asset = lib.utxos.asset u.secrets in
      receive_by_asset tip us (
        upsert (λ e. e.0 == asset) (λ e. (e.0, receive tip u e.1)) (asset, receive tip u none_yet)
          m)

  -- The policy asset first, if it has an entry, then the others as they sort.
  abbrev pub order : ByAsset → ℕ → List ℕ
  order m policy =
      let assets = sort_by (λ k. k) (map (λ e. e.0) m) in
      let issued = keep (λ k. not (k == policy)) assets in
      if any (λ k. k == policy) assets then policy ∷ issued else issued

  abbrev pub push_asset :
      ℕ → Option (ℕ × Received) → List AddressAssetActivity → List AddressAssetActivity
  push_asset policy none rest = rest
  push_asset policy (some (asset, r)) rest =
      record { asset_id = asset; is_policy = asset == policy; received = r } ∷ rest

  -- No asset is twice in the order, so that taking an entry out changes no later one.
  unfoldable pub in_order : ByAsset → ℕ → List ℕ → List AddressAssetActivity
  in_order m policy [] = []
  in_order m policy (k ∷ ks) = push_asset policy (find? (λ e. e.0 == k) m) (in_order m policy ks)

  unfoldable pub address_history_by_asset :
      String → UtxoDb → Result ElementsWalletError (List AddressAssetActivity)
  unfolding receive_by_asset in_order tip_height_via_backend
  address_history_by_asset text db = do
    (tip, utxos) ← coins_at text db
    let by_asset = receive_by_asset tip utxos []
    let policy = policy_asset uw.lwk_net
    ok (in_order by_asset policy (order by_asset policy))
