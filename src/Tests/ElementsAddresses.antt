-- ===== src/Tests/ElementsAddresses.antt =====
-- The six addresses of a wallet with one coin of 3, at the script 5.
use test_app_pkcs.Prelude.{
  ℕ, ◌≡◌, refl, true, false, some, List, [], ◌∷◌, ◌++◌, ap, any, keep, find?, arith,
}
use test_app_pkcs.Prelude.Result.{ok}
use test_app_pkcs.Prelude.Sql.{upsert, sort_by}
use test_app_pkcs.Chain.Utxos.{external, chain_to_i16, i16_to_chain}
use test_app_pkcs.Chain.Utxos.Codec.{list_for_wallet, collect, decode_row}
use test_app_pkcs.Elements.Addresses.{
  AddressLib, ElementsRevealedAddress, derive_addresses_for_descriptor, derive_with_balances,
  derive_from,
}
use test_app_pkcs.Elements.Addresses.Activity.{
  ElementsAddressActivity, address_history, receive_all, address_history_by_asset, receive_by_asset,
  in_order,
}
use test_app_pkcs.Elements.Addresses.Activity.Shown.{
  address_history-derive_addresses_for_descriptor,
}
use test_app_pkcs.Elements.Backend.{tip_height_via_backend}
use test_app_pkcs.Elements.Balances.{balances_by_spk, balances_from, get, add_entry, add_u64}
use test_app_pkcs.Elements.Send.{pipeline_err}
use test_app_pkcs.Tests.Data.{utxo_lib}
use test_app_pkcs.Tests.ElementsSends.{clients, wallet}
use test_app_pkcs.Tests.Utxos.{coin, utxos}

abbrev lib : AddressLib ℕ ℕ
lib = record {
  utxos = utxo_lib;
  from_descriptor_str = λ desc key net. some 0;
  address = λ w chain i. some i;
  script_pubkey = λ addr. addr;
  address_from_str = λ text. some 5;
  policy_asset = λ net. 7;
}

abbrev empty : ℕ → ElementsRevealedAddress
empty i = record { index = i; address = i; received = 0; unspent = 0 }

abbrev before : List ElementsRevealedAddress
before = empty 0 ∷ empty 1 ∷ empty 2 ∷ empty 3 ∷ empty 4 ∷ []

abbrev paid : ElementsRevealedAddress
paid = record { index = 5; address = 5; received = 3; unspent = 3 }

abbrev history : ElementsAddressActivity
history = record {
  tip_height = 100;
  total_received = 3;
  unspent = 3;
  receipts =
      record { outpoint = (coin 8 2).outpoint; amount = 3; confirmations = 99; is_spent = false }
      ∷ [];
}

stored : list_for_wallet utxo_lib 1 utxos ≡ ok (coin 8 2 ∷ [])
unfolding list_for_wallet collect decode_row keep i16_to_chain chain_to_i16
stored = refl

revealed :
    derive_addresses_for_descriptor clients lib wallet 6 external "new" [] utxos
    ≡ ok (before ++ paid ∷ [])
unfolding derive_addresses_for_descriptor derive_with_balances derive_from list_for_wallet collect
    decode_row keep i16_to_chain balances_by_spk balances_from get add_entry upsert find? add_u64
revealed = refl

history_run : address_history clients lib wallet "5" utxos ≡ ok history
unfolding address_history receive_all tip_height_via_backend list_for_wallet collect decode_row keep
    i16_to_chain add_u64
history_run = refl

by_asset_run :
    address_history_by_asset clients lib wallet "5" utxos
    ≡ ok (
        record {
          asset_id = 7;
          is_policy = true;
          received = record { total_received = 3; unspent = 3; receipts = history.receipts };
        }
        ∷ [])
unfolding address_history_by_asset receive_by_asset in_order tip_height_via_backend list_for_wallet
    collect decode_row keep i16_to_chain add_u64 upsert find? sort_by any
by_asset_run = refl

shown_example : (history.total_received ≡ paid.received) × (history.unspent ≡ paid.unspent)
shown_example =
    address_history-derive_addresses_for_descriptor clients lib wallet 6 external "new" [] utxos
      (coin 8 2 ∷ []) before [] paid "5" history (ap pipeline_err stored) (omega arith) revealed
      refl history_run
