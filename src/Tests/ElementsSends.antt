-- ===== src/Tests/ElementsSends.antt =====
-- Sending from the Elements wallet of one coin of 3.
use mathlib.Core.Option.{some-injective}
use test_app_pkcs.Prelude.{
  ℕ, ◌+◌, ◌<◌, ◌^◌, ◌≡◌, refl, sym, ap, true, false, none, some, List, [], ◌∷◌, map, keep, any,
  arith,
}
use test_app_pkcs.Prelude.Int.{pos}
use test_app_pkcs.Prelude.Result.{ok}
use test_app_pkcs.Chain.Utxos.{chain_to_i16, i16_to_chain}
use test_app_pkcs.Chain.Utxos.Codec.{list_unspent, collect, decode_row}
use test_app_pkcs.Db.Transactions.{insert_elements_transaction, insert_row}
use test_app_pkcs.Elements.Backend.{Clients, broadcast_via_backend}
use test_app_pkcs.Elements.Balances.{sum, sum_from, add_u64}
use test_app_pkcs.Elements.Balances.Totals.{total}
use test_app_pkcs.Elements.Send.{
  PsetLib, ElementsTx, Output, Ledger, ElementsBroadcastTransaction, explicit_fee, fee_sat, or_zero,
  coin_of, opened, sign_all, finished, drain, compute_drain_amount, sweep_to, settle,
}
use test_app_pkcs.Elements.Manager.Load.{UserElementsWallet}
use test_app_pkcs.Elements.Send.Recorded.{Settled, pay, run, elements_send-Settled}
use test_app_pkcs.Elements.Send.Preview.{compute_drain_amount-sweep_to}
use test_app_pkcs.Tests.Data.{utxo_lib}
use test_app_pkcs.Tests.Utxos.{coin, utxos}
use test_app_pkcs.Tests.ElementsWallets.{loaded}

-- A PSET is the list of its outputs: the recipient's, and a fee of 1.
abbrev outs : List Output
outs =
    record { script_is_empty = false; explicit = none }
    ∷ record { script_is_empty = true; explicit = some 1 }
    ∷ []

abbrev tx : List Output → ElementsTx
tx os = record { txid = 9; outputs = os }

abbrev lib : PsetLib ℕ ℕ ℕ (List Output) ℕ
lib = record {
  utxos = utxo_lib;
  from_descriptor_str = λ desc key net. some 0;
  address = λ s. some 6;
  asset_id = λ s. some 7;
  fee_rate_kvb = λ rate. rate;
  build_spend_pset = λ w us to amount fee. some outs;
  build_asset_spend_pset = λ w us to asset amount fee. some outs;
  build_sweep_pset = λ w us to fee. some outs;
  outputs = λ p. p;
  sign_pset = λ k p. some p;
  finalize_p2wsh_pset = λ p. some p;
  extract_tx = λ p. some (tx p);
  serialize_hex = λ t. "09";
  txid_to_string = λ n. "t9";
}

abbrev pub clients : Clients ℕ ℕ ElementsTx ℕ
clients = record {
  new_electrum = λ url. some 0;
  new_esplora = λ url net auth. some 0;
  new_waterfalls = λ url net auth. some 0;
  broadcast = λ c t. some t.txid;
  tip_height = λ c. some 100;
  new_rpc = λ rpc. some 0;
  rpc_broadcast = λ r t. some t.txid;
  rpc_tip_height = λ r. some 100;
}

abbrev pub wallet : UserElementsWallet ℕ ℕ
wallet = record (loaded []) { wallet_id = 1 }

abbrev start : Ledger
start = record {
  utxos = utxos;
  transactions = record {
    transactions = record { wallets = []; rows = [] };
    elements_transactions = record { wallets = 1 ∷ []; rows = [] };
  };
  broadcasts = [];
}

elements_send_example :
    Settled clients lib wallet start.transactions []
      (run clients lib wallet 3 100 none (pay "lq1" (pos 2) 1) start)
elements_send_example =
    elements_send-Settled clients lib wallet 3 100 none (pay "lq1" (pos 2) 1) start

abbrev receipt : ElementsBroadcastTransaction
receipt = record { txid = "t9"; recipient = "lq1"; amount_sat = pos 2; fee_sat = 1 }

shown : compute_drain_amount clients lib wallet "lq1" 1 utxos ≡ ok 2
unfolding compute_drain_amount opened list_unspent collect decode_row keep i16_to_chain sum sum_from
    add_u64 explicit_fee
shown = refl

abbrev after : Ledger
after = (sweep_to clients lib wallet 3 100 "lq1" 1 none start).1

swept : sweep_to clients lib wallet 3 100 "lq1" 1 none start ≡ (ok receipt, after)
unfolding sweep_to settle drain finished sign_all fee_sat broadcast_via_backend
    insert_elements_transaction insert_row opened list_unspent collect decode_row keep i16_to_chain
    sum sum_from add_u64 explicit_fee any
swept = refl

fee_fits : (p : List Output) → some outs ≡ some p → or_zero (explicit_fee p) < 2 ^ 63
unfolding explicit_fee
fee_fits p e = rw (sym (some-injective outs p e)) (omega arith)

stored : list_unspent utxo_lib 1 utxos ≡ ok (coin 8 2 ∷ [])
unfolding list_unspent collect decode_row keep chain_to_i16 i16_to_chain
stored = refl

preview_example :
    (receipt.amount_sat ≡ pos 2)
    × (2 + receipt.fee_sat ≡ total (map (coin_of clients lib wallet) (coin 8 2 ∷ [])))
preview_example =
    compute_drain_amount-sweep_to clients lib wallet (λ k p q e. sym (some-injective p q e))
      (λ p q e. sym (some-injective p q e))
      (λ p t e. ap (λ x. x.outputs) (sym (some-injective (tx p) t e)))
      (λ w us to rate p e. fee_fits p e) 3 100 "lq1" 1 none start after 2 receipt (coin 8 2 ∷ [])
      stored (omega arith) shown swept
