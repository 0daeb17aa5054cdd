-- ===== src/Tests/Sends.antt =====
-- Sending from the Bitcoin wallet.
use test_app_pkcs.Prelude.{ℕ, ◌≡◌, ◌==◌, ◌+◌, refl, none, some, [], ◌∷◌, if◌then◌else◌}
use test_app_pkcs.Prelude.Result.{ok}
use test_app_pkcs.Wallet.Send.{
  Tx, Signed, Backends, SendLib, Ledger, build_sign_and_broadcast, fee_of, input_total,
  output_total,
}
use test_app_pkcs.Wallet.Send.Recorded.{Settled, build_sign_and_broadcast-Settled}

-- 60 to the script 7, 30 of change, from a coin of 100 that the wallet knows.
abbrev tx : Tx
tx = record { txid = 9; outputs = (7, 60) ∷ (8, 30) ∷ []; inputs = 4 ∷ [] }

abbrev signed : Signed ℕ
signed = record { tx = tx; delta = some 5; tip = 200 }

abbrev lib : SendLib ℕ
lib = record {
  from_sat_per_vb = λ rate. some rate;
  spend = λ to amount fee. ok signed;
  drain = λ to fee. ok signed;
  get_utxo = λ o. if o == 4 then some 100 else none;
  encode = λ t. some (t.txid ∷ []);
  decode = λ raw. some tx;
  merge = λ a b. a + b;
  to_json = λ c. some "{}";
  txid_to_string = λ n. "t9";
  to_hex = λ raw. "09";
}

abbrev node : Backends
node = record { electrum = none; esplora = some (λ t. ok t.txid); rpc = none }

abbrev start : Ledger ℕ
start = record {
  aggregate = 1;
  accounts = record { users = 5 ∷ []; wallets = []; elements_wallets = [] };
  transactions = record {
    transactions = record { wallets = 1 ∷ []; rows = [] };
    elements_transactions = record { wallets = []; rows = [] };
  };
  broadcasts = [];
}

send_example :
    Settled lib 1 start.transactions []
      (build_sign_and_broadcast lib node 3 100 1 7 "bc1" 60 2 none start)
send_example = build_sign_and_broadcast-Settled lib node 3 100 1 7 "bc1" 60 2 none start

fee_of-tx : fee_of lib tx ≡ 10
unfolding fee_of input_total output_total
fee_of-tx = refl
