-- ===== src/Tests/Histories.antt =====
-- The payments to an address.
use mathlib.Core.List.{Perm}
use test_app_pkcs.Prelude.{
  ℕ, ◌+◌, ◌*◌, ◌≡◌, refl, true, false, none, some, List, [], ◌∷◌, Distinct, All, ◌==◌, any, arith,
}
use test_app_pkcs.Prelude.Result.{ok}
use test_app_pkcs.Prelude.Sql.{sort_by, insert_by}
use test_app_pkcs.Prelude.Sort.{Sorted}
use test_app_pkcs.Wallet.Reconcile.{contains}
use test_app_pkcs.Wallet.History.{
  View, AddressReceipt, AddressActivity, spent_status, push, count_outputs, count_txs,
  count_wallets, address_history, height_or_max,
}
use test_app_pkcs.Wallet.History.Payments.{key, payments, Among}
use test_app_pkcs.Wallet.History.Receipts.{received, left, address_history_lem}

abbrev outpoint : ℕ → ℕ → ℕ
outpoint txid vout = 10 * txid + vout

-- Transaction 2 pays twice, 3 is unconfirmed; the two wallets both know 2.
abbrev views : List View
views =
    record {
      list_output = (20, true) ∷ (22, false) ∷ [];
      transactions =
          record { txid = 3; output = (7, 5) ∷ []; confirmed_at = none }
          ∷ record { txid = 2; output = (7, 60) ∷ (8, 1) ∷ (7, 30) ∷ []; confirmed_at = some 90 }
          ∷ [];
    }
    ∷ record {
      list_output = [];
      transactions =
          record { txid = 2; output = (7, 60) ∷ (8, 1) ∷ (7, 30) ∷ []; confirmed_at = some 90 }
          ∷ [];
    }
    ∷ []

history_example :
    (act : AddressActivity) × (address_history outpoint 100 7 views ≡ ok act)
    × Sorted (λ r. height_or_max r.confirmation_height) act.receipts
    × (found : List AddressReceipt) × Perm act.receipts found
    × All
        (λ p. any (λ r. key outpoint 100 7 r == key outpoint 100 7 p) found ≡ true)
        (payments outpoint 100 7 views)
    × All (λ r. Among r (payments outpoint 100 7 views)) found
    × Distinct (key outpoint 100 7) found
    × (act.total_received ≡ received found)
    × (act.unspent ≡ left found)
history_example = address_history_lem outpoint 100 7 views (omega arith)

abbrev receipt : ℕ → ℕ → AddressReceipt
receipt vout amount = record {
  txid = 2;
  vout = vout;
  amount = amount;
  confirmation_height = some 90;
  confirmations = 11;
  is_spent = false;
}

history_run :
    address_history outpoint 100 7 views
    ≡ ok (record {
      tip_height = 100;
      total_received = 95;
      unspent = 35;
      receipts =
          record (receipt 0 60) { is_spent = true }
          ∷ receipt 2 30
          ∷ record {
            txid = 3;
            vout = 0;
            amount = 5;
            confirmation_height = none;
            confirmations = 0;
            is_spent = false;
          }
          ∷ [];
    })
unfolding address_history count_wallets count_txs count_outputs push spent_status contains any
    sort_by insert_by
history_run = refl
