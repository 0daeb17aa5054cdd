-- ===== src/Db/Transactions.antt =====
-- The tables `transactions` and `elements_transactions` (migrations 0003 and 0004), which have one
-- shape, and the functions of `src/db.rs` on them. `wallets` are the ids that a table refers to;
-- `now` is the time at which the server runs the statement.
pub mod Once
use test_app_pkcs.Prelude.{
  ℕ, String, Bool, not, ◌&&◌, ◌||◌, Option, none, some, List, [], ◌∷◌, ◌++◌, any, find?, keep, ◌==◌,
  if◌then◌else◌,
}
use text.Mathlib.Text.{◌==◌ as str_eq}
use test_app_pkcs.Prelude.Int.{ℤ, is_positive, is_nonnegative}
use test_app_pkcs.Prelude.Result.{Result, ok, err}
use test_app_pkcs.Prelude.Sql.{SqlxError, check_violation, foreign_key_violation, sort_by}

pub record TransactionRow : Type 0 where
  pub id : ℕ
  pub wallet_id : ℕ
  pub txid : String
  pub recipient : String
  pub amount_sat : ℤ
  pub fee_sat : ℤ
  pub raw_tx_hex : String
  pub label : Option String
  pub broadcast_at : ℕ

pub record NewTransaction : Type 0 where
  pub wallet_id : ℕ
  pub txid : String
  pub recipient : String
  pub amount_sat : ℤ
  pub fee_sat : ℤ
  pub raw_tx_hex : String
  pub label : Option String

pub record TransactionTable : Type 0 where
  pub wallets : List ℕ
  pub rows : List TransactionRow

pub record TransactionDb : Type 0 where
  pub transactions : TransactionTable
  pub elements_transactions : TransactionTable

abbrev pub is_tx : ℕ → String → TransactionRow → Bool
is_tx wallet txid r = r.wallet_id == wallet && str_eq r.txid txid

abbrev pub tx_row : ℕ → ℕ → NewTransaction → TransactionRow
tx_row id now v = record {
  id = id;
  wallet_id = v.wallet_id;
  txid = v.txid;
  recipient = v.recipient;
  amount_sat = v.amount_sat;
  fee_sat = v.fee_sat;
  raw_tx_hex = v.raw_tx_hex;
  label = v.label;
  broadcast_at = now;
}

-- INSERT … ON CONFLICT (wallet_id, txid) DO NOTHING RETURNING …
unfoldable pub insert_row :
    ℕ
    → ℕ
    → NewTransaction
    → TransactionTable
    → Result SqlxError (Option TransactionRow × TransactionTable)
insert_row id now v t =
    if not (is_positive v.amount_sat) || not (is_nonnegative v.fee_sat)
    then err check_violation
    else if any (is_tx v.wallet_id v.txid) t.rows
    then ok (none, t)
    else if any (λ w. w == v.wallet_id) t.wallets
    then ok (some (tx_row id now v), record t { rows = t.rows ++ tx_row id now v ∷ [] })
    else err foreign_key_violation

unfoldable pub reversed : List TransactionRow → List TransactionRow
reversed [] = []
reversed (r ∷ rs) = reversed rs ++ r ∷ []

-- ORDER BY broadcast_at DESC
unfoldable pub rows_of_wallet : ℕ → TransactionTable → List TransactionRow
unfolding reversed
rows_of_wallet wallet t =
    reversed (sort_by (λ r. r.broadcast_at) (keep (λ r. r.wallet_id == wallet) t.rows))

unfoldable pub find_row : ℕ → String → TransactionTable → Option TransactionRow
find_row wallet txid t = find? (is_tx wallet txid) t.rows

abbrev pub on_transactions :
    TransactionDb
    → Result SqlxError (Option TransactionRow × TransactionTable)
    → Result SqlxError (Option TransactionRow × TransactionDb)
on_transactions s (ok (r, t)) = ok (r, record s { transactions = t })
on_transactions s (err e) = err e

abbrev pub on_elements_transactions :
    TransactionDb
    → Result SqlxError (Option TransactionRow × TransactionTable)
    → Result SqlxError (Option TransactionRow × TransactionDb)
on_elements_transactions s (ok (r, t)) = ok (r, record s { elements_transactions = t })
on_elements_transactions s (err e) = err e

unfoldable pub insert_transaction :
    ℕ
    → ℕ
    → NewTransaction
    → TransactionDb
    → Result SqlxError (Option TransactionRow × TransactionDb)
insert_transaction id now v s = on_transactions s (insert_row id now v s.transactions)

unfoldable pub list_transactions_for_wallet : ℕ → TransactionDb → List TransactionRow
list_transactions_for_wallet wallet s = rows_of_wallet wallet s.transactions

unfoldable pub find_transaction : ℕ → String → TransactionDb → Option TransactionRow
find_transaction wallet txid s = find_row wallet txid s.transactions

unfoldable pub insert_elements_transaction :
    ℕ
    → ℕ
    → NewTransaction
    → TransactionDb
    → Result SqlxError (Option TransactionRow × TransactionDb)
insert_elements_transaction id now v s =
    on_elements_transactions s (insert_row id now v s.elements_transactions)

unfoldable pub list_elements_transactions_for_wallet : ℕ → TransactionDb → List TransactionRow
list_elements_transactions_for_wallet wallet s = rows_of_wallet wallet s.elements_transactions

unfoldable pub find_elements_transaction : ℕ → String → TransactionDb → Option TransactionRow
find_elements_transaction wallet txid s = find_row wallet txid s.elements_transactions
