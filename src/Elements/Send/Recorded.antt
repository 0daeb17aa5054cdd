-- ===== src/Elements/Send/Recorded.antt =====
-- What a send from the Elements wallet leaves of the records and the broadcasts.
use test_app_pkcs.Prelude.{ℕ, ◌≡◌, refl, String, Option, some, List, ◌∷◌, inl, inr, ◌⊎◌}
use test_app_pkcs.Prelude.Int.{ℤ}
use test_app_pkcs.Prelude.Result.{Result, ok, err, Result-cases}
use test_app_pkcs.Prelude.Step.{Action, pure, ◌>>>◌}
use test_app_pkcs.Prelude.Sql.{SqlxError}
use test_app_pkcs.Db.Transactions.{
  TransactionRow, TransactionDb, insert_elements_transaction, find_elements_transaction,
}
use test_app_pkcs.Db.Transactions.Once.{insert_row-find_row}
use test_app_pkcs.Elements.{ElementsWalletError, sqlx}
use test_app_pkcs.Elements.Backend.{Clients, broadcast_via_backend}
use test_app_pkcs.Elements.Manager.Load.{UserElementsWallet}
use test_app_pkcs.Elements.Send.{
  PsetLib, ElementsTx, Ledger, ElementsBroadcastTransaction, record_tx, new_transaction, receipt,
  settle, payment, asset_payment, asset_drain, drain, build_sign_and_broadcast,
  build_sign_and_broadcast_asset, build_sign_and_broadcast_asset_max, sweep_to,
}

-- A call of one of the four ways of sending: recipient, asset, rounded amount, fee rate.
pub data Request : Type 0 where
  pay : String → ℤ → ℕ → Request
  pay_asset : String → String → ℤ → ℕ → Request
  drain_asset : String → String → ℕ → Request
  sweep : String → ℕ → Request

module _ {S N C R W P F : Type 0} (clients : Clients C R ElementsTx N) (lib : PsetLib S N W P F)
    (uw : UserElementsWallet S N) where
  abbrev pub run :
      ℕ
      → ℕ
      → Option String
      → Request
      → Action ElementsWalletError Ledger ElementsBroadcastTransaction
  run id now label (pay recipient amount rate) =
      build_sign_and_broadcast clients lib uw id now recipient amount rate label
  run id now label (pay_asset recipient asset amount rate) =
      build_sign_and_broadcast_asset clients lib uw id now recipient asset amount rate label
  run id now label (drain_asset recipient asset rate) =
      build_sign_and_broadcast_asset_max clients lib uw id now recipient asset rate label
  run id now label (sweep recipient rate) = sweep_to clients lib uw id now recipient rate label

  -- What a run leaves of the tables and of the broadcasts, as they were before it.
  abbrev pub Settled :
      TransactionDb
      → List (ElementsTx × ℕ)
      → Result ElementsWalletError ElementsBroadcastTransaction × Ledger
      → Type 0
  Settled db before (ok r, t) =
      (tx : ElementsTx) × (txid : ℕ) × (row : TransactionRow) × (t.broadcasts ≡ (tx, txid) ∷ before)
      × (r.txid ≡ lib.txid_to_string txid)
      × (find_elements_transaction uw.wallet_id r.txid t.transactions ≡ some row)
  Settled db before (err e, t) =
      (t.transactions ≡ db)
      × ((t.broadcasts ≡ before)
          ⊎ ((x : SqlxError) × (accepted : ElementsTx × ℕ) × (e ≡ sqlx x)
              × (t.broadcasts ≡ accepted ∷ before)))

  record_tx-Settled :
      (db : TransactionDb) (before : List (ElementsTx × ℕ)) (id now : ℕ) (recipient : String)
      (label : Option String) (tx : ElementsTx) (amount : ℤ) (txid : ℕ) (s : Ledger)
      → s.transactions ≡ db
      → s.broadcasts ≡ (tx, txid) ∷ before
      → Settled db before (
          (record_tx clients lib uw id now
                (new_transaction clients lib uw recipient label tx amount txid)
              >>> λ _. pure (receipt clients lib uw recipient tx amount txid))
            s)
  unfolding insert_elements_transaction find_elements_transaction
  record_tx-Settled db before id now recipient label tx amount txid s d b =
      elim (insert_row-find_row id now
        (new_transaction clients lib uw recipient label tx amount txid)
        s.transactions.elements_transactions) [
          | inl (x, e) ↦ rw e (d, inr (x, (tx, txid), refl, b))
          | inr (new, u, row, e, f) ↦ rw e (tx, txid, row, b, refl, f)
        ]

  settle-Settled :
      (id now : ℕ) (recipient : String) (label : Option String)
      (made : Result ElementsWalletError (ElementsTx × ℤ)) (s : Ledger)
      → Settled s.transactions s.broadcasts (settle clients lib uw id now recipient label made s)
  unfolding settle
  settle-Settled id now recipient label (err e) s = (refl, inl refl)
  settle-Settled id now recipient label (ok (tx, amount)) s =
      elim (Result-cases (broadcast_via_backend clients uw.settings uw.lwk_net tx)) [
        | inl (txid, accepted) ↦ rw accepted (
            record_tx-Settled s.transactions s.broadcasts id now recipient label tx amount txid
              (record s { broadcasts = (tx, txid) ∷ s.broadcasts }) refl refl)
        | inr (x, refused) ↦ rw refused (refl, inl refl)
      ]

  -- If a send from the Elements wallet succeeds, of an amount, of an asset, of all of an asset or of
  -- everything, the backend has accepted one transaction and the wallet has a record under the txid
  -- of the receipt, which is the one that the backend answered. If it fails, nothing is recorded, and
  -- a transaction was accepted only if the error is the database's.
  pub elements_send-Settled :
      (id now : ℕ) (label : Option String) (request : Request) (s : Ledger)
      → Settled s.transactions s.broadcasts (run id now label request s)
  unfolding build_sign_and_broadcast build_sign_and_broadcast_asset
      build_sign_and_broadcast_asset_max sweep_to
  elements_send-Settled id now label (pay recipient amount rate) s =
      settle-Settled id now recipient label (payment clients lib uw recipient amount rate s.utxos) s
  elements_send-Settled id now label (pay_asset recipient asset amount rate) s =
      settle-Settled id now recipient label
        (asset_payment clients lib uw recipient asset amount rate s.utxos) s
  elements_send-Settled id now label (drain_asset recipient asset rate) s =
      settle-Settled id now recipient label
        (asset_drain clients lib uw recipient asset rate s.utxos) s
  elements_send-Settled id now label (sweep recipient rate) s =
      settle-Settled id now recipient label (drain clients lib uw recipient rate s.utxos) s
