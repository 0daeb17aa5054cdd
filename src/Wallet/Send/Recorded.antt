-- ===== src/Wallet/Send/Recorded.antt =====
-- What a run of `build_sign_and_broadcast` or `sweep_to` leaves of the records and the broadcasts.
use test_app_pkcs.Prelude.{
  ℕ, ◌≡◌, refl, ap, String, Option, some, List, ◌∷◌, inl, inr, ◌⊎◌, Option-cases,
}
use test_app_pkcs.Prelude.Result.{Result, ok, err, Result-cases}
use test_app_pkcs.Prelude.Sql.{SqlxError}
use test_app_pkcs.Db.Transactions.{
  TransactionRow, TransactionDb, insert_transaction, find_transaction,
}
use test_app_pkcs.Db.Transactions.Once.{insert_row-find_row}
use test_app_pkcs.Wallet.{WalletError, sqlx}
use test_app_pkcs.Wallet.Step.{pure, ◌>>>◌}
use test_app_pkcs.Wallet.Send.{
  Tx, Signed, Backends, SendLib, Ledger, BroadcastTransaction, settle, settle_signed,
  build_sign_and_broadcast, sweep_to, record_tx, broadcast, payment, receipt, broadcast_raw, as_i32,
}
use test_app_pkcs.Db.Wallets.{update_wallet_changeset}

module _ {C : Type 0} (lib : SendLib C) (wallet : ℕ) (db : TransactionDb) (before : List ℕ) where
  -- What a run leaves of the tables and of the broadcasts, as they were before it.
  abbrev pub Settled : Result WalletError BroadcastTransaction × Ledger C → Type 0
  Settled (ok r, t) =
      (t.broadcasts ≡ r.txid ∷ before)
      × (row : TransactionRow) × (find_transaction wallet (lib.txid_to_string r.txid) t.transactions
          ≡ some row)
  Settled (err e, t) =
      (t.transactions ≡ db)
      × ((t.broadcasts ≡ before)
          ⊎ ((x : SqlxError) × (txid : ℕ) × (e ≡ sqlx x) × (t.broadcasts ≡ txid ∷ before)))

  record_tx-Settled :
      (id now to : ℕ) (recipient : String) (label : Option String) (tx : Tx) (raw : List ℕ)
      (s : Ledger C)
      → s.transactions ≡ db
      → s.broadcasts ≡ tx.txid ∷ before
      → Settled (
          (record_tx lib id now (payment lib wallet to recipient label tx raw) >>> λ _.
          pure (receipt lib to recipient tx))
            s)
  unfolding insert_transaction find_transaction
  record_tx-Settled id now to recipient label tx raw s d b =
      elim (insert_row-find_row id now (payment lib wallet to recipient label tx raw)
        s.transactions.transactions) [
          | inl (x, e) ↦ rw e (d, inr (x, tx.txid, refl, b))
          | inr (new, u, row, e, f) ↦ rw e (b, row, f)
        ]

  broadcast-Settled :
      (b : Backends) (id now to : ℕ) (recipient : String) (label : Option String) (tx : Tx)
      (raw : List ℕ) (s : Ledger C)
      → s.transactions ≡ db
      → s.broadcasts ≡ before
      → Settled (
          (broadcast lib b tx.txid raw >>> λ _.
          record_tx lib id now (payment lib wallet to recipient label tx raw) >>> λ _.
          pure (receipt lib to recipient tx))
            s)
  broadcast-Settled b id now to recipient label tx raw s d e =
      elim (Result-cases (broadcast_raw lib b raw)) [
        | inl (t, sent) ↦ rw sent (
            record_tx-Settled id now to recipient label tx raw
              (record s { broadcasts = tx.txid ∷ s.broadcasts }) d (ap (λ rest. tx.txid ∷ rest) e))
        | inr (x, failed) ↦ rw failed (d, inl e)
      ]

  settle-Settled :
      (b : Backends) (id now to : ℕ) (recipient : String) (label : Option String)
      (signed : Signed C) (raw : List ℕ) (s : Ledger C)
      → s.transactions ≡ db
      → s.broadcasts ≡ before
      → Settled (settle lib b id now wallet to recipient label signed raw s)
  unfolding settle
  settle-Settled b id now to recipient label signed raw s d e = elim (Option-cases signed.delta) [
    | inl clean ↦ rw clean (broadcast-Settled b id now to recipient label signed.tx raw s d e)
    | inr (delta, staged) ↦ elim (Option-cases (lib.to_json (lib.merge s.aggregate delta))) [
      | inl failed ↦ rw (staged, failed) (d, inl e)
      | inr (json, encoded) ↦
          rw (staged, encoded)
            (broadcast-Settled b id now to recipient label signed.tx raw
              (record s {
                aggregate = lib.merge s.aggregate delta;
                accounts = update_wallet_changeset wallet json (as_i32 signed.tip) s.accounts;
              })
              d e)
    ]
  ]

  settle_signed-Settled :
      (b : Backends) (id now to : ℕ) (recipient : String) (label : Option String)
      (made : Result WalletError (Signed C)) (s : Ledger C)
      → s.transactions ≡ db
      → s.broadcasts ≡ before
      → Settled (settle_signed lib b id now wallet to recipient label made s)
  settle_signed-Settled b id now to recipient label (err x) s d e = (d, inl e)
  settle_signed-Settled b id now to recipient label (ok signed) s d e =
      elim (Option-cases (lib.encode signed.tx)) [
        | inl failed ↦ rw failed (d, inl e)
        | inr (raw, encoded) ↦
            rw encoded (settle-Settled b id now to recipient label signed raw s d e)
      ]

module _ {C : Type 0} (lib : SendLib C) where
  -- If build_sign_and_broadcast succeeds, a backend has accepted the transaction of the receipt and
  -- the wallet has a record of its txid. If it fails, nothing is recorded, and a transaction was
  -- accepted only if the error is the database's.
  pub build_sign_and_broadcast-Settled :
      (b : Backends) (id now wallet to : ℕ) (recipient : String) (amount rate : ℕ)
      (label : Option String) (s : Ledger C)
      → Settled lib wallet s.transactions s.broadcasts
          (build_sign_and_broadcast lib b id now wallet to recipient amount rate label s)
  unfolding build_sign_and_broadcast
  build_sign_and_broadcast-Settled b id now wallet to recipient amount rate label s =
      elim (Option-cases (lib.from_sat_per_vb rate)) [
        | inl bad ↦ rw bad (refl, inl refl)
        | inr (fee, good) ↦ rw good (
            settle_signed-Settled lib wallet s.transactions s.broadcasts b id now to recipient label
              (lib.spend to amount fee) s refl refl)
      ]

  -- If sweep_to succeeds, a backend has accepted the transaction of the receipt and the wallet has a
  -- record of its txid. If it fails, nothing is recorded, and a transaction was accepted only if the
  -- error is the database's.
  pub sweep_to-Settled :
      (b : Backends) (id now wallet to : ℕ) (recipient : String) (rate : ℕ) (label : Option String)
      (s : Ledger C)
      → Settled lib wallet s.transactions s.broadcasts
          (sweep_to lib b id now wallet to recipient rate label s)
  unfolding sweep_to
  sweep_to-Settled b id now wallet to recipient rate label s =
      elim (Option-cases (lib.from_sat_per_vb rate)) [
        | inl bad ↦ rw bad (refl, inl refl)
        | inr (fee, good) ↦ rw good (
            settle_signed-Settled lib wallet s.transactions s.broadcasts b id now to recipient label
              (lib.drain to fee) s refl refl)
      ]
