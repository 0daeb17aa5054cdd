-- ===== src/Wallet/Send.antt =====
-- Sending from the Bitcoin wallet: `build_sign_and_broadcast`, `sweep_to` and `broadcast_raw` of
-- `src/wallet.rs`. Building, signing and finalizing are BDK's and the coordinator's.
pub mod Accounts
pub mod Recorded
use test_app_pkcs.Prelude.{
  ℕ, ◌+◌, ◌-◌, ◌^◌, String, Bool, Option, none, some, List, [], ◌∷◌, ltb, ◌==◌, if◌then◌else◌,
}
use test_app_pkcs.Prelude.Int.{pos}
use test_app_pkcs.Prelude.Result.{Result, ok, err, ok_or, ◌>>=◌}
use test_app_pkcs.Db.Wallets.{WalletDb, update_wallet_changeset}
use test_app_pkcs.Db.Transactions.{
  NewTransaction, TransactionRow, TransactionDb, insert_transaction,
}
use test_app_pkcs.Wallet.{
  WalletError, from_sqlx, bad_fee_rate, extract_tx, encode_change_set, rpc_client_missing,
}
use test_app_pkcs.Wallet.Step.{Step, lift, pure, ◌>>>◌}

-- A finalized transaction: outputs as script and value, inputs as the outpoints that they spend.
pub record Tx : Type 0 where
  pub txid : ℕ
  pub outputs : List (ℕ × ℕ)
  pub inputs : List ℕ

-- What the block under the wallet's lock hands on, with the staged changeset of type `C`.
pub record Signed (C : Type 0) : Type 0 where
  pub tx : Tx
  pub delta : Option C
  pub tip : ℕ

-- A backend's broadcast, of a transaction or of raw bytes.
pub record Backends : Type 0 where
  pub electrum : Option (Tx → Result WalletError ℕ)
  pub esplora : Option (Tx → Result WalletError ℕ)
  pub rpc : Option (List ℕ → Result WalletError ℕ)

pub record SendLib (C : Type 0) : Type 0 where
  pub from_sat_per_vb : ℕ → Option ℕ
  pub spend : ℕ → ℕ → ℕ → Result WalletError (Signed C)
  pub drain : ℕ → ℕ → Result WalletError (Signed C)
  pub get_utxo : ℕ → Option ℕ
  pub encode : Tx → Option (List ℕ)
  pub decode : List ℕ → Option Tx
  pub merge : C → C → C
  pub to_json : C → Option String
  pub txid_to_string : ℕ → String
  pub to_hex : List ℕ → String

-- The wallet's aggregate changeset, the tables, and the transactions that a backend accepted.
pub record Ledger (C : Type 0) : Type 0 where
  pub aggregate : C
  pub accounts : WalletDb
  pub transactions : TransactionDb
  pub broadcasts : List ℕ

-- What the caller gets back.
pub record BroadcastTransaction : Type 0 where
  pub txid : ℕ
  pub recipient : String
  pub amount_sat : ℕ
  pub fee_sat : ℕ

-- `u64::saturating_add`
abbrev pub add_saturating : ℕ → ℕ → ℕ
add_saturating a b = if ltb (a + b) (2 ^ 64) then a + b else 2 ^ 64 - 1

unfoldable pub output_total : ℕ → List (ℕ × ℕ) → ℕ
output_total acc [] = acc
output_total acc ((spk, value) ∷ outs) = output_total (add_saturating acc value) outs

unfoldable pub recipient_total : ℕ → ℕ → List (ℕ × ℕ) → ℕ
recipient_total to acc [] = acc
recipient_total to acc ((spk, value) ∷ outs) =
    recipient_total to (if spk == to then add_saturating acc value else acc) outs

-- `i64::try_from(n).unwrap_or(i64::MAX)`, and the same for an `i32`
abbrev pub as_i64 : ℕ → ℕ
as_i64 n = if ltb n (2 ^ 63) then n else 2 ^ 63 - 1

abbrev pub as_i32 : ℕ → ℕ
as_i32 n = if ltb n (2 ^ 31) then n else 2 ^ 31 - 1

module _ {C : Type 0} (lib : SendLib C) where
  open lib use {
    from_sat_per_vb, spend, drain, get_utxo, encode, decode, merge, to_json, txid_to_string, to_hex,
  }

  abbrev pub add_utxo : ℕ → Option ℕ → ℕ
  add_utxo acc none = acc
  add_utxo acc (some value) = add_saturating acc value

  unfoldable pub input_total : ℕ → List ℕ → ℕ
  input_total acc [] = acc
  input_total acc (outpoint ∷ ins) = input_total (add_utxo acc (get_utxo outpoint)) ins

  -- `input_total.saturating_sub(output_total)`
  unfoldable pub fee_of : Tx → ℕ
  unfolding output_total input_total
  fee_of tx = input_total 0 tx.inputs - output_total 0 tx.outputs

  abbrev pub decoded : List ℕ → (Tx → Result WalletError ℕ) → Result WalletError ℕ
  decoded raw send = ok_or (decode raw) extract_tx >>= send

  -- Electrum, else Esplora, else the node.
  abbrev pub through_rpc : List ℕ → Option (List ℕ → Result WalletError ℕ) → Result WalletError ℕ
  through_rpc raw none = err rpc_client_missing
  through_rpc raw (some send) = send raw

  abbrev pub through_esplora :
      Backends → List ℕ → Option (Tx → Result WalletError ℕ) → Result WalletError ℕ
  through_esplora b raw (some send) = decoded raw send
  through_esplora b raw none = through_rpc raw b.rpc

  abbrev pub through_electrum :
      Backends → List ℕ → Option (Tx → Result WalletError ℕ) → Result WalletError ℕ
  through_electrum b raw (some send) = decoded raw send
  through_electrum b raw none = through_esplora b raw b.esplora

  unfoldable pub broadcast_raw : Backends → List ℕ → Result WalletError ℕ
  broadcast_raw b raw = through_electrum b raw b.electrum

  -- The aggregate takes the delta before it is encoded, so it keeps it if the encoding fails.
  abbrev pub write_changeset : ℕ → ℕ → Option String → Step (Ledger C) (Unit {0})
  write_changeset wallet tip none s = (err encode_change_set, s)
  write_changeset wallet tip (some json) s =
      (ok tt, record s { accounts = update_wallet_changeset wallet json (as_i32 tip) s.accounts })

  abbrev pub persist_delta : ℕ → ℕ → Option C → Step (Ledger C) (Unit {0})
  persist_delta wallet tip none s = (ok tt, s)
  persist_delta wallet tip (some delta) s =
      let agg = merge s.aggregate delta in
      write_changeset wallet tip (to_json agg) (record s { aggregate = agg })

  abbrev pub sent : ℕ → Ledger C → Result WalletError ℕ → Result WalletError ℕ × Ledger C
  sent txid s (err e) = (err e, s)
  sent txid s (ok t) = (ok t, record s { broadcasts = txid ∷ s.broadcasts })

  abbrev pub broadcast : Backends → ℕ → List ℕ → Step (Ledger C) ℕ
  broadcast b txid raw s = sent txid s (broadcast_raw b raw)

  abbrev pub inserted :
      Ledger C
      → Result WalletError (Option TransactionRow × TransactionDb)
      → Result WalletError (Unit {0}) × Ledger C
  inserted s (err e) = (err e, s)
  inserted s (ok (row, db)) = (ok tt, record s { transactions = db })

  abbrev pub record_tx : ℕ → ℕ → NewTransaction → Step (Ledger C) (Unit {0})
  record_tx id now v s = inserted s (from_sqlx (insert_transaction id now v s.transactions))

  abbrev pub payment : ℕ → ℕ → String → Option String → Tx → List ℕ → NewTransaction
  payment wallet to recipient label tx raw = record {
    wallet_id = wallet;
    txid = txid_to_string tx.txid;
    recipient = recipient;
    amount_sat = pos (as_i64 (recipient_total to 0 tx.outputs));
    fee_sat = pos (as_i64 (fee_of tx));
    raw_tx_hex = to_hex raw;
    label = label;
  }

  abbrev pub receipt : ℕ → String → Tx → BroadcastTransaction
  receipt to recipient tx = record {
    txid = tx.txid;
    recipient = recipient;
    amount_sat = as_i64 (recipient_total to 0 tx.outputs);
    fee_sat = as_i64 (fee_of tx);
  }

  -- The part that both ways of sending share: persist, broadcast, record.
  unfoldable pub settle :
      Backends
      → ℕ
      → ℕ
      → ℕ
      → ℕ
      → String
      → Option String
      → Signed C
      → List ℕ
      → Step (Ledger C) BroadcastTransaction
  unfolding recipient_total fee_of
  settle b id now wallet to recipient label signed raw =
      persist_delta wallet signed.tip signed.delta >>> λ _. broadcast b signed.tx.txid raw >>> λ _.
      record_tx id now (payment wallet to recipient label signed.tx raw) >>> λ _.
      pure (receipt to recipient signed.tx)

  abbrev pub settle_signed :
      Backends
      → ℕ
      → ℕ
      → ℕ
      → ℕ
      → String
      → Option String
      → Result WalletError (Signed C)
      → Step (Ledger C) BroadcastTransaction
  settle_signed b id now wallet to recipient label made = lift made >>> λ signed.
      lift (ok_or (encode signed.tx) extract_tx) >>> λ raw.
      settle b id now wallet to recipient label signed raw

  -- `id` and `now` are the server's for the row; `to` is the recipient's script.
  unfoldable pub build_sign_and_broadcast :
      Backends
      → ℕ
      → ℕ
      → ℕ
      → ℕ
      → String
      → ℕ
      → ℕ
      → Option String
      → Step (Ledger C) BroadcastTransaction
  unfolding settle
  build_sign_and_broadcast b id now wallet to recipient amount rate label =
      lift (ok_or (from_sat_per_vb rate) bad_fee_rate) >>> λ fee.
      settle_signed b id now wallet to recipient label (spend to amount fee)

  unfoldable pub sweep_to :
      Backends → ℕ → ℕ → ℕ → ℕ → String → ℕ → Option String → Step (Ledger C) BroadcastTransaction
  unfolding settle
  sweep_to b id now wallet to recipient rate label =
      lift (ok_or (from_sat_per_vb rate) bad_fee_rate) >>> λ fee.
      settle_signed b id now wallet to recipient label (drain to fee)
