-- ===== src/Elements/Send.antt =====
-- Sending from the Elements wallet (`src/elements_wallet.rs`): `build_sign_and_broadcast`,
-- `build_sign_and_broadcast_asset`, `build_sign_and_broadcast_asset_max`, `compute_drain_amount` and
-- `sweep_to`. Building, signing and finalizing a PSET are LWK's, emvault's and the signers'.
pub mod Recorded
pub mod Preview
use test_app_pkcs.Prelude.{
  ℕ, ◌-◌, ◌^◌, String, Bool, true, false, Option, none, some, List, [], ◌∷◌, map, ltb, ◌==◌,
  if◌then◌else◌,
}
use test_app_pkcs.Prelude.Int.{ℤ, pos, negsuc, minus}
use test_app_pkcs.Prelude.Result.{Result, ok, err, ok_or, ◌>>=◌}
use test_app_pkcs.Prelude.Step.{Action, lift, pure, ◌>>>◌}
use test_app_pkcs.Chain.{SyncError}
use test_app_pkcs.Chain.Utxos.{UtxoLib, UtxoDb, CapturedUtxo}
use test_app_pkcs.Chain.Utxos.Codec.{list_unspent}
use test_app_pkcs.Config.Text.{is_empty}
use test_app_pkcs.Db.Transactions.{
  NewTransaction, TransactionRow, TransactionDb, insert_elements_transaction,
}
use test_app_pkcs.Elements.{
  ElementsWalletError, from_sqlx, bad_address, build_pset, sign, finalize, descriptor, pipeline,
}
use test_app_pkcs.Elements.Backend.{Clients, broadcast_via_backend}
use test_app_pkcs.Elements.Balances.{Coin, sum, asset_total_sat}
use test_app_pkcs.Elements.Manager.Load.{UserElementsWallet}

-- An output, as the code reads it: whether its script is empty, and the value that is not blinded.
pub record Output : Type 0 where
  pub script_is_empty : Bool
  pub explicit : Option ℕ

pub record ElementsTx : Type 0 where
  pub txid : ℕ
  pub outputs : List Output

-- `W` is a wollet, `P` a PSET, `F` the fee rate per kvB, a float.
pub record PsetLib (S N W P F : Type 0) : Type 0 where
  pub utxos : UtxoLib
  pub from_descriptor_str : String → List ℕ → N → Option W
  pub address : String → Option ℕ
  pub asset_id : String → Option ℕ
  pub fee_rate_kvb : ℕ → F
  pub build_spend_pset : W → List CapturedUtxo → ℕ → ℕ → F → Option P
  pub build_asset_spend_pset : W → List CapturedUtxo → ℕ → ℕ → ℕ → F → Option P
  pub build_sweep_pset : W → List CapturedUtxo → ℕ → F → Option P
  pub outputs : P → List Output
  pub sign_pset : S → P → Option P
  pub finalize_p2wsh_pset : P → Option P
  pub extract_tx : P → Option ElementsTx
  pub serialize_hex : ElementsTx → String
  pub txid_to_string : ℕ → String

-- The tables that a send reads and writes, and the transactions that a backend accepted, each with
-- the txid that it answered.
pub record Ledger : Type 0 where
  pub utxos : UtxoDb
  pub transactions : TransactionDb
  pub broadcasts : List (ElementsTx × ℕ)

pub record ElementsBroadcastTransaction : Type 0 where
  pub txid : String
  pub recipient : String
  pub amount_sat : ℤ
  pub fee_sat : ℕ

-- `as u64` and `as i64` of a rounded float, which saturate
abbrev pub as_u64 : ℤ → ℕ
as_u64 (pos n) = if ltb n (2 ^ 64) then n else 2 ^ 64 - 1
as_u64 (negsuc n) = 0

abbrev pub as_i64 : ℤ → ℤ
as_i64 (pos n) = if ltb n (2 ^ 63) then pos n else pos (2 ^ 63 - 1)
as_i64 (negsuc n) = if ltb n (2 ^ 63) then negsuc n else negsuc (2 ^ 63 - 1)

-- `i64::try_from(n).unwrap_or(i64::MAX)` and `i64::try_from(n).unwrap_or(0)`
abbrev pub i64_or_max : ℕ → ℕ
i64_or_max n = if ltb n (2 ^ 63) then n else 2 ^ 63 - 1

abbrev pub i64_or_zero : ℕ → ℕ
i64_or_zero n = if ltb n (2 ^ 63) then n else 0

abbrev pub or_zero : Option ℕ → ℕ
or_zero none = 0
or_zero (some n) = n

-- The explicit value of the first output with an empty script.
unfoldable pub explicit_fee : List Output → Option ℕ
explicit_fee [] = none
explicit_fee (o ∷ os) = let rest = explicit_fee os in if o.script_is_empty then o.explicit else rest

unfoldable pub fee_sat : ElementsTx → ℕ
unfolding explicit_fee
fee_sat tx = i64_or_zero (or_zero (explicit_fee tx.outputs))

abbrev pub refuse : Bool → Result ElementsWalletError (Unit {0})
refuse true = err build_pset
refuse false = ok tt

abbrev pub pipeline_err {ℓ} : {A : Type ℓ} → Result SyncError A → Result ElementsWalletError A
pipeline_err (ok a) = ok a
pipeline_err (err e) = err pipeline

module _ {S N C R W P F : Type 0} (clients : Clients C R ElementsTx N) (lib : PsetLib S N W P F)
    (uw : UserElementsWallet S N) where
  open lib use {
    from_descriptor_str, address, asset_id, fee_rate_kvb, build_spend_pset, build_asset_spend_pset,
    build_sweep_pset, outputs, sign_pset, finalize_p2wsh_pset, extract_tx, serialize_hex,
    txid_to_string,
  }

  abbrev pub coin_of : CapturedUtxo → Coin
  coin_of u = record {
    script_pubkey = lib.utxos.script_pubkey u.txout;
    asset = lib.utxos.asset u.secrets;
    value = lib.utxos.value u.secrets;
    is_spent = u.is_spent;
  }

  -- What every send begins with: the wollet, the UTXOs, and the recipient's address.
  unfoldable pub opened : String → UtxoDb → Result ElementsWalletError (W × List CapturedUtxo × ℕ)
  unfolding list_unspent
  opened recipient db = do
    wollet ← ok_or (from_descriptor_str uw.descriptor uw.mbk uw.lwk_net) descriptor
    utxos ← pipeline_err (list_unspent lib.utxos uw.wallet_id db)
    _ ← refuse (is_empty utxos)
    addr ← ok_or (address recipient) bad_address
    ok (wollet, utxos, addr)

  unfoldable pub sign_all : List S → P → Result ElementsWalletError P
  sign_all [] p = ok p
  sign_all (signer ∷ signers) p = ok_or (sign_pset signer p) sign >>= sign_all signers

  unfoldable pub finished : P → Result ElementsWalletError ElementsTx
  unfolding sign_all
  finished p = do
    signed ← sign_all uw.signers p
    final ← ok_or (finalize_p2wsh_pset signed) finalize
    ok_or (extract_tx final) finalize

  -- The transaction, and the amount that is recorded for it. `rounded` is `(amount * 1e8).round()`, a
  -- number and no NaN.
  unfoldable pub payment : String → ℤ → ℕ → UtxoDb → Result ElementsWalletError (ElementsTx × ℤ)
  unfolding opened finished
  payment recipient rounded rate db = do
    (wollet, utxos, addr) ← opened recipient db
    p ← ok_or (build_spend_pset wollet utxos addr (as_u64 rounded) (fee_rate_kvb rate)) build_pset
    tx ← finished p
    ok (tx, as_i64 rounded)

  unfoldable pub asset_payment :
      String → String → ℤ → ℕ → UtxoDb → Result ElementsWalletError (ElementsTx × ℤ)
  unfolding opened finished
  asset_payment recipient asset rounded rate db = do
    (wollet, utxos, addr) ← opened recipient db
    id ← ok_or (asset_id asset) build_pset
    p ←
        ok_or (build_asset_spend_pset wollet utxos addr id (as_u64 rounded) (fee_rate_kvb rate))
          build_pset
    tx ← finished p
    ok (tx, as_i64 rounded)

  unfoldable pub asset_drain :
      String → String → ℕ → UtxoDb → Result ElementsWalletError (ElementsTx × ℤ)
  unfolding opened finished
  asset_drain recipient asset rate db = do
    (wollet, utxos, addr) ← opened recipient db
    id ← ok_or (asset_id asset) build_pset
    let total = asset_total_sat id (map coin_of utxos)
    _ ← refuse (total == 0)
    p ← ok_or (build_asset_spend_pset wollet utxos addr id total (fee_rate_kvb rate)) build_pset
    tx ← finished p
    ok (tx, pos (i64_or_max total))

  unfoldable pub drain : String → ℕ → UtxoDb → Result ElementsWalletError (ElementsTx × ℤ)
  unfolding opened finished fee_sat
  drain recipient rate db = do
    (wollet, utxos, addr) ← opened recipient db
    p ← ok_or (build_sweep_pset wollet utxos addr (fee_rate_kvb rate)) build_pset
    tx ← finished p
    ok (tx, minus (i64_or_zero (sum (map coin_of utxos))) (fee_sat tx))

  -- The preview of `sweep_to`.
  unfoldable pub compute_drain_amount : String → ℕ → UtxoDb → Result ElementsWalletError ℕ
  unfolding opened explicit_fee
  compute_drain_amount recipient rate db = do
    (wollet, utxos, addr) ← opened recipient db
    p ← ok_or (build_sweep_pset wollet utxos addr (fee_rate_kvb rate)) build_pset
    ok (sum (map coin_of utxos) - or_zero (explicit_fee (outputs p)))

  abbrev pub sent :
      ElementsTx → Ledger → Result ElementsWalletError ℕ → Result ElementsWalletError ℕ × Ledger
  sent tx s (err e) = (err e, s)
  sent tx s (ok txid) = (ok txid, record s { broadcasts = (tx, txid) ∷ s.broadcasts })

  abbrev pub broadcast : ElementsTx → Action ElementsWalletError Ledger ℕ
  broadcast tx s = sent tx s (broadcast_via_backend clients uw.settings uw.lwk_net tx)

  abbrev pub inserted :
      Ledger
      → Result ElementsWalletError (Option TransactionRow × TransactionDb)
      → Result ElementsWalletError (Unit {0}) × Ledger
  inserted s (err e) = (err e, s)
  inserted s (ok (row, db)) = (ok tt, record s { transactions = db })

  abbrev pub record_tx : ℕ → ℕ → NewTransaction → Action ElementsWalletError Ledger (Unit {0})
  record_tx id now v s =
      inserted s (from_sqlx (insert_elements_transaction id now v s.transactions))

  abbrev pub new_transaction : String → Option String → ElementsTx → ℤ → ℕ → NewTransaction
  new_transaction recipient label tx amount txid = record {
    wallet_id = uw.wallet_id;
    txid = txid_to_string txid;
    recipient = recipient;
    amount_sat = amount;
    fee_sat = pos (fee_sat tx);
    raw_tx_hex = serialize_hex tx;
    label = label;
  }

  abbrev pub receipt : String → ElementsTx → ℤ → ℕ → ElementsBroadcastTransaction
  receipt recipient tx amount txid = record {
    txid = txid_to_string txid;
    recipient = recipient;
    amount_sat = amount;
    fee_sat = fee_sat tx;
  }

  -- What every send ends with: broadcast, then record. `id` and `now` are the server's for the row.
  unfoldable pub settle :
      ℕ
      → ℕ
      → String
      → Option String
      → Result ElementsWalletError (ElementsTx × ℤ)
      → Action ElementsWalletError Ledger ElementsBroadcastTransaction
  unfolding fee_sat broadcast_via_backend
  settle id now recipient label made = lift made >>> λ (tx, amount). broadcast tx >>> λ txid.
      record_tx id now (new_transaction recipient label tx amount txid) >>> λ _.
      pure (receipt recipient tx amount txid)

  unfoldable pub build_sign_and_broadcast :
      ℕ
      → ℕ
      → String
      → ℤ
      → ℕ
      → Option String
      → Action ElementsWalletError Ledger ElementsBroadcastTransaction
  unfolding settle payment
  build_sign_and_broadcast id now recipient rounded rate label s =
      settle id now recipient label (payment recipient rounded rate s.utxos) s

  unfoldable pub build_sign_and_broadcast_asset :
      ℕ
      → ℕ
      → String
      → String
      → ℤ
      → ℕ
      → Option String
      → Action ElementsWalletError Ledger ElementsBroadcastTransaction
  unfolding settle asset_payment
  build_sign_and_broadcast_asset id now recipient asset rounded rate label s =
      settle id now recipient label (asset_payment recipient asset rounded rate s.utxos) s

  unfoldable pub build_sign_and_broadcast_asset_max :
      ℕ
      → ℕ
      → String
      → String
      → ℕ
      → Option String
      → Action ElementsWalletError Ledger ElementsBroadcastTransaction
  unfolding settle asset_drain
  build_sign_and_broadcast_asset_max id now recipient asset rate label s =
      settle id now recipient label (asset_drain recipient asset rate s.utxos) s

  unfoldable pub sweep_to :
      ℕ
      → ℕ
      → String
      → ℕ
      → Option String
      → Action ElementsWalletError Ledger ElementsBroadcastTransaction
  unfolding settle drain
  sweep_to id now recipient rate label s =
      settle id now recipient label (drain recipient rate s.utxos) s
