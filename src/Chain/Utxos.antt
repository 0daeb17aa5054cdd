-- ===== src/Chain/Utxos.antt =====
-- `PgWalletUtxoStore` (src/elements_sync.rs) over the table `elements_utxos` of
-- migrations/0007_elements_block_sync.sql: the rows and the statements. `Codec` has the methods.
pub mod Codec
pub mod Spends
pub mod Rollback
use text.Mathlib.Text.{◌==◌ as str_eq}
use test_app_pkcs.Prelude.{
  ℕ, ◌%◌, ◌^◌, ◌<◌, String, ◌≡◌, Bool, not, ◌&&◌, true, false, Option, none, some, List, [], ◌∷◌,
  any, find?, keep, ltb, leb, ◌==◌, if◌then◌else◌,
}
use test_app_pkcs.Prelude.Result.{Result, ok, err}
use test_app_pkcs.Prelude.Sql.{
  SqlxError, check_violation, foreign_key_violation, delete_where, update_where, upsert, Sql, Conn,
  execute, pure, ◌>>=◌,
}
use test_app_pkcs.Chain.{SyncError, HashText, store_err, enc_err}

-- What the store takes from `emvault` and `elements`. A `TxOut` and a `TxOutSecrets` are only handed
-- on, so each is a number here; JSON encoding may fail.
pub record UtxoLib : Type 0 where
  pub txids : HashText
  pub serialize : ℕ → List ℕ
  pub deserialize : List ℕ → Option ℕ
  pub to_json : ℕ → Option String
  pub from_json : String → Option ℕ
  pub asset : ℕ → ℕ
  pub asset_to_string : ℕ → String
  pub value : ℕ → ℕ
  pub script_pubkey : ℕ → ℕ
  pub deserialize-serialize : (o : ℕ) → deserialize (serialize o) ≡ some o
  pub from_json-to_json : (s : ℕ) (j : String) → to_json s ≡ some j → from_json j ≡ some s

pub data KeychainKind : Type 0 where
  external internal : KeychainKind

-- The column `chain` is a SMALLINT.
unfoldable pub chain_to_i16 : KeychainKind → ℕ
chain_to_i16 external = 0
chain_to_i16 internal = 1

unfoldable pub i16_to_chain : ℕ → KeychainKind
i16_to_chain v = if v == 0 then external else internal

pub record OutPoint : Type 0 where
  pub txid : ℕ
  pub vout : ℕ

pub record CapturedUtxo : Type 0 where
  pub wallet_id : ℕ
  pub outpoint : OutPoint
  pub txout : ℕ
  pub secrets : ℕ
  pub chain : KeychainKind
  pub wildcard_index : ℕ
  pub height : ℕ
  pub is_spent : Bool

pub record UtxoRow : Type 0 where
  pub wallet_id : ℕ
  pub txid : String
  pub vout : ℕ
  pub raw_txout : List ℕ
  pub secrets_json : String
  pub asset_id : String
  pub value_sat : ℕ
  pub chain : ℕ
  pub wildcard_index : ℕ
  pub height : ℕ
  pub is_spent : Bool
  pub spent_height : Option ℕ

-- `wallets` are the ids of `elements_wallets`, which `wallet_id` refers to.
pub record UtxoDb : Type 0 where
  pub wallets : List ℕ
  pub utxos : List UtxoRow

abbrev pub has_key : UtxoRow → UtxoRow → Bool
has_key k r = r.wallet_id == k.wallet_id && (str_eq r.txid k.txid && r.vout == k.vout)

abbrev pub has_outpoint : String → ℕ → UtxoRow → Bool
has_outpoint txid vout r = str_eq r.txid txid && r.vout == vout

-- ON CONFLICT … DO UPDATE: `is_spent` and `spent_height` are not among the columns set.
abbrev pub recapture : UtxoRow → UtxoRow → UtxoRow
recapture new r = record r {
  raw_txout = new.raw_txout;
  secrets_json = new.secrets_json;
  asset_id = new.asset_id;
  value_sat = new.value_sat;
  chain = new.chain;
  wildcard_index = new.wildcard_index;
  height = new.height;
}

-- The statement of `upsert_utxos` for one row. A value of 2^63 or more is negative as an `i64`, and
-- the CHECK on `value_sat` refuses it; so does the one on `chain`, of more than 1.
unfoldable pub upsert_row : UtxoRow → UtxoDb → Result SqlxError (Unit {0} × UtxoDb)
upsert_row new s =
    if ltb new.value_sat (2 ^ 63) && leb new.chain 1
    then (if any (λ w. w == new.wallet_id) s.wallets
        then ok (tt, record s { utxos = upsert (has_key new) (recapture new) new s.utxos })
        else err foreign_key_violation)
    else err check_violation

abbrev pub spend_at : ℕ → UtxoRow → UtxoRow
spend_at h r = record r { is_spent = true; spent_height = some h }

-- The statement of `mark_spent` for one outpoint: it names no wallet.
unfoldable pub mark_row : String → ℕ → ℕ → UtxoDb → Result SqlxError (Unit {0} × UtxoDb)
mark_row txid vout h s =
    ok (tt, record s { utxos = update_where (has_outpoint txid vout) (spend_at h) s.utxos })

abbrev pub unspend : UtxoRow → UtxoRow
unspend r = record r { is_spent = false; spent_height = none }

abbrev pub height_above : ℕ → Option ℕ → Bool
height_above h none = false
height_above h (some k) = ltb h k

abbrev pub spent_above : ℕ → UtxoRow → Bool
spent_above h r = height_above h r.spent_height

pub drop_above : ℕ → UtxoDb → Result SqlxError (Unit {0} × UtxoDb)
drop_above h s = ok (tt, record s { utxos = delete_where (λ r. ltb h r.height) s.utxos })

pub unspend_above : ℕ → UtxoDb → Result SqlxError (Unit {0} × UtxoDb)
unspend_above h s = ok (tt, record s { utxos = update_where (spent_above h) unspend s.utxos })

-- `rollback_above` of the UTXO store: two statements.
pub rollback_above : ℕ → Sql UtxoDb (Unit {0})
unfolding drop_above unspend_above
rollback_above h = execute (drop_above h) >>= λ _. execute (unspend_above h)

pub upsert_rows : List UtxoRow → Sql UtxoDb (Unit {0})
upsert_rows [] = pure tt
upsert_rows (r ∷ rs) = execute (upsert_row r) >>= λ _. upsert_rows rs

pub mark_rows : List (String × ℕ) → ℕ → Sql UtxoDb (Unit {0})
mark_rows [] h = pure tt
mark_rows ((txid, vout) ∷ ops) h = execute (mark_row txid vout h) >>= λ _. mark_rows ops h
