-- ===== src/Chain.antt =====
-- Stores of the Elements block-scan pipeline (src/elements_sync.rs): the types that they share, and
-- what the pipeline takes from its libraries.
pub mod Blocks
pub mod Utxos
pub mod Checkpoints
use Prim.Native.String.{[], ◌∷◌}
use test_app_pkcs.Prelude.{
  ℕ, zero, suc, String, ◌≡◌, refl, Bool, true, false, Option, none, some, arith,
}
use test_app_pkcs.Prelude.Result.{Result, ok, err}
use test_app_pkcs.Prelude.Sql.{SqlxError}

-- `emvault::elements::SyncError`, without its messages; `store` keeps the database's error.
pub data SyncError : Type 0 where
  store : SqlxError → SyncError
  encoding chain_source : SyncError

-- `store_err`
abbrev pub store_err {ℓ} : {A : Type ℓ} → Result SqlxError A → Result SyncError A
store_err (ok a) = ok a
store_err (err e) = err (store e)

-- `enc_err`, of a conversion that may fail
abbrev pub enc_err {ℓ} : {A : Type ℓ} → Option A → Result SyncError A
enc_err none = err encoding
enc_err (some a) = ok a

-- `Display` and `FromStr` of a hash type (`BlockHash`, `Txid`), which the libraries define. Hashes
-- are only compared, so they are numbers here.
pub record HashText : Type 0 where
  pub to_string : ℕ → String
  pub from_str : String → Option ℕ
  pub from_str-to_string : (h : ℕ) → from_str (to_string h) ≡ some h

pub record SyncedTip : Type 0 where
  pub height : ℕ
  pub hash : ℕ
