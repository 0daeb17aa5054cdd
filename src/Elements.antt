-- ===== src/Elements.antt =====
-- The Elements wallet (`src/elements_wallet.rs`) and the keys that it shares with the other parts.
pub mod Balances
pub mod BlindingKey
pub mod Manager
pub mod Ingest
pub mod Backend
pub mod Send
pub mod Addresses
use test_app_pkcs.Prelude.Result.{Result, ok, err}
use test_app_pkcs.Prelude.Sql.{SqlxError}

-- `ElementsWalletError`, without its messages. `panicked` is the panic of an index out of bounds.
pub data ElementsWalletError : Type 0 where
  sqlx : SqlxError → ElementsWalletError
  not_found bad_address bad_fee_rate bad_amount build_pset sign finalize : ElementsWalletError
  broadcast_rejected rpc descriptor pipeline hsm config panicked : ElementsWalletError

-- `?` on a result of `src/db.rs`
abbrev pub from_sqlx {ℓ} : {A : Type ℓ} → Result SqlxError A → Result ElementsWalletError A
from_sqlx (ok a) = ok a
from_sqlx (err e) = err (sqlx e)
