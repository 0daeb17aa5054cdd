-- ===== src/Wallet.antt =====
-- The Bitcoin wallet (`src/wallet.rs`).
pub mod Descriptor
pub mod Reconcile
pub mod Step
pub mod Manager
pub mod Signing
pub mod Send
pub mod Sync
pub mod History
use test_app_pkcs.Prelude.Result.{Result, ok, err}
use test_app_pkcs.Prelude.Sql.{SqlxError}

-- `WalletError`, without its messages. `panicked` is the panic of an index out of bounds.
pub data WalletError : Type 0 where
  sqlx : SqlxError → WalletError
  not_found hsm federation script_type_unavailable create_wallet encode_change_set init_wallet :
      WalletError
  sign build_tx extract_tx bad_fee_rate broadcast_rejected chain_sync rpc_client_missing :
      WalletError
  panicked : WalletError

-- `?` on a result of `src/db.rs`
abbrev pub from_sqlx {ℓ} : {A : Type ℓ} → Result SqlxError A → Result WalletError A
from_sqlx (ok a) = ok a
from_sqlx (err e) = err (sqlx e)
