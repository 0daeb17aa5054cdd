-- ===== src/Wallet/Step.antt =====
-- The operations of the Bitcoin wallets.
use test_app_pkcs.Wallet.{WalletError}
use test_app_pkcs.Prelude.Step.{Action}
pub use test_app_pkcs.Prelude.Step.{err-ok, pure, lift, bind_after, ◌>>>◌, >>>-eq-ok}

abbrev pub Step {ℓ κ} : Type ℓ → Type κ → Type (ℓ ⊔ κ)
Step S A = Action WalletError S A
