-- ===== src/Wallet/Signing.antt =====
-- Signing some inputs of a shared transaction: `sign_migration_inputs` of `src/wallet.rs` and
-- `sign_migration_pset_inputs` of `src/elements_wallet.rs`. An input is its key derivations and its
-- partial signatures; the signers are the library's.
pub mod Restored
use test_app_pkcs.Prelude.{
  ℕ, suc, zero, Bool, true, false, not, List, [], ◌∷◌, ◌++◌, any, ◌==◌, if◌then◌else◌,
}
use test_app_pkcs.Prelude.Result.{Result, ok, err}
use test_app_pkcs.Wallet.{WalletError}

pub record Input (D G : Type 0) : Type 0 where
  pub bip32_derivation : List D
  pub signatures : G

abbrev pub contains : List ℕ → ℕ → Bool
contains indices i = any (λ j. j == i) indices

module _ {D G : Type 0} where
  abbrev pub cleared : Input D G → Input D G
  cleared inp = record inp { bip32_derivation = [] }

  -- The first loop, from input `i` on: the inputs as they are left, and `saved`.
  unfoldable pub take_derivations :
      List ℕ → ℕ → List (Input D G) → List (Input D G) × List (ℕ × List D)
  take_derivations indices i [] = ([], [])
  take_derivations indices i (inp ∷ inps) =
      let (rest, saved) = take_derivations indices (suc i) inps in
      if contains indices i
      then (inp ∷ rest, saved)
      else (cleared inp ∷ rest, (i, inp.bip32_derivation) ∷ saved)

  -- `psbt.inputs[i].bip32_derivation = derivation`
  unfoldable pub put_derivation : ℕ → List D → List (Input D G) → List (Input D G)
  put_derivation i d [] = []
  put_derivation zero d (inp ∷ inps) = record inp { bip32_derivation = d } ∷ inps
  put_derivation (suc i) d (inp ∷ inps) = inp ∷ put_derivation i d inps

  unfoldable pub restore : List (ℕ × List D) → List (Input D G) → List (Input D G)
  restore [] inps = inps
  restore ((i, d) ∷ saved) inps = restore saved (put_derivation i d inps)

  abbrev pub restored_after :
      List (ℕ × List D)
      → Result WalletError (Unit {0}) × List (Input D G)
      → Result WalletError (Unit {0}) × List (Input D G)
  restored_after saved (ok u, inps) = (ok u, restore saved inps)
  restored_after saved (err e, inps) = (err e, inps)

  -- `wallet.sign` may fail, and then the derivations that were taken stay out.
  unfoldable pub sign_migration_inputs :
      (List (Input D G) → Result WalletError (Unit {0}) × List (Input D G))
      → List ℕ
      → List (Input D G)
      → Result WalletError (Unit {0}) × List (Input D G)
  sign_migration_inputs sign indices inps =
      let (open_inps, saved) = take_derivations indices 0 inps in
      restored_after saved (sign open_inps)

  -- Each signer's result is dropped.
  unfoldable pub sign_all :
      List (List (Input D G) → List (Input D G)) → List (Input D G) → List (Input D G)
  sign_all [] inps = inps
  sign_all (s ∷ ss) inps = sign_all ss (s inps)

  unfoldable pub sign_migration_pset_inputs :
      List (List (Input D G) → List (Input D G)) → List ℕ → List (Input D G) → List (Input D G)
  unfolding sign_all
  sign_migration_pset_inputs signers indices inps =
      let (open_inps, saved) = take_derivations indices 0 inps in
      restore saved (sign_all signers open_inps)
