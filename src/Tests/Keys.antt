-- ===== src/Tests/Keys.antt =====
-- Descriptors, signing, the HSM cache, the balances.
use test_app_pkcs.Prelude.{
  ℕ, suc, ◌≡◌, refl, true, false, not, List, [], ◌∷◌, arith, any, map, keep, if◌then◌else◌, ◌==◌,
}
use test_app_pkcs.Prelude.Result.{Result, ok, err}
use test_app_pkcs.Wallet.{WalletError}
use test_app_pkcs.Wallet.Descriptor.{
  extract_fingerprints_from_descriptor, is_fingerprint, all, codes,
}
use test_app_pkcs.Wallet.Descriptor.Fingerprints.{print, Key, extract_fingerprints-print}
use test_app_pkcs.Wallet.Signing.{
  Input, take_derivations, put_derivation, restore, sign_migration_inputs,
}
use test_app_pkcs.Wallet.Signing.Restored.{Kept, sign_migration_inputs-Kept}
use test_app_pkcs.Hsm.{Pkcs11, Fleet, Pkcs11Error, signers_for, derive_signers, cached}
use test_app_pkcs.Hsm.Cache.{signers_for-again}
use test_app_pkcs.Elements.Balances.{Coin, get, by_asset, asset_total_sat, balance}
use test_app_pkcs.Elements.Balances.Totals.{value_where, asset_balances_lem}

abbrev key : Key
key = (codes "abcdef01", codes "t)")

fingerprints_example :
    extract_fingerprints_from_descriptor (print (codes "wsh(") (key ∷ [])) ≡ codes "abcdef01" ∷ []
unfolding is_fingerprint all
fingerprints_example =
    extract_fingerprints-print (codes "wsh(") (key ∷ []) (refl, (refl, (refl, (refl, tt))))
      ((refl, (refl, (refl, tt))), tt)

-- A signer that adds one to the signatures of every input that has a derivation.
abbrev sign_input : Input ℕ ℕ → Input ℕ ℕ
sign_input inp = elim inp.bip32_derivation as (λ ds. Input ℕ ℕ) [
  | [] ↦ inp
  | d ∷ ds ↦ record inp { signatures = suc inp.signatures }
]

abbrev sign : List (Input ℕ ℕ) → Result WalletError (Unit {0}) × List (Input ℕ ℕ)
sign inps = (ok tt, map sign_input inps)

abbrev input : ℕ → ℕ → Input ℕ ℕ
input d signatures = record { bip32_derivation = d ∷ []; signatures = signatures }

signing_example : Kept (1 ∷ []) 0 (input 7 0 ∷ input 8 0 ∷ []) (input 7 0 ∷ input 8 1 ∷ [])
unfolding sign_migration_inputs take_derivations put_derivation restore any
signing_example =
    sign_migration_inputs-Kept sign (1 ∷ []) (input 7 0 ∷ input 8 0 ∷ [])
      (record { bip32_derivation = []; signatures = 0 } ∷ input 8 1 ∷ [])
      (input 7 0 ∷ input 8 1 ∷ []) refl ((refl, (λ e. refl), (refl, (λ e. cc), tt))) refl

-- One key per token: a signer is the token, its label and its path.
abbrev token_keys : Pkcs11 ℕ (ℕ × ℕ × List ℕ) (List ℕ)
token_keys = record {
  open_session = λ t k. ok tt;
  load = λ t label path k.
      if any (λ x. x == t) k then ok (t, label, path) else err Pkcs11Error.object_not_found;
  derive_from_seed = λ t label path k. (ok (t, label, path), t ∷ k);
  delete_key = λ t label k. (ok tt, keep (λ x. not (x == t)) k);
}

abbrev fleet : Fleet ℕ (ℕ × ℕ × List ℕ) (List ℕ)
fleet = record { tokens = 1 ∷ []; keys = []; cache = [] }

abbrev warm : Fleet ℕ (ℕ × ℕ × List ℕ) (List ℕ)
warm = record { tokens = 1 ∷ []; keys = 1 ∷ []; cache = (5, (1, 5, 0 ∷ []) ∷ []) ∷ [] }

-- The second call asks for another path, and gets the set of the first.
cache_example : signers_for token_keys 5 (9 ∷ []) warm ≡ (ok ((1, 5, 0 ∷ []) ∷ []), warm)
unfolding signers_for derive_signers cached any
cache_example =
    signers_for-again token_keys 5 (0 ∷ []) (9 ∷ []) fleet warm ((1, 5, 0 ∷ []) ∷ []) refl

abbrev cold : Fleet ℕ (ℕ × ℕ × List ℕ) (List ℕ)
cold = record { tokens = 1 ∷ []; keys = []; cache = [] }

abbrev coins : List Coin
coins =
    record { script_pubkey = 1; asset = 7; value = 10; is_spent = true }
    ∷ record { script_pubkey = 1; asset = 8; value = 4; is_spent = false }
    ∷ record { script_pubkey = 2; asset = 7; value = 5; is_spent = false }
    ∷ []

assets_example :
    let value = value_where (λ u. u.asset == 7) coins in
    (get (by_asset coins) 7 ≡ value) × (asset_total_sat 7 coins ≡ value) × (balance 7 coins ≡ value)
assets_example = asset_balances_lem coins 7 (omega arith)
