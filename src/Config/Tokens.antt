-- ===== src/Config/Tokens.antt =====
-- `discover_hsm_tokens` of `src/config.rs`: the tokens' variables, read in order until a label is
-- missing.
pub mod Ends
use test_app_pkcs.Prelude.{ℕ, zero, suc, Option, none, some, List, [], ◌∷◌, if◌then◌else◌}
use test_app_pkcs.Prelude.Result.{Result, ok, err, ◌>>=◌}
use test_app_pkcs.Wallet.Descriptor.{codes}
use test_app_pkcs.Config.{
  Var, hsm_label, hsm_pin, hsm_so_pin, hsm_vendor, hsm_lib, hsm_seed, ConfigError, missing, parse,
  exhausted, Env, HsmVendor, dev, securosys, HsmTokenConfig, parsed,
}
use test_app_pkcs.Config.Text.{text_eq}

module _ (env : Env) where
  open env use {optional, require, hex_decode}

  abbrev pub vendor_named : ℕ → Option (List ℕ) → Result ConfigError HsmVendor
  vendor_named idx none = ok dev
  vendor_named idx (some s) =
      if text_eq s (codes "dev")
      then ok dev
      else if text_eq s (codes "securosys")
      then ok securosys
      else err (parse (hsm_vendor idx))

  abbrev pub or_default : Option (List ℕ) → List ℕ
  or_default none = []
  or_default (some s) = s

  abbrev pub so_pin_of : ℕ → HsmVendor → Result ConfigError (List ℕ)
  so_pin_of idx dev = require (hsm_so_pin idx)
  so_pin_of idx securosys = ok (or_default (optional (hsm_so_pin idx)))

  abbrev pub seed_of : ℕ → HsmVendor → Option (List ℕ) → Result ConfigError (Option (List ℕ))
  seed_of idx vendor (some hex) = do seed ← parsed (hsm_seed idx) (hex_decode hex); ok (some seed)
  seed_of idx securosys none = err (missing (hsm_seed idx))
  seed_of idx dev none = ok none

  unfoldable pub token_at : ℕ → List ℕ → Result ConfigError HsmTokenConfig
  unfolding text_eq
  token_at idx label = do
    vendor ← vendor_named idx (optional (hsm_vendor idx))
    so_pin ← so_pin_of idx vendor
    seed ← seed_of idx vendor (optional (hsm_seed idx))
    pin ← require (hsm_pin idx)
    ok (record {
      label = label;
      pin = pin;
      so_pin = so_pin;
      vendor = vendor;
      library_path = optional (hsm_lib idx);
      seed = seed;
    })

  abbrev pub then_tokens :
      ℕ
      → Result ConfigError (List HsmTokenConfig)
      → Option (List ℕ)
      → Result ConfigError (List HsmTokenConfig)
  then_tokens idx rest none = ok []
  then_tokens idx rest (some label) = do
    token ← token_at idx label
    tokens ← rest
    ok (token ∷ tokens)

  -- The loop from `idx`, for as many tokens as the fuel says.
  unfoldable pub discover_from : ℕ → ℕ → Result ConfigError (List HsmTokenConfig)
  discover_from zero idx = err exhausted
  discover_from (suc f) idx = then_tokens idx (discover_from f (suc idx)) (optional (hsm_label idx))

  unfoldable pub discover_hsm_tokens : ℕ → Result ConfigError (List HsmTokenConfig)
  unfolding discover_from
  discover_hsm_tokens fuel = discover_from fuel 1
