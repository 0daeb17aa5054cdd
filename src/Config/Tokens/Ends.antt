-- ===== src/Config/Tokens/Ends.antt =====
-- Where the search for tokens ends.
use test_app_pkcs.Prelude.{ℕ, zero, suc, ◌+◌, ◌<◌, ◌≡◌, ap, ◌∙◌, Option, none, some, List, arith}
use test_app_pkcs.Prelude.Result.{Result, ok, err, ◌>>=◌}
use test_app_pkcs.Config.{
  Var, hsm_label, hsm_vendor, hsm_seed, hsm_pin, hsm_so_pin, ConfigError, exhausted, missing, parse,
  Env, HsmVendor, dev, securosys, HsmTokenConfig, parsed,
}
use test_app_pkcs.Config.Tokens.{
  vendor_named, so_pin_of, seed_of, token_at, then_tokens, discover_from, discover_hsm_tokens,
}

-- The result is a value or an error of the configuration.
abbrev pub Ends {ℓ} : {A : Type ℓ} → Result ConfigError A → Type 0
Ends (ok a) = Unit
Ends (err (missing v)) = Unit
Ends (err (parse v)) = Unit
Ends (err exhausted) = ⊥

module _ {ℓ κ} {A : Type ℓ} {B : Type κ} where
  >>=-Ends :
      (m : Result ConfigError A) (f : A → Result ConfigError B)
      → Ends m
      → ((a : A) → Ends (f a))
      → Ends (m >>= f)
  >>=-Ends (ok a) f h k = k a
  >>=-Ends (err (missing v)) f h k = tt
  >>=-Ends (err (parse v)) f h k = tt
  >>=-Ends (err exhausted) f h k = h

parsed-Ends : {A : Type 0} (v : Var) (o : Option A) → Ends (parsed v o)
parsed-Ends v none = tt
parsed-Ends v (some a) = tt

module _ (env : Env) (total : (v : Var) → Ends (env.require v)) where
  vendor_named-Ends : (idx : ℕ) (s : Option (List ℕ)) → Ends (vendor_named env idx s)
  vendor_named-Ends idx none = tt
  vendor_named-Ends idx (some s) = ground arith

  so_pin_of-Ends : (idx : ℕ) (vendor : HsmVendor) → Ends (so_pin_of env idx vendor)
  so_pin_of-Ends idx dev = total (hsm_so_pin idx)
  so_pin_of-Ends idx securosys = tt

  seed_of-Ends :
      (idx : ℕ) (vendor : HsmVendor) (s : Option (List ℕ)) → Ends (seed_of env idx vendor s)
  seed_of-Ends idx dev none = tt
  seed_of-Ends idx securosys none = tt
  seed_of-Ends idx dev (some hex) =
      >>=-Ends (parsed (hsm_seed idx) (env.hex_decode hex)) (λ s. ok (some s))
        (parsed-Ends (hsm_seed idx) (env.hex_decode hex)) (λ s. tt)
  seed_of-Ends idx securosys (some hex) =
      >>=-Ends (parsed (hsm_seed idx) (env.hex_decode hex)) (λ s. ok (some s))
        (parsed-Ends (hsm_seed idx) (env.hex_decode hex)) (λ s. tt)

  token_at-Ends : (idx : ℕ) (label : List ℕ) → Ends (token_at env idx label)
  unfolding token_at
  token_at-Ends idx label =
      >>=-Ends (vendor_named env idx (env.optional (hsm_vendor idx))) _
        (vendor_named-Ends idx (env.optional (hsm_vendor idx)))
        λ vendor. >>=-Ends (so_pin_of env idx vendor) _ (so_pin_of-Ends idx vendor) λ so_pin.
          >>=-Ends (seed_of env idx vendor (env.optional (hsm_seed idx))) _
            (seed_of-Ends idx vendor (env.optional (hsm_seed idx)))
            λ seed. >>=-Ends (env.require (hsm_pin idx)) _ (total (hsm_pin idx)) (λ pin. tt)

  then_tokens-Ends :
      (idx : ℕ) (rest : Result ConfigError (List HsmTokenConfig)) (label : Option (List ℕ))
      → Ends rest
      → Ends (then_tokens env idx rest label)
  then_tokens-Ends idx rest none h = tt
  then_tokens-Ends idx rest (some label) h =
      >>=-Ends (token_at env idx label) _ (token_at-Ends idx label)
        λ token. >>=-Ends rest _ h (λ tokens. tt)

  discover_from-Ends :
      (f k idx : ℕ)
      → env.optional (hsm_label (idx + k)) ≡ none
      → k < f
      → Ends (discover_from env f idx)
  unfolding discover_from
  discover_from-Ends zero k idx e h = elim h [ ]
  discover_from-Ends (suc f) zero idx e h =
      let here : idx ≡ idx + 0 = omega arith in
      let last : env.optional (hsm_label idx) ≡ none =
        ap (λ i. env.optional (hsm_label i)) here ∙ e in
      rw last tt
  discover_from-Ends (suc f) (suc k) idx e h =
      let there : suc idx + k ≡ idx + suc k = omega arith in
      then_tokens-Ends idx (discover_from env f (suc idx)) (env.optional (hsm_label idx)) (
        discover_from-Ends f k (suc idx) (ap (λ i. env.optional (hsm_label i)) there ∙ e)
          (omega arith))

  -- If no variable is named after the k-th token's, the search for tokens comes to an end on any
  -- fuel above k: with tokens, or with an error of a variable.
  pub discover_hsm_tokens-Ends :
      (fuel k : ℕ)
      → env.optional (hsm_label (1 + k)) ≡ none
      → k < fuel
      → Ends (discover_hsm_tokens env fuel)
  unfolding discover_hsm_tokens
  discover_hsm_tokens-Ends fuel k e h = discover_from-Ends fuel k 1 e h
