-- ===== src/Config/Read/Valid.antt =====
-- What a configuration that `from_env` accepts satisfies.
use test_app_pkcs.Prelude.{
  ℕ, zero, suc, ◌+◌, ◌≤◌, ◌<◌, ◌≡◌, refl, sym, Bool, true, false, ◌&&◌, ◌||◌, Option, none, some,
  List, [], ◌∷◌, ltb, length, All, arith,
}
use test_app_pkcs.Prelude.Result.{Result, ok, err, >>=-eq-ok, ok-injective}
use test_app_pkcs.Config.{
  app_fed_signers, app_fed_threshold, app_script_type, pkcs11_lib, hsm_label, hsm_vendor, hsm_seed,
  hsm_pin, missing, parse, ConfigError, Env, HsmVendor, dev, securosys, HsmTokenConfig,
  ChainBackend, Server, BitcoinConfig, FederationConfig, ElementsConfig, AppConfig,
}
use test_app_pkcs.Config.Tokens.{
  token_at, discover_from, discover_hsm_tokens, then_tokens, seed_of, vendor_named, so_pin_of,
}
use test_app_pkcs.Config.Text.{is_empty}
use test_app_pkcs.Wallet.Descriptor.{split_on}
use test_app_pkcs.Config.Read.{
  guard, uses_esplora, uses_electrum, is_blank, as_u32, range, read_server, read_bitcoin,
  read_federation, read_elements, signer_index, signer_indices, signers_or_all, threshold_or,
  script_type_or, from_env,
}

err-ok : {A : Type 0} {e : ConfigError} {a : A} → ◌≡◌ {A = Result ConfigError A} (err e) (ok a) → ⊥
err-ok h = cc

-- The URL that a nodeless backend dials is there.
abbrev pub HasUrl : ChainBackend → Option (List ℕ) → Option (List ℕ) → Type 0
HasUrl backend electrum_url esplora_url =
    ((uses_esplora backend && is_blank esplora_url) ≡ false)
    × ((uses_electrum backend && is_blank electrum_url) ≡ false)

read_server-secret :
    (env : Env) (s : Server) → read_server env ≡ ok s → 64 ≤ length s.session_secret
unfolding read_server
read_server-secret env s h = ground arith

read_bitcoin-HasUrl :
    (env : Env) (c : BitcoinConfig)
    → read_bitcoin env ≡ ok c
    → HasUrl c.chain_backend c.electrum_url c.esplora_url
unfolding read_bitcoin
read_bitcoin-HasUrl env c h = ground arith

read_elements-HasUrl :
    (env : Env) (c : ElementsConfig)
    → read_elements env ≡ ok c
    → HasUrl c.elements_chain_backend c.elements_electrum_url c.elements_esplora_url
unfolding read_elements
read_elements-HasUrl env c h = ground arith

-- A securosys token has a seed.
abbrev pub HasSeed : HsmVendor → Option (List ℕ) → Type 0
HasSeed securosys none = ⊥
HasSeed securosys (some seed) = Unit
HasSeed dev seed = Unit

seed_of-HasSeed :
    (env : Env) (idx : ℕ) (vendor : HsmVendor) (hex seed : Option (List ℕ))
    → seed_of env idx vendor hex ≡ ok seed
    → HasSeed vendor seed
seed_of-HasSeed env idx dev hex seed h = tt
seed_of-HasSeed env idx securosys hex (some seed) h = tt
seed_of-HasSeed env idx securosys hex none h = ground arith

token_at-HasSeed :
    (env : Env) (idx : ℕ) (label : List ℕ) (t : HsmTokenConfig)
    → token_at env idx label ≡ ok t
    → HasSeed t.vendor t.seed
unfolding token_at
token_at-HasSeed env idx label t h =
    let (vendor, e0, h0) = >>=-eq-ok (vendor_named env idx (env.optional (hsm_vendor idx))) _ h in
    let (so_pin, e1, h1) = >>=-eq-ok (so_pin_of env idx vendor) _ h0 in
    let (seed, e2, h2) = >>=-eq-ok (seed_of env idx vendor (env.optional (hsm_seed idx))) _ h1 in
    let (pin, e3, h3) = >>=-eq-ok (env.require (hsm_pin idx)) _ h2 in
    rw (sym (ok-injective _ t h3))
      (seed_of-HasSeed env idx vendor (env.optional (hsm_seed idx)) seed e2)

abbrev pub IsSeeded : List HsmTokenConfig → Type 0
IsSeeded = All (λ t. HasSeed t.vendor t.seed)

then_tokens-IsSeeded :
    (env : Env) (idx : ℕ) (rest : Result ConfigError (List HsmTokenConfig))
    (label : Option (List ℕ)) (tokens : List HsmTokenConfig)
    → ((ts : List HsmTokenConfig) → rest ≡ ok ts → IsSeeded ts)
    → then_tokens env idx rest label ≡ ok tokens
    → IsSeeded tokens
then_tokens-IsSeeded env idx rest none tokens ih h = rw (sym (ok-injective [] tokens h)) tt
then_tokens-IsSeeded env idx rest (some label) tokens ih h =
    let (t, e, h1) = >>=-eq-ok (token_at env idx label) _ h in
    let (ts, f, h2) = >>=-eq-ok rest _ h1 in
    rw (sym (ok-injective (t ∷ ts) tokens h2)) (token_at-HasSeed env idx label t e, ih ts f)

discover_from-IsSeeded :
    (env : Env) (fuel idx : ℕ) (tokens : List HsmTokenConfig)
    → discover_from env fuel idx ≡ ok tokens
    → IsSeeded tokens
unfolding discover_from
discover_from-IsSeeded env zero idx tokens h = absurd (err-ok h)
discover_from-IsSeeded env (suc fuel) idx tokens h =
    then_tokens-IsSeeded env idx (discover_from env fuel (suc idx)) (env.optional (hsm_label idx))
      tokens (discover_from-IsSeeded env fuel (suc idx)) h

-- Every index names a token, and the threshold is met by that many signers.
abbrev pub IsQuorum : FederationConfig → Type 0
IsQuorum c =
    (1 ≤ length c.hsm_tokens)
    × All (λ i. i < length c.hsm_tokens) c.fed_signer_indices
    × (1 ≤ c.fed_threshold)
    × (c.fed_threshold ≤ length c.fed_signer_indices)

signer_index-lt :
    (env : Env) (n idx : ℕ) (part : List ℕ) → signer_index env n part ≡ ok idx → idx < n
unfolding signer_index
signer_index-lt env n idx part h = ground arith

signer_indices-lt :
    (env : Env) (n : ℕ) (parts : List (List ℕ)) (indices : List ℕ)
    → signer_indices env n parts ≡ ok indices
    → All (λ i. i < n) indices
unfolding signer_indices
signer_indices-lt env n [] indices h = rw (sym (ok-injective [] indices h)) tt
signer_indices-lt env n (part ∷ parts) indices h =
    let (idx, e, h1) = >>=-eq-ok (signer_index env n part) _ h in
    let (rest, f, h2) = >>=-eq-ok (signer_indices env n parts) _ h1 in
    rw (sym (ok-injective (idx ∷ rest) indices h2))
      (signer_index-lt env n idx part e, signer_indices-lt env n parts rest f)

range-lt : (first n m : ℕ) → first + n ≤ m → All (λ i. i < m) (range first n)
unfolding range
range-lt first zero m h = tt
range-lt first (suc n) m h = (omega arith, range-lt (suc first) n m (omega arith))

signers_or_all-lt :
    (env : Env) (n : ℕ) (s : Option (List ℕ)) (indices : List ℕ)
    → signers_or_all env n s ≡ ok indices
    → All (λ i. i < n) indices
signers_or_all-lt env n none indices h =
    rw (sym (ok-injective (range 0 n) indices h)) (range-lt 0 n n (omega arith))
signers_or_all-lt env n (some s) indices h =
    let (found, e, h1) = >>=-eq-ok (signer_indices env n (split_on b',' s)) _ h in
    let (_, f, h2) = >>=-eq-ok (guard (is_empty found) (parse app_fed_signers)) _ h1 in
    rw (sym (ok-injective found indices h2)) (signer_indices-lt env n (split_on b',' s) found e)

nonempty-length : (tokens : List HsmTokenConfig) → is_empty tokens ≡ false → 1 ≤ length tokens
nonempty-length [] h = cc
nonempty-length (t ∷ ts) h = omega arith

threshold_bounds :
    (threshold n : ℕ)
    → (ltb threshold 1 || ltb (as_u32 n) threshold) ≡ false
    → (1 ≤ threshold) × (threshold ≤ n)
threshold_bounds threshold n h = ground arith

guard-false : (b : Bool) (e : ConfigError) (u : Unit {0}) → guard b e ≡ ok u → b ≡ false
guard-false true e u h = absurd (err-ok h)
guard-false false e u h = refl

read_federation-IsQuorum :
    (env : Env) (fuel : ℕ) (c : FederationConfig)
    → read_federation env fuel ≡ ok c
    → IsQuorum c × IsSeeded c.hsm_tokens
unfolding read_federation discover_hsm_tokens
read_federation-IsQuorum env fuel c h =
    let (library, e0, h0) = >>=-eq-ok (env.require pkcs11_lib) _ h in
    let (tokens, e1, h1) = >>=-eq-ok (discover_hsm_tokens env fuel) _ h0 in
    let (u, e2, h2) = >>=-eq-ok (guard (is_empty tokens) (missing (hsm_label 1))) _ h1 in
    let n = length tokens in
    let (threshold, e3, h3) =
      >>=-eq-ok (threshold_or env (as_u32 n) (env.optional app_fed_threshold)) _ h2 in
    let (script_type, e4, h4) =
      >>=-eq-ok (script_type_or env (env.optional app_script_type)) _ h3 in
    let (indices, e5, h5) = >>=-eq-ok (signers_or_all env n (env.optional app_fed_signers)) _ h4 in
    let (v, e6, h6) =
      >>=-eq-ok
        (guard (ltb threshold 1 || ltb (as_u32 (length indices)) threshold)
          (parse app_fed_threshold))
        _ h5 in
    let some_token = guard-false (is_empty tokens) _ u e2 in
    let bounds = threshold_bounds threshold (length indices) (guard-false _ _ v e6) in
    rw (sym (ok-injective _ c h6)) (
      (
        nonempty-length tokens some_token,
        signers_or_all-lt env n (env.optional app_fed_signers) indices e5,
        bounds.0,
        bounds.1,
      ),
      discover_from-IsSeeded env fuel 1 tokens e1,
    )

-- A configuration that can serve: from_env's promise.
abbrev pub IsServable : AppConfig → Type 0
IsServable c =
    (64 ≤ length c.server.session_secret)
    × HasUrl c.btc.chain_backend c.btc.electrum_url c.btc.esplora_url
    × IsQuorum c.federation
    × IsSeeded c.federation.hsm_tokens
    × HasUrl c.elements.elements_chain_backend c.elements.elements_electrum_url
        c.elements.elements_esplora_url

-- A configuration that from_env accepts has a session secret of at least 64 bytes, a URL for each
-- nodeless backend that is chosen, at least one HSM token and a seed for each securosys token. Its
-- signer indices name tokens, and its threshold is at least 1 and at most their number.
pub from_env-IsServable :
    (env : Env) (fuel : ℕ) (c : AppConfig) → from_env env fuel ≡ ok c → IsServable c
unfolding from_env
from_env-IsServable env fuel c h =
    let (server, e0, h0) = >>=-eq-ok (read_server env) _ h in
    let (btc, e1, h1) = >>=-eq-ok (read_bitcoin env) _ h0 in
    let (federation, e2, h2) = >>=-eq-ok (read_federation env fuel) _ h1 in
    let (elements, e3, h3) = >>=-eq-ok (read_elements env) _ h2 in
    let (quorum, seeded) = read_federation-IsQuorum env fuel federation e2 in
    rw (sym (ok-injective _ c h3)) (
      read_server-secret env server e0,
      read_bitcoin-HasUrl env btc e1,
      quorum,
      seeded,
      read_elements-HasUrl env elements e3,
    )
