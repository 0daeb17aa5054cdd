-- ===== src/Wallet/Manager/Signers.antt =====
-- The signers that `create_wallet_for_user_at` picks, under a configuration that `from_env` accepts.
use test_app_pkcs.Prelude.{
  ℕ, zero, suc, ◌≤◌, ◌<◌, ◌≡◌, refl, ap, some, List, [], ◌∷◌, All, length, get_elem?, arith,
}
use test_app_pkcs.Prelude.Result.{ok}
use test_app_pkcs.Config.{Env, AppConfig}
use test_app_pkcs.Config.Read.{from_env}
use test_app_pkcs.Config.Read.Valid.{from_env-IsServable}
use test_app_pkcs.Wallet.Manager.{Settings, Lib, pick}

-- What `WalletManager::new` keeps of the configuration for its federations.
abbrev pub settings_of : AppConfig → Settings
settings_of c = record {
  bip48_coin_index = c.btc.bip48_coin_index;
  fed_signer_indices = c.federation.fed_signer_indices;
  fed_threshold = c.federation.fed_threshold;
}

get_elem?-lt :
    {A : Type 0} (xs : List A) (i : ℕ) → i < length xs → (a : A) × (get_elem? xs i ≡ some a)
get_elem?-lt [] i h = elim h [ ]
get_elem?-lt (x ∷ xs) zero h = (x, refl)
get_elem?-lt (x ∷ xs) (suc i) h = get_elem?-lt xs i (omega arith)

module _ {S F W : Type 0} (lib : Lib S F W) where
  pick-All :
      (cfg : Settings) (all : List S) (indices : List ℕ)
      → All (λ i. i < length all) indices
      → (picked : List S) × (pick cfg lib all indices ≡ ok picked)
        × (length picked ≡ length indices)
  unfolding pick
  pick-All cfg all [] h = ([], refl, refl)
  pick-All cfg all (i ∷ indices) h =
      let (a, e) = get_elem?-lt all i h.0 in
      let (rest, f, n) = pick-All cfg all indices h.1 in (a ∷ rest, rw (e, f) refl, ap suc n)

  -- Under a configuration that from_env accepts, where the fleet gives one signer for each token, the
  -- wallet manager's indexing of the signers does not panic, and it picks enough signers for the
  -- threshold, which is at least 1.
  pub pick-from_env :
      (env : Env) (fuel : ℕ) (c : AppConfig) (all : List S)
      → from_env env fuel ≡ ok c
      → length all ≡ length c.federation.hsm_tokens
      → let cfg = settings_of c in
        (picked : List S) × (pick cfg lib all cfg.fed_signer_indices ≡ ok picked)
        × (1 ≤ cfg.fed_threshold)
        × (cfg.fed_threshold ≤ length picked)
  pick-from_env env fuel c all read n =
      let valid = from_env-IsServable env fuel c read in
      let (tokens, indices, low, high) = valid.2 in
      let (picked, e, size) =
        pick-All (settings_of c) all c.federation.fed_signer_indices (rw n indices) in
      (picked, e, low, omega arith)
