-- ===== src/Migration/Cli/Valid.antt =====
-- Which configurations of a migration are accepted.
use test_app_pkcs.Prelude.{
  ℕ, ◌≤◌, ◌<◌, ◌^◌, ◌≡◌, ◌↔◌, true, false, List, [], ◌∷◌, length, All, arith,
}
use test_app_pkcs.Prelude.Result.{ok}
use test_app_pkcs.Config.{HsmTokenConfig, AppConfig}
use test_app_pkcs.Migration.Cli.{
  MigrationConfig, is_strategy, is_known, is_unset, check_signers, validate_config,
}

-- The specification.
abbrev pub IsRunnable : MigrationConfig → AppConfig → Type 0
IsRunnable cfg app =
    (is_strategy cfg.strategy ≡ true)
    × (is_unset cfg.fee_account_idx ≡ false)
    × All (λ label. is_known app.federation.hsm_tokens label ≡ true) cfg.signers
    × (1 ≤ cfg.threshold)
    × (cfg.threshold ≤ length cfg.signers)
    × (1 ≤ cfg.fee_rate_sat_per_vb)

check_signers_lem :
    (tokens : List HsmTokenConfig) (labels : List (List ℕ))
    → (check_signers tokens labels ≡ ok tt) ↔ All (λ label. is_known tokens label ≡ true) labels
unfolding check_signers
check_signers_lem tokens [] = ground arith
check_signers_lem tokens (label ∷ labels) = ground (arith, check_signers_lem tokens labels)

-- validate_config accepts exactly the configurations with a known strategy, a fee account, signers
-- that are all discovered tokens, a threshold from 1 to their number and a fee rate of at least 1, if
-- the number of signers fits a u32.
pub validate_config_lem :
    (cfg : MigrationConfig) (app : AppConfig)
    → length cfg.signers < 2 ^ 32
    → (validate_config cfg app ≡ ok tt) ↔ IsRunnable cfg app
unfolding validate_config
validate_config_lem cfg app h =
    ground (arith, check_signers_lem app.federation.hsm_tokens cfg.signers)
