-- ===== src/Tests/Clis.antt =====
-- The migration tool's command line and configuration.
use test_app_pkcs.Prelude.{◌≡◌, ◌↔◌, refl, true, false, some, [], ◌∷◌, arith}
use test_app_pkcs.Prelude.Result.{ok, err}
use test_app_pkcs.Wallet.Descriptor.{codes}
use test_app_pkcs.Migration.Cli.{path_argument, parse_args, MigrationConfig, validate_config}
use test_app_pkcs.Migration.Cli.Valid.{IsRunnable, validate_config_lem}
use test_app_pkcs.Tests.Configs.{config}

abbrev pub migration : MigrationConfig
migration = record {
  threshold = 2;
  signers = codes "token" ∷ codes "token" ∷ [];
  script_type = some (codes "taproot");
  strategy = codes "account-for-account";
  fee_account_idx = some 0;
  small_account_threshold = 100000;
  fee_rate_sat_per_vb = 2;
  rotate_blinding_key = false;
}

validate_example : (validate_config migration config ≡ ok tt) ↔ IsRunnable migration config
validate_example = validate_config_lem migration config (omega arith)

args_run :
    parse_args (codes "--dry-run" ∷ codes "-c" ∷ codes "m.toml" ∷ codes "--elements" ∷ [])
    ≡ ok (record {
      config_path = codes "m.toml";
      dry_run = true;
      sweep_only = false;
      elements = true;
    })
unfolding parse_args
args_run = refl

args_no_path : parse_args (codes "--config" ∷ []) ≡ err path_argument
unfolding parse_args
args_no_path = refl
