-- ===== src/Migration/Cli.antt =====
-- What `examples/federation_migration.rs` takes from the command line and from its TOML file:
-- `parse_args`, `validate_config` and `resolve_migration_script_type`. Texts are lists of code points.
pub mod Valid
use test_app_pkcs.Prelude.{
  ℕ, ◌%◌, ◌^◌, Bool, true, false, not, ◌||◌, Option, none, some, List, [], ◌∷◌, map, any, length,
  ltb, ◌==◌, if◌then◌else◌,
}
use test_app_pkcs.Prelude.Result.{Result, ok, err, ok_or, ◌>>=◌}
use test_app_pkcs.Wallet.Descriptor.{codes}
use test_app_pkcs.Config.{HsmTokenConfig, ScriptType, AppConfig}
use test_app_pkcs.Config.Text.{text_eq, is_empty}
use test_app_pkcs.Config.Read.{script_type_of}

pub data CliError : Type 0 where
  help path_argument missing_config : CliError
  unknown_argument : List ℕ → CliError
  unrecognized_strategy fee_account_unset bad_threshold no_signers zero_fee_rate bad_script_type :
      CliError
  unknown_signer : List ℕ → CliError

pub record CliArgs : Type 0 where
  pub config_path : List ℕ
  pub dry_run : Bool
  pub sweep_only : Bool
  pub elements : Bool

-- The variables of the loop.
pub record Flags : Type 0 where
  pub path : Option (List ℕ)
  pub dry_run : Bool
  pub sweep_only : Bool
  pub elements : Bool

-- An argument other than `--config`; `--help` prints the usage and leaves.
unfoldable pub flag : List ℕ → Flags → Result CliError Flags
unfolding text_eq
flag arg f =
    if text_eq arg (codes "--dry-run")
    then ok (record f { dry_run = true })
    else if text_eq arg (codes "--sweep-only")
    then ok (record f { sweep_only = true })
    else if text_eq arg (codes "--elements")
    then ok (record f { elements = true })
    else if text_eq arg (codes "--help") || text_eq arg (codes "-h")
    then err help
    else err (unknown_argument arg)

abbrev pub is_config : List ℕ → Bool
is_config arg = text_eq arg (codes "--config") || text_eq arg (codes "-c")

unfoldable pub parse_from : List (List ℕ) → Flags → Result CliError Flags
unfolding flag
parse_from [] f = ok f
parse_from (arg ∷ []) f = if is_config arg then err path_argument else flag arg f
parse_from (arg ∷ next ∷ args) f =
    let with_path = parse_from args (record f { path = some next }) in
    let with_flag = flag arg f >>= parse_from (next ∷ args) in
    if is_config arg then with_path else with_flag

abbrev pub no_flags : Flags
no_flags = record { path = none; dry_run = false; sweep_only = false; elements = false }

abbrev pub finish_args : Flags → Result CliError CliArgs
finish_args f = do
  path ← ok_or f.path missing_config
  ok (record {
    config_path = path;
    dry_run = f.dry_run;
    sweep_only = f.sweep_only;
    elements = f.elements;
  })

unfoldable pub parse_args : List (List ℕ) → Result CliError CliArgs
unfolding parse_from
parse_args args = parse_from args no_flags >>= finish_args

pub record MigrationConfig : Type 0 where
  pub threshold : ℕ
  pub signers : List (List ℕ)
  pub script_type : Option (List ℕ)
  pub strategy : List ℕ
  pub fee_account_idx : Option ℕ
  pub small_account_threshold : ℕ
  pub fee_rate_sat_per_vb : ℕ
  pub rotate_blinding_key : Bool

abbrev pub override : Option ScriptType → Result CliError ScriptType
override none = err bad_script_type
override (some t) = ok t

abbrev pub overridden : ScriptType → Option (List ℕ) → Result CliError ScriptType
overridden default none = ok default
overridden default (some s) = override (script_type_of s)

-- The migration's script type, or the app's.
unfoldable pub resolve_migration_script_type :
    MigrationConfig → AppConfig → Result CliError ScriptType
resolve_migration_script_type cfg app = overridden app.federation.fed_script_type cfg.script_type

abbrev pub refuse : Bool → CliError → Result CliError (Unit {0})
refuse true e = err e
refuse false e = ok tt

abbrev pub is_strategy : List ℕ → Bool
is_strategy s =
    text_eq s (codes "account-for-account") || text_eq s (codes "account-for-account-batched")

abbrev pub is_unset : Option ℕ → Bool
is_unset none = true
is_unset (some i) = false

abbrev pub is_known : List HsmTokenConfig → List ℕ → Bool
is_known tokens label = any (λ t. text_eq t.label label) tokens

unfoldable pub check_signers : List HsmTokenConfig → List (List ℕ) → Result CliError (Unit {0})
check_signers tokens [] = ok tt
check_signers tokens (label ∷ labels) =
    refuse (not (is_known tokens label)) (unknown_signer label) >>= λ _. check_signers tokens labels

-- `cfg.federation.signers.len() as u32`
abbrev pub signer_count : MigrationConfig → ℕ
signer_count cfg = length cfg.signers % 2 ^ 32

unfoldable pub validate_config : MigrationConfig → AppConfig → Result CliError (Unit {0})
unfolding check_signers
validate_config cfg app = do
  _ ← refuse (not (is_strategy cfg.strategy)) unrecognized_strategy
  _ ← refuse (is_unset cfg.fee_account_idx) fee_account_unset
  _ ← check_signers app.federation.hsm_tokens cfg.signers
  _ ← refuse (ltb cfg.threshold 1 || ltb (signer_count cfg) cfg.threshold) bad_threshold
  _ ← refuse (is_empty cfg.signers) no_signers
  refuse (cfg.fee_rate_sat_per_vb == 0) zero_fee_rate
