-- ===== src/Tests/Configs.antt =====
-- The configuration.
use test_app_pkcs.Prelude.{ℕ, suc, ◌≤◌, ◌≡◌, refl, Option, none, some, List, [], ◌∷◌, length, arith}
use test_app_pkcs.Prelude.Result.{ok, ok_or}
use test_app_pkcs.Wallet.Descriptor.{codes, split_on}
use test_app_pkcs.Wallet.Manager.{pick}
use test_app_pkcs.Wallet.Manager.Signers.{settings_of, pick-from_env}
use test_app_pkcs.Config.{
  Var, Env, missing, testnet, dev, HsmTokenConfig, electrum, rpc, liquid, wsh, AppConfig,
}
use test_app_pkcs.Config.Tokens.{token_at, discover_hsm_tokens}
use test_app_pkcs.Config.Tokens.Ends.{Ends, discover_hsm_tokens-Ends}
use test_app_pkcs.Config.Read.{
  from_str, range, signer_index, from_env, default_bip48_coin_index, no_rpc,
}
use test_app_pkcs.Config.Read.Valid.{IsServable, from_env-IsServable}
use test_app_pkcs.Tests.Wallets.{lib}

-- A file `.env` with two tokens, an Electrum backend for Bitcoin and the node for Elements.
abbrev dotenv : Var → Option (List ℕ)
dotenv Var.app_host = some (codes "localhost")
dotenv Var.app_port = some (codes "8080")
dotenv Var.app_session_secret = some (codes "00")
dotenv Var.database_url = some (codes "db")
dotenv Var.bitcoin_network = some (codes "testnet")
dotenv Var.app_chain_backend = some (codes " Electrum ")
dotenv Var.app_electrum_url = some (codes "tcp:")
dotenv Var.pkcs11_lib = some (codes "hsm.so")
dotenv Var.app_fed_signers = some (codes "2, +1")
dotenv Var.app_fed_threshold = some (codes "2")
dotenv Var.elements_network = some (codes "liquid")
dotenv Var.elements_rpc_host = some (codes "h")
dotenv Var.elements_rpc_port = some (codes "7041")
dotenv Var.elements_rpc_user = some (codes "u")
dotenv Var.elements_rpc_password = some (codes "p")
dotenv (Var.hsm_label n) = elim n [ suc (suc (suc m)) ↦ none | _ ↦ some (codes "token") ]
dotenv (Var.hsm_pin n) = some (codes "1234")
dotenv (Var.hsm_so_pin n) = some (codes "5678")
dotenv _ = none

abbrev env : Env
env = record {
  optional = dotenv;
  require = λ v. ok_or (dotenv v) (missing v);
  hex_decode = λ s. some (range 0 64);
  ip_addr = λ s. some 1;
  network = λ s. some testnet;
}

abbrev token : HsmTokenConfig
token = record {
  label = codes "token";
  pin = codes "1234";
  so_pin = codes "5678";
  vendor = dev;
  library_path = none;
  seed = none;
}

abbrev pub config : AppConfig
config = record {
  server = record { bind = (1, 8080); session_secret = range 0 64; database_url = codes "db" };
  btc = record {
    network = testnet;
    bip48_coin_index = 1;
    bitcoin_wallet_name = codes "emvault-pkcs11";
    chain_backend = electrum;
    esplora_url = none;
    electrum_url = some (codes "tcp:");
    rpc = no_rpc;
  };
  federation = record {
    pkcs11_library_path = codes "hsm.so";
    hsm_tokens = token ∷ token ∷ [];
    fed_threshold = 2;
    fed_signer_indices = 1 ∷ 0 ∷ [];
    fed_script_type = wsh;
  };
  elements = record {
    elements_network = liquid;
    elements_chain_backend = rpc;
    elements_electrum_url = none;
    elements_esplora_url = none;
    rpc = record { url = codes "http://h:7041"; user = codes "u"; password = codes "p" };
    elements_esplora_auth = none;
  };
}

from_env_run : from_env env 5 ≡ ok config
unfolding from_env from_str token_at split_on signer_index default_bip48_coin_index
from_env_run = refl

from_env-IsServable_example : IsServable config
from_env-IsServable_example = from_env-IsServable env 5 config from_env_run

required-Ends : {A : Type 0} (v : Var) (o : Option A) → Ends (ok_or o (missing v))
required-Ends v none = tt
required-Ends v (some a) = tt

tokens_example : Ends (discover_hsm_tokens env 5)
tokens_example =
    discover_hsm_tokens-Ends env (λ v. required-Ends v (dotenv v)) 5 2 refl (omega arith)

pick_example :
    let cfg = settings_of config in
    (picked : List ℕ) × (pick cfg lib (7 ∷ 8 ∷ []) cfg.fed_signer_indices ≡ ok picked)
    × (1 ≤ cfg.fed_threshold)
    × (cfg.fed_threshold ≤ length picked)
pick_example = pick-from_env lib env 5 config (7 ∷ 8 ∷ []) from_env_run refl
