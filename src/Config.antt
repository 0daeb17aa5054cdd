-- ===== src/Config.antt =====
-- The process-wide configuration, `src/config.rs`: the variables, the kinds of backend and the tokens
-- of the HSM federation. A text is the list of its code points.
pub mod Text
pub mod Tokens
pub mod Read
use test_app_pkcs.Prelude.{ℕ, Bool, true, false, Option, none, some, List, ltb, if◌then◌else◌}
use test_app_pkcs.Prelude.Result.{Result, ok, err, ok_or}
use test_app_pkcs.Wallet.Descriptor.{codes}

-- The environment's variables; `hsm_label n` is `APP_HSM_{n}_LABEL`, and so on.
pub data Var : Type 0 where
  app_host app_port app_session_secret database_url : Var
  bitcoin_network app_bip48_coin_index bitcoin_wallet_name : Var
  app_chain_backend app_esplora_url app_electrum_url : Var
  bitcoin_rpc_host bitcoin_rpc_port bitcoin_rpc_user bitcoin_rpc_password : Var
  pkcs11_lib app_fed_threshold app_script_type app_fed_signers : Var
  elements_network elements_chain_backend elements_electrum_url elements_esplora_url : Var
  elements_rpc_host elements_rpc_port elements_rpc_user elements_rpc_password : Var
  esplora_client_id esplora_client_secret esplora_token_url : Var
  hsm_label hsm_pin hsm_so_pin hsm_vendor hsm_lib hsm_seed : ℕ → Var

-- `ConfigError` of `emvault::config`, without reasons. `exhausted` is the end of the fuel.
pub data ConfigError : Type 0 where
  missing parse : Var → ConfigError
  exhausted : ConfigError

pub data BitcoinNetwork : Type 0 where
  bitcoin testnet testnet4 signet regtest : BitcoinNetwork

-- What `emvault::config` and the crates that parse addresses and networks give.
pub record Env : Type 0 where
  pub optional : Var → Option (List ℕ)
  pub require : Var → Result ConfigError (List ℕ)
  pub hex_decode : List ℕ → Option (List ℕ)
  pub ip_addr : List ℕ → Option ℕ
  pub network : List ℕ → Option BitcoinNetwork

pub data HsmVendor : Type 0 where
  dev securosys : HsmVendor

pub record HsmTokenConfig : Type 0 where
  pub label : List ℕ
  pub pin : List ℕ
  pub so_pin : List ℕ
  pub vendor : HsmVendor
  pub library_path : Option (List ℕ)
  pub seed : Option (List ℕ)

-- `ChainBackend` and `ElementsChainBackend`, which have the same variants.
pub data ChainBackend : Type 0 where
  rpc esplora waterfalls electrum : ChainBackend

pub data ElementsNetwork : Type 0 where
  liquid liquid_testnet elements_regtest : ElementsNetwork

pub data ScriptType : Type 0 where
  tr wsh : ScriptType

pub record TokenProvider : Type 0 where
  pub url : List ℕ
  pub client_id : List ℕ
  pub client_secret : List ℕ

pub record RpcConfig : Type 0 where
  pub url : List ℕ
  pub user : List ℕ
  pub password : List ℕ

-- `AppConfig`, in the groups in which it is read.
pub record Server : Type 0 where
  pub bind : ℕ × ℕ
  pub session_secret : List ℕ
  pub database_url : List ℕ

pub record BitcoinConfig : Type 0 where
  pub network : BitcoinNetwork
  pub bip48_coin_index : ℕ
  pub bitcoin_wallet_name : List ℕ
  pub chain_backend : ChainBackend
  pub esplora_url : Option (List ℕ)
  pub electrum_url : Option (List ℕ)
  pub rpc : RpcConfig

pub record FederationConfig : Type 0 where
  pub pkcs11_library_path : List ℕ
  pub hsm_tokens : List HsmTokenConfig
  pub fed_threshold : ℕ
  pub fed_signer_indices : List ℕ
  pub fed_script_type : ScriptType

pub record ElementsConfig : Type 0 where
  pub elements_network : ElementsNetwork
  pub elements_chain_backend : ChainBackend
  pub elements_electrum_url : Option (List ℕ)
  pub elements_esplora_url : Option (List ℕ)
  pub rpc : RpcConfig
  pub elements_esplora_auth : Option TokenProvider

pub record AppConfig : Type 0 where
  pub server : Server
  pub btc : BitcoinConfig
  pub federation : FederationConfig
  pub elements : ElementsConfig

-- A value that does not parse.
abbrev pub parsed {ℓ} : {A : Type ℓ} → Var → Option A → Result ConfigError A
parsed var o = ok_or o (parse var)
