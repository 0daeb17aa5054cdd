-- ===== src/Config/Read.antt =====
-- `AppConfig::from_env` of `src/config.rs`, in four groups that are read one after the other.
pub mod Valid
use test_app_pkcs.Prelude.{
  ℕ, zero, suc, ◌-◌, ◌+◌, ◌^◌, Bool, true, false, not, ◌&&◌, ◌||◌, Option, none, some, List, [],
  ◌∷◌, ◌++◌, ltb, ◌==◌, if◌then◌else◌, length,
}
use test_app_pkcs.Prelude.Result.{Result, ok, err, ◌>>=◌}
use test_app_pkcs.Wallet.Descriptor.{codes, split_on}
use test_app_pkcs.Config.{
  Var, app_host, app_port, app_session_secret, database_url, bitcoin_network, app_bip48_coin_index,
  bitcoin_wallet_name, app_chain_backend, app_esplora_url, app_electrum_url, bitcoin_rpc_host,
  bitcoin_rpc_port, bitcoin_rpc_user, bitcoin_rpc_password, pkcs11_lib, app_fed_threshold,
  app_script_type, app_fed_signers, elements_network, elements_chain_backend, elements_electrum_url,
  elements_esplora_url, elements_rpc_host, elements_rpc_port, elements_rpc_user,
  elements_rpc_password, esplora_client_id, esplora_client_secret, esplora_token_url, hsm_label,
  ConfigError, missing, parse, Env, HsmTokenConfig, BitcoinNetwork, bitcoin, ChainBackend, rpc,
  esplora, waterfalls, electrum, ElementsNetwork, liquid, liquid_testnet, elements_regtest,
  ScriptType, tr, wsh, TokenProvider, RpcConfig, Server, BitcoinConfig, FederationConfig,
  ElementsConfig, AppConfig, parsed,
}
use test_app_pkcs.Config.Text.{text_eq, is_empty, trim, to_ascii_lowercase, parse_uint, show_u16}
use test_app_pkcs.Config.Tokens.{or_default, discover_hsm_tokens}

abbrev pub guard : Bool → ConfigError → Result ConfigError (Unit {0})
guard true e = err e
guard false e = ok tt

-- `ChainBackend::from_str` and `ElementsChainBackend::from_str`
unfoldable pub from_str : Var → List ℕ → Result ConfigError ChainBackend
unfolding text_eq trim to_ascii_lowercase
from_str var s =
    let name = to_ascii_lowercase (trim s) in
    if text_eq name (codes "rpc")
    then ok rpc
    else if text_eq name (codes "esplora")
    then ok esplora
    else if text_eq name (codes "waterfalls")
    then ok waterfalls
    else if text_eq name (codes "electrum")
    then ok electrum
    else err (parse var)

abbrev pub backend_or_default : Var → Option (List ℕ) → Result ConfigError ChainBackend
backend_or_default var none = ok rpc
backend_or_default var (some s) = from_str var s

-- `matches!(…, Esplora | Waterfalls)`, and the other tests on a backend
abbrev pub uses_esplora : ChainBackend → Bool
uses_esplora esplora = true
uses_esplora waterfalls = true
uses_esplora rpc = false
uses_esplora electrum = false

abbrev pub uses_electrum : ChainBackend → Bool
uses_electrum electrum = true
uses_electrum esplora = false
uses_electrum waterfalls = false
uses_electrum rpc = false

abbrev pub uses_rpc : ChainBackend → Bool
uses_rpc rpc = true
uses_rpc esplora = false
uses_rpc waterfalls = false
uses_rpc electrum = false

abbrev pub url_or_empty : Option (List ℕ) → List ℕ
url_or_empty none = []
url_or_empty (some s) = s

abbrev pub is_blank : Option (List ℕ) → Bool
is_blank url = is_empty (trim (url_or_empty url))

abbrev pub no_rpc : RpcConfig
no_rpc = record { url = []; user = []; password = [] }

-- `default_bip48_coin_index`
unfoldable pub default_bip48_coin_index : BitcoinNetwork → ℕ
default_bip48_coin_index bitcoin = 0
default_bip48_coin_index BitcoinNetwork.testnet = 1
default_bip48_coin_index BitcoinNetwork.testnet4 = 1
default_bip48_coin_index BitcoinNetwork.signet = 1
default_bip48_coin_index BitcoinNetwork.regtest = 1

-- `u32::try_from(…).unwrap_or(u32::MAX)`
abbrev pub as_u32 : ℕ → ℕ
as_u32 n = if ltb n (2 ^ 32) then n else 2 ^ 32 - 1

-- `(0..n).collect()`
unfoldable pub range : ℕ → ℕ → List ℕ
range first zero = []
range first (suc n) = first ∷ range (suc first) n

abbrev pub nonblank : List ℕ → Option (List ℕ)
nonblank s = if is_empty (trim s) then none else some s

-- The names of script types, as the migration tool reads them too.
unfoldable pub script_type_of : List ℕ → Option ScriptType
unfolding text_eq trim to_ascii_lowercase
script_type_of s =
    let name = to_ascii_lowercase (trim s) in
    if text_eq name (codes "taproot") || (text_eq name (codes "tr") || text_eq name (codes "p2tr"))
    then some tr
    else if text_eq name (codes "segwit")
        || (text_eq name (codes "wsh") || text_eq name (codes "p2wsh"))
    then some wsh
    else none

module _ (env : Env) where
  open env use {optional, require, hex_decode, ip_addr, network}

  unfoldable pub read_server : Result ConfigError Server
  read_server = do
    host ← require app_host
    port_text ← require app_port
    port ← parsed app_port (parse_uint (2 ^ 16) port_text)
    host_ip ← parsed app_host (ip_addr host)
    secret_hex ← require app_session_secret
    session_secret ← parsed app_session_secret (hex_decode secret_hex)
    _ ← guard (ltb (length session_secret) 64) (parse app_session_secret)
    url ← require database_url
    ok (record { bind = (host_ip, port); session_secret = session_secret; database_url = url })

  abbrev pub coin_index : BitcoinNetwork → Option (List ℕ) → Result ConfigError ℕ
  coin_index net none = ok (default_bip48_coin_index net)
  coin_index net (some s) = parsed app_bip48_coin_index (parse_uint (2 ^ 32) s)

  abbrev pub wallet_name : Option (List ℕ) → List ℕ
  wallet_name none = codes "emvault-pkcs11"
  wallet_name (some s) = s

  -- The credentials are read only where the backend needs the node.
  unfoldable pub read_rpc : Var → Var → Var → Var → Bool → Result ConfigError RpcConfig
  unfolding parse_uint show_u16
  read_rpc host_var port_var user_var password_var false = ok no_rpc
  read_rpc host_var port_var user_var password_var true = do
    host ← require host_var
    port_text ← require port_var
    port ← parsed port_var (parse_uint (2 ^ 16) port_text)
    user ← require user_var
    password ← require password_var
    ok (record {
      url = codes "http://" ++ host ++ b':' ∷ show_u16 port;
      user = user;
      password = password;
    })

  unfoldable pub read_bitcoin : Result ConfigError BitcoinConfig
  unfolding read_rpc
  read_bitcoin = do
    network_str ← require bitcoin_network
    net ← parsed bitcoin_network (network network_str)
    coin ← coin_index net (optional app_bip48_coin_index)
    backend ← backend_or_default app_chain_backend (optional app_chain_backend)
    _ ←
        guard (uses_esplora backend && is_blank (optional app_esplora_url))
          (missing app_esplora_url)
    _ ←
        guard (uses_electrum backend && is_blank (optional app_electrum_url))
          (missing app_electrum_url)
    credentials ←
        read_rpc bitcoin_rpc_host bitcoin_rpc_port bitcoin_rpc_user bitcoin_rpc_password
          (uses_rpc backend)
    ok (record {
      network = net;
      bip48_coin_index = coin;
      bitcoin_wallet_name = wallet_name (optional bitcoin_wallet_name);
      chain_backend = backend;
      esplora_url = optional app_esplora_url;
      electrum_url = optional app_electrum_url;
      rpc = credentials;
    })

  abbrev pub threshold_or : ℕ → Option (List ℕ) → Result ConfigError ℕ
  threshold_or n none = ok n
  threshold_or n (some s) = parsed app_fed_threshold (parse_uint (2 ^ 32) s)

  abbrev pub script_type_or : Option (List ℕ) → Result ConfigError ScriptType
  script_type_or none = ok wsh
  script_type_or (some s) = parsed app_script_type (script_type_of s)

  -- One part of `APP_FED_SIGNERS`: an index from 1, handed on from 0.
  unfoldable pub signer_index : ℕ → List ℕ → Result ConfigError ℕ
  unfolding trim parse_uint
  signer_index n part = do
    idx ← parsed app_fed_signers (parse_uint (2 ^ 64) (trim part))
    _ ← guard (idx == 0 || ltb n idx) (parse app_fed_signers)
    ok (idx - 1)

  unfoldable pub signer_indices : ℕ → List (List ℕ) → Result ConfigError (List ℕ)
  signer_indices n [] = ok []
  signer_indices n (part ∷ parts) = do
    idx ← signer_index n part
    rest ← signer_indices n parts
    ok (idx ∷ rest)

  abbrev pub signers_or_all : ℕ → Option (List ℕ) → Result ConfigError (List ℕ)
  signers_or_all n none = ok (range 0 n)
  signers_or_all n (some s) = do
    indices ← signer_indices n (split_on b',' s)
    _ ← guard (is_empty indices) (parse app_fed_signers)
    ok indices

  unfoldable pub read_federation : ℕ → Result ConfigError FederationConfig
  unfolding discover_hsm_tokens signer_indices range
  read_federation fuel = do
    library ← require pkcs11_lib
    tokens ← discover_hsm_tokens env fuel
    _ ← guard (is_empty tokens) (missing (hsm_label 1))
    threshold ← threshold_or (as_u32 (length tokens)) (optional app_fed_threshold)
    script_type ← script_type_or (optional app_script_type)
    indices ← signers_or_all (length tokens) (optional app_fed_signers)
    _ ← guard (ltb threshold 1 || ltb (as_u32 (length indices)) threshold) (parse app_fed_threshold)
    ok (record {
      pkcs11_library_path = library;
      hsm_tokens = tokens;
      fed_threshold = threshold;
      fed_signer_indices = indices;
      fed_script_type = script_type;
    })

  abbrev pub elements_network_of : List ℕ → Result ConfigError ElementsNetwork
  elements_network_of s =
      if text_eq s (codes "liquid")
      then ok liquid
      else if text_eq s (codes "liquidtestnet")
      then ok liquid_testnet
      else if text_eq s (codes "elementsregtest")
      then ok elements_regtest
      else err (parse elements_network)

  abbrev pub is_regtest : ElementsNetwork → Bool
  is_regtest elements_regtest = true
  is_regtest liquid = false
  is_regtest liquid_testnet = false

  abbrev pub filtered : Option (List ℕ) → Option (List ℕ)
  filtered none = none
  filtered (some s) = nonblank s

  abbrev pub token_url : Option (List ℕ) → List ℕ
  token_url none =
      codes "https://login.blockstream.com/realms/blockstream-public/protocol/openid-connect/token"
  token_url (some url) = url

  abbrev pub provider_of :
      Option (List ℕ) → Option (List ℕ) → Option (List ℕ) → Option TokenProvider
  provider_of (some id) (some secret) url =
      some (record { url = token_url url; client_id = id; client_secret = secret })
  provider_of (some id) none url = none
  provider_of none secret url = none

  unfoldable pub elements_esplora_token_from_env : Option TokenProvider
  elements_esplora_token_from_env =
      provider_of (filtered (optional esplora_client_id))
        (filtered (optional esplora_client_secret)) (filtered (optional esplora_token_url))

  unfoldable pub read_elements : Result ConfigError ElementsConfig
  unfolding read_rpc elements_esplora_token_from_env
  read_elements = do
    network_str ← require elements_network
    net ← elements_network_of network_str
    backend ← backend_or_default elements_chain_backend (optional elements_chain_backend)
    _ ←
        guard (uses_electrum backend && is_blank (optional elements_electrum_url))
          (missing elements_electrum_url)
    _ ←
        guard (uses_esplora backend && is_blank (optional elements_esplora_url))
          (missing elements_esplora_url)
    credentials ←
        read_rpc elements_rpc_host elements_rpc_port elements_rpc_user elements_rpc_password
          (uses_rpc backend || is_regtest net)
    ok (record {
      elements_network = net;
      elements_chain_backend = backend;
      elements_electrum_url = optional elements_electrum_url;
      elements_esplora_url = optional elements_esplora_url;
      rpc = credentials;
      elements_esplora_auth = elements_esplora_token_from_env;
    })

  -- `fuel` bounds the number of labels that are looked up.
  unfoldable pub from_env : ℕ → Result ConfigError AppConfig
  unfolding read_server read_bitcoin read_federation read_elements
  from_env fuel = do
    server ← read_server
    btc ← read_bitcoin
    federation ← read_federation fuel
    elements ← read_elements
    ok (record { server = server; btc = btc; federation = federation; elements = elements })
