-- ===== src/Elements/Backend.antt =====
-- `broadcast_via_backend` and `tip_height_via_backend` of `src/elements_wallet.rs`.
use test_app_pkcs.Prelude.{ℕ, Option, List}
use test_app_pkcs.Prelude.Result.{Result, ok_or, ◌>>=◌}
use test_app_pkcs.Config.{
  ChainBackend, rpc, esplora, waterfalls, electrum, ElementsConfig, RpcConfig, TokenProvider,
}
use test_app_pkcs.Elements.{ElementsWalletError, broadcast_rejected, pipeline}

-- `NodelessSync` of type `C` and `RpcChainSource` of type `R`, of `emvault` and of the node's client;
-- `T` is a transaction, `N` an LWK network.
pub record Clients (C R T N : Type 0) : Type 0 where
  pub new_electrum : List ℕ → Option C
  pub new_esplora : List ℕ → N → Option TokenProvider → Option C
  pub new_waterfalls : List ℕ → N → Option TokenProvider → Option C
  pub broadcast : C → T → Option ℕ
  pub tip_height : C → Option ℕ
  pub new_rpc : RpcConfig → Option R
  pub rpc_broadcast : R → T → Option ℕ
  pub rpc_tip_height : R → Option ℕ

module _ {C R T N : Type 0} (clients : Clients C R T N) where
  open clients use {
    new_electrum, new_esplora, new_waterfalls, broadcast, tip_height, new_rpc, rpc_broadcast,
    rpc_tip_height,
  }

  -- A URL that is not set, a client that is not built and a call that fails give one error.
  abbrev pub through :
      ElementsWalletError
      → Option (List ℕ)
      → (List ℕ → Option C)
      → (C → Option ℕ)
      → Result ElementsWalletError ℕ
  through e url connect call = do
    u ← ok_or url e
    client ← ok_or (connect u) e
    ok_or (call client) e

  abbrev pub broadcast_by : ChainBackend → ElementsConfig → N → T → Result ElementsWalletError ℕ
  broadcast_by electrum cfg net tx =
      through broadcast_rejected cfg.elements_electrum_url new_electrum (λ c. broadcast c tx)
  broadcast_by esplora cfg net tx =
      through broadcast_rejected cfg.elements_esplora_url
        (λ url. new_esplora url net cfg.elements_esplora_auth) (λ c. broadcast c tx)
  broadcast_by waterfalls cfg net tx =
      through broadcast_rejected cfg.elements_esplora_url
        (λ url. new_waterfalls url net cfg.elements_esplora_auth) (λ c. broadcast c tx)
  broadcast_by rpc cfg net tx = do
    chain ← ok_or (new_rpc cfg.rpc) pipeline
    ok_or (rpc_broadcast chain tx) broadcast_rejected

  -- The arguments of the code are fields of the configuration.
  unfoldable pub broadcast_via_backend : ElementsConfig → N → T → Result ElementsWalletError ℕ
  broadcast_via_backend cfg net tx = broadcast_by cfg.elements_chain_backend cfg net tx

  abbrev pub tip_height_by : ChainBackend → ElementsConfig → N → Result ElementsWalletError ℕ
  tip_height_by electrum cfg net =
      through pipeline cfg.elements_electrum_url new_electrum tip_height
  tip_height_by esplora cfg net =
      through pipeline cfg.elements_esplora_url
        (λ url. new_esplora url net cfg.elements_esplora_auth) tip_height
  tip_height_by waterfalls cfg net =
      through pipeline cfg.elements_esplora_url
        (λ url. new_waterfalls url net cfg.elements_esplora_auth) tip_height
  tip_height_by rpc cfg net = do
    chain ← ok_or (new_rpc cfg.rpc) pipeline
    ok_or (rpc_tip_height chain) pipeline

  unfoldable pub tip_height_via_backend : ElementsConfig → N → Result ElementsWalletError ℕ
  tip_height_via_backend cfg net = tip_height_by cfg.elements_chain_backend cfg net
