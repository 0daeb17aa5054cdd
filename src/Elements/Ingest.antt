-- ===== src/Elements/Ingest.antt =====
-- The ingestion pass of `src/elements_ingest.rs`: which descriptors are scanned for which wallet, and
-- the two drivers. The loop that repeats a pass and drops its error is `spawn`, which `pass` is the
-- body of.
pub mod Scanned
use test_app_pkcs.Prelude.{
  ℕ, ◌+◌, String, Option, none, some, List, [], ◌∷◌, ◌++◌, ◌==◌, if◌then◌else◌,
}
use test_app_pkcs.Prelude.Result.{Result, ok, err, ok_or, ◌>>=◌}
use test_app_pkcs.Prelude.Sql.{upsert}
use test_app_pkcs.Config.{
  ChainBackend, rpc, esplora, waterfalls, electrum, ElementsConfig, ElementsNetwork, RpcConfig,
  TokenProvider,
}
use test_app_pkcs.Config.Read.{url_or_empty, uses_rpc}
use test_app_pkcs.Db.Wallets.{ElementsWalletRow, WalletDb, list_all_elements_wallets}
use test_app_pkcs.Db.Versions.{VersionRow, VersionDb, list_federation_versions_for_elements_wallet}
use test_app_pkcs.Wallet.Descriptor.{codes}
use test_app_pkcs.Elements.BlindingKey.{parse_mbk}

-- `(wallet_id, descriptor, master_blinding_key)`
pub record Entry : Type 0 where
  pub wallet_id : ℕ
  pub descriptor : String
  pub mbk : List ℕ

abbrev pub and_then_parse : Option String → Option (List ℕ)
and_then_parse none = none
and_then_parse (some hex) = parse_mbk (codes hex)

abbrev pub or_else : Option (List ℕ) → Option (List ℕ) → Option (List ℕ)
or_else none other = other
or_else (some key) other = some key

abbrev pub row_key : ElementsWalletRow → Option (List ℕ)
row_key row = parse_mbk (codes row.master_blinding_key)

abbrev pub entry_if : ℕ → String → Option (List ℕ) → List Entry → List Entry
entry_if wallet desc none rest = rest
entry_if wallet desc (some key) rest =
    record { wallet_id = wallet; descriptor = desc; mbk = key } ∷ rest

unfoldable pub version_entries : ElementsWalletRow → List VersionRow → List Entry
unfolding parse_mbk
version_entries row [] = []
version_entries row (v ∷ vs) =
    entry_if row.id v.descriptor (or_else (and_then_parse v.blinding_key) (row_key row))
      (version_entries row vs)

abbrev pub row_entries : ElementsWalletRow → List VersionRow → List Entry
row_entries row [] = entry_if row.id row.descriptor (row_key row) []
row_entries row (v ∷ vs) = version_entries row (v ∷ vs)

unfoldable pub entries_of : VersionDb → List ElementsWalletRow → List Entry
unfolding version_entries
entries_of stacks [] = []
entries_of stacks (row ∷ rows) =
    row_entries row (list_federation_versions_for_elements_wallet row.id stacks)
    ++ entries_of stacks rows

unfoldable pub load_wallet_versions : WalletDb → VersionDb → List Entry
unfolding entries_of
load_wallet_versions accounts stacks = entries_of stacks (list_all_elements_wallets accounts)

-- The errors of a pass, which are texts in the code.
pub data IngestError : Type 0 where
  client node engine : IngestError

pub record Outcome : Type 0 where
  pub upserted : ℕ
  pub spent : ℕ
  pub reorg_to : Option ℕ

-- Wollets of type `W`, a client of an indexer of type `C`, a client of the node of type `R`, an
-- engine of type `G` over the stores `D`.
pub record IngestLib (W C R G D N : Type 0) : Type 0 where
  pub from_descriptor_str : String → List ℕ → ElementsNetwork → N → Option W
  pub to_lwk : ElementsNetwork → N
  pub new_electrum : List ℕ → Option C
  pub new_esplora : List ℕ → N → Option TokenProvider → Option C
  pub new_waterfalls : List ℕ → N → Option TokenProvider → Option C
  pub sync : ℕ → List W → C → D → Option Outcome × C × D
  pub new_rpc : RpcConfig → Option R
  pub node_lwk_network : R → ElementsNetwork → Option N
  pub new_engine : G
  pub register_wallet : ℕ → W → G → Option G
  pub engine_sync : R → G → D → Option Outcome × D

-- The counters of `drive_nodeless`.
pub record Totals : Type 0 where
  pub total_upserted : ℕ
  pub total_spent : ℕ
  pub reorgs : ℕ

abbrev pub count_reorg : ℕ → Option ℕ → ℕ
count_reorg n none = n
count_reorg n (some h) = n + 1

abbrev pub count_outcome : Totals → Option Outcome → Totals
count_outcome t none = t
count_outcome t (some o) = record {
  total_upserted = t.total_upserted + o.upserted;
  total_spent = t.total_spent + o.spent;
  reorgs = count_reorg t.reorgs o.reorg_to;
}

module _ {W C R G D N : Type 0} (lib : IngestLib W C R G D N) where
  open lib use {
    from_descriptor_str, to_lwk, new_electrum, new_esplora, new_waterfalls, sync, new_rpc,
    node_lwk_network, new_engine, register_wallet, engine_sync,
  }

  -- `HashMap<WalletId, Vec<ElementsWollet>>`, the entry of a wallet at most once
  abbrev pub ByWallet : Type 0
  ByWallet = List (ℕ × List W)

  abbrev pub pushed : W → ℕ × List W → ℕ × List W
  pushed w e = (e.0, e.1 ++ w ∷ [])

  -- A wollet that is not built is skipped.
  abbrev pub push : ℕ → Option W → ByWallet → ByWallet
  push wallet none m = m
  push wallet (some w) m = upsert (λ e. e.0 == wallet) (pushed w) (wallet, w ∷ []) m

  unfoldable pub group_from : ElementsNetwork → N → List Entry → ByWallet → ByWallet
  group_from net lwk [] m = m
  group_from net lwk (e ∷ es) m =
      group_from net lwk es (push e.wallet_id (from_descriptor_str e.descriptor e.mbk net lwk) m)

  -- The map is walked in the order of its list; the code's order is any. A sync that fails leaves the
  -- counters.
  unfoldable pub drive_nodeless : ByWallet → Totals → C → D → Totals × D
  drive_nodeless [] t c d = (t, d)
  drive_nodeless ((wallet, wollets) ∷ rest) t c d =
      let (outcome, c', d') = sync wallet wollets c d in
      drive_nodeless rest (count_outcome t outcome) c' d'

  abbrev pub no_totals : Totals
  no_totals = record { total_upserted = 0; total_spent = 0; reorgs = 0 }

  -- A URL that is not set is dialled as an empty one.
  abbrev pub connect : ChainBackend → ElementsConfig → N → Option (Option C)
  connect electrum cfg lwk = some (new_electrum (url_or_empty cfg.elements_electrum_url))
  connect esplora cfg lwk =
      some (new_esplora (url_or_empty cfg.elements_esplora_url) lwk cfg.elements_esplora_auth)
  connect waterfalls cfg lwk =
      some (new_waterfalls (url_or_empty cfg.elements_esplora_url) lwk cfg.elements_esplora_auth)
  connect rpc cfg lwk = none

  abbrev pub drive_with : ByWallet → D → Option (Option C) → Result IngestError (Option Totals) × D
  drive_with m d none = (ok none, d)
  drive_with m d (some none) = (err client, d)
  drive_with m d (some (some c)) = let (t, d') = drive_nodeless m no_totals c d in (ok (some t), d')

  abbrev pub drive_entries :
      ElementsConfig → D → List Entry → Result IngestError (Option Totals) × D
  drive_entries cfg d [] = (ok none, d)
  drive_entries cfg d (e ∷ es) =
      let lwk = to_lwk cfg.elements_network in
      drive_with (group_from cfg.elements_network lwk (e ∷ es) []) d
        (connect cfg.elements_chain_backend cfg lwk)

  -- The result is the summary, if wallets were driven.
  unfoldable pub run_once_nodeless :
      ElementsConfig → WalletDb → VersionDb → D → Result IngestError (Option Totals) × D
  unfolding group_from drive_nodeless load_wallet_versions
  run_once_nodeless cfg accounts stacks d =
      drive_entries cfg d (load_wallet_versions accounts stacks)

  abbrev pub cons_if : ℕ → Option W → List (ℕ × W) → List (ℕ × W)
  cons_if wallet none rest = rest
  cons_if wallet (some w) rest = (wallet, w) ∷ rest

  unfoldable pub built : ElementsNetwork → N → List Entry → List (ℕ × W)
  built net lwk [] = []
  built net lwk (e ∷ es) =
      cons_if e.wallet_id (from_descriptor_str e.descriptor e.mbk net lwk) (built net lwk es)

  unfoldable pub register_all : List (ℕ × W) → G → Result IngestError G
  register_all [] g = ok g
  register_all ((wallet, w) ∷ ws) g = ok_or (register_wallet wallet w g) engine >>= register_all ws

  abbrev pub synced : Option Outcome × D → Result IngestError (Option Outcome) × D
  synced (none, d) = (err engine, d)
  synced (some o, d) = (ok (some o), d)

  abbrev pub prepared : ElementsConfig → List Entry → Result IngestError (R × G)
  prepared cfg entries = do
    chain ← ok_or (new_rpc cfg.rpc) node
    lwk ← ok_or (node_lwk_network chain cfg.elements_network) node
    g ← register_all (built cfg.elements_network lwk entries) new_engine
    ok (chain, g)

  abbrev pub scan_with : D → Result IngestError (R × G) → Result IngestError (Option Outcome) × D
  scan_with d (err e) = (err e, d)
  scan_with d (ok (chain, g)) = synced (engine_sync chain g d)

  abbrev pub scan_entries :
      ElementsConfig → D → List Entry → Result IngestError (Option Outcome) × D
  scan_entries cfg d [] = (ok none, d)
  scan_entries cfg d (e ∷ es) = scan_with d (prepared cfg (e ∷ es))

  unfoldable pub run_once :
      ElementsConfig → WalletDb → VersionDb → D → Result IngestError (Option Outcome) × D
  unfolding built register_all load_wallet_versions
  run_once cfg accounts stacks d = scan_entries cfg d (load_wallet_versions accounts stacks)

  abbrev pub left {ℓ} : {A : Type ℓ} → Result IngestError A × D → D
  left (r, d) = d

  -- What one turn of the loop of `spawn` leaves of the stores: an error is only logged.
  unfoldable pub pass : ElementsConfig → WalletDb → VersionDb → D → D
  unfolding run_once run_once_nodeless
  pass cfg accounts stacks d =
      if uses_rpc cfg.elements_chain_backend
      then left (run_once cfg accounts stacks d)
      else left (run_once_nodeless cfg accounts stacks d)
