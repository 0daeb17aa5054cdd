-- ===== src/Elements/Ingest/Scanned.antt =====
-- Which descriptors an ingestion pass has for a wallet, and which wollets either driver takes.
use test_app_pkcs.Prelude.{
  ℕ, String, Bool, true, false, Option, none, some, List, [], ◌∷◌, map, keep, find?, ◌==◌,
}
use test_app_pkcs.Config.{ElementsNetwork}
use test_app_pkcs.Db.Wallets.{ElementsWalletRow}
use test_app_pkcs.Db.Versions.{VersionRow}
use test_app_pkcs.Elements.Ingest.{Entry, IngestLib, ByWallet}

abbrev pub of_id : ℕ → ElementsWalletRow → Bool
of_id id r = r.id == id

abbrev pub of_wallet : ℕ → Entry → Bool
of_wallet id e = e.wallet_id == id

-- Every version's descriptor, or the row's if there is no version.
abbrev pub descriptors : ElementsWalletRow → List VersionRow → List String
descriptors row [] = row.descriptor ∷ []
descriptors row (v ∷ vs) = map (λ u. u.descriptor) (v ∷ vs)

kept_if : Bool → List Entry → List Entry
kept_if true es = es
kept_if false es = []

module _ {W C R G D N : Type 0} (lib : IngestLib W C R G D N) where
  abbrev wollets_or : Option (ℕ × List W) → List W
  wollets_or none = []
  wollets_or (some e) = e.1

  -- What the map has for a wallet.
  abbrev pub wollets_of : ℕ → ByWallet lib → List W
  wollets_of id m = wollets_or (find? (λ e. e.0 == id) m)

  -- What the other driver registers for it.
  abbrev pub registered : ℕ → List (ℕ × W) → List W
  registered id ws = map (λ e. e.1) (keep (λ e. e.0 == id) ws)

  abbrev pub cons_wollet : Option W → List W → List W
  cons_wollet none ws = ws
  cons_wollet (some w) ws = w ∷ ws

  -- The wollets of entries, less those that are not built.
  unfoldable pub wollets : ElementsNetwork → N → List Entry → List W
  wollets net lwk [] = []
  wollets net lwk (e ∷ es) =
      cons_wollet (lib.from_descriptor_str e.descriptor e.mbk net lwk) (wollets net lwk es)
