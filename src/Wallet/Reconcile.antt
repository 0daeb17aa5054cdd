-- ===== src/Wallet/Reconcile.antt =====
-- Reorg reconciliation of migrations in `src/wallet.rs`: `reconcile_reverted_migrations` and
-- `txids_present_in_graph`. A BDK wallet is its canonical transactions here, as txids.
pub mod Presence
pub mod Loop
pub mod Reverted
use test_app_pkcs.Prelude.{
  ℕ, suc, ◌+◌, ◌^◌, String, Bool, not, true, false, Option, some, none, List, [], ◌∷◌, map, any,
  ltb, ◌==◌, if◌then◌else◌,
}
use test_app_pkcs.Prelude.Result.{Result, ok, err}
use test_app_pkcs.Prelude.Sql.{SqlxError, Sql, Conn, execute, pure, ◌>>=◌}
use test_app_pkcs.Chain.{HashText}
use test_app_pkcs.Db.Versions.{
  VersionRow, VersionDb, is_complete, list_federation_versions_for_wallet, reconcile_migration,
}

-- `HashSet::contains` and `HashSet::insert`
unfoldable pub contains : List ℕ → ℕ → Bool
contains set t = any (λ x. x == t) set

unfoldable pub insert : ℕ → List ℕ → List ℕ
unfolding contains
insert t set = if contains set t then set else t ∷ set

-- `vw.transactions()` of each version wallet and of `inner`
pub record Graphs : Type 0 where
  pub version_wallets : List (List ℕ)
  pub inner : List ℕ

unfoldable pub insert_wanted : List ℕ → List ℕ → List ℕ → List ℕ
insert_wanted wanted [] present = present
insert_wanted wanted (t ∷ txs) present =
    insert_wanted wanted txs (if contains wanted t then insert t present else present)

unfoldable pub insert_all : List ℕ → List (List ℕ) → List ℕ → List ℕ
insert_all wanted [] present = present
insert_all wanted (vw ∷ vws) present = insert_all wanted vws (insert_wanted wanted vw present)

unfoldable pub txids_present_in_graph : List ℕ → Graphs → List ℕ
txids_present_in_graph wanted g =
    insert_wanted wanted g.inner (insert_all wanted g.version_wallets [])

pub record Candidate : Type 0 where
  pub id : ℕ
  pub txid : ℕ
  pub text : String

-- `u32::saturating_add(1)`
abbrev pub saturating_suc : ℕ → ℕ
saturating_suc n = if ltb (suc n) (2 ^ 32) then suc n else n

abbrev pub count_if : Bool → ℕ → ℕ
count_if false n = n
count_if true n = saturating_suc n

abbrev pub execute_reconcile : ℕ → String → Sql VersionDb Bool
execute_reconcile id txid = execute (λ s. ok (reconcile_migration id txid s))

-- The loop over the candidates, with the number reverted so far.
unfoldable pub revert_absent : List ℕ → List Candidate → ℕ → Sql VersionDb ℕ
revert_absent present [] n conn = pure n conn
revert_absent present (c ∷ cs) n conn =
    if contains present c.txid
    then revert_absent present cs n conn
    else (execute_reconcile c.id c.text >>= λ done. revert_absent present cs (count_if done n)) conn

module _ (txids : HashText) where
  abbrev pub parsed : ℕ → String → Option ℕ → Option Candidate
  parsed id text none = none
  parsed id text (some t) = some (record { id = id; txid = t; text = text })

  abbrev pub with_sweep : ℕ → Option String → Option Candidate
  with_sweep id none = none
  with_sweep id (some text) = parsed id text (txids.from_str text)

  abbrev pub candidate_of : VersionRow → Option Candidate
  candidate_of v =
      if is_complete v.migration_status then with_sweep v.id v.migration_sweep_txid else none

  abbrev pub cons_some : Option Candidate → List Candidate → List Candidate
  cons_some none cs = cs
  cons_some (some c) cs = c ∷ cs

  unfoldable pub candidates : List VersionRow → List Candidate
  candidates [] = []
  candidates (v ∷ vs) = cons_some (candidate_of v) (candidates vs)

  abbrev pub reconcile_candidates : Graphs → List Candidate → Sql VersionDb ℕ
  reconcile_candidates g [] = pure 0
  reconcile_candidates g (c ∷ cs) =
      revert_absent (txids_present_in_graph (map (λ d. d.txid) (c ∷ cs)) g) (c ∷ cs) 0

  abbrev pub reconcile_if : Bool → ℕ → Graphs → Sql VersionDb ℕ
  reconcile_if false w g = pure 0
  reconcile_if true w g =
      execute (λ s. ok (list_federation_versions_for_wallet w s, s)) >>= λ versions.
      reconcile_candidates g (candidates versions)

  unfoldable pub reconcile_reverted_migrations : Bool → ℕ → Graphs → Sql VersionDb ℕ
  reconcile_reverted_migrations reorg_rebuilt w g = reconcile_if reorg_rebuilt w g
