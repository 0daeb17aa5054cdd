-- ===== src/Wallet/Reconcile/Reverted.antt =====
-- Which migrations `reconcile_reverted_migrations` reverts, and the number that it returns.
use mathlib.Core.Path.{fun_ext}
use test_app_pkcs.Prelude.{
  ℕ, suc, ◌+◌, ◌≤◌, ◌<◌, ◌^◌, ◌≡◌, refl, Bool, not, true, false, Option, none, some, List, [], ◌∷◌,
  arith, any, keep, All, ◌==◌, ◌&&◌, ◌||◌, ◌∙◌, sym, ap, Option-cases, inl, inr, any-own, any-keep,
  Distinct, All-map, eq_iff, map, length, length-keep-le,
}
use test_app_pkcs.Prelude.Result.{ok}
use test_app_pkcs.Prelude.Sql.{update_where, update_where-cong}
use test_app_pkcs.Prelude.Sort.{any-sort_by, length-sort_by}
use test_app_pkcs.Chain.{HashText}
use test_app_pkcs.Db.Versions.{
  VersionRow, VersionDb, of_wallet, is_complete, is_text, reverted,
  list_federation_versions_for_wallet,
}
use test_app_pkcs.Wallet.Reconcile.{
  contains, Graphs, txids_present_in_graph, Candidate, candidate_of, candidates,
  reconcile_candidates, reconcile_reverted_migrations,
}
use test_app_pkcs.Wallet.Reconcile.Presence.{in_graph, txids_present_in_graph_lem}
use test_app_pkcs.Wallet.Reconcile.Loop.{
  lost, revert_rows, completes, revert-nil, Outcome, revert_absent-Outcome,
}

module _ (txids : HashText) where
  abbrev pub absent : Graphs → ℕ → Bool
  absent g t = not (in_graph g t)

  abbrev pub sweep_gone : Graphs → Option Candidate → Bool
  sweep_gone g none = false
  sweep_gone g (some c) = absent g c.txid

  -- The specification: a complete version of the wallet whose recorded sweep is a txid that neither
  -- a version wallet nor `inner` has.
  abbrev pub is_reversed : ℕ → Graphs → VersionRow → Bool
  is_reversed w g r = of_wallet w r && sweep_gone g (candidate_of txids r)

  -- A candidate of `v` that `r` matches.
  abbrev hit : Graphs → VersionRow → Option Candidate → Bool
  hit g r none = false
  hit g r (some c) = lost (absent g) c r

  any-candidates :
      (g : Graphs) (r : VersionRow) (vs : List VersionRow)
      → any (λ c. lost (absent g) c r) (candidates txids vs)
        ≡ any (λ v. hit g r (candidate_of txids v)) vs
  unfolding any candidates
  any-candidates g r [] = refl
  any-candidates g r (v ∷ vs) = elim (Option-cases (candidate_of txids v)) [
    | inl e ↦ rw e (any-candidates g r vs)
    | inr (c, e) ↦ rw e (ap (λ b. lost (absent g) c r || b) (any-candidates g r vs))
  ]

  candidate-id :
      (v : VersionRow) (c : Candidate)
      → candidate_of txids v ≡ some c
      → (c.id ≡ v.id)
        × (is_complete v.migration_status ≡ true)
        × (v.migration_sweep_txid ≡ some c.text)
  candidate-id v c e = ground arith

  -- What a candidate's test asks beside the id.
  abbrev same_sweep : Graphs → VersionRow → Option Candidate → Bool
  same_sweep g r none = false
  same_sweep g r (some c) =
      absent g c.txid && (is_complete r.migration_status && is_text c.text r.migration_sweep_txid)

  hit-split :
      (g : Graphs) (r v : VersionRow)
      → hit g r (candidate_of txids v) ≡ (r.id == v.id && same_sweep g r (candidate_of txids v))
  hit-split g r v = elim (Option-cases (candidate_of txids v)) [
    | inl e ↦ rw e (ground arith)
    | inr (c, e) ↦ rw (e, sym (candidate-id v c e).0) (ground arith)
  ]

  own-sweep :
      (w : ℕ) (g : Graphs) (r : VersionRow)
      → (same_sweep g r (candidate_of txids r) && of_wallet w r) ≡ is_reversed w g r
  own-sweep w g r = elim (Option-cases (candidate_of txids r)) [
    | inl e ↦ rw e (ground arith)
    | inr (c, e) ↦
        let (i, done, text) = candidate-id r c e in
        rw (e, done, text) (ground (arith, eq_iff c.text c.text))
  ]

  listed-hit :
      (w : ℕ) (g : Graphs) (s : VersionDb) (r : VersionRow)
      → any (λ c. lost (absent g) c r) (candidates txids (list_federation_versions_for_wallet w s))
        ≡ any
            (λ v. r.id == v.id && (same_sweep g r (candidate_of txids v) && of_wallet w v))
            s.versions
  unfolding list_federation_versions_for_wallet
  listed-hit w g s r =
      let p : VersionRow → Bool = λ v. hit g r (candidate_of txids v) in
      any-candidates g r (list_federation_versions_for_wallet w s)
      ∙ any-sort_by (λ v. v.version_index) p (keep (of_wallet w) s.versions)
      ∙ any-keep p (of_wallet w) s.versions
      ∙ ap (λ q. any q s.versions) (fun_ext (λ v. rw (hit-split g r v) (ground arith)))

  reverted-rows :
      (w : ℕ) (g : Graphs) (s : VersionDb)
      → Distinct (λ r. r.id) s.versions
      → revert_rows
          (absent g)
          (candidates txids (list_federation_versions_for_wallet w s))
          s.versions
        ≡ update_where (is_reversed w g) reverted s.versions
  reverted-rows w g s d =
      let cs = candidates txids (list_federation_versions_for_wallet w s) in
      let q : VersionRow → VersionRow → Bool =
        λ r v. same_sweep g r (candidate_of txids v) && of_wallet w v in
      update_where-cong (λ r. any (λ c. lost (absent g) c r) cs) (is_reversed w g) reverted
        s.versions
        (All-map (λ r. any (λ v. r.id == v.id && q r v) s.versions ≡ q r r)
          (λ r. any (λ c. lost (absent g) c r) cs ≡ is_reversed w g r) s.versions
          (λ r e. listed-hit w g s r ∙ e ∙ own-sweep w g r) (any-own (λ r. r.id) q s.versions d))

  contains-skip :
      (t : ℕ) (wanted : List ℕ) (cs : List Candidate)
      → All (λ c. contains wanted c.txid ≡ true) cs
      → All (λ c. contains (t ∷ wanted) c.txid ≡ true) cs
  unfolding contains any
  contains-skip t wanted [] a = tt
  contains-skip t wanted (c ∷ cs) a = (ground arith, contains-skip t wanted cs a.1)

  wanted_txids : (cs : List Candidate) → All (λ c. contains (map (λ d. d.txid) cs) c.txid ≡ true) cs
  unfolding contains any
  wanted_txids [] = tt
  wanted_txids (c ∷ cs) =
      (ground arith, contains-skip c.txid (map (λ d. d.txid) cs) cs (wanted_txids cs))

  length-candidates : (vs : List VersionRow) → length (candidates txids vs) ≤ length vs
  unfolding candidates
  length-candidates [] = omega arith
  length-candidates (v ∷ vs) = elim (Option-cases (candidate_of txids v)) [
    | inl e ↦ rw e (omega (arith, length-candidates vs))
    | inr (c, e) ↦ rw e (omega (arith, length-candidates vs))
  ]

  gone_agree :
      (g : Graphs) (cs : List Candidate)
      → All
          (λ c.
            not (contains (txids_present_in_graph (map (λ d. d.txid) cs) g) c.txid)
            ≡ absent g c.txid)
          cs
  gone_agree g cs =
      All-map (λ c. contains (map (λ d. d.txid) cs) c.txid ≡ true)
        (λ c.
          not (contains (txids_present_in_graph (map (λ d. d.txid) cs) g) c.txid) ≡ absent g c.txid)
        cs (λ c e. rw (txids_present_in_graph_lem (map (λ d. d.txid) cs) g c.txid, e) refl)
        (wanted_txids cs)

  few-candidates :
      (w : ℕ) (s : VersionDb)
      → length (candidates txids (list_federation_versions_for_wallet w s)) ≤ length s.versions
  unfolding list_federation_versions_for_wallet
  few-candidates w s = omega (
    arith,
    length-candidates (list_federation_versions_for_wallet w s),
    length-sort_by (λ v. v.version_index) (keep (of_wallet w) s.versions),
    length-keep-le (of_wallet w) s.versions,
  )

  completes-le : (rows : List VersionRow) → completes rows ≤ length rows
  completes-le rows = length-keep-le (λ r. is_complete r.migration_status) rows

  reconcile-Outcome :
      (w n : ℕ) (g : Graphs) (s : VersionDb) (cs : List Candidate)
      → length cs ≤ n
      → Distinct (λ r. r.id) s.versions
      → completes s.versions < 2 ^ 32
      → Outcome (absent g) cs 0 s (reconcile_candidates txids g cs (record { served = n; db = s }))
  reconcile-Outcome w n g s [] le d small =
      (0, refl, rw (revert-nil (absent g) s.versions), rw (revert-nil (absent g) s.versions))
  reconcile-Outcome w n g s (c ∷ cs) le d small =
      revert_absent-Outcome (absent g) (txids_present_in_graph (map (λ e. e.txid) (c ∷ cs)) g)
        (c ∷ cs) 0 n s le d (omega (arith, small)) (gone_agree g (c ∷ cs))

  -- After a rebuild, `reconcile_reverted_migrations` turns a version back to `pending` with no sweep
  -- txid exactly if it is a complete version of the wallet whose recorded sweep parses as a txid
  -- that is in none of the wallet's graphs, and changes no other row. It returns how many rows it
  -- turned back: the fall in the number of complete rows. Ids are distinct, the table has fewer
  -- than 2^32 rows, and the server serves one statement more than the table has rows.
  pub reconcile_reverted_migrations_lem :
      (w n : ℕ) (g : Graphs) (s : VersionDb)
      → Distinct (λ r. r.id) s.versions
      → length s.versions < 2 ^ 32
      → length s.versions ≤ n
      → let out =
          reconcile_reverted_migrations txids true w g (record { served = suc n; db = s }) in
        (m : ℕ) × (out.0 ≡ ok m)
        × (out.1.db ≡ record s { versions = update_where (is_reversed w g) reverted s.versions })
        × (m + completes out.1.db.versions ≡ completes s.versions)
  unfolding reconcile_reverted_migrations
  reconcile_reverted_migrations_lem w n g s d small served =
      let cs = candidates txids (list_federation_versions_for_wallet w s) in
      let few = few-candidates w s in
      let most = completes-le s.versions in
      let (m, run, db, sum) = reconcile-Outcome w n g s cs (omega arith) d (omega arith) in
      let rows = reverted-rows w g s d in
      (
        m,
        run,
        db ∙ ap (λ vs. record s { versions = vs }) rows,
        ap (λ t. m + completes t.versions) db ∙ omega (arith, sum),
      )
