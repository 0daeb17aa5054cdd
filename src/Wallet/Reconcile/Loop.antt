-- ===== src/Wallet/Reconcile/Loop.antt =====
-- The loop of `reconcile_reverted_migrations` over its candidates.
use mathlib.Core.Path.{fun_ext}
use test_app_pkcs.Prelude.{
  ℕ, zero, suc, ◌+◌, ◌≤◌, ◌<◌, ◌^◌, String, ◌≡◌, refl, Bool, not, true, false, List, [], ◌∷◌, arith,
  any, keep, All, ◌==◌, ◌&&◌, ◌∙◌, sym, ap, Bool-cases, inl, inr, Distinct, length,
  length-keep_le_one,
}
use test_app_pkcs.Prelude.Result.{Result, ok}
use test_app_pkcs.Prelude.Sql.{
  SqlxError, Conn, update_where, update_where-update_where, Distinct-update_where,
}
use test_app_pkcs.Db.Versions.{
  VersionRow, VersionDb, is_complete, swept_by, reverted, reconcile_migration,
}
use test_app_pkcs.Wallet.Reconcile.{contains, Candidate, revert_absent, saturating_suc}

-- The rows that a candidate list reverts, if `gone` are the txids that the graphs lack.
abbrev pub lost : (ℕ → Bool) → Candidate → VersionRow → Bool
lost gone c r = gone c.txid && swept_by c.id c.text r

abbrev pub revert_rows : (ℕ → Bool) → List Candidate → List VersionRow → List VersionRow
revert_rows gone cs = update_where (λ r. any (λ c. lost gone c r) cs) reverted

abbrev pub completes : List VersionRow → ℕ
completes rows = length (keep (λ r. is_complete r.migration_status) rows)

update_where-nil :
    (f : VersionRow → VersionRow) (rows : List VersionRow) → update_where (λ r. false) f rows ≡ rows
unfolding update_where
update_where-nil f [] = refl
update_where-nil f (r ∷ rows) = rw (update_where-nil f rows)

pub revert-nil : (gone : ℕ → Bool) (rows : List VersionRow) → revert_rows gone [] rows ≡ rows
unfolding any
revert-nil gone rows = update_where-nil reverted rows

revert-skip :
    (gone : ℕ → Bool) (c : Candidate) (cs : List Candidate) (rows : List VersionRow)
    → gone c.txid ≡ false
    → revert_rows gone (c ∷ cs) rows ≡ revert_rows gone cs rows
unfolding any
revert-skip gone c cs rows e = ap (λ p. update_where p reverted rows) (fun_ext (λ r. rw e))

revert-take :
    (gone : ℕ → Bool) (c : Candidate) (cs : List Candidate) (rows : List VersionRow)
    → gone c.txid ≡ true
    → revert_rows gone (c ∷ cs) rows
      ≡ revert_rows gone cs (update_where (swept_by c.id c.text) reverted rows)
unfolding any
revert-take gone c cs rows e =
    ap (λ p. update_where p reverted rows) (fun_ext (λ r. rw e))
    ∙ sym (
        update_where-update_where (swept_by c.id c.text) (λ r. any (λ d. lost gone d r) cs) reverted
          rows (λ r. refl))

-- One revert takes its rows out of the complete ones.
completes-revert :
    (id : ℕ) (text : String) (rows : List VersionRow)
    → completes (update_where (swept_by id text) reverted rows)
        + length (keep (swept_by id text) rows)
      ≡ completes rows
unfolding update_where keep
completes-revert id text [] = refl
completes-revert id text (r ∷ rows) = ground (arith, completes-revert id text rows)

swept-one :
    (id : ℕ) (text : String) (rows : List VersionRow)
    → Distinct (λ r. r.id) rows
    → length (keep (swept_by id text) rows) ≤ 1
swept-one id text rows d =
    length-keep_le_one (λ r. r.id) (swept_by id text) id rows (λ r e. ground arith) d

abbrev pub Outcome :
    (ℕ → Bool) → List Candidate → ℕ → VersionDb → Result SqlxError ℕ × Conn VersionDb → Type 0
Outcome gone cs k s out =
    (m : ℕ) × (out.0 ≡ ok m)
    × (out.1.db ≡ record s { versions = revert_rows gone cs s.versions })
    × (m + completes (revert_rows gone cs s.versions) ≡ k + completes s.versions)

pub revert_absent-Outcome :
    (gone : ℕ → Bool) (present : List ℕ) (cs : List Candidate) (k n : ℕ) (s : VersionDb)
    → length cs ≤ n
    → Distinct (λ r. r.id) s.versions
    → k + completes s.versions < 2 ^ 32
    → All (λ c. not (contains present c.txid) ≡ gone c.txid) cs
    → Outcome gone cs k s (revert_absent present cs k (record { served = n; db = s }))
unfolding revert_absent reconcile_migration
revert_absent-Outcome gone present [] k n s le d small h =
    (k, refl, rw (revert-nil gone s.versions), rw (revert-nil gone s.versions))
revert_absent-Outcome gone present (c ∷ cs) k zero s le d small h = ground arith
revert_absent-Outcome gone present (c ∷ cs) k (suc n) s le d small h =
    elim (Bool-cases (contains present c.txid)) [
      | inl e ↦
          rw (e, revert-skip gone c cs s.versions (ground (arith, h.0)))
            (revert_absent-Outcome gone present cs k (suc n) s (omega arith) d small h.1)
      | inr e ↦
          let rows = update_where (swept_by c.id c.text) reverted s.versions in
          let t : VersionDb = record s { versions = rows } in
          let total = completes-revert c.id c.text s.versions in
          let one = swept-one c.id c.text s.versions d in
          let unique =
            Distinct-update_where (λ r. r.id) (swept_by c.id c.text) reverted s.versions (λ r. refl)
              d in
          rw (e, revert-take gone c cs s.versions (ground (arith, h.0)))
            (elim (Bool-cases (length (keep (swept_by c.id c.text) s.versions) == 1)) [
              | inl hit ↦ rw hit (
                  let (m, run, db, sum) =
                    revert_absent-Outcome gone present cs (suc k) n t (omega arith) unique
                      (ground arith) h.1 in
                  let size : suc k < 2 ^ 32 = ground arith in
                  let sat : saturating_suc k ≡ suc k = ground arith in
                  rw sat (m, run, db, ground arith))
              | inr miss ↦ rw miss (
                  let (m, run, db, sum) =
                    revert_absent-Outcome gone present cs k n t (omega arith) unique (ground arith)
                      h.1 in
                  (m, run, db, ground arith))
            ])
    ]
