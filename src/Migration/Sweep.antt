-- ===== src/Migration/Sweep.antt =====
-- Which versions `mark_swept` completes.
use mathlib.Core.Path.{fun_ext}
use test_app_pkcs.Prelude.{
  ℕ, String, ◌≡◌, refl, Bool, true, false, Option, some, none, List, [], ◌∷◌, arith, any, keep, ltb,
  ◌==◌, ◌&&◌, ◌||◌, ◌∙◌, ap, Bool-cases, inl, inr, any-own, any-keep, Distinct, All-map,
}
use test_app_pkcs.Prelude.Sql.{update_where, update_where-update_where, update_where-cong}
use test_app_pkcs.Prelude.Sort.{any-sort_by}
use test_app_pkcs.Db.Versions.{
  VersionRow, VersionDb, of_wallet, has_id, with_status, completed, complete, status_of,
  set_migration_complete, update_migration_status, list_federation_versions_for_wallet,
}
use test_app_pkcs.Migration.{mark_version, mark_older, mark_swept, max_index}

abbrev pub marked : Option String → VersionRow → VersionRow
marked none = with_status complete
marked (some txid) = completed txid

abbrev hit : ℕ → List VersionRow → VersionRow → Bool
hit m vs r = any (λ v. r.id == v.id && ltb v.version_index m) vs

mark_version-marked :
    (sweep : Option String) (v : VersionRow) (s : VersionDb)
    → mark_version sweep v s
      ≡ record s { versions = update_where (has_id v.id) (marked sweep) s.versions }
unfolding set_migration_complete update_migration_status status_of
mark_version-marked none v s = refl
mark_version-marked (some txid) v s = refl

marked_idem :
    (sweep : Option String) (r : VersionRow) → marked sweep (marked sweep r) ≡ marked sweep r
marked_idem none r = refl
marked_idem (some txid) r = refl

hit-skip :
    (m : ℕ) (v : VersionRow) (vs : List VersionRow)
    → ltb v.version_index m ≡ false
    → hit m (v ∷ vs) ≡ hit m vs
unfolding any
hit-skip m v vs e = fun_ext (λ r. ground arith)

hit-take :
    (m : ℕ) (v : VersionRow) (vs : List VersionRow)
    → ltb v.version_index m ≡ true
    → hit m (v ∷ vs) ≡ (λ r. has_id v.id r || hit m vs r)
unfolding any
hit-take m v vs e = fun_ext (λ r. ground arith)

update_where-nil :
    (f : VersionRow → VersionRow) (rows : List VersionRow) → update_where (λ r. false) f rows ≡ rows
unfolding update_where
update_where-nil f [] = refl
update_where-nil f (r ∷ rows) = rw (update_where-nil f rows)

mark_older-hit :
    (sweep : Option String) (m : ℕ) (vs : List VersionRow) (s : VersionDb)
    → mark_older sweep m vs s
      ≡ record s { versions = update_where (hit m vs) (marked sweep) s.versions }
unfolding mark_older any
mark_older-hit sweep m [] s = rw (update_where-nil (marked sweep) s.versions)
mark_older-hit sweep m (v ∷ vs) s = elim (Bool-cases (ltb v.version_index m)) [
  | inl old ↦
      rw
        (
          old,
          mark_version-marked sweep v s,
          mark_older-hit sweep m vs
              (record s { versions = update_where (has_id v.id) (marked sweep) s.versions }),
          update_where-update_where (has_id v.id) (hit m vs) (marked sweep) s.versions
              (marked_idem sweep),
        )
        (ap (λ p. record s { versions = update_where p (marked sweep) s.versions })
          (fun_ext (λ r. ground arith)))
  | inr new ↦
      rw (new, mark_older-hit sweep m vs s)
        (ap (λ p. record s { versions = update_where p (marked sweep) s.versions })
          (fun_ext (λ r. ground arith)))
]

hit-listed :
    (w m : ℕ) (s : VersionDb) (r : VersionRow)
    → hit m (list_federation_versions_for_wallet w s) r
      ≡ any (λ v. r.id == v.id && (of_wallet w v && ltb v.version_index m)) s.versions
unfolding list_federation_versions_for_wallet
hit-listed w m s r =
    let p : VersionRow → Bool = λ v. r.id == v.id && ltb v.version_index m in
    any-sort_by (λ v. v.version_index) p (keep (of_wallet w) s.versions)
    ∙ any-keep p (of_wallet w) s.versions
    ∙ ap (λ q. any q s.versions) (fun_ext (λ v. ground arith))

-- The versions of a wallet that are older than its newest, and no other row, become complete with
-- the sweep's txid recorded, or with the txid column as it was if the account has no txid.
pub mark_swept_lem :
    (w : ℕ) (sweep : Option String) (s : VersionDb)
    → Distinct (λ r. r.id) s.versions
    → mark_swept w sweep s ≡ record s {
      versions =
          update_where
            (λ r.
              of_wallet w r
              && ltb r.version_index (max_index (list_federation_versions_for_wallet w s)))
            (marked sweep)
            s.versions;
    }
unfolding mark_swept list_federation_versions_for_wallet
mark_swept_lem w sweep s d =
    let vs = list_federation_versions_for_wallet w s in
    let m = max_index vs in
    mark_older-hit sweep m vs s
    ∙ ap (λ rows. record s { versions = rows })
        (update_where-cong (hit m vs) (λ r. of_wallet w r && ltb r.version_index m) (marked sweep)
          s.versions
          (All-map
            (λ r.
              any (λ v. r.id == v.id && (of_wallet w v && ltb v.version_index m)) s.versions
              ≡ (of_wallet w r && ltb r.version_index m))
            (λ r. hit m vs r ≡ (of_wallet w r && ltb r.version_index m)) s.versions
            (λ r e. hit-listed w m s r ∙ e)
            (any-own (λ r. r.id) (λ r v. of_wallet w v && ltb v.version_index m) s.versions d)))
