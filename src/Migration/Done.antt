-- ===== src/Migration/Done.antt =====
-- What a run of the migration tool leaves of a Bitcoin wallet's versions, by how Step 2 ends.
use test_app_pkcs.Prelude.{
  ℕ, String, ◌<◌, ◌≤◌, ◌^◌, ◌≡◌, refl, Bool, true, false, not, ◌&&◌, Option, some, none, List, [],
  ◌∷◌, ◌++◌, arith, any, keep, All, All-append, Distinct, Distinct-snoc, ltb, ◌==◌, ◌∙◌, ap, ◌⊎◌,
  inl, inr, keep-snoc, keep-snoc_dropped, All-map,
}
use test_app_pkcs.Prelude.Result.{ok}
use test_app_pkcs.Prelude.Sql.{update_where, update_where-append, Distinct-update_where}
use test_app_pkcs.Prelude.Sort.{last?}
use test_app_pkcs.Db.Versions.{
  VersionRow, VersionDb, of_wallet, is_older, with_status, pending, complete,
  list_federation_versions_for_wallet,
}
use test_app_pkcs.Db.Versions.Order.{list_federation_versions_for_wallet_lem}
use test_app_pkcs.Migration.{
  NewFederation, Step2, no_funds, declined, failed, swept, after_step2, run_migration, i32_or_zero,
  max_index, mark_swept,
}
use test_app_pkcs.Migration.Begin.{added, next, begin-next, count}
use test_app_pkcs.Migration.Stack.{IsStack, aged, aged-others, next-Extended}
use test_app_pkcs.Migration.Sweep.{marked, mark_swept_lem}

max_index-le : (n : ℕ) (vs : List VersionRow) → All (λ r. r.version_index ≤ n) vs → max_index vs ≤ n
unfolding max_index
max_index-le n [] h = omega arith
max_index-le n (v ∷ vs) h = ground (arith, h.0, max_index-le n vs h.1)

max_index-last :
    (z : VersionRow) (vs : List VersionRow) → last? vs ≡ some z → z.version_index ≤ max_index vs
unfolding max_index
max_index-last z [] e = ground arith
max_index-last z (v ∷ []) e = ground arith
max_index-last z (v ∷ x ∷ vs) e = ground (arith, max_index-last z (x ∷ vs) e)

marked-owner :
    (w : ℕ) (sweep : Option String) (r : VersionRow) → of_wallet w (marked sweep r) ≡ of_wallet w r
marked-owner w none r = refl
marked-owner w (some txid) r = refl

marked-status :
    (sweep : Option String) (r : VersionRow) → (marked sweep r).migration_status ≡ complete
marked-status none r = refl
marked-status (some txid) r = refl

module _ (w : ℕ) (sweep : Option String) where
  abbrev older : ℕ → VersionRow → Bool
  older n r = of_wallet w r && ltb r.version_index n

  aged-under :
      (n : ℕ) (rows : List VersionRow)
      → All (λ r. of_wallet w r ≡ true → r.version_index < n) rows
      → All (λ r. of_wallet w r ≡ true → r.version_index < n) (aged (of_wallet w) n rows)
  unfolding update_where
  aged-under n [] h = tt
  aged-under n (r ∷ rows) h = ground (arith, h.0, aged-under n rows h.1)

  under-complete :
      (n : ℕ) (rows : List VersionRow)
      → All (λ r. of_wallet w r ≡ true → r.version_index < n) rows
      → All
          (λ r. r.migration_status ≡ complete)
          (keep (of_wallet w) (update_where (older n) (marked sweep) rows))
  unfolding update_where keep
  under-complete n [] h = tt
  under-complete n (r ∷ rows) h =
      ground (arith, h.0, marked-owner w sweep r, marked-status sweep r, under-complete n rows h.1)

  others-kept :
      (n : ℕ) (rows : List VersionRow)
      → keep (λ r. not (of_wallet w r)) (update_where (older n) (marked sweep) rows)
        ≡ keep (λ r. not (of_wallet w r)) rows
  unfolding update_where keep
  others-kept n [] = refl
  others-kept n (r ∷ rows) = ground (arith, marked-owner w sweep r, others-kept n rows)

  aged-fresh :
      (n id : ℕ) (rows : List VersionRow)
      → any (λ r. r.id == id) rows ≡ false
      → any (λ r. r.id == id) (aged (of_wallet w) n rows) ≡ false
  unfolding update_where any
  aged-fresh n id [] h = refl
  aged-fresh n id (r ∷ rows) h = ground (arith, aged-fresh n id rows)

  module _ (id : ℕ) (f : NewFederation) (s : VersionDb) where
    abbrev made : VersionRow
    made = added w id f s

    abbrev old : List VersionRow
    old = aged (of_wallet w) (count w id f s) s.versions

    next-max :
        (own : IsStack (of_wallet w) s.versions)
        → max_index (list_federation_versions_for_wallet w (next w id f s)) ≡ count w id f s
    unfolding list_federation_versions_for_wallet
    next-max stack =
        let (_, last, _, _) =
          next-Extended (of_wallet w) (λ r. refl) s.versions made (ground arith) refl stack in
        let vs = list_federation_versions_for_wallet w (next w id f s) in
        let low = max_index-last made vs last in
        let (_, _, top) = list_federation_versions_for_wallet_lem w (next w id f s) in
        let high = max_index-le made.version_index vs (top made last) in omega arith

    swept-next :
        any (λ r. r.id == id) s.versions ≡ false
        → Distinct (λ r. r.id) s.versions
        → IsStack (of_wallet w) s.versions
        → mark_swept w sweep (next w id f s) ≡ record s {
          versions = update_where (older (count w id f s)) (marked sweep) old ++ made ∷ [];
        }
    unfolding update_where
    swept-next free ids stack =
        let n = count w id f s in
        let d : Distinct (λ r. r.id) (old ++ made ∷ []) =
          Distinct-snoc (λ r. r.id) made old (aged-fresh n id s.versions free)
            (Distinct-update_where (λ r. r.id) (is_older (of_wallet w) n) (with_status pending)
              s.versions (λ r. refl) ids) in
        mark_swept_lem w sweep (next w id f s) d
        ∙ ap (λ m. record s { versions = update_where (older m) (marked sweep) (old ++ made ∷ []) })
            (next-max stack)
        ∙ ap (λ rows. record s { versions = rows })
            (update_where-append (older n) (marked sweep) old (made ∷ []) ∙ ground arith)

    -- Step 1's result, marked.
    swept-Complete :
        any (λ r. r.id == id) s.versions ≡ false
        → Distinct (λ r. r.id) s.versions
        → IsStack (of_wallet w) s.versions
        → All
            (λ r. (r.migration_status ≡ complete) ⊎ (r ≡ made))
            (keep (of_wallet w) (mark_swept w sweep (next w id f s)).versions)
          × (keep (λ r. not (of_wallet w r)) (mark_swept w sweep (next w id f s)).versions
              ≡ keep (λ r. not (of_wallet w r)) s.versions)
    swept-Complete free ids stack =
        let n = count w id f s in
        let marked_rows = ap (λ d. d.versions) (swept-next free ids stack) in
        let own : of_wallet w made ≡ true = ground arith in
        let rows = update_where (older n) (marked sweep) old in
        let done = under-complete n old (aged-under n s.versions stack) in
        (
          rw (marked_rows, keep-snoc (of_wallet w) rows made own)
              (All-append (λ r. (r.migration_status ≡ complete) ⊎ (r ≡ made))
                (keep (of_wallet w) rows) (made ∷ [])
                (All-map (λ r. r.migration_status ≡ complete)
                  (λ r. (r.migration_status ≡ complete) ⊎ (r ≡ made)) (keep (of_wallet w) rows)
                  (λ r e. inl e) done)
                (inr refl, tt)),
          ap (λ xs. keep (λ r. not (of_wallet w r)) xs) marked_rows
              ∙ keep-snoc_dropped (λ r. not (of_wallet w r)) rows made (rw own refl)
              ∙ others-kept n old
              ∙ aged-others (of_wallet w) (λ r. refl) n s.versions,
        )

module _ (w id : ℕ) (f : NewFederation) (s : VersionDb) where
  -- The versions after a run: complete but for the new one, or exactly as Step 1 left them.
  abbrev pub Left : Step2 → VersionDb → Type 0
  Left (swept sweep) t =
      All (λ r. (r.migration_status ≡ complete) ⊎ (r ≡ added w id f s))
        (keep (of_wallet w) t.versions)
      × (keep (λ r. not (of_wallet w r)) t.versions ≡ keep (λ r. not (of_wallet w r)) s.versions)
  Left no_funds t = t ≡ next w id f s
  Left declined t = t ≡ next w id f s
  Left failed t = t ≡ next w id f s

  after_step2-Left :
      (step2 : Step2)
      → any (λ r. r.id == id) s.versions ≡ false
      → Distinct (λ r. r.id) s.versions
      → IsStack (of_wallet w) s.versions
      → Left step2 (after_step2 w step2 (next w id f s))
  unfolding after_step2
  after_step2-Left no_funds free ids stack = refl
  after_step2-Left declined free ids stack = refl
  after_step2-Left failed free ids stack = refl
  after_step2-Left (swept sweep) free ids stack = swept-Complete w sweep id f s free ids stack

  -- A run of the migration tool for a Bitcoin wallet, under the conditions of Step 1 and with a fresh
  -- id and distinct ids, succeeds in Step 1. If Step 2 then sweeps, no version of the wallet but the
  -- new one is left that is not complete, whether or not the account has a sweep txid, and the rows of
  -- other wallets are as they were. If there are no funds, the operator declines or the sweep fails,
  -- the new version is added and the older ones that were `not_applicable` stay pending.
  pub run_migration_lem :
      (step2 : Step2)
      → (i32_or_zero f.threshold == 0) ≡ false
      → (i32_or_zero f.signer_count == 0) ≡ false
      → any (λ x. x == w) s.wallets ≡ true
      → count w id f s < 2 ^ 31
      → IsStack (of_wallet w) s.versions
      → any (λ r. r.id == id) s.versions ≡ false
      → Distinct (λ r. r.id) s.versions
      → (t : VersionDb) × (run_migration id w f step2 s ≡ ok t) × Left step2 t
  unfolding run_migration
  run_migration_lem step2 t g known small stack free ids = (
    after_step2 w step2 (next w id f s),
    rw (begin-next w id f s t g known small stack) refl,
    after_step2-Left step2 free ids stack,
  )
