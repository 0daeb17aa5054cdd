-- ===== src/Migration/Stack.antt =====
-- The versions of one owner, of either kind of wallet, while a step of the migration tool marks the
-- older ones. `mine` tells the owner's rows, whatever their status.
use test_app_pkcs.Prelude.{
  ℕ, suc, ◌≤◌, ◌<◌, ◌≡◌, refl, not, true, false, Bool, List, [], ◌∷◌, ◌++◌, arith, keep, length,
  All, ltb, some, keep-snoc, keep-snoc_dropped, length-append, ◌∙◌, ap, All-append,
}
use test_app_pkcs.Prelude.Sql.{update_where, sort_by, keep-update_where_kept, length-update_where}
use test_app_pkcs.Prelude.Sort.{last?, last?-snoc, sort_by-snoc}
use test_app_pkcs.Db.Versions.{VersionRow, is_older, with_status, pending, is_not_applicable}

-- The indices of the owner's versions are below their number.
abbrev pub IsStack : (VersionRow → Bool) → List VersionRow → Type 0
IsStack mine rows = All (λ r. mine r ≡ true → r.version_index < length (keep mine rows)) rows

-- The owner's stack after a version that is numbered as the stack is long: the indices are below
-- their number, the new version is listed last, no older version is left `not_applicable`, and the
-- rows of others are as they were.
abbrev pub Extended : (VersionRow → Bool) → List VersionRow → VersionRow → List VersionRow → Type 0
Extended mine rows added next =
    IsStack mine next
    × (last? (sort_by (λ r. r.version_index) (keep mine next)) ≡ some added)
    × All
        (λ r.
          mine r ≡ true
          → ltb r.version_index added.version_index ≡ true
          → is_not_applicable r.migration_status ≡ false)
        next
    × (keep (λ r. not (mine r)) next ≡ keep (λ r. not (mine r)) rows)

-- The older ones of the owner's versions are pending.
abbrev pub aged : (VersionRow → Bool) → ℕ → List VersionRow → List VersionRow
aged mine n = update_where (is_older mine n) (with_status pending)

module _ (mine : VersionRow → Bool)
    (stable : (r : VersionRow) → mine (with_status pending r) ≡ mine r) where
  pub mine-below :
      (n : ℕ) (rows : List VersionRow)
      → All (λ r. mine r ≡ true → r.version_index < n) rows
      → All (λ r. r.version_index ≤ n) (keep mine rows)
  unfolding keep
  mine-below n [] h = tt
  mine-below n (r ∷ rows) h = ground (arith, h.0, mine-below n rows h.1)

  pub aged-below :
      (m n : ℕ) (rows : List VersionRow)
      → All (λ r. mine r ≡ true → r.version_index < m) rows
      → All (λ r. mine r ≡ true → r.version_index < suc m) (aged mine n rows)
  unfolding update_where
  aged-below m n [] h = tt
  aged-below m n (r ∷ rows) h = ground (arith, h.0, stable r, aged-below m n rows h.1)

  pub aged-le :
      (m n : ℕ) (rows : List VersionRow)
      → All (λ r. r.version_index ≤ m) rows
      → All (λ r. r.version_index ≤ m) (aged mine n rows)
  unfolding update_where
  aged-le m n [] h = tt
  aged-le m n (r ∷ rows) h = ground (arith, aged-le m n rows h.1)

  pub aged-older :
      (n : ℕ) (rows : List VersionRow)
      → All
          (λ r.
            mine r ≡ true
            → ltb r.version_index n ≡ true
            → is_not_applicable r.migration_status ≡ false)
          (aged mine n rows)
  unfolding update_where
  aged-older n [] = tt
  aged-older n (r ∷ rows) = ground (arith, stable r, aged-older n rows)

  pub aged-others :
      (n : ℕ) (rows : List VersionRow)
      → keep (λ r. not (mine r)) (aged mine n rows) ≡ keep (λ r. not (mine r)) rows
  unfolding update_where keep
  aged-others n [] = refl
  aged-others n (r ∷ rows) = ground (arith, stable r, aged-others n rows)

  module _ (rows : List VersionRow) (added : VersionRow) (own : mine added ≡ true)
      (numbered : added.version_index ≡ length (keep mine rows)) (stack : IsStack mine rows) where
    abbrev count : ℕ
    count = length (keep mine rows)

    abbrev next : List VersionRow
    next = aged mine added.version_index rows ++ added ∷ []

    kept-next : keep mine next ≡ aged mine added.version_index (keep mine rows) ++ added ∷ []
    kept-next =
        keep-snoc mine (aged mine added.version_index rows) added own
        ∙ ap (λ xs. xs ++ added ∷ [])
            (keep-update_where_kept mine (is_older mine added.version_index) (with_status pending)
              rows stable)

    length-next : length (keep mine next) ≡ suc count
    length-next = rw kept-next (
        omega (
          arith,
          length-append (aged mine added.version_index (keep mine rows)) (added ∷ []),
          length-update_where (is_older mine added.version_index) (with_status pending)
              (keep mine rows),
        ))

    next-IsStack : IsStack mine next
    next-IsStack = rw length-next (
        All-append (λ r. mine r ≡ true → r.version_index < suc count)
          (aged mine added.version_index rows) (added ∷ [])
          (aged-below count added.version_index rows stack) ((λ e. omega arith), tt))

    listed-last : last? (sort_by (λ r. r.version_index) (keep mine next)) ≡ some added
    listed-last =
        let low : All (λ r. r.version_index ≤ added.version_index) (keep mine rows) =
          rw numbered (mine-below count rows stack) in
        let old = aged mine added.version_index (keep mine rows) in
        rw
          (
            kept-next,
            sort_by-snoc (λ r. r.version_index) added old
                (aged-le added.version_index added.version_index (keep mine rows) low),
          )
          (last?-snoc added (sort_by (λ r. r.version_index) old))

    pub next-Extended : Extended mine rows added next
    next-Extended = (
      next-IsStack,
      listed-last,
      All-append
          (λ r.
            mine r ≡ true
            → ltb r.version_index added.version_index ≡ true
            → is_not_applicable r.migration_status ≡ false)
          (aged mine added.version_index rows) (added ∷ []) (aged-older added.version_index rows)
          ((λ e i. ground arith), tt),
      keep-snoc_dropped (λ r. not (mine r)) (aged mine added.version_index rows) added (rw own refl)
          ∙ aged-others added.version_index rows,
    )
