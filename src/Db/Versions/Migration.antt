-- ===== src/Db/Versions/Migration.antt =====
-- The life of a version row under the statements that the app and its migration tool send.
use test_app_pkcs.Prelude.{
  ℕ, String, ◌≡◌, refl, Bool, true, false, none, [], ◌∷◌, ◌++◌, arith, any, All, All-append,
  Distinct, Distinct-snoc, ◌==◌, ap, sym,
}
use test_app_pkcs.Prelude.Result.{ok, ok-injective}
use test_app_pkcs.Prelude.Sql.{update_where, All-update_where, Distinct-update_where}
use test_app_pkcs.Db.Versions.{
  MigrationStatus, not_applicable, pending, in_progress, complete, is_complete, is_not_applicable,
  VersionRow, NewFederationVersion, VersionDb, of_wallet, of_elements_wallet, new_row,
  insert_federation_version, has_id, with_status, status_of, update_migration_status, completed,
  set_migration_complete, swept_by, reverted, reconcile_migration, is_older,
  set_pending_migration_for_older_versions, set_pending_migration_for_older_elements_versions,
}

-- The statements that the program sends. Of the statuses, `update_migration_status` is only ever
-- given `complete`.
pub data Step : VersionDb → VersionDb → Type 0 where
  inserted :
      {s t : VersionDb} (id : ℕ) (v : NewFederationVersion) (row : VersionRow)
      → any (λ r. r.id == id) s.versions ≡ false
      → insert_federation_version id v s ≡ ok (row, t)
      → Step s t
  aged :
      {s : VersionDb} (w current : ℕ)
      → Step s (set_pending_migration_for_older_versions w current s)
  aged_elements :
      {s : VersionDb} (w current : ℕ)
      → Step s (set_pending_migration_for_older_elements_versions w current s)
  swept : {s : VersionDb} (id : ℕ) (txid : String) → Step s (set_migration_complete id txid s)
  flipped :
      {s t : VersionDb} (id : ℕ) → update_migration_status id "complete" s ≡ ok (tt, t) → Step s t
  reconciled : {s : VersionDb} (id : ℕ) (txid : String) → Step s (reconcile_migration id txid s).1

pub data Run : VersionDb → VersionDb → Type 0 where
  start : {s : VersionDb} → Run s s
  step : {s t u : VersionDb} → Run s t → Step t u → Run s u

-- A row that is not complete records no sweep.
abbrev pub IsBound : VersionRow → Type 0
IsBound r = is_complete r.migration_status ≡ false → r.migration_sweep_txid ≡ none

abbrev pub IsSound : VersionDb → Type 0
IsSound s = All IsBound s.versions × Distinct (λ r. r.id) s.versions

update-IsSound :
    (p : VersionRow → Bool) (f : VersionRow → VersionRow) (s : VersionDb)
    → ((r : VersionRow) → IsBound r → p r ≡ true → IsBound (f r))
    → ((r : VersionRow) → (f r).id ≡ r.id)
    → IsSound s
    → IsSound (record s { versions = update_where p f s.versions })
update-IsSound p f s h i (bound, ids) = (
  All-update_where IsBound p f s.versions h bound,
  Distinct-update_where (λ r. r.id) p f s.versions i ids,
)

fresh : (m : MigrationStatus) → is_not_applicable m ≡ true → is_complete m ≡ false
fresh not_applicable e = refl
fresh pending e = refl
fresh in_progress e = refl
fresh complete e = ground arith

pending-IsBound :
    (owned : VersionRow → Bool) (current : ℕ) (r : VersionRow)
    → IsBound r
    → is_older owned current r ≡ true
    → IsBound (with_status pending r)
pending-IsBound owned current r b old e = b (fresh r.migration_status (ground arith))

insert-versions :
    (id : ℕ) (v : NewFederationVersion) (s t : VersionDb) (row : VersionRow)
    → insert_federation_version id v s ≡ ok (row, t)
    → t.versions ≡ s.versions ++ new_row id v ∷ []
unfolding insert_federation_version
insert-versions id v s t row run = ground arith

insert-IsSound :
    (id : ℕ) (v : NewFederationVersion) (s t : VersionDb) (row : VersionRow)
    → any (λ r. r.id == id) s.versions ≡ false
    → insert_federation_version id v s ≡ ok (row, t)
    → IsSound s
    → IsSound t
insert-IsSound id v s t row fresh_id run (bound, ids) = rw (insert-versions id v s t row run) (
  All-append IsBound s.versions (new_row id v ∷ []) bound ((λ e. refl), tt),
  Distinct-snoc (λ r. r.id) (new_row id v) s.versions fresh_id ids,
)

Step-IsSound : {s t : VersionDb} → Step s t → IsSound s → IsSound t
unfolding set_pending_migration_for_older_versions set_pending_migration_for_older_elements_versions
    set_migration_complete reconcile_migration update_migration_status status_of
Step-IsSound {s} {t} (inserted id v row f run) h = insert-IsSound id v s t row f run h
Step-IsSound {s} (aged w current) h =
    update-IsSound (is_older (of_wallet w) current) (with_status pending) s
      (pending-IsBound (of_wallet w) current) (λ r. refl) h
Step-IsSound {s} (aged_elements w current) h =
    update-IsSound (is_older (of_elements_wallet w) current) (with_status pending) s
      (pending-IsBound (of_elements_wallet w) current) (λ r. refl) h
Step-IsSound {s} (swept id txid) h =
    update-IsSound (has_id id) (completed txid) s (λ r b p e. ground arith) (λ r. refl) h
Step-IsSound {s} {t} (flipped id run) h =
    let same = ok-injective _ (tt, t) run in
    rw (sym (ap (λ p. p.1) same))
      (update-IsSound (has_id id) (with_status complete) s (λ r b p e. ground arith) (λ r. refl) h)
Step-IsSound {s} (reconciled id txid) h =
    update-IsSound (swept_by id txid) reverted s (λ r b p e. refl) (λ r. refl) h

-- Whatever statements the app and the migration tool send, in whatever order, a version that is not
-- complete never has a sweep txid, and ids stay distinct, if each insert draws a fresh id.
pub Run-IsSound : {s t : VersionDb} → Run s t → IsSound s → IsSound t
Run-IsSound start h = h
Run-IsSound (step run one) h = Step-IsSound one (Run-IsSound run h)
