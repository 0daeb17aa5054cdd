-- ===== src/Chain/Utxos/Spends.antt =====
-- The spent flag under `mark_spent` and under new captures.
use mathlib.Core.Path.{fun_ext}
use test_app_pkcs.Prelude.{
  ℕ, zero, suc, String, ◌≡◌, refl, Bool, not, ◌||◌, true, false, some, List, [], ◌∷◌, any, find?,
  keep, leb, if◌then◌else◌, arith, Bool-cases, inl, inr, map, take, length, eq_iff, ◌∙◌, ap,
}
use test_app_pkcs.Prelude.Result.{Result, ok, err}
use test_app_pkcs.Prelude.Sql.{
  SqlxError, io, upsert, merged, update_where, update_where-update_where, keep-update_where,
  keep-keep, find?-upsert_hit, find?-upsert_miss,
}
use test_app_pkcs.Chain.{store_err}
use test_app_pkcs.Chain.Utxos.{
  UtxoLib, OutPoint, UtxoRow, UtxoDb, has_key, has_outpoint, recapture, spend_at, upsert_row,
  mark_row, mark_rows,
}
use test_app_pkcs.Chain.Utxos.Codec.{mark_spent, list_unspent, unspent_of}

abbrev pub marks : List (String × ℕ) → UtxoRow → Bool
marks ops r = any (λ op. has_outpoint op.0 op.1 r) ops

abbrev pub outcome : ℕ → List (String × ℕ) → Result SqlxError (Unit {0})
outcome n ops = if leb (length ops) n then ok tt else err io

update_where-false :
    (f : UtxoRow → UtxoRow) (rows : List UtxoRow) → update_where (λ r. false) f rows ≡ rows
unfolding update_where
update_where-false f [] = refl
update_where-false f (r ∷ rows) = rw (update_where-false f rows)

marks-nil : marks [] ≡ (λ r. false)
unfolding any
marks-nil = refl

marks-cons :
    (op : String × ℕ) (ops : List (String × ℕ))
    → marks (op ∷ ops) ≡ (λ r. has_outpoint op.0 op.1 r || marks ops r)
unfolding any
marks-cons op ops = refl

mark_rows-prefix :
    (ops : List (String × ℕ)) (h n : ℕ) (s : UtxoDb)
    → ((mark_rows ops h (record { served = n; db = s })).0 ≡ outcome n ops)
      × ((mark_rows ops h (record { served = n; db = s })).1.db
          ≡ record s { utxos = update_where (marks (take n ops)) (spend_at h) s.utxos })
unfolding mark_rows mark_row
mark_rows-prefix [] h zero s = (refl, rw (marks-nil, update_where-false (spend_at h) s.utxos))
mark_rows-prefix [] h (suc n) s =
    (ground arith, rw (marks-nil, update_where-false (spend_at h) s.utxos))
mark_rows-prefix (op ∷ ops) h zero s =
    (ground arith, rw (marks-nil, update_where-false (spend_at h) s.utxos))
mark_rows-prefix ((txid, vout) ∷ ops) h (suc n) s =
    let t : UtxoDb = record s {
      utxos = update_where (has_outpoint txid vout) (spend_at h) s.utxos;
    } in
    let ih = mark_rows-prefix ops h n t in
    (
      ih.0 ∙ ground arith,
      ih.1
          ∙ rw (
            marks-cons (txid, vout) (take n ops),
            update_where-update_where (has_outpoint txid vout) (marks (take n ops)) (spend_at h)
                s.utxos (λ r. refl),
          ),
    )

keep-list_unspent :
    (lib : UtxoLib) (w h : ℕ) (ops : List (String × ℕ)) (s : UtxoDb)
    → list_unspent lib w (record s { utxos = update_where (marks ops) (spend_at h) s.utxos })
      ≡ list_unspent lib w (record s { utxos = keep (λ r. not (marks ops r)) s.utxos })
unfolding list_unspent
keep-list_unspent lib w h ops s = rw (
  keep-update_where (unspent_of w) (marks ops) (spend_at h) s.utxos (λ r. ground arith),
  keep-keep (unspent_of w) (λ r. not (marks ops r)) s.utxos,
)

module _ (lib : UtxoLib) where
  abbrev pub texts : List OutPoint → List (String × ℕ)
  texts = map (λ op. (lib.txids.to_string op.txid, op.vout))

  -- `mark_spent` on a connection that serves `n` statements marks the first `n` outpoints, in every
  -- wallet that has them, and fails exactly if there are more. What `list_unspent` then returns for
  -- a wallet is what it returned before, less the rows that were marked.
  pub mark_spent_lem :
      (ops : List OutPoint) (h n w : ℕ) (s : UtxoDb)
      → let out = mark_spent lib ops h (record { served = n; db = s }) in
        (out.0 ≡ store_err (outcome n (texts ops)))
        × (out.1.db
            ≡ record s { utxos = update_where (marks (take n (texts ops))) (spend_at h) s.utxos })
        × (list_unspent lib w out.1.db
            ≡ list_unspent lib w
                (record s { utxos = keep (λ r. not (marks (take n (texts ops)) r)) s.utxos }))
  unfolding mark_spent
  mark_spent_lem ops h n w s =
      let e = mark_rows-prefix (texts ops) h n s in
      (ap store_err e.0, e.1, rw e.1 (keep-list_unspent lib w h (take n (texts ops)) s))

same_key : (k new a : UtxoRow) → has_key k new ≡ true → has_key new a ≡ has_key k a
same_key k new a e =
    ground (arith, eq_iff new.txid k.txid, eq_iff a.txid new.txid, eq_iff a.txid k.txid)

other_key : (k new a : UtxoRow) → has_key k new ≡ false → has_key new a ≡ true → has_key k a ≡ false
other_key k new a e h =
    ground (arith, eq_iff new.txid k.txid, eq_iff a.txid new.txid, eq_iff a.txid k.txid)

has_key_self : (r : UtxoRow) → has_key r r ≡ true
has_key_self r = ground (arith, eq_iff r.txid r.txid)

find?-upsert_row :
    (new k : UtxoRow) (rows : List UtxoRow)
    → find? (has_key k) (upsert (has_key new) (recapture new) new rows) ≡ (
        if has_key k new
        then some (merged (recapture new) new (find? (has_key k) rows))
        else find? (has_key k) rows)
find?-upsert_row new k rows = elim (Bool-cases (has_key k new)) [
  | inl same ↦
      let e : has_key new ≡ has_key k = fun_ext (λ a. same_key k new a same) in
      rw (same, e) (find?-upsert_hit (has_key k) (recapture new) new rows (λ a h. h) same)
  | inr other ↦ rw other (
      find?-upsert_miss (has_key k) (has_key new) (recapture new) new rows
        (λ a h. (other_key k new a other h, other_key k new a other h)) other)
]

-- Capturing again never revives a spent UTXO: an accepted row of `upsert_utxos` leaves the spent
-- flag and the spending height of every row that was there as they were.
pub upsert_row-keeps_spent :
    (new k r : UtxoRow) (s t : UtxoDb)
    → upsert_row new s ≡ ok (tt, t)
    → find? (has_key k) s.utxos ≡ some r
    → (r' : UtxoRow) × (find? (has_key k) t.utxos ≡ some r')
      × (r'.is_spent ≡ r.is_spent)
      × (r'.spent_height ≡ r.spent_height)
unfolding upsert_row
upsert_row-keeps_spent new k r s t run found = (
  (if has_key k new then recapture new r else r),
  ground (arith, find?-upsert_row new k s.utxos),
  ground arith,
  ground arith,
)
