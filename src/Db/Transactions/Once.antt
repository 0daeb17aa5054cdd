-- ===== src/Db/Transactions/Once.antt =====
-- The records of a transaction after an insert.
use test_app_pkcs.Prelude.{
  ℕ, ◌≡◌, refl, Bool, true, Option, none, some, List, [], ◌∷◌, ◌++◌, any, find?, ◌==◌, arith, inl,
  inr, find?-snoc, find?-none, eq_iff, Option-cases, ◌⊎◌, not, ◌||◌, Bool-cases,
}
use test_app_pkcs.Prelude.Int.{is_positive, is_nonnegative}
use test_app_pkcs.Prelude.Result.{ok, err}
use test_app_pkcs.Prelude.Sql.{SqlxError, check_violation, foreign_key_violation}
use test_app_pkcs.Db.Transactions.{
  TransactionRow, NewTransaction, TransactionTable, is_tx, tx_row, insert_row, find_row,
}

abbrev pub or_new : TransactionRow → Option TransactionRow → TransactionRow
or_new new none = new
or_new new (some r) = r

abbrev pub newly : TransactionRow → Option TransactionRow → Option TransactionRow
newly new none = some new
newly new (some r) = none

find?-any :
    (p : TransactionRow → Bool) (rows : List TransactionRow) (r : TransactionRow)
    → find? p rows ≡ some r
    → any p rows ≡ true
unfolding find? any
find?-any p [] r e = ground arith
find?-any p (x ∷ rows) r e = ground (arith, find?-any p rows r)

is_tx_self : (id now : ℕ) (v : NewTransaction) → is_tx v.wallet_id v.txid (tx_row id now v) ≡ true
is_tx_self id now v = ground (arith, eq_iff v.txid v.txid)

-- A payment of a positive amount with no negative fee, from a known wallet, is recorded unless the
-- wallet has a record of its txid, and what is found under the txid after that is the older record,
-- if any. The result tells whether a row was written.
pub insert_row_lem :
    (id now : ℕ) (v : NewTransaction) (t : TransactionTable)
    → is_positive v.amount_sat ≡ true
    → is_nonnegative v.fee_sat ≡ true
    → any (λ w. w == v.wallet_id) t.wallets ≡ true
    → let old = find_row v.wallet_id v.txid t in
      (u : TransactionTable) × (insert_row id now v t ≡ ok (newly (tx_row id now v) old, u))
      × (find_row v.wallet_id v.txid u ≡ some (or_new (tx_row id now v) old))
unfolding insert_row find_row
insert_row_lem id now v t p f known =
    elim (Option-cases (find? (is_tx v.wallet_id v.txid) t.rows)) [
      | inl e ↦
          let free = find?-none (is_tx v.wallet_id v.txid) t.rows e in
          (
            record t { rows = t.rows ++ tx_row id now v ∷ [] },
            rw (p, f, free, known, e) refl,
            rw e (
                find?-snoc (is_tx v.wallet_id v.txid) t.rows (tx_row id now v) free
                  (is_tx_self id now v)),
          )
      | inr (r, e) ↦
          let used = find?-any (is_tx v.wallet_id v.txid) t.rows r e in
          (t, rw (p, f, used, e) refl, rw e refl)
    ]

-- An insertion is refused, or leaves a record under the txid.
pub insert_row-find_row :
    (id now : ℕ) (v : NewTransaction) (t : TransactionTable)
    → ((r : SqlxError) × (insert_row id now v t ≡ err r))
      ⊎ ((new : Option TransactionRow) × (u : TransactionTable) × (row : TransactionRow)
          × (insert_row id now v t ≡ ok (new, u))
          × (find_row v.wallet_id v.txid u ≡ some row))
unfolding insert_row find_row
insert_row-find_row id now v t =
    elim (Bool-cases (not (is_positive v.amount_sat) || not (is_nonnegative v.fee_sat))) [
      | inl bad ↦ inl (check_violation, rw bad refl)
      | inr good ↦ elim (Option-cases (find? (is_tx v.wallet_id v.txid) t.rows)) [
        | inl e ↦
            let free = find?-none (is_tx v.wallet_id v.txid) t.rows e in
            elim (Bool-cases (any (λ w. w == v.wallet_id) t.wallets)) [
              | inl known ↦ inr (
                some (tx_row id now v),
                record t { rows = t.rows ++ tx_row id now v ∷ [] },
                tx_row id now v,
                rw (good, free, known) refl,
                find?-snoc (is_tx v.wallet_id v.txid) t.rows (tx_row id now v) free
                    (is_tx_self id now v),
              )
              | inr unknown ↦ inl (foreign_key_violation, rw (good, free, unknown) refl)
            ]
        | inr (row, e) ↦
            let used = find?-any (is_tx v.wallet_id v.txid) t.rows row e in
            inr (none, t, row, rw (good, used) refl, e)
      ]
    ]
