-- ===== src/Chain/Utxos/Rollback.antt =====
-- `PgWalletUtxoStore::rollback_above` against the scan of the blocks that it takes back.
use test_app_pkcs.Prelude.{
  ℕ, suc, ◌<◌, ◌≤◌, String, ◌≡◌, refl, not, ◌&&◌, false, none, List, [], ◌∷◌, ◌++◌, any, keep, ltb,
  arith, ◌∙◌, All, All-append, keep-snoc_dropped,
}
use test_app_pkcs.Prelude.Result.{ok}
use test_app_pkcs.Prelude.Sql.{update_where, delete_where, upsert-fresh, All-update_where}
use test_app_pkcs.Chain.Utxos.{
  UtxoLib, CapturedUtxo, UtxoRow, UtxoDb, has_key, has_outpoint, recapture, spend_at, spent_above,
  unspend, upsert_row, mark_row, rollback_above,
}
use test_app_pkcs.Chain.Utxos.Codec.{row_of}

abbrev pub undone : ℕ → List UtxoRow → List UtxoRow
undone h rows = update_where (spent_above h) unspend (delete_where (λ r. ltb h r.height) rows)

-- A row that is not spent has no spending height.
abbrev pub IsTidy : UtxoRow → Type 0
IsTidy r = r.is_spent ≡ false → r.spent_height ≡ none

-- A row that the blocks up to height `h` explain.
abbrev pub IsSettled : ℕ → UtxoRow → Type 0
IsSettled h r = (r.height ≤ h) × (spent_above h r ≡ false) × IsTidy r

undone-settled : (h : ℕ) (rows : List UtxoRow) → All (IsSettled h) rows → undone h rows ≡ rows
unfolding keep update_where
undone-settled h [] a = refl
undone-settled h (r ∷ rows) a = ground (arith, undone-settled h rows a.1)

All-IsTidy : (h : ℕ) (rows : List UtxoRow) → All (IsSettled h) rows → All IsTidy rows
All-IsTidy h [] a = tt
All-IsTidy h (r ∷ rows) a = (a.0.2, All-IsTidy h rows a.1)

undone-marked :
    (h k : ℕ) (txid : String) (vout : ℕ) (rows : List UtxoRow)
    → h < k
    → All IsTidy rows
    → any (λ r. has_outpoint txid vout r && r.is_spent) rows ≡ false
    → undone h (update_where (has_outpoint txid vout) (spend_at k) rows) ≡ undone h rows
unfolding keep update_where any
undone-marked h k txid vout [] above tidy live = refl
undone-marked h k txid vout (r ∷ rows) above tidy live =
    ground (arith, undone-marked h k txid vout rows above tidy.1)

undone-captured :
    (h : ℕ) (r : UtxoRow) (rows : List UtxoRow)
    → h < r.height
    → undone h (rows ++ r ∷ []) ≡ undone h rows
undone-captured h r rows above =
    rw (keep-snoc_dropped (λ x. not (ltb h x.height)) rows r (ground arith))

spend_at-IsTidy : (k : ℕ) (r : UtxoRow) → IsTidy (spend_at k r)
spend_at-IsTidy k r e = cc

module _ (lib : UtxoLib) (h : ℕ) where
  -- The statements of a scan of blocks above `h`: captures under keys that the table lacks, and
  -- spends of outpoints that are unspent, in any order.
  pub data Scan (s : UtxoDb) : UtxoDb → Type 0 where
    here : Scan s s
    capture :
        {t u : UtxoDb} (c : CapturedUtxo) (json : String)
        → Scan s t
        → h < c.height
        → any (has_key (row_of lib c json)) t.utxos ≡ false
        → upsert_row (row_of lib c json) t ≡ ok (tt, u)
        → Scan s u
    spend :
        {t u : UtxoDb} (txid : String) (vout k : ℕ)
        → Scan s t
        → h < k
        → any (λ r. has_outpoint txid vout r && r.is_spent) t.utxos ≡ false
        → mark_row txid vout k t ≡ ok (tt, u)
        → Scan s u

  record Follows (s t : UtxoDb) : Type 0 where
    wallets : t.wallets ≡ s.wallets
    undoes : undone h t.utxos ≡ undone h s.utxos
    tidy : All IsTidy t.utxos

  inserted :
      (r : UtxoRow) (t u : UtxoDb)
      → any (has_key r) t.utxos ≡ false
      → upsert_row r t ≡ ok (tt, u)
      → u ≡ record t { utxos = t.utxos ++ r ∷ [] }
  unfolding upsert_row
  inserted r t u fresh run = ground (arith, upsert-fresh (has_key r) (recapture r) r t.utxos)

  marked :
      (txid : String) (vout k : ℕ) (t u : UtxoDb)
      → mark_row txid vout k t ≡ ok (tt, u)
      → u ≡ record t { utxos = update_where (has_outpoint txid vout) (spend_at k) t.utxos }
  unfolding mark_row
  marked txid vout k t u run = cc

  Scan-Follows : {s t : UtxoDb} → All IsTidy s.utxos → Scan s t → Follows s t
  Scan-Follows tidy here = record { wallets = refl; undoes = refl; tidy = tidy }
  Scan-Follows tidy (capture {t} {u} c json run above fresh row) =
      let f = Scan-Follows tidy run in
      let r = row_of lib c json in
      rw (inserted r t u fresh row) (record {
        wallets = f.wallets;
        undoes = undone-captured h r t.utxos above ∙ f.undoes;
        tidy = All-append IsTidy t.utxos (r ∷ []) f.tidy ((λ e. refl), tt);
      })
  Scan-Follows tidy (spend {t} {u} txid vout k run above live row) =
      let f = Scan-Follows tidy run in
      rw (marked txid vout k t u row) (record {
        wallets = f.wallets;
        undoes = undone-marked h k txid vout t.utxos above f.tidy live ∙ f.undoes;
        tidy =
            All-update_where IsTidy (has_outpoint txid vout) (spend_at k) t.utxos
              (λ a p q. spend_at-IsTidy k a) f.tidy;
      })

  -- A rollback to `h` takes a scan back exactly: from a table that the blocks up to `h` explain,
  -- after any captures of new outpoints and spends of unspent ones at heights above `h`, it succeeds
  -- and leaves the database from before the scan.
  pub rollback_above-undoes_Scan :
      (s t : UtxoDb) (n : ℕ)
      → All (IsSettled h) s.utxos
      → Scan s t
      → rollback_above h (record { served = suc (suc n); db = t })
        ≡ (ok tt, record { served = n; db = s })
  unfolding rollback_above
  rollback_above-undoes_Scan s t n settled scan =
      let f = Scan-Follows (All-IsTidy h s.utxos settled) scan in
      ground (arith, f.wallets, f.undoes, undone-settled h s.utxos settled)
