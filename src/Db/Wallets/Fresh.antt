-- ===== src/Db/Wallets/Fresh.antt =====
-- Account indices and the UNIQUE columns: `next_account_idx` and the rows that are inserted.
use test_app_pkcs.Prelude.{
  ℕ, suc, ◌<◌, ◌≤◌, ◌^◌, ◌≡◌, refl, true, false, some, List, [], ◌∷◌, ◌++◌, any, ltb, ◌==◌, arith,
  All, Distinct, Distinct-snoc, any-or_left, any-or_right, any-or_neither, find?-snoc, Bool-cases,
  inl, inr, ◌⊎◌, sym, ap, ◌∙◌, ◌-◌,
}
use test_app_pkcs.Prelude.Result.{ok, err, ok-injective}
use test_app_pkcs.Prelude.Sql.{out_of_range}
use test_app_pkcs.Db.Wallets.{
  WalletRow, NewWallet, WalletDb, wallet_clash, wallet_row, insert_wallet, find_wallet_for_user,
  next_free, next_account_idx,
}

module _ {ℓ} {A : Type ℓ} (idx : A → ℕ) where
  raise : (m n : ℕ) (rows : List A) → m ≤ n → All (λ r. idx r < m) rows → All (λ r. idx r < n) rows
  raise m n [] h a = tt
  raise m n (r ∷ rows) h a = (omega arith, raise m n rows h a.1)

  next_free-above : (rows : List A) → All (λ r. idx r < next_free idx rows) rows
  unfolding next_free
  next_free-above [] = tt
  next_free-above (r ∷ rows) =
      ground
        (arith, next_free-above rows, raise (next_free idx rows) (next_free idx (r ∷ rows)) rows)

  -- One past an index in use, or 0.
  next_free-tight :
      (rows : List A) (n : ℕ)
      → n ≡ next_free idx rows
      → (n ≡ 0) ⊎ (any (λ r. suc (idx r) == n) rows ≡ true)
  unfolding next_free any
  next_free-tight [] n e = inl e
  next_free-tight (r ∷ rows) n e = elim (Bool-cases (ltb (idx r) (next_free idx rows))) [
    | inl lt ↦ elim (next_free-tight rows n (ground arith)) [
      | inl z ↦ inl z
      | inr used ↦ inr (rw used (ground arith))
    ]
    | inr ge ↦ inr (ground arith)
  ]

  next_free-over :
      (m : ℕ) (rows : List A)
      → ltb (next_free idx rows) (suc m) ≡ false
      → any (λ r. ltb m (suc (idx r))) rows ≡ true
  unfolding any next_free
  next_free-over m [] big = ground arith
  next_free-over m (r ∷ rows) big = ground (arith, next_free-over m rows)

-- `next_account_idx` returns an index above every one in use, and the
-- least such, or reports an overflow, which it does only if an index in use is `i32::MAX` or more.
pub next_account_idx_lem :
    (s : WalletDb)
    → ((n : ℕ) × (next_account_idx s ≡ ok n)
        × All (λ r. r.account_idx < n) s.wallets
        × ((n ≡ 0) ⊎ (any (λ r. suc r.account_idx == n) s.wallets ≡ true)))
      ⊎ (next_account_idx s ≡ err out_of_range)
        × (any (λ r. ltb (2 ^ 31 - 1) (suc r.account_idx)) s.wallets ≡ true)
unfolding next_account_idx
next_account_idx_lem s =
    let n = next_free (λ r. r.account_idx) s.wallets in
    elim (Bool-cases (ltb n (2 ^ 31))) [
      | inl small ↦ inl (
        n,
        rw small refl,
        next_free-above (λ r. r.account_idx) s.wallets,
        next_free-tight (λ r. r.account_idx) s.wallets n refl,
      )
      | inr big ↦
          inr
            (rw big refl, next_free-over (λ r. r.account_idx) (2 ^ 31 - 1) s.wallets (ground arith))
    ]

module _ (id : ℕ) (v : NewWallet) (s : WalletDb) where
  -- A wallet whose user exists and has none yet, and whose index is free, is accepted: it is then
  -- the user's wallet, and users and indices stay distinct.
  pub insert_wallet_lem :
      any (λ r. r.user_id == v.user_id) s.wallets ≡ false
      → any (λ r. r.account_idx == v.account_idx) s.wallets ≡ false
      → any (λ u. u == v.user_id) s.users ≡ true
      → Distinct (λ r. r.user_id) s.wallets
      → Distinct (λ r. r.account_idx) s.wallets
      → (t : WalletDb) × (insert_wallet id v s ≡ ok (wallet_row id v, t))
        × (find_wallet_for_user v.user_id t ≡ some (wallet_row id v))
        × Distinct (λ r. r.user_id) t.wallets
        × Distinct (λ r. r.account_idx) t.wallets
  unfolding insert_wallet find_wallet_for_user
  insert_wallet_lem new free known du da =
      let rows = s.wallets ++ wallet_row id v ∷ [] in
      (
        record s { wallets = rows },
        rw
            (
              any-or_neither (λ r. r.user_id == v.user_id) (λ r. r.account_idx == v.account_idx)
                  s.wallets new free,
              known,
            )
            refl,
        find?-snoc (λ r. r.user_id == v.user_id) s.wallets (wallet_row id v) new (ground arith),
        Distinct-snoc (λ r. r.user_id) (wallet_row id v) s.wallets new du,
        Distinct-snoc (λ r. r.account_idx) (wallet_row id v) s.wallets free da,
      )

  pub insert_wallet-keeps :
      (row : WalletRow) (t : WalletDb)
      → insert_wallet id v s ≡ ok (row, t)
      → Distinct (λ r. r.user_id) s.wallets
      → Distinct (λ r. r.account_idx) s.wallets
      → (row ≡ wallet_row id v)
        × (find_wallet_for_user v.user_id t ≡ some row)
        × Distinct (λ r. r.user_id) t.wallets
        × Distinct (λ r. r.account_idx) t.wallets
  unfolding insert_wallet
  insert_wallet-keeps row t run du da = elim (Bool-cases (any (wallet_clash v) s.wallets)) [
    | inl clash ↦ ground arith
    | inr free ↦ elim (Bool-cases (any (λ u. u == v.user_id) s.users)) [
      | inl known ↦
          let p =
            any-or_left (λ r. r.user_id == v.user_id) (λ r. r.account_idx == v.account_idx)
              s.wallets free in
          let q =
            any-or_right (λ r. r.user_id == v.user_id) (λ r. r.account_idx == v.account_idx)
              s.wallets free in
          let (u, ran, found, us, accounts) = insert_wallet_lem p q known du da in
          let same = ok-injective (wallet_row id v, u) (row, t) (sym ran ∙ run) in
          let e : wallet_row id v ≡ row = ap (λ p. p.0) same in
          let f : u ≡ t = ap (λ p. p.1) same in rw (sym e, sym f) (refl, found, us, accounts)
      | inr unknown ↦ ground arith
    ]
  ]
