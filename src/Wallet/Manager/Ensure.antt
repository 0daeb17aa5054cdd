-- ===== src/Wallet/Manager/Ensure.antt =====
-- The rows that `ensure_wallet_for_user` leaves.
use test_app_pkcs.Prelude.{ℕ, ◌≡◌, refl, some, Option-cases, inl, inr, ◌∙◌, sym, ap, Distinct}
use test_app_pkcs.Prelude.Result.{Result, ok, err, >>=-eq-ok, ok-injective}
use test_app_pkcs.Prelude.Sql.{SqlxError}
use test_app_pkcs.Db.Wallets.{
  WalletRow, NewWallet, WalletDb, insert_wallet, find_wallet_for_user, next_account_idx,
}
use test_app_pkcs.Db.Wallets.Fresh.{insert_wallet-keeps}
use test_app_pkcs.Wallet.{from_sqlx}
use test_app_pkcs.Wallet.Manager.{
  Settings, Lib, new_wallet, create_wallet_for_user_at, create_wallet_for_user,
  ensure_wallet_for_user, row_or, derivation_path_for, pick, eligible,
}

from_sqlx-ok : {A : Type 0} (m : Result SqlxError A) (a : A) → from_sqlx m ≡ ok a → m ≡ ok a
from_sqlx-ok (ok b) a e = cc
from_sqlx-ok (err x) a e = cc

-- The rows of `wallets` have distinct users and distinct account indices.
abbrev pub IsKeyed : WalletDb → Type 0
IsKeyed s = Distinct (λ r. r.user_id) s.wallets × Distinct (λ r. r.account_idx) s.wallets

module _ {S F W : Type 0} (cfg : Settings) (lib : Lib S F W) where
  new_wallet-owner :
      (user account : ℕ) (v : NewWallet)
      → new_wallet cfg lib user account ≡ ok v
      → (v.user_id ≡ user) × (v.account_idx ≡ account)
  unfolding new_wallet
  new_wallet-owner user account v run =
      let (path, e0, r0) = >>=-eq-ok (derivation_path_for cfg.bip48_coin_index account) _ run in
      let (all, e1, r1) = >>=-eq-ok (lib.signers_for user path) _ r0 in
      let (picked, e2, r2) = >>=-eq-ok (pick cfg lib all cfg.fed_signer_indices) _ r1 in
      let (patched, e3, r3) = >>=-eq-ok (eligible cfg lib picked) _ r2 in
      let (fed, e4, r4) = >>=-eq-ok (lib.with_config cfg.fed_threshold patched) _ r3 in
      let (probe, e5, r5) = >>=-eq-ok (lib.create (lib.multipath fed)) _ r4 in
      let e = ok-injective _ v r5 in (ap (λ w. w.user_id) (sym e), ap (λ w. w.account_idx) (sym e))

  create_at-IsKeyed :
      (id user account : ℕ) (s t : WalletDb) (row : WalletRow)
      → IsKeyed s
      → create_wallet_for_user_at cfg lib id user account s ≡ ok (row, t)
      → IsKeyed t × (find_wallet_for_user user t ≡ some row)
  unfolding create_wallet_for_user_at
  create_at-IsKeyed id user account s t row (du, da) run =
      let (v, made, inserted) = >>=-eq-ok (new_wallet cfg lib user account) _ run in
      let (owner, idx) = new_wallet-owner user account v made in
      let (e, found, du', da') =
        insert_wallet-keeps id v s row t (from_sqlx-ok (insert_wallet id v s) (row, t) inserted) du
          da in
      ((du', da'), ap (λ u. find_wallet_for_user u t) (sym owner) ∙ found)

  create-IsKeyed :
      (id user : ℕ) (s t : WalletDb) (row : WalletRow)
      → IsKeyed s
      → create_wallet_for_user cfg lib id user s ≡ ok (row, t)
      → IsKeyed t × (find_wallet_for_user user t ≡ some row)
  unfolding create_wallet_for_user
  create-IsKeyed id user s t row keyed run =
      let (account, e, made) = >>=-eq-ok (from_sqlx (next_account_idx s)) _ run in
      create_at-IsKeyed id user account s t row keyed made

  -- When `ensure_wallet_for_user` succeeds, the row that it returns is the user's wallet, users and
  -- account indices are distinct as before, and a second call returns the same row and writes
  -- nothing.
  pub ensure_wallet_for_user_lem :
      (id again user : ℕ) (s t : WalletDb) (row : WalletRow)
      → IsKeyed s
      → ensure_wallet_for_user cfg lib id user s ≡ ok (row, t)
      → IsKeyed t
        × (find_wallet_for_user user t ≡ some row)
        × (ensure_wallet_for_user cfg lib again user t ≡ ok (row, t))
  unfolding ensure_wallet_for_user
  ensure_wallet_for_user_lem id again user s t row keyed run =
      let choose = row_or cfg lib s (create_wallet_for_user cfg lib id user s) in
      elim (Option-cases (find_wallet_for_user user s)) [
        | inl none_yet ↦
            let (k, found) =
              create-IsKeyed id user s t row keyed (ap choose (sym none_yet) ∙ run) in
            (k, found, rw found refl)
        | inr (old, found) ↦
            let e = ok-injective (old, s) (row, t) (ap choose (sym found) ∙ run) in
            let same_db : s ≡ t = ap (λ p. p.1) e in
            let same_row : old ≡ row = ap (λ p. p.0) e in
            let there = ap (find_wallet_for_user user) (sym same_db) ∙ found ∙ ap some same_row in
            (rw (sym same_db) keyed, there, rw there refl)
      ]
