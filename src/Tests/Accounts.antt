-- ===== src/Tests/Accounts.antt =====
-- Users, logins, wallet rows, transactions.
use test_app_pkcs.Prelude.{
  ℕ, suc, String, ◌<◌, ◌≡◌, refl, true, false, none, some, List, [], ◌∷◌, any, find?, All,
  if◌then◌else◌, ◌==◌, ltb, ◌⊎◌, ◌-◌, ◌^◌,
}
use test_app_pkcs.Prelude.Int.{pos}
use test_app_pkcs.Prelude.Result.{Result, ok, err}
use test_app_pkcs.Prelude.Sql.{out_of_range}
use test_app_pkcs.Db.Users.{UserRow, find_user_by_email, upsert_user_if_absent}
use test_app_pkcs.Auth.{
  Argon2, HashError, Session, redirect_home, from_request_parts, log_in, login_post,
  verify_password, seed_test_users, seed_users, emails,
}
use test_app_pkcs.Auth.Login.{enters, login_post_lem, from_request_parts-login_post}
use test_app_pkcs.Auth.Seed.{IsUser, seed_test_users_lem}
use test_app_pkcs.Db.Wallets.{NewWallet, WalletDb, next_account_idx}
use test_app_pkcs.Db.Wallets.Fresh.{next_account_idx_lem}
use test_app_pkcs.Db.Transactions.{NewTransaction, TransactionTable, tx_row, insert_row, find_row}
use test_app_pkcs.Db.Transactions.Once.{newly, or_new, insert_row_lem}
use text.Mathlib.Text.{◌==◌ as str_eq}

-- A hash is the password itself.
abbrev same_text : String → String → Result HashError (Unit {0})
same_text plain phc = if str_eq plain phc then ok tt else err HashError.password

abbrev argon2 : Argon2 String
argon2 = record { parse = λ phc. ok phc; verify = same_text; hash = λ salt plain. ok plain }

abbrev users : List UserRow
users = record { id = 5; email = "a@test.com"; password_hash = "pw" } ∷ []

abbrev nobody : Session
nobody = record { user_id = none; reachable = true }

login_example :
    let out = login_post argon2 (λ e. e) "a@test.com" "pw" nobody users in
    ((enters out.0 ≡ false) × (out.1 ≡ nobody))
    ⊎ ((u : UserRow) × (find_user_by_email (λ e. e) "a@test.com" users ≡ some u)
        × (verify_password argon2 "pw" u.password_hash ≡ ok true)
        × (out ≡ (redirect_home, record nobody { user_id = some u.id })))
login_example = login_post_lem argon2 (λ e. e) "a@test.com" "pw" nobody users

next_request_example :
    (u : UserRow) × (find_user_by_email (λ e. e) "a@test.com" users ≡ some u)
    × (from_request_parts (record { user_id = some 5; reachable = true }) users ≡ ok u)
unfolding login_post verify_password log_in find_user_by_email find?
next_request_example =
    from_request_parts-login_post argon2 (λ e. e) "a@test.com" "pw" nobody
      (record { user_id = some 5; reachable = true }) users (tt, tt) refl

abbrev seeded : ℕ → String → UserRow
seeded id email = record { id = id; email = email; password_hash = "test1234" }

abbrev all_users : List UserRow
all_users =
    seeded 1 "test1@test.com"
    ∷ seeded 2 "test2@test.com"
    ∷ seeded 3 "test3@test.com"
    ∷ seeded 4 "admin@test.com"
    ∷ []

seed_example :
    All (IsUser argon2 (λ e. e) all_users) emails
    × ((other : String) → IsUser argon2 (λ e. e) [] other → IsUser argon2 (λ e. e) all_users other)
    × (seed_test_users argon2 (λ e. e) 9 all_users ≡ ok all_users)
unfolding seed_test_users seed_users find_user_by_email find? upsert_user_if_absent any
seed_example = seed_test_users_lem argon2 (λ e. e) 1 9 [] all_users refl

abbrev new_wallet : NewWallet
new_wallet = record {
  user_id = 5;
  account_idx = 1;
  descriptor = "wsh";
  bdk_changeset = "{}";
  chain_tip_height = 0;
}

abbrev accounts : WalletDb
accounts = record {
  users = 4 ∷ 5 ∷ [];
  wallets =
      record {
        id = 10;
        user_id = 4;
        account_idx = 0;
        descriptor = "wsh";
        bdk_changeset = none;
        chain_tip_height = none;
      }
      ∷ [];
  elements_wallets = [];
}

next_index_example :
    ((n : ℕ) × (next_account_idx accounts ≡ ok n)
      × All (λ r. r.account_idx < n) accounts.wallets
      × ((n ≡ 0) ⊎ (any (λ r. suc r.account_idx == n) accounts.wallets ≡ true)))
    ⊎ (next_account_idx accounts ≡ err out_of_range)
      × (any (λ r. ltb (2 ^ 31 - 1) (suc r.account_idx)) accounts.wallets ≡ true)
next_index_example = next_account_idx_lem accounts

abbrev payment : NewTransaction
payment = record {
  wallet_id = 1;
  txid = "t";
  recipient = "r";
  amount_sat = pos 5;
  fee_sat = pos 0;
  raw_tx_hex = "00";
  label = none;
}

abbrev table : TransactionTable
table = record { wallets = 1 ∷ []; rows = [] }

record_example :
    let old = find_row 1 "t" table in
    (u : TransactionTable) × (insert_row 3 100 payment table
      ≡ ok (newly (tx_row 3 100 payment) old, u))
    × (find_row 1 "t" u ≡ some (or_new (tx_row 3 100 payment) old))
unfolding any
record_example = insert_row_lem 3 100 payment table refl refl refl
