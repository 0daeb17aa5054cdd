-- ===== src/Db/Users.antt =====
-- The table `users` (migration 0001) and the functions of `src/db.rs` on it. `lower` is the server's
-- function.
use test_app_pkcs.Prelude.{
  ℕ, String, Bool, true, false, Option, List, [], ◌∷◌, ◌++◌, any, find?, ◌==◌, if◌then◌else◌,
}
use text.Mathlib.Text.{◌==◌ as str_eq}

pub record UserRow : Type 0 where
  pub id : ℕ
  pub email : String
  pub password_hash : String

-- INSERT … ON CONFLICT (email) DO NOTHING, and whether a row was written
unfoldable pub upsert_user_if_absent : ℕ → String → String → List UserRow → Bool × List UserRow
upsert_user_if_absent id email hash users =
    if any (λ u. str_eq u.email email) users
    then (false, users)
    else (true, users ++ record { id = id; email = email; password_hash = hash } ∷ [])

unfoldable pub find_user_by_email : (String → String) → String → List UserRow → Option UserRow
find_user_by_email lower email users = find? (λ u. str_eq (lower u.email) (lower email)) users

unfoldable pub find_user_by_id : ℕ → List UserRow → Option UserRow
find_user_by_id id users = find? (λ u. u.id == id) users
