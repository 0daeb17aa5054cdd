-- ===== src/Db.antt =====
-- `src/db.rs`: one module for each table of migrations/.
pub mod Versions
pub mod Wallets
pub mod Users
pub mod Transactions
use test_app_pkcs.Prelude.{ℕ, Bool, Option, none, some, false, ◌==◌}

-- `column = $1` for a column that may be NULL
abbrev pub is_some_of : ℕ → Option ℕ → Bool
is_some_of id none = false
is_some_of id (some x) = x == id
