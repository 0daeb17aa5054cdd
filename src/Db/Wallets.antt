-- ===== src/Db/Wallets.antt =====
-- The tables `wallets` and `elements_wallets` (migrations 0002 and 0004) and the functions of
-- `src/db.rs` on them. `users` are the ids of the table that the foreign keys refer to. Uuids are
-- numbers; changesets are JSON texts.
pub mod Fresh
pub mod Updates
use test_app_pkcs.Prelude.{
  ℕ, suc, ◌^◌, String, Bool, not, ◌||◌, Option, none, some, List, [], ◌∷◌, ◌++◌, any, find?, ltb,
  ◌==◌, if◌then◌else◌,
}
use text.Mathlib.Text.{◌==◌ as str_eq}
use test_app_pkcs.Prelude.Result.{Result, ok, err}
use test_app_pkcs.Prelude.Sql.{
  SqlxError, unique_violation, foreign_key_violation, out_of_range, update_where, sort_by,
}

pub record WalletRow : Type 0 where
  pub id : ℕ
  pub user_id : ℕ
  pub account_idx : ℕ
  pub descriptor : String
  pub bdk_changeset : Option String
  pub chain_tip_height : Option ℕ

pub record NewWallet : Type 0 where
  pub user_id : ℕ
  pub account_idx : ℕ
  pub descriptor : String
  pub bdk_changeset : String
  pub chain_tip_height : ℕ

pub record ElementsWalletRow : Type 0 where
  pub id : ℕ
  pub user_id : ℕ
  pub account_idx : ℕ
  pub descriptor : String
  pub master_blinding_key : String
  pub daemon_wallet_name : String
  pub chain_tip_height : Option ℕ

pub record NewElementsWallet : Type 0 where
  pub user_id : ℕ
  pub account_idx : ℕ
  pub descriptor : String
  pub master_blinding_key : String
  pub daemon_wallet_name : String

pub record WalletDb : Type 0 where
  pub users : List ℕ
  pub wallets : List WalletRow
  pub elements_wallets : List ElementsWalletRow

-- The UNIQUE columns of `wallets`
abbrev pub wallet_clash : NewWallet → WalletRow → Bool
wallet_clash v r = r.user_id == v.user_id || r.account_idx == v.account_idx

abbrev pub wallet_row : ℕ → NewWallet → WalletRow
wallet_row id v = record {
  id = id;
  user_id = v.user_id;
  account_idx = v.account_idx;
  descriptor = v.descriptor;
  bdk_changeset = some v.bdk_changeset;
  chain_tip_height = some v.chain_tip_height;
}

-- `id` is the id that the server draws.
unfoldable pub insert_wallet : ℕ → NewWallet → WalletDb → Result SqlxError (WalletRow × WalletDb)
insert_wallet id v s =
    if any (wallet_clash v) s.wallets
    then err unique_violation
    else if any (λ u. u == v.user_id) s.users
    then ok (wallet_row id v, record s { wallets = s.wallets ++ wallet_row id v ∷ [] })
    else err foreign_key_violation

unfoldable pub find_wallet_for_user : ℕ → WalletDb → Option WalletRow
find_wallet_for_user u s = find? (λ r. r.user_id == u) s.wallets

unfoldable pub list_all_wallets : WalletDb → List WalletRow
list_all_wallets s = sort_by (λ r. r.account_idx) s.wallets

module _ {ℓ} {A : Type ℓ} (account_idx : A → ℕ) where
  -- SELECT COALESCE(MAX(account_idx) + 1, 0)
  unfoldable pub next_free : List A → ℕ
  next_free [] = 0
  next_free (r ∷ rs) =
      let rest = next_free rs in if ltb (account_idx r) rest then rest else suc (account_idx r)

-- The sum is an INTEGER of 32 bits.
abbrev pub as_i32 : ℕ → Result SqlxError ℕ
as_i32 n = if ltb n (2 ^ 31) then ok n else err out_of_range

unfoldable pub next_account_idx : WalletDb → Result SqlxError ℕ
next_account_idx s = as_i32 (next_free (λ r. r.account_idx) s.wallets)

abbrev pub with_id : ℕ → WalletRow → Bool
with_id id r = r.id == id

abbrev pub set_changeset : String → ℕ → WalletRow → WalletRow
set_changeset cs tip r = record r { bdk_changeset = some cs; chain_tip_height = some tip }

unfoldable pub update_wallet_changeset : ℕ → String → ℕ → WalletDb → WalletDb
update_wallet_changeset id cs tip s = record s {
  wallets = update_where (with_id id) (set_changeset cs tip) s.wallets;
}

abbrev pub rebound : String → String → WalletRow → WalletRow
rebound descriptor cs r = record r {
  descriptor = descriptor;
  bdk_changeset = some cs;
  chain_tip_height = some 0;
}

unfoldable pub update_wallet_descriptor_and_changeset : ℕ → String → String → WalletDb → WalletDb
update_wallet_descriptor_and_changeset id descriptor cs s = record s {
  wallets = update_where (with_id id) (rebound descriptor cs) s.wallets;
}

abbrev pub set_tip : ℕ → WalletRow → WalletRow
set_tip tip r = record r { chain_tip_height = some tip }

unfoldable pub update_wallet_tip_only : ℕ → ℕ → WalletDb → WalletDb
update_wallet_tip_only id tip s = record s {
  wallets = update_where (with_id id) (set_tip tip) s.wallets;
}

-- The UNIQUE columns of `elements_wallets`
abbrev pub elements_wallet_clash : NewElementsWallet → ElementsWalletRow → Bool
elements_wallet_clash v r =
    r.user_id == v.user_id
    || (r.account_idx == v.account_idx || str_eq r.daemon_wallet_name v.daemon_wallet_name)

abbrev pub elements_wallet_row : ℕ → NewElementsWallet → ElementsWalletRow
elements_wallet_row id v = record {
  id = id;
  user_id = v.user_id;
  account_idx = v.account_idx;
  descriptor = v.descriptor;
  master_blinding_key = v.master_blinding_key;
  daemon_wallet_name = v.daemon_wallet_name;
  chain_tip_height = none;
}

unfoldable pub insert_elements_wallet :
    ℕ → NewElementsWallet → WalletDb → Result SqlxError (ElementsWalletRow × WalletDb)
insert_elements_wallet id v s =
    if any (elements_wallet_clash v) s.elements_wallets
    then err unique_violation
    else if any (λ u. u == v.user_id) s.users
    then ok (
      elements_wallet_row id v,
      record s { elements_wallets = s.elements_wallets ++ elements_wallet_row id v ∷ [] },
    )
    else err foreign_key_violation

unfoldable pub find_elements_wallet_for_user : ℕ → WalletDb → Option ElementsWalletRow
find_elements_wallet_for_user u s = find? (λ r. r.user_id == u) s.elements_wallets

unfoldable pub next_elements_account_idx : WalletDb → Result SqlxError ℕ
next_elements_account_idx s = as_i32 (next_free (λ r. r.account_idx) s.elements_wallets)

unfoldable pub list_all_elements_wallets : WalletDb → List ElementsWalletRow
list_all_elements_wallets s = sort_by (λ r. r.account_idx) s.elements_wallets

unfoldable pub update_elements_wallet_tip : ℕ → ℕ → WalletDb → WalletDb
update_elements_wallet_tip id tip s = record s {
  elements_wallets =
      update_where (λ r. r.id == id) (λ r. record r { chain_tip_height = some tip })
        s.elements_wallets;
}

abbrev pub rekeyed : String → String → ElementsWalletRow → ElementsWalletRow
rekeyed descriptor mbk r = record r { descriptor = descriptor; master_blinding_key = mbk }

unfoldable pub update_elements_wallet_descriptor : ℕ → String → String → WalletDb → WalletDb
update_elements_wallet_descriptor id descriptor mbk s = record s {
  elements_wallets = update_where (λ r. r.id == id) (rekeyed descriptor mbk) s.elements_wallets;
}
