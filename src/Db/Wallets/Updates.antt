-- ===== src/Db/Wallets/Updates.antt =====
-- The row that is found by its id after an update of `wallets`.
use test_app_pkcs.Prelude.{ℕ, String, ◌≡◌, refl, Option, some, find?, ◌∙◌, find?-holds}
use test_app_pkcs.Prelude.Sql.{find?-update_where}
use test_app_pkcs.Db.Wallets.{
  WalletRow, WalletDb, with_id, set_changeset, set_tip, update_wallet_changeset,
  update_wallet_tip_only,
}

abbrev pub by_id : ℕ → WalletDb → Option WalletRow
by_id id s = find? (with_id id) s.wallets

pub by_id-update_wallet_changeset :
    (id tip : ℕ) (json : String) (row : WalletRow) (s : WalletDb)
    → by_id id s ≡ some row
    → by_id id (update_wallet_changeset id json tip s) ≡ some (set_changeset json tip row)
unfolding update_wallet_changeset
by_id-update_wallet_changeset id tip json row s e =
    find?-update_where (with_id id) (with_id id) (set_changeset json tip) s.wallets (λ r. refl)
    ∙ rw (e, find?-holds (with_id id) s.wallets row e) refl

pub by_id-update_wallet_tip_only :
    (id tip : ℕ) (row : WalletRow) (s : WalletDb)
    → by_id id s ≡ some row
    → by_id id (update_wallet_tip_only id tip s) ≡ some (set_tip tip row)
unfolding update_wallet_tip_only
by_id-update_wallet_tip_only id tip row s e =
    find?-update_where (with_id id) (with_id id) (set_tip tip) s.wallets (λ r. refl)
    ∙ rw (e, find?-holds (with_id id) s.wallets row e) refl
