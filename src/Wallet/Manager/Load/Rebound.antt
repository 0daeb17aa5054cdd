-- ===== src/Wallet/Manager/Load/Rebound.antt =====
-- What a load of a Bitcoin wallet leaves of its row and its versions.
use text.Mathlib.Text.{◌==◌ as str_eq}
use test_app_pkcs.Prelude.{
  ℕ, String, ◌≡◌, refl, Bool, some, List, [], ◌∷◌, if◌then◌else◌, find?, find?-holds, Bool-cases,
  inl, inr, ap, sym, ◌∙◌, eq_iff, arith,
}
use test_app_pkcs.Prelude.Result.{Result, ok, err, ok-injective}
use test_app_pkcs.Prelude.Sql.{SqlxError, find?-update_where}
use test_app_pkcs.Db.Wallets.{WalletRow, with_id, rebound, update_wallet_descriptor_and_changeset}
use test_app_pkcs.Db.Versions.{
  VersionRow, VersionDb, insert_federation_version, list_federation_versions_for_wallet,
}
use test_app_pkcs.Wallet.{WalletError}
use test_app_pkcs.Wallet.Step.{Step, lift, >>>-eq-ok}
use test_app_pkcs.Wallet.Manager.{Settings, Lib, AppDb, derivation_path_for}
use test_app_pkcs.Wallet.Manager.Load.{
  Stack, UserWallet, current_federation, load_current, latest_version, inner_for,
  rebind_inner_to_current_federation, build_federated_wallet, federated_from, metadata_wallets,
  build_user_wallet, or_zero, after_insert, version_zero, new_stack, finish_load, load_with,
}

module _ {S F W V : Type 0} (cfg : Settings) (lib : Lib S F W) (stack : Stack F W V) where
  -- The row of an id, as its descriptor.
  abbrev pub Names : ℕ → String → AppDb → Type 0
  Names id desc s =
      (r : WalletRow) × (find? (with_id id) s.accounts.wallets ≡ some r) × (r.descriptor ≡ desc)

  rebind-Names :
      (row : WalletRow) (desc : String) (s t : AppDb) (out : W × String)
      → find? (with_id row.id) s.accounts.wallets ≡ some row
      → rebind_inner_to_current_federation cfg lib stack row desc s ≡ (ok out, t)
      → Names row.id desc t
  unfolding rebind_inner_to_current_federation update_wallet_descriptor_and_changeset
  rebind-Names row desc s t out found run =
      let (old, u, e, more) =
        >>>-eq-ok (lift (lib.init_or_load row.descriptor row.bdk_changeset)) _ s t out run in
      let (fresh, v, f, wrote) = >>>-eq-ok (lift (lib.create desc)) _ u t out more in
      let s≡v : s ≡ v = ap (λ p. p.1) e ∙ ap (λ p. p.1) f in
      let here : find? (with_id row.id) v.accounts.wallets ≡ some row =
        ap (λ x. find? (with_id row.id) x.accounts.wallets) (sym s≡v) ∙ found in
      let cs =
        lib.take_staged (lib.reveal_to (or_zero cfg lib stack (lib.external_index old.0)) fresh) in
      (
        rebound desc cs row,
        ap (λ p. find? (with_id row.id) (p.1).accounts.wallets) (sym wrote)
            ∙ find?-update_where (with_id row.id) (with_id row.id) (rebound desc cs)
                v.accounts.wallets (λ r. refl)
            ∙ rw here (rw (find?-holds (with_id row.id) v.accounts.wallets row here) refl),
        refl,
      )

  inner_for-Names :
      (row : WalletRow) (desc : String) (s t : AppDb) (out : W × String)
      → find? (with_id row.id) s.accounts.wallets ≡ some row
      → inner_for cfg lib stack row desc s ≡ (ok out, t)
      → Names row.id desc t
  unfolding inner_for
  inner_for-Names row desc s t out found run =
      let load : Step AppDb (W × String) =
        lift (lib.init_or_load row.descriptor row.bdk_changeset) in
      let rebind = rebind_inner_to_current_federation cfg lib stack row desc in
      let choose : Bool → Result WalletError (W × String) × AppDb =
        λ b. (if b then load else rebind) s in
      elim (Bool-cases (str_eq desc row.descriptor)) [
        | inl same ↦
            let ran = ap choose (sym same) ∙ run in
            (
              row,
              ap (λ p. find? (with_id row.id) (p.1).accounts.wallets) (sym ran) ∙ found,
              ground (arith, eq_iff desc row.descriptor),
            )
        | inr stale ↦ rebind-Names row desc s t out found (ap choose (sym stale) ∙ run)
      ]

  after_insert-accounts :
      (s : AppDb) (r : Result SqlxError (VersionRow × VersionDb))
      → (after_insert cfg lib stack s r).accounts ≡ s.accounts
  after_insert-accounts s (ok p) = refl
  after_insert-accounts s (err e) = refl

  federated_from-accounts :
      (id wallet : ℕ) (fed : F) (signers : List S) (rows : List VersionRow) (s t : AppDb) (v : V)
      → federated_from cfg lib stack id wallet fed signers rows s ≡ (ok v, t)
      → t.accounts ≡ s.accounts
  unfolding insert_federation_version
  federated_from-accounts id wallet fed signers [] s t v run =
      ap (λ p. (p.1).accounts) (sym run)
      ∙ after_insert-accounts s
          (insert_federation_version id (version_zero cfg lib stack wallet fed) s.stacks)
  federated_from-accounts id wallet fed signers (r ∷ rs) s t v run =
      let (first, u, e, more) = >>>-eq-ok (lift (lib.reconstruct r signers)) _ s t v run in
      let (v0, x, f, pushed) = >>>-eq-ok (lift (new_stack cfg lib stack first)) _ u t v more in
      ap (λ p. (p.1).accounts) (sym pushed)
      ∙ ap (λ p. (p.1).accounts) (sym f)
      ∙ ap (λ p. (p.1).accounts) (sym e)

  build_federated-accounts :
      (id wallet : ℕ) (fed : F) (signers : List S) (s t : AppDb) (v : V)
      → build_federated_wallet cfg lib stack id wallet fed signers s ≡ (ok v, t)
      → t.accounts ≡ s.accounts
  unfolding build_federated_wallet
  build_federated-accounts id wallet fed signers s t v run =
      federated_from-accounts id wallet fed signers
        (list_federation_versions_for_wallet wallet s.stacks) s t v run

  finish-federation :
      (user : ℕ) (row : WalletRow) (fed : F) (v : V) (inner : W) (cs : String) (s t : AppDb)
      (uw : UserWallet F W V)
      → finish_load cfg lib stack user row fed inner cs v s ≡ (ok uw, t)
      → (uw.federation ≡ fed) × (t ≡ s)
  finish-federation user row fed v inner cs s t uw run =
      let (ws, u, e, r) =
        >>>-eq-ok (lift (metadata_wallets cfg lib stack (stack.federations v))) _ s t uw run in
      let same = ok-injective _ uw (ap (λ p. p.0) r) in
      (ap (λ x. x.federation) (sym same), ap (λ p. p.1) (sym r) ∙ ap (λ p. p.1) (sym e))

  with_federation-Names :
      (id user : ℕ) (row : WalletRow) (fed : F) (signers : List S) (s t : AppDb)
      (uw : UserWallet F W V)
      → find? (with_id row.id) s.accounts.wallets ≡ some row
      → load_with cfg lib stack id user row fed signers s ≡ (ok uw, t)
      → (uw.federation ≡ fed) × Names row.id (lib.multipath fed) t
  with_federation-Names id user row fed signers s t uw found run =
      let (out, u, e, r) =
        >>>-eq-ok (inner_for cfg lib stack row (lib.multipath fed)) _ s t uw run in
      let (v, x, f, q) =
        >>>-eq-ok (build_federated_wallet cfg lib stack id row.id fed signers) _ u t uw r in
      let (same, t≡x) = finish-federation user row fed v out.0 out.1 x t uw q in
      let (r0, there, named) = inner_for-Names row (lib.multipath fed) s u out found e in
      (
        same,
        (
          r0,
          ap (λ y. find? (with_id row.id) y.accounts.wallets) t≡x
              ∙ ap (λ a. find? (with_id row.id) a.wallets)
                  (build_federated-accounts id row.id fed signers u x v f)
              ∙ there,
          named,
        ),
      )

  -- When `build_user_wallet` succeeds on a row of the table, the loaded federation is the one of the
  -- wallet's latest recorded version (or of the settings if none is recorded), and the row then
  -- names that federation's descriptor, whatever it named before.
  pub build_user_wallet_lem :
      (id user : ℕ) (row : WalletRow) (s t : AppDb) (uw : UserWallet F W V)
      → find? (with_id row.id) s.accounts.wallets ≡ some row
      → build_user_wallet cfg lib stack id user row s ≡ (ok uw, t)
      → ((signers : List S) × (current_federation cfg lib stack signers
              (latest_version cfg lib stack row.id s)
            ≡ ok uw.federation))
        × Names row.id (lib.multipath uw.federation) t
  unfolding build_user_wallet
  build_user_wallet_lem id user row s t uw found run =
      let (path, s0, e0, r0) =
        >>>-eq-ok (lift (derivation_path_for cfg.bip48_coin_index row.account_idx)) _ s t uw run in
      let (signers, s1, e1, r1) = >>>-eq-ok (lift (lib.signers_for user path)) _ s0 t uw r0 in
      let (fed, s2, e2, r2) = >>>-eq-ok (load_current cfg lib stack row signers) _ s1 t uw r1 in
      let s≡s1 : s ≡ s1 = ap (λ p. p.1) e0 ∙ ap (λ p. p.1) e1 in
      let s≡s2 : s ≡ s2 = s≡s1 ∙ ap (λ p. p.1) e2 in
      let there = ap (λ x. find? (with_id row.id) x.accounts.wallets) (sym s≡s2) ∙ found in
      let (same, named) = with_federation-Names id user row fed signers s2 t uw there r2 in
      (
        (
          signers,
          ap (λ x. current_federation cfg lib stack signers (latest_version cfg lib stack row.id x))
                s≡s1
              ∙ ap (λ p. p.0) e2
              ∙ ap ok (sym same),
        ),
        rw same named,
      )
