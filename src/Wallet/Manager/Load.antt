-- ===== src/Wallet/Manager/Load.antt =====
-- Loading a wallet from its row: `build_user_wallet`, `build_federated_wallet`,
-- `rebind_inner_to_current_federation` and `load_or_init` of `src/wallet.rs`.
pub mod Rebound
use test_app_pkcs.Prelude.{ℕ, String, Option, none, some, List, [], ◌∷◌, ◌==◌, if◌then◌else◌, find?}
use text.Mathlib.Text.{◌==◌ as str_eq}
use test_app_pkcs.Prelude.Result.{Result, ok, err, ◌>>=◌}
use test_app_pkcs.Prelude.Sql.{SqlxError}
use test_app_pkcs.Prelude.Sort.{last?}
use test_app_pkcs.Db.Wallets.{
  WalletRow, WalletDb, find_wallet_for_user, update_wallet_descriptor_and_changeset,
}
use test_app_pkcs.Db.Versions.{
  VersionRow, VersionDb, NewFederationVersion, list_federation_versions_for_wallet,
  insert_federation_version,
}
use test_app_pkcs.Migration.{i32_or_zero}
use test_app_pkcs.Wallet.{WalletError}
use test_app_pkcs.Wallet.Step.{Step, lift, pure, ◌>>>◌}
use test_app_pkcs.Wallet.Manager.{
  Settings, Lib, AppDb, pick, derivation_path_for, ensure_wallet_for_user,
}

-- `BtcFederatedWallet`, of type `V`
pub record Stack (F W V : Type 0) : Type 0 where
  pub new : F → W → Result WalletError V
  pub with_federation : V → F → W → Result WalletError V
  pub federations : V → List F

pub record UserWallet (F W V : Type 0) : Type 0 where
  pub user_id : ℕ
  pub wallet_id : ℕ
  pub account_idx : ℕ
  pub federation : F
  pub federated_wallet : V
  pub version_wallets : List W
  pub inner : W
  pub aggregate : String

module _ {S F W V : Type 0} (cfg : Settings) (lib : Lib S F W) (stack : Stack F W V) where
  open lib use {
    signers_for, with_config, reconstruct, threshold, total_signers, multipath, snapshot, create,
    init_or_load, take_staged, external_index, reveal_to, handle,
  }
  open stack use {new, with_federation, federations}

  abbrev pub current_federation : List S → Option VersionRow → Result WalletError F
  current_federation signers none =
      pick cfg lib signers cfg.fed_signer_indices >>= with_config cfg.fed_threshold
  current_federation signers (some latest) = reconstruct latest signers

  abbrev pub or_zero : Option ℕ → ℕ
  or_zero none = 0
  or_zero (some n) = n

  abbrev pub write_rebound : WalletRow → String → W → Step AppDb (W × String)
  write_rebound row desc inner s = (
    ok (inner, take_staged inner),
    record s {
      accounts = update_wallet_descriptor_and_changeset row.id desc (take_staged inner) s.accounts;
    },
  )

  -- The fresh `inner` and its changeset; the row is corrected.
  unfoldable pub rebind_inner_to_current_federation : WalletRow → String → Step AppDb (W × String)
  rebind_inner_to_current_federation row desc =
      lift (init_or_load row.descriptor row.bdk_changeset) >>> λ (old, _).
      lift (create desc) >>> λ fresh.
      write_rebound row desc (reveal_to (or_zero (external_index old)) fresh)

  unfoldable pub inner_for : WalletRow → String → Step AppDb (W × String)
  inner_for row desc =
      if str_eq desc row.descriptor
      then lift (init_or_load row.descriptor row.bdk_changeset)
      else rebind_inner_to_current_federation row desc

  abbrev pub version_zero : ℕ → F → NewFederationVersion
  version_zero wallet fed = record {
    wallet_id = some wallet;
    elements_wallet_id = none;
    version_index = 0;
    descriptor = multipath fed;
    threshold = i32_or_zero (threshold fed);
    signer_count = i32_or_zero (total_signers fed);
    federation_snapshot = snapshot fed;
    wallet_handle = handle wallet;
    blinding_key = none;
  }

  -- An error of the INSERT is dropped.
  abbrev pub after_insert : AppDb → Result SqlxError (VersionRow × VersionDb) → AppDb
  after_insert s (ok (row, t)) = record s { stacks = t }
  after_insert s (err e) = s

  abbrev pub record_version_zero : ℕ → ℕ → F → Step AppDb (Unit {0})
  record_version_zero id wallet fed s =
      (ok tt, after_insert s (insert_federation_version id (version_zero wallet fed) s.stacks))

  unfoldable pub push_versions : List VersionRow → List S → V → Result WalletError V
  push_versions [] signers v = ok v
  push_versions (r ∷ rs) signers v = do
    fed ← reconstruct r signers
    w ← create (multipath fed)
    u ← with_federation v fed w
    push_versions rs signers u

  abbrev pub new_stack : F → Result WalletError V
  new_stack fed = create (multipath fed) >>= new fed

  abbrev pub federated_from : ℕ → ℕ → F → List S → List VersionRow → Step AppDb V
  federated_from id wallet fed signers [] =
      record_version_zero id wallet fed >>> λ _. lift (new_stack fed)
  federated_from id wallet fed signers (r ∷ rs) = lift (reconstruct r signers) >>> λ first.
      lift (new_stack first) >>> λ v. lift (push_versions rs signers v)

  -- The first load records the current federation as version 0; `id` is the id of that row.
  unfoldable pub build_federated_wallet : ℕ → ℕ → F → List S → Step AppDb V
  build_federated_wallet id wallet fed signers s =
      federated_from id wallet fed signers (list_federation_versions_for_wallet wallet s.stacks) s

  unfoldable pub metadata_wallets : List F → Result WalletError (List W)
  metadata_wallets [] = ok []
  metadata_wallets (f ∷ fs) = do w ← create (multipath f); ws ← metadata_wallets fs; ok (w ∷ ws)

  abbrev pub latest_version : ℕ → AppDb → Option VersionRow
  latest_version wallet s = last? (list_federation_versions_for_wallet wallet s.stacks)

  abbrev pub load_current : WalletRow → List S → Step AppDb F
  load_current row signers s = (current_federation signers (latest_version row.id s), s)

  abbrev pub finish_load : ℕ → WalletRow → F → W → String → V → Step AppDb (UserWallet F W V)
  finish_load user row fed inner aggregate v = lift (metadata_wallets (federations v)) >>> λ ws.
      pure (record {
        user_id = user;
        wallet_id = row.id;
        account_idx = row.account_idx;
        federation = fed;
        federated_wallet = v;
        version_wallets = ws;
        inner = inner;
        aggregate = aggregate;
      })

  abbrev pub load_with : ℕ → ℕ → WalletRow → F → List S → Step AppDb (UserWallet F W V)
  load_with id user row fed signers = inner_for row (multipath fed) >>> λ (inner, aggregate).
      build_federated_wallet id row.id fed signers >>> λ v.
      finish_load user row fed inner aggregate v

  unfoldable pub build_user_wallet : ℕ → ℕ → WalletRow → Step AppDb (UserWallet F W V)
  build_user_wallet id user row =
      lift (derivation_path_for cfg.bip48_coin_index row.account_idx) >>> λ path.
      lift (signers_for user path) >>> λ signers.
      load_current row signers >>> λ fed. load_with id user row fed signers

  -- The manager's state: the database, and the wallets that are loaded.
  pub record Loaded : Type 0 where
    pub app : AppDb
    pub cache : List (ℕ × UserWallet F W V)

  unfoldable pub cached : ℕ → List (ℕ × UserWallet F W V) → Option (UserWallet F W V)
  cached user [] = none
  cached user ((u, uw) ∷ rest) =
      let found = cached user rest in if u == user then some uw else found

  -- `cache.entry(user).or_insert(uw)`
  abbrev pub or_insert :
      ℕ → UserWallet F W V → Loaded → Option (UserWallet F W V) → UserWallet F W V × Loaded
  or_insert user uw m (some old) = (old, m)
  or_insert user uw m none = (uw, record m { cache = (user, uw) ∷ m.cache })

  abbrev pub keep_in_cache :
      ℕ
      → Loaded
      → Result WalletError (UserWallet F W V) × AppDb
      → Result WalletError (UserWallet F W V) × Loaded
  keep_in_cache user m (err e, s) = (err e, record m { app = s })
  keep_in_cache user m (ok uw, s) =
      let (kept, n) = or_insert user uw (record m { app = s }) (cached user m.cache) in (ok kept, n)

  abbrev pub account_row : ℕ → ℕ → Step AppDb WalletRow
  account_row id user s = elim (ensure_wallet_for_user cfg lib id user s.accounts) [
    | err e ↦ (err e, s)
    | ok (row, accounts) ↦ (ok row, record s { accounts = accounts })
  ]

  abbrev pub load_missing :
      ℕ
      → ℕ
      → ℕ
      → Loaded
      → Option (UserWallet F W V)
      → Result WalletError (UserWallet F W V) × Loaded
  load_missing id version_id user m (some uw) = (ok uw, m)
  load_missing id version_id user m none =
      keep_in_cache user m
        ((account_row id user >>> λ row. build_user_wallet version_id user row) m.app)

  -- `id` and `version_id` are the ids of the rows that a first load inserts.
  unfoldable pub load_or_init : ℕ → ℕ → ℕ → Loaded → Result WalletError (UserWallet F W V) × Loaded
  unfolding build_user_wallet cached
  load_or_init id version_id user m = load_missing id version_id user m (cached user m.cache)

  abbrev pub load_row :
      ℕ
      → WalletRow
      → Loaded
      → Option (UserWallet F W V)
      → Result WalletError (UserWallet F W V) × Loaded
  load_row version_id row m (some uw) = (ok uw, m)
  load_row version_id row m none =
      keep_in_cache row.user_id m (build_user_wallet version_id row.user_id row m.app)

  unfoldable pub load_wallet_from_row :
      ℕ → WalletRow → Loaded → Result WalletError (UserWallet F W V) × Loaded
  unfolding build_user_wallet cached
  load_wallet_from_row version_id row m = load_row version_id row m (cached row.user_id m.cache)
