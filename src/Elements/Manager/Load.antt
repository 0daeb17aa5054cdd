-- ===== src/Elements/Manager/Load.antt =====
-- Loading an Elements wallet from its row: `build_user_wallet`, `load_or_init` and
-- `load_wallet_from_row` of `src/elements_wallet.rs`.
pub mod Rebound
use test_app_pkcs.Prelude.{
  ℕ, String, Bool, true, false, not, Option, none, some, List, [], ◌∷◌, ltb, ◌==◌, if◌then◌else◌,
  ◌&&◌, length,
}
use text.Mathlib.Text.{◌==◌ as str_eq}
use test_app_pkcs.Prelude.Result.{Result, ok, err}
use test_app_pkcs.Prelude.Sql.{SqlxError}
use test_app_pkcs.Prelude.Sort.{last?}
use test_app_pkcs.Prelude.Step.{Action, lift, pure, ◌>>>◌}
use test_app_pkcs.Config.{ElementsConfig}
use test_app_pkcs.Db.Wallets.{
  ElementsWalletRow, WalletDb, find_elements_wallet_for_user, update_elements_wallet_descriptor,
}
use test_app_pkcs.Db.Versions.{
  VersionRow, VersionDb, NewFederationVersion, list_federation_versions_for_elements_wallet,
  insert_federation_version,
}
use test_app_pkcs.Migration.{i32_or_zero}
use test_app_pkcs.Wallet.Descriptor.{codes}
use test_app_pkcs.Elements.{ElementsWalletError}
use test_app_pkcs.Elements.BlindingKey.{parse_mbk_hex}
use test_app_pkcs.Elements.BlindingKey.Derived.{derive_master_blinding_key}
use test_app_pkcs.Elements.Manager.{
  Settings, Lib, ElementsDb, derivation_path_for, lwk_network, create_wallet_for_user, row_or,
}

-- `settings` is what the wallet keeps of the manager's own: network, backend, URLs and credentials.
pub record UserElementsWallet (S N : Type 0) : Type 0 where
  pub user_id : ℕ
  pub wallet_id : ℕ
  pub account_idx : ℕ
  pub settings : ElementsConfig
  pub lwk_net : N
  pub descriptor : String
  pub mbk : List ℕ
  pub daemon_wallet_name : String
  pub signers : List S
  pub federation_version_count : ℕ

-- The descriptor and the key that a load uses, and whether they differ from the row's.
pub record Binding : Type 0 where
  pub current : String
  pub key : List ℕ
  pub drifted : Bool

abbrev pub at_least_one : ℕ → ℕ
at_least_one n = if ltb n 1 then 1 else n

-- `blinding_key.as_deref().and_then(parse_mbk_hex).unwrap_or(base_mbk)`
abbrev pub parsed_or : List ℕ → Option (List ℕ) → List ℕ
parsed_or base none = base
parsed_or base (some key) = key

abbrev pub key_text : Option String → Option (List ℕ)
key_text none = none
key_text (some hex) = parse_mbk_hex (codes hex)

abbrev pub version_key : List ℕ → VersionRow → List ℕ
version_key base v = parsed_or base (key_text v.blinding_key)

abbrev pub binding : ElementsWalletRow → List ℕ → Option VersionRow → Binding
binding row base none = record { current = row.descriptor; key = base; drifted = false }
binding row base (some latest) =
    if not (str_eq latest.descriptor row.descriptor)
    then record { current = latest.descriptor; key = version_key base latest; drifted = true }
    else record { current = row.descriptor; key = base; drifted = false }

abbrev pub hex_or : String → Option String → String
hex_or row none = row
hex_or row (some hex) = hex

-- The text of the key that is written to the row.
abbrev pub blinding_hex : ElementsWalletRow → Option VersionRow → String
blinding_hex row none = row.master_blinding_key
blinding_hex row (some latest) = hex_or row.master_blinding_key latest.blinding_key

module _ {S N B : Type 0} (cfg : Settings) (lib : Lib S N B) where
  open lib use {signers_for, hashers, snapshot}

  abbrev pub version_zero : ElementsWalletRow → NewFederationVersion
  version_zero row = record {
    wallet_id = none;
    elements_wallet_id = some row.id;
    version_index = 0;
    descriptor = row.descriptor;
    threshold = i32_or_zero cfg.fed_threshold;
    signer_count = i32_or_zero (length cfg.fed_signer_indices);
    federation_snapshot = snapshot row.descriptor;
    wallet_handle = row.daemon_wallet_name;
    blinding_key = some row.master_blinding_key;
  }

  -- An error of the INSERT is dropped.
  abbrev pub after_insert : ElementsDb N → Result SqlxError (VersionRow × VersionDb) → ElementsDb N
  after_insert s (ok (v, t)) = record s { stacks = t }
  after_insert s (err e) = s

  abbrev pub record_initial : ℕ → ElementsWalletRow → List VersionRow → ElementsDb N → ElementsDb N
  record_initial id row [] s =
      after_insert s (insert_federation_version id (version_zero row) s.stacks)
  record_initial id row (v ∷ vs) s = s

  -- If the UPDATE of the row fails, the error is only logged.
  abbrev pub heal : ElementsWalletRow → Option VersionRow → Binding → ElementsDb N → ElementsDb N
  heal row latest b s =
      if b.drifted && s.serves_update
      then record s {
        accounts =
            update_elements_wallet_descriptor row.id b.current (blinding_hex row latest) s.accounts;
      }
      else s

  abbrev pub loaded_wallet :
      ℕ → ElementsWalletRow → List S → N → ℕ → Binding → UserElementsWallet S N
  loaded_wallet user row signers net count b = record {
    user_id = user;
    wallet_id = row.id;
    account_idx = row.account_idx;
    settings = cfg.elements;
    lwk_net = net;
    descriptor = b.current;
    mbk = b.key;
    daemon_wallet_name = row.daemon_wallet_name;
    signers = signers;
    federation_version_count = at_least_one count;
  }

  -- The part after the network is known; `id` is the id of the row of version 0.
  unfoldable pub bind_wallet :
      ℕ
      → ℕ
      → ElementsWalletRow
      → List S
      → N
      → List VersionRow
      → Action ElementsWalletError (ElementsDb N) (UserElementsWallet S N)
  bind_wallet id user row signers net versions s =
      let latest = last? versions in
      let base = derive_master_blinding_key hashers user row.account_idx in
      let b = binding row base latest in
      (
        ok (loaded_wallet user row signers net (length versions) b),
        heal row latest b (record_initial id row versions s),
      )

  abbrev pub bind_listed :
      ℕ
      → ℕ
      → ElementsWalletRow
      → List S
      → N
      → Action ElementsWalletError (ElementsDb N) (UserElementsWallet S N)
  bind_listed id user row signers net s =
      bind_wallet id user row signers net
        (list_federation_versions_for_elements_wallet row.id s.stacks) s

  unfoldable pub build_user_wallet :
      ℕ → ℕ → ElementsWalletRow → Action ElementsWalletError (ElementsDb N) (UserElementsWallet S N)
  unfolding bind_wallet lwk_network
  build_user_wallet id user row =
      lift (derivation_path_for cfg.bip48_coin_index row.account_idx) >>> λ path.
      lift (signers_for user path) >>> λ signers.
      lwk_network cfg lib >>> λ net. bind_listed id user row signers net

  unfoldable pub load_wallet_from_row :
      ℕ → ElementsWalletRow → Action ElementsWalletError (ElementsDb N) (UserElementsWallet S N)
  unfolding build_user_wallet
  load_wallet_from_row id row = build_user_wallet id row.user_id row

  -- The tables, and the wallets that are loaded.
  pub record Loaded : Type 0 where
    pub db : ElementsDb N
    pub cache : List (ℕ × UserElementsWallet S N)

  unfoldable pub cached : ℕ → List (ℕ × UserElementsWallet S N) → Option (UserElementsWallet S N)
  cached user [] = none
  cached user ((u, uw) ∷ rest) =
      let found = cached user rest in if u == user then some uw else found

  -- `cache.entry(user_id).or_insert(uw)`
  abbrev pub or_insert :
      ℕ
      → UserElementsWallet S N
      → Loaded
      → Option (UserElementsWallet S N)
      → UserElementsWallet S N × Loaded
  or_insert user uw m (some old) = (old, m)
  or_insert user uw m none = (uw, record m { cache = (user, uw) ∷ m.cache })

  abbrev pub keep_in_cache :
      ℕ
      → Loaded
      → Result ElementsWalletError (UserElementsWallet S N) × ElementsDb N
      → Result ElementsWalletError (UserElementsWallet S N) × Loaded
  keep_in_cache user m (err e, s) = (err e, record m { db = s })
  keep_in_cache user m (ok uw, s) =
      let (kept, n) = or_insert user uw (record m { db = s }) (cached user m.cache) in (ok kept, n)

  abbrev pub with_accounts :
      ElementsDb N
      → Result ElementsWalletError (ElementsWalletRow × WalletDb)
      → Result ElementsWalletError ElementsWalletRow × ElementsDb N
  with_accounts s (err e) = (err e, s)
  with_accounts s (ok (row, accounts)) = (ok row, record s { accounts = accounts })

  -- The row that is found, or a new one.
  abbrev pub account_row : ℕ → ℕ → Action ElementsWalletError (ElementsDb N) ElementsWalletRow
  account_row id user s = with_accounts s (
      row_or cfg lib s.accounts (create_wallet_for_user cfg lib id user s.accounts)
        (find_elements_wallet_for_user user s.accounts))

  abbrev pub load_missing :
      ℕ
      → ℕ
      → ℕ
      → Loaded
      → Option (UserElementsWallet S N)
      → Result ElementsWalletError (UserElementsWallet S N) × Loaded
  load_missing id version_id user m (some uw) = (ok uw, m)
  load_missing id version_id user m none =
      keep_in_cache user m
        ((account_row id user >>> λ row. build_user_wallet version_id user row) m.db)

  -- `id` and `version_id` are the ids of the rows that a first load inserts.
  unfoldable pub load_or_init :
      ℕ → ℕ → ℕ → Loaded → Result ElementsWalletError (UserElementsWallet S N) × Loaded
  unfolding build_user_wallet cached create_wallet_for_user
  load_or_init id version_id user m = load_missing id version_id user m (cached user m.cache)
