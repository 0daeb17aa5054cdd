-- ===== src/Elements/Manager/Load/Rebound.antt =====
-- Which descriptor and which blinding key a load of an Elements wallet takes, and what a second load
-- of the corrected row takes.
use mathlib.Core.Option.{some-injective}
use text.Mathlib.Text.{◌==◌ as str_eq}
use test_app_pkcs.Prelude.{
  ℕ, String, ◌≡◌, refl, sym, ap, ◌∙◌, Bool, true, false, if◌then◌else◌, Option, none, some, List,
  [], ◌∷◌, find?, find?-holds, Bool-cases, inl, inr, eq_iff, arith, ◌==◌,
}
use test_app_pkcs.Prelude.Result.{Result, ok, err, ok-injective}
use test_app_pkcs.Prelude.Sql.{SqlxError, find?-update_where}
use test_app_pkcs.Prelude.Sort.{last?}
use test_app_pkcs.Prelude.Step.{lift, >>>-eq-ok}
use test_app_pkcs.Db.Wallets.{ElementsWalletRow, rekeyed, update_elements_wallet_descriptor}
use test_app_pkcs.Db.Versions.{
  VersionRow, VersionDb, insert_federation_version, list_federation_versions_for_elements_wallet,
}
use test_app_pkcs.Elements.BlindingKey.Derived.{derive_master_blinding_key}
use test_app_pkcs.Elements.Manager.{
  Settings, Lib, ElementsDb, derivation_path_for, lwk_network, known_network, ask_network,
}
use test_app_pkcs.Elements.Manager.Load.{
  UserElementsWallet, Binding, binding, blinding_hex, version_key, heal, record_initial,
  after_insert, version_zero, bind_wallet, bind_listed, build_user_wallet,
}

abbrev pub with_id : ℕ → ElementsWalletRow → Bool
with_id id r = r.id == id

-- The descriptor of the latest version, or the row's if there is none.
abbrev pub newest : String → Option VersionRow → String
newest desc none = desc
newest desc (some v) = v.descriptor

current-newest :
    (row : ElementsWalletRow) (base : List ℕ) (latest : Option VersionRow)
    → (binding row base latest).current ≡ newest row.descriptor latest
current-newest row base none = refl
current-newest row base (some v) = ground (arith, eq_iff v.descriptor row.descriptor)

module _ {S N B : Type 0} (cfg : Settings) (lib : Lib S N B) where
  abbrev pub latest_of : ℕ → ElementsDb N → Option VersionRow
  latest_of id s = last? (list_federation_versions_for_elements_wallet id s.stacks)

  -- The row of an id, as its descriptor.
  abbrev pub Names : ℕ → String → ElementsDb N → Type 0
  Names id desc s =
      (r : ElementsWalletRow) × (find? (with_id id) s.accounts.elements_wallets ≡ some r)
      × (r.descriptor ≡ desc)

  abbrev SameTables : ElementsDb N → ElementsDb N → Type 0
  SameTables s u =
      (u.accounts ≡ s.accounts) × (u.stacks ≡ s.stacks) × (u.serves_update ≡ s.serves_update)

  known-SameTables :
      (o : Option N) (net : N) (s u : ElementsDb N)
      → known_network cfg lib o s ≡ (ok net, u)
      → SameTables s u
  known-SameTables (some n) net s u e =
      let same = ap (λ p. p.1) e in
      (
        ap (λ x. x.accounts) (sym same),
        ap (λ x. x.stacks) (sym same),
        ap (λ x. x.serves_update) (sym same),
      )
  known-SameTables none net s u e =
      let (n, v, asked, kept) =
        >>>-eq-ok (lift (ask_network cfg lib cfg.elements.elements_network)) _ s u net e in
      let first = ap (λ p. p.1) asked in
      let second = ap (λ p. p.1) kept in
      (
        ap (λ x. x.accounts) (sym second) ∙ ap (λ x. x.accounts) (sym first),
        ap (λ x. x.stacks) (sym second) ∙ ap (λ x. x.stacks) (sym first),
        ap (λ x. x.serves_update) (sym second) ∙ ap (λ x. x.serves_update) (sym first),
      )

  -- What a load is made of.
  record Parts (id user : ℕ) (row : ElementsWalletRow) (s t : ElementsDb N)
      (uw : UserElementsWallet S N) : Type 0 where
    pub signers : List S
    pub net : N
    pub start : ElementsDb N
    pub same : SameTables s start
    pub ran : bind_listed cfg lib id user row signers net start ≡ (ok uw, t)

  build-Parts :
      (id user : ℕ) (row : ElementsWalletRow) (s t : ElementsDb N) (uw : UserElementsWallet S N)
      → build_user_wallet cfg lib id user row s ≡ (ok uw, t)
      → Parts id user row s t uw
  unfolding build_user_wallet lwk_network
  build-Parts id user row s t uw run =
      let (path, s0, e0, r0) =
        >>>-eq-ok (lift (derivation_path_for cfg.bip48_coin_index row.account_idx)) _ s t uw run in
      let (signers, s1, e1, r1) = >>>-eq-ok (lift (lib.signers_for user path)) _ s0 t uw r0 in
      let (net, s2, e2, r2) = >>>-eq-ok (lwk_network cfg lib) _ s1 t uw r1 in
      let s≡s1 : s ≡ s1 = ap (λ p. p.1) e0 ∙ ap (λ p. p.1) e1 in
      let (a, b, c) = known-SameTables s1.lwk_net net s1 s2 e2 in
      record {
        signers = signers;
        net = net;
        start = s2;
        same = (
          a ∙ ap (λ x. x.accounts) (sym s≡s1),
          b ∙ ap (λ x. x.stacks) (sym s≡s1),
          c ∙ ap (λ x. x.serves_update) (sym s≡s1),
        );
        ran = r2;
      }

  after_insert-accounts :
      (s : ElementsDb N) (r : Result SqlxError (VersionRow × VersionDb))
      → (after_insert cfg lib s r).accounts ≡ s.accounts
  after_insert-accounts s (ok p) = refl
  after_insert-accounts s (err e) = refl

  record_initial-accounts :
      (id : ℕ) (row : ElementsWalletRow) (versions : List VersionRow) (s : ElementsDb N)
      → (record_initial cfg lib id row versions s).accounts ≡ s.accounts
  unfolding insert_federation_version
  record_initial-accounts id row [] s =
      after_insert-accounts s (insert_federation_version id (version_zero cfg lib row) s.stacks)
  record_initial-accounts id row (v ∷ vs) s = refl

  after_insert-serves_update :
      (s : ElementsDb N) (r : Result SqlxError (VersionRow × VersionDb))
      → (after_insert cfg lib s r).serves_update ≡ s.serves_update
  after_insert-serves_update s (ok p) = refl
  after_insert-serves_update s (err e) = refl

  record_initial-serves_update :
      (id : ℕ) (row : ElementsWalletRow) (versions : List VersionRow) (s : ElementsDb N)
      → (record_initial cfg lib id row versions s).serves_update ≡ s.serves_update
  unfolding insert_federation_version
  record_initial-serves_update id row [] s =
      after_insert-serves_update s
        (insert_federation_version id (version_zero cfg lib row) s.stacks)
  record_initial-serves_update id row (v ∷ vs) s = refl

  -- The row after the correction.
  abbrev pub healed : ElementsWalletRow → VersionRow → ElementsWalletRow
  healed row v = rekeyed v.descriptor (blinding_hex row (some v)) row

  heal-healed :
      (row : ElementsWalletRow) (base : List ℕ) (v : VersionRow) (s : ElementsDb N)
      → s.serves_update ≡ true
      → str_eq v.descriptor row.descriptor ≡ false
      → find? (with_id row.id) s.accounts.elements_wallets ≡ some row
      → find?
          (with_id row.id)
          (heal cfg lib row (some v) (binding row base (some v)) s).accounts.elements_wallets
        ≡ some (healed row v)
  unfolding update_elements_wallet_descriptor
  heal-healed row base v s served stale found =
      let f = rekeyed v.descriptor (blinding_hex row (some v)) in
      rw (stale, served)
        (find?-update_where (with_id row.id) (with_id row.id) f s.accounts.elements_wallets
            (λ r. refl)
          ∙ rw found (rw (find?-holds (with_id row.id) s.accounts.elements_wallets row found) refl))

  heal-Names :
      (row : ElementsWalletRow) (base : List ℕ) (latest : Option VersionRow) (s : ElementsDb N)
      → find? (with_id row.id) s.accounts.elements_wallets ≡ some row
      → Names row.id
          (if s.serves_update then newest row.descriptor latest else row.descriptor)
          (heal cfg lib row latest (binding row base latest) s)
  heal-Names row base none s found = (row, found, ground arith)
  heal-Names row base (some v) s found = elim (Bool-cases (str_eq v.descriptor row.descriptor)) [
    | inl same ↦ (row, rw same found, ground (arith, eq_iff v.descriptor row.descriptor))
    | inr stale ↦ elim (Bool-cases s.serves_update) [
      | inl served ↦ (healed row v, heal-healed row base v s served stale found, rw served refl)
      | inr lost ↦ (row, rw (stale, lost) found, rw lost refl)
    ]
  ]

  heal-stacks :
      (row : ElementsWalletRow) (latest : Option VersionRow) (b : Binding) (s : ElementsDb N)
      → (heal cfg lib row latest b s).stacks ≡ s.stacks
  heal-stacks row latest b s = ground arith

  record_initial-none :
      (id : ℕ) (row : ElementsWalletRow) (versions : List VersionRow) (v : VersionRow)
      (s : ElementsDb N)
      → last? versions ≡ some v
      → record_initial cfg lib id row versions s ≡ s
  unfolding insert_federation_version
  record_initial-none id row [] v s e = cc
  record_initial-none id row (w ∷ ws) v s e = refl

  -- When build_user_wallet succeeds on a row of the table, the wallet has the descriptor of the
  -- latest recorded version (the row's if there is none). If the server serves the UPDATE, the row
  -- of the table then has it too, whatever it had before, and otherwise it has what it had.
  pub build_elements_wallet_lem :
      (id user : ℕ) (row : ElementsWalletRow) (s t : ElementsDb N) (uw : UserElementsWallet S N)
      → find? (with_id row.id) s.accounts.elements_wallets ≡ some row
      → build_user_wallet cfg lib id user row s ≡ (ok uw, t)
      → (uw.descriptor ≡ newest row.descriptor (latest_of row.id s))
        × Names row.id (if s.serves_update then uw.descriptor else row.descriptor) t
  unfolding bind_wallet
  build_elements_wallet_lem id user row s t uw found run =
      let p = build-Parts id user row s t uw run in
      let versions = list_federation_versions_for_elements_wallet row.id p.start.stacks in
      let base = derive_master_blinding_key lib.hashers user row.account_idx in
      let made = ok-injective _ uw (ap (λ q. q.0) p.ran) in
      let desc = ap (λ w. w.descriptor) (sym made) ∙ current-newest row base (last? versions) in
      let there = record_initial-accounts id row versions p.start ∙ p.same.0 in
      let serves = record_initial-serves_update id row versions p.start ∙ p.same.2 in
      let named =
        heal-Names row base (last? versions) (record_initial cfg lib id row versions p.start)
          (ap (λ a. find? (with_id row.id) a.elements_wallets) there ∙ found) in
      (
        desc
            ∙ ap
                (λ k.
                  newest row.descriptor
                    (last? (list_federation_versions_for_elements_wallet row.id k)))
                p.same.1,
        rw desc (rw (sym (ap (λ q. q.1) p.ran)) (rw (sym serves) named)),
      )

  start-latest :
      (id : ℕ) (v : VersionRow) (s u : ElementsDb N)
      → SameTables s u
      → latest_of id s ≡ some v
      → latest_of id u ≡ some v
  start-latest id v s u same latest =
      ap (λ k. last? (list_federation_versions_for_elements_wallet id k)) same.1 ∙ latest

  -- The key of a load under a latest version whose descriptor the row lacks.
  pub drifted_key :
      (id user : ℕ) (row : ElementsWalletRow) (v : VersionRow) (s t : ElementsDb N)
      (uw : UserElementsWallet S N)
      → latest_of row.id s ≡ some v
      → str_eq v.descriptor row.descriptor ≡ false
      → build_user_wallet cfg lib id user row s ≡ (ok uw, t)
      → uw.mbk ≡ version_key (derive_master_blinding_key lib.hashers user row.account_idx) v
  unfolding bind_wallet
  drifted_key id user row v s t uw latest stale run =
      let p = build-Parts id user row s t uw run in
      let base = derive_master_blinding_key lib.hashers user row.account_idx in
      let newest_one = start-latest row.id v s p.start p.same latest in
      let made = ok-injective _ uw (ap (λ q. q.0) p.ran) in
      ap (λ w. w.mbk) (sym made) ∙ ap (λ o. (binding row base o).key) newest_one ∙ rw stale refl

  -- What it leaves, if the server serves the UPDATE.
  drifted_load :
      (id user : ℕ) (row : ElementsWalletRow) (v : VersionRow) (s t : ElementsDb N)
      (uw : UserElementsWallet S N)
      → find? (with_id row.id) s.accounts.elements_wallets ≡ some row
      → latest_of row.id s ≡ some v
      → s.serves_update ≡ true
      → str_eq v.descriptor row.descriptor ≡ false
      → build_user_wallet cfg lib id user row s ≡ (ok uw, t)
      → (find? (with_id row.id) t.accounts.elements_wallets ≡ some (healed row v))
        × (t.stacks ≡ s.stacks)
  unfolding bind_wallet
  drifted_load id user row v s t uw found latest served stale run =
      let p = build-Parts id user row s t uw run in
      let base = derive_master_blinding_key lib.hashers user row.account_idx in
      let newest_one = start-latest row.id v s p.start p.same latest in
      let versions = list_federation_versions_for_elements_wallet row.id p.start.stacks in
      let kept = record_initial-none id row versions v p.start newest_one in
      let left : t ≡ heal cfg lib row (some v) (binding row base (some v)) p.start =
        ap (λ q. q.1) (sym p.ran)
        ∙ ap
            (λ o.
              heal cfg lib row o (binding row base o)
                (record_initial cfg lib id row versions p.start))
            newest_one
        ∙ ap (heal cfg lib row (some v) (binding row base (some v))) kept in
      (
        ap (λ x. find? (with_id row.id) x.accounts.elements_wallets) left
            ∙ heal-healed row base v p.start (p.same.2 ∙ served) stale
                (ap (λ a. find? (with_id row.id) a.elements_wallets) p.same.0 ∙ found),
        ap (λ x. x.stacks) left
            ∙ heal-stacks row (some v) (binding row base (some v)) p.start
            ∙ p.same.1,
      )

  -- A load under a latest version whose descriptor the row has.
  steady_load :
      (id user : ℕ) (row : ElementsWalletRow) (v : VersionRow) (s t : ElementsDb N)
      (uw : UserElementsWallet S N)
      → latest_of row.id s ≡ some v
      → row.descriptor ≡ v.descriptor
      → build_user_wallet cfg lib id user row s ≡ (ok uw, t)
      → (uw.descriptor ≡ v.descriptor)
        × (uw.mbk ≡ derive_master_blinding_key lib.hashers user row.account_idx)
  unfolding bind_wallet
  steady_load id user row v s t uw latest same run =
      let p = build-Parts id user row s t uw run in
      let base = derive_master_blinding_key lib.hashers user row.account_idx in
      let newest_one = start-latest row.id v s p.start p.same latest in
      let made = ok-injective _ uw (ap (λ q. q.0) p.ran) in
      let key : (binding row base (some v)).key ≡ base =
        ground (arith, eq_iff v.descriptor row.descriptor) in
      (
        ap (λ w. w.descriptor) (sym made)
            ∙ ap (λ o. (binding row base o).current) newest_one
            ∙ current-newest row base (some v),
        ap (λ w. w.mbk) (sym made) ∙ ap (λ o. (binding row base o).key) newest_one ∙ key,
      )

  -- A load that finds the latest version drifted from the row takes that version's blinding key, if
  -- it has one that parses. If the server serves the UPDATE of the row, a second load, of the
  -- corrected row, takes the same descriptor but the key that is derived from user and account,
  -- whatever the version's key is.
  pub build_elements_wallet_again :
      (id again user : ℕ) (row next : ElementsWalletRow) (v : VersionRow) (s t u : ElementsDb N)
      (uw other : UserElementsWallet S N)
      → find? (with_id row.id) s.accounts.elements_wallets ≡ some row
      → latest_of row.id s ≡ some v
      → s.serves_update ≡ true
      → str_eq v.descriptor row.descriptor ≡ false
      → build_user_wallet cfg lib id user row s ≡ (ok uw, t)
      → find? (with_id row.id) t.accounts.elements_wallets ≡ some next
      → build_user_wallet cfg lib again user next t ≡ (ok other, u)
      → let base = derive_master_blinding_key lib.hashers user row.account_idx in
        (uw.descriptor ≡ v.descriptor)
        × (other.descriptor ≡ v.descriptor)
        × (uw.mbk ≡ version_key base v)
        × (other.mbk ≡ base)
  build_elements_wallet_again id again user row next v s t u uw other found latest served stale run
        read more =
      let (first, _) = build_elements_wallet_lem id user row s t uw found run in
      let key = drifted_key id user row v s t uw latest stale run in
      let (there, stacks) = drifted_load id user row v s t uw found latest served stale run in
      let same : healed row v ≡ next = some-injective (healed row v) next (sym there ∙ read) in
      let corrected : build_user_wallet cfg lib again user (healed row v) t ≡ (ok other, u) =
        ap (λ r. build_user_wallet cfg lib again user r t) same ∙ more in
      let second =
        steady_load again user (healed row v) v t u other
          (ap (λ k. last? (list_federation_versions_for_elements_wallet row.id k)) stacks ∙ latest)
          refl corrected in
      (first ∙ ap (newest row.descriptor) latest, second.0, key, second.1)
