-- ===== src/Migration/Elements/Loaded.antt =====
-- The load of an Elements wallet that follows Step 1 of a migration.
use text.Mathlib.Text.{◌==◌ as str_eq}
use test_app_pkcs.Prelude.{
  ℕ, zero, suc, ◌<◌, ◌^◌, ◌≡◌, refl, sym, ap, ◌∙◌, false, true, String, Option, some, none, List,
  [], ◌∷◌, arith, any, keep, find?, length, ◌==◌, Bool-cases, inl, inr,
}
use test_app_pkcs.Prelude.Result.{ok, ok-injective}
use test_app_pkcs.Prelude.Sort.{last?}
use test_app_pkcs.Config.{AppConfig}
use test_app_pkcs.Db.Wallets.{ElementsWalletRow}
use test_app_pkcs.Db.Versions.{
  VersionRow, VersionDb, of_elements_wallet, list_federation_versions_for_elements_wallet,
}
use test_app_pkcs.Wallet.Descriptor.{codes}
use test_app_pkcs.Elements.BlindingKey.{
  to_digit, two_digits, from_str_radix, or_zero, decode_bytes, hex_decode_bytes, hex_encode_bytes,
  parse_mbk_hex,
}
use test_app_pkcs.Elements.BlindingKey.RoundTrip.{parse_mbk_hex-hex_encode_bytes}
use test_app_pkcs.Elements.BlindingKey.Derived.{Hashers, derive_elements_mbk, salt}
use test_app_pkcs.Elements.BlindingKey.Derived.Readable.{AreBytes, key_of-AreBytes}
use test_app_pkcs.Elements.Manager.{Settings, Lib, ElementsDb}
use test_app_pkcs.Elements.Manager.Load.{UserElementsWallet, build_user_wallet}
use test_app_pkcs.Elements.Manager.Load.Rebound.{
  with_id, latest_of, newest, drifted_key, build_elements_wallet_lem,
}
use test_app_pkcs.Migration.{i32_or_zero}
use test_app_pkcs.Migration.Cli.{MigrationConfig}
use test_app_pkcs.Migration.Stack.{IsStack}
use test_app_pkcs.Migration.Elements.{
  NewElementsFederation, decoded_or, inherited_key, new_key, build_new_elements_federation,
  begin_elements_version,
}
use test_app_pkcs.Migration.Elements.Begin.{added, built-parts, begin_elements_version_lem}

to_digit-lt : (c : ℕ) → or_zero (to_digit c) < 16
to_digit-lt c = ground arith

two_digits-lt : (h l : Option ℕ) → or_zero h < 16 → or_zero l < 16 → or_zero (two_digits h l) < 256
two_digits-lt none l a b = omega arith
two_digits-lt (some h) none a b = omega arith
two_digits-lt (some h) (some l) a b = omega arith

from_str_radix-lt : (x y : ℕ) → or_zero (from_str_radix x y) < 256
unfolding from_str_radix
from_str_radix-lt x y = elim (Bool-cases (x == 43)) [
  | inl sign ↦ rw sign (omega (arith, to_digit-lt y))
  | inr digit ↦ rw digit (two_digits-lt (to_digit x) (to_digit y) (to_digit-lt x) (to_digit-lt y))
]

decode_bytes-AreBytes : (n : ℕ) (s : List ℕ) → AreBytes n (decode_bytes n s)
unfolding decode_bytes
decode_bytes-AreBytes zero s = (refl, tt)
decode_bytes-AreBytes (suc n) [] =
    let (size, rest) = decode_bytes-AreBytes n [] in (omega arith, (omega arith, rest))
decode_bytes-AreBytes (suc n) (x ∷ []) =
    let (size, rest) = decode_bytes-AreBytes n [] in (omega arith, (omega arith, rest))
decode_bytes-AreBytes (suc n) (x ∷ y ∷ s) =
    let (size, rest) = decode_bytes-AreBytes n s in (omega arith, (from_str_radix-lt x y, rest))

module _ (hashers : Hashers) (user account : ℕ) where
  derived-AreBytes : (version : ℕ) → AreBytes 32 (derive_elements_mbk hashers user account version)
  unfolding derive_elements_mbk
  derived-AreBytes version =
      let h1 = hashers.account user account (salt hashers version) in
      key_of-AreBytes h1 (hashers.labelled h1)

  decoded-AreBytes : (hex : Option String) → AreBytes 32 (decoded_or hashers user account 0 hex)
  unfolding hex_decode_bytes derive_elements_mbk
  decoded-AreBytes none = derived-AreBytes 0
  decoded-AreBytes (some hex) = decode_bytes-AreBytes 32 (codes hex)

  inherited-AreBytes :
      (latest : Option VersionRow) → AreBytes 32 (inherited_key hashers user account latest)
  unfolding hex_decode_bytes derive_elements_mbk
  inherited-AreBytes none = derived-AreBytes 0
  inherited-AreBytes (some v) = decoded-AreBytes v.blinding_key

module _ {S N B : Type 0} (cfg : Settings) (lib : Lib S N B) where
  new_key-AreBytes :
      (mcfg : MigrationConfig) (uw : UserElementsWallet S N) (versions : List VersionRow)
      → AreBytes 32 (new_key cfg lib mcfg uw versions)
  unfolding derive_elements_mbk hex_decode_bytes
  new_key-AreBytes mcfg uw versions = elim (Bool-cases mcfg.rotate_blinding_key) [
    | inl rotate ↦
        rw rotate
          (derived-AreBytes lib.hashers uw.user_id uw.account_idx (i32_or_zero (length versions)))
    | inr carry ↦
        rw carry (inherited-AreBytes lib.hashers uw.user_id uw.account_idx (last? versions))
  ]

  -- The first load after Step 1 of a migration has the descriptor and the blinding key of the
  -- federation that Step 1 built, rotated or carried over, if the row of the wallet still names
  -- another descriptor. Conditions: those of Step 1's success, and that the text of the key's hex
  -- digits has these digits.
  pub migrated_load :
      (text : List ℕ → String) (handle : ℕ → ℕ → String) (id again user : ℕ)
      (mcfg : MigrationConfig) (app : AppConfig) (uw new : UserElementsWallet S N)
      (f : NewElementsFederation) (row : ElementsWalletRow) (s t : ElementsDb N) (after : VersionDb)
      → build_new_elements_federation cfg lib mcfg app uw s.stacks ≡ ok f
      → (i32_or_zero mcfg.threshold == 0) ≡ false
      → (i32_or_zero (length mcfg.signers) == 0) ≡ false
      → any (λ x. x == uw.wallet_id) s.stacks.elements_wallets ≡ true
      → length (keep (of_elements_wallet uw.wallet_id) s.stacks.versions) < 2 ^ 31
      → IsStack (of_elements_wallet uw.wallet_id) s.stacks.versions
      → codes (text (hex_encode_bytes f.mbk)) ≡ hex_encode_bytes f.mbk
      → find? (with_id row.id) s.accounts.elements_wallets ≡ some row
      → row.id ≡ uw.wallet_id
      → str_eq f.new_descriptor row.descriptor ≡ false
      → begin_elements_version cfg lib text handle id mcfg uw f s.stacks ≡ ok after
      → build_user_wallet cfg lib again user row (record s { stacks = after }) ≡ (ok new, t)
      → (new.descriptor ≡ f.new_descriptor) × (new.mbk ≡ f.mbk)
  unfolding list_federation_versions_for_elements_wallet
  migrated_load text handle id again user mcfg app uw new f row s t after made th sg known small
        stack digits found own stale stepped ran =
      let (end, began, ext) =
        begin_elements_version_lem cfg lib text handle id mcfg app uw f s.stacks made th sg known
          small stack in
      let v = added cfg lib text handle id mcfg app uw f s.stacks in
      let same : end ≡ after = ok-injective end after (sym began ∙ stepped) in
      let start = record s { stacks = after } in
      let latest : latest_of cfg lib row.id start ≡ some v =
        ap (λ w. latest_of cfg lib w start) own
        ∙ ap (λ k. last? (list_federation_versions_for_elements_wallet uw.wallet_id k)) (sym same)
        ∙ ext.1 in
      let (size, bytes) : AreBytes 32 f.mbk =
        rw (built-parts cfg lib mcfg app uw s.stacks f made).0 (
          new_key-AreBytes mcfg uw
            (list_federation_versions_for_elements_wallet uw.wallet_id s.stacks)) in
      let parsed : parse_mbk_hex (codes (text (hex_encode_bytes f.mbk))) ≡ some f.mbk =
        rw digits (parse_mbk_hex-hex_encode_bytes f.mbk size bytes).0 in
      let key = drifted_key cfg lib again user row v start t new latest stale ran in
      let (desc, _) = build_elements_wallet_lem cfg lib again user row start t new found ran in
      (desc ∙ ap (newest row.descriptor) latest, key ∙ rw parsed refl)
