-- ===== src/Tests/Migrations.antt =====
-- The Elements half of a migration, for an account with two versions.
use test_app_pkcs.Prelude.{
  true, ℕ, ◌≡◌, refl, String, some, List, [], ◌∷◌, ◌++◌, any, keep, find?, arith,
}
use test_app_pkcs.Prelude.Result.{ok}
use test_app_pkcs.Prelude.Sql.{sort_by, update_where}
use test_app_pkcs.Db.Wallets.{update_elements_wallet_descriptor}
use test_app_pkcs.Db.Versions.{
  VersionDb, of_elements_wallet, insert_federation_version,
  list_federation_versions_for_elements_wallet, set_pending_migration_for_older_elements_versions,
}
use test_app_pkcs.Elements.BlindingKey.{
  from_str_radix, parse_bytes, parse_mbk_hex, decode_bytes, hex_decode_bytes, hex_encode_bytes,
}
use test_app_pkcs.Elements.Manager.{ElementsDb, derivation_path_for, lwk_network, pick, add_signers}
use test_app_pkcs.Elements.Manager.Load.{UserElementsWallet, build_user_wallet, bind_wallet}
use test_app_pkcs.Migration.Elements.{
  NewElementsFederation, position, signer_positions, build_new_elements_federation,
  begin_elements_version,
}
use test_app_pkcs.Migration.Elements.Begin.{added, begin_elements_version_lem}
use test_app_pkcs.Migration.Elements.Loaded.{migrated_load}
use test_app_pkcs.Migration.Stack.{Extended}
use test_app_pkcs.Tests.Clis.{migration}
use test_app_pkcs.Tests.Configs.{config}
use test_app_pkcs.Tests.ElementsWallets.{
  lib, settings, loaded, base, rotated, threes, row, version, stacks, accounts, corrected,
}

abbrev text : List ℕ → String
text cs = threes

abbrev handle : ℕ → ℕ → String
handle account version = "elements"

abbrev federation : NewElementsFederation
federation = record { new_descriptor = "ct"; mbk = rotated; version = 2 }

built :
    build_new_elements_federation settings lib migration config (loaded base) stacks ≡ ok federation
unfolding build_new_elements_federation derivation_path_for position signer_positions pick
    add_signers hex_decode_bytes decode_bytes from_str_radix
    list_federation_versions_for_elements_wallet keep sort_by
built = refl

begin_elements_example :
    (t : VersionDb) × (begin_elements_version settings lib text handle 30 migration
        (loaded base)
        federation
        stacks
      ≡ ok t)
    × Extended
        (of_elements_wallet 10)
        stacks.versions
        (added settings lib text handle 30 migration config (loaded base) federation stacks)
        t.versions
unfolding any keep
begin_elements_example =
    begin_elements_version_lem settings lib text handle 30 migration config (loaded base) federation
      stacks built refl refl refl (omega arith) ((λ e. omega arith), ((λ e. omega arith), tt))

abbrev after : VersionDb
after = record stacks {
  versions =
      stacks.versions
      ++ added settings lib text handle 30 migration config (loaded base) federation stacks ∷ [];
}

begun :
    begin_elements_version settings lib text handle 30 migration (loaded base) federation stacks
    ≡ ok after
unfolding begin_elements_version insert_federation_version
    set_pending_migration_for_older_elements_versions any update_where
begun = refl

abbrev moved : UserElementsWallet ℕ ℕ
moved = record (loaded rotated) { descriptor = "ct"; federation_version_count = 3 }

abbrev done : ElementsDb ℕ
done = record {
  accounts = accounts "ct" threes;
  stacks = after;
  lwk_net = some 1;
  serves_update = true;
}

reloaded :
    build_user_wallet settings lib 31 4 (row "new" threes) (record corrected { stacks = after })
    ≡ (ok moved, done)
unfolding build_user_wallet derivation_path_for lwk_network bind_wallet parse_mbk_hex parse_bytes
    from_str_radix list_federation_versions_for_elements_wallet keep sort_by
    update_elements_wallet_descriptor update_where
reloaded = refl

migrated_load_example : (moved.descriptor ≡ "ct") × (moved.mbk ≡ rotated)
unfolding any keep find? hex_encode_bytes
migrated_load_example =
    migrated_load settings lib text handle 30 31 4 migration config (loaded base) moved federation
      (row "new" threes) corrected done after built refl refl refl (omega arith)
      ((λ e. omega arith), ((λ e. omega arith), tt)) refl refl refl refl begun reloaded
