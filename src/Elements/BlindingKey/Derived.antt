-- ===== src/Elements/BlindingKey/Derived.antt =====
-- The keys that are derived from a wallet's owner and account: `derive_master_blinding_key` of
-- `src/elements_wallet.rs` and `derive_elements_mbk` of `examples/federation_migration.rs`.
pub mod Readable
use test_app_pkcs.Prelude.{
  ℕ, zero, suc, ◌/◌, ◌%◌, Option, none, some, List, [], ◌∷◌, ◌++◌, ltb, if◌then◌else◌,
}

-- `DefaultHasher`, of a user and an account, with a version's number and salt or without, and of a
-- first hash with the label of the key.
pub record Hashers : Type 0 where
  pub account : ℕ → ℕ → Option ℕ → ℕ
  pub labelled : ℕ → ℕ

-- `to_le_bytes` and `to_be_bytes`, of a number of so many bytes
unfoldable pub to_le_bytes : ℕ → ℕ → List ℕ
to_le_bytes zero n = []
to_le_bytes (suc k) n = n % 256 ∷ to_le_bytes k (n / 256)

unfoldable pub to_be_bytes : ℕ → ℕ → List ℕ
to_be_bytes zero n = []
to_be_bytes (suc k) n = to_be_bytes k (n / 256) ++ n % 256 ∷ []

unfoldable pub key_of : ℕ → ℕ → List ℕ
unfolding to_le_bytes to_be_bytes
key_of h1 h2 = to_le_bytes 8 h1 ++ to_le_bytes 8 h2 ++ to_be_bytes 8 h1 ++ to_be_bytes 8 h2

module _ (hashers : Hashers) where
  unfoldable pub derive_master_blinding_key : ℕ → ℕ → List ℕ
  unfolding key_of
  derive_master_blinding_key user account =
      let h1 = hashers.account user account none in key_of h1 (hashers.labelled h1)

  abbrev pub salt : ℕ → Option ℕ
  salt version = if ltb 0 version then some version else none

  unfoldable pub derive_elements_mbk : ℕ → ℕ → ℕ → List ℕ
  unfolding key_of
  derive_elements_mbk user account version =
      let h1 = hashers.account user account (salt version) in key_of h1 (hashers.labelled h1)
