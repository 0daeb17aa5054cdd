-- ===== src/Elements/BlindingKey/Derived/Readable.antt =====
-- The bytes and the text of a derived key.
use test_app_pkcs.Prelude.{
  ℕ, zero, suc, ◌+◌, ◌/◌, ◌%◌, ◌≡◌, refl, some, List, [], ◌∷◌, ◌++◌, All, length, arith,
}
use test_app_pkcs.Elements.BlindingKey.{hex_encode_bytes, parse_mbk_hex, parse_mbk}
use test_app_pkcs.Elements.BlindingKey.RoundTrip.{IsByte, parse_mbk_hex-hex_encode_bytes}
use test_app_pkcs.Elements.BlindingKey.Derived.{
  Hashers, to_le_bytes, to_be_bytes, key_of, derive_master_blinding_key, derive_elements_mbk, salt,
}

-- So many bytes.
abbrev pub AreBytes : ℕ → List ℕ → Type 0
AreBytes n bytes = (length bytes ≡ n) × All IsByte bytes

++-AreBytes :
    (m n : ℕ) (xs ys : List ℕ) → AreBytes m xs → AreBytes n ys → AreBytes (m + n) (xs ++ ys)
++-AreBytes m n [] ys (l, xs_ok) (k, ys_ok) = (omega arith, ys_ok)
++-AreBytes zero n (x ∷ xs) ys (l, xs_ok) (k, ys_ok) = absurd (omega arith)
++-AreBytes (suc m) n (x ∷ xs) ys (l, xs_ok) (k, ys_ok) =
    let (size, rest) = ++-AreBytes m n xs ys (omega arith, xs_ok.1) (k, ys_ok) in
    (omega arith, (xs_ok.0, rest))

to_le_bytes-AreBytes : (k n : ℕ) → AreBytes k (to_le_bytes k n)
unfolding to_le_bytes
to_le_bytes-AreBytes zero n = (refl, tt)
to_le_bytes-AreBytes (suc k) n =
    let (size, rest) = to_le_bytes-AreBytes k (n / 256) in (omega arith, (omega arith, rest))

to_be_bytes-AreBytes : (k n : ℕ) → AreBytes k (to_be_bytes k n)
unfolding to_be_bytes
to_be_bytes-AreBytes zero n = (refl, tt)
to_be_bytes-AreBytes (suc k) n =
    let (size, rest) =
      ++-AreBytes k 1 (to_be_bytes k (n / 256)) (n % 256 ∷ []) (to_be_bytes-AreBytes k (n / 256))
        (refl, (omega arith, tt)) in
    (omega arith, rest)

pub key_of-AreBytes : (h1 h2 : ℕ) → AreBytes 32 (key_of h1 h2)
unfolding key_of
key_of-AreBytes h1 h2 =
    ++-AreBytes 8 24 (to_le_bytes 8 h1) (to_le_bytes 8 h2 ++ to_be_bytes 8 h1 ++ to_be_bytes 8 h2)
      (to_le_bytes-AreBytes 8 h1)
      (++-AreBytes 8 16 (to_le_bytes 8 h2) (to_be_bytes 8 h1 ++ to_be_bytes 8 h2)
        (to_le_bytes-AreBytes 8 h2)
        (++-AreBytes 8 8 (to_be_bytes 8 h1) (to_be_bytes 8 h2) (to_be_bytes-AreBytes 8 h1)
          (to_be_bytes-AreBytes 8 h2)))

-- The key that the migration tool derives for a version is read back from its hex text by the wallet
-- and by the ingestion, and for version 0 it is the key that the wallet derives for itself.
pub derive_elements_mbk_lem :
    (hashers : Hashers) (user account version : ℕ)
    → let key = derive_elements_mbk hashers user account version in
      (parse_mbk_hex (hex_encode_bytes key) ≡ some key)
      × (parse_mbk (hex_encode_bytes key) ≡ some key)
      × (derive_elements_mbk hashers user account 0
          ≡ derive_master_blinding_key hashers user account)
unfolding derive_elements_mbk derive_master_blinding_key
derive_elements_mbk_lem hashers user account version =
    let h1 = hashers.account user account (salt hashers version) in
    let (size, bytes) = key_of-AreBytes h1 (hashers.labelled h1) in
    let (wallet, ingest, tool) =
      parse_mbk_hex-hex_encode_bytes (key_of h1 (hashers.labelled h1)) size bytes in
    (wallet, ingest, refl)
