-- ===== src/Elements/BlindingKey/RoundTrip.antt =====
-- The texts that the migration tool stores, as the tool and the app read them.
use test_app_pkcs.Prelude.{
  ℕ, ◌*◌, ◌/◌, ◌%◌, ◌<◌, ◌≡◌, refl, ap, sym, false, some, List, [], ◌∷◌, All, length, arith, ◌==◌,
}
use test_app_pkcs.Elements.BlindingKey.{
  hex_char, hex_encode_bytes, to_digit, from_str_radix, parse_bytes, parse_mbk_hex, parse_mbk,
  decode_bytes, hex_decode_bytes,
}

abbrev pub IsByte : ℕ → Type 0
IsByte b = b < 256

to_digit-hex_char : (d : ℕ) → d < 16 → to_digit (hex_char d) ≡ some d
to_digit-hex_char d h = ground arith

from_str_radix-hex_char :
    (b : ℕ) → b < 256 → from_str_radix (hex_char (b / 16)) (hex_char (b % 16)) ≡ some b
unfolding from_str_radix
from_str_radix-hex_char b h =
    let e : (hex_char (b / 16) == 43) ≡ false = ground arith in
    rw (e, to_digit-hex_char (b / 16) (omega arith), to_digit-hex_char (b % 16) (omega arith))
      (ap some (omega arith))

length-hex_encode_bytes : (bytes : List ℕ) → length (hex_encode_bytes bytes) ≡ 2 * length bytes
unfolding hex_encode_bytes
length-hex_encode_bytes [] = refl
length-hex_encode_bytes (b ∷ bytes) = omega (arith, length-hex_encode_bytes bytes)

parse_bytes-hex_encode_bytes :
    (bytes : List ℕ)
    → All IsByte bytes
    → parse_bytes (length bytes) (hex_encode_bytes bytes) ≡ some bytes
unfolding parse_bytes hex_encode_bytes
parse_bytes-hex_encode_bytes [] all = refl
parse_bytes-hex_encode_bytes (b ∷ bytes) all =
    rw (from_str_radix-hex_char b all.0, parse_bytes-hex_encode_bytes bytes all.1) refl

decode_bytes-hex_encode_bytes :
    (bytes : List ℕ)
    → All IsByte bytes
    → decode_bytes (length bytes) (hex_encode_bytes bytes) ≡ bytes
unfolding decode_bytes hex_encode_bytes
decode_bytes-hex_encode_bytes [] all = refl
decode_bytes-hex_encode_bytes (b ∷ bytes) all =
    rw (from_str_radix-hex_char b all.0, decode_bytes-hex_encode_bytes bytes all.1) refl

-- A key of 32 bytes that the migration tool wrote is read back, as it was, by the wallet, by the
-- ingestion and by the tool.
pub parse_mbk_hex-hex_encode_bytes :
    (key : List ℕ)
    → length key ≡ 32
    → All IsByte key
    → (parse_mbk_hex (hex_encode_bytes key) ≡ some key)
      × (parse_mbk (hex_encode_bytes key) ≡ some key)
      × (hex_decode_bytes (hex_encode_bytes key) ≡ key)
unfolding parse_mbk_hex parse_mbk hex_decode_bytes
parse_mbk_hex-hex_encode_bytes key n all =
    let size : length (hex_encode_bytes key) ≡ 64 = omega (arith, length-hex_encode_bytes key) in
    let parsed : parse_bytes 32 (hex_encode_bytes key) ≡ some key =
      rw (sym n) (parse_bytes-hex_encode_bytes key all) in
    (rw size parsed, rw size parsed, rw (sym n) (decode_bytes-hex_encode_bytes key all))
