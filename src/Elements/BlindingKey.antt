-- ===== src/Elements/BlindingKey.antt =====
-- The hex texts of master blinding keys: `hex_encode_bytes` and `hex_decode_bytes` of
-- `examples/federation_migration.rs`, `parse_mbk_hex` of `src/elements_wallet.rs` and `parse_mbk` of
-- `src/elements_ingest.rs`. A text is its bytes; `hex_decode_bytes` is modelled on ASCII texts, since
-- it panics where a slice splits a character.
pub mod RoundTrip
pub mod Derived
use test_app_pkcs.Prelude.{
  ℕ, zero, suc, ◌+◌, ◌-◌, ◌*◌, ◌/◌, ◌%◌, Bool, ◌&&◌, not, Option, none, some, List, [], ◌∷◌, ltb,
  leb, ◌==◌, if◌then◌else◌, length,
}

-- `{d:x}` of a digit
abbrev pub hex_char : ℕ → ℕ
hex_char d = if ltb d 10 then 48 + d else 87 + d

-- `{b:02x}` of each byte
unfoldable pub hex_encode_bytes : List ℕ → List ℕ
hex_encode_bytes [] = []
hex_encode_bytes (b ∷ bytes) = hex_char (b / 16) ∷ hex_char (b % 16) ∷ hex_encode_bytes bytes

-- `char::to_digit(16)`
abbrev pub to_digit : ℕ → Option ℕ
to_digit c =
    if leb 48 c && leb c 57
    then some (c - 48)
    else if leb 97 c && leb c 102
    then some (c - 87)
    else if leb 65 c && leb c 70
    then some (c - 55)
    else none

abbrev pub two_digits : Option ℕ → Option ℕ → Option ℕ
two_digits none low = none
two_digits (some h) none = none
two_digits (some h) (some l) = some (16 * h + l)

-- `u8::from_str_radix` of a text of two bytes: a sign `+` may stand before the digits.
unfoldable pub from_str_radix : ℕ → ℕ → Option ℕ
from_str_radix x y = if x == 43 then to_digit y else two_digits (to_digit x) (to_digit y)

abbrev pub cons_byte : Option ℕ → Option (List ℕ) → Option (List ℕ)
cons_byte none rest = none
cons_byte (some b) none = none
cons_byte (some b) (some bytes) = some (b ∷ bytes)

-- The loop over the `n` bytes of `out`, which ends where `get` finds no two bytes.
unfoldable pub parse_bytes : ℕ → List ℕ → Option (List ℕ)
parse_bytes zero s = some []
parse_bytes (suc n) [] = none
parse_bytes (suc n) (x ∷ []) = none
parse_bytes (suc n) (x ∷ y ∷ s) = cons_byte (from_str_radix x y) (parse_bytes n s)

unfoldable pub parse_mbk_hex : List ℕ → Option (List ℕ)
unfolding parse_bytes
parse_mbk_hex s = if not (length s == 64) then none else parse_bytes 32 s

unfoldable pub parse_mbk : List ℕ → Option (List ℕ)
unfolding parse_bytes
parse_mbk hex = if not (length hex == 64) then none else parse_bytes 32 hex

abbrev pub or_zero : Option ℕ → ℕ
or_zero none = 0
or_zero (some b) = b

-- The same loop, in which a byte that is missing or no hex stays 0.
unfoldable pub decode_bytes : ℕ → List ℕ → List ℕ
decode_bytes zero s = []
decode_bytes (suc n) [] = 0 ∷ decode_bytes n []
decode_bytes (suc n) (x ∷ []) = 0 ∷ decode_bytes n []
decode_bytes (suc n) (x ∷ y ∷ s) = or_zero (from_str_radix x y) ∷ decode_bytes n s

unfoldable pub hex_decode_bytes : List ℕ → List ℕ
unfolding decode_bytes
hex_decode_bytes s = decode_bytes 32 s
