-- ===== src/Tests/BlindingKeys.antt =====
-- Hex texts of master blinding keys.
use test_app_pkcs.Prelude.{◌≡◌, refl, some}
use test_app_pkcs.Elements.BlindingKey.{from_str_radix}

-- A sign is read as a digit that is not there.
from_str_radix_sign : from_str_radix b'+' b'f' ≡ some 15
unfolding from_str_radix
from_str_radix_sign = refl

from_str_radix_digits : from_str_radix b'f' b'0' ≡ some 240
unfolding from_str_radix
from_str_radix_digits = refl
