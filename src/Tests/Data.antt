-- ===== src/Tests/Data.antt =====
-- Concrete libraries: hashes print in unary, and secrets are their own JSON.
use mathlib.Core.Option.{some-injective}
use test_app_pkcs.Prelude.{
  ℕ, zero, suc, String, ◌≡◌, refl, ap, Option, none, some, List, [], ◌∷◌, sym,
}
use test_app_pkcs.Chain.{HashText}
use test_app_pkcs.Chain.Utxos.{UtxoLib}

abbrev pub unary : ℕ → String
unary zero = String.[]
unary (suc n) = String.◌∷◌ "i" (unary n)

abbrev pub count : String → ℕ
count String.[] = zero
count (String.◌∷◌ c s) = suc (count s)

pub count-unary : (n : ℕ) → count (unary n) ≡ n
count-unary zero = refl
count-unary (suc n) = ap suc (count-unary n)

abbrev pub hashes : HashText
hashes = record {
  to_string = unary;
  from_str = λ s. some (count s);
  from_str-to_string = λ h. ap some (count-unary h);
}

abbrev pub first : List ℕ → Option ℕ
first [] = none
first (x ∷ xs) = some x

abbrev pub utxo_lib : UtxoLib
utxo_lib = record {
  txids = hashes;
  serialize = λ o. o ∷ [];
  deserialize = first;
  to_json = λ s. some (unary s);
  from_json = λ j. some (count j);
  asset = λ s. 7;
  asset_to_string = unary;
  value = λ s. s;
  script_pubkey = λ o. o;
  deserialize-serialize = λ o. refl;
  from_json-to_json = λ s j e. rw (sym (some-injective (unary s) j e)) (ap some (count-unary s));
}
