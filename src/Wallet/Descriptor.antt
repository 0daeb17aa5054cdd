-- ===== src/Wallet/Descriptor.antt =====
-- What `src/wallet.rs` reads off a descriptor's text: `extract_fingerprints_from_descriptor` and the
-- script type. Texts are lists of code points.
pub mod Fingerprints
use Prim.Native.Char.{code}
use test_app_pkcs.Prelude.{
  ℕ, String, Bool, ◌&&◌, ◌||◌, true, false, Option, some, none, List, [], ◌∷◌, ◌++◌, leb, ◌==◌,
  if◌then◌else◌, length,
}

abbrev pub codes : String → List ℕ
codes String.[] = []
codes (String.◌∷◌ c s) = code c ∷ codes s

-- `char::is_ascii_hexdigit`
abbrev pub is_ascii_hexdigit : ℕ → Bool
is_ascii_hexdigit c =
    (leb b'0' c && leb c b'9') || ((leb b'a' c && leb c b'f') || (leb b'A' c && leb c b'F'))

abbrev pub cons_head : ℕ → List (List ℕ) → List (List ℕ)
cons_head c [] = (c ∷ []) ∷ []
cons_head c (w ∷ ws) = (c ∷ w) ∷ ws

-- `str::split` at a character
unfoldable pub split_on : ℕ → List ℕ → List (List ℕ)
split_on sep [] = [] ∷ []
split_on sep (c ∷ cs) =
    let rest = split_on sep cs in if c == sep then [] ∷ rest else cons_head c rest

unfoldable pub all : (ℕ → Bool) → List ℕ → Bool
all p [] = true
all p (c ∷ cs) = p c && all p cs

abbrev pub skip_one : List (List ℕ) → List (List ℕ)
skip_one [] = []
skip_one (w ∷ ws) = ws

abbrev pub next : List (List ℕ) → List ℕ
next [] = []
next (w ∷ ws) = w

unfoldable pub is_fingerprint : List ℕ → Bool
unfolding all
is_fingerprint fp = length fp == 8 && all is_ascii_hexdigit fp

unfoldable pub fingerprints_of : List (List ℕ) → List (List ℕ)
fingerprints_of [] = []
fingerprints_of (chunk ∷ chunks) =
    let rest = fingerprints_of chunks in
    let fp = next (split_on b'/' chunk) in if is_fingerprint fp then fp ∷ rest else rest

unfoldable pub extract_fingerprints_from_descriptor : List ℕ → List (List ℕ)
extract_fingerprints_from_descriptor descriptor =
    fingerprints_of (skip_one (split_on b'[' descriptor))
