-- ===== src/Wallet/Descriptor/Fingerprints.antt =====
-- The key origins of a descriptor, and what is read of them.
use test_app_pkcs.Prelude.{ℕ, ◌≡◌, refl, true, false, List, [], ◌∷◌, ◌++◌, ◌==◌, arith, map, All}
use test_app_pkcs.Wallet.Descriptor.{
  is_ascii_hexdigit, split_on, all, next, is_fingerprint, fingerprints_of,
  extract_fingerprints_from_descriptor,
}

abbrev pub IsFree : ℕ → List ℕ → Type 0
IsFree sep text = All (λ c. (c == sep) ≡ false) text

split-free : (sep : ℕ) (text : List ℕ) → IsFree sep text → split_on sep text ≡ text ∷ []
unfolding split_on
split-free sep [] h = refl
split-free sep (c ∷ cs) h = rw (h.0, split-free sep cs h.1)

split-append :
    (sep : ℕ) (text more : List ℕ)
    → IsFree sep text
    → split_on sep (text ++ sep ∷ more) ≡ text ∷ split_on sep more
unfolding split_on
split-append sep [] more h = ground arith
split-append sep (c ∷ cs) more h = rw (h.0, split-append sep cs more h.1)

-- A key of a descriptor: the fingerprint of its origin, and the text from the first `/` on.
abbrev pub Key : Type 0
Key = List ℕ × List ℕ

abbrev pub print_key : Key → List ℕ
print_key (fp, rest) = fp ++ b'/' ∷ rest

abbrev pub print : List ℕ → List Key → List ℕ
print before [] = before
print before (k ∷ ks) = before ++ b'[' ∷ print (print_key k) ks

abbrev pub IsKey : Key → Type 0
IsKey (fp, rest) = (is_fingerprint fp ≡ true) × IsFree b'[' rest

hex-IsFree :
    (sep : ℕ) (fp : List ℕ)
    → ((c : ℕ) → is_ascii_hexdigit c ≡ true → (c == sep) ≡ false)
    → all is_ascii_hexdigit fp ≡ true
    → IsFree sep fp
unfolding all
hex-IsFree sep [] h e = tt
hex-IsFree sep (c ∷ cs) h e = (h c (ground arith), hex-IsFree sep cs h (ground arith))

fingerprint-hex : (fp : List ℕ) → is_fingerprint fp ≡ true → all is_ascii_hexdigit fp ≡ true
unfolding is_fingerprint
fingerprint-hex fp e = ground arith

append-IsFree : (sep : ℕ) (xs ys : List ℕ) → IsFree sep xs → IsFree sep ys → IsFree sep (xs ++ ys)
append-IsFree sep [] ys h k = k
append-IsFree sep (x ∷ xs) ys h k = (h.0, append-IsFree sep xs ys h.1 k)

print_key-IsFree : (k : Key) → IsKey k → IsFree b'[' (print_key k)
print_key-IsFree (fp, rest) (f, r) =
    append-IsFree b'[' fp (b'/' ∷ rest)
      (hex-IsFree b'[' fp (λ c e. ground arith) (fingerprint-hex fp f)) (refl, r)

next-key : (k : Key) → IsKey k → next (split_on b'/' (print_key k)) ≡ k.0
next-key (fp, rest) (f, r) =
    rw (split-append b'/' fp rest (hex-IsFree b'/' fp (λ c e. ground arith) (fingerprint-hex fp f)))

split-print :
    (before : List ℕ) (ks : List Key)
    → IsFree b'[' before
    → All IsKey ks
    → split_on b'[' (print before ks) ≡ before ∷ map print_key ks
split-print before [] h a = split-free b'[' before h
split-print before (k ∷ ks) h a = rw (
  split-append b'[' before (print (print_key k) ks) h,
  split-print (print_key k) ks (print_key-IsFree k a.0) a.1,
)

fingerprints-keys :
    (ks : List Key) → All IsKey ks → fingerprints_of (map print_key ks) ≡ map (λ k. k.0) ks
unfolding fingerprints_of
fingerprints-keys [] a = refl
fingerprints-keys (k ∷ ks) a = rw (next-key k a.0, (a.0).0, fingerprints-keys ks a.1)

-- A descriptor that has keys with an origin `[fingerprint/…` of 8 hex digits, and no other `[`,
-- yields exactly the keys' fingerprints, in order.
pub extract_fingerprints-print :
    (before : List ℕ) (ks : List Key)
    → IsFree b'[' before
    → All IsKey ks
    → extract_fingerprints_from_descriptor (print before ks) ≡ map (λ k. k.0) ks
unfolding extract_fingerprints_from_descriptor
extract_fingerprints-print before ks h a = rw (split-print before ks h a) (fingerprints-keys ks a)
