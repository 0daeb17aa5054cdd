-- ===== src/Hsm.antt =====
-- The HSM fleet (`src/hsm.rs`): the cache of signer sets, and the derivation of a set over the
-- tokens. `T` is a token's settings, `S` a signer, `K` the keys that the tokens hold; sessions and
-- keys are the PKCS#11 library's.
pub mod Cache
use test_app_pkcs.Prelude.{
  ℕ, Bool, true, false, Option, none, some, List, [], ◌∷◌, ◌++◌, not, keep, ◌==◌, if◌then◌else◌,
}
use test_app_pkcs.Prelude.Result.{Result, ok, err}

pub data Pkcs11Error : Type 0 where
  object_not_found other : Pkcs11Error

-- What `src/hsm.rs` calls on a token for the label of a signer.
pub record Pkcs11 (T S K : Type 0) : Type 0 where
  pub open_session : T → K → Result Pkcs11Error (Unit {0})
  pub load : T → ℕ → List ℕ → K → Result Pkcs11Error S
  pub derive_from_seed : T → ℕ → List ℕ → K → Result Pkcs11Error S × K
  pub delete_key : T → ℕ → K → Result Pkcs11Error (Unit {0}) × K

pub record Fleet (T S K : Type 0) : Type 0 where
  pub tokens : List T
  pub keys : K
  pub cache : List (ℕ × List S)

module _ {T S K : Type 0} (lib : Pkcs11 T S K) where
  open lib use {open_session, load, derive_from_seed, delete_key}

  abbrev pub derived_after_open :
      T → ℕ → List ℕ → K → Result Pkcs11Error (Unit {0}) → Result Pkcs11Error S × K
  derived_after_open t label path k (err e) = (err e, k)
  derived_after_open t label path k (ok u) = derive_from_seed t label path k

  -- A key that is not found is derived in a second session.
  abbrev pub or_derived : T → ℕ → List ℕ → K → Result Pkcs11Error S → Result Pkcs11Error S × K
  or_derived t label path k (ok s) = (ok s, k)
  or_derived t label path k (err object_not_found) =
      derived_after_open t label path k (open_session t k)
  or_derived t label path k (err other) = (err other, k)

  abbrev pub loaded_after_open :
      T → ℕ → List ℕ → K → Result Pkcs11Error (Unit {0}) → Result Pkcs11Error S × K
  loaded_after_open t label path k (err e) = (err e, k)
  loaded_after_open t label path k (ok u) = or_derived t label path k (load t label path k)

  abbrev pub signer_of : T → ℕ → List ℕ → K → Result Pkcs11Error S × K
  signer_of t label path k = loaded_after_open t label path k (open_session t k)

  abbrev pub cons_signer : S → Result Pkcs11Error (List S) × K → Result Pkcs11Error (List S) × K
  cons_signer s (ok ss, k) = (ok (s ∷ ss), k)
  cons_signer s (err e, k) = (err e, k)

  abbrev pub then_rest :
      Result Pkcs11Error S × K
      → (K → Result Pkcs11Error (List S) × K)
      → Result Pkcs11Error (List S) × K
  then_rest (ok s, k) rest = cons_signer s (rest k)
  then_rest (err e, k) rest = (err e, k)

  unfoldable pub derive_signers : List T → ℕ → List ℕ → K → Result Pkcs11Error (List S) × K
  derive_signers [] label path k = (ok [], k)
  derive_signers (t ∷ ts) label path k =
      then_rest (signer_of t label path k) (derive_signers ts label path)

  unfoldable pub cached : ℕ → List (ℕ × List S) → Option (List S)
  cached id [] = none
  cached id ((i, set) ∷ rest) = let found = cached id rest in if i == id then some set else found

  -- `cache.entry(signer_id).or_insert(arc)`
  abbrev pub or_insert :
      ℕ → List S → Fleet T S K → Option (List S) → Result Pkcs11Error (List S) × Fleet T S K
  or_insert id set f (some old) = (ok old, f)
  or_insert id set f none = (ok set, record f { cache = (id, set) ∷ f.cache })

  abbrev pub after_derive :
      ℕ → Fleet T S K → Result Pkcs11Error (List S) × K → Result Pkcs11Error (List S) × Fleet T S K
  after_derive id f (err e, k) = (err e, record f { keys = k })
  after_derive id f (ok set, k) = or_insert id set (record f { keys = k }) (cached id f.cache)

  abbrev pub signers_or :
      ℕ → List ℕ → Fleet T S K → Option (List S) → Result Pkcs11Error (List S) × Fleet T S K
  signers_or id path f (some set) = (ok set, f)
  signers_or id path f none = after_derive id f (derive_signers f.tokens id path f.keys)

  -- The label of a signer is its id.
  unfoldable pub signers_for : ℕ → List ℕ → Fleet T S K → Result Pkcs11Error (List S) × Fleet T S K
  unfolding derive_signers cached
  signers_for id path f = signers_or id path f (cached id f.cache)

  unfoldable pub evict : ℕ → Fleet T S K → Fleet T S K
  evict id f = record f { cache = keep (λ e. not (e.0 == id)) f.cache }

  abbrev pub deleted_after_open :
      T → ℕ → K → Result Pkcs11Error (Unit {0}) → Result Pkcs11Error (Unit {0}) × K
  deleted_after_open t label k (err e) = (err e, k)
  deleted_after_open t label k (ok u) = delete_key t label k

  abbrev pub then_delete :
      Result Pkcs11Error (Unit {0}) × K
      → (K → Result Pkcs11Error (Unit {0}) × K)
      → Result Pkcs11Error (Unit {0}) × K
  then_delete (ok u, k) rest = rest k
  then_delete (err e, k) rest = (err e, k)

  unfoldable pub delete_key_objects : List T → ℕ → K → Result Pkcs11Error (Unit {0}) × K
  delete_key_objects [] label k = (ok tt, k)
  delete_key_objects (t ∷ ts) label k =
      then_delete (deleted_after_open t label k (open_session t k)) (delete_key_objects ts label)

  abbrev pub after_delete :
      ℕ
      → Fleet T S K
      → Result Pkcs11Error (Unit {0}) × K
      → Result Pkcs11Error (Unit {0}) × Fleet T S K
  after_delete id f (err e, k) = (err e, record f { keys = k })
  after_delete id f (ok u, k) = (ok tt, evict id (record f { keys = k }))

  unfoldable pub delete_keys : ℕ → Fleet T S K → Result Pkcs11Error (Unit {0}) × Fleet T S K
  unfolding delete_key_objects evict
  delete_keys id f = after_delete id f (delete_key_objects f.tokens id f.keys)
