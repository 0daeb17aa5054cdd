-- ===== src/Hsm/Cache.antt =====
-- What the cache answers.
use test_app_pkcs.Prelude.{
  ℕ, ◌≡◌, refl, not, none, some, List, [], ◌∷◌, keep, ◌==◌, arith, Option-cases, inl, inr, ap, sym,
  ◌∙◌, ==_self,
}
use test_app_pkcs.Prelude.Result.{Result, ok, err, ok-injective}
use test_app_pkcs.Hsm.{
  Pkcs11Error, Pkcs11, Fleet, derive_signers, cached, signers_or, signers_for, evict, delete_keys,
  after_derive, or_insert, after_delete, delete_key_objects,
}

module _ {T S K : Type 0} (lib : Pkcs11 T S K) where
  cached-cons :
      (id : ℕ) (set : List S) (c : List (ℕ × List S)) → cached lib id ((id, set) ∷ c) ≡ some set
  unfolding cached
  cached-cons id set c = rw (==_self id) refl

  after_derive-cached :
      (id : ℕ) (f g : Fleet T S K) (set : List S) (out : Result Pkcs11Error (List S) × K)
      → cached lib id f.cache ≡ none
      → after_derive lib id f out ≡ (ok set, g)
      → cached lib id g.cache ≡ some set
  after_derive-cached id f g set (err e, k) miss run =
      let bad : ◌≡◌ {A = Result Pkcs11Error (List S)} (err e) (ok set) = ap (λ p. p.0) run in
      let no : ⊥ = cc in absurd no
  after_derive-cached id f g set (ok made, k) miss run =
      let ran = ap (or_insert lib id made (record f { keys = k })) (sym miss) ∙ run in
      let it : made ≡ set = ok-injective made set (ap (λ p. p.0) ran) in
      ap (λ p. cached lib id (p.1).cache) (sym ran) ∙ cached-cons id made f.cache ∙ ap some it

  -- After a call that returns a set, every call for that signer returns the same set and changes
  -- nothing, whatever derivation path it asks for, until the signer is evicted.
  pub signers_for-again :
      (id : ℕ) (path other : List ℕ) (f g : Fleet T S K) (set : List S)
      → signers_for lib id path f ≡ (ok set, g)
      → signers_for lib id other g ≡ (ok set, g)
  unfolding signers_for
  signers_for-again id path other f g set run = elim (Option-cases (cached lib id f.cache)) [
    | inr (old, hit) ↦
        let ran = ap (signers_or lib id path f) (sym hit) ∙ run in
        let same : f ≡ g = ap (λ p. p.1) ran in
        let it : old ≡ set = ok-injective old set (ap (λ p. p.0) ran) in
        rw (ap (λ h. cached lib id h.cache) (sym same) ∙ hit ∙ ap some it) refl
    | inl miss ↦
        let ran = ap (signers_or lib id path f) (sym miss) ∙ run in
        let there =
          after_derive-cached id f g set (derive_signers lib f.tokens id path f.keys) miss ran in
        rw there refl
  ]

  cached-evict :
      (id : ℕ) (c : List (ℕ × List S)) → cached lib id (keep (λ e. not (e.0 == id)) c) ≡ none
  unfolding cached keep
  cached-evict id [] = refl
  cached-evict id ((i, set) ∷ c) = ground (arith, cached-evict id c)

  after_delete-cached :
      (id : ℕ) (f g : Fleet T S K) (out : Result Pkcs11Error (Unit {0}) × K)
      → after_delete lib id f out ≡ (ok tt, g)
      → cached lib id g.cache ≡ none
  unfolding evict
  after_delete-cached id f g (err e, k) run =
      let bad : ◌≡◌ {A = Result Pkcs11Error (Unit {0})} (err e) (ok tt) = ap (λ p. p.0) run in
      let no : ⊥ = cc in absurd no
  after_delete-cached id f g (ok u, k) run =
      ap (λ p. cached lib id (p.1).cache) (sym run) ∙ cached-evict id f.cache

  -- Keys that are deleted are gone from the cache, so the next call derives over the tokens again.
  pub signers_for-delete_keys :
      (id : ℕ) (path : List ℕ) (f g : Fleet T S K)
      → delete_keys lib id f ≡ (ok tt, g)
      → signers_for lib id path g
        ≡ after_derive lib id g (derive_signers lib g.tokens id path g.keys)
  unfolding signers_for delete_keys
  signers_for-delete_keys id path f g run =
      rw (after_delete-cached id f g (delete_key_objects lib f.tokens id f.keys) run) refl
