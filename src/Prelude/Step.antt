-- ===== src/Prelude/Step.antt =====
-- An operation that may fail with an error of `E`: what it wrote before an error stays written.
use test_app_pkcs.Prelude.{◌≡◌, refl, ap}
use test_app_pkcs.Prelude.Result.{Result, ok, err}

abbrev pub Action {ℓ κ} : Type 0 → Type ℓ → Type κ → Type (ℓ ⊔ κ)
Action E S A = S → Result E A × S

pub err-ok {ℓ} : {E : Type 0} {A : Type ℓ} {e : E} {a : A} → ◌≡◌ {A = Result E A} (err e) (ok a) → ⊥
err-ok h = cc

module _ {ℓ κ} {E : Type 0} {S : Type ℓ} {A : Type κ} where
  abbrev pub pure : A → Action E S A
  pure a s = (ok a, s)

  abbrev pub lift : Result E A → Action E S A
  lift r s = (r, s)

  abbrev pub bind_after {ι} : {B : Type ι} → (A → Action E S B) → Result E A × S → Result E B × S
  bind_after f (ok a, s) = f a s
  bind_after f (err e, s) = (err e, s)

  infixl 5 ◌>>>◌
  abbrev pub ◌>>>◌ {ι} : {B : Type ι} → Action E S A → (A → Action E S B) → Action E S B
  ◌>>>◌ m f s = bind_after f (m s)

  split {ι} :
      {B : Type ι} (f : A → Action E S B) (t : S) (b : B) (out : Result E A × S)
      → bind_after f out ≡ (ok b, t)
      → (a : A) × (u : S) × (out ≡ (ok a, u)) × (f a u ≡ (ok b, t))
  split f t b (ok a, u) h = (a, u, refl, h)
  split f t b (err x, u) h = absurd (err-ok (ap (λ p. p.0) h))

  -- A chain that succeeds has each step succeed, from where the last one left the state.
  pub >>>-eq-ok {ι} :
      {B : Type ι} (m : Action E S A) (f : A → Action E S B) (s t : S) (b : B)
      → (m >>> f) s ≡ (ok b, t)
      → (a : A) × (u : S) × (m s ≡ (ok a, u)) × (f a u ≡ (ok b, t))
  >>>-eq-ok m f s t b h = split f t b (m s) h
