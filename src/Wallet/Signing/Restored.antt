-- ===== src/Wallet/Signing/Restored.antt =====
-- What signing some inputs leaves of the derivations and of the other inputs.
use mathlib.Core.List.{append_assoc}
use mathlib.Core.Path.{subst}
use test_app_pkcs.Prelude.{
  ℕ, suc, ◌≡◌, refl, Bool, true, false, List, [], ◌∷◌, ◌++◌, if◌then◌else◌, arith, length,
  length-append, Bool-cases, inl, inr, ap, sym, ◌∙◌,
}
use test_app_pkcs.Prelude.Result.{Result, ok}
use test_app_pkcs.Wallet.{WalletError}
use test_app_pkcs.Wallet.Signing.{
  Input, contains, cleared, take_derivations, put_derivation, restore, restored_after,
  sign_migration_inputs,
}

true-false : ◌≡◌ {A = Bool} true false → ⊥
true-false e = cc

module _ {D G : Type 0} where
  -- What the signers do to a transaction: they keep every derivation, and sign no input that has
  -- none.
  abbrev pub Signed : List (Input D G) → List (Input D G) → Type 0
  Signed [] [] = Unit
  Signed (a ∷ xs) (b ∷ ys) =
      (b.bip32_derivation ≡ a.bip32_derivation)
      × (a.bip32_derivation ≡ [] → b.signatures ≡ a.signatures)
      × Signed xs ys
  Signed _ _ = ⊥

  -- Derivations are as before, and so are the signatures of the inputs that are not named.
  abbrev pub Kept : List ℕ → ℕ → List (Input D G) → List (Input D G) → Type 0
  Kept indices i [] [] = Unit
  Kept indices i (a ∷ xs) (b ∷ ys) =
      (b.bip32_derivation ≡ a.bip32_derivation)
      × (contains indices i ≡ false → b.signatures ≡ a.signatures)
      × Kept indices (suc i) xs ys
  Kept indices i _ _ = ⊥

  put-append :
      (d : List D) (before : List (Input D G)) (inp : Input D G) (inps : List (Input D G))
      → put_derivation (length before) d (before ++ inp ∷ inps)
        ≡ before ++ record inp { bip32_derivation = d } ∷ inps
  unfolding put_derivation
  put-append d [] inp inps = refl
  put-append d (b ∷ before) inp inps = ap (λ l. b ∷ l) (put-append d before inp inps)

  Signed-cons :
      (a : Input D G) (rest out : List (Input D G))
      → Signed (a ∷ rest) out
      → (o : Input D G) × (tail : List (Input D G)) × (out ≡ o ∷ tail)
        × (o.bip32_derivation ≡ a.bip32_derivation)
        × (a.bip32_derivation ≡ [] → o.signatures ≡ a.signatures)
        × Signed rest tail
  Signed-cons a rest [] s = absurd s
  Signed-cons a rest (o ∷ tail) s = (o, tail, refl, s.0, s.1, s.2)

  abbrev Fin :
      List ℕ
      → ℕ
      → List (Input D G)
      → List (ℕ × List D)
      → List (Input D G)
      → List (Input D G)
      → Type 0
  Fin indices i inps saved before out =
      (fin : List (Input D G)) × (restore saved (before ++ out) ≡ before ++ fin)
      × Kept indices i inps fin

  -- The first of the remaining inputs is done: it joins those before.
  Fin-step :
      (indices : List ℕ) (i : ℕ) (inp o done : Input D G) (inps before tail : List (Input D G))
      (saved : List (ℕ × List D))
      → done.bip32_derivation ≡ inp.bip32_derivation
      → (contains indices i ≡ false → done.signatures ≡ inp.signatures)
      → Fin indices (suc i) inps saved (before ++ done ∷ []) tail
      → (fin : List (Input D G)) × (restore saved (before ++ done ∷ tail) ≡ before ++ fin)
        × Kept indices i (inp ∷ inps) fin
  Fin-step indices i inp o done inps before tail saved d g (fin, run, kept) = (
    done ∷ fin,
    ap (restore saved) (sym (append_assoc before (done ∷ []) tail))
        ∙ run
        ∙ append_assoc before (done ∷ []) fin,
    (d, g, kept),
  )

  restore-Kept :
      (indices : List ℕ) (i : ℕ) (before inps out : List (Input D G))
      → i ≡ length before
      → Signed (take_derivations indices i inps).0 out
      → Fin indices i inps (take_derivations indices i inps).1 before out
  unfolding take_derivations restore
  restore-Kept indices i before [] [] n s = ([], refl, tt)
  restore-Kept indices i before [] (o ∷ out) n s = absurd s
  restore-Kept indices i before (inp ∷ inps) out n s =
      let rest = (take_derivations indices (suc i) inps).0 in
      let saved = (take_derivations indices (suc i) inps).1 in
      let both : Bool → List (Input D G) × List (ℕ × List D) = λ b.
        if b
        then (inp ∷ rest, saved)
        else (cleared inp ∷ rest, (i, inp.bip32_derivation) ∷ saved) in
      elim (Bool-cases (contains indices i)) [
        | inl named ↦
            let (o, tail, e, d, g, more) =
              Signed-cons inp rest out (subst (λ b. Signed (both b).0 out) named s) in
            let m : suc i ≡ length (before ++ o ∷ []) =
              omega (arith, length-append before (o ∷ [])) in
            let next = restore-Kept indices (suc i) (before ++ o ∷ []) inps tail m more in
            rw (named, e)
              (Fin-step indices i inp o o inps before tail saved d
                (λ q. absurd (true-false (sym named ∙ q))) next)
        | inr other ↦
            let (o, tail, e, d, g, more) =
              Signed-cons (cleared inp) rest out (subst (λ b. Signed (both b).0 out) other s) in
            let done : Input D G = record o { bip32_derivation = inp.bip32_derivation } in
            let m : suc i ≡ length (before ++ done ∷ []) =
              omega (arith, length-append before (done ∷ [])) in
            let next = restore-Kept indices (suc i) (before ++ done ∷ []) inps tail m more in
            let (fin, run, kept) =
              Fin-step indices i inp o done inps before tail saved refl (λ q. g refl) next in
            rw (other, e)
              (
                fin,
                ap (restore saved) (
                      ap (λ k. put_derivation k inp.bip32_derivation (before ++ o ∷ tail)) n
                      ∙ put-append inp.bip32_derivation before o tail)
                    ∙ run,
                kept,
              )
      ]

  -- After signing the named inputs of a shared transaction, every input has the derivation that it
  -- had, and only named inputs may have new signatures, if the signers sign no input without a
  -- derivation and keep the derivations that they see.
  pub sign_migration_inputs-Kept :
      (sign : List (Input D G) → Result WalletError (Unit {0}) × List (Input D G))
      (indices : List ℕ) (inps out fin : List (Input D G))
      → sign (take_derivations indices 0 inps).0 ≡ (ok tt, out)
      → Signed (take_derivations indices 0 inps).0 out
      → sign_migration_inputs sign indices inps ≡ (ok tt, fin)
      → Kept indices 0 inps fin
  unfolding sign_migration_inputs
  sign_migration_inputs-Kept sign indices inps out fin signed s run =
      let (end, restored, kept) = restore-Kept indices 0 [] inps out refl s in
      let taken = take_derivations indices 0 inps in
      let e : end ≡ fin =
        sym restored ∙ ap (λ p. p.1) (sym (ap (restored_after taken.1) signed) ∙ run) in
      rw (sym e) kept
