-- ===== src/Wallet/History/Payments.antt =====
-- The outputs to an address, and the list of them by outpoint.
use test_app_pkcs.Prelude.{
  ℕ, suc, ◌≡◌, refl, ◌∙◌, true, List, [], ◌∷◌, ◌++◌, any, any-append, All, All-append, All-map, ◌⊎◌,
  arith, inl, inr, Bool-cases, ◌==◌, if◌then◌else◌,
}
use test_app_pkcs.Wallet.History.{WalletTx, View, AddressReceipt, receipt_of}

-- An element of a list.
abbrev pub Among : AddressReceipt → List AddressReceipt → Type 0
Among r [] = ⊥
Among r (x ∷ xs) = (r ≡ x) ⊎ Among r xs

pub All-Among : (xs : List AddressReceipt) → All (λ x. Among x xs) xs
All-Among [] = tt
All-Among (x ∷ xs) =
    (inl refl, All-map (λ y. Among y xs) (λ y. Among y (x ∷ xs)) xs (λ y h. inr h) (All-Among xs))

module _ (outpoint : ℕ → ℕ → ℕ) (tip target : ℕ) where
  abbrev pub key : AddressReceipt → ℕ
  key r = outpoint r.txid r.vout

  -- The outputs to the address, in the order of the wallets, transactions and outputs.
  unfoldable pub outputs_to : View → WalletTx → ℕ → List (ℕ × ℕ) → List AddressReceipt
  outputs_to vw wtx vout [] = []
  outputs_to vw wtx vout ((spk, value) ∷ outs) =
      let rest = outputs_to vw wtx (suc vout) outs in
      if spk == target then receipt_of outpoint tip target vw wtx vout value ∷ rest else rest

  unfoldable pub payments_of : View → List WalletTx → List AddressReceipt
  unfolding outputs_to
  payments_of vw [] = []
  payments_of vw (wtx ∷ txs) = outputs_to vw wtx 0 wtx.output ++ payments_of vw txs

  unfoldable pub payments : List View → List AddressReceipt
  unfolding payments_of
  payments [] = []
  payments (vw ∷ vws) = payments_of vw vw.transactions ++ payments vws

  abbrev pub add_new : AddressReceipt → List AddressReceipt → List AddressReceipt
  add_new p rs = if any (λ r. key r == key p) rs then rs else rs ++ p ∷ []

  abbrev pub add_all : List AddressReceipt → List AddressReceipt → List AddressReceipt
  add_all [] rs = rs
  add_all (p ∷ ps) rs = add_all ps (add_new p rs)

  pub add_all-append :
      (ps qs rs : List AddressReceipt) → add_all (ps ++ qs) rs ≡ add_all qs (add_all ps rs)
  add_all-append [] qs rs = refl
  add_all-append (p ∷ ps) qs rs = add_all-append ps qs (add_new p rs)

  -- What was listed stays listed.
  add_all-keeps :
      (k : ℕ) (ps rs : List AddressReceipt)
      → any (λ r. key r == k) rs ≡ true
      → any (λ r. key r == k) (add_all ps rs) ≡ true
  add_all-keeps k [] rs h = h
  add_all-keeps k (p ∷ ps) rs h =
      add_all-keeps k ps (add_new p rs) (elim (Bool-cases (any (λ r. key r == key p) rs)) [
        | inl old ↦ rw old h
        | inr new ↦ rw new (any-append (λ r. key r == k) rs (p ∷ []) ∙ rw h refl)
      ])

  add_new-lists :
      (p : AddressReceipt) (rs : List AddressReceipt)
      → any (λ r. key r == key p) (add_new p rs) ≡ true
  unfolding any
  add_new-lists p rs = elim (Bool-cases (any (λ r. key r == key p) rs)) [
    | inl old ↦ rw old old
    | inr new ↦ rw new (any-append (λ r. key r == key p) rs (p ∷ []) ∙ ground arith)
  ]

  pub add_all-lists :
      (ps rs : List AddressReceipt) → All (λ p. any (λ r. key r == key p) (add_all ps rs) ≡ true) ps
  add_all-lists [] rs = tt
  add_all-lists (p ∷ ps) rs = (
    add_all-keeps (key p) ps (add_new p rs) (add_new-lists p rs),
    add_all-lists ps (add_new p rs),
  )

  pub add_all-All {κ} :
      (P : AddressReceipt → Type κ) (ps rs : List AddressReceipt)
      → All P ps
      → All P rs
      → All P (add_all ps rs)
  add_all-All P [] rs hp hr = hr
  add_all-All P (p ∷ ps) rs hp hr =
      add_all-All P ps (add_new p rs) hp.1 (elim (Bool-cases (any (λ r. key r == key p) rs)) [
        | inl old ↦ rw old hr
        | inr new ↦ rw new (All-append P rs (p ∷ []) hr (hp.0, tt))
      ])

  pub outputs_to-cons :
      (vw : View) (wtx : WalletTx) (vout : ℕ) (out : ℕ × ℕ) (outs : List (ℕ × ℕ))
      → outputs_to vw wtx vout (out ∷ []) ++ outputs_to vw wtx (suc vout) outs
        ≡ outputs_to vw wtx vout (out ∷ outs)
  unfolding outputs_to
  outputs_to-cons vw wtx vout (spk, value) outs = ground arith
