-- ===== src/Wallet/Send/Accounts.antt =====
-- The totals that `build_sign_and_broadcast` and `sweep_to` compute from the finalized transaction.
use test_app_pkcs.Prelude.{
  ℕ, ◌+◌, ◌-◌, ◌<◌, ◌≤◌, ◌^◌, ◌≡◌, Option, none, some, List, [], ◌∷◌, ◌==◌, if◌then◌else◌, arith,
  Bool-cases, inl, inr, ◌∙◌,
}
use test_app_pkcs.Wallet.Send.{
  Tx, SendLib, add_saturating, output_total, recipient_total, input_total, fee_of, add_utxo,
}

-- The specification: plain sums.
abbrev pub paid : List (ℕ × ℕ) → ℕ
paid [] = 0
paid ((spk, value) ∷ outs) = value + paid outs

abbrev pub paid_to : ℕ → List (ℕ × ℕ) → ℕ
paid_to to [] = 0
paid_to to ((spk, value) ∷ outs) = (if spk == to then value else 0) + paid_to to outs

abbrev pub known_value : Option ℕ → ℕ
known_value none = 0
known_value (some v) = v

paid_to-le : (to : ℕ) (outs : List (ℕ × ℕ)) → paid_to to outs ≤ paid outs
paid_to-le to [] = omega arith
paid_to-le to ((spk, value) ∷ outs) = ground (arith, paid_to-le to outs)

output_total-paid :
    (acc : ℕ) (outs : List (ℕ × ℕ))
    → acc + paid outs < 2 ^ 64
    → output_total acc outs ≡ acc + paid outs
unfolding output_total
output_total-paid acc [] h = omega arith
output_total-paid acc ((spk, value) ∷ outs) h =
    let e : add_saturating acc value ≡ acc + value = ground arith in
    rw e (output_total-paid (acc + value) outs (omega arith) ∙ omega arith)

recipient_total-paid_to :
    (to acc : ℕ) (outs : List (ℕ × ℕ))
    → acc + paid outs < 2 ^ 64
    → recipient_total to acc outs ≡ acc + paid_to to outs
unfolding recipient_total
recipient_total-paid_to to acc [] h = omega arith
recipient_total-paid_to to acc ((spk, value) ∷ outs) h = elim (Bool-cases (spk == to)) [
  | inl e ↦
      let f : add_saturating acc value ≡ acc + value = ground arith in
      rw (e, f) (recipient_total-paid_to to (acc + value) outs (omega arith) ∙ omega arith)
  | inr e ↦ rw e (recipient_total-paid_to to acc outs (omega arith) ∙ omega arith)
]

module _ {C : Type 0} (lib : SendLib C) where
  abbrev pub spent : List ℕ → ℕ
  spent [] = 0
  spent (o ∷ ins) = known_value (lib.get_utxo o) + spent ins

  input_total-spent :
      (acc : ℕ) (ins : List ℕ)
      → acc + spent ins < 2 ^ 64
      → input_total lib acc ins ≡ acc + spent ins
  unfolding input_total
  input_total-spent acc [] h = omega arith
  input_total-spent acc (o ∷ ins) h =
      let e : add_utxo lib acc (lib.get_utxo o) ≡ acc + known_value (lib.get_utxo o) =
        ground arith in
      rw e (input_total-spent (acc + known_value (lib.get_utxo o)) ins (omega arith) ∙ omega arith)

  -- Where inputs and outputs fit a `u64`, the fee is what the inputs that the wallet knows exceed the
  -- outputs by, and the recipient's amount is what the outputs to its script pay.
  pub fee_of_lem :
      (to : ℕ) (tx : Tx)
      → spent tx.inputs < 2 ^ 64
      → paid tx.outputs < 2 ^ 64
      → (fee_of lib tx ≡ spent tx.inputs - paid tx.outputs)
        × (recipient_total to 0 tx.outputs ≡ paid_to to tx.outputs)
  unfolding fee_of
  fee_of_lem to tx i o = (
    rw (input_total-spent 0 tx.inputs (omega arith), output_total-paid 0 tx.outputs (omega arith))
        (omega arith),
    recipient_total-paid_to to 0 tx.outputs (omega arith) ∙ omega arith,
  )
