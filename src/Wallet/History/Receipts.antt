-- ===== src/Wallet/History/Receipts.antt =====
-- The receipts of an address against the outputs of the wallets' transactions.
use mathlib.Core.List.{Perm}
use test_app_pkcs.Prelude.{
  ℕ, suc, ◌+◌, ◌≤◌, ◌<◌, ◌^◌, ◌≡◌, refl, ap, sym, ◌∙◌, true, false, List, [], ◌∷◌, ◌++◌, any,
  any-append, All, Distinct, Distinct-snoc, arith, inl, inr, Bool-cases, ltb, ◌==◌, if◌then◌else◌,
}
use test_app_pkcs.Prelude.Result.{Result, ok, ◌>>=◌}
use test_app_pkcs.Prelude.Sort.{Sorted, sort_by-Sorted, sort_by-perm}
use test_app_pkcs.Wallet.{WalletError}
use test_app_pkcs.Wallet.Reconcile.{contains}
use test_app_pkcs.Wallet.History.{
  WalletTx, View, AddressReceipt, AddressActivity, Counted, add_unspent, push, receipt_of,
  count_output, count_outputs, count_txs, count_wallets, address_history, activity, nothing_counted,
  height_or_max,
}
use test_app_pkcs.Wallet.History.Payments.{
  Among, All-Among, key, outputs_to, payments_of, payments, add_all, add_all-append, add_all-lists,
  add_all-All, outputs_to-cons,
}

abbrev pub received : List AddressReceipt → ℕ
received [] = 0
received (r ∷ rs) = r.amount + received rs

abbrev pub unspent_of : AddressReceipt → ℕ
unspent_of r = if r.is_spent then 0 else r.amount

abbrev pub left : List AddressReceipt → ℕ
left [] = 0
left (r ∷ rs) = unspent_of r + left rs

received-snoc :
    (rs : List AddressReceipt) (r : AddressReceipt)
    → received (rs ++ r ∷ []) ≡ received rs + r.amount
received-snoc [] r = omega arith
received-snoc (x ∷ rs) r = omega (arith, received-snoc rs r)

left-snoc :
    (rs : List AddressReceipt) (r : AddressReceipt) → left (rs ++ r ∷ []) ≡ left rs + unspent_of r
left-snoc [] r = omega arith
left-snoc (x ∷ rs) r = omega (arith, left-snoc rs r)

left-le : (rs : List AddressReceipt) → left rs ≤ received rs
left-le [] = omega arith
left-le (x ∷ rs) = ground (arith, left-le rs)

module _ (outpoint : ℕ → ℕ → ℕ) (tip target : ℕ) where
  abbrev pub paid : List (ℕ × ℕ) → ℕ
  paid [] = 0
  paid ((spk, value) ∷ outs) = value + paid outs

  abbrev pub paid_by : List WalletTx → ℕ
  paid_by [] = 0
  paid_by (wtx ∷ txs) = paid wtx.output + paid_by txs

  abbrev pub paid_in : List View → ℕ
  paid_in [] = 0
  paid_in (vw ∷ vws) = paid_by vw.transactions + paid_in vws

  abbrev pub IsCounted : Counted → Type 0
  IsCounted acc =
      (acc.total_received ≡ received acc.receipts)
      × (acc.unspent ≡ left acc.receipts)
      × Distinct (key outpoint tip target) acc.receipts
      × ((o : ℕ)
          → contains acc.seen_outpoints o ≡ any (λ r. key outpoint tip target r == o) acc.receipts)

  -- A stage that succeeds, keeps the account, adds at most `n`, and lists the payments outpoint tip target `ps`.
  abbrev pub Stage : Counted → ℕ → List AddressReceipt → Result WalletError Counted → Type 0
  Stage acc n ps run =
      (next : Counted) × (run ≡ ok next)
      × IsCounted next
      × (next.total_received ≤ acc.total_received + n)
      × (next.receipts ≡ add_all outpoint tip target ps acc.receipts)

  add_unspent_ok :
      (r : AddressReceipt) (n : ℕ) → n + r.amount < 2 ^ 64 → add_unspent r n ≡ ok (n + unspent_of r)
  add_unspent_ok r n h = elim (Bool-cases r.is_spent) [
    | inl spent ↦ rw spent (ap ok (omega arith))
    | inr kept ↦
        let fits : ltb (n + r.amount) (2 ^ 64) ≡ true = ground arith in rw (kept, fits) refl
  ]

  contains_push :
      (seen : List ℕ) (rs : List AddressReceipt) (r : AddressReceipt) (o : ℕ)
      → contains seen o ≡ any (λ x. key outpoint tip target x == o) rs
      → contains (key outpoint tip target r ∷ seen) o
        ≡ any (λ x. key outpoint tip target x == o) (rs ++ r ∷ [])
  unfolding contains any
  contains_push seen rs r o h =
      ground (arith, h, any-append (λ x. key outpoint tip target x == o) rs (r ∷ []))

  push-Stage :
      (r : AddressReceipt) (acc : Counted)
      → IsCounted acc
      → contains acc.seen_outpoints (key outpoint tip target r) ≡ false
      → acc.total_received + r.amount < 2 ^ 64
      → Stage acc r.amount (r ∷ []) (push (key outpoint tip target r) r acc)
  unfolding push
  push-Stage r acc (t, u, d, m) new small =
      let fits : ltb (acc.total_received + r.amount) (2 ^ 64) ≡ true = ground arith in
      let kept = add_unspent_ok r acc.unspent (omega (arith, t, u, left-le acc.receipts)) in
      (
        record {
          seen_outpoints = key outpoint tip target r ∷ acc.seen_outpoints;
          receipts = acc.receipts ++ r ∷ [];
          total_received = acc.total_received + r.amount;
          unspent = acc.unspent + unspent_of r;
        },
        rw (fits, kept) refl,
        (
          omega (arith, t, received-snoc acc.receipts r),
          omega (arith, u, left-snoc acc.receipts r),
          Distinct-snoc (key outpoint tip target) r acc.receipts
              (sym (m (key outpoint tip target r)) ∙ new) d,
          λ o. contains_push acc.seen_outpoints acc.receipts r o (m o),
        ),
        omega arith,
        rw (sym (m (key outpoint tip target r)) ∙ new) refl,
      )

  count_output-Stage :
      (vw : View) (wtx : WalletTx) (vout spk value : ℕ) (acc : Counted)
      → IsCounted acc
      → acc.total_received + value < 2 ^ 64
      → Stage acc value
          (outputs_to outpoint tip target vw wtx vout ((spk, value) ∷ []))
          (count_output outpoint tip target vw wtx vout (spk, value) acc)
  unfolding outputs_to
  count_output-Stage vw wtx vout spk value acc inv small = elim (Bool-cases (spk == target)) [
    | inl hit ↦
        let r = receipt_of outpoint tip target vw wtx vout value in
        elim (Bool-cases (contains acc.seen_outpoints (key outpoint tip target r))) [
          | inl old ↦ (
            acc,
            rw (hit, old) refl,
            inv,
            omega arith,
            rw (hit, sym (inv.3 (key outpoint tip target r)) ∙ old) refl,
          )
          | inr new ↦ rw (hit, new) (push-Stage r acc inv new small)
        ]
    | inr other ↦ (acc, rw other refl, inv, omega arith, rw other refl)
  ]

  -- Two stages in a row.
  Stage-bind :
      (acc : Counted) (n m : ℕ) (ps qs : List AddressReceipt) (first : Result WalletError Counted)
      (rest : Counted → Result WalletError Counted)
      → Stage acc n ps first
      → ((mid : Counted)
          → IsCounted mid
          → mid.total_received ≤ acc.total_received + n
          → Stage mid m qs (rest mid))
      → Stage acc (n + m) (ps ++ qs) (first >>= rest)
  Stage-bind acc n m ps qs first rest (mid, run, inv, le, listed) f =
      let (next, run2, inv2, le2, listed2) = f mid inv le in
      (
        next,
        rw run run2,
        inv2,
        omega arith,
        listed2
            ∙ ap (add_all outpoint tip target qs) listed
            ∙ sym (add_all-append outpoint tip target ps qs acc.receipts),
      )

  count_outputs-Stage :
      (vw : View) (wtx : WalletTx) (vout : ℕ) (outs : List (ℕ × ℕ)) (acc : Counted)
      → IsCounted acc
      → acc.total_received + paid outs < 2 ^ 64
      → Stage acc
          (paid outs)
          (outputs_to outpoint tip target vw wtx vout outs)
          (count_outputs outpoint tip target vw wtx vout outs acc)
  unfolding count_outputs outputs_to
  count_outputs-Stage vw wtx vout [] acc inv small = (acc, refl, inv, omega arith, refl)
  count_outputs-Stage vw wtx vout ((spk, value) ∷ outs) acc inv small =
      rw (sym (outputs_to-cons outpoint tip target vw wtx vout (spk, value) outs)) (
        Stage-bind acc value (paid outs)
          (outputs_to outpoint tip target vw wtx vout ((spk, value) ∷ []))
          (outputs_to outpoint tip target vw wtx (suc vout) outs)
          (count_output outpoint tip target vw wtx vout (spk, value) acc)
          (count_outputs outpoint tip target vw wtx (suc vout) outs)
          (count_output-Stage vw wtx vout spk value acc inv (omega arith))
          (λ mid i le. count_outputs-Stage vw wtx (suc vout) outs mid i (omega arith)))

  count_txs-Stage :
      (vw : View) (txs : List WalletTx) (acc : Counted)
      → IsCounted acc
      → acc.total_received + paid_by txs < 2 ^ 64
      → Stage acc
          (paid_by txs)
          (payments_of outpoint tip target vw txs)
          (count_txs outpoint tip target vw txs acc)
  unfolding count_txs payments_of
  count_txs-Stage vw [] acc inv small = (acc, refl, inv, omega arith, refl)
  count_txs-Stage vw (wtx ∷ txs) acc inv small =
      Stage-bind acc (paid wtx.output) (paid_by txs)
        (outputs_to outpoint tip target vw wtx 0 wtx.output)
        (payments_of outpoint tip target vw txs)
        (count_outputs outpoint tip target vw wtx 0 wtx.output acc)
        (count_txs outpoint tip target vw txs)
        (count_outputs-Stage vw wtx 0 wtx.output acc inv (omega arith))
        (λ mid i le. count_txs-Stage vw txs mid i (omega arith))

  count_wallets-Stage :
      (vws : List View) (acc : Counted)
      → IsCounted acc
      → acc.total_received + paid_in vws < 2 ^ 64
      → Stage acc
          (paid_in vws)
          (payments outpoint tip target vws)
          (count_wallets outpoint tip target vws acc)
  unfolding count_wallets payments
  count_wallets-Stage [] acc inv small = (acc, refl, inv, omega arith, refl)
  count_wallets-Stage (vw ∷ vws) acc inv small =
      Stage-bind acc (paid_by vw.transactions) (paid_in vws)
        (payments_of outpoint tip target vw vw.transactions) (payments outpoint tip target vws)
        (count_txs outpoint tip target vw vw.transactions acc)
        (count_wallets outpoint tip target vws)
        (count_txs-Stage vw vw.transactions acc inv (omega arith))
        (λ mid i le. count_wallets-Stage vws mid i (omega arith))

  -- If the outputs of all transactions of all version wallets together fit a u64, address_history
  -- succeeds. Its receipts are sorted by height, unconfirmed ones last. Every output to the address of
  -- a transaction of a version wallet has its outpoint listed, every receipt is such an output, no two
  -- receipts are of one outpoint, and the two totals are the amounts of all receipts and of those that
  -- are unspent.
  pub address_history_lem :
      (vws : List View)
      → paid_in vws < 2 ^ 64
      → (act : AddressActivity) × (address_history outpoint tip target vws ≡ ok act)
        × Sorted (λ r. height_or_max r.confirmation_height) act.receipts
        × (found : List AddressReceipt) × Perm act.receipts found
        × All
            (λ p. any (λ r. key outpoint tip target r == key outpoint tip target p) found ≡ true)
            (payments outpoint tip target vws)
        × All (λ r. Among r (payments outpoint tip target vws)) found
        × Distinct (key outpoint tip target) found
        × (act.total_received ≡ received found)
        × (act.unspent ≡ left found)
  unfolding address_history contains any
  address_history_lem vws small =
      let (acc, run, (t, u, d, m), le, listed) =
        count_wallets-Stage vws (nothing_counted outpoint tip target) (refl, refl, tt, λ o. refl)
          (omega arith) in
      let order = λ (r : AddressReceipt). height_or_max r.confirmation_height in
      (
        activity outpoint tip target acc,
        rw run refl,
        sort_by-Sorted order acc.receipts,
        acc.receipts,
        sort_by-perm order acc.receipts,
        rw listed (add_all-lists outpoint tip target (payments outpoint tip target vws) []),
        rw listed (
            add_all-All outpoint tip target (λ r. Among r (payments outpoint tip target vws))
              (payments outpoint tip target vws) [] (All-Among (payments outpoint tip target vws))
              tt),
        d,
        t,
        u,
      )
