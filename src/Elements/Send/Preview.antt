-- ===== src/Elements/Send/Preview.antt =====
-- The preview of a sweep (`compute_drain_amount`) against the sweep itself.
use test_app_pkcs.Prelude.{
  ℕ, ◌+◌, ◌-◌, ◌<◌, ◌^◌, ◌≡◌, refl, sym, ap, ◌∙◌, String, true, Option, none, some, List, [], ◌∷◌,
  map, arith, Bool-cases, inl, inr,
}
use test_app_pkcs.Prelude.Int.{ℤ, pos, minus, is_positive}
use test_app_pkcs.Prelude.Result.{Result, ok, err, ok_or, ok-injective, >>=-eq-ok}
use test_app_pkcs.Prelude.Step.{lift, >>>-eq-ok, err-ok}
use test_app_pkcs.Prelude.Sql.{check_violation}
use test_app_pkcs.Chain.{SyncError}
use test_app_pkcs.Chain.Utxos.{UtxoDb, CapturedUtxo}
use test_app_pkcs.Chain.Utxos.Codec.{list_unspent}
use test_app_pkcs.Config.Text.{is_empty}
use test_app_pkcs.Db.Transactions.{NewTransaction, insert_row, insert_elements_transaction}
use test_app_pkcs.Elements.{
  ElementsWalletError, sqlx, build_pset, sign, finalize, descriptor, bad_address,
}
use test_app_pkcs.Elements.Backend.{Clients}
use test_app_pkcs.Elements.Balances.{sum}
use test_app_pkcs.Elements.Balances.Totals.{total, sum-total}
use test_app_pkcs.Elements.Manager.Load.{UserElementsWallet}
use test_app_pkcs.Elements.Send.{
  PsetLib, ElementsTx, Ledger, ElementsBroadcastTransaction, explicit_fee, fee_sat, or_zero,
  i64_or_zero, coin_of, opened, sign_all, finished, drain, compute_drain_amount, sweep_to, settle,
  broadcast, record_tx, new_transaction, refuse, pipeline_err,
}

ok_or-ok :
    {A : Type 0} (o : Option A) (e : ElementsWalletError) (a : A) → ok_or o e ≡ ok a → o ≡ some a
ok_or-ok none e a h = absurd (err-ok h)
ok_or-ok (some b) e a h = ap some (ok-injective b a h)

-- A positive difference of what fits an i64 is the difference.
positive_drain :
    (total fee : ℕ)
    → fee < 2 ^ 63
    → is_positive (minus (i64_or_zero total) (i64_or_zero fee)) ≡ true
    → (minus (i64_or_zero total) (i64_or_zero fee) ≡ pos (total - fee))
      × (total - fee + i64_or_zero fee ≡ total)
positive_drain total fee h p = ground arith

module _ {S N C R W P F : Type 0} (clients : Clients C R ElementsTx N) (lib : PsetLib S N W P F)
    (uw : UserElementsWallet S N) where
  record_tx-positive :
      (id now : ℕ) (v : NewTransaction) (s t : Ledger) (u : Unit {0})
      → record_tx clients lib uw id now v s ≡ (ok u, t)
      → is_positive v.amount_sat ≡ true
  unfolding insert_elements_transaction insert_row
  record_tx-positive id now v s t u h = elim (Bool-cases (is_positive v.amount_sat)) [
    | inl positive ↦ positive
    | inr negative ↦
        let refused : record_tx clients lib uw id now v s ≡ (err (sqlx check_violation), s) =
          rw negative refl in
        absurd (err-ok (ap (λ p. p.0) (sym refused ∙ h)))
  ]

  -- What a sweep that succeeds did.
  sweep-drain :
      (id now : ℕ) (recipient : String) (rate : ℕ) (label : Option String) (s t : Ledger)
      (r : ElementsBroadcastTransaction)
      → sweep_to clients lib uw id now recipient rate label s ≡ (ok r, t)
      → (tx : ElementsTx) × (drain clients lib uw recipient rate s.utxos ≡ ok (tx, r.amount_sat))
        × (r.fee_sat ≡ fee_sat tx)
        × (is_positive r.amount_sat ≡ true)
  unfolding sweep_to settle
  sweep-drain id now recipient rate label s t r h =
      let made = drain clients lib uw recipient rate s.utxos in
      let ((tx, amount), s0, e0, h0) = >>>-eq-ok (lift made) _ s t r h in
      let (txid, s1, e1, h1) = >>>-eq-ok (broadcast clients lib uw tx) _ s0 t r h0 in
      let v = new_transaction clients lib uw recipient label tx amount txid in
      let (done, s2, e2, h2) = >>>-eq-ok (record_tx clients lib uw id now v) _ s1 t r h1 in
      let same = ok-injective _ r (ap (λ p. p.0) h2) in
      let paid = ap (λ x. x.amount_sat) same in
      (
        tx,
        ap (λ p. p.0) e0 ∙ ap (λ a. ok (tx, a)) paid,
        ap (λ x. x.fee_sat) (sym same),
        ap is_positive (sym paid) ∙ record_tx-positive id now v s1 s2 done e2,
      )

  pipeline_err-ok : {A : Type 0} (m : Result SyncError A) (a : A) → pipeline_err m ≡ ok a → m ≡ ok a
  pipeline_err-ok (ok b) a h = cc
  pipeline_err-ok (err e) a h = cc

  opened-list_unspent :
      (recipient : String) (db : UtxoDb) (wollet : W) (utxos : List CapturedUtxo) (addr : ℕ)
      → opened clients lib uw recipient db ≡ ok (wollet, utxos, addr)
      → list_unspent lib.utxos uw.wallet_id db ≡ ok utxos
  unfolding opened
  opened-list_unspent recipient db wollet utxos addr h =
      let wallet = lib.from_descriptor_str uw.descriptor uw.mbk uw.lwk_net in
      let listed = list_unspent lib.utxos uw.wallet_id db in
      let (w, e0, h0) = >>=-eq-ok (ok_or wallet descriptor) _ h in
      let (found, e1, h1) = >>=-eq-ok (pipeline_err listed) _ h0 in
      let (_, e2, h2) = >>=-eq-ok (refuse (is_empty found)) _ h1 in
      let (a, e3, h3) = >>=-eq-ok (ok_or (lib.address recipient) bad_address) _ h2 in
      pipeline_err-ok listed utxos (e1 ∙ ap (λ q. ok q.1) (ok-injective _ (wollet, utxos, addr) h3))

  module _ (signed : (k : S) (p q : P) → lib.sign_pset k p ≡ some q → lib.outputs q ≡ lib.outputs p)
      (finalized : (p q : P) → lib.finalize_p2wsh_pset p ≡ some q → lib.outputs q ≡ lib.outputs p)
      (extracted : (p : P) (tx : ElementsTx)
        → lib.extract_tx p ≡ some tx
        → tx.outputs ≡ lib.outputs p) where
    sign_all-outputs :
        (signers : List S) (p q : P)
        → sign_all clients lib uw signers p ≡ ok q
        → lib.outputs q ≡ lib.outputs p
    unfolding sign_all
    sign_all-outputs [] p q h = ap lib.outputs (sym (ok-injective p q h))
    sign_all-outputs (k ∷ ks) p q h =
        let (mid, e, more) = >>=-eq-ok (ok_or (lib.sign_pset k p) sign) _ h in
        sign_all-outputs ks mid q more ∙ signed k p mid (ok_or-ok (lib.sign_pset k p) sign mid e)

    finished-outputs :
        (p : P) (tx : ElementsTx) → finished clients lib uw p ≡ ok tx → tx.outputs ≡ lib.outputs p
    unfolding finished
    finished-outputs p tx h =
        let (q, e0, h0) = >>=-eq-ok (sign_all clients lib uw uw.signers p) _ h in
        let (final, e1, h1) = >>=-eq-ok (ok_or (lib.finalize_p2wsh_pset q) finalize) _ h0 in
        extracted final tx (ok_or-ok (lib.extract_tx final) finalize tx h1)
        ∙ finalized q final (ok_or-ok (lib.finalize_p2wsh_pset q) finalize final e1)
        ∙ sign_all-outputs uw.signers p q e0

    -- The preview of what a drain pays.
    drain-preview :
        (recipient : String) (rate : ℕ) (db : UtxoDb) (tx : ElementsTx) (amount : ℤ)
        → drain clients lib uw recipient rate db ≡ ok (tx, amount)
        → (wollet : W) × (utxos : List CapturedUtxo) × (addr : ℕ) × (p : P) × (opened clients lib uw
              recipient db
            ≡ ok (wollet, utxos, addr))
          × (lib.build_sweep_pset wollet utxos addr (lib.fee_rate_kvb rate) ≡ some p)
          × (tx.outputs ≡ lib.outputs p)
          × (amount ≡ minus (i64_or_zero (sum (map (coin_of clients lib uw) utxos))) (fee_sat tx))
          × (compute_drain_amount clients lib uw recipient rate db
              ≡ ok (
                  sum (map (coin_of clients lib uw) utxos)
                  - or_zero (explicit_fee (lib.outputs p))))
    unfolding drain compute_drain_amount
    drain-preview recipient rate db tx amount h =
        let ((wollet, utxos, addr), e0, h0) = >>=-eq-ok (opened clients lib uw recipient db) _ h in
        let made = lib.build_sweep_pset wollet utxos addr (lib.fee_rate_kvb rate) in
        let (p, e1, h1) = >>=-eq-ok (ok_or made build_pset) _ h0 in
        let (tx1, e2, h2) = >>=-eq-ok (finished clients lib uw p) _ h1 in
        let same = ok-injective _ (tx, amount) h2 in
        let built = ok_or-ok made build_pset p e1 in
        (
          wollet,
          utxos,
          addr,
          p,
          e0,
          built,
          ap (λ q. q.0.outputs) (sym same) ∙ finished-outputs p tx1 e2,
          ap (λ q. q.1) (sym same)
              ∙ ap (λ x. minus (i64_or_zero (sum (map (coin_of clients lib uw) utxos))) (fee_sat x))
                  (ap (λ q. q.0) same),
          rw (e0, built) refl,
        )

    -- A sweep that succeeds records as its amount what its preview showed, and this and the recorded
    -- fee are the value of all of the wallet's unspent coins. Conditions: these fit a u64 together,
    -- signing, finalizing and extracting keep the outputs of the PSET, and the fee that the builder
    -- sets fits an i64.
    pub compute_drain_amount-sweep_to :
        (fits : (wollet : W) (utxos : List CapturedUtxo) (addr rate : ℕ) (p : P)
          → lib.build_sweep_pset wollet utxos addr (lib.fee_rate_kvb rate) ≡ some p
          → or_zero (explicit_fee (lib.outputs p)) < 2 ^ 63)
        (id now : ℕ) (recipient : String) (rate : ℕ) (label : Option String) (s t : Ledger)
        (amount : ℕ) (r : ElementsBroadcastTransaction) (utxos : List CapturedUtxo)
        → list_unspent lib.utxos uw.wallet_id s.utxos ≡ ok utxos
        → total (map (coin_of clients lib uw) utxos) < 2 ^ 64
        → compute_drain_amount clients lib uw recipient rate s.utxos ≡ ok amount
        → sweep_to clients lib uw id now recipient rate label s ≡ (ok r, t)
        → (r.amount_sat ≡ pos amount)
          × (amount + r.fee_sat ≡ total (map (coin_of clients lib uw) utxos))
    unfolding fee_sat
    compute_drain_amount-sweep_to fits id now recipient rate label s t amount r unspent listed small
          shown ran =
        let (tx, drained, fee, positive) = sweep-drain id now recipient rate label s t r ran in
        let (wollet, utxos, addr, p, ready, built, kept, paid, preview) =
          drain-preview recipient rate s.utxos tx r.amount_sat drained in
        let coins = map (coin_of clients lib uw) in
        let found : utxos ≡ unspent =
          ok-injective utxos unspent
            (sym (opened-list_unspent recipient s.utxos wollet utxos addr ready) ∙ listed) in
        let whole_value = sum-total (coins unspent) small in
        let all = sum (coins utxos) in
        let set = or_zero (explicit_fee (lib.outputs p)) in
        let spent : fee_sat tx ≡ i64_or_zero set =
          ap (λ os. i64_or_zero (or_zero (explicit_fee os))) kept in
        let recorded : r.amount_sat ≡ minus (i64_or_zero all) (i64_or_zero set) =
          paid ∙ ap (minus (i64_or_zero all)) spent in
        let (net, whole) =
          positive_drain all set (fits wollet utxos addr rate p built)
            (ap is_positive (sym recorded) ∙ positive) in
        let same : all - set ≡ amount = ok-injective _ amount (sym preview ∙ shown) in
        (
          recorded ∙ net ∙ ap pos same,
          ap (λ k. amount + k) (fee ∙ spent)
              ∙ ap (λ k. k + i64_or_zero set) (sym same)
              ∙ whole
              ∙ ap (λ us. sum (coins us)) found
              ∙ whole_value,
        )
