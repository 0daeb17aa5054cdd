-- ===== src/Migration/Elements/Sweep/Added.antt =====
-- What one planned transaction of a batched sweep adds to the results.
use test_app_pkcs.Prelude.{
  ℕ, ◌≡◌, refl, sym, ap, ◌∙◌, Bool, true, false, Option, none, some, List, [], ◌∷◌, ◌++◌, map,
  if◌then◌else◌, inl, inr, ◌⊎◌,
}
use test_app_pkcs.Prelude.Result.{Result, ok, err, ok_or, ok-injective}
use test_app_pkcs.Prelude.Step.{lift, >>>-eq-ok, err-ok}
use test_app_pkcs.Chain.Utxos.{CapturedUtxo}
use test_app_pkcs.Config.{ElementsConfig}
use test_app_pkcs.Config.Text.{is_empty}
use test_app_pkcs.Elements.{ElementsWalletError}
use test_app_pkcs.Elements.Backend.{Clients, broadcast_via_backend}
use test_app_pkcs.Migration.Elements.Sweep.{
  PlannedTx, SweepError, Owned, ExecAccount, SweepTx, SweepLib, Made, Chained, Gathered, to_list,
  fee_coins, gather, nothing, make_tx, broadcast, accepted, change_of, capture, emit, emit_if,
  finish_tx, sweep_one,
}

pub ok_or-ok : {A : Type 0} (o : Option A) (e : SweepError) (a : A) → ok_or o e ≡ ok a → o ≡ some a
ok_or-ok none e a h = absurd (err-ok h)
ok_or-ok (some b) e a h = ap some (ok-injective b a h)

-- The fee account's coins that transactions spent, and the change that they left.
unfoldable pub spent_of : List Made → List CapturedUtxo
spent_of [] = []
spent_of (m ∷ ms) = m.fee_inputs ++ spent_of ms

unfoldable pub changes_of : List Made → List CapturedUtxo
changes_of [] = []
changes_of (m ∷ ms) = to_list m.change ++ changes_of ms

module _ {D G P C R N : Type 0} (clients : Clients C R SweepTx N) (lib : SweepLib D G P)
    (cfg : ElementsConfig) (net : N) (accounts : List (ExecAccount D G)) (policy_asset : ℕ) where
  -- What a step adds to the results.
  abbrev pub Added : List CapturedUtxo → Bool → ℕ → Chained → Chained → Type 0
  Added coins final addr s t =
      ((coins ≡ []) × (t ≡ s))
      ⊎ ((m : Made) × (m.fee_inputs ≡ coins)
          × (change_of clients lib cfg net accounts policy_asset final addr m.tx ≡ ok m.change)
          × (t.results ≡ s.results ++ m ∷ [])
          × (t.chained ≡ m.change)
          × (t.fee_seed_used ≡ s.fee_seed_used))

  coins-empty :
      (owned : List Owned) (account : ℕ) (coins : List CapturedUtxo)
      → is_empty (owned ++ map (λ u. record { utxo = u; account = account }) coins) ≡ true
      → coins ≡ []
  coins-empty [] account [] h = refl
  coins-empty [] account (c ∷ cs) h = cc
  coins-empty (o ∷ os) account coins h = cc

  accepted-results :
      (tx : SweepTx) (s t : Chained) (r : Result ElementsWalletError ℕ) (txid : ℕ)
      → accepted clients lib cfg net accounts policy_asset tx s r ≡ (ok txid, t)
      → (t.results ≡ s.results) × (t.fee_seed_used ≡ s.fee_seed_used)
  accepted-results tx s t (err e) txid h = absurd (err-ok (ap (λ p. p.0) h))
  accepted-results tx s t (ok n) txid h =
      let e = ap (λ p. p.1) h in (ap (λ x. x.results) (sym e), ap (λ x. x.fee_seed_used) (sym e))

  -- What was built, broadcast and pushed.
  pub emit-Made :
      (addr : ℕ) (final : Bool) (dest : ℕ) (g : Gathered clients lib cfg net accounts policy_asset)
      (coins : List CapturedUtxo) (owned : List Owned) (s t : Chained)
      → emit clients lib cfg net accounts policy_asset addr final dest g coins owned s ≡ (ok tt, t)
      → (m : Made) × (m.fee_inputs ≡ coins)
        × (m.customer_inputs ≡ g.owned)
        × (make_tx clients lib cfg net accounts policy_asset owned g.recipients dest ≡ ok m.tx)
        × (change_of clients lib cfg net accounts policy_asset final addr m.tx ≡ ok m.change)
        × (t.results ≡ s.results ++ m ∷ [])
        × (t.chained ≡ m.change)
        × (t.fee_seed_used ≡ s.fee_seed_used)
  unfolding broadcast_via_backend make_tx capture
  emit-Made addr final dest g coins owned s t h =
      let (tx, s0, e0, h0) =
        >>>-eq-ok (lift (make_tx clients lib cfg net accounts policy_asset owned g.recipients dest))
          _ s t tt h in
      let (txid, s1, e1, h1) =
        >>>-eq-ok (broadcast clients lib cfg net accounts policy_asset tx) _ s0 t tt h0 in
      let (change, s2, e2, h2) =
        >>>-eq-ok (lift (change_of clients lib cfg net accounts policy_asset final addr tx)) _ s1 t
          tt h1 in
      let (listed, seed) =
        accepted-results tx s0 s1 (broadcast_via_backend clients cfg net tx) txid e1 in
      let m : Made = record {
        tx = tx;
        answered = txid;
        customer_inputs = g.owned;
        fee_inputs = coins;
        report = g.report;
        change = change;
      } in
      let first = ap (λ p. p.1) e0 in
      let third = ap (λ p. p.1) e2 in
      let last = ap (λ p. p.1) h2 in
      (
        m,
        refl,
        refl,
        ap (λ p. p.0) e0,
        ap (λ p. p.0) e2,
        ap (λ x. x.results) (sym last)
            ∙ ap (λ rs. rs ++ m ∷ [])
                (ap (λ x. x.results) (sym third) ∙ listed ∙ ap (λ x. x.results) (sym first)),
        ap (λ x. x.chained) (sym last),
        ap (λ x. x.fee_seed_used) (sym last)
            ∙ ap (λ x. x.fee_seed_used) (sym third)
            ∙ seed
            ∙ ap (λ x. x.fee_seed_used) (sym first),
      )

  emit-Added :
      (addr : ℕ) (final : Bool) (dest : ℕ) (g : Gathered clients lib cfg net accounts policy_asset)
      (coins : List CapturedUtxo) (owned : List Owned) (s t : Chained)
      → emit clients lib cfg net accounts policy_asset addr final dest g coins owned s ≡ (ok tt, t)
      → Added coins final addr s t
  unfolding broadcast_via_backend make_tx capture
  emit-Added addr final dest g coins owned s t h =
      let (m, inputs, _, _, made, listed, next, seed) =
        emit-Made addr final dest g coins owned s t h in
      inr (m, inputs, made, listed, next, seed)

  emit_if-Added :
      (empty : Bool) (addr : ℕ) (final : Bool) (dest : ℕ)
      (g : Gathered clients lib cfg net accounts policy_asset) (coins : List CapturedUtxo)
      (owned : List Owned) (s t : Chained)
      → (empty ≡ true → coins ≡ [])
      → emit_if clients lib cfg net accounts policy_asset empty addr final dest g coins owned s
        ≡ (ok tt, t)
      → Added coins final addr s t
  unfolding broadcast_via_backend make_tx capture
  emit_if-Added true addr final dest g coins owned s t none_left h =
      inl (none_left refl, sym (ap (λ p. p.1) h))
  emit_if-Added false addr final dest g coins owned s t none_left h =
      emit-Added addr final dest g coins owned s t h

  finish-Added :
      (account addr : ℕ) (final : Bool) (dest : ℕ)
      (g : Gathered clients lib cfg net accounts policy_asset) (coins : List CapturedUtxo)
      (s t : Chained)
      → finish_tx clients lib cfg net accounts policy_asset account addr final dest g coins s
        ≡ (ok tt, t)
      → Added coins final addr s t
  finish-Added account addr final dest g coins s t h =
      let owned = g.owned ++ map (λ u. record { utxo = u; account = account }) coins in
      emit_if-Added (is_empty owned) addr final dest g coins owned s t
        (coins-empty g.owned account coins) h

  -- What one planned transaction adds: the coins are those that `fee_coins` picks.
  pub sweep_one-Added :
      (fee : ExecAccount D G) (addr : ℕ) (planned : PlannedTx) (s t : Chained)
      → sweep_one clients lib cfg net accounts policy_asset fee addr planned s ≡ (ok tt, t)
      → (coins : List CapturedUtxo) × (mid : Chained) × (fee_coins planned.is_fee_final fee.utxos s
          ≡ (ok coins, mid))
        × Added coins planned.is_fee_final addr mid t
  unfolding sweep_one
  sweep_one-Added fee addr planned s t h =
      let dest = if planned.is_fee_final then fee.dest else addr in
      let (g, s0, e0, h0) =
        >>>-eq-ok
          (lift (
            gather clients lib cfg net accounts policy_asset dest planned.outputs
              (nothing clients lib cfg net accounts policy_asset)))
          _ s t tt h in
      let (coins, s1, e1, h1) = >>>-eq-ok (fee_coins planned.is_fee_final fee.utxos) _ s0 t tt h0 in
      (
        coins,
        s1,
        ap (fee_coins planned.is_fee_final fee.utxos) (ap (λ p. p.1) e0) ∙ e1,
        finish-Added fee.account_idx addr planned.is_fee_final dest g coins s1 t h1,
      )
