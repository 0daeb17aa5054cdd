-- ===== src/Migration/Elements/Sweep/Chain.antt =====
-- The change of a batched sweep, from one transaction to the next.
use mathlib.Core.List.{append_assoc, append-nil}
use test_app_pkcs.Prelude.{
  ℕ, ◌≡◌, refl, sym, ap, ◌∙◌, true, false, Option, none, some, List, [], ◌∷◌, ◌++◌, inl, inr,
}
use test_app_pkcs.Prelude.Result.{ok, err, ok-injective, >>=-eq-ok}
use test_app_pkcs.Prelude.Step.{err-ok}
use test_app_pkcs.Chain.Utxos.{CapturedUtxo}
use test_app_pkcs.Config.{ElementsConfig}
use test_app_pkcs.Elements.Backend.{Clients}
use test_app_pkcs.Migration.Elements.Sweep.{
  no_fee_utxos, ExecAccount, SweepTx, SweepLib, Made, Chained, drop_first, to_list, fee_coins,
  change_of, capture,
}
use test_app_pkcs.Migration.Elements.Sweep.Added.{spent_of, changes_of, Added}

spent_of-snoc : (ms : List Made) (m : Made) → spent_of (ms ++ m ∷ []) ≡ spent_of ms ++ m.fee_inputs
unfolding spent_of
spent_of-snoc [] m = append-nil m.fee_inputs
spent_of-snoc (x ∷ ms) m =
    ap (λ cs. x.fee_inputs ++ cs) (spent_of-snoc ms m)
    ∙ sym (append_assoc x.fee_inputs (spent_of ms) m.fee_inputs)

changes_of-snoc :
    (ms : List Made) (m : Made) → changes_of (ms ++ m ∷ []) ≡ changes_of ms ++ to_list m.change
unfolding changes_of
changes_of-snoc [] m = append-nil (to_list m.change)
changes_of-snoc (x ∷ ms) m =
    ap (λ cs. to_list x.change ++ cs) (changes_of-snoc ms m)
    ∙ sym (append_assoc (to_list x.change) (changes_of ms) (to_list m.change))

-- Before the first transaction, and after one that was not the last: all change but the newest is
-- spent, and of the fee account's coins the first.
abbrev pub Fresh : Chained → Type 0
Fresh s = (s.fee_seed_used ≡ false) × (s.chained ≡ none) × (s.results ≡ [])

abbrev pub Running : List CapturedUtxo → Chained → Type 0
Running coins s =
    (u : CapturedUtxo) × (us : List CapturedUtxo) × (c : CapturedUtxo) × (coins ≡ u ∷ us)
    × (s.fee_seed_used ≡ true)
    × (s.chained ≡ some c)
    × (spent_of s.results ++ c ∷ [] ≡ u ∷ changes_of s.results)

pub fee_coins-seed :
    (u : CapturedUtxo) (us : List CapturedUtxo) (s : Chained)
    → s.chained ≡ none
    → fee_coins false (u ∷ us) s ≡ (ok (u ∷ []), record s { fee_seed_used = true })
unfolding fee_coins
fee_coins-seed u us s e = rw e refl

pub fee_coins-none : (s : Chained) → s.chained ≡ none → fee_coins false [] s ≡ (err no_fee_utxos, s)
unfolding fee_coins
fee_coins-none s e = rw e refl

pub fee_coins-change :
    (us : List CapturedUtxo) (c : CapturedUtxo) (s : Chained)
    → s.chained ≡ some c
    → fee_coins false us s ≡ (ok (c ∷ []), record s { chained = none })
unfolding fee_coins
fee_coins-change us c s e = rw e refl

module _ {D G P C R N : Type 0} (clients : Clients C R SweepTx N) (lib : SweepLib D G P)
    (cfg : ElementsConfig) (net : N) (accounts : List (ExecAccount D G)) (policy_asset : ℕ) where
  change_of-some :
      (addr : ℕ) (tx : SweepTx) (o : Option CapturedUtxo)
      → change_of clients lib cfg net accounts policy_asset false addr tx ≡ ok o
      → (c : CapturedUtxo) × (o ≡ some c)
  unfolding capture
  change_of-some addr tx o h =
      let (c, e, r) = >>=-eq-ok (capture clients lib cfg net accounts policy_asset addr tx) _ h in
      (c, sym (ok-injective (some c) o r))

  -- One coin is spent, and the change of the transaction is next.
  one_coin :
      (addr : ℕ) (coin : CapturedUtxo) (mid t : Chained)
      → Added clients lib cfg net accounts policy_asset (coin ∷ []) false addr mid t
      → (m : Made) × (c : CapturedUtxo) × (m.fee_inputs ≡ coin ∷ [])
        × (m.change ≡ some c)
        × (t.results ≡ mid.results ++ m ∷ [])
        × (t.chained ≡ some c)
        × (t.fee_seed_used ≡ mid.fee_seed_used)
  one_coin addr coin mid t (inl (none_left, same)) = cc
  one_coin addr coin mid t (inr (m, coins, made, listed, next, seed)) =
      let (c, e) = change_of-some addr m.tx m.change made in
      (m, c, coins, e, listed, next ∙ e, seed)

  pub Fresh-Running :
      (fee : ExecAccount D G) (coins : List CapturedUtxo) (addr : ℕ) (s mid t : Chained)
      (found : List CapturedUtxo)
      → Fresh s
      → fee_coins false coins s ≡ (ok found, mid)
      → Added clients lib cfg net accounts policy_asset found false addr mid t
      → Running coins t
  unfolding spent_of changes_of
  Fresh-Running fee [] addr s mid t found (unused, none_yet, empty) picked added =
      absurd (err-ok (ap (λ p. p.0) (sym (fee_coins-none s none_yet) ∙ picked)))
  Fresh-Running fee (u ∷ us) addr s mid t found (unused, none_yet, empty) picked added =
      let here = sym (fee_coins-seed u us s none_yet) ∙ picked in
      let same : u ∷ [] ≡ found = ok-injective (u ∷ []) found (ap (λ p. p.0) here) in
      let moved : record s { fee_seed_used = true } ≡ mid = ap (λ p. p.1) here in
      let (m, c, coins, change, listed, next, seed) = one_coin addr u mid t (rw same added) in
      let results : t.results ≡ m ∷ [] =
        listed ∙ ap (λ rs. rs ++ m ∷ []) (ap (λ x. x.results) (sym moved) ∙ empty) in
      (
        u,
        us,
        c,
        refl,
        seed ∙ ap (λ x. x.fee_seed_used) (sym moved),
        next,
        rw (results, coins, change) refl,
      )

  pub Running-again :
      (coins : List CapturedUtxo) (addr : ℕ) (s mid t : Chained) (found : List CapturedUtxo)
      → Running coins s
      → fee_coins false coins s ≡ (ok found, mid)
      → Added clients lib cfg net accounts policy_asset found false addr mid t
      → Running coins t
  Running-again coins addr s mid t found (u, us, old, split, used, waiting, spent) picked added =
      let here = sym (fee_coins-change coins old s waiting) ∙ picked in
      let same : old ∷ [] ≡ found = ok-injective (old ∷ []) found (ap (λ p. p.0) here) in
      let moved : record s { chained = none } ≡ mid = ap (λ p. p.1) here in
      let (m, c, inputs, change, listed, next, seed) = one_coin addr old mid t (rw same added) in
      let results : t.results ≡ s.results ++ m ∷ [] =
        listed ∙ ap (λ rs. rs ++ m ∷ []) (ap (λ x. x.results) (sym moved)) in
      let all_spent : spent_of t.results ≡ u ∷ changes_of s.results =
        ap spent_of results
        ∙ spent_of-snoc s.results m
        ∙ ap (λ cs. spent_of s.results ++ cs) inputs
        ∙ spent in
      let all_change : changes_of t.results ≡ changes_of s.results ++ c ∷ [] =
        ap changes_of results
        ∙ changes_of-snoc s.results m
        ∙ ap (λ o. changes_of s.results ++ to_list o) change in
      (
        u,
        us,
        c,
        split,
        seed ∙ ap (λ x. x.fee_seed_used) (sym moved) ∙ used,
        next,
        ap (λ cs. cs ++ c ∷ []) all_spent ∙ ap (λ cs. u ∷ cs) (sym all_change),
      )

  final_coins :
      (us : List CapturedUtxo) (s : Chained)
      → fee_coins true us s
        ≡ (ok (drop_first s.fee_seed_used us ++ to_list s.chained), record s { chained = none })
  unfolding fee_coins
  final_coins us s = refl

  -- What the last transaction leaves, from the results before it.
  abbrev pub Closed : List CapturedUtxo → Chained → Chained → Type 0
  Closed coins s t =
      (spent_of t.results ≡ spent_of s.results ++ coins)
      × (changes_of t.results ≡ changes_of s.results)

  pub final-Closed :
      (us found : List CapturedUtxo) (addr : ℕ) (s mid t : Chained)
      → fee_coins true us s ≡ (ok found, mid)
      → Added clients lib cfg net accounts policy_asset found true addr mid t
      → Closed (drop_first s.fee_seed_used us ++ to_list s.chained) s t
  unfolding drop_first spent_of changes_of
  final-Closed us found addr s mid t picked (inl (none_left, same)) =
      let here = sym (final_coins us s) ∙ picked in
      let coins = ok-injective _ found (ap (λ p. p.0) here) in
      let results : t.results ≡ s.results =
        ap (λ x. x.results) same ∙ ap (λ x. x.results) (sym (ap (λ p. p.1) here)) in
      (
        ap spent_of results
            ∙ sym (append-nil (spent_of s.results))
            ∙ ap (λ cs. spent_of s.results ++ cs) (sym (coins ∙ none_left)),
        ap changes_of results,
      )
  final-Closed us found addr s mid t picked (inr (m, inputs, made, listed, next, seed)) =
      let here = sym (final_coins us s) ∙ picked in
      let coins = ok-injective _ found (ap (λ p. p.0) here) in
      let results : t.results ≡ s.results ++ m ∷ [] =
        listed ∙ ap (λ rs. rs ++ m ∷ []) (ap (λ x. x.results) (sym (ap (λ p. p.1) here))) in
      let no_change_left : m.change ≡ none = sym (ok-injective none m.change made) in
      (
        ap spent_of results
            ∙ spent_of-snoc s.results m
            ∙ ap (λ cs. spent_of s.results ++ cs) (inputs ∙ sym coins),
        ap changes_of results
            ∙ changes_of-snoc s.results m
            ∙ ap (λ o. changes_of s.results ++ to_list o) no_change_left
            ∙ append-nil (changes_of s.results),
      )
