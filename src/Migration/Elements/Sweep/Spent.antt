-- ===== src/Migration/Elements/Sweep/Spent.antt =====
-- Which coins of the fee account a batched sweep spends.
use mathlib.Core.List.{append_assoc, append-nil, Perm}
use mathlib.Core.List.Perm
use mathlib.Core.Path.{subst}
use test_app_pkcs.Prelude.{
  ℕ, ◌≡◌, sym, ap, ◌∙◌, true, false, some, List, [], ◌∷◌, ◌++◌, All, inl, inr, ◌⊎◌,
}
use test_app_pkcs.Prelude.Result.{ok, ok_or}
use test_app_pkcs.Prelude.Step.{lift, >>>-eq-ok}
use test_app_pkcs.Chain.Utxos.{CapturedUtxo}
use test_app_pkcs.Config.{ElementsConfig}
use test_app_pkcs.Elements.Backend.{Clients}
use test_app_pkcs.Migration.Elements.Sweep.{
  PlannedTx, no_fee_utxos, ExecAccount, SweepTx, SweepLib, Chained, drop_first, first_coin, to_list,
  fee_coins, sweep_one, sweep_all, start, run_batched, account_of,
}
use test_app_pkcs.Migration.Elements.Sweep.Added.{
  ok_or-ok, spent_of, changes_of, Added, sweep_one-Added,
}
use test_app_pkcs.Migration.Elements.Sweep.Chain.{
  Fresh, Running, Fresh-Running, Running-again, Closed, final-Closed,
}

module _ {ℓ} {A : Type ℓ} where
  middle : (a : A) (xs ys : List A) → Perm (xs ++ a ∷ ys) (a ∷ (xs ++ ys))
  middle a [] ys = Perm.refl (a ∷ ys)
  middle a (x ∷ xs) ys = Perm.trans (Perm.cons x (middle a xs ys)) (Perm.swap a x (xs ++ ys))

  pub append_swap : (xs ys : List A) → Perm (xs ++ ys) (ys ++ xs)
  append_swap [] ys = rw (append-nil ys) (Perm.refl ys)
  append_swap (x ∷ xs) ys =
      Perm.trans (Perm.cons x (append_swap xs ys)) (Perm.symm (middle x ys xs))

  -- The last change is spent with the rest of the coins.
  closing :
      (spent us ch : List A) (u c : A)
      → spent ++ c ∷ [] ≡ u ∷ ch
      → Perm (spent ++ (us ++ c ∷ [])) (u ∷ (us ++ ch))
  closing spent us ch u c h =
      let regrouped : spent ++ c ∷ us ≡ u ∷ (ch ++ us) =
        sym (append_assoc spent (c ∷ []) us) ∙ ap (λ xs. xs ++ us) h in
      Perm.trans (Perm.append_left spent (append_swap us (c ∷ [])))
        (rw regrouped (Perm.cons u (append_swap ch us)))

module _ {D G P C R N : Type 0} (clients : Clients C R SweepTx N) (lib : SweepLib D G P)
    (cfg : ElementsConfig) (net : N) (accounts : List (ExecAccount D G)) (policy_asset : ℕ) where
  abbrev Ready : List CapturedUtxo → Chained → Type 0
  Ready coins s = Fresh s ⊎ Running coins s

  closed-Perm :
      (coins : List CapturedUtxo) (s t : Chained)
      → Ready coins s
      → Closed clients lib cfg net accounts policy_asset
          (drop_first s.fee_seed_used coins ++ to_list s.chained)
          s
          t
      → Perm (spent_of t.results) (coins ++ changes_of t.results)
  unfolding drop_first spent_of changes_of
  closed-Perm coins s t (inl (unused, none_yet, empty)) (spent, change) =
      let all : spent_of t.results ≡ coins =
        spent
        ∙ ap (λ b. spent_of s.results ++ (drop_first b coins ++ to_list s.chained)) unused
        ∙ ap (λ o. spent_of s.results ++ (coins ++ to_list o)) none_yet
        ∙ ap (λ ms. spent_of ms ++ (coins ++ [])) empty
        ∙ append-nil coins in
      let left : changes_of t.results ≡ [] = change ∙ ap changes_of empty in
      rw (all, left, append-nil coins) (Perm.refl coins)
  closed-Perm coins s t (inr (u, us, c, split, used, waiting, earlier)) (spent, change) =
      let all : spent_of t.results ≡ spent_of s.results ++ (us ++ c ∷ []) =
        spent
        ∙ ap (λ b. spent_of s.results ++ (drop_first b coins ++ to_list s.chained)) used
        ∙ ap (λ o. spent_of s.results ++ (drop_first true coins ++ to_list o)) waiting
        ∙ ap (λ cs. spent_of s.results ++ (drop_first true cs ++ c ∷ [])) split in
      rw (all, change, split) (closing (spent_of s.results) us (changes_of s.results) u c earlier)

  Ready-Running :
      (fee : ExecAccount D G) (addr : ℕ) (s mid t : Chained) (found : List CapturedUtxo)
      → Ready fee.utxos s
      → fee_coins false fee.utxos s ≡ (ok found, mid)
      → Added clients lib cfg net accounts policy_asset found false addr mid t
      → Running fee.utxos t
  unfolding spent_of changes_of
  Ready-Running fee addr s mid t found (inl fresh) picked added =
      Fresh-Running clients lib cfg net accounts policy_asset fee fee.utxos addr s mid t found fresh
        picked added
  Ready-Running fee addr s mid t found (inr running) picked added =
      Running-again clients lib cfg net accounts policy_asset fee.utxos addr s mid t found running
        picked added

  sweep_all-Perm :
      (fee : ExecAccount D G) (addr : ℕ) (early : List PlannedTx) (last : PlannedTx) (s t : Chained)
      → All (λ p. p.is_fee_final ≡ false) early
      → last.is_fee_final ≡ true
      → Ready fee.utxos s
      → sweep_all clients lib cfg net accounts policy_asset fee addr (early ++ last ∷ []) s
        ≡ (ok tt, t)
      → Perm (spent_of t.results) (fee.utxos ++ changes_of t.results)
  unfolding sweep_all
  sweep_all-Perm fee addr [] last s t all final ready run =
      let (_, u, e, done) =
        >>>-eq-ok (sweep_one clients lib cfg net accounts policy_asset fee addr last) _ s t tt
          run in
      let (coins, mid, picked, added) =
        sweep_one-Added clients lib cfg net accounts policy_asset fee addr last s u e in
      let closed =
        final-Closed clients lib cfg net accounts policy_asset fee.utxos coins addr s mid u
          (ap (λ b. fee_coins b fee.utxos s) (sym final) ∙ picked)
          (subst (λ b. Added clients lib cfg net accounts policy_asset coins b addr mid u) final
            added) in
      let result = closed-Perm fee.utxos s u ready closed in rw (sym (ap (λ p. p.1) done)) result
  sweep_all-Perm fee addr (planned ∷ early) last s t all final ready run =
      let (_, u, e, more) =
        >>>-eq-ok (sweep_one clients lib cfg net accounts policy_asset fee addr planned) _ s t tt
          run in
      let (coins, mid, picked, added) =
        sweep_one-Added clients lib cfg net accounts policy_asset fee addr planned s u e in
      let picked_early = ap (λ b. fee_coins b fee.utxos s) (sym all.0) ∙ picked in
      let early_added =
        subst (λ b. Added clients lib cfg net accounts policy_asset coins b addr mid u) all.0
          added in
      let next : Running fee.utxos u =
        Ready-Running fee addr s mid u coins ready picked_early early_added in
      sweep_all-Perm fee addr early last u t all.1 final (inr next) more

  -- The fee inputs that the results record, under a plan whose last transaction alone is the final
  -- one.
  pub run_batched-Perm :
      (fee_idx addr : ℕ) (early : List PlannedTx) (last : PlannedTx) (t : Chained)
      → All (λ p. p.is_fee_final ≡ false) early
      → last.is_fee_final ≡ true
      → run_batched clients lib cfg net accounts policy_asset fee_idx addr (early ++ last ∷ [])
        ≡ (ok tt, t)
      → (fee : ExecAccount D G) × (account_of clients lib cfg net accounts policy_asset fee_idx
          ≡ some fee)
        × Perm (spent_of t.results) (fee.utxos ++ changes_of t.results)
  unfolding run_batched
  run_batched-Perm fee_idx addr early last t all final run =
      let found = account_of clients lib cfg net accounts policy_asset fee_idx in
      let (fee, s, e, ran) =
        >>>-eq-ok (lift (ok_or found no_fee_utxos)) _
          (start clients lib cfg net accounts policy_asset) t tt run in
      let (_, s_first, e_first, swept) = >>>-eq-ok (lift (first_coin fee.utxos)) _ s t tt ran in
      let there = sym (ap (λ p. p.1) e_first) ∙ sym (ap (λ p. p.1) e) in
      (
        fee,
        ok_or-ok found no_fee_utxos fee (ap (λ p. p.0) e),
        sweep_all-Perm fee addr early last s_first t all final
            (inl (
              ap (λ x. x.fee_seed_used) there,
              ap (λ x. x.chained) there,
              ap (λ x. x.results) there,
            ))
            swept,
      )
