-- ===== src/Migration/Elements/Sweep/Owners.antt =====
-- Whose coins a planned transaction gathers for its customers.
use test_app_pkcs.Prelude.{
  ℕ, ◌≡◌, refl, sym, ap, Bool, false, List, [], ◌∷◌, All, All-append, map, any, find?-holds, ◌==◌,
  arith, Bool-cases, inl, inr,
}
use test_app_pkcs.Prelude.Result.{ok, ok_or, ok-injective, >>=-eq-ok}
use test_app_pkcs.Chain.Utxos.{CapturedUtxo, OutPoint}
use test_app_pkcs.Config.{ElementsConfig}
use test_app_pkcs.Elements.Backend.{Clients}
use test_app_pkcs.Migration.Elements.Sweep.{
  PlannedOutput, customer, fee_change, PlannedTx, account_missing, Owned, ExecAccount, SweepTx,
  SweepLib, Gathered, account_of, all_coins, add_customer, add_change, gather,
}
use test_app_pkcs.Migration.Elements.Sweep.Added.{ok_or-ok}

abbrev pub op : Owned → OutPoint
op o = o.utxo.outpoint

-- A planned output that goes to the account as a customer.
abbrev pub is_for : ℕ → PlannedOutput → Bool
is_for account (customer a amount asset) = a == account
is_for account (fee_change amount asset) = false

abbrev pub NotOf : ℕ → Owned → Type 0
NotOf account o = (o.account == account) ≡ false

abbrev pub NoCustomer : ℕ → PlannedTx → Type 0
NoCustomer account p = All (λ o. is_for account o ≡ false) p.outputs

pub map-op :
    (account : ℕ) (us : List CapturedUtxo)
    → map op (map (λ u. record { utxo = u; account = account }) us) ≡ map (λ u. u.outpoint) us
map-op account [] = refl
map-op account (u ∷ us) = ap (λ xs. u.outpoint ∷ xs) (map-op account us)

module _ {D G P C R N : Type 0} (clients : Clients C R SweepTx N) (lib : SweepLib D G P)
    (cfg : ElementsConfig) (net : N) (accounts : List (ExecAccount D G)) (policy_asset : ℕ) where
  map-NotOf :
      (account idx : ℕ) (us : List CapturedUtxo)
      → (idx == account) ≡ false
      → All (NotOf account) (map (λ u. record { utxo = u; account = idx }) us)
  map-NotOf account idx [] h = tt
  map-NotOf account idx (u ∷ us) h = (h, map-NotOf account idx us h)

  add_customer-NotOf :
      (account : ℕ) (a : ExecAccount D G) (amount asset : ℕ)
      (g : Gathered clients lib cfg net accounts policy_asset)
      → (a.account_idx == account) ≡ false
      → All (NotOf account) g.owned
      → All
          (NotOf account)
          (add_customer clients lib cfg net accounts policy_asset a amount asset g).owned
  add_customer-NotOf account a amount asset g other h =
      elim (Bool-cases (any (λ b. b == a.account_idx) g.added)) [
        | inl old ↦ rw old h
        | inr new ↦ rw new (
            All-append (NotOf account) g.owned
              (all_coins clients lib cfg net accounts policy_asset a) h
              (map-NotOf account a.account_idx a.utxos other))
      ]

  add_change-owned :
      (dest amount asset : ℕ) (g : Gathered clients lib cfg net accounts policy_asset)
      → (add_change clients lib cfg net accounts policy_asset dest amount asset g).owned ≡ g.owned
  add_change-owned dest amount asset g = ground arith

  pub gather-NotOf :
      (account dest : ℕ) (outs : List PlannedOutput)
      (g h : Gathered clients lib cfg net accounts policy_asset)
      → All (λ o. is_for account o ≡ false) outs
      → All (NotOf account) g.owned
      → gather clients lib cfg net accounts policy_asset dest outs g ≡ ok h
      → All (NotOf account) h.owned
  unfolding gather account_of
  gather-NotOf account dest [] g h none_for mine run =
      rw (sym (ap (λ x. x.owned) (ok-injective g h run))) mine
  gather-NotOf account dest (customer c amount asset ∷ outs) g h none_for mine run =
      let found = account_of clients lib cfg net accounts policy_asset c in
      let (a, e, more) = >>=-eq-ok (ok_or found account_missing) _ run in
      let same =
        find?-holds (λ x. x.account_idx == c) accounts a (ok_or-ok found account_missing a e) in
      gather-NotOf account dest outs
        (add_customer clients lib cfg net accounts policy_asset a amount asset g) h none_for.1
        (add_customer-NotOf account a amount asset g (ground (arith, same, none_for.0)) mine) more
  gather-NotOf account dest (fee_change amount asset ∷ outs) g h none_for mine run =
      gather-NotOf account dest outs
        (add_change clients lib cfg net accounts policy_asset dest amount asset g) h none_for.1
        (rw (add_change-owned dest amount asset g) mine) run
