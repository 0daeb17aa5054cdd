-- ===== src/Elements/Addresses/Activity/Shown.antt =====
-- The history of an address beside the list of addresses that shows its totals.
use mathlib.Core.Path.{subst}
use test_app_pkcs.Prelude.{
  ℕ, zero, suc, ◌+◌, ◌^◌, ◌<◌, ◌≡◌, refl, sym, ap, ◌∙◌, String, some, List, [], ◌∷◌, ◌++◌, All, map,
  keep, arith, Bool-cases, inl, inr, ◌==◌,
}
use test_app_pkcs.Prelude.Result.{ok, ok_or, ok-injective, >>=-eq-ok}
use test_app_pkcs.Chain.Utxos.{UtxoDb, CapturedUtxo, KeychainKind}
use test_app_pkcs.Elements.{bad_address, descriptor}
use test_app_pkcs.Elements.Addresses.{
  AddressLib, ElementsRevealedAddress, coin_at, listed, revealed, derive_from, derive_with_balances,
  derive_addresses_for_descriptor,
}
use test_app_pkcs.Elements.Addresses.Activity.{
  Received, ElementsAddressActivity, none_yet, u32_or_max, receive, receive_all, pays_to, coins_at,
  activity, address_history,
}
use test_app_pkcs.Elements.Backend.{Clients, tip_height_via_backend}
use test_app_pkcs.Elements.Balances.{SpkBalances, get, balances_by_spk, add_u64}
use test_app_pkcs.Elements.Balances.Totals.{
  value_where, value_where-le, total, at_spk, unspent_at, balances_by_spk_lem, add_u64-fits,
}
use test_app_pkcs.Elements.Manager.Load.{UserElementsWallet}

All-at {ℓ κ} :
    {A : Type ℓ} (P : A → Type κ) (xs : List A) (a : A) (ys : List A) → All P (xs ++ a ∷ ys) → P a
All-at P [] a ys all = all.0
All-at P (x ∷ xs) a ys all = All-at P xs a ys all.1

module _ {S N C R T W : Type 0} (clients : Clients C R T N) (lib : AddressLib N W)
    (uw : UserElementsWallet S N) where
  open lib use {from_descriptor_str, address, script_pubkey, address_from_str}

  receive_all-received :
      (tip spk : ℕ) (us : List CapturedUtxo) (r : Received)
      → r.total_received + value_where (at_spk spk) (map (coin_at clients lib uw) us) < 2 ^ 64
      → (receive_all clients lib uw tip (keep (pays_to clients lib uw spk) us) r).total_received
        ≡ r.total_received + value_where (at_spk spk) (map (coin_at clients lib uw) us)
  unfolding receive_all keep
  receive_all-received tip spk [] r fits = omega arith
  receive_all-received tip spk (u ∷ us) r fits =
      elim (Bool-cases (lib.utxos.script_pubkey u.txout == spk)) [
        | inl hit ↦
            let v = lib.utxos.value u.secrets in
            let e : add_u64 r.total_received v ≡ r.total_received + v =
              add_u64-fits r.total_received v (ground arith) in
            rw hit (
              receive_all-received tip spk us (receive clients lib uw tip u r) (rw e (ground arith))
              ∙ rw e (ground arith))
        | inr miss ↦ rw miss (receive_all-received tip spk us r (ground arith) ∙ ground arith)
      ]

  receive_all-unspent :
      (tip spk : ℕ) (us : List CapturedUtxo) (r : Received)
      → r.unspent + value_where (unspent_at spk) (map (coin_at clients lib uw) us) < 2 ^ 64
      → (receive_all clients lib uw tip (keep (pays_to clients lib uw spk) us) r).unspent
        ≡ r.unspent + value_where (unspent_at spk) (map (coin_at clients lib uw) us)
  unfolding receive_all keep
  receive_all-unspent tip spk [] r fits = omega arith
  receive_all-unspent tip spk (u ∷ us) r fits =
      elim (Bool-cases (lib.utxos.script_pubkey u.txout == spk)) [
        | inl hit ↦ elim (Bool-cases u.is_spent) [
          | inl spent ↦ rw hit (
              receive_all-unspent tip spk us (receive clients lib uw tip u r)
                (rw spent (ground arith))
              ∙ rw spent (ground arith))
          | inr live ↦
              let v = lib.utxos.value u.secrets in
              let e : add_u64 r.unspent v ≡ r.unspent + v =
                add_u64-fits r.unspent v (ground arith) in
              rw hit (
                receive_all-unspent tip spk us (receive clients lib uw tip u r)
                  (rw (live, e) (ground arith))
                ∙ rw (live, e) (ground arith))
        ]
        | inr miss ↦ rw miss (receive_all-unspent tip spk us r (ground arith) ∙ ground arith)
      ]

  -- An address of the list has the totals of its script.
  abbrev HasTotals : SpkBalances → ElementsRevealedAddress → Type 0
  HasTotals m a =
      (a.received ≡ get m.0 (script_pubkey a.address))
      × (a.unspent ≡ get m.1 (script_pubkey a.address))

  derive_from-HasTotals :
      (wollet : W) (chain : KeychainKind) (m : SpkBalances) (i n : ℕ)
      (found : List ElementsRevealedAddress)
      → derive_from clients lib uw wollet chain m i n ≡ ok found
      → All (HasTotals m) found
  unfolding derive_from
  derive_from-HasTotals wollet chain m i zero found h =
      subst (All (HasTotals m)) (ok-injective [] found h) tt
  derive_from-HasTotals wollet chain m i (suc n) found h =
      let (addr, at, h1) = >>=-eq-ok (ok_or (address wollet chain i) descriptor) _ h in
      let (rest, e, h2) = >>=-eq-ok (derive_from clients lib uw wollet chain m (suc i) n) _ h1 in
      subst (All (HasTotals m)) (ok-injective (revealed clients lib uw m i addr ∷ rest) found h2)
        ((refl, refl), derive_from-HasTotals wollet chain m (suc i) n rest e)

  derive_addresses-HasTotals :
      (count : ℕ) (chain : KeychainKind) (desc : String) (mbk : List ℕ) (db : UtxoDb)
      (utxos : List CapturedUtxo) (found : List ElementsRevealedAddress)
      → listed clients lib uw db ≡ ok utxos
      → derive_addresses_for_descriptor clients lib uw count chain desc mbk db ≡ ok found
      → All (HasTotals (balances_by_spk (map (coin_at clients lib uw) utxos))) found
  unfolding derive_addresses_for_descriptor derive_with_balances
  derive_addresses-HasTotals zero chain desc mbk db utxos found e h =
      subst (All (HasTotals (balances_by_spk (map (coin_at clients lib uw) utxos))))
        (ok-injective [] found h) tt
  derive_addresses-HasTotals (suc n) chain desc mbk db utxos found e h =
      let (us, e1, h1) = >>=-eq-ok (listed clients lib uw db) _ h in
      let same : us ≡ utxos = ok-injective us utxos (sym e1 ∙ e) in
      let (wollet, _, h2) =
        >>=-eq-ok (ok_or (from_descriptor_str desc mbk uw.lwk_net) descriptor) _ h1 in
      subst (λ xs. All (HasTotals (balances_by_spk (map (coin_at clients lib uw) xs))) found) same
        (derive_from-HasTotals wollet chain (balances_by_spk (map (coin_at clients lib uw) us)) 0
          (suc n) found h2)

  coins_at-kept :
      (text : String) (addr : ℕ) (db : UtxoDb) (utxos : List CapturedUtxo) (tip : ℕ)
      (kept : List CapturedUtxo)
      → listed clients lib uw db ≡ ok utxos
      → address_from_str text ≡ some addr
      → coins_at clients lib uw text db ≡ ok (tip, kept)
      → kept ≡ keep (pays_to clients lib uw (script_pubkey addr)) utxos
  coins_at-kept text addr db utxos tip kept e parsed run =
      let (a, e1, h1) = >>=-eq-ok (ok_or (address_from_str text) bad_address) _ run in
      let (top, e2, h2) = >>=-eq-ok (tip_height_via_backend clients uw.settings uw.lwk_net) _ h1 in
      let (us, e3, h3) = >>=-eq-ok (listed clients lib uw db) _ h2 in
      let same_addr : a ≡ addr =
        ok-injective a addr (sym e1 ∙ ap (λ o. ok_or o bad_address) parsed) in
      let same_coins : us ≡ utxos = ok-injective us utxos (sym e3 ∙ e) in
      let p : ℕ × List CapturedUtxo =
        (u32_or_max top, keep (pays_to clients lib uw (script_pubkey a)) us) in
      sym (ap (λ q. q.1) (ok-injective p (tip, kept) h3))
      ∙ ap (λ n. keep (pays_to clients lib uw (script_pubkey n)) us) same_addr
      ∙ ap (λ xs. keep (pays_to clients lib uw (script_pubkey addr)) xs) same_coins

  -- What the history shows of an address are the coins at its script.
  address_history-totals :
      (text : String) (addr : ℕ) (db : UtxoDb) (utxos : List CapturedUtxo)
      (history : ElementsAddressActivity)
      → listed clients lib uw db ≡ ok utxos
      → total (map (coin_at clients lib uw) utxos) < 2 ^ 64
      → address_from_str text ≡ some addr
      → address_history clients lib uw text db ≡ ok history
      → let coins = map (coin_at clients lib uw) utxos in
        (history.total_received ≡ value_where (at_spk (script_pubkey addr)) coins)
        × (history.unspent ≡ value_where (unspent_at (script_pubkey addr)) coins)
  unfolding address_history
  address_history-totals text addr db utxos history e fits parsed h =
      let spk = script_pubkey addr in
      let coins = map (coin_at clients lib uw) utxos in
      let (p, run, done) = >>=-eq-ok (coins_at clients lib uw text db) _ h in
      let kept = coins_at-kept text addr db utxos p.0 p.1 e parsed run in
      let shown =
        ok-injective (activity clients lib uw p.0 (receive_all clients lib uw p.0 p.1 none_yet))
          history done in
      let le = value_where-le (at_spk spk) coins in
      let le_unspent = value_where-le (unspent_at spk) coins in
      (
        sym (ap (λ x. x.total_received) shown)
            ∙ ap (λ us. (receive_all clients lib uw p.0 us none_yet).total_received) kept
            ∙ receive_all-received p.0 spk utxos none_yet (omega arith)
            ∙ omega arith,
        sym (ap (λ x. x.unspent) shown)
            ∙ ap (λ us. (receive_all clients lib uw p.0 us none_yet).unspent) kept
            ∙ receive_all-unspent p.0 spk utxos none_yet (omega arith)
            ∙ omega arith,
      )

  -- The history of an address that a list of receive or change addresses shows, of the wallet's
  -- descriptor or of a version's, has the two totals that the list shows, if both succeed and all
  -- coins of the wallet together fit a `u64`.
  pub address_history-derive_addresses_for_descriptor :
      (count : ℕ) (chain : KeychainKind) (desc : String) (mbk : List ℕ) (db : UtxoDb)
      (utxos : List CapturedUtxo) (before after : List ElementsRevealedAddress)
      (a : ElementsRevealedAddress) (text : String) (history : ElementsAddressActivity)
      → listed clients lib uw db ≡ ok utxos
      → total (map (coin_at clients lib uw) utxos) < 2 ^ 64
      → derive_addresses_for_descriptor clients lib uw count chain desc mbk db
        ≡ ok (before ++ a ∷ after)
      → address_from_str text ≡ some a.address
      → address_history clients lib uw text db ≡ ok history
      → (history.total_received ≡ a.received) × (history.unspent ≡ a.unspent)
  address_history-derive_addresses_for_descriptor count chain desc mbk db utxos before after a text
        history e fits shown parsed h =
      let (received, unspent) =
        All-at (HasTotals (balances_by_spk (map (coin_at clients lib uw) utxos))) before a after (
          derive_addresses-HasTotals count chain desc mbk db utxos (before ++ a ∷ after) e shown) in
      let (r, n) =
        balances_by_spk_lem (map (coin_at clients lib uw) utxos) (script_pubkey a.address) fits in
      let (r_here, n_here) =
        address_history-totals text a.address db utxos history e fits parsed h in
      (r_here ∙ sym r ∙ sym received, n_here ∙ sym n ∙ sym unspent)
