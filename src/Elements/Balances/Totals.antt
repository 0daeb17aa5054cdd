-- ===== src/Elements/Balances/Totals.antt =====
-- The totals of the maps against the coins.
use native.Mathlib.Nat.{mod-eq_of_lt}
use test_app_pkcs.Prelude.{
  ℕ, ◌+◌, ◌<◌, ◌≤◌, ◌^◌, ◌≡◌, refl, Bool, not, ◌&&◌, true, false, List, [], ◌∷◌, keep, find?, ◌==◌,
  if◌then◌else◌, arith, Bool-cases, Option-cases, inl, inr, ap, sym, ◌∙◌, ==_self,
}
use test_app_pkcs.Prelude.Sql.{find?-upsert_hit, find?-upsert_miss}
use test_app_pkcs.Elements.Balances.{
  Coin, add_u64, Totals, or_default, get, raised, add_entry, balances_from, balances_by_spk,
  sum_from, sum, balance, asset_total_sat, by_asset_from, by_asset,
}

-- The specification: the value of the coins that a test picks.
abbrev pub value_where : (Coin → Bool) → List Coin → ℕ
value_where p [] = 0
value_where p (u ∷ us) = (if p u then u.value else 0) + value_where p us

abbrev pub total : List Coin → ℕ
total us = value_where (λ u. true) us

pub value_where-le : (p : Coin → Bool) (us : List Coin) → value_where p us ≤ total us
value_where-le p [] = omega arith
value_where-le p (u ∷ us) = ground (arith, value_where-le p us)

pub add_u64-fits : (a b : ℕ) → a + b < 2 ^ 64 → add_u64 a b ≡ a + b
unfolding add_u64
add_u64-fits a b h = mod-eq_of_lt h

get-add_entry_same :
    (k v : ℕ) (m : Totals) → get m k + v < 2 ^ 64 → get (add_entry k v m) k ≡ get m k + v
unfolding get add_entry
get-add_entry_same k v m h =
    rw (find?-upsert_hit (λ e. e.0 == k) (raised v) (k, add_u64 0 v) m (λ e q. q) (==_self k))
      (elim (Option-cases (find? (λ e. e.0 == k) m)) [
        | inl e ↦ rw e (add_u64-fits 0 v (ground arith))
        | inr (x, e) ↦ rw e (add_u64-fits x.1 v (ground arith))
      ])

get-add_entry_other :
    (k v : ℕ) (m : Totals) (j : ℕ) → (k == j) ≡ false → get (add_entry k v m) j ≡ get m j
unfolding get add_entry
get-add_entry_other k v m j other = ap or_default (
    find?-upsert_miss (λ e. e.0 == j) (λ e. e.0 == k) (raised v) (k, add_u64 0 v) m
      (λ e q. (ground arith, ground arith)) other)

get-add_entry :
    (k v : ℕ) (m : Totals) (j : ℕ)
    → get m k + v < 2 ^ 64
    → get (add_entry k v m) j ≡ get m j + (if k == j then v else 0)
get-add_entry k v m j h = elim (Bool-cases (k == j)) [
  | inl same ↦
      let q : k ≡ j = ground arith in
      rw same (
        ap (λ x. get (add_entry k v m) x) (sym q)
        ∙ get-add_entry_same k v m h
        ∙ ap (λ x. get m x + v) q)
  | inr other ↦ rw other (get-add_entry_other k v m j other ∙ omega arith)
]

-- Room for the coins that are left in every entry.
abbrev HasRoom : Totals → List Coin → Type 0
HasRoom m us = (k : ℕ) → get m k + total us < 2 ^ 64

HasRoom-add_entry :
    (k : ℕ) (u : Coin) (us : List Coin) (m : Totals)
    → HasRoom m (u ∷ us)
    → HasRoom (add_entry k u.value m) us
HasRoom-add_entry k u us m room j =
    let big = room k in
    let here = room j in
    let e = get-add_entry k u.value m j (omega (arith, big)) in
    elim (Bool-cases (k == j)) [ inl q ↦ ground arith | inr q ↦ ground arith ]

HasRoom-tail : (u : Coin) (us : List Coin) (m : Totals) → HasRoom m (u ∷ us) → HasRoom m us
HasRoom-tail u us m room k = omega (arith, room k)

abbrev pub at_spk : ℕ → Coin → Bool
at_spk spk u = u.script_pubkey == spk

abbrev pub unspent_at : ℕ → Coin → Bool
unspent_at spk u = not u.is_spent && u.script_pubkey == spk

balances_from-received :
    (us : List Coin) (r n : Totals) (spk : ℕ)
    → HasRoom r us
    → get (balances_from us (r, n)).0 spk ≡ get r spk + value_where (at_spk spk) us
unfolding balances_from
balances_from-received [] r n spk room = omega arith
balances_from-received (u ∷ us) r n spk room =
    let big = room u.script_pubkey in
    balances_from-received us (add_entry u.script_pubkey u.value r)
      (if u.is_spent then n else add_entry u.script_pubkey u.value n) spk
      (HasRoom-add_entry u.script_pubkey u us r room)
    ∙ rw (get-add_entry u.script_pubkey u.value r spk (omega (arith, big))) (omega arith)

balances_from-unspent :
    (us : List Coin) (r n : Totals) (spk : ℕ)
    → HasRoom n us
    → get (balances_from us (r, n)).1 spk ≡ get n spk + value_where (unspent_at spk) us
unfolding balances_from
balances_from-unspent [] r n spk room = omega arith
balances_from-unspent (u ∷ us) r n spk room = elim (Bool-cases u.is_spent) [
  | inl spent ↦ rw spent (
      balances_from-unspent us (add_entry u.script_pubkey u.value r) n spk
        (HasRoom-tail u us n room)
      ∙ ground arith)
  | inr live ↦
      let big = room u.script_pubkey in
      rw live (
        balances_from-unspent us (add_entry u.script_pubkey u.value r)
          (add_entry u.script_pubkey u.value n) spk (HasRoom-add_entry u.script_pubkey u us n room)
        ∙ rw (get-add_entry u.script_pubkey u.value n spk (omega (arith, big))) (ground arith))
]

get-nil : (k : ℕ) → get [] k ≡ 0
unfolding get find?
get-nil k = refl

-- If all coins together fit a `u64`, a script's two totals are the value of its coins, and of its
-- unspent coins.
pub balances_by_spk_lem :
    (utxos : List Coin) (spk : ℕ)
    → total utxos < 2 ^ 64
    → (get (balances_by_spk utxos).0 spk ≡ value_where (at_spk spk) utxos)
      × (get (balances_by_spk utxos).1 spk ≡ value_where (unspent_at spk) utxos)
unfolding balances_by_spk
balances_by_spk_lem utxos spk fits =
    let room : HasRoom [] utxos = λ k. omega (arith, get-nil k) in
    (
      omega (arith, balances_from-received utxos [] [] spk room, get-nil spk),
      omega (arith, balances_from-unspent utxos [] [] spk room, get-nil spk),
    )

sum_from-total :
    (acc : ℕ) (us : List Coin) → acc + total us < 2 ^ 64 → sum_from acc us ≡ acc + total us
unfolding sum_from
sum_from-total acc [] fits = omega arith
sum_from-total acc (u ∷ us) fits =
    let e = add_u64-fits acc u.value (omega arith) in
    rw e (sum_from-total (acc + u.value) us (omega arith) ∙ omega arith)

pub sum-total : (us : List Coin) → total us < 2 ^ 64 → sum us ≡ total us
unfolding sum
sum-total us fits = sum_from-total 0 us (omega arith) ∙ omega arith

total-keep : (p : Coin → Bool) (us : List Coin) → total (keep p us) ≡ value_where p us
unfolding keep
total-keep p [] = refl
total-keep p (u ∷ us) = ground (arith, total-keep p us)

asset_total-value :
    (asset : ℕ) (us : List Coin)
    → total us < 2 ^ 64
    → asset_total_sat asset us ≡ value_where (λ u. u.asset == asset) us
unfolding asset_total_sat sum
asset_total-value asset us fits =
    let p : Coin → Bool = λ u. u.asset == asset in
    let e = total-keep p us in
    let le = value_where-le p us in sum_from-total 0 (keep p us) (omega arith) ∙ omega arith

by_asset_from-value :
    (us : List Coin) (m : Totals) (asset : ℕ)
    → HasRoom m us
    → get (by_asset_from us m) asset ≡ get m asset + value_where (λ u. u.asset == asset) us
unfolding by_asset_from
by_asset_from-value [] m asset room = omega arith
by_asset_from-value (u ∷ us) m asset room =
    let big = room u.asset in
    by_asset_from-value us (add_entry u.asset u.value m) asset
      (HasRoom-add_entry u.asset u us m room)
    ∙ rw (get-add_entry u.asset u.value m asset (omega (arith, big))) (omega arith)

-- The three balances agree: an asset's row of `asset_balances`, its `asset_total_sat`, and for the
-- policy asset the L-BTC `balance` are the value of its coins, if all coins fit a `u64`.
pub asset_balances_lem :
    (utxos : List Coin) (asset : ℕ)
    → total utxos < 2 ^ 64
    → let value = value_where (λ u. u.asset == asset) utxos in
      (get (by_asset utxos) asset ≡ value)
      × (asset_total_sat asset utxos ≡ value)
      × (balance asset utxos ≡ value)
unfolding by_asset balance
asset_balances_lem utxos asset fits =
    let room : HasRoom [] utxos = λ k. omega (arith, get-nil k) in
    let e = asset_total-value asset utxos fits in
    (
      omega (arith, by_asset_from-value utxos [] asset room, get-nil asset),
      e,
      unfold asset_total_sat in e,
    )
