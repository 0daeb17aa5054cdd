-- ===== src/Elements/Balances.antt =====
-- Balances of captured UTXOs in `src/elements_wallet.rs`. A `Coin` is what the accessors of
-- `CapturedUtxo` return. Scripts are numbers, and so are asset ids: their texts are hex of one
-- width, which sort as the numbers do. A `u64` sum wraps, as a release build does.
pub mod Totals
use test_app_pkcs.Prelude.{
  ℕ, ◌+◌, ◌-◌, ◌%◌, ◌^◌, Bool, not, ◌&&◌, true, false, Option, none, some, List, [], ◌∷◌, map, keep,
  find?, ltb, ◌==◌, if◌then◌else◌,
}
use test_app_pkcs.Prelude.Sql.{sort_by, upsert}

pub record Coin : Type 0 where
  pub script_pubkey : ℕ
  pub asset : ℕ
  pub value : ℕ
  pub is_spent : Bool

unfoldable pub add_u64 : ℕ → ℕ → ℕ
add_u64 a b = (a + b) % 2 ^ 64

-- A map with totals as values, the entry of a key at most once.
abbrev pub Totals : Type 0
Totals = List (ℕ × ℕ)

abbrev pub or_default : Option (ℕ × ℕ) → ℕ
or_default none = 0
or_default (some e) = e.1

unfoldable pub get : Totals → ℕ → ℕ
get m k = or_default (find? (λ e. e.0 == k) m)

abbrev pub raised : ℕ → ℕ × ℕ → ℕ × ℕ
raised v e = (e.0, add_u64 e.1 v)

-- `*m.entry(k).or_default() += v`
unfoldable pub add_entry : ℕ → ℕ → Totals → Totals
add_entry k v m = upsert (λ e. e.0 == k) (raised v) (k, add_u64 0 v) m

abbrev pub SpkBalances : Type 0
SpkBalances = Totals × Totals

-- Both maps after one coin: received, and unspent.
abbrev pub count_coin : Coin → SpkBalances → SpkBalances
count_coin u (received, unspent) = (
  add_entry u.script_pubkey u.value received,
  (if u.is_spent then unspent else add_entry u.script_pubkey u.value unspent),
)

unfoldable pub balances_from : List Coin → SpkBalances → SpkBalances
balances_from [] m = m
balances_from (u ∷ us) m = balances_from us (count_coin u m)

unfoldable pub balances_by_spk : List Coin → SpkBalances
unfolding balances_from
balances_by_spk utxos = balances_from utxos ([], [])

-- `BTreeMap<String, SpkBalances>`
abbrev pub AssetBalances : Type 0
AssetBalances = List (ℕ × SpkBalances)

abbrev pub counted : Coin → ℕ × SpkBalances → ℕ × SpkBalances
counted u e = (e.0, count_coin u e.1)

unfoldable pub per_asset_from : List Coin → AssetBalances → AssetBalances
per_asset_from [] m = m
per_asset_from (u ∷ us) m =
    per_asset_from us (upsert (λ e. e.0 == u.asset) (counted u) (u.asset, count_coin u ([], [])) m)

unfoldable pub balances_by_spk_per_asset : List Coin → AssetBalances
unfolding per_asset_from
balances_by_spk_per_asset utxos = per_asset_from utxos []

-- `per_asset.keys()`
unfoldable pub keys : AssetBalances → List ℕ
keys m = sort_by (λ k. k) (map (λ e. e.0) m)

unfoldable pub ordered_assets : AssetBalances → ℕ → List ℕ
unfolding keys
ordered_assets per_asset policy = policy ∷ keep (λ k. not (k == policy)) (keys per_asset)

unfoldable pub sum_from : ℕ → List Coin → ℕ
sum_from acc [] = acc
sum_from acc (u ∷ us) = sum_from (add_u64 acc u.value) us

-- `utxos.iter().map(CapturedUtxo::value).sum()`
unfoldable pub sum : List Coin → ℕ
unfolding sum_from
sum utxos = sum_from 0 utxos

-- `balance`, of what `list_unspent` returned, in satoshis
unfoldable pub balance : ℕ → List Coin → ℕ
balance policy utxos = sum (keep (λ u. u.asset == policy) utxos)

-- `asset_total_sat`, of a parsed asset id
unfoldable pub asset_total_sat : ℕ → List Coin → ℕ
asset_total_sat asset utxos = sum (keep (λ u. u.asset == asset) utxos)

unfoldable pub by_asset_from : List Coin → Totals → Totals
by_asset_from [] m = m
by_asset_from (u ∷ us) m = by_asset_from us (add_entry u.asset u.value m)

-- The rows of `asset_balances`, before they are sorted by amount.
unfoldable pub by_asset : List Coin → Totals
unfolding by_asset_from
by_asset utxos = by_asset_from utxos []
