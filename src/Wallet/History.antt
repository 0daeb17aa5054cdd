-- ===== src/Wallet/History.antt =====
-- The payments to an address: `UserWallet::address_history` of `src/wallet.rs`. BDK's view of each
-- version wallet is an argument, and `outpoint` is `OutPoint::new`, with outpoints as numbers.
pub mod Payments
pub mod Receipts
use test_app_pkcs.Prelude.{
  ℕ, zero, suc, ◌+◌, ◌-◌, ◌^◌, Bool, true, false, Option, none, some, List, [], ◌∷◌, ◌++◌, ltb,
  ◌==◌, if◌then◌else◌,
}
use test_app_pkcs.Prelude.Result.{Result, ok, err, ◌>>=◌}
use test_app_pkcs.Prelude.Sql.{sort_by}
use test_app_pkcs.Wallet.{WalletError, panicked}
use test_app_pkcs.Wallet.Reconcile.{contains}

pub record WalletTx : Type 0 where
  pub txid : ℕ
  pub output : List (ℕ × ℕ)
  pub confirmed_at : Option ℕ

-- `list_output` as outpoints and their spent flags, and `transactions`.
pub record View : Type 0 where
  pub list_output : List (ℕ × Bool)
  pub transactions : List WalletTx

pub record AddressReceipt : Type 0 where
  pub txid : ℕ
  pub vout : ℕ
  pub amount : ℕ
  pub confirmation_height : Option ℕ
  pub confirmations : ℕ
  pub is_spent : Bool

pub record AddressActivity : Type 0 where
  pub tip_height : ℕ
  pub total_received : ℕ
  pub unspent : ℕ
  pub receipts : List AddressReceipt

-- The variables of the loop.
pub record Counted : Type 0 where
  pub seen_outpoints : List ℕ
  pub receipts : List AddressReceipt
  pub total_received : ℕ
  pub unspent : ℕ

-- `+=` of amounts, which panics on an overflow.
abbrev pub add_amount : ℕ → ℕ → Result WalletError ℕ
add_amount a b = if ltb (a + b) (2 ^ 64) then ok (a + b) else err panicked

abbrev pub or_else : Option Bool → Option Bool → Option Bool
or_else none other = other
or_else (some b) other = some b

-- A lookup in the map that `collect` makes, where a later pair replaces an earlier one.
unfoldable pub spent_status : List (ℕ × Bool) → ℕ → Option Bool
spent_status [] o = none
spent_status ((k, b) ∷ outs) o =
    let later = spent_status outs o in or_else later (if k == o then some b else none)

abbrev pub or_false : Option Bool → Bool
or_false none = false
or_false (some b) = b

-- `saturating_add` of a `u32`, and `u32::try_from(…).unwrap_or(u32::MAX)`
abbrev pub as_u32 : ℕ → ℕ
as_u32 n = if ltb n (2 ^ 32) then n else 2 ^ 32 - 1

abbrev pub confirmations_at : ℕ → Option ℕ → ℕ
confirmations_at tip none = 0
confirmations_at tip (some h) = as_u32 (tip - h + 1)

abbrev pub height_or_max : Option ℕ → ℕ
height_or_max none = 2 ^ 32 - 1
height_or_max (some h) = h

abbrev pub add_unspent : AddressReceipt → ℕ → Result WalletError ℕ
add_unspent r unspent = if r.is_spent then ok unspent else add_amount unspent r.amount

unfoldable pub push : ℕ → AddressReceipt → Counted → Result WalletError Counted
push o r acc = add_amount acc.total_received r.amount >>= λ total.
    add_unspent r acc.unspent >>= λ unspent. ok (record {
      seen_outpoints = o ∷ acc.seen_outpoints;
      receipts = acc.receipts ++ r ∷ [];
      total_received = total;
      unspent = unspent;
    })

module _ (outpoint : ℕ → ℕ → ℕ) (tip target : ℕ) where
  abbrev pub receipt_of : View → WalletTx → ℕ → ℕ → AddressReceipt
  receipt_of vw wtx vout value = record {
    txid = wtx.txid;
    vout = as_u32 vout;
    amount = value;
    confirmation_height = wtx.confirmed_at;
    confirmations = confirmations_at tip wtx.confirmed_at;
    is_spent = or_false (spent_status vw.list_output (outpoint wtx.txid (as_u32 vout)));
  }

  abbrev pub push_new : ℕ → AddressReceipt → Counted → Result WalletError Counted
  push_new o r acc = if contains acc.seen_outpoints o then ok acc else push o r acc

  abbrev pub count_output : View → WalletTx → ℕ → ℕ × ℕ → Counted → Result WalletError Counted
  count_output vw wtx vout (spk, value) acc =
      if spk == target
      then push_new (outpoint wtx.txid (as_u32 vout)) (receipt_of vw wtx vout value) acc
      else ok acc

  unfoldable pub count_outputs :
      View → WalletTx → ℕ → List (ℕ × ℕ) → Counted → Result WalletError Counted
  count_outputs vw wtx vout [] acc = ok acc
  count_outputs vw wtx vout (out ∷ outs) acc =
      count_output vw wtx vout out acc >>= count_outputs vw wtx (suc vout) outs

  unfoldable pub count_txs : View → List WalletTx → Counted → Result WalletError Counted
  unfolding count_outputs
  count_txs vw [] acc = ok acc
  count_txs vw (wtx ∷ txs) acc = count_outputs vw wtx 0 wtx.output acc >>= count_txs vw txs

  unfoldable pub count_wallets : List View → Counted → Result WalletError Counted
  unfolding count_txs
  count_wallets [] acc = ok acc
  count_wallets (vw ∷ vws) acc = count_txs vw vw.transactions acc >>= count_wallets vws

  abbrev pub activity : Counted → AddressActivity
  activity acc = record {
    tip_height = tip;
    total_received = acc.total_received;
    unspent = acc.unspent;
    receipts = sort_by (λ r. height_or_max r.confirmation_height) acc.receipts;
  }

  abbrev pub nothing_counted : Counted
  nothing_counted = record { seen_outpoints = []; receipts = []; total_received = 0; unspent = 0 }

  unfoldable pub address_history : List View → Result WalletError AddressActivity
  unfolding count_wallets
  address_history vws = count_wallets vws nothing_counted >>= λ acc. ok (activity acc)
