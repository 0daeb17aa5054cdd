-- ===== src/Migration/Elements/Sweep.antt =====
-- The batched sweep of `run_elements_migration` in `examples/federation_migration.rs`: one transaction
-- after another, each paid from the change of the one before. The plan is the planner's of emvault.
pub mod Added
pub mod Chain
pub mod Spent
pub mod Owners
pub mod Inputs
pub mod Plan
use test_app_pkcs.Prelude.{
  ℕ, suc, Bool, true, false, not, ◌&&◌, Option, none, some, List, [], ◌∷◌, ◌++◌, any, find?, map,
  ◌==◌, if◌then◌else◌,
}
use test_app_pkcs.Prelude.Result.{Result, ok, err, ok_or, ◌>>=◌}
use test_app_pkcs.Prelude.Step.{Action, lift, pure, ◌>>>◌}
use test_app_pkcs.Chain.Utxos.{CapturedUtxo, OutPoint}
use test_app_pkcs.Config.{ElementsConfig}
use test_app_pkcs.Config.Text.{is_empty}
use test_app_pkcs.Elements.{ElementsWalletError}
use test_app_pkcs.Elements.Backend.{Clients, broadcast_via_backend}
use test_app_pkcs.Wallet.Signing.{Input, sign_migration_pset_inputs}
unfoldable pub use Plan.*

module _ {D G P C R N : Type 0} (clients : Clients C R SweepTx N) (lib : SweepLib D G P)
    (cfg : ElementsConfig) (net : N) (accounts : List (ExecAccount D G)) (policy_asset : ℕ) where
  open lib use {
    build_migration_pset, inputs, with_inputs, outpoints, finalize_p2wsh_pset, extract_tx,
    script_pubkey, captured_from_output,
  }

  unfoldable pub account_of : ℕ → Option (ExecAccount D G)
  account_of account = find? (λ a. a.account_idx == account) accounts

  -- What the loop over the outputs collects.
  pub record Gathered : Type 0 where
    pub owned : List Owned
    pub recipients : List Recipient
    pub report : List (ℕ × ℕ)
    pub added : List ℕ

  abbrev pub all_coins : ExecAccount D G → List Owned
  all_coins a = map (λ u. record { utxo = u; account = a.account_idx }) a.utxos

  -- The coins of an account are inputs once, however many assets it has.
  abbrev pub add_customer : ExecAccount D G → ℕ → ℕ → Gathered → Gathered
  add_customer a amount asset g =
      let paid = record g {
        recipients =
            g.recipients ++ record { address = a.dest; amount = amount; asset = asset } ∷ [];
        report = g.report ++ (a.account_idx, amount) ∷ [];
      } in
      if any (λ b. b == a.account_idx) g.added
      then paid
      else record paid { owned = g.owned ++ all_coins a; added = a.account_idx ∷ g.added }

  abbrev pub add_change : ℕ → ℕ → ℕ → Gathered → Gathered
  add_change fee_dest amount asset g =
      if not (asset == policy_asset)
      then record g {
        recipients =
            g.recipients ++ record { address = fee_dest; amount = amount; asset = asset } ∷ [];
      }
      else g

  unfoldable pub gather : ℕ → List PlannedOutput → Gathered → Result SweepError Gathered
  unfolding account_of
  gather fee_dest [] g = ok g
  gather fee_dest (customer account amount asset ∷ os) g = do
    a ← ok_or (account_of account) account_missing
    gather fee_dest os (add_customer a amount asset g)
  gather fee_dest (fee_change amount asset ∷ os) g =
      gather fee_dest os (add_change fee_dest amount asset g)

  abbrev pub nothing : Gathered
  nothing = record { owned = []; recipients = []; report = []; added = [] }

  abbrev pub sign_account : List Owned → ExecAccount D G → P → P
  sign_account owner a p =
      with_inputs
        (sign_migration_pset_inputs a.signers (owned_indices owner a.account_idx 0 (outpoints p))
          (inputs p))
        p

  -- The accounts that own an input sign, in the order of the list; the code's order is any.
  unfoldable pub sign_scoped : List Owned → List (ExecAccount D G) → P → P
  unfolding sign_migration_pset_inputs owned_indices
  sign_scoped owner [] p = p
  sign_scoped owner (a ∷ rest) p =
      sign_scoped owner rest
        (if any (λ o. o.account == a.account_idx) owner then sign_account owner a p else p)

  unfoldable pub make_tx : List Owned → List Recipient → ℕ → Result SweepError SweepTx
  unfolding sign_scoped
  make_tx owned recipients fee_dest = do
    p ← ok_or (build_migration_pset owned recipients fee_dest) build
    final ← ok_or (finalize_p2wsh_pset (sign_scoped owned accounts p)) finalize
    ok_or (extract_tx final) finalize

  abbrev pub accepted :
      SweepTx → Chained → Result ElementsWalletError ℕ → Result SweepError ℕ × Chained
  accepted tx s (err e) = (err (backend e), s)
  accepted tx s (ok txid) = (ok txid, record s { broadcasts = tx ∷ s.broadcasts })

  abbrev pub broadcast : SweepTx → Action SweepError Chained ℕ
  broadcast tx s = accepted tx s (broadcast_via_backend clients cfg net tx)

  -- The change at the fee account's old address.
  unfoldable pub capture : ℕ → SweepTx → Result SweepError CapturedUtxo
  unfolding index_of
  capture fee_old_addr tx = do
    vout ← ok_or (index_of 0 (script_pubkey fee_old_addr) tx.scripts) no_change
    ok_or (captured_from_output tx vout) no_change

  abbrev pub change_of : Bool → ℕ → SweepTx → Result SweepError (Option CapturedUtxo)
  change_of true fee_old_addr tx = ok none
  change_of false fee_old_addr tx = do c ← capture fee_old_addr tx; ok (some c)

  abbrev pub push_result : Made → Action SweepError Chained (Unit {0})
  push_result m s = (ok tt, record s { chained = m.change; results = s.results ++ m ∷ [] })

  -- Build, broadcast, and keep the change for the next transaction.
  abbrev pub emit :
      ℕ
      → Bool
      → ℕ
      → Gathered
      → List CapturedUtxo
      → List Owned
      → Action SweepError Chained (Unit {0})
  emit fee_old_addr final fee_dest g coins owned =
      lift (make_tx owned g.recipients fee_dest) >>> λ tx. broadcast tx >>> λ txid.
      lift (change_of final fee_old_addr tx) >>> λ change. push_result (record {
        tx = tx;
        answered = txid;
        customer_inputs = g.owned;
        fee_inputs = coins;
        report = g.report;
        change = change;
      })

  -- A transaction without inputs is skipped.
  abbrev pub emit_if :
      Bool
      → ℕ
      → Bool
      → ℕ
      → Gathered
      → List CapturedUtxo
      → List Owned
      → Action SweepError Chained (Unit {0})
  emit_if true fee_old_addr final fee_dest g coins owned = pure tt
  emit_if false fee_old_addr final fee_dest g coins owned =
      emit fee_old_addr final fee_dest g coins owned

  abbrev pub finish_tx :
      ℕ → ℕ → Bool → ℕ → Gathered → List CapturedUtxo → Action SweepError Chained (Unit {0})
  finish_tx fee_idx fee_old_addr final fee_dest g coins =
      let owned = g.owned ++ map (λ u. record { utxo = u; account = fee_idx }) coins in
      emit_if (is_empty owned) fee_old_addr final fee_dest g coins owned

  -- One planned transaction.
  unfoldable pub sweep_one : ExecAccount D G → ℕ → PlannedTx → Action SweepError Chained (Unit {0})
  unfolding gather fee_coins make_tx broadcast_via_backend capture
  sweep_one fee fee_old_addr planned =
      let fee_dest = if planned.is_fee_final then fee.dest else fee_old_addr in
      lift (gather fee_dest planned.outputs nothing) >>> λ g.
      fee_coins planned.is_fee_final fee.utxos >>> λ coins.
      finish_tx fee.account_idx fee_old_addr planned.is_fee_final fee_dest g coins

  unfoldable pub sweep_all :
      ExecAccount D G → ℕ → List PlannedTx → Action SweepError Chained (Unit {0})
  unfolding sweep_one
  sweep_all fee fee_old_addr [] = pure tt
  sweep_all fee fee_old_addr (planned ∷ rest) =
      sweep_one fee fee_old_addr planned >>> λ _. sweep_all fee fee_old_addr rest

  abbrev pub start : Chained
  start = record { chained = none; fee_seed_used = false; results = []; broadcasts = [] }

  -- The whole batched sweep. The fee account must be among the funded ones, and have a coin.
  unfoldable pub run_batched : ℕ → ℕ → List PlannedTx → Result SweepError (Unit {0}) × Chained
  unfolding sweep_all account_of
  run_batched fee_idx fee_old_addr plan =
      (lift (ok_or (account_of fee_idx) no_fee_utxos) >>> λ fee.
      lift (first_coin fee.utxos) >>> λ _. sweep_all fee fee_old_addr plan)
        start
