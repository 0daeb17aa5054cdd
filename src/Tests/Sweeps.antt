-- ===== src/Tests/Sweeps.antt =====
-- A batched sweep of a customer with one coin, and a fee account with two.
use mathlib.Core.List.{Perm}
use mathlib.Core.List.Perm
use test_app_pkcs.Prelude.{ℕ, ◌≡◌, refl, false, true, some, List, [], ◌∷◌, ◌++◌, any, find?, map}
use test_app_pkcs.Chain.Utxos.{CapturedUtxo, OutPoint}
use test_app_pkcs.Elements.Backend.{Clients, broadcast_via_backend}
use test_app_pkcs.Migration.Elements.Sweep.{
  customer, fee_change, PlannedTx, ExecAccount, SweepTx, SweepLib, Chained, owner_of, owned_indices,
  index_of, fee_coins, drop_first, account_of, gather, sign_scoped, make_tx, capture, sweep_one,
  sweep_all, run_batched,
}
use test_app_pkcs.Migration.Elements.Sweep.Added.{spent_of}
use test_app_pkcs.Migration.Elements.Sweep.Inputs.{spends_of}
use test_app_pkcs.Migration.Elements.Sweep.Owners.{op}
use test_app_pkcs.Wallet.Signing.{
  Input, sign_migration_pset_inputs, sign_all, take_derivations, restore, put_derivation,
}
use test_app_pkcs.Tests.Configs.{config}
use test_app_pkcs.Tests.Utxos.{coin}

abbrev input : Input ℕ ℕ
input = record { bip32_derivation = []; signatures = 0 }

-- A PSET is its outpoints; each transaction pays to script 50, the fee account's old one.
abbrev lib : SweepLib ℕ ℕ (List OutPoint)
lib = record {
  build_migration_pset = λ owned recipients dest. some (map (λ o. o.utxo.outpoint) owned);
  inputs = λ p. map (λ o. input) p;
  with_inputs = λ inps p. p;
  outpoints = λ p. p;
  finalize_p2wsh_pset = λ p. some p;
  extract_tx = λ p. some (record { txid = 9; scripts = 60 ∷ 50 ∷ []; spends = p });
  script_pubkey = λ addr. addr;
  captured_from_output = λ tx vout. some (coin 70 0);
}

abbrev clients : Clients ℕ ℕ SweepTx ℕ
clients = record {
  new_electrum = λ url. some 0;
  new_esplora = λ url net auth. some 0;
  new_waterfalls = λ url net auth. some 0;
  broadcast = λ c t. some t.txid;
  tip_height = λ c. some 100;
  new_rpc = λ rpc. some 0;
  rpc_broadcast = λ r t. some t.txid;
  rpc_tip_height = λ r. some 100;
}

abbrev account : ℕ → List CapturedUtxo → ExecAccount ℕ ℕ
account idx coins = record { account_idx = idx; utxos = coins; signers = []; dest = 80 }

abbrev fee : ExecAccount ℕ ℕ
fee = account 0 (coin 1 5 ∷ coin 2 6 ∷ [])

abbrev accounts : List (ExecAccount ℕ ℕ)
accounts = fee ∷ account 1 (coin 3 7 ∷ []) ∷ []

abbrev early : List PlannedTx
early = record { outputs = customer 1 3 7 ∷ fee_change 2 7 ∷ []; is_fee_final = false } ∷ []

abbrev last : PlannedTx
last = record { outputs = fee_change 4 7 ∷ []; is_fee_final = true }

abbrev swept : Chained
swept = (run_batched clients lib config.elements 1 accounts 7 0 50 (early ++ last ∷ [])).1

batched_spent : spent_of swept.results ≡ coin 1 5 ∷ coin 2 6 ∷ coin 70 0 ∷ []
unfolding run_batched sweep_all sweep_one gather account_of find? any fee_coins drop_first make_tx
    sign_scoped sign_migration_pset_inputs sign_all take_derivations restore put_derivation
    owned_indices owner_of capture index_of broadcast_via_backend spent_of
batched_spent = refl

batched_spends :
    spends_of swept.results
    ≡ op (record { utxo = coin 3 7; account = 1 })
      ∷ (coin 1 5).outpoint
      ∷ (coin 2 6).outpoint
      ∷ (coin 70 0).outpoint
      ∷ []
unfolding run_batched sweep_all sweep_one gather account_of find? any fee_coins drop_first make_tx
    sign_scoped sign_migration_pset_inputs sign_all take_derivations restore put_derivation
    owned_indices owner_of capture index_of broadcast_via_backend spends_of
batched_spends = refl
