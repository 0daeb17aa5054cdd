-- ===== src/Migration/Elements/Sweep/Plan.antt =====
-- The plan of a batched Elements sweep, and the state of the loop that runs it
-- (`run_elements_migration` in `examples/federation_migration.rs`).
use test_app_pkcs.Prelude.{
  ℕ, suc, Bool, true, false, ◌&&◌, Option, none, some, List, [], ◌∷◌, ◌++◌, ◌==◌, if◌then◌else◌,
}
use test_app_pkcs.Prelude.Result.{Result, ok, err}
use test_app_pkcs.Prelude.Step.{Action}
use test_app_pkcs.Chain.Utxos.{CapturedUtxo, OutPoint}
use test_app_pkcs.Elements.{ElementsWalletError}
use test_app_pkcs.Wallet.Signing.{Input}

-- `ElementsSweepOutput`: account, amount and asset, or amount and asset
pub data PlannedOutput : Type 0 where
  customer : ℕ → ℕ → ℕ → PlannedOutput
  fee_change : ℕ → ℕ → PlannedOutput

pub record PlannedTx : Type 0 where
  pub outputs : List PlannedOutput
  pub is_fee_final : Bool

pub data SweepError : Type 0 where
  account_missing no_fee_utxos build finalize no_change : SweepError
  backend : ElementsWalletError → SweepError

pub record Recipient : Type 0 where
  pub address : ℕ
  pub amount : ℕ
  pub asset : ℕ

-- An input and the account that owns it, whose wollet it is built with.
pub record Owned : Type 0 where
  pub utxo : CapturedUtxo
  pub account : ℕ

-- `ElementsExecAccount`; a signer turns the inputs of a PSET into signed ones.
pub record ExecAccount (D G : Type 0) : Type 0 where
  pub account_idx : ℕ
  pub utxos : List CapturedUtxo
  pub signers : List (List (Input D G) → List (Input D G))
  pub dest : ℕ

pub record SweepTx : Type 0 where
  pub txid : ℕ
  pub scripts : List ℕ
  pub spends : List OutPoint

-- A PSET of type `P`, and what emvault does with it.
pub record SweepLib (D G P : Type 0) : Type 0 where
  pub build_migration_pset : List Owned → List Recipient → ℕ → Option P
  pub inputs : P → List (Input D G)
  pub with_inputs : List (Input D G) → P → P
  pub outpoints : P → List OutPoint
  pub finalize_p2wsh_pset : P → Option P
  pub extract_tx : P → Option SweepTx
  pub script_pubkey : ℕ → ℕ
  pub captured_from_output : SweepTx → ℕ → Option CapturedUtxo

abbrev pub same_outpoint : OutPoint → OutPoint → Bool
same_outpoint a b = a.txid == b.txid && a.vout == b.vout

-- The map of owners keeps the last account that was inserted for an outpoint.
unfoldable pub owner_of : OutPoint → List Owned → Option ℕ
owner_of op [] = none
owner_of op (o ∷ os) =
    let rest = owner_of op os in
    elim rest [
      | some account ↦ some account
      | none ↦ if same_outpoint o.utxo.outpoint op then some o.account else none
    ]

abbrev pub is_account : ℕ → Option ℕ → Bool
is_account account none = false
is_account account (some a) = a == account

-- The positions, from `i` on, of the inputs that an account owns.
unfoldable pub owned_indices : List Owned → ℕ → ℕ → List OutPoint → List ℕ
unfolding owner_of
owned_indices owner account i [] = []
owned_indices owner account i (op ∷ ops) =
    let rest = owned_indices owner account (suc i) ops in
    if is_account account (owner_of op owner) then i ∷ rest else rest

unfoldable pub index_of : ℕ → ℕ → List ℕ → Option ℕ
index_of i spk [] = none
index_of i spk (s ∷ ss) = let rest = index_of (suc i) spk ss in if s == spk then some i else rest

unfoldable pub drop_first : Bool → List CapturedUtxo → List CapturedUtxo
drop_first false us = us
drop_first true [] = []
drop_first true (u ∷ us) = us

abbrev pub first_coin : List CapturedUtxo → Result SweepError CapturedUtxo
first_coin [] = err no_fee_utxos
first_coin (u ∷ us) = ok u

abbrev pub to_list : Option CapturedUtxo → List CapturedUtxo
to_list none = []
to_list (some c) = c ∷ []

-- A transaction that was broadcast: the coins of customers and of the fee account that it spent, and
-- the change that it left for the next.
pub record Made : Type 0 where
  pub tx : SweepTx
  pub answered : ℕ
  pub customer_inputs : List Owned
  pub fee_inputs : List CapturedUtxo
  pub report : List (ℕ × ℕ)
  pub change : Option CapturedUtxo

-- The variables of the loop, and the transactions that a backend accepted.
pub record Chained : Type 0 where
  pub chained : Option CapturedUtxo
  pub fee_seed_used : Bool
  pub results : List Made
  pub broadcasts : List SweepTx

-- The coins that pay the fee of the next transaction.
unfoldable pub fee_coins : Bool → List CapturedUtxo → Action SweepError Chained (List CapturedUtxo)
unfolding drop_first
fee_coins true us s =
    (ok (drop_first s.fee_seed_used us ++ to_list s.chained), record s { chained = none })
fee_coins false us s = elim s.chained [
  | some c ↦ (ok (c ∷ []), record s { chained = none })
  | none ↦ elim us [
    | [] ↦ (err no_fee_utxos, s)
    | u ∷ rest ↦ (ok (u ∷ []), record s { fee_seed_used = true })
  ]
]
