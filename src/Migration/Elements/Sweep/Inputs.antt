-- ===== src/Migration/Elements/Sweep/Inputs.antt =====
-- What the transactions of a batched sweep spend, against the coins of the fee account.
use mathlib.Core.List.{Perm}
use mathlib.Core.List.Perm
use test_app_pkcs.Prelude.{ℕ, ◌≡◌, Bool, List, [], ◌∷◌, ◌++◌, All, map}
use test_app_pkcs.Prelude.Result.{ok}
use test_app_pkcs.Chain.Utxos.{OutPoint}
use test_app_pkcs.Config.{ElementsConfig}
use test_app_pkcs.Elements.Backend.{Clients}
use test_app_pkcs.Migration.Elements.Sweep.{change_of, Owned, ExecAccount, SweepTx, SweepLib, Made}
use test_app_pkcs.Migration.Elements.Sweep.Owners.{op, NotOf}

-- The outpoints that transactions spend, and the coins that were gathered for customers.
unfoldable pub spends_of : List Made → List OutPoint
spends_of [] = []
spends_of (m ∷ ms) = m.tx.spends ++ spends_of ms

unfoldable customers_of : List Made → List Owned
customers_of [] = []
customers_of (m ∷ ms) = m.customer_inputs ++ customers_of ms

abbrev Sound : ℕ → (Made → Type 0) → Made → Type 0
Sound account Q m =
    Perm m.tx.spends (map op m.customer_inputs ++ map (λ u. u.outpoint) m.fee_inputs)
    × All (NotOf account) m.customer_inputs
    × Q m

module _ {D G P C R N : Type 0} (clients : Clients C R SweepTx N) (lib : SweepLib D G P)
    (cfg : ElementsConfig) (net : N) (accounts : List (ExecAccount D G)) (policy_asset : ℕ) where
  -- The recorded change is the output at the fee account's old address, or there is none.
  abbrev pub IsCaptured : ℕ → Made → Type 0
  IsCaptured addr m =
      (final : Bool) × (change_of clients lib cfg net accounts policy_asset final addr m.tx
        ≡ ok m.change)
