-- ===== src/Tests/Utxos.antt =====
-- The UTXO and checkpoint stores.
use test_app_pkcs.Prelude.{ℕ, ◌≡◌, refl, false, [], ◌∷◌, arith, any, keep}
use test_app_pkcs.Prelude.Result.{ok}
use test_app_pkcs.Prelude.Sql.{upsert, update_where}
use test_app_pkcs.Chain.Utxos.{
  chain_to_i16, i16_to_chain, CapturedUtxo, external, UtxoRow, UtxoDb, recapture, spend_at,
  upsert_row, mark_row, rollback_above,
}
use test_app_pkcs.Chain.Utxos.Codec.{
  row_of, upsert_utxos, list_unspent, list_unspent-upsert_utxos, collect, decode_row, Fits,
}
use test_app_pkcs.Chain.Utxos.Rollback.{Scan, here, capture, spend, rollback_above-undoes_Scan}
use test_app_pkcs.Chain.Checkpoints.{CheckpointDb, CheckpointRow}
use test_app_pkcs.Tests.Data.{utxo_lib, unary}

abbrev pub coin : ℕ → ℕ → CapturedUtxo
coin txid height = record {
  wallet_id = 1;
  outpoint = record { txid = txid; vout = 0 };
  txout = 5;
  secrets = 3;
  chain = external;
  wildcard_index = 0;
  height = height;
  is_spent = false;
}

abbrev stored : ℕ → ℕ → UtxoRow
stored txid height = row_of utxo_lib (coin txid height) (unary 3)

abbrev pub utxos : UtxoDb
utxos = record { wallets = 1 ∷ []; utxos = stored 8 2 ∷ [] }

coin-Fits : Fits utxo_lib (coin 9 4) (unary 3)
coin-Fits = record {
  encodes = refl;
  vout = omega arith;
  wildcard_index = omega arith;
  height = omega arith;
  value = omega arith;
  unspent = refl;
}

list_unspent_example :
    let out = upsert_utxos utxo_lib (coin 9 4 ∷ []) (record { served = 1; db = utxos }) in
    (out.0 ≡ ok tt) × (list_unspent utxo_lib 1 out.1.db ≡ ok (coin 8 2 ∷ coin 9 4 ∷ []))
unfolding any list_unspent collect decode_row keep chain_to_i16 i16_to_chain
list_unspent_example =
    list_unspent-upsert_utxos utxo_lib (coin 9 4) (unary 3) 0 utxos (coin 8 2 ∷ []) coin-Fits refl
      refl refl

abbrev spent : UtxoRow
spent = spend_at 5 (stored 8 2)

abbrev spent_db : UtxoDb
spent_db = record { wallets = 1 ∷ []; utxos = spent ∷ [] }

abbrev recaptured_db : UtxoDb
recaptured_db = record { wallets = 1 ∷ []; utxos = recapture (stored 8 3) spent ∷ [] }

abbrev captured_db : UtxoDb
captured_db = record { wallets = 1 ∷ []; utxos = stored 8 2 ∷ stored 9 4 ∷ [] }

abbrev scanned_db : UtxoDb
scanned_db = record { wallets = 1 ∷ []; utxos = spend_at 5 (stored 8 2) ∷ stored 9 4 ∷ [] }

-- Above height 3: a capture at 4, and at 5 a spend of the older coin.
scan : Scan utxo_lib 3 utxos scanned_db
unfolding any upsert_row upsert mark_row update_where chain_to_i16
scan =
    spend {t = captured_db} (unary 8) 0 5
      (capture (coin 9 4) (unary 3) here (omega arith) refl refl) (omega arith) refl refl

undoes_example :
    rollback_above 3 (record { served = 2; db = scanned_db })
    ≡ (ok tt, record { served = 0; db = utxos })
undoes_example =
    rollback_above-undoes_Scan utxo_lib 3 utxos scanned_db 0 ((omega arith, refl, (λ e. refl)), tt)
      scan

abbrev row : ℕ → ℕ → CheckpointRow
row height hash = record { wallet_id = 1; height = height; block_hash = unary hash }

abbrev points : CheckpointDb
points = record { wallets = 1 ∷ []; rows = row 1 4 ∷ row 2 5 ∷ [] }
