-- ===== src/Tests/Chain.antt =====
-- The Elements stores.
use test_app_pkcs.Prelude.{
  ℕ, ◌≡◌, refl, true, false, none, some, [], ◌∷◌, arith, ◌⊎◌, leb, if◌then◌else◌, ◌==◌,
}
use test_app_pkcs.Prelude.Result.{ok, err}
use test_app_pkcs.Prelude.Sql.{io, unique_violation}
use test_app_pkcs.Chain.Blocks
use test_app_pkcs.Chain.Blocks.{
  BlockRow, BlockDb, Cursor, is_above, block_hash_at, store_block, synced_tip, set_synced_tip,
}
use test_app_pkcs.Chain.Blocks.Lookup.{store_block_lem, taken}
use test_app_pkcs.Chain.Blocks.Rollback.{
  IsAnchored, rollback_above_lem, rollback_above_retry, rollback_above_interrupted,
}
use test_app_pkcs.Tests.Data.{hashes, unary}

abbrev block : ℕ → ℕ → BlockRow
block height hash = record { height = height; block_hash = unary hash; raw_block = [] }

-- Blocks 1 to 3, and the cursor at the last.
abbrev chain : BlockDb
chain = record {
  blocks = block 1 11 ∷ block 2 12 ∷ block 3 13 ∷ [];
  cursor = some (record { tip_height = 3; tip_hash = unary 13 });
}

rollback_above_example :
    let out = Blocks.rollback_above 1 (record { served = 4; db = chain }) in
    (out.0 ≡ ok tt)
    × ((k : ℕ)
        → block_hash_at hashes k out.1.db
          ≡ (if leb k 1 then block_hash_at hashes k chain else ok none))
    × (is_above 1 out.1.db.cursor ≡ false)
    × (((is_above 1 chain.cursor ≡ true) × IsAnchored out.1.db)
        ⊎ ((out.1.db.cursor ≡ chain.cursor) × (is_above 1 chain.cursor ≡ false)))
rollback_above_example = rollback_above_lem hashes 1 0 chain

rollback_above_retry_example :
    let first = (Blocks.rollback_above 1 (record { served = 2; db = chain })).1.db in
    (Blocks.rollback_above 1 (record { served = 4; db = first })).1.db
    ≡ (Blocks.rollback_above 1 (record { served = 4; db = chain })).1.db
rollback_above_retry_example = rollback_above_retry 1 2 0 chain

rollback_above_interrupted_example :
    let out = Blocks.rollback_above 1 (record { served = 1; db = chain }) in
    (out.0 ≡ err io)
    × (out.1.db.cursor ≡ some (record { tip_height = 3; tip_hash = unary 13 }))
    × (block_hash_at hashes 3 out.1.db ≡ ok none)
rollback_above_interrupted_example =
    rollback_above_interrupted hashes 1 1 chain (record { tip_height = 3; tip_hash = unary 13 })
      refl (omega arith) (omega arith) (omega arith)

store_block_example :
    (taken hashes 4 14 chain ≡ false)
      × (block_hash_at hashes 4
            (store_block hashes 4 14 [] (record { served = 1; db = chain })).1.db
          ≡ (if 4 == 4 then ok (some 14) else block_hash_at hashes 4 chain))
    ⊎ (taken hashes 4 14 chain ≡ true)
      × (store_block hashes 4 14 [] (record { served = 1; db = chain })
          ≡ (err unique_violation, record { served = 0; db = chain }))
store_block_example = store_block_lem hashes 4 14 [] 0 chain 4
