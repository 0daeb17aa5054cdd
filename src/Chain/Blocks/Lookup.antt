-- ===== src/Chain/Blocks/Lookup.antt =====
-- What `block_hash_at` and `synced_tip` return after the writes of `PgBlockStore`.
use Prim.Native.Nat.{◌^◌}
use native.Mathlib.Nat.{mod-eq_of_lt}
use test_app_pkcs.Prelude.{
  ℕ, suc, ◌<◌, ◌≡◌, Bool, true, false, some, List, arith, any, ◌==◌, ==_self, if◌then◌else◌,
  Bool-cases, inl, inr, ◌⊎◌,
}
use test_app_pkcs.Prelude.Result.{ok, err}
use test_app_pkcs.Prelude.Sql.{find?-upsert_hit, find?-upsert_miss, unique_violation}
use test_app_pkcs.Chain.{HashText, SyncedTip}
use test_app_pkcs.Chain.Blocks.{
  BlockDb, BlockRow, at_height, hash_taken, replace_block, store_row, store_block, block_hash_at,
  synced_tip, set_synced_tip,
}

-- Whether another height has this hash already.
abbrev pub taken : HashText → ℕ → ℕ → BlockDb → Bool
taken hashes height hash s = any (hash_taken height (hashes.to_string hash)) s.blocks

module _ (hashes : HashText) (height hash : ℕ) (raw : List ℕ) (n : ℕ) (s : BlockDb) where
  open hashes use {to_string, from_str-to_string}

  abbrev row : BlockRow
  row = record { height = height; block_hash = to_string hash; raw_block = raw }

  abbrev after : BlockDb
  after = (store_block hashes height hash raw (record { served = suc n; db = s })).1.db

  store_same :
      taken hashes height hash s ≡ false → block_hash_at hashes height after ≡ ok (some hash)
  unfolding block_hash_at store_block store_row
  store_same free = ground (
    arith,
    from_str-to_string hash,
    find?-upsert_hit (at_height height) (replace_block row) row s.blocks (λ a e. e)
        (==_self height),
  )

  store_other :
      (k : ℕ) → (k == height) ≡ false → block_hash_at hashes k after ≡ block_hash_at hashes k s
  unfolding block_hash_at store_block store_row
  store_other k ne = ground (
    arith,
    find?-upsert_miss (at_height k) (at_height height) (replace_block row) row s.blocks
        (λ a e. (ground arith, ground arith)) (ground arith),
  )

  -- A write that the server gets is accepted unless the block's hash stands at another height. Then
  -- that height has the new hash and every other height what it had; a refused write changes
  -- nothing.
  pub store_block_lem :
      (k : ℕ)
      → (taken hashes height hash s ≡ false)
          × (block_hash_at hashes k after
              ≡ (if k == height then ok (some hash) else block_hash_at hashes k s))
        ⊎ (taken hashes height hash s ≡ true)
          × (store_block hashes height hash raw (record { served = suc n; db = s })
              ≡ (err unique_violation, record { served = n; db = s }))
  store_block_lem k = elim (Bool-cases (taken hashes height hash s)) [
    | inl used ↦ inr (used, unfold store_block store_row in rw used)
    | inr free ↦ elim (Bool-cases (k == height)) [
      | inl e ↦ inl (free, ground (arith, store_same free))
      | inr e ↦ inl (free, ground (arith, store_other k e))
    ]
  ]

-- The cursor is read back as it was set, if its height fits in the `u32` of a chain height.
pub synced_tip-set_synced_tip :
    (hashes : HashText) (tip : SyncedTip) (n : ℕ) (s : BlockDb)
    → tip.height < 2 ^ 32
    → synced_tip hashes (set_synced_tip hashes tip (record { served = suc n; db = s })).1.db
      ≡ ok (some tip)
unfolding synced_tip set_synced_tip
synced_tip-set_synced_tip hashes tip n s h = rw (hashes.from_str-to_string tip.hash, mod-eq_of_lt h)
