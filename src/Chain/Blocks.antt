-- ===== src/Chain/Blocks.antt =====
-- `PgBlockStore` (src/elements_sync.rs) over the tables `elements_blocks` and
-- `elements_sync_cursor` of migrations/0007_elements_block_sync.sql.
pub mod Lookup
pub mod Rollback
use test_app_pkcs.Prelude.{
  ℕ, ◌%◌, ◌^◌, String, Bool, not, ◌&&◌, true, false, Option, none, some, List, [], ◌∷◌, any, find?,
  ltb, leb, ◌==◌, if◌then◌else◌,
}
use test_app_pkcs.Prelude.Result.{Result, ok, err}
use test_app_pkcs.Prelude.Sql.{
  SqlxError, unique_violation, delete_where, upsert, Sql, Conn, execute, pure, ◌>>=◌,
}
use text.Mathlib.Text.{◌==◌ as str_eq}
use test_app_pkcs.Chain.{SyncError, HashText, SyncedTip, enc_err}

pub record BlockRow : Type 0 where
  pub height : ℕ
  pub block_hash : String
  pub raw_block : List ℕ

pub record Cursor : Type 0 where
  pub tip_height : ℕ
  pub tip_hash : String

pub record BlockDb : Type 0 where
  pub blocks : List BlockRow
  pub cursor : Option Cursor

abbrev pub at_height : ℕ → BlockRow → Bool
at_height h r = r.height == h

-- `block_hash` is UNIQUE, and the conflict clause covers `height` alone.
abbrev pub hash_taken : ℕ → String → BlockRow → Bool
hash_taken h hash r = str_eq r.block_hash hash && not (r.height == h)

-- INSERT … ON CONFLICT (height) DO UPDATE
abbrev pub replace_block : BlockRow → BlockRow → BlockRow
replace_block new r = record r { block_hash = new.block_hash; raw_block = new.raw_block }

pub store_row : BlockRow → BlockDb → Result SqlxError (Unit {0} × BlockDb)
store_row new s =
    if any (hash_taken new.height new.block_hash) s.blocks
    then err unique_violation
    else ok
        (tt, record s { blocks = upsert (at_height new.height) (replace_block new) new s.blocks })

-- SELECT height, block_hash … ORDER BY height DESC LIMIT 1
abbrev pub higher : BlockRow → Option BlockRow → BlockRow
higher r none = r
higher r (some top) = if leb top.height r.height then r else top

unfoldable pub max_block : List BlockRow → Option BlockRow
max_block [] = none
max_block (r ∷ rs) = some (higher r (max_block rs))

-- DELETE FROM elements_blocks WHERE height > h
pub delete_above : ℕ → BlockDb → Result SqlxError (Unit {0} × BlockDb)
delete_above h s = ok (tt, record s { blocks = delete_where (λ r. ltb h r.height) s.blocks })

abbrev pub get_cursor : BlockDb → Result SqlxError (Option Cursor × BlockDb)
get_cursor s = ok (s.cursor, s)

abbrev pub get_max : BlockDb → Result SqlxError (Option BlockRow × BlockDb)
get_max s = ok (max_block s.blocks, s)

abbrev pub put_cursor : Option Cursor → BlockDb → Result SqlxError (Unit {0} × BlockDb)
put_cursor c s = ok (tt, record s { cursor = c })

-- The cursor's new value: the highest block that is left, or no row at all.
abbrev pub cursor_at : Option BlockRow → Option Cursor
cursor_at none = none
cursor_at (some r) = some (record { tip_height = r.height; tip_hash = r.block_hash })

abbrev pub is_above : ℕ → Option Cursor → Bool
is_above h none = false
is_above h (some c) = ltb h c.tip_height

abbrev pub reset_cursor : Bool → Sql BlockDb (Unit {0})
reset_cursor false = pure tt
reset_cursor true = execute get_max >>= λ top. execute (put_cursor (cursor_at top))

-- `rollback_above`: four statements, and no transaction round them.
pub rollback_above : ℕ → Sql BlockDb (Unit {0})
unfolding delete_above
rollback_above h =
    execute (delete_above h) >>= λ _. execute get_cursor >>= λ cur. reset_cursor (is_above h cur)

module _ (hashes : HashText) where
  open hashes use {to_string, from_str}

  pub store_block : ℕ → ℕ → List ℕ → Sql BlockDb (Unit {0})
  unfolding store_row
  store_block height hash raw =
      execute (store_row (record { height = height; block_hash = to_string hash; raw_block = raw }))

  abbrev pub decode_tip : Option Cursor → Result SyncError (Option SyncedTip)
  decode_tip none = ok none
  decode_tip (some c) = elim (from_str c.tip_hash) [
    | none ↦ err SyncError.encoding
    | some h ↦ ok (some (record { height = c.tip_height % 2 ^ 32; hash = h }))
  ]

  -- The query of `synced_tip` and the decoding of its row. A height is read back as a `u32`.
  pub synced_tip : BlockDb → Result SyncError (Option SyncedTip)
  synced_tip s = decode_tip s.cursor

  pub set_synced_tip : SyncedTip → Sql BlockDb (Unit {0})
  set_synced_tip tip =
      execute
        (put_cursor (some (record { tip_height = tip.height; tip_hash = to_string tip.hash })))

  abbrev pub decode_hash : Option BlockRow → Result SyncError (Option ℕ)
  decode_hash none = ok none
  decode_hash (some r) = elim (from_str r.block_hash) [
    | none ↦ err SyncError.encoding
    | some h ↦ ok (some h)
  ]

  pub block_hash_at : ℕ → BlockDb → Result SyncError (Option ℕ)
  block_hash_at height s = decode_hash (find? (at_height height) s.blocks)
