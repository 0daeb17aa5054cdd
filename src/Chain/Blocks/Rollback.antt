-- ===== src/Chain/Blocks/Rollback.antt =====
-- `PgBlockStore::rollback_above` after a reorg: what it drops, what it keeps, the cursor, and what a
-- connection that drops between its statements leaves behind.
use test_app_pkcs.Prelude.{
  ℕ, zero, suc, ◌<◌, ◌≤◌, ◌≡◌, refl, true, false, not, Option, none, some, List, [], ◌∷◌, arith,
  find?, keep, if◌then◌else◌, Bool-cases, Option-cases, inl, inr, ◌⊎◌, ltb, leb,
}
use test_app_pkcs.Prelude.Result.{ok, err}
use test_app_pkcs.Prelude.Sql.{io, find?-keep_kept, find?-keep_dropped, delete_where, keep_idem}
use test_app_pkcs.Chain.{HashText}
use test_app_pkcs.Chain.Blocks.{
  BlockDb, BlockRow, Cursor, at_height, max_block, cursor_at, is_above, block_hash_at,
  rollback_above,
}

-- The cursor names a stored block, with its hash.
abbrev pub Anchors : List BlockRow → Option Cursor → Type 0
Anchors rows none = Unit
Anchors rows (some c) =
    (r : BlockRow) × (find? (at_height c.tip_height) rows ≡ some r) × (r.block_hash ≡ c.tip_hash)

abbrev pub IsAnchored : BlockDb → Type 0
IsAnchored s = Anchors s.blocks s.cursor

max_block-found :
    (rows : List BlockRow) (top : BlockRow)
    → max_block rows ≡ some top
    → find? (at_height top.height) rows ≡ some top
unfolding max_block find?
max_block-found [] top e = cc
max_block-found (r ∷ rs) top e = elim (Option-cases (max_block rs)) [
  | inl none_left ↦ ground arith
  | inr (t, found) ↦ ground (arith, max_block-found rs t found)
]

abbrev kept : ℕ → List BlockRow → List BlockRow
kept h = delete_where (λ r. ltb h r.height)

max_block-kept-le :
    (h : ℕ) (rows : List BlockRow) (top : BlockRow)
    → max_block (kept h rows) ≡ some top
    → top.height ≤ h
unfolding max_block keep
max_block-kept-le h [] top e = cc
max_block-kept-le h (r ∷ rs) top e = elim (Option-cases (max_block (kept h rs))) [
  | inl none_left ↦ ground arith
  | inr (t, found) ↦ ground (arith, max_block-kept-le h rs t found)
]

-- The database that an uninterrupted rollback leaves.
abbrev pub new_cursor : ℕ → List BlockRow → Option Cursor → Option Cursor
new_cursor h rows c = if is_above h c then cursor_at (max_block (kept h rows)) else c

abbrev pub rolled_back : ℕ → BlockDb → BlockDb
rolled_back h s = record { blocks = kept h s.blocks; cursor = new_cursor h s.blocks s.cursor }

run-eq :
    (h n : ℕ) (s : BlockDb)
    → ((rollback_above h (record { served = suc (suc (suc (suc n))); db = s })).0 ≡ ok tt)
      × ((rollback_above h (record { served = suc (suc (suc (suc n))); db = s })).1.db
          ≡ rolled_back h s)
unfolding rollback_above
run-eq h n s = ground arith

cursor-Anchors :
    (h : ℕ) (rows : List BlockRow) (c : Option Cursor)
    → ((is_above h c ≡ true) × Anchors (kept h rows) (new_cursor h rows c))
      ⊎ ((new_cursor h rows c ≡ c) × (is_above h c ≡ false))
cursor-Anchors h rows c = elim (Bool-cases (is_above h c)) [
  | inr below ↦ inr (rw below refl, below)
  | inl above ↦ inl (above, rw above (reset (max_block (kept h rows)) refl))
]
  where
    reset :
        (top : Option BlockRow)
        → max_block (kept h rows) ≡ top
        → Anchors (kept h rows) (cursor_at top)
    reset none m = tt
    reset (some top) m = (top, max_block-found (kept h rows) top m, refl)

new_cursor-below :
    (h : ℕ) (rows : List BlockRow) (c : Option Cursor) → is_above h (new_cursor h rows c) ≡ false
new_cursor-below h rows c = elim (Option-cases (max_block (kept h rows))) [
  | inl e ↦ ground arith
  | inr (top, e) ↦ ground (arith, max_block-kept-le h rows top e)
]

block_hash_at-kept :
    (hashes : HashText) (h k : ℕ) (s : BlockDb)
    → block_hash_at hashes k (rolled_back h s)
      ≡ (if leb k h then block_hash_at hashes k s else ok none)
unfolding block_hash_at
block_hash_at-kept hashes h k s = elim (Bool-cases (leb k h)) [
  | inl low ↦ rw (
    low,
    find?-keep_kept (at_height k) (λ x. not (ltb h x.height)) s.blocks (λ x m. ground arith),
  )
  | inr high ↦ rw (
    high,
    find?-keep_dropped (at_height k) (λ x. not (ltb h x.height)) s.blocks (λ x m. ground arith),
  )
]

-- A rollback to `h` whose statements are all served succeeds, from any cursor. Every height up to `h`
-- keeps its block, every height above has none, and the cursor is not above `h`. A cursor above `h`
-- then names a stored block with its hash, or is gone; any other cursor is as it was.
pub rollback_above_lem :
    (hashes : HashText) (h n : ℕ) (s : BlockDb)
    → let out = rollback_above h (record { served = suc (suc (suc (suc n))); db = s }) in
      (out.0 ≡ ok tt)
      × ((k : ℕ)
          → block_hash_at hashes k out.1.db
            ≡ (if leb k h then block_hash_at hashes k s else ok none))
      × (is_above h out.1.db.cursor ≡ false)
      × (((is_above h s.cursor ≡ true) × IsAnchored out.1.db)
          ⊎ ((out.1.db.cursor ≡ s.cursor) × (is_above h s.cursor ≡ false)))
rollback_above_lem hashes h n s = (
  (run-eq h n s).0,
  (λ k. rw (run-eq h n s).1 (block_hash_at-kept hashes h k s)),
  rw (run-eq h n s).1 (new_cursor-below h s.blocks s.cursor),
  rw (run-eq h n s).1 (cursor-Anchors h s.blocks s.cursor),
)

rolled_back_idem : (h : ℕ) (s : BlockDb) → rolled_back h (rolled_back h s) ≡ rolled_back h s
rolled_back_idem h s =
    ground
      (arith, keep_idem (λ r. not (ltb h r.height)) s.blocks, new_cursor-below h s.blocks s.cursor)

rolled_back-deleted :
    (h : ℕ) (s : BlockDb) → rolled_back h (record s { blocks = kept h s.blocks }) ≡ rolled_back h s
rolled_back-deleted h s = ground (arith, keep_idem (λ r. not (ltb h r.height)) s.blocks)

-- Where a run ends that is served `n` statements: nothing done, the blocks deleted and the cursor
-- left, or all done.
partial :
    (h n : ℕ) (s : BlockDb)
    → let t = (rollback_above h (record { served = n; db = s })).1.db in
      (t ≡ s) ⊎ ((t ≡ record s { blocks = kept h s.blocks }) ⊎ (t ≡ rolled_back h s))
unfolding rollback_above
partial h zero s = inl refl
partial h (suc zero) s = inr (inl refl)
partial h (suc (suc zero)) s = ground arith
partial h (suc (suc (suc zero))) s = ground arith
partial h (suc (suc (suc (suc n)))) s = inr (inr (run-eq h n s).1)

retry-db :
    (h : ℕ) (s t : BlockDb)
    → (t ≡ s) ⊎ ((t ≡ record s { blocks = kept h s.blocks }) ⊎ (t ≡ rolled_back h s))
    → rolled_back h t ≡ rolled_back h s
retry-db h s t (inl e) = rw e
retry-db h s t (inr (inl e)) = rw e (rolled_back-deleted h s)
retry-db h s t (inr (inr e)) = rw e (rolled_back_idem h s)

-- However early the connection drops, running the rollback again to its end leaves the database
-- that one uninterrupted run would have left.
pub rollback_above_retry :
    (h served n : ℕ) (s : BlockDb)
    → let first = (rollback_above h (record { served = served; db = s })).1.db in
      (rollback_above h (record { served = suc (suc (suc (suc n))); db = first })).1.db
      ≡ (rollback_above h (record { served = suc (suc (suc (suc n))); db = s })).1.db
rollback_above_retry h served n s =
    rw
      (
        (run-eq h n (rollback_above h (record { served = served; db = s })).1.db).1,
        (run-eq h n s).1,
      )
      (retry-db h s _ (partial h served s))

gone :
    (hashes : HashText) (h k : ℕ) (rows : List BlockRow) (c : Option Cursor)
    → h < k
    → block_hash_at hashes k (record { blocks = kept h rows; cursor = c }) ≡ ok none
unfolding block_hash_at
gone hashes h k rows c lt =
    rw (find?-keep_dropped (at_height k) (λ x. not (ltb h x.height)) rows (λ x m. ground arith))

-- The rollback is no transaction. If the connection drops after the first to third statement and
-- the cursor was above `h`, the call fails, the cursor stays where it was, and the block that it
-- names is gone.
pub rollback_above_interrupted :
    (hashes : HashText) (h served : ℕ) (s : BlockDb) (c : Cursor)
    → s.cursor ≡ some c
    → h < c.tip_height
    → 0 < served
    → served < 4
    → let out = rollback_above h (record { served = served; db = s }) in
      (out.0 ≡ err io)
      × (out.1.db.cursor ≡ some c)
      × (block_hash_at hashes c.tip_height out.1.db ≡ ok none)
unfolding rollback_above
rollback_above_interrupted hashes h zero s c e above pos few = absurd (omega arith)
rollback_above_interrupted hashes h (suc zero) s c e above pos few =
    (ground arith, ground arith, ground (arith, gone hashes h c.tip_height s.blocks s.cursor above))
rollback_above_interrupted hashes h (suc (suc zero)) s c e above pos few =
    (ground arith, ground arith, ground (arith, gone hashes h c.tip_height s.blocks s.cursor above))
rollback_above_interrupted hashes h (suc (suc (suc zero))) s c e above pos few =
    (ground arith, ground arith, ground (arith, gone hashes h c.tip_height s.blocks s.cursor above))
rollback_above_interrupted hashes h (suc (suc (suc (suc n)))) s c e above pos few =
    absurd (omega arith)
