-- ===== src/Chain/Checkpoints.antt =====
-- `PgCheckpointStore` (src/elements_sync.rs) over the table `elements_chain_checkpoints` of
-- migrations/0009_elements_chain_checkpoints.sql. `wallets` are the ids of `elements_wallets`.
use test_app_pkcs.Prelude.{
  ℕ, suc, ◌%◌, ◌^◌, String, ◌≡◌, refl, Bool, not, ◌&&◌, true, false, Option, none, some, List, [],
  ◌∷◌, any, find?, keep, ltb, ◌==◌, if◌then◌else◌, arith, Bool-cases, inl, inr, length, ap, All,
  All-keep,
}
use test_app_pkcs.Prelude.Result.{Result, ok, err, ◌>>=◌}
use test_app_pkcs.Prelude.Sql.{
  SqlxError, foreign_key_violation, Sql, upsert, delete_where, All-upsert, execute,
  find?-upsert_hit, find?-upsert_miss, find?-keep_kept, find?-keep_dropped,
}
use test_app_pkcs.Chain.{SyncError, HashText, SyncedTip, enc_err}
use test_app_pkcs.Chain.Utxos.Codec.{collect}

pub record CheckpointRow : Type 0 where
  pub wallet_id : ℕ
  pub height : ℕ
  pub block_hash : String

pub record CheckpointDb : Type 0 where
  pub wallets : List ℕ
  pub rows : List CheckpointRow

abbrev pub is_at : ℕ → ℕ → CheckpointRow → Bool
is_at wallet height r = r.wallet_id == wallet && r.height == height

abbrev pub rehash : String → CheckpointRow → CheckpointRow
rehash hash r = record r { block_hash = hash }

-- INSERT … ON CONFLICT (wallet_id, height) DO UPDATE
pub save_row : CheckpointRow → CheckpointDb → Result SqlxError (Unit {0} × CheckpointDb)
save_row new s =
    if any (λ w. w == new.wallet_id) s.wallets
    then ok (
      tt,
      record s {
        rows = upsert (is_at new.wallet_id new.height) (rehash new.block_hash) new s.rows;
      },
    )
    else err foreign_key_violation

abbrev pub is_stale : ℕ → ℕ → CheckpointRow → Bool
is_stale wallet height r = r.wallet_id == wallet && ltb height r.height

pub drop_above : ℕ → ℕ → CheckpointDb → Result SqlxError (Unit {0} × CheckpointDb)
drop_above wallet height s =
    ok (tt, record s { rows = delete_where (is_stale wallet height) s.rows })

pub rollback_above : ℕ → ℕ → Sql CheckpointDb (Unit {0})
unfolding drop_above
rollback_above wallet height = execute (drop_above wallet height)

module _ (hashes : HashText) where
  open hashes use {to_string, from_str}

  pub save : ℕ → SyncedTip → Sql CheckpointDb (Unit {0})
  unfolding save_row
  save wallet tip = execute (
      save_row
        (record { wallet_id = wallet; height = tip.height; block_hash = to_string tip.hash }))

  pub decode_row : CheckpointRow → Result SyncError SyncedTip
  decode_row r = do
    hash ← enc_err (from_str r.block_hash)
    ok (record { height = r.height % 2 ^ 32; hash = hash })

  pub load : ℕ → CheckpointDb → Result SyncError (List SyncedTip)
  unfolding decode_row
  load wallet s = collect decode_row (keep (λ r. r.wallet_id == wallet) s.rows)

  -- The specification's view: the hash that a wallet has recorded at a height.
  abbrev hash_of : Option CheckpointRow → Option ℕ
  hash_of none = none
  hash_of (some r) = from_str r.block_hash

  pub checkpoint : CheckpointDb → ℕ → ℕ → Option ℕ
  checkpoint s wallet height = hash_of (find? (is_at wallet height) s.rows)

  -- A row that `save` wrote.
  abbrev pub IsReadable : CheckpointRow → Type 0
  IsReadable r = (h : ℕ) × (r.block_hash ≡ to_string h)

  module _ (wallet : ℕ) (tip : SyncedTip) (n : ℕ) (s : CheckpointDb) where
    abbrev new : CheckpointRow
    new = record { wallet_id = wallet; height = tip.height; block_hash = to_string tip.hash }

    save_same :
        any (λ x. x == wallet) s.wallets ≡ true
        → checkpoint (save wallet tip (record { served = suc n; db = s })).1.db wallet tip.height
          ≡ some tip.hash
    unfolding checkpoint save save_row
    save_same known = ground (
      arith,
      hashes.from_str-to_string tip.hash,
      find?-upsert_hit (is_at wallet tip.height) (rehash (to_string tip.hash)) new s.rows (λ a e. e)
          (ground arith),
    )

    save_other :
        (w k : ℕ)
        → any (λ x. x == wallet) s.wallets ≡ true
        → (wallet == w && tip.height == k) ≡ false
        → checkpoint (save wallet tip (record { served = suc n; db = s })).1.db w k
          ≡ checkpoint s w k
    unfolding checkpoint save save_row
    save_other w k known ne = ground (
      arith,
      find?-upsert_miss (is_at w k) (is_at wallet tip.height) (rehash (to_string tip.hash)) new
          s.rows (λ a e. (ground arith, ground arith)) (ground arith),
    )

    -- Saving a tip of a known wallet sets that wallet's checkpoint at the tip's height, over any
    -- that was there, and no other.
    pub checkpoint-save :
        (w k : ℕ)
        → any (λ x. x == wallet) s.wallets ≡ true
        → checkpoint (save wallet tip (record { served = suc n; db = s })).1.db w k
          ≡ (if wallet == w && tip.height == k then some tip.hash else checkpoint s w k)
    checkpoint-save w k known = elim (Bool-cases (wallet == w && tip.height == k)) [
      | inl e ↦ ground (arith, save_same known)
      | inr e ↦ rw e (save_other w k known e)
    ]

  -- A rollback to `h` of one wallet drops its checkpoints above `h`, and no other.
  pub checkpoint-rollback_above :
      (wallet h n : ℕ) (s : CheckpointDb) (w k : ℕ)
      → checkpoint (rollback_above wallet h (record { served = suc n; db = s })).1.db w k
        ≡ (if wallet == w && ltb h k then none else checkpoint s w k)
  unfolding checkpoint rollback_above
  checkpoint-rollback_above wallet h n s w k = elim (Bool-cases (wallet == w && ltb h k)) [
    | inl stale ↦ rw (
      stale,
      find?-keep_dropped (is_at w k) (λ r. not (is_stale wallet h r)) s.rows (λ r m. ground arith),
    )
    | inr live ↦ rw (
      live,
      find?-keep_kept (is_at w k) (λ r. not (is_stale wallet h r)) s.rows (λ r m. ground arith),
    )
  ]

  collect-readable :
      (rows : List CheckpointRow)
      → All IsReadable rows
      → (tips : List SyncedTip) × (collect decode_row rows ≡ ok tips) × (length tips ≡ length rows)
  unfolding collect decode_row
  collect-readable [] a = ([], refl, refl)
  collect-readable (r ∷ rows) ((h, e), a) =
      let (tips, run, len) = collect-readable rows a in
      (
        record { height = r.height % 2 ^ 32; hash = h } ∷ tips,
        rw (e, hashes.from_str-to_string h, run),
        ap suc len,
      )

  -- `load` reads every row that `save` wrote: where each row's hash is a printed hash, it succeeds,
  -- with as many tips as the wallet has rows.
  pub load_total :
      (wallet : ℕ) (s : CheckpointDb)
      → All IsReadable s.rows
      → (tips : List SyncedTip) × (load wallet s ≡ ok tips)
        × (length tips ≡ length (keep (λ r. r.wallet_id == wallet) s.rows))
  unfolding load
  load_total wallet s a =
      collect-readable (keep (λ r. r.wallet_id == wallet) s.rows)
        (All-keep IsReadable (λ r. r.wallet_id == wallet) s.rows a)

  pub save-IsReadable :
      (wallet : ℕ) (tip : SyncedTip) (n : ℕ) (s : CheckpointDb)
      → All IsReadable s.rows
      → All IsReadable (save wallet tip (record { served = suc n; db = s })).1.db.rows
  unfolding save save_row
  save-IsReadable wallet tip n s a = ground (
    arith,
    All-upsert IsReadable (is_at wallet tip.height) (rehash (to_string tip.hash))
        (record { wallet_id = wallet; height = tip.height; block_hash = to_string tip.hash }) s.rows
        (λ r m e. (tip.hash, refl)) (tip.hash, refl) a,
  )
