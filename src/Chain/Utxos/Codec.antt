-- ===== src/Chain/Utxos/Codec.antt =====
-- The methods of `PgWalletUtxoStore`: encoding before the statements, decoding after them.
use native.Mathlib.Nat.{mod-eq_of_lt}
use test_app_pkcs.Prelude.{
  ℕ, suc, ◌%◌, ◌^◌, ◌<◌, String, ◌≡◌, refl, Bool, not, ◌&&◌, true, false, none, some, List, [], ◌∷◌,
  ◌++◌, any, keep, ltb, leb, ◌==◌, arith, keep-snoc, map, sym,
}
use test_app_pkcs.Prelude.Result.{Result, ok, err, ◌>>=◌}
use test_app_pkcs.Prelude.Sql.{Conn, upsert-fresh}
use test_app_pkcs.Chain.{SyncError, store_err, enc_err}
use test_app_pkcs.Chain.Utxos.{
  UtxoLib, KeychainKind, external, internal, chain_to_i16, i16_to_chain, OutPoint, CapturedUtxo,
  UtxoRow, UtxoDb, has_key, recapture, upsert_row, upsert_rows, mark_rows,
}

-- `into_iter().map(f).collect::<Result<Vec<_>, _>>()`
unfoldable pub collect {ℓ} :
    {A B : Type ℓ} {E : Type 0} → (A → Result E B) → List A → Result E (List B)
collect f [] = ok []
collect f (x ∷ xs) = do y ← f x; ys ← collect f xs; ok (y ∷ ys)

collect-snoc {ℓ} :
    {A B : Type ℓ} {E : Type 0} (f : A → Result E B) (xs : List A) (x : A) {y : B}
    → f x ≡ ok y
    → collect f (xs ++ x ∷ []) ≡ (collect f xs >>= λ ys. ok (ys ++ y ∷ []))
unfolding collect
collect-snoc f [] x e = rw e
collect-snoc {A} {B} {E} f (z ∷ xs) x {y} e =
    rw (collect-snoc f xs x e) (regroup (f z) (collect f xs))
  where
    regroup :
        (m : Result E B) (n : Result E (List B))
        → (m >>= λ a. (n >>= λ ys. ok (ys ++ y ∷ [])) >>= λ zs. ok (a ∷ zs))
          ≡ ((m >>= λ a. n >>= λ zs. ok (a ∷ zs)) >>= λ ys. ok (ys ++ y ∷ []))
    regroup (ok a) (ok ys) = refl
    regroup (ok a) (err u) = refl
    regroup (err u) n = refl

-- WHERE wallet_id = $1 AND NOT is_spent
abbrev pub unspent_of : ℕ → UtxoRow → Bool
unspent_of wallet r = r.wallet_id == wallet && not r.is_spent

module _ (lib : UtxoLib) where
  open lib use {txids, serialize, deserialize, to_json, from_json, asset, asset_to_string, value}

  abbrev pub row_of : CapturedUtxo → String → UtxoRow
  row_of u json = record {
    wallet_id = u.wallet_id;
    txid = txids.to_string u.outpoint.txid;
    vout = u.outpoint.vout;
    raw_txout = serialize u.txout;
    secrets_json = json;
    asset_id = asset_to_string (asset u.secrets);
    value_sat = value u.secrets;
    chain = chain_to_i16 u.chain;
    wildcard_index = u.wildcard_index;
    height = u.height;
    is_spent = false;
    spent_height = none;
  }

  unfoldable pub encode_row : CapturedUtxo → Result SyncError UtxoRow
  encode_row u = do json ← enc_err (to_json u.secrets); ok (row_of u json)

  abbrev upsert_encoded :
      Result SyncError (List UtxoRow) → Conn UtxoDb → Result SyncError (Unit {0}) × Conn UtxoDb
  upsert_encoded (err e) c = (err e, c)
  upsert_encoded (ok rows) c = let (r, c') = upsert_rows rows c in (store_err r, c')

  -- Every UTXO is encoded before the first statement is sent.
  unfoldable pub upsert_utxos :
      List CapturedUtxo → Conn UtxoDb → Result SyncError (Unit {0}) × Conn UtxoDb
  unfolding collect encode_row
  upsert_utxos utxos c = upsert_encoded (collect encode_row utxos) c

  abbrev outpoint_row : OutPoint → String × ℕ
  outpoint_row op = (txids.to_string op.txid, op.vout)

  unfoldable pub mark_spent :
      List OutPoint → ℕ → Conn UtxoDb → Result SyncError (Unit {0}) × Conn UtxoDb
  mark_spent ops h c = let (r, c') = mark_rows (map outpoint_row ops) h c in (store_err r, c')

  -- The closure that `list_unspent` and `list_for_wallet` share, at the spent flag that each gives.
  unfoldable pub decode_row : ℕ → Bool → UtxoRow → Result SyncError CapturedUtxo
  decode_row wallet spent r = do
    txid ← enc_err (txids.from_str r.txid)
    txout ← enc_err (deserialize r.raw_txout)
    secrets ← enc_err (from_json r.secrets_json)
    ok (record {
      wallet_id = wallet;
      outpoint = record { txid = txid; vout = r.vout % 2 ^ 32 };
      txout = txout;
      secrets = secrets;
      chain = i16_to_chain r.chain;
      wildcard_index = r.wildcard_index % 2 ^ 32;
      height = r.height % 2 ^ 32;
      is_spent = spent;
    })

  unfoldable pub list_unspent : ℕ → UtxoDb → Result SyncError (List CapturedUtxo)
  unfolding collect decode_row
  list_unspent wallet s = collect (decode_row wallet false) (keep (unspent_of wallet) s.utxos)

  -- The history: spent ones too, with their flag.
  unfoldable pub list_for_wallet : ℕ → UtxoDb → Result SyncError (List CapturedUtxo)
  unfolding collect decode_row
  list_for_wallet wallet s =
      collect (λ r. decode_row wallet r.is_spent r) (keep (λ r. r.wallet_id == wallet) s.utxos)

  abbrev decode_outpoint : UtxoRow → Result SyncError (OutPoint × ℕ)
  decode_outpoint r = do
    txid ← enc_err (txids.from_str r.txid)
    ok (record { txid = txid; vout = r.vout % 2 ^ 32 }, r.wallet_id)

  unfoldable pub unspent_outpoints : UtxoDb → Result SyncError (List (OutPoint × ℕ))
  unfolding collect
  unspent_outpoints s = collect decode_outpoint (keep (λ r. not r.is_spent) s.utxos)

  -- A UTXO that a column can hold, as the pipeline captures it.
  pub record Fits (u : CapturedUtxo) (json : String) : Type 0 where
    pub encodes : to_json u.secrets ≡ some json
    pub vout : u.outpoint.vout < 2 ^ 32
    pub wildcard_index : u.wildcard_index < 2 ^ 32
    pub height : u.height < 2 ^ 32
    pub value : value u.secrets < 2 ^ 63
    pub unspent : u.is_spent ≡ false

  i16_to_chain-chain_to_i16 : (k : KeychainKind) → i16_to_chain (chain_to_i16 k) ≡ k
  unfolding i16_to_chain chain_to_i16
  i16_to_chain-chain_to_i16 external = refl
  i16_to_chain-chain_to_i16 internal = refl

  pub decode_row-row_of :
      (u : CapturedUtxo) (json : String)
      → Fits u json
      → decode_row u.wallet_id false (row_of u json) ≡ ok u
  unfolding decode_row
  decode_row-row_of u json f = rw (
    txids.from_str-to_string u.outpoint.txid,
    lib.deserialize-serialize u.txout,
    lib.from_json-to_json u.secrets json f.encodes,
    i16_to_chain-chain_to_i16 u.chain,
    mod-eq_of_lt f.vout,
    mod-eq_of_lt f.wildcard_index,
    mod-eq_of_lt f.height,
    sym f.unspent,
  )

  chain_to_i16-le : (k : KeychainKind) → leb (chain_to_i16 k) 1 ≡ true
  unfolding chain_to_i16
  chain_to_i16-le external = refl
  chain_to_i16-le internal = refl

  insert-db :
      (r : UtxoRow) (n : ℕ) (s : UtxoDb)
      → ltb r.value_sat (2 ^ 63) ≡ true
      → leb r.chain 1 ≡ true
      → any (λ w. w == r.wallet_id) s.wallets ≡ true
      → any (has_key r) s.utxos ≡ false
      → upsert_rows (r ∷ []) (record { served = suc n; db = s })
        ≡ (ok tt, record { served = n; db = record s { utxos = s.utxos ++ r ∷ [] } })
  unfolding upsert_rows upsert_row
  insert-db r n s v c w fresh = rw (v, c, w, upsert-fresh (has_key r) (recapture r) r s.utxos fresh)

  collect-keep-snoc :
      (u : CapturedUtxo) (json : String) (rows : List UtxoRow) (us : List CapturedUtxo)
      → Fits u json
      → collect (decode_row u.wallet_id false) (keep (unspent_of u.wallet_id) rows) ≡ ok us
      → collect
          (decode_row u.wallet_id false)
          (keep (unspent_of u.wallet_id) (rows ++ row_of u json ∷ []))
        ≡ ok (us ++ u ∷ [])
  collect-keep-snoc u json rows us f before = rw (
    keep-snoc (unspent_of u.wallet_id) rows (row_of u json) (ground arith),
    collect-snoc (decode_row u.wallet_id false) (keep (unspent_of u.wallet_id) rows) (row_of u json)
        (decode_row-row_of u json f),
    before,
  )

  -- A captured UTXO of a known wallet, under a key that the table lacks, is stored, and
  -- `list_unspent` then returns what it returned before and, last, this UTXO, equal in every field.
  pub list_unspent-upsert_utxos :
      (u : CapturedUtxo) (json : String) (n : ℕ) (s : UtxoDb) (us : List CapturedUtxo)
      → Fits u json
      → any (λ w. w == u.wallet_id) s.wallets ≡ true
      → any (has_key (row_of u json)) s.utxos ≡ false
      → list_unspent u.wallet_id s ≡ ok us
      → let out = upsert_utxos (u ∷ []) (record { served = suc n; db = s }) in
        (out.0 ≡ ok tt) × (list_unspent u.wallet_id out.1.db ≡ ok (us ++ u ∷ []))
  unfolding upsert_utxos list_unspent
  list_unspent-upsert_utxos u json n s us f known fresh before =
      let r = row_of u json in
      let e = insert-db r n s (ground (arith, f.value)) (chain_to_i16-le u.chain) known fresh in
      rw (f.encodes, e) (refl, collect-keep-snoc u json s.utxos us f before)
