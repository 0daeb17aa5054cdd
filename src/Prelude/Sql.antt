-- ===== src/Prelude/Sql.antt =====
-- The statements of SQL that the stores and `src/db.rs` send, over a table as a list of rows, and
-- the connection that they go through.
use Prim.Native.Nat.{ℕ, zero, suc}
use mathlib.Core.Path.{◌≡◌, refl}
use mathlib.Core.Bool.{Bool, true, false, not, ◌&&◌, ◌||◌}
use mathlib.Core.Logic.{inl, inr}
use mathlib.Core.Option.{Option, none, some}
use mathlib.Core.List.{List, [], ◌∷◌, ◌++◌}
use native.Mathlib.Omega.{arith}
use test_app_pkcs.Prelude.Tests.{if◌then◌else◌, leb, ◌==◌, Bool-cases}
use test_app_pkcs.Prelude.Result.{Result, ok, err}
use test_app_pkcs.Prelude.Lists.{keep, find?, any, All, length, Distinct}

-- `sqlx::Error`, as far as the server or the connection causes it.
pub data SqlxError : Type 0 where
  io unique_violation check_violation foreign_key_violation out_of_range row_not_found : SqlxError

module _ {ℓ} {A : Type ℓ} where
  -- DELETE … WHERE p
  abbrev pub delete_where : (A → Bool) → List A → List A
  delete_where p = keep (λ a. not (p a))

  -- UPDATE … SET f WHERE p
  unfoldable pub update_where : (A → Bool) → (A → A) → List A → List A
  update_where p f [] = []
  update_where p f (x ∷ xs) = (if p x then f x else x) ∷ update_where p f xs

  -- INSERT … ON CONFLICT DO UPDATE: `same` holds of the row in conflict, which `merge` updates.
  unfoldable pub upsert : (A → Bool) → (A → A) → A → List A → List A
  upsert same merge new [] = new ∷ []
  upsert same merge new (x ∷ xs) =
      let rest = upsert same merge new xs in if same x then merge x ∷ xs else x ∷ rest

  -- ORDER BY key ASC, which keeps the order of equal keys here.
  unfoldable pub insert_by : (A → ℕ) → A → List A → List A
  insert_by key a [] = a ∷ []
  insert_by key a (x ∷ xs) =
      let rest = insert_by key a xs in if leb (key a) (key x) then a ∷ x ∷ xs else x ∷ rest

  unfoldable pub sort_by : (A → ℕ) → List A → List A
  unfolding insert_by
  sort_by key [] = []
  sort_by key (x ∷ xs) = insert_by key x (sort_by key xs)

  abbrev pub merged : (A → A) → A → Option A → A
  merged merge new none = new
  merged merge new (some a) = merge a

  abbrev pub updated : (A → Bool) → (A → A) → Option A → Option A
  updated p f none = none
  updated p f (some a) = some (if p a then f a else a)

module _ {ℓ} {A : Type ℓ} where
  pub keep_idem : (p : A → Bool) (xs : List A) → keep p (keep p xs) ≡ keep p xs
  unfolding keep
  keep_idem p [] = refl
  keep_idem p (x ∷ xs) = ground (arith, keep_idem p xs)

  pub keep-keep : (p q : A → Bool) (xs : List A) → keep p (keep q xs) ≡ keep (λ a. p a && q a) xs
  unfolding keep
  keep-keep p q [] = refl
  keep-keep p q (x ∷ xs) = ground (arith, keep-keep p q xs)

  pub find?-keep_kept :
      (q p : A → Bool) (xs : List A)
      → ((a : A) → q a ≡ true → p a ≡ true)
      → find? q (keep p xs) ≡ find? q xs
  unfolding keep find?
  find?-keep_kept q p [] h = refl
  find?-keep_kept q p (x ∷ xs) h = ground (arith, h x, find?-keep_kept q p xs h)

  pub find?-keep_dropped :
      (q p : A → Bool) (xs : List A)
      → ((a : A) → q a ≡ true → p a ≡ false)
      → find? q (keep p xs) ≡ none
  unfolding keep find?
  find?-keep_dropped q p [] h = refl
  find?-keep_dropped q p (x ∷ xs) h = ground (arith, h x, find?-keep_dropped q p xs h)

  pub find?-upsert_hit :
      (same : A → Bool) (f : A → A) (new : A) (xs : List A)
      → ((a : A) → same a ≡ true → same (f a) ≡ true)
      → same new ≡ true
      → find? same (upsert same f new xs) ≡ some (merged f new (find? same xs))
  unfolding find? upsert
  find?-upsert_hit same f new [] h e = ground arith
  find?-upsert_hit same f new (x ∷ xs) h e = ground (arith, h x, find?-upsert_hit same f new xs h e)

  pub find?-upsert_miss :
      (q same : A → Bool) (f : A → A) (new : A) (xs : List A)
      → ((a : A) → same a ≡ true → (q a ≡ false) × (q (f a) ≡ false))
      → q new ≡ false
      → find? q (upsert same f new xs) ≡ find? q xs
  unfolding find? upsert
  find?-upsert_miss q same f new [] h e = ground arith
  find?-upsert_miss q same f new (x ∷ xs) h e =
      ground (arith, h x, find?-upsert_miss q same f new xs h e)

  pub find?-update_where :
      (q p : A → Bool) (f : A → A) (xs : List A)
      → ((a : A) → q (f a) ≡ q a)
      → find? q (update_where p f xs) ≡ updated p f (find? q xs)
  unfolding find? update_where
  find?-update_where q p f [] h = refl
  find?-update_where q p f (x ∷ xs) h = ground (arith, h x, find?-update_where q p f xs h)

  pub update_where_none :
      (p : A → Bool) (f : A → A) (xs : List A) → any p xs ≡ false → update_where p f xs ≡ xs
  unfolding update_where any
  update_where_none p f [] h = refl
  update_where_none p f (x ∷ xs) h = ground (arith, update_where_none p f xs)

  -- Two UPDATEs of one kind are one UPDATE of the rows that either names.
  pub update_where-update_where :
      (p q : A → Bool) (f : A → A) (xs : List A)
      → ((a : A) → f (f a) ≡ f a)
      → update_where q f (update_where p f xs) ≡ update_where (λ a. p a || q a) f xs
  unfolding update_where
  update_where-update_where p q f [] i = refl
  update_where-update_where p q f (x ∷ xs) i =
      ground (arith, i x, update_where-update_where p q f xs i)

  pub keep-update_where :
      (p q : A → Bool) (f : A → A) (xs : List A)
      → ((a : A) → p (f a) ≡ false)
      → keep p (update_where q f xs) ≡ keep (λ a. p a && not (q a)) xs
  unfolding keep update_where
  keep-update_where p q f [] h = refl
  keep-update_where p q f (x ∷ xs) h = ground (arith, h x, keep-update_where p q f xs h)

  -- An upsert that meets no row in conflict is an INSERT.
  pub upsert-fresh :
      (same : A → Bool) (f : A → A) (new : A) (xs : List A)
      → any same xs ≡ false
      → upsert same f new xs ≡ xs ++ new ∷ []
  unfolding upsert any
  upsert-fresh same f new [] h = refl
  upsert-fresh same f new (x ∷ xs) h = ground (arith, upsert-fresh same f new xs)

  -- An UPDATE that keeps what `p` reads passes through the selection.
  pub keep-update_where_kept :
      (p q : A → Bool) (f : A → A) (xs : List A)
      → ((a : A) → p (f a) ≡ p a)
      → keep p (update_where q f xs) ≡ update_where q f (keep p xs)
  unfolding keep update_where
  keep-update_where_kept p q f [] h = refl
  keep-update_where_kept p q f (x ∷ xs) h = ground (arith, h x, keep-update_where_kept p q f xs h)

  pub update_where-append :
      (p : A → Bool) (f : A → A) (xs ys : List A)
      → update_where p f (xs ++ ys) ≡ update_where p f xs ++ update_where p f ys
  unfolding update_where
  update_where-append p f [] ys = refl
  update_where-append p f (x ∷ xs) ys = ground (arith, update_where-append p f xs ys)

  pub update_where-cong :
      (p q : A → Bool) (f : A → A) (xs : List A)
      → All (λ a. p a ≡ q a) xs
      → update_where p f xs ≡ update_where q f xs
  unfolding update_where
  update_where-cong p q f [] h = refl
  update_where-cong p q f (x ∷ xs) h = rw (h.0, update_where-cong p q f xs h.1)

  Distinct-update_where_head :
      (key : A → ℕ) (p : A → Bool) (f : A → A) (k : ℕ) (xs : List A)
      → ((a : A) → key (f a) ≡ key a)
      → All (λ y. (k == key y) ≡ false) xs
      → All (λ y. (k == key y) ≡ false) (update_where p f xs)
  unfolding update_where
  Distinct-update_where_head key p f k [] h d = tt
  Distinct-update_where_head key p f k (x ∷ xs) h d =
      ground (arith, h x, Distinct-update_where_head key p f k xs h d.1)

  -- An UPDATE that leaves the primary key leaves it unique.
  pub Distinct-update_where :
      (key : A → ℕ) (p : A → Bool) (f : A → A) (xs : List A)
      → ((a : A) → key (f a) ≡ key a)
      → Distinct key xs
      → Distinct key (update_where p f xs)
  unfolding update_where
  Distinct-update_where key p f [] h d = tt
  Distinct-update_where key p f (x ∷ xs) h d = elim (Bool-cases (p x)) [
    | inl e ↦
        rw (e, h x)
          (
            Distinct-update_where_head key p f (key x) xs h d.0,
            Distinct-update_where key p f xs h d.1,
          )
    | inr e ↦ rw e (
      Distinct-update_where_head key p f (key x) xs h d.0,
      Distinct-update_where key p f xs h d.1,
    )
  ]

  pub length-update_where :
      (p : A → Bool) (f : A → A) (xs : List A) → length (update_where p f xs) ≡ length xs
  unfolding update_where
  length-update_where p f [] = refl
  length-update_where p f (x ∷ xs) = ground (arith, length-update_where p f xs)

module _ {ℓ κ} {A : Type ℓ} (P : A → Type κ) where
  pub All-update_where :
      (p : A → Bool) (f : A → A) (xs : List A)
      → ((a : A) → P a → p a ≡ true → P (f a))
      → All P xs
      → All P (update_where p f xs)
  unfolding update_where
  All-update_where p f [] h all = all
  All-update_where p f (x ∷ xs) h all = ground (arith, h x all.0, All-update_where p f xs h all.1)

  pub All-upsert :
      (same : A → Bool) (f : A → A) (new : A) (xs : List A)
      → ((a : A) → P a → same a ≡ true → P (f a))
      → P new
      → All P xs
      → All P (upsert same f new xs)
  unfolding upsert
  All-upsert same f new [] h n all = (n, all)
  All-upsert same f new (x ∷ xs) h n all =
      ground (arith, h x all.0, All-upsert same f new xs h n all.1)

-- A connection that serves so many more statements and then drops, with the database behind it.
-- A statement that fails changes nothing; what the earlier ones changed stays.
pub record Conn {ℓ} (S : Type ℓ) : Type ℓ where
  pub served : ℕ
  pub db : S

abbrev pub Sql {ℓ κ} : Type ℓ → Type κ → Type (ℓ ⊔ κ)
Sql S A = Conn S → Result SqlxError A × Conn S

abbrev pub after_statement {ℓ κ} :
    {S : Type ℓ} {A : Type κ} → ℕ → S → Result SqlxError (A × S) → Result SqlxError A × Conn S
after_statement n s (ok (a, t)) = (ok a, record { served = n; db = t })
after_statement n s (err e) = (err e, record { served = n; db = s })

abbrev pub execute_at {ℓ κ} :
    {S : Type ℓ} {A : Type κ} → (S → Result SqlxError (A × S)) → ℕ → S → Result SqlxError A × Conn S
execute_at f zero s = (err io, record { served = 0; db = s })
execute_at f (suc n) s = after_statement n s (f s)

abbrev pub execute {ℓ κ} : {S : Type ℓ} {A : Type κ} → (S → Result SqlxError (A × S)) → Sql S A
execute f c = execute_at f c.served c.db

abbrev pub pure {ℓ κ} : {S : Type ℓ} {A : Type κ} → A → Sql S A
pure a c = (ok a, c)

abbrev pub bind_after {ℓ κ ι} :
    {S : Type ℓ} {A : Type κ} {B : Type ι}
    → (A → Sql S B)
    → Result SqlxError A × Conn S
    → Result SqlxError B × Conn S
bind_after f (ok a, c) = f a c
bind_after f (err e, c) = (err e, c)

infixl 5 ◌>>=◌
abbrev pub ◌>>=◌ {ℓ κ ι} :
    {S : Type ℓ} {A : Type κ} {B : Type ι} → Sql S A → (A → Sql S B) → Sql S B
◌>>=◌ m f c = bind_after f (m c)
