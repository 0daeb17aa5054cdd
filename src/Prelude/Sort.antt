-- ===== src/Prelude/Sort.antt =====
-- Lemmas on the order that `sort_by` makes.
use mathlib.Core.List.{Perm}
use mathlib.Core.List.Perm
use Prim.Native.Nat.{ℕ, suc, ◌≤◌}
use mathlib.Core.Path.{◌≡◌, refl, ◌∙◌}
use mathlib.Core.Bool.{Bool, true, false, ◌||◌}
use mathlib.Core.Option.{Option, none, some}
use mathlib.Core.List.{List, [], ◌∷◌, ◌++◌}
use native.Mathlib.Omega.{arith}
use test_app_pkcs.Prelude.Tests.{leb, ◌==◌, Bool-cases}
use mathlib.Core.Logic.{inl, inr}
use test_app_pkcs.Prelude.Lists.{keep, All, any, length}
use test_app_pkcs.Prelude.Sql.{insert_by, sort_by}

module _ {ℓ} {A : Type ℓ} where
  -- `slice::last`
  abbrev pub last? : List A → Option A
  last? [] = none
  last? (x ∷ []) = some x
  last? (x ∷ y ∷ xs) = last? (y ∷ xs)

  -- Keys rise along the list.
  abbrev pub Sorted : (A → ℕ) → List A → Type 0
  Sorted key [] = Unit
  Sorted key (x ∷ xs) = All (λ y. key x ≤ key y) xs × Sorted key xs

  All-le_trans :
      (key : A → ℕ) (m n : ℕ) (xs : List A)
      → m ≤ n
      → All (λ y. n ≤ key y) xs
      → All (λ y. m ≤ key y) xs
  All-le_trans key m n [] h a = tt
  All-le_trans key m n (x ∷ xs) h a = (omega arith, All-le_trans key m n xs h a.1)

  All-insert_by :
      (key : A → ℕ) (a : A) (n : ℕ) (xs : List A)
      → n ≤ key a
      → All (λ y. n ≤ key y) xs
      → All (λ y. n ≤ key y) (insert_by key a xs)
  unfolding insert_by
  All-insert_by key a n [] h all = (h, tt)
  All-insert_by key a n (x ∷ xs) h all = ground (arith, All-insert_by key a n xs h all.1)

  insert_by-Sorted :
      (key : A → ℕ) (a : A) (xs : List A) → Sorted key xs → Sorted key (insert_by key a xs)
  unfolding insert_by
  insert_by-Sorted key a [] s = (tt, tt)
  insert_by-Sorted key a (x ∷ xs) s = elim (Bool-cases (leb (key a) (key x))) [
    | inl le ↦ rw le ((ground arith, All-le_trans key (key a) (key x) xs (ground arith) s.0), s)
    | inr gt ↦
        rw gt (All-insert_by key a (key x) xs (ground arith) s.0, insert_by-Sorted key a xs s.1)
  ]

  pub sort_by-Sorted : (key : A → ℕ) (xs : List A) → Sorted key (sort_by key xs)
  unfolding sort_by
  sort_by-Sorted key [] = tt
  sort_by-Sorted key (x ∷ xs) = insert_by-Sorted key x (sort_by key xs) (sort_by-Sorted key xs)

  insert_by-perm : (key : A → ℕ) (a : A) (xs : List A) → Perm (insert_by key a xs) (a ∷ xs)
  unfolding insert_by
  insert_by-perm key a [] = Perm.refl _
  insert_by-perm key a (x ∷ xs) = elim (Bool-cases (leb (key a) (key x))) [
    | inl le ↦ rw le (Perm.refl _)
    | inr gt ↦ rw gt (Perm.trans (Perm.cons x (insert_by-perm key a xs)) (Perm.swap a x xs))
  ]

  pub sort_by-perm : (key : A → ℕ) (xs : List A) → Perm (sort_by key xs) xs
  unfolding sort_by
  sort_by-perm key [] = Perm.refl _
  sort_by-perm key (x ∷ xs) =
      Perm.trans (insert_by-perm key x (sort_by key xs)) (Perm.cons x (sort_by-perm key xs))

  pub last?-max :
      (key : A → ℕ) (xs : List A) (z : A)
      → Sorted key xs
      → last? xs ≡ some z
      → All (λ x. key x ≤ key z) xs
  last?-max key [] z s e = tt
  last?-max key (x ∷ []) z s e = ground arith
  last?-max key (x ∷ y ∷ xs) z s e =
      let rest = last?-max key (y ∷ xs) z s.1 e in (omega arith, rest)

  -- Elements of one key keep their order.
  insert_by-stable :
      (key : A → ℕ) (k : ℕ) (a : A) (xs : List A)
      → keep (λ x. key x == k) (insert_by key a xs) ≡ keep (λ x. key x == k) (a ∷ xs)
  unfolding insert_by keep
  insert_by-stable key k a [] = refl
  insert_by-stable key k a (x ∷ xs) = ground (arith, insert_by-stable key k a xs)

  pub sort_by-stable :
      (key : A → ℕ) (k : ℕ) (xs : List A)
      → keep (λ x. key x == k) (sort_by key xs) ≡ keep (λ x. key x == k) xs
  unfolding sort_by keep
  sort_by-stable key k [] = refl
  sort_by-stable key k (x ∷ xs) =
      ground (arith, insert_by-stable key k x (sort_by key xs), sort_by-stable key k xs)

  length-insert_by :
      (key : A → ℕ) (a : A) (xs : List A) → length (insert_by key a xs) ≡ suc (length xs)
  unfolding insert_by
  length-insert_by key a [] = refl
  length-insert_by key a (x ∷ xs) = ground (arith, length-insert_by key a xs)

  pub length-sort_by : (key : A → ℕ) (xs : List A) → length (sort_by key xs) ≡ length xs
  unfolding sort_by
  length-sort_by key [] = refl
  length-sort_by key (x ∷ xs) =
      ground (arith, length-insert_by key x (sort_by key xs), length-sort_by key xs)

  insert_by-snoc :
      (key : A → ℕ) (a z : A) (xs : List A)
      → key a ≤ key z
      → insert_by key a (xs ++ z ∷ []) ≡ insert_by key a xs ++ z ∷ []
  unfolding insert_by
  insert_by-snoc key a z [] h = ground arith
  insert_by-snoc key a z (x ∷ xs) h = ground (arith, insert_by-snoc key a z xs h)

  -- A last element of the greatest key stays last.
  pub sort_by-snoc :
      (key : A → ℕ) (z : A) (xs : List A)
      → All (λ x. key x ≤ key z) xs
      → sort_by key (xs ++ z ∷ []) ≡ sort_by key xs ++ z ∷ []
  unfolding sort_by insert_by
  sort_by-snoc key z [] h = refl
  sort_by-snoc key z (x ∷ xs) h =
      rw (sort_by-snoc key z xs h.1) (insert_by-snoc key x z (sort_by key xs) h.0)

  pub last?-snoc : (z : A) (xs : List A) → last? (xs ++ z ∷ []) ≡ some z
  last?-snoc z [] = refl
  last?-snoc z (x ∷ []) = refl
  last?-snoc z (x ∷ y ∷ xs) = last?-snoc z (y ∷ xs)

  insert_by-any :
      (key : A → ℕ) (p : A → Bool) (a : A) (xs : List A)
      → any p (insert_by key a xs) ≡ (p a || any p xs)
  unfolding insert_by any
  insert_by-any key p a [] = refl
  insert_by-any key p a (x ∷ xs) = ground (arith, insert_by-any key p a xs)

  pub any-sort_by : (key : A → ℕ) (p : A → Bool) (xs : List A) → any p (sort_by key xs) ≡ any p xs
  unfolding sort_by any
  any-sort_by key p [] = refl
  any-sort_by key p (x ∷ xs) =
      ground (arith, insert_by-any key p x (sort_by key xs), any-sort_by key p xs)

  keep-insert_by_dropped :
      (key : A → ℕ) (p : A → Bool) (a : A) (xs : List A)
      → p a ≡ false
      → keep p (insert_by key a xs) ≡ keep p xs
  unfolding keep insert_by
  keep-insert_by_dropped key p a [] h = ground arith
  keep-insert_by_dropped key p a (x ∷ xs) h = ground (arith, keep-insert_by_dropped key p a xs h)

  keep-insert_by_only :
      (key : A → ℕ) (p : A → Bool) (a : A) (xs : List A)
      → p a ≡ true
      → keep p xs ≡ []
      → keep p (insert_by key a xs) ≡ a ∷ []
  unfolding keep insert_by
  keep-insert_by_only key p a [] h e = ground arith
  keep-insert_by_only key p a (x ∷ xs) h e = ground (arith, keep-insert_by_only key p a xs h)

  keep-sort_by_none :
      (key : A → ℕ) (p : A → Bool) (xs : List A) → keep p xs ≡ [] → keep p (sort_by key xs) ≡ []
  unfolding keep sort_by
  keep-sort_by_none key p [] e = refl
  keep-sort_by_none key p (x ∷ xs) e =
      ground (arith, keep-insert_by_dropped key p x (sort_by key xs), keep-sort_by_none key p xs)

  -- The only row of a kind is where the order cannot move it.
  pub keep-sort_by_only :
      (key : A → ℕ) (p : A → Bool) (a : A) (xs : List A)
      → keep p xs ≡ a ∷ []
      → keep p (sort_by key xs) ≡ a ∷ []
  unfolding keep sort_by
  keep-sort_by_only key p a [] e = ground arith
  keep-sort_by_only key p a (x ∷ xs) e = elim (Bool-cases (p x)) [
    | inl kept ↦
        let split : x ∷ keep p xs ≡ a ∷ [] = ground arith in
        let first : x ≡ a = cc in
        let rest : keep p xs ≡ [] = cc in
        keep-insert_by_only key p x (sort_by key xs) kept (keep-sort_by_none key p xs rest)
        ∙ rw first refl
    | inr dropped ↦
        let tail : keep p xs ≡ a ∷ [] = ground arith in
        keep-insert_by_dropped key p x (sort_by key xs) dropped ∙ keep-sort_by_only key p a xs tail
  ]
