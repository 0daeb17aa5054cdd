-- ===== src/Prelude/Lists.antt =====
-- Lists measured and tested by native numbers and Booleans, under the library's names.
use Prim.Native.Nat.{ℕ, zero, suc, ◌+◌, ◌≤◌}
use mathlib.Core.Path.{◌≡◌, refl, ap, sym, ◌∙◌, subst}
use mathlib.Core.Bool.{Bool, true, false, ◌||◌, ◌&&◌}
use mathlib.Core.Logic.{inl, inr}
use mathlib.Core.List.{List, [], ◌∷◌, ◌++◌}
use mathlib.Core.Option.{Option, none, some, some-injective}
use native.Mathlib.Omega.{arith}
use test_app_pkcs.Prelude.Tests.{if◌then◌else◌, ◌==◌, Bool-cases}

module _ {ℓ} {A : Type ℓ} where
  abbrev pub length : List A → ℕ
  length [] = 0
  length (x ∷ xs) = suc (length xs)

  pub length-append : (xs ys : List A) → length (xs ++ ys) ≡ length xs + length ys
  length-append [] ys = omega arith
  length-append (x ∷ xs) ys = omega (arith, length-append xs ys)

  -- `xs[i]`, none past the end
  abbrev pub get_elem? : List A → ℕ → Option A
  get_elem? [] i = none
  get_elem? (x ∷ xs) zero = some x
  get_elem? (x ∷ xs) (suc i) = get_elem? xs i

  abbrev pub take : ℕ → List A → List A
  take zero xs = []
  take (suc n) [] = []
  take (suc n) (x ∷ xs) = x ∷ take n xs

  -- `Iterator::filter`
  unfoldable pub keep : (A → Bool) → List A → List A
  keep p [] = []
  keep p (x ∷ xs) = let rest = keep p xs in if p x then x ∷ rest else rest

  -- `Iterator::any`
  unfoldable pub any : (A → Bool) → List A → Bool
  any p [] = false
  any p (x ∷ xs) = p x || any p xs

  -- `Iterator::find`
  unfoldable pub find? : (A → Bool) → List A → Option A
  find? p [] = none
  find? p (x ∷ xs) = let rest = find? p xs in if p x then some x else rest

  pub find?-holds : (p : A → Bool) (xs : List A) (a : A) → find? p xs ≡ some a → p a ≡ true
  unfolding find?
  find?-holds p [] a h = cc
  find?-holds p (x ∷ xs) a h = ground (arith, find?-holds p xs a)

  pub length-keep-le : (p : A → Bool) (xs : List A) → length (keep p xs) ≤ length xs
  unfolding keep
  length-keep-le p [] = omega arith
  length-keep-le p (x ∷ xs) = ground (arith, length-keep-le p xs)

  pub keep-append : (p : A → Bool) (xs ys : List A) → keep p (xs ++ ys) ≡ keep p xs ++ keep p ys
  unfolding keep
  keep-append p [] ys = refl
  keep-append p (x ∷ xs) ys = ground (arith, keep-append p xs ys)

  pub keep-snoc :
      (p : A → Bool) (xs : List A) (x : A)
      → p x ≡ true
      → keep p (xs ++ x ∷ []) ≡ keep p xs ++ x ∷ []
  unfolding keep
  keep-snoc p [] x h = rw h
  keep-snoc p (y ∷ xs) x h = ground (arith, keep-snoc p xs x h)

  pub keep-snoc_dropped :
      (p : A → Bool) (xs : List A) (x : A) → p x ≡ false → keep p (xs ++ x ∷ []) ≡ keep p xs
  unfolding keep
  keep-snoc_dropped p [] x h = rw h
  keep-snoc_dropped p (y ∷ xs) x h = ground (arith, keep-snoc_dropped p xs x h)

  pub any-append : (p : A → Bool) (xs ys : List A) → any p (xs ++ ys) ≡ (any p xs || any p ys)
  unfolding any
  any-append p [] ys = refl
  any-append p (x ∷ xs) ys = ground (arith, any-append p xs ys)

-- A property of every element.
abbrev pub All {ℓ κ} : {A : Type ℓ} → (A → Type κ) → List A → Type κ
All P [] = Unit
All P (x ∷ xs) = P x × All P xs

module _ {ℓ κ} {A : Type ℓ} (P : A → Type κ) where
  pub All-append : (xs ys : List A) → All P xs → All P ys → All P (xs ++ ys)
  All-append [] ys hx hy = hy
  All-append (x ∷ xs) ys hx hy = (hx.0, All-append xs ys hx.1 hy)

  pub All-keep : (p : A → Bool) (xs : List A) → All P xs → All P (keep p xs)
  unfolding keep
  All-keep p [] h = h
  All-keep p (x ∷ xs) h = ground (arith, All-keep p xs h.1)

-- No two elements have one key.
abbrev pub Distinct {ℓ} : {A : Type ℓ} → (A → ℕ) → List A → Type 0
Distinct key [] = Unit
Distinct key (x ∷ xs) = All (λ y. (key x == key y) ≡ false) xs × Distinct key xs

module _ {ℓ} {A : Type ℓ} where
  -- A key that no element has occurs in no row that `q` picks.
  keep-missing :
      (key : A → ℕ) (q : A → Bool) (k : ℕ) (xs : List A)
      → ((a : A) → q a ≡ true → (k == key a) ≡ true)
      → All (λ y. (k == key y) ≡ false) xs
      → keep q xs ≡ []
  unfolding keep
  keep-missing key q k [] h all = refl
  keep-missing key q k (x ∷ xs) h all = ground (arith, h x, keep-missing key q k xs h all.1)

  -- A test of the key finds one element at most.
  pub length-keep_le_one :
      (key : A → ℕ) (q : A → Bool) (k : ℕ) (xs : List A)
      → ((a : A) → q a ≡ true → (k == key a) ≡ true)
      → Distinct key xs
      → length (keep q xs) ≤ 1
  unfolding keep
  length-keep_le_one key q k [] h d = omega arith
  length-keep_le_one key q k (x ∷ xs) h d = elim (Bool-cases (q x)) [
    | inl e ↦
        let same : k ≡ key x = ground (arith, h x) in
        rw (e, keep-missing key q (key x) xs (λ a m. ground (arith, h a m)) d.0) (omega arith)
    | inr e ↦ rw e (length-keep_le_one key q k xs h d.1)
  ]

  any-missing :
      (key : A → ℕ) (q : A → Bool) (k : ℕ) (xs : List A)
      → All (λ y. (k == key y) ≡ false) xs
      → any (λ c. k == key c && q c) xs ≡ false
  unfolding any
  any-missing key q k [] all = refl
  any-missing key q k (x ∷ xs) all = ground (arith, any-missing key q k xs all.1)

  any-own_skip :
      (key : A → ℕ) (q : A → A → Bool) (x : A) (xs ys : List A)
      → All (λ y. (key x == key y) ≡ false) ys
      → All (λ r. any (λ c. key r == key c && q r c) xs ≡ q r r) ys
      → All (λ r. any (λ c. key r == key c && q r c) (x ∷ xs) ≡ q r r) ys
  unfolding any
  any-own_skip key q x xs [] h a = tt
  any-own_skip key q x xs (y ∷ ys) h a = (ground arith, any-own_skip key q x xs ys h.1 a.1)

  -- Where keys are distinct, some element of `r`'s key passes a test exactly if `r` does.
  pub any-own :
      (key : A → ℕ) (q : A → A → Bool) (xs : List A)
      → Distinct key xs
      → All (λ r. any (λ c. key r == key c && q r c) xs ≡ q r r) xs
  unfolding any
  any-own key q [] d = tt
  any-own key q (x ∷ xs) d = (
    ground (arith, any-missing key (q x) (key x) xs d.0),
    any-own_skip key q x xs xs d.0 (any-own key q xs d.1),
  )

  pub any-keep : (p q : A → Bool) (xs : List A) → any p (keep q xs) ≡ any (λ a. p a && q a) xs
  unfolding any keep
  any-keep p q [] = refl
  any-keep p q (x ∷ xs) = ground (arith, any-keep p q xs)

pub All-map {ℓ κ ι} :
    {A : Type ℓ} (P : A → Type κ) (Q : A → Type ι) (xs : List A)
    → ((a : A) → P a → Q a)
    → All P xs
    → All Q xs
All-map P Q [] h all = tt
All-map P Q (x ∷ xs) h all = (h x all.0, All-map P Q xs h all.1)

module _ {ℓ} {A : Type ℓ} (key : A → ℕ) where
  All-differ_snoc :
      (k : ℕ) (new : A) (xs : List A)
      → (k == key new) ≡ false
      → All (λ y. (k == key y) ≡ false) xs
      → All (λ y. (k == key y) ≡ false) (xs ++ new ∷ [])
  All-differ_snoc k new [] e a = (e, tt)
  All-differ_snoc k new (x ∷ xs) e a = (a.0, All-differ_snoc k new xs e a.1)

  -- A row whose key no other has leaves the keys distinct.
  pub Distinct-snoc :
      (new : A) (xs : List A)
      → any (λ x. key x == key new) xs ≡ false
      → Distinct key xs
      → Distinct key (xs ++ new ∷ [])
  unfolding any
  Distinct-snoc new [] e d = (tt, tt)
  Distinct-snoc new (x ∷ xs) e d =
      (All-differ_snoc (key x) new xs (ground arith) d.0, Distinct-snoc new xs (ground arith) d.1)

module _ {ℓ} {A : Type ℓ} (p q : A → Bool) where
  pub any-or_left : (xs : List A) → any (λ x. p x || q x) xs ≡ false → any p xs ≡ false
  unfolding any
  any-or_left [] h = refl
  any-or_left (x ∷ xs) h = ground (arith, any-or_left xs)

  pub any-or_right : (xs : List A) → any (λ x. p x || q x) xs ≡ false → any q xs ≡ false
  unfolding any
  any-or_right [] h = refl
  any-or_right (x ∷ xs) h = ground (arith, any-or_right xs)

  pub any-or_neither :
      (xs : List A) → any p xs ≡ false → any q xs ≡ false → any (λ x. p x || q x) xs ≡ false
  unfolding any
  any-or_neither [] h k = refl
  any-or_neither (x ∷ xs) h k = ground (arith, any-or_neither xs)

module _ {ℓ} {A : Type ℓ} (p : A → Bool) where
  -- `find?` and `any` agree.
  pub find?-none : (xs : List A) → find? p xs ≡ none → any p xs ≡ false
  unfolding find? any
  find?-none [] h = refl
  find?-none (x ∷ xs) h = ground (arith, find?-none xs)

  pub find?-snoc :
      (xs : List A) (new : A)
      → any p xs ≡ false
      → p new ≡ true
      → find? p (xs ++ new ∷ []) ≡ some new
  unfolding find? any
  find?-snoc [] new h e = ground arith
  find?-snoc (x ∷ xs) new h e = ground (arith, find?-snoc xs new)

  pub find?-snoc_other :
      (xs : List A) (new : A) → p new ≡ false → find? p (xs ++ new ∷ []) ≡ find? p xs
  unfolding find?
  find?-snoc_other [] new e = ground arith
  find?-snoc_other (x ∷ xs) new e = ground (arith, find?-snoc_other xs new e)

pub find?-All {ℓ κ} :
    {A : Type ℓ} (P : A → Type κ) (p : A → Bool) (xs : List A) (a : A)
    → All P xs
    → find? p xs ≡ some a
    → P a
unfolding find?
find?-All P p [] a all e = cc
find?-All P p (x ∷ xs) a all e =
    let choose : Bool → Option _ = λ b. if b then some x else find? p xs in
    elim (Bool-cases (p x)) [
      | inl hit ↦ subst P (some-injective x a (ap choose (sym hit) ∙ e)) all.0
      | inr miss ↦ find?-All P p xs a all.1 (ap choose (sym miss) ∙ e)
    ]

-- Where keys are distinct, what any test finds is found by its key.
pub find?-Distinct {ℓ} :
    {A : Type ℓ} (key : A → ℕ) (p : A → Bool) (xs : List A) (a : A)
    → Distinct key xs
    → find? p xs ≡ some a
    → find? (λ x. key x == key a) xs ≡ some a
unfolding find?
find?-Distinct key p [] a d e = e
find?-Distinct key p (x ∷ xs) a d e =
    let choose : Bool → Option _ = λ b. if b then some x else find? p xs in
    elim (Bool-cases (p x)) [
      | inl hit ↦
          let q : x ≡ a = some-injective x a (ap choose (sym hit) ∙ e) in
          let k : key x ≡ key a = ap key q in ground arith
      | inr miss ↦
          let later = ap choose (sym miss) ∙ e in
          let other = find?-All (λ y. (key x == key y) ≡ false) p xs a d.0 later in
          rw other (find?-Distinct key p xs a d.1 later)
    ]

module _ {ℓ} {A : Type ℓ} (p : A → Bool) where
  pub find?-append_first :
      (xs ys : List A) (a : A) → find? p xs ≡ some a → find? p (xs ++ ys) ≡ some a
  unfolding find?
  find?-append_first [] ys a e = cc
  find?-append_first (x ∷ xs) ys a e = ground (arith, find?-append_first xs ys a)

  pub any-weaker :
      (q : A → Bool) (xs : List A)
      → ((a : A) → p a ≡ true → q a ≡ true)
      → any q xs ≡ false
      → any p xs ≡ false
  unfolding any
  any-weaker q [] h e = refl
  any-weaker q (x ∷ xs) h e = ground (arith, h x, any-weaker q xs h)
