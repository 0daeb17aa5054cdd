-- ===== src/Auth/Seed.antt =====
-- Seeding the test users.
use text.Mathlib.Text.{◌==◌ as str_eq}
use test_app_pkcs.Prelude.{
  ℕ, suc, String, ◌≡◌, refl, Bool, false, none, some, List, [], ◌∷◌, ◌++◌, any, find?, find?-none,
  find?-snoc, find?-append_first, any-weaker, arith, All, Option-cases, inl, inr, ap, sym, ◌∙◌,
  eq_iff,
}
use test_app_pkcs.Prelude.Result.{Result, ok, err, >>=-eq-ok, Result-cases, ok-injective}
use test_app_pkcs.Db.Users.{UserRow, find_user_by_email, upsert_user_if_absent}
use test_app_pkcs.Auth.{
  Argon2, HashError, seed_users, seed_missing, insert_hashed, seed_test_users, emails,
}

module _ {P : Type 0} (argon2 : Argon2 P) (lower : String → String) where
  abbrev pub IsUser : List UserRow → String → Type 0
  IsUser users email = (u : UserRow) × (find_user_by_email lower email users ≡ some u)

  upsert-fresh_email :
      (id : ℕ) (email hash : String) (users : List UserRow)
      → find_user_by_email lower email users ≡ none
      → (upsert_user_if_absent id email hash users).1
        ≡ users ++ record { id = id; email = email; password_hash = hash } ∷ []
  unfolding upsert_user_if_absent find_user_by_email
  upsert-fresh_email id email hash users e =
      let free : any (λ u. str_eq u.email email) users ≡ false =
        any-weaker (λ u. str_eq u.email email) (λ u. str_eq (lower u.email) (lower email)) users
          (λ u same. ground (arith, eq_iff u.email email, eq_iff (lower u.email) (lower email)))
          (find?-none (λ u. str_eq (lower u.email) (lower email)) users e) in
      rw free refl

  added :
      (id : ℕ) (email : String) (users more : List UserRow)
      → find_user_by_email lower email users ≡ none
      → insert_hashed id email users (argon2.hash id "test1234") ≡ ok more
      → IsUser more email × ((other : String) → IsUser users other → IsUser more other)
  unfolding find_user_by_email
  added id email users more new run = elim (Result-cases (argon2.hash id "test1234")) [
    | inr (e, failed) ↦
        let bad : ◌≡◌ {A = Result HashError (List UserRow)} (err e) (ok more) =
          ap (insert_hashed id email users) (sym failed) ∙ run in
        let no : ⊥ = cc in absurd no
    | inl (hash, hashed) ↦
        let row : UserRow = record { id = id; email = email; password_hash = hash } in
        let rows = upsert-fresh_email id email hash users new in
        let same : users ++ row ∷ [] ≡ more =
          sym rows ∙ ok-injective _ more (ap (insert_hashed id email users) (sym hashed) ∙ run) in
        let p : String → UserRow → Bool = λ q u. str_eq (lower u.email) (lower q) in
        (
          (
            row,
            ap (find? (p email)) (sym same)
                ∙ find?-snoc (p email) users row (find?-none (p email) users new)
                    (ground (arith, eq_iff (lower email) (lower email))),
          ),
          λ other (u, there). (
            u,
            ap (find? (p other)) (sym same) ∙ find?-append_first (p other) users (row ∷ []) u there,
          ),
        )
  ]

  -- One email: it is found after it, and whoever was found before still is.
  seed_missing-IsUser :
      (id : ℕ) (email : String) (users more : List UserRow)
      → seed_missing argon2 id email users (find_user_by_email lower email users) ≡ ok more
      → IsUser more email × ((other : String) → IsUser users other → IsUser more other)
  seed_missing-IsUser id email users more run =
      elim (Option-cases (find_user_by_email lower email users)) [
        | inr (u, found) ↦
            let same : users ≡ more =
              ok-injective users more (ap (seed_missing argon2 id email users) (sym found) ∙ run) in
            (
              (u, ap (find_user_by_email lower email) (sym same) ∙ found),
              λ other there. rw (sym same) there,
            )
        | inl new ↦
            let ran = ap (seed_missing argon2 id email users) (sym new) ∙ run in
            added id email users more new ran
      ]

  seed_users-IsUser :
      (id : ℕ) (todo : List String) (users more : List UserRow)
      → seed_users argon2 lower id todo users ≡ ok more
      → All (IsUser more) todo × ((other : String) → IsUser users other → IsUser more other)
  unfolding seed_users
  seed_users-IsUser id [] users more run =
      let same = ok-injective users more run in (tt, λ other there. rw (sym same) there)
  seed_users-IsUser id (email ∷ todo) users more run =
      let (next, one, rest) =
        >>=-eq-ok (seed_missing argon2 id email users (find_user_by_email lower email users)) _
          run in
      let (here, kept) = seed_missing-IsUser id email users next one in
      let (others, later) = seed_users-IsUser (suc id) todo next more rest in
      ((later email here, others), λ other there. later other (kept other there))

  seed_users-idle :
      (id : ℕ) (todo : List String) (users : List UserRow)
      → All (IsUser users) todo
      → seed_users argon2 lower id todo users ≡ ok users
  unfolding seed_users
  seed_users-idle id [] users a = refl
  seed_users-idle id (email ∷ todo) users a = rw ((a.0).1) (seed_users-idle (suc id) todo users a.1)

  -- When the seeding succeeds, each test user is found by the email, users that were there are
  -- still found, and seeding again succeeds and changes nothing.
  pub seed_test_users_lem :
      (id again : ℕ) (users more : List UserRow)
      → seed_test_users argon2 lower id users ≡ ok more
      → All (IsUser more) emails
        × ((other : String) → IsUser users other → IsUser more other)
        × (seed_test_users argon2 lower again more ≡ ok more)
  unfolding seed_test_users
  seed_test_users_lem id again users more run =
      let (all, kept) = seed_users-IsUser id emails users more run in
      (all, kept, seed_users-idle again emails more all)
