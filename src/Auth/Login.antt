-- ===== src/Auth/Login.antt =====
-- Who a session is logged in as.
use text.Mathlib.Text.{◌==◌ as str_eq}
use test_app_pkcs.Prelude.{
  find?-Distinct, ℕ, String, ◌≡◌, refl, Bool, true, false, some, List, if◌then◌else◌, arith,
  Bool-cases, Option-cases, inl, inr, ◌⊎◌, ap, sym, ◌∙◌, Distinct,
}
use test_app_pkcs.Prelude.Result.{Result, ok, err, >>=-eq-ok, Result-cases}
use test_app_pkcs.Db.Users.{UserRow, find_user_by_id, find_user_by_email}
use test_app_pkcs.Auth.{
  Argon2, HashError, Session, session, Response, redirect_home, redirect_login, verify_password,
  verdict, log_in, current_user, from_request_parts, login_post,
}

verdict-ok :
    (r : Result HashError (Unit {0})) (answer : Bool)
    → verdict r ≡ ok answer
    → r ≡ (if answer then ok tt else err HashError.password)
verdict-ok (ok u) answer h = ground arith
verdict-ok (err HashError.password) answer h = ground arith
verdict-ok (err HashError.other) answer h = ground arith

-- `verify_password` accepts only what Argon2 verifies against the parsed hash; a mismatch is `false`
-- and any other failure an error.
pub verify_password_lem :
    {P : Type 0} (argon2 : Argon2 P) (plain phc : String) (answer : Bool)
    → verify_password argon2 plain phc ≡ ok answer
    → (parsed : P) × (argon2.parse phc ≡ ok parsed)
      × (argon2.verify plain parsed ≡ (if answer then ok tt else err HashError.password))
unfolding verify_password
verify_password_lem argon2 plain phc answer run =
    let (parsed, e, v) = >>=-eq-ok (argon2.parse phc) _ run in
    (parsed, e, verdict-ok (argon2.verify plain parsed) answer v)

abbrev pub enters : Response → Bool
enters redirect_home = true
enters _ = false

log_in-cases :
    (id : ℕ) (s : Session)
    → (log_in id s ≡ ok (record s { user_id = some id })) ⊎ (log_in id s ≡ err session)
unfolding log_in
log_in-cases id s = elim (Bool-cases s.reachable) [
  | inl e ↦ inl (rw e refl)
  | inr e ↦ inr (rw e refl)
]

-- `login_post` answers with the redirect home only if the email names a user whose stored hash the
-- password verifies against, and then the session is that user's. On every other answer, errors
-- included, the session is as it was.
pub login_post_lem :
    {P : Type 0} (argon2 : Argon2 P) (lower : String → String) (email plain : String) (s : Session)
    (users : List UserRow)
    → let out = login_post argon2 lower email plain s users in
      ((enters out.0 ≡ false) × (out.1 ≡ s))
      ⊎ ((u : UserRow) × (find_user_by_email lower email users ≡ some u)
          × (verify_password argon2 plain u.password_hash ≡ ok true)
          × (out ≡ (redirect_home, record s { user_id = some u.id })))
unfolding login_post
login_post_lem argon2 lower email plain s users =
    elim (Option-cases (find_user_by_email lower email users)) [
      | inl nobody ↦ inl (rw nobody refl, rw nobody refl)
      | inr (u, found) ↦ elim (Result-cases (verify_password argon2 plain u.password_hash)) [
        | inr (e, failed) ↦ inl (rw (found, failed) refl, rw (found, failed) refl)
        | inl (true, right) ↦ elim (log_in-cases u.id s) [
          | inl entered ↦ inr (u, found, right, rw (found, right, entered) refl)
          | inr lost ↦ inl (rw (found, right, lost) refl, rw (found, right, lost) refl)
        ]
        | inl (false, wrong) ↦ inl (rw (found, wrong) refl, rw (found, wrong) refl)
      ]
    ]

found_by_id :
    (lower : String → String) (email : String) (users : List UserRow) (u : UserRow)
    → Distinct (λ v. v.id) users
    → find_user_by_email lower email users ≡ some u
    → find_user_by_id u.id users ≡ some u
unfolding find_user_by_email find_user_by_id
found_by_id lower email users u d found =
    find?-Distinct (λ v. v.id) (λ v. str_eq (lower v.email) (lower email)) users u d found

-- A user who has logged in is the one that the next request finds: with distinct ids, the extractor
-- yields the row that the email named.
pub from_request_parts-login_post :
    {P : Type 0} (argon2 : Argon2 P) (lower : String → String) (email plain : String)
    (s t : Session) (users : List UserRow)
    → Distinct (λ u. u.id) users
    → login_post argon2 lower email plain s users ≡ (redirect_home, t)
    → (u : UserRow) × (find_user_by_email lower email users ≡ some u)
      × (from_request_parts t users ≡ (if t.reachable then ok u else err redirect_login))
unfolding from_request_parts current_user
from_request_parts-login_post argon2 lower email plain s t users d run =
    elim (login_post_lem argon2 lower email plain s users) [
      | inl (refused, same) ↦
          let bad : true ≡ false = sym (ap (λ p. enters p.0) run) ∙ refused in
          let no : ⊥ = cc in absurd no
      | inr (u, found, right, out) ↦
          let here : t ≡ record s { user_id = some u.id } = ap (λ p. p.1) (sym run ∙ out) in
          let by_id = found_by_id lower email users u d found in
          (
            u,
            found,
            rw here
                (elim (Bool-cases s.reachable) [ inl e ↦ rw (e, by_id) refl | inr e ↦ rw e refl ]),
          )
    ]
