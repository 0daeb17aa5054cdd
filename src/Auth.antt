-- ===== src/Auth.antt =====
-- Login: `src/auth.rs` and `src/handlers/auth.rs`. A session is the stored user id, in a store that
-- may be out of reach. Argon2 is a parameter.
pub mod Login
pub mod Seed
use test_app_pkcs.Prelude.{
  ℕ, suc, String, Bool, true, false, Option, none, some, List, [], ◌∷◌, if◌then◌else◌,
}
use test_app_pkcs.Prelude.Result.{Result, ok, err, ◌>>=◌}
use test_app_pkcs.Db.Users.{UserRow, find_user_by_id, find_user_by_email, upsert_user_if_absent}

-- `password_hash::Error`: the password does not match, or any other
pub data HashError : Type 0 where
  password other : HashError

-- Argon2 over parsed hashes of type `P`; `hash` is salted.
pub record Argon2 (P : Type 0) : Type 0 where
  pub parse : String → Result HashError P
  pub verify : String → P → Result HashError (Unit {0})
  pub hash : ℕ → String → Result HashError String

pub record Session : Type 0 where
  pub user_id : Option ℕ
  pub reachable : Bool

pub data AuthError : Type 0 where
  session password_hash : AuthError

-- What a handler answers.
pub data Response : Type 0 where
  redirect_home redirect_login login_page invalid_credentials internal_server_error : Response

abbrev pub verdict : Result HashError (Unit {0}) → Result HashError Bool
verdict (ok u) = ok true
verdict (err password) = ok false
verdict (err other) = err other

unfoldable pub verify_password : {P : Type 0} → Argon2 P → String → String → Result HashError Bool
verify_password argon2 plain phc =
    argon2.parse phc >>= λ parsed. verdict (argon2.verify plain parsed)

-- `session.insert(USER_ID_KEY, user_id)`
unfoldable pub log_in : ℕ → Session → Result AuthError Session
log_in id s = if s.reachable then ok (record s { user_id = some id }) else err session

-- `session.flush()`
unfoldable pub log_out : Session → Result AuthError Session
log_out s = if s.reachable then ok (record s { user_id = none }) else err session

abbrev pub user_of : List UserRow → Option ℕ → Option UserRow
user_of users none = none
user_of users (some id) = find_user_by_id id users

unfoldable pub current_user : Session → List UserRow → Result AuthError (Option UserRow)
current_user s users = if s.reachable then ok (user_of users s.user_id) else err session

-- The extractor `AuthUser`: the user, or a redirect.
abbrev pub extracted : Result AuthError (Option UserRow) → Result Response UserRow
extracted (ok (some user)) = ok user
extracted (ok none) = err redirect_login
extracted (err e) = err redirect_login

unfoldable pub from_request_parts : Session → List UserRow → Result Response UserRow
unfolding current_user
from_request_parts s users = extracted (current_user s users)

-- The optional extractor: an error counts as nobody.
abbrev pub extracted_optional : Result AuthError (Option UserRow) → Option UserRow
extracted_optional (ok user) = user
extracted_optional (err e) = none

unfoldable pub optional_from_request_parts : Session → List UserRow → Option UserRow
unfolding current_user
optional_from_request_parts s users = extracted_optional (current_user s users)

abbrev pub login_answer : Result AuthError (Option UserRow) → Response
login_answer (ok (some user)) = redirect_home
login_answer (ok none) = login_page
login_answer (err e) = internal_server_error

unfoldable pub login_get : Session → List UserRow → Response
unfolding current_user
login_get s users = login_answer (current_user s users)

abbrev pub after_log_in : Session → Result AuthError Session → Response × Session
after_log_in s (ok t) = (redirect_home, t)
after_log_in s (err e) = (internal_server_error, s)

abbrev pub after_verify : ℕ → Session → Result HashError Bool → Response × Session
after_verify id s (ok true) = after_log_in s (log_in id s)
after_verify id s (ok false) = (invalid_credentials, s)
after_verify id s (err e) = (internal_server_error, s)

abbrev pub after_lookup :
    {P : Type 0} → Argon2 P → String → Session → Option UserRow → Response × Session
after_lookup argon2 plain s none = (invalid_credentials, s)
after_lookup argon2 plain s (some user) =
    after_verify user.id s (verify_password argon2 plain user.password_hash)

unfoldable pub login_post :
    {P : Type 0}
    → Argon2 P
    → (String → String)
    → String
    → String
    → Session
    → List UserRow
    → Response × Session
login_post argon2 lower email plain s users =
    after_lookup argon2 plain s (find_user_by_email lower email users)

abbrev pub after_log_out : Session → Result AuthError Session → Response × Session
after_log_out s (ok t) = (redirect_login, t)
after_log_out s (err e) = (internal_server_error, s)

unfoldable pub logout_post : Session → Response × Session
unfolding log_out
logout_post s = after_log_out s (log_out s)

abbrev pub emails : List String
emails = "test1@test.com" ∷ "test2@test.com" ∷ "test3@test.com" ∷ "admin@test.com" ∷ []

abbrev pub insert_hashed :
    ℕ → String → List UserRow → Result HashError String → Result HashError (List UserRow)
insert_hashed id email users (err e) = err e
insert_hashed id email users (ok hash) = ok ((upsert_user_if_absent id email hash users).1)

abbrev pub seed_missing :
    {P : Type 0}
    → Argon2 P
    → ℕ
    → String
    → List UserRow
    → Option UserRow
    → Result HashError (List UserRow)
seed_missing argon2 id email users (some user) = ok users
seed_missing argon2 id email users none = insert_hashed id email users (argon2.hash id "test1234")

-- `id` numbers the row and the salt that each email draws.
unfoldable pub seed_users :
    {P : Type 0}
    → Argon2 P
    → (String → String)
    → ℕ
    → List String
    → List UserRow
    → Result HashError (List UserRow)
seed_users argon2 lower id [] users = ok users
seed_users argon2 lower id (email ∷ rest) users =
    seed_missing argon2 id email users (find_user_by_email lower email users) >>= λ more.
    seed_users argon2 lower (suc id) rest more

unfoldable pub seed_test_users :
    {P : Type 0} → Argon2 P → (String → String) → ℕ → List UserRow → Result HashError (List UserRow)
unfolding seed_users
seed_test_users argon2 lower id users = seed_users argon2 lower id emails users
