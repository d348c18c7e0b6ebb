-- ===== src/Auth/Manager.antt =====
-- The manager of backend/internal/auth/manager.go: setup of the administrator, login, sessions.
pub mod Openings
pub mod Setup
pub mod Sessions
pub mod Steps
pub mod Startup
mod Tests
use compose_manager.Base.{
  Outcome, done, error, ◌>>=◌, ◌>>◌, require, or_error, bind-done, require-done, or_error-done,
  done_inj, if_cases, text_lt, put_sorted,
}
use compose_manager.Base.{
  sort_by, All-sort_by, Never, Exists, Exists-mono, Exists-of_any, ℕ, zero, suc, ◌+◌, ◌-◌, ◌*◌, ◌/◌,
  ◌%◌,
}
use compose_manager.Base.{◌^◌, ◌≤◌, ◌<◌, ◌≡◌, refl, sym, ap, ◌∙◌, ◌≢◌, ◌↔◌, ◌⊎◌, inl, inr, Bool}
use compose_manager.Base.{
  true, false, not, ◌&&◌, ◌||◌, Option, none, some, List, [], ◌∷◌, ◌++◌, map, arith,
}
use compose_manager.Base.{
  ltb, leb, ◌==◌, if◌then◌else◌, ==_iff, Bool-cases, Option-cases, and_true, and_intro, or_false,
  length, take, drop, all,
}
use compose_manager.Base.{
  any, filter, length-append, length-take, length-drop, take-append-drop, All, All-append, All-mono,
  All-filter, All-filter_test, All-of_all, length-filter, All-of_any,
}
use compose_manager.Base.{
  Text, codes, same, same_iff, same_refl, same_sym, is_empty, has_prefix, contains, has_byte, split,
  join, is_space, trim_left,
}
use compose_manager.Base.{
  trim_right, trim_space, lower_byte, to_lower, last_piece, but_last, Map, lookup, insert, remove,
  purge, lookup-insert, lookup-remove, Unique,
}
use compose_manager.Base.{Unique-insert, Unique-remove, unless, lookup-purge, Unique-purge}
use compose_manager.Auth.Store.{
  has_users, User, Session, Database, Host, AuthError, storage_failed, no_rows, already_initialized,
  invalid_credentials, invalid_setup_token, invalid_username, invalid_password, no_randomness,
  create_initial_user, user_by_username, create_session, session_by_token_hash, delete_session_row,
}

-- `count_runes` is `utf8.RuneCountInString`; `hash` and `verify` are those of the package's passwords;
-- `token` and `csrf` are what `randomToken` returns, or its error.
pub record Secrets : Type 0 where
  pub count_runes : Text → ℕ
  pub hash_password : Text → Outcome AuthError Text
  pub verify_password : Text → Text → Option Bool
  pub session_token : Option Text
  pub csrf_token : Option Text

pub record Manager : Type 0 where
  pub database : Database
  pub ttl : ℕ
  pub secure_cookie : Bool
  pub dummy_hash : Text
  pub setup_token : Text

-- The `Result` of a login.
pub record Login : Type 0 where
  pub username : Text
  pub session_token : Text
  pub csrf_token : Text
  pub expires_at : ℕ

-- `CookieName`.
abbrev pub cookie_name : Manager → Text
cookie_name m = if m.secure_cookie then codes "__Host-cm_session" else codes "cm_session"

-- `SetupRequired`.
pub setup_required : Host → Manager → Outcome AuthError Bool
setup_required h m = has_users h m.database >>= λ some_user. done (not some_user)

abbrev is_username_byte : ℕ → Bool
is_username_byte c =
    (leb b'a' c && leb c b'z')
    || ((leb b'A' c && leb c b'Z')
        || ((leb b'0' c && leb c b'9') || ((c == b'_') || ((c == b'.') || (c == b'-')))))

pub username_valid : Text → Bool
username_valid username =
    leb 3 (length username) && (leb (length username) 32 && all is_username_byte username)

pub password_valid : Secrets → Text → Bool
password_valid k password =
    leb 12 (k.count_runes password)
    && (leb (k.count_runes password) 128 && leb (length password) 512)

pub validate_credentials : Secrets → Text → Text → Outcome AuthError (Unit {0})
validate_credentials k username password = do
  require (username_valid username) invalid_username
  require (password_valid k password) invalid_password

-- `constantTimeEqual`: equal digests.
abbrev pub constant_time_equal : Host → Text → Text → Bool
constant_time_equal h left right = same (h.sha256 left) (h.sha256 right)

abbrev pub with_database : Manager → Database → Manager
with_database m db = record m { database = db }

abbrev pub finish_session :
    Manager → Login → Outcome AuthError (Unit {0}) × Database → Outcome AuthError Login × Manager
finish_session m login (error e, db) = (error e, with_database m db)
finish_session m login (done u, db) = (done login, with_database m db)

-- `newSession`.
unfoldable pub new_session : Host → Secrets → User → Manager → Outcome AuthError Login × Manager
new_session h k user m = elim k.session_token [
  | none ↦ (error no_randomness, m)
  | some token ↦ elim k.csrf_token [
    | none ↦ (error no_randomness, m)
    | some csrf ↦
        finish_session m
          (record {
            username = user.username;
            session_token = token;
            csrf_token = csrf;
            expires_at = h.now + m.ttl;
          })
          (create_session h user.id (h.sha256 token) csrf (h.now + m.ttl) m.database)
  ]
]

-- The end of a setup: its token is forgotten once there is a session.
pub finish_setup : Outcome AuthError Login × Manager → Outcome AuthError Login × Manager
finish_setup (error e, m) = (error e, m)
finish_setup (done login, m) = (done login, record m { setup_token = [] })

pub setup_user :
    Host → Secrets → Manager → Outcome AuthError User × Database → Outcome AuthError Login × Manager
setup_user h k m (error e, db) = (error e, with_database m db)
setup_user h k m (done user, db) = finish_setup (new_session h k user (with_database m db))

pub setup_hashed :
    Host → Secrets → Text → Manager → Outcome AuthError Text → Outcome AuthError Login × Manager
setup_hashed h k username m (error e) = (error e, m)
setup_hashed h k username m (done encoded) =
    setup_user h k m (create_initial_user h username encoded m.database)

pub setup_checked :
    Host
    → Secrets
    → Text
    → Text
    → Manager
    → Outcome AuthError (Unit {0})
    → Outcome AuthError Login × Manager
setup_checked h k username password m (error e) = (error e, m)
setup_checked h k username password m (done u) =
    setup_hashed h k username m (k.hash_password password)

-- `Setup`; the token must be that of the manager, and not empty.
pub setup : Host → Secrets → Text → Text → Text → Manager → Outcome AuthError Login × Manager
setup h k setup_token username password m =
    let name = trim_space username in
    let next = setup_checked h k name password m (validate_credentials k name password) in
    if is_empty m.setup_token || not (constant_time_equal h m.setup_token (trim_space setup_token))
    then (error invalid_setup_token, m)
    else next

unfoldable pub login_verified :
    Host → Secrets → User → Manager → Option Bool → Outcome AuthError Login × Manager
login_verified h k user m none = (error invalid_credentials, m)
login_verified h k user m (some false) = (error invalid_credentials, m)
login_verified h k user m (some true) = new_session h k user m

-- An unknown name costs a verification too, of the dummy, whose answer does not count; another error
-- of the database is returned.
unfoldable pub login_found :
    Host → Secrets → Text → Manager → Outcome AuthError User → Outcome AuthError Login × Manager
login_found h k password m (done user) =
    login_verified h k user m (k.verify_password user.password_hash password)
login_found h k password m (error no_rows) = (error invalid_credentials, m)
login_found h k password m (error e) = (error e, m)

-- `Login`.
unfoldable pub login : Host → Secrets → Text → Text → Manager → Outcome AuthError Login × Manager
login h k username password m =
    login_found h k password m (user_by_username h (trim_space username) m.database)

-- `Authenticate`.
unfoldable pub authenticate : Host → Text → Manager → Outcome AuthError Session
authenticate h token m =
    let found = session_by_token_hash h (h.sha256 token) m.database in
    if is_empty (trim_space token) then error no_rows else found

-- `Logout`.
unfoldable pub logout : Host → Text → Manager → Outcome AuthError (Unit {0}) × Manager
logout h token m =
    let removed = delete_session_row h (h.sha256 token) m.database in
    if is_empty (trim_space token) then (done tt, m) else (removed.0, with_database m removed.1)

-- `ValidCSRF`.
unfoldable pub valid_csrf : Host → Session → Text → Bool
valid_csrf h session token =
    not (is_empty session.csrf_token) && constant_time_equal h session.csrf_token token
