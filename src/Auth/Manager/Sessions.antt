-- ===== src/Auth/Manager/Sessions.antt =====
-- Logins, the requests they let through and logouts, of backend/internal/auth/manager.go.

use compose_manager.Auth.Store.{find_session}
use compose_manager.Base.{Outcome, done, error, if_cases, text_lt}
use compose_manager.Base.{◌≡◌, refl, sym, ◌∙◌, ◌≢◌, inl, inr, Bool}
use compose_manager.Base.{true, false, Option, none, some}
use compose_manager.Base.{Bool-cases}
use compose_manager.Base.{filter}
use compose_manager.Base.{Text, same, same_refl, is_empty}
use compose_manager.Base.{trim_space}
use compose_manager.Auth.Store.{
  User, Session, Host, AuthError, no_rows, find_username, user_by_username, find_id,
  session_by_token_hash, select_session, delete_session_row, is_current,
}
use compose_manager.Auth.Store.Tables.{IsSound, find_username_lem, select_session-deleted}
use compose_manager.Auth.Store.Transactions.{
  user_by_username-done, find_id-only, session_by_token_hash_lem, session_by_token_hash-ap,
  session_by_token_hash-none, row_of, create_session-users, create_session-done,
  select_session-here, select_session-other, delete_session_row-users, delete_session_row-done,
}
use compose_manager.Auth.Manager.{
  Secrets, Manager, Login, login, login_found, login_verified, authenticate, logout, valid_csrf,
}
use compose_manager.Auth.Manager.Openings.{IsOpened, new_session-IsOpened}

-- What a login needs: the account of the name, with a hash that the password verifies against.
pub record IsLogin (h : Host) (k : Secrets) (username password : Text) (m : Manager) (l : Login)
    (m' : Manager) : Type 0 where
  pub user : User
  pub found : find_username (trim_space username) m.database.users ≡ done user
  pub verified : k.verify_password user.password_hash password ≡ some true
  pub opened : IsOpened h user m l m'

login_verified-done :
    (h : Host) (k : Secrets) (u : User) (m : Manager) (l : Login) (o : Option Bool)
    → (login_verified h k u m o).0 ≡ done l
    → (o ≡ some true) × IsOpened h u m l (login_verified h k u m o).1
unfolding login_verified
login_verified-done h k u m l none q = cc
login_verified-done h k u m l (some false) q = cc
login_verified-done h k u m l (some true) q = (refl, new_session-IsOpened h k u m l q)

login_found-done :
    (h : Host) (k : Secrets) (username password : Text) (m : Manager) (l : Login)
    (o : Outcome AuthError User)
    → user_by_username h (trim_space username) m.database ≡ o
    → (login_found h k password m o).0 ≡ done l
    → IsLogin h k username password m l (login_found h k password m o).1
unfolding login_found
login_found-done h k username password m l (error no_rows) found q = cc
login_found-done h k username password m l (error e) found q = cc
login_found-done h k username password m l (done u) found q =
    let (verified, opened) = login_verified-done h k u m l _ q in
    record {
      user = u;
      found = user_by_username-done h (trim_space username) m.database u found;
      verified = verified;
      opened = opened;
    }

pub login-IsLogin :
    (h : Host) (k : Secrets) (username password : Text) (m : Manager) (l : Login)
    → (login h k username password m).0 ≡ done l
    → IsLogin h k username password m l (login h k username password m).1
unfolding login
login-IsLogin h k username password m l q = login_found-done h k username password m l _ refl q

-- What a login gives, to a request that bears its token: the session of the account, while the clock
-- is before the expiry. The two hosts differ in the clock and in what fails.
pub login-authenticate :
    (h later : Host) (k : Secrets) (username password : Text) (m : Manager) (l : Login)
    → IsSound m.database
    → (login h k username password m).0 ≡ done l
    → is_empty (trim_space l.session_token) ≡ false
    → later.sha256 l.session_token ≡ h.sha256 l.session_token
    → text_lt (later.stamp later.now) (h.stamp l.expires_at) ≡ true
    → later.breaks find_session ≡ false
    → (s : Session) × (authenticate later l.session_token (login h k username password m).1
        ≡ done s)
      × (s.username ≡ l.username)
      × (s.csrf_token ≡ l.csrf_token)
unfolding authenticate
login-authenticate h later k username password m l sound q full digest current works =
    let made = login-IsLogin h k username password m l q in
    let u = made.user in
    let (named, (known, member)) =
      find_username_lem (trim_space username) m.database.users u made.found in
    let found : find_id u.id m.database.users ≡ some u =
      find_id-only m.database.users u sound.one member in
    let row = row_of h u.id (h.sha256 l.session_token) l.csrf_token l.expires_at in
    let here =
      select_session-here later m.database.users row (filter (is_current h) m.database.sessions) u
        current found in
    (
      record {
        user_id = u.id;
        username = u.username;
        csrf_token = l.csrf_token;
        expires_at = h.stamp l.expires_at;
      },
      rw
          (
            full,
            digest,
            session_by_token_hash_lem later (h.sha256 l.session_token) _ works,
            made.opened.left,
            create_session-users,
            create_session-done h u.id (h.sha256 l.session_token) l.csrf_token l.expires_at
                m.database made.opened.stored,
          )
          here,
      sym made.opened.named,
      refl,
    )

logout-database :
    (h : Host) (token : Text) (m : Manager)
    → is_empty (trim_space token) ≡ false
    → ((logout h token m).0 ≡ (delete_session_row h (h.sha256 token) m.database).0)
      × ((logout h token m).1.database ≡ (delete_session_row h (h.sha256 token) m.database).1)
unfolding logout
logout-database h token m full = rw full (refl, refl)

logout_blank :
    (h : Host) (token : Text) (m : Manager)
    → is_empty (trim_space token) ≡ true
    → (logout h token m).1 ≡ m
unfolding logout
logout_blank h token m blank = rw blank refl

authenticate_blank :
    (h : Host) (token : Text) (m : Manager) (s : Session)
    → is_empty (trim_space token) ≡ true
    → authenticate h token m ≢ done s
unfolding authenticate
authenticate_blank h token m s blank q = let r : error no_rows ≡ done s = rw blank at q in cc

authenticate-ap :
    (h : Host) (token : Text) (m m' : Manager)
    → session_by_token_hash h (h.sha256 token) m.database
      ≡ session_by_token_hash h (h.sha256 token) m'.database
    → authenticate h token m ≡ authenticate h token m'
unfolding authenticate
authenticate-ap h token m m' e = rw e refl

authenticate-none :
    (h : Host) (token : Text) (m : Manager) (s : Session)
    → select_session h (h.sha256 token) m.database.users m.database.sessions ≡ error no_rows
    → authenticate h token m ≢ done s
unfolding authenticate
authenticate-none h token m s e =
    if_cases (λ (x : Outcome AuthError Session). x ≢ done s) (is_empty (trim_space token))
      (error no_rows) (session_by_token_hash h (h.sha256 token) m.database) (λ f q. cc)
      (λ f. session_by_token_hash-none h (h.sha256 token) m.database e s)

-- After a logout that is reported no request with that token is authenticated, at any later time, and
-- those with another token, of another digest, fare as they did.
pub logout-authenticate :
    (h later : Host) (token other : Text) (m : Manager)
    → (logout h token m).0 ≡ done tt
    → later.sha256 token ≡ h.sha256 token
    → ((s : Session) → authenticate later token (logout h token m).1 ≢ done s)
      × (same (h.sha256 token) (later.sha256 other) ≡ false
          → authenticate later other (logout h token m).1 ≡ authenticate later other m)
logout-authenticate h later token other m q digest =
    elim (Bool-cases (is_empty (trim_space token))) [
      | inl e ↦ (
        (λ s. authenticate_blank later token (logout h token m).1 s e),
        (λ d. rw (logout_blank h token m e) refl),
      )
      | inr e ↦
          (let (result, database) = logout-database h token m e in
            let gone = delete_session_row-done h (h.sha256 token) m.database (sym result ∙ q) in
            (
              (λ s. authenticate-none later token (logout h token m).1 s (
                  rw (digest, database, gone)
                    (select_session-deleted later (h.sha256 token) _ m.database.sessions))),
              (λ d. authenticate-ap later other (logout h token m).1 m (
                  session_by_token_hash-ap later (later.sha256 other) _ m.database (
                    rw (database, gone, delete_session_row-users)
                      (select_session-other later (h.sha256 token) (later.sha256 other)
                        m.database.users m.database.sessions d)))),
            ))
    ]

-- The token of a session, if there is one, is valid for it.
pub valid_csrf_same :
    (h : Host) (session : Session) (token given : Text)
    → session.csrf_token ≡ token
    → given ≡ token
    → is_empty token ≡ false
    → valid_csrf h session given ≡ true
unfolding valid_csrf
valid_csrf_same h session token given same_token same_given full =
    let set : is_empty session.csrf_token ≡ false = rw same_token full in
    rw (same_given, sym same_token) (rw (set, same_refl) refl)
