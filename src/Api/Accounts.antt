-- ===== src/Api/Accounts.antt =====
-- The requests on accounts of backend/internal/api/server.go: status, setup, login and logout.
pub mod Logins
pub mod Trips
use compose_manager.Base.{
  ℤ, pos, negsuc, is_digit, digits, atoi, Outcome, done, error, ◌>>=◌, ◌>>◌, require, or_error,
  bind-done,
}
use compose_manager.Base.{
  require-done, or_error-done, done_inj, if_cases, text_lt, put_sorted, sort_by, All-sort_by, Never,
  Exists, Exists-mono, Exists-of_any, ℕ, zero,
}
use compose_manager.Base.{suc, ◌+◌, ◌-◌, ◌*◌, ◌/◌, ◌%◌, ◌^◌, ◌≤◌, ◌<◌, ◌≡◌, refl, sym, ap, ◌∙◌}
use compose_manager.Base.{
  ◌≢◌, ◌↔◌, ◌⊎◌, inl, inr, Bool, true, false, not, ◌&&◌, ◌||◌, Option, none, some,
}
use compose_manager.Base.{
  List, [], ◌∷◌, ◌++◌, map, arith, ltb, leb, ◌==◌, if◌then◌else◌, ==_iff, Bool-cases, Option-cases,
  and_true,
}
use compose_manager.Base.{
  and_intro, or_false, length, take, drop, all, any, filter, length-append, length-take,
  length-drop, take-append-drop, All, All-append,
}
use compose_manager.Base.{
  All-mono, All-filter, All-filter_test, All-of_all, length-filter, All-of_any, Text, codes, same,
  same_iff, same_refl, same_sym, is_empty, has_prefix,
}
use compose_manager.Base.{
  contains, has_byte, split, join, is_space, trim_left, trim_right, trim_space, lower_byte,
  to_lower, last_piece, but_last, Map, lookup,
}
use compose_manager.Base.{
  insert, remove, purge, lookup-insert, lookup-remove, Unique, Unique-insert, Unique-remove, unless,
  lookup-purge, Unique-purge,
}
use compose_manager.Auth.Limiter.{Limiter, allow, failure, success, new_limiter}
use compose_manager.Auth.Store.{
  Host, AuthError, Session, invalid_credentials, invalid_setup_token, already_initialized,
}
use compose_manager.Auth.Manager.{
  Secrets, Manager, Login, setup, login, logout, authenticate, setup_required, cookie_name,
}
use compose_manager.Api.Answers.{
  Request, Response, AuthStatus, Body, SetCookie, answer, write_error, decode_json, nothing, auth,
  session, cleared, untouched,
}

pub record Server : Type 0 where
  pub auth : Manager
  pub ip_limiter : Limiter
  pub account_limiter : Limiter

pub record SetupRequest : Type 0 where
  pub setup_token : Text
  pub username : Text
  pub password : Text

pub record LoginRequest : Type 0 where
  pub username : Text
  pub password : Text

-- What the requests are read with: the decoder of JSON, `net.SplitHostPort`, `url.Parse` as the host of
-- the URL, `strings.EqualFold`, and the texts of errors.
pub record Web : Type 0 where
  pub decode_setup : Text → Outcome Text (SetupRequest × Bool)
  pub decode_login : Text → Outcome Text (LoginRequest × Bool)
  pub split_host : Text → Option Text
  pub url_host : Text → Option Text
  pub equal_fold : Text → Text → Bool
  pub auth_text : AuthError → Text

abbrev host_allowed : Web → Request → Option Text → Bool
host_allowed w r none = false
host_allowed w r (some host) = not (is_empty host) && w.equal_fold host r.host

-- `sameOrigin`.
unfoldable pub same_origin : Web → Request → Bool
same_origin w r =
    if is_empty (trim_space r.origin)
    then true
    else host_allowed w r (w.url_host (trim_space r.origin))

abbrev or_else : Text → Option Text → Text
or_else text none = text
or_else text (some host) = host

-- `loginKeys`: the address, and the address with the name after a zero byte.
unfoldable pub login_keys : Web → Request → Text → Text × Text
login_keys w r username =
    let host = or_else r.remote_addr (w.split_host r.remote_addr) in
    (host, host ++ (0 ∷ to_lower (trim_space username)))

abbrev origin_rejected : Response
origin_rejected = write_error 403 (codes "ORIGIN_REJECTED") (codes "request origin is not allowed")

abbrev pub seconds : ℕ → ℕ
seconds nanoseconds = nanoseconds / 1000000000

-- `setSessionCookie` beside the answer of a setup or a login.
abbrev pub logged_in : ℕ → Manager → Login → Response
logged_in status m l = record {
  status = status;
  body = auth (record {
    setup_required = false;
    authenticated = true;
    username = l.username;
    csrf_token = l.csrf_token;
  });
  cookie = session l.session_token (seconds m.ttl) l.expires_at;
  retry_after = none;
}

abbrev status_of_session : Outcome AuthError Session → AuthStatus
status_of_session (error e) = record {
  setup_required = false;
  authenticated = false;
  username = [];
  csrf_token = [];
}
status_of_session (done s) = record {
  setup_required = false;
  authenticated = true;
  username = s.username;
  csrf_token = s.csrf_token;
}

abbrev status_of_cookie : Host → Manager → Option Text → AuthStatus
status_of_cookie h m none = status_of_session (error invalid_credentials)
status_of_cookie h m (some token) = status_of_session (authenticate h token m)

abbrev status_answer : Host → Web → Manager → Request → Outcome AuthError Bool → Response
status_answer h w m r (error e) = write_error 500 (codes "AUTH_STATUS_FAILED") (w.auth_text e)
status_answer h w m r (done true) =
    answer 200 (
      auth
        (record { setup_required = true; authenticated = false; username = []; csrf_token = [] }))
status_answer h w m r (done false) =
    answer 200 (auth (status_of_cookie h m (lookup (cookie_name m) r.cookies)))

-- `authStatus`.
pub auth_status : Host → Web → Request → Server → Response
auth_status h w r s = status_answer h w s.auth r (setup_required h s.auth)

pub setup_failed : Web → AuthError → Response
setup_failed w invalid_setup_token =
    write_error 403 (codes "INVALID_SETUP_TOKEN") (w.auth_text invalid_setup_token)
setup_failed w already_initialized =
    write_error 409 (codes "ALREADY_INITIALIZED") (w.auth_text already_initialized)
setup_failed w e = write_error 400 (codes "SETUP_FAILED") (w.auth_text e)

pub setup_answer : Web → Server → Outcome AuthError Login × Manager → Response × Server
setup_answer w s (error e, m) = (setup_failed w e, record s { auth = m })
setup_answer w s (done l, m) = (logged_in 201 m l, record s { auth = m })

pub setup_decoded :
    Host → Secrets → Web → Server → Outcome Response SetupRequest → Response × Server
setup_decoded h k w s (error response) = (response, s)
setup_decoded h k w s (done request) =
    setup_answer w s (setup h k request.setup_token request.username request.password s.auth)

-- `authSetup`.
pub auth_setup : Host → Secrets → Web → Request → Server → Response × Server
auth_setup h k w r s =
    let next = setup_decoded h k w s (decode_json (w.decode_setup r.body)) in
    if same_origin w r then next else (origin_rejected, s)

unfoldable pub login_failed : Web → AuthError → Response
login_failed w invalid_credentials =
    write_error 401 (codes "INVALID_CREDENTIALS") (w.auth_text invalid_credentials)
login_failed w e = write_error 500 (codes "LOGIN_FAILED") (w.auth_text e)

unfoldable pub login_answer :
    ℕ → Web → Text × Text → Server → Outcome AuthError Login × Manager → Response × Server
login_answer now w (ip_key, account_key) s (error e, m) = (
  login_failed w e,
  record {
    auth = m;
    ip_limiter = failure ip_key now s.ip_limiter;
    account_limiter = failure account_key now s.account_limiter;
  },
)
login_answer now w (ip_key, account_key) s (done l, m) = (
  logged_in 200 m l,
  record {
    auth = m;
    ip_limiter = success ip_key s.ip_limiter;
    account_limiter = success account_key s.account_limiter;
  },
)

abbrev larger : ℕ → ℕ → ℕ
larger a b = if leb a b then b else a

pub too_many : ℕ → Response
too_many retry =
    record (write_error 429 (codes "TOO_MANY_ATTEMPTS")
      (codes "too many login attempts; try again later")) {
        retry_after = some (larger 1 (seconds retry));
      }

-- Both limiters are asked, which drops the entries of the keys whose windows have ended.
unfoldable pub login_asked :
    Host → Secrets → Web → Request → LoginRequest → Server → Response × Server
login_asked h k w r request s =
    let keys = login_keys w r request.username in
    let ip = allow keys.0 h.now s.ip_limiter in
    let account = allow keys.1 h.now s.account_limiter in
    let asked = record s { ip_limiter = ip.1; account_limiter = account.1 } in
    let next =
      login_answer h.now w keys asked (login h k request.username request.password s.auth) in
    if not ip.0.0 || not account.0.0 then (too_many (larger ip.0.1 account.0.1), asked) else next

unfoldable pub login_decoded :
    Host → Secrets → Web → Request → Server → Outcome Response LoginRequest → Response × Server
login_decoded h k w r s (error response) = (response, s)
login_decoded h k w r s (done request) = login_asked h k w r request s

-- `authLogin`.
unfoldable pub auth_login : Host → Secrets → Web → Request → Server → Response × Server
auth_login h k w r s =
    let next = login_decoded h k w r s (decode_json (w.decode_login r.body)) in
    if same_origin w r then next else (origin_rejected, s)

abbrev logged_out : Response
logged_out = record { status = 204; body = nothing; cookie = cleared; retry_after = none }

abbrev logout_cookie : Host → Manager → Option Text → Manager
logout_cookie h m none = m
logout_cookie h m (some token) = (logout h token m).1

-- `authLogout`: the error of a logout is dropped.
unfoldable pub auth_logout : Host → Request → Server → Response × Server
auth_logout h r s =
    (logged_out, record s { auth = logout_cookie h s.auth (lookup (cookie_name s.auth) r.cookies) })

-- The limiters of `New`: 30 failures of an address and 8 of an account in 15 minutes.
unfoldable pub new_server : Manager → Server
new_server m = record {
  auth = m;
  ip_limiter = new_limiter 30 900000000000;
  account_limiter = new_limiter 8 900000000000;
}
