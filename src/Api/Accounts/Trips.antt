-- ===== src/Api/Accounts/Trips.antt =====
-- What a login's cookie opens and a logout closes, of backend/internal/api/server.go.

use compose_manager.Api.Answers.{auth, session}
use compose_manager.Api.Accounts.{seconds}
use compose_manager.Base.{ℕ}
use compose_manager.Base.{apart, Outcome, done, error}
use compose_manager.Base.{if_cases, text_lt}
use compose_manager.Base.{◌≡◌, refl, sym}
use compose_manager.Base.{◌∙◌, ◌≢◌, inl, inr, Bool, true, false, not, ◌||◌, Option, none}
use compose_manager.Base.{some}
use compose_manager.Base.{Text, is_empty}
use compose_manager.Base.{trim_space}
use compose_manager.Base.{lookup}
use compose_manager.Auth.Store.{Host, AuthError, invalid_credentials, find_session}
use compose_manager.Auth.Store.Tables.{IsSound}
use compose_manager.Auth.Manager.{Secrets, Manager, Login, login, logout, authenticate, cookie_name}
use compose_manager.Auth.Manager.Sessions.{valid_csrf_same, login-authenticate, logout-authenticate}
use compose_manager.Api.Answers.{Request, Response, decode_json, write_error}
use compose_manager.Auth.Limiter.{allow}
use compose_manager.Api.Accounts.{
  login_keys, Server, Web, LoginRequest, same_origin, auth_login, login_decoded, login_asked,
  login_answer, logged_in, too_many, login_failed, auth_logout,
}
use compose_manager.Api.Gate.{gate, gate_iff, is_open}

-- A login that is answered 200: what it was of, and what it left.
pub record IsLoggedIn (h : Host) (k : Secrets) (w : Web) (r : Request) (s : Server)
    (response : Response) (s' : Server) : Type 0 where
  pub request : LoginRequest
  pub result : Login
  pub done_login : (login h k request.username request.password s.auth).0 ≡ done result
  pub kept : s'.auth ≡ (login h k request.username request.password s.auth).1
  pub told : response ≡ logged_in 200 s'.auth result

login_answer-done :
    (h : Host) (k : Secrets) (w : Web) (r : Request) (request : LoginRequest) (keys : Text × Text)
    (s asked : Server) (o : Outcome AuthError Login × Manager)
    → login h k request.username request.password s.auth ≡ o
    → (login_answer h.now w keys asked o).0.status ≡ 200
    → IsLoggedIn h k w r s
        (login_answer h.now w keys asked o).0
        (login_answer h.now w keys asked o).1
unfolding login_answer login_failed write_error
login_answer-done h k w r request (ip, account) s asked (error invalid_credentials, m) made q =
    apart 401 200 refl q
login_answer-done h k w r request (ip, account) s asked (error e, m) made q = apart 500 200 refl q
login_answer-done h k w r request (ip, account) s asked (done l, m) made q = record {
  request = request;
  result = l;
  done_login = rw made refl;
  kept = rw made refl;
  told = refl;
}

login_asked-done :
    (h : Host) (k : Secrets) (w : Web) (r : Request) (request : LoginRequest) (s : Server)
    → (login_asked h k w r request s).0.status ≡ 200
    → IsLoggedIn h k w r s (login_asked h k w r request s).0 (login_asked h k w r request s).1
unfolding login_asked too_many write_error
login_asked-done h k w r request s =
    let keys = login_keys w r request.username in
    let ip = allow keys.0 h.now s.ip_limiter in
    let account = allow keys.1 h.now s.account_limiter in
    let asked : Server = record s { ip_limiter = ip.1; account_limiter = account.1 } in
    if_cases (λ (x : Response × Server). x.0.status ≡ 200 → IsLoggedIn h k w r s x.0 x.1)
      (not ip.0.0 || not account.0.0) _ _ (λ e q. apart 429 200 refl q)
      (λ e q.
        login_answer-done h k w r request keys s asked
          (login h k request.username request.password s.auth) refl q)

login_decoded-done :
    (h : Host) (k : Secrets) (w : Web) (r : Request) (s : Server)
    (o : Outcome Text (LoginRequest × Bool))
    → (login_decoded h k w r s (decode_json o)).0.status ≡ 200
    → IsLoggedIn h k w r s
        (login_decoded h k w r s (decode_json o)).0
        (login_decoded h k w r s (decode_json o)).1
unfolding login_decoded decode_json write_error
login_decoded-done h k w r s (error text) q = apart 400 200 refl q
login_decoded-done h k w r s (done (request, false)) q = apart 400 200 refl q
login_decoded-done h k w r s (done (request, true)) q = login_asked-done h k w r request s q

pub auth_login-done :
    (h : Host) (k : Secrets) (w : Web) (r : Request) (s : Server)
    → (auth_login h k w r s).0.status ≡ 200
    → IsLoggedIn h k w r s (auth_login h k w r s).0 (auth_login h k w r s).1
unfolding auth_login write_error
auth_login-done h k w r s =
    if_cases (λ (x : Response × Server). x.0.status ≡ 200 → IsLoggedIn h k w r s x.0 x.1)
      (same_origin w r) (login_decoded h k w r s (decode_json (w.decode_login r.body))) _
      (λ e q. login_decoded-done h k w r s (w.decode_login r.body) q) (λ e q. apart 403 200 refl q)

-- From sound tables, a login that is answered 200 sets a cookie with a session token, for some age, and tells a name and a
-- CSRF token, and nothing else. A later request that bears that session token in the cookie, and the CSRF
-- token, is let through to any route, if neither is blank, the digests of both times agree on the token,
-- the session is current and its row can be read.
pub login_trip :
    (h later : Host) (k : Secrets) (w : Web) (r next : Request) (s : Server)
    → IsSound s.auth.database
    → (auth_login h k w r s).0.status ≡ 200
    → (token : Text) × (csrf : Text) × (name : Text) × (age : ℕ) × (expires : ℕ) × (((auth_login h k
            w r s).0
          ≡ record {
            status = 200;
            body = auth (record {
              setup_required = false;
              authenticated = true;
              username = name;
              csrf_token = csrf;
            });
            cookie = session token age expires;
            retry_after = none;
          })
        × (lookup (cookie_name (auth_login h k w r s).1.auth) next.cookies ≡ some token
            → next.csrf_token ≡ csrf
            → is_empty (trim_space token) ≡ false
            → is_empty csrf ≡ false
            → later.sha256 token ≡ h.sha256 token
            → text_lt (later.stamp later.now) (h.stamp expires) ≡ true
            → later.breaks find_session ≡ false
            → gate later next (auth_login h k w r s).1.auth ≡ none))
login_trip h later k w r next s sound q =
    let made = auth_login-done h k w r s q in
    let l = made.result in
    (
      l.session_token,
      l.csrf_token,
      l.username,
      seconds (auth_login h k w r s).1.auth.ttl,
      l.expires_at,
      (
        made.told,
        λ borne csrf full csrf_full digest current works.
            let (row, authentic, named, same_csrf) =
              login-authenticate h later k made.request.username made.request.password s.auth l
                sound made.done_login full digest current works in
            (gate_iff later next _).1 (
              inr (record {
                token = l.session_token;
                session = row;
                borne = borne;
                authentic = rw made.kept authentic;
                token_valid = λ unsafe.
                    valid_csrf_same later row l.csrf_token next.csrf_token same_csrf csrf csrf_full;
              })),
      ),
    )

same_cookie : (o : Option Text) (a b : Text) → o ≡ some a → o ≡ some b → a ≡ b
same_cookie o a b e f = cc

-- After a logout whose deletion works, no request with its cookie passes a guarded path.
pub logout_trip :
    (h later : Host) (r next : Request) (s : Server) (token : Text)
    → lookup (cookie_name s.auth) r.cookies ≡ some token
    → (logout h token s.auth).0 ≡ done tt
    → later.sha256 token ≡ h.sha256 token
    → lookup (cookie_name (auth_logout h r s).1.auth) next.cookies ≡ some token
    → is_open next.path ≡ false
    → gate later next (auth_logout h r s).1.auth ≢ none
unfolding auth_logout
logout_trip h later r next s token borne out digest again closed passed =
    let (gone, others) = logout-authenticate h later token token s.auth out digest in
    elim ((gate_iff later next _).0 passed) [
      | inl e ↦ (let q : true ≡ false = sym e ∙ closed in cc)
      | inr a ↦
          (let same_token : a.token ≡ token = same_cookie _ _ _ a.borne again in
            let let_in : authenticate later token (logout h token s.auth).1 ≡ done a.session =
              rw (borne, same_token) at a.authentic in
            elim (gone a.session let_in) [ ])
    ]
