-- ===== src/Api/Gate.antt =====
-- The middleware `authenticate` of backend/internal/api/server.go: which requests reach a handler.

use compose_manager.Base.{Outcome, done, error}
use compose_manager.Base.{◌≡◌, refl, sym, ◌∙◌}
use compose_manager.Base.{
  ◌↔◌, ◌⊎◌, inl, inr, Bool, true, false, not, ◌&&◌, ◌||◌, Option, none, some,
}
use compose_manager.Base.{List, [], ◌∷◌, if◌then◌else◌, Bool-cases}
use compose_manager.Base.{any}
use compose_manager.Base.{Text, codes, same, has_prefix}
use compose_manager.Base.{lookup}
use compose_manager.Auth.Store.{Host, AuthError, Session}
use compose_manager.Auth.Manager.{Manager, authenticate, valid_csrf, cookie_name}
use compose_manager.Api.Answers.{Request, Response, write_error, cleared}

abbrev pub api_prefix : Text
api_prefix = codes "/api/v1/"

abbrev pub public_paths : List Text
public_paths =
    codes "/api/v1/health"
    ∷ codes "/api/v1/auth/status"
    ∷ codes "/api/v1/auth/setup"
    ∷ codes "/api/v1/auth/login"
    ∷ []

unfoldable pub is_open : Text → Bool
is_open path = not (has_prefix path api_prefix) || any (same path) public_paths

unfoldable pub is_safe : Text → Bool
is_safe method =
    same method (codes "GET") || (same method (codes "HEAD") || same method (codes "OPTIONS"))

abbrev pub auth_required : Text → Response
auth_required text = write_error 401 (codes "AUTH_REQUIRED") text

abbrev pub csrf_failed : Response
csrf_failed = write_error 403 (codes "CSRF_FAILED") (codes "CSRF token is missing or invalid")

unfoldable pub check_session : Host → Request → Outcome AuthError Session → Option Response
check_session h r (error e) =
    some (record (auth_required (codes "session expired or invalid")) { cookie = cleared })
check_session h r (done s) =
    if not (is_safe r.method) && not (valid_csrf h s r.csrf_token) then some csrf_failed else none

unfoldable pub check_cookie : Host → Request → Manager → Option Text → Option Response
check_cookie h r m none = some (auth_required (codes "authentication required"))
check_cookie h r m (some token) = check_session h r (authenticate h token m)

-- The answer of the middleware itself, or nothing where the request goes on to the routes.
unfoldable pub gate : Host → Request → Manager → Option Response
gate h r m =
    let checked = check_cookie h r m (lookup (cookie_name m) r.cookies) in
    if is_open r.path then none else checked

-- What a request that goes on under a guarded path bears: the cookie of a session, and with a method
-- that is not safe the session's CSRF token.
pub record IsAdmitted (h : Host) (r : Request) (m : Manager) : Type 0 where
  pub token : Text
  pub session : Session
  pub borne : lookup (cookie_name m) r.cookies ≡ some token
  pub authentic : authenticate h token m ≡ done session
  pub token_valid : is_safe r.method ≡ false → valid_csrf h session r.csrf_token ≡ true

check_session-none :
    (h : Host) (r : Request) (o : Outcome AuthError Session)
    → check_session h r o ≡ none
    → (s : Session) × (o ≡ done s) × (is_safe r.method ≡ false → valid_csrf h s r.csrf_token ≡ true)
unfolding check_session
check_session-none h r (error e) q = cc
check_session-none h r (done s) q = (
  s,
  refl,
  λ unsafe. elim (Bool-cases (valid_csrf h s r.csrf_token)) [
    | inl e ↦ e
    | inr e ↦ (let q' : some csrf_failed ≡ none = rw (unsafe, e) at q in cc)
  ],
)

check_cookie-none :
    (h : Host) (r : Request) (m : Manager) (o : Option Text)
    → lookup (cookie_name m) r.cookies ≡ o
    → check_cookie h r m o ≡ none
    → IsAdmitted h r m
unfolding check_cookie
check_cookie-none h r m none e q = cc
check_cookie-none h r m (some token) e q =
    let (s, authentic, valid) = check_session-none h r _ q in
    record { token = token; session = s; borne = e; authentic = authentic; token_valid = valid }

check_cookie-admitted :
    (h : Host) (r : Request) (m : Manager)
    → IsAdmitted h r m
    → check_cookie h r m (lookup (cookie_name m) r.cookies) ≡ none
unfolding check_cookie check_session
check_cookie-admitted h r m a =
    rw (a.borne, a.authentic)
      (elim (Bool-cases (is_safe r.method)) [
        | inl e ↦ rw e refl
        | inr e ↦ rw (e, a.token_valid e) refl
      ])

-- A request goes on to the routes exactly if its path is open or it is admitted.
pub gate_iff :
    (h : Host) (r : Request) (m : Manager)
    → (gate h r m ≡ none) ↔ ((is_open r.path ≡ true) ⊎ IsAdmitted h r m)
unfolding gate
gate_iff h r m = elim (Bool-cases (is_open r.path)) [
  | inl e ↦ ((λ q. inl e), (λ a. rw e refl))
  | inr e ↦ (
    (λ q. inr (check_cookie-none h r m _ refl (rw e at q))),
    (λ a. rw e (
        check_cookie-admitted h r m
          (elim a [ inl f ↦ (let q : true ≡ false = sym f ∙ e in cc) | inr f ↦ f ]))),
  )
]
