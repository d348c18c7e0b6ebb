-- ===== src/Api/Accounts/Logins.antt =====
-- Logins over HTTP: what a failed one counts for, and when the next ones are turned away.

use compose_manager.Auth.Limiter.Live.{live-allow}
use compose_manager.Auth.Limiter.Window.{asked_failure, allow-kept}
use compose_manager.Base.{apart}
use compose_manager.Api.Accounts.{write_error}
use compose_manager.Base.{Outcome, done, error}
use compose_manager.Base.{if_cases, ℕ}
use compose_manager.Base.{suc, ◌+◌, ◌≤◌, ◌≡◌, refl, ap, ◌∙◌}
use compose_manager.Base.{inl, inr, true, false, not, ◌||◌, Option, none, some}
use compose_manager.Base.{List, [], ◌∷◌, arith, ltb, Bool-cases}
use compose_manager.Base.{length}
use compose_manager.Base.{Text}
use compose_manager.Base.{lookup}
use compose_manager.Base.{Unique}
use compose_manager.Auth.Limiter.{Limiter, allow, failure}
use compose_manager.Auth.Limiter.Window.{first_failure, limit-failure, allow-entry}
use compose_manager.Auth.Limiter.Live.{live, failure-Unique, allow-Unique}
use compose_manager.Auth.Store.{Host, AuthError}
use compose_manager.Auth.Manager.{Secrets, Manager, Login, login}
use compose_manager.Api.Answers.{Request, Response, decode_json, write_error}
use compose_manager.Api.Accounts.{
  Server, Web, LoginRequest, login_keys, same_origin, auth_login, login_decoded, login_asked,
  login_answer, too_many,
}

-- The key of the account that a login is for, if its body is read.
unfoldable pub key_of_decoded : Web → Request → Outcome Response LoginRequest → Option Text
key_of_decoded w r (error e) = none
key_of_decoded w r (done request) = some (login_keys w r request.username).1

unfoldable pub account_key : Web → Request → Option Text
account_key w r = key_of_decoded w r (decode_json (w.decode_login r.body))

answered :
    (now : ℕ) (w : Web) (keys : Text × Text) (s : Server) (o : Outcome AuthError Login × Manager)
    → (login_answer now w keys s o).0.status ≡ 401
    → (login_answer now w keys s o).1.account_limiter ≡ failure keys.1 now s.account_limiter
unfolding login_answer
answered now w (ip, account) s (error e, m) q = refl
answered now w (ip, account) s (done l, m) q = apart 200 401 refl q

asked :
    (h : Host) (k : Secrets) (w : Web) (r : Request) (request : LoginRequest) (s : Server)
    → (login_asked h k w r request s).0.status ≡ 401
    → (login_asked h k w r request s).1.account_limiter
      ≡ failure
          (login_keys w r request.username).1
          h.now
          (allow (login_keys w r request.username).1 h.now s.account_limiter).1
unfolding login_asked too_many write_error
asked h k w r request s =
    let keys = login_keys w r request.username in
    let ip = allow keys.0 h.now s.ip_limiter in
    let account = allow keys.1 h.now s.account_limiter in
    let asked : Server = record s { ip_limiter = ip.1; account_limiter = account.1 } in
    if_cases
      (λ (x : Response × Server).
        x.0.status ≡ 401 → x.1.account_limiter ≡ failure keys.1 h.now account.1)
      (not ip.0.0 || not account.0.0) _ _ (λ e q. apart 429 401 refl q)
      (λ e q. answered h.now w keys asked (login h k request.username request.password s.auth) q)

decoded :
    (h : Host) (k : Secrets) (w : Web) (r : Request) (s : Server) (key : Text)
    (o : Outcome Response LoginRequest)
    → key_of_decoded w r o ≡ some key
    → (login_decoded h k w r s o).0.status ≡ 401
    → (login_decoded h k w r s o).1.account_limiter
      ≡ failure key h.now (allow key h.now s.account_limiter).1
unfolding login_decoded key_of_decoded
decoded h k w r s key (error e) named q = cc
decoded h k w r s key (done request) named q =
    let same_key : (login_keys w r request.username).1 ≡ key = cc in
    rw⁻¹ same_key (asked h k w r request s q)

-- A login that is answered 401 counts as a failure of its account.
pub auth_login-failure :
    (h : Host) (k : Secrets) (w : Web) (r : Request) (s : Server) (key : Text)
    → account_key w r ≡ some key
    → (auth_login h k w r s).0.status ≡ 401
    → (auth_login h k w r s).1.account_limiter
      ≡ failure key h.now (allow key h.now s.account_limiter).1
unfolding auth_login account_key write_error
auth_login-failure h k w r s key named =
    if_cases
      (λ (x : Response × Server).
        x.0.status ≡ 401
        → x.1.account_limiter ≡ failure key h.now (allow key h.now s.account_limiter).1)
      (same_origin w r) (login_decoded h k w r s (decode_json (w.decode_login r.body))) _
      (λ e q. decoded h k w r s key _ named q) (λ e q. apart 403 401 refl q)

-- A login request, at the time and with the randomness that it meets.
pub record Try : Type 0 where
  pub host : Host
  pub secrets : Secrets
  pub request : Request

pub after_tries : Web → List Try → Server → Server
after_tries w [] s = s
after_tries w (t ∷ ts) s = after_tries w ts (auth_login t.host t.secrets w t.request s).1

-- Each request, in turn, is for the account, no later than a time, and answered 401.
unfoldable pub AllRefused : Web → Text → ℕ → List Try → Server → Type 0
AllRefused w key last [] s = Unit
AllRefused w key last (t ∷ ts) s =
    (account_key w t.request ≡ some key)
    × ((t.host.now ≤ last)
        × (((auth_login t.host t.secrets w t.request s).0.status ≡ 401)
            × AllRefused w key last ts (auth_login t.host t.secrets w t.request s).1))

-- What the limiter of accounts holds of one.
record Holds (l : Limiter) (key : Text) (count last limit : ℕ) : Type 0 where
  unique : Unique l.attempts
  entry : lookup key l.attempts ≡ some (record { count = count; reset = last })
  limited : l.limit ≡ limit

tried :
    (w : Web) (key : Text) (last count limit : ℕ) (ts : List Try) (s : Server)
    → Holds s.account_limiter key count last limit
    → AllRefused w key last ts s
    → Holds (after_tries w ts s).account_limiter key (length ts + count) last limit
unfolding after_tries AllRefused
tried w key last count limit [] s held refused =
    let none_more : 0 + count ≡ count = omega arith in rw none_more held
tried w key last count limit (t ∷ ts) s held (named, (early, (q, later))) =
    let failed = auth_login-failure t.host t.secrets w t.request s key named q in
    let next : Holds (auth_login t.host t.secrets w t.request s).1.account_limiter key (1 + count)
        last limit =
      rw failed (record {
        unique =
            failure-Unique key t.host.now _
              (allow-Unique key t.host.now s.account_limiter held.unique);
        entry =
            asked_failure key t.host.now s.account_limiter (record { count = count; reset = last })
              held.unique held.entry early;
        limited =
            limit-failure key t.host.now (allow key t.host.now s.account_limiter).1
            ∙ ((allow-kept key t.host.now s.account_limiter).0 ∙ held.limited);
      }) in
    let moved : suc (length ts) + count ≡ length ts + (1 + count) = omega arith in
    rw moved (
      tried w key last (1 + count) limit ts (auth_login t.host t.secrets w t.request s).1 next
        later)

-- A full entry is turned away.
full_at :
    (key : Text) (now : ℕ) (l : Limiter) (n : ℕ) {last limit : ℕ}
    → lookup key l.attempts ≡ some (record { count = n + 1; reset = last })
    → now ≤ last
    → l.limit ≡ limit
    → limit ≤ suc n
    → (allow key now l).0.0 ≡ false
full_at key now l n held soon limited enough =
    let no_room : ltb (n + 1) l.limit ≡ false = ground (arith, limited, enough) in
    rw (allow-entry key now l _ held soon, no_room) refl

refused :
    (h : Host) (k : Secrets) (w : Web) (r : Request) (request : LoginRequest) (s : Server)
    → (allow (login_keys w r request.username).1 h.now s.account_limiter).0.0 ≡ false
    → ((login_asked h k w r request s).0.status ≡ 429)
      × ((login_asked h k w r request s).1.auth ≡ s.auth)
unfolding login_asked too_many write_error
refused h k w r request s full =
    rw full (elim (Bool-cases (allow (login_keys w r request.username).0 h.now s.ip_limiter).0.0) [
      | inl e ↦ rw e (refl, refl)
      | inr e ↦ rw e (refl, refl)
    ])

refused_decoded :
    (h : Host) (k : Secrets) (w : Web) (r : Request) (s : Server) (key : Text)
    (o : Outcome Response LoginRequest)
    → key_of_decoded w r o ≡ some key
    → (allow key h.now s.account_limiter).0.0 ≡ false
    → ((login_decoded h k w r s o).0.status ≡ 429) × ((login_decoded h k w r s o).1.auth ≡ s.auth)
unfolding login_decoded key_of_decoded
refused_decoded h k w r s key (error e) named full = cc
refused_decoded h k w r s key (done request) named full =
    let same_key : (login_keys w r request.username).1 ≡ key = cc in
    refused h k w r request s (rw same_key full)

refused_login :
    (h : Host) (k : Secrets) (w : Web) (r : Request) (s : Server) (key : Text)
    → account_key w r ≡ some key
    → same_origin w r ≡ true
    → (allow key h.now s.account_limiter).0.0 ≡ false
    → ((auth_login h k w r s).0.status ≡ 429) × ((auth_login h k w r s).1.auth ≡ s.auth)
unfolding auth_login account_key
refused_login h k w r s key named own full =
    rw own (refused_decoded h k w r s key (decode_json (w.decode_login r.body)) named full)

-- After as many refused logins of an account from one address as the limit, the first of which found no
-- window open, a login of the account from the same address, from the server's own origin and even with
-- the right password, is answered 429 until the first one's window ends, and the sessions stay as they
-- are. The key is the address with the name.
pub locked_out :
    (w : Web) (key : Text) (t : Try) (ts : List Try) (s : Server) (h : Host) (k : Secrets)
    (r : Request)
    → Unique s.account_limiter.attempts
    → live s.account_limiter key t.host.now ≡ none
    → AllRefused w key (t.host.now + s.account_limiter.window) (t ∷ ts) s
    → s.account_limiter.limit ≤ length (t ∷ ts)
    → account_key w r ≡ some key
    → same_origin w r ≡ true
    → h.now ≤ t.host.now + s.account_limiter.window
    → ((auth_login h k w r (after_tries w (t ∷ ts) s)).0.status ≡ 429)
      × ((auth_login h k w r (after_tries w (t ∷ ts) s)).1.auth ≡ (after_tries w (t ∷ ts) s).auth)
unfolding after_tries AllRefused
locked_out w key t ts s h k r unique closed (named, (early, (q, later))) enough mine own soon =
    let l = s.account_limiter in
    let asked_l = (allow key t.host.now l).1 in
    let (same_limit, same_window) = allow-kept key t.host.now l in
    let s1 = (auth_login t.host t.secrets w t.request s).1 in
    let failed = auth_login-failure t.host t.secrets w t.request s key named q in
    let unique_asked = allow-Unique key t.host.now l unique in
    let first : Holds s1.account_limiter key 1 (t.host.now + l.window) l.limit = rw failed (record {
      unique = failure-Unique key t.host.now asked_l unique_asked;
      entry =
          first_failure key t.host.now asked_l (rw live-allow closed) unique_asked
          ∙ ap (λ window. some (record { count = 1; reset = t.host.now + window })) same_window;
      limited = limit-failure key t.host.now asked_l ∙ same_limit;
    }) in
    let held = tried w key (t.host.now + l.window) 1 l.limit ts s1 first later in
    refused_login h k w r (after_tries w ts s1) key mine own
      (full_at key h.now _ (length ts) held.entry soon (held.limited) enough)
