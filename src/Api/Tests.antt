-- ===== src/Api/Tests.antt =====
-- Requests of backend/internal/api at a concrete server, service and multiplexer.

use compose_manager.Api.Answers.{session}
use compose_manager.Api.Answers.{auth}
use compose_manager.Api.Routes.{Values}
use compose_manager.Api.Routes.Table.{Writer, writer, Route, routes}
use compose_manager.Base.{apart, Outcome, done, error}
use compose_manager.Base.{text_lt, Exists, ℕ}
use compose_manager.Base.{suc, ◌≡◌, refl, sym}
use compose_manager.Base.{◌∙◌, ◌≢◌, ◌↔◌, ◌⊎◌, inl, inr, Bool, true, false, ◌&&◌, Option, none}
use compose_manager.Base.{some, List, [], ◌∷◌, ◌++◌, arith, if◌then◌else◌, Bool-cases}
use compose_manager.Base.{and_true, length, filter}
use compose_manager.Base.{Text, codes, same, is_empty}
use compose_manager.Base.{has_prefix, trim_space, to_lower, Map}
use compose_manager.Base.{lookup, insert, remove}
use compose_manager.Auth.Limiter.Live.{live}
use compose_manager.Auth.Store.{Host, Database, AuthError, Session, find_session}
use compose_manager.Auth.Store.Tables.{IsSound, Distinct}
use compose_manager.Auth.Manager.{Secrets, Manager, Login, cookie_name, logout, valid_csrf}
use compose_manager.Api.Answers.{Request, Response, answer, nothing}
use compose_manager.Api.Accounts.{
  Server, Web, LoginRequest, SetupRequest, auth_login, auth_logout, logged_in, new_server,
  same_origin,
}
use compose_manager.Api.Accounts.Logins.{Try, AllRefused, after_tries, account_key, locked_out}
use compose_manager.Api.Accounts.Trips.{login_trip, logout_trip}
use compose_manager.Api.Gate.{gate, gate_iff, IsAdmitted, is_open}
use compose_manager.Api.Service.{Decoders, Reads, Writes, ServiceError}
use compose_manager.Api.Routes.Table.{Route, routes}
use compose_manager.Api.Routes.{Mux, Values, State, serve}
use compose_manager.Api.Routes.Guarded.{IsMux, literal, method_fits, serve-guarded}

abbrev host_at : ℕ → Host
host_at now = record { now = now; stamp = λ n. n ∷ []; sha256 = λ t. t; breaks = λ c. false }

abbrev secrets : Secrets
secrets = record {
  count_runes = length;
  hash_password = λ p. done p;
  verify_password = λ encoded p. some (same encoded p);
  session_token = some (codes "t1");
  csrf_token = some (codes "c1");
}

abbrev one_account : Database
one_account = record {
  users = record { id = 1; username = codes "admin"; password_hash = codes "secret" } ∷ [];
  next_id = 2;
  sessions = [];
}

abbrev manager : Manager
manager = record {
  database = one_account;
  ttl = 50;
  secure_cookie = false;
  dummy_hash = [];
  setup_token = [];
}

-- The bodies are the passwords; the account is always the same.
abbrev web : Web
web = record {
  decode_setup = λ body. error (codes "none");
  decode_login = λ body. done (record { username = codes "admin"; password = body }, true);
  split_host = λ a. some a;
  url_host = λ u. some u;
  equal_fold = same;
  auth_text = λ e. codes "failed";
}

abbrev request_with : Text → Text → Text → Map Text → Text → Request
request_with method path body cookies csrf = record {
  method = method;
  path = path;
  body = body;
  cookies = cookies;
  origin = [];
  csrf_token = csrf;
  host = codes "h";
  remote_addr = codes "a";
  query = [];
}

abbrev login_with : Text → Request
login_with password = request_with (codes "POST") (codes "/api/v1/auth/login") password [] []

-- A server that lets an account fail twice.
abbrev strict : Server
strict = record {
  auth = manager;
  ip_limiter = record { attempts = []; limit = 30; window = 100 };
  account_limiter = record { attempts = []; limit = 2; window = 100 };
}

abbrev wrong_at : ℕ → Try
wrong_at now = record {
  host = host_at now;
  secrets = secrets;
  request = login_with (codes "guess");
}

abbrev admin_key : Text
admin_key = codes "a" ++ (0 ∷ codes "admin")

abbrev after_two : Server
after_two = after_tries web (wrong_at 10 ∷ wrong_at 20 ∷ []) strict

locked_out_example :
    ((auth_login (host_at 30) secrets web (login_with (codes "secret")) after_two).0.status ≡ 429)
    × ((auth_login (host_at 30) secrets web (login_with (codes "secret")) after_two).1.auth
        ≡ after_two.auth)
unfolding AllRefused account_key auth_login compose_manager.Api.Accounts.Logins.key_of_decoded
    compose_manager.Api.Accounts.login_answer compose_manager.Api.Accounts.login_asked
    compose_manager.Api.Accounts.login_decoded compose_manager.Api.Accounts.login_failed
    compose_manager.Api.Accounts.login_keys compose_manager.Api.Answers.decode_json
    compose_manager.Api.Answers.write_error compose_manager.Auth.Limiter.allow
    compose_manager.Auth.Limiter.failure compose_manager.Auth.Manager.login
    compose_manager.Auth.Manager.login_found compose_manager.Auth.Manager.login_verified
    compose_manager.Auth.Store.find_username compose_manager.Auth.Store.user_by_username insert live
    lookup remove same same_origin to_lower trim_space
locked_out_example =
    locked_out web admin_key (wrong_at 10) (wrong_at 20 ∷ []) strict (host_at 30) secrets
      (login_with (codes "secret")) tt refl
      (refl, (omega arith, (refl, (refl, (omega arith, (refl, tt)))))) (omega arith) refl refl
      (omega arith)

abbrev server : Server
server = new_server manager

abbrev logged : Server
logged = (auth_login (host_at 10) secrets web (login_with (codes "secret")) server).1

abbrev session_cookies : Map Text
session_cookies = (codes "cm_session", codes "t1") ∷ []

abbrev put_settings_request : Request
put_settings_request =
    request_with (codes "PUT") (codes "/api/v1/settings") [] session_cookies (codes "c1")

one_account-IsSound : IsSound one_account
unfolding Distinct
one_account-IsSound = record { one = omega arith; distinct = tt; owned = tt }

login_trip_example :
    (token : Text) × (csrf : Text) × (name : Text) × (age : ℕ) × (expires : ℕ) × (((auth_login
          (host_at 10)
          secrets
          web
          (login_with (codes "secret"))
          server).0
        ≡ record {
          status = 200;
          body = auth (record {
            setup_required = false;
            authenticated = true;
            username = name;
            csrf_token = csrf;
          });
          cookie = session token age expires;
          retry_after = none;
        })
      × (lookup (cookie_name logged.auth) put_settings_request.cookies ≡ some token
          → put_settings_request.csrf_token ≡ csrf
          → is_empty (trim_space token) ≡ false
          → is_empty csrf ≡ false
          → (host_at 20).sha256 token ≡ (host_at 10).sha256 token
          → text_lt ((host_at 20).stamp (host_at 20).now) ((host_at 10).stamp expires) ≡ true
          → (host_at 20).breaks find_session ≡ false
          → gate (host_at 20) put_settings_request logged.auth ≡ none))
unfolding auth_login compose_manager.Api.Accounts.login_answer
    compose_manager.Api.Accounts.login_asked compose_manager.Api.Accounts.login_decoded
    compose_manager.Api.Answers.decode_json compose_manager.Auth.Limiter.allow
    compose_manager.Auth.Limiter.new_limiter compose_manager.Auth.Manager.login
    compose_manager.Auth.Manager.login_found compose_manager.Auth.Manager.login_verified
    compose_manager.Auth.Manager.new_session compose_manager.Auth.Store.create_session
    compose_manager.Auth.Store.find_username compose_manager.Auth.Store.user_by_username filter
    lookup new_server same same_origin to_lower trim_space
login_trip_example =
    login_trip (host_at 10) (host_at 20) secrets web (login_with (codes "secret"))
      put_settings_request server one_account-IsSound refl

logout_trip_example :
    gate
      (host_at 30)
      put_settings_request
      (auth_logout (host_at 20) put_settings_request logged).1.auth
    ≢ none
unfolding auth_login auth_logout compose_manager.Api.Accounts.login_answer
    compose_manager.Api.Accounts.login_asked compose_manager.Api.Accounts.login_decoded
    compose_manager.Api.Answers.decode_json compose_manager.Auth.Limiter.allow
    compose_manager.Auth.Limiter.new_limiter compose_manager.Auth.Manager.login
    compose_manager.Auth.Manager.login_found compose_manager.Auth.Manager.login_verified
    compose_manager.Auth.Manager.new_session compose_manager.Auth.Store.create_session
    compose_manager.Auth.Store.delete_session_row compose_manager.Auth.Store.find_username
    compose_manager.Auth.Store.user_by_username filter has_prefix is_open logout lookup new_server
    same same_origin to_lower trim_space
logout_trip_example =
    logout_trip (host_at 20) (host_at 30) put_settings_request put_settings_request logged
      (codes "t1") refl refl refl refl refl

gate_iff_example : (gate (host_at 20) put_settings_request logged.auth ≡ none) ↔ (
    (is_open put_settings_request.path ≡ true)
    ⊎ IsAdmitted (host_at 20) put_settings_request logged.auth)
gate_iff_example = gate_iff (host_at 20) put_settings_request logged.auth

-- The first route whose method and literal part fit.
abbrev fits_route : Text → Text → Route → Bool
fits_route method path route =
    method_fits route.method method && has_prefix path (literal route.pattern)

first_route : List Route → Text → Text → Option (Route × Values)
first_route [] method path = none
first_route (x ∷ rs) method path =
    let rest = first_route rs method path in
    if fits_route method path x then some (x, record { key = []; id = [] }) else rest

first_route-lem :
    (rs : List Route) (method path : Text) (route : Route) (values : Values)
    → first_route rs method path ≡ some (route, values)
    → Exists (λ x. x ≡ route) rs × (fits_route method path route ≡ true)
unfolding first_route
first_route-lem [] method path route values q = cc
first_route-lem (x ∷ rs) method path route values q = elim (Bool-cases (fits_route method path x)) [
  | inl e ↦
      (let found : ◌≡◌ {A = Option (Route × Values)} (some (x, record { key = []; id = [] }))
            (some (route, values)) =
          rw e at q in
        let here : x ≡ route = cc in (inl here, rw⁻¹ here e))
  | inr e ↦
      (let (later, fits) = first_route-lem rs method path route values (rw e at q) in
        (inr later, fits))
]

abbrev mux : Mux
mux = record {
  choose = first_route;
  unmatched = λ r. answer 404 nothing;
  static = λ r. answer 200 nothing;
  health_json = codes "ok";
}

mux-IsMux : IsMux mux
mux-IsMux = record {
  listed = λ rs method path route values q. (first_route-lem rs method path route values q).0;
  fits = λ rs method path route values q.
      (and_true (method_fits route.method method) _
        (first_route-lem rs method path route values q).1).0;
  prefixed = λ rs method path route values q.
      (and_true (method_fits route.method method) _
        (first_route-lem rs method path route values q).1).1;
}

-- A service whose state counts the calls that may change it.
abbrev read_nothing : ℕ → Outcome ServiceError Text
read_nothing n = done []

abbrev counted {ℓ} : {A : Type ℓ} → A → ℕ → Outcome ServiceError A × ℕ
counted a n = (done a, suc n)

abbrev decoders : Decoders
decoders = record {
  create_project = λ body. error [];
  project_action = λ body. error [];
  content = λ body. error [];
  save_file = λ body. error [];
  restore = λ body. error [];
  save_workspace_file = λ body. error [];
  directory = λ body. error [];
  container_action = λ body. error [];
  update = λ body. error [];
  settings = λ body. done (body, true);
  web_config = λ body. error [];
  project_removal = λ body. error [];
}

abbrev reads : Reads ℕ
reads = record {
  overview = λ n. ([], none);
  projects = λ n. (0, ([], none));
  refresh_projects = λ n. (0, ([], none));
  project_logs = λ key service tail. read_nothing;
  project_web_access = λ key. read_nothing;
  file = λ key. read_nothing;
  versions = λ key. read_nothing;
  workspace_roots = λ n. [];
  workspace_entries = λ root path. read_nothing;
  workspace_file = λ root path. read_nothing;
  containers = read_nothing;
  container_logs = λ id tail. read_nothing;
  images = read_nothing;
  updates = read_nothing;
  update_tasks = λ n. [];
  settings = read_nothing;
}

abbrev writes : Writes ℕ
writes = record {
  create_project = λ request. counted [];
  preview_project_removal = λ key. counted [];
  delete_project = λ key request. counted [];
  project_action = λ key request. counted [];
  save_project_web_access = λ key config. counted tt;
  validate_file = λ key content. counted ([], []);
  save_file = λ key request. counted [];
  restore = λ key id request. counted [];
  save_workspace_file = λ request. counted [];
  create_workspace_directory = λ request. counted tt;
  container_action = λ id action. counted tt;
  delete_image = λ id. counted tt;
  start_update = λ request. counted [];
  put_settings = λ values. counted tt;
}

abbrev state : State ℕ
state = record { server = logged; service = 0 }

changed :
    (serve decoders reads writes (host_at 20) secrets web mux put_settings_request state).1.service
    ≡ 1
unfolding auth_login compose_manager.Api.Accounts.login_answer
    compose_manager.Api.Accounts.login_asked compose_manager.Api.Accounts.login_decoded
    compose_manager.Api.Answers.decode_json compose_manager.Api.Gate.check_cookie
    compose_manager.Api.Gate.check_session compose_manager.Api.Gate.is_safe
    compose_manager.Api.Handlers.Engine.put_settings compose_manager.Api.Handlers.decoded_by
    compose_manager.Api.Handlers.written compose_manager.Api.Routes.handle
    compose_manager.Api.Routes.routed compose_manager.Api.Routes.served
    compose_manager.Api.Routes.write compose_manager.Auth.Limiter.allow
    compose_manager.Auth.Limiter.new_limiter compose_manager.Auth.Manager.authenticate
    compose_manager.Auth.Manager.login compose_manager.Auth.Manager.login_found
    compose_manager.Auth.Manager.login_verified compose_manager.Auth.Manager.new_session
    compose_manager.Auth.Store.create_session compose_manager.Auth.Store.find_id
    compose_manager.Auth.Store.find_username compose_manager.Auth.Store.select_session
    compose_manager.Auth.Store.session_by_token_hash compose_manager.Auth.Store.user_by_username
    filter first_route gate has_prefix is_open literal lookup method_fits new_server routes same
    same_origin serve text_lt to_lower trim_space valid_csrf
changed = refl

differs :
    (serve decoders reads writes (host_at 20) secrets web mux put_settings_request state).1.service
    ≢ state.service
differs same_state = apart 1 0 refl (sym changed ∙ same_state)

serve-guarded_example :
    (a : IsAdmitted (host_at 20) put_settings_request state.server.auth) × ((valid_csrf
          (host_at 20)
          a.session
          put_settings_request.csrf_token
        ≡ true)
      ⊎ ((route : Route) × (values : Values) × ((mux.choose routes put_settings_request.method
                put_settings_request.path
              ≡ some (route, values))
            × (route.handler ≡ writer Writer.preview_project_removal))))
serve-guarded_example =
    serve-guarded decoders reads writes (host_at 20) secrets web mux mux-IsMux put_settings_request
      state differs
