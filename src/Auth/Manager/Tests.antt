-- ===== src/Auth/Manager/Tests.antt =====
-- The manager of backend/internal/auth/manager.go at a concrete account, clock and randomness.

use compose_manager.Base.{done, error}
use compose_manager.Base.{text_lt, ℕ}
use compose_manager.Base.{◌≡◌, refl}
use compose_manager.Base.{◌≢◌, true, false, none}
use compose_manager.Base.{some, [], ◌∷◌, ◌++◌, arith}
use compose_manager.Base.{length, filter}
use compose_manager.Base.{Text, codes, same, is_empty}
use compose_manager.Base.{trim_space, to_lower}
use compose_manager.Auth.Store.{
  User, SessionRow, Session, Database, Host, AuthError, no_rows, invalid_setup_token, has_users,
}
use compose_manager.Auth.Store.Tables.{IsSound}
use compose_manager.Auth.Manager.{
  Secrets, Manager, Login, setup, login, logout, authenticate, username_valid, password_valid,
  constant_time_equal,
}
use compose_manager.Auth.Manager.Setup.{IsAccount, setup-done, setup_once}
use compose_manager.Auth.Manager.Sessions.{IsLogin, login-IsLogin, logout-authenticate}
use compose_manager.Auth.Manager.Steps.{
  by_setup, by_logout, here, after, Reach-IsSound, Reach-users,
}
use compose_manager.Auth.Manager.Startup.{
  Files, Config, newline, load_or_create_setup_token, load_or_create-again, new, blank_token_file,
}

-- A digest that is the text itself, and times whose texts are one byte.
abbrev host_at : ℕ → Host
host_at now = record { now = now; stamp = λ n. n ∷ []; sha256 = λ t. t; breaks = λ c. false }

abbrev secrets : Secrets
secrets = record {
  count_runes = length;
  hash_password = λ p. done p;
  verify_password = λ encoded p. some (same encoded p);
  session_token = some (codes "t1");
  csrf_token = some (codes "c1");
}

abbrev secret : Text
secret = codes "correct horse"

abbrev no_accounts : Database
no_accounts = record { users = []; next_id = 1; sessions = [] }

abbrev fresh : Manager
fresh = record {
  database = no_accounts;
  ttl = 50;
  secure_cookie = false;
  dummy_hash = [];
  setup_token = codes "key";
}

abbrev first_login : Login
first_login = record {
  username = codes "admin";
  session_token = codes "t1";
  csrf_token = codes "c1";
  expires_at = 60;
}

abbrev ready : Manager
ready = (setup (host_at 10) secrets (codes "key") (codes "admin") secret fresh).1

no_accounts-IsSound : IsSound no_accounts
unfolding compose_manager.Auth.Store.Tables.Distinct
no_accounts-IsSound = record { one = omega arith; distinct = tt; owned = tt }

setup-done_example :
    (is_empty fresh.setup_token ≡ false)
    × (constant_time_equal (host_at 10) fresh.setup_token (trim_space (codes "key")) ≡ true)
    × (username_valid (trim_space (codes "admin")) ≡ true)
    × (password_valid secrets secret ≡ true)
    × IsAccount secrets
        (trim_space (codes "admin"))
        secret
        fresh
        first_login
        (setup (host_at 10) secrets (codes "key") (codes "admin") secret fresh).1
unfolding compose_manager.Auth.Manager.finish_setup compose_manager.Auth.Manager.new_session
    compose_manager.Auth.Manager.setup_checked compose_manager.Auth.Manager.setup_hashed
    compose_manager.Auth.Manager.setup_user compose_manager.Auth.Manager.validate_credentials
    compose_manager.Auth.Store.create_initial_user compose_manager.Auth.Store.create_session filter
    password_valid same setup trim_space username_valid
setup-done_example =
    setup-done (host_at 10) secrets (codes "key") (codes "admin") secret fresh first_login refl

setup_once_example :
    ((l : Login) → (setup (host_at 12) secrets (codes "key") (codes "eve") secret ready).0 ≢ done l)
    × ((setup (host_at 12) secrets (codes "key") (codes "eve") secret ready).1.database
        ≡ ready.database)
unfolding compose_manager.Auth.Manager.finish_setup compose_manager.Auth.Manager.new_session
    compose_manager.Auth.Manager.setup_checked compose_manager.Auth.Manager.setup_hashed
    compose_manager.Auth.Manager.setup_user compose_manager.Auth.Manager.validate_credentials
    compose_manager.Auth.Store.create_initial_user compose_manager.Auth.Store.create_session filter
    password_valid same setup trim_space username_valid
setup_once_example =
    setup_once (host_at 12) secrets (codes "key") (codes "eve") secret ready (omega arith)

abbrev again : Secrets
again = record secrets { session_token = some (codes "t2") }

abbrev second_login : Login
second_login = record {
  username = codes "admin";
  session_token = codes "t2";
  csrf_token = codes "c1";
  expires_at = 70;
}

login-IsLogin_example :
    IsLogin
      (host_at 20)
      again
      (codes "Admin")
      secret
      ready
      second_login
      (login (host_at 20) again (codes "Admin") secret ready).1
unfolding compose_manager.Auth.Manager.finish_setup compose_manager.Auth.Manager.login_found
    compose_manager.Auth.Manager.login_verified compose_manager.Auth.Manager.new_session
    compose_manager.Auth.Manager.setup_checked compose_manager.Auth.Manager.setup_hashed
    compose_manager.Auth.Manager.setup_user compose_manager.Auth.Manager.validate_credentials
    compose_manager.Auth.Store.create_initial_user compose_manager.Auth.Store.create_session
    compose_manager.Auth.Store.find_username compose_manager.Auth.Store.user_by_username filter
    login password_valid same setup text_lt to_lower trim_space username_valid
login-IsLogin_example =
    login-IsLogin (host_at 20) again (codes "Admin") secret ready second_login refl

ready-IsSound : IsSound ready.database
ready-IsSound =
    Reach-IsSound
      (after fresh fresh ready (here fresh)
        (by_setup (host_at 10) secrets (codes "key") (codes "admin") secret fresh))
      no_accounts-IsSound

logout-authenticate_example :
    ((s : Session)
      → authenticate (host_at 30) (codes "t1") (logout (host_at 20) (codes "t1") ready).1 ≢ done s)
    × (same ((host_at 20).sha256 (codes "t1")) ((host_at 30).sha256 (codes "t2")) ≡ false
        → authenticate (host_at 30) (codes "t2") (logout (host_at 20) (codes "t1") ready).1
          ≡ authenticate (host_at 30) (codes "t2") ready)
unfolding compose_manager.Auth.Store.delete_session_row logout trim_space
logout-authenticate_example =
    logout-authenticate (host_at 20) (host_at 30) (codes "t1") (codes "t2") ready refl refl

abbrev left : Manager
left = (logout (host_at 30) (codes "t1") ready).1

Reach-IsSound_example : IsSound left.database
Reach-IsSound_example =
    Reach-IsSound
      (after fresh ready left
        (after fresh fresh ready (here fresh)
          (by_setup (host_at 10) secrets (codes "key") (codes "admin") secret fresh))
        (by_logout (host_at 30) (codes "t1") ready))
      no_accounts-IsSound

Reach-users_example : left.database.users ≡ ready.database.users
unfolding compose_manager.Auth.Manager.finish_setup compose_manager.Auth.Manager.new_session
    compose_manager.Auth.Manager.setup_checked compose_manager.Auth.Manager.setup_hashed
    compose_manager.Auth.Manager.setup_user compose_manager.Auth.Manager.validate_credentials
    compose_manager.Auth.Store.create_initial_user compose_manager.Auth.Store.create_session filter
    password_valid same setup trim_space username_valid
Reach-users_example =
    Reach-users (after ready ready left (here ready) (by_logout (host_at 30) (codes "t1") ready))
      (omega arith)

abbrev working : Files
working = record {
  read_fails = false;
  read_again_fails = false;
  mkdir_fails = false;
  create_fails = false;
  write_fails = false;
  close_fails = false;
  remove_fails = false;
}

abbrev drawn : Text
drawn = codes "abcdefghijklmnopqrst"

load_or_create-again_example :
    load_or_create_setup_token working none (some (drawn ++ newline))
    ≡ (done drawn, some (drawn ++ newline))
unfolding compose_manager.Auth.Manager.Startup.create_file
    compose_manager.Auth.Manager.Startup.create_setup_token load_or_create_setup_token trim_space
load_or_create-again_example =
    load_or_create-again working (some drawn) none drawn (some (drawn ++ newline)) refl refl
      (omega arith) refl

abbrev config : Config
config = record { session_ttl = 0; secure_cookie = true; setup_token = [] }

blank_token_file_example :
    (m : Manager) × (new (host_at 5) (done secret) config working (some drawn) no_accounts (some [])
      ≡ (done m, some []))
    × ((k : Secrets) (given username password : Text)
        → (setup (host_at 5) k given username password m).0 ≡ error invalid_setup_token)
unfolding has_users trim_space
blank_token_file_example =
    blank_token_file (host_at 5) working config secret drawn [] no_accounts refl refl refl refl refl
      refl
