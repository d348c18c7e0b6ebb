-- ===== src/Auth/Manager/Startup.antt =====
-- The opening of the manager of backend/internal/auth/manager.go, and the file of the setup token.

use compose_manager.Auth.Manager.Setup.{setup_unset}
use compose_manager.Base.{Outcome, done, error, if_cases}
use compose_manager.Base.{ℕ}
use compose_manager.Base.{◌≤◌, ◌<◌, ◌≡◌, refl, Bool}
use compose_manager.Base.{true, false, ◌||◌, Option, none, some, [], ◌∷◌, ◌++◌, arith}
use compose_manager.Base.{leb, ◌==◌, if◌then◌else◌, length}
use compose_manager.Base.{Text, is_empty}
use compose_manager.Base.{trim_space}
use compose_manager.Auth.Store.{
  Database, Host, AuthError, invalid_setup_token, no_randomness, has_users,
}
use compose_manager.Auth.Manager.{Secrets, Manager, setup}

-- Which calls on the file fail, but for reading a file that is not there and creating one that is.
pub record Files : Type 0 where
  pub read_fails : Bool
  pub read_again_fails : Bool
  pub mkdir_fails : Bool
  pub create_fails : Bool
  pub write_fails : Bool
  pub close_fails : Bool
  pub remove_fails : Bool

pub record Config : Type 0 where
  pub session_ttl : ℕ
  pub secure_cookie : Bool
  pub setup_token : Text

pub data StartError : Type 0 where
  auth_failed : AuthError → StartError
  file_failed : StartError

abbrev File : Type 0
File = Option Text

abbrev pub newline : Text
newline = 10 ∷ []

-- What is in the file after a write or a close that failed is left open by the operating system: here
-- the file is empty.
unfoldable pub create_file : Files → Text → File → Outcome StartError Text × File
create_file f token (some raw) =
    if f.read_again_fails then (error file_failed, some raw) else (done (trim_space raw), some raw)
create_file f token none =
    if f.create_fails
    then (error file_failed, none)
    else if f.write_fails || f.close_fails
    then (error file_failed, some [])
    else (done token, some (token ++ newline))

unfoldable pub create_setup_token : Files → Option Text → File → Outcome StartError Text × File
create_setup_token f random file =
    if f.mkdir_fails then (error file_failed, file) else elim random [
      | none ↦ (error (auth_failed no_randomness), file)
      | some token ↦ create_file f token file
    ]

-- `loadOrCreateSetupToken`; `random` is what `randomToken` returns.
unfoldable pub load_or_create_setup_token :
    Files → Option Text → File → Outcome StartError Text × File
load_or_create_setup_token f random none = create_setup_token f random none
load_or_create_setup_token f random (some raw) =
    if f.read_fails
    then (error file_failed, some raw)
    else if leb 20 (length (trim_space raw))
    then (done (trim_space raw), some raw)
    else create_setup_token f random (some raw)

-- The default of a duration that is not positive, 7 days.
abbrev pub ttl_or_default : ℕ → ℕ
ttl_or_default ttl = if ttl == 0 then 604800000000000 else ttl

abbrev with_token : Manager → Outcome StartError Text × File → Outcome StartError Manager × File
with_token m (error e, file) = (error e, file)
with_token m (done token, file) = (done (record m { setup_token = token }), file)

pub open_without_users :
    Config → Files → Option Text → Manager → File → Outcome StartError Manager × File
open_without_users c f random m file =
    if is_empty (trim_space c.setup_token)
    then with_token m (load_or_create_setup_token f random file)
    else with_token m (done (trim_space c.setup_token), file)

pub open_with :
    Config
    → Files
    → Option Text
    → Manager
    → File
    → Outcome AuthError Bool
    → Outcome StartError Manager × File
open_with c f random m file (error e) = (error (auth_failed e), file)
open_with c f random m file (done true) = (done m, if f.remove_fails then file else none)
open_with c f random m file (done false) = open_without_users c f random m file

-- `New`; where there is an account the file goes, if it can be removed.
pub new :
    Host
    → Outcome AuthError Text
    → Config
    → Files
    → Option Text
    → Database
    → File
    → Outcome StartError Manager × File
new h (error e) c f random db file = (error (auth_failed e), file)
new h (done dummy) c f random db file =
    open_with c f random
      (record {
        database = db;
        ttl = ttl_or_default c.session_ttl;
        secure_cookie = c.secure_cookie;
        dummy_hash = dummy;
        setup_token = [];
      })
      file (has_users h db)

-- What a start without a file leaves, if it gives a token.
create_file-done :
    (f : Files) (drawn token : Text) (file : File)
    → create_file f drawn none ≡ (done token, file)
    → file ≡ some (token ++ newline)
unfolding create_file
create_file-done f drawn token file =
    if_cases
      (λ (x : Outcome StartError Text × File).
        x ≡ (done token, file) → file ≡ some (token ++ newline))
      f.create_fails (error file_failed, none) _ (λ e q. cc)
      (λ e.
        if_cases
          (λ (x : Outcome StartError Text × File).
            x ≡ (done token, file) → file ≡ some (token ++ newline))
          (f.write_fails || f.close_fails) (error file_failed, some [])
          (done drawn, some (drawn ++ newline)) (λ g q. cc) (λ g q. cc))

create_setup_token-done :
    (f : Files) (random : Option Text) (token : Text) (file : File)
    → create_setup_token f random none ≡ (done token, file)
    → file ≡ some (token ++ newline)
unfolding create_setup_token
create_setup_token-done f none token file =
    if_cases
      (λ (x : Outcome StartError Text × File).
        x ≡ (done token, file) → file ≡ some (token ++ newline))
      f.mkdir_fails (error file_failed, none) (error (auth_failed no_randomness), none) (λ e q. cc)
      (λ e q. cc)
create_setup_token-done f (some drawn) token file =
    if_cases
      (λ (x : Outcome StartError Text × File).
        x ≡ (done token, file) → file ≡ some (token ++ newline))
      f.mkdir_fails (error file_failed, none) _ (λ e q. cc)
      (λ e. create_file-done f drawn token file)

-- A token that was written is what the next start reads, whatever is drawn then.
pub load_or_create-again :
    (f : Files) (random again : Option Text) (token : Text) (file : File)
    → load_or_create_setup_token f random none ≡ (done token, file)
    → trim_space (token ++ newline) ≡ token
    → 20 ≤ length token
    → f.read_fails ≡ false
    → load_or_create_setup_token f again file ≡ (done token, file)
unfolding load_or_create_setup_token
load_or_create-again f random again token file made trimmed long reads =
    let enough : leb 20 (length token) ≡ true = ground (arith, long) in
    rw (create_setup_token-done f random token file made) (rw (reads, trimmed, enough) refl)

-- A file with a text shorter than 20 bytes gives that text as the token, and is left as it is.
pub load_or_create_short :
    (f : Files) (token raw : Text)
    → length (trim_space raw) < 20
    → f.read_fails ≡ false
    → f.read_again_fails ≡ false
    → f.mkdir_fails ≡ false
    → load_or_create_setup_token f (some token) (some raw) ≡ (done (trim_space raw), some raw)
unfolding load_or_create_setup_token create_setup_token create_file
load_or_create_short f token raw short reads again made =
    let no : leb 20 (length (trim_space raw)) ≡ false = ground (arith, short) in
    rw (reads, no, made, again) refl

-- An empty file of the token, which a start that was stopped between creating and writing it leaves,
-- makes every later start succeed with a manager that refuses every setup, whatever its token.
pub blank_token_file :
    (h : Host) (f : Files) (c : Config) (dummy token raw : Text) (db : Database)
    → is_empty (trim_space c.setup_token) ≡ true
    → trim_space raw ≡ []
    → has_users h db ≡ done false
    → f.read_fails ≡ false
    → f.read_again_fails ≡ false
    → f.mkdir_fails ≡ false
    → (m : Manager) × (new h (done dummy) c f (some token) db (some raw) ≡ (done m, some raw))
      × ((k : Secrets) (given username password : Text)
          → (setup h k given username password m).0 ≡ error invalid_setup_token)
unfolding new open_with open_without_users
blank_token_file h f c dummy token raw db blank empty no_users reads again made =
    let short : length (trim_space raw) < 20 = rw empty (omega arith) in
    let m : Manager = record {
      database = db;
      ttl = ttl_or_default c.session_ttl;
      secure_cookie = c.secure_cookie;
      dummy_hash = dummy;
      setup_token = [];
    } in
    (
      m,
      rw (no_users, blank, load_or_create_short f token raw short reads again made, empty) refl,
      λ k given username password. setup_unset h k given username password m refl,
    )
