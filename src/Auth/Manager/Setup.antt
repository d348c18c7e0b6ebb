-- ===== src/Auth/Manager/Setup.antt =====
-- What a setup of backend/internal/auth/manager.go needs and leaves.

use compose_manager.Auth.Manager.{invalid_password}
use compose_manager.Auth.Manager.{invalid_setup_token, invalid_username}
use compose_manager.Auth.Store.Transactions.{
  IsFirst, create_initial_user-IsFirst, create_initial_user-kept,
}
use compose_manager.Auth.Manager.{
  Secrets, Manager, Login, new_session, setup, setup_checked, setup_hashed, setup_user,
  finish_setup,
}
use compose_manager.Auth.Store.{User, Database, Host, AuthError, create_initial_user}
use compose_manager.Base.{Outcome, done, error, require-done, if_cases}
use compose_manager.Base.{◌≡◌, refl, ◌∙◌, ◌≢◌, inl, inr}
use compose_manager.Base.{true, false, not, ◌||◌, [], ◌∷◌, arith}
use compose_manager.Base.{Bool-cases, or_false, length}
use compose_manager.Base.{Text, is_empty}
use compose_manager.Base.{trim_space}
use compose_manager.Auth.Manager.{
  with_database, username_valid, password_valid, validate_credentials, constant_time_equal,
}
use compose_manager.Auth.Manager.Openings.{new_session-IsOpened, new_session-users}

-- The account that a setup makes.
pub record IsAccount (k : Secrets) (name password : Text) (m : Manager) (l : Login) (m' : Manager)
    : Type 0 where
  pub user : User
  pub alone : length m.database.users ≡ 0
  pub named : user.username ≡ name
  pub hashed : k.hash_password password ≡ done user.password_hash
  pub users : m'.database.users ≡ user ∷ m.database.users
  pub told : l.username ≡ name
  pub closed : m'.setup_token ≡ []

finish_setup-done :
    (l : Login) (x : Outcome AuthError Login × Manager)
    → (finish_setup x).0 ≡ done l
    → (x.0 ≡ done l)
      × ((finish_setup x).1.setup_token ≡ [])
      × ((finish_setup x).1.database ≡ x.1.database)
unfolding finish_setup
finish_setup-done l (error e, m) q = cc
finish_setup-done l (done k, m) q = (q, refl, refl)

finish_setup-database :
    (x : Outcome AuthError Login × Manager) → (finish_setup x).1.database ≡ x.1.database
unfolding finish_setup
finish_setup-database (error e, m) = refl
finish_setup-database (done k, m) = refl

IsFirst-of :
    (h : Host) (name encoded : Text) (db : Database) (u : User) (db' : Database)
    → create_initial_user h name encoded db ≡ (done u, db')
    → IsFirst name encoded db u db'
IsFirst-of h name encoded db u db' made =
    let first : IsFirst name encoded db u (create_initial_user h name encoded db).1 =
      create_initial_user-IsFirst h name encoded db u (rw made refl) in
    rw made at first

setup_user-done :
    (h : Host) (k : Secrets) (name password encoded : Text) (m : Manager) (l : Login)
    (o : Outcome AuthError User × Database)
    → k.hash_password password ≡ done encoded
    → create_initial_user h name encoded m.database ≡ o
    → (setup_user h k m o).0 ≡ done l
    → IsAccount k name password m l (setup_user h k m o).1
unfolding setup_user
setup_user-done h k name password encoded m l (error e, db) hashed made q = cc
setup_user-done h k name password encoded m l (done u, db) hashed made q =
    let first : IsFirst name encoded m.database u db =
      IsFirst-of h name encoded m.database u db made in
    let (opened, closed, same_database) =
      finish_setup-done l (new_session h k u (with_database m db)) q in
    record {
      user = u;
      alone = first.before;
      named = first.named;
      hashed = rw (hashed, first.hashed) refl;
      users = rw (same_database, new_session-users) first.users;
      told = (new_session-IsOpened h k u (with_database m db) l opened).named ∙ first.named;
      closed = closed;
    }

setup_hashed-done :
    (h : Host) (k : Secrets) (name password : Text) (m : Manager) (l : Login)
    (o : Outcome AuthError Text)
    → k.hash_password password ≡ o
    → (setup_hashed h k name m o).0 ≡ done l
    → IsAccount k name password m l (setup_hashed h k name m o).1
unfolding setup_hashed
setup_hashed-done h k name password m l (error e) hashed q = cc
setup_hashed-done h k name password m l (done encoded) hashed q =
    setup_user-done h k name password encoded m l _ hashed refl q

setup_checked-done :
    (h : Host) (k : Secrets) (name password : Text) (m : Manager) (l : Login)
    (o : Outcome AuthError (Unit {0}))
    → (setup_checked h k name password m o).0 ≡ done l
    → (o ≡ done tt) × IsAccount k name password m l (setup_checked h k name password m o).1
unfolding setup_checked
setup_checked-done h k name password m l (error e) q = cc
setup_checked-done h k name password m l (done tt) q =
    (refl, setup_hashed-done h k name password m l (k.hash_password password) refl q)

validate_credentials-done :
    (k : Secrets) (name password : Text)
    → validate_credentials k name password ≡ done tt
    → (username_valid name ≡ true) × (password_valid k password ≡ true)
unfolding validate_credentials
validate_credentials-done k name password q =
    let (named, rest) = require-done (username_valid name) invalid_username _ tt q in
    elim (Bool-cases (password_valid k password)) [
      | inl e ↦ (named, e)
      | inr e ↦
          (let h : ◌≡◌ {A = Outcome AuthError (Unit {0})} (error invalid_password) (done tt) =
              rw e at rest in
            cc)
    ]

setup_user-kept :
    (P : Database → Type 0) (h : Host) (k : Secrets) (m : Manager)
    (o : Outcome AuthError User × Database)
    → P o.1
    → ((u : User) → o.0 ≡ done u → P (new_session h k u (with_database m o.1)).1.database)
    → P (setup_user h k m o).1.database
unfolding setup_user
setup_user-kept P h k m (error e, db) p f = p
setup_user-kept P h k m (done u, db) p f = rw finish_setup-database (f u refl)

setup_hashed-kept :
    (P : Database → Type 0) (h : Host) (k : Secrets) (name : Text) (m : Manager)
    (o : Outcome AuthError Text)
    → P m.database
    → ((encoded : Text) → P (create_initial_user h name encoded m.database).1)
    → ((encoded : Text) (u : User)
        → (create_initial_user h name encoded m.database).0 ≡ done u
        → P
            (new_session h k u
              (with_database m (create_initial_user h name encoded m.database).1)).1.database)
    → P (setup_hashed h k name m o).1.database
unfolding setup_hashed
setup_hashed-kept P h k name m (error e) p f g = p
setup_hashed-kept P h k name m (done encoded) p f g =
    setup_user-kept P h k m (create_initial_user h name encoded m.database) (f encoded) (g encoded)

setup_checked-kept :
    (P : Database → Type 0) (h : Host) (k : Secrets) (name password : Text) (m : Manager)
    (o : Outcome AuthError (Unit {0}))
    → P m.database
    → P (setup_hashed h k name m (k.hash_password password)).1.database
    → P (setup_checked h k name password m o).1.database
unfolding setup_checked
setup_checked-kept P h k name password m (error e) p q = p
setup_checked-kept P h k name password m (done u) p q = q

-- A predicate of databases that the two transactions of a setup keep is kept by the setup.
pub setup-kept :
    (P : Database → Type 0) (h : Host) (k : Secrets) (token username password : Text) (m : Manager)
    → P m.database
    → ((name encoded : Text) → P (create_initial_user h name encoded m.database).1)
    → ((name encoded : Text) (u : User)
        → (create_initial_user h name encoded m.database).0 ≡ done u
        → P
            (new_session h k u
              (with_database m (create_initial_user h name encoded m.database).1)).1.database)
    → P (setup h k token username password m).1.database
unfolding setup
setup-kept P h k token username password m p f g =
    if_cases (λ (x : Outcome AuthError Login × Manager). P x.1.database)
      (is_empty m.setup_token || not (constant_time_equal h m.setup_token (trim_space token)))
      (error invalid_setup_token, m) _ (λ e. p)
      (λ e. setup_checked-kept P h k (trim_space username) password m _ p (
        setup_hashed-kept P h k (trim_space username) m _ p (f (trim_space username))
          (g (trim_space username))))

-- A setup that succeeds was given the token, a valid name and a valid password; there was no account,
-- the account of that name with the hash of that password is the only one after it, and its token is
-- forgotten.
pub setup-done :
    (h : Host) (k : Secrets) (token username password : Text) (m : Manager) (l : Login)
    → (setup h k token username password m).0 ≡ done l
    → (is_empty m.setup_token ≡ false)
      × (constant_time_equal h m.setup_token (trim_space token) ≡ true)
      × (username_valid (trim_space username) ≡ true)
      × (password_valid k password ≡ true)
      × IsAccount k (trim_space username) password m l (setup h k token username password m).1
unfolding setup
setup-done h k token username password m l =
    if_cases
      (λ (x : Outcome AuthError Login × Manager).
        x.0 ≡ done l
        → (is_empty m.setup_token ≡ false)
          × (constant_time_equal h m.setup_token (trim_space token) ≡ true)
          × (username_valid (trim_space username) ≡ true)
          × (password_valid k password ≡ true)
          × IsAccount k (trim_space username) password m l x.1)
      (is_empty m.setup_token || not (constant_time_equal h m.setup_token (trim_space token)))
      (error invalid_setup_token, m) _ (λ e q. cc)
      (λ e q.
        let (set, matches) = or_false (is_empty m.setup_token) _ e in
        let (checked, account) = setup_checked-done h k (trim_space username) password m l _ q in
        let (named, long) = validate_credentials-done k (trim_space username) password checked in
        (set, ground (arith, matches), named, long, account))

-- While there is an account no setup succeeds, and the accounts and sessions stay as they are.
pub setup_once :
    (h : Host) (k : Secrets) (token username password : Text) (m : Manager)
    → length m.database.users ≢ 0
    → ((l : Login) → (setup h k token username password m).0 ≢ done l)
      × ((setup h k token username password m).1.database ≡ m.database)
setup_once h k token username password m n = (
  (λ l q. n (setup-done h k token username password m l q).4.alone),
  setup-kept (λ db. db ≡ m.database) h k token username password m refl
      (λ name encoded. create_initial_user-kept h name encoded m.database n)
      (λ name encoded u q.
        elim (n (create_initial_user-IsFirst h name encoded m.database u q).before) [ ]),
)

-- Without a token of its own the manager refuses every setup.
pub setup_unset :
    (h : Host) (k : Secrets) (token username password : Text) (m : Manager)
    → m.setup_token ≡ []
    → (setup h k token username password m).0 ≡ error invalid_setup_token
unfolding setup
setup_unset h k token username password m unset =
    let blank : is_empty m.setup_token ≡ true = rw unset refl in rw blank refl
