-- ===== src/Auth/Manager/Steps.antt =====
-- The calls of the manager of backend/internal/auth/manager.go in any order, and what they keep.

use compose_manager.Auth.Manager.{user_by_username}
use compose_manager.Base.{Outcome, done, error, if_cases}
use compose_manager.Base.{◌≡◌, refl, ◌∙◌, ◌≢◌, Bool}
use compose_manager.Base.{true, false, Option, none, some, arith}
use compose_manager.Base.{◌==◌, length}
use compose_manager.Base.{any}
use compose_manager.Base.{Text, is_empty}
use compose_manager.Base.{trim_space}
use compose_manager.Auth.Store.{
  User, Database, Host, AuthError, no_rows, find_username, create_initial_user, delete_session_row,
}
use compose_manager.Auth.Store.Tables.{
  IsSound, find_username_lem, create_initial_user-IsSound, create_session-IsSound,
  delete_session_row-IsSound,
}
use compose_manager.Auth.Store.Transactions.{
  user_by_username-done, create_initial_user-IsFirst, create_initial_user-kept,
  delete_session_row-users,
}
use compose_manager.Auth.Manager.{
  Secrets, Manager, with_database, new_session, setup, login, login_found, login_verified, logout,
}
use compose_manager.Auth.Manager.Openings.{new_session-kept, new_session-users}
use compose_manager.Auth.Manager.Setup.{setup-kept}

-- One call, on a host of its own: the clock and what fails differ from call to call.
pub data Step : Manager → Manager → Type 0 where
  by_setup :
      (h : Host) (k : Secrets) (token username password : Text) (m : Manager)
      → Step m (setup h k token username password m).1
  by_login :
      (h : Host) (k : Secrets) (username password : Text) (m : Manager)
      → Step m (login h k username password m).1
  by_logout : (h : Host) (token : Text) (m : Manager) → Step m (logout h token m).1

pub data Reach : Manager → Manager → Type 0 where
  here : (m : Manager) → Reach m m
  after : (m n o : Manager) → Reach m n → Step n o → Reach m o

login_verified-kept :
    (P : Database → Type 0) (h : Host) (k : Secrets) (u : User) (m : Manager) (o : Option Bool)
    → P m.database
    → P (new_session h k u m).1.database
    → P (login_verified h k u m o).1.database
unfolding login_verified
login_verified-kept P h k u m none p q = p
login_verified-kept P h k u m (some false) p q = p
login_verified-kept P h k u m (some true) p q = q

login_found-kept :
    (P : Database → Type 0) (h : Host) (k : Secrets) (username password : Text) (m : Manager)
    (o : Outcome AuthError User)
    → user_by_username h username m.database ≡ o
    → P m.database
    → ((u : User)
        → find_username username m.database.users ≡ done u
        → P (new_session h k u m).1.database)
    → P (login_found h k password m o).1.database
unfolding login_found
login_found-kept P h k username password m (error no_rows) e p f = p
login_found-kept P h k username password m (error x) e p f = p
login_found-kept P h k username password m (done u) e p f =
    login_verified-kept P h k u m _ p (f u (user_by_username-done h username m.database u e))

login-kept :
    (P : Database → Type 0) (h : Host) (k : Secrets) (username password : Text) (m : Manager)
    → P m.database
    → ((u : User)
        → find_username (trim_space username) m.database.users ≡ done u
        → P (new_session h k u m).1.database)
    → P (login h k username password m).1.database
unfolding login
login-kept P h k username password m p f =
    login_found-kept P h k (trim_space username) password m _ refl p f

logout-kept :
    (P : Database → Type 0) (h : Host) (token : Text) (m : Manager)
    → P m.database
    → P (delete_session_row h (h.sha256 token) m.database).1
    → P (logout h token m).1.database
unfolding logout
logout-kept P h token m p q =
    if_cases (λ (x : Outcome AuthError (Unit {0}) × Manager). P x.1.database)
      (is_empty (trim_space token)) (done tt, m) _ (λ e. p) (λ e. q)

new_session-IsSound :
    (h : Host) (k : Secrets) (u : User) (m : Manager)
    → any (λ (v : User). v.id == u.id) m.database.users ≡ true
    → IsSound m.database
    → IsSound (new_session h k u m).1.database
new_session-IsSound h k u m known s =
    new_session-kept IsSound h k u m
      (λ token_hash csrf expires_at.
        create_session-IsSound h u.id token_hash csrf expires_at m.database known s)
      s

Step-IsSound : {m n : Manager} → Step m n → IsSound m.database → IsSound n.database
Step-IsSound (by_setup h k token username password m) s =
    setup-kept IsSound h k token username password m s
      (λ name encoded. create_initial_user-IsSound h name encoded m.database s)
      (λ name encoded u q.
        let first = create_initial_user-IsFirst h name encoded m.database u q in
        let db = (create_initial_user h name encoded m.database).1 in
        let same_id : (u.id == u.id) ≡ true = ground arith in
        new_session-IsSound h k u (with_database m db) (rw first.users (ground (arith, same_id)))
          (create_initial_user-IsSound h name encoded m.database s))
Step-IsSound (by_login h k username password m) s =
    login-kept IsSound h k username password m s (λ u q.
      let (named, (known, member)) = find_username_lem (trim_space username) m.database.users u q in
      new_session-IsSound h k u m known s)
Step-IsSound (by_logout h token m) s =
    logout-kept IsSound h token m s (delete_session_row-IsSound h (h.sha256 token) m.database s)

-- From sound tables no calls, in whatever order, at whatever times and with whatever failures, leave
-- tables that are not: at most one account, sessions with hashes of their own, each of an account.
pub Reach-IsSound : {m n : Manager} → Reach m n → IsSound m.database → IsSound n.database
Reach-IsSound (here m) s = s
Reach-IsSound (after m o n r t) s = Step-IsSound t (Reach-IsSound r s)

-- One step keeps the accounts, once there is one.
Step-users :
    {m n : Manager} → Step m n → length m.database.users ≢ 0 → n.database.users ≡ m.database.users
Step-users (by_setup h k token username password m) some_user =
    setup-kept (λ db. db.users ≡ m.database.users) h k token username password m refl
      (λ name encoded. rw (create_initial_user-kept h name encoded m.database some_user) refl)
      (λ name encoded u q.
        elim (some_user (create_initial_user-IsFirst h name encoded m.database u q).before) [ ])
Step-users (by_login h k username password m) some_user =
    login-kept (λ db. db.users ≡ m.database.users) h k username password m refl
      (λ u q. new_session-users h k u m)
Step-users (by_logout h token m) some_user =
    logout-kept (λ db. db.users ≡ m.database.users) h token m refl
      (delete_session_row-users h (h.sha256 token) m.database)

-- Once there is an account, no calls change the accounts: their names and hashes stay.
pub Reach-users :
    {m n : Manager} → Reach m n → length m.database.users ≢ 0 → n.database.users ≡ m.database.users
Reach-users (here m) some_user = refl
Reach-users (after m o n r t) some_user =
    let before = Reach-users r some_user in Step-users t (rw before some_user) ∙ before
