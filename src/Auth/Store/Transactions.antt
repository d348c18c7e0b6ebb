-- ===== src/Auth/Store/Transactions.antt =====
-- What each transaction of backend/internal/store/store.go on accounts and sessions leaves.

use compose_manager.Auth.Store.{find_session, find_user}
use compose_manager.Auth.Store.{insert_user}
use compose_manager.Auth.Store.{count_users}
use compose_manager.Auth.Store.{delete_session, insert_session}
use compose_manager.Base.{Outcome, done, error, done_inj, if_cases}
use compose_manager.Base.{Exists, ℕ}
use compose_manager.Base.{◌≤◌, ◌≡◌, refl, ◌≢◌, inl, inr}
use compose_manager.Base.{true, false, not, ◌||◌, some, List, [], ◌∷◌, arith}
use compose_manager.Base.{◌==◌, Bool-cases, length}
use compose_manager.Base.{any, filter}
use compose_manager.Base.{Text, same, same_iff, same_refl}
use compose_manager.Auth.Store.{
  User, SessionRow, Session, Database, Host, AuthError, storage_failed, already_initialized,
  no_rows, create_initial_user, find_username, user_by_username, is_current, has_hash,
  create_session, find_id, select_session, session_by_token_hash, delete_session_row,
}

-- The first account: stored if there was none, else the tables stay as they are.
pub record IsFirst (username password_hash : Text) (db : Database) (u : User) (db' : Database)
    : Type 0 where
  pub before : length db.users ≡ 0
  pub named : u.username ≡ username
  pub hashed : u.password_hash ≡ password_hash
  pub users : db'.users ≡ u ∷ db.users

pub create_initial_user-IsFirst :
    (h : Host) (username password_hash : Text) (db : Database) (u : User)
    → (create_initial_user h username password_hash db).0 ≡ done u
    → IsFirst username password_hash db u (create_initial_user h username password_hash db).1
unfolding create_initial_user
create_initial_user-IsFirst h username password_hash db u =
    if_cases
      (λ (x : Outcome AuthError User × Database).
        x.0 ≡ done u → IsFirst username password_hash db u x.1)
      (h.breaks count_users) (error storage_failed, db) _ (λ e q. cc)
      (λ e.
        if_cases
          (λ (x : Outcome AuthError User × Database).
            x.0 ≡ done u → IsFirst username password_hash db u x.1)
          (not (length db.users == 0)) (error already_initialized, db) _ (λ f q. cc)
          (λ f.
            if_cases
              (λ (x : Outcome AuthError User × Database).
                x.0 ≡ done u → IsFirst username password_hash db u x.1)
              (h.breaks insert_user) (error storage_failed, db) _ (λ g q. cc)
              (λ g q. rw⁻¹ (done_inj _ _ q) (record {
                before = ground (arith, f);
                named = refl;
                hashed = refl;
                users = refl;
              }))))

pub create_initial_user-kept :
    (h : Host) (username password_hash : Text) (db : Database)
    → length db.users ≢ 0
    → (create_initial_user h username password_hash db).1 ≡ db
unfolding create_initial_user
create_initial_user-kept h username password_hash db n =
    let some_user : not (length db.users == 0) ≡ true = ground (arith, n) in
    rw some_user
      (elim (Bool-cases (h.breaks count_users)) [ inl e ↦ rw e refl | inr e ↦ rw e refl ])

pub create_session-users :
    (h : Host) (id : ℕ) (token_hash csrf : Text) (expires_at : ℕ) (db : Database)
    → (create_session h id token_hash csrf expires_at db).1.users ≡ db.users
unfolding create_session
create_session-users h id token_hash csrf expires_at db =
    if_cases (λ (x : Outcome AuthError (Unit {0}) × Database). x.1.users ≡ db.users)
      (h.breaks insert_session || any (has_hash token_hash) (filter (is_current h) db.sessions))
      (error storage_failed, db) _ (λ e. refl) (λ e. refl)

abbrev pub row_of : Host → ℕ → Text → Text → ℕ → SessionRow
row_of h id token_hash csrf expires_at = record {
  user_id = id;
  token_hash = token_hash;
  csrf_token = csrf;
  expires_at = h.stamp expires_at;
}

pub create_session-done :
    (h : Host) (id : ℕ) (token_hash csrf : Text) (expires_at : ℕ) (db : Database)
    → (create_session h id token_hash csrf expires_at db).0 ≡ done tt
    → (create_session h id token_hash csrf expires_at db).1.sessions
      ≡ row_of h id token_hash csrf expires_at ∷ filter (is_current h) db.sessions
unfolding create_session
create_session-done h id token_hash csrf expires_at db =
    if_cases
      (λ (x : Outcome AuthError (Unit {0}) × Database).
        x.0 ≡ done tt
        → x.1.sessions ≡ row_of h id token_hash csrf expires_at ∷ filter (is_current h) db.sessions)
      (h.breaks insert_session || any (has_hash token_hash) (filter (is_current h) db.sessions))
      (error storage_failed, db) _
      (λ e (q : ◌≡◌ {A = Outcome AuthError (Unit {0})} (error storage_failed) (done tt)). cc)
      (λ e q. refl)

pub delete_session_row-users :
    (h : Host) (token_hash : Text) (db : Database)
    → (delete_session_row h token_hash db).1.users ≡ db.users
unfolding delete_session_row
delete_session_row-users h token_hash db =
    if_cases (λ (x : Outcome AuthError (Unit {0}) × Database). x.1.users ≡ db.users)
      (h.breaks delete_session) (error storage_failed, db) _ (λ e. refl) (λ e. refl)

-- A deletion that is reported deletes every row of the hash, and those of other hashes stay.
pub delete_session_row-done :
    (h : Host) (token_hash : Text) (db : Database)
    → (delete_session_row h token_hash db).0 ≡ done tt
    → (delete_session_row h token_hash db).1.sessions
      ≡ filter (λ row. not (has_hash token_hash row)) db.sessions
unfolding delete_session_row
delete_session_row-done h token_hash db =
    if_cases
      (λ (x : Outcome AuthError (Unit {0}) × Database).
        x.0 ≡ done tt → x.1.sessions ≡ filter (λ row. not (has_hash token_hash row)) db.sessions)
      (h.breaks delete_session) (error storage_failed, db) _
      (λ e (q : ◌≡◌ {A = Outcome AuthError (Unit {0})} (error storage_failed) (done tt)). cc)
      (λ e q. refl)

-- The row in front is what its hash finds, while it is current and its account is there.
pub select_session-here :
    (h : Host) (us : List User) (row : SessionRow) (rows : List SessionRow) (u : User)
    → is_current h row ≡ true
    → find_id row.user_id us ≡ some u
    → select_session h row.token_hash us (row ∷ rows)
      ≡ done (record {
        user_id = row.user_id;
        username = u.username;
        csrf_token = row.csrf_token;
        expires_at = row.expires_at;
      })
unfolding select_session
select_session-here h us row rows u current found =
    rw (same_refl row.token_hash, current, found) refl

-- A row of another hash makes no difference.
pub select_session-other :
    (h : Host) (token_hash other : Text) (us : List User) (rows : List SessionRow)
    → same token_hash other ≡ false
    → select_session h other us (filter (λ row. not (has_hash token_hash row)) rows)
      ≡ select_session h other us rows
unfolding select_session filter
select_session-other h token_hash other us [] d = refl
select_session-other h token_hash other us (row ∷ rows) d =
    let ih = select_session-other h token_hash other us rows d in
    elim (Bool-cases (has_hash token_hash row)) [
      | inl e ↦
          (let differs : has_hash other row ≡ false =
              rw ((same_iff row.token_hash token_hash).0 e) d in
            rw (e, differs) ih)
      | inr e ↦ rw (e, ih) refl
    ]

pub user_by_username-done :
    (h : Host) (username : Text) (db : Database) (u : User)
    → user_by_username h username db ≡ done u
    → find_username username db.users ≡ done u
unfolding user_by_username
user_by_username-done h username db u =
    if_cases (λ (x : Outcome AuthError User). x ≡ done u → find_username username db.users ≡ done u)
      (h.breaks find_user) (error storage_failed) (find_username username db.users) (λ e q. cc)
      (λ e q. q)

-- The one account is found by its number.
pub find_id-only :
    (us : List User) (u : User) → length us ≤ 1 → Exists (λ v. v ≡ u) us → find_id u.id us ≡ some u
unfolding find_id
find_id-only [] u h e = elim e [ ]
find_id-only (v ∷ []) u h (inl e) =
    let same_id : (u.id == u.id) ≡ true = ground arith in rw (e, same_id) refl
find_id-only (v ∷ []) u h (inr e) = elim e [ ]
find_id-only (v ∷ w ∷ us) u h e = ground arith

-- What `SessionByTokenHash` gives is what the tables hold, but where the call fails.
pub session_by_token_hash_lem :
    (h : Host) (token_hash : Text) (db : Database)
    → h.breaks find_session ≡ false
    → session_by_token_hash h token_hash db ≡ select_session h token_hash db.users db.sessions
unfolding session_by_token_hash
session_by_token_hash_lem h token_hash db e = rw e refl

pub session_by_token_hash-ap :
    (h : Host) (token_hash : Text) (db db' : Database)
    → select_session h token_hash db.users db.sessions
      ≡ select_session h token_hash db'.users db'.sessions
    → session_by_token_hash h token_hash db ≡ session_by_token_hash h token_hash db'
unfolding session_by_token_hash
session_by_token_hash-ap h token_hash db db' e = rw e refl

pub session_by_token_hash-none :
    (h : Host) (token_hash : Text) (db : Database)
    → select_session h token_hash db.users db.sessions ≡ error no_rows
    → (s : Session) → session_by_token_hash h token_hash db ≢ done s
unfolding session_by_token_hash
session_by_token_hash-none h token_hash db e s =
    if_cases (λ (x : Outcome AuthError Session). x ≢ done s) (h.breaks find_session)
      (error storage_failed) (select_session h token_hash db.users db.sessions) (λ f q. cc)
      (λ f q. cc)
