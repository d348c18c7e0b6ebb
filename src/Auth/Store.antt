-- ===== src/Auth/Store.antt =====
-- The accounts and sessions of backend/internal/store/store.go: the tables `users` and `sessions`, with
-- their constraints, and the transactions on them. Any call of the database may fail.
pub mod Tables
pub mod Transactions
use compose_manager.Base.{
  Outcome, done, error, ◌>>=◌, ◌>>◌, require, or_error, bind-done, require-done, or_error-done,
  done_inj, if_cases, text_lt, put_sorted,
}
use compose_manager.Base.{
  sort_by, All-sort_by, Never, Exists, Exists-mono, Exists-of_any, ℕ, zero, suc, ◌+◌, ◌-◌, ◌*◌, ◌/◌,
  ◌%◌,
}
use compose_manager.Base.{◌^◌, ◌≤◌, ◌<◌, ◌≡◌, refl, sym, ap, ◌∙◌, ◌≢◌, ◌↔◌, ◌⊎◌, inl, inr, Bool}
use compose_manager.Base.{
  true, false, not, ◌&&◌, ◌||◌, Option, none, some, List, [], ◌∷◌, ◌++◌, map, arith,
}
use compose_manager.Base.{
  ltb, leb, ◌==◌, if◌then◌else◌, ==_iff, Bool-cases, Option-cases, and_true, and_intro, or_false,
  length, take, drop, all,
}
use compose_manager.Base.{
  any, filter, length-append, length-take, length-drop, take-append-drop, All, All-append, All-mono,
  All-filter, All-filter_test, All-of_all, length-filter, All-of_any,
}
use compose_manager.Base.{
  Text, codes, same, same_iff, same_refl, same_sym, is_empty, has_prefix, contains, has_byte, split,
  join, is_space, trim_left,
}
use compose_manager.Base.{
  trim_right, trim_space, lower_byte, to_lower, last_piece, but_last, Map, lookup, insert, remove,
  purge, lookup-insert, lookup-remove, Unique,
}
use compose_manager.Base.{Unique-insert, Unique-remove, unless, lookup-purge, Unique-purge}

pub record User : Type 0 where
  pub id : ℕ
  pub username : Text
  pub password_hash : Text

-- A row of `sessions`; the time is the text that is stored.
pub record SessionRow : Type 0 where
  pub user_id : ℕ
  pub token_hash : Text
  pub csrf_token : Text
  pub expires_at : Text

pub record Session : Type 0 where
  pub user_id : ℕ
  pub username : Text
  pub csrf_token : Text
  pub expires_at : Text

pub record Database : Type 0 where
  pub users : List User
  pub next_id : ℕ
  pub sessions : List SessionRow

pub data Call : Type 0 where
  count_users insert_user find_user insert_session find_session delete_session : Call

-- The clock in nanoseconds, its text in RFC 3339 with nanoseconds, SHA-256 as text, and whether a call
-- of the database fails (its statement, the commit, or the reading of what it gives).
pub record Host : Type 0 where
  pub now : ℕ
  pub stamp : ℕ → Text
  pub sha256 : Text → Text
  pub breaks : Call → Bool

pub data AuthError : Type 0 where
  storage_failed no_rows already_initialized invalid_credentials invalid_setup_token : AuthError
  invalid_username invalid_password no_randomness : AuthError

-- `COLLATE NOCASE`: letters of ASCII alike.
abbrev pub same_nocase : Text → Text → Bool
same_nocase a b = same (to_lower a) (to_lower b)

unfoldable pub has_users : Host → Database → Outcome AuthError Bool
has_users h db =
    if h.breaks count_users then error storage_failed else done (ltb 0 (length db.users))

-- `CreateInitialUser`, one transaction.
unfoldable pub create_initial_user :
    Host → Text → Text → Database → Outcome AuthError User × Database
create_initial_user h username password_hash db =
    let user : User = record {
      id = db.next_id;
      username = username;
      password_hash = password_hash;
    } in
    if h.breaks count_users
    then (error storage_failed, db)
    else if not (length db.users == 0)
    then (error already_initialized, db)
    else if h.breaks insert_user
    then (error storage_failed, db)
    else (done user, record db { users = user ∷ db.users; next_id = suc db.next_id })

unfoldable pub find_username : Text → List User → Outcome AuthError User
find_username username [] = error no_rows
find_username username (u ∷ us) =
    let rest = find_username username us in if same_nocase u.username username then done u else rest

unfoldable pub user_by_username : Host → Text → Database → Outcome AuthError User
user_by_username h username db =
    if h.breaks find_user then error storage_failed else find_username username db.users

-- `expires_at > now`, a comparison of texts.
abbrev pub is_current : Host → SessionRow → Bool
is_current h row = text_lt (h.stamp h.now) row.expires_at

abbrev pub has_hash : Text → SessionRow → Bool
has_hash token_hash row = same row.token_hash token_hash

-- `CreateSession`, one transaction: the expired rows go, and the new one has a hash of its own.
unfoldable pub create_session :
    Host → ℕ → Text → Text → ℕ → Database → Outcome AuthError (Unit {0}) × Database
create_session h user_id token_hash csrf_token expires_at db =
    let live = filter (is_current h) db.sessions in
    let row : SessionRow = record {
      user_id = user_id;
      token_hash = token_hash;
      csrf_token = csrf_token;
      expires_at = h.stamp expires_at;
    } in
    if h.breaks insert_session || any (has_hash token_hash) live
    then (error storage_failed, db)
    else (done tt, record db { sessions = row ∷ live })

unfoldable pub find_id : ℕ → List User → Option User
find_id id [] = none
find_id id (u ∷ us) = let rest = find_id id us in if u.id == id then some u else rest

abbrev pub session_of :
    SessionRow → Outcome AuthError Session → Option User → Outcome AuthError Session
session_of row rest none = rest
session_of row rest (some u) = done (record {
  user_id = row.user_id;
  username = u.username;
  csrf_token = row.csrf_token;
  expires_at = row.expires_at;
})

-- The join of the rows with their users, at a hash, of the rows that are not expired.
unfoldable pub select_session :
    Host → Text → List User → List SessionRow → Outcome AuthError Session
select_session h token_hash us [] = error no_rows
select_session h token_hash us (row ∷ rows) =
    let rest = select_session h token_hash us rows in
    if has_hash token_hash row && is_current h row
    then session_of row rest (find_id row.user_id us)
    else rest

unfoldable pub session_by_token_hash : Host → Text → Database → Outcome AuthError Session
session_by_token_hash h token_hash db =
    if h.breaks find_session
    then error storage_failed
    else select_session h token_hash db.users db.sessions

unfoldable pub delete_session_row : Host → Text → Database → Outcome AuthError (Unit {0}) × Database
delete_session_row h token_hash db =
    let kept = record db { sessions = filter (λ row. not (has_hash token_hash row)) db.sessions } in
    if h.breaks delete_session then (error storage_failed, db) else (done tt, kept)
