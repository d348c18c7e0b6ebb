-- ===== src/Auth/Store/Tables.antt =====
-- What the constraints of the tables of backend/internal/store/store.go keep.

use compose_manager.Auth.Store.{insert_user}
use compose_manager.Auth.Store.{count_users}
use compose_manager.Auth.Store.{delete_session, insert_session}
use compose_manager.Base.{Outcome, done, error, done_inj, if_cases}
use compose_manager.Base.{Exists, ℕ}
use compose_manager.Base.{◌≤◌, ◌≡◌, refl, inl, inr, Bool}
use compose_manager.Base.{true, false, not, ◌||◌, some, List, [], ◌∷◌, arith}
use compose_manager.Base.{◌==◌, Bool-cases, or_false, length}
use compose_manager.Base.{any, filter, All, All-mono, All-filter}
use compose_manager.Base.{Text}
use compose_manager.Auth.Store.{
  User, SessionRow, Database, Host, AuthError, storage_failed, already_initialized, no_rows,
  same_nocase, create_initial_user, find_username, is_current, has_hash, create_session, find_id,
  select_session, delete_session_row,
}

-- No two rows of sessions have one hash.
unfoldable pub Distinct : List SessionRow → Type 0
Distinct [] = Unit
Distinct (row ∷ rows) = (any (has_hash row.token_hash) rows ≡ false) × Distinct rows

abbrev pub is_known_id : List User → SessionRow → Bool
is_known_id us row = any (λ u. u.id == row.user_id) us

-- There is at most one account, the hashes of the sessions are distinct, and each session is that of
-- an account.
pub record IsSound (db : Database) : Type 0 where
  pub one : length db.users ≤ 1
  pub distinct : Distinct db.sessions
  pub owned : All (λ row. is_known_id db.users row ≡ true) db.sessions

any-filter :
    (p q : SessionRow → Bool) (rows : List SessionRow)
    → any p rows ≡ false
    → any p (filter q rows) ≡ false
unfolding filter
any-filter p q [] h = refl
any-filter p q (row ∷ rows) h = ground (arith, any-filter p q rows)

Distinct-filter :
    (q : SessionRow → Bool) (rows : List SessionRow) → Distinct rows → Distinct (filter q rows)
unfolding filter Distinct
Distinct-filter q [] h = tt
Distinct-filter q (row ∷ rows) (h, hs) =
    if_cases Distinct (q row) (row ∷ filter q rows) (filter q rows)
      (λ e. (any-filter (has_hash row.token_hash) q rows h, Distinct-filter q rows hs))
      (λ e. Distinct-filter q rows hs)

-- The transactions keep the tables sound; a session is added only for an account.
pub create_initial_user-IsSound :
    (h : Host) (username password_hash : Text) (db : Database)
    → IsSound db
    → IsSound (create_initial_user h username password_hash db).1
unfolding create_initial_user
create_initial_user-IsSound h username password_hash db s =
    if_cases (λ (x : Outcome AuthError User × Database). IsSound x.1) (h.breaks count_users)
      (error storage_failed, db) _ (λ e. s)
      (λ e.
        if_cases (λ (x : Outcome AuthError User × Database). IsSound x.1)
          (not (length db.users == 0)) (error already_initialized, db) _ (λ e. s)
          (λ e.
            if_cases (λ (x : Outcome AuthError User × Database). IsSound x.1) (h.breaks insert_user)
              (error storage_failed, db) _ (λ e. s)
              (λ f. record {
                one = ground (arith, e);
                distinct = s.distinct;
                owned = All-mono (λ row known. ground (arith, known)) db.sessions s.owned;
              })))

pub create_session-IsSound :
    (h : Host) (user_id : ℕ) (token_hash csrf : Text) (expires_at : ℕ) (db : Database)
    → any (λ (u : User). u.id == user_id) db.users ≡ true
    → IsSound db
    → IsSound (create_session h user_id token_hash csrf expires_at db).1
unfolding create_session Distinct
create_session-IsSound h user_id token_hash csrf expires_at db known s =
    let live = filter (is_current h) db.sessions in
    if_cases (λ (x : Outcome AuthError Unit × Database). IsSound x.1)
      (h.breaks insert_session || any (has_hash token_hash) live) (error storage_failed, db) _
      (λ e. s)
      (λ e. record {
        one = s.one;
        distinct = (
          (or_false (h.breaks insert_session) (any (has_hash token_hash) live) e).1,
          Distinct-filter (is_current h) db.sessions s.distinct,
        );
        owned = (known, All-filter _ (is_current h) db.sessions s.owned);
      })

pub delete_session_row-IsSound :
    (h : Host) (token_hash : Text) (db : Database)
    → IsSound db
    → IsSound (delete_session_row h token_hash db).1
unfolding delete_session_row
delete_session_row-IsSound h token_hash db s =
    if_cases (λ (x : Outcome AuthError Unit × Database). IsSound x.1) (h.breaks delete_session)
      (error storage_failed, db) _ (λ e. s)
      (λ e. record {
        one = s.one;
        distinct = Distinct-filter _ db.sessions s.distinct;
        owned = All-filter _ _ db.sessions s.owned;
      })

abbrev has_id : ℕ → User → Bool
has_id id u = u.id == id

-- What a lookup by name finds: an account of that name, letters of ASCII alike.
pub find_username_lem :
    (username : Text) (us : List User) (u : User)
    → find_username username us ≡ done u
    → (same_nocase u.username username ≡ true)
      × ((any (has_id u.id) us ≡ true) × Exists (λ v. v ≡ u) us)
unfolding find_username
find_username_lem username [] u h = cc
find_username_lem username (v ∷ us) u h = elim (Bool-cases (same_nocase v.username username)) [
  | inl e ↦
      (let q : done v ≡ done u = rw e at h in
        let here : v ≡ u = done_inj v u q in
        let yes_id : (v.id == v.id) ≡ true = ground arith in
        rw⁻¹ here (e, (ground (arith, yes_id), inl refl)))
  | inr e ↦
      (let (n, (i, m)) = find_username_lem username us u (rw e at h) in
        (n, (ground (arith, i), inr m)))
]

find_id_known :
    (id : ℕ) (us : List User) → any (has_id id) us ≡ true → (u : User) × (find_id id us ≡ some u)
unfolding find_id
find_id_known id [] h = cc
find_id_known id (u ∷ us) h = elim (Bool-cases (u.id == id)) [
  | inl e ↦ (u, rw e refl)
  | inr e ↦ (let (v, q) = find_id_known id us (rw e at h) in (v, rw e q))
]

any_kept :
    (token_hash : Text) (rows : List SessionRow)
    → any (has_hash token_hash) (filter (λ row. not (has_hash token_hash row)) rows) ≡ false
unfolding filter
any_kept token_hash [] = refl
any_kept token_hash (row ∷ rows) = ground (arith, any_kept token_hash rows)

select_session-none :
    (h : Host) (token_hash : Text) (us : List User) (rows : List SessionRow)
    → any (has_hash token_hash) rows ≡ false
    → select_session h token_hash us rows ≡ error no_rows
unfolding select_session
select_session-none h token_hash us [] e = refl
select_session-none h token_hash us (row ∷ rows) e =
    ground (arith, select_session-none h token_hash us rows)

-- After the rows of a hash are deleted none is found.
pub select_session-deleted :
    (h : Host) (token_hash : Text) (us : List User) (rows : List SessionRow)
    → select_session h token_hash us (filter (λ row. not (has_hash token_hash row)) rows)
      ≡ error no_rows
select_session-deleted h token_hash us rows =
    select_session-none h token_hash us _ (any_kept token_hash rows)
