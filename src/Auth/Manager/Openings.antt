-- ===== src/Auth/Manager/Openings.antt =====
-- What `newSession` of backend/internal/auth/manager.go does to the database.

use compose_manager.Auth.Store.Transactions.{create_session-users}
use compose_manager.Auth.Manager.{no_randomness}
use compose_manager.Auth.Manager.{Secrets, Manager, Login, new_session, finish_session}
use compose_manager.Auth.Store.{User, Database, Host, AuthError, create_session}
use compose_manager.Base.{Outcome, done, error, done_inj}
use compose_manager.Base.{ℕ, ◌+◌}
use compose_manager.Base.{◌≡◌, refl, inl, inr}
use compose_manager.Base.{Option-cases}
use compose_manager.Base.{Text}

abbrev login_of : Host → Manager → User → Text → Text → Login
login_of h m u token csrf = record {
  username = u.username;
  session_token = token;
  csrf_token = csrf;
  expires_at = h.now + m.ttl;
}

-- What `newSession` did: the login and the transaction that stored it.
pub record IsOpened (h : Host) (u : User) (m : Manager) (l : Login) (m' : Manager) : Type 0 where
  pub named : l.username ≡ u.username
  pub expiry : l.expires_at ≡ h.now + m.ttl
  pub stored :
      (create_session h u.id (h.sha256 l.session_token) l.csrf_token l.expires_at m.database).0
      ≡ done tt
  pub left :
      m'.database
      ≡ (create_session h u.id (h.sha256 l.session_token) l.csrf_token l.expires_at m.database).1

finished :
    (h : Host) (u : User) (m : Manager) (token csrf : Text) (l : Login)
    (o : Outcome AuthError (Unit {0}) × Database)
    → create_session h u.id (h.sha256 token) csrf (h.now + m.ttl) m.database ≡ o
    → (finish_session m (login_of h m u token csrf) o).0 ≡ done l
    → IsOpened h u m l (finish_session m (login_of h m u token csrf) o).1
finished h u m token csrf l (error e, db) made q = cc
finished h u m token csrf l (done tt, db) made q =
    let same_login : login_of h m u token csrf ≡ l = done_inj _ _ q in
    rw⁻¹ same_login
      (record { named = refl; expiry = refl; stored = rw made refl; left = rw made refl })

pub new_session-IsOpened :
    (h : Host) (k : Secrets) (u : User) (m : Manager) (l : Login)
    → (new_session h k u m).0 ≡ done l
    → IsOpened h u m l (new_session h k u m).1
unfolding new_session
new_session-IsOpened h k u m l q = elim (Option-cases k.session_token) [
  | inl e ↦ (let q' : error no_randomness ≡ done l = rw e at q in cc)
  | inr (token, e) ↦ elim (Option-cases k.csrf_token) [
    | inl f ↦ (let q' : error no_randomness ≡ done l = rw (e, f) at q in cc)
    | inr (csrf, f) ↦ rw (e, f) (finished h u m token csrf l _ refl (rw (e, f) at q))
  ]
]

finish_session-database :
    (m : Manager) (l : Login) (o : Outcome AuthError (Unit {0}) × Database)
    → (finish_session m l o).1.database ≡ o.1
finish_session-database m l (error e, db) = refl
finish_session-database m l (done u, db) = refl

-- A predicate of databases that `CreateSession` keeps is kept by `newSession`.
pub new_session-kept :
    (P : Database → Type 0) (h : Host) (k : Secrets) (u : User) (m : Manager)
    → ((token_hash csrf : Text) (expires_at : ℕ)
        → P (create_session h u.id token_hash csrf expires_at m.database).1)
    → P m.database
    → P (new_session h k u m).1.database
unfolding new_session
new_session-kept P h k u m step p = elim (Option-cases k.session_token) [
  | inl e ↦ rw e p
  | inr (token, e) ↦ elim (Option-cases k.csrf_token) [
    | inl f ↦ rw (e, f) p
    | inr (csrf, f) ↦
        rw (e, f, finish_session-database) (step (h.sha256 token) csrf (h.now + m.ttl))
  ]
]

pub new_session-users :
    (h : Host) (k : Secrets) (u : User) (m : Manager)
    → (new_session h k u m).1.database.users ≡ m.database.users
new_session-users h k u m =
    new_session-kept (λ db. db.users ≡ m.database.users) h k u m
      (λ token_hash csrf expires_at.
        create_session-users h u.id token_hash csrf expires_at m.database)
      refl
