-- ===== src/App/Removal/Delete/Tickets.antt =====
-- The tickets of the previews, PreviewProjectRemoval, and the guards of DeleteProject, of
-- backend/internal/app/project_removal.go.
use compose_manager.Base.{ℕ, ◌+◌}
use compose_manager.Base.{◌≤◌, ◌≡◌, refl, ◌⊎◌, inl}
use compose_manager.Base.{inr, Bool, true, false, not, ◌&&◌, Option, none, some, [], ◌∷◌}
use compose_manager.Base.{arith, ltb, leb, if◌then◌else◌, Bool-cases, and_true, length}
use compose_manager.Base.{Text, same, same_iff, same_refl}
use compose_manager.Base.{Map, lookup, insert, remove, purge}
use compose_manager.Base.{lookup-remove}
use compose_manager.App.Removal.{RemovalPlan, PlanError, Planned, planned, refused, Blocked}
use compose_manager.App.Removal.Plan.{removal_plan}
use compose_manager.App.Removal.Delete.{Env, RemovalRequest, Report, audit_started, execute}

pub record RemovalTicket : Type 0 where
  pub key : Text
  pub fingerprint : Text
  pub expires : ℕ

-- The part of the service that the removals share; the times are seconds.
pub record Service : Type 0 where
  pub tickets : Map RemovalTicket
  pub other_operations : Bool
  pub updating : Bool

pub data PreviewError : Type 0 where
  no_plan : PlanError → PreviewError
  no_token too_many_previews : PreviewError

abbrev is_expired : ℕ → RemovalTicket → Bool
is_expired now t = ltb t.expires now

-- The ticket of a plan, kept for ten minutes.
abbrev pub ticket_for : Env → Text → RemovalPlan → RemovalTicket
ticket_for env key plan = record {
  key = key;
  fingerprint = env.fingerprint plan;
  expires = env.now + 600;
}

pub keep_ticket :
    Env → Service → Text → Text → RemovalPlan → (PreviewError ⊎ (Text × RemovalPlan)) × Service
keep_ticket env s key id plan =
    let live = purge (is_expired env.now) s.tickets in
    let full = record s { tickets = live } in
    let kept = record s { tickets = insert id (ticket_for env key plan) live } in
    if leb 64 (length live) then (inl too_many_previews, full) else (inr (id, plan), kept)

-- `PreviewProjectRemoval`; the token is that of `updateTaskID`, or its error.
pub preview_project_removal :
    Env → Service → Text → Option Text → (PreviewError ⊎ (Text × RemovalPlan)) × Service
preview_project_removal env s key token = elim (removal_plan (env.world []) key) [
  | refused e ↦ (inl (no_plan e), s)
  | planned plan ↦ elim token [ none ↦ (inl no_token, s) | some id ↦ keep_ticket env s key id plan ]
]

-- Why a request is refused before anything is done.
pub data Refusal : Type 0 where
  busy update_running ticket_invalid plan_changed name_differs audit_failed : Refusal
  plan_failed : PlanError → Refusal
  directory_refused : Blocked → Refusal

unfoldable pub ticket_valid : Env → Text → Option RemovalTicket → Option RemovalTicket
ticket_valid env key none = none
ticket_valid env key (some t) = if same t.key key && leb env.now t.expires then some t else none

unfoldable pub refused_directory : RemovalPlan → RemovalRequest → Option Blocked
refused_directory plan request = if request.directory then plan.directory_blocked else none

abbrev pub start_report : Report
start_report = record { trace = audit_started ∷ []; deleted = []; retained = []; errors = [] }

unfoldable pub unblocked : Env → RemovalPlan → RemovalRequest → Option Blocked → Refusal ⊎ Report
unblocked env plan request (some b) = inl (directory_refused b)
unblocked env plan request none =
    if env.answers [] audit_started
    then inr (execute env plan request start_report)
    else inl audit_failed

-- From the plan that is made anew on.
unfoldable pub delete_planned :
    Env → RemovalTicket → RemovalRequest → RemovalPlan → Refusal ⊎ Report
delete_planned env t request plan =
    let run = unblocked env plan request (refused_directory plan request) in
    if not (same t.fingerprint (env.fingerprint plan))
    then inl plan_changed
    else if not (same request.name plan.name)
    then inl name_differs
    else run

unfoldable pub delete_replanned :
    Env → RemovalTicket → RemovalRequest → Planned RemovalPlan → Refusal ⊎ Report
delete_replanned env t request (refused e) = inl (plan_failed e)
delete_replanned env t request (planned plan) = delete_planned env t request plan

unfoldable pub delete_ticketed :
    Env → Text → RemovalRequest → Option RemovalTicket → Refusal ⊎ Report
delete_ticketed env key request none = inl ticket_invalid
delete_ticketed env key request (some t) =
    delete_replanned env t request (removal_plan (env.world []) key)

-- `DeleteProject`: the ticket is spent whatever comes of it.
unfoldable pub delete_project : Env → Service → Text → RemovalRequest → (Refusal ⊎ Report) × Service
delete_project env s key request =
    let spent = record s { tickets = remove request.token s.tickets } in
    let outcome =
      delete_ticketed env key request (ticket_valid env key (lookup request.token s.tickets)) in
    if s.other_operations
    then (inl busy, s)
    else if s.updating
    then (inl update_running, s)
    else (outcome, spent)

-- Two requests with one token, whatever their projects, with no other operation and no update under
-- way at the first, and none at the second: the second is refused for its ticket.
pub delete_twice :
    (env later : Env) (s : Service) (key other : Text) (request again : RemovalRequest)
    → s.other_operations ≡ false
    → s.updating ≡ false
    → again.token ≡ request.token
    → (delete_project later (delete_project env s key request).1 other again).0 ≡ inl ticket_invalid
unfolding delete_project delete_ticketed ticket_valid
delete_twice env later s key other request again o u t =
    rw (o, u, t, lookup-remove request.token request.token s.tickets, same_refl request.token) refl

-- What a ticket that is accepted says.
pub record Accepted (env : Env) (s : Service) (key : Text) (request : RemovalRequest)
    (report : Report) : Type 0 where
  pub ticket : RemovalTicket
  pub plan : RemovalPlan
  pub found : lookup request.token s.tickets ≡ some ticket
  pub own_key : ticket.key ≡ key
  pub in_time : env.now ≤ ticket.expires
  pub replanned : removal_plan (env.world []) key ≡ planned plan
  pub unchanged : ticket.fingerprint ≡ env.fingerprint plan
  pub named : request.name ≡ plan.name
  pub free : request.directory ≡ true → plan.directory_blocked ≡ none
  pub audited : env.answers [] audit_started ≡ true
  pub executed : report ≡ execute env plan request start_report

unblocked_lem :
    (env : Env) (plan : RemovalPlan) (request : RemovalRequest) (o : Option Blocked)
    (report : Report)
    → unblocked env plan request o ≡ inr report
    → (o ≡ none)
      × ((env.answers [] audit_started ≡ true) × (report ≡ execute env plan request start_report))
unfolding unblocked
unblocked_lem env plan request (some b) report h = cc
unblocked_lem env plan request none report h = elim (Bool-cases (env.answers [] audit_started)) [
  | inl e ↦
      (let h' : inr (execute env plan request start_report) ≡ inr report = rw e at h in
        (refl, (e, cc)))
  | inr e ↦ (let h' : inl audit_failed ≡ inr report = rw e at h in cc)
]

delete_planned_lem :
    (env : Env) (t : RemovalTicket) (request : RemovalRequest) (plan : RemovalPlan)
    (report : Report)
    → delete_planned env t request plan ≡ inr report
    → (same t.fingerprint (env.fingerprint plan) ≡ true)
      × ((same request.name plan.name ≡ true)
          × (unblocked env plan request (refused_directory plan request) ≡ inr report))
unfolding delete_planned
delete_planned_lem env t request plan report h =
    elim (Bool-cases (same t.fingerprint (env.fingerprint plan))) [
      | inr e ↦ (let h' : inl plan_changed ≡ inr report = rw e at h in cc)
      | inl e ↦ elim (Bool-cases (same request.name plan.name)) [
        | inr n ↦ (let h' : inl name_differs ≡ inr report = rw (e, n) at h in cc)
        | inl n ↦ (e, (n, rw (e, n) at h))
      ]
    ]

refused_directory_lem :
    (plan : RemovalPlan) (request : RemovalRequest)
    → refused_directory plan request ≡ none
    → request.directory ≡ true
    → plan.directory_blocked ≡ none
unfolding refused_directory
refused_directory_lem plan request h d = rw d at h

ticket_valid_lem :
    (env : Env) (key : Text) (o : Option RemovalTicket) (t : RemovalTicket)
    → ticket_valid env key o ≡ some t
    → (o ≡ some t) × ((t.key ≡ key) × (env.now ≤ t.expires))
unfolding ticket_valid
ticket_valid_lem env key none t h = cc
ticket_valid_lem env key (some u) t h =
    elim (Bool-cases (same u.key key && leb env.now u.expires)) [
      | inr e ↦ (let h' : none ≡ some t = rw e at h in cc)
      | inl e ↦
          (let h' : some u ≡ some t = rw e at h in
            let (k, l) = and_true (same u.key key) (leb env.now u.expires) e in
            let q : u ≡ t = cc in rw⁻¹ q (refl, ((same_iff u.key key).0 k, ground (arith, l))))
    ]

Accepted-of_plan :
    (env : Env) (s : Service) (key : Text) (request : RemovalRequest) (report : Report)
    (t : RemovalTicket) (o : Planned RemovalPlan)
    → ticket_valid env key (lookup request.token s.tickets) ≡ some t
    → removal_plan (env.world []) key ≡ o
    → delete_replanned env t request o ≡ inr report
    → Accepted env s key request report
unfolding delete_replanned
Accepted-of_plan env s key request report t (refused e) v p h = cc
Accepted-of_plan env s key request report t (planned plan) v p h =
    let (found, (own, time)) = ticket_valid_lem env key (lookup request.token s.tickets) t v in
    let (digest, (name, rest)) = delete_planned_lem env t request plan report h in
    let (free, (audit, run)) =
      unblocked_lem env plan request (refused_directory plan request) report rest in
    record {
      ticket = t;
      plan = plan;
      found = found;
      own_key = own;
      in_time = time;
      replanned = p;
      unchanged = (same_iff t.fingerprint (env.fingerprint plan)).0 digest;
      named = (same_iff request.name plan.name).0 name;
      free = refused_directory_lem plan request free;
      audited = audit;
      executed = run;
    }

Accepted-of_ticket :
    (env : Env) (s : Service) (key : Text) (request : RemovalRequest) (report : Report)
    (o : Option RemovalTicket)
    → ticket_valid env key (lookup request.token s.tickets) ≡ o
    → delete_ticketed env key request o ≡ inr report
    → Accepted env s key request report
unfolding delete_ticketed
Accepted-of_ticket env s key request report none v h = cc
Accepted-of_ticket env s key request report (some t) v h =
    Accepted-of_plan env s key request report t (removal_plan (env.world []) key) v refl h

-- A request that is executed: its token is that of a ticket of this project, not expired; the plan made
-- anew has the digest of the ticket and the name of the request, and its directory is free if the
-- request removes it; the first audit record is written; and what is done is `execute` on that plan.
pub delete_project-Accepted :
    (env : Env) (s : Service) (key : Text) (request : RemovalRequest) (report : Report)
    → (delete_project env s key request).0 ≡ inr report
    → Accepted env s key request report
unfolding delete_project
delete_project-Accepted env s key request report h = elim (Bool-cases s.other_operations) [
  | inl e ↦ (let h' : inl busy ≡ inr report = rw e at h in cc)
  | inr e ↦ elim (Bool-cases s.updating) [
    | inl u ↦ (let h' : inl update_running ≡ inr report = rw (e, u) at h in cc)
    | inr u ↦
        Accepted-of_ticket env s key request report
          (ticket_valid env key (lookup request.token s.tickets)) refl (rw (e, u) at h)
  ]
]
