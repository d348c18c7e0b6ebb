-- ===== src/Api/Routes/Guarded.antt =====
-- Requests to the server of backend/internal/api/server.go that change the service's state.

use compose_manager.Base.{◌⊎◌}
use compose_manager.Base.{Exists}
use compose_manager.Base.{◌≡◌, refl, sym, ◌∙◌}
use compose_manager.Base.{◌≢◌, inl, inr, Bool, true, false, not, ◌&&◌, ◌||◌, Option, none, some}
use compose_manager.Base.{List, [], ◌∷◌, arith, ◌==◌, if◌then◌else◌, Bool-cases, and_true}
use compose_manager.Base.{or_false, all, any}
use compose_manager.Base.{Text, codes, same, same_iff, is_empty, has_prefix}
use compose_manager.Auth.Store.{Host}
use compose_manager.Auth.Manager.{Secrets, valid_csrf}
use compose_manager.Api.Answers.{Request, Response}
use compose_manager.Api.Accounts.{Web}
use compose_manager.Api.Gate.{
  gate, gate_iff, IsAdmitted, is_open, is_safe, api_prefix, public_paths,
}
use compose_manager.Api.Service.{Decoders, Reads, Writes}
use compose_manager.Api.Routes.Table.{
  Handler, Writer, Route, routes, reader, writer, account, health, static,
}
use compose_manager.Api.Routes.{Mux, Values, State, handle, routed, served, serve}

-- The part of a pattern in front of its first wildcard.
unfoldable pub literal : Text → Text
literal [] = []
literal (c ∷ s) = let rest = literal s in if c == b'{' then [] else c ∷ rest

-- The method of a pattern is that of the request; none is every method, and GET is HEAD too.
unfoldable pub method_fits : Text → Text → Bool
method_fits wanted method =
    is_empty wanted
    || (same method wanted || (same wanted (codes "GET") && same method (codes "HEAD")))

-- What `net/http` documents of the choice of a route.
pub record IsMux (mux : Mux) : Type 0 where
  pub listed :
      (rs : List Route) (method path : Text) (route : Route) (values : Values)
      → mux.choose rs method path ≡ some (route, values)
      → Exists (λ x. x ≡ route) rs
  pub fits :
      (rs : List Route) (method path : Text) (route : Route) (values : Values)
      → mux.choose rs method path ≡ some (route, values)
      → method_fits route.method method ≡ true
  pub prefixed :
      (rs : List Route) (method path : Text) (route : Route) (values : Values)
      → mux.choose rs method path ≡ some (route, values)
      → has_prefix path (literal route.pattern) ≡ true

changes : Text → Bool
changes method =
    same method (codes "POST") || (same method (codes "PUT") || same method (codes "DELETE"))

guards : Text → Bool
guards prefix =
    has_prefix prefix api_prefix && not (any (λ path. has_prefix path prefix) public_paths)

abbrev is_writer : Handler → Bool
is_writer (writer x) = true
is_writer (reader x) = false
is_writer (account x) = false
is_writer health = false
is_writer static = false

abbrev previews : Writer → Bool
previews Writer.create_project = false
previews Writer.preview_project_removal = true
previews Writer.delete_project = false
previews Writer.project_action = false
previews Writer.save_project_web_access = false
previews Writer.validate_file = false
previews Writer.save_file = false
previews Writer.restore = false
previews Writer.save_workspace_file = false
previews Writer.create_workspace_directory = false
previews Writer.container_action = false
previews Writer.delete_image = false
previews Writer.run_update = false
previews Writer.put_settings = false

-- The preview of a deletion, which stores a ticket and is asked for by GET.
abbrev is_preview : Handler → Bool
is_preview (writer x) = previews x
is_preview (reader x) = false
is_preview (account x) = false
is_preview health = false
is_preview static = false

previews-lem : (x : Writer) → previews x ≡ true → writer x ≡ writer Writer.preview_project_removal
previews-lem Writer.create_project h = cc
previews-lem Writer.preview_project_removal h = refl
previews-lem Writer.delete_project h = cc
previews-lem Writer.project_action h = cc
previews-lem Writer.save_project_web_access h = cc
previews-lem Writer.validate_file h = cc
previews-lem Writer.save_file h = cc
previews-lem Writer.restore h = cc
previews-lem Writer.save_workspace_file h = cc
previews-lem Writer.create_workspace_directory h = cc
previews-lem Writer.container_action h = cc
previews-lem Writer.delete_image h = cc
previews-lem Writer.run_update h = cc
previews-lem Writer.put_settings h = cc

is_preview-lem : (x : Handler) → is_preview x ≡ true → x ≡ writer Writer.preview_project_removal
is_preview-lem (writer x) h = previews-lem x h
is_preview-lem (reader x) h = cc
is_preview-lem (account x) h = cc
is_preview-lem health h = cc
is_preview-lem static h = cc

checks : Route → Bool
checks route =
    not (is_writer route.handler)
    || ((is_preview route.handler || changes route.method) && guards (literal route.pattern))

routes-checked : all checks routes ≡ true
unfolding checks changes guards literal routes same has_prefix
routes-checked = refl

checked_of :
    (rs : List Route) (route : Route)
    → all checks rs ≡ true
    → Exists (λ x. x ≡ route) rs
    → checks route ≡ true
checked_of [] route h e = elim e [ ]
checked_of (x ∷ rs) route h (inl e) = rw⁻¹ e (and_true (checks x) (all checks rs) h).0
checked_of (x ∷ rs) route h (inr e) =
    checked_of rs route (and_true (checks x) (all checks rs) h).1 e

has_prefix_trans :
    (s p q : Text) → has_prefix s p ≡ true → has_prefix p q ≡ true → has_prefix s q ≡ true
unfolding has_prefix
has_prefix_trans s p [] h k = refl
has_prefix_trans s [] (d ∷ q) h k = cc
has_prefix_trans [] (c ∷ p) (d ∷ q) h k = cc
has_prefix_trans (b ∷ s) (c ∷ p) (d ∷ q) h k = ground (arith, has_prefix_trans s p q)

none_of :
    (path prefix : Text) (ps : List Text)
    → has_prefix path prefix ≡ true
    → any (λ p. has_prefix p prefix) ps ≡ false
    → any (same path) ps ≡ false
none_of path prefix [] h k = refl
none_of path prefix (p ∷ ps) h k =
    let (here, later) = or_false (has_prefix p prefix) _ k in
    elim (Bool-cases (same path p)) [
      | inl e ↦ (let q : true ≡ false = sym h ∙ (rw ((same_iff path p).0 e) here) in cc)
      | inr e ↦ rw e (none_of path prefix ps h later)
    ]

guards-lem :
    (path prefix : Text)
    → guards prefix ≡ true
    → has_prefix path prefix ≡ true
    → is_open path ≡ false
unfolding guards is_open
guards-lem path prefix g h =
    let (api, others) = and_true (has_prefix prefix api_prefix) _ g in
    let no_public : any (λ p. has_prefix p prefix) public_paths ≡ false = ground (arith, others) in
    rw (has_prefix_trans path prefix api_prefix h api, none_of path prefix public_paths h no_public)
      refl

-- A method other than GET fits itself alone.
fits_itself :
    (wanted method : Text)
    → is_empty wanted ≡ false
    → same wanted (codes "GET") ≡ false
    → is_safe wanted ≡ false
    → method_fits wanted method ≡ true
    → is_safe method ≡ false
unfolding method_fits
fits_itself wanted method full other unsafe f =
    let h : same method wanted ≡ true = ground (arith, f, full, other) in
    rw ((same_iff method wanted).0 h) unsafe

-- What a method that changes is not.
abbrev IsUnsafe : Text → Type 0
IsUnsafe wanted =
    (is_empty wanted ≡ false) × (same wanted (codes "GET") ≡ false) × (is_safe wanted ≡ false)

IsUnsafe-same : (wanted p : Text) → same wanted p ≡ true → IsUnsafe p → IsUnsafe wanted
IsUnsafe-same wanted p e u = rw ((same_iff wanted p).0 e) u

changes-IsUnsafe : (wanted : Text) → changes wanted ≡ true → IsUnsafe wanted
unfolding changes is_safe same
changes-IsUnsafe wanted c = elim (Bool-cases (same wanted (codes "POST"))) [
  | inl e ↦ IsUnsafe-same wanted (codes "POST") e (refl, refl, refl)
  | inr e ↦ elim (Bool-cases (same wanted (codes "PUT"))) [
    | inl f ↦ IsUnsafe-same wanted (codes "PUT") f (refl, refl, refl)
    | inr f ↦ IsUnsafe-same wanted (codes "DELETE") (rw (e, f) at c) (refl, refl, refl)
  ]
]

changes-lem :
    (wanted method : Text)
    → changes wanted ≡ true
    → method_fits wanted method ≡ true
    → is_safe method ≡ false
changes-lem wanted method c f =
    let (full, other, unsafe) = changes-IsUnsafe wanted c in
    fits_itself wanted method full other unsafe f

module _ {S : Type 0} (decoders : Decoders) (reads : Reads S) (writes : Writes S) where
  handle-service :
      (h : Host) (k : Secrets) (w : Web) (mux : Mux) (x : Handler) (values : Values) (r : Request)
      (state : State S)
      → is_writer x ≡ false
      → (handle decoders reads writes h k w mux x values r state).1.service ≡ state.service
  unfolding handle
  handle-service h k w mux (reader x) values r state e = refl
  handle-service h k w mux (writer x) values r state e = cc
  handle-service h k w mux (account x) values r state e = refl
  handle-service h k w mux health values r state e = refl
  handle-service h k w mux static values r state e = refl

  -- The route of the request is that of the preview of a deletion.
  Previews : Mux → Request → Type 0
  Previews mux r =
      (route : Route) × (values : Values) × ((mux.choose routes r.method r.path
          ≡ some (route, values))
        × (route.handler ≡ writer Writer.preview_project_removal))

  -- What a route that may change the state asks of the request.
  writer_guarded :
      (mux : Mux) (m : IsMux mux) (r : Request) (route : Route) (values : Values)
      → mux.choose routes r.method r.path ≡ some (route, values)
      → is_writer route.handler ≡ true
      → ((is_safe r.method ≡ false) ⊎ Previews mux r) × (is_open r.path ≡ false)
  unfolding checks Previews
  writer_guarded mux m r route values chosen e =
      let checked =
        checked_of routes route routes-checked
          (m.listed routes r.method r.path route values chosen) in
      let (asked, guarded) =
        and_true (is_preview route.handler || changes route.method) (guards (literal route.pattern))
          (rw e at checked) in
      (
        elim (Bool-cases (is_preview route.handler)) [
          | inl p ↦ inr (route, values, (chosen, is_preview-lem route.handler p))
          | inr p ↦ inl (
              changes-lem route.method r.method (rw p at asked)
                (m.fits routes r.method r.path route values chosen))
        ],
        guards-lem r.path (literal route.pattern) guarded
            (m.prefixed routes r.method r.path route values chosen),
      )

  routed-guarded :
      (h : Host) (k : Secrets) (w : Web) (mux : Mux) (m : IsMux mux) (r : Request) (state : State S)
      (o : Option (Route × Values))
      → mux.choose routes r.method r.path ≡ o
      → (routed decoders reads writes h k w mux r state o).1.service ≢ state.service
      → ((is_safe r.method ≡ false) ⊎ Previews mux r) × (is_open r.path ≡ false)
  unfolding routed
  routed-guarded h k w mux m r state none chosen changed = elim (changed refl) [ ]
  routed-guarded h k w mux m r state (some (route, values)) chosen changed =
      elim (Bool-cases (is_writer route.handler)) [
        | inl e ↦ writer_guarded mux m r route values chosen e
        | inr e ↦ elim (changed (handle-service h k w mux route.handler values r state e)) [ ]
      ]

  served-guarded :
      (h : Host) (k : Secrets) (w : Web) (mux : Mux) (m : IsMux mux) (r : Request) (state : State S)
      (o : Option Response)
      → gate h r state.server.auth ≡ o
      → (served decoders reads writes h k w mux r state o).1.service ≢ state.service
      → (a : IsAdmitted h r state.server.auth) × ((valid_csrf h a.session r.csrf_token ≡ true)
          ⊎ Previews mux r)
  unfolding served
  served-guarded h k w mux m r state (some response) passed changed = elim (changed refl) [ ]
  served-guarded h k w mux m r state none passed changed =
      let (asked, closed) = routed-guarded h k w mux m r state _ refl changed in
      elim ((gate_iff h r state.server.auth).0 passed) [
        | inl e ↦ (let q : true ≡ false = sym e ∙ closed in cc)
        | inr a ↦ (a, elim asked [ inl unsafe ↦ inl (a.token_valid unsafe) | inr p ↦ inr p ])
      ]

  -- A request that changes the service's state bears the cookie of a session that is authentic then, and
  -- that session's CSRF token, unless its route is that of the preview of a deletion, which stores a
  -- ticket and asks only for the session; wherever the multiplexer chooses routes as it is documented to.
  pub serve-guarded :
      (h : Host) (k : Secrets) (w : Web) (mux : Mux) (m : IsMux mux) (r : Request) (state : State S)
      → (serve decoders reads writes h k w mux r state).1.service ≢ state.service
      → (a : IsAdmitted h r state.server.auth) × ((valid_csrf h a.session r.csrf_token ≡ true)
          ⊎ ((route : Route) × (values : Values) × ((mux.choose routes r.method r.path
                  ≡ some (route, values))
                × (route.handler ≡ writer Writer.preview_project_removal))))
  unfolding serve Previews
  serve-guarded h k w mux m r state changed = served-guarded h k w mux m r state _ refl changed
