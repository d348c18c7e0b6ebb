-- ===== src/Api/Answers.antt =====
-- Requests and answers of backend/internal/api/server.go: `decodeJSON`, `writeJSON`, `writeError`. The
-- JSON of results is text.

use compose_manager.Base.{Outcome, done, error}
use compose_manager.Base.{if_cases, ℕ}
use compose_manager.Base.{◌≤◌, ◌≡◌}
use compose_manager.Base.{Bool, true, false, Option, none}
use compose_manager.Base.{arith, ltb, if◌then◌else◌}
use compose_manager.Base.{length, take, length-take}
use compose_manager.Base.{Text, codes}
use compose_manager.Base.{trim_space, Map}

pub record Request : Type 0 where
  pub method : Text
  pub path : Text
  pub body : Text
  pub cookies : Map Text
  pub origin : Text
  pub csrf_token : Text
  pub host : Text
  pub remote_addr : Text
  pub query : Map Text

pub record AuthStatus : Type 0 where
  pub setup_required : Bool
  pub authenticated : Bool
  pub username : Text
  pub csrf_token : Text

-- `result` holds the JSON of a value under a name, `warned` that of `data` beside a warning, `validated`
-- an output and a difference.
pub data Body : Type 0 where
  nothing : Body
  failed : Text → Text → Body
  auth : AuthStatus → Body
  result : Text → Text → Body
  warned : Text → Option Text → Body
  validated : Text → Text → Body

-- The session's cookie is left, set with its age in seconds and its expiry, or cleared.
pub data SetCookie : Type 0 where
  untouched cleared : SetCookie
  session : Text → ℕ → ℕ → SetCookie

pub record Response : Type 0 where
  pub status : ℕ
  pub body : Body
  pub cookie : SetCookie
  pub retry_after : Option ℕ

abbrev pub answer : ℕ → Body → Response
answer status body = record { status = status; body = body; cookie = untouched; retry_after = none }

-- `writeJSON` with the value under `data`.
abbrev pub write_data : ℕ → Text → Response
write_data status json = answer status (result (codes "data") json)

-- `publicError` of an error's text.
pub public_error : Text → Text
public_error text =
    if ltb 500 (length (trim_space text)) then take 500 (trim_space text) else trim_space text

-- `writeError`.
unfoldable pub write_error : ℕ → Text → Text → Response
write_error status code text = answer status (failed code (public_error text))

-- `decodeJSON`, on what the decoder makes of a body: its error, or the value and whether the body ends
-- there.
unfoldable pub decode_json {ℓ} : {A : Type ℓ} → Outcome Text (A × Bool) → Outcome Response A
decode_json (error text) = error (write_error 400 (codes "INVALID_JSON") text)
decode_json (done (a, true)) = done a
decode_json (done (a, false)) =
    error
      (write_error 400 (codes "INVALID_JSON") (codes "request must contain a single JSON value"))

not_over : (n : ℕ) → ltb 500 n ≡ false → n ≤ 500
not_over n e = ground arith

-- No error's text is passed on past 500 bytes.
pub length-public_error : (text : Text) → length (public_error text) ≤ 500
unfolding public_error
length-public_error text =
    if_cases (λ (t : Text). length t ≤ 500) (ltb 500 (length (trim_space text)))
      (take 500 (trim_space text)) (trim_space text)
      (λ e. omega (arith, length-take 500 (trim_space text)))
      (λ e. not_over (length (trim_space text)) e)
