-- ===== src/Compose/Runner.antt =====
-- The arguments of docker compose and the writer of its output: backend/internal/compose/runner.go.
mod Tests
use compose_manager.Base.{
  if_cases, text_lt, put_sorted, sort_by, All-sort_by, Never, Exists, Exists-mono, Exists-of_any, ℕ,
  zero, suc, ◌+◌, ◌-◌,
}
use compose_manager.Base.{◌*◌, ◌/◌, ◌%◌, ◌^◌, ◌≤◌, ◌<◌, ◌≡◌, refl, sym, ap, ◌∙◌, ◌≢◌, ◌↔◌, ◌⊎◌}
use compose_manager.Base.{
  inl, inr, Bool, true, false, not, ◌&&◌, ◌||◌, Option, none, some, List, [], ◌∷◌,
}
use compose_manager.Base.{
  ◌++◌, map, arith, ltb, leb, ◌==◌, if◌then◌else◌, ==_iff, Bool-cases, Option-cases, and_true,
  and_intro, or_false, length,
}
use compose_manager.Base.{
  take, drop, all, any, filter, length-append, length-take, length-drop, take-append-drop, All,
  All-append, All-mono, All-filter, All-filter_test,
}
use compose_manager.Base.{
  All-of_all, length-filter, All-of_any, Text, codes, same, same_iff, same_refl, same_sym, is_empty,
  has_prefix, contains, has_byte, split,
}
use compose_manager.Base.{
  join, is_space, trim_left, trim_right, trim_space, lower_byte, to_lower, last_piece, but_last,
  Map, lookup, insert, remove, purge,
}
use compose_manager.Base.{
  lookup-insert, lookup-remove, Unique, Unique-insert, Unique-remove, unless, lookup-purge,
  Unique-purge,
}
use compose_manager.Filepath.{dir}
use compose_manager.Compose.Identifier.{is_identifier}

pub data Action : Type 0 where
  start apply stop restart pull logs config unsupported : Action

abbrev with_service : List Text → Text → List Text
with_service args service = if is_empty service then args else args ++ service ∷ []

-- The bounds of the number of lines.
abbrev pub clamp_tail : ℕ → ℕ
clamp_tail tail = if ltb tail 1 then 200 else if ltb 5000 tail then 5000 else tail

-- `strconv.Itoa` of a number is a parameter, `itoa`.
pub action_args : (ℕ → Text) → Action → Text → ℕ → Option (List Text)
action_args itoa start service tail = some (codes "up" ∷ codes "-d" ∷ [])
action_args itoa apply service tail = some (codes "up" ∷ codes "-d" ∷ [])
action_args itoa stop service tail = some (codes "stop" ∷ [])
action_args itoa restart service tail = some (codes "restart" ∷ [])
action_args itoa pull service tail = some (with_service (codes "pull" ∷ []) service)
action_args itoa logs service tail = some (
    with_service (codes "logs" ∷ codes "--no-color" ∷ codes "--tail" ∷ itoa (clamp_tail tail) ∷ [])
      service)
action_args itoa config service tail = some (codes "config" ∷ codes "--quiet" ∷ [])
action_args itoa unsupported service tail = none

abbrev pub project_args : Text → Text → List Text
project_args key file =
    codes "compose"
    ∷ codes "-f"
    ∷ file
    ∷ codes "--project-directory"
    ∷ dir file
    ∷ codes "--project-name"
    ∷ key
    ∷ []

-- Whether `RunWithProgress` accepts the names.
abbrev pub names_valid : Text → Text → Bool
names_valid key service = is_identifier key && (is_empty service || is_identifier service)

pub after_project : Text → Text → Option (List Text) → Option (List Text)
after_project key file none = none
after_project key file (some rest) = some (project_args key file ++ rest)

-- The arguments that `RunWithProgress` passes, if it runs the command at all.
pub run_args : (ℕ → Text) → Text → Text → Action → Text → ℕ → Option (List Text)
run_args itoa key file action service tail =
    let args = after_project key file (action_args itoa action service tail) in
    if names_valid key service then args else none

-- The writer; `emitted` are the lines given to the callback, the newest last.
pub record ProgressWriter : Type 0 where
  pub output : Text
  pub pending : Text
  pub remaining : ℕ
  pub emitted : List Text

-- A carriage return ends a line, alone or before a line feed.
pub normalise : Text → Text
normalise [] = []
normalise (c ∷ []) = (if c == 13 then 10 else c) ∷ []
normalise (c ∷ d ∷ s) =
    let both = normalise s in
    let one = normalise (d ∷ s) in
    if (c == 13) && (d == 10) then 10 ∷ both else if c == 13 then 10 ∷ one else c ∷ one

abbrev is_line : Text → Bool
is_line line = not (is_empty line)

-- `emitLines`.
pub emit_lines : Bool → ProgressWriter → ProgressWriter
emit_lines flush w =
    let parts = split 10 (normalise w.pending) in
    let whole = record w { pending = []; emitted = w.emitted ++ filter is_line parts } in
    let partial = record w {
      pending = last_piece parts;
      emitted = w.emitted ++ filter is_line (but_last parts);
    } in
    if flush then whole else partial

-- `Write`, with or without a callback.
pub write : Bool → Text → ProgressWriter → ProgressWriter
write has_callback p w =
    let kept = take w.remaining p in
    let w1 = record w { output = w.output ++ kept; remaining = w.remaining - length kept } in
    let w2 = emit_lines false (record w1 { pending = w1.pending ++ kept }) in
    if w.remaining == 0 then w else if has_callback then w2 else w1

pub new_writer : ProgressWriter
new_writer = record { output = []; pending = []; remaining = 1048576; emitted = [] }

pub write_all : Bool → List Text → ProgressWriter → ProgressWriter
write_all has_callback [] w = w
write_all has_callback (p ∷ ps) w = write_all has_callback ps (write has_callback p w)

write-sum :
    (b : Bool) (p : Text) (w : ProgressWriter)
    → length (write b p w).output + (write b p w).remaining ≡ length w.output + w.remaining
unfolding write emit_lines
write-sum b p w =
    ground (arith, length-append w.output (take w.remaining p), length-take w.remaining p)

write_all-sum :
    (b : Bool) (ps : List Text) (w : ProgressWriter)
    → length (write_all b ps w).output + (write_all b ps w).remaining
      ≡ length w.output + w.remaining
unfolding write_all
write_all-sum b [] w = refl
write_all-sum b (p ∷ ps) w = write_all-sum b ps (write b p w) ∙ write-sum b p w

-- Whatever the command prints, and in whatever pieces, the output that is kept is at most 2^20 bytes.
pub write_all-bound :
    (b : Bool) (ps : List Text) → length (write_all b ps new_writer).output ≤ 1048576
unfolding new_writer
write_all-bound b ps = omega (arith, write_all-sum b ps new_writer)

after_project-rest :
    (key file : Text) (o : Option (List Text)) (args : List Text)
    → after_project key file o ≡ some args
    → (rest : List Text) × ((o ≡ some rest) × (args ≡ project_args key file ++ rest))
unfolding after_project
after_project-rest key file none args h = cc
after_project-rest key file (some rest) args h = (rest, (refl, cc))

-- An identifier does not read as an option.
is_identifier-plain : (s : Text) → is_identifier s ≡ true → has_prefix s (codes "-") ≡ false
unfolding is_identifier has_prefix
is_identifier-plain [] h = refl
is_identifier-plain (c ∷ s) h = ground (arith, h)

service-plain :
    (service : Text)
    → (is_empty service || is_identifier service) ≡ true
    → has_prefix service (codes "-") ≡ false
unfolding has_prefix
service-plain [] h = refl
service-plain (c ∷ s) h = is_identifier-plain (c ∷ s) h

-- Arguments that are passed are `compose`, the file, its directory and the project's name, each behind
-- the option that names it, then those of the action; the project's name is an identifier, the service
-- is one or empty, and neither begins with a dash.
pub run_args-valid :
    (itoa : ℕ → Text) (key file : Text) (action : Action) (service : Text) (tail : ℕ)
    (args : List Text)
    → run_args itoa key file action service tail ≡ some args
    → ((rest : List Text) × ((action_args itoa action service tail ≡ some rest)
          × (args
              ≡ codes "compose"
                ∷ codes "-f"
                ∷ file
                ∷ codes "--project-directory"
                ∷ dir file
                ∷ codes "--project-name"
                ∷ key
                ∷ rest)))
      × (is_identifier key ≡ true)
      × ((is_empty service || is_identifier service) ≡ true)
      × (has_prefix key (codes "-") ≡ false)
      × (has_prefix service (codes "-") ≡ false)
unfolding run_args
run_args-valid itoa key file action service tail args h =
    elim (Bool-cases (names_valid key service)) [
      | inr e ↦ (let h' : none ≡ some args = rw e at h in cc)
      | inl e ↦
          (let (k, s) =
              and_true (is_identifier key) (is_empty service || is_identifier service) e in
            (
              after_project-rest key file (action_args itoa action service tail) args (rw e at h),
              k,
              s,
              is_identifier-plain key k,
              service-plain service s,
            ))
    ]
