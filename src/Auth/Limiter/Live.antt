-- ===== src/Auth/Limiter/Live.antt =====
-- What a limiter remembers of a key at a time, and what each method makes of it.
use compose_manager.Base.{ℕ, ◌≡◌, Bool, true, Option, none, some, Text, arith}
use compose_manager.Base.{ltb, if◌then◌else◌, same, same_iff, lookup, Unique, lookup-insert}
use compose_manager.Base.{lookup-remove, lookup-purge, Unique-insert, Unique-remove, Unique-purge}
use compose_manager.Auth.Limiter.{Attempt, Limiter, is_over, allow, cleaned, bumped}
use compose_manager.Auth.Limiter.{failure, success}

abbrev pub unless_over : ℕ → Option Attempt → Option Attempt
unless_over now none = none
unless_over now (some item) = if ltb item.reset now then none else some item

-- The entry of a key whose window has not ended.
unfoldable pub live : Limiter → Text → ℕ → Option Attempt
live l key now = unless_over now (lookup key l.attempts)

abbrev pub has_room : ℕ → Option Attempt → Bool
has_room limit none = true
has_room limit (some item) = ltb item.count limit

-- The answer of `allow` is a function of the live entry.
pub allow-live :
    (key : Text) (now : ℕ) (l : Limiter) → (allow key now l).0.0 ≡ has_room l.limit (live l key now)
unfolding allow live
allow-live key now l = ground arith

-- `allow` changes no live entry.
pub live-allow :
    (key j : Text) (now : ℕ) (l : Limiter) → live (allow key now l).1 j now ≡ live l j now
unfolding allow live
live-allow key j now l = ground (arith, lookup-remove key j l.attempts, same_iff key j)

-- The cleanup of a full table drops no live entry.
pub unless_over-cleaned :
    (j : Text) (now : ℕ) (l : Limiter)
    → Unique l.attempts
    → unless_over now (lookup j (cleaned now l)) ≡ live l j now
unfolding live cleaned
unless_over-cleaned j now l u = ground (arith, lookup-purge (is_over now) j l.attempts u)

pub bumped-live :
    (now window : ℕ) (o : Option Attempt)
    → bumped now window o ≡ bumped now window (unless_over now o)
unfolding bumped
bumped-live now window o = ground arith

-- A failure counts for its own key, starting a window where none is live, and for no other key,
-- whether or not the table was cleaned.
pub live-failure :
    (key j : Text) (now : ℕ) (l : Limiter)
    → Unique l.attempts
    → live (failure key now l) j now ≡ (
        if same key j
        then unless_over now (some (bumped now l.window (live l key now)))
        else live l j now)
unfolding failure live
live-failure key j now l u = ground (
  arith,
  lookup-insert key j (bumped now l.window (lookup key (cleaned now l))) (cleaned now l),
  unless_over-cleaned key now l u,
  unless_over-cleaned j now l u,
  bumped-live now l.window (lookup key (cleaned now l)),
)

Unique-cleaned : (now : ℕ) (l : Limiter) → Unique l.attempts → Unique (cleaned now l)
unfolding cleaned
Unique-cleaned now l u = ground (arith, Unique-purge (is_over now) l.attempts u)

-- No method makes a key stand twice.
pub failure-Unique :
    (key : Text) (now : ℕ) (l : Limiter) → Unique l.attempts → Unique (failure key now l).attempts
unfolding failure
failure-Unique key now l u = Unique-insert key _ (cleaned now l) (Unique-cleaned now l u)

pub allow-Unique :
    (key : Text) (now : ℕ) (l : Limiter) → Unique l.attempts → Unique (allow key now l).1.attempts
unfolding allow
allow-Unique key now l u = ground (arith, Unique-remove key l.attempts u)

-- A success forgets its own key and no other.
pub live-success :
    (key j : Text) (now : ℕ) (l : Limiter)
    → live (success key l) j now ≡ (if same key j then none else live l j now)
unfolding success live
live-success key j now l = ground (arith, lookup-remove key j l.attempts)
