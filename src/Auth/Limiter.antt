-- ===== src/Auth/Limiter.antt =====
-- The failure limiter of backend/internal/auth/limiter.go. Times are nanoseconds; the wall clock
-- that each method reads is its argument `now`, and the mutex makes each method one step.
pub mod Live
pub mod Window
mod Tests
use compose_manager.Base.{ℕ, ◌+◌, ◌-◌, Bool, true, false, Option, none, some, [], Text}
use compose_manager.Base.{ltb, leb, if◌then◌else◌, length, Map, lookup, insert, remove, purge}

pub record Attempt : Type 0 where
  pub count : ℕ
  pub reset : ℕ

pub record Limiter : Type 0 where
  pub attempts : Map Attempt
  pub limit : ℕ
  pub window : ℕ

abbrev pub limiter_cleanup_threshold : ℕ
limiter_cleanup_threshold = 4096

unfoldable pub new_limiter : ℕ → ℕ → Limiter
new_limiter limit window = record { attempts = []; limit = limit; window = window }

-- `now.After(item.reset)`.
pub is_over : ℕ → Attempt → Bool
is_over now item = ltb item.reset now

pub allow_item : Text → ℕ → Limiter → Option Attempt → (Bool × ℕ) × Limiter
unfolding is_over
allow_item key now l none = ((true, 0), record l { attempts = remove key l.attempts })
allow_item key now l (some item) =
    if is_over now item
    then ((true, 0), record l { attempts = remove key l.attempts })
    else if ltb item.count l.limit
    then ((true, 0), l)
    else ((false, item.reset - now), l)

-- Whether a login may be tried, and how long to wait where it may not.
unfoldable pub allow : Text → ℕ → Limiter → (Bool × ℕ) × Limiter
unfolding allow_item
allow key now l = allow_item key now l (lookup key l.attempts)

-- The entries after the cleanup of a full table.
pub cleaned : ℕ → Limiter → Map Attempt
unfolding is_over
cleaned now l =
    if leb limiter_cleanup_threshold (length l.attempts)
    then purge (is_over now) l.attempts
    else l.attempts

-- The entry that a failure leaves.
pub bumped : ℕ → ℕ → Option Attempt → Attempt
unfolding is_over
bumped now window none = record { count = 1; reset = now + window }
bumped now window (some item) =
    if is_over now item
    then record { count = 1; reset = now + window }
    else record item { count = item.count + 1 }

unfoldable pub failure : Text → ℕ → Limiter → Limiter
unfolding cleaned bumped
failure key now l =
    let attempts = cleaned now l in
    record l { attempts = insert key (bumped now l.window (lookup key attempts)) attempts }

pub success : Text → Limiter → Limiter
success key l = record l { attempts = remove key l.attempts }
