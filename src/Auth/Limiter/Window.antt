-- ===== src/Auth/Limiter/Window.antt =====
-- A run of failures within one window: the lockout that the limiter is for.
use compose_manager.Base.{Option-cases, Bool-cases, inl, inr}
use compose_manager.Auth.Limiter.{allow_item}
use compose_manager.Auth.Limiter.{allow_item}
use compose_manager.Base.{inl, inr}
use compose_manager.Base.{Bool-cases, Option-cases}
use compose_manager.Base.{Unique}
use compose_manager.Base.{ℕ, ◌+◌, ◌-◌, ◌≤◌, ◌<◌, ◌≡◌, refl}
use compose_manager.Base.{◌∙◌, true, false}
use compose_manager.Base.{none, some, List, [], ◌∷◌, arith, ltb, if◌then◌else◌}
use compose_manager.Base.{All, Text, same, same_iff, same_refl}
use compose_manager.Base.{lookup, lookup-insert, lookup-purge}
use compose_manager.Auth.Limiter.{Attempt, Limiter, is_over, cleaned, bumped, failure, allow}
use compose_manager.Auth.Limiter.Live.{live, failure-Unique, unless_over-cleaned, bumped-live}

-- Failures in their order, each a key and the time at which it is recorded.
pub fail_all : List (Text × ℕ) → Limiter → Limiter
fail_all [] l = l
fail_all ((j, t) ∷ es) l = fail_all es (failure j t l)

-- How many of the failures are of a key.
unfoldable pub tally : Text → List (Text × ℕ) → ℕ
tally key [] = 0
tally key ((j, t) ∷ es) = (if same j key then 1 else 0) + tally key es

pub limit-failure : (j : Text) (t : ℕ) (l : Limiter) → (failure j t l).limit ≡ l.limit
unfolding failure
limit-failure j t l = refl

limit-fail_all : (es : List (Text × ℕ)) (l : Limiter) → (fail_all es l).limit ≡ l.limit
unfolding fail_all
limit-fail_all [] l = refl
limit-fail_all ((j, t) ∷ es) l = limit-fail_all es (failure j t l) ∙ limit-failure j t l

lookup-cleaned :
    (key : Text) (t : ℕ) (l : Limiter) (item : Attempt)
    → Unique l.attempts
    → lookup key l.attempts ≡ some item
    → t ≤ item.reset
    → lookup key (cleaned t l) ≡ some item
unfolding cleaned is_over
lookup-cleaned key t l item u h le = ground (arith, lookup-purge (is_over t) key l.attempts u)

pub lookup-failure :
    (key j : Text) (t : ℕ) (l : Limiter) (item : Attempt)
    → Unique l.attempts
    → lookup key l.attempts ≡ some item
    → t ≤ item.reset
    → lookup key (failure j t l).attempts
      ≡ some (record item { count = (if same j key then 1 else 0) + item.count })
unfolding failure bumped
lookup-failure key j t l item u h le = ground (
  arith,
  lookup-cleaned key t l item u,
  same_iff j key,
  lookup-insert j key (bumped t l.window (lookup j (cleaned t l))) (cleaned t l),
)

lookup-fail_all :
    (key : Text) (r c : ℕ) (es : List (Text × ℕ)) (l : Limiter)
    → Unique l.attempts
    → lookup key l.attempts ≡ some (record { count = c; reset = r })
    → All (λ e. e.1 ≤ r) es
    → lookup key (fail_all es l).attempts ≡ some (record { count = tally key es + c; reset = r })
unfolding fail_all tally
lookup-fail_all key r c [] l u h within = ground arith
lookup-fail_all key r c ((j, t) ∷ es) l u h (here, later) =
    let c' = (if same j key then 1 else 0) + c in
    lookup-fail_all key r c' es (failure j t l) (failure-Unique j t l u)
      (lookup-failure key j t l (record { count = c; reset = r }) u h here) later
    ∙ ground arith

pub first_failure :
    (key : Text) (t : ℕ) (l : Limiter)
    → live l key t ≡ none
    → Unique l.attempts
    → lookup key (failure key t l).attempts ≡ some (record { count = 1; reset = t + l.window })
unfolding failure bumped live
first_failure key t l h u = ground (
  arith,
  lookup-insert key key (bumped t l.window (lookup key (cleaned t l))) (cleaned t l),
  same_refl key,
  unless_over-cleaned key t l u,
  bumped-live t l.window (lookup key (cleaned t l)),
)

-- What the limiter holds of the key after the run.
after_run :
    (key : Text) (t : ℕ) (es : List (Text × ℕ)) (l : Limiter)
    → Unique l.attempts
    → live l key t ≡ none
    → All (λ e. e.1 ≤ t + l.window) es
    → lookup key (fail_all es (failure key t l)).attempts
      ≡ some (record { count = tally key es + 1; reset = t + l.window })
after_run key t es l u h within =
    lookup-fail_all key (t + l.window) 1 es (failure key t l) (failure-Unique key t l u)
      (first_failure key t l h u) within

-- After a first failure of a key that has no live entry, and any further failures recorded within its
-- window, the limiter answers, until the window ends, that the key may try exactly if its failures are
-- fewer than the limit, and else that it must wait for what is left of the window.
pub lockout :
    (key : Text) (t now : ℕ) (es : List (Text × ℕ)) (l : Limiter)
    → Unique l.attempts
    → live l key t ≡ none
    → All (λ e. e.1 ≤ t + l.window) es
    → now ≤ t + l.window
    → (allow key now (fail_all es (failure key t l))).0
      ≡ (if ltb (tally key es + 1) l.limit then (true, 0) else (false, t + l.window - now))
unfolding allow
lockout key t now es l u h within le = ground (
  arith,
  after_run key t es l u h within,
  limit-fail_all es (failure key t l),
  limit-failure key t l,
)

-- After such failures, and once the window has ended, the key is let in again.
pub lockout_ends :
    (key : Text) (t now : ℕ) (es : List (Text × ℕ)) (l : Limiter)
    → Unique l.attempts
    → live l key t ≡ none
    → All (λ e. e.1 ≤ t + l.window) es
    → t + l.window < now
    → (allow key now (fail_all es (failure key t l))).0 ≡ (true, 0)
unfolding allow
lockout_ends key t now es l u h within le = ground (arith, after_run key t es l u h within)

-- A key with a live entry is answered by it, and nothing is dropped.
pub allow-entry :
    (key : Text) (now : ℕ) (l : Limiter) (item : Attempt)
    → lookup key l.attempts ≡ some item
    → now ≤ item.reset
    → allow key now l
      ≡ (if ltb item.count l.limit then ((true, 0), l) else ((false, item.reset - now), l))
unfolding allow allow_item is_over
allow-entry key now l item held within =
    let current : ltb item.reset now ≡ false = ground (arith, within) in rw (held, current) refl

-- No method changes what the limiter was made with.
pub allow-kept :
    (key : Text) (now : ℕ) (l : Limiter)
    → ((allow key now l).1.limit ≡ l.limit) × ((allow key now l).1.window ≡ l.window)
unfolding allow allow_item is_over
allow-kept key now l = elim (Option-cases (lookup key l.attempts)) [
  | inl e ↦ rw e (refl, refl)
  | inr (item, e) ↦ rw e (elim (Bool-cases (ltb item.reset now)) [
    | inl f ↦ rw f (refl, refl)
    | inr f ↦ rw f (elim (Bool-cases (ltb item.count l.limit)) [
      | inl g ↦ rw g (refl, refl)
      | inr g ↦ rw g (refl, refl)
    ])
  ])
]

-- A key that is asked for and fails within its window fails once more; asking changes nothing.
pub asked_failure :
    (key : Text) (now : ℕ) (l : Limiter) (item : Attempt)
    → Unique l.attempts
    → lookup key l.attempts ≡ some item
    → now ≤ item.reset
    → lookup key (failure key now (allow key now l).1).attempts
      ≡ some (record item { count = 1 + item.count })
asked_failure key now l item u held within =
    let same_limiter : (allow key now l).1 ≡ l =
      rw (allow-entry key now l item held within)
        (elim (Bool-cases (ltb item.count l.limit)) [ inl g ↦ rw g refl | inr g ↦ rw g refl ]) in
    rw (same_limiter, lookup-failure key key now l item u held within, same_refl) refl
