-- ===== src/Auth/Limiter/Tests.antt =====
-- The limiter of backend/internal/auth/limiter.go at concrete times.
use compose_manager.Base.{ℕ}
use compose_manager.Base.{◌≡◌, refl}
use compose_manager.Base.{true, false, List, [], ◌∷◌}
use compose_manager.Base.{arith}
use compose_manager.Base.{Text, codes, same}
use compose_manager.Base.{lookup}
use compose_manager.Auth.Limiter.{Limiter, new_limiter, allow, failure}
use compose_manager.Auth.Limiter.Live.{live}
use compose_manager.Auth.Limiter.Window.{fail_all, tally, lockout, lockout_ends}

abbrev fresh : Limiter
fresh = new_limiter 3 100

abbrev key_a : Text
key_a = codes "a"

abbrev three : List (Text × ℕ)
three = (codes "a", 15) ∷ (codes "b", 20) ∷ (codes "a", 30) ∷ []

lockout_example : (allow key_a 60 (fail_all three (failure key_a 10 fresh))).0 ≡ (false, 50)
unfolding live lookup new_limiter same tally
lockout_example =
    lockout key_a 10 60 three fresh tt refl (omega arith, (omega arith, (omega arith, tt)))
      (omega arith)

lockout_ends_example : (allow key_a 200 (fail_all three (failure key_a 10 fresh))).0 ≡ (true, 0)
unfolding live lookup new_limiter
lockout_ends_example =
    lockout_ends key_a 10 200 three fresh tt refl (omega arith, (omega arith, (omega arith, tt)))
      (omega arith)
