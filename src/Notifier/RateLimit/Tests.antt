-- ===== src/Notifier/RateLimit/Tests.antt =====
-- Runs of the rate limiter on small inputs, and the theorem at one.
use blazelog.Base.{◌-◌, ◌≤◌, ◌≡◌, refl, true, List, [], ◌∷◌, arith, length, ltb}
use blazelog.Base.Int.{pos, negsuc}
use blazelog.Base.Times.{in_window}
use blazelog.Notifier.RateLimit.{RateLimiter, new_rate_limiter, expire, allow, release}
use blazelog.Notifier.RateLimit.Sliding.{Op, allows, releases, run, log_run, run_limits}

abbrev two : RateLimiter
two = record { max_per_window = 2; window = 10; timestamps = []; dropped = 0; enabled = true }

defaults :
    (new_rate_limiter
      (record { max_per_window = negsuc 4; window = pos 0; enabled = true })).max_per_window
    ≡ 10
unfolding new_rate_limiter
defaults = refl

abbrev calls : List Op
calls = allows 1 ∷ allows 2 ∷ allows 3 ∷ releases ∷ allows 5 ∷ []

scenario : ((run two calls).timestamps ≡ 1 ∷ 5 ∷ []) × ((run two calls).dropped ≡ 1)
unfolding run allow expire release
scenario = (refl, refl)

run_limits_example :
    let r' = run two calls in
    let sent = length (in_window (6 - r'.window) (log_run two [] calls)) in
    (sent ≤ r'.max_per_window) × ((allow r' 6).1 ≡ ltb sent r'.max_per_window)
run_limits_example = run_limits two calls 6 refl refl (omega arith)
