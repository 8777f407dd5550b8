-- ===== src/Notifier/Dispatcher/Tests.antt =====
-- Runs of the dispatcher on small inputs, and the theorems at them.
use blazelog.Base.{
  ℕ, ◌-◌, ◌≡◌, refl, String, true, false, some, List, [], ◌∷◌, ◌++◌, arith, length, ◌==◌,
  if◌then◌else◌,
}
use blazelog.Base.Dict.{lookup}
use blazelog.Notifier.RateLimit.{RateLimiter, expire, allow, release}
use blazelog.Notifier.Dispatcher.{Dispatcher, notification_errors, dispatch, outcome, send_each}
use blazelog.Notifier.Dispatcher.Laws.{answering, dispatch_lem}

abbrev limiter : RateLimiter
limiter = record {
  max_per_window = 1;
  window = 10;
  timestamps = 2 ∷ [];
  dropped = 0;
  enabled = true;
}

-- Alerts are numbers here; "slack" fails on large ones and "email" always.
abbrev office : Dispatcher ℕ
office = record {
  notifiers = ("slack", λ alert. alert == 0) ∷ ("email", λ alert. false) ∷ [];
  rate_limiter = some limiter;
}

abbrev names : List String
names = "email" ∷ "pager" ∷ "slack" ∷ []

office_runs : dispatch office 0 names 20 ≡ (
  record office { rate_limiter = some (record limiter { timestamps = 20 ∷ [] }) },
  notification_errors ("email" ∷ []),
)
unfolding dispatch allow expire send_each lookup release
office_runs = refl

dispatch_lem_example :
    let recent = expire (20 - 10) (2 ∷ []) in
    let good = answering true office.notifiers 5 names in
    dispatch office 5 names 20 ≡ (
      record office {
        rate_limiter = some (record limiter {
          timestamps = if length good == 0 then recent else recent ++ 20 ∷ [];
        });
      },
      outcome (answering false office.notifiers 5 names),
    )
unfolding allow expire
dispatch_lem_example = dispatch_lem office limiter 5 names 20 refl refl (ground arith) refl
