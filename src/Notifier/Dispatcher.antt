-- ===== src/Notifier/Dispatcher.antt =====
-- internal/notifier/notifier.go, `Dispatcher`. A notifier is what its `Send` answers to an alert
-- (`true`: it returned nil); what lies behind `Send` is a service. The alert is of any type.
pub mod Laws
mod Tests
use blazelog.Base.{
  ℕ, zero, suc, ◌+◌, String, Bool, true, false, Option, none, some, List, [], ◌∷◌, ◌==◌,
  if◌then◌else◌,
}
use blazelog.Base.Dict.{lookup, insert, remove}
use blazelog.Notifier.RateLimit.{RateLimiter, RateLimitStats, allow, release, stats}

pub data Outcome : Type 0 where
  sent : Outcome
  rate_limited : Outcome
  notification_errors : List String → Outcome

-- `rate_limiter` is a pointer that may be nil.
pub record Dispatcher (A : Type 0) : Type 0 where
  pub notifiers : List (String × (A → Bool))
  pub rate_limiter : Option RateLimiter

-- The check at the head of `Dispatch`: the limiter after it, and whether to go on.
abbrev pub check_limit : Option RateLimiter → ℕ → Option RateLimiter × Bool
check_limit none now = (none, true)
check_limit (some r) now = let (r', ok) = allow r now in (some r', ok)

abbrev pub refund : Option RateLimiter → Option RateLimiter
refund none = none
refund (some r) = some (release r)

abbrev pub outcome : List String → Outcome
outcome [] = sent
outcome (e ∷ errs) = notification_errors (e ∷ errs)

module _ {A : Type 0} where
  unfoldable pub register : Dispatcher A → String → (A → Bool) → Dispatcher A
  register d name n = record d { notifiers = insert name n d.notifiers }

  unfoldable pub unregister : Dispatcher A → String → Dispatcher A
  unregister d name = record d { notifiers = remove name d.notifiers }

  unfoldable pub get_notifier : Dispatcher A → String → Option (A → Bool)
  get_notifier d name = lookup name d.notifiers

  -- The loop of `Close`: `closes name` is whether the notifier of that name closes without error.
  unfoldable pub close_errors : (String → Bool) → List (String × (A → Bool)) → List String
  close_errors closes [] = []
  close_errors closes ((name, _) ∷ rest) =
      let errs = close_errors closes rest in if closes name then errs else name ∷ errs

  unfoldable pub close_dispatcher : Dispatcher A → (String → Bool) → Dispatcher A × List String
  unfolding close_errors
  close_dispatcher d closes = (record d { notifiers = [] }, close_errors closes d.notifiers)

  -- The loop over `alert.Notify`: how many sends succeeded, and the notifiers that failed, in order.
  unfoldable pub send_each : List (String × (A → Bool)) → A → List String → ℕ × List String
  send_each notifiers alert [] = (0, [])
  send_each notifiers alert (name ∷ names) =
      let (sent_count, errs) = send_each notifiers alert names in
      elim (lookup name notifiers) [
        | none ↦ (sent_count, errs)
        | some send ↦ if send alert then (suc sent_count, errs) else (sent_count, name ∷ errs)
      ]

  unfoldable pub dispatch : Dispatcher A → A → List String → ℕ → Dispatcher A × Outcome
  dispatch d alert [] now = (d, sent)
  dispatch d alert (name ∷ notify) now =
      let (limiter, ok) = check_limit d.rate_limiter now in
      let (sent_count, errs) = send_each d.notifiers alert (name ∷ notify) in
      let after = if sent_count == 0 then refund limiter else limiter in
      if ok
      then (record d { rate_limiter = after }, outcome errs)
      else (record d { rate_limiter = limiter }, rate_limited)

  -- The loop of `DispatchAll`, over the map.
  unfoldable pub send_all : List (String × (A → Bool)) → A → ℕ × List String
  send_all [] alert = (0, [])
  send_all ((name, send) ∷ rest) alert =
      let (sent_count, errs) = send_all rest alert in
      if send alert then (suc sent_count, errs) else (sent_count, name ∷ errs)

  unfoldable pub dispatch_all : Dispatcher A → A → ℕ → Dispatcher A × Outcome
  dispatch_all d alert now =
      let (limiter, ok) = check_limit d.rate_limiter now in
      let (sent_count, errs) = send_all d.notifiers alert in
      let after = if sent_count == 0 then refund limiter else limiter in
      if ok
      then (record d { rate_limiter = after }, outcome errs)
      else (record d { rate_limiter = limiter }, rate_limited)
