-- ===== src/Notifier/Dispatcher/Laws.antt =====
-- notifier.go, `Dispatch`: when a notification counts against the limit.
use blazelog.Base.{
  ℕ, ◌+◌, ◌-◌, ◌≡◌, ◌≢◌, refl, ap, String, Bool, true, false, none, some, List, [], ◌∷◌, ◌++◌,
  arith, length, ◌==◌, if◌then◌else◌,
}
use blazelog.Base.Dict.{lookup}
use blazelog.Notifier.RateLimit.{RateLimiter, expire, allow, release, without_last}
use blazelog.Notifier.Dispatcher.{Dispatcher, rate_limited, send_each, outcome, dispatch}

without_last-snoc : (ts : List ℕ) (t : ℕ) → without_last (ts ++ t ∷ []) ≡ ts
without_last-snoc [] t = refl
without_last-snoc (x ∷ []) t = refl
without_last-snoc (x ∷ y ∷ ts) t = ap (◌∷◌ x) (without_last-snoc (y ∷ ts) t)

-- A token that is consumed and refunded leaves only the expired timestamps gone.
release-allow :
    (r : RateLimiter) (now : ℕ)
    → r.enabled ≡ true
    → (allow r now).1 ≡ true
    → release (allow r now).0 ≡ record r { timestamps = expire (now - r.window) r.timestamps }
unfolding allow release
release-allow r now on ok =
    ground (arith, without_last-snoc (expire (now - r.window) r.timestamps) now)

allow_taken :
    (r : RateLimiter) (now : ℕ)
    → r.enabled ≡ true
    → (allow r now).1 ≡ true
    → allow r now
      ≡ (record r { timestamps = expire (now - r.window) r.timestamps ++ now ∷ [] }, true)
unfolding allow
allow_taken r now on ok = ground arith

module _ {A : Type 0} where
  -- The names among `notify` whose notifier is registered and answers as given.
  abbrev pub answering : Bool → List (String × (A → Bool)) → A → List String → List String
  answering ok notifiers alert [] = []
  answering ok notifiers alert (name ∷ names) =
      let rest = answering ok notifiers alert names in
      elim (lookup name notifiers) [
        | none ↦ rest
        | some send ↦
            if send alert
            then (if ok then name ∷ rest else rest)
            else (if ok then rest else name ∷ rest)
      ]

  send_each-answering :
      (notifiers : List (String × (A → Bool))) (alert : A) (names : List String)
      → send_each notifiers alert names
        ≡ (length (answering true notifiers alert names), answering false notifiers alert names)
  unfolding send_each
  send_each-answering notifiers alert [] = refl
  send_each-answering notifiers alert (name ∷ names) =
      ground (arith, send_each-answering notifiers alert names)

  -- A dispatch through an enabled limiter that lets it pass: its error names exactly the registered
  -- notifiers that failed, in the alert's order, and the limiter has consumed a token if at least
  -- one of them succeeded and none otherwise, whatever else expired.
  pub dispatch_lem :
      (d : Dispatcher A) (r : RateLimiter) (alert : A) (notify : List String) (now : ℕ)
      → d.rate_limiter ≡ some r
      → r.enabled ≡ true
      → notify ≢ []
      → (allow r now).1 ≡ true
      → let recent = expire (now - r.window) r.timestamps in
        let good = answering true d.notifiers alert notify in
        dispatch d alert notify now ≡ (
          record d {
            rate_limiter =
                some (record r {
                  timestamps = if length good == 0 then recent else recent ++ now ∷ [];
                });
          },
          outcome (answering false d.notifiers alert notify),
        )
  unfolding dispatch
  dispatch_lem d r alert [] now e on some_name ok = absurd (some_name refl)
  dispatch_lem d r alert (name ∷ notify) now e on some_name ok = ground (
    arith,
    send_each-answering d.notifiers alert (name ∷ notify),
    allow_taken r now on ok,
    release-allow r now on ok,
  )

  -- A dispatch that the limiter refuses sends nothing and only counts the drop.
  dispatch_refused :
      (d : Dispatcher A) (r : RateLimiter) (alert : A) (notify : List String) (now : ℕ)
      → d.rate_limiter ≡ some r
      → notify ≢ []
      → (allow r now).1 ≡ false
      → dispatch d alert notify now ≡ (
        record d {
          rate_limiter = some (record r {
            timestamps = expire (now - r.window) r.timestamps;
            dropped = r.dropped + 1;
          });
        },
        rate_limited,
      )
  unfolding dispatch allow
  dispatch_refused d r alert [] now e some_name no_token = absurd (some_name refl)
  dispatch_refused d r alert (name ∷ notify) now e some_name no_token = ground arith
