-- ===== src/Notifier/RateLimit/Sliding.antt =====
-- ratelimit.go against a log of all notifications that were let through and not refunded.
use blazelog.Base.{
  ℕ, ◌-◌, ◌≤◌, ◌≡◌, ◌≢◌, inl, inr, refl, ap, ◌∙◌, sym, Bool, true, false, List, [], ◌∷◌, ◌++◌,
  arith, length, ltb, leb, if◌then◌else◌, Bool-cases, ltb→le, length-append,
}
use blazelog.Base.Times.{
  Above, AtMost, in_window, in_window_all, in_window-append, in_window-in_window, in_window_last,
  Above-in_window, Above-snoc, AtMost-snoc, AtMost-mono,
}
use blazelog.Notifier.RateLimit.{RateLimiter, expire, allow, without_last, release}

expire-in_window :
    (cutoff lo : ℕ) (ts : List ℕ) → Above lo ts → expire cutoff ts ≡ in_window cutoff ts
unfolding expire
expire-in_window cutoff lo [] a = refl
expire-in_window cutoff lo (t ∷ ts) a =
    ground (arith, expire-in_window cutoff t ts a.1, in_window_all cutoff t ts a.1)

length-in_window-le : (c : ℕ) (ts : List ℕ) → length (in_window c ts) ≤ length ts
length-in_window-le c [] = omega arith
length-in_window-le c (t ∷ ts) = ground (arith, length-in_window-le c ts)

without_last-Above : (lo : ℕ) (ts : List ℕ) → Above lo ts → Above lo (without_last ts)
without_last-Above lo [] a = tt
without_last-Above lo (t ∷ []) a = tt
without_last-Above lo (t ∷ u ∷ ts) a = (a.0, without_last-Above t (u ∷ ts) a.1)

without_last-AtMost : (now : ℕ) (ts : List ℕ) → AtMost now ts → AtMost now (without_last ts)
without_last-AtMost now [] a = tt
without_last-AtMost now (t ∷ []) a = tt
without_last-AtMost now (t ∷ u ∷ ts) a = (a.0, without_last-AtMost now (u ∷ ts) a.1)

length-without_last-le : (ts : List ℕ) → length (without_last ts) ≤ length ts
length-without_last-le [] = omega arith
length-without_last-le (t ∷ []) = omega arith
length-without_last-le (t ∷ u ∷ ts) = omega (arith, length-without_last-le (u ∷ ts))

-- On times in order, the newest in the window is the newest of all.
in_window-without_last :
    (c lo : ℕ) (ts : List ℕ)
    → Above lo ts
    → in_window c ts ≢ []
    → in_window c (without_last ts) ≡ without_last (in_window c ts)
in_window-without_last c lo [] a h = absurd (h refl)
in_window-without_last c lo (t ∷ []) a h = ground arith
in_window-without_last c lo (t ∷ u ∷ ts) a h = elim (Bool-cases (ltb t c)) [
  | inl old ↦ rw old (in_window-without_last c t (u ∷ ts) a.1 (λ e. h (rw old e)))
  | inr new ↦
      let le = ltb→le t c new in
      let all = in_window_all c t (t ∷ u ∷ ts) (omega arith, a.1) le in
      let rest =
        in_window_all c t (t ∷ without_last (u ∷ ts))
          (omega arith, without_last-Above t (u ∷ ts) a.1) le in
      rest ∙ ap without_last (sym all)
]

pub data Op : Type 0 where
  allows : ℕ → Op
  releases : Op

abbrev pub has_none : List ℕ → Bool
has_none [] = true
has_none (_ ∷ _) = false

-- The log after a call: a notification let through is added, a refund takes the newest off.
pub log_step : RateLimiter → List ℕ → Op → List ℕ
log_step r h (allows now) = if (allow r now).1 then h ++ now ∷ [] else h
log_step r h releases = if has_none r.timestamps then h else without_last h

unfoldable pub step : RateLimiter → Op → RateLimiter
step r (allows now) = (allow r now).0
step r releases = release r

pub log_run : RateLimiter → List ℕ → List Op → List ℕ
log_run r h [] = h
log_run r h (op ∷ ops) = log_run (step r op) (log_step r h op) ops

unfoldable pub run : RateLimiter → List Op → RateLimiter
unfolding step
run r [] = r
run r (op ∷ ops) = run (step r op) ops

-- The clock does not run backwards from call to call, and ends by `last`.
abbrev pub Rising : ℕ → ℕ → List Op → Type 0
Rising now last [] = now ≤ last
Rising now last (allows t ∷ ops) = (now ≤ t) × Rising t last ops
Rising now last (releases ∷ ops) = Rising now last ops

record Limited (r : RateLimiter) (now : ℕ) (h : List ℕ) : Type 0 where
  on : r.enabled ≡ true
  sorted : Above 0 h
  past : AtMost now h
  exact : r.timestamps ≡ in_window (now - r.window) h
  bounded : length r.timestamps ≤ r.max_per_window

allow-Limited :
    (r : RateLimiter) (now t : ℕ) (h : List ℕ)
    → Limited r now h
    → now ≤ t
    → ((allow r t).1 ≡ ltb (length (in_window (t - r.window) h)) r.max_per_window)
      × Limited (allow r t).0 t (log_step r h (allows t))
unfolding allow log_step
allow-Limited r now t h v later =
    let recent : expire (t - r.window) r.timestamps ≡ in_window (t - r.window) h =
      expire-in_window (t - r.window) 0 r.timestamps
        (rw v.exact (Above-in_window 0 (now - r.window) h v.sorted))
      ∙ ap (in_window (t - r.window)) v.exact
      ∙ in_window-in_window (now - r.window) (t - r.window) h (omega arith) in
    let fewer = length-in_window-le (t - r.window) r.timestamps in
    let n : length (in_window (t - r.window) h) ≤ length r.timestamps =
      rw (← in_window-in_window (now - r.window) (t - r.window) h (omega arith), ← v.exact) fewer in
    let joined = in_window-append (t - r.window) h (t ∷ []) in
    let new = in_window_last t r.window in
    let wider = length-append (in_window (t - r.window) h) (t ∷ []) in
    let s = Above-snoc 0 t h (omega arith) v.sorted (AtMost-mono now t h later v.past) in
    let m = AtMost-snoc now t h later v.past in
    let m' = AtMost-mono now t h later v.past in
    elim (Bool-cases (leb r.max_per_window (length (in_window (t - r.window) h)))) [
      | inl full ↦
          rw (v.on, recent, full)
            (
              ground arith,
              record {
                on = refl;
                sorted = v.sorted;
                past = m';
                exact = refl;
                bounded = omega arith;
              },
            )
      | inr room ↦
          rw (v.on, recent, room)
            (
              ground arith,
              record { on = refl; sorted = s; past = m; exact = cc; bounded = ground arith },
            )
    ]

without_last_of_none : (ts : List ℕ) → has_none ts ≡ true → without_last ts ≡ ts
without_last_of_none [] h = refl
without_last_of_none (t ∷ ts) h = cc

release-Limited :
    (r : RateLimiter) (now : ℕ) (h : List ℕ)
    → Limited r now h
    → Limited (release r) now (log_step r h releases)
unfolding release log_step
release-Limited r now h v =
    let shorter = length-without_last-le r.timestamps in
    let a = without_last-Above 0 h v.sorted in
    let m = without_last-AtMost now h v.past in
    elim (Bool-cases (has_none r.timestamps)) [
      | inl none_left ↦
          let same = without_last_of_none r.timestamps none_left in
          rw none_left (record {
            on = v.on;
            sorted = v.sorted;
            past = v.past;
            exact = same ∙ v.exact;
            bounded = omega arith;
          })
      | inr some_left ↦
          let e =
            in_window-without_last (now - r.window) 0 h v.sorted
              (λ z. cc (some_left, ap has_none v.exact, ap has_none z)) in
          rw some_left (record {
            on = v.on;
            sorted = a;
            past = m;
            exact = ap without_last v.exact ∙ sym e;
            bounded = omega arith;
          })
    ]

run-Limited :
    (ops : List Op) (r : RateLimiter) (now last : ℕ) (h : List ℕ)
    → Limited r now h
    → Rising now last ops
    → (m : ℕ) × (m ≤ last) × Limited (run r ops) m (log_run r h ops)
unfolding run log_run step
run-Limited [] r now last h v rising = (now, rising, v)
run-Limited (allows t ∷ ops) r now last h v rising =
    run-Limited ops (allow r t).0 t last (log_step r h (allows t))
      (allow-Limited r now t h v rising.0).1 rising.1
run-Limited (releases ∷ ops) r now last h v rising =
    run-Limited ops (release r) now last (log_step r h releases) (release-Limited r now h v) rising

-- After any calls of `Allow` and `Release` on a new limiter that is enabled, with a clock that does
-- not run backwards: of the notifications let through and not refunded, at most `maxPerWindow` lie
-- in the window that ends now, and the next `Allow` says yes exactly if fewer do.
pub run_limits :
    (r : RateLimiter) (ops : List Op) (now : ℕ)
    → r.enabled ≡ true
    → r.timestamps ≡ []
    → Rising 0 now ops
    → let r' = run r ops in
      let sent = length (in_window (now - r'.window) (log_run r [] ops)) in
      (sent ≤ r'.max_per_window) × ((allow r' now).1 ≡ ltb sent r'.max_per_window)
run_limits r ops now on empty rising =
    let (m, before, v) =
      run-Limited ops r 0 now []
        (record { on = on; sorted = tt; past = tt; exact = empty; bounded = ground arith })
        rising in
    let r' = run r ops in
    let h = log_run r [] ops in
    let n = length-in_window-le (now - r'.window) (in_window (m - r'.window) h) in
    let same = in_window-in_window (m - r'.window) (now - r'.window) h (omega arith) in
    (
      omega (arith, ap length same, ap length v.exact, v.bounded),
      (allow-Limited r' m now h v before).0,
    )
