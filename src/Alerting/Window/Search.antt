-- ===== src/Alerting/Window/Search.antt =====
-- window.go, `pruneOldLocked`: on events in order of time the binary search removes exactly those
-- before the cutoff.
use blazelog.Base.{
  ℕ, zero, suc, ◌+◌, ◌-◌, ◌/◌, ◌≤◌, ◌<◌, ◌≡◌, sym, List, [], ◌∷◌, inl, inr, arith, length, drop,
  get_or, ltb, Bool-cases, ltb→lt, ltb→le, drop-nil,
}
use blazelog.Base.Times.{Above, in_window, in_window_all}
use blazelog.Alerting.Window.{SlidingWindow, search, prune_old}

get_or-Above : (lo : ℕ) (ts : List ℕ) (i : ℕ) → Above lo ts → i < length ts → lo ≤ get_or ts i 0
get_or-Above lo [] i a h = elim h [ ]
get_or-Above lo (t ∷ ts) zero a h = a.0
get_or-Above lo (t ∷ ts) (suc i) a h = omega (arith, get_or-Above t ts i a.1 (omega arith))

get_or_mono :
    (lo : ℕ) (ts : List ℕ) (i j : ℕ)
    → Above lo ts
    → i ≤ j
    → j < length ts
    → get_or ts i 0 ≤ get_or ts j 0
get_or_mono lo [] i j a h k = elim k [ ]
get_or_mono lo (t ∷ ts) zero zero a h k = omega arith
get_or_mono lo (t ∷ ts) zero (suc j) a h k = get_or-Above t ts j a.1 (omega arith)
get_or_mono lo (t ∷ ts) (suc i) zero a h k = absurd (omega arith)
get_or_mono lo (t ∷ ts) (suc i) (suc j) a h k = get_or_mono t ts i j a.1 (omega arith) (omega arith)

-- `r` splits the events into those before the cutoff and the others.
abbrev pub Splits : List ℕ → ℕ → ℕ → Type 0
Splits ts cutoff r =
    (r ≤ length ts)
    × ((i : ℕ) → i < r → get_or ts i 0 < cutoff)
    × ((i : ℕ) → r ≤ i → i < length ts → cutoff ≤ get_or ts i 0)

module _ (lo : ℕ) (ts : List ℕ) (cutoff : ℕ) (sorted : Above lo ts) where
  -- The rounds given suffice: the loop ends by its test.
  search-Splits :
      (rounds left right : ℕ)
      → left ≤ right
      → right ≤ length ts
      → right - left ≤ rounds
      → ((i : ℕ) → i < left → get_or ts i 0 < cutoff)
      → ((i : ℕ) → right ≤ i → i < length ts → cutoff ≤ get_or ts i 0)
      → Splits ts cutoff (search rounds ts cutoff left right)
  unfolding search
  search-Splits zero left right h k f below above =
      (omega arith, below, λ i p. above i (omega arith))
  search-Splits (suc rounds) left right h k f below above = elim (Bool-cases (ltb left right)) [
    | inr stop ↦
        rw stop
          (let e = ltb→le left right stop in (omega arith, below, λ i p. above i (omega arith)))
    | inl go ↦
        let p = ltb→lt left right go in
        elim (Bool-cases (ltb (get_or ts mid 0) cutoff)) [
          | inl old ↦
              let q = ltb→lt _ cutoff old in
              rw (go, old)
                (search-Splits rounds (mid + 1) right (omega arith) k (omega arith)
                  (λ i l. omega (arith, get_or_mono lo ts i mid sorted (omega arith) (omega arith)))
                  above)
          | inr new ↦
              let q = ltb→le _ cutoff new in
              rw (go, new)
                (search-Splits rounds left mid (omega arith) (omega arith) (omega arith) below
                  (λ i l m. omega (arith, get_or_mono lo ts mid i sorted l m)))
        ]
  ]
    where
      mid : ℕ
      mid = (left + right) / 2

search-le :
    (rounds : ℕ) (ts : List ℕ) (cutoff left right : ℕ)
    → left ≤ right
    → search rounds ts cutoff left right ≤ right
unfolding search
search-le zero ts cutoff left right h = h
search-le (suc rounds) ts cutoff left right h = ground (
  arith,
  search-le rounds ts cutoff ((left + right) / 2 + 1) right,
  search-le rounds ts cutoff left ((left + right) / 2),
)

drop-in_window :
    (lo : ℕ) (ts : List ℕ) (cutoff r : ℕ)
    → Above lo ts
    → Splits ts cutoff r
    → drop r ts ≡ in_window cutoff ts
drop-in_window lo [] cutoff r a s = drop-nil r
drop-in_window lo (t ∷ ts) cutoff zero a s =
    let fresh : cutoff ≤ t = s.2 0 (omega arith) (omega arith) in
    sym (in_window_all cutoff t (t ∷ ts) (omega arith, a.1) fresh)
drop-in_window lo (t ∷ ts) cutoff (suc r) a s =
    let stale : t < cutoff = s.1 0 (omega arith) in
    let rest = drop-in_window t ts cutoff r a.1 (
      omega arith,
      λ i p. s.1 (suc i) (omega arith),
      λ i p q. s.2 (suc i) (omega arith) (omega arith),
    ) in
    ground (arith, rest)

-- On events in order of time, pruning removes exactly the events that lie before `now - window`.
pub prune_old-in_window :
    (w : SlidingWindow) (now lo : ℕ)
    → Above lo w.events
    → (prune_old w now).events ≡ in_window (now - w.window) w.events
unfolding prune_old
prune_old-in_window w now lo sorted =
    let s =
      search-Splits lo w.events (now - w.window) sorted (length w.events) 0 (length w.events)
        (omega arith) (omega arith) (omega arith) (λ i p. absurd (omega arith))
        (λ i p q. absurd (omega arith)) in
    let d = drop-in_window lo w.events (now - w.window) _ sorted s in ground (arith, d)

-- In any order of times, pruning keeps the window's settings and a tail of its events.
pub prune_old-drop :
    (w : SlidingWindow) (now : ℕ)
    → (k : ℕ) × (k ≤ length w.events) × (prune_old w now ≡ record w { events = drop k w.events })
unfolding prune_old
prune_old-drop w now =
    let n = length w.events in
    let k = search n w.events (now - w.window) 0 n in
    (k, search-le n w.events (now - w.window) 0 n (omega arith), ground arith)
