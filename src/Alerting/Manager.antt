-- ===== src/Alerting/Manager.antt =====
-- internal/alerting/window.go, `WindowManager`: one sliding window for each rule name, and a count
-- of all events that is kept beside them.
pub mod Evict
pub mod Accounts
pub mod Drift
pub mod Windows
pub mod Caps
use blazelog.Base.{
  ℕ, zero, suc, ◌+◌, ◌-◌, ◌/◌, String, Bool, true, false, Option, none, some, List, [], ◌∷◌,
  get_elem?, set, length, drop, ltb, if◌then◌else◌,
}
use blazelog.Base.Dict.{lookup, insert, remove}
use blazelog.Alerting.Window.{SlidingWindow, new_sliding_window, add_at, count_at, reset}

abbrev pub max_total_events : ℕ
max_total_events = 100_000

abbrev pub Windows : Type 0
Windows = List (String × SlidingWindow)

pub record WindowManager : Type 0 where
  pub windows : Windows
  pub total_events : ℕ

unfoldable pub new_window_manager : WindowManager
new_window_manager = record { windows = []; total_events = 0 }

-- The body of the inner loop of `evictIfNeeded`: the best window so far, by its place in the map
-- and the time of its first event.
abbrev pub older : Option (ℕ × ℕ) → ℕ → List ℕ → Option (ℕ × ℕ)
older best i [] = best
older none i (t ∷ _) = some (i, t)
older (some (j, s)) i (t ∷ _) = if ltb t s then some (i, t) else some (j, s)

oldest : Option (ℕ × ℕ) → ℕ → Windows → Option (ℕ × ℕ)
oldest best i [] = best
oldest best i ((_, w) ∷ m) = oldest (older best i w.events) (i + 1) m

abbrev pub evict_count : SlidingWindow → ℕ
evict_count w = if ltb (length w.events / 2) 1 then 1 else length w.events / 2

-- One round of the outer loop; `none` is its `break`.
evict_from : WindowManager → Option (ℕ × ℕ) → Option WindowManager
evict_from wm none = none
evict_from wm (some (i, _)) = elim (get_elem? wm.windows i) [
  | none ↦ none
  | some (k, w) ↦ some (record {
    windows = set wm.windows i (k, record w { events = drop (evict_count w) w.events });
    total_events = wm.total_events - evict_count w;
  })
]

evict_once : WindowManager → Option WindowManager
unfolding oldest evict_from
evict_once wm = evict_from wm (oldest none 0 wm.windows)

-- `for wm.totalEvents > maxTotalEvents`, with the rounds left.
evict_loop : ℕ → WindowManager → WindowManager
evict_loop zero wm = wm
evict_loop (suc rounds) wm = elim (ltb max_total_events wm.total_events) [
  | false ↦ wm
  | true ↦ elim (evict_once wm) [ none ↦ wm | some wm' ↦ evict_loop rounds wm' ]
]

-- Every round takes at least 1 off `totalEvents`, so as many rounds suffice.
unfoldable pub evict_if_needed : WindowManager → WindowManager
unfolding evict_loop evict_once
evict_if_needed wm = evict_loop wm.total_events wm

abbrev pub or_new : Option SlidingWindow → ℕ → SlidingWindow
or_new none window_duration = new_sliding_window window_duration
or_new (some w) window_duration = w

-- The map entry after `GetOrCreate`, and the window that it returns.
unfoldable pub get_or_create : WindowManager → String → ℕ → WindowManager × SlidingWindow
get_or_create wm name window_duration = elim (lookup name wm.windows) [
  | some w ↦ (wm, w)
  | none ↦ (
    record wm { windows = insert name (new_sliding_window window_duration) wm.windows },
    new_sliding_window window_duration,
  )
]

-- `AddEventAt` before it evicts.
pub record_event : WindowManager → String → ℕ → ℕ → WindowManager
record_event wm name window_duration t =
    let w = or_new (lookup name wm.windows) window_duration in
    record {
      windows = insert name (add_at w t) wm.windows;
      total_events = wm.total_events + length (add_at w t).events - length w.events;
    }

unfoldable pub add_event_at : WindowManager → String → ℕ → ℕ → WindowManager
unfolding record_event evict_if_needed
add_event_at wm name window_duration t = evict_if_needed (record_event wm name window_duration t)

unfoldable pub reset_rule : WindowManager → String → WindowManager
reset_rule wm name = elim (lookup name wm.windows) [
  | none ↦ wm
  | some w ↦ record {
    windows = insert name (reset w) wm.windows;
    total_events = wm.total_events - length w.events;
  }
]

unfoldable pub delete_rule : WindowManager → String → WindowManager
delete_rule wm name = elim (lookup name wm.windows) [
  | none ↦ wm
  | some w ↦ record {
    windows = remove name wm.windows;
    total_events = wm.total_events - length w.events;
  }
]

reset_each : Windows → Windows
reset_each [] = []
reset_each ((k, w) ∷ m) = (k, reset w) ∷ reset_each m

unfoldable pub reset_all : WindowManager → WindowManager
unfolding reset_each
reset_all wm = record { windows = reset_each wm.windows; total_events = 0 }

unfoldable pub delete_all : WindowManager → WindowManager
delete_all wm = record { windows = []; total_events = 0 }

-- `Count` prunes the rule's window at the time of the clock, and leaves `totalEvents` alone.
unfoldable pub count : WindowManager → String → ℕ → WindowManager × ℕ
count wm name now = elim (lookup name wm.windows) [
  | none ↦ (wm, 0)
  | some w ↦ let (w', n) = count_at w now in (record wm { windows = insert name w' wm.windows }, n)
]
