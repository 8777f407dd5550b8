-- ===== src/Alerting/Manager/Windows.antt =====
-- window.go, `WindowManager`: what a call does to the window of each rule, where nothing has to be
-- evicted.
use blazelog.Base.{
  ℕ, zero, suc, ◌≤◌, ◌<◌, ◌≡◌, refl, String, false, some, arith, ltb, if◌then◌else◌,
}
use blazelog.Base.Dict.{lookup, str_eq, lookup-insert}
use blazelog.Alerting.Window.{SlidingWindow, add_at, count_at}
use blazelog.Alerting.Window.Count.{add_at_settings}
use blazelog.Alerting.Manager.{
  WindowManager, max_total_events, record_event, or_new, add_event_at, evict_if_needed, evict_loop,
  count,
}

evict_loop_idle :
    (rounds : ℕ) (wm : WindowManager)
    → wm.total_events ≤ max_total_events
    → evict_loop rounds wm ≡ wm
unfolding evict_loop
evict_loop_idle zero wm h = refl
evict_loop_idle (suc rounds) wm h =
    let e : ltb max_total_events wm.total_events ≡ false = ground arith in rw (e, evict_loop)

-- Below the limit an added event goes to its rule's window, which is made if it is not there, and
-- no other window changes.
lookup-add_event_at :
    (wm : WindowManager) (name other : String) (d t : ℕ)
    → wm.total_events < max_total_events
    → lookup other (add_event_at wm name d t).windows ≡ (
        if str_eq name other
        then some (add_at (or_new (lookup name wm.windows) d) t)
        else lookup other wm.windows)
unfolding add_event_at record_event evict_if_needed
lookup-add_event_at wm name other d t h =
    let w = or_new (lookup name wm.windows) d in
    let grows = add_at_settings w t in
    rw (evict_loop_idle _ (record_event wm name d t) (omega arith))
      (lookup-insert name other (add_at w t) wm.windows)

-- `Count` returns what `CountAt` says of the rule's window, 0 if it has none, and changes no
-- other window.
count_lem :
    (wm : WindowManager) (name other : String) (now : ℕ) (w : SlidingWindow)
    → lookup name wm.windows ≡ some w
    → ((count wm name now).1 ≡ (count_at w now).1)
      × (lookup other (count wm name now).0.windows
          ≡ (if str_eq name other then some (count_at w now).0 else lookup other wm.windows))
unfolding count
count_lem wm name other now w e =
    rw (e, count) (refl, lookup-insert name other (count_at w now).0 wm.windows)
