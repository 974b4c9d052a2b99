-- ===== src/Daemon/Timeout.antt =====
-- src/st_sys.h: how long the daemon thread waits in the poller.
use sthread.Prelude.{
  ℕ, ◌+◌, ◌-◌, ◌%◌, ◌≤◌, ◌<◌, ◌≡◌, ◌≢◌, ap, none, some, if◌then◌else◌, leb, arith, ne→==,
}
use native.Mathlib.Nat.{mod-eq_of_lt}
use sthread.Heap.{heap_top}
use sthread.Heap.Pop.{heap_top_least, heap_top_null}
use sthread.Poll.{poll_timeout}
use sthread.Event.Dispatch.{wait_tv}
use sthread.Thread.{StThreadSchedule}
use sthread.Thread.Consistent.{IsConsistent}
use sthread.Thread.{set_wakeup_time}
use sthread.Thread.Switch.{sleep}
use sthread.Thread.Life.{IsSafe, set_wakeup_time-IsConsistent}
use sthread.Thread.Asleep.{sleep_enters}
use sthread.Sys.Notify.{st_sleep, doze, notify_wait_begin-IsSafe}
use sthread.Daemon.{StSysSchedule, get_timeout, to_int, daemon_wait}

module _ (limit : ℕ) (y : StSysSchedule) (s : StThreadSchedule) (c : IsConsistent s)
    (p : 0 < limit) where
  -- Where a thread sleeps, every sleeping thread is due after the last clock, and one of them is due
  -- less than 2^31 ms after it: the daemon waits for some positive time at most, so that from the last
  -- clock on no sleeping thread is due in between.
  pub daemon_wait-le :
      (t : ℕ)
      → s.sleep_list.index t ≢ 0
      → s.wakeup_time t < y.last_clock + 2147483648
      → ((u : ℕ) → s.sleep_list.index u ≢ 0 → y.last_clock < s.wakeup_time u)
      → (d : ℕ) × (daemon_wait limit y s ≡ some d)
        × (0 < d)
        × ((u : ℕ) → s.sleep_list.index u ≢ 0 → y.last_clock + d ≤ s.wakeup_time u)
  unfolding daemon_wait get_timeout to_int wait_tv poll_timeout
  daemon_wait-le t i near later =
      let h = s.sleep_list in
      let top = heap_top h in
      let l = heap_top_least s.wakeup_time h t c.valid i in
      let n = heap_top_null s.wakeup_time h c.valid in
      let full : 0 < h.count = omega (arith, (c.valid.well_placed.indexed t i).0) in
      let w = s.wakeup_time top - y.last_clock in
      let ahead = later top l.0 in
      let kept : w % 4294967296 ≡ w = mod-eq_of_lt (omega (arith, l.1, near)) in
      (
        if leb w limit then w else limit,
        ground (arith, n.0, kept, l.1, near),
        ground arith,
        λ u j. ground (arith, (heap_top_least s.wakeup_time h u c.valid j).1),
      )

  -- Where a sleeping thread is due at the last clock or before: the daemon waits without limit, although
  -- that thread is due.
  pub daemon_wait_due :
      (t : ℕ)
      → s.sleep_list.index t ≢ 0
      → s.wakeup_time t ≤ y.last_clock
      → daemon_wait limit y s ≡ none
  unfolding daemon_wait get_timeout to_int wait_tv poll_timeout
  daemon_wait_due t i due =
      let h = s.sleep_list in
      let l = heap_top_least s.wakeup_time h t c.valid i in
      let n = heap_top_null s.wakeup_time h c.valid in
      let full : 0 < h.count = omega (arith, (c.valid.well_placed.indexed t i).0) in
      ground (arith, n.0)

-- A thread that is not the daemon calls st_sleep so that its time to wake up is not after the daemon's
-- last clock, as for st_sleep(0) in the same millisecond, and the sleep heap has room: the
-- daemon's next wait is without limit.
pub st_sleep-blocks :
    (limit now ms : ℕ) (y : StSysSchedule) (s : StThreadSchedule)
    → IsSafe s
    → s.active_thread ≢ s.daemon_thread
    → s.sleep_list.count < s.sleep_list.max
    → 0 < limit
    → now + ms ≤ y.last_clock
    → daemon_wait limit y (st_sleep now ms s) ≡ none
unfolding st_sleep doze set_wakeup_time
st_sleep-blocks limit now ms y s safe d room p late =
    let t = s.active_thread in
    let f = safe.active_free in
    let (c₁, f₁) = set_wakeup_time-IsConsistent s t safe.consistent f (now + ms) in
    let (i, times) = sleep_enters t (set_wakeup_time t (now + ms) s) c₁ f₁ room in
    let after : IsSafe (sleep t (set_wakeup_time t (now + ms) s)).1 =
      rw (ne→== t 0 f.not_null) at (notify_wait_begin-IsSafe now ms none s safe d).1 in
    let at_t = ap (λ (g : ℕ → ℕ). g t) times in
    rw (ne→== t 0 f.not_null) (daemon_wait_due limit y _ after.consistent p t i (ground arith))
