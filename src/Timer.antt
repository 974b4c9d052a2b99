-- ===== src/Timer.antt =====
-- stlib/st_heap_timer.h: StHeapTimer, the sleep heap of timers. A timer is an address and 0 is NULL,
-- `expired` is m_time_expired_, and `now` is what Util::TimeMs gives. The heap exists.
pub mod Expiry
pub mod Tests
use sthread.Prelude.{
  ℕ, zero, suc, ◌+◌, Bool, true, false, not, ◌&&◌, Option, none, some, if◌then◌else◌, update, leb,
  ltb, ◌==◌,
}
use sthread.Heap.{StHeapList, Status, done, heap_push, heap_delete, heap_top, new_heap}

pub record StHeapTimer : Type 0 where
  pub heap : StHeapList
  pub expired : ℕ → ℕ

-- the constructor; a new timer has the time 0
unfoldable pub new_timer_heap : ℕ → StHeapTimer
new_timer_heap max_item = record { heap = new_heap max_item; expired = λ _. 0 }

abbrev pub is_done : Status → Bool
is_done Status.done = true
is_done _ = false

unfoldable pub startup : ℕ → ℕ → ℕ → StHeapTimer → Bool × StHeapTimer
startup now interval timerable s =
    let times = update s.expired timerable (now + interval) in
    let r = heap_push times s.heap timerable in
    if timerable == 0 then (false, s) else (is_done r.0, record { heap = r.1; expired = times })

unfoldable pub stop : ℕ → StHeapTimer → StHeapTimer
stop timerable s =
    if timerable == 0 then s else record s { heap = (heap_delete s.expired s.heap timerable).1 }

-- IsExpired of a timer
unfoldable pub is_expired : ℕ → ℕ → StHeapTimer → Bool
is_expired now timer s = if s.expired timer == 0 then false else ltb (s.expired timer) now

-- the test of the loop in CheckExpired
unfoldable pub expires : ℕ → StHeapTimer → Bool
expires now s =
    let t = heap_top s.heap in not (t == 0) && ltb 0 (s.expired t) && leb (s.expired t) now

-- CheckExpired, with the effect of Timeout on the timers; `none` when the fuel runs out
unfoldable pub check_expired :
    (ℕ → StHeapTimer → StHeapTimer) → ℕ → ℕ → ℕ → StHeapTimer → Option (ℕ × StHeapTimer)
check_expired on_timeout zero now count s = none
check_expired on_timeout (suc fuel) now count s =
    let t = heap_top s.heap in
    let rest = check_expired on_timeout fuel now (count + 1) (on_timeout t (stop t s)) in
    if expires now s then rest else some (count, s)
