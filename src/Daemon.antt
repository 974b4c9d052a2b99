-- ===== src/Daemon.antt =====
-- src/st_sys.h: StSysSchedule, its timeout and a round of the loop of the daemon thread, which puts the
-- event schedule, the scheduler of threads and the timers together.
pub mod Round
pub mod Timeout
mod Tests
use sthread.Prelude.{ℕ, ◌+◌, ◌-◌, ◌%◌, List, Option, none, some, if◌then◌else◌, ltb, ◌==◌}
use sthread.Heap.{heap_top}
use sthread.Poll.{Epoll, StFiredEvent, poll_timeout}
use sthread.Event.Dispatch.{World, dispatch, wait_tv}
use sthread.Thread.{StThreadSchedule}
use sthread.Thread.Switch.{wakeup, yield}
use sthread.Timer.{StHeapTimer, check_expired}

pub record StSysSchedule : Type 0 where
  pub last_clock : ℕ
  pub timeout : ℕ
  pub timers : StHeapTimer

unfoldable pub update_last_clock : ℕ → StSysSchedule → StSysSchedule
update_last_clock now y = record y { last_clock = now }

unfoldable pub get_timeout : StSysSchedule → StThreadSchedule → ℕ
get_timeout y s =
    let t = heap_top s.sleep_list in
    let now = y.last_clock in
    if t == 0 then y.timeout else (if ltb (s.wakeup_time t) now then 0 else s.wakeup_time t - now)

-- the int64_t of GetTimeout as the int that Wait takes; `none` is a negative one
unfoldable pub to_int : ℕ → Option ℕ
to_int n = let i = n % 4294967296 in if ltb i 2147483648 then some i else none

-- how long the daemon lets epoll_wait wait, in milliseconds; `none` is without limit, which Wait makes
-- of every timeout that is not positive
unfoldable pub daemon_wait : ℕ → StSysSchedule → StThreadSchedule → Option ℕ
daemon_wait limit y s = poll_timeout (wait_tv limit (to_int (get_timeout y s)))

pub record System (K : Type 0) : Type 0 where
  pub world : World K
  pub sys : StSysSchedule

-- the rest of a round after Wakeup: the timers, and Yield of the daemon
abbrev pub finish_round :
    {K : Type 0}
    → Option StThreadSchedule
    → World K
    → StSysSchedule
    → Option (ℕ × StHeapTimer)
    → Option (System K)
finish_round (some ts) w y (some (n, timers)) = some (record {
  world = record w { threads = yield ts.daemon_thread ts };
  sys = record y { timers = timers };
})
finish_round (some ts) w y none = none
finish_round none w y timers = none

module _ {K : Type 0} (e : Epoll K) (ev_input ev_output : ℕ → ℕ)
    (on_timeout : ℕ → StHeapTimer → StHeapTimer) where
  -- a turn of the loop of StartUp: `fired` is what Poll reports, `now` and `later` what the clock shows
  -- for UpdateLastClock and in CheckExpired; `none` when the fuel of a loop runs out
  unfoldable pub round : ℕ → List StFiredEvent → ℕ → ℕ → System K → Option (System K)
  round fuel fired now later m =
      let w = dispatch e ev_input ev_output fired m.world in
      let y = update_last_clock now m.sys in
      finish_round (wakeup fuel now w.threads) w y (check_expired on_timeout fuel later 0 y.timers)
