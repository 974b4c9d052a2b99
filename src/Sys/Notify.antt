-- ===== src/Sys/Notify.antt =====
-- src/st_sys.cc: st_notify_wait, st_notify and st_sleep on the scheduler of threads. st_notify_wait is
-- two operations, before and after the switch; `now` is what the clock shows.
use sthread.Prelude.{
  ℕ, ◌+◌, ◌≢◌, inl, inr, Bool, true, false, Option, none, some, if◌then◌else◌, ◌==◌, Bool-cases,
}
use sthread.Heap.{Status, minus_one}
use sthread.Sys.{Ret, returns, etime, einval, normalize_timeout_ms}
use sthread.Thread.{StThreadSchedule, take_notified, set_wakeup_time}
use sthread.Thread.Queues.{notify}
use sthread.Thread.Switch.{sleep}
use sthread.Thread.Life.{IsSafe}
use sthread.Thread.Reach.{Reach, here, next, takes, sleeps, Reach-IsSafe}

-- the time that StThread::Sleep sets, and the sleep of the running thread
unfoldable pub doze : ℕ → ℕ → StThreadSchedule → StThreadSchedule
doze now ms s = (sleep s.active_thread (set_wakeup_time s.active_thread (now + ms) s)).1

-- a timeout of 0 does not wait
abbrev pub is_now : Option ℕ → Bool
is_now none = false
is_now (some t) = t == 0

-- `none` when the thread has gone to sleep; a timeout `none` is negative
unfoldable pub notify_wait_begin : ℕ → Option ℕ → StThreadSchedule → Option Ret × StThreadSchedule
notify_wait_begin now timeout s =
    let (got, s₁) = take_notified s.active_thread s in
    if s.active_thread == 0
    then (some (Ret.minus_one einval), s)
    else (if got
        then (some (returns 0), s₁)
        else (if is_now timeout
            then (some (Ret.minus_one etime), s₁)
            else (none, doze now (normalize_timeout_ms timeout) s₁)))

unfoldable pub notify_wait_end : ℕ → StThreadSchedule → Ret × StThreadSchedule
notify_wait_end thread s =
    let (got, s₁) = take_notified thread s in (if got then returns 0 else Ret.minus_one etime, s₁)

-- `ours` is whether the target belongs to this schedule
unfoldable pub st_notify : ℕ → Bool → StThreadSchedule → Status × StThreadSchedule
st_notify target ours s =
    if target == 0 then (minus_one, s) else (if ours then notify target s else (minus_one, s))

unfoldable pub st_sleep : ℕ → ℕ → StThreadSchedule → StThreadSchedule
st_sleep now ms s = if s.active_thread == 0 then s else doze now ms s

Reach-if :
    {s : StThreadSchedule} (b : Bool) (x y : Option Ret × StThreadSchedule)
    → Reach s x.1
    → Reach s y.1
    → Reach s (if b then x else y).1
Reach-if true x y p q = p
Reach-if false x y p q = q

-- For every timeout: if the scheduler is safe and the running thread is not the daemon, the scheduler
-- is safe when st_notify_wait returns or switches, and also when st_sleep switches.
pub notify_wait_begin-IsSafe :
    (now ms : ℕ) (timeout : Option ℕ) (s : StThreadSchedule)
    → IsSafe s
    → s.active_thread ≢ s.daemon_thread
    → IsSafe (notify_wait_begin now timeout s).1 × IsSafe (st_sleep now ms s)
unfolding notify_wait_begin st_sleep take_notified doze
notify_wait_begin-IsSafe now ms timeout s safe d =
    let s₁ = (take_notified s.active_thread s).1 in
    let taken : Reach s s₁ = next here (takes s) in
    let slept = next taken (sleeps s₁ (now + normalize_timeout_ms timeout) d) in
    let gone : Option Ret × StThreadSchedule = (none, doze now (normalize_timeout_ms timeout) s₁) in
    let late : Option Ret × StThreadSchedule = (some (Ret.minus_one etime), s₁) in
    let waited : Option Ret × StThreadSchedule = if is_now timeout then late else gone in
    let got : Option Ret × StThreadSchedule =
      if s.notified s.active_thread then (some (returns 0), s₁) else waited in
    let reached =
      Reach-if (s.active_thread == 0) (some (Ret.minus_one einval), s) got here
        (Reach-if (s.notified s.active_thread) (some (returns 0), s₁) waited taken
          (Reach-if (is_now timeout) late gone taken slept)) in
    (
      Reach-IsSafe safe reached,
      elim (Bool-cases (s.active_thread == 0)) [
        | inl y ↦ rw y safe
        | inr y ↦ rw y (Reach-IsSafe safe (next here (sleeps s (now + ms) d)))
      ],
    )
