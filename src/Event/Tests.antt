-- ===== src/Event/Tests.antt =====
-- src/st_thread.cc: an event schedule with one item, 9, of the waiting thread 2 at descriptor 5.
use sthread.Prelude.{
  ℕ, ◌≡◌, ◌≢◌, refl, [], ◌∷◌, true, false, Option, none, some, if◌then◌else◌, ◌==◌, arith,
}
use sthread.Sys.{Events}
use sthread.Poll.{StFiredEvent, ctl_del, ctl_fails, add_event, store_mask, set_mask}
use sthread.Poll.Agrees.{AgreesWith}
use sthread.Poll.Tests.{control, epoll, contract, state, table, both, reads, agrees}
use sthread.Event.{
  StEventSchedule, Received, add_queue, each_item, add_item, register, detach_old, add_fd,
  delete_fd, set_event,
}
use sthread.Event.Dispatch.{World, dispatch, schedule_begin, schedule_end}
use sthread.Event.Queue.{Added, add_queue-Added}
use sthread.Event.Wait.{dispatch-IsSafe, resumed, schedule_end-stale}
use sthread.Thread.{StThreadSchedule, set_wakeup_time}
use sthread.Thread.Queues.{insert_io_wait}
use sthread.Thread.Switch.{yield}
use sthread.Thread.Life.{IsSafe}
use sthread.Thread.Reach.{here, next, waits, Reach-IsSafe}
use sthread.Thread.Init.{new_schedule, sys_init, sys_init-IsSafe}

abbrev pub booted : StThreadSchedule
booted = sys_init 1024 true 1 2 new_schedule

abbrev pub waiting : StThreadSchedule
waiting =
    yield booted.active_thread
      (insert_io_wait booted.active_thread (set_wakeup_time booted.active_thread 50 booted)).1

pub waiting-IsSafe : IsSafe waiting
waiting-IsSafe =
    Reach-IsSafe (sys_init-IsSafe 1024 true 1 2 (omega arith) (omega arith))
      (next here (waits booted 50 (unfold sys_init in omega arith)))

-- item 9 has received an input event before
abbrev pub fired_before : Received
fired_before = record { mask = reads; everr = false }

abbrev pub schedule : StEventSchedule
schedule = record {
  io = state;
  event = λ fd. if fd == 5 then 9 else 0;
  maxfd = 16;
  timeout = 30000;
  osfd = λ item. if item == 9 then some 5 else none;
  events = λ item. reads;
  revents = λ item. fired_before;
  owner = λ item. 2;
}

abbrev pub world : World (ℕ → Option Events)
world = record { schedule = schedule; kernel = table; threads = waiting; fdset = λ t. [] }

abbrev pub input : StFiredEvent
input = record { fd = 5; mask = reads; everr = false }

abbrev pub hangup : StFiredEvent
hangup = record { fd = 5; mask = both; everr = true }

dispatch-IsSafe_example :
    let w' = dispatch epoll (λ x. 0) (λ x. 0) (input ∷ hangup ∷ []) world in
    AgreesWith contract w'.schedule.io w'.kernel × IsSafe w'.threads
dispatch-IsSafe_example =
    dispatch-IsSafe contract (λ x. 0) (λ x. 0) (input ∷ hangup ∷ []) world agrees waiting-IsSafe

never_fails :
    (o : Option Events) (fd : ℕ) (m : Events) (k : ℕ → Option Events)
    → (control ctl_del o fd m k).0 ≢ ctl_fails
never_fails none fd m k q = ground (arith, q)
never_fails (some _) fd m k q = ground (arith, q)

-- 8 has no descriptor, so that the item before it is taken back
add_queue-Added_example :
    Added contract (9 ∷ 8 ∷ []) schedule table (add_queue epoll (9 ∷ 8 ∷ []) schedule table)
add_queue-Added_example =
    add_queue-Added contract (9 ∷ 8 ∷ []) schedule table agrees
      ((λ j p q. ground (arith, q), tt), (tt, tt)) (λ fd m k. never_fails (k fd) fd m k)

schedule_end-stale_example :
    (schedule_end epoll 2 (resumed contract (schedule_begin epoll 2 [] 9 50 world).1 booted)).0
    ≡ true
schedule_end-stale_example =
    schedule_end-stale contract 2 9 50 world booted agrees (omega arith) (omega arith) refl refl (
      unfold schedule_begin add_queue each_item add_item register detach_old add_fd delete_fd
        set_event add_event store_mask set_mask in
      refl)
