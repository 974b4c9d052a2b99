-- ===== src/Thread/Tests.antt =====
-- The scheduler after Init with the daemon thread 1 and the primordial thread 2, and a few calls.
use sthread.Prelude.{List, ℕ, ◌≡◌, ◌⊎◌, refl, arith, true, [], ◌∷◌, ◌++◌, some, none, count}
use sthread.Heap.{new_heap, heap_resize, heap_push, heap_full, sift_up, heap_top}
use sthread.Thread.{StThreadSchedule, run, set_wakeup_time, add_sub_st_thread}
use sthread.Thread.Queues.{insert_runable, notify, push_sleep}
use sthread.Thread.Switch.{asleep, create_thread, alloc_thread, yield, wakeup, is_due}
use sthread.Thread.Consistent.{IsConsistent}
use sthread.Thread.Yield.{IsFree}
use sthread.Thread.Life.{IsSafe, set_wakeup_time-IsConsistent, asleep-IsConsistent}
use sthread.Thread.Wakeup.{Awake, wakeup-Awake}
use sthread.Thread.Reach.{Reach, here, next, creates, notify-IsSafe}
use sthread.Thread.Init.{new_schedule, sys_init, sys_init-IsSafe, init_Reach-IsSafe}
use sthread.Thread.Order.{yield_runs, insert_runable_last, Woken, notify_wakes, asleep-full_lost}

abbrev booted : StThreadSchedule
booted = sys_init 1024 true 1 2 new_schedule

booted-IsSafe : IsSafe booted
booted-IsSafe = sys_init-IsSafe 1024 true 1 2 (omega arith) (omega arith)

three-IsFree : IsFree booted 3
unfolding sys_init new_schedule count
three-IsFree = record { not_null = omega arith; no_link = refl; awake = refl; used = refl }

-- thread 3 is created, and the primordial thread sleeps
abbrev spawned : StThreadSchedule
spawned = (create_thread 3 true booted).1

program : Unit {0}
unfolding sys_init new_schedule create_thread
program = tt

booted_runs : Reach booted spawned
booted_runs = next here (
    creates booted 3 true three-IsFree (unfold sys_init in omega arith)
      (unfold sys_init in omega arith))

init_Reach-IsSafe_example : IsSafe spawned
init_Reach-IsSafe_example =
    init_Reach-IsSafe 1024 true 1 2 spawned (omega arith) (omega arith) booted_runs

-- thread 3 waits for the time 50 in the sleep heap
abbrev dozing : StThreadSchedule
dozing = asleep 3 (set_wakeup_time 3 50 booted)

dozing-IsConsistent : IsConsistent dozing
dozing-IsConsistent =
    let (c, f) = set_wakeup_time-IsConsistent booted 3 booted-IsSafe.consistent three-IsFree 50 in
    asleep-IsConsistent (set_wakeup_time 3 50 booted) 3 c f

wakeup-Awake_example : (s' : StThreadSchedule) × (wakeup 2 60 dozing ≡ some s') × Awake 60 dozing s'
wakeup-Awake_example = wakeup-Awake 2 60 dozing dozing-IsConsistent (
    unfold asleep push_sleep set_wakeup_time sys_init new_schedule new_heap heap_resize heap_push
      heap_full sift_up in
    omega arith)

notify-IsSafe_example : IsSafe (notify 3 spawned).1
notify-IsSafe_example = notify-IsSafe spawned 3 init_Reach-IsSafe_example

yield_runs_example :
    ((spawned.queue run ≡ []) × ((yield 2 spawned).active_thread ≡ spawned.daemon_thread))
    ⊎ ((t : ℕ) × (rest : List ℕ) × (spawned.queue run ≡ t ∷ rest)
        × ((yield 2 spawned).active_thread ≡ t)
        × ((yield 2 spawned).queue run ≡ rest))
yield_runs_example = yield_runs 2 spawned init_Reach-IsSafe_example.consistent

insert_runable_last_example : (insert_runable 4 spawned).1.queue run ≡ spawned.queue run ++ 4 ∷ []
insert_runable_last_example =
    insert_runable_last 4 spawned (omega arith)
      (unfold sys_init new_schedule create_thread alloc_thread insert_runable in refl)

notify_wakes_example : Woken 3 dozing (notify 3 dozing).1
notify_wakes_example =
    notify_wakes dozing 3 dozing-IsConsistent (omega arith)
      (unfold asleep push_sleep set_wakeup_time sys_init in omega arith)
      (unfold asleep push_sleep set_wakeup_time sys_init new_schedule in refl)

-- the sleeping thread is the parent of thread 4
abbrev joined : StThreadSchedule
joined = add_sub_st_thread 3 4 dozing

-- a heap with no room
abbrev crowded : StThreadSchedule
crowded = record booted { sleep_list = record (booted.sleep_list) { max = 0 } }

crowded-IsConsistent : IsConsistent crowded
unfolding sys_init new_schedule count
crowded-IsConsistent =
    let c = booted-IsSafe.consistent in
    record {
      valid = record {
        well_placed = record {
          placed = λ i a b. ground arith;
          indexed = λ q e. absurd (ground arith);
          bounded = ground arith;
        };
        ordered = λ i a b. ground arith;
      };
      intact = c.intact;
      listed = c.listed;
      run_flag = c.run_flag;
      io_flag = c.io_flag;
      pend_flag = c.pend_flag;
      asleep = c.asleep;
      apart = c.apart;
      pooled = c.pooled;
      idle_once = c.idle_once;
      null_idle = c.null_idle;
      null_link = c.null_link;
      null_index = c.null_index;
    }

three_crowded : IsFree crowded 3
unfolding sys_init new_schedule count
three_crowded = record { not_null = omega arith; no_link = refl; awake = refl; used = refl }

abbrev lost : StThreadSchedule
lost = asleep 3 crowded

asleep-full_lost_example :
    (lost.link 3 ≡ none) × (lost.sleep_list.index 3 ≡ 0) × ((lost.flag 3).sleep_list ≡ true)
asleep-full_lost_example =
    asleep-full_lost crowded 3 1 9 lost crowded-IsConsistent three_crowded
      (unfold sys_init new_schedule new_heap heap_resize in omega arith)
      (unfold wakeup is_due asleep push_sleep heap_top heap_push heap_full sys_init new_schedule
          new_heap heap_resize in
        refl)
