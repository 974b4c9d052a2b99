-- ===== src/Thread/Init.antt =====
-- src/st_thread.h and src/st_sys.h: the scheduler after its constructor and StSysSchedule::Init.
use sthread.Prelude.{ℕ, ◌*◌, Bool, false, update, [], ◌≢◌, arith, refl, none, count}
use sthread.Heap.{new_heap, heap_resize}
use sthread.Thread.{
  StThreadSchedule, initial, runable, running, normal, primordial, daemon, not_in_list,
}
use sthread.Thread.Life.{IsSafe}
use sthread.Thread.Reach.{Reach, Reach-IsSafe}

-- StThreadSchedule(), with the default StHeapList and UtilPtrPool, and fresh threads everywhere
unfoldable pub new_schedule : StThreadSchedule
unfolding new_heap
new_schedule = record {
  queue = λ q. [];
  sleep_list = new_heap 1024;
  active_thread = 0;
  daemon_thread = 0;
  link = λ t. none;
  flag = λ t. not_in_list;
  state = λ t. initial;
  thread_type = λ t. normal;
  wakeup_time = λ t. 0;
  notified = λ t. false;
  parent = λ t. 0;
  sub_threads = λ t. [];
  idle = [];
  max_free = 256;
  total = 0;
  deleted = [];
  corrupt = false;
}

-- StSysSchedule::Init, with DaemonThread and PrimoThread on a new scheduler; `d` and `p` are the
-- threads that `new` returns, `stored` the outcome of realloc
unfoldable pub sys_init : ℕ → Bool → ℕ → ℕ → StThreadSchedule → StThreadSchedule
unfolding heap_resize
sys_init max_num stored d p s = record s {
  sleep_list = (heap_resize s.sleep_list (max_num * 2) stored).1;
  daemon_thread = d;
  thread_type = update (update s.thread_type d daemon) p primordial;
  state = update (update s.state d runable) p running;
  active_thread = p;
}

pub sys_init-IsSafe :
    (max_num : ℕ) (stored : Bool) (d p : ℕ)
    → d ≢ 0
    → p ≢ 0
    → IsSafe (sys_init max_num stored d p new_schedule)
unfolding sys_init new_schedule count
sys_init-IsSafe max_num stored d p n m = record {
  consistent = record {
    valid = record {
      well_placed = record {
        placed = λ i a b. ground arith;
        indexed = λ q e. absurd (ground arith);
        bounded = ground arith;
      };
      ordered = λ c a b. ground arith;
    };
    intact = refl;
    listed = λ q t. refl;
    run_flag = λ t. refl;
    io_flag = λ t. refl;
    pend_flag = λ t. refl;
    asleep = λ t e. absurd (ground arith);
    apart = λ t e. cc;
    pooled = λ t e. absurd (e refl);
    idle_once = λ t. omega arith;
    null_idle = refl;
    null_link = refl;
    null_index = ground arith;
  };
  active_free = record { not_null = m; no_link = refl; awake = refl; used = refl };
  daemon_free = record { not_null = n; no_link = refl; awake = refl; used = refl };
}

-- Every state that is reached after Init is consistent, if a thread other than the daemon calls st_sleep
-- and st_notify_wait, waits for IO, pends or ends; threads are notified and joined to a parent in any
-- way; Dispatch takes a thread with its flag of IO from the list of IO; only a pended thread is
-- unpended, also by the end of its last sub-thread; a created thread is pooled or new; and the daemon
-- turns in its loop. Consistent means that no queue macro ever gets a wrong head, the sleep heap is
-- ordered, the flags and the lists agree, and neither the running thread nor the daemon thread stands in
-- a queue.
pub init_Reach-IsSafe :
    (max_num : ℕ) (stored : Bool) (d p : ℕ) (s : StThreadSchedule)
    → d ≢ 0
    → p ≢ 0
    → Reach (sys_init max_num stored d p new_schedule) s
    → IsSafe s
init_Reach-IsSafe max_num stored d p s n m r =
    Reach-IsSafe (sys_init-IsSafe max_num stored d p n m) r
