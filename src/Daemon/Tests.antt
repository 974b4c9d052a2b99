-- ===== src/Daemon/Tests.antt =====
-- src/st_sys.h: a round of the daemon while thread 2 waits for IO until 50, with two timers.
use sthread.Prelude.{ℕ, ◌+◌, ◌≤◌, ◌<◌, ◌≡◌, ◌≢◌, refl, ◌∷◌, [], none, some, true, arith}
use sthread.Heap.{heap_resize, new_heap, heap_push, heap_full, sift_up}
use sthread.Poll.Tests.{epoll, contract, agrees}
use sthread.Event.Tests.{booted, waiting, waiting-IsSafe, world, input, hangup}
use sthread.Thread.{set_wakeup_time, tailq_insert_tail}
use sthread.Thread.Queues.{insert_io_wait, insert_sleep, push_sleep}
use sthread.Thread.Switch.{yield, yield_to, next_thread, reap_reclaim, reap_loop}
use sthread.Thread.Init.{new_schedule, sys_init, sys_init-IsSafe}
use sthread.Timer.Tests.{two_timers, two_timers-IsValid, two_timers_pos}
use sthread.Sys.Notify.{st_sleep}
use sthread.Daemon.{StSysSchedule, System, round, daemon_wait}
use sthread.Daemon.Timeout.{daemon_wait-le, st_sleep-blocks}
use sthread.Daemon.Round.{Turned, round-Turned}

abbrev sys : StSysSchedule
sys = record { last_clock = 15; timeout = 1000; timers = two_timers }

waiting_daemon : waiting.active_thread ≡ waiting.daemon_thread
unfolding sys_init new_schedule insert_io_wait insert_sleep push_sleep set_wakeup_time yield
    yield_to next_thread reap_reclaim reap_loop tailq_insert_tail heap_resize new_heap heap_push
    heap_full sift_up
waiting_daemon = refl

round-Turned_example :
    (bound : ℕ) × ((fuel : ℕ)
      → bound < fuel
      → (m' : System _) × (round epoll
            (λ x. 0)
            (λ x. 0)
            (λ t u. u)
            fuel
            (input ∷ hangup ∷ [])
            40
            41
            (record { world = world; sys = sys })
          ≡ some m')
        × Turned contract 40 41 (record { world = world; sys = sys }) m')
round-Turned_example =
    round-Turned contract (λ x. 0) (λ x. 0) (λ t u. u) (λ t u. refl) (input ∷ hangup ∷ []) 40 41
      (record { world = world; sys = sys }) waiting-IsSafe waiting_daemon agrees two_timers-IsValid
      two_timers_pos

daemon_wait-le_example :
    (d : ℕ) × (daemon_wait 30000 sys waiting ≡ some d)
    × (0 < d)
    × ((u : ℕ) → waiting.sleep_list.index u ≢ 0 → 15 + d ≤ waiting.wakeup_time u)
unfolding sys_init new_schedule insert_io_wait insert_sleep push_sleep set_wakeup_time yield
    yield_to next_thread reap_reclaim reap_loop tailq_insert_tail heap_resize new_heap heap_push
    heap_full sift_up
daemon_wait-le_example =
    daemon_wait-le 30000 sys waiting waiting-IsSafe.consistent (omega arith) 2 (λ q. ground arith)
      (omega arith) (λ u i. ground arith)

st_sleep-blocks_example : daemon_wait 30000 sys (st_sleep 15 0 booted) ≡ none
st_sleep-blocks_example =
    st_sleep-blocks 30000 15 0 sys booted
      (sys_init-IsSafe 1024 true 1 2 (omega arith) (omega arith)) (unfold sys_init in omega arith)
      (unfold sys_init new_schedule new_heap heap_resize in omega arith) (omega arith) (omega arith)
