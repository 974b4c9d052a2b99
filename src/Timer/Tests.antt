-- ===== src/Timer/Tests.antt =====
-- stlib/st_heap_timer.h: two timers, 4 on top and 7.
use sthread.Prelude.{ℕ, ◌+◌, ◌<◌, ◌≡◌, ◌≢◌, refl, some, if◌then◌else◌, ◌==◌, arith}
use sthread.Heap.Methods.{IsValid}
use sthread.Timer.{StHeapTimer, check_expired}
use sthread.Timer.Expiry.{Expired, check_expired-Expired}

abbrev pub times : ℕ → ℕ
times t = if t == 4 then 20 else 30

abbrev pub two_timers : StHeapTimer
two_timers = record {
  heap = record {
    list = λ i. if i == 1 then 4 else (if i == 2 then 7 else 0);
    index = λ p. if p == 4 then 1 else (if p == 7 then 2 else 0);
    count = 2;
    max = 512;
  };
  expired = times;
}

pub two_timers-IsValid : IsValid times two_timers.heap
two_timers-IsValid = record {
  well_placed = record {
    placed = λ i a b. ground arith;
    indexed = λ q e. ground arith;
    bounded = ground arith;
  };
  ordered = λ c a b. ground arith;
}

pub two_timers_pos : (t : ℕ) → two_timers.heap.index t ≢ 0 → 0 < times t
two_timers_pos t i = ground arith

check_expired-Expired_example :
    (n : ℕ) × (s' : StHeapTimer) × (check_expired (λ t u. u) 3 25 0 two_timers ≡ some (0 + n, s'))
    × Expired 25 two_timers s' n
check_expired-Expired_example =
    check_expired-Expired (λ t u. u) 3 25 0 two_timers (λ t u. refl) two_timers-IsValid
      two_timers_pos (omega arith)
