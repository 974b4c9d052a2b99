-- ===== src/Thread/Family.antt =====
-- src/st_poll.h and src/st_thread.cc: AddSubStThread, RemoveSubStThread and WakeupParent, which a
-- thread's callback calls at its end.
use sthread.Prelude.{ℕ, Bool, true, false, ◌≡◌, inl, inr, arith, List, Bool-cases}
use sthread.Thread.{StThreadSchedule, add_sub_st_thread, remove_sub_st_thread, set_flag}
use sthread.Thread.Consistent.{IsConsistent}
use sthread.Thread.Yield.{IsFree}
use sthread.Thread.Life.{IsSafe}

-- the lists of sub-threads and the bit of a thread's place in them are in nobody's way
sub_list-IsConsistent :
    (s : StThreadSchedule) (t : ℕ) (b : Bool) (parent : ℕ → ℕ) (subs : ℕ → List ℕ)
    → IsConsistent s
    → IsConsistent (
        set_flag t
          (record (s.flag t) { sub_list = b })
          (record s { parent = parent; sub_threads = subs }))
sub_list-IsConsistent s t b parent subs c = record {
  valid = c.valid;
  intact = c.intact;
  listed = c.listed;
  run_flag = λ u. ground (arith, c.run_flag u);
  io_flag = λ u. ground (arith, c.io_flag u);
  pend_flag = λ u. ground (arith, c.pend_flag u);
  asleep = λ u n. ground (arith, c.asleep u);
  apart = λ u n. ground (arith, c.apart u);
  pooled = λ u n. ground (arith, c.pooled u);
  idle_once = c.idle_once;
  null_idle = c.null_idle;
  null_link = c.null_link;
  null_index = c.null_index;
}

sub_list-IsFree :
    (s : StThreadSchedule) (t u : ℕ) (b : Bool) (parent : ℕ → ℕ) (subs : ℕ → List ℕ)
    → IsFree s u
    → IsFree
        (set_flag t
          (record (s.flag t) { sub_list = b })
          (record s { parent = parent; sub_threads = subs }))
        u
sub_list-IsFree s t u b parent subs f = record {
  not_null = f.not_null;
  no_link = f.no_link;
  awake = ground (arith, f.awake);
  used = f.used;
}

sub_list-IsSafe :
    (s : StThreadSchedule) (t : ℕ) (b : Bool) (parent : ℕ → ℕ) (subs : ℕ → List ℕ)
    → IsSafe s
    → IsSafe (
        set_flag t
          (record (s.flag t) { sub_list = b })
          (record s { parent = parent; sub_threads = subs }))
sub_list-IsSafe s t b parent subs safe = record {
  consistent = sub_list-IsConsistent s t b parent subs safe.consistent;
  active_free = sub_list-IsFree s t s.active_thread b parent subs safe.active_free;
  daemon_free = sub_list-IsFree s t s.daemon_thread b parent subs safe.daemon_free;
}

pub add_sub_st_thread-IsSafe :
    (p sub : ℕ) (s : StThreadSchedule) → IsSafe s → IsSafe (add_sub_st_thread p sub s)
unfolding add_sub_st_thread
add_sub_st_thread-IsSafe p sub s safe = elim (Bool-cases (s.flag sub).sub_list) [
  | inl y ↦ rw y (sub_list-IsSafe s sub true s.parent s.sub_threads safe)
  | inr y ↦ rw y (sub_list-IsSafe s sub true _ _ safe)
]

pub remove_sub_st_thread-IsSafe :
    (p sub : ℕ) (s : StThreadSchedule) → IsSafe s → IsSafe (remove_sub_st_thread p sub s)
unfolding remove_sub_st_thread
remove_sub_st_thread-IsSafe p sub s safe = elim (Bool-cases (s.flag sub).sub_list) [
  | inl y ↦ rw y (sub_list-IsSafe s sub false _ _ safe)
  | inr y ↦ rw y (sub_list-IsSafe s sub false s.parent s.sub_threads safe)
]

-- the other bits stay
pub remove_sub_st_thread_pend :
    (p sub t : ℕ) (s : StThreadSchedule)
    → ((remove_sub_st_thread p sub s).flag t).pend_list ≡ (s.flag t).pend_list
unfolding remove_sub_st_thread
remove_sub_st_thread_pend p sub t s = ground (arith, Bool-cases (s.flag sub).sub_list)
