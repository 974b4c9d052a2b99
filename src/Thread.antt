-- ===== src/Thread.antt =====
-- src/st_poll.h and src/st_thread.h: the state of StThreadSchedule and of the StThreadItem objects
-- that it holds. A thread is an address and 0 is NULL; a member of StThreadItem is a function from
-- addresses. The four CPP_TAILQ lists are lists of addresses, and `link` is the entry m_next_ that
-- they share: none while remove_tag is set, and otherwise the queue that is its parent.
-- `corrupt` is set when a macro gets the head of another queue than the one that holds the element.
pub mod Queues
pub mod Switch
pub mod Consistent
pub mod Moves
pub mod Yield
pub mod Life
pub mod Around
pub mod Wakeup
pub mod Family
pub mod Reach
pub mod Order
pub mod Asleep
pub mod Init
mod Tests
use sthread.Prelude.{
  ℕ, ◌+◌, ◌-◌, List, [], ◌∷◌, ◌++◌, Bool, true, false, ◌||◌, Option, none, some, ◌==◌,
  if◌then◌else◌, update, erase, length, ltb, leb,
}
use sthread.Heap.{StHeapList, Status, done, minus_one, minus_two, heap_push, heap_delete}

pub data ThreadType : Type 0 where
  normal primordial daemon sub_thread : ThreadType

pub data ThreadState : Type 0 where
  initial runable running sleeping pending io_wait : ThreadState

-- the bits of eThreadFlag that the scheduler sets
pub record ThreadFlag : Type 0 where
  pub io_list : Bool
  pub sleep_list : Bool
  pub run_list : Bool
  pub pend_list : Bool
  pub sub_list : Bool

-- eNOT_INLIST
abbrev pub not_in_list : ThreadFlag
not_in_list = record {
  io_list = false;
  sleep_list = false;
  run_list = false;
  pend_list = false;
  sub_list = false;
}

-- m_run_list_, m_io_list_, m_pend_list_, m_reclaim_list_
pub data Queue : Type 0 where
  run io pend reclaim : Queue

abbrev pub same_queue : Queue → Queue → Bool
same_queue run run = true
same_queue io io = true
same_queue pend pend = true
same_queue reclaim reclaim = true
same_queue _ _ = false

abbrev pub is_in : Option Queue → Queue → Bool
is_in none q = false
is_in (some r) q = same_queue r q

pub record StThreadSchedule : Type 0 where
  pub queue : Queue → List ℕ
  pub sleep_list : StHeapList
  pub active_thread : ℕ
  pub daemon_thread : ℕ
  -- members of the threads
  pub link : ℕ → Option Queue
  pub flag : ℕ → ThreadFlag
  pub state : ℕ → ThreadState
  pub thread_type : ℕ → ThreadType
  pub wakeup_time : ℕ → ℕ
  pub notified : ℕ → Bool
  pub parent : ℕ → ℕ
  pub sub_threads : ℕ → List ℕ
  -- UtilPtrPool<StThread>: m_ptr_list_, m_max_free_ and m_total_; the threads that were deleted
  pub idle : List ℕ
  pub max_free : ℕ
  pub total : ℕ
  pub deleted : List ℕ
  pub corrupt : Bool

abbrev pub set_queue : (Queue → List ℕ) → Queue → List ℕ → Queue → List ℕ
set_queue f q xs r = if same_queue q r then xs else f r

-- CPP_TAILQ_REMOVE on m_next_
unfoldable pub tailq_remove : Queue → ℕ → StThreadSchedule → StThreadSchedule
tailq_remove q t s =
    let taken = record s {
      queue = set_queue s.queue q (erase t (s.queue q));
      link = update s.link t none;
    } in
    elim (s.link t) [
      | none ↦ s
      | some r ↦ if same_queue r q then taken else record s { corrupt = true }
    ]

-- CPP_TAILQ_INSERT_TAIL on m_next_
unfoldable pub tailq_insert_tail : Queue → ℕ → StThreadSchedule → StThreadSchedule
unfolding tailq_remove
tailq_insert_tail q t s =
    let s' = tailq_remove q t s in
    record s' {
      queue = set_queue s'.queue q (s'.queue q ++ t ∷ []);
      link = update s'.link t (some q);
    }

-- CPP_TAILQ_REMOVE_SELF on m_next_: the head is the one that the entry names
unfoldable pub tailq_remove_self : ℕ → StThreadSchedule → StThreadSchedule
unfolding tailq_remove
tailq_remove_self t s = elim (s.link t) [ none ↦ s | some q ↦ tailq_remove q t s ]

abbrev pub set_flag : ℕ → ThreadFlag → StThreadSchedule → StThreadSchedule
set_flag t f s = record s { flag = update s.flag t f }

abbrev pub set_state : ℕ → ThreadState → StThreadSchedule → StThreadSchedule
set_state t x s = record s { state = update s.state t x }

unfoldable pub set_notified : ℕ → Bool → StThreadSchedule → StThreadSchedule
set_notified t on s = record s { notified = update s.notified t on }

-- the sticky bit is read and cleared
unfoldable pub take_notified : ℕ → StThreadSchedule → Bool × StThreadSchedule
take_notified t s = (s.notified t, record s { notified = update s.notified t false })

unfoldable pub set_wakeup_time : ℕ → ℕ → StThreadSchedule → StThreadSchedule
set_wakeup_time t w s = record s { wakeup_time = update s.wakeup_time t w }

unfoldable pub add_sub_st_thread : ℕ → ℕ → StThreadSchedule → StThreadSchedule
add_sub_st_thread p sub s =
    let s' = if (s.flag sub).sub_list then s else record s {
      sub_threads = update s.sub_threads p (s.sub_threads p ++ sub ∷ []);
      parent = update s.parent sub p;
    } in
    set_flag sub (record (s.flag sub) { sub_list = true }) s'

unfoldable pub remove_sub_st_thread : ℕ → ℕ → StThreadSchedule → StThreadSchedule
remove_sub_st_thread p sub s =
    let s' =
      if (s.flag sub).sub_list
      then record s {
        sub_threads = update s.sub_threads p (erase sub (s.sub_threads p));
        parent = update s.parent sub 0;
      }
      else s in
    set_flag sub (record (s.flag sub) { sub_list = false }) s'
