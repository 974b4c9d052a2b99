-- ===== src/Thread/Queues.antt =====
-- src/st_thread.cc: the operations of StThreadSchedule that move a thread between its queues and
-- the sleep heap. An operation returns its code and the new state; NULL is the address 0.
use sthread.Prelude.{ℕ, true, false, ◌==◌, if◌then◌else◌, [], ◌∷◌}
use sthread.Heap.{Status, done, minus_one, minus_two, heap_push, heap_delete}
use sthread.Thread.{
  StThreadSchedule, runable, sleeping, io_wait, run, io, pend, tailq_remove, tailq_insert_tail,
  set_flag, set_state, set_notified,
}

unfoldable pub push_sleep : ℕ → StThreadSchedule → StThreadSchedule
push_sleep t s = record s { sleep_list = (heap_push s.wakeup_time s.sleep_list t).1 }

-- InsertSleep
unfoldable pub insert_sleep : ℕ → StThreadSchedule → Status × StThreadSchedule
unfolding push_sleep
insert_sleep t s = if t == 0 then (minus_one, s) else (
  done,
  push_sleep t (set_state t sleeping (set_flag t (record (s.flag t) { sleep_list = true }) s)),
)

-- RemoveSleep
unfoldable pub remove_sleep : ℕ → StThreadSchedule → Status × StThreadSchedule
remove_sleep t s =
    let s₁ = set_flag t (record (s.flag t) { sleep_list = false }) s in
    let (rc, heap) = heap_delete s.wakeup_time s.sleep_list t in
    let s₂ = record s₁ { sleep_list = heap } in
    if t == 0
    then (minus_one, s)
    else (if s.sleep_list.count == 0
        then (minus_one, s₁)
        else (elim rc [ done ↦ done | _ ↦ minus_two ], s₂))

-- InsertRunable
unfoldable pub insert_runable : ℕ → StThreadSchedule → Status × StThreadSchedule
unfolding tailq_insert_tail
insert_runable t s = if t == 0 then (minus_one, s) else (
  done,
  tailq_insert_tail run t
      (set_state t runable (set_flag t (record (s.flag t) { run_list = true }) s)),
)

-- RemoveRunable
unfoldable pub remove_runable : ℕ → StThreadSchedule → Status × StThreadSchedule
unfolding tailq_remove
remove_runable t s =
    if t == 0
    then (minus_one, s)
    else (done, tailq_remove run t (set_flag t (record (s.flag t) { run_list = false }) s))

-- InsertIOWait
unfoldable pub insert_io_wait : ℕ → StThreadSchedule → Status × StThreadSchedule
insert_io_wait t s =
    let s₁ =
      tailq_insert_tail io t
        (set_state t io_wait (set_flag t (record (s.flag t) { io_list = true }) s)) in
    if t == 0 then (minus_one, s) else (done, (insert_sleep t s₁).1)

-- RemoveIOWait
unfoldable pub remove_io_wait : ℕ → StThreadSchedule → Status × StThreadSchedule
remove_io_wait t s =
    let s₁ = tailq_remove io t (set_flag t (record (s.flag t) { io_list = false }) s) in
    if t == 0 then (minus_one, s) else (done, (remove_sleep t s₁).1)

-- IOWaitToRunable
unfoldable pub io_wait_to_runable : ℕ → StThreadSchedule → Status × StThreadSchedule
io_wait_to_runable t s =
    if t == 0 then (minus_one, s) else (done, (insert_runable t (remove_io_wait t s).1).1)

-- Unpend
unfoldable pub unpend : ℕ → StThreadSchedule → Status × StThreadSchedule
unpend t s =
    let s₁ = tailq_remove pend t (set_flag t (record (s.flag t) { pend_list = false }) s) in
    if t == 0 then (minus_one, s) else (done, (insert_runable t s₁).1)

-- PopRunable: CPP_TAILQ_POP, with NULL on an empty list
unfoldable pub pop_runable : StThreadSchedule → ℕ × StThreadSchedule
pop_runable s = elim (s.queue run) [
  | [] ↦ (0, s)
  | t ∷ rest ↦
      let s₁ = tailq_remove run t s in (t, set_flag t (record (s.flag t) { run_list = false }) s₁)
]

-- Notify: -1 with EINVAL on NULL
unfoldable pub notify : ℕ → StThreadSchedule → Status × StThreadSchedule
notify t s =
    let s₁ = set_notified t true s in
    let from_io = (insert_runable t (remove_io_wait t s₁).1).1 in
    let from_sleep = (insert_runable t (remove_sleep t s₁).1).1 in
    if t == 0
    then (minus_one, s)
    else (if t == s.active_thread
        then (done, s₁)
        else (if (s.flag t).io_list
            then (done, from_io)
            else (if (s.flag t).sleep_list then (done, from_sleep) else (done, s₁))))

-- Wakeup, one round for each thread that is due; `none` when the fuel runs out
unfoldable pub wake_one : ℕ → StThreadSchedule → StThreadSchedule
wake_one t s =
    let from_io = (remove_io_wait t s).1 in
    let from_sleep = (remove_sleep t s).1 in
    (insert_runable t (if (s.flag t).io_list then from_io else from_sleep)).1
