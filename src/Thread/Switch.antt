-- ===== src/Thread/Switch.antt =====
-- src/st_thread.cc and src/st_thread.h: the operations of StThreadSchedule that give up the
-- processor, and the life of a thread. An operation that yields returns the state at the context
-- switch: the active thread is the one that runs next, and `resume` is what the old one does when
-- it is switched back to.
use sthread.Prelude.{
  ℕ, zero, suc, ◌+◌, ◌-◌, ◌&&◌, Bool, true, false, ◌==◌, if◌then◌else◌, update, [], ◌∷◌, ◌++◌, ltb,
  leb, length, Option, none, some, not,
}
use sthread.Heap.{Status, done, minus_one, heap_top}
use sthread.Thread.{
  StThreadSchedule, normal, initial, running, sleeping, pending, run, pend, reclaim, not_in_list,
  tailq_remove, tailq_insert_tail, tailq_remove_self, set_flag, set_state, remove_sub_st_thread,
}
use sthread.Thread.Queues.{
  push_sleep, remove_sleep, insert_runable, remove_runable, remove_io_wait, unpend, pop_runable,
  wake_one,
}

-- ReapReclaim: a thread of the reclaim list is deleted unless it is `current`
unfoldable pub delete_thread : ℕ → StThreadSchedule → StThreadSchedule
delete_thread t s = record s { total = s.total - 1; deleted = t ∷ s.deleted }

unfoldable pub reap_loop : ℕ → ℕ → ℕ → StThreadSchedule → ℕ × StThreadSchedule
reap_loop zero current hold s = (hold, s)
reap_loop (suc n) current hold s = elim (s.queue reclaim) [
  | [] ↦ (hold, s)
  | t ∷ rest ↦
      let s₁ = tailq_remove reclaim t s in
      reap_loop n current (if t == current then t else hold)
        (if t == current then s₁ else delete_thread t s₁)
]

unfoldable pub reap_reclaim : ℕ → StThreadSchedule → StThreadSchedule
reap_reclaim current s =
    let (hold, s₁) = reap_loop (length (s.queue reclaim)) current 0 s in
    if hold == 0 then s₁ else tailq_insert_tail reclaim hold s₁

-- Yield and SwitchThread, up to the switch
unfoldable pub next_thread : StThreadSchedule → ℕ × StThreadSchedule
next_thread s = elim (s.queue run) [ [] ↦ (s.daemon_thread, s) | _ ∷ _ ↦ pop_runable s ]

unfoldable pub yield_to : ℕ × StThreadSchedule → StThreadSchedule
yield_to (t, s) = record s { state = update s.state t running; active_thread = t }

unfoldable pub yield : ℕ → StThreadSchedule → StThreadSchedule
yield t s = yield_to (next_thread (reap_reclaim t s))

-- the rest of SwitchThread in the thread that is switched back to
unfoldable pub resume : ℕ → StThreadSchedule → StThreadSchedule
resume t s = record s { active_thread = t }

unfoldable pub yield_if_active : ℕ → StThreadSchedule → StThreadSchedule
yield_if_active t s = if s.active_thread == t then yield t s else s

-- StThreadSchedule::Sleep
unfoldable pub asleep : ℕ → StThreadSchedule → StThreadSchedule
asleep t s =
    push_sleep t (set_state t sleeping (set_flag t (record (s.flag t) { sleep_list = true }) s))

unfoldable pub sleep : ℕ → StThreadSchedule → Status × StThreadSchedule
sleep t s =
    if t == 0
    then (minus_one, s)
    else (if (s.flag t).sleep_list then (done, s) else (done, yield_if_active t (asleep t s)))

-- Pend
unfoldable pub pended : ℕ → StThreadSchedule → StThreadSchedule
pended t s =
    tailq_insert_tail pend t
      (set_state t pending (set_flag t (record (s.flag t) { pend_list = true }) s))

unfoldable pub pend_thread : ℕ → StThreadSchedule → Status × StThreadSchedule
pend_thread t s = if t == 0 then (minus_one, s) else (done, yield_if_active t (pended t s))

-- DetachForReuse
unfoldable pub detach_wait : ℕ → StThreadSchedule → StThreadSchedule
detach_wait t s =
    let from_io = (remove_io_wait t s).1 in
    let from_sleep = (remove_sleep t s).1 in
    if (s.flag t).io_list then from_io else (if (s.flag t).sleep_list then from_sleep else s)

unfoldable pub detach_run : ℕ → StThreadSchedule → StThreadSchedule
detach_run t s = let removed = (remove_runable t s).1 in if (s.flag t).run_list then removed else s

unfoldable pub detach_pend : ℕ → StThreadSchedule → StThreadSchedule
detach_pend t s =
    let removed = tailq_remove pend t (set_flag t (record (s.flag t) { pend_list = false }) s) in
    if (s.flag t).pend_list then removed else s

unfoldable pub detach_sub : ℕ → StThreadSchedule → StThreadSchedule
detach_sub t s =
    let left = remove_sub_st_thread (s.parent t) t s in
    let orphan = set_flag t (record (s.flag t) { sub_list = false }) s in
    if (s.flag t).sub_list then (if s.parent t == 0 then orphan else left) else s

unfoldable pub detach_for_reuse : ℕ → StThreadSchedule → StThreadSchedule
detach_for_reuse t s = detach_sub t (detach_pend t (detach_run t (detach_wait t s)))

-- StThread::Reset, with StThreadItem::Reset
unfoldable pub reset : ℕ → StThreadSchedule → StThreadSchedule
reset t s =
    let s₁ = tailq_remove_self t (record s {
      wakeup_time = update s.wakeup_time t 0;
      thread_type = update s.thread_type t normal;
      state = update s.state t initial;
      sub_threads = update s.sub_threads t [];
      parent = update s.parent t 0;
      notified = update s.notified t false;
    }) in
    record s₁ { flag = update s₁.flag t not_in_list }

-- Recycle, up to the switch
unfoldable pub store_thread : ℕ → StThreadSchedule → StThreadSchedule
store_thread t s =
    let pooled = record s { idle = s.idle ++ t ∷ [] } in
    let reclaimed = tailq_insert_tail reclaim t s in
    if ltb (length s.idle) s.max_free then pooled else reclaimed

unfoldable pub recycle : ℕ → StThreadSchedule → StThreadSchedule
recycle t s = if t == 0 then s else yield t (store_thread t (reset t (detach_for_reuse t s)))

-- WakeupParent
unfoldable pub wakeup_parent : ℕ → StThreadSchedule → StThreadSchedule
wakeup_parent t s =
    let p = s.parent t in
    let s₁ = remove_sub_st_thread p t s in
    let freed = (unpend p s₁).1 in
    if p == 0 then s else elim (s₁.sub_threads p) [ [] ↦ freed | _ ∷ _ ↦ s₁ ]

-- Wakeup: the threads at the top of the heap whose time has come; `none` when the fuel runs out
unfoldable pub is_due : ℕ → StThreadSchedule → Bool
is_due now s = let t = heap_top s.sleep_list in not (t == 0) && leb (s.wakeup_time t) now

unfoldable pub wakeup : ℕ → ℕ → StThreadSchedule → Option StThreadSchedule
wakeup zero now s = none
wakeup (suc fuel) now s =
    let rest = wakeup fuel now (wake_one (heap_top s.sleep_list) s) in
    if is_due now s then rest else some s

-- AllocThread on the pool; `fresh` is what `new` returns
unfoldable pub alloc_thread : ℕ → StThreadSchedule → ℕ × StThreadSchedule
alloc_thread fresh s = elim s.idle [
  | [] ↦ (fresh, record s { total = s.total + 1 })
  | t ∷ rest ↦ (t, record s { idle = rest })
]

-- CreateThread
unfoldable pub create_thread : ℕ → Bool → StThreadSchedule → ℕ × StThreadSchedule
create_thread fresh runable s =
    let (t, s₁) = alloc_thread fresh s in
    let queued = (insert_runable t s₁).1 in
    if t == 0 then (0, s₁) else (t, if runable then queued else s₁)
