-- ===== src/Thread/Asleep.antt =====
-- src/st_thread.cc: Yield leaves the sleep heap alone, and Sleep puts the running thread into it.
use sthread.Prelude.{
  ℕ, zero, suc, ◌<◌, ◌≡◌, ◌≢◌, refl, sym, ap, ◌∙◌, inl, inr, length, Bool, true, false,
  if◌then◌else◌, ◌==◌, arith, List-cases, Bool-cases, ne→==,
}
use sthread.Heap.{StHeapList}
use sthread.Heap.Methods.{heap_push-Grown}
use sthread.Thread.{StThreadSchedule, run, reclaim, tailq_remove, tailq_insert_tail}
use sthread.Thread.Queues.{pop_runable, push_sleep}
use sthread.Thread.Switch.{
  delete_thread, reap_loop, reap_reclaim, next_thread, yield_to, yield, yield_if_active, asleep,
  sleep,
}
use sthread.Thread.Consistent.{IsConsistent}
use sthread.Thread.Yield.{IsFree}

-- the sleep heap and the times to wake up
pub record SameSleep (s s' : StThreadSchedule) : Type 0 where
  pub heap_eq : s'.sleep_list ≡ s.sleep_list
  pub times_eq : s'.wakeup_time ≡ s.wakeup_time

SameSleep-trans :
    {s s' s'' : StThreadSchedule} → SameSleep s s' → SameSleep s' s'' → SameSleep s s''
SameSleep-trans a b = record { heap_eq = b.heap_eq ∙ a.heap_eq; times_eq = b.times_eq ∙ a.times_eq }

remove-SameSleep : (t : ℕ) (s : StThreadSchedule) → SameSleep s (tailq_remove reclaim t s)
unfolding tailq_remove
remove-SameSleep t s = record { heap_eq = ground arith; times_eq = ground arith }

kept-SameSleep :
    (t : ℕ) (b : Bool) (s : StThreadSchedule) → SameSleep s (if b then s else delete_thread t s)
unfolding delete_thread
kept-SameSleep t true s = record { heap_eq = refl; times_eq = refl }
kept-SameSleep t false s = record { heap_eq = refl; times_eq = refl }

reap_loop-SameSleep :
    (n current hold : ℕ) (s : StThreadSchedule) → SameSleep s (reap_loop n current hold s).1
unfolding reap_loop
reap_loop-SameSleep zero current hold s = record { heap_eq = refl; times_eq = refl }
reap_loop-SameSleep (suc n) current hold s = elim (List-cases (s.queue reclaim)) [
  | inl e ↦ rw (e, reap_loop) (record { heap_eq = refl; times_eq = refl })
  | inr (t, rest, e) ↦
      rw (e, reap_loop)
        (SameSleep-trans
          (SameSleep-trans (remove-SameSleep t s) (kept-SameSleep t (t == current) _))
          (reap_loop-SameSleep n current _ _))
]

reap_reclaim-SameSleep : (current : ℕ) (s : StThreadSchedule) → SameSleep s (reap_reclaim current s)
unfolding reap_reclaim tailq_insert_tail
reap_reclaim-SameSleep current s =
    let l = reap_loop-SameSleep (length (s.queue reclaim)) current 0 s in
    record { heap_eq = ground (arith, l.heap_eq); times_eq = ground (arith, l.times_eq) }

next_thread-SameSleep : (s : StThreadSchedule) → SameSleep s (next_thread s).1
unfolding next_thread pop_runable tailq_remove
next_thread-SameSleep s = elim (List-cases (s.queue run)) [
  | inl e ↦ rw (e, next_thread) (record { heap_eq = refl; times_eq = refl })
  | inr (t, rest, e) ↦
      rw (e, next_thread) (record { heap_eq = ground (arith, e); times_eq = ground (arith, e) })
]

pub yield-SameSleep : (t : ℕ) (s : StThreadSchedule) → SameSleep s (yield t s)
unfolding yield yield_to
yield-SameSleep t s =
    let r =
      SameSleep-trans (reap_reclaim-SameSleep t s) (next_thread-SameSleep (reap_reclaim t s)) in
    record { heap_eq = r.heap_eq; times_eq = r.times_eq }

yield_if_active-SameSleep : (t : ℕ) (s : StThreadSchedule) → SameSleep s (yield_if_active t s)
unfolding yield_if_active
yield_if_active-SameSleep t s = elim (Bool-cases (s.active_thread == t)) [
  | inl y ↦ rw y (yield-SameSleep t s)
  | inr y ↦ rw y (record { heap_eq = refl; times_eq = refl })
]

-- a free thread that goes to sleep is in the heap, with its time
pub sleep_enters :
    (t : ℕ) (s : StThreadSchedule)
    → IsConsistent s
    → IsFree s t
    → s.sleep_list.count < s.sleep_list.max
    → ((sleep t s).1.sleep_list.index t ≢ 0) × ((sleep t s).1.wakeup_time ≡ s.wakeup_time)
unfolding sleep asleep push_sleep
sleep_enters t s c f room =
    let z : s.sleep_list.index t ≡ 0 = ground (arith, c.asleep t, f.awake) in
    let g = (heap_push-Grown s.wakeup_time s.sleep_list t c.valid f.not_null z room).1 in
    let y = yield_if_active-SameSleep t (asleep t s) in
    rw (ne→== t 0 f.not_null, f.awake)
      (λ q. g.entered (sym (ap (λ (h : StHeapList). h.index t) y.heap_eq) ∙ q), y.times_eq)
