-- ===== src/Thread/Order.antt =====
-- src/st_thread.cc: which thread runs next, and which waits come to an end.
use sthread.Prelude.{
  ℕ, zero, suc, ◌≤◌, ◌||◌, true, ◌==◌, if◌then◌else◌, List, [], ◌∷◌, ◌++◌, ◌≡◌, ◌≢◌, ◌⊎◌, inl, inr,
  arith, some, none, refl, ap, ◌∙◌, ne→==, Bool-cases, List-cases, length, erase, update, count,
  ℕ_discrete,
}
use sthread.Heap.{Status}
use sthread.Heap.Touched.{heap_push-refused}
use sthread.Thread.{
  StThreadSchedule, run, io, reclaim, tailq_remove, tailq_insert_tail, set_notified,
}
use sthread.Thread.Queues.{
  insert_runable, remove_io_wait, remove_sleep, notify, push_sleep, pop_runable,
}
use sthread.Thread.Switch.{
  reap_loop, reap_reclaim, delete_thread, next_thread, yield, yield_to, asleep, wakeup,
}
use sthread.Thread.Consistent.{IsConsistent}
use sthread.Thread.Moves.{head_link, notify-IsConsistent}
use sthread.Thread.Yield.{IsFree, reap_reclaim-Keeps}
use sthread.Thread.Around.{
  Around, remove_io_wait-Around, remove_sleep-Around, insert_runable-Around, runable_after,
}
use sthread.Thread.Life.{asleep-IsConsistent}
use sthread.Thread.Wakeup.{wakeup_result}

reap_loop_run :
    (n current hold : ℕ) (s : StThreadSchedule)
    → ((reap_loop n current hold s).1.queue run ≡ s.queue run)
      × ((reap_loop n current hold s).1.daemon_thread ≡ s.daemon_thread)
unfolding reap_loop
reap_loop_run zero current hold s = (refl, refl)
reap_loop_run (suc n) current hold s = elim (List-cases (s.queue reclaim)) [
  | inl e ↦ rw (e, reap_loop) (refl, refl)
  | inr (t, rest, e) ↦
      let s₁ = tailq_remove reclaim t s in
      let s₂ = if t == current then s₁ else delete_thread t s₁ in
      let (a, b) = reap_loop_run n current (if t == current then t else hold) s₂ in
      rw (e, reap_loop)
        (
          a ∙ (unfold delete_thread tailq_remove in ground arith),
          b ∙ (unfold delete_thread tailq_remove in ground arith),
        )
]

reap_reclaim_run :
    (current : ℕ) (s : StThreadSchedule)
    → ((reap_reclaim current s).queue run ≡ s.queue run)
      × ((reap_reclaim current s).daemon_thread ≡ s.daemon_thread)
unfolding reap_reclaim tailq_insert_tail
reap_reclaim_run current s = ground (arith, reap_loop_run (length (s.queue reclaim)) current 0 s)

yield_first :
    (u t : ℕ) (rest : List ℕ) (s : StThreadSchedule)
    → IsConsistent s
    → s.queue run ≡ t ∷ rest
    → ((yield u s).active_thread ≡ t) × ((yield u s).queue run ≡ rest)
unfolding yield yield_to next_thread
yield_first u t rest s c e =
    let s₁ = reap_reclaim u s in
    let q : s₁.queue run ≡ t ∷ rest = (reap_reclaim_run u s).0 ∙ e in
    let (l, n) = head_link s₁ run t rest (reap_reclaim-Keeps u s c).consistent q in
    rw (q, next_thread)
      (unfold pop_runable tailq_remove erase in rw (q, pop_runable) (ground (arith, l, q)))

yield_daemon :
    (u : ℕ) (s : StThreadSchedule) → s.queue run ≡ [] → (yield u s).active_thread ≡ s.daemon_thread
unfolding yield yield_to next_thread
yield_daemon u s e = let (a, b) = reap_reclaim_run u s in rw (a ∙ e, next_thread) b

-- Yield of a consistent scheduler, whatever thread u leaves: if the run list is empty the daemon
-- thread runs, and otherwise its first thread runs and the others stay in their order.
pub yield_runs :
    (u : ℕ) (s : StThreadSchedule)
    → IsConsistent s
    → ((s.queue run ≡ []) × ((yield u s).active_thread ≡ s.daemon_thread))
      ⊎ ((t : ℕ) × (rest : List ℕ) × (s.queue run ≡ t ∷ rest)
          × ((yield u s).active_thread ≡ t)
          × ((yield u s).queue run ≡ rest))
yield_runs u s c = elim (List-cases (s.queue run)) [
  | inl e ↦ inl (e, yield_daemon u s e)
  | inr (t, rest, e) ↦ let r = yield_first u t rest s c e in inr (t, rest, e, r.0, r.1)
]

-- InsertRunable puts a thread that is in no queue at the end of the run list
pub insert_runable_last :
    (t : ℕ) (s : StThreadSchedule)
    → t ≢ 0
    → s.link t ≡ none
    → (insert_runable t s).1.queue run ≡ s.queue run ++ t ∷ []
unfolding insert_runable tailq_insert_tail
insert_runable_last t s n l = rw (ne→== t 0 n) (ground (arith, l))

moved_to_run :
    (t : ℕ) (s s₁ : StThreadSchedule)
    → t ≢ 0
    → Around t s s₁
    → ((insert_runable t s₁).1.link t ≡ some run) × ((insert_runable t s₁).1.notified ≡ s.notified)
moved_to_run t s s₁ n a =
    let (b, _, l) = insert_runable-Around s₁ t n in (l, b.notified_eq ∙ a.notified_eq)

-- a thread that was asleep or waited for IO has left the heap and the list of IO for the run list, and
-- each other thread stands in the queue where it stood
pub record Woken (t : ℕ) (s s' : StThreadSchedule) : Type 0 where
  pub consistent : IsConsistent s'
  pub listed_once : count t (s'.queue run) ≡ 1
  pub left_io : count t (s'.queue io) ≡ 0
  pub left_heap : s'.sleep_list.index t ≡ 0
  pub told : s'.notified t ≡ true
  pub others : (u : ℕ) → u ≢ t → s'.link u ≡ s.link u

linked-Woken :
    (t : ℕ) (s s₁ : StThreadSchedule)
    → t ≢ 0
    → Around t (set_notified t true s) s₁
    → IsConsistent (insert_runable t s₁).1
    → Woken t s (insert_runable t s₁).1
linked-Woken t s s₁ n a c =
    let (l, e) = moved_to_run t (set_notified t true s) s₁ n a in
    let s' = (insert_runable t s₁).1 in
    record {
      consistent = c;
      listed_once = c.listed run t ∙ rw l refl;
      left_io = c.listed io t ∙ rw l refl;
      left_heap = elim (ℕ_discrete (s'.sleep_list.index t) 0) [
        | yes z ↦ z
        | no z ↦ absurd (ground (arith, l, c.apart t (c.asleep t z)))
      ];
      told = ap (λ f. f t) e ∙ (unfold set_notified in ground arith);
      others = λ u m. (runable_after s₁ n a).link_eq u m ∙ (unfold set_notified in refl);
    }

-- Notify, in a consistent scheduler, of a thread that is not the running one and by its flags sleeps
-- or waits for IO: the scheduler is consistent again, the thread stands in the run list once, has left
-- the sleep heap and the list of IO, and has the sticky bit of a notification. Every other thread
-- stands in the queue where it stood.
pub notify_wakes :
    (s : StThreadSchedule) (t : ℕ)
    → IsConsistent s
    → t ≢ 0
    → t ≢ s.active_thread
    → ((s.flag t).io_list || (s.flag t).sleep_list) ≡ true
    → Woken t s (notify t s).1
unfolding notify
notify_wakes s t c n a w =
    let s₁ = set_notified t true s in
    let c' = notify-IsConsistent s t c in
    elim (Bool-cases (s.flag t).io_list) [
      | inl y ↦
          rw (ne→== t 0 n, ne→== _ _ a, y)
            (linked-Woken t s (remove_io_wait t s₁).1 n (remove_io_wait-Around s₁ t n)
              (rw (ne→== t 0 n, ne→== _ _ a, y) at c'))
      | inr y ↦
          let z : (s.flag t).sleep_list ≡ true = ground arith in
          rw (ne→== t 0 n, ne→== _ _ a, y, z)
            (linked-Woken t s (remove_sleep t s₁).1 n (remove_sleep-Around s₁ t n)
              (rw (ne→== t 0 n, ne→== _ _ a, y, z) at c'))
    ]

-- Notify sets the sticky bit of the thread and no other
pub notify_notified :
    (s : StThreadSchedule) (t : ℕ)
    → t ≢ 0
    → ((notify t s).0 ≡ Status.done) × ((notify t s).1.notified ≡ update s.notified t true)
unfolding notify
notify_notified s t n =
    let s₁ = set_notified t true s in
    let bits : s₁.notified ≡ update s.notified t true = unfold set_notified in refl in
    let io = moved_to_run t s₁ (remove_io_wait t s₁).1 n (remove_io_wait-Around s₁ t n) in
    let asleep = moved_to_run t s₁ (remove_sleep t s₁).1 n (remove_sleep-Around s₁ t n) in
    elim (Bool-cases (t == s.active_thread)) [
      | inl a ↦ rw (ne→== t 0 n, a) (refl, bits)
      | inr a ↦ elim (Bool-cases (s.flag t).io_list) [
        | inl y ↦ rw (ne→== t 0 n, a, y) (refl, io.1 ∙ bits)
        | inr y ↦ elim (Bool-cases (s.flag t).sleep_list) [
          | inl z ↦ rw (ne→== t 0 n, a, y, z) (refl, asleep.1 ∙ bits)
          | inr z ↦ rw (ne→== t 0 n, a, y, z) (refl, bits)
        ]
      ]
    ]

-- In a consistent scheduler whose sleep heap is full, a free thread goes to sleep: after any Wakeup
-- that ends, however late, it is in no queue and not in the heap, and its flag still says that it
-- sleeps, since Sleep ignores that HeapPush refused it.
pub asleep-full_lost :
    (s : StThreadSchedule) (t fuel now : ℕ) (s' : StThreadSchedule)
    → IsConsistent s
    → IsFree s t
    → s.sleep_list.max ≤ s.sleep_list.count
    → wakeup fuel now (asleep t s) ≡ some s'
    → (s'.link t ≡ none) × (s'.sleep_list.index t ≡ 0) × ((s'.flag t).sleep_list ≡ true)
asleep-full_lost s t fuel now s' c f full e =
    let c₁ = asleep-IsConsistent s t c f in
    let a = wakeup_result fuel now (asleep t s) s' c₁ e in
    let z : s.sleep_list.index t ≡ 0 = ground (arith, c.asleep t, f.awake) in
    let out : (asleep t s).sleep_list.index t ≡ 0 =
      unfold asleep push_sleep in
      rw (heap_push-refused s.wakeup_time s.sleep_list t (inl full)) z in
    let (i, l, g) = a.others t (inl out) in
    (
      l ∙ (unfold asleep push_sleep in f.no_link),
      i.1 out,
      rw g (unfold asleep push_sleep in ground arith),
    )
