-- ===== src/Thread/Consistent.antt =====
-- src/st_thread.cc: the invariant of StThreadSchedule, and the operations on one queue that keep it.
use sthread.Prelude.{
  ℕ, ◌≤◌, true, false, if◌then◌else◌, ◌≡◌, ◌≢◌, ◌⊎◌, arith, some, none, count, erase, count-erase,
  count-snoc, refl, ne→==, eq→==, ℕ_discrete,
}
use sthread.Heap.Methods.{IsValid}
use sthread.Heap.Touched.{heap_push-Touched, heap_delete-Touched}
use sthread.Thread.{StThreadSchedule, run, io, pend, Queue, is_in}
use sthread.Thread.Queues.{insert_sleep, remove_sleep, insert_runable, remove_runable}

pub record IsConsistent (s : StThreadSchedule) : Type 0 where
  -- the sleep heap is one, ordered by the wakeup times
  pub valid : IsValid s.wakeup_time s.sleep_list
  -- no macro was given the head of another queue
  pub intact : s.corrupt ≡ false
  -- a thread is listed once, in the queue that its entry names
  pub listed : (q : Queue) (t : ℕ) → count t (s.queue q) ≡ (if is_in (s.link t) q then 1 else 0)
  -- the flags say which queue that is
  pub run_flag : (t : ℕ) → (s.flag t).run_list ≡ is_in (s.link t) run
  pub io_flag : (t : ℕ) → (s.flag t).io_list ≡ is_in (s.link t) io
  pub pend_flag : (t : ℕ) → (s.flag t).pend_list ≡ is_in (s.link t) pend
  -- a thread in the heap has its flag set, and one with the flag is in no queue but that of IO
  pub asleep : (t : ℕ) → s.sleep_list.index t ≢ 0 → (s.flag t).sleep_list ≡ true
  pub apart : (t : ℕ) → (s.flag t).sleep_list ≡ true → (s.link t ≡ none) ⊎ (s.link t ≡ some io)
  -- a pooled thread stands in the pool once, is in no queue not asleep,
  -- and not pooled
  pub pooled : (t : ℕ) → count t s.idle ≢ 0 → (s.link t ≡ none) × ((s.flag t).sleep_list ≡ false)
  pub idle_once : (t : ℕ) → count t s.idle ≤ 1
  -- NULL is nowhere
  pub null_idle : count 0 s.idle ≡ 0
  pub null_link : s.link 0 ≡ none
  pub null_index : s.sleep_list.index 0 ≡ 0

-- a thread that InsertRunable may take: in no queue or in the run list already, not asleep,
-- and not pooled
pub record IsLoose (s : StThreadSchedule) (t : ℕ) : Type 0 where
  pub not_null : t ≢ 0
  pub free_link : (s.link t ≡ none) ⊎ (s.link t ≡ some run)
  pub awake : (s.flag t).sleep_list ≡ false
  pub used : count t s.idle ≡ 0

pub insert_runable-IsConsistent :
    (s : StThreadSchedule) (t : ℕ)
    → IsConsistent s
    → IsLoose s t
    → IsConsistent (insert_runable t s).1
unfolding insert_runable
insert_runable-IsConsistent s t c f = rw (ne→== t 0 f.not_null) (record {
  valid = ground (arith, c.valid, f.free_link);
  intact = ground (arith, c.intact, f.free_link);
  listed = λ q u. ground (
    arith,
    c.listed q u,
    c.listed q t,
    f.free_link,
    count-erase t u (s.queue q),
    count-snoc u t (s.queue q),
    count-snoc u t (erase t (s.queue q)),
  );
  run_flag = λ u. ground (arith, c.run_flag u, f.free_link);
  io_flag = λ u. ground (arith, c.io_flag u, f.free_link);
  pend_flag = λ u. ground (arith, c.pend_flag u, f.free_link);
  asleep = λ u n. ground (arith, c.asleep u, f.free_link, f.awake);
  apart = λ u n. ground (arith, c.apart u, f.free_link, f.awake);
  pooled = λ u n. ground (arith, c.pooled u, f.free_link, f.used);
  idle_once = ground (arith, c.idle_once, f.free_link);
  null_idle = ground (arith, c.null_idle, f.free_link);
  null_link = ground (arith, c.null_link, f.free_link, f.not_null);
  null_index = ground (arith, c.null_index, f.free_link);
})

pub remove_runable-IsConsistent :
    (s : StThreadSchedule) (t : ℕ)
    → IsConsistent s
    → (s.link t ≡ none) ⊎ (s.link t ≡ some run)
    → IsConsistent (remove_runable t s).1
unfolding remove_runable
remove_runable-IsConsistent s t c f = elim (ℕ_discrete t 0) [
  | yes z ↦ rw (eq→== t 0 z) c
  | no n ↦ rw (ne→== t 0 n) (record {
    valid = ground (arith, c.valid, f);
    intact = ground (arith, c.intact, f);
    listed = λ q u. ground (arith, c.listed q u, c.listed q t, f, count-erase t u (s.queue q));
    run_flag = λ u. ground (arith, c.run_flag u, f);
    io_flag = λ u. ground (arith, c.io_flag u, f);
    pend_flag = λ u. ground (arith, c.pend_flag u, f);
    asleep = λ u m. ground (arith, c.asleep u, f);
    apart = λ u m. ground (arith, c.apart u, f);
    pooled = λ u m. ground (arith, c.pooled u, f);
    idle_once = ground (arith, c.idle_once, f);
    null_idle = ground (arith, c.null_idle, f);
    null_link = ground (arith, c.null_link, f);
    null_index = ground (arith, c.null_index, f);
  })
]

pub insert_sleep-IsConsistent :
    (s : StThreadSchedule) (t : ℕ)
    → IsConsistent s
    → (s.link t ≡ none) ⊎ (s.link t ≡ some io)
    → count t s.idle ≡ 0
    → IsConsistent (insert_sleep t s).1
unfolding insert_sleep
insert_sleep-IsConsistent s t c f d = elim (ℕ_discrete t 0) [
  | yes z ↦ rw (eq→== t 0 z) c
  | no n ↦
      let p = heap_push-Touched s.wakeup_time s.sleep_list t c.valid n in
      rw (ne→== t 0 n) (record {
        valid = p.valid;
        intact = c.intact;
        listed = c.listed;
        run_flag = λ u. ground (arith, c.run_flag u);
        io_flag = λ u. ground (arith, c.io_flag u);
        pend_flag = λ u. ground (arith, c.pend_flag u);
        asleep = λ u m. ground (arith, c.asleep u, p.same u);
        apart = λ u m. ground (arith, c.apart u, p.same u, f);
        pooled = λ u o. ground (arith, c.pooled u);
        idle_once = c.idle_once;
        null_idle = c.null_idle;
        null_link = c.null_link;
        null_index = ground (arith, p.same 0, c.null_index);
      })
]

-- RemoveSleep keeps the invariant for any thread, and clears the flag
pub remove_sleep-IsConsistent :
    (s : StThreadSchedule) (t : ℕ)
    → IsConsistent s
    → IsConsistent (remove_sleep t s).1
      × ((remove_sleep t s).1.link ≡ s.link)
      × ((remove_sleep t s).1.idle ≡ s.idle)
      × (t ≢ 0 → ((remove_sleep t s).1.flag t).sleep_list ≡ false)
unfolding remove_sleep
remove_sleep-IsConsistent s t c = elim (ℕ_discrete t 0) [
  | yes z ↦ rw (eq→== t 0 z) (c, refl, refl, λ n. absurd (n z))
  | no n ↦ rw (ne→== t 0 n) (elim (ℕ_discrete s.sleep_list.count 0) [
    | yes e ↦ rw (eq→== _ 0 e) (
      record {
        valid = c.valid;
        intact = c.intact;
        listed = c.listed;
        run_flag = λ u. ground (arith, c.run_flag u);
        io_flag = λ u. ground (arith, c.io_flag u);
        pend_flag = λ u. ground (arith, c.pend_flag u);
        asleep = λ u m. absurd (omega (arith, (c.valid.well_placed.indexed u m).0));
        apart = λ u m. ground (arith, c.apart u);
        pooled = λ u o. ground (arith, c.pooled u);
        idle_once = c.idle_once;
        null_idle = c.null_idle;
        null_link = c.null_link;
        null_index = c.null_index;
      },
      refl,
      refl,
      λ _. ground arith,
    )
    | no m ↦
        let (p, out) = heap_delete-Touched s.wakeup_time s.sleep_list t c.valid in
        rw (ne→== _ 0 m) (
          record {
            valid = p.valid;
            intact = c.intact;
            listed = c.listed;
            run_flag = λ u. ground (arith, c.run_flag u);
            io_flag = λ u. ground (arith, c.io_flag u);
            pend_flag = λ u. ground (arith, c.pend_flag u);
            asleep = λ u k. ground (arith, c.asleep u, p.same u, out);
            apart = λ u k. ground (arith, c.apart u);
            pooled = λ u o. ground (arith, c.pooled u);
            idle_once = c.idle_once;
            null_idle = c.null_idle;
            null_link = c.null_link;
            null_index = ground (arith, p.same 0, c.null_index, out);
          },
          refl,
          refl,
          λ _. ground arith,
        )
  ])
]
