-- ===== src/Thread/Moves.antt =====
-- src/st_thread.cc: the operations that take a thread through several queues keep the invariant.
use sthread.Prelude.{
  ℕ, ◌+◌, Bool, true, false, List, ◌∷◌, ◌≡◌, ◌≢◌, ◌⊎◌, inl, inr, arith, some, none, count, erase,
  count-erase, count-snoc, ne→==, eq→==, ℕ_discrete, Bool-cases, List-cases, ap, ◌∙◌,
}
use sthread.Thread.{
  StThreadSchedule, io_wait, run, io, pend, Queue, tailq_remove, tailq_insert_tail, set_flag,
  set_state, set_notified,
}
use sthread.Thread.Queues.{
  remove_sleep, insert_runable, remove_runable, remove_io_wait, insert_io_wait, io_wait_to_runable,
  unpend, notify, pop_runable, wake_one,
}
use sthread.Thread.Consistent.{
  IsConsistent, IsLoose, insert_runable-IsConsistent, remove_runable-IsConsistent,
  insert_sleep-IsConsistent, remove_sleep-IsConsistent,
}

-- the first two statements of RemoveIOWait and of Unpend
abbrev off_io : ℕ → StThreadSchedule → StThreadSchedule
off_io t s = tailq_remove io t (set_flag t (record (s.flag t) { io_list = false }) s)

abbrev off_pend : ℕ → StThreadSchedule → StThreadSchedule
off_pend t s = tailq_remove pend t (set_flag t (record (s.flag t) { pend_list = false }) s)

module _ (s : StThreadSchedule) (t : ℕ) (c : IsConsistent s) where
  off_io-IsConsistent :
      (s.link t ≡ none) ⊎ (s.link t ≡ some io)
      → count t s.idle ≡ 0
      → IsConsistent (off_io t s) × ((off_io t s).link t ≡ none) × (count t (off_io t s).idle ≡ 0)
  unfolding tailq_remove
  off_io-IsConsistent f d = (
    record {
      valid = ground (arith, c.valid, f);
      intact = ground (arith, c.intact, f);
      listed = λ q u. ground (arith, c.listed q u, c.listed q t, f, count-erase t u (s.queue q));
      run_flag = λ u. ground (arith, c.run_flag u, f);
      io_flag = λ u. ground (arith, c.io_flag u, f);
      pend_flag = λ u. ground (arith, c.pend_flag u, f);
      asleep = λ u m. ground (arith, c.asleep u, f);
      apart = λ u m. ground (arith, c.apart u, f);
      pooled = λ u m. ground (arith, c.pooled u, f);
      idle_once = ground (arith, c.idle_once, f);
      null_idle = ground (arith, c.null_idle, f);
      null_link = ground (arith, c.null_link, f);
      null_index = ground (arith, c.null_index, f);
    },
    ground (arith, f),
    ground (arith, f),
  )

  off_pend-IsConsistent :
      (s.link t ≡ none) ⊎ (s.link t ≡ some pend)
      → IsConsistent (off_pend t s) × ((off_pend t s).link t ≡ none)
  unfolding tailq_remove
  off_pend-IsConsistent f = (
    record {
      valid = ground (arith, c.valid, f);
      intact = ground (arith, c.intact, f);
      listed = λ q u. ground (arith, c.listed q u, c.listed q t, f, count-erase t u (s.queue q));
      run_flag = λ u. ground (arith, c.run_flag u, f);
      io_flag = λ u. ground (arith, c.io_flag u, f);
      pend_flag = λ u. ground (arith, c.pend_flag u, f);
      asleep = λ u m. ground (arith, c.asleep u, f);
      apart = λ u m. ground (arith, c.apart u, f);
      pooled = λ u m. ground (arith, c.pooled u, f);
      idle_once = ground (arith, c.idle_once, f);
      null_idle = ground (arith, c.null_idle, f);
      null_link = ground (arith, c.null_link, f);
      null_index = ground (arith, c.null_index, f);
    },
    ground (arith, f),
  )

  -- RemoveIOWait frees a thread that waits for IO, or that is in no queue
  pub remove_io_wait-IsLoose :
      t ≢ 0
      → (s.link t ≡ none) ⊎ (s.link t ≡ some io)
      → count t s.idle ≡ 0
      → IsConsistent (remove_io_wait t s).1 × IsLoose (remove_io_wait t s).1 t
  unfolding remove_io_wait
  remove_io_wait-IsLoose n f d =
      let (c₁, free, d₁) = off_io-IsConsistent f d in
      let (c₂, kept, pool, clear) = remove_sleep-IsConsistent (off_io t s) t c₁ in
      rw (ne→== t 0 n) (
        c₂,
        record {
          not_null = n;
          free_link = inl (ap (λ l. l t) kept ∙ free);
          awake = clear n;
          used = rw pool d₁;
        },
      )

  -- RemoveSleep frees a thread that is in no queue
  pub remove_sleep-IsLoose :
      t ≢ 0
      → s.link t ≡ none
      → count t s.idle ≡ 0
      → IsConsistent (remove_sleep t s).1 × IsLoose (remove_sleep t s).1 t
  remove_sleep-IsLoose n f d =
      let (c₂, kept, pool, clear) = remove_sleep-IsConsistent s t c in
      (
        c₂,
        record {
          not_null = n;
          free_link = inl (ap (λ l. l t) kept ∙ f);
          awake = clear n;
          used = rw pool d;
        },
      )

  pub io_wait_to_runable-IsConsistent :
      t ≢ 0
      → (s.link t ≡ none) ⊎ (s.link t ≡ some io)
      → count t s.idle ≡ 0
      → IsConsistent (io_wait_to_runable t s).1
  unfolding io_wait_to_runable
  io_wait_to_runable-IsConsistent n f d =
      let (c₁, free) = remove_io_wait-IsLoose n f d in
      rw (ne→== t 0 n) (insert_runable-IsConsistent (remove_io_wait t s).1 t c₁ free)

  pub unpend-IsConsistent :
      t ≢ 0
      → (s.link t ≡ none) ⊎ (s.link t ≡ some pend)
      → (s.flag t).sleep_list ≡ false
      → count t s.idle ≡ 0
      → IsConsistent (unpend t s).1
  unfolding unpend
  unpend-IsConsistent n f a d =
      let (c₁, free) = off_pend-IsConsistent f in
      rw (ne→== t 0 n) (
        insert_runable-IsConsistent (off_pend t s) t c₁ (record {
          not_null = n;
          free_link = inl free;
          awake = unfold tailq_remove in ground (arith, f);
          used = unfold tailq_remove in ground (arith, f);
        }))

  pub insert_io_wait-IsConsistent :
      (s.link t ≡ none) ⊎ (s.link t ≡ some io)
      → count t s.idle ≡ 0
      → IsConsistent (insert_io_wait t s).1
  unfolding insert_io_wait
  insert_io_wait-IsConsistent f d = elim (ℕ_discrete t 0) [
    | yes z ↦ rw (eq→== t 0 z) c
    | no n ↦ rw (ne→== t 0 n) (
        insert_sleep-IsConsistent
          (tailq_insert_tail io t
            (set_state t io_wait (set_flag t (record (s.flag t) { io_list = true }) s)))
          t
          (unfold tailq_insert_tail in
            record {
              valid = ground (arith, c.valid, f);
              intact = ground (arith, c.intact, f);
              listed = λ q u. ground (
                arith,
                c.listed q u,
                c.listed q t,
                f,
                count-erase t u (s.queue q),
                count-snoc u t (s.queue q),
                count-snoc u t (erase t (s.queue q)),
              );
              run_flag = λ u. ground (arith, c.run_flag u, f);
              io_flag = λ u. ground (arith, c.io_flag u, f);
              pend_flag = λ u. ground (arith, c.pend_flag u, f);
              asleep = λ u m. ground (arith, c.asleep u, f);
              apart = λ u m. ground (arith, c.apart u, f);
              pooled = λ u m. ground (arith, c.pooled u, f, d);
              idle_once = ground (arith, c.idle_once, f);
              null_idle = ground (arith, c.null_idle, f);
              null_link = ground (arith, c.null_link, f, n);
              null_index = ground (arith, c.null_index, f);
            })
          (inr (unfold tailq_insert_tail in ground (arith, f)))
          (unfold tailq_insert_tail in ground (arith, f)))
  ]

  io_link : (s.flag t).io_list ≡ true → s.link t ≡ some io
  io_link y = ground (arith, c.io_flag t)

  sleep_link : (s.flag t).io_list ≡ false → (s.flag t).sleep_list ≡ true → s.link t ≡ none
  sleep_link y z = ground (arith, c.io_flag t, c.apart t)

  from_io-IsConsistent :
      t ≢ 0 → (s.flag t).io_list ≡ true → IsConsistent (insert_runable t (remove_io_wait t s).1).1
  from_io-IsConsistent n y =
      let (c₁, free) =
        remove_io_wait-IsLoose n (inr (io_link y)) (ground (arith, io_link y, c.pooled t)) in
      insert_runable-IsConsistent (remove_io_wait t s).1 t c₁ free

  from_sleep-IsConsistent :
      t ≢ 0
      → (s.flag t).io_list ≡ false
      → (s.flag t).sleep_list ≡ true
      → IsConsistent (insert_runable t (remove_sleep t s).1).1
  from_sleep-IsConsistent n y z =
      let (c₁, free) = remove_sleep-IsLoose n (sleep_link y z) (ground (arith, c.pooled t)) in
      insert_runable-IsConsistent (remove_sleep t s).1 t c₁ free

  -- one round of Wakeup
  pub wake_one-IsConsistent : t ≢ 0 → (s.flag t).sleep_list ≡ true → IsConsistent (wake_one t s)
  unfolding wake_one
  wake_one-IsConsistent n z = elim (Bool-cases (s.flag t).io_list) [
    | inl y ↦ rw (y, wake_one) (from_io-IsConsistent n y)
    | inr y ↦ rw (y, wake_one) (from_sleep-IsConsistent n y z)
  ]

  pub set_notified-IsConsistent : (on : Bool) → IsConsistent (set_notified t on s)
  unfolding set_notified
  set_notified-IsConsistent on = record {
    valid = c.valid;
    intact = c.intact;
    listed = c.listed;
    run_flag = c.run_flag;
    io_flag = c.io_flag;
    pend_flag = c.pend_flag;
    asleep = c.asleep;
    apart = c.apart;
    pooled = c.pooled;
    idle_once = c.idle_once;
    null_idle = c.null_idle;
    null_link = c.null_link;
    null_index = c.null_index;
  }

-- Notify keeps the invariant for every thread, in whatever queue it is
pub notify-IsConsistent :
    (s : StThreadSchedule) (t : ℕ) → IsConsistent s → IsConsistent (notify t s).1
unfolding notify
notify-IsConsistent s t c =
    let told = set_notified-IsConsistent s t c true in
    let s₁ = set_notified t true s in
    elim (ℕ_discrete t 0) [
      | yes z ↦ rw (eq→== t 0 z) c
      | no n ↦ rw (ne→== t 0 n) (elim (ℕ_discrete t s.active_thread) [
        | yes a ↦ rw (eq→== _ _ a) told
        | no na ↦ rw (ne→== _ _ na) (elim (Bool-cases (s.flag t).io_list) [
          | inl y ↦ rw y (from_io-IsConsistent s₁ t told n (unfold set_notified in y))
          | inr y ↦ rw y (elim (Bool-cases (s.flag t).sleep_list) [
            | inl z ↦ rw z (
                from_sleep-IsConsistent s₁ t told n (unfold set_notified in y)
                  (unfold set_notified in z))
            | inr z ↦ rw z told
          ])
        ])
      ])
    ]

-- the first thread of a queue is linked to it
pub head_link :
    (s : StThreadSchedule) (q : Queue) (t : ℕ) (rest : List ℕ)
    → IsConsistent s
    → s.queue q ≡ t ∷ rest
    → (s.link t ≡ some q) × (t ≢ 0)
unfolding count
head_link s q t rest c e =
    let one : count t (s.queue q) ≡ 1 + count t rest = rw e (ground arith) in
    (ground (arith, c.listed q t), ground (arith, c.listed q t, c.null_link))

-- PopRunable keeps the invariant
pub pop_runable-IsConsistent :
    (s : StThreadSchedule) → IsConsistent s → IsConsistent (pop_runable s).1
unfolding pop_runable
pop_runable-IsConsistent s c = elim (List-cases (s.queue run)) [
  | inl e ↦ rw (e, pop_runable) c
  | inr (t, rest, e) ↦
      let (l, n) = head_link s run t rest c e in
      let r = remove_runable-IsConsistent s t c (inr l) in
      let same : (pop_runable s).1 ≡ (remove_runable t s).1 =
        rw (e, pop_runable) (unfold remove_runable tailq_remove in ground arith) in
      rw same r
]
