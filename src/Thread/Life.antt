-- ===== src/Thread/Life.antt =====
-- src/st_thread.cc: sleeping, pooling and waking keep the invariant.
use mathlib.Core.Path.{subst}
use sthread.Prelude.{
  ℕ, false, ◌≡◌, ◌≢◌, inl, arith, count-snoc, refl, sym, ne→==, eq→==, dec_lt, ◌∙◌, length, lt→ltb,
  nlt→ltb,
}
use sthread.Heap.Methods.{update-IsValid}
use sthread.Heap.Touched.{heap_push-Touched}
use sthread.Thread.{
  StThreadSchedule, tailq_insert_tail, set_wakeup_time, remove_sub_st_thread, tailq_remove_self,
}
use sthread.Thread.Queues.{push_sleep, insert_io_wait, insert_sleep}
use sthread.Thread.Switch.{
  yield, yield_if_active, sleep, asleep, pended, pend_thread, detach_wait, detach_run, detach_pend,
  detach_sub, detach_for_reuse, reset, store_thread, recycle,
}
use sthread.Thread.Consistent.{IsConsistent}
use sthread.Thread.Moves.{insert_io_wait-IsConsistent}
use sthread.Thread.Yield.{IsFree, Keeps, Keeps-trans, yield-Runs, reclaim-IsConsistent}

-- between two calls: the invariant holds, and neither the running thread nor the daemon is queued
pub record IsSafe (s : StThreadSchedule) : Type 0 where
  pub consistent : IsConsistent s
  pub active_free : IsFree s s.active_thread
  pub daemon_free : IsFree s s.daemon_thread

Keeps-daemon-IsFree :
    {s s' : StThreadSchedule} → Keeps s s' → IsFree s s.daemon_thread → IsFree s' s'.daemon_thread
Keeps-daemon-IsFree {s} {s'} k d = subst (IsFree s') (sym k.daemon_eq) (k.free s.daemon_thread d)

-- Yield ends in a state that is safe again
pub yield-IsSafe :
    (t : ℕ) (s : StThreadSchedule) → IsConsistent s → IsFree s s.daemon_thread → IsSafe (yield t s)
yield-IsSafe t s c d =
    let r = yield-Runs t s c d in
    record {
      consistent = r.keeps.consistent;
      active_free = r.active_free;
      daemon_free = Keeps-daemon-IsFree r.keeps d;
    }

yield_if_active-IsSafe :
    (t : ℕ) (s : StThreadSchedule)
    → s.active_thread ≡ t
    → IsConsistent s
    → IsFree s s.daemon_thread
    → IsSafe (yield_if_active t s)
unfolding yield_if_active
yield_if_active-IsSafe t s a c d = rw (eq→== _ t a) (yield-IsSafe t s c d)

module _ (s : StThreadSchedule) (t : ℕ) (c : IsConsistent s) (f : IsFree s t) where
  free_index : s.sleep_list.index t ≡ 0
  free_index = ground (arith, c.asleep t, f.awake)

  -- a free thread may be given a new time to wake up
  pub set_wakeup_time-IsConsistent :
      (w : ℕ) → IsConsistent (set_wakeup_time t w s) × IsFree (set_wakeup_time t w s) t
  unfolding set_wakeup_time
  set_wakeup_time-IsConsistent w = (
    record {
      valid = update-IsValid s.wakeup_time s.sleep_list t w c.valid free_index;
      intact = c.intact;
      listed = c.listed;
      run_flag = c.run_flag;
      io_flag = c.io_flag;
      pend_flag = c.pend_flag;
      asleep = c.asleep;
      apart = c.apart;
      pooled = c.pooled;
      idle_once = c.idle_once;
      null_idle = c.null_idle;
      null_link = c.null_link;
      null_index = c.null_index;
    },
    record { not_null = f.not_null; no_link = f.no_link; awake = f.awake; used = f.used },
  )

  pub asleep-IsConsistent : IsConsistent (asleep t s)
  unfolding asleep push_sleep
  asleep-IsConsistent =
      let p = heap_push-Touched s.wakeup_time s.sleep_list t c.valid f.not_null in
      record {
        valid = p.valid;
        intact = c.intact;
        listed = c.listed;
        run_flag = λ u. ground (arith, c.run_flag u);
        io_flag = λ u. ground (arith, c.io_flag u);
        pend_flag = λ u. ground (arith, c.pend_flag u);
        asleep = λ u m. ground (arith, c.asleep u, p.same u);
        apart = λ u m. ground (arith, c.apart u, f.no_link);
        pooled = λ u o. ground (arith, c.pooled u, f.used);
        idle_once = c.idle_once;
        null_idle = c.null_idle;
        null_link = c.null_link;
        null_index = ground (arith, p.same 0, c.null_index, f.not_null);
      }

  pended-IsConsistent : IsConsistent (pended t s)
  unfolding pended tailq_insert_tail
  pended-IsConsistent = record {
    valid = ground (arith, c.valid, f);
    intact = ground (arith, c.intact, f);
    listed = λ q u. ground (arith, c.listed q u, c.listed q t, f, count-snoc u t (s.queue q));
    run_flag = λ u. ground (arith, c.run_flag u, f);
    io_flag = λ u. ground (arith, c.io_flag u, f);
    pend_flag = λ u. ground (arith, c.pend_flag u, f);
    asleep = λ u m. ground (arith, c.asleep u, f);
    apart = λ u m. ground (arith, c.apart u, f);
    pooled = λ u m. ground (arith, c.pooled u, f);
    idle_once = ground (arith, c.idle_once, f);
    null_idle = ground (arith, c.null_idle, f);
    null_link = ground (arith, c.null_link, f);
    null_index = ground (arith, c.null_index, f);
  }

  -- another free thread is not touched by the queueing of `t`
  asleep-IsFree : (d : ℕ) → IsFree s d → d ≢ t → IsFree (asleep t s) d
  unfolding asleep push_sleep
  asleep-IsFree d g n = ground arith

  pended-IsFree : (d : ℕ) → IsFree s d → d ≢ t → IsFree (pended t s) d
  unfolding pended tailq_insert_tail
  pended-IsFree d g n = ground (arith, f)

  pended_daemon : (pended t s).daemon_thread ≡ s.daemon_thread
  unfolding pended tailq_insert_tail
  pended_daemon = ground (arith, f.no_link)

  insert_io_wait-IsFree : (d : ℕ) → IsFree s d → d ≢ t → IsFree (insert_io_wait t s).1 d
  unfolding insert_io_wait tailq_insert_tail insert_sleep push_sleep
  insert_io_wait-IsFree d g n = ground (arith, f)

  insert_io_wait_kept :
      ((insert_io_wait t s).1.daemon_thread ≡ s.daemon_thread)
      × ((insert_io_wait t s).1.active_thread ≡ s.active_thread)
  unfolding insert_io_wait tailq_insert_tail insert_sleep push_sleep
  insert_io_wait_kept = ground (arith, f)

  -- `t` runs and is not the daemon thread
  module _ (a : s.active_thread ≡ t) (d : IsFree s s.daemon_thread) (n : s.daemon_thread ≢ t) where
    -- Sleep of the running thread leads to a safe state, in which another thread runs
    pub sleep-IsSafe : IsSafe (sleep t s).1
    unfolding sleep
    sleep-IsSafe =
        rw (ne→== t 0 f.not_null, f.awake)
          (yield_if_active-IsSafe t (asleep t s) (unfold asleep push_sleep in a) asleep-IsConsistent
            (unfold asleep push_sleep in asleep-IsFree s.daemon_thread d n))

    -- Pend of the running thread does, too
    pub pend_thread-IsSafe : IsSafe (pend_thread t s).1
    unfolding pend_thread
    pend_thread-IsSafe = rw (ne→== t 0 f.not_null) (
        yield_if_active-IsSafe t (pended t s)
          (unfold pended tailq_insert_tail in ground (arith, f.no_link)) pended-IsConsistent
          (subst (IsFree (pended t s)) (sym pended_daemon) (pended-IsFree s.daemon_thread d n)))

    -- the part of Schedule that queues the running thread for IO and yields
    pub io_wait-IsSafe : IsSafe (yield t (insert_io_wait t s).1)
    io_wait-IsSafe =
        yield-IsSafe t (insert_io_wait t s).1
          (insert_io_wait-IsConsistent s t c (inl f.no_link) f.used)
          (subst (IsFree (insert_io_wait t s).1) (sym insert_io_wait_kept.0)
            (insert_io_wait-IsFree s.daemon_thread d n))

-- what Recycle does to a running thread before it is stored leaves it free
module _ (s : StThreadSchedule) (t : ℕ) (c : IsConsistent s) (f : IsFree s t) where
  detach_only_sub : detach_for_reuse t s ≡ detach_sub t s
  unfolding detach_for_reuse detach_pend detach_run detach_wait
  detach_only_sub =
      let x : (s.flag t).io_list ≡ false = ground (arith, c.io_flag t, f.no_link) in
      let y : (s.flag t).run_list ≡ false = ground (arith, c.run_flag t, f.no_link) in
      let z : (s.flag t).pend_list ≡ false = ground (arith, c.pend_flag t, f.no_link) in
      simp (x, f.awake, y, z)

  detach_sub-Keeps : Keeps s (detach_sub t s) × ((detach_sub t s).active_thread ≡ s.active_thread)
  unfolding detach_sub remove_sub_st_thread
  detach_sub-Keeps = (
    record {
      consistent = record {
        valid = ground (arith, c.valid);
        intact = ground (arith, c.intact);
        listed = λ q u. ground (arith, c.listed q u);
        run_flag = λ u. ground (arith, c.run_flag u);
        io_flag = λ u. ground (arith, c.io_flag u);
        pend_flag = λ u. ground (arith, c.pend_flag u);
        asleep = λ u m. ground (arith, c.asleep u);
        apart = λ u m. ground (arith, c.apart u);
        pooled = λ u m. ground (arith, c.pooled u);
        idle_once = ground (arith, c.idle_once);
        null_idle = ground (arith, c.null_idle);
        null_link = ground (arith, c.null_link);
        null_index = ground (arith, c.null_index);
      };
      daemon_eq = ground arith;
      free = λ u g. ground arith;
    },
    ground arith,
  )

  reset-Keeps : Keeps s (reset t s)
  unfolding reset tailq_remove_self
  reset-Keeps = record {
    consistent = record {
      valid =
          let v = update-IsValid s.wakeup_time s.sleep_list t 0 c.valid (free_index s t c f) in
          ground (arith, v, f.no_link);
      intact = ground (arith, c.intact, f.no_link);
      listed = λ q u. ground (arith, c.listed q u, f.no_link);
      run_flag = λ u. ground (arith, c.run_flag u, f.no_link);
      io_flag = λ u. ground (arith, c.io_flag u, f.no_link);
      pend_flag = λ u. ground (arith, c.pend_flag u, f.no_link);
      asleep = λ u m. ground (arith, c.asleep u, f.no_link, f.awake);
      apart = λ u m. ground (arith, c.apart u, f.no_link);
      pooled = λ u m. ground (arith, c.pooled u, f.no_link);
      idle_once = ground (arith, c.idle_once, f.no_link);
      null_idle = ground (arith, c.null_idle, f.no_link);
      null_link = ground (arith, c.null_link, f.no_link);
      null_index = ground (arith, c.null_index, f.no_link);
    };
    daemon_eq = ground (arith, f.no_link);
    free = λ u g. ground (arith, f.no_link);
  }

  store_thread-IsConsistent :
      (d : ℕ)
      → IsFree s d
      → d ≢ t
      → IsConsistent (store_thread t s)
        × IsFree (store_thread t s) d
        × ((store_thread t s).daemon_thread ≡ s.daemon_thread)
  unfolding store_thread
  store_thread-IsConsistent d g n = elim (dec_lt (length s.idle) s.max_free) [
    | yes room ↦ rw (lt→ltb _ _ room) (
      record {
        valid = c.valid;
        intact = c.intact;
        listed = c.listed;
        run_flag = c.run_flag;
        io_flag = c.io_flag;
        pend_flag = c.pend_flag;
        asleep = c.asleep;
        apart = c.apart;
        pooled = λ u m. ground (arith, c.pooled u, count-snoc u t s.idle, f);
        idle_once = λ u. ground (arith, c.idle_once u, count-snoc u t s.idle, f);
        null_idle = ground (arith, c.null_idle, count-snoc 0 t s.idle, f);
        null_link = c.null_link;
        null_index = c.null_index;
      },
      record {
        not_null = g.not_null;
        no_link = g.no_link;
        awake = g.awake;
        used = ground (arith, count-snoc d t s.idle, g.used);
      },
      refl,
    )
    | no full ↦ rw (nlt→ltb _ _ full) (
      reclaim-IsConsistent s t c f,
      unfold tailq_insert_tail in ground (arith, f.no_link),
      unfold tailq_insert_tail in ground (arith, f.no_link),
    )
  ]

-- From a safe scheduler, Recycle of the running thread, when it is not the daemon, leads to a safe
-- scheduler.
pub recycle-IsSafe :
    (s : StThreadSchedule) (t : ℕ)
    → IsSafe s
    → s.active_thread ≡ t
    → s.daemon_thread ≢ t
    → IsSafe (recycle t s)
unfolding recycle
recycle-IsSafe s t safe a n =
    let c = safe.consistent in
    let f : IsFree s t = subst (IsFree s) a safe.active_free in
    let (k₁, _) = detach_sub-Keeps s t c f in
    let s₁ = detach_sub t s in
    let k₂ = reset-Keeps s₁ t k₁.consistent (k₁.free t f) in
    let k = Keeps-trans k₁ k₂ in
    let s₂ = reset t s₁ in
    let d = k.free s.daemon_thread safe.daemon_free in
    let (c₃, d₃, e₃) =
      store_thread-IsConsistent s₂ t k.consistent (k.free t f) s.daemon_thread d n in
    rw (ne→== t 0 f.not_null, detach_only_sub s t c f)
      (yield-IsSafe t (store_thread t s₂) c₃
        (subst (IsFree (store_thread t s₂)) (sym (e₃ ∙ k.daemon_eq)) d₃))
