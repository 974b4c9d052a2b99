-- ===== src/Thread/Around.antt =====
-- src/st_thread.cc: what the parts of a wakeup leave alone.
use mathlib.Core.Path.{subst, subst₂}
use sthread.Prelude.{
  ℕ, ◌+◌, false, ◌==◌, ◌≡◌, ◌≢◌, ◌↔◌, inl, inr, arith, some, refl, sym, ne→==, Bool-cases, ◌∙◌,
}
use sthread.Heap.{StHeapList}
use sthread.Heap.Methods.{IsValid, heap_delete-Shrunk}
use mathlib.Core.Path.{subst, subst₂}
use sthread.Thread.{StThreadSchedule, run, io, pend, tailq_remove, tailq_insert_tail, set_flag}
use sthread.Thread.Queues.{insert_runable, remove_sleep, remove_io_wait, unpend}
use sthread.Thread.Consistent.{IsConsistent}
use sthread.Thread.Yield.{IsFree}

-- what no part of a wakeup changes, and what it changes of `t` alone
pub record Around (t : ℕ) (s s' : StThreadSchedule) : Type 0 where
  pub times_eq : s'.wakeup_time ≡ s.wakeup_time
  pub notified_eq : s'.notified ≡ s.notified
  pub daemon_eq : s'.daemon_thread ≡ s.daemon_thread
  pub active_eq : s'.active_thread ≡ s.active_thread
  pub idle_eq : s'.idle ≡ s.idle
  pub link_eq : (u : ℕ) → u ≢ t → s'.link u ≡ s.link u
  pub flag_eq : (u : ℕ) → u ≢ t → s'.flag u ≡ s.flag u

pub Around-trans :
    {t : ℕ} {s s' s'' : StThreadSchedule} → Around t s s' → Around t s' s'' → Around t s s''
Around-trans a b = record {
  times_eq = b.times_eq ∙ a.times_eq;
  notified_eq = b.notified_eq ∙ a.notified_eq;
  daemon_eq = b.daemon_eq ∙ a.daemon_eq;
  active_eq = b.active_eq ∙ a.active_eq;
  idle_eq = b.idle_eq ∙ a.idle_eq;
  link_eq = λ u n. b.link_eq u n ∙ a.link_eq u n;
  flag_eq = λ u n. b.flag_eq u n ∙ a.flag_eq u n;
}

pub Around-IsFree :
    {t : ℕ} {s s' : StThreadSchedule} (u : ℕ) → Around t s s' → u ≢ t → IsFree s u → IsFree s' u
Around-IsFree u a n f = record {
  not_null = f.not_null;
  no_link = a.link_eq u n ∙ f.no_link;
  awake = rw (a.flag_eq u n) f.awake;
  used = rw a.idle_eq f.used;
}

-- `t` alone has left the heap
pub record Left (t : ℕ) (h h' : StHeapList) : Type 0 where
  pub fewer : h'.count + 1 ≡ h.count
  pub out : h'.index t ≡ 0
  pub same : (u : ℕ) → u ≢ t → (h'.index u ≡ 0) ↔ (h.index u ≡ 0)

module _ (s : StThreadSchedule) (t : ℕ) (n : t ≢ 0) where
  pub insert_runable-Around :
      Around t s (insert_runable t s).1
      × ((insert_runable t s).1.sleep_list ≡ s.sleep_list)
      × ((insert_runable t s).1.link t ≡ some run)
  unfolding insert_runable tailq_insert_tail
  insert_runable-Around = rw (ne→== t 0 n) (
    record {
      times_eq = ground arith;
      notified_eq = ground arith;
      daemon_eq = ground arith;
      active_eq = ground arith;
      idle_eq = ground arith;
      link_eq = λ u m. ground arith;
      flag_eq = λ u m. ground arith;
    },
    ground arith,
    ground arith,
  )

  pub remove_sleep-Around : Around t s (remove_sleep t s).1
  unfolding remove_sleep
  remove_sleep-Around = rw (ne→== t 0 n) (elim (Bool-cases (s.sleep_list.count == 0)) [
    | inl e ↦ rw e (record {
      times_eq = refl;
      notified_eq = refl;
      daemon_eq = refl;
      active_eq = refl;
      idle_eq = refl;
      link_eq = λ u m. refl;
      flag_eq = λ u m. ground arith;
    })
    | inr e ↦ rw e (record {
      times_eq = refl;
      notified_eq = refl;
      daemon_eq = refl;
      active_eq = refl;
      idle_eq = refl;
      link_eq = λ u m. refl;
      flag_eq = λ u m. ground arith;
    })
  ])

  pub remove_sleep-Left :
      IsValid s.wakeup_time s.sleep_list
      → s.sleep_list.index t ≢ 0
      → Left t s.sleep_list (remove_sleep t s).1.sleep_list
  unfolding remove_sleep
  remove_sleep-Left v i =
      let g = (heap_delete-Shrunk s.wakeup_time s.sleep_list t v i).1 in
      rw (ne→== t 0 n, ne→== s.sleep_list.count 0 (omega (arith, (v.well_placed.indexed t i).0)))
        (record { fewer = g.count_eq; out = g.left; same = g.same })

  abbrev off_io : StThreadSchedule
  off_io = tailq_remove io t (set_flag t (record (s.flag t) { io_list = false }) s)

  off_io-Around : Around t s off_io × (off_io.sleep_list ≡ s.sleep_list)
  unfolding tailq_remove
  off_io-Around = (
    record {
      times_eq = ground arith;
      notified_eq = ground arith;
      daemon_eq = ground arith;
      active_eq = ground arith;
      idle_eq = ground arith;
      link_eq = λ u m. ground arith;
      flag_eq = λ u m. ground arith;
    },
    ground arith,
  )

module _ (s : StThreadSchedule) (t : ℕ) (n : t ≢ 0) where
  pub remove_io_wait-Around : Around t s (remove_io_wait t s).1
  unfolding remove_io_wait
  remove_io_wait-Around =
      rw (ne→== t 0 n)
        (Around-trans (off_io-Around s t n).0 (remove_sleep-Around (off_io s t n) t n))

  pub remove_io_wait-Left :
      IsConsistent s
      → s.sleep_list.index t ≢ 0
      → Left t s.sleep_list (remove_io_wait t s).1.sleep_list
  unfolding remove_io_wait
  remove_io_wait-Left c i =
      let (a, e) = off_io-Around s t n in
      let v : IsValid (off_io s t n).wakeup_time (off_io s t n).sleep_list =
        subst₂ IsValid (sym a.times_eq) (sym e) c.valid in
      let j : (off_io s t n).sleep_list.index t ≢ 0 =
        subst (λ (h : StHeapList). h.index t ≢ 0) (sym e) i in
      rw (ne→== t 0 n) (
        subst (λ h. Left t h (remove_sleep t (off_io s t n)).1.sleep_list) e
          (remove_sleep-Left (off_io s t n) t n v j))

-- the move from a wait to the run list
pub runable_after :
    {t : ℕ} {s : StThreadSchedule} (s₁ : StThreadSchedule)
    → t ≢ 0
    → Around t s s₁
    → Around t s (insert_runable t s₁).1
runable_after {t} s₁ n a = Around-trans a (insert_runable-Around s₁ t n).0

pub unpend-Around : (s : StThreadSchedule) (t : ℕ) → t ≢ 0 → Around t s (unpend t s).1
unfolding unpend
unpend-Around s t n = rw (ne→== t 0 n) (
    runable_after (tailq_remove pend t (set_flag t (record (s.flag t) { pend_list = false }) s)) n (
      unfold tailq_remove in
      record {
        times_eq = ground arith;
        notified_eq = ground arith;
        daemon_eq = ground arith;
        active_eq = ground arith;
        idle_eq = ground arith;
        link_eq = λ u m. ground arith;
        flag_eq = λ u m. ground arith;
      }))
