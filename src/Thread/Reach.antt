-- ===== src/Thread/Reach.antt =====
-- src/st_thread.cc and src/st_sys.h: the calls that a scheduler sees, one after the other.
use mathlib.Core.Path.{subst}
use sthread.Prelude.{
  ℕ, ◌+◌, Bool, true, false, ◌==◌, if◌then◌else◌, ◌≡◌, ◌≢◌, inl, inr, arith, some, count, refl, sym,
  ne→==, eq→==, ℕ_discrete, Bool-cases, List-cases, [], ◌∙◌,
}
use sthread.Thread.{
  StThreadSchedule, io, pend, set_wakeup_time, set_notified, take_notified, add_sub_st_thread,
  remove_sub_st_thread,
}
use sthread.Thread.Family.{
  add_sub_st_thread-IsSafe, remove_sub_st_thread-IsSafe, remove_sub_st_thread_pend,
}
use sthread.Thread.Queues.{
  insert_io_wait, io_wait_to_runable, notify, unpend, insert_runable, remove_io_wait, remove_sleep,
}
use sthread.Thread.Switch.{
  yield, sleep, pend_thread, wakeup, recycle, create_thread, alloc_thread, wakeup_parent,
}
use sthread.Thread.Consistent.{IsConsistent, insert_runable-IsConsistent}
use sthread.Thread.Moves.{
  notify-IsConsistent, io_wait_to_runable-IsConsistent, unpend-IsConsistent,
  set_notified-IsConsistent,
}
use sthread.Thread.Yield.{IsFree}
use sthread.Thread.Life.{
  IsSafe, yield-IsSafe, sleep-IsSafe, pend_thread-IsSafe, io_wait-IsSafe, recycle-IsSafe,
  set_wakeup_time-IsConsistent,
}
use sthread.Thread.Around.{
  Around, Around-IsFree, runable_after, remove_io_wait-Around, remove_sleep-Around, unpend-Around,
  insert_runable-Around,
}
use sthread.Thread.Wakeup.{wakeup_result, Awake-IsFree}

-- a call by the running thread, or by the daemon thread in its loop
pub data Step : StThreadSchedule → StThreadSchedule → Type 0 where
  -- st_sleep and st_notify_wait: StThread::Sleep sets the time to wake up
  sleeps :
      (s : StThreadSchedule) (w : ℕ)
      → s.active_thread ≢ s.daemon_thread
      → Step s (sleep s.active_thread (set_wakeup_time s.active_thread w s)).1
  -- Schedule: the running thread waits for IO
  waits :
      (s : StThreadSchedule) (w : ℕ)
      → s.active_thread ≢ s.daemon_thread
      → Step s (
          yield s.active_thread
            (insert_io_wait s.active_thread (set_wakeup_time s.active_thread w s)).1)
  pends :
      (s : StThreadSchedule)
      → s.active_thread ≢ s.daemon_thread
      → Step s (pend_thread s.active_thread s).1
  -- Recycle: the callback of the running thread is over
  ends :
      (s : StThreadSchedule)
      → s.active_thread ≢ s.daemon_thread
      → Step s (recycle s.active_thread s)
  notifies : (s : StThreadSchedule) (t : ℕ) → Step s (notify t s).1
  takes : (s : StThreadSchedule) → Step s (take_notified s.active_thread s).1
  -- Dispatch: the event of a thread that waits for IO
  fires :
      (s : StThreadSchedule) (t : ℕ) → (s.flag t).io_list ≡ true → Step s (io_wait_to_runable t s).1
  unpends : (s : StThreadSchedule) (t : ℕ) → (s.flag t).pend_list ≡ true → Step s (unpend t s).1
  joins : (s : StThreadSchedule) (p sub : ℕ) → Step s (add_sub_st_thread p sub s)
  -- WakeupParent, where a parent whose last sub-thread this is has pended
  leaves :
      (s : StThreadSchedule) (t : ℕ)
      → ((remove_sub_st_thread (s.parent t) t s).sub_threads (s.parent t) ≡ []
          → (s.flag (s.parent t)).pend_list ≡ true)
      → Step s (wakeup_parent t s)
  -- CreateThread; `new` returns a thread that is in no queue
  creates :
      (s : StThreadSchedule) (fresh : ℕ) (b : Bool)
      → IsFree s fresh
      → fresh ≢ s.active_thread
      → fresh ≢ s.daemon_thread
      → Step s (create_thread fresh b s).1
  -- a round of the daemon's loop
  turns :
      (s s' : StThreadSchedule) (fuel now : ℕ)
      → s.active_thread ≡ s.daemon_thread
      → wakeup fuel now s ≡ some s'
      → Step s (yield s.daemon_thread s')

pub data Reach (s : StThreadSchedule) : StThreadSchedule → Type 0 where
  here : Reach s s
  next : {t u : StThreadSchedule} → Reach s t → Step t u → Reach s u

-- a queued or sleeping thread is neither the running one nor the daemon
Around-IsSafe :
    {t : ℕ} {s s' : StThreadSchedule}
    → IsSafe s
    → Around t s s'
    → IsConsistent s'
    → s.active_thread ≢ t
    → s.daemon_thread ≢ t
    → IsSafe s'
Around-IsSafe {s' = s'} safe a c m n = record {
  consistent = c;
  active_free = subst (IsFree s') (sym a.active_eq) (Around-IsFree _ a m safe.active_free);
  daemon_free = subst (IsFree s') (sym a.daemon_eq) (Around-IsFree _ a n safe.daemon_free);
}

io_apart :
    (s : StThreadSchedule) (t u : ℕ)
    → IsConsistent s
    → (s.flag t).io_list ≡ true
    → IsFree s u
    → u ≢ t
io_apart s t u c y f e = ground (arith, c.io_flag t, f.no_link)

fires-IsSafe :
    (s : StThreadSchedule) (t : ℕ)
    → IsSafe s
    → (s.flag t).io_list ≡ true
    → IsSafe (io_wait_to_runable t s).1
fires-IsSafe s t safe y =
    let c = safe.consistent in
    let n : t ≢ 0 = λ z. ground (arith, c.io_flag t, c.null_link) in
    let l : s.link t ≡ some io = ground (arith, c.io_flag t) in
    Around-IsSafe {t = t} {s' = (io_wait_to_runable t s).1} safe
      (unfold io_wait_to_runable in
        rw (ne→== t 0 n) (runable_after (remove_io_wait t s).1 n (remove_io_wait-Around s t n)))
      (io_wait_to_runable-IsConsistent s t c n (inr l) (ground (arith, l, c.pooled t)))
      (io_apart s t s.active_thread c y safe.active_free)
      (io_apart s t s.daemon_thread c y safe.daemon_free)

-- the sticky bit is in nobody's way
set_notified-IsSafe :
    (s : StThreadSchedule) (t : ℕ) (on : Bool) → IsSafe s → IsSafe (set_notified t on s)
set_notified-IsSafe s t on safe =
    let a = safe.active_free in
    let d = safe.daemon_free in
    record {
      consistent = set_notified-IsConsistent s t safe.consistent on;
      active_free =
          unfold set_notified in
          record { not_null = a.not_null; no_link = a.no_link; awake = a.awake; used = a.used };
      daemon_free =
          unfold set_notified in
          record { not_null = d.not_null; no_link = d.no_link; awake = d.awake; used = d.used };
    }

-- Notify keeps the scheduler safe, whatever the thread waits for
pub notify-IsSafe : (s : StThreadSchedule) (t : ℕ) → IsSafe s → IsSafe (notify t s).1
unfolding notify set_notified
notify-IsSafe s t safe =
    let s₁ = set_notified t true s in
    let told = set_notified-IsSafe s t true safe in
    let c = told.consistent in
    let c' = notify-IsConsistent s t safe.consistent in
    elim (ℕ_discrete t 0) [
      | yes z ↦ rw (eq→== t 0 z) safe
      | no n ↦ elim (ℕ_discrete t s.active_thread) [
        | yes a ↦ rw (ne→== t 0 n, eq→== _ _ a) told
        | no na ↦ elim (Bool-cases (s.flag t).io_list) [
          | inl y ↦
              rw (ne→== t 0 n, ne→== _ _ na, y)
                (Around-IsSafe {t = t} {s' = (insert_runable t (remove_io_wait t s₁).1).1} told
                  (runable_after (remove_io_wait t s₁).1 n (remove_io_wait-Around s₁ t n))
                  (rw (ne→== t 0 n, ne→== _ _ na, y) at c') (λ e. na (sym e))
                  (io_apart s t s.daemon_thread safe.consistent y safe.daemon_free))
          | inr y ↦ elim (Bool-cases (s.flag t).sleep_list) [
            | inl z ↦
                rw (ne→== t 0 n, ne→== _ _ na, y, z)
                  (Around-IsSafe {t = t} {s' = (insert_runable t (remove_sleep t s₁).1).1} told
                    (runable_after (remove_sleep t s₁).1 n (remove_sleep-Around s₁ t n))
                    (rw (ne→== t 0 n, ne→== _ _ na, y, z) at c') (λ e. na (sym e))
                    (λ e. let f = safe.daemon_free.awake in ground arith))
            | inr z ↦ rw (ne→== t 0 n, ne→== _ _ na, y, z) told
          ]
        ]
      ]
    ]

unpends-IsSafe :
    (s : StThreadSchedule) (t : ℕ) → IsSafe s → (s.flag t).pend_list ≡ true → IsSafe (unpend t s).1
unpends-IsSafe s t safe y =
    let c = safe.consistent in
    let n : t ≢ 0 = λ z. ground (arith, c.pend_flag t, c.null_link) in
    let l : s.link t ≡ some pend = ground (arith, c.pend_flag t) in
    let d : count t s.idle ≡ 0 = ground (arith, l, c.pooled t) in
    Around-IsSafe {t = t} {s' = (unpend t s).1} safe (unpend-Around s t n)
      (unpend-IsConsistent s t c n (inr l) (ground (arith, l, c.apart t)) d)
      (λ e. let f = safe.active_free.no_link in ground arith)
      (λ e. let f = safe.daemon_free.no_link in ground arith)

leaves-IsSafe :
    (s : StThreadSchedule) (t : ℕ)
    → IsSafe s
    → ((remove_sub_st_thread (s.parent t) t s).sub_threads (s.parent t) ≡ []
        → (s.flag (s.parent t)).pend_list ≡ true)
    → IsSafe (wakeup_parent t s)
unfolding wakeup_parent
leaves-IsSafe s t safe pended =
    let p = s.parent t in
    let s₁ = remove_sub_st_thread p t s in
    let left = remove_sub_st_thread-IsSafe p t s safe in
    elim (Bool-cases (p == 0)) [
      | inl z ↦ rw z safe
      | inr z ↦ elim (List-cases (s₁.sub_threads p)) [
        | inl e ↦
            rw (z, e, wakeup_parent)
              (unpends-IsSafe s₁ p left (remove_sub_st_thread_pend p t p s ∙ pended e))
        | inr (x, rest, e) ↦ rw (z, e, wakeup_parent) left
      ]
    ]

turn-IsSafe :
    (s s' : StThreadSchedule) (fuel now : ℕ)
    → IsSafe s
    → wakeup fuel now s ≡ some s'
    → IsSafe (yield s.daemon_thread s')
turn-IsSafe s s' fuel now safe e =
    let a = wakeup_result fuel now s s' safe.consistent e in
    yield-IsSafe s.daemon_thread s' a.consistent (
      subst (IsFree s') (sym a.daemon_eq)
        (Awake-IsFree now s s' s.daemon_thread safe.consistent a safe.daemon_free))

-- AllocThread hands out a thread that is in no queue, and that is neither the running one nor the daemon
alloc_thread-IsConsistent :
    (s : StThreadSchedule) (fresh : ℕ)
    → IsSafe s
    → IsFree s fresh
    → fresh ≢ s.active_thread
    → fresh ≢ s.daemon_thread
    → IsSafe (alloc_thread fresh s).1
      × IsFree (alloc_thread fresh s).1 (alloc_thread fresh s).0
      × ((alloc_thread fresh s).0 ≢ (alloc_thread fresh s).1.active_thread)
      × ((alloc_thread fresh s).0 ≢ (alloc_thread fresh s).1.daemon_thread)
unfolding alloc_thread count
alloc_thread-IsConsistent s fresh safe f m n =
    let c = safe.consistent in
    let x = safe.active_free in
    let y = safe.daemon_free in
    elim (List-cases s.idle) [
      | inl e ↦
          rw (e, alloc_thread)
            (
              record {
                consistent = record {
                  valid = c.valid;
                  intact = c.intact;
                  listed = c.listed;
                  run_flag = c.run_flag;
                  io_flag = c.io_flag;
                  pend_flag = c.pend_flag;
                  asleep = c.asleep;
                  apart = c.apart;
                  pooled = c.pooled;
                  idle_once = c.idle_once;
                  null_idle = c.null_idle;
                  null_link = c.null_link;
                  null_index = c.null_index;
                };
                active_free = record {
                  not_null = x.not_null;
                  no_link = x.no_link;
                  awake = x.awake;
                  used = x.used;
                };
                daemon_free = record {
                  not_null = y.not_null;
                  no_link = y.no_link;
                  awake = y.awake;
                  used = y.used;
                };
              },
              record { not_null = f.not_null; no_link = f.no_link; awake = f.awake; used = f.used },
              m,
              n,
            )
      | inr (t, rest, e) ↦
          let split : (u : ℕ) → count u s.idle ≡ (if u == t then 1 else 0) + count u rest =
            λ u. rw e refl in
          rw (e, alloc_thread)
            (
              record {
                consistent = record {
                  valid = c.valid;
                  intact = c.intact;
                  listed = c.listed;
                  run_flag = c.run_flag;
                  io_flag = c.io_flag;
                  pend_flag = c.pend_flag;
                  asleep = c.asleep;
                  apart = c.apart;
                  pooled = λ u o. c.pooled u (omega (arith, split u));
                  idle_once = λ u. omega (arith, split u, c.idle_once u);
                  null_idle = omega (arith, split 0, c.null_idle);
                  null_link = c.null_link;
                  null_index = c.null_index;
                };
                active_free = record {
                  not_null = x.not_null;
                  no_link = x.no_link;
                  awake = x.awake;
                  used = omega (arith, split s.active_thread, x.used);
                };
                daemon_free = record {
                  not_null = y.not_null;
                  no_link = y.no_link;
                  awake = y.awake;
                  used = omega (arith, split s.daemon_thread, y.used);
                };
              },
              record {
                not_null = λ z. ground (arith, split 0, c.null_idle);
                no_link = ground (arith, split t, c.pooled t);
                awake = ground (arith, split t, c.pooled t);
                used = ground (arith, split t, c.idle_once t);
              },
              (λ z. ground (arith, split s.active_thread, x.used)),
              (λ z. ground (arith, split s.daemon_thread, y.used)),
            )
    ]

create-IsSafe :
    (s : StThreadSchedule) (fresh : ℕ) (b : Bool)
    → IsSafe s
    → IsFree s fresh
    → fresh ≢ s.active_thread
    → fresh ≢ s.daemon_thread
    → IsSafe (create_thread fresh b s).1
create-IsSafe s fresh b safe f m n =
    let (c, g, d, a) = alloc_thread-IsConsistent s fresh safe f m n in
    let t = (alloc_thread fresh s).0 in
    let s₁ = (alloc_thread fresh s).1 in
    elim (Bool-cases b) [
      | inr e ↦ unfold create_thread in rw (ne→== t 0 g.not_null, e) c
      | inl e ↦
          unfold create_thread in
          rw (ne→== t 0 g.not_null, e)
            (Around-IsSafe {t = t} {s' = (insert_runable t s₁).1} c
              (insert_runable-Around s₁ t g.not_null).0
              (insert_runable-IsConsistent s₁ t c.consistent (record {
                not_null = g.not_null;
                free_link = inl g.no_link;
                awake = g.awake;
                used = g.used;
              }))
              (λ z. d (sym z)) (λ z. a (sym z)))
    ]

-- the running thread sets its time to wake up
timed :
    (s : StThreadSchedule) (w : ℕ)
    → IsSafe s
    → IsConsistent (set_wakeup_time s.active_thread w s)
      × IsFree (set_wakeup_time s.active_thread w s) s.active_thread
      × IsFree
          (set_wakeup_time s.active_thread w s)
          (set_wakeup_time s.active_thread w s).daemon_thread
timed s w safe =
    let (c, f) =
      set_wakeup_time-IsConsistent s s.active_thread safe.consistent safe.active_free w in
    let d = safe.daemon_free in
    (
      c,
      f,
      unfold set_wakeup_time in
          record { not_null = d.not_null; no_link = d.no_link; awake = d.awake; used = d.used },
    )

-- every state that the calls lead to from a safe one is safe
pub Step-IsSafe : {s s' : StThreadSchedule} → Step s s' → IsSafe s → IsSafe s'
Step-IsSafe (sleeps s w n) safe =
    let (c, f, d) = timed s w safe in
    sleep-IsSafe (set_wakeup_time s.active_thread w s) s.active_thread c f
      (unfold set_wakeup_time in refl) d (λ e. n (unfold set_wakeup_time in sym e))
Step-IsSafe (waits s w n) safe =
    let (c, f, d) = timed s w safe in
    io_wait-IsSafe (set_wakeup_time s.active_thread w s) s.active_thread c f
      (unfold set_wakeup_time in refl) d (λ e. n (unfold set_wakeup_time in sym e))
Step-IsSafe (pends s n) safe =
    pend_thread-IsSafe s s.active_thread safe.consistent safe.active_free refl safe.daemon_free
      (λ e. n (sym e))
Step-IsSafe (ends s n) safe = recycle-IsSafe s s.active_thread safe refl (λ e. n (sym e))
Step-IsSafe (notifies s t) safe = notify-IsSafe s t safe
Step-IsSafe (takes s) safe =
    unfold take_notified set_notified in set_notified-IsSafe s s.active_thread false safe
Step-IsSafe (fires s t y) safe = fires-IsSafe s t safe y
Step-IsSafe (unpends s t y) safe = unpends-IsSafe s t safe y
Step-IsSafe (joins s p sub) safe = add_sub_st_thread-IsSafe p sub s safe
Step-IsSafe (leaves s t pended) safe = leaves-IsSafe s t safe pended
Step-IsSafe (creates s fresh b f m n) safe = create-IsSafe s fresh b safe f m n
Step-IsSafe (turns s s' fuel now a e) safe = turn-IsSafe s s' fuel now safe e

pub Reach-IsSafe : {s s' : StThreadSchedule} → IsSafe s → Reach s s' → IsSafe s'
Reach-IsSafe safe here = safe
Reach-IsSafe safe (next r st) = Step-IsSafe st (Reach-IsSafe safe r)

pub Reach-trans : {s t u : StThreadSchedule} → Reach s t → Reach t u → Reach s u
Reach-trans p here = p
Reach-trans p (next r st) = next (Reach-trans p r) st
