-- ===== src/Thread/Wakeup.antt =====
-- src/st_thread.cc: Wakeup ends, wakes every thread whose time has come and no other.
use sthread.Prelude.{
  ℕ, zero, suc, ◌≤◌, ◌<◌, true, false, ◌≡◌, ◌≢◌, ◌⊎◌, ◌↔◌, inl, inr, arith, some, refl, sym,
  ℕ_discrete, Bool-cases, ap, ◌∙◌,
}
use sthread.Heap.{heap_top}
use sthread.Heap.Pop.{heap_top_least}
use mathlib.Core.Path.{subst}
use sthread.Thread.{StThreadSchedule, run}
use sthread.Thread.Queues.{wake_one, insert_runable, remove_sleep, remove_io_wait}
use sthread.Thread.Switch.{wakeup, is_due}
use sthread.Thread.Consistent.{IsConsistent}
use sthread.Thread.Moves.{wake_one-IsConsistent}
use sthread.Thread.Yield.{IsFree}
use sthread.Thread.Around.{
  Around, Around-trans, Left, insert_runable-Around, remove_sleep-Around, remove_sleep-Left,
  remove_io_wait-Around, remove_io_wait-Left,
}

-- what one round changes
record Woken (t : ℕ) (s s' : StThreadSchedule) : Type 0 where
  around : Around t s s'
  left : Left t s.sleep_list s'.sleep_list
  queued : s'.link t ≡ some run

module _ (s : StThreadSchedule) (t : ℕ) (n : t ≢ 0) (c : IsConsistent s)
    (i : s.sleep_list.index t ≢ 0) where
  wake_one-Woken : Woken t s (wake_one t s)
  wake_one-Woken = elim (Bool-cases (s.flag t).io_list) [
    | inl y ↦
        unfold wake_one in
        rw (y, wake_one)
          (finish (remove_io_wait t s).1 (remove_io_wait-Around s t n)
            (remove_io_wait-Left s t n c i))
    | inr y ↦
        unfold wake_one in
        rw (y, wake_one)
          (finish (remove_sleep t s).1 (remove_sleep-Around s t n)
            (remove_sleep-Left s t n c.valid i))
  ]
    where
      finish :
          (s₁ : StThreadSchedule)
          → Around t s s₁
          → Left t s.sleep_list s₁.sleep_list
          → Woken t s (insert_runable t s₁).1
      finish s₁ a l =
          let (b, e, q) = insert_runable-Around s₁ t n in
          record {
            around = Around-trans a b;
            left = subst (Left t s.sleep_list) (sym e) l;
            queued = q;
          }

-- the state after Wakeup at the time `now`
pub record Awake (now : ℕ) (s s' : StThreadSchedule) : Type 0 where
  pub consistent : IsConsistent s'
  -- every thread that was due is in the run list
  pub woken :
      (t : ℕ)
      → s.sleep_list.index t ≢ 0
      → s.wakeup_time t ≤ now
      → (s'.sleep_list.index t ≡ 0) × (s'.link t ≡ some run)
  -- every other thread stands where it did
  pub others :
      (t : ℕ)
      → s.sleep_list.index t ≡ 0 ⊎ now < s.wakeup_time t
      → ((s'.sleep_list.index t ≡ 0) ↔ (s.sleep_list.index t ≡ 0))
        × (s'.link t ≡ s.link t)
        × (s'.flag t ≡ s.flag t)
  pub times_eq : s'.wakeup_time ≡ s.wakeup_time
  pub daemon_eq : s'.daemon_thread ≡ s.daemon_thread
  pub active_eq : s'.active_thread ≡ s.active_thread
  pub idle_eq : s'.idle ≡ s.idle

module _ (now : ℕ) (s : StThreadSchedule) (c : IsConsistent s) where
  due_top :
      is_due now s ≡ true
      → (heap_top s.sleep_list ≢ 0)
        × (s.sleep_list.index (heap_top s.sleep_list) ≢ 0)
        × (s.wakeup_time (heap_top s.sleep_list) ≤ now)
  unfolding is_due heap_top
  due_top e = ground (arith, c.valid.well_placed.placed 1)

  due_none : is_due now s ≡ false → (t : ℕ) → s.sleep_list.index t ≢ 0 → now < s.wakeup_time t
  unfolding is_due
  due_none e t i =
      let l = heap_top_least s.wakeup_time s.sleep_list t c.valid i in
      ground (arith, l, c.null_index)

module _ (now t : ℕ) (s s₁ s' : StThreadSchedule) (i : s.sleep_list.index t ≢ 0)
    (w : s.wakeup_time t ≤ now) (k : Woken t s s₁) (a : Awake now s₁ s') where
  same_time : (u : ℕ) → s₁.wakeup_time u ≡ s.wakeup_time u
  same_time u = ap (λ f. f u) k.around.times_eq

  Awake-after : Awake now s s'
  Awake-after = record {
    consistent = a.consistent;
    woken = λ u j v. elim (ℕ_discrete u t) [
      | yes e ↦ let (z, l, _) = a.others t (inl k.left.out) in rw e (z.1 k.left.out, l ∙ k.queued)
      | no m ↦ a.woken u (λ z. j ((k.left.same u m).0 z)) (rw (same_time u) v)
    ];
    others = λ u o.
        let m : u ≢ t = other u o in
        let (z, l, f) = a.others u (still u m o) in
        (
          (λ x. (k.left.same u m).0 (z.0 x), λ x. z.1 ((k.left.same u m).1 x)),
          l ∙ k.around.link_eq u m,
          f ∙ k.around.flag_eq u m,
        );
    times_eq = a.times_eq ∙ k.around.times_eq;
    daemon_eq = a.daemon_eq ∙ k.around.daemon_eq;
    active_eq = a.active_eq ∙ k.around.active_eq;
    idle_eq = a.idle_eq ∙ k.around.idle_eq;
  }
    where
      other : (u : ℕ) → s.sleep_list.index u ≡ 0 ⊎ now < s.wakeup_time u → u ≢ t
      other u (inl z) e = i (rw e at z)
      other u (inr l) e = absurd (let h : now < s.wakeup_time t = rw e at l in omega arith)

      still :
          (u : ℕ)
          → u ≢ t
          → s.sleep_list.index u ≡ 0 ⊎ now < s.wakeup_time u
          → s₁.sleep_list.index u ≡ 0 ⊎ now < s₁.wakeup_time u
      still u m (inl z) = inl ((k.left.same u m).1 z)
      still u m (inr l) = inr (rw (same_time u) l)

Awake-refl :
    (now : ℕ) (s : StThreadSchedule) → IsConsistent s → is_due now s ≡ false → Awake now s s
Awake-refl now s c e = record {
  consistent = c;
  woken = λ t i w. absurd (omega (arith, due_none now s c e t i));
  others = λ t o. ((λ z. z, λ z. z), refl, refl);
  times_eq = refl;
  daemon_eq = refl;
  active_eq = refl;
  idle_eq = refl;
}

-- From a consistent scheduler, with more fuel than there are sleeping threads, Wakeup ends. The
-- scheduler is consistent again, every thread that slept and was due by now is out of the sleep heap
-- and in the run list, and every other thread stands where it did, with its flags; no time to wake up,
-- nor which threads are active, daemon and idle, has changed.
pub wakeup-Awake :
    (fuel now : ℕ) (s : StThreadSchedule)
    → IsConsistent s
    → s.sleep_list.count < fuel
    → (s' : StThreadSchedule) × (wakeup fuel now s ≡ some s') × Awake now s s'
unfolding wakeup
wakeup-Awake zero now s c m = absurd (omega arith)
wakeup-Awake (suc fuel) now s c m = elim (Bool-cases (is_due now s)) [
  | inr e ↦ (s, rw e, Awake-refl now s c e)
  | inl e ↦
      let t = heap_top s.sleep_list in
      let (n, i, w) = due_top now s c e in
      let k = wake_one-Woken s t n c i in
      let c₁ = wake_one-IsConsistent s t c n (c.asleep t i) in
      let (s', ends, a) = wakeup-Awake fuel now (wake_one t s) c₁ (omega (arith, k.left.fewer)) in
      (s', rw e ends, Awake-after now t s (wake_one t s) s' i w k a)
]

-- whatever fuel it had: when Wakeup ends, this is its state
pub wakeup_result :
    (fuel now : ℕ) (s s' : StThreadSchedule)
    → IsConsistent s
    → wakeup fuel now s ≡ some s'
    → Awake now s s'
unfolding wakeup
wakeup_result zero now s s' c e = cc
wakeup_result (suc fuel) now s s' c e = elim (Bool-cases (is_due now s)) [
  | inr f ↦ subst (Awake now s) (let g : some s ≡ some s' = rw f at e in cc) (Awake-refl now s c f)
  | inl f ↦
      let t = heap_top s.sleep_list in
      let (n, i, w) = due_top now s c f in
      Awake-after now t s (wake_one t s) s' i w (wake_one-Woken s t n c i) (
        wakeup_result fuel now (wake_one t s) s' (wake_one-IsConsistent s t c n (c.asleep t i))
          (rw f at e))
]

-- Wakeup leaves a thread that runs alone
pub Awake-IsFree :
    (now : ℕ) (s s' : StThreadSchedule) (u : ℕ)
    → IsConsistent s
    → Awake now s s'
    → IsFree s u
    → IsFree s' u
Awake-IsFree now s s' u c a f =
    let (_, l, g) = a.others u (inl (ground (arith, c.asleep u, f.awake))) in
    record {
      not_null = f.not_null;
      no_link = l ∙ f.no_link;
      awake = rw g f.awake;
      used = rw a.idle_eq f.used;
    }
