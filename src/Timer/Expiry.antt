-- ===== src/Timer/Expiry.antt =====
-- stlib/st_heap_timer.h: starting a timer, and which timers CheckExpired takes.
use sthread.Prelude.{
  ℕ, zero, suc, ◌+◌, ◌≤◌, ◌<◌, ◌≡◌, ◌≢◌, ◌↔◌, inl, inr, refl, sym, ap, ◌∙◌, true, false, some,
  update, ne→==, Bool-cases, ℕ_discrete, arith,
}
use sthread.Heap.{heap_top, heap_delete}
use sthread.Heap.Methods.{IsValid, update-IsValid, Grown, heap_push-Grown, heap_delete-Shrunk}
use sthread.Heap.Pop.{heap_top_least, heap_top_null}
use sthread.Heap.Touched.{heap_push-refused}
use sthread.Timer.{StHeapTimer, startup, stop, expires, check_expired}

-- A timer that is in no heap, with room in the heap: Startup succeeds, and the heap stays ordered and
-- has that timer more, with the time to come.
pub startup-Grown :
    (now interval t : ℕ) (s : StHeapTimer)
    → IsValid s.expired s.heap
    → t ≢ 0
    → s.heap.index t ≡ 0
    → s.heap.count < s.heap.max
    → let r = startup now interval t s in
      (r.0 ≡ true) × Grown r.1.expired s.heap t r.1.heap × (r.1.expired t ≡ now + interval)
unfolding startup
startup-Grown now interval t s v n z room =
    let g =
      heap_push-Grown (update s.expired t (now + interval)) s.heap t
        (update-IsValid s.expired s.heap t (now + interval) v z) n z room in
    rw (ne→== t 0 n, g.0) (refl, g.1, ground arith)

-- A timer that is started again while it is in the heap: Startup fails, and yet the timer has the new
-- time at its old place. So if it was on top and another timer of the heap is due before the new
-- time, then the top is not the earliest timer any more.
pub startup-restart :
    (now interval t u : ℕ) (s : StHeapTimer)
    → IsValid s.expired s.heap
    → t ≢ 0
    → heap_top s.heap ≡ t
    → s.heap.index t ≢ 0
    → s.heap.index u ≢ 0
    → s.expired u < now + interval
    → t ≢ u
    → let r = startup now interval t s in
      (r.0 ≡ false)
      × (heap_top r.1.heap ≡ t)
      × (r.1.heap.index u ≢ 0)
      × (r.1.expired u < r.1.expired t)
unfolding startup
startup-restart now interval t u s v n top held other later d =
    rw (ne→== t 0 n, heap_push-refused (update s.expired t (now + interval)) s.heap t (inr held))
      (ground arith, top, other, ground arith)

-- the timers after CheckExpired has counted `n` of them
pub record Expired (now : ℕ) (s s' : StHeapTimer) (n : ℕ) : Type 0 where
  pub valid : IsValid s'.expired s'.heap
  pub times : s'.expired ≡ s.expired
  -- every timer that was due is out
  pub gone : (t : ℕ) → s.heap.index t ≢ 0 → s.expired t ≤ now → s'.heap.index t ≡ 0
  -- every other timer is as before
  pub others : (t : ℕ) → now < s.expired t → (s'.heap.index t ≡ 0) ↔ (s.heap.index t ≡ 0)
  pub none_new : (t : ℕ) → s.heap.index t ≡ 0 → s'.heap.index t ≡ 0
  pub counted : s'.heap.count + n ≡ s.heap.count

module _ (now : ℕ) (s : StHeapTimer) (v : IsValid s.expired s.heap)
    (pos : (t : ℕ) → s.heap.index t ≢ 0 → 0 < s.expired t) where
  not_due :
      expires now s ≡ false → (t : ℕ) → s.heap.index t ≢ 0 → s.expired t ≤ now → s.heap.index t ≡ 0
  unfolding expires
  not_due e t i d =
      let l = heap_top_least s.expired s.heap t v i in
      let p = pos (heap_top s.heap) l.0 in
      let n = heap_top_null s.expired s.heap v in ground (arith, v.well_placed.indexed t i, n.0)

  Expired-none : expires now s ≡ false → Expired now s s 0
  unfolding expires
  Expired-none e = record {
    valid = v;
    times = refl;
    gone = λ t i d. not_due e t i d;
    others = λ t d. (λ q. q, λ q. q);
    none_new = λ t q. q;
    counted = omega arith;
  }

  due_top :
      expires now s ≡ true
      → (s.heap.index (heap_top s.heap) ≢ 0)
        × (s.expired (heap_top s.heap) ≤ now)
        × (heap_top s.heap ≢ 0)
  unfolding expires heap_top
  due_top e = ground (arith, v.well_placed.placed 1)

  -- the timer on top goes first
  Expired-next :
      (s' : StHeapTimer) (n : ℕ)
      → expires now s ≡ true
      → Expired now (stop (heap_top s.heap) s) s' n
      → Expired now s s' (n + 1)
  unfolding stop
  Expired-next s' n e x =
      let t = heap_top s.heap in
      let (i, d, z) = due_top e in
      let k = (heap_delete-Shrunk s.expired s.heap t v i).1 in
      let y : Expired now (record s { heap = (heap_delete s.expired s.heap t).1 }) s' n =
        rw (ne→== t 0 z) at x in
      record {
        valid = y.valid;
        times = y.times;
        gone = λ u j w. elim (ℕ_discrete u t) [
          | yes q ↦ rw q (y.none_new t k.left)
          | no q ↦ y.gone u (λ o. j ((k.same u q).0 o)) w
        ];
        others = λ u w.
            let ne : u ≢ t = λ q. absurd (omega (arith, ap s.expired q, d, w)) in
            (λ o. (k.same u ne).0 ((y.others u w).0 o), λ o. (y.others u w).1 ((k.same u ne).1 o));
        none_new = λ u j.
            let ne : u ≢ t = λ q. i (sym (ap s.heap.index q) ∙ j) in
            y.none_new u ((k.same u ne).1 j);
        counted = omega (arith, y.counted, k.count_eq);
      }

  -- without the timer on top the heap is as good, and smaller
  next_state :
      expires now s ≡ true
      → let s₁ = stop (heap_top s.heap) s in
        IsValid s₁.expired s₁.heap
        × ((t : ℕ) → s₁.heap.index t ≢ 0 → 0 < s₁.expired t)
        × (s₁.heap.count + 1 ≡ s.heap.count)
  unfolding stop
  next_state e =
      let t = heap_top s.heap in
      let (i, d, z) = due_top e in
      let k = (heap_delete-Shrunk s.expired s.heap t v i).1 in
      rw (ne→== t 0 z) (
        k.valid,
        (λ u j. elim (ℕ_discrete u t) [
          | yes q ↦ absurd (j (rw q k.left))
          | no q ↦ pos u (λ o. j ((k.same u q).1 o))
        ]),
        k.count_eq,
      )

-- With a Timeout that leaves the timers alone, a valid heap whose timers all have a time, and more fuel
-- than there are timers: CheckExpired ends. It returns how many timers went, the heap stays valid,
-- just the timers that were due are out, and no timer's time has changed.
pub check_expired-Expired :
    (on_timeout : ℕ → StHeapTimer → StHeapTimer) (fuel now count : ℕ) (s : StHeapTimer)
    → ((t : ℕ) (u : StHeapTimer) → on_timeout t u ≡ u)
    → IsValid s.expired s.heap
    → ((t : ℕ) → s.heap.index t ≢ 0 → 0 < s.expired t)
    → s.heap.count < fuel
    → (n : ℕ) × (s' : StHeapTimer) × (check_expired on_timeout fuel now count s
        ≡ some (count + n, s'))
      × Expired now s s' n
unfolding check_expired
check_expired-Expired on_timeout zero now count s quiet v pos h = absurd (omega arith)
check_expired-Expired on_timeout (suc fuel) now count s quiet v pos h =
    elim (Bool-cases (expires now s)) [
      | inr e ↦ (0, s, rw e (ground arith), Expired-none now s v pos e)
      | inl e ↦
          let (v₁, pos₁, less) = next_state now s v pos e in
          let (n, s', q, x) =
            check_expired-Expired on_timeout fuel now (count + 1) (stop (heap_top s.heap) s) quiet
              v₁ pos₁ (omega arith) in
          (
            n + 1,
            s',
            rw (e, quiet) (q ∙ ap (λ m. some (m, s')) (omega arith)),
            Expired-next now s v pos s' n e x,
          )
    ]
