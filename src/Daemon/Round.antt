-- ===== src/Daemon/Round.antt =====
-- src/st_sys.h: a round of the daemon's loop keeps every component in order.
use mathlib.Core.Path.{subst}
use sthread.Heap.{StHeapList}
use sthread.Prelude.{
  ℕ, ◌+◌, ◌<◌, ◌≡◌, ◌≢◌, refl, sym, ap, ◌∙◌, inl, List, some, arith, dec_lt, ℕ_discrete,
}
use sthread.Poll.{Epoll, StFiredEvent}
use sthread.Poll.Agrees.{Contract, AgreesWith}
use sthread.Event.Dispatch.{dispatch}
use sthread.Event.Wait.{dispatch-Runs}
use sthread.Heap.Methods.{IsValid}
use sthread.Thread.{StThreadSchedule}
use sthread.Thread.Switch.{yield}
use sthread.Thread.Life.{IsSafe}
use sthread.Thread.Reach.{here, next, turns, Reach-IsSafe}
use sthread.Thread.Asleep.{yield-SameSleep}
use sthread.Thread.Wakeup.{Awake, wakeup-Awake}
use sthread.Timer.{StHeapTimer}
use sthread.Timer.Expiry.{Expired, check_expired-Expired}
use sthread.Daemon.{System, update_last_clock, round}

-- the state after a round at the time `now`, with the timers as at `later`
pub record Turned {K : Type 0} {e : Epoll K} (c : Contract e) (now later : ℕ) (m m' : System K)
    : Type 0 where
  pub safe : IsSafe m'.world.threads
  pub agrees : AgreesWith c m'.world.schedule.io m'.world.kernel
  pub clock : m'.sys.last_clock ≡ now
  pub none_due :
      (t : ℕ) → m'.world.threads.sleep_list.index t ≢ 0 → now < m'.world.threads.wakeup_time t
  pub timers : (n : ℕ) × Expired later m.sys.timers m'.sys.timers n

Awake-none_due :
    (now : ℕ) (s s' : StThreadSchedule)
    → Awake now s s'
    → (t : ℕ) → s'.sleep_list.index t ≢ 0
    → now < s'.wakeup_time t
Awake-none_due now s s' a t i = elim (dec_lt now (s.wakeup_time t)) [
  | yes l ↦ omega (arith, l, ap (λ (g : ℕ → ℕ). g t) a.times_eq)
  | no l ↦ elim (ℕ_discrete (s.sleep_list.index t) 0) [
    | yes z ↦ absurd (i (((a.others t (inl z)).0).1 z))
    | no z ↦ absurd (i (a.woken t z (omega arith)).0)
  ]
]

module _ {K : Type 0} {e : Epoll K} (c : Contract e) (ev_input ev_output : ℕ → ℕ)
    (on_timeout : ℕ → StHeapTimer → StHeapTimer)
    (quiet : (t : ℕ) (u : StHeapTimer) → on_timeout t u ≡ u) where
  -- For every list of reported events and all handlers, when the daemon runs: with enough fuel a round
  -- of its loop ends. If before it the scheduler was safe, the poller's masks were those of the
  -- kernel and the timers were a valid heap with times above 0, whose Timeout leaves the timers
  -- alone, then after it the scheduler is safe and the masks are those of the kernel, no sleeping
  -- thread is due at the new last clock, and just the timers that were due are out of the heap.
  pub round-Turned :
      (fired : List StFiredEvent) (now later : ℕ) (m : System K)
      → IsSafe m.world.threads
      → m.world.threads.active_thread ≡ m.world.threads.daemon_thread
      → AgreesWith c m.world.schedule.io m.world.kernel
      → IsValid m.sys.timers.expired m.sys.timers.heap
      → ((t : ℕ) → m.sys.timers.heap.index t ≢ 0 → 0 < m.sys.timers.expired t)
      → (bound : ℕ) × ((fuel : ℕ)
          → bound < fuel
          → (m' : System K) × (round e ev_input ev_output on_timeout fuel fired now later m
              ≡ some m')
            × Turned c now later m m')
  unfolding round update_last_clock
  round-Turned fired now later m safe active a v pos =
      let w = dispatch e ev_input ev_output fired m.world in
      let r =
        dispatch-Runs c ev_input ev_output fired m.world
          (record { agrees = a; calls = (here, refl, refl) }) in
      let safe₁ = Reach-IsSafe safe r.calls.0 in
      let active₁ : w.threads.active_thread ≡ w.threads.daemon_thread =
        r.calls.1 ∙ active ∙ sym r.calls.2 in
      (
        w.threads.sleep_list.count + m.sys.timers.heap.count,
        λ fuel h.
            let (ts, ends, awake) =
              wakeup-Awake fuel now w.threads safe₁.consistent (omega arith) in
            let (n, timers, stops, x) =
              check_expired-Expired on_timeout fuel later 0 m.sys.timers quiet v pos
                (omega arith) in
            let safe₂ : IsSafe (yield w.threads.daemon_thread ts) =
              Reach-IsSafe safe₁ (next here (turns w.threads ts fuel now active₁ ends)) in
            let same = yield-SameSleep ts.daemon_thread ts in
            (
              record {
                world = record w { threads = yield ts.daemon_thread ts };
                sys = record (m.sys) { last_clock = now; timers = timers };
              },
              rw (ends, stops) refl,
              record {
                safe = subst (λ d. IsSafe (yield d ts)) (sym awake.daemon_eq) safe₂;
                agrees = r.agrees;
                clock = refl;
                none_due = λ t i.
                    subst (λ (g : ℕ → ℕ). now < g t) (sym same.times_eq)
                      (Awake-none_due now w.threads ts awake t
                        λ z. i (ap (λ (h : StHeapList). h.index t) same.heap_eq ∙ z));
                timers = (n, x);
              },
            ),
      )
