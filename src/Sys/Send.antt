-- ===== src/Sys/Send.antt =====
-- src/st_sys.cc: st_write and st_send end, and the kernel gets the buffer in order, without a gap.
use sthread.Prelude.{
  ℕ, zero, suc, ◌+◌, ◌*◌, ◌-◌, ◌≤◌, ◌<◌, ◌≡◌, ◌≢◌, ◌⊎◌, inl, inr, List, ◌++◌, length, take, drop,
  take-add, drop-add, Option, some, refl, ap, sym, ◌∙◌, arith, false, leb, Bool-cases, Option-cases,
  lt→ltb, nlt→ltb, dec_lt,
}
use mathlib.Core.List.{append-nil, append_assoc}
use sthread.Sys.{
  Io, Outcome, begin, bytes, fails, Errno, Ret, returns, is_eintr, is_eagain, expired, int_gt,
  wait_fd_ready, after_wait, send_loop, st_send, st_write, normalize_timeout_ms,
}
use sthread.Sys.Kernel.{
  Kernel, sending, Returns, Returns-map, Returns-if, wait_fd_ready_quiet, wait_fd_ready_error,
  Timely, latest, not_expired, wait_in_time,
}

pub Outcome-cases : (r : Outcome) → ((n : ℕ) × (r ≡ bytes n)) ⊎ ((e : Errno) × (r ≡ fails e))
Outcome-cases (bytes n) = inl (n, refl)
Outcome-cases (fails e) = inr (e, refl)

module _ {W : Type 0} (io : Io W) {buf : List ℕ} (k : Kernel io buf) where
  -- of the buffer from `o` on the kernel got a part from its start, and all if the call says so
  pub record Sent (o : ℕ) (w : W) (r : Ret × W) : Type 0 where
    pub amount : ℕ
    pub prefix : k.sent r.1 ≡ k.sent w ++ take amount (drop o buf)
    pub whole : r.0 ≡ returns (length buf) → length buf ≤ o + amount

  Sent-none :
      (o : ℕ) (w w' : W) (r : Ret)
      → k.sent w' ≡ k.sent w
      → (r ≡ returns (length buf) → length buf ≤ o)
      → Sent o w (r, w')
  Sent-none o w w' r e h = record {
    amount = 0;
    prefix = rw e (sym (append-nil _));
    whole = λ q. omega (arith, h q);
  }

  -- a call that took `n`, and what came after it
  Sent-more :
      (o n : ℕ) (w w' : W) (r : Ret × W)
      → k.sent w' ≡ k.sent w ++ take n (drop o buf)
      → Sent (o + n) w' r
      → Sent o w r
  Sent-more o n w w' r e s = record {
    amount = n + s.amount;
    prefix = s.prefix ∙ rw (e, append_assoc, drop-add, take-add) refl;
    whole = λ q. omega (arith, s.whole q);
  }

  -- the error returns of an attempt that moved nothing
  Sent-error :
      (o : ℕ) (w w' : W) (r : Ret)
      → k.sent w' ≡ k.sent w
      → r ≢ returns (length buf)
      → Sent o w (r, w')
  Sent-error o w w' r e h = Sent-none o w w' r e λ q. absurd (h q)

  -- nothing was sent before the rest
  Sent-rest : (o : ℕ) (w w' : W) (r : Ret × W) → k.sent w' ≡ k.sent w → Sent o w' r → Sent o w r
  Sent-rest o w w' r e s = record { amount = s.amount; prefix = s.prefix ∙ rw e; whole = s.whole }

  -- a wait, after which the loop goes on from `o`
  after-Returns :
      (o fuel start timeout : ℕ) (w : W)
      → k.time w < (start + 2147483648) * 1000000
      → ((w' : W)
          → k.time w < k.time w'
          → k.time w' ≤ latest io (sending k) start timeout
          → Returns (Sent o w') (send_loop io fuel start timeout (length buf) o w'))
      → Returns (Sent o w) (
          after_wait io
            (wait_fd_ready io false start timeout w)
            (send_loop io fuel start timeout (length buf) o))
  after-Returns o fuel start timeout w b next =
      let (later, quiet) = wait_fd_ready_quiet io (sending k) false start timeout w in
      elim (Option-cases (wait_fd_ready io false start timeout w).0) [
        | inl e ↦
            let (_, in_time) = wait_in_time io (sending k) false start timeout w b e in
            let (r, q, s) = next _ later (omega (arith, in_time)) in
            rw e (r, q, Sent-rest o w _ r quiet s)
        | inr (r, e) ↦ rw e (
          (r, _),
          refl,
          Sent-error o w _ r quiet
              λ q. wait_fd_ready_error io (sending k) false start timeout w _ (e ∙ ap some q),
        )
      ]

  ended :
      (o fuel start timeout : ℕ) (w : W)
      → ¬ (o < length buf)
      → Returns (Sent o w) (send_loop io (suc fuel) start timeout (length buf) o w)
  unfolding send_loop
  ended o fuel start timeout w h =
      rw (nlt→ltb o (length buf) h) (_, refl, Sent-none o w w _ refl λ _. omega arith)

  -- one round of the loop: either it ends, or it goes on, later, from what was sent
  step-Returns :
      (o fuel start timeout : ℕ) (w : W)
      → o < length buf
      → Timely io (sending k) timeout
      → k.time w ≤ latest io (sending k) start timeout
      → (k.time w < (start + timeout + 1) * 1000000
          → (o' : ℕ) (w' : W) → k.time w < k.time w'
          → k.time w' ≤ latest io (sending k) start timeout
          → Returns (Sent o' w') (send_loop io fuel start timeout (length buf) o' w'))
      → Returns (Sent o w) (send_loop io (suc fuel) start timeout (length buf) o w)
  unfolding expired send_loop
  step-Returns o fuel start timeout w h soon b next =
      let w₁ = (io.clock w).1 in
      let c = io.call o (length buf - o) w₁ in
      let in_loop = lt→ltb o (length buf) h in
      let called : k.time w < k.time c.1 =
        omega (arith, k.clock_ticks w, k.call_time o (length buf - o) w₁) in
      elim (Bool-cases (int_gt ((io.clock w).0 - start) timeout)) [
        | inl y ↦ rw (in_loop, y) (_, refl, Sent-error o w _ _ (k.clock_sent w) λ q. ground arith)
        | inr y ↦
            let still : k.time w < (start + timeout + 1) * 1000000 =
              not_expired io (sending k) start timeout w (omega arith) y in
            let late : k.time c.1 < (start + 2147483648) * 1000000 =
              omega (arith, still, soon, k.clock_late w, k.call_late o (length buf - o) w₁) in
            let on : (o' : ℕ) (w' : W)
                → k.time c.1 < k.time w'
                → k.time w' ≤ latest io (sending k) start timeout
                → Returns (Sent o' w') (send_loop io fuel start timeout (length buf) o' w') =
              λ o' w' l m. next still o' w' (omega arith) m in
            elim (Outcome-cases c.0) [
              | inl (zero, e) ↦
                  let took = (k.call_bytes o (length buf - o) 0 w₁ e).1 in
                  rw (in_loop, y, e)
                    (
                      _,
                      refl,
                      Sent-error o w _ _ (took ∙ append-nil _ ∙ k.clock_sent w) λ q. ground arith,
                    )
              | inl (suc n, e) ↦
                  let took : k.sent c.1 ≡ k.sent w ++ take (suc n) (drop o buf) =
                    (k.call_bytes o (length buf - o) (suc n) w₁ e).1 ∙ rw (k.clock_sent w) in
                  elim (Bool-cases (leb (length buf) (o + suc n))) [
                    | inl z ↦
                        rw (in_loop, y, e, z)
                          (
                            _,
                            refl,
                            record { amount = suc n; prefix = took; whole = λ q. ground arith },
                          )
                    | inr z ↦
                        rw (in_loop, y, e, z)
                          (Returns-map (λ r s. Sent-more o (suc n) w c.1 r took s)
                            (after-Returns (o + suc n) fuel start timeout c.1 late
                              (on (o + suc n))))
                  ]
              | inr (e, q) ↦
                  let quiet = k.call_fails o (length buf - o) e w₁ q ∙ k.clock_sent w in
                  elim (Bool-cases (is_eintr e)) [
                    | inl z ↦
                        rw (in_loop, y, q, z)
                          (Returns-map (λ r s. Sent-rest o w c.1 r quiet s)
                            (next still o c.1 called (
                              omega
                                (arith, still, k.clock_late w, k.call_late o (length buf - o) w₁))))
                    | inr z ↦ elim (Bool-cases (is_eagain e)) [
                      | inl x ↦
                          rw (in_loop, y, q, z, x)
                            (Returns-map (λ r s. Sent-rest o w c.1 r quiet s)
                              (after-Returns o fuel start timeout c.1 late (on o)))
                      | inr x ↦
                          rw (in_loop, y, q, z, x)
                            (_, refl, Sent-error o w _ _ quiet λ q. ground arith)
                    ]
                  ]
            ]
      ]

  pub send_loop-Returns :
      (fuel start timeout o : ℕ) (w : W)
      → Timely io (sending k) timeout
      → k.time w ≤ latest io (sending k) start timeout
      → (start + timeout + 1) * 1000000 - k.time w < fuel
      → Returns (Sent o w) (send_loop io fuel start timeout (length buf) o w)
  send_loop-Returns zero start timeout o w soon b h = absurd (omega arith)
  send_loop-Returns (suc fuel) start timeout o w soon b h = elim (dec_lt o (length buf)) [
    | yes l ↦
        step-Returns o fuel start timeout w l soon b
          λ still o' w' later m. send_loop-Returns fuel start timeout o' w' soon m (omega arith)
    | no n ↦ ended o fuel start timeout w n
  ]

  begin-Returns :
      (fuel : ℕ) (timeout : Option ℕ) (w : W)
      → Timely io (sending k) (normalize_timeout_ms timeout)
      → (normalize_timeout_ms timeout + 1) * 1000000 < fuel
      → Returns (Sent 0 w) (
          begin io w
            (λ start. send_loop io fuel start (normalize_timeout_ms timeout) (length buf) 0))
  begin-Returns fuel timeout w soon h =
      let w₁ = (io.clock w).1 in
      let go =
        send_loop-Returns fuel (io.clock w).0 (normalize_timeout_ms timeout) 0 w₁ soon
          (omega (arith, k.clock_time w, k.clock_late w))
          (omega (arith, k.clock_time w, k.clock_ticks w)) in
      Returns-if io.has_real
        (Returns-if (io.active w₁) (Returns-map (λ r s. Sent-rest 0 w w₁ r (k.clock_sent w) s) go)
          (_, refl, Sent-error 0 w _ _ (k.clock_sent w) λ q. ground arith))
        (_, refl, Sent-error 0 w w _ refl λ q. ground arith)

  -- For every buffer, every timeout of which the double and a few delays fit into an int of milliseconds,
  -- where each step of the kernel takes at most the delay and Schedule comes back by its wakeup time,
  -- and fuel for each nanosecond of the timeout and of one millisecond more: st_write and st_send end,
  -- whatever the kernel answers and however often they wait. In every outcome, errors included, the
  -- kernel has accepted a part of the buffer from its start, in order and with no gap or repetition, and
  -- a result that is the buffer's length means it is the whole buffer.
  pub st_send-Sent :
      (fuel : ℕ) (timeout : Option ℕ) (w : W)
      → Timely io (sending k) (normalize_timeout_ms timeout)
      → (normalize_timeout_ms timeout + 1) * 1000000 < fuel
      → Returns (Sent 0 w) (st_write io fuel (length buf) timeout w)
        × Returns (Sent 0 w) (st_send io fuel (length buf) timeout w)
  unfolding st_write st_send
  st_send-Sent fuel timeout w soon h =
      (begin-Returns fuel timeout w soon h, begin-Returns fuel timeout w soon h)
