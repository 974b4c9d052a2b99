-- ===== src/Sys/Receive.antt =====
-- src/st_sys.cc: the calls that receive end, and no byte that was taken from the kernel is lost.
use mathlib.Core.List.{append-nil}
use sthread.Prelude.{
  ℕ, zero, suc, ◌+◌, ◌*◌, ◌-◌, ◌≤◌, ◌<◌, ◌≡◌, ◌≢◌, ◌⊎◌, inl, inr, List, [], ◌++◌, length, Option,
  some, Bool, refl, ap, sym, ◌∙◌, arith, true, Bool-cases, Option-cases,
}
use sthread.Sys.{
  Io, begin, bytes, Ret, returns, is_eintr, is_eagain, expired, int_gt, wait_fd_ready, after_wait,
  transfer_loop, recv_loop, st_read, st_recv, st_recvfrom, normalize_timeout_ms,
}
use sthread.Sys.Kernel.{
  Source, receiving, Returns, Returns-map, Returns-if, wait_fd_ready_quiet, wait_fd_ready_error,
  Timely, latest, not_expired, wait_in_time,
}
use sthread.Sys.Send.{Outcome-cases}

abbrev pub IsError : Ret → Type 0
IsError r = (n : ℕ) → r ≢ returns n

module _ {W : Type 0} (io : Io W) (k : Source io) where
  -- what was taken from the kernel is what the call reports, and nothing with an error
  pub record Received (len : ℕ) (w : W) (r : Ret × W) : Type 0 where
    pub part : List ℕ
    pub grown : k.received r.1 ≡ k.received w ++ part
    pub room : length part ≤ len
    pub reported : (r.0 ≡ returns (length part)) ⊎ ((part ≡ []) × IsError r.0)

  Received-error :
      (len : ℕ) (w w' : W) (r : Ret)
      → k.received w' ≡ k.received w
      → IsError r
      → Received len w (r, w')
  Received-error len w w' r e h = record {
    part = [];
    grown = e ∙ sym (append-nil _);
    room = omega arith;
    reported = inr (refl, h);
  }

  Received-rest :
      (len : ℕ) (w w' : W) (r : Ret × W)
      → k.received w' ≡ k.received w
      → Received len w' r
      → Received len w r
  Received-rest len w w' r e s = record {
    part = s.part;
    grown = s.grown ∙ rw e refl;
    room = s.room;
    reported = s.reported;
  }

  Received-call :
      (len n : ℕ) (w w' : W)
      → k.received w' ≡ k.received w
      → (io.call 0 len w').0 ≡ bytes n
      → Received len w (returns n, (io.call 0 len w').1)
  Received-call len n w w' e q =
      let (part, size, room, grown) = k.call_bytes 0 len n w' q in
      record {
        part = part;
        grown = grown ∙ rw e refl;
        room = omega arith;
        reported = inl (ap returns (sym size));
      }

  after-Received :
      (want : Bool) (len start timeout : ℕ) (w : W) (loop : W → Option (Ret × W))
      → k.time w < (start + 2147483648) * 1000000
      → (k.time w < (start + timeout + 1) * 1000000
          → (w' : W) → k.time w < k.time w'
          → k.time w' ≤ (start + 2 * timeout + 1) * 1000000 + 3 * k.delay
          → Returns (Received len w') (loop w'))
      → Returns (Received len w) (after_wait io (wait_fd_ready io want start timeout w) loop)
  after-Received want len start timeout w loop b next =
      let (later, quiet) = wait_fd_ready_quiet io (receiving k) want start timeout w in
      elim (Option-cases (wait_fd_ready io want start timeout w).0) [
        | inl e ↦
            let (still, in_time) = wait_in_time io (receiving k) want start timeout w b e in
            let (r, q, s) = next still _ later in_time in
            rw e (r, q, Received-rest len w _ r quiet s)
        | inr (r, e) ↦ rw e (
          (r, _),
          refl,
          Received-error len w _ r quiet
              λ n q. wait_fd_ready_error io (receiving k) want start timeout w n (e ∙ ap some q),
        )
      ]

  transfer_loop-Received :
      (fuel start timeout len : ℕ) (want : Bool) (w : W)
      → Timely io (receiving k) timeout
      → k.time w ≤ latest io (receiving k) start timeout
      → (start + timeout + 1) * 1000000 - k.time w < fuel
      → Returns (Received len w) (transfer_loop io fuel want start timeout len w)
  unfolding transfer_loop expired
  transfer_loop-Received zero start timeout len want w soon b h = absurd (omega arith)
  transfer_loop-Received (suc fuel) start timeout len want w soon b h =
      let w₁ = (io.call 0 len w).1 in
      let w₂ = (io.clock w₁).1 in
      elim (Outcome-cases (io.call 0 len w).0) [
        | inl (n, e) ↦ rw (e, transfer_loop) (_, refl, Received-call len n w w refl e)
        | inr (e, q) ↦
            let quiet : k.received w₂ ≡ k.received w =
              k.clock_received w₁ ∙ k.call_fails 0 len e w q in
            elim (Bool-cases (int_gt ((io.clock w₁).0 - start) timeout)) [
              | inl y ↦
                  rw (q, transfer_loop)
                    (rw y (_, refl, Received-error len w w₂ _ quiet λ n z. ground arith))
              | inr y ↦
                  let soon_enough : k.time w₁ < (start + 2147483648) * 1000000 =
                    omega (arith, k.call_late 0 len w) in
                  let still : k.time w₁ < (start + timeout + 1) * 1000000 =
                    not_expired io (receiving k) start timeout w₁ soon_enough y in
                  let on : (w' : W)
                      → k.time w₂ ≤ k.time w'
                      → k.time w' ≤ latest io (receiving k) start timeout
                      → Returns (Received len w')
                          (transfer_loop io fuel want start timeout len w') =
                    λ w' l m.
                      transfer_loop-Received fuel start timeout len want w' soon m
                        (omega (arith, k.clock_ticks w₁, k.call_time 0 len w)) in
                  elim (Bool-cases (is_eintr e)) [
                    | inl z ↦
                        rw (q, transfer_loop)
                          (rw (y, z)
                            (Returns-map (λ r s. Received-rest len w w₂ r quiet s)
                              (on w₂ (omega arith) (omega (arith, still, k.clock_late w₁)))))
                    | inr z ↦ elim (Bool-cases (is_eagain e)) [
                      | inl x ↦
                          rw (q, transfer_loop)
                            (rw (y, z, x)
                              (Returns-map (λ r s. Received-rest len w w₂ r quiet s)
                                (after-Received want len start timeout w₂ _
                                  (omega (arith, still, soon, k.clock_late w₁))
                                  λ _ w' l m. on w' (omega arith) (omega arith))))
                      | inr x ↦
                          rw (q, transfer_loop)
                            (rw (y, z, x)
                              (_, refl, Received-error len w w₂ _ quiet λ n v. ground arith))
                    ]
                  ]
            ]
      ]

  recv_loop-Received :
      (fuel start timeout len : ℕ) (w : W)
      → Timely io (receiving k) timeout
      → k.time w ≤ latest io (receiving k) start timeout
      → (start + timeout + 1) * 1000000 - k.time w + 1 < fuel
      → Returns (Received len w) (recv_loop io fuel start timeout len w)
  unfolding recv_loop
  recv_loop-Received zero start timeout len w soon b h = absurd (omega arith)
  recv_loop-Received (suc fuel) start timeout len w soon b h =
      after-Received true len start timeout w _ (omega arith) λ still w₁ later in_time.
        let w₂ = (io.call 0 len w₁).1 in
        let on =
          recv_loop-Received fuel start timeout len w₂ soon (omega (arith, k.call_late 0 len w₁))
            (omega (arith, k.call_time 0 len w₁)) in
        elim (Outcome-cases (io.call 0 len w₁).0) [
          | inl (n, e) ↦ rw e (_, refl, Received-call len n w₁ w₁ refl e)
          | inr (e, q) ↦
              let quiet = k.call_fails 0 len e w₁ q in
              let more = Returns-map (λ r s. Received-rest len w₁ w₂ r quiet s) on in
              elim (Bool-cases (is_eintr e)) [
                | inl z ↦ rw (q, z) more
                | inr z ↦ elim (Bool-cases (is_eagain e)) [
                  | inl x ↦ rw (q, z, x) more
                  | inr x ↦
                      rw (q, z, x) (_, refl, Received-error len w₁ w₂ _ quiet λ n v. ground arith)
                ]
              ]
        ]

  begin-Received :
      (len : ℕ) (w : W) (loop : ℕ → W → Option (Ret × W))
      → ((start : ℕ) (w₁ : W)
          → start * 1000000 < k.time w₁
          → k.time w₁ ≤ (start + 1) * 1000000 + k.delay
          → Returns (Received len w₁) (loop start w₁))
      → Returns (Received len w) (begin io w loop)
  begin-Received len w loop go =
      let w₁ = (io.clock w).1 in
      let body =
        go (io.clock w).0 w₁ (omega (arith, k.clock_time w, k.clock_ticks w))
          (omega (arith, k.clock_time w, k.clock_late w)) in
      Returns-if io.has_real
        (Returns-if (io.active w₁)
          (Returns-map (λ r s. Received-rest len w w₁ r (k.clock_received w) s) body)
          (_, refl, Received-error len w _ _ (k.clock_received w) λ n q. ground arith))
        (_, refl, Received-error len w w _ refl λ n q. ground arith)

  -- For every timeout of which the double and a few delays fit into an int of milliseconds, where each
  -- step of the kernel takes at most the delay and Schedule comes back by its wakeup time, with fuel for
  -- each nanosecond of the timeout and of one millisecond more, and for every world in which no other
  -- coroutine reads the descriptor: st_read, st_recv and st_recvfrom end, however often they wait or are
  -- interrupted. In every outcome the bytes that were taken from the kernel are no more than there is
  -- room for, and the result is their number, or an error and none were taken.
  pub st_recv-Received :
      (fuel len : ℕ) (timeout : Option ℕ) (w : W)
      → Timely io (receiving k) (normalize_timeout_ms timeout)
      → (normalize_timeout_ms timeout + 1) * 1000000 + 1 < fuel
      → Returns (Received len w) (st_read io fuel len timeout w)
        × Returns (Received len w) (st_recv io fuel len timeout w)
        × Returns (Received len w) (st_recvfrom io fuel len timeout w)
  unfolding st_read st_recv st_recvfrom
  st_recv-Received fuel len timeout w soon h =
      let limit = normalize_timeout_ms timeout in
      let receives =
        begin-Received len w (λ start. recv_loop io fuel start limit len)
          λ start w₁ l m.
            recv_loop-Received fuel start limit len w₁ soon (omega arith) (omega arith) in
      (
        begin-Received len w (λ start. transfer_loop io fuel true start limit len)
            λ start w₁ l m.
              transfer_loop-Received fuel start limit len true w₁ soon (omega arith) (omega arith),
        receives,
        receives,
      )
