-- ===== src/Sys/Kernel.antt =====
-- src/st_sys.cc: what its loops rely on in the kernel and the clock, for a descriptor that no other
-- coroutine writes to: `sent` is what was accepted, `time` the nanoseconds that have passed. No step
-- takes no time, and the wall clock is not set back.
use sthread.Prelude.{
  sym, refl, ℕ, ◌*◌, ◌+◌, ◌-◌, ◌/◌, ◌≤◌, ◌<◌, ◌≡◌, ◌≢◌, List, ◌++◌, length, take, drop, Option,
  none, some, inl, inr, ◌∙◌, arith, Bool, true, false, if◌then◌else◌, ltb, Bool-cases, Option-cases,
}
use native.Mathlib.Nat.{mod-eq_of_lt}
use sthread.Sys.{
  Io, bytes, fails, Errno, Events, expired, returns, is_etime, int_gt, wait_result, wait_fd_ready,
  set_interest, minus_one, minus_two, etime, einval,
}

pub record Kernel {W : Type 0} (io : Io W) (buf : List ℕ) : Type 0 where
  pub sent : W → List ℕ
  pub time : W → ℕ
  -- how long a step may take, in nanoseconds; Schedule comes back by its wakeup time if it is to come
  pub delay : ℕ
  pub clock_late : (w : W) → time (io.clock w).1 ≤ time w + delay
  pub call_late : (o l : ℕ) (w : W) → time (io.call o l w).1 ≤ time w + delay
  pub schedule_late :
      (ev : Events) (t : ℕ) (w : W)
      → time (io.schedule ev t w).1 ≤ time w + (t * 1000000 - time w) + delay
  pub clock_time : (w : W) → (io.clock w).0 ≡ time w / 1000000
  pub clock_ticks : (w : W) → time w < time (io.clock w).1
  pub clock_sent : (w : W) → sent (io.clock w).1 ≡ sent w
  pub call_time : (o l : ℕ) (w : W) → time w ≤ time (io.call o l w).1
  -- a call takes no more than it is given, from the offset on
  pub call_bytes :
      (o l n : ℕ) (w : W)
      → (io.call o l w).0 ≡ bytes n
      → (n ≤ l) × (sent (io.call o l w).1 ≡ sent w ++ take n (drop o buf))
  pub call_fails :
      (o l : ℕ) (e : Errno) (w : W) → (io.call o l w).0 ≡ fails e → sent (io.call o l w).1 ≡ sent w
  pub schedule_time : (ev : Events) (t : ℕ) (w : W) → time w ≤ time (io.schedule ev t w).1
  pub schedule_sent : (ev : Events) (t : ℕ) (w : W) → sent (io.schedule ev t w).1 ≡ sent w

-- what a wait leaves alone: `seen` is what went through the descriptor
pub record Quiet {W : Type 0} (io : Io W) : Type 0 where
  pub seen : W → List ℕ
  pub time : W → ℕ
  -- how long a step may take, in nanoseconds; Schedule comes back by its wakeup time if it is to come
  pub delay : ℕ
  pub clock_late : (w : W) → time (io.clock w).1 ≤ time w + delay
  pub call_late : (o l : ℕ) (w : W) → time (io.call o l w).1 ≤ time w + delay
  pub schedule_late :
      (ev : Events) (t : ℕ) (w : W)
      → time (io.schedule ev t w).1 ≤ time w + (t * 1000000 - time w) + delay
  pub clock_time : (w : W) → (io.clock w).0 ≡ time w / 1000000
  pub clock_ticks : (w : W) → time w < time (io.clock w).1
  pub clock_seen : (w : W) → seen (io.clock w).1 ≡ seen w
  pub call_time : (o l : ℕ) (w : W) → time w ≤ time (io.call o l w).1
  pub schedule_time : (ev : Events) (t : ℕ) (w : W) → time w ≤ time (io.schedule ev t w).1
  pub schedule_seen : (ev : Events) (t : ℕ) (w : W) → seen (io.schedule ev t w).1 ≡ seen w

abbrev pub sending : {W : Type 0} {io : Io W} {buf : List ℕ} → Kernel io buf → Quiet io
sending k = record {
  seen = k.sent;
  time = k.time;
  delay = k.delay;
  clock_late = k.clock_late;
  call_late = k.call_late;
  schedule_late = k.schedule_late;
  clock_time = k.clock_time;
  clock_ticks = k.clock_ticks;
  clock_seen = k.clock_sent;
  call_time = k.call_time;
  schedule_time = k.schedule_time;
  schedule_seen = k.schedule_sent;
}

-- the same for a descriptor that no other coroutine reads: `received` is what was taken from it
pub record Source {W : Type 0} (io : Io W) : Type 0 where
  pub received : W → List ℕ
  pub time : W → ℕ
  -- how long a step may take, in nanoseconds; Schedule comes back by its wakeup time if it is to come
  pub delay : ℕ
  pub clock_late : (w : W) → time (io.clock w).1 ≤ time w + delay
  pub call_late : (o l : ℕ) (w : W) → time (io.call o l w).1 ≤ time w + delay
  pub schedule_late :
      (ev : Events) (t : ℕ) (w : W)
      → time (io.schedule ev t w).1 ≤ time w + (t * 1000000 - time w) + delay
  pub clock_time : (w : W) → (io.clock w).0 ≡ time w / 1000000
  pub clock_ticks : (w : W) → time w < time (io.clock w).1
  pub clock_received : (w : W) → received (io.clock w).1 ≡ received w
  pub call_time : (o l : ℕ) (w : W) → time w ≤ time (io.call o l w).1
  -- a call gives no more bytes than there is room for
  pub call_bytes :
      (o l n : ℕ) (w : W)
      → (io.call o l w).0 ≡ bytes n
      → (part : List ℕ) × (length part ≡ n)
        × (n ≤ l)
        × (received (io.call o l w).1 ≡ received w ++ part)
  pub call_fails :
      (o l : ℕ) (e : Errno) (w : W)
      → (io.call o l w).0 ≡ fails e
      → received (io.call o l w).1 ≡ received w
  pub schedule_time : (ev : Events) (t : ℕ) (w : W) → time w ≤ time (io.schedule ev t w).1
  pub schedule_received :
      (ev : Events) (t : ℕ) (w : W) → received (io.schedule ev t w).1 ≡ received w

abbrev pub receiving : {W : Type 0} {io : Io W} → Source io → Quiet io
receiving k = record {
  seen = k.received;
  time = k.time;
  delay = k.delay;
  clock_late = k.clock_late;
  call_late = k.call_late;
  schedule_late = k.schedule_late;
  clock_time = k.clock_time;
  clock_ticks = k.clock_ticks;
  clock_seen = k.clock_received;
  call_time = k.call_time;
  schedule_time = k.schedule_time;
  schedule_seen = k.schedule_received;
}

-- the call returns, with a result that satisfies `P`
abbrev pub Returns {ℓ κ} : {A : Type ℓ} → (A → Type κ) → Option A → Type (ℓ ⊔ κ)
Returns {A} P o = (a : A) × (o ≡ some a) × P a

pub Returns-map {ℓ κ} :
    {A : Type ℓ} {P Q : A → Type κ} {o : Option A}
    → ((a : A) → P a → Q a)
    → Returns P o
    → Returns Q o
Returns-map f (a, e, p) = (a, e, f a p)

pub Returns-if {ℓ κ} :
    {A : Type ℓ} {P : A → Type κ} {x y : Option A} (b : Bool)
    → Returns P x
    → Returns P y
    → Returns P (if b then x else y)
Returns-if true p q = p
Returns-if false p q = q

int_gt_small : (n m : ℕ) → n < 2147483648 → int_gt n m ≡ ltb m n
unfolding int_gt
int_gt_small n m h = ground (arith, mod-eq_of_lt {n = n} {m = 4294967296} (omega arith))

module _ {W : Type 0} (io : Io W) (k : Quiet io) where
  -- twice the timeout and a few delays fit into an int of milliseconds: 12 days are short enough
  abbrev pub Timely : ℕ → Type 0
  Timely timeout = (2 * timeout + 1) * 1000000 + 5 * k.delay < 2147483648000000

  -- the last time at which a round of a loop may begin
  abbrev pub latest : ℕ → ℕ → ℕ
  latest start timeout = (start + 2 * timeout + 1) * 1000000 + 4 * k.delay

  -- the elapsed time is read well as long as it fits into an int
  pub not_expired :
      (start timeout : ℕ) (w : W)
      → k.time w < (start + 2147483648) * 1000000
      → int_gt ((io.clock w).0 - start) timeout ≡ false
      → k.time w < (start + timeout + 1) * 1000000
  not_expired start timeout w h e =
      let n = (io.clock w).0 - start in
      let small : ltb timeout n ≡ false =
        sym (int_gt_small n timeout (omega (arith, k.clock_time w, h))) ∙ e in
      ground (arith, k.clock_time w, small)

  -- a wait that is over by an event began within the timeout, and did not last longer than that
  pub wait_in_time :
      (want : Bool) (start timeout : ℕ) (w : W)
      → k.time w < (start + 2147483648) * 1000000
      → (wait_fd_ready io want start timeout w).0 ≡ none
      → (k.time w < (start + timeout + 1) * 1000000)
        × (k.time (wait_fd_ready io want start timeout w).1
            ≤ (start + 2 * timeout + 1) * 1000000 + 3 * k.delay)
  unfolding wait_fd_ready expired
  wait_in_time want start timeout w b h =
      let w₁ = (io.clock w).1 in
      let w₂ = (io.clock w₁).1 in
      elim (Bool-cases (int_gt ((io.clock w).0 - start) timeout)) [
        | inl y ↦
            let over : (wait_fd_ready io want start timeout w).0 ≡ some (minus_one etime) =
              rw (y, wait_fd_ready) refl in
            absurd (ground (arith, over, h))
        | inr y ↦
            let still = not_expired start timeout w b y in
            elim (Option-cases (io.item w₁)) [
              | inl e ↦
                  let missing : (wait_fd_ready io want start timeout w).0
                      ≡ some (minus_two einval) =
                    rw (y, e, wait_fd_ready) refl in
                  absurd (ground (arith, missing, h))
              | inr (ev, e) ↦
                  let t = timeout + (io.clock w₁).0 in
                  let v = set_interest want ev in
                  rw (y, e, wait_fd_ready)
                    (
                      still,
                      omega (
                        arith,
                        still,
                        k.clock_late w,
                        k.clock_late w₁,
                        k.clock_time w₁,
                        k.clock_ticks w₁,
                        k.schedule_late v t w₂,
                      ),
                    )
            ]
      ]

  pub wait_fd_ready_quiet :
      (want : Bool) (start timeout : ℕ) (w : W)
      → (k.time w < k.time (wait_fd_ready io want start timeout w).1)
        × (k.seen (wait_fd_ready io want start timeout w).1 ≡ k.seen w)
  unfolding wait_fd_ready expired
  wait_fd_ready_quiet want start timeout w =
      let w₁ = (io.clock w).1 in
      let w₂ = (io.clock w₁).1 in
      elim (Bool-cases (int_gt ((io.clock w).0 - start) timeout)) [
        | inl y ↦ rw (y, wait_fd_ready) (k.clock_ticks w, k.clock_seen w)
        | inr y ↦ elim (Option-cases (io.item w₁)) [
          | inl e ↦ rw (y, e, wait_fd_ready) (k.clock_ticks w, k.clock_seen w)
          | inr (ev, e) ↦
              let t = timeout + (io.clock w₁).0 in
              let v = set_interest want ev in
              rw (y, e, wait_fd_ready)
                (
                  omega (arith, k.clock_ticks w, k.clock_ticks w₁, k.schedule_time v t w₂),
                  k.schedule_seen v t w₂ ∙ k.clock_seen w₁ ∙ k.clock_seen w,
                )
        ]
      ]

  wait_result_error : (r : Option Errno) (n : ℕ) → wait_result io r ≢ some (returns n)
  wait_result_error none n q = ground arith
  wait_result_error (some e) n q = ground (arith, Bool-cases (is_etime e))

  -- no wait ends in a count of bytes
  pub wait_fd_ready_error :
      (want : Bool) (start timeout : ℕ) (w : W) (n : ℕ)
      → (wait_fd_ready io want start timeout w).0 ≢ some (returns n)
  unfolding wait_fd_ready expired
  wait_fd_ready_error want start timeout w n =
      let w₁ = (io.clock w).1 in
      elim (Bool-cases (int_gt ((io.clock w).0 - start) timeout)) [
        | inl y ↦ rw (y, wait_fd_ready) λ q. ground arith
        | inr y ↦ elim (Option-cases (io.item w₁)) [
          | inl e ↦ rw (y, e, wait_fd_ready) λ q. ground arith
          | inr (ev, e) ↦ rw (y, e, wait_fd_ready) (wait_result_error _ n)
        ]
      ]
