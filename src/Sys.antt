-- ===== src/Sys.antt =====
-- src/st_sys.cc: the calls that wait for a descriptor. The kernel, the clock and the event schedule
-- are an interface over a world `W`: what another coroutine does during a wait is part of the new
-- world. A return value carries the errno that the caller sees.
pub mod Kernel
pub mod Send
pub mod Receive
pub mod Wait
pub mod Notify
mod Tests
use sthread.Prelude.{
  ℕ, zero, suc, ◌%◌, ◌&&◌, ◌+◌, ◌-◌, Bool, true, false, Option, none, some, ltb, leb, ◌==◌,
  if◌then◌else◌,
}

pub data Errno : Type 0 where
  eintr eagain einprogress eisconn etime einval enosys eio efault : Errno

-- the result of a real system call: a count of bytes or a descriptor, or errno
pub data Outcome : Type 0 where
  bytes : ℕ → Outcome
  fails : Errno → Outcome

-- the results of a call: a count, and -1, -2, -3 with errno
pub data Ret : Type 0 where
  returns : ℕ → Ret
  minus_one minus_two minus_three : Errno → Ret

-- the bits ST_READABLE and ST_WRITEABLE of an item
pub record Events : Type 0 where
  pub readable : Bool
  pub writeable : Bool

pub record Io (W : Type 0) : Type 0 where
  -- Util::TimeMs
  pub clock : W → ℕ × W
  -- whether GetActiveThread gives a thread
  pub active : W → Bool
  -- whether dlsym found the real function
  pub has_real : Bool
  -- the real function, from an offset of the buffer and with a length
  pub call : ℕ → ℕ → W → Outcome × W
  -- the events of GetEventItem(fd), if there is one
  pub item : W → Option Events
  -- Schedule with the events of the item and the wakeup time; `some` is false and errno
  pub schedule : Events → ℕ → W → Option Errno × W

abbrev pub is_eintr : Errno → Bool
is_eintr eintr = true
is_eintr _ = false

-- EAGAIN and EWOULDBLOCK are one number
abbrev pub is_eagain : Errno → Bool
is_eagain eagain = true
is_eagain _ = false

abbrev pub is_einprogress : Errno → Bool
is_einprogress einprogress = true
is_einprogress _ = false

abbrev pub is_eisconn : Errno → Bool
is_eisconn eisconn = true
is_eisconn _ = false

abbrev pub is_etime : Errno → Bool
is_etime etime = true
is_etime _ = false

-- NormalizeTimeoutMs; `none` is a negative timeout
unfoldable pub normalize_timeout_ms : Option ℕ → ℕ
normalize_timeout_ms none = 0x7fffffff
normalize_timeout_ms (some t) = t

unfoldable pub set_interest : Bool → Events → Events
set_interest true ev = record { readable = true; writeable = false }
set_interest false ev = record { readable = false; writeable = true }

-- (int)n > m, for an int m that is not negative: beyond 2^31 - 1 the int starts again at -2^31
unfoldable pub int_gt : ℕ → ℕ → Bool
int_gt n m = let i = n % 4294967296 in ltb m i && ltb i 2147483648

module _ {W : Type 0} (io : Io W) where
  -- (int)(Util::TimeMs() - start) > timeout, where the clock is not set back
  unfoldable pub expired : ℕ → ℕ → W → Bool × W
  expired start timeout w = let (now, w₁) = io.clock w in (int_gt (now - start) timeout, w₁)

  abbrev pub wait_result : Option Errno → Option Ret
  wait_result none = none
  wait_result (some e) = some (if is_etime e then minus_one etime else minus_three e)

  -- WaitFdReady: `none` is ready; Schedule never leaves errno at 0
  unfoldable pub wait_fd_ready : Bool → ℕ → ℕ → W → Option Ret × W
  wait_fd_ready want_read start timeout w =
      let (over, w₁) = expired start timeout w in
      let (now, w₂) = io.clock w₁ in
      if over then (some (minus_one etime), w₁) else elim (io.item w₁) [
        | none ↦ (some (minus_two einval), w₁)
        | some ev ↦
            let (r, w₃) = io.schedule (set_interest want_read ev) (timeout + now) w₂ in
            (wait_result r, w₃)
      ]

  -- what follows a wait: the error is returned, or the loop goes on
  abbrev pub after_wait : Option Ret × W → (W → Option (Ret × W)) → Option (Ret × W)
  after_wait (none, w) loop = loop w
  after_wait (some r, w) loop = some (r, w)

  -- the loops of st_read and st_sendto; `none` when the fuel runs out
  unfoldable pub transfer_loop : ℕ → Bool → ℕ → ℕ → ℕ → W → Option (Ret × W)
  transfer_loop zero want_read start timeout len w = none
  transfer_loop (suc fuel) want_read start timeout len w =
      let (r, w₁) = io.call 0 len w in
      elim r [
        | bytes n ↦ some (returns n, w₁)
        | fails e ↦
            let (over, w₂) = expired start timeout w₁ in
            let again = transfer_loop fuel want_read start timeout len w₂ in
            let waited =
              after_wait (wait_fd_ready want_read start timeout w₂)
                (transfer_loop fuel want_read start timeout len) in
            if over
            then some (minus_one etime, w₂)
            else (if is_eintr e
                then again
                else (if is_eagain e then waited else some (minus_one e, w₂)))
      ]

  -- the loop of st_connect
  unfoldable pub connect_loop : ℕ → ℕ → ℕ → W → Option (Ret × W)
  connect_loop zero start timeout w = none
  connect_loop (suc fuel) start timeout w =
      let (r, w₁) = io.call 0 0 w in
      elim r [
        | bytes n ↦ some (returns n, w₁)
        | fails e ↦
            let (over, w₂) = expired start timeout w₁ in
            let again = connect_loop fuel start timeout w₂ in
            let waited =
              after_wait (wait_fd_ready false start timeout w₂) (connect_loop fuel start timeout) in
            if over then some (minus_one etime, w₂) else elim e [
              | eisconn ↦ some (returns 0, w₂)
              | eintr ↦ again
              | eagain ↦ waited
              | einprogress ↦ waited
              | other ↦ some (minus_one other, w₂)
            ]
      ]

  -- the loops of st_recv and st_recvfrom
  unfoldable pub recv_loop : ℕ → ℕ → ℕ → ℕ → W → Option (Ret × W)
  recv_loop zero start timeout len w = none
  recv_loop (suc fuel) start timeout len w = after_wait (wait_fd_ready true start timeout w) λ w₁.
      let (r, w₂) = io.call 0 len w₁ in
      elim r [
        | bytes n ↦ some (returns n, w₂)
        | fails e ↦
            let again = recv_loop fuel start timeout len w₂ in
            if is_eintr e then again else (if is_eagain e then again else some (minus_one e, w₂))
      ]

  -- the loops of st_write and st_send
  unfoldable pub send_loop : ℕ → ℕ → ℕ → ℕ → ℕ → W → Option (Ret × W)
  send_loop zero start timeout nbyte send_len w = none
  send_loop (suc fuel) start timeout nbyte send_len w =
      let (over, w₁) = expired start timeout w in
      let (r, w₂) = io.call send_len (nbyte - send_len) w₁ in
      let waits = λ (sent : ℕ).
        after_wait (wait_fd_ready false start timeout w₂)
          (send_loop fuel start timeout nbyte sent) in
      let next : Option (Ret × W) = elim r [
        | bytes zero ↦ some (returns 0, w₂)
        | bytes (suc n) ↦
            let rest = waits (send_len + suc n) in
            if leb nbyte (send_len + suc n) then some (returns nbyte, w₂) else rest
        | fails e ↦
            let again = send_loop fuel start timeout nbyte send_len w₂ in
            let rest = waits send_len in
            if is_eintr e then again else (if is_eagain e then rest else some (minus_one e, w₂))
      ] in
      if ltb send_len nbyte
      then (if over then some (minus_one etime, w₁) else next)
      else some (returns nbyte, w)

  -- the loop of st_accept
  unfoldable pub accept_loop : ℕ → ℕ → W → Option (Ret × W)
  accept_loop zero start w = none
  accept_loop (suc fuel) start w =
      let (r, w₁) = io.call 0 0 w in
      elim r [
        | bytes fd ↦ some (returns fd, w₁)
        | fails e ↦
            let again = accept_loop fuel start w₁ in
            let waited =
              after_wait (wait_fd_ready true start 0x7fffffff w₁) (accept_loop fuel start) in
            elim e [
              | eintr ↦ again
              | eagain ↦ waited
              | einprogress ↦ waited
              | other ↦ some (minus_one other, w₁)
            ]
      ]

  -- the head of a call: ENOSYS without the real function, EINVAL without a thread
  abbrev pub begin : W → (ℕ → W → Option (Ret × W)) → Option (Ret × W)
  begin w loop =
      let (start, w₁) = io.clock w in
      let body = loop start w₁ in
      if io.has_real
      then (if io.active w₁ then body else some (minus_one einval, w₁))
      else some (minus_one enosys, w)

  unfoldable pub st_read : ℕ → ℕ → Option ℕ → W → Option (Ret × W)
  st_read fuel nbyte timeout w =
      begin w (λ start. transfer_loop fuel true start (normalize_timeout_ms timeout) nbyte)

  unfoldable pub st_sendto : ℕ → ℕ → Option ℕ → W → Option (Ret × W)
  st_sendto fuel len timeout w =
      begin w (λ start. transfer_loop fuel false start (normalize_timeout_ms timeout) len)

  unfoldable pub st_recv : ℕ → ℕ → Option ℕ → W → Option (Ret × W)
  st_recv fuel len timeout w =
      begin w (λ start. recv_loop fuel start (normalize_timeout_ms timeout) len)

  unfoldable pub st_recvfrom : ℕ → ℕ → Option ℕ → W → Option (Ret × W)
  st_recvfrom fuel len timeout w =
      begin w (λ start. recv_loop fuel start (normalize_timeout_ms timeout) len)

  unfoldable pub st_write : ℕ → ℕ → Option ℕ → W → Option (Ret × W)
  st_write fuel nbyte timeout w =
      begin w (λ start. send_loop fuel start (normalize_timeout_ms timeout) nbyte 0)

  unfoldable pub st_send : ℕ → ℕ → Option ℕ → W → Option (Ret × W)
  st_send fuel nbyte timeout w =
      begin w (λ start. send_loop fuel start (normalize_timeout_ms timeout) nbyte 0)

  unfoldable pub st_connect : ℕ → Option ℕ → W → Option (Ret × W)
  st_connect fuel timeout w =
      let (start, w₁) = io.clock w in
      let body = connect_loop fuel start (normalize_timeout_ms timeout) w₁ in
      if io.active w₁
      then (if io.has_real then body else some (minus_one enosys, w₁))
      else some (minus_one einval, w₁)

  unfoldable pub st_accept : ℕ → W → Option (Ret × W)
  st_accept fuel w =
      let (start, w₁) = io.clock w in
      let body = accept_loop fuel start w₁ in
      if io.has_real
      then (if io.active w then body else some (minus_one einval, w))
      else some (minus_one enosys, w)
