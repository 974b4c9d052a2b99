-- ===== src/Sys/Tests.antt =====
-- src/st_sys.cc: a socket that moves two bytes at a time and makes the caller wait after each, for
-- runs of st_send and st_recv, and a thread with a notification, for st_wait.
use sthread.Prelude.{
  ℕ, zero, suc, length, ◌+◌, ◌/◌, ◌≤◌, ◌≡◌, List, [], ◌∷◌, ◌++◌, take, drop, none, some, refl, sym,
  ap, arith, Bool, true, false, leb, if◌then◌else◌,
}
use sthread.Sys.{
  Io, Outcome, bytes, fails, Errno, eagain, returns, send_loop, expired, int_gt,
  normalize_timeout_ms, wait_fd_ready, st_send, st_write, st_read, st_recv, st_recvfrom, etime,
}
use sthread.Sys.Kernel.{Kernel, Source, Returns}
use sthread.Sys.Send.{Sent, st_send-Sent}
use sthread.Sys.Receive.{Received, st_recv-Received}
use sthread.Sys.Wait.{
  Notices, Sticky, mask, told_count, Reported, fd_ready_now, wait_for_either, wait_outcome, st_wait,
  st_wait-Reported,
}

record Socket : Type 0 where
  time : ℕ
  sent : List ℕ
  full : Bool

abbrev message : List ℕ
message = 7 ∷ 8 ∷ 9 ∷ []

abbrev takes : ℕ → ℕ
takes l = if leb 2 l then 2 else l

abbrev answer : Bool → ℕ → ℕ → Socket → Outcome × Socket
answer true o l w = (fails eagain, record { time = w.time + 1; sent = w.sent; full = false })
answer false o l w = (
  bytes (takes l),
  record { time = w.time + 1; sent = w.sent ++ take (takes l) (drop o message); full = true },
)

abbrev socket : Io Socket
socket = record {
  clock = λ w. (w.time / 1000000, record { time = w.time + 1; sent = w.sent; full = w.full });
  active = λ w. true;
  has_real = true;
  call = λ o l w. answer w.full o l w;
  item = λ w. some (record { readable = true; writeable = true });
  schedule = λ ev t w. (none, record { time = w.time + 1; sent = w.sent; full = false });
}

counted : Outcome → ℕ
counted (bytes n) = n
counted (fails e) = 0

answer-bytes :
    (b : Bool) (o l n : ℕ) (w : Socket)
    → (answer b o l w).0 ≡ bytes n
    → (n ≤ l) × ((answer b o l w).1.sent ≡ w.sent ++ take n (drop o message))
unfolding counted
answer-bytes true o l n w h = absurd (ground arith)
answer-bytes false o l n w h = let e : takes l ≡ n = ap counted h in rw (sym e) (ground arith, refl)

answer-fails :
    (b : Bool) (o l : ℕ) (e : Errno) (w : Socket)
    → (answer b o l w).0 ≡ fails e
    → (answer b o l w).1.sent ≡ w.sent
answer-fails true o l e w h = refl
answer-fails false o l e w h = absurd (ground arith)

answer-time : (b : Bool) (o l : ℕ) (w : Socket) → w.time ≤ (answer b o l w).1.time
answer-time true o l w = omega arith
answer-time false o l w = omega arith

answer_late : (b : Bool) (o l : ℕ) (w : Socket) → (answer b o l w).1.time ≤ w.time + 1
answer_late true o l w = omega arith
answer_late false o l w = omega arith

abbrev kernel : Kernel socket message
kernel = record {
  sent = λ w. w.sent;
  time = λ w. w.time;
  delay = 1;
  clock_late = λ w. omega arith;
  call_late = λ o l w. answer_late w.full o l w;
  schedule_late = λ ev t w. omega arith;
  clock_time = λ w. refl;
  clock_ticks = λ w. omega arith;
  clock_sent = λ w. refl;
  call_time = λ o l w. answer-time w.full o l w;
  call_bytes = λ o l n w. answer-bytes w.full o l n w;
  call_fails = λ o l e w. answer-fails w.full o l e w;
  schedule_time = λ ev t w. omega arith;
  schedule_sent = λ ev t w. refl;
}

abbrev empty : Socket
empty = record { time = 5; sent = []; full = false }

-- two bytes, a wait, the last byte
sends :
    (st_send socket 10 3 (some 4) empty
      ≡ some (returns 3, record { time = 13; sent = message; full = true }))
unfolding st_send send_loop expired int_gt normalize_timeout_ms wait_fd_ready
sends = refl

st_send-Sent_example :
    Returns (Sent socket kernel 0 empty) (st_write socket 5000001 3 (some 4) empty)
    × Returns (Sent socket kernel 0 empty) (st_send socket 5000001 3 (some 4) empty)
unfolding normalize_timeout_ms
st_send-Sent_example = st_send-Sent socket kernel 5000001 (some 4) empty (omega arith) (omega arith)

parcel : ℕ → List ℕ
parcel zero = []
parcel (suc zero) = 7 ∷ []
parcel (suc (suc l)) = 7 ∷ 8 ∷ []

deliver : Bool → ℕ → Socket → Outcome × Socket
deliver true l w = (fails eagain, record { time = w.time + 1; sent = w.sent; full = false })
deliver false l w = (
  bytes (length (parcel l)),
  record { time = w.time + 1; sent = w.sent ++ parcel l; full = true },
)

abbrev inbox : Io Socket
inbox = record {
  clock = λ w. (w.time / 1000000, record { time = w.time + 1; sent = w.sent; full = w.full });
  active = λ w. true;
  has_real = true;
  call = λ o l w. deliver w.full l w;
  item = λ w. some (record { readable = true; writeable = true });
  schedule = λ ev t w. (none, record { time = w.time + 1; sent = w.sent; full = false });
}

parcel_le : (l : ℕ) → length (parcel l) ≤ l
unfolding parcel
parcel_le zero = omega arith
parcel_le (suc zero) = omega arith
parcel_le (suc (suc l)) = omega arith

deliver-bytes :
    (b : Bool) (l n : ℕ) (w : Socket)
    → (deliver b l w).0 ≡ bytes n
    → (part : List ℕ) × (length part ≡ n) × (n ≤ l) × ((deliver b l w).1.sent ≡ w.sent ++ part)
unfolding deliver counted
deliver-bytes true l n w h = absurd (ground arith)
deliver-bytes false l n w h =
    let e : length (parcel l) ≡ n = ap counted h in
    (parcel l, e, omega (arith, e, parcel_le l), refl)

deliver-fails :
    (b : Bool) (l : ℕ) (e : Errno) (w : Socket)
    → (deliver b l w).0 ≡ fails e
    → (deliver b l w).1.sent ≡ w.sent
unfolding deliver
deliver-fails true l e w h = refl
deliver-fails false l e w h = absurd (ground arith)

deliver-time : (b : Bool) (l : ℕ) (w : Socket) → w.time ≤ (deliver b l w).1.time
unfolding deliver
deliver-time true l w = omega arith
deliver-time false l w = omega arith

deliver_late : (b : Bool) (l : ℕ) (w : Socket) → (deliver b l w).1.time ≤ w.time + 1
unfolding deliver
deliver_late true l w = omega arith
deliver_late false l w = omega arith

abbrev source : Source inbox
source = record {
  received = λ w. w.sent;
  time = λ w. w.time;
  delay = 1;
  clock_late = λ w. omega arith;
  call_late = λ o l w. deliver_late w.full l w;
  schedule_late = λ ev t w. omega arith;
  clock_time = λ w. refl;
  clock_ticks = λ w. omega arith;
  clock_received = λ w. refl;
  call_time = λ o l w. deliver-time w.full l w;
  call_bytes = λ o l n w. deliver-bytes w.full l n w;
  call_fails = λ o l e w. deliver-fails w.full l e w;
  schedule_time = λ ev t w. omega arith;
  schedule_received = λ ev t w. refl;
}

st_recv-Received_example :
    Returns (Received inbox source 3 empty) (st_read inbox 5000002 3 (some 4) empty)
    × Returns (Received inbox source 3 empty) (st_recv inbox 5000002 3 (some 4) empty)
    × Returns (Received inbox source 3 empty) (st_recvfrom inbox 5000002 3 (some 4) empty)
unfolding normalize_timeout_ms
st_recv-Received_example =
    st_recv-Received inbox source 5000002 3 (some 4) empty (omega arith) (omega arith)

-- a thread that is told while it waits, and a descriptor on which nothing happens
record Desk : Type 0 where
  time : ℕ
  notified : Bool
  count : ℕ

abbrev idle : Io Desk
idle = record {
  clock = λ w. (w.time, w);
  active = λ w. true;
  has_real = true;
  call = λ o l w. (fails eagain, w);
  item = λ w. some (record { readable = true; writeable = true });
  schedule = λ ev t w. (some etime, record { time = t; notified = true; count = w.count });
}

abbrev bits : Notices Desk
bits = record {
  take = λ w. (
    w.notified,
    record { time = w.time; notified = false; count = w.count + told_count w.notified },
  );
  poll_now = λ want w. (bytes 0, w);
}

abbrev told : Sticky idle bits
told = record {
  taken = λ w. w.count;
  take_taken = λ w. refl;
  poll_taken = λ want w. refl;
  clock_taken = λ w. refl;
  schedule_taken = λ ev t w. refl;
}

abbrev at_desk : Desk
at_desk = record { time = 5; notified = false; count = 0 }

-- Schedule ends by its timeout, and the notification that came in the meantime is reported
waits :
    st_wait idle bits 1 true (some 4) at_desk
    ≡ some (mask true false, record { time = 9; notified = false; count = 1 })
unfolding st_wait wait_for_either wait_outcome normalize_timeout_ms
waits = refl

st_wait-Reported_example :
    Returns (Reported idle bits told at_desk) (st_wait idle bits 1 true (some 4) at_desk)
unfolding fd_ready_now
st_wait-Reported_example =
    st_wait-Reported idle bits told 1 true (some 4) at_desk
      (record { readable = true; writeable = true }) refl refl (λ v t u e q. ground arith)
      (λ q. ground arith)
