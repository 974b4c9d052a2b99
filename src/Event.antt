-- ===== src/Event.antt =====
-- src/st_thread.h and src/st_thread.cc: StEventSchedule, the table of event items by descriptor over
-- the poller and over the scheduler of threads. An item is an address and 0 is NULL; a member of
-- StEventItem is a function from addresses, and `none` is a negative descriptor. What EvInput,
-- EvOutput of an item return is a parameter. The errno that a failure leaves is left out.
pub mod Dispatch
pub mod Init
pub mod Items
pub mod Queue
pub mod Registered
pub mod Wait
pub mod Tests
use sthread.Prelude.{
  ℕ, ◌+◌, ◌*◌, ◌/◌, ◌%◌, List, [], ◌∷◌, ◌++◌, Bool, true, false, not, ◌&&◌, ◌||◌, Option, none,
  some, if◌then◌else◌, update, leb, ltb, ◌==◌, erase,
}
use sthread.Sys.{Events}
use sthread.Poll.{
  Epoll, StIoState, StFiredEvent, st_none, same_mask, add_event, del_event, clear_fd,
}
use sthread.Thread.{StThreadSchedule}
use sthread.Thread.Queues.{io_wait_to_runable}

-- revents of an item, with ST_EVERR
pub record Received : Type 0 where
  pub mask : Events
  pub everr : Bool

pub record StEventSchedule : Type 0 where
  pub io : StIoState
  pub event : ℕ → ℕ
  pub maxfd : ℕ
  pub timeout : ℕ
  pub osfd : ℕ → Option ℕ
  pub events : ℕ → Events
  pub revents : ℕ → Received
  pub owner : ℕ → ℕ

-- IsValidFd of a descriptor that is not negative
abbrev pub is_valid_fd : StEventSchedule → ℕ → Bool
is_valid_fd s fd = not (leb s.maxfd fd)

unfoldable pub get_event_item : StEventSchedule → ℕ → ℕ
get_event_item s fd = if is_valid_fd s fd then s.event fd else 0

unfoldable pub set_event : StEventSchedule → ℕ → ℕ → StEventSchedule
set_event s fd item = record s { event = update s.event fd item }

unfoldable pub clear_osfd : StEventSchedule → ℕ → StEventSchedule
clear_osfd s fd = record s { io = clear_fd s.io fd }

module _ {K : Type 0} (e : Epoll K) where
  -- the new state of the poller in that of the schedule
  abbrev pub with_io : StEventSchedule → Bool × StIoState × K → Bool × StEventSchedule × K
  with_io s (ok, io, k) = (ok, record s { io = io }, k)

  unfoldable pub add_fd : StEventSchedule → ℕ → Events → K → Bool × StEventSchedule × K
  add_fd s fd m k = if is_valid_fd s fd then with_io s (add_event e s.io fd m k) else (false, s, k)

  unfoldable pub delete_fd : StEventSchedule → ℕ → Events → K → Bool × StEventSchedule × K
  delete_fd s fd m k =
      if is_valid_fd s fd then with_io s (del_event e s.io fd m k) else (false, s, k)

  -- another item at the descriptor loses its events and its place
  unfoldable pub detach_old : StEventSchedule → ℕ → ℕ → K → StEventSchedule × K
  detach_old s fd item k =
      let old = s.event fd in
      let r = delete_fd s fd (s.events old) k in
      if not (old == 0) && not (old == item) then (set_event r.1 fd 0, r.2) else (s, k)

  abbrev pub put_item : ℕ → ℕ → Bool × StEventSchedule × K → Bool × StEventSchedule × K
  put_item fd item (true, s, k) = (true, set_event s fd item, k)
  put_item fd item (false, s, k) = (false, s, k)

  unfoldable pub register : StEventSchedule → ℕ → ℕ → K → Bool × StEventSchedule × K
  register s fd item k =
      let d = detach_old s fd item k in put_item fd item (add_fd d.0 fd (s.events item) d.1)

  unfoldable pub add_item : StEventSchedule → ℕ → K → Bool × StEventSchedule × K
  add_item s item k = if item == 0 then (false, s, k) else elim (s.osfd item) [
    | none ↦ (false, s, k)
    | some fd ↦ if is_valid_fd s fd then register s fd item k else (false, s, k)
  ]

  unfoldable pub unregister : StEventSchedule → ℕ → ℕ → K → Bool × StEventSchedule × K
  unregister s fd item k =
      let old = s.event fd in
      let r = delete_fd s fd (s.events item) k in
      if old == 0 then (true, r.1, r.2) else (if old == item then r else (false, s, k))

  unfoldable pub delete_item : StEventSchedule → ℕ → K → Bool × StEventSchedule × K
  delete_item s item k = if item == 0 then (false, s, k) else elim (s.osfd item) [
    | none ↦ (false, s, k)
    | some fd ↦ if is_valid_fd s fd then unregister s fd item k else (false, s, k)
  ]

  unfoldable pub clear_item : StEventSchedule → ℕ → K → StEventSchedule × K
  clear_item s item k =
      let r = delete_item s item k in
      elim (r.1.osfd item) [
        | none ↦ (r.1, r.2)
        | some fd ↦ if is_valid_fd r.1 fd then (set_event r.1 fd 0, r.2) else (r.1, r.2)
      ]

  -- the loop of Add and Delete on a queue, up to the item that fails
  unfoldable pub each_item :
      (StEventSchedule → ℕ → K → Bool × StEventSchedule × K)
      → List ℕ
      → StEventSchedule
      → K
      → Option ℕ × StEventSchedule × K
  each_item op [] s k = (none, s, k)
  each_item op (x ∷ xs) s k =
      let r = op s x k in
      let rest = each_item op xs r.1 r.2 in if r.0 then rest else (some x, r.1, r.2)

  -- the loop that goes back, over the items before the one that failed
  unfoldable pub undo_until :
      (StEventSchedule → ℕ → K → Bool × StEventSchedule × K)
      → ℕ
      → List ℕ
      → StEventSchedule
      → K
      → StEventSchedule × K
  undo_until op bad [] s k = (s, k)
  undo_until op bad (x ∷ xs) s k =
      let r = op s x k in
      let rest = undo_until op bad xs r.1 r.2 in if x == bad then (s, k) else rest

  abbrev pub roll_back :
      (StEventSchedule → ℕ → K → Bool × StEventSchedule × K)
      → List ℕ
      → Option ℕ × StEventSchedule × K
      → Bool × StEventSchedule × K
  roll_back op xs (none, s, k) = (true, s, k)
  roll_back op xs (some bad, s, k) = let r = undo_until op bad xs s k in (false, r.0, r.1)

  unfoldable pub add_queue : List ℕ → StEventSchedule → K → Bool × StEventSchedule × K
  add_queue fdset s k = roll_back delete_item fdset (each_item add_item fdset s k)

  unfoldable pub delete_queue : List ℕ → StEventSchedule → K → Bool × StEventSchedule × K
  delete_queue fdset s k = roll_back add_item fdset (each_item delete_item fdset s k)
