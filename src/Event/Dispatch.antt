-- ===== src/Event/Dispatch.antt =====
-- src/st_thread.cc: Dispatch, Wait and Schedule of StEventSchedule, with the scheduler of threads.
-- `fdset` is m_fdset_ of the threads. Schedule is two operations, before and after the switch.
use sthread.Prelude.{
  ℕ, ◌+◌, ◌*◌, ◌/◌, ◌%◌, List, [], ◌∷◌, ◌++◌, Bool, true, false, not, ◌&&◌, ◌||◌, Option, none,
  some, if◌then◌else◌, update, ltb, ◌==◌, erase,
}
use sthread.Sys.{Events}
use sthread.Poll.{Epoll, StFiredEvent, st_none, same_mask}
use sthread.Event.{
  StEventSchedule, Received, is_valid_fd, delete_fd, clear_item, add_queue, delete_queue,
}
use sthread.Thread.{StThreadSchedule, set_wakeup_time}
use sthread.Thread.Queues.{io_wait_to_runable, insert_io_wait}
use sthread.Thread.Switch.{yield_if_active}

pub record World (K : Type 0) : Type 0 where
  pub schedule : StEventSchedule
  pub kernel : K
  pub threads : StThreadSchedule
  pub fdset : ℕ → List ℕ

-- thread->HasFlag(eIO_LIST), then IOWaitToRunable
unfoldable pub wake : ℕ → StThreadSchedule → StThreadSchedule
wake t ts = if not (t == 0) && (ts.flag t).io_list then (io_wait_to_runable t ts).1 else ts

unfoldable pub set_recv_events : StEventSchedule → ℕ → Received → StEventSchedule
set_recv_events s item r = record s { revents = update s.revents item r }

module _ {K : Type 0} (e : Epoll K) (ev_input ev_output : ℕ → ℕ) where
  -- ST_READABLE and then ST_WRITEABLE; a handler that does not return 0 ends the turn
  unfoldable pub handle : ℕ → ℕ → Events → StThreadSchedule → StThreadSchedule
  handle item thread m ts =
      let ts₁ = if m.readable then wake thread ts else ts in
      let ts₂ = if m.writeable && ev_output item == 0 then wake thread ts₁ else ts₁ in
      if m.readable && not (ev_input item == 0) then ts else ts₂

  -- a turn of the loop of Dispatch on an item of the table
  unfoldable pub fire : StFiredEvent → ℕ → World K → World K
  fire v item w =
      let thread = w.schedule.owner item in
      let s = set_recv_events w.schedule item (record { mask = v.mask; everr = v.everr }) in
      let c = clear_item e s item w.kernel in
      if v.everr
      then record w { schedule = c.0; kernel = c.1; threads = wake thread w.threads }
      else record w {
        schedule = s;
        threads = if thread == 0 then w.threads else handle item thread v.mask w.threads;
      }

  unfoldable pub dispatch_one : StFiredEvent → World K → World K
  dispatch_one v w =
      let item = w.schedule.event v.fd in
      let r = delete_fd e w.schedule v.fd v.mask w.kernel in
      if is_valid_fd w.schedule v.fd
      then (if item == 0 then record w { schedule = r.1; kernel = r.2 } else fire v item w)
      else w

  unfoldable pub dispatch : List StFiredEvent → World K → World K
  dispatch [] w = w
  dispatch (v ∷ rest) w = dispatch rest (dispatch_one v w)

-- the timeval that Wait gives to Poll; the argument `none` is a negative timeout
unfoldable pub wait_tv : ℕ → Option ℕ → Option (ℕ × ℕ)
wait_tv limit none = none
wait_tv limit (some t) =
    let wait_time = if ltb limit t then limit else t in
    if wait_time == 0 then none else some (wait_time / 1000, wait_time % 1000 * 1000)

abbrev pub erase_all : List ℕ → List ℕ → List ℕ
erase_all [] ys = ys
erase_all (x ∷ xs) ys = erase_all xs (erase x ys)

abbrev pub received : Received → Bool
received r = r.everr || not (same_mask r.mask st_none)

unfoldable pub recv_num : StEventSchedule → List ℕ → ℕ
recv_num s [] = 0
recv_num s (x ∷ xs) = (if received (s.revents x) then 1 else 0) + recv_num s xs

module _ {K : Type 0} (e : Epoll K) where
  -- Schedule up to the switch; an item 0 is NULL, and [] is no fdset
  unfoldable pub schedule_begin : ℕ → List ℕ → ℕ → ℕ → World K → Bool × World K
  schedule_begin thread items item wakeup_timeout w =
      let set = w.fdset thread ++ items in
      let set = if item == 0 then set else set ++ item ∷ [] in
      let r = add_queue e set w.schedule w.kernel in
      let ts = set_wakeup_time thread wakeup_timeout w.threads in
      if thread == 0
      then (false, w)
      else (if r.0
          then (
            true,
            record {
              schedule = r.1;
              kernel = r.2;
              threads = yield_if_active thread (insert_io_wait thread ts).1;
              fdset = update w.fdset thread set;
            },
          )
          else (
            false,
            record {
              schedule = r.1;
              kernel = r.2;
              threads = ts;
              fdset = update w.fdset thread (erase_all items (erase item set));
            },
          ))

  -- Schedule after the switch: whether an event came
  unfoldable pub schedule_end : ℕ → World K → Bool × World K
  schedule_end thread w =
      let r = delete_queue e (w.fdset thread) w.schedule w.kernel in
      (
        not (recv_num w.schedule (w.fdset thread) == 0),
        record w { schedule = r.1; kernel = r.2; fdset = update w.fdset thread [] },
      )
