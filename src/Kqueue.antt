-- ===== src/Kqueue.antt =====
-- stlib/st_kqueue.h: the StIOState of kqueue, with the state and the masks of Poll. Each bit of a mask
-- is a filter of its own in the kernel, which is an interface over a state `K`.
pub mod Synced
mod Tests
use sthread.Prelude.{
  ℕ, ◌+◌, List, [], ◌∷◌, Bool, true, false, not, ◌||◌, Option, some, none, if◌then◌else◌, leb,
}
use sthread.Sys.{Events}
use sthread.Poll.{StIoState, StFiredEvent, st_none, same_mask, without, set_mask}

pub data Filter : Type 0 where
  evfilt_read evfilt_write evfilt_other : Filter

-- kevent with one change and no room for events: EV_ADD | EV_ENABLE or EV_DELETE, and whether it
-- gave something other than -1
pub record Kernel (K : Type 0) : Type 0 where
  pub change : Filter → Bool → ℕ → K → Bool × K

-- Create; the arguments are whether the three calls of malloc and whether kqueue succeed
unfoldable pub create : ℕ → Bool → Bool → Option StIoState
create size stored opened =
    if stored
    then (if opened then some (record { mask = λ _. st_none; size = size }) else none)
    else none

module _ {K : Type 0} (e : Kernel K) where
  -- the filter of one bit; a filter that cannot be deleted is no error
  unfoldable pub sync_filter : Filter → Bool → ℕ → K → Bool × K
  sync_filter f true fd k = e.change f true fd k
  sync_filter f false fd k = (true, (e.change f false fd k).1)

  unfoldable pub add_event : StIoState → ℕ → Events → K → Bool × StIoState × K
  add_event s fd m k =
      if same_mask (s.mask fd) m
      then (true, s, k)
      else let (read, k₁) = sync_filter evfilt_read m.readable fd k in
        let (write, k₂) = sync_filter evfilt_write m.writeable fd k₁ in
        if not read
        then (false, s, k₁)
        else (if not write then (false, s, k₂) else (true, set_mask s fd m, k₂))

  unfoldable pub del_event : StIoState → ℕ → Events → K → Bool × StIoState × K
  del_event s fd delmask k = add_event s fd (without (s.mask fd) delmask) k

unfoldable pub clear_fd : StIoState → ℕ → StIoState
clear_fd s fd = if leb s.size fd then s else set_mask s fd st_none

-- ident, filter, and the flags EV_ERROR and EV_EOF of a kevent
pub record Kevent : Type 0 where
  pub ident : ℕ
  pub filter : Filter
  pub ev_error : Bool
  pub ev_eof : Bool

abbrev pub is_read : Filter → Bool
is_read evfilt_read = true
is_read evfilt_write = false
is_read evfilt_other = false

abbrev pub is_write : Filter → Bool
is_write evfilt_read = false
is_write evfilt_write = true
is_write evfilt_other = false

-- Poll, on the events that kevent reports
unfoldable pub poll : List Kevent → List StFiredEvent
poll [] = []
poll (v ∷ rest) =
    record {
      fd = v.ident;
      mask = record { readable = is_read v.filter; writeable = is_write v.filter };
      everr = v.ev_error || v.ev_eof;
    }
    ∷ poll rest
