-- ===== src/Poll.antt =====
-- stlib/st_epoll.h: StIOState. A mask has the bits ST_READABLE and ST_WRITEABLE; that of a fired event
-- has ST_EVERR too. The kernel is an interface over a state `K`, and descriptors are not negative.
pub mod Agrees
pub mod Tests
use sthread.Prelude.{
  ℕ, ◌+◌, ◌*◌, ◌/◌, ◌%◌, ◌≤◌, ◌<◌, ◌≡◌, List, [], ◌∷◌, Bool, true, false, not, ◌&&◌, ◌||◌, Option,
  none, some, if◌then◌else◌, update, leb,
}
use sthread.Sys.{Events}

-- EPOLL_CTL_ADD, EPOLL_CTL_MOD, EPOLL_CTL_DEL
pub data CtlOp : Type 0 where
  ctl_add ctl_mod ctl_del : CtlOp

pub data CtlResult : Type 0 where
  ctl_ok ctl_enoent ctl_fails : CtlResult

-- epoll_ctl on an epoll instance
pub record Epoll (K : Type 0) : Type 0 where
  pub ctl : CtlOp → ℕ → Events → K → CtlResult × K

pub record StIoState : Type 0 where
  pub mask : ℕ → Events
  pub size : ℕ

-- ST_NONE
abbrev pub st_none : Events
st_none = record { readable = false; writeable = false }

abbrev pub same_bit : Bool → Bool → Bool
same_bit true b = b
same_bit false b = not b

abbrev pub same_mask : Events → Events → Bool
same_mask a b = same_bit a.readable b.readable && same_bit a.writeable b.writeable

-- mask & ~delmask
abbrev pub without : Events → Events → Events
without a b = record {
  readable = a.readable && not b.readable;
  writeable = a.writeable && not b.writeable;
}

unfoldable pub set_mask : StIoState → ℕ → Events → StIoState
set_mask s fd m = record s { mask = update s.mask fd m }

-- Create; `stored` is whether malloc and epoll_create succeed
unfoldable pub create : ℕ → Bool → Option StIoState
create size stored = if stored then some (record { mask = λ _. st_none; size = size }) else none

module _ {K : Type 0} (e : Epoll K) where
  -- what follows epoll_ctl: the mask is stored unless the call failed
  unfoldable pub store_mask : StIoState → ℕ → Events → CtlResult × K → Bool × StIoState × K
  store_mask s fd m (ctl_ok, k) = (true, set_mask s fd m, k)
  store_mask s fd m (ctl_enoent, k) = (false, s, k)
  store_mask s fd m (ctl_fails, k) = (false, s, k)

  -- EPOLL_CTL_DEL of a registration that the kernel no longer has is a success
  unfoldable pub drop_mask : StIoState → ℕ → CtlResult × K → Bool × StIoState × K
  drop_mask s fd (ctl_ok, k) = (true, set_mask s fd st_none, k)
  drop_mask s fd (ctl_enoent, k) = (true, set_mask s fd st_none, k)
  drop_mask s fd (ctl_fails, k) = (false, s, k)

  unfoldable pub del_event : StIoState → ℕ → Events → K → Bool × StIoState × K
  del_event s fd delmask k =
      let cur = s.mask fd in
      let m = without cur delmask in
      if same_mask cur st_none
      then (true, s, k)
      else (if same_mask m cur
          then (true, s, k)
          else (if same_mask m st_none
              then drop_mask s fd (e.ctl ctl_del fd m k)
              else store_mask s fd m (e.ctl ctl_mod fd m k)))

  unfoldable pub add_event : StIoState → ℕ → Events → K → Bool × StIoState × K
  add_event s fd m k =
      let cur = s.mask fd in
      if same_mask cur m
      then (true, s, k)
      else (if same_mask m st_none
          then del_event s fd cur k
          else store_mask s fd m
              (e.ctl (if same_mask cur st_none then ctl_add else ctl_mod) fd m k))

unfoldable pub clear_fd : StIoState → ℕ → StIoState
clear_fd s fd = if leb s.size fd then s else set_mask s fd st_none

-- EPOLLIN, EPOLLOUT, EPOLLERR and EPOLLHUP of an epoll_event, and its data.fd
pub record EpollEvent : Type 0 where
  pub fd : ℕ
  pub epollin : Bool
  pub epollout : Bool
  pub epollerr : Bool
  pub epollhup : Bool

pub record StFiredEvent : Type 0 where
  pub fd : ℕ
  pub mask : Events
  pub everr : Bool

-- Poll, on the events that epoll_wait reports
unfoldable pub poll : List EpollEvent → List StFiredEvent
poll [] = []
poll (v ∷ rest) =
    record {
      fd = v.fd;
      mask = record { readable = v.epollin; writeable = v.epollout };
      everr = v.epollerr || v.epollhup;
    }
    ∷ poll rest

-- the timeout that Poll gives to epoll_wait; `none` is -1, which waits without limit
unfoldable pub poll_timeout : Option (ℕ × ℕ) → Option ℕ
poll_timeout none = none
poll_timeout (some (sec, usec)) = some (sec * 1000 + usec / 1000)
