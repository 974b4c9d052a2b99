-- ===== src/Event/Init.antt =====
-- src/st_thread.cc: StEventSchedule::Init. A request of 0 stands for one that is not positive, and so
-- does a soft limit of 0; `none` is a getrlimit that fails. What setrlimit does is left out.
use sthread.Prelude.{
  ℕ, ◌<◌, ◌≡◌, refl, Bool, true, false, ◌&&◌, ◌||◌, Option, none, some, if◌then◌else◌, ltb, ◌==◌,
  arith,
}
use sthread.Poll.{create}
use sthread.Event.{StEventSchedule}

pub data InitResult : Type 0 where
  init_ok minus_two minus_three : InitResult

-- the number of descriptors that Init asks for
unfoldable pub capacity : ℕ → Option ℕ → ℕ
capacity max_num none = if ltb 65535 max_num then 65535 else max_num
capacity max_num (some rlim_cur) =
    let lim = if ltb 65535 rlim_cur then 65535 else rlim_cur in
    if ltb 0 lim && (max_num == 0 || ltb lim max_num) then lim else max_num

-- `stored` is whether Create succeeds, `table` whether malloc gives the table of items
unfoldable pub init : ℕ → Option ℕ → Bool → Bool → StEventSchedule → InitResult × StEventSchedule
init max_num limit stored table s =
    let cap = capacity max_num limit in
    let maxfd = if ltb s.maxfd cap then cap else s.maxfd in
    elim (create maxfd stored) [
      | none ↦ (minus_two, record s { maxfd = maxfd })
      | some io ↦
          if table
          then (init_ok, record s { maxfd = maxfd; io = io; event = λ _. 0 })
          else (minus_three, record s { maxfd = maxfd })
    ]

-- From the constructor's 65535 descriptors: whatever the request, and for every positive limit, also a
-- small one, Init keeps 65535 descriptors, with every outcome of the allocations. If it succeeds, the
-- poller's table has that size and no descriptor has an item.
pub init_capacity :
    (max_num rlim_cur : ℕ) (stored table : Bool) (s : StEventSchedule)
    → 0 < rlim_cur
    → s.maxfd ≡ 65535
    → let r = init max_num (some rlim_cur) stored table s in
      (r.1.maxfd ≡ 65535) × (r.0 ≡ init_ok → (r.1.io.size ≡ 65535) × ((fd : ℕ) → r.1.event fd ≡ 0))
unfolding init capacity create
init_capacity max_num rlim_cur true true s p h = (ground arith, λ _. (ground arith, λ fd. refl))
init_capacity max_num rlim_cur true false s p h = (ground arith, λ q. absurd (ground arith))
init_capacity max_num rlim_cur false table s p h = (ground arith, λ q. absurd (ground arith))
