-- ===== src/Sys/Wait.antt =====
-- src/st_sys.cc: st_wait, which waits for a descriptor and for a notification at once.
use sthread.Prelude.{
  ℕ, zero, suc, ◌+◌, ◌≡◌, ◌≢◌, ◌∙◌, ap, refl, sym, some-injective, Bool, true, false, ◌||◌, Option,
  none, some, ltb, if◌then◌else◌, inl, inr, Bool-cases, Option-cases, arith,
}
use sthread.Sys.{
  Io, Outcome, bytes, fails, Errno, Events, etime, einval, Ret, minus_one, minus_two, minus_three,
  is_eintr, is_etime, set_interest, normalize_timeout_ms,
}
use sthread.Sys.Kernel.{Returns}
use sthread.Sys.Send.{Outcome-cases}

-- TakeNotified of the running thread, and poll with no timeout: whether events were reported
pub record Notices (W : Type 0) : Type 0 where
  pub take : W → Bool × W
  pub poll_now : Bool → W → Outcome × W

-- the bits ST_WAIT_NOTIFY and ST_WAIT_FD, or an error
pub data Waited : Type 0 where
  mask : Bool → Bool → Waited
  wait_fails : Ret → Waited

abbrev pub told_count : Bool → ℕ
told_count b = if b then 1 else 0

module _ {W : Type 0} (io : Io W) (notices : Notices W) where
  -- FdReadyNow; `none` when the fuel for interrupted calls runs out
  unfoldable pub fd_ready_now : ℕ → Bool → W → Option (Bool × W)
  fd_ready_now zero want w = none
  fd_ready_now (suc fuel) want w =
      let r = notices.poll_now want w in
      let again = fd_ready_now fuel want r.1 in
      elim r.0 [
        | bytes n ↦ some (ltb 0 n, r.1)
        | fails e ↦ if is_eintr e then again else some (false, r.1)
      ]

  -- what follows Schedule: `told` is TakeNotified, and Schedule never leaves errno at 0
  unfoldable pub wait_outcome : Bool → Option Errno → Waited
  wait_outcome told none = mask told true
  wait_outcome told (some e) =
      if is_etime e
      then (if told then mask true false else wait_fails (minus_one etime))
      else wait_fails (minus_three e)

  -- st_wait from Schedule on, when no notification was there
  unfoldable pub wait_for_either : Bool → ℕ → Events → W → Waited × W
  wait_for_either want timeout ev w =
      let (now, w₁) = io.clock w in
      let (r, w₂) = io.schedule (set_interest want ev) (timeout + now) w₁ in
      let (told, w₃) = notices.take w₂ in (wait_outcome told r, w₃)

  -- when a notification was there: the descriptor is looked at, and nothing waits
  unfoldable pub notified_now : Option (Bool × W) → Option (Waited × W)
  notified_now none = none
  notified_now (some r) = some (mask true r.0, r.1)

  unfoldable pub st_wait : ℕ → Bool → Option ℕ → W → Option (Waited × W)
  st_wait fuel want timeout w =
      let (got, w₁) = notices.take w in
      if io.active w
      then (elim (io.item w) [
        | none ↦ some (wait_fails (minus_two einval), w)
        | some ev ↦
            if got
            then notified_now (fd_ready_now fuel want w₁)
            else some (wait_for_either want (normalize_timeout_ms timeout) ev w₁)
      ])
      else some (wait_fails (minus_one einval), w)

  -- how many notifications the thread has taken: no other operation takes one
  pub record Sticky : Type 0 where
    pub taken : W → ℕ
    pub take_taken : (w : W) → taken (notices.take w).1 ≡ taken w + told_count (notices.take w).0
    pub poll_taken : (want : Bool) (w : W) → taken (notices.poll_now want w).1 ≡ taken w
    pub clock_taken : (w : W) → taken (io.clock w).1 ≡ taken w
    pub schedule_taken : (ev : Events) (t : ℕ) (w : W) → taken (io.schedule ev t w).1 ≡ taken w

module _ {W : Type 0} (io : Io W) (notices : Notices W) (sticky : Sticky io notices) where
  -- a mask is not 0 and tells of each notification that was taken; nothing else but a timeout, with
  -- none taken
  abbrev pub Reported : W → Waited × W → Type 0
  Reported w (mask told ready, w') =
      ((told || ready) ≡ true) × (sticky.taken w' ≡ sticky.taken w + told_count told)
  Reported w (wait_fails e, w') = (e ≡ minus_one etime) × (sticky.taken w' ≡ sticky.taken w)

  wait_outcome-Reported :
      (told : Bool) (r : Option Errno) (w w' : W)
      → ((e : Errno) → r ≡ some e → is_etime e ≡ true)
      → sticky.taken w' ≡ sticky.taken w + told_count told
      → Reported w (wait_outcome io notices told r, w')
  unfolding wait_outcome
  wait_outcome-Reported true none w w' h t = (refl, t)
  wait_outcome-Reported false none w w' h t = (refl, t)
  wait_outcome-Reported true (some e) w w' h t = rw (h e refl) (refl, t)
  wait_outcome-Reported false (some e) w w' h t = rw (h e refl) (refl, omega arith)

  fd_ready_now_taken :
      (fuel : ℕ) (want : Bool) (w : W) (r : Bool × W)
      → fd_ready_now io notices fuel want w ≡ some r
      → sticky.taken r.1 ≡ sticky.taken w
  unfolding fd_ready_now
  fd_ready_now_taken zero want w r h = absurd (ground (arith, h))
  fd_ready_now_taken (suc fuel) want w r h =
      let w₁ = (notices.poll_now want w).1 in
      elim (Outcome-cases (notices.poll_now want w).0) [
        | inl (n, e) ↦
            ap (λ x. sticky.taken x.1) (sym (some-injective (rw (e, fd_ready_now) at h)))
            ∙ sticky.poll_taken want w
        | inr (e, q) ↦ elim (Bool-cases (is_eintr e)) [
          | inl z ↦
              fd_ready_now_taken fuel want w₁ r (rw (q, z, fd_ready_now) at h)
              ∙ sticky.poll_taken want w
          | inr z ↦
              ap (λ x. sticky.taken x.1) (sym (some-injective (rw (q, z, fd_ready_now) at h)))
              ∙ sticky.poll_taken want w
        ]
      ]

  -- A running thread waits for a descriptor that has an item, Schedule fails at most by its timeout,
  -- and poll ends within the fuel. Then st_wait returns a mask that is not 0, or -1 with ETIME. The mask
  -- tells of a notification just if one was taken, so that none is lost, also not to a timeout.
  pub st_wait-Reported :
      (fuel : ℕ) (want : Bool) (timeout : Option ℕ) (w : W) (ev : Events)
      → io.active w ≡ true
      → io.item w ≡ some ev
      → ((v : Events) (t : ℕ) (u : W) (e : Errno)
          → (io.schedule v t u).0 ≡ some e
          → is_etime e ≡ true)
      → fd_ready_now io notices fuel want (notices.take w).1 ≢ none
      → Returns (Reported w) (st_wait io notices fuel want timeout w)
  unfolding st_wait notified_now
  st_wait-Reported fuel want timeout w ev a i h p =
      let w₁ = (notices.take w).1 in
      elim (Bool-cases (notices.take w).0) [
        | inl y ↦ elim (Option-cases (fd_ready_now io notices fuel want w₁)) [
          | inl e ↦ absurd (p e)
          | inr (r, e) ↦
              rw (a, i, y, e)
                (
                  (mask true r.0, r.1),
                  refl,
                  (refl, fd_ready_now_taken fuel want w₁ r e ∙ sticky.take_taken w ∙ rw y refl),
                )
        ]
        | inr n ↦
            let v = set_interest want ev in
            let w₂ = (io.clock w₁).1 in
            let t = normalize_timeout_ms timeout + (io.clock w₁).0 in
            let w₃ = (io.schedule v t w₂).1 in
            rw (a, i, n)
              (
                _,
                refl,
                (unfold wait_for_either in
                    wait_outcome-Reported _ _ w (notices.take w₃).1 (λ e q. h v t w₂ e q)
                      (sticky.take_taken w₃
                        ∙ ap (λ x. x + told_count (notices.take w₃).0)
                            (sticky.schedule_taken v t w₂
                              ∙ sticky.clock_taken w₁
                              ∙ sticky.take_taken w
                              ∙ rw n (omega arith)))),
              )
      ]
