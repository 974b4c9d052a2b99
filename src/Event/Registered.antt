-- ===== src/Event/Registered.antt =====
-- src/st_thread.cc: what adding and deleting items keeps, for one item and for a queue of them.
use sthread.Prelude.{
  ℕ, ◌≡◌, inl, inr, Bool-cases, Option-cases, List, [], ◌∷◌, Bool, true, false, not, ◌&&◌, Option,
  none, some, if◌then◌else◌, ◌==◌,
}
use sthread.Sys.{Events}
use sthread.Poll.{Epoll}
use sthread.Poll.Agrees.{Contract, AgreesWith, add_event-Masks, del_event-Masks}
use sthread.Event.{
  StEventSchedule, Received, is_valid_fd, set_event, add_fd, delete_fd, detach_old, put_item,
  register, add_item, unregister, delete_item, clear_item, each_item, undo_until, roll_back,
  add_queue, delete_queue,
}

module _ {K : Type 0} {e : Epoll K} (c : Contract e) (r₀ : ℕ → Received) where
  -- the masks are those of the kernel, and the received events are `r₀`
  pub record Kept (s : StEventSchedule) (k : K) : Type 0 where
    pub agrees : AgreesWith c s.io k
    pub received : s.revents ≡ r₀

  abbrev After : {A : Type 0} → A × StEventSchedule × K → Type 0
  After r = Kept r.1 r.2

  After-if :
      {A : Type 0} (b : Bool) (x y : A × StEventSchedule × K)
      → After x
      → After y
      → After (if b then x else y)
  After-if true x y p q = p
  After-if false x y p q = q

  add_fd-Kept :
      (s : StEventSchedule) (fd : ℕ) (m : Events) (k : K) → Kept s k → After (add_fd e s fd m k)
  unfolding add_fd
  add_fd-Kept s fd m k h =
      After-if _ _ _
        (record { agrees = (add_event-Masks c s.io fd m k h.agrees).agrees; received = h.received })
        h

  pub delete_fd-Kept :
      (s : StEventSchedule) (fd : ℕ) (m : Events) (k : K) → Kept s k → After (delete_fd e s fd m k)
  unfolding delete_fd
  delete_fd-Kept s fd m k h =
      After-if _ _ _
        (record { agrees = (del_event-Masks c s.io fd m k h.agrees).agrees; received = h.received })
        h

  set_event-Kept :
      (s : StEventSchedule) (fd item : ℕ) (k : K) → Kept s k → Kept (set_event s fd item) k
  unfolding set_event
  set_event-Kept s fd item k h = record { agrees = h.agrees; received = h.received }

  Kept-if :
      (b : Bool) (x y : StEventSchedule × K)
      → Kept x.0 x.1
      → Kept y.0 y.1
      → let r = if b then x else y in Kept r.0 r.1
  Kept-if true x y p q = p
  Kept-if false x y p q = q

  put_item-Kept :
      (fd item : ℕ) (r : Bool × StEventSchedule × K) → After r → After (put_item e fd item r)
  put_item-Kept fd item (true, s, k) h = set_event-Kept s fd item k h
  put_item-Kept fd item (false, s, k) h = h

  detach_old-Kept :
      (s : StEventSchedule) (fd item : ℕ) (k : K)
      → Kept s k
      → let r = detach_old e s fd item k in Kept r.0 r.1
  unfolding detach_old
  detach_old-Kept s fd item k h =
      let r = delete_fd e s fd (s.events (s.event fd)) k in
      Kept-if (not (s.event fd == 0) && not (s.event fd == item)) (set_event r.1 fd 0, r.2) (s, k)
        (set_event-Kept r.1 fd 0 r.2 (delete_fd-Kept s fd (s.events (s.event fd)) k h)) h

  register-Kept :
      (s : StEventSchedule) (fd item : ℕ) (k : K) → Kept s k → After (register e s fd item k)
  unfolding register
  register-Kept s fd item k h =
      let d = detach_old e s fd item k in
      put_item-Kept fd item (add_fd e d.0 fd (s.events item) d.1)
        (add_fd-Kept d.0 fd (s.events item) d.1 (detach_old-Kept s fd item k h))

  unregister-Kept :
      (s : StEventSchedule) (fd item : ℕ) (k : K) → Kept s k → After (unregister e s fd item k)
  unfolding unregister
  unregister-Kept s fd item k h =
      let r = delete_fd e s fd (s.events item) k in
      let d = delete_fd-Kept s fd (s.events item) k h in
      After-if (s.event fd == 0) (true, r.1, r.2) (if s.event fd == item then r else (false, s, k))
        d (After-if (s.event fd == item) r (false, s, k) d h)

  pub add_item-Kept :
      (s : StEventSchedule) (item : ℕ) (k : K) → Kept s k → After (add_item e s item k)
  unfolding add_item
  add_item-Kept s item k h = elim (Bool-cases (item == 0)) [
    | inl y ↦ rw y h
    | inr y ↦ elim (Option-cases (s.osfd item)) [
      | inl z ↦ rw (y, z) h
      | inr (fd, z) ↦ elim (Bool-cases (is_valid_fd s fd)) [
        | inl x ↦ rw (y, z, x) (register-Kept s fd item k h)
        | inr x ↦ rw (y, z, x) h
      ]
    ]
  ]

  pub delete_item-Kept :
      (s : StEventSchedule) (item : ℕ) (k : K) → Kept s k → After (delete_item e s item k)
  unfolding delete_item
  delete_item-Kept s item k h = elim (Bool-cases (item == 0)) [
    | inl y ↦ rw y h
    | inr y ↦ elim (Option-cases (s.osfd item)) [
      | inl z ↦ rw (y, z) h
      | inr (fd, z) ↦ elim (Bool-cases (is_valid_fd s fd)) [
        | inl x ↦ rw (y, z, x) (unregister-Kept s fd item k h)
        | inr x ↦ rw (y, z, x) h
      ]
    ]
  ]

  pub clear_item-Kept :
      (s : StEventSchedule) (item : ℕ) (k : K)
      → Kept s k
      → let r = clear_item e s item k in Kept r.0 r.1
  unfolding clear_item
  clear_item-Kept s item k h =
      let d = delete_item-Kept s item k h in
      let r = delete_item e s item k in
      elim (Option-cases (r.1.osfd item)) [
        | inl z ↦ rw (z, clear_item) d
        | inr (fd, z) ↦
            rw (z, clear_item)
              (Kept-if (is_valid_fd r.1 fd) (set_event r.1 fd 0, r.2) (r.1, r.2)
                (set_event-Kept r.1 fd 0 r.2 d) d)
      ]

  module _ (op back : StEventSchedule → ℕ → K → Bool × StEventSchedule × K)
      (p : (s : StEventSchedule) (item : ℕ) (k : K) → Kept s k → After (op s item k))
      (q : (s : StEventSchedule) (item : ℕ) (k : K) → Kept s k → After (back s item k)) where
    each_item-Kept :
        (xs : List ℕ) (s : StEventSchedule) (k : K) → Kept s k → After (each_item e op xs s k)
    unfolding each_item
    each_item-Kept [] s k h = h
    each_item-Kept (x ∷ xs) s k h = After-if _ _ _ (each_item-Kept xs _ _ (p s x k h)) (p s x k h)

    undo_until-Kept :
        (bad : ℕ) (xs : List ℕ) (s : StEventSchedule) (k : K)
        → Kept s k
        → let r = undo_until e back bad xs s k in Kept r.0 r.1
    unfolding undo_until
    undo_until-Kept bad [] s k h = h
    undo_until-Kept bad (x ∷ xs) s k h = Kept-if _ _ _ h (undo_until-Kept bad xs _ _ (q s x k h))

    roll_back-Kept :
        (xs : List ℕ) (r : Option ℕ × StEventSchedule × K) → After r → After (roll_back e back xs r)
    roll_back-Kept xs (none, s, k) h = h
    roll_back-Kept xs (some bad, s, k) h = undo_until-Kept bad xs s k h

  -- For every queue of items: if the masks of the poller are those of the kernel before, they are so
  -- after Add and after Delete of the queue, also when the kernel refuses an item and the items before
  -- it are taken back. The received events of the items are as before.
  pub queue-Kept :
      (xs : List ℕ) (s : StEventSchedule) (k : K)
      → Kept s k
      → After (add_queue e xs s k) × After (delete_queue e xs s k)
  unfolding add_queue delete_queue
  queue-Kept xs s k h = (
    roll_back-Kept (add_item e) (delete_item e) add_item-Kept delete_item-Kept xs _
        (each_item-Kept (add_item e) (delete_item e) add_item-Kept delete_item-Kept xs s k h),
    roll_back-Kept (delete_item e) (add_item e) delete_item-Kept add_item-Kept xs _
        (each_item-Kept (delete_item e) (add_item e) delete_item-Kept add_item-Kept xs s k h),
  )
