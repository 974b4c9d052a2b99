-- ===== src/Event/Items.antt =====
-- src/st_thread.cc: what Add and Delete of an item leave at its descriptor.
use sthread.Prelude.{
  ℕ, ◌≡◌, ◌≢◌, refl, ap, sym, ◌∙◌, inl, inr, Bool, true, false, not, ◌&&◌, Option, some, leb, ◌==◌,
  Bool-cases, Option-cases, eq→==, ne→==, ==→ne, arith,
}
use sthread.Sys.{Events}
use sthread.Poll.{
  CtlResult, ctl_ok, ctl_enoent, ctl_fails, ctl_del, Epoll, st_none, same_mask, without, del_event,
  drop_mask,
}
use sthread.Poll.Agrees.{Contract, AgreesWith, add_event-Masks, del_event-Masks, without_self}
use sthread.Event.{
  StEventSchedule, is_valid_fd, set_event, add_fd, delete_fd, detach_old, put_item, register,
  add_item, unregister, delete_item,
}

module _ {K : Type 0} {e : Epoll K} (c : Contract e) (osfd : ℕ → Option ℕ) (events : ℕ → Events)
    (maxfd : ℕ) where
  -- the members that neither Add nor Delete changes, and the masks of the kernel
  pub record Fits (s : StEventSchedule) (k : K) : Type 0 where
    pub agrees : AgreesWith c s.io k
    pub osfd_eq : s.osfd ≡ osfd
    pub events_eq : s.events ≡ events
    pub maxfd_eq : s.maxfd ≡ maxfd

  -- only descriptors that are not clear have another item or another mask
  pub record Moved (clear : ℕ → Type 0) (s s' : StEventSchedule) (k' : K) : Type 0 where
    pub fits : Fits s' k'
    pub others : (j : ℕ) → clear j → (s'.event j ≡ s.event j) × (s'.io.mask j ≡ s.io.mask j)

  -- the item is registered: it is in the table, and the mask at its descriptor is its own
  abbrev pub Registered : StEventSchedule → ℕ → Type 0
  Registered s x =
      (fd : ℕ) × (osfd x ≡ some fd)
      × (x ≢ 0)
      × (leb maxfd fd ≡ false)
      × (s.event fd ≡ x)
      × (s.io.mask fd ≡ events x)

  -- the poller has no event for the item
  abbrev pub TakenBack : StEventSchedule → ℕ → Type 0
  TakenBack s x = (fd : ℕ) × (osfd x ≡ some fd) × (s.io.mask fd ≡ st_none)

  pub Moved-none : (clear : ℕ → Type 0) (s : StEventSchedule) (k : K) → Fits s k → Moved clear s s k
  Moved-none clear s k h = record { fits = h; others = λ j a. (refl, refl) }

  pub Moved-then :
      {p q r : ℕ → Type 0} (s s₁ s₂ : StEventSchedule) (k₁ k₂ : K)
      → ((j : ℕ) → r j → p j × q j)
      → Moved p s s₁ k₁
      → Moved q s₁ s₂ k₂
      → Moved r s s₂ k₂
  Moved-then s s₁ s₂ k₁ k₂ f a b = record {
    fits = b.fits;
    others = λ j z.
        let (x, y) = f j z in
        ((b.others j y).0 ∙ (a.others j x).0, (b.others j y).1 ∙ (a.others j x).1);
  }

  set_event-Moved :
      (s : StEventSchedule) (fd item : ℕ) (k : K)
      → Fits s k
      → Moved (λ j. fd ≢ j) s (set_event s fd item) k
  unfolding set_event
  set_event-Moved s fd item k h = record {
    fits = record {
      agrees = h.agrees;
      osfd_eq = h.osfd_eq;
      events_eq = h.events_eq;
      maxfd_eq = h.maxfd_eq;
    };
    others = λ j a. (rw (ne→== fd j a), refl);
  }

  delete_fd-Moved :
      (s : StEventSchedule) (fd : ℕ) (m : Events) (k : K)
      → Fits s k
      → let r = delete_fd e s fd m k in Moved (λ j. fd ≢ j) s r.1 r.2
  unfolding delete_fd
  delete_fd-Moved s fd m k h =
      let d = del_event-Masks c s.io fd m k h.agrees in
      elim (Bool-cases (is_valid_fd s fd)) [
        | inl y ↦ rw y (record {
          fits = record {
            agrees = d.agrees;
            osfd_eq = h.osfd_eq;
            events_eq = h.events_eq;
            maxfd_eq = h.maxfd_eq;
          };
          others = λ j a. (refl, d.others j a);
        })
        | inr y ↦ rw y (Moved-none _ s k h)
      ]

  detach_old-Moved :
      (s : StEventSchedule) (fd item : ℕ) (k : K)
      → Fits s k
      → let r = detach_old e s fd item k in Moved (λ j. fd ≢ j) s r.0 r.1
  unfolding detach_old
  detach_old-Moved s fd item k h =
      let r = delete_fd e s fd (s.events (s.event fd)) k in
      let d = delete_fd-Moved s fd (s.events (s.event fd)) k h in
      elim (Bool-cases (not (s.event fd == 0) && not (s.event fd == item))) [
        | inl y ↦
            rw y
              (Moved-then s r.1 _ r.2 r.2 (λ j a. (a, a)) d (set_event-Moved r.1 fd 0 r.2 d.fits))
        | inr y ↦ rw y (Moved-none _ s k h)
      ]

  apart : (fd item : ℕ) → osfd item ≡ some fd → (j : ℕ) → osfd item ≢ some j → fd ≢ j
  apart fd item o j a q = a (o ∙ ap some q)

  add_fd-Moved :
      (s : StEventSchedule) (fd : ℕ) (m : Events) (k : K)
      → Fits s k
      → let r = add_fd e s fd m k in
        Moved (λ j. fd ≢ j) s r.1 r.2 × (r.0 ≡ true → r.1.io.mask fd ≡ m)
  unfolding add_fd
  add_fd-Moved s fd m k h =
      let d = add_event-Masks c s.io fd m k h.agrees in
      elim (Bool-cases (is_valid_fd s fd)) [
        | inl y ↦ rw y (
          record {
            fits = record {
              agrees = d.agrees;
              osfd_eq = h.osfd_eq;
              events_eq = h.events_eq;
              maxfd_eq = h.maxfd_eq;
            };
            others = λ j a. (refl, d.others j a);
          },
          d.at_fd,
        )
        | inr y ↦ rw y (Moved-none _ s k h, λ q. absurd (ground (arith, q)))
      ]

  -- what adding an item leaves
  abbrev pub Placed : StEventSchedule → ℕ → Bool × StEventSchedule × K → Type 0
  Placed s x r = Moved (λ j. osfd x ≢ some j) s r.1 r.2 × (r.0 ≡ true → Registered r.1 x)

  Placed-none : (s : StEventSchedule) (x : ℕ) (k : K) → Fits s k → Placed s x (false, s, k)
  Placed-none s x k h = (Moved-none _ s k h, λ q. absurd (ground (arith, q)))

  put_item-Placed :
      (s : StEventSchedule) (fd item : ℕ) (r : Bool × StEventSchedule × K)
      → osfd item ≡ some fd
      → item ≢ 0
      → leb maxfd fd ≡ false
      → Moved (λ j. fd ≢ j) s r.1 r.2
      → (r.0 ≡ true → r.1.io.mask fd ≡ events item)
      → Placed s item (put_item e fd item r)
  unfolding set_event
  put_item-Placed s fd item (true, s', k') o z b m q = (
    Moved-then s s' _ k' k' (λ j a. let d = apart fd item o j a in (d, d)) m
        (set_event-Moved s' fd item k' m.fits),
    λ _. (fd, o, z, b, rw (eq→== fd fd refl), q refl),
  )
  put_item-Placed s fd item (false, s', k') o z b m q = (
    Moved-then s s' s' k' k' (λ j a. (apart fd item o j a, a)) m (Moved-none _ s' k' m.fits),
    λ y. absurd (ground (arith, y)),
  )

  register-Placed :
      (s : StEventSchedule) (fd item : ℕ) (k : K)
      → Fits s k
      → osfd item ≡ some fd
      → item ≢ 0
      → leb maxfd fd ≡ false
      → Placed s item (register e s fd item k)
  unfolding register
  register-Placed s fd item k h o z b =
      let d = detach_old e s fd item k in
      let old = detach_old-Moved s fd item k h in
      let r = add_fd e d.0 fd (s.events item) d.1 in
      let (new, at_fd) = add_fd-Moved d.0 fd (s.events item) d.1 old.fits in
      put_item-Placed s fd item r o z b (Moved-then s d.0 r.1 d.1 r.2 (λ j a. (a, a)) old new)
        λ q. at_fd q ∙ ap (λ (f : ℕ → Events). f item) h.events_eq

  pub add_item-Placed :
      (s : StEventSchedule) (item : ℕ) (k : K) → Fits s k → Placed s item (add_item e s item k)
  unfolding add_item
  add_item-Placed s item k h = elim (Bool-cases (item == 0)) [
    | inl y ↦ rw y (Placed-none s item k h)
    | inr y ↦
        let same = ap (λ (f : ℕ → Option ℕ). f item) h.osfd_eq in
        elim (Option-cases (osfd item)) [
          | inl o ↦ rw (y, same ∙ o) (Placed-none s item k h)
          | inr (fd, o) ↦
              let within = ap (λ m. leb m fd) h.maxfd_eq in
              elim (Bool-cases (leb maxfd fd)) [
                | inl b ↦ rw (y, same ∙ o, within ∙ b) (Placed-none s item k h)
                | inr b ↦
                    rw (y, same ∙ o, within ∙ b)
                      (register-Placed s fd item k h o (==→ne item 0 y) b)
              ]
        ]
  ]

  drop_mask-true :
      (s : StEventSchedule) (fd : ℕ) (r : CtlResult × K)
      → r.0 ≢ ctl_fails
      → (drop_mask e s.io fd r).0 ≡ true
  unfolding drop_mask
  drop_mask-true s fd (ctl_ok, k) h = refl
  drop_mask-true s fd (ctl_enoent, k) h = refl
  drop_mask-true s fd (ctl_fails, k) h = absurd (h refl)

  del_event_all :
      (s : StEventSchedule) (fd : ℕ) (k : K)
      → ((m : Events) (k : K) → (e.ctl ctl_del fd m k).0 ≢ ctl_fails)
      → AgreesWith c s.io k
      → let r = del_event e s.io fd (s.io.mask fd) k in (r.0 ≡ true) × (r.1.mask fd ≡ st_none)
  unfolding del_event drop_mask
  del_event_all s fd k never a =
      let m = s.io.mask fd in
      let all : same_mask (without m m) st_none ≡ true =
        ap (λ v. same_mask v st_none) (without_self c m) in
      let done : (del_event e s.io fd m k).0 ≡ true = elim (Bool-cases (same_mask m st_none)) [
        | inl y ↦ rw y
        | inr y ↦ elim (Bool-cases (same_mask (without m m) m)) [
          | inl z ↦ rw (y, z)
          | inr z ↦ rw (y, z, all) (drop_mask-true s fd _ (never (without m m) k))
        ]
      ] in
      (done, (del_event-Masks c s.io fd m k a).at_fd done ∙ without_self c m)

  -- the kernel takes a registration off, or has none
  abbrev pub Removes : Type 0
  Removes = (fd : ℕ) (m : Events) (k : K) → (e.ctl ctl_del fd m k).0 ≢ ctl_fails

  pub delete_item-TakenBack :
      (s : StEventSchedule) (item : ℕ) (k : K)
      → Removes
      → Fits s k
      → Registered s item
      → let r = delete_item e s item k in
        Moved (λ j. osfd item ≢ some j) s r.1 r.2 × TakenBack r.1 item
  unfolding delete_item unregister delete_fd
  delete_item-TakenBack s item k never h (fd, o, z, b, at, m) =
      let has = ap (λ (f : ℕ → Option ℕ). f item) h.osfd_eq ∙ o in
      let within = ap (λ m. leb m fd) h.maxfd_eq ∙ b in
      let wants = ap (λ (f : ℕ → Events). f item) h.events_eq ∙ sym m in
      let d = del_event-Masks c s.io fd (s.io.mask fd) k h.agrees in
      let gone = (del_event_all s fd k (never fd) h.agrees).1 in
      rw (has, within, at, ne→== item 0 z, eq→== item item refl, wants)
        (
          record {
            fits = record {
              agrees = d.agrees;
              osfd_eq = h.osfd_eq;
              events_eq = h.events_eq;
              maxfd_eq = h.maxfd_eq;
            };
            others = λ j a. (refl, d.others j (apart fd item o j a));
          },
          (fd, o, gone),
        )
