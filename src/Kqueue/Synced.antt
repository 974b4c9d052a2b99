-- ===== src/Kqueue/Synced.antt =====
-- stlib/st_kqueue.h: the filters in the kernel are the bits of the masks.
use sthread.Prelude.{
  ℕ, ◌≡◌, ◌≢◌, refl, sym, ap, ◌∙◌, inl, inr, Bool, true, false, ◌&&◌, if◌then◌else◌, ◌==◌,
  Bool-cases, arith, ==→eq, eq→==, ne→==,
}
use sthread.Sys.{Events}
use sthread.Poll.{StIoState, same_mask, without, set_mask}
use sthread.Poll.Agrees.{same_mask-eq, and-left, and-right}
use sthread.Kqueue.{
  Filter, evfilt_read, evfilt_write, evfilt_other, Kernel, sync_filter, add_event, del_event,
}

abbrev pub same_filter : Filter → Filter → Bool
same_filter evfilt_read evfilt_read = true
same_filter evfilt_write evfilt_write = true
same_filter evfilt_other evfilt_other = true
same_filter _ _ = false

same_filter-eq : (f g : Filter) → same_filter f g ≡ true → f ≡ g
same_filter-eq evfilt_read evfilt_read h = refl
same_filter-eq evfilt_write evfilt_write h = refl
same_filter-eq evfilt_other evfilt_other h = refl
same_filter-eq evfilt_read evfilt_write h = absurd (ground (arith, h))
same_filter-eq evfilt_read evfilt_other h = absurd (ground (arith, h))
same_filter-eq evfilt_write evfilt_read h = absurd (ground (arith, h))
same_filter-eq evfilt_write evfilt_other h = absurd (ground (arith, h))
same_filter-eq evfilt_other evfilt_read h = absurd (ground (arith, h))
same_filter-eq evfilt_other evfilt_write h = absurd (ground (arith, h))

-- kevent(2): a change that succeeds registers or removes the one filter; one that fails changes
-- nothing, and a filter that cannot be removed is not there
pub record Contract {K : Type 0} (e : Kernel K) : Type 0 where
  pub has : K → Filter → ℕ → Bool
  pub changes :
      (f : Filter) (add : Bool) (fd : ℕ) (k : K)
      → (e.change f add fd k).0 ≡ true
      → (g : Filter) (j : ℕ)
      → has (e.change f add fd k).1 g j ≡ (if same_filter f g && (fd == j) then add else has k g j)
  pub keeps :
      (f : Filter) (add : Bool) (fd : ℕ) (k : K)
      → (e.change f add fd k).0 ≡ false
      → (g : Filter) (j : ℕ) → has (e.change f add fd k).1 g j ≡ has k g j
  pub absent :
      (f : Filter) (fd : ℕ) (k : K) → (e.change f false fd k).0 ≡ false → has k f fd ≡ false

module _ {K : Type 0} {e : Kernel K} (c : Contract e) where
  pub sync_filter-has :
      (f : Filter) (want : Bool) (fd : ℕ) (k : K)
      → (sync_filter e f want fd k).0 ≡ true
      → (g : Filter) (j : ℕ)
      → c.has (sync_filter e f want fd k).1 g j
        ≡ (if same_filter f g && (fd == j) then want else c.has k g j)
  unfolding sync_filter
  sync_filter-has f true fd k h g j = c.changes f true fd k h g j
  sync_filter-has f false fd k h g j = elim (Bool-cases (e.change f false fd k).0) [
    | inl y ↦ c.changes f false fd k y g j
    | inr n ↦ c.keeps f false fd k n g j ∙ (elim (Bool-cases (same_filter f g && (fd == j))) [
      | inr z ↦ rw z refl
      | inl z ↦
          let at_g = same_filter-eq f g (and-left _ _ z) in
          let at_j = ==→eq fd j (and-right (same_filter f g) _ z) in
          rw z (sym (ap (λ x. c.has k x j) at_g) ∙ sym (ap (c.has k f) at_j) ∙ c.absent f fd k n)
    ])
  ]

  pub sync_filter_failed :
      (f : Filter) (want : Bool) (fd : ℕ) (k : K)
      → (sync_filter e f want fd k).0 ≡ false
      → (g : Filter) (j : ℕ) → c.has (sync_filter e f want fd k).1 g j ≡ c.has k g j
  unfolding sync_filter
  sync_filter_failed f true fd k h g j = c.keeps f true fd k h g j
  sync_filter_failed f false fd k h g j = absurd (ground (arith, h))

  -- each registered filter is a bit of the mask, and the other way round
  abbrev pub Synced : StIoState → K → Type 0
  Synced s k =
      (j : ℕ)
      → (c.has k evfilt_read j ≡ (s.mask j).readable)
        × (c.has k evfilt_write j ≡ (s.mask j).writeable)

  -- on success the mask of `fd` is `m` and all is in step; after a failure the masks are the old ones,
  -- and only the read filter of `fd` may have changed, to the bit of `m`
  pub record Left (s : StIoState) (fd : ℕ) (m : Events) (r : Bool × StIoState × K) : Type 0 where
    pub at_fd : r.0 ≡ true → r.1.mask fd ≡ m
    pub masks : (j : ℕ) → fd ≢ j → r.1.mask j ≡ s.mask j
    pub synced : r.0 ≡ true → Synced r.1 r.2
    pub failed : r.0 ≡ false → r.1 ≡ s
    pub writes : r.0 ≡ false → (j : ℕ) → c.has r.2 evfilt_write j ≡ (s.mask j).writeable
    pub others : r.0 ≡ false → (j : ℕ) → fd ≢ j → c.has r.2 evfilt_read j ≡ (s.mask j).readable

  Left-failed :
      (s : StIoState) (fd : ℕ) (m : Events) (k : K)
      → ((j : ℕ) → c.has k evfilt_write j ≡ (s.mask j).writeable)
      → ((j : ℕ) → fd ≢ j → c.has k evfilt_read j ≡ (s.mask j).readable)
      → Left s fd m (false, s, k)
  Left-failed s fd m k w r = record {
    at_fd = λ q. absurd (ground (arith, q));
    masks = λ j d. refl;
    synced = λ q. absurd (ground (arith, q));
    failed = λ _. refl;
    writes = λ _. w;
    others = λ _. r;
  }

  Left-done :
      (s s' : StIoState) (fd : ℕ) (m : Events) (k : K)
      → s'.mask fd ≡ m
      → ((j : ℕ) → fd ≢ j → s'.mask j ≡ s.mask j)
      → Synced s' k
      → Left s fd m (true, s', k)
  Left-done s s' fd m k f o a = record {
    at_fd = λ _. f;
    masks = o;
    synced = λ _. a;
    failed = λ q. absurd (ground (arith, q));
    writes = λ q. absurd (ground (arith, q));
    others = λ q. absurd (ground (arith, q));
  }

  set_mask-Synced :
      (s : StIoState) (fd : ℕ) (m : Events) (k : K)
      → ((j : ℕ) → c.has k evfilt_read j ≡ (if fd == j then m.readable else (s.mask j).readable))
      → ((j : ℕ) → c.has k evfilt_write j ≡ (if fd == j then m.writeable else (s.mask j).writeable))
      → Left s fd m (true, set_mask s fd m, k)
  unfolding set_mask
  set_mask-Synced s fd m k r w =
      Left-done s _ fd m k (rw (eq→== fd fd refl) refl) (λ j d. rw (ne→== fd j d) refl)
        λ j. elim (Bool-cases (fd == j)) [
          | inl y ↦ rw y (r j ∙ rw y refl, w j ∙ rw y refl)
          | inr y ↦ rw y (r j ∙ rw y refl, w j ∙ rw y refl)
        ]

  add_event-Left :
      (s : StIoState) (fd : ℕ) (m : Events) (k : K)
      → Synced s k
      → Left s fd m (add_event e s fd m k)
  unfolding add_event
  add_event-Left s fd m k a =
      let k₁ = (sync_filter e evfilt_read m.readable fd k).1 in
      let k₂ = (sync_filter e evfilt_write m.writeable fd k₁).1 in
      elim (Bool-cases (same_mask (s.mask fd) m)) [
        | inl y ↦ rw y (Left-done s s fd m k (same_mask-eq _ _ y) (λ j d. refl) a)
        | inr n ↦ elim (Bool-cases (sync_filter e evfilt_read m.readable fd k).0) [
          | inr r ↦
              let still = sync_filter_failed evfilt_read m.readable fd k r in
              rw (n, r)
                (Left-failed s fd m k₁ (λ j. still evfilt_write j ∙ (a j).1)
                  λ j d. still evfilt_read j ∙ (a j).0)
          | inl r ↦
              let first = sync_filter-has evfilt_read m.readable fd k r in
              elim (Bool-cases (sync_filter e evfilt_write m.writeable fd k₁).0) [
                | inr w ↦
                    let still = sync_filter_failed evfilt_write m.writeable fd k₁ w in
                    rw (n, r, w)
                      (Left-failed s fd m k₂
                        (λ j. still evfilt_write j ∙ first evfilt_write j ∙ (a j).1)
                        λ j d.
                          still evfilt_read j ∙ first evfilt_read j ∙ rw (ne→== fd j d) ((a j).0))
                | inl w ↦
                    let second = sync_filter-has evfilt_write m.writeable fd k₁ w in
                    rw (n, r, w)
                      (set_mask-Synced s fd m k₂
                        (λ j. second evfilt_read j ∙ first evfilt_read j ∙ rw (sym (a j).0) refl)
                        λ j. second evfilt_write j ∙ rw (first evfilt_write j, sym (a j).1) refl)
              ]
        ]
      ]

  -- If the filters in the kernel are the bits of the masks and kevent behaves as documented, then after
  -- AddEvent and DelEvent, on success, they are so again, with the new mask for the descriptor and the
  -- old ones for all others. On failure no mask has changed, and the filters are those of the masks
  -- except that the read filter of the descriptor may be another.
  pub change-Left :
      (s : StIoState) (fd : ℕ) (m : Events) (k : K)
      → Synced s k
      → Left s fd m (add_event e s fd m k)
        × Left s fd (without (s.mask fd) m) (del_event e s fd m k)
  unfolding del_event
  change-Left s fd m k a =
      (add_event-Left s fd m k a, add_event-Left s fd (without (s.mask fd) m) k a)
