-- ===== src/Poll/Agrees.antt =====
-- stlib/st_epoll.h: the masks that StIOState keeps are those that the kernel has.
use mathlib.Core.Path.{subst}
use sthread.Prelude.{
  nle→leb, ◌<◌, ℕ, ◌≡◌, ◌≢◌, refl, sym, ap, ◌∙◌, ◌⊎◌, inl, inr, Bool, true, false, not, ◌&&◌,
  Option, none, some, if◌then◌else◌, ◌==◌, Bool-cases, arith, ==→eq,
}
use sthread.Sys.{Events}
use sthread.Poll.{
  CtlOp, ctl_add, ctl_mod, ctl_del, CtlResult, ctl_ok, ctl_enoent, ctl_fails, Epoll, StIoState,
  st_none, same_bit, same_mask, without, set_mask, store_mask, drop_mask, del_event, add_event,
  clear_fd,
}

-- epoll_ctl(2): the interest list of the instance, `none` for a descriptor that is not on it
pub record Contract {K : Type 0} (e : Epoll K) : Type 0 where
  pub interest : K → ℕ → Option Events
  pub sets :
      (op : CtlOp) (fd : ℕ) (m : Events) (k : K)
      → (e.ctl op fd m k).0 ≡ ctl_ok
      → op ≢ ctl_del
      → (j : ℕ) → interest (e.ctl op fd m k).1 j ≡ (if fd == j then some m else interest k j)
  pub drops :
      (fd : ℕ) (m : Events) (k : K)
      → (e.ctl ctl_del fd m k).0 ≡ ctl_ok
      → (j : ℕ) → interest (e.ctl ctl_del fd m k).1 j ≡ (if fd == j then none else interest k j)
  pub absent :
      (op : CtlOp) (fd : ℕ) (m : Events) (k : K)
      → (e.ctl op fd m k).0 ≡ ctl_enoent
      → interest k fd ≡ none
  pub keeps :
      (op : CtlOp) (fd : ℕ) (m : Events) (k : K)
      → (e.ctl op fd m k).0 ≢ ctl_ok
      → (j : ℕ) → interest (e.ctl op fd m k).1 j ≡ interest k j

-- the registration that a mask stands for
abbrev pub registered : Events → Option Events
registered m = if same_mask m st_none then none else some m

abbrev pub AgreesWith : {K : Type 0} {e : Epoll K} → Contract e → StIoState → K → Type 0
AgreesWith c s k = (j : ℕ) → c.interest k j ≡ registered (s.mask j)

Ctl-cases : (r : CtlResult) → (r ≡ ctl_ok) ⊎ (r ≡ ctl_enoent) ⊎ (r ≡ ctl_fails)
Ctl-cases ctl_ok = inl refl
Ctl-cases ctl_enoent = inr (inl refl)
Ctl-cases ctl_fails = inr (inr refl)

same_bit-eq : (a b : Bool) → same_bit a b ≡ true → a ≡ b
same_bit-eq true true h = refl
same_bit-eq true false h = sym h
same_bit-eq false true h = h
same_bit-eq false false h = refl

pub and-left : (a b : Bool) → (a && b) ≡ true → a ≡ true
and-left true b h = refl
and-left false b h = h

pub and-right : (a b : Bool) → (a && b) ≡ true → b ≡ true
and-right true b h = h
and-right false b h = absurd (ground (arith, h))

pub same_mask-eq : (a b : Events) → same_mask a b ≡ true → a ≡ b
same_mask-eq a b h =
    let p = same_bit-eq a.readable b.readable (and-left _ _ h) in
    let q = same_bit-eq a.writeable b.writeable (and-right (same_bit a.readable b.readable) _ h) in
    λ i. record { readable = p i; writeable = q i }

module _ {K : Type 0} {e : Epoll K} (c : Contract e) where
  -- a call that changed the list at `fd`, and the mask that was stored
  stored-AgreesWith :
      (s : StIoState) (fd : ℕ) (m : Events) (k k' : K)
      → AgreesWith c s k
      → ((j : ℕ) → c.interest k' j ≡ (if fd == j then registered m else c.interest k j))
      → AgreesWith c (set_mask s fd m) k'
  unfolding set_mask
  stored-AgreesWith s fd m k k' a h j = elim (Bool-cases (fd == j)) [
    | inl y ↦ h j ∙ rw y
    | inr y ↦ h j ∙ rw y (a j)
  ]

  store_mask-AgreesWith :
      (op : CtlOp) (s : StIoState) (fd : ℕ) (m : Events) (k : K)
      → op ≢ ctl_del
      → same_mask m st_none ≡ false
      → AgreesWith c s k
      → let r = store_mask e s fd m (e.ctl op fd m k) in AgreesWith c r.1 r.2
  unfolding store_mask
  store_mask-AgreesWith op s fd m k d z a = elim (Ctl-cases (e.ctl op fd m k).0) [
    | inl y ↦ rw y (stored-AgreesWith s fd m k _ a λ j. c.sets op fd m k y d j ∙ rw z)
    | inr (inl y) ↦ rw y λ j. c.keeps op fd m k (rw y λ q. ground arith) j ∙ a j
    | inr (inr y) ↦ rw y λ j. c.keeps op fd m k (rw y λ q. ground arith) j ∙ a j
  ]

  gone :
      (fd : ℕ) (m : Events) (k : K)
      → (e.ctl ctl_del fd m k).0 ≡ ctl_enoent
      → (j : ℕ) → c.interest k j ≡ (if fd == j then none else c.interest k j)
  gone fd m k h j = elim (Bool-cases (fd == j)) [
    | inl y ↦ rw y (ap (c.interest k) (sym (==→eq fd j y)) ∙ c.absent ctl_del fd m k h)
    | inr y ↦ rw y
  ]

  drop_mask-AgreesWith :
      (s : StIoState) (fd : ℕ) (m : Events) (k : K)
      → AgreesWith c s k
      → let r = drop_mask e s fd (e.ctl ctl_del fd m k) in AgreesWith c r.1 r.2
  unfolding drop_mask
  drop_mask-AgreesWith s fd m k a = elim (Ctl-cases (e.ctl ctl_del fd m k).0) [
    | inl y ↦ rw y (stored-AgreesWith s fd st_none k _ a (c.drops fd m k y))
    | inr (inl y) ↦ rw y (
        stored-AgreesWith s fd st_none k _ a
          λ j. c.keeps ctl_del fd m k (rw y λ q. ground arith) j ∙ gone fd m k y j)
    | inr (inr y) ↦ rw y λ j. c.keeps ctl_del fd m k (rw y λ q. ground arith) j ∙ a j
  ]

  -- what del_event and add_event leave in the mask of `fd` and in the others
  pub record Masks (s : StIoState) (fd : ℕ) (m : Events) (r : Bool × StIoState × K) : Type 0 where
    pub agrees : AgreesWith c r.1 r.2
    pub at_fd : r.0 ≡ true → r.1.mask fd ≡ m
    pub failed : r.0 ≡ false → r.1 ≡ s
    pub others : (j : ℕ) → fd ≢ j → r.1.mask j ≡ s.mask j

  -- the mask was the one asked for
  same-Masks :
      (s : StIoState) (fd : ℕ) (m : Events) (k : K)
      → AgreesWith c s k
      → s.mask fd ≡ m
      → Masks s fd m (true, s, k)
  same-Masks s fd m k a h = record {
    agrees = a;
    at_fd = λ _. h;
    failed = λ q. ground arith;
    others = λ j _. refl;
  }

  write-at : (s : StIoState) (fd : ℕ) (m : Events) → (set_mask s fd m).mask fd ≡ m
  unfolding set_mask
  write-at s fd m = ground arith

  write-other :
      (s : StIoState) (fd : ℕ) (m : Events) (j : ℕ) → fd ≢ j → (set_mask s fd m).mask j ≡ s.mask j
  unfolding set_mask
  write-other s fd m j h = ground arith

  store_mask-Masks :
      (op : CtlOp) (s : StIoState) (fd : ℕ) (m : Events) (k : K)
      → op ≢ ctl_del
      → same_mask m st_none ≡ false
      → AgreesWith c s k
      → Masks s fd m (store_mask e s fd m (e.ctl op fd m k))
  unfolding store_mask
  store_mask-Masks op s fd m k d z a =
      let g = store_mask-AgreesWith op s fd m k d z a in
      elim (Ctl-cases (e.ctl op fd m k).0) [
        | inl y ↦ record {
          agrees = g;
          at_fd = λ _. rw y (write-at s fd m);
          failed = rw y λ q. ground arith;
          others = rw y (write-other s fd m);
        }
        | inr (inl y) ↦ record {
          agrees = g;
          at_fd = rw y λ q. ground arith;
          failed = λ _. rw y;
          others = rw y λ j _. refl;
        }
        | inr (inr y) ↦ record {
          agrees = g;
          at_fd = rw y λ q. ground arith;
          failed = λ _. rw y;
          others = rw y λ j _. refl;
        }
      ]

  drop_mask-Masks :
      (s : StIoState) (fd : ℕ) (m : Events) (k : K)
      → AgreesWith c s k
      → Masks s fd st_none (drop_mask e s fd (e.ctl ctl_del fd m k))
  unfolding drop_mask
  drop_mask-Masks s fd m k a =
      let g = drop_mask-AgreesWith s fd m k a in
      elim (Ctl-cases (e.ctl ctl_del fd m k).0) [
        | inl y ↦ record {
          agrees = g;
          at_fd = λ _. rw y (write-at s fd st_none);
          failed = rw y λ q. ground arith;
          others = rw y (write-other s fd st_none);
        }
        | inr (inl y) ↦ record {
          agrees = g;
          at_fd = λ _. rw y (write-at s fd st_none);
          failed = rw y λ q. ground arith;
          others = rw y (write-other s fd st_none);
        }
        | inr (inr y) ↦ record {
          agrees = g;
          at_fd = rw y λ q. ground arith;
          failed = λ _. rw y;
          others = rw y λ j _. refl;
        }
      ]

  Masks-if :
      (s : StIoState) (fd : ℕ) (m : Events) (b : Bool) (x y : Bool × StIoState × K)
      → (b ≡ true → Masks s fd m x)
      → (b ≡ false → Masks s fd m y)
      → Masks s fd m (if b then x else y)
  Masks-if s fd m true x y p q = p refl
  Masks-if s fd m false x y p q = q refl

  without_none : (a b : Events) → same_mask a st_none ≡ true → a ≡ without a b
  without_none a b h = let z = same_mask-eq a st_none h in z ∙ ap (λ v. without v b) (sym z)

  op_kind : (b : Bool) → (if b then ctl_add else ctl_mod) ≢ ctl_del
  op_kind true q = ground arith
  op_kind false q = ground arith

  no_bit : (b : Bool) → (b && not b) ≡ false
  no_bit true = refl
  no_bit false = refl

  pub without_self : (a : Events) → without a a ≡ st_none
  without_self a =
      let p = no_bit a.readable in
      let q = no_bit a.writeable in λ i. record { readable = p i; writeable = q i }

  pub del_event-Masks :
      (s : StIoState) (fd : ℕ) (d : Events) (k : K)
      → AgreesWith c s k
      → Masks s fd (without (s.mask fd) d) (del_event e s fd d k)
  unfolding del_event
  del_event-Masks s fd d k a =
      let m = without (s.mask fd) d in
      Masks-if s fd m _ _ _ (λ h. same-Masks s fd m k a (without_none _ d h))
        λ h.
          Masks-if s fd m _ _ _ (λ h. same-Masks s fd m k a (sym (same_mask-eq _ _ h)))
            λ h.
              Masks-if s fd m _ _ _
                (λ h.
                  subst (λ v. Masks s fd v (drop_mask e s fd (e.ctl ctl_del fd m k)))
                    (sym (same_mask-eq m st_none h)) (drop_mask-Masks s fd m k a))
                λ h. store_mask-Masks ctl_mod s fd m k (λ q. ground arith) h a

  pub add_event-Masks :
      (s : StIoState) (fd : ℕ) (m : Events) (k : K)
      → AgreesWith c s k
      → Masks s fd m (add_event e s fd m k)
  unfolding add_event
  add_event-Masks s fd m k a =
      Masks-if s fd m _ _ _ (λ h. same-Masks s fd m k a (same_mask-eq _ _ h))
        λ h.
          Masks-if s fd m _ _ _
            (λ h.
              subst (λ v. Masks s fd v (del_event e s fd (s.mask fd) k))
                (without_self (s.mask fd) ∙ sym (same_mask-eq m st_none h))
                (del_event-Masks s fd (s.mask fd) k a))
            λ h. store_mask-Masks _ s fd m k (op_kind (same_mask (s.mask fd) st_none)) h a

  -- If the masks are those of the kernel, they are so after AddEvent and after DelEvent, whatever
  -- epoll_ctl answers. On success the mask of the descriptor is the given one and keeps no old bit, or
  -- it has lost exactly the given bits; on failure the state is as before; and no other descriptor's
  -- mask changes.
  pub change-Masks :
      (s : StIoState) (fd : ℕ) (m : Events) (k : K)
      → AgreesWith c s k
      → Masks s fd m (add_event e s fd m k)
        × Masks s fd (without (s.mask fd) m) (del_event e s fd m k)
  change-Masks s fd m k a = (add_event-Masks s fd m k a, del_event-Masks s fd m k a)

  -- If the masks are those of the kernel and the kernel then forgets a descriptor within the table, as
  -- close does, the masks are those of the kernel again after ClearFd.
  pub clear_fd-AgreesWith :
      (s : StIoState) (fd : ℕ) (k k' : K)
      → AgreesWith c s k
      → fd < s.size
      → ((j : ℕ) → c.interest k' j ≡ (if fd == j then none else c.interest k j))
      → AgreesWith c (clear_fd s fd) k'
  unfolding clear_fd
  clear_fd-AgreesWith s fd k k' a h forgets =
      rw (nle→leb s.size fd (λ q. omega arith)) (stored-AgreesWith s fd st_none k k' a forgets)
