-- ===== src/Event/Queue.antt =====
-- src/st_thread.cc: which items are registered at their descriptors after Add of a queue.
use mathlib.Core.Path.{subst}
use sthread.Prelude.{
  ℕ, ◌≡◌, ◌≢◌, refl, ap, sym, ◌∙◌, ◌⊎◌, inl, inr, List, [], ◌∷◌, Bool, true, false, Option, none,
  some, Bool-cases, eq→==, ne→==, arith,
}
use sthread.Sys.{Events}
use sthread.Poll.{Epoll}
use sthread.Poll.Agrees.{Contract, AgreesWith}
use sthread.Event.{
  StEventSchedule, add_item, delete_item, each_item, undo_until, roll_back, add_queue,
}
use sthread.Event.Items.{
  Fits, Moved, Registered, TakenBack, Moved-none, Moved-then, add_item-Placed,
  delete_item-TakenBack, Removes,
}

abbrev pub All : (ℕ → Type 0) → List ℕ → Type 0
All P [] = Unit
All P (x ∷ xs) = P x × All P xs

-- `bad` is in the list, and `P` holds of the items before it
abbrev pub Until : (ℕ → Type 0) → ℕ → List ℕ → Type 0
Until P bad [] = ⊥
Until P bad (x ∷ xs) = (x ≡ bad) ⊎ ((x ≢ bad) × P x × Until P bad xs)

Until-map :
    {P Q R : ℕ → Type 0} (bad : ℕ) (xs : List ℕ)
    → ((x : ℕ) → P x → Q x → R x)
    → Until P bad xs
    → All Q xs
    → Until R bad xs
Until-map bad [] f u q = u
Until-map bad (x ∷ xs) f (inl e) q = inl e
Until-map bad (x ∷ xs) f (inr (m, p, u)) (q, qs) = inr (m, f x p q, Until-map bad xs f u qs)

Until-at : (P Q : ℕ → Type 0) (bad : ℕ) (xs : List ℕ) → Until P bad xs → All Q xs → Q bad
Until-at P Q bad [] u q = absurd u
Until-at P Q bad (x ∷ xs) (inl e) (q, qs) = subst Q e q
Until-at P Q bad (x ∷ xs) (inr (m, p, u)) (q, qs) = Until-at P Q bad xs u qs

-- the items with a descriptor have different ones
abbrev pub Apart : (ℕ → Option ℕ) → List ℕ → Type 0
Apart osfd [] = Unit
Apart osfd (x ∷ xs) = All (λ y. (j : ℕ) → osfd x ≡ some j → osfd y ≢ some j) xs × Apart osfd xs

module _ {K : Type 0} {e : Epoll K} (c : Contract e) (osfd : ℕ → Option ℕ) (events : ℕ → Events)
    (maxfd : ℕ) where
  -- an item whose descriptor is clear stays as it is
  Registered-Moved :
      {clear : ℕ → Type 0} (s s' : StEventSchedule) (k' : K) (x : ℕ)
      → ((j : ℕ) → osfd x ≡ some j → clear j)
      → Moved c osfd events maxfd clear s s' k'
      → Registered c osfd events maxfd s x
      → Registered c osfd events maxfd s' x
  Registered-Moved s s' k' x f a (fd, o, z, b, at, m) =
      let (p, q) = a.others fd (f fd o) in (fd, o, z, b, p ∙ at, q ∙ m)

  TakenBack-Moved :
      {clear : ℕ → Type 0} (s s' : StEventSchedule) (k' : K) (x : ℕ)
      → ((j : ℕ) → osfd x ≡ some j → clear j)
      → Moved c osfd events maxfd clear s s' k'
      → TakenBack c osfd events maxfd s x
      → TakenBack c osfd events maxfd s' x
  TakenBack-Moved s s' k' x f a (fd, o, m) = (fd, o, (a.others fd (f fd o)).1 ∙ m)

  -- the descriptor of no item of the list
  abbrev pub Clear : List ℕ → ℕ → Type 0
  Clear xs j = All (λ x. osfd x ≢ some j) xs

  -- what is apart from an item is clear at its descriptor
  apart-Clear :
      (x : ℕ) (xs : List ℕ) (j : ℕ)
      → osfd x ≡ some j
      → All (λ y. (i : ℕ) → osfd x ≡ some i → osfd y ≢ some i) xs
      → Clear xs j
  apart-Clear x [] j o a = a
  apart-Clear x (y ∷ ys) j o (a, b) = (a j o, apart-Clear x ys j o b)

  undo_until-TakenBack :
      (bad : ℕ) (xs : List ℕ) (s : StEventSchedule) (k : K)
      → Removes c osfd events maxfd
      → Fits c osfd events maxfd s k
      → Apart osfd xs
      → Until (Registered c osfd events maxfd s) bad xs
      → let r = undo_until e (delete_item e) bad xs s k in
        Moved c osfd events maxfd (Clear xs) s r.0 r.1
        × Until (TakenBack c osfd events maxfd r.0) bad xs
  unfolding undo_until
  undo_until-TakenBack bad [] s k never h a u = absurd u
  undo_until-TakenBack bad (x ∷ xs) s k never h a (inl q) =
      rw (eq→== x bad q) (Moved-none c osfd events maxfd _ s k h, inl q)
  undo_until-TakenBack bad (x ∷ xs) s k never h (a, b) (inr (m, p, u)) =
      let r = delete_item e s x k in
      let (first, gone) = delete_item-TakenBack c osfd events maxfd s x k never h p in
      let still : Until (Registered c osfd events maxfd r.1) bad xs =
        Until-map bad xs (λ y p z. Registered-Moved s r.1 r.2 y (λ j o q. z j q o) first p) u a in
      let (rest, back) = undo_until-TakenBack bad xs r.1 r.2 never first.fits b still in
      let on : undo_until e (delete_item e) bad (x ∷ xs) s k
          ≡ undo_until e (delete_item e) bad xs r.1 r.2 =
        rw (ne→== x bad m) in
      subst
        (λ v.
          Moved c osfd events maxfd (Clear (x ∷ xs)) s v.0 v.1
          × Until (TakenBack c osfd events maxfd v.0) bad (x ∷ xs))
        (sym on)
        (
          Moved-then c osfd events maxfd s r.1 _ r.2 _ (λ j z. z) first rest,
          inr (m, TakenBack-Moved r.1 _ _ x (λ j o. apart-Clear x xs j o a) rest gone, back),
        )

  -- what the loop of Add leaves: every item is registered, or those before the first that failed
  abbrev Tried : List ℕ → StEventSchedule → Option ℕ × StEventSchedule × K → Type 0
  Tried xs s r =
      Moved c osfd events maxfd (Clear xs) s r.1 r.2
      × (((r.0 ≡ none) × All (Registered c osfd events maxfd r.1) xs)
          ⊎ ((bad : ℕ) × (r.0 ≡ some bad) × Until (Registered c osfd events maxfd r.1) bad xs))

  -- an item is not the one that failed, which has no descriptor or another one
  ahead :
      (s : StEventSchedule) (bad x : ℕ) (xs : List ℕ)
      → Registered c osfd events maxfd s x
      → All (λ y. (j : ℕ) → osfd x ≡ some j → osfd y ≢ some j) xs
      → Until (Registered c osfd events maxfd s) bad xs
      → Until (Registered c osfd events maxfd s) bad (x ∷ xs)
  ahead s bad x xs p a u =
      let other =
        Until-at (Registered c osfd events maxfd s)
          (λ y. (j : ℕ) → osfd x ≡ some j → osfd y ≢ some j) bad xs u a in
      inr (λ q. other p.0 p.1 (ap osfd (sym q) ∙ p.1), p, u)

  each_item-Tried :
      (xs : List ℕ) (s : StEventSchedule) (k : K)
      → Fits c osfd events maxfd s k
      → Apart osfd xs
      → Tried xs s (each_item e (add_item e) xs s k)
  unfolding each_item
  each_item-Tried [] s k h a = (Moved-none c osfd events maxfd _ s k h, inl (refl, a))
  each_item-Tried (x ∷ xs) s k h (a, b) =
      let r = add_item e s x k in
      let (first, placed) = add_item-Placed c osfd events maxfd s x k h in
      elim (Bool-cases r.0) [
        | inl y ↦
            let (rest, all) = each_item-Tried xs r.1 r.2 first.fits b in
            let last = each_item e (add_item e) xs r.1 r.2 in
            let here =
              Registered-Moved r.1 last.1 last.2 x (λ j o. apart-Clear x xs j o a) rest
                (placed y) in
            let on : each_item e (add_item e) (x ∷ xs) s k ≡ last = rw y in
            subst (Tried (x ∷ xs) s) (sym on) (
              Moved-then c osfd events maxfd s r.1 _ r.2 _ (λ j z. z) first rest,
              elim all [
                | inl (q, ys) ↦ inl (q, (here, ys))
                | inr (bad, q, u) ↦ inr (bad, q, ahead last.1 bad x xs here a u)
              ],
            )
        | inr y ↦
            let on : each_item e (add_item e) (x ∷ xs) s k ≡ (some x, r.1, r.2) = rw y in
            subst (Tried (x ∷ xs) s) (sym on) (
              Moved-then c osfd events maxfd s r.1 r.1 r.2 r.2 (λ j z. (z.0, z.0)) first
                  (Moved-none c osfd events maxfd _ r.1 r.2 first.fits),
              inr (x, refl, inl refl),
            )
      ]

-- what Add of a queue leaves
pub record Added {K : Type 0} {e : Epoll K} (c : Contract e) (xs : List ℕ) (s : StEventSchedule)
    (k : K) (r : Bool × StEventSchedule × K) : Type 0 where
  pub agrees : AgreesWith c r.1.io r.2
  pub added : r.0 ≡ true → All (Registered c s.osfd s.events s.maxfd r.1) xs
  pub taken_back :
      r.0 ≡ false
      → (bad : ℕ) × ((each_item e (add_item e) xs s k).0 ≡ some bad)
        × Until (TakenBack c s.osfd s.events s.maxfd r.1) bad xs
  pub others :
      (j : ℕ)
      → Clear c s.osfd s.events s.maxfd xs j
      → (r.1.event j ≡ s.event j) × (r.1.io.mask j ≡ s.io.mask j)

-- Add of a queue of items with different descriptors, where the masks of the poller are those of the
-- kernel and the kernel never refuses to remove a registration. On success every item of the queue is
-- in the table at its descriptor, with its own events as the mask. On failure the loop stopped at an item
-- that could not be added, and the poller has no events left for the descriptor of any item before it. In
-- both cases the masks are those of the kernel, and nothing has changed at the descriptor of no item.
pub add_queue-Added :
    {K : Type 0} {e : Epoll K} (c : Contract e) (xs : List ℕ) (s : StEventSchedule) (k : K)
    → AgreesWith c s.io k
    → Apart s.osfd xs
    → Removes c s.osfd s.events s.maxfd
    → Added c xs s k (add_queue e xs s k)
unfolding add_queue
add_queue-Added {e} c xs s k h a never =
    let start : Fits c s.osfd s.events s.maxfd s k = record {
      agrees = h;
      osfd_eq = refl;
      events_eq = refl;
      maxfd_eq = refl;
    } in
    let r = each_item e (add_item e) xs s k in
    let (moved, tried) = each_item-Tried c s.osfd s.events s.maxfd xs s k start a in
    elim tried [
      | inl (q, all) ↦
          let on : roll_back e (delete_item e) xs r ≡ (true, r.1, r.2) = rw q in
          subst (Added c xs s k) (sym on) (record {
            agrees = moved.fits.agrees;
            added = λ _. all;
            taken_back = λ z. absurd (ground (arith, z));
            others = moved.others;
          })
      | inr (bad, q, u) ↦
          let v = undo_until e (delete_item e) bad xs r.1 r.2 in
          let on : roll_back e (delete_item e) xs r ≡ (false, v.0, v.1) = rw q in
          let (undone, gone) =
            undo_until-TakenBack c s.osfd s.events s.maxfd bad xs r.1 r.2 never moved.fits a u in
          subst (Added c xs s k) (sym on) (record {
            agrees = undone.fits.agrees;
            added = λ z. absurd (ground (arith, z));
            taken_back = λ _. (bad, q, gone);
            others = λ j w. (
              (undone.others j w).0 ∙ (moved.others j w).0,
              (undone.others j w).1 ∙ (moved.others j w).1,
            );
          })
    ]
