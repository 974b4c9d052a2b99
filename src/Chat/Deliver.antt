-- ===== src/Chat/Deliver.antt =====
-- app/st_chat/server.cpp: whom a line reaches.
use mathlib.Core.Path.{subst}
use sthread.Prelude.{
  ℕ, zero, suc, ◌+◌, ◌≤◌, ◌<◌, ◌≡◌, ◌≢◌, ◌∙◌, ◌⊎◌, ◌↔◌, inl, inr, refl, sym, ap, List, Bool, true,
  false, not, ◌||◌, if◌then◌else◌, ◌==◌, ne→==, eq→==, ==→eq, Bool-cases, arith,
}
use sthread.Chat.{Mail, Session, Room, mail_push, deliver, broadcast_from, is_done}
use sthread.Sys.Notify.{st_notify}
use sthread.Thread.{StThreadSchedule}
use sthread.Thread.Queues.{notify}
use sthread.Thread.Order.{notify_notified}
use sthread.Thread.Reach.{Reach, here, next, notifies, Reach-trans}

mail_push_refused :
    (m : Mail) (line : List ℕ) → (mail_push m line).0 ≡ false → (mail_push m line).1 ≡ m
unfolding mail_push
mail_push_refused m line h = ground (arith, h)

-- the session with the line, if there was room for it
abbrev pub with_line : List ℕ → Session → Session
with_line line p = record p { mail = (mail_push p.mail line).1 }

module _ (ours : ℕ → Bool) (line : List ℕ) where
  deliver-sess :
      (i j : ℕ) (r : Room)
      → (deliver ours i line r).1.sess j ≡ (if i == j then with_line line (r.sess j) else r.sess j)
  unfolding deliver
  deliver-sess i j r = elim (Bool-cases (mail_push (r.sess i).mail line).0) [
    | inl y ↦ elim (Bool-cases (i == j)) [
      | inl e ↦ rw (y, e) (ap (λ k. with_line line (r.sess k)) (==→eq i j e))
      | inr n ↦ rw (y, n) refl
    ]
    | inr y ↦ elim (Bool-cases (i == j)) [
      | inl e ↦
          rw (y, e)
            (ap (λ m. record (r.sess j) { mail = m })
              (sym (
                mail_push_refused (r.sess j).mail line
                  (ap (λ k. (mail_push (r.sess k).mail line).0) (sym (==→eq i j e)) ∙ y))))
      | inr n ↦ rw (y, n) refl
    ]
  ]

  notify_step :
      (t : ℕ) (s : StThreadSchedule)
      → ours t ≡ true
      → t ≢ 0
      → (is_done (st_notify t (ours t) s).0 ≡ true) × ((st_notify t (ours t) s).1 ≡ (notify t s).1)
  unfolding st_notify
  notify_step t s o n = rw (ne→== t 0 n, o) (ap is_done (notify_notified s t n).0, refl)

-- the sessions from `i` on that hear `from`: used by another session, and with a thread
abbrev pub Hears : ℕ → ℕ → Session → Type 0
Hears from j p = (p.used ≡ true) × (j ≢ from) × (p.self ≢ 0)

abbrev pub Deaf : ℕ → ℕ → Session → Type 0
Deaf from j p = (p.used ≡ false) ⊎ (j ≡ from) ⊎ (p.self ≡ 0)

abbrev skips : ℕ → ℕ → Session → Bool
skips from i p = not p.used || (i == from || p.self == 0)

skips-Hears : (from i : ℕ) (p : Session) → skips from i p ≡ false → Hears from i p
skips-Hears from i p h = ground (arith, h)

skips-Deaf : (from i : ℕ) (p : Session) → skips from i p ≡ true → Deaf from i p
skips-Deaf from i p h = ground (arith, h)

-- `line` from the session `from` has gone to the `k` sessions from `i` on
pub record Heard (line : List ℕ) (from k i : ℕ) (r : Room) (out : Bool × Room) : Type 0 where
  pub peers :
      (j : ℕ)
      → i ≤ j
      → j < i + k
      → Hears from j (r.sess j)
      → out.1.sess j ≡ with_line line (r.sess j)
  pub others : (j : ℕ) → (j < i) ⊎ (i + k ≤ j) ⊎ Deaf from j (r.sess j) → out.1.sess j ≡ r.sess j
  pub told :
      (j : ℕ)
      → i ≤ j
      → j < i + k
      → Hears from j (r.sess j)
      → (mail_push (r.sess j).mail line).0 ≡ true
      → out.1.threads.notified (r.sess j).self ≡ true
  pub bits : (t : ℕ) → r.threads.notified t ≡ true → out.1.threads.notified t ≡ true
  pub dropped : (out.0 ≡ false) ↔ (
      (j : ℕ)
      → i ≤ j
      → j < i + k
      → Hears from j (r.sess j)
      → (mail_push (r.sess j).mail line).0 ≡ true)
  pub reached : Reach r.threads out.1.threads

Hears-Deaf : (from j : ℕ) (p : Session) → Hears from j p → Deaf from j p → ⊥
Hears-Deaf from j p h d = ground (arith, h, d)

module _ (ours : ℕ → Bool) (line : List ℕ) (all_ours : (t : ℕ) → ours t ≡ true) where
  -- what one peer's delivery does to the scheduler, and whether it was dropped
  deliver_pushed :
      (i : ℕ) (r : Room)
      → (r.sess i).self ≢ 0
      → (mail_push (r.sess i).mail line).0 ≡ true
      → ((deliver ours i line r).0 ≡ false)
        × ((deliver ours i line r).1.threads ≡ (notify (r.sess i).self r.threads).1)
  unfolding deliver
  deliver_pushed i r n h =
      let (d, e) = notify_step ours line (r.sess i).self r.threads (all_ours (r.sess i).self) n in
      rw (h, d) (refl, e)

  deliver_full :
      (i : ℕ) (r : Room)
      → (mail_push (r.sess i).mail line).0 ≡ false
      → deliver ours i line r ≡ (true, r)
  unfolding deliver
  deliver_full i r h = rw h refl

  skipped-Heard :
      (from k i : ℕ) (r : Room) (out : Bool × Room)
      → skips from i (r.sess i) ≡ true
      → Heard line from k (i + 1) r out
      → Heard line from (suc k) i r (false || out.0, out.1)
  skipped-Heard from k i r out sk h =
      let later : (j : ℕ) → i ≤ j → Hears from j (r.sess j) → i + 1 ≤ j = λ j a hears.
        elim (Bool-cases (i == j)) [
          | inl e ↦ absurd (
              Hears-Deaf from j (r.sess j) hears (
                skips-Deaf from j (r.sess j)
                  (ap (λ m. skips from m (r.sess m)) (sym (==→eq i j e)) ∙ sk)))
          | inr n ↦ ground (arith, n)
        ] in
      record {
        peers = λ j a b hears. h.peers j (later j a hears) (omega arith) hears;
        others = λ j o. h.others j (elim o [
          | inl a ↦ inl (omega arith)
          | inr (inl a) ↦ inr (inl (omega arith))
          | inr (inr d) ↦ inr (inr d)
        ]);
        told = λ j a b hears p. h.told j (later j a hears) (omega arith) hears p;
        bits = h.bits;
        dropped = (
          λ z j a b hears. h.dropped.0 z j (later j a hears) (omega arith) hears,
          λ f. h.dropped.1 (λ j a b hears. f j (omega arith) (omega arith) hears),
        );
        reached = h.reached;
      }

  sess_apart : (i j : ℕ) (r : Room) → (i == j) ≡ false → (deliver ours i line r).1.sess j ≡ r.sess j
  sess_apart i j r n = deliver-sess ours line i j r ∙ rw n refl

  deliver-bits :
      (i t : ℕ) (r : Room)
      → (r.sess i).self ≢ 0
      → r.threads.notified t ≡ true
      → (deliver ours i line r).1.threads.notified t ≡ true
  deliver-bits i t r n h = elim (Bool-cases (mail_push (r.sess i).mail line).0) [
    | inl y ↦
        ap (λ s. s.notified t) (deliver_pushed i r n y).1
        ∙ ap (λ f. f t) (notify_notified r.threads (r.sess i).self n).1
        ∙ ground (arith, h)
    | inr y ↦ rw (deliver_full i r y) h
  ]

  deliver-Reach :
      (i : ℕ) (r : Room) → (r.sess i).self ≢ 0 → Reach r.threads (deliver ours i line r).1.threads
  deliver-Reach i r n = elim (Bool-cases (mail_push (r.sess i).mail line).0) [
    | inl y ↦ rw (deliver_pushed i r n y).1 (next here (notifies r.threads (r.sess i).self))
    | inr y ↦ rw (deliver_full i r y) here
  ]

  deliver-dropped :
      (i : ℕ) (r : Room)
      → (r.sess i).self ≢ 0
      → (deliver ours i line r).0 ≡ not (mail_push (r.sess i).mail line).0
  deliver-dropped i r n = elim (Bool-cases (mail_push (r.sess i).mail line).0) [
    | inl y ↦ (deliver_pushed i r n y).0 ∙ rw y refl
    | inr y ↦ ap (λ d. d.0) (deliver_full i r y) ∙ rw y refl
  ]

  sent-told :
      (i : ℕ) (r : Room)
      → (r.sess i).self ≢ 0
      → (mail_push (r.sess i).mail line).0 ≡ true
      → (deliver ours i line r).1.threads.notified (r.sess i).self ≡ true
  sent-told i r n y =
      ap (λ s. s.notified (r.sess i).self) (deliver_pushed i r n y).1
      ∙ ap (λ f. f (r.sess i).self) (notify_notified r.threads (r.sess i).self n).1
      ∙ ground arith

  split_at : (i j : ℕ) → i ≤ j → (i ≡ j) ⊎ ((i + 1 ≤ j) × ((i == j) ≡ false))
  split_at i j h = elim (Bool-cases (i == j)) [
    | inl e ↦ inl (==→eq i j e)
    | inr n ↦ inr (ground (arith, n), n)
  ]

  sent-Heard :
      (from k i : ℕ) (r : Room) (out : Bool × Room)
      → Hears from i (r.sess i)
      → Heard line from k (i + 1) (deliver ours i line r).1 out
      → Heard line from (suc k) i r ((deliver ours i line r).0 || out.0, out.1)
  sent-Heard from k i r out hi h =
      let r₁ = (deliver ours i line r).1 in
      let first : out.1.sess i ≡ with_line line (r.sess i) =
        h.others i (inl (omega arith)) ∙ deliver-sess ours line i i r ∙ rw (eq→== i i refl) refl in
      record {
        peers = λ j a b hears. elim (split_at i j a) [
          | inl e ↦ subst (λ m. out.1.sess m ≡ with_line line (r.sess m)) e first
          | inr (c, n) ↦
              let same = sess_apart i j r n in
              h.peers j c (omega arith) (subst (Hears from j) (sym same) hears)
              ∙ ap (with_line line) same
        ];
        others = λ j o. elim (Bool-cases (i == j)) [
          | inl e ↦ absurd (elim o [
            | inl a ↦ ground (arith, a, e)
            | inr (inl a) ↦ ground (arith, a, e)
            | inr (inr d) ↦
                Hears-Deaf from i (r.sess i) hi
                  (subst (λ m. Deaf from m (r.sess m)) (sym (==→eq i j e)) d)
          ])
          | inr n ↦
              let same = sess_apart i j r n in
              h.others j (elim o [
                | inl a ↦ inl (omega arith)
                | inr (inl a) ↦ inr (inl (omega arith))
                | inr (inr d) ↦ inr (inr (subst (Deaf from j) (sym same) d))
              ])
              ∙ same
        ];
        told = λ j a b hears p. elim (split_at i j a) [
          | inl e ↦
              subst (λ m. out.1.threads.notified (r.sess m).self ≡ true) e
                (h.bits (r.sess i).self (
                  sent-told i r hi.2
                    (subst (λ m. (mail_push (r.sess m).mail line).0 ≡ true) (sym e) p)))
          | inr (c, n) ↦
              let same = sess_apart i j r n in
              subst (λ q. out.1.threads.notified q.self ≡ true) same
                (h.told j c (omega arith) (subst (Hears from j) (sym same) hears)
                  (subst (λ q. (mail_push q.mail line).0 ≡ true) (sym same) p))
        ];
        bits = λ t b. h.bits t (deliver-bits i t r hi.2 b);
        dropped = (
          λ z j a b hears. elim (split_at i j a) [
            | inl e ↦
                subst (λ m. (mail_push (r.sess m).mail line).0 ≡ true) e
                  (ground (arith, z, deliver-dropped i r hi.2))
            | inr (c, n) ↦
                let same = sess_apart i j r n in
                subst (λ q. (mail_push q.mail line).0 ≡ true) same
                  (h.dropped.0 (ground (arith, z)) j c (omega arith)
                    (subst (Hears from j) (sym same) hears))
          ],
          λ f.
              let later : out.0 ≡ false = h.dropped.1 (λ j a b hears.
                let same = sess_apart i j r (ground arith) in
                subst (λ q. (mail_push q.mail line).0 ≡ true) (sym same)
                  (f j (omega arith) (omega arith) (subst (Hears from j) same hears))) in
              ground (arith, later, deliver-dropped i r hi.2, f i (omega arith) (omega arith) hi),
        );
        reached = Reach-trans (deliver-Reach i r hi.2) h.reached;
      }

  pub broadcast_from-Heard :
      (k i from : ℕ) (r : Room) → Heard line from k i r (broadcast_from ours k i from line r)
  unfolding broadcast_from
  broadcast_from-Heard zero i from r = record {
    peers = λ j a b hears. absurd (omega arith);
    others = λ j o. refl;
    told = λ j a b hears p. absurd (omega arith);
    bits = λ t b. b;
    dropped = (λ z j a b hears. absurd (omega arith), λ f. refl);
    reached = here;
  }
  broadcast_from-Heard (suc k) i from r = elim (Bool-cases (skips from i (r.sess i))) [
    | inl y ↦ rw y (skipped-Heard from k i r _ y (broadcast_from-Heard k (i + 1) from r))
    | inr n ↦ rw n (
        sent-Heard from k i r _ (skips-Hears from i (r.sess i) n)
          (broadcast_from-Heard k (i + 1) from (deliver ours i line r).1))
  ]
