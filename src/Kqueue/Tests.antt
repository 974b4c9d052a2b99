-- ===== src/Kqueue/Tests.antt =====
-- stlib/st_kqueue.h: a kqueue with room for a given number of filters, and calls on it.
use sthread.Prelude.{
  ℕ, zero, suc, ◌≡◌, refl, Bool, true, false, ◌&&◌, if◌then◌else◌, ◌==◌, Bool-cases, arith, inl,
  inr,
}
use sthread.Poll.{st_none, without}
use sthread.Poll.Tests.{both, reads, state}
use sthread.Kqueue.{
  Filter, evfilt_read, evfilt_write, evfilt_other, Kernel, sync_filter, add_event, del_event,
}
use sthread.Kqueue.Synced.{same_filter, Contract, Synced, Left, change-Left}

record Queue : Type 0 where
  has : Filter → ℕ → Bool
  room : ℕ

set_filter : (Filter → ℕ → Bool) → Filter → ℕ → Bool → Filter → ℕ → Bool
set_filter h f fd b g j = if same_filter f g && (fd == j) then b else h g j

-- EV_ADD fails without room, and EV_DELETE without the filter
attempt : Bool → ℕ → Bool → Filter → ℕ → Queue → Bool × Queue
attempt true zero present f fd q = (false, q)
attempt true (suc n) present f fd q = (true, record { has = set_filter q.has f fd true; room = n })
attempt false n true f fd q = (true, record { has = set_filter q.has f fd false; room = suc n })
attempt false n false f fd q = (false, q)

attempt_changes :
    (add : Bool) (n : ℕ) (present : Bool) (f : Filter) (fd : ℕ) (q : Queue)
    → (attempt add n present f fd q).0 ≡ true
    → (g : Filter) (j : ℕ)
    → (attempt add n present f fd q).1.has g j
      ≡ (if same_filter f g && (fd == j) then add else q.has g j)
unfolding attempt set_filter
attempt_changes true zero present f fd q h g j = absurd (ground (arith, h))
attempt_changes true (suc n) present f fd q h g j = refl
attempt_changes false n true f fd q h g j = refl
attempt_changes false n false f fd q h g j = absurd (ground (arith, h))

attempt_keeps :
    (add : Bool) (n : ℕ) (present : Bool) (f : Filter) (fd : ℕ) (q : Queue)
    → (attempt add n present f fd q).0 ≡ false
    → (g : Filter) (j : ℕ) → (attempt add n present f fd q).1.has g j ≡ q.has g j
unfolding attempt
attempt_keeps true zero present f fd q h g j = refl
attempt_keeps true (suc n) present f fd q h g j = absurd (ground (arith, h))
attempt_keeps false n true f fd q h g j = absurd (ground (arith, h))
attempt_keeps false n false f fd q h g j = refl

attempt_absent :
    (n : ℕ) (present : Bool) (f : Filter) (fd : ℕ) (q : Queue)
    → (attempt false n present f fd q).0 ≡ false
    → present ≡ false
unfolding attempt
attempt_absent n true f fd q h = absurd (ground (arith, h))
attempt_absent n false f fd q h = refl

abbrev kqueue : Kernel Queue
kqueue = record { change = λ f add fd q. attempt add q.room (q.has f fd) f fd q }

abbrev kevents : Contract kqueue
kevents = record {
  has = λ q. q.has;
  changes = λ f add fd q. attempt_changes add q.room (q.has f fd) f fd q;
  keeps = λ f add fd q. attempt_keeps add q.room (q.has f fd) f fd q;
  absent = λ f fd q. attempt_absent q.room (q.has f fd) f fd q;
}

-- the filters of `state`, where descriptor 5 has both
abbrev registered : Filter → ℕ → Bool
registered evfilt_read j = 5 == j
registered evfilt_write j = 5 == j
registered evfilt_other j = false

abbrev queue : Queue
queue = record { has = registered; room = 1 }

in_step : Synced kevents state queue
in_step j = elim (Bool-cases (5 == j)) [ inl y ↦ rw y (refl, refl) | inr y ↦ rw y (refl, refl) ]

change-Left_example :
    Left kevents state 5 reads (add_event kqueue state 5 reads queue)
    × Left kevents state 5 (without both reads) (del_event kqueue state 5 reads queue)
change-Left_example = change-Left kevents state 5 reads queue in_step

-- After a failure the read filter stays in the kernel, with no bit for it: the next call with the old
-- mask is a success that does nothing.
half_added :
    let r = add_event kqueue state 6 both queue in
    (r.0 ≡ false)
    × (r.2.has evfilt_read 6 ≡ true)
    × ((add_event kqueue r.1 6 st_none r.2).2.has evfilt_read 6 ≡ true)
unfolding add_event sync_filter attempt set_filter
half_added = (refl, refl, refl)
