-- ===== src/Poll/Tests.antt =====
-- stlib/st_epoll.h: an epoll instance that behaves as the manual says, and calls on it.
use sthread.Prelude.{
  ℕ, ◌≡◌, ◌≢◌, refl, true, false, Option, none, some, if◌then◌else◌, ◌==◌, update, Bool-cases,
  arith, inl, inr,
}
use sthread.Sys.{Events}
use sthread.Poll.{
  CtlOp, ctl_add, ctl_mod, ctl_del, CtlResult, ctl_ok, ctl_enoent, ctl_fails, Epoll, StIoState,
  st_none, without, store_mask, set_mask, del_event, add_event,
}
use sthread.Poll.Agrees.{Contract, AgreesWith, Masks, change-Masks}

abbrev pub control :
    CtlOp → Option Events → ℕ → Events → (ℕ → Option Events) → CtlResult × (ℕ → Option Events)
control ctl_add none fd m k = (ctl_ok, update k fd (some m))
control ctl_add (some _) fd m k = (ctl_fails, k)
control ctl_mod none fd m k = (ctl_enoent, k)
control ctl_mod (some _) fd m k = (ctl_ok, update k fd (some m))
control ctl_del none fd m k = (ctl_enoent, k)
control ctl_del (some _) fd m k = (ctl_ok, update k fd none)

abbrev pub epoll : Epoll (ℕ → Option Events)
epoll = record { ctl = λ op fd m k. control op (k fd) fd m k }

pub control_sets :
    (op : CtlOp) (o : Option Events) (fd : ℕ) (m : Events) (k : ℕ → Option Events)
    → (control op o fd m k).0 ≡ ctl_ok
    → op ≢ ctl_del
    → (j : ℕ) → (control op o fd m k).1 j ≡ (if fd == j then some m else k j)
control_sets ctl_add none fd m k h d j = refl
control_sets ctl_add (some _) fd m k h d j = absurd (ground arith)
control_sets ctl_mod none fd m k h d j = absurd (ground arith)
control_sets ctl_mod (some _) fd m k h d j = refl
control_sets ctl_del o fd m k h d j = absurd (d refl)

pub control_drops :
    (o : Option Events) (fd : ℕ) (m : Events) (k : ℕ → Option Events)
    → (control ctl_del o fd m k).0 ≡ ctl_ok
    → (j : ℕ) → (control ctl_del o fd m k).1 j ≡ (if fd == j then none else k j)
control_drops none fd m k h j = absurd (ground arith)
control_drops (some _) fd m k h j = refl

pub control_absent :
    (op : CtlOp) (o : Option Events) (fd : ℕ) (m : Events) (k : ℕ → Option Events)
    → (control op o fd m k).0 ≡ ctl_enoent
    → o ≡ none
control_absent op none fd m k h = refl
control_absent ctl_add (some _) fd m k h = absurd (ground arith)
control_absent ctl_mod (some _) fd m k h = absurd (ground arith)
control_absent ctl_del (some _) fd m k h = absurd (ground arith)

pub control_keeps :
    (op : CtlOp) (o : Option Events) (fd : ℕ) (m : Events) (k : ℕ → Option Events)
    → (control op o fd m k).0 ≢ ctl_ok
    → (j : ℕ) → (control op o fd m k).1 j ≡ k j
control_keeps ctl_add none fd m k h j = absurd (h refl)
control_keeps ctl_add (some _) fd m k h j = refl
control_keeps ctl_mod none fd m k h j = refl
control_keeps ctl_mod (some _) fd m k h j = absurd (h refl)
control_keeps ctl_del none fd m k h j = refl
control_keeps ctl_del (some _) fd m k h j = absurd (h refl)

abbrev pub contract : Contract epoll
contract = record {
  interest = λ k. k;
  sets = λ op fd m k. control_sets op (k fd) fd m k;
  drops = λ fd m k. control_drops (k fd) fd m k;
  absent = λ op fd m k. control_absent op (k fd) fd m k;
  keeps = λ op fd m k. control_keeps op (k fd) fd m k;
}

abbrev pub reads : Events
reads = record { readable = true; writeable = false }

abbrev pub both : Events
both = record { readable = true; writeable = true }

-- descriptor 5 is registered for both
abbrev pub state : StIoState
state = record { mask = λ j. if 5 == j then both else st_none; size = 16 }

abbrev pub table : ℕ → Option Events
table j = if 5 == j then some both else none

pub agrees : AgreesWith contract state table
agrees j = elim (Bool-cases (5 == j)) [ inl y ↦ rw y | inr y ↦ rw y ]

change-Masks_example :
    Masks contract state 5 reads (add_event epoll state 5 reads table)
    × Masks contract state 5 (without both reads) (del_event epoll state 5 reads table)
change-Masks_example = change-Masks contract state 5 reads table agrees

-- an output bit does not stay behind when a wait asks for input alone
replaced : (add_event epoll state 5 reads table).1.mask 5 ≡ reads
unfolding add_event store_mask set_mask
replaced = refl
