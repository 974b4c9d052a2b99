-- ===== src/Heap/Touched.antt =====
-- stlib/st_heap.h: HeapPush and HeapDelete on every branch, the refused calls included.
use native.Mathlib.Decide.{ℕ_discrete, dec_lt}
use sthread.Prelude.{ℕ, ◌≤◌, ◌≡◌, ◌≢◌, ◌↔◌, ◌⊎◌, inl, inr, arith, refl, leb, if◌then◌else◌}
use sthread.Heap.{StHeapList, minus_one, minus_two, heap_push, heap_delete, heap_full}
use sthread.Heap.Methods.{IsValid, heap_push-Grown, heap_delete-Shrunk, heap_delete-absent}

module _ (value : ℕ → ℕ) where
  -- HeapPush refuses a full heap with -1 and a node that some heap holds with -2, and changes nothing
  pub heap_push-refused :
      (h : StHeapList) (entry : ℕ)
      → (h.max ≤ h.count) ⊎ (h.index entry ≢ 0)
      → (heap_push value h entry ≡ (if leb h.max h.count then minus_one else minus_two, h))
  unfolding heap_push heap_full
  heap_push-refused h entry e = ground arith

  -- `h'` is a valid heap, and `node` is the only one that may have come or gone
  pub record Touched (h : StHeapList) (node : ℕ) (h' : StHeapList) : Type 0 where
    pub valid : IsValid value h'
    pub max_eq : h'.max ≡ h.max
    pub same : (p : ℕ) → p ≢ node → (h'.index p ≡ 0) ↔ (h.index p ≡ 0)

  -- HeapPush on every branch
  pub heap_push-Touched :
      (h : StHeapList) (entry : ℕ)
      → IsValid value h
      → entry ≢ 0
      → Touched h entry (heap_push value h entry).1
  heap_push-Touched h entry v e = elim (dec_lt h.count h.max) [
    | no full ↦
        rw (heap_push-refused h entry (inl (omega arith)))
          (record { valid = v; max_eq = refl; same = λ p n. (λ q. q, λ q. q) })
    | yes room ↦ elim (ℕ_discrete (h.index entry) 0) [
      | no held ↦
          rw (heap_push-refused h entry (inr held))
            (record { valid = v; max_eq = refl; same = λ p n. (λ q. q, λ q. q) })
      | yes out ↦
          let g = (heap_push-Grown value h entry v e out room).1 in
          record { valid = g.valid; max_eq = g.max_eq; same = g.same }
    ]
  ]

  -- HeapDelete on every branch leaves the node outside
  pub heap_delete-Touched :
      (h : StHeapList) (entry : ℕ)
      → IsValid value h
      → Touched h entry (heap_delete value h entry).1
        × ((heap_delete value h entry).1.index entry ≡ 0)
  heap_delete-Touched h entry v = elim (ℕ_discrete (h.index entry) 0) [
    | yes out ↦
        rw ((heap_delete-absent value h entry out).1)
          (record { valid = v; max_eq = refl; same = λ p n. (λ q. q, λ q. q) }, out)
    | no held ↦
        let g = (heap_delete-Shrunk value h entry v held).1 in
        (record { valid = g.valid; max_eq = g.max_eq; same = g.same }, g.left)
  ]
