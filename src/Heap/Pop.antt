-- ===== src/Heap/Pop.antt =====
-- stlib/st_heap.h: HeapTop and HeapPop give the node of the least value.
use native.Mathlib.Nat.{le_refl, le_trans}
use native.Mathlib.Decide.{ℕ_discrete, dec_lt}
use sthread.Prelude.{
  ℕ, suc, zero, ◌+◌, ◌/◌, ◌≤◌, ◌<◌, ◌≡◌, ◌≢◌, ◌↔◌, arith, refl, ltb, lt→ltb, nlt→ltb, ne→==,
  if◌then◌else◌,
}
use sthread.Heap.{StHeapList, swap, key, sift_down, heap_pop, heap_top, heap_empty, cut_last}
use sthread.Heap.Place.{IsPlaced, swap-IsPlaced}
use sthread.Heap.Order.{IsHeap, Sifted, DownInv, sift_down-Sifted}
use sthread.Heap.Methods.{IsValid, Shrunk, Shrunk-sift, cut_last-IsPlaced, Sifted-stay}

module _ (value : ℕ → ℕ) where
  root_below :
      (fuel : ℕ) (h : StHeapList) (i : ℕ)
      → IsHeap value h
      → i < fuel
      → 0 < i
      → i ≤ h.count
      → key value h 1 ≤ key value h i
  root_below zero h i o f p q = absurd (omega arith)
  root_below (suc fuel) h i o f p q = elim (ℕ_discrete i 1) [
    | yes e ↦ rw e (le_refl _)
    | no n ↦
        le_trans (root_below fuel h (i / 2) o (omega arith) (omega arith) (omega arith))
          (o i (omega arith) q)
  ]

  -- Where some node is in a valid heap, HeapTop is a node of the heap too, and its HeapValue is at most
  -- that node's.
  pub heap_top_least :
      (h : StHeapList) (p : ℕ)
      → IsValid value h
      → h.index p ≢ 0
      → (h.index (heap_top h) ≢ 0) × (value (heap_top h) ≤ value p)
  unfolding heap_top
  heap_top_least h p v n =
      let (low, here) = v.well_placed.indexed p n in
      let top = v.well_placed.placed 1 (omega arith) (omega arith) in
      rw (lt→ltb 0 h.count (omega arith)) (
        omega (arith, top.0),
        rw here at
            (root_below (suc h.count) h (h.index p) v.ordered (omega arith) (omega arith) low),
      )

  -- HeapTop is NULL on an empty heap only
  pub heap_top_null : (h : StHeapList) → IsValid value h → (heap_top h ≡ 0) ↔ (h.count ≡ 0)
  unfolding heap_top
  heap_top_null h v = ground (arith, v.well_placed.placed 1)

  module _ (h : StHeapList) (v : IsValid value h) (p : 0 < h.count) where
    abbrev swapped : StHeapList
    swapped = swap h 1 h.count

    popped : StHeapList
    popped = cut_last swapped (h.list 1)

    swapped_last : swapped.list swapped.count ≡ h.list 1
    unfolding swap
    swapped_last = ground arith

    popped-IsPlaced : IsPlaced popped
    unfolding popped
    popped-IsPlaced = rw swapped_last at (
        cut_last-IsPlaced value swapped
          (swap-IsPlaced h v.well_placed 1 h.count (omega arith) p p (omega arith))
          (unfold swap in p))

    popped-DownInv : DownInv value popped 1
    unfolding popped swap cut_last
    popped-DownInv = record {
      edges = λ c a b n. ground (arith, v.ordered c);
      bridged = λ c a b e n. absurd (omega arith);
    }

    popped_count : popped.count + 1 ≡ h.count
    unfolding popped swap cut_last
    popped_count = omega arith

    abbrev popped_sifted : StHeapList
    popped_sifted = if ltb 0 popped.count then sift_down value popped.count popped 1 else popped

    popped-Sifted : Sifted value popped popped_sifted
    popped-Sifted = elim (dec_lt 0 popped.count) [
      | yes more ↦ rw (lt→ltb 0 popped.count more) (
          sift_down-Sifted value popped.count popped 1 (omega arith) (omega arith) (omega arith)
            popped-IsPlaced popped-DownInv)
      | no n ↦
          rw (nlt→ltb 0 popped.count n)
            (Sifted-stay value popped popped-IsPlaced (λ c a b. absurd (omega arith)))
    ]

    popped-Shrunk : Shrunk value h (h.list 1) popped_sifted
    popped-Shrunk =
        let w = v.well_placed in
        Shrunk-sift value h popped popped_sifted (h.list 1) popped_count
          (unfold popped swap cut_last in refl) (unfold popped swap cut_last in ground arith)
          (λ q n. unfold popped swap cut_last in ground (arith, w.placed h.count)) popped-Sifted

    -- HeapPop on a valid heap that is not empty returns its top. The heap is valid again, with one
    -- node fewer and the same room; the top is out of it and every other node is in it just if it was.
    pub heap_pop-Shrunk :
        ((heap_pop value h).0 ≡ heap_top h) × Shrunk value h (heap_top h) (heap_pop value h).1
    unfolding heap_pop heap_top heap_empty popped
    heap_pop-Shrunk = rw (ne→== h.count 0 (omega arith), lt→ltb 0 h.count p) (refl, popped-Shrunk)

    -- HeapPop on a valid heap that holds the node `q` returns its top, and no value in the heap is
    -- below that of the top. The heap is valid again, with one node fewer and the same room; the top is
    -- out of it and every other node is in it just if it was.
    pub heap_pop_least :
        (q : ℕ)
        → h.index q ≢ 0
        → ((heap_pop value h).0 ≡ heap_top h)
          × Shrunk value h (heap_top h) (heap_pop value h).1
          × (value (heap_top h) ≤ value q)
    heap_pop_least q n =
        let (top, shrunk) = heap_pop-Shrunk in (top, shrunk, (heap_top_least h q v n).1)
