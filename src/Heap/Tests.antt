-- ===== src/Heap/Tests.antt =====
-- stlib/st_heap.h at a heap of three nodes, whose addresses are their values.
use sthread.Prelude.{ℕ, ◌≤◌, ◌≡◌, refl, arith, inr, leb, if◌then◌else◌, ◌==◌}
use sthread.Heap.{
  StHeapList, done, minus_one, minus_two, new_heap, heap_push, heap_pop, heap_delete, heap_top,
  sift_up, sift_down, best, swap, cut_last, heap_full, heap_empty,
}
use sthread.Heap.Methods.{IsValid, Grown, Shrunk, heap_push-Grown, heap_delete-Shrunk}
use sthread.Heap.Pop.{heap_pop_least}
use sthread.Heap.Touched.{heap_push-refused}

abbrev own : ℕ → ℕ
own p = p

abbrev empty_heap : StHeapList
empty_heap = record { list = λ i. 0; index = λ p. 0; count = 0; max = 512 }

empty_is_new : empty_heap ≡ new_heap 100
unfolding new_heap
empty_is_new = refl

empty-IsValid : IsValid own empty_heap
empty-IsValid = record {
  well_placed = record {
    placed = λ i a b. ground arith;
    indexed = λ q e. absurd (e refl);
    bounded = ground arith;
  };
  ordered = λ c a b. ground arith;
}

pushed_seven : Grown own empty_heap 7 (heap_push own empty_heap 7).1
pushed_seven = (heap_push-Grown own empty_heap 7 empty-IsValid (omega arith) refl (omega arith)).1

abbrev two_nodes : StHeapList
two_nodes = record {
  list = λ i. if i == 1 then 4 else (if i == 2 then 7 else 0);
  index = λ p. if p == 4 then 1 else (if p == 7 then 2 else 0);
  count = 2;
  max = 512;
}

two-IsValid : IsValid own two_nodes
two-IsValid = record {
  well_placed = record {
    placed = λ i a b. ground arith;
    indexed = λ q e. ground arith;
    bounded = ground arith;
  };
  ordered = λ c a b. ground arith;
}

heap_push-Grown_example :
    ((heap_push own two_nodes 3).0 ≡ done) × Grown own two_nodes 3 (heap_push own two_nodes 3).1
heap_push-Grown_example =
    heap_push-Grown own two_nodes 3 two-IsValid (omega arith) refl (omega arith)

heap_delete-Shrunk_example :
    ((heap_delete own two_nodes 4).0 ≡ done)
    × Shrunk own two_nodes 4 (heap_delete own two_nodes 4).1
heap_delete-Shrunk_example = heap_delete-Shrunk own two_nodes 4 two-IsValid (omega arith)

heap_pop_least_example :
    ((heap_pop own two_nodes).0 ≡ heap_top two_nodes)
    × Shrunk own two_nodes (heap_top two_nodes) (heap_pop own two_nodes).1
    × (own (heap_top two_nodes) ≤ own 7)
heap_pop_least_example = heap_pop_least own two_nodes two-IsValid (omega arith) 7 (omega arith)

heap_push-refused_example :
    heap_push own two_nodes 7 ≡ (if leb 512 2 then minus_one else minus_two, two_nodes)
heap_push-refused_example = heap_push-refused own two_nodes 7 (inr (omega arith))

-- a push below the top sifts the node up, and a pop sifts the last one down
push_sifts : (heap_push own two_nodes 3).1.list 1 ≡ 3
unfolding heap_push heap_full sift_up swap
push_sifts = refl

pop_sifts : (heap_pop own (heap_push own two_nodes 3).1).1.list 1 ≡ 4
unfolding heap_push heap_full sift_up swap heap_pop heap_empty cut_last sift_down best
pop_sifts = refl
