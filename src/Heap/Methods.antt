-- ===== src/Heap/Methods.antt =====
-- stlib/st_heap.h: HeapPush, HeapPop and HeapDelete keep the heap and move exactly one node.
use native.Mathlib.Decide.{ℕ_discrete, dec_lt}
use sthread.Prelude.{
  ℕ, ◌+◌, ◌-◌, ◌/◌, ◌≤◌, ◌<◌, ◌≡◌, ◌≢◌, ◌↔◌, arith, refl, ap, sym, ◌∙◌, lt→ltb, nlt→ltb, nle→leb,
  eq→==, ne→==, update,
}
use sthread.Heap.{
  StHeapList, done, key, heap_push, heap_delete, heap_empty, heap_full, cut_last, replace,
}
use sthread.Heap.Place.{IsPlaced, Arranges-refl}
use sthread.Heap.Order.{IsHeap, Sifted, UpInv, DownInv, sift_up-Sifted, sift_down-Sifted}

module _ (value : ℕ → ℕ) where
  -- what every call of the class relies on and keeps
  pub record IsValid (h : StHeapList) : Type 0 where
    pub well_placed : IsPlaced h
    pub ordered : IsHeap value h

  -- `h'` is a valid heap of the nodes of `h` and `node`
  pub record Grown (h : StHeapList) (node : ℕ) (h' : StHeapList) : Type 0 where
    pub valid : IsValid h'
    pub count_eq : h'.count ≡ h.count + 1
    pub max_eq : h'.max ≡ h.max
    pub entered : h'.index node ≢ 0
    pub same : (p : ℕ) → p ≢ node → (h'.index p ≡ 0) ↔ (h.index p ≡ 0)

  -- `h'` is a valid heap of the nodes of `h` but `node`
  pub record Shrunk (h : StHeapList) (node : ℕ) (h' : StHeapList) : Type 0 where
    pub valid : IsValid h'
    pub count_eq : h'.count + 1 ≡ h.count
    pub max_eq : h'.max ≡ h.max
    pub left : h'.index node ≡ 0
    pub same : (p : ℕ) → p ≢ node → (h'.index p ≡ 0) ↔ (h.index p ≡ 0)

  abbrev appended : StHeapList → ℕ → StHeapList
  appended h entry = record h {
    list = update h.list (h.count + 1) entry;
    index = update h.index entry (h.count + 1);
    count = h.count + 1;
  }

  appended-IsPlaced :
      (h : StHeapList) (entry : ℕ)
      → IsPlaced h
      → entry ≢ 0
      → h.index entry ≡ 0
      → h.count < h.max
      → IsPlaced (appended h entry)
  appended-IsPlaced h entry w e z r = record {
    placed = λ i a b. ground (arith, w.placed i);
    indexed = λ p n. ground (arith, w.indexed p);
    bounded = omega arith;
  }

  appended-UpInv :
      (h : StHeapList) (entry : ℕ) → IsHeap value h → UpInv value (appended h entry) (h.count + 1)
  appended-UpInv h entry o = record {
    edges = λ c a b n. ground (arith, o c);
    bridged = λ c a b e n. absurd (omega arith);
  }

  -- HeapPush on a valid heap with room, of a node that is not NULL and in no heap, succeeds. The heap
  -- is valid again, with one node more and the same room; the node is in it and every other node just
  -- if it was.
  pub heap_push-Grown :
      (h : StHeapList) (entry : ℕ)
      → IsValid h
      → entry ≢ 0
      → h.index entry ≡ 0
      → h.count < h.max
      → ((heap_push value h entry).0 ≡ done) × Grown h entry (heap_push value h entry).1
  unfolding heap_push heap_full
  heap_push-Grown h entry v e z r =
      let s =
        sift_up-Sifted value (h.count + 1) (appended h entry) (h.count + 1) (omega arith)
          (omega arith) (omega arith) (appended-IsPlaced h entry v.well_placed e z r)
          (appended-UpInv h entry v.ordered) in
      rw (nle→leb h.max h.count (omega arith), eq→== _ _ z)
        (
          refl,
          record {
            valid = record { well_placed = s.well_placed; ordered = s.ordered };
            count_eq = s.arranged.count_eq;
            max_eq = s.arranged.max_eq;
            entered = λ q. ground (arith, (s.arranged.same entry).0 q);
            same = λ p n. (
              λ q. ground (arith, (s.arranged.same p).0 q),
              λ q. (s.arranged.same p).1 (ground arith),
            );
          },
        )

  pub cut_last-IsPlaced :
      (h : StHeapList) → IsPlaced h → 0 < h.count → IsPlaced (cut_last h (h.list h.count))
  unfolding cut_last
  cut_last-IsPlaced h w p = record {
    placed = λ i a b. ground (arith, w.placed i, w.placed h.count);
    indexed = λ q n. ground (arith, w.indexed q, w.placed h.count);
    bounded = ground (arith, w.bounded);
  }

  -- a heap of which only the order was disturbed after a node was taken off
  pub Shrunk-sift :
      (h g h' : StHeapList) (node : ℕ)
      → g.count + 1 ≡ h.count
      → g.max ≡ h.max
      → g.index node ≡ 0
      → ((p : ℕ) → p ≢ node → (g.index p ≡ 0) ↔ (h.index p ≡ 0))
      → Sifted value g h'
      → Shrunk h node h'
  Shrunk-sift h g h' node c m l same s = record {
    valid = record { well_placed = s.well_placed; ordered = s.ordered };
    count_eq = omega (arith, s.arranged.count_eq);
    max_eq = omega (arith, s.arranged.max_eq);
    left = (s.arranged.same node).1 l;
    same = λ p n.
        (λ q. (same p n).0 ((s.arranged.same p).0 q), λ q. (s.arranged.same p).1 ((same p n).1 q));
  }

  pub Sifted-stay : (h : StHeapList) → IsPlaced h → IsHeap value h → Sifted value h h
  Sifted-stay h w o = record { arranged = Arranges-refl h; well_placed = w; ordered = o }

  cut_last-Shrunk :
      (h : StHeapList)
      → IsValid h
      → 0 < h.count
      → Shrunk h (h.list h.count) (cut_last h (h.list h.count))
  cut_last-Shrunk h v p =
      let node = h.list h.count in
      Shrunk-sift h (cut_last h node) (cut_last h node) node (unfold cut_last in omega arith)
        (unfold cut_last in refl) (unfold cut_last in ground arith)
        (λ q n. unfold cut_last in ground arith)
        (Sifted-stay (cut_last h node) (cut_last-IsPlaced h v.well_placed p)
          (λ c a b. unfold cut_last in ground (arith, v.ordered c)))

  module _ (h : StHeapList) (v : IsValid h) (pos : ℕ) (p : 0 < pos) (q : pos < h.count) where
    abbrev filled : StHeapList
    filled = record h {
      list = update (update h.list pos (h.list h.count)) h.count 0;
      index = update (update h.index (h.list h.count) pos) (h.list pos) 0;
      count = h.count - 1;
    }

    filled-IsPlaced : IsPlaced filled
    filled-IsPlaced =
        let w = v.well_placed in
        record {
          placed = λ i a b. ground (arith, w.placed i, w.placed h.count, w.placed pos);
          indexed = λ r n. ground (arith, w.indexed r, w.placed h.count, w.placed pos);
          bounded = omega (arith, w.bounded);
        }

    filled-UpInv :
        key value filled pos < key value filled (pos / 2) → 1 < pos → UpInv value filled pos
    filled-UpInv lt big = record {
      edges = λ c a b n. ground (arith, v.ordered c, v.ordered pos);
      bridged = λ c a b e n. ground (arith, v.ordered c, v.ordered pos);
    }

    filled-DownInv :
        (1 < pos → key value filled (pos / 2) ≤ key value filled pos) → DownInv value filled pos
    filled-DownInv le = record {
      edges = λ c a b n. ground (arith, v.ordered c, le);
      bridged = λ c a b e n. ground (arith, v.ordered c, v.ordered pos);
    }

    filled_same : (r : ℕ) → r ≢ h.list pos → (filled.index r ≡ 0) ↔ (h.index r ≡ 0)
    filled_same r n = let w = v.well_placed in ground (arith, w.placed h.count)

    replace-Shrunk : Shrunk h (h.list pos) (replace value h pos)
    unfolding replace
    replace-Shrunk =
        Shrunk-sift h filled (replace value h pos) (h.list pos) (omega arith) refl (ground arith)
          filled_same
          (elim (dec_lt 1 pos) [
            | yes big ↦ elim (dec_lt (key value filled pos) (key value filled (pos / 2))) [
              | yes lt ↦
                  rw (lt→ltb 1 pos big, lt→ltb _ _ lt)
                    (sift_up-Sifted value pos filled pos (omega arith) p (omega arith)
                      filled-IsPlaced (filled-UpInv lt big))
              | no n ↦
                  rw (lt→ltb 1 pos big, nlt→ltb _ _ n)
                    (sift_down-Sifted value filled.count filled pos (omega arith) p (omega arith)
                      filled-IsPlaced (filled-DownInv (λ _. omega arith)))
            ]
            | no small ↦ rw (nlt→ltb 1 pos small) (
                sift_down-Sifted value filled.count filled pos (omega arith) p (omega arith)
                  filled-IsPlaced (filled-DownInv (λ b. absurd (omega arith))))
          ])

  -- HeapDelete of a node of a valid heap succeeds. The heap is valid again, with one node fewer and
  -- the same room; the node is out of it and every other node is in it just if it was.
  pub heap_delete-Shrunk :
      (h : StHeapList) (entry : ℕ)
      → IsValid h
      → h.index entry ≢ 0
      → ((heap_delete value h entry).0 ≡ done) × Shrunk h entry (heap_delete value h entry).1
  unfolding heap_delete heap_empty
  heap_delete-Shrunk h entry v n =
      let (low, at) = v.well_placed.indexed entry n in
      rw
        (
          ne→== h.count 0 (omega arith),
          nlt→ltb h.count (h.index entry) (omega arith),
          ne→== (h.index entry) 0 n,
        )
        (elim (ℕ_discrete (h.index entry) h.count) [
          | yes e ↦ rw (eq→== _ _ e) (
            refl,
            rw at (
                let lc : h.list h.count ≡ entry = ap h.list (sym e) ∙ at in
                rw lc at (cut_last-Shrunk h v (omega arith))),
          )
          | no m ↦
              rw (ne→== _ _ m)
                (refl, rw at at (replace-Shrunk h v (h.index entry) (omega arith) (omega arith)))
        ])

  -- HeapDelete refuses a node that no heap holds, and changes nothing
  pub heap_delete-absent :
      (h : StHeapList) (entry : ℕ)
      → h.index entry ≡ 0
      → ((heap_delete value h entry).0 ≢ done) × ((heap_delete value h entry).1 ≡ h)
  unfolding heap_delete heap_empty
  heap_delete-absent h entry z = ground arith

-- the value of a node outside the heap does not matter
pub update-IsValid :
    (value : ℕ → ℕ) (h : StHeapList) (t w : ℕ)
    → IsValid value h
    → h.index t ≡ 0
    → IsValid (update value t w) h
update-IsValid value h t w v z = record {
  well_placed = v.well_placed;
  ordered =
      λ c a b. ground (arith, v.ordered c, v.well_placed.placed c, v.well_placed.placed (c / 2));
}
