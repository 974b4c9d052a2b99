-- ===== src/Heap.antt =====
-- stlib/st_heap.h: StHeapList, the 1-based array heap of pointers, with the index that every node
-- keeps of its own place. A node is an address, 0 is NULL; `value` is HeapValue, by its rank.
pub mod Place
pub mod Order
pub mod Methods
pub mod Pop
pub mod Touched
mod Tests
use sthread.Prelude.{
  ℕ, zero, suc, ◌+◌, ◌-◌, ◌*◌, ◌/◌, Bool, true, false, ◌&&◌, ◌||◌, ltb, leb, ◌==◌, if◌then◌else◌,
  update,
}

pub record StHeapList : Type 0 where
  -- m_list_ and m_count_, m_max_; the m_index_ of every node
  pub list : ℕ → ℕ
  pub index : ℕ → ℕ
  pub count : ℕ
  pub max : ℕ

-- the results of HeapPush and HeapDelete: 0, -1 and -2
pub data Status : Type 0 where
  done minus_one minus_two : Status

unfoldable pub heap_full : StHeapList → Bool
heap_full h = leb h.max h.count

unfoldable pub heap_empty : StHeapList → Bool
heap_empty h = h.count == 0

unfoldable pub heap_top : StHeapList → ℕ
heap_top h = if ltb 0 h.count then h.list 1 else 0

unfoldable pub swap : StHeapList → ℕ → ℕ → StHeapList
swap h i j = record h {
  list = update (update h.list i (h.list j)) j (h.list i);
  index = update (update h.index (h.list j) i) (h.list i) j;
}

-- the last node is taken off the array and leaves its index at 0
unfoldable pub cut_last : StHeapList → ℕ → StHeapList
cut_last h node = record h {
  list = update h.list h.count 0;
  index = update h.index node 0;
  count = h.count - 1;
}

module _ (value : ℕ → ℕ) where
  abbrev pub key : StHeapList → ℕ → ℕ
  key h i = value (h.list i)

  unfoldable pub sift_up : ℕ → StHeapList → ℕ → StHeapList
  sift_up zero h pos = h
  sift_up (suc fuel) h pos =
      let rest = sift_up fuel (swap h pos (pos / 2)) (pos / 2) in
      if ltb 1 pos then (if leb (key h (pos / 2)) (key h pos) then h else rest) else h

  -- the smallest of `pos` and its children
  unfoldable pub best : StHeapList → ℕ → ℕ
  best h pos =
      let lchild = 2 * pos in
      let rchild = 2 * pos + 1 in
      let b = if leb lchild h.count && ltb (key h lchild) (key h pos) then lchild else pos in
      if leb rchild h.count && ltb (key h rchild) (key h b) then rchild else b

  unfoldable pub sift_down : ℕ → StHeapList → ℕ → StHeapList
  sift_down zero h pos = h
  sift_down (suc fuel) h pos =
      let b = best h pos in
      let rest = sift_down fuel (swap h pos b) b in if b == pos then h else rest

  unfoldable pub heap_push : StHeapList → ℕ → Status × StHeapList
  heap_push h entry =
      let n = h.count + 1 in
      let grown = record h {
        list = update h.list n entry;
        index = update h.index entry n;
        count = n;
      } in
      let pushed = sift_up n grown n in
      if heap_full h
      then (minus_one, h)
      else (if h.index entry == 0 then (done, pushed) else (minus_two, h))

  unfoldable pub heap_pop : StHeapList → ℕ × StHeapList
  heap_pop h =
      let top = h.list 1 in
      let rest = cut_last (swap h 1 h.count) top in
      let sifted = sift_down rest.count rest 1 in
      if heap_empty h then (0, h) else (top, if ltb 0 rest.count then sifted else rest)

  -- the branch of HeapDelete that moves the last node to the place of the deleted one
  unfoldable pub replace : StHeapList → ℕ → StHeapList
  replace h pos =
      let node = h.list pos in
      let filled = record h {
        list = update (update h.list pos (h.list h.count)) h.count 0;
        index = update (update h.index (h.list h.count) pos) node 0;
        count = h.count - 1;
      } in
      let up = sift_up pos filled pos in
      let down = sift_down filled.count filled pos in
      if ltb 1 pos && ltb (key filled pos) (key filled (pos / 2)) then up else down

  unfoldable pub heap_delete : StHeapList → ℕ → Status × StHeapList
  heap_delete h entry =
      let pos = h.index entry in
      let moved = replace h pos in
      if heap_empty h
      then (minus_one, h)
      else (if ltb h.count pos || pos == 0
          then (minus_two, h)
          else (if pos == h.count then (done, cut_last h (h.list pos)) else (done, moved)))

-- `stored` is the outcome of realloc
unfoldable pub heap_resize : StHeapList → ℕ → Bool → Bool × StHeapList
heap_resize h size stored =
    if leb size h.max
    then (true, h)
    else (if stored then (true, record h { max = size }) else (false, h))

-- calloc zeroes the array; `index` is that of nodes in no heap
unfoldable pub new_heap : ℕ → StHeapList
new_heap max = record {
  list = λ _. 0;
  index = λ _. 0;
  count = 0;
  max = if ltb 512 max then max else 512;
}
