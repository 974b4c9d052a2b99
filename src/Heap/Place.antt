-- ===== src/Heap/Place.antt =====
-- stlib/st_heap.h: the index of a node is the place where the array holds it.
use sthread.Prelude.{ℕ, ◌≤◌, ◌<◌, ◌≡◌, ◌≢◌, ◌↔◌, arith}
use sthread.Heap.{StHeapList, swap}

pub record IsPlaced (h : StHeapList) : Type 0 where
  pub placed : (i : ℕ) → 0 < i → i ≤ h.count → (h.index (h.list i) ≡ i) × (h.list i ≢ 0)
  pub indexed : (p : ℕ) → h.index p ≢ 0 → (h.index p ≤ h.count) × (h.list (h.index p) ≡ p)
  pub bounded : h.count ≤ h.max

-- `h'` holds the nodes of `h`
pub record Arranges (h h' : StHeapList) : Type 0 where
  pub count_eq : h'.count ≡ h.count
  pub max_eq : h'.max ≡ h.max
  pub same : (p : ℕ) → (h'.index p ≡ 0) ↔ (h.index p ≡ 0)

pub Arranges-refl : (h : StHeapList) → Arranges h h
Arranges-refl h = ground arith

pub Arranges-trans : {h h' h'' : StHeapList} → Arranges h h' → Arranges h' h'' → Arranges h h''
Arranges-trans a b = record {
  count_eq = omega arith;
  max_eq = omega arith;
  same = λ p. (λ e. (a.same p).0 ((b.same p).0 e), λ e. (b.same p).1 ((a.same p).1 e));
}

module _ (h : StHeapList) (v : IsPlaced h) (i j : ℕ) (hi : 0 < i) (hj : 0 < j) (li : i ≤ h.count)
    (lj : j ≤ h.count) where
  pub swap-IsPlaced : IsPlaced (swap h i j)
  unfolding swap
  swap-IsPlaced = record {
    placed = λ k p q. ground (arith, v.placed i, v.placed j, v.placed k);
    indexed = λ p q. ground (arith, v.placed i, v.placed j, v.indexed p);
    bounded = v.bounded;
  }

  pub swap-Arranges : Arranges h (swap h i j)
  unfolding swap
  swap-Arranges = record {
    count_eq = ground arith;
    max_eq = ground arith;
    same = λ p. ground (arith, v.placed i, v.placed j);
  }
