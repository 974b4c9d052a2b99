-- ===== src/Heap/Order.antt =====
-- stlib/st_heap.h: the heap order, and how SiftUp and SiftDown restore it.
use sthread.Prelude.{
  ℕ, suc, zero, ◌+◌, ◌*◌, ◌/◌, ◌≤◌, ◌<◌, ◌≡◌, ◌≢◌, ◌⊎◌, inl, inr, arith, lt→ltb, nlt→ltb, le→leb,
  nle→leb, eq→==, ne→==,
}
use native.Mathlib.Decide.{ℕ_discrete, dec_lt, dec_le}
use sthread.Heap.{StHeapList, swap, key, sift_up, sift_down, best}
use sthread.Heap.Place.{
  IsPlaced, Arranges, Arranges-refl, Arranges-trans, swap-IsPlaced, swap-Arranges,
}

module _ (value : ℕ → ℕ) where
  abbrev pub IsHeap : StHeapList → Type 0
  IsHeap h = (c : ℕ) → 1 < c → c ≤ h.count → key value h (c / 2) ≤ key value h c

  -- every edge but the one above `pos` is in order, and so are the ones past `pos`
  pub record UpInv (h : StHeapList) (pos : ℕ) : Type 0 where
    pub edges : (c : ℕ) → 1 < c → c ≤ h.count → c ≢ pos → key value h (c / 2) ≤ key value h c
    pub bridged :
        (c : ℕ)
        → 1 < c
        → c ≤ h.count
        → c / 2 ≡ pos
        → 1 < pos
        → key value h (pos / 2) ≤ key value h c

  -- every edge but the ones below `pos`
  pub record DownInv (h : StHeapList) (pos : ℕ) : Type 0 where
    pub edges : (c : ℕ) → 1 < c → c ≤ h.count → c / 2 ≢ pos → key value h (c / 2) ≤ key value h c
    pub bridged :
        (c : ℕ)
        → 1 < c
        → c ≤ h.count
        → c / 2 ≡ pos
        → 1 < pos
        → key value h (pos / 2) ≤ key value h c

  up_step :
      (h : StHeapList) (pos : ℕ)
      → UpInv h pos
      → 1 < pos
      → pos ≤ h.count
      → key value h pos < key value h (pos / 2)
      → UpInv (swap h pos (pos / 2)) (pos / 2)
  unfolding swap
  up_step h pos v p q lt = record {
    edges = λ c a b n. ground (arith, v.edges c, v.bridged c, v.edges (pos / 2));
    bridged = λ c a b e n. ground (arith, v.edges c, v.edges (pos / 2));
  }

  -- the outcome of a sift: the same nodes, placed, in heap order
  pub record Sifted (h h' : StHeapList) : Type 0 where
    pub arranged : Arranges h h'
    pub well_placed : IsPlaced h'
    pub ordered : IsHeap h'

  Sifted-after : {h h₁ h₂ : StHeapList} → Arranges h h₁ → Sifted h₁ h₂ → Sifted h h₂
  Sifted-after a s = record {
    arranged = Arranges-trans a s.arranged;
    well_placed = s.well_placed;
    ordered = s.ordered;
  }

  up_stop :
      (h : StHeapList) (pos : ℕ)
      → UpInv h pos
      → (1 < pos → key value h (pos / 2) ≤ key value h pos)
      → IsHeap h
  up_stop h pos v e c a b = elim (ℕ_discrete c pos) [
    | yes p ↦ rw p (e (omega arith))
    | no n ↦ v.edges c a b n
  ]

  pub sift_up-Sifted :
      (fuel : ℕ) (h : StHeapList) (pos : ℕ)
      → pos ≤ fuel
      → 0 < pos
      → pos ≤ h.count
      → IsPlaced h
      → UpInv h pos
      → Sifted h (sift_up value fuel h pos)
  unfolding sift_up
  sift_up-Sifted zero h pos f p q w v = absurd (omega arith)
  sift_up-Sifted (suc fuel) h pos f p q w v = elim (dec_lt 1 pos) [
    | yes big ↦ elim (dec_le (key value h (pos / 2)) (key value h pos)) [
      | yes le ↦
          rw (lt→ltb 1 pos big, le→leb _ _ le)
            (record {
              arranged = Arranges-refl h;
              well_placed = w;
              ordered = up_stop h pos v (λ _. le);
            })
      | no n ↦
          rw (lt→ltb 1 pos big, nle→leb _ _ n)
            (Sifted-after (swap-Arranges h w pos (pos / 2) p (omega arith) q (omega arith)) (
              sift_up-Sifted fuel (swap h pos (pos / 2)) (pos / 2) (omega arith) (omega arith)
                (unfold swap in omega arith)
                (swap-IsPlaced h w pos (pos / 2) p (omega arith) q (omega arith))
                (up_step h pos v big q (omega arith))))
    ]
    | no small ↦ rw (nlt→ltb 1 pos small) (record {
      arranged = Arranges-refl h;
      well_placed = w;
      ordered = up_stop h pos v (λ b. absurd (omega arith));
    })
  ]

  -- what the two tests of SiftDown choose
  record IsBest (h : StHeapList) (pos b : ℕ) : Type 0 where
    within : b ≤ h.count
    choice : (b ≡ pos) ⊎ (b / 2 ≡ pos) × (key value h b < key value h pos) × (0 < b)
    least : (c : ℕ) → 1 < c → c ≤ h.count → c / 2 ≡ pos → key value h b ≤ key value h c

  best-IsBest :
      (h : StHeapList) (pos : ℕ) → 0 < pos → pos ≤ h.count → IsBest h pos (best value h pos)
  unfolding best
  best-IsBest h pos p q = record {
    within = ground arith;
    choice = ground arith;
    least = λ c a b e.
        let two : (c ≡ 2 * pos) ⊎ (c ≡ 2 * pos + 1) = elim (ℕ_discrete c (2 * pos)) [
          | yes y ↦ inl y
          | no n ↦ inr (omega arith)
        ] in
        ground arith;
  }

  down_step :
      (h : StHeapList) (pos b : ℕ)
      → DownInv h pos
      → IsBest h pos b
      → b ≢ pos
      → 0 < pos
      → DownInv (swap h pos b) b
  unfolding swap
  down_step h pos b v s n p = record {
    edges = λ c x y e.
        ground (arith, v.edges c, v.bridged c, v.bridged b, s.within, s.choice, s.least c);
    bridged = λ c x y e z. ground (arith, v.edges c, s.choice, v.bridged c);
  }

  down_stop : (h : StHeapList) (pos : ℕ) → DownInv h pos → IsBest h pos pos → IsHeap h
  down_stop h pos v s c a b = elim (ℕ_discrete (c / 2) pos) [
    | yes p ↦ rw p (s.least c a b p)
    | no n ↦ v.edges c a b n
  ]

  pub sift_down-Sifted :
      (fuel : ℕ) (h : StHeapList) (pos : ℕ)
      → h.count < fuel + pos
      → 0 < pos
      → pos ≤ h.count
      → IsPlaced h
      → DownInv h pos
      → Sifted h (sift_down value fuel h pos)
  unfolding sift_down
  sift_down-Sifted zero h pos f p q w v = absurd (omega arith)
  sift_down-Sifted (suc fuel) h pos f p q w v =
      let s = best-IsBest h pos p q in
      let b = best value h pos in
      elim (ℕ_discrete b pos) [
        | yes e ↦ rw (eq→== b pos e) (record {
          arranged = Arranges-refl h;
          well_placed = w;
          ordered = down_stop h pos v (rw e at s);
        })
        | no n ↦
            let pb : 0 < b = ground (arith, s.choice) in
            rw (ne→== b pos n) (
              Sifted-after (swap-Arranges h w pos b p pb q s.within) (
                sift_down-Sifted fuel (swap h pos b) b (unfold swap in ground (arith, s.choice)) pb
                  (unfold swap in s.within) (swap-IsPlaced h w pos b p pb q s.within)
                  (down_step h pos b v s n p)))
      ]
