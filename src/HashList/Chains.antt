-- ===== src/HashList/Chains.antt =====
-- stlib/st_hash_list.h: a chain of items is the list of them.
use sthread.Prelude.{
  ℕ, ◌≤◌, ◌<◌, ◌≡◌, ◌≢◌, inl, inr, refl, List, [], ◌∷◌, ◌++◌, count, count-append, true, false,
  ◌==◌, update, Bool-cases, arith,
}

-- from `a` on the next pointers go through the items of the list, and end
abbrev pub Chain : (ℕ → ℕ) → ℕ → List ℕ → Type 0
Chain next a [] = a ≡ 0
Chain next a (x ∷ xs) = (a ≡ x) × (x ≢ 0) × Chain next (next x) xs

-- a write to an item that is not in a chain
pub Chain-update :
    (next : ℕ → ℕ) (k v a : ℕ) (xs : List ℕ)
    → count k xs ≡ 0
    → Chain next a xs
    → Chain (update next k v) a xs
unfolding count
Chain-update next k v a [] n h = h
Chain-update next k v a (x ∷ xs) n h = elim (Bool-cases (k == x)) [
  | inl y ↦ absurd (ground (arith, n, y))
  | inr m ↦ (h.0, h.1, rw m (Chain-update next k v (next x) xs (ground (arith, n, m)) h.2))
]

unfoldable pub last_or : ℕ → List ℕ → ℕ
last_or d [] = d
last_or d (x ∷ xs) = last_or x xs

pub last_or-count : (x : ℕ) (xs : List ℕ) → 0 < count (last_or x xs) (x ∷ xs)
unfolding count last_or
last_or-count x [] = ground arith
last_or-count x (y ∷ xs) = ground (arith, last_or-count y xs)

-- the item behind the last of p ∷ pre is taken out
pub Chain-splice :
    (next : ℕ → ℕ) (a p x : ℕ) (pre post : List ℕ)
    → ((y : ℕ) → count y (p ∷ (pre ++ x ∷ post)) ≤ 1)
    → Chain next a (p ∷ (pre ++ x ∷ post))
    → Chain (update (update next (last_or p pre) (next x)) x 0) a (p ∷ (pre ++ post))
unfolding count last_or
Chain-splice next a p x [] post u h =
    let away : (x == p) ≡ false = ground (arith, u p) in
    let here : (p == p) ≡ true = ground arith in
    (
      h.0,
      h.1,
      rw (away, here)
          (Chain-update (update next p (next x)) x 0 (next x) post (ground (arith, u x))
            (Chain-update next p (next x) (next x) post (ground (arith, u p)) h.2.2)),
    )
Chain-splice next a p x (q ∷ pre) post u h =
    let away : (x == p) ≡ false = ground (arith, u p, count-append p (q ∷ pre) (x ∷ post)) in
    let apart : (last_or q pre == p) ≡ false =
      ground (arith, u p, last_or-count q pre, count-append p (q ∷ pre) (x ∷ post)) in
    (
      h.0,
      h.1,
      rw (away, apart) (Chain-splice next (next p) q x pre post (λ y. ground (arith, u y)) h.2),
    )

pub last_or-snoc : (x d : ℕ) (xs : List ℕ) → last_or d (xs ++ x ∷ []) ≡ x
unfolding last_or
last_or-snoc x d [] = refl
last_or-snoc x d (y ∷ xs) = last_or-snoc x y xs
