-- ===== src/HashList/Remove.antt =====
-- stlib/st_hash_list.h: HashRemove takes the key out that HashFind finds.
use mathlib.Core.List.{append_assoc}
use mathlib.Core.Path.{subst}
use sthread.Prelude.{
  ℕ, zero, suc, ◌+◌, ◌%◌, ◌≤◌, ◌<◌, ◌≡◌, ◌≢◌, inl, inr, refl, sym, ap, ◌∙◌, List, [], ◌∷◌, ◌++◌,
  length, length-append, count, count-append, erase, Bool, true, false, ◌&&◌, Option, none, some,
  if◌then◌else◌, ◌==◌, update, Bool-cases, ==→eq, ==→ne, ne→==, dec_lt, arith,
}
use sthread.HashList.{StHashList, unlink, remove_from, hash_remove}
use sthread.HashList.Chains.{
  Chain, Chain-update, Chain-splice, last_or, last_or-count, last_or-snoc,
}
use sthread.HashList.Methods.{total-update, IsValid, place, first_match}

-- the item before the rest of a chain, or NULL
pub prev_of : List ℕ → ℕ
prev_of [] = 0
prev_of (p ∷ pre) = last_or p pre

prev_of-snoc : (x : ℕ) (pre : List ℕ) → prev_of (pre ++ x ∷ []) ≡ x
unfolding prev_of last_or
prev_of-snoc x [] = refl
prev_of-snoc x (p ∷ pre) = last_or-snoc x p pre

Chain-nonzero : (next : ℕ → ℕ) (a y : ℕ) (xs : List ℕ) → Chain next a xs → 0 < count y xs → y ≢ 0
unfolding count
Chain-nonzero next a y [] h c = absurd (omega arith)
Chain-nonzero next a y (x ∷ xs) h c = elim (Bool-cases (y == x)) [
  | inl e ↦ λ z. h.1 (sym (==→eq y x e) ∙ z)
  | inr m ↦ Chain-nonzero next (next x) y xs h.2 (ground (arith, c, m))
]

erase-append :
    (x : ℕ) (pre post : List ℕ) → count x pre ≡ 0 → erase x (pre ++ x ∷ post) ≡ pre ++ post
unfolding erase count
erase-append x [] post h = ground arith
erase-append x (y ∷ pre) post h = ground (arith, erase-append x pre post)

prev_of-count : (p : ℕ) (pre post : List ℕ) → 0 < count (last_or p pre) ((p ∷ pre) ++ post)
prev_of-count p pre post =
    omega (arith, last_or-count p pre, count-append (last_or p pre) (p ∷ pre) post)

module _ (hash_value : ℕ → ℕ) (equal : ℕ → ℕ → Bool) where
  -- a key is in one bucket only
  one_bucket :
      (s : StHashList) (b : ℕ → List ℕ)
      → IsValid hash_value equal s b
      → (i j y : ℕ) → 0 < count y (b i)
      → (i == j) ≡ false
      → count y (b j) ≡ 0
  one_bucket s b v i j y c n = elim (dec_lt 0 (count y (b j))) [
    | yes d ↦ absurd (==→ne i j n (sym (v.filed i y c).1 ∙ (v.filed j y d).1))
    | no d ↦ omega arith
  ]

  module _ (s : StHashList) (b : ℕ → List ℕ) (v : IsValid hash_value equal s b) (i x : ℕ)
      (pre post : List ℕ) (q : b i ≡ pre ++ x ∷ post) where
    counts : (y : ℕ) → count y (b i) ≡ count y (pre ++ post) + (if y == x then 1 else 0)
    unfolding count
    counts y =
        ap (count y) q ∙ omega (arith, count-append y pre (x ∷ post), count-append y pre post)

    member : 0 < count x (b i)
    member = ground (arith, counts x)

    removed_once : count x (pre ++ post) ≡ 0
    removed_once = ground (arith, counts x, v.unique i x)

  unlink-chained :
      (s : StHashList) (b : ℕ → List ℕ) (v : IsValid hash_value equal s b) (i x : ℕ)
      (pre post : List ℕ) (q : b i ≡ pre ++ x ∷ post) (j : ℕ)
      → Chain
          (unlink hash_value equal i (prev_of pre) x s).next
          ((unlink hash_value equal i (prev_of pre) x s).buckets j)
          (update b i (pre ++ post) j)
  unfolding unlink prev_of
  unlink-chained s b v i x [] post q j =
      let whole : Chain s.next (s.buckets i) (x ∷ post) =
        subst (Chain s.next (s.buckets i)) q (v.chained i) in
      elim (Bool-cases (i == j)) [
        | inl y ↦
            rw y
              (Chain-update s.next x 0 (s.next x) post (removed_once s b v i x [] post q) whole.2)
        | inr m ↦ rw m (
            Chain-update s.next x 0 (s.buckets j) (b j)
              (one_bucket s b v i j x (member s b v i x [] post q) m) (v.chained j))
      ]
  unlink-chained s b v i x (p ∷ pre) post q j =
      let whole : Chain s.next (s.buckets i) (p ∷ (pre ++ x ∷ post)) =
        subst (Chain s.next (s.buckets i)) q (v.chained i) in
      let here : 0 < count (last_or p pre) (b i) = rw q (prev_of-count p pre (x ∷ post)) in
      let some_prev : (last_or p pre == 0) ≡ false =
        ne→== (last_or p pre) 0
          (Chain-nonzero s.next (s.buckets i) (last_or p pre) (b i) (v.chained i) here) in
      rw some_prev (elim (Bool-cases (i == j)) [
        | inl y ↦
            let a : s.buckets j ≡ s.buckets i = ap s.buckets (sym (==→eq i j y)) in
            rw (y, a)
              (Chain-splice s.next (s.buckets i) p x pre post
                (λ k. subst (λ l. count k l ≤ 1) q (v.unique i k)) whole)
        | inr m ↦ rw m (
            Chain-update _ x 0 (s.buckets j) (b j)
              (one_bucket s b v i j x (member s b v i x (p ∷ pre) post q) m)
              (Chain-update s.next (last_or p pre) (s.next x) (s.buckets j) (b j)
                (one_bucket s b v i j (last_or p pre) here m) (v.chained j)))
      ])

  unlink-filed :
      (s : StHashList) (b : ℕ → List ℕ) (v : IsValid hash_value equal s b) (i x : ℕ)
      (pre post : List ℕ) (q : b i ≡ pre ++ x ∷ post) (j y : ℕ)
      → 0 < count y (update b i (pre ++ post) j)
      → (update s.hash x 0 y ≡ hash_value y) × (hash_value y % s.max ≡ j)
  unlink-filed s b v i x pre post q j y h = elim (Bool-cases (i == j)) [
    | inl a ↦
        let c : 0 < count y (pre ++ post) = ground (arith, h, a) in
        let m : (x == y) ≡ false = ne→== x y (λ e. absurd (
          omega
            (arith, c, removed_once s b v i x pre post q, ap (λ k. count k (pre ++ post)) e))) in
        let old = v.filed i y (omega (arith, c, counts s b v i x pre post q y)) in
        rw m (old.0, old.1 ∙ ==→eq i j a)
    | inr a ↦
        let c : 0 < count y (b j) = ground (arith, h, a) in
        let m : (x == y) ≡ false = ne→== x y (λ e. absurd (
          omega (
            arith,
            c,
            one_bucket s b v i j x (member s b v i x pre post q) a,
            ap (λ k. count k (b j)) e,
          ))) in
        rw m (v.filed j y c)
  ]

  unlink-IsValid :
      (s : StHashList) (b : ℕ → List ℕ) (v : IsValid hash_value equal s b) (i x : ℕ)
      (pre post : List ℕ) (q : b i ≡ pre ++ x ∷ post)
      → i < s.max
      → IsValid hash_value equal
          (unlink hash_value equal i (prev_of pre) x s)
          (update b i (pre ++ post))
  unfolding unlink
  unlink-IsValid s b v i x pre post q small = record {
    sized = v.sized;
    chained = unlink-chained s b v i x pre post q;
    filed = unlink-filed s b v i x pre post q;
    unique = λ j y. elim (Bool-cases (i == j)) [
      | inl a ↦ rw a (omega (arith, counts s b v i x pre post q y, v.unique i y))
      | inr a ↦ rw a (v.unique j y)
    ];
    counted = omega (
      arith,
      v.counted,
      total-update s.max i (pre ++ post) b small,
      ap length q,
      length-append pre (x ∷ post),
      length-append pre post,
    );
  }

  -- nothing was found, or the found key is out of its bucket and can be inserted again
  pub Removed : ℕ → StHashList → (ℕ → List ℕ) → ℕ → Option (ℕ × StHashList) → Type 0
  Removed key s b found none = ⊥
  Removed key s b found (some (r, s')) =
      (r ≡ found)
      × (if r == 0
          then s' ≡ s
          else ((s'.hash r ≡ 0)
              × (s'.next r ≡ 0)
              × IsValid hash_value equal s' (
                  update b (place hash_value equal key s)
                    (erase r (b (place hash_value equal key s))))))

  unlink-cleared :
      (s : StHashList) (i prev x : ℕ)
      → ((unlink hash_value equal i prev x s).hash x ≡ 0)
        × ((unlink hash_value equal i prev x s).next x ≡ 0)
  unfolding unlink
  unlink-cleared s i prev x = let here : (x == x) ≡ true = ground arith in rw here (refl, refl)

  remove_from-Removed :
      (post pre : List ℕ) (fuel key a : ℕ) (s : StHashList) (b : ℕ → List ℕ)
      → IsValid hash_value equal s b
      → length post < fuel
      → Chain s.next a post
      → b (place hash_value equal key s) ≡ pre ++ post
      → Removed key s b
          (first_match hash_value equal key post)
          (remove_from hash_value equal fuel key s (prev_of pre) a)
  unfolding remove_from Removed first_match
  remove_from-Removed post pre zero key a s b v f c q = absurd (omega arith)
  remove_from-Removed [] pre (suc fuel) key a s b v f c q = rw c (refl, refl)
  remove_from-Removed (x ∷ post) pre (suc fuel) key a s b v f c q =
      let i = place hash_value equal key s in
      let n : (x == 0) ≡ false = ne→== x 0 c.1 in
      let known : s.hash x ≡ hash_value x = (v.filed i x (member s b v i x pre post q)).0 in
      rw (c.0, n, known)
        (elim (Bool-cases (hash_value x == hash_value key && equal x key)) [
          | inl y ↦
              let gone : erase x (b i) ≡ pre ++ post =
                ap (erase x) q
                ∙ erase-append x pre post
                    (omega (arith, removed_once s b v i x pre post q, count-append x pre post)) in
              rw (y, n)
                (
                  refl,
                  (
                    (unlink-cleared s i (prev_of pre) x).0,
                    (unlink-cleared s i (prev_of pre) x).1,
                    rw gone (unlink-IsValid s b v i x pre post q (omega (arith, v.sized))),
                  ),
                )
          | inr m ↦ rw m (
              subst
                (λ p.
                  Removed key s b (first_match hash_value equal key post)
                    (remove_from hash_value equal fuel key s p (s.next x)))
                (prev_of-snoc x pre)
                (remove_from-Removed post (pre ++ x ∷ []) fuel key (s.next x) s b v (omega arith)
                  c.2 (q ∙ sym (append_assoc pre (x ∷ []) post))))
        ])

  -- On a well-formed list, for a key that is not NULL and with more fuel than the key's bucket has
  -- items, HashRemove ends and returns the first key of the bucket that matches. If there is none the
  -- list is as it was; otherwise the list is well formed with the bucket less that key, whose hash
  -- value and next pointer are 0 again.
  pub hash_remove-Removed :
      (fuel key : ℕ) (s : StHashList) (b : ℕ → List ℕ)
      → IsValid hash_value equal s b
      → length (b (place hash_value equal key s)) < fuel
      → key ≢ 0
      → Removed key s b
          (first_match hash_value equal key (b (place hash_value equal key s)))
          (hash_remove hash_value equal fuel key s)
  unfolding hash_remove prev_of
  hash_remove-Removed fuel key s b v f k =
      let i = place hash_value equal key s in
      rw (ne→== key 0 k)
        (remove_from-Removed (b i) [] fuel key (s.buckets i) s b v f (v.chained i) refl)
