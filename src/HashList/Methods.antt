-- ===== src/HashList/Methods.antt =====
-- stlib/st_hash_list.h: HashInsert, HashFind and HashRemove on the lists of the buckets.
use sthread.Prelude.{
  ℕ, zero, suc, ◌+◌, ◌%◌, ◌≤◌, ◌<◌, ◌≡◌, ◌≢◌, inl, inr, refl, sym, ap, ◌∙◌, List, [], ◌∷◌, length,
  count, Bool, true, false, not, ◌&&◌, ◌||◌, some, if◌then◌else◌, ◌==◌, update, Bool-cases, ==→eq,
  ==→ne, dec_lt, arith,
}
use sthread.HashList.{StHashList, new_hash_list, put_first, hash_insert, find_from, hash_find}
use sthread.HashList.Chains.{Chain, Chain-update}

-- the items of the first n buckets
unfoldable pub total : ℕ → (ℕ → List ℕ) → ℕ
total zero b = 0
total (suc n) b = total n b + length (b n)

total_beyond : (n i : ℕ) (v : List ℕ) (b : ℕ → List ℕ) → n ≤ i → total n (update b i v) ≡ total n b
unfolding total
total_beyond zero i v b h = refl
total_beyond (suc n) i v b h =
    let away : (i == n) ≡ false = ground arith in
    rw away (ap (λ k. k + length (b n)) (total_beyond n i v b (omega arith)))

pub total-update :
    (n i : ℕ) (v : List ℕ) (b : ℕ → List ℕ)
    → i < n
    → total n (update b i v) + length (b i) ≡ total n b + length v
unfolding total
total-update zero i v b h = absurd (omega arith)
total-update (suc n) i v b h = elim (Bool-cases (i == n)) [
  | inl y ↦
      let e = ==→eq i n y in
      rw y (omega (arith, total_beyond n i v b (omega (arith, e)), ap (λ k. length (b k)) e))
  | inr m ↦ rw m (omega (arith, total-update n i v b (ground (arith, m))))
]

total_nil : (n : ℕ) → total n (λ _. []) ≡ 0
unfolding total
total_nil zero = refl
total_nil (suc n) = omega (arith, total_nil n)

module _ (hash_value : ℕ → ℕ) (equal : ℕ → ℕ → Bool) where
  -- each bucket's chain is a list without repetitions of the keys whose hash value falls there, and
  -- the count is that of all keys
  pub record IsValid (s : StHashList) (b : ℕ → List ℕ) : Type 0 where
    pub sized : 0 < s.max
    pub chained : (i : ℕ) → Chain s.next (s.buckets i) (b i)
    pub filed :
        (i y : ℕ) → 0 < count y (b i) → (s.hash y ≡ hash_value y) × (hash_value y % s.max ≡ i)
    pub unique : (i y : ℕ) → count y (b i) ≤ 1
    pub counted : s.count ≡ total s.max b

  pub new_hash_list-IsValid : (max : ℕ) → 0 < max → IsValid (new_hash_list max) (λ _. [])
  unfolding new_hash_list count
  new_hash_list-IsValid max h = record {
    sized = h;
    chained = λ i. refl;
    filed = λ i y c. absurd (omega arith);
    unique = λ i y. omega arith;
    counted = sym (total_nil max);
  }

  -- the bucket of a key
  abbrev pub place : ℕ → StHashList → ℕ
  place key s = hash_value key % s.max

  -- refused and unchanged, or put before the others of its bucket
  pub Inserted : ℕ → StHashList → (ℕ → List ℕ) → Bool × StHashList → Type 0
  Inserted key s b (false, s') = s' ≡ s
  Inserted key s b (true, s') = IsValid s' (update b (place key s) (key ∷ b (place key s)))

  put_first-filed :
      (key : ℕ) (s : StHashList) (b : ℕ → List ℕ)
      → IsValid s b
      → ((i : ℕ) → count key (b i) ≡ 0)
      → (j y : ℕ) → 0 < count y (update b (place key s) (key ∷ b (place key s)) j)
      → (update s.hash key (hash_value key) y ≡ hash_value y) × (hash_value y % s.max ≡ j)
  unfolding count
  put_first-filed key s b v out j y h = elim (Bool-cases (key == y)) [
    | inl e ↦ elim (Bool-cases (place key s == j)) [
      | inl a ↦ rw e (
        ap hash_value (==→eq key y e),
        ap (λ k. hash_value k % s.max) (sym (==→eq key y e)) ∙ ==→eq (place key s) j a,
      )
      | inr a ↦ absurd (ground (arith, h, a, out j, ap (λ k. count k (b j)) (==→eq key y e)))
    ]
    | inr m ↦ elim (Bool-cases (place key s == j)) [
      | inl a ↦
          let old = v.filed (place key s) y (ground (arith, h, a, m)) in
          rw m (old.0, old.1 ∙ ==→eq (place key s) j a)
      | inr a ↦ rw m (v.filed j y (ground (arith, h, a)))
    ]
  ]

  put_first_unique :
      (key : ℕ) (s : StHashList) (b : ℕ → List ℕ)
      → IsValid s b
      → ((i : ℕ) → count key (b i) ≡ 0)
      → (j y : ℕ) → count y (update b (place key s) (key ∷ b (place key s)) j) ≤ 1
  unfolding count
  put_first_unique key s b v out j y = elim (Bool-cases (place key s == j)) [
    | inl a ↦ elim (Bool-cases (y == key)) [
      | inl e ↦
          rw (a, e)
            (omega (arith, ap (λ k. count k (b (place key s))) (==→eq y key e), out (place key s)))
      | inr m ↦ rw (a, m) (omega (arith, v.unique (place key s) y))
    ]
    | inr a ↦ rw a (v.unique j y)
  ]

  pub put_first-IsValid :
      (key : ℕ) (s : StHashList) (b : ℕ → List ℕ)
      → IsValid s b
      → key ≢ 0
      → ((i : ℕ) → count key (b i) ≡ 0)
      → IsValid (put_first hash_value equal key s) (update b (place key s) (key ∷ b (place key s)))
  unfolding count
  put_first-IsValid key s b v k out =
      let i = place key s in
      let here : (key == key) ≡ true = ground arith in
      let small : i < s.max = omega (arith, v.sized) in
      record {
        sized = v.sized;
        chained = λ j. elim (Bool-cases (i == j)) [
          | inl y ↦ rw y (
            refl,
            k,
            rw here
                (Chain-update s.next key (s.buckets i) (s.buckets i) (b i) (out i) (v.chained i)),
          )
          | inr m ↦
              rw m (Chain-update s.next key (s.buckets i) (s.buckets j) (b j) (out j) (v.chained j))
        ];
        filed = λ j y h. put_first-filed key s b v out j y h;
        unique = λ j y. put_first_unique key s b v out j y;
        counted = omega (arith, v.counted, total-update s.max i (key ∷ b i) b small);
      }

  -- A key on a well-formed list whose buckets hold the keys that b says; if HashValue gives 0 for it,
  -- it is in no bucket. HashInsert either fails and changes nothing, or puts the key before the others
  -- of its bucket, and the list is then well formed with just that key more.
  pub hash_insert-Inserted :
      (key : ℕ) (s : StHashList) (b : ℕ → List ℕ)
      → IsValid s b
      → (hash_value key ≡ 0 → (i : ℕ) → count key (b i) ≡ 0)
      → Inserted key s b (hash_insert hash_value equal key s)
  unfolding hash_insert Inserted
  hash_insert-Inserted key s b v fresh = elim (Bool-cases (key == 0)) [
    | inl y ↦ rw y refl
    | inr n ↦ elim (Bool-cases (not (s.hash key == 0) || not (s.next key == 0))) [
      | inl y ↦ rw (n, y) refl
      | inr m ↦
          rw (n, m)
            (put_first-IsValid key s b v (==→ne key 0 n) (λ i. elim (dec_lt 0 (count key (b i))) [
              | yes c ↦ fresh (sym (v.filed i key c).0 ∙ ground (arith, m)) i
              | no c ↦ omega arith
            ]))
    ]
  ]

  -- the first key of a list that matches, or NULL
  unfoldable pub first_match : ℕ → List ℕ → ℕ
  first_match key [] = 0
  first_match key (x ∷ xs) =
      if hash_value x == hash_value key && equal x key then x else first_match key xs

  find_from-first_match :
      (xs : List ℕ) (fuel key : ℕ) (s : StHashList) (a : ℕ)
      → length xs < fuel
      → Chain s.next a xs
      → ((y : ℕ) → 0 < count y xs → s.hash y ≡ hash_value y)
      → find_from hash_value equal fuel key s a ≡ some (first_match key xs)
  unfolding find_from first_match count
  find_from-first_match xs zero key s a f c h = absurd (omega arith)
  find_from-first_match [] (suc fuel) key s a f c h = rw c refl
  find_from-first_match (x ∷ xs) (suc fuel) key s a f c h =
      let n : (x == 0) ≡ false = ground (arith, c.1) in
      let known : s.hash x ≡ hash_value x = h x (ground arith) in
      let later =
        find_from-first_match xs fuel key s (s.next x) (omega arith) c.2
          (λ y p. h y (ground arith)) in
      rw (c.0, n, known, later) (ground arith)

  -- On a well-formed list, with more fuel than the key's bucket has items, HashFind ends: a NULL key gives NULL, and any other
  -- the first key of its bucket with the same hash value that HashCmp takes for equal, or NULL when
  -- there is none. No key of another bucket has that hash value.
  pub hash_find-first_match :
      (fuel key : ℕ) (s : StHashList) (b : ℕ → List ℕ)
      → IsValid s b
      → length (b (place key s)) < fuel
      → (hash_find hash_value equal fuel key s
          ≡ some (if key == 0 then 0 else first_match key (b (place key s))))
        × ((i y : ℕ) → i ≢ place key s → 0 < count y (b i) → hash_value y ≢ hash_value key)
  unfolding hash_find
  hash_find-first_match fuel key s b v f =
      let i = place key s in
      let found =
        find_from-first_match (b i) fuel key s (s.buckets i) f (v.chained i)
          (λ y p. (v.filed i y p).0) in
      (
        elim (Bool-cases (key == 0)) [ inl y ↦ rw y refl | inr n ↦ rw n found ],
        λ j y n c e. n (sym (v.filed j y c).1 ∙ ap (λ k. k % s.max) e),
      )
