-- ===== src/HashList/Cycle.antt =====
-- stlib/st_hash_list.h: a key whose hash value is 0, inserted twice.
use sthread.Prelude.{
  ℕ, zero, suc, ◌%◌, ◌≡◌, ◌≢◌, refl, sym, ap, ◌∙◌, Bool, true, false, none, ◌==◌, ne→==, arith,
}
use sthread.HashList.{StHashList, put_first, hash_insert, find_from, hash_find}

module _ (hash_value : ℕ → ℕ) (equal : ℕ → ℕ → Bool) where
  loops :
      (fuel key other : ℕ) (s : StHashList)
      → other ≢ 0
      → s.next other ≡ other
      → equal other key ≡ false
      → find_from hash_value equal fuel key s other ≡ none
  unfolding find_from
  loops zero key other s n e d = refl
  loops (suc fuel) key other s n e d =
      rw (ne→== other 0 n, e, d, loops fuel key other s n e d) (ground arith)

  accepted :
      (key : ℕ) (s : StHashList)
      → key ≢ 0
      → s.hash key ≡ 0
      → s.next key ≡ 0
      → hash_insert hash_value equal key s ≡ (true, put_first hash_value equal key s)
  unfolding hash_insert
  accepted key s n h e = rw (ne→== key 0 n, h, e) refl

  -- A key with hash value 0 that was put into an empty bucket is accepted by HashInsert a second time.
  -- Then HashFind of another key with hash value 0 that HashCmp does not take for equal never ends,
  -- whatever the fuel.
  pub hash_insert-cycle :
      (fuel other key : ℕ) (s : StHashList)
      → other ≢ 0
      → key ≢ 0
      → hash_value other ≡ 0
      → hash_value key ≡ 0
      → equal other key ≡ false
      → s.hash other ≡ 0
      → s.next other ≡ 0
      → s.buckets (hash_value other % s.max) ≡ 0
      → let twice = hash_insert hash_value equal other (hash_insert hash_value equal other s).1 in
        (twice.0 ≡ true) × (hash_find hash_value equal fuel key twice.1 ≡ none)
  unfolding hash_find
  hash_insert-cycle fuel other key s n k ho hk d h e a =
      let here : (other == other) ≡ true = ground arith in
      let place : (hash_value other % s.max == hash_value other % s.max) ≡ true = ground arith in
      let once = put_first hash_value equal other s in
      let twice = put_first hash_value equal other once in
      let first = accepted other s n h e in
      let emptied : once.next other ≡ 0 = rw here a in
      let zero_hash : once.hash other ≡ 0 = rw here ho in
      let second : hash_insert hash_value equal other (hash_insert hash_value equal other s).1
          ≡ (true, twice) =
        ap (λ r. hash_insert hash_value equal other r.1) first
        ∙ accepted other once n zero_hash emptied in
      let self : twice.next other ≡ other = rw (here, place) refl in
      let start : twice.buckets (hash_value key % s.max) ≡ other =
        ap (λ v. twice.buckets (v % s.max)) (hk ∙ sym ho) ∙ rw place refl in
      let endless : hash_find hash_value equal fuel key twice ≡ none = rw (ne→== key 0 k) (
        ap (find_from hash_value equal fuel key twice) start
        ∙ loops fuel key other twice n self d) in
      (ap (λ r. r.0) second, ap (λ r. hash_find hash_value equal fuel key r.1) second ∙ endless)
