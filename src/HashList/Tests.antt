-- ===== src/HashList/Tests.antt =====
-- stlib/st_hash_list.h: a list of seven buckets, and keys that are their own hash values.
use sthread.Prelude.{
  ℕ, ◌<◌, ◌≡◌, ◌≢◌, refl, List, [], ◌∷◌, count, Bool, some, if◌then◌else◌, ◌==◌, update, arith,
}
use sthread.HashList.{
  StHashList, new_hash_list, put_first, hash_insert, hash_find, hash_remove, find_from,
}
use sthread.HashList.Methods.{
  IsValid, new_hash_list-IsValid, put_first-IsValid, place, first_match, Inserted,
  hash_insert-Inserted, hash_find-first_match,
}
use sthread.HashList.Remove.{Removed, hash_remove-Removed}

abbrev own : ℕ → ℕ
own k = k

abbrev equal : ℕ → ℕ → Bool
equal a b = a == b

abbrev none_yet : ℕ → List ℕ
none_yet _ = []

-- the keys 15 and 8 share the bucket 1
abbrev one : StHashList
one = put_first own equal 8 (new_hash_list 7)

abbrev two : StHashList
two = put_first own equal 15 one

abbrev eight : ℕ → List ℕ
eight = update none_yet 1 (8 ∷ [])

abbrev both : ℕ → List ℕ
both = update eight 1 (15 ∷ 8 ∷ [])

eight_fresh : count 8 [] ≡ 0
unfolding count
eight_fresh = refl

one-IsValid : IsValid own equal one eight
unfolding new_hash_list
one-IsValid =
    put_first-IsValid own equal 8 (new_hash_list 7) none_yet
      (new_hash_list-IsValid own equal 7 (omega arith)) (omega arith) (λ i. eight_fresh)

eight-count : (i : ℕ) → count 15 (eight i) ≡ 0
unfolding count
eight-count i = ground arith

two-IsValid : IsValid own equal two both
unfolding new_hash_list
two-IsValid = put_first-IsValid own equal 15 one eight one-IsValid (omega arith) eight-count

found_second : hash_find own equal 3 8 two ≡ some 8
unfolding hash_find find_from new_hash_list
found_second = refl

hash_insert-Inserted_example : Inserted own equal 15 one eight (hash_insert own equal 15 one)
hash_insert-Inserted_example =
    hash_insert-Inserted own equal 15 one eight one-IsValid (λ e. absurd (omega arith))

hash_find-first_match_example :
    (hash_find own equal 9 8 two
      ≡ some (if 8 == 0 then 0 else first_match own equal 8 (both (place own equal 8 two))))
    × ((i y : ℕ) → i ≢ place own equal 8 two → 0 < count y (both i) → own y ≢ own 8)
unfolding new_hash_list
hash_find-first_match_example =
    hash_find-first_match own equal 9 8 two both two-IsValid (omega arith)

hash_remove-Removed_example :
    Removed own equal 8 two both
      (first_match own equal 8 (both (place own equal 8 two)))
      (hash_remove own equal 9 8 two)
unfolding new_hash_list
hash_remove-Removed_example =
    hash_remove-Removed own equal 9 8 two both two-IsValid (omega arith) (omega arith)

abbrev no_ports : ℕ → ℕ
no_ports _ = 0
