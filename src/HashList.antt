-- ===== src/HashList.antt =====
-- stlib/st_hash_list.h: the hash table of open chains. A pointer is an address and NULL is 0; what
-- the keys' virtual HashValue and HashCmp give is a parameter. The buckets were allocated.
pub mod Chains
pub mod Methods
pub mod Remove
pub mod Cycle
mod Tests
use sthread.Prelude.{
  ℕ, zero, suc, ◌+◌, ◌-◌, ◌%◌, Bool, true, false, not, ◌&&◌, ◌||◌, Option, none, some,
  if◌then◌else◌, ◌==◌, update,
}

-- StHashKey's m_next_ptr_ and m_hash_value_, and the list's own fields
pub record StHashList : Type 0 where
  pub next : ℕ → ℕ
  pub hash : ℕ → ℕ
  pub buckets : ℕ → ℕ
  pub count : ℕ
  pub max : ℕ

-- StHashList(), with the prime that MaxPrimeNum gave; no key was in a list before
unfoldable pub new_hash_list : ℕ → StHashList
new_hash_list max = record { next = λ _. 0; hash = λ _. 0; buckets = λ _. 0; count = 0; max = max }

module _ (hash_value : ℕ → ℕ) (equal : ℕ → ℕ → Bool) where
  -- the list after a key was put before the first of its bucket
  abbrev pub put_first : ℕ → StHashList → StHashList
  put_first key s = record s {
    hash = update s.hash key (hash_value key);
    next = update s.next key (s.buckets (hash_value key % s.max));
    buckets = update s.buckets (hash_value key % s.max) key;
    count = s.count + 1;
  }

  -- the result 0 is true, ST_ERROR is false
  unfoldable pub hash_insert : ℕ → StHashList → Bool × StHashList
  hash_insert key s =
      if key == 0
      then (false, s)
      else (if not (s.hash key == 0) || not (s.next key == 0)
          then (false, s)
          else (true, put_first key s))

  -- the test of an item in HashFind and HashRemove
  abbrev pub matches : ℕ → StHashList → ℕ → Bool
  matches key s item = s.hash item == hash_value key && equal item key

  -- the loop of HashFind; `none` when the fuel runs out
  unfoldable pub find_from : ℕ → ℕ → StHashList → ℕ → Option ℕ
  find_from zero key s item = none
  find_from (suc fuel) key s item =
      let rest = find_from fuel key s (s.next item) in
      if item == 0 then some 0 else (if matches key s item then some item else rest)

  unfoldable pub hash_find : ℕ → ℕ → StHashList → Option ℕ
  hash_find fuel key s =
      if key == 0 then some 0 else find_from fuel key s (s.buckets (hash_value key % s.max))

  -- an item is taken out of its chain, behind `prev` or at the start of bucket `idx`
  unfoldable pub unlink : ℕ → ℕ → ℕ → StHashList → StHashList
  unlink idx prev item s = record s {
    next = update (if prev == 0 then s.next else update s.next prev (s.next item)) item 0;
    buckets = if prev == 0 then update s.buckets idx (s.next item) else s.buckets;
    hash = update s.hash item 0;
    count = s.count - 1;
  }

  -- the loop of HashRemove
  unfoldable pub remove_from : ℕ → ℕ → StHashList → ℕ → ℕ → Option (ℕ × StHashList)
  remove_from zero key s prev item = none
  remove_from (suc fuel) key s prev item =
      let rest = remove_from fuel key s item (s.next item) in
      if item == 0
      then some (0, s)
      else (if matches key s item
          then some (item, unlink (hash_value key % s.max) prev item s)
          else rest)

  unfoldable pub hash_remove : ℕ → ℕ → StHashList → Option (ℕ × StHashList)
  hash_remove fuel key s =
      if key == 0
      then some (0, s)
      else remove_from fuel key s 0 (s.buckets (hash_value key % s.max))
