-- ===== src/Resp/Used.antt =====
-- app/st_redisclient/resp.cc: the bytes that a value uses.
use sthread.Prelude.{
  ℕ, zero, suc, ◌+◌, ◌≤◌, ◌≡◌, List, [], ◌∷◌, length, length-drop, drop, get_or, some, ◌&&◌, inl,
  inr, if◌then◌else◌, ltb, ◌==◌, Option-cases, Bool-cases, arith,
}
use sthread.Prelude.Int.{ℤ, pos, negsuc}
use sthread.Resp.{
  RespValue, Elems, resp_null, resp_simple, resp_error, Parsed, complete, incomplete, malformed,
  parse_one, parse_kind, parse_array, parse_elems, parse_bulk, parse_line_value, parse_int_value,
  bulk_body, put_elem, as_array, find_crlf, atoi, resp_max_bulk, resp_max_array,
}

-- a value uses at least `low` and at most `high` bytes
abbrev pub Uses : {A : Type 0} → ℕ → ℕ → Parsed A → Type 0
Uses low high (complete v u) = (low ≤ u) × (u ≤ high)
Uses low high incomplete = Unit
Uses low high malformed = Unit

find_crlf-within : (s : List ℕ) (i : ℕ) → find_crlf s ≡ some i → i + 2 ≤ length s
unfolding find_crlf
find_crlf-within [] i h = cc
find_crlf-within (c ∷ []) i h = cc
find_crlf-within (c ∷ d ∷ s) i h = elim (Option-cases (find_crlf (d ∷ s))) [
  | inl n ↦ ground (arith, n)
  | inr (j, y) ↦ ground (arith, y, find_crlf-within (d ∷ s) j y)
]

parse_line_value-Uses :
    (type : List ℕ → RespValue) (s : List ℕ) → Uses 2 (length s) (parse_line_value type s)
unfolding parse_line_value
parse_line_value-Uses type s = elim (Option-cases (find_crlf s)) [
  | inl n ↦ rw (n, parse_line_value) tt
  | inr (cr, y) ↦ rw (y, parse_line_value) (omega arith, find_crlf-within s cr y)
]

parse_int_value-Uses : (s : List ℕ) → Uses 2 (length s) (parse_int_value s)
unfolding parse_int_value
parse_int_value-Uses s = elim (Option-cases (find_crlf s)) [
  | inl n ↦ rw (n, parse_int_value) tt
  | inr (cr, y) ↦ rw (y, parse_int_value) (omega arith, find_crlf-within s cr y)
]

bulk_body-Uses : (s : List ℕ) (body blen : ℕ) → Uses 2 (length s) (bulk_body s body blen)
unfolding bulk_body
bulk_body-Uses s body blen = elim (Bool-cases (ltb (length s) (body + blen + 2))) [
  | inl y ↦ rw y tt
  | inr n ↦
      elim (Bool-cases (get_or s (body + blen) 0 == 13 && get_or s (body + blen + 1) 0 == 10)) [
        | inl y ↦ rw (n, y) (omega arith, ground (arith, n))
        | inr m ↦ rw (n, m) tt
      ]
]

bulk_length-Uses :
    (s : List ℕ) (cr : ℕ) (n : ℤ)
    → cr + 2 ≤ length s
    → Uses 2 (length s) (elim n [
      | negsuc k ↦ if k == 0 then complete resp_null (cr + 2) else malformed
      | pos blen ↦ if ltb resp_max_bulk blen then malformed else bulk_body s (cr + 2) blen
    ])
bulk_length-Uses s cr (negsuc k) h = elim (Bool-cases (k == 0)) [
  | inl y ↦ rw y (omega arith, h)
  | inr n ↦ rw n tt
]
bulk_length-Uses s cr (pos blen) h = elim (Bool-cases (ltb resp_max_bulk blen)) [
  | inl y ↦ rw y tt
  | inr n ↦ rw n (bulk_body-Uses s (cr + 2) blen)
]

parse_bulk-Uses : (s : List ℕ) → Uses 2 (length s) (parse_bulk s)
unfolding parse_bulk
parse_bulk-Uses s = elim (Option-cases (find_crlf s)) [
  | inl n ↦ rw (n, parse_bulk) tt
  | inr (cr, y) ↦
      rw (y, parse_bulk) (bulk_length-Uses s cr (atoi (drop 1 s)) (find_crlf-within s cr y))
]

put_elem-Uses :
    (v : RespValue) (r : Parsed Elems) (low high : ℕ)
    → Uses low high r
    → Uses low high (put_elem v r)
put_elem-Uses v (complete vs e) low high h = h
put_elem-Uses v incomplete low high h = tt
put_elem-Uses v malformed low high h = tt

lower-Uses :
    (r : Parsed Elems) (low low' high : ℕ) → low ≤ low' → Uses low' high r → Uses low high r
lower-Uses (complete vs e) low low' high a h = (omega (arith, h.0), h.1)
lower-Uses incomplete low low' high a h = tt
lower-Uses malformed low low' high a h = tt

as_array-Uses : (r : Parsed Elems) (low high : ℕ) → Uses low high r → Uses low high (as_array r)
as_array-Uses (complete vs e) low high h = h
as_array-Uses incomplete low high h = tt
as_array-Uses malformed low high h = tt

module _ (one : List ℕ → Parsed RespValue)
    (bounded : (s : List ℕ) → Uses 1 (length s) (one s)) where
  after_one-Uses :
      (r : Parsed RespValue) (n : ℕ) (s : List ℕ) (p : ℕ)
      → p ≤ length s
      → Uses 1 (length (drop p s)) r
      → ((q : ℕ) → q ≤ length s → Uses q (length s) (parse_elems one n s q))
      → Uses p (length s) (elim r [
        | complete v u ↦ put_elem v (parse_elems one n s (p + u))
        | incomplete ↦ incomplete
        | malformed ↦ malformed
      ])
  after_one-Uses (complete v u) n s p h a ih =
      let rest = parse_elems one n s (p + u) in
      put_elem-Uses v rest _ _
        (lower-Uses rest _ _ _ (omega arith) (ih (p + u) (omega (arith, h, a.1, length-drop p s))))
  after_one-Uses incomplete n s p h a ih = tt
  after_one-Uses malformed n s p h a ih = tt

  parse_elems-Uses :
      (n : ℕ) (s : List ℕ) (p : ℕ) → p ≤ length s → Uses p (length s) (parse_elems one n s p)
  unfolding parse_elems
  parse_elems-Uses zero s p h = (omega arith, h)
  parse_elems-Uses (suc n) s p h =
      after_one-Uses (one (drop p s)) n s p h (bounded (drop p s)) (λ q a. parse_elems-Uses n s q a)

  count-Uses :
      (s : List ℕ) (cr : ℕ) (n : ℤ)
      → cr + 2 ≤ length s
      → Uses 2 (length s) (elim n [
        | negsuc k ↦ malformed
        | pos count ↦
            if ltb resp_max_array count
            then malformed
            else as_array (parse_elems one count s (cr + 2))
      ])
  count-Uses s cr (negsuc k) h = tt
  count-Uses s cr (pos count) h = elim (Bool-cases (ltb resp_max_array count)) [
    | inl y ↦ rw y tt
    | inr n ↦ rw n (
        as_array-Uses (parse_elems one count s (cr + 2)) _ _ (
          lower-Uses (parse_elems one count s (cr + 2)) _ _ _ (omega arith)
            (parse_elems-Uses count s (cr + 2) h)))
  ]

  parse_array-Uses : (s : List ℕ) → Uses 2 (length s) (parse_array one s)
  unfolding parse_array
  parse_array-Uses s = elim (Option-cases (find_crlf s)) [
    | inl n ↦ rw (n, parse_array) tt
    | inr (cr, y) ↦
        rw (y, parse_array) (count-Uses s cr (atoi (drop 1 s)) (find_crlf-within s cr y))
  ]

parse_kind-Uses :
    (array : List ℕ → Parsed RespValue) (s : List ℕ)
    → Uses 2 (length s) (array s)
    → Uses 2 (length s) (parse_kind array s)
unfolding parse_kind
parse_kind-Uses array [] h = tt
parse_kind-Uses array (c ∷ s) h = elim (Bool-cases (c == b'+')) [
  | inl y ↦ rw y (parse_line_value-Uses resp_simple (c ∷ s))
  | inr n₁ ↦ elim (Bool-cases (c == b'-')) [
    | inl y ↦ rw (n₁, y) (parse_line_value-Uses resp_error (c ∷ s))
    | inr n₂ ↦ elim (Bool-cases (c == b':')) [
      | inl y ↦ rw (n₁, n₂, y) (parse_int_value-Uses (c ∷ s))
      | inr n₃ ↦ elim (Bool-cases (c == b'$')) [
        | inl y ↦ rw (n₁, n₂, n₃, y) (parse_bulk-Uses (c ∷ s))
        | inr n₄ ↦ elim (Bool-cases (c == b'*')) [
          | inl y ↦ rw (n₁, n₂, n₃, n₄, y) h
          | inr n₅ ↦ rw (n₁, n₂, n₃, n₄, n₅) tt
        ]
      ]
    ]
  ]
]

one-Uses : (r : Parsed RespValue) (high : ℕ) → Uses 2 high r → Uses 1 high r
one-Uses (complete v u) high h = (omega (arith, h.0), h.1)
one-Uses incomplete high h = tt
one-Uses malformed high h = tt

pub parse_one-Uses : (levels : ℕ) (s : List ℕ) → Uses 2 (length s) (parse_one levels s)
unfolding parse_one
parse_one-Uses zero s = parse_kind-Uses (λ _. malformed) s tt
parse_one-Uses (suc levels) s = parse_kind-Uses (parse_array (parse_one levels)) s (
    parse_array-Uses (parse_one levels)
      (λ t. one-Uses (parse_one levels t) _ (parse_one-Uses levels t)) s)
