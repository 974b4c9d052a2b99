-- ===== src/Resp/Buffer.antt =====
-- app/st_redisclient/resp.cc: the parser's buffer, and what resp_parse keeps of the stream.
use mathlib.Core.List.{append-nil}
use sthread.Prelude.{
  ℕ, zero, suc, ◌+◌, ◌*◌, ◌≤◌, ◌<◌, ◌≡◌, ◌∙◌, ap, sym, drop_nil, refl, List, [], ◌∷◌, ◌++◌, length,
  length-append, length-drop, drop, Option, none, some, false, ◌⊎◌, inl, inr, if◌then◌else◌, ltb,
  leb, ◌==◌, Bool-cases, arith,
}
use sthread.Resp.{
  RespValue, Parsed, complete, incomplete, malformed, RespParser, parser_append, take_value,
  resp_parse, parse_one, Capacity, fits, too_big, out_of_fuel, grow, first_cap,
}
use sthread.Resp.Used.{Uses, parse_one-Uses}

-- a parser's room: none at the beginning, then for the bytes and a final null, in a power of two
-- from 256 to 2097152
unfoldable pub IsValid : RespParser → Type 0
IsValid p =
    ((p.buf ≡ []) × (p.cap ≡ 0)) ⊎ ((length p.buf + 1 ≤ p.cap) × (256 ≤ p.cap) × (p.cap ≤ 2097152))

-- room was found, or more than 1048576 bytes are needed
abbrev pub Room : ℕ → Capacity → Type 0
Room need (fits cap) = (need ≤ cap) × (256 ≤ cap) × (cap ≤ 2097152)
Room need too_big = 1048576 < need
Room need out_of_fuel = ⊥

-- the rounds that are left double the capacity past the limit
abbrev Rounds : ℕ → ℕ → Type 0
Rounds zero cap = 1048576 < cap
Rounds (suc fuel) cap = Rounds fuel (cap * 2)

grow-Room :
    (fuel need cap : ℕ)
    → 256 ≤ cap
    → cap ≤ 2097152
    → Rounds fuel cap
    → Room need (grow (suc fuel) need cap)
unfolding grow
grow-Room zero need cap a b r = ground (arith, r)
grow-Room (suc fuel) need cap a b r = elim (Bool-cases (leb need cap)) [
  | inl y ↦ rw y (ground (arith, y), a, b)
  | inr n ↦ elim (Bool-cases (ltb 1048576 cap)) [
    | inl y ↦ rw (n, y) (ground arith)
    | inr m ↦ rw (n, m) (grow-Room fuel need (cap * 2) (omega arith) (ground arith) r)
  ]
]

Rounds-enough : (cap : ℕ) → 256 ≤ cap → Rounds 20 cap
Rounds-enough cap h = omega arith

first_cap-IsValid :
    (p : RespParser) → IsValid p → (256 ≤ first_cap p.cap) × (first_cap p.cap ≤ 2097152)
unfolding IsValid
first_cap-IsValid p (inl e) = ground (arith, e.1)
first_cap-IsValid p (inr h) = ground (arith, h)

-- what parser_append did
pub Appended : RespParser → List ℕ → Option RespParser → Type 0
Appended p bytes none = 1048576 < length (p.buf ++ bytes) + 1
Appended p bytes (some p') = IsValid p' × (p'.buf ≡ p.buf ++ bytes)

capacity-Appended :
    (p : RespParser) (bytes : List ℕ) (c : Capacity)
    → Room (length p.buf + length bytes + 1) c
    → Appended p bytes (elim c [
      | fits cap ↦ some (record { buf = p.buf ++ bytes; cap = cap })
      | too_big ↦ none
      | out_of_fuel ↦ none
    ])
unfolding Appended IsValid
capacity-Appended p bytes (fits room) r =
    (inr (omega (arith, r.0, length-append p.buf bytes), r.1, r.2), refl)
capacity-Appended p bytes too_big r = omega (arith, r, length-append p.buf bytes)
capacity-Appended p bytes out_of_fuel r = absurd r

parser_append-Appended :
    (p : RespParser) (bytes : List ℕ) → IsValid p → Appended p bytes (parser_append p bytes)
unfolding parser_append Appended
parser_append-Appended p [] v = (v, sym (append-nil p.buf))
parser_append-Appended p (b ∷ bytes) v =
    let first = first_cap-IsValid p v in
    let some_byte : (length (b ∷ bytes) == 0) ≡ false = ground arith in
    rw some_byte (
      capacity-Appended p (b ∷ bytes) _ (
        grow-Room 20 (length p.buf + length (b ∷ bytes) + 1) (first_cap p.cap) first.0 first.1
          (Rounds-enough (first_cap p.cap) first.0)))

-- a value leaves the bytes behind it, of which there were enough; without one all bytes are kept
pub Fed : RespParser → List ℕ → Parsed RespValue → RespParser → Type 0
Fed p bytes (complete v u) p' =
    IsValid p' × (2 ≤ u) × (u ≤ length (p.buf ++ bytes)) × (p'.buf ≡ drop u (p.buf ++ bytes))
Fed p bytes incomplete p' = IsValid p' × (p'.buf ≡ p.buf ++ bytes)
Fed p bytes malformed p' =
    IsValid p' × ((p'.buf ≡ p.buf ++ bytes) ⊎ ((p' ≡ p) × (1048576 < length (p.buf ++ bytes) + 1)))

abbrev Feeds : RespParser → List ℕ → Parsed RespValue × RespParser → Type 0
Feeds p bytes x = Fed p bytes x.0 x.1

drop-IsValid : (p : RespParser) (u : ℕ) → IsValid p → IsValid (record p { buf = drop u p.buf })
unfolding IsValid
drop-IsValid p u (inl e) = inl (ap (drop u) e.0 ∙ drop_nil u, e.1)
drop-IsValid p u (inr h) = inr (omega (arith, h.0, length-drop u p.buf), h.1, h.2)

take_value-Fed :
    (p p' : RespParser) (bytes : List ℕ) (r : Parsed RespValue)
    → IsValid p'
    → p'.buf ≡ p.buf ++ bytes
    → Uses 2 (length p'.buf) r
    → Fed p bytes (take_value p' r).0 (take_value p' r).1
unfolding Fed
take_value-Fed p p' bytes (complete v u) a e h =
    (drop-IsValid p' u a, h.0, omega (arith, h.1, ap length e), ap (drop u) e)
take_value-Fed p p' bytes incomplete a e h = (a, e)
take_value-Fed p p' bytes malformed a e h = (a, inl e)

value_fed :
    (p : RespParser) (bytes : List ℕ) (o : Option RespParser)
    → IsValid p
    → Appended p bytes o
    → Feeds p bytes (elim o [
      | none ↦ (malformed, p)
      | some p' ↦
          if length p'.buf == 0 then (incomplete, p') else take_value p' (parse_one 5 p'.buf)
    ])
unfolding Appended Fed
value_fed p bytes none v a = (v, inr (refl, a))
value_fed p bytes (some p') v a = elim (Bool-cases (length p'.buf == 0)) [
  | inl y ↦ rw y a
  | inr n ↦ rw n (take_value-Fed p p' bytes (parse_one 5 p'.buf) a.0 a.1 (parse_one-Uses 5 p'.buf))
]

-- From a parser whose buffer has room for its bytes and the final null, resp_parse leaves such a
-- parser, and its capacity stays at or below 2097152. With the result 1 the value used at least two
-- of the bytes kept and given, and no more than there are, and exactly the bytes behind it are kept;
-- with 0 all the bytes are kept; with -1 too,
-- or the parser is as it was, and then they are more than 1048575.
pub resp_parse-Fed :
    (p : RespParser) (bytes : List ℕ)
    → IsValid p
    → Fed p bytes (resp_parse p bytes).0 (resp_parse p bytes).1
unfolding resp_parse
resp_parse-Fed p bytes v =
    value_fed p bytes (parser_append p bytes) v (parser_append-Appended p bytes v)
