-- ===== src/Resp.antt =====
-- app/st_redisclient/resp.cc: the RESP codec of the Redis client. Text is a list of bytes, and a
-- parser's buffer the list of what it holds; memory does not run out. The numbers in a message fit
-- into an int, or into a long long for an integer value. An argument of resp_encode is a C string
-- without its null, and no pointer is NULL.
pub mod Used
pub mod Buffer
pub mod Spill
pub mod Print
pub mod RoundTrip
pub mod Prefix
mod Tests
use sthread.Prelude.{
  ℕ, zero, suc, ◌+◌, ◌-◌, ◌*◌, ◌/◌, ◌%◌, List, [], ◌∷◌, ◌++◌, length, take, drop, get_or, Bool,
  true, false, not, ◌&&◌, ◌||◌, Option, none, some, if◌then◌else◌, ltb, leb, ◌==◌,
}
use sthread.Prelude.Int.{ℤ, pos, negsuc, neg}

-- RespValue, by its type; a failed call leaves RESP_NONE
mutual
  pub data RespValue : Type 0 where
    resp_simple resp_error resp_bulk : List ℕ → RespValue
    resp_int : ℤ → RespValue
    resp_null : RespValue
    resp_array : Elems → RespValue

  pub data Elems : Type 0 where
    no_elems : Elems
    elem : RespValue → Elems → Elems

-- the results 1 with the value and the bytes used, 0 and -1
pub data Parsed (A : Type 0) : Type 0 where
  complete : A → ℕ → Parsed A
  incomplete malformed : Parsed A

-- isspace in the C locale, which atoi and strtoll skip
abbrev pub is_space : ℕ → Bool
is_space c = c == 32 || (leb 9 c && leb c 13)

abbrev pub is_digit : ℕ → Bool
is_digit c = leb b'0' c && leb c b'9'

unfoldable pub read_digits : ℕ → List ℕ → ℕ
read_digits acc [] = acc
read_digits acc (c ∷ s) = if is_digit c then read_digits (acc * 10 + (c - b'0')) s else acc

unfoldable pub skip_spaces : List ℕ → List ℕ
skip_spaces [] = []
skip_spaces (c ∷ s) = if is_space c then skip_spaces s else c ∷ s

-- the sign and the digits of a number
abbrev pub read_signed : List ℕ → ℤ
read_signed [] = pos 0
read_signed (c ∷ s) =
    if c == b'-'
    then neg (read_digits 0 s)
    else pos (read_digits 0 (if c == b'+' then s else c ∷ s))

-- atoi, and strtoll in base 10, on numbers that fit
unfoldable pub atoi : List ℕ → ℤ
atoi s = read_signed (skip_spaces s)

unfoldable pub find_crlf : List ℕ → Option ℕ
find_crlf [] = none
find_crlf (c ∷ []) = none
find_crlf (c ∷ d ∷ s) = elim (find_crlf (d ∷ s)) [
  | none ↦ if c == 13 && d == 10 then some 0 else none
  | some i ↦ some (if c == 13 && d == 10 then 0 else i + 1)
]

-- `type` makes the value of a simple string or an error
unfoldable pub parse_line_value : (List ℕ → RespValue) → List ℕ → Parsed RespValue
parse_line_value type s = elim (find_crlf s) [
  | none ↦ incomplete
  | some cr ↦ complete (type (take (cr - 1) (drop 1 s))) (cr + 2)
]

-- the same function for RESP_INT
unfoldable pub parse_int_value : List ℕ → Parsed RespValue
parse_int_value s = elim (find_crlf s) [
  | none ↦ incomplete
  | some cr ↦ complete (resp_int (atoi (drop 1 s))) (cr + 2)
]

abbrev pub resp_max_bulk : ℕ
resp_max_bulk = 1048576

abbrev pub resp_max_array : ℕ
resp_max_array = 32

-- the body of a bulk string of `blen` bytes from `body` on
unfoldable pub bulk_body : List ℕ → ℕ → ℕ → Parsed RespValue
bulk_body s body blen =
    if ltb (length s) (body + blen + 2)
    then incomplete
    else (if get_or s (body + blen) 0 == 13 && get_or s (body + blen + 1) 0 == 10
        then complete (resp_bulk (take blen (drop body s))) (body + blen + 2)
        else malformed)

unfoldable pub parse_bulk : List ℕ → Parsed RespValue
parse_bulk s = elim (find_crlf s) [
  | none ↦ incomplete
  | some cr ↦ elim (atoi (drop 1 s)) [
    | negsuc n ↦ if n == 0 then complete resp_null (cr + 2) else malformed
    | pos blen ↦ if ltb resp_max_bulk blen then malformed else bulk_body s (cr + 2) blen
  ]
]

-- an element is put before the others, whose bytes follow its own
abbrev pub put_elem : RespValue → Parsed Elems → Parsed Elems
put_elem v (complete vs end) = complete (elem v vs) end
put_elem v incomplete = incomplete
put_elem v malformed = malformed

-- the loop of parse_array, over the elements that are left; `one` is parse_one one level deeper
unfoldable pub parse_elems : (List ℕ → Parsed RespValue) → ℕ → List ℕ → ℕ → Parsed Elems
parse_elems one zero s p = complete no_elems p
parse_elems one (suc n) s p = elim (one (drop p s)) [
  | complete v u ↦ put_elem v (parse_elems one n s (p + u))
  | incomplete ↦ incomplete
  | malformed ↦ malformed
]

abbrev pub as_array : Parsed Elems → Parsed RespValue
as_array (complete vs u) = complete (resp_array vs) u
as_array incomplete = incomplete
as_array malformed = malformed

unfoldable pub parse_array : (List ℕ → Parsed RespValue) → List ℕ → Parsed RespValue
parse_array one s = elim (find_crlf s) [
  | none ↦ incomplete
  | some cr ↦ elim (atoi (drop 1 s)) [
    | negsuc n ↦ malformed
    | pos count ↦
        if ltb resp_max_array count then malformed else as_array (parse_elems one count s (cr + 2))
  ]
]

-- parse_one, with what to do on an array
unfoldable pub parse_kind : (List ℕ → Parsed RespValue) → List ℕ → Parsed RespValue
parse_kind array [] = incomplete
parse_kind array (c ∷ s) =
    if c == b'+'
    then parse_line_value resp_simple (c ∷ s)
    else (if c == b'-'
        then parse_line_value resp_error (c ∷ s)
        else (if c == b':'
            then parse_int_value (c ∷ s)
            else (if c == b'$'
                then parse_bulk (c ∷ s)
                else (if c == b'*' then array (c ∷ s) else malformed))))

-- parse_one at a depth of 5 less the levels left; too deep an array is malformed
unfoldable pub parse_one : ℕ → List ℕ → Parsed RespValue
parse_one zero s = parse_kind (λ _. malformed) s
parse_one (suc levels) s = parse_kind (parse_array (parse_one levels)) s

pub record RespParser : Type 0 where
  pub buf : List ℕ
  pub cap : ℕ

-- the doubling loop of parser_append: the new capacity, or -1; the last when the fuel runs out
pub data Capacity : Type 0 where
  fits : ℕ → Capacity
  too_big out_of_fuel : Capacity

unfoldable pub grow : ℕ → ℕ → ℕ → Capacity
grow zero need cap = if leb need cap then fits cap else out_of_fuel
grow (suc fuel) need cap =
    let rest = grow fuel need (cap * 2) in
    if leb need cap then fits cap else (if ltb 1048576 cap then too_big else rest)

abbrev pub first_cap : ℕ → ℕ
first_cap cap = if cap == 0 then 256 else cap

abbrev pub grow_rounds : ℕ
grow_rounds = 21

unfoldable pub parser_append : RespParser → List ℕ → Option RespParser
parser_append p bytes =
    if length bytes == 0
    then some p
    else elim (grow grow_rounds (length p.buf + length bytes + 1) (first_cap p.cap)) [
      | fits cap ↦ some (record { buf = p.buf ++ bytes; cap = cap })
      | too_big ↦ none
      | out_of_fuel ↦ none
    ]

-- resp_parse after the append
abbrev pub take_value : RespParser → Parsed RespValue → Parsed RespValue × RespParser
take_value p (complete v used) = (complete v used, record p { buf = drop used p.buf })
take_value p incomplete = (incomplete, p)
take_value p malformed = (malformed, p)

unfoldable pub resp_parse : RespParser → List ℕ → Parsed RespValue × RespParser
resp_parse p bytes = elim (parser_append p bytes) [
  | none ↦ (malformed, p)
  | some p' ↦ if length p'.buf == 0 then (incomplete, p') else take_value p' (parse_one 5 p'.buf)
]

-- %d of a number that is not negative
unfoldable pub decimal_loop : ℕ → ℕ → List ℕ
decimal_loop zero n = []
decimal_loop (suc fuel) n =
    if ltb n 10 then (b'0' + n) ∷ [] else decimal_loop fuel (n / 10) ++ (b'0' + n % 10) ∷ []

unfoldable pub decimal : ℕ → List ℕ
decimal n = decimal_loop (suc n) n

-- a type byte, a number and the end of the line, as snprintf writes them
abbrev pub number_line : ℕ → ℕ → List ℕ
number_line c n = c ∷ (decimal n ++ 13 ∷ 10 ∷ [])

-- the loop of resp_encode; `none` is -1
unfoldable pub encode_args : ℕ → List ℕ → List (List ℕ) → Option (List ℕ)
encode_args cap out [] = some out
encode_args cap out (arg ∷ args) =
    let out₁ = out ++ number_line b'$' (length arg) in
    let rest = encode_args cap (out₁ ++ (arg ++ 13 ∷ 10 ∷ [])) args in
    if leb cap (length out₁)
    then none
    else (if leb cap (length out₁ + length arg + 2) then none else rest)

unfoldable pub resp_encode : ℕ → List (List ℕ) → Option (List ℕ)
resp_encode cap argv =
    let head = number_line b'*' (length argv) in
    if cap == 0 || length argv == 0
    then none
    else (if leb cap (length head) then none else encode_args cap head argv)
