-- ===== src/Proxy.antt =====
-- app/st_httpproxy/main.cpp: the reverse proxy. Text is a list of bytes; a backend is a number below
-- `g_nbackend`, and its slots are numbers below `g_slots`. Here is what the proxy reads of a request,
-- and how it picks a backend and a slot.
pub mod Pick
pub mod Slots
pub mod Headers
mod Tests
use sthread.Prelude.{
  ℕ, zero, suc, ◌+◌, ◌-◌, ◌%◌, ◌<◌, List, [], ◌∷◌, ◌++◌, length, drop, take, Bool, true, false, not,
  ◌&&◌, ◌||◌, Option, none, some, if◌then◌else◌, ltb, leb, ◌==◌, update, bytes_eq,
}
use sthread.Prelude.Int.{ℤ, pos, negsuc}
use sthread.Resp.{atoi, decimal}
use sthread.Http.{bytes, lower, crlf}

abbrev pub blank_line : List ℕ
blank_line = 13 ∷ 10 ∷ 13 ∷ 10 ∷ []

-- the bytes begin with the text
unfoldable pub starts : List ℕ → List ℕ → Bool
starts [] s = true
starts (t ∷ text) [] = false
starts (t ∷ text) (c ∷ s) = t == c && starts text s

-- find_headers_end from the offset `i` on; `none` is -1
unfoldable pub end_from : ℕ → List ℕ → Option ℕ
end_from i [] = none
end_from i (c ∷ s) =
    let rest = end_from (i + 1) s in if starts blank_line (c ∷ s) then some (i + 4) else rest

unfoldable pub find_headers_end : List ℕ → Option ℕ
find_headers_end s = end_from 0 s

-- the letters agree but for their case; the headers end with bytes that no name holds, so that what
-- stands behind the buffer does not matter
unfoldable pub header_name_is : List ℕ → List ℕ → Bool
header_name_is s [] = true
header_name_is [] (n ∷ name) = false
header_name_is (c ∷ s) (n ∷ name) = lower c == lower n && header_name_is s name

abbrev pub content_length : List ℕ
content_length = bytes "content-length:"

-- behind the end of the line that starts here, within the headers
unfoldable pub next_line : List ℕ → List ℕ
next_line [] = []
next_line (c ∷ []) = []
next_line (c ∷ d ∷ s) = let rest = next_line (d ∷ s) in if c == 13 && d == 10 then s else rest

-- header_content_length on the headers; `behind` is the rest of the buffer, and the fuel is their length
unfoldable pub length_in : ℕ → List ℕ → List ℕ → ℤ
length_in zero s behind = pos 0
length_in (suc fuel) s behind =
    let rest = length_in fuel (next_line s) behind in
    if ltb 1 (length s)
    then (if header_name_is (s ++ behind) content_length
        then atoi (drop 15 (s ++ behind))
        else rest)
    else pos 0

unfoldable pub header_content_length : List ℕ → ℕ → ℤ
header_content_length buf hend = length_in hend (take hend buf) (drop hend buf)

-- g_next, and alive and in_use of each backend
pub record Backends : Type 0 where
  pub next : ℕ
  pub alive : ℕ → Bool
  pub in_use : ℕ → ℕ → Bool

-- the first backend that is alive among the `left` ones from `start + i` on
unfoldable pub scan : (ℕ → Bool) → ℕ → ℕ → ℕ → ℕ → Option ℕ
scan alive n start i zero = none
scan alive n start i (suc left) =
    let idx = (start + i) % n in
    let rest = scan alive n start (i + 1) left in if alive idx then some idx else rest

unfoldable pub pick_backend : ℕ → Backends → Option ℕ × Backends
pick_backend n s =
    let start = if leb n s.next then 0 else s.next in
    if n == 0 then (none, s) else (scan s.alive n start 0 n, record s { next = (start + 1) % n })

-- one pass of the loop over the slots of a backend
unfoldable pub free_slot : (ℕ → Bool) → ℕ → ℕ → Option ℕ
free_slot used i zero = none
free_slot used i (suc left) =
    let rest = free_slot used (i + 1) left in if used i then rest else some i

unfoldable pub set_slot : ℕ → ℕ → Bool → Backends → Backends
set_slot be slot b s = record s { in_use = update s.in_use be (update (s.in_use be) slot b) }

abbrev pub took : ℕ → Option ℕ → Backends → Option ℕ × Backends
took be none s = (none, s)
took be (some slot) s = (some slot, set_slot be slot true s)

unfoldable pub take_slot : ℕ → ℕ → Backends → Option ℕ × Backends
take_slot slots be s = took be (free_slot (s.in_use be) 0 slots) s

-- after the exchange: the slot is free, and a backend that failed is not alive
unfoldable pub give_back : ℕ → ℕ → Bool → Backends → Backends
give_back be slot failed s =
    let s₁ = set_slot be slot false s in
    if failed then record s₁ { alive = update s₁.alive be false } else s₁

-- probe_backend, with the result and the status of its exchange
unfoldable pub probe_backend : ℕ → Bool → ℕ → Backends → Backends
probe_backend be ok status s = record s {
  alive = update s.alive be (ok && (leb 200 status && ltb status 300));
}

-- DoInput: the fields ready_ and overflow_ and the result
pub record Input : Type 0 where
  pub ready : Bool
  pub overflow : Bool
  pub used : ℕ

abbrev pub recv_buffsize : ℕ
recv_buffsize = 8192

abbrev pub input_of : Option ℕ → ℕ → Input
input_of none len =
    if leb recv_buffsize len
    then record { ready = true; overflow = true; used = len }
    else record { ready = false; overflow = false; used = 0 }
input_of (some hend) len = record { ready = true; overflow = false; used = hend }

unfoldable pub do_input : List ℕ → Input
do_input buf = input_of (find_headers_end buf) (length buf)

-- strchr for a space: the bytes before it and behind it
unfoldable pub until_space : List ℕ → Option (List ℕ × List ℕ)
until_space [] = none
until_space (c ∷ s) =
    let rest = until_space s in
    if c == 32
    then some ([], s)
    else (if c == 0 then none else elim rest [ none ↦ none | some p ↦ some (c ∷ p.0, p.1) ])

-- strchr for a slash, in a string without its null: the string from there on
unfoldable pub from_slash : List ℕ → List ℕ
from_slash [] = b'/' ∷ []
from_slash (c ∷ s) = let rest = from_slash s in if c == b'/' then c ∷ s else rest

-- the method, the path and the body that are sent on; `none` is the answer 400
pub record Forward : Type 0 where
  pub method : List ℕ
  pub path : List ℕ
  pub body_len : ℕ
  pub body : List ℕ

abbrev pub outside : ℕ → ℕ → Bool
outside n top = n == 0 || leb top n

-- the path of a URL; only paths and http are sent on
unfoldable pub local_path : List ℕ → Option (List ℕ)
local_path path =
    if starts (bytes "https://") path
    then none
    else (if starts (bytes "http://") path
        then some (from_slash (drop 7 path))
        else (if starts (bytes "/") path then some path else none))

-- Content-Length against what has come; a negative one is refused
unfoldable pub with_body : List ℕ → List ℕ → ℤ → List ℕ → Option Forward
with_body method path (pos n) body =
    if ltb (length body) n
    then none
    else some (record { method = method; path = path; body_len = n; body = body })
with_body method path (negsuc n) body = none

unfoldable pub with_path : List ℕ → List ℕ → ℕ → Option (List ℕ) → Option Forward
with_path buf method hend none = none
with_path buf method hend (some path) =
    with_body method path (header_content_length buf hend) (drop hend buf)

unfoldable pub with_target : List ℕ → List ℕ → ℕ → Option (List ℕ × List ℕ) → Option Forward
with_target buf method hend none = none
with_target buf method hend (some (target, rest)) =
    let sent = with_path buf method hend (local_path target) in
    if outside (length target) 1000
    then none
    else (if bytes_eq method (bytes "CONNECT") then none else sent)

unfoldable pub with_method : List ℕ → ℕ → Option (List ℕ × List ℕ) → Option Forward
with_method buf hend none = none
with_method buf hend (some (method, rest)) =
    let sent = with_target buf method hend (until_space rest) in
    if outside (length method) 16 then none else sent

-- forward, up to the choice of the backend
unfoldable pub read_request : List ℕ → Option Forward
read_request buf = elim (find_headers_end buf) [
  | none ↦ none
  | some hend ↦ with_method buf hend (until_space buf)
]

abbrev pub send_buffsize : ℕ
send_buffsize = 8192

abbrev pub reply_head : ℕ → List ℕ → ℕ → List ℕ
reply_head status reason n =
    bytes "HTTP/1.1 "
    ++ decimal status
    ++ bytes " "
    ++ reason
    ++ crlf
    ++ bytes "Content-Length: "
    ++ decimal n
    ++ crlf
    ++ bytes "Connection: close"
    ++ crlf
    ++ crlf

-- the bytes of `out_`
unfoldable pub reply : ℕ → List ℕ → List ℕ → List ℕ
reply status reason body =
    let head = reply_head status reason (length body) in
    if leb send_buffsize (length head + length body)
    then reply_head 502 (bytes "Bad Gateway") 0
    else head ++ body
