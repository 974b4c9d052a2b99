-- ===== src/Dns.antt =====
-- app/st_dns/dns_proto.h: the codec of names and replies. A packet is a list of bytes, a C string the
-- list of its bytes before the NUL, and an offset a position in the packet. Pointers are not NULL.
pub mod Names
pub mod Encode
pub mod Decode
pub mod Reply
pub mod Zone
mod Tests
use Prim.Native.Nat.{bit_and, bit_or}
use sthread.Prelude.{
  ℕ, zero, suc, ◌+◌, ◌-◌, ◌*◌, List, [], ◌∷◌, ◌++◌, length, take, drop, get_elem?, get_or, Bool,
  true, false, not, ◌&&◌, ◌||◌, Option, none, some, if◌then◌else◌, ltb, leb, ◌==◌, bytes_eq,
  c_string,
}

abbrev dot : ℕ
dot = b'.'

-- the pieces between the dots, which the loop of st_dns_encode_qname finds by strchr
unfoldable pub labels : List ℕ → List (List ℕ)
labels [] = [] ∷ []
labels (c ∷ s) = elim (labels s) [
  | [] ↦ []
  | l ∷ ls ↦ if c == b'.' then [] ∷ l ∷ ls else (c ∷ l) ∷ ls
]

-- the terminator; `none` is -1
abbrev pub finish : ℕ → List ℕ → Option (List ℕ)
finish out_max out = if ltb out_max (length out + 1) then none else some (out ++ 0 ∷ [])

abbrev pub too_long : ℕ → List ℕ → List ℕ → Bool
too_long out_max out l =
    length l == 0 || ltb 63 (length l) || ltb out_max (length out + 1 + length l + 1)

-- the loop, over what is left of the name; a dot at its end ends it
unfoldable pub encode_labels : ℕ → List ℕ → List (List ℕ) → Option (List ℕ)
encode_labels out_max out [] = finish out_max out
encode_labels out_max out (l ∷ ls) =
    let out₁ = out ++ length l ∷ l in
    let rest = encode_labels out_max out₁ ls in
    if too_long out_max out l
    then none
    else elim ls [ [] ↦ finish out_max out₁ | [] ∷ [] ↦ finish out_max out₁ | other ↦ rest ]

unfoldable pub encode_qname : List ℕ → ℕ → Option (List ℕ)
encode_qname name out_max =
    if ltb out_max 2
    then none
    else elim name [ [] ↦ some (0 ∷ []) | c ∷ s ↦ encode_labels out_max [] (labels (c ∷ s)) ]

-- a label is put behind the name, after a dot if the name is not empty; `none` is -1
unfoldable pub push_label : ℕ → List ℕ → List ℕ → Option (List ℕ)
push_label name_max name l =
    let name₁ = if length name == 0 then name else name ++ b'.' ∷ [] in
    if not (length name == 0) && leb name_max (length name + 1)
    then none
    else (if leb name_max (length name₁ + length l) then none else some (name₁ ++ l))

-- the loop of st_dns_decode_qname, with what is left of its 128 hops: the next offset and the name
unfoldable pub decode_labels : ℕ → List ℕ → ℕ → List ℕ → ℕ → Option (ℕ × List ℕ)
decode_labels name_max pkt zero name off = none
decode_labels name_max pkt (suc hops) name off = elim (get_elem? pkt off) [
  | none ↦ none
  | some lab ↦
      let longer : Option (ℕ × List ℕ) =
        elim (push_label name_max name (take lab (drop (off + 1) pkt))) [
          | none ↦ none
          | some name₁ ↦ decode_labels name_max pkt hops name₁ (off + 1 + lab)
        ] in
      if lab == 0
      then some (off + 1, if length name == 0 then b'.' ∷ [] else name)
      else (if ltb 63 lab || ltb (length pkt) (off + 1 + lab) then none else longer)
]

unfoldable pub decode_qname : List ℕ → ℕ → ℕ → Option (ℕ × List ℕ)
decode_qname pkt off name_max =
    if ltb name_max 2 then none else decode_labels name_max pkt 128 [] off

abbrev pub bench_local : List ℕ
bench_local = b'.' ∷ b'b' ∷ b'e' ∷ b'n' ∷ b'c' ∷ b'h' ∷ b'.' ∷ b'l' ∷ b'o' ∷ b'c' ∷ b'a' ∷ b'l' ∷ []

abbrev pub bench_sthread_local : List ℕ
bench_sthread_local =
    b'.' ∷ b'b' ∷ b'e' ∷ b'n' ∷ b'c' ∷ b'h' ∷ b'.' ∷ b's' ∷ b't' ∷ b'h' ∷ b'r' ∷ b'e' ∷ b'a' ∷ b'd'
    ∷ b'.' ∷ b'l' ∷ b'o' ∷ b'c' ∷ b'a' ∷ b'l' ∷ []

-- a turn of the loop of st_dns_name_in_zone
unfoldable pub in_suffix : List ℕ → List ℕ → Bool
in_suffix name suffix =
    let n = length name in
    let s = length suffix in
    (n == s - 1 && bytes_eq name (drop 1 suffix))
    || (leb s n && bytes_eq (drop (n - s) name) suffix)

unfoldable pub name_in_zone : List ℕ → Bool
name_in_zone [] = false
name_in_zone (c ∷ s) = in_suffix (c ∷ s) bench_local || in_suffix (c ∷ s) bench_sthread_local

-- memcpy of two bytes and ntohs
abbrev pub be16 : List ℕ → ℕ → ℕ
be16 pkt i = get_or pkt i 0 * 256 + get_or pkt (i + 1) 0

-- the two bytes of the flags: QR and AA; RA, and no error
abbrev pub reply_flags : ℕ → ℕ → List ℕ
reply_flags high low = bit_or (bit_or high 0x80) 0x04 ∷ bit_and (bit_or low 0x80) 0xf0 ∷ []

-- the reply's header: the query's id, flags, QDCOUNT 1, ANCOUNT, and two counts of 0
abbrev pub reply_header : List ℕ → ℕ → List ℕ
reply_header query answers =
    take 2 query
    ++ (reply_flags (get_or query 2 0) (get_or query 3 0)
        ++ 0 ∷ 1 ∷ 0 ∷ answers ∷ 0 ∷ 0 ∷ 0 ∷ 0 ∷ [])

-- a pointer to the question's name, type A, class IN, TTL 60, and the four bytes of 127.0.0.1
abbrev pub answer_record : List ℕ
answer_record = 0xc0 ∷ 0x0c ∷ 0 ∷ 1 ∷ 0 ∷ 1 ∷ 0 ∷ 0 ∷ 0 ∷ 60 ∷ 0 ∷ 4 ∷ 127 ∷ 0 ∷ 0 ∷ 1 ∷ []

abbrev pub want_a : List ℕ → ℕ × List ℕ → Bool
want_a query (qoff, qname) =
    be16 query qoff == 1 && be16 query (qoff + 2) == 1 && name_in_zone (c_string qname)

abbrev pub reply_to : List ℕ → ℕ → ℕ × List ℕ → Option (List ℕ)
reply_to query out_max q =
    let plain = reply_header query 0 ++ drop 12 query in
    let full = reply_header query 1 ++ (drop 12 query ++ answer_record) in
    if ltb (length query) (q.0 + 4)
    then none
    else (if want_a query q
        then (if ltb out_max (length query + 16) then none else some full)
        else some plain)

unfoldable pub build_reply : List ℕ → ℕ → Option (List ℕ)
build_reply query out_max =
    let qlen = length query in
    let replied : Option (List ℕ) = elim (decode_qname query 12 256) [
      | none ↦ none
      | some q ↦ reply_to query out_max q
    ] in
    if ltb qlen 12 || ltb 512 qlen || ltb out_max qlen || ltb (be16 query 4) 1
    then none
    else replied
