-- ===== src/Dns/Tests.antt =====
-- app/st_dns/dns_proto.h: a query for a.bench.local, and runs of the codec.
use sthread.Prelude.{
  ℕ, ◌+◌, ◌≤◌, ◌<◌, ◌≡◌, ◌↔◌, ◌⊎◌, refl, List, [], ◌∷◌, ◌++◌, length, true, ◌&&◌, some,
  if◌then◌else◌, ◌==◌, bytes_eq, c_string, arith,
}
use sthread.Dns.{
  labels, encode_labels, encode_qname, push_label, decode_labels, decode_qname, name_in_zone,
  in_suffix, be16, build_reply, bench_local, bench_sthread_local, answer_record,
}
use sthread.Dns.Names.{without_dot}
use sthread.Dns.Decode.{decode_qname-encode_qname}
use sthread.Dns.Reply.{Replied, decode_qname-Within, build_reply-Replied}
use sthread.Dns.Zone.{InDomain, name_in_zone_iff}

-- a.bench.local
abbrev host : List ℕ
host = b'a' ∷ bench_local

abbrev host_wire : List ℕ
host_wire =
    1 ∷ b'a' ∷ 5 ∷ b'b' ∷ b'e' ∷ b'n' ∷ b'c' ∷ b'h' ∷ 5 ∷ b'l' ∷ b'o' ∷ b'c' ∷ b'a' ∷ b'l' ∷ 0 ∷ []

abbrev header : List ℕ
header = 0x12 ∷ 0x34 ∷ 1 ∷ 0 ∷ 0 ∷ 1 ∷ 0 ∷ 0 ∷ 0 ∷ 0 ∷ 0 ∷ 0 ∷ []

abbrev question : List ℕ
question = 0 ∷ 1 ∷ 0 ∷ 1 ∷ []

abbrev query : List ℕ
query = header ++ (host_wire ++ question)

abbrev reply : List ℕ
reply =
    0x12
    ∷ 0x34
    ∷ 0x85
    ∷ 0x80
    ∷ 0
    ∷ 1
    ∷ 0
    ∷ 1
    ∷ 0
    ∷ 0
    ∷ 0
    ∷ 0
    ∷ (host_wire ++ (question ++ answer_record))

host-encode : encode_qname host 256 ≡ some host_wire
unfolding encode_qname encode_labels labels
host-encode = refl

query-reply : build_reply query 512 ≡ some reply
unfolding build_reply decode_qname decode_labels push_label name_in_zone in_suffix c_string bytes_eq
query-reply = refl

decode_qname-encode_qname_example : decode_qname query 12 256 ≡ some (12 + 15, without_dot host)
decode_qname-encode_qname_example =
    decode_qname-encode_qname host header question host_wire 256 256 (λ q. cc) (omega arith)
      (omega arith) host-encode

decode_qname-Within_example : (12 < 27) × (27 ≤ length query) × (length host + 1 ≤ 256)
decode_qname-Within_example =
    decode_qname-Within query 12 256 27 host decode_qname-encode_qname_example

build_reply-Replied_example :
    (12 ≤ length query)
    × (length query ≤ 512)
    × (1 ≤ be16 query 4)
    × ((o : ℕ) × (name : List ℕ) × (decode_qname query 12 256 ≡ some (o, name))
        × (o + 4 ≤ length query)
        × Replied query 512
            (if be16 query o == 1 && be16 query (o + 2) == 1 && name_in_zone (c_string name)
              then 1
              else 0)
            reply)
build_reply-Replied_example = build_reply-Replied query 512 reply query-reply

name_in_zone_iff_example :
    (name_in_zone host ≡ true) ↔ (InDomain bench_local host ⊎ InDomain bench_sthread_local host)
name_in_zone_iff_example = name_in_zone_iff host (λ q. cc)
