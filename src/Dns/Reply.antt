-- ===== src/Dns/Reply.antt =====
-- app/st_dns/dns_proto.h: bounds of st_dns_decode_qname on any packet, and st_dns_build_reply.
use Prim.Native.Nat.{bit_and, bit_or}
use mathlib.Core.Path.{subst}
use mathlib.Core.List.{append-nil}
use sthread.Prelude.{
  ℕ, zero, suc, ◌+◌, ◌≤◌, ◌<◌, ◌≡◌, refl, sym, ap, inl, inr, List, [], ◌∷◌, ◌++◌, length,
  length-append, take, drop, length-drop, get_elem?, get_or, not, ◌&&◌, ◌||◌, some, if◌then◌else◌,
  ltb, leb, ◌==◌, c_string, Bool-cases, Option-cases, if_none-eq-some, some-injective, arith,
}
use sthread.Dns.{
  push_label, decode_labels, decode_qname, name_in_zone, be16, reply_header, answer_record, want_a,
  build_reply,
}

get_elem?_lt : (xs : List ℕ) (n x : ℕ) → get_elem? xs n ≡ some x → n < length xs
get_elem?_lt [] n x h = cc
get_elem?_lt (y ∷ xs) zero x h = omega arith
get_elem?_lt (y ∷ xs) (suc n) x h = omega (arith, get_elem?_lt xs n x h)

push_label-lt :
    (name_max : ℕ) (name l r : List ℕ) → push_label name_max name l ≡ some r → length r < name_max
unfolding push_label
push_label-lt name_max name l r h =
    let name₁ = if length name == 0 then name else name ++ b'.' ∷ [] in
    let (a, e) = if_none-eq-some (not (length name == 0) && leb name_max (length name + 1)) _ h in
    let (b, q) = if_none-eq-some (leb name_max (length name₁ + length l)) _ e in
    ground (arith, ap length (some-injective q), length-append name₁ l)

-- a result lies behind `off` and in the packet, and its name in the caller's buffer
abbrev Within : ℕ → List ℕ → ℕ → ℕ × List ℕ → Type 0
Within name_max pkt off (o, name) = (off < o) × (o ≤ length pkt) × (length name < name_max)

decode_labels-Within :
    (hops name_max off : ℕ) (pkt name : List ℕ) (r : ℕ × List ℕ)
    → 1 < name_max
    → length name < name_max
    → decode_labels name_max pkt hops name off ≡ some r
    → Within name_max pkt off r
unfolding decode_labels
decode_labels-Within zero name_max off pkt name r m n h = cc
decode_labels-Within (suc hops) name_max off pkt name r m n h =
    elim (Option-cases (get_elem? pkt off)) [
      | inl e ↦ absurd (cc (rw (e, decode_labels) at h))
      | inr (lab, e) ↦
          let here = get_elem?_lt pkt off lab e in
          let h₁ = rw (e, decode_labels) at h in
          elim (Bool-cases (lab == 0)) [
            | inl y ↦ rw (← some-injective (rw y at h₁)) (omega arith, omega arith, ground arith)
            | inr y ↦
                let (g, h₂) =
                  if_none-eq-some (ltb 63 lab || ltb (length pkt) (off + 1 + lab)) _ (rw y at h₁) in
                let l = take lab (drop (off + 1) pkt) in
                elim (Option-cases (push_label name_max name l)) [
                  | inl z ↦ absurd (cc (rw z at h₂))
                  | inr (name₁, z) ↦
                      let rest =
                        decode_labels-Within hops name_max (off + 1 + lab) pkt name₁ r m
                          (push_label-lt name_max name l name₁ z) (rw z at h₂) in
                      (omega (arith, rest.0), rest.1, rest.2)
                ]
          ]
    ]

-- On every packet, also one that is malformed or cut off: where st_dns_decode_qname succeeds, the next
-- offset is behind the given one and not behind the packet's end, and the name with its NUL fits into
-- the caller's buffer.
pub decode_qname-Within :
    (pkt : List ℕ) (off name_max o : ℕ) (name : List ℕ)
    → decode_qname pkt off name_max ≡ some (o, name)
    → (off < o) × (o ≤ length pkt) × (length name + 1 ≤ name_max)
unfolding decode_qname
decode_qname-Within pkt off name_max o name h =
    let (g, e) = if_none-eq-some (ltb name_max 2) _ h in
    let big : 1 < name_max = ground arith in
    let r = decode_labels-Within 128 name_max off pkt [] (o, name) big (omega arith) e in
    (r.0, r.1, omega (arith, r.2))

-- a reply to a query, with `answers` 0 or 1
pub record Replied (query : List ℕ) (out_max answers : ℕ) (r : List ℕ) : Type 0 where
  pub fits : length r ≤ out_max
  pub same_id : take 2 r ≡ take 2 query
  pub counts : (be16 r 4 ≡ 1) × (be16 r 6 ≡ answers) × (be16 r 8 ≡ 0) × (be16 r 10 ≡ 0)
  pub flags :
      (get_or r 2 0 ≡ bit_or (bit_or (get_or query 2 0) 0x80) 0x04)
      × (get_or r 3 0 ≡ bit_and (bit_or (get_or query 3 0) 0x80) 0xf0)
  pub echoed : drop 12 r ≡ drop 12 query ++ (if answers == 0 then [] else answer_record)

plain-Replied :
    (query : List ℕ) (out_max : ℕ)
    → 12 ≤ length query
    → length query ≤ out_max
    → Replied query out_max 0 (reply_header query 0 ++ drop 12 query)
plain-Replied (a ∷ b ∷ rest) out_max h f = record {
  fits = omega (arith, length-drop 10 rest);
  same_id = refl;
  counts = (refl, refl, refl, refl);
  flags = (refl, refl);
  echoed = sym (append-nil _);
}
plain-Replied [] out_max h f = absurd (omega arith)
plain-Replied (a ∷ []) out_max h f = absurd (omega arith)

full-Replied :
    (query : List ℕ) (out_max : ℕ)
    → 12 ≤ length query
    → length query + 16 ≤ out_max
    → Replied query out_max 1 (reply_header query 1 ++ (drop 12 query ++ answer_record))
full-Replied (a ∷ b ∷ rest) out_max h f = record {
  fits = omega (arith, length-drop 10 rest, length-append (drop 10 rest) answer_record);
  same_id = refl;
  counts = (refl, refl, refl, refl);
  flags = (refl, refl);
  echoed = refl;
}
full-Replied [] out_max h f = absurd (omega arith)
full-Replied (a ∷ []) out_max h f = absurd (omega arith)

-- Where st_dns_build_reply makes a reply: the query has 12 to 512 bytes and at least one question whose
-- name, type and class it holds whole. The reply fits into the buffer, keeps the query's id, sets QR,
-- AA and RA and clears the code, counts one question and no authority or additional records, and
-- repeats the query behind the header. Just for type A, class IN and a name in the zone it counts one
-- answer and ends in the record of 127.0.0.1, and else it counts none and ends with the query.
pub build_reply-Replied :
    (query : List ℕ) (out_max : ℕ) (r : List ℕ)
    → build_reply query out_max ≡ some r
    → (12 ≤ length query)
      × (length query ≤ 512)
      × (1 ≤ be16 query 4)
      × ((o : ℕ) × (name : List ℕ) × (decode_qname query 12 256 ≡ some (o, name))
          × (o + 4 ≤ length query)
          × Replied query out_max
              (if be16 query o == 1 && be16 query (o + 2) == 1 && name_in_zone (c_string name)
                then 1
                else 0)
              r)
unfolding build_reply
build_reply-Replied query out_max r h =
    let (g, e) =
      if_none-eq-some
        (ltb (length query) 12
          || ltb 512 (length query)
          || ltb out_max (length query)
          || ltb (be16 query 4) 1)
        _ h in
    let lo : 12 ≤ length query = ground arith in
    let room : length query ≤ out_max = ground arith in
    (
      lo,
      ground arith,
      ground arith,
      elim (Option-cases (decode_qname query 12 256)) [
        | inl z ↦ absurd (cc (rw z at e))
        | inr ((o, name), z) ↦
            let (short, e₁) = if_none-eq-some (ltb (length query) (o + 4)) _ (rw z at e) in
            (
              o,
              name,
              z,
              ground arith,
              elim (Bool-cases (want_a query (o, name))) [
                | inl y ↦
                    let (full, e₂) =
                      if_none-eq-some (ltb out_max (length query + 16)) _ (rw y at e₁) in
                    rw y (
                      subst (Replied query out_max 1) (some-injective e₂)
                        (full-Replied query out_max lo (ground arith)))
                | inr y ↦ rw y (
                    subst (Replied query out_max 0) (some-injective (rw y at e₁))
                      (plain-Replied query out_max lo room))
              ],
            )
      ],
    )
