-- ===== src/Dns/Decode.antt =====
-- app/st_dns/dns_proto.h: st_dns_decode_qname reads the labels of a packet.
use mathlib.Core.List.{append_assoc}
use sthread.Prelude.{
  ℕ, zero, suc, ◌+◌, ◌*◌, ◌≤◌, ◌<◌, ◌≡◌, ◌≢◌, refl, ap, ◌∙◌, inl, inr, List, [], ◌∷◌, ◌++◌, length,
  length-append, take, drop, drop-add, take-append, drop-append, length-drop, get_elem?, false,
  ◌||◌, some, if◌then◌else◌, ltb, ◌==◌, Bool-cases, arith,
}
use sthread.Dns.{labels, push_label, decode_labels, decode_qname, encode_qname}
use sthread.Dns.Names.{join, wire, trim, All, IsLabel, labels_cons, without_dot, join-trim-labels}
use sthread.Dns.Encode.{encode_qname-Encoded}

abbrev add_label : List ℕ → List ℕ → List ℕ
add_label name l = (if length name == 0 then name else name ++ b'.' ∷ []) ++ l

abbrev extend : List ℕ → List (List ℕ) → List ℕ
extend name [] = name
extend name (l ∷ ls) = extend (add_label name l) ls

get_elem?-drop : (n : ℕ) (xs rest : List ℕ) (x : ℕ) → drop n xs ≡ x ∷ rest → get_elem? xs n ≡ some x
get_elem?-drop zero [] rest x h = cc
get_elem?-drop (suc n) [] rest x h = cc
get_elem?-drop zero (y ∷ xs) rest x h = cc
get_elem?-drop (suc n) (y ∷ xs) rest x h = get_elem?-drop n xs rest x h

length-extend : (ls : List (List ℕ)) (name : List ℕ) → length name ≤ length (extend name ls)
length-extend [] name = omega arith
length-extend (l ∷ ls) name = ground (
  arith,
  length-extend ls (add_label name l),
  length-append name (b'.' ∷ []),
  length-append name l,
  length-append (name ++ b'.' ∷ []) l,
)

push_label-add_label :
    (name_max : ℕ) (name l : List ℕ)
    → length (add_label name l) < name_max
    → push_label name_max name l ≡ some (add_label name l)
unfolding push_label
push_label-add_label name_max name l h = elim (Bool-cases (length name == 0)) [
  | inl y ↦ rw y (ground (arith, length-append name l))
  | inr y ↦
      rw y (ground (arith, length-append name (b'.' ∷ []), length-append (name ++ b'.' ∷ []) l))
]

shown : List ℕ → List ℕ
shown name = if length name == 0 then b'.' ∷ [] else name

decode_labels-wire :
    (ls : List (List ℕ)) (name_max hops off : ℕ) (pkt name rest : List ℕ)
    → All IsLabel ls
    → length ls < hops
    → drop off pkt ≡ wire ls ++ 0 ∷ rest
    → length (extend name ls) < name_max
    → decode_labels name_max pkt hops name off
      ≡ some (off + length (wire ls) + 1, shown (extend name ls))
unfolding decode_labels shown
decode_labels-wire ls name_max zero off pkt name rest v h d f = absurd (omega arith)
decode_labels-wire [] name_max (suc hops) off pkt name rest v h d f =
    rw (get_elem?-drop off pkt rest 0 d, decode_labels) (ground arith)
decode_labels-wire (l ∷ ls) name_max (suc hops) off pkt name rest v h d f =
    let after : drop (off + 1) pkt ≡ l ++ (wire ls ++ 0 ∷ rest) =
      drop-add off 1 pkt ∙ ap (drop 1) d ∙ append_assoc l (wire ls) (0 ∷ rest) in
    let later : drop (off + 1 + length l) pkt ≡ wire ls ++ 0 ∷ rest =
      drop-add (off + 1) (length l) pkt ∙ ap (drop (length l)) after ∙ drop-append l _ in
    let read : take (length l) (drop (off + 1) pkt) ≡ l =
      ap (take (length l)) after ∙ take-append l _ in
    let room : off + 1 + length l ≤ length pkt =
      omega (
        arith,
        ap length after,
        length-drop (off + 1) pkt,
        length-append l (wire ls ++ 0 ∷ rest),
      ) in
    let pushed =
      push_label-add_label name_max name l (omega (arith, length-extend ls (add_label name l))) in
    let nonzero : (length l == 0) ≡ false = ground (arith, v.0) in
    let short : (ltb 63 (length l) || ltb (length pkt) (off + 1 + length l)) ≡ false =
      ground (arith, v.0) in
    let ih =
      decode_labels-wire ls name_max hops (off + 1 + length l) pkt (add_label name l) rest v.1
        (omega arith) later f in
    rw (get_elem?-drop off pkt _ (length l) d, decode_labels)
      (rw (nonzero, short, read, pushed)
        (ih
          ∙ ap (λ n. some (n, shown (extend (add_label name l) ls)))
              (omega (arith, length-append l (wire ls)))))

extend-join :
    (l name : List ℕ) (ls : List (List ℕ))
    → 0 < length name
    → extend name (l ∷ ls) ≡ name ++ b'.' ∷ join (l ∷ ls)
extend-join l name [] h = ground (arith, append_assoc name (b'.' ∷ []) l)
extend-join l name (m ∷ ls) h =
    let e : add_label name l ≡ name ++ b'.' ∷ l = ground (arith, append_assoc name (b'.' ∷ []) l) in
    rw e (
      extend-join m (name ++ b'.' ∷ l) ls (omega (arith, length-append name (b'.' ∷ l)))
      ∙ append_assoc name (b'.' ∷ l) (b'.' ∷ join (m ∷ ls)))

extend-nil : (ls : List (List ℕ)) → All IsLabel ls → extend [] ls ≡ join ls
extend-nil [] v = refl
extend-nil (l ∷ []) v = refl
extend-nil (l ∷ m ∷ ls) v = extend-join m l ls v.0.0

-- labels and dots take room in the name
length-join : (ls : List (List ℕ)) → All IsLabel ls → 2 * length ls ≤ length (join ls) + 1
length-join [] v = omega arith
length-join (l ∷ []) v = omega (arith, v.0.0)
length-join (l ∷ m ∷ ls) v =
    omega (arith, v.0.0, length-join (m ∷ ls) v.1, length-append l (b'.' ∷ join (m ∷ ls)))

length-without_dot : (s : List ℕ) → length (without_dot s) ≤ length s
length-without_dot [] = omega arith
length-without_dot (c ∷ []) = ground arith
length-without_dot (c ∷ d ∷ s) = omega (arith, length-without_dot (d ∷ s))

length-trim : (l : List ℕ) (ls : List (List ℕ)) → 0 < length (trim (l ∷ ls))
length-trim l [] = omega arith
length-trim l ([] ∷ []) = omega arith
length-trim l ([] ∷ n ∷ ls) = omega arith
length-trim l ((y ∷ m) ∷ ls) = omega arith

join_pos : (ls : List (List ℕ)) → All IsLabel ls → 0 < length ls → 0 < length (join ls)
join_pos ls v h = omega (arith, length-join ls v)

module _ (name pre rest w : List ℕ) (out_max name_max : ℕ) where
  -- Every name of at least one and at most 253 bytes that st_dns_encode_qname writes: put at any place
  -- of a packet, its bytes are read back by st_dns_decode_qname to the same name, less a dot at its
  -- end, and the returned offset is that behind them, if the caller's buffer is longer than the name.
  pub decode_qname-encode_qname :
      name ≢ []
      → length name ≤ 253
      → length name < name_max
      → encode_qname name out_max ≡ some w
      → decode_qname (pre ++ (w ++ rest)) (length pre) name_max
        ≡ some (length pre + length w, without_dot name)
  unfolding decode_qname shown
  decode_qname-encode_qname n small room h =
      let r = encode_qname-Encoded name out_max w n h in
      let (l, ls, q) = labels_cons name in
      let ts = trim (labels name) in
      let some_label : 0 < length ts = rw q (length-trim l ls) in
      let e : join ts ≡ without_dot name = join-trim-labels name in
      let x : extend [] ts ≡ without_dot name = extend-nil ts r.labelled ∙ e in
      let size = length-without_dot name in
      let pos = join_pos ts r.labelled some_label in
      let here : drop (length pre) (pre ++ (w ++ rest)) ≡ wire ts ++ 0 ∷ rest =
        drop-append pre (w ++ rest)
        ∙ ap (λ v. v ++ rest) r.bytes
        ∙ append_assoc (wire ts) (0 ∷ []) rest in
      let read =
        decode_labels-wire ts name_max 128 (length pre) (pre ++ (w ++ rest)) [] rest r.labelled
          (omega (arith, length-join ts r.labelled, ap length e)) here
          (omega (arith, ap length x)) in
      let big : ltb name_max 2 ≡ false = ground (arith, ap length e) in
      let found : (length (without_dot name) == 0) ≡ false = ground (arith, ap length e) in
      rw big (
        read
        ∙ rw (x, found)
            (ap (λ o. some (o, without_dot name))
              (omega (arith, ap length r.bytes, length-append (wire ts) (0 ∷ [])))))
