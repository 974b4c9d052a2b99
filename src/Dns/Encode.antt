-- ===== src/Dns/Encode.antt =====
-- app/st_dns/dns_proto.h: what st_dns_encode_qname writes.
use mathlib.Core.List.{append-nil, append_assoc}
use sthread.Prelude.{
  ℕ, ◌+◌, ◌≤◌, ◌≡◌, ◌≢◌, refl, sym, ap, ◌∙◌, List, [], ◌∷◌, ◌++◌, length, length-append, false,
  some, ltb, if_none-eq-some, some-injective, arith,
}
use sthread.Dns.{labels, finish, too_long, encode_labels, encode_qname}
use sthread.Dns.Names.{wire, trim, All, IsLabel, labels_cons}

-- the outcome of a call that does not fail
pub record Encoded (out_max : ℕ) (out : List ℕ) (ls : List (List ℕ)) (w : List ℕ) : Type 0 where
  pub bytes : w ≡ out ++ (wire ls ++ 0 ∷ [])
  pub labelled : All IsLabel ls
  pub fits : length w ≤ out_max

finish-Encoded :
    (out_max : ℕ) (out w : List ℕ)
    → finish out_max out ≡ some w
    → (w ≡ out ++ 0 ∷ []) × (length w ≤ out_max)
finish-Encoded out_max out w h =
    let (b, e) = if_none-eq-some (ltb out_max (length out + 1)) (some (out ++ 0 ∷ [])) h in
    let q = some-injective e in (sym q, ground (arith, ap length q, length-append out (0 ∷ [])))

too_long_no : (out_max : ℕ) (out l : List ℕ) → too_long out_max out l ≡ false → IsLabel l
too_long_no out_max out l h = ground arith

last-Encoded :
    (out_max : ℕ) (out l w : List ℕ)
    → IsLabel l
    → finish out_max (out ++ length l ∷ l) ≡ some w
    → Encoded out_max out (l ∷ []) w
last-Encoded out_max out l w v h =
    let (e, f) = finish-Encoded out_max (out ++ length l ∷ l) w h in
    record { bytes = e ∙ simp (append_assoc, append-nil); labelled = (v, tt); fits = f }

more-Encoded :
    (out_max : ℕ) (out l w : List ℕ) (ls : List (List ℕ))
    → IsLabel l
    → Encoded out_max (out ++ length l ∷ l) ls w
    → Encoded out_max out (l ∷ ls) w
more-Encoded out_max out l w ls v r = record {
  bytes = r.bytes ∙ simp append_assoc;
  labelled = (v, r.labelled);
  fits = r.fits;
}

encode_labels-Encoded :
    (out_max : ℕ) (out w l : List ℕ) (ls : List (List ℕ))
    → encode_labels out_max out (l ∷ ls) ≡ some w
    → Encoded out_max out (trim (l ∷ ls)) w
unfolding encode_labels
encode_labels-Encoded out_max out w l [] h =
    let (b, e) = if_none-eq-some (too_long out_max out l) _ h in
    last-Encoded out_max out l w (too_long_no out_max out l b) e
encode_labels-Encoded out_max out w l ([] ∷ []) h =
    let (b, e) = if_none-eq-some (too_long out_max out l) _ h in
    last-Encoded out_max out l w (too_long_no out_max out l b) e
encode_labels-Encoded out_max out w l ([] ∷ n ∷ ls) h =
    let (b, e) = if_none-eq-some (too_long out_max out l) _ h in
    more-Encoded out_max out l w _ (too_long_no out_max out l b)
      (encode_labels-Encoded out_max (out ++ length l ∷ l) w [] (n ∷ ls) e)
encode_labels-Encoded out_max out w l ((y ∷ m) ∷ ls) h =
    let (b, e) = if_none-eq-some (too_long out_max out l) _ h in
    more-Encoded out_max out l w _ (too_long_no out_max out l b)
      (encode_labels-Encoded out_max (out ++ length l ∷ l) w (y ∷ m) ls e)

pub encode_qname-Encoded :
    (name : List ℕ) (out_max : ℕ) (w : List ℕ)
    → name ≢ []
    → encode_qname name out_max ≡ some w
    → Encoded out_max [] (trim (labels name)) w
unfolding encode_qname
encode_qname-Encoded [] out_max w n h = absurd (n refl)
encode_qname-Encoded (c ∷ s) out_max w n h =
    let (b, e) = if_none-eq-some (ltb out_max 2) _ h in
    let (l, ls, q) = labels_cons (c ∷ s) in
    rw q (encode_labels-Encoded out_max [] w l ls (rw q at e))
