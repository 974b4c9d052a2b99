-- ===== src/Proxy/Headers.antt =====
-- app/st_httpproxy/main.cpp: where the headers of a request end, and what is sent on.
use sthread.Prelude.{
  ◌&&◌, ℕ, zero, suc, ◌+◌, ◌≤◌, ◌<◌, ◌≡◌, refl, sym, ap, ◌∙◌, inl, inr, List, [], ◌∷◌, length, drop,
  Bool, true, false, Option, none, some, if◌then◌else◌, ltb, ◌==◌, bytes_eq, Bool-cases,
  Option-cases, some-injective, if_none-eq-some, arith,
}
use mathlib.Core.Path.{subst}
use sthread.Prelude.Int.{ℤ, pos, negsuc}
use sthread.Http.{bytes}
use sthread.Proxy.{
  next_line, length_in, blank_line, starts, end_from, find_headers_end, until_space, from_slash,
  Forward, outside, local_path, with_body, with_path, with_target, with_method, read_request,
  header_content_length,
}

-- the offset of the end of the first blank line
pub record Ends (i : ℕ) (s : List ℕ) (e : ℕ) : Type 0 where
  pub at_line : ℕ
  pub here : starts blank_line (drop at_line s) ≡ true
  pub first : (j : ℕ) → j < at_line → starts blank_line (drop j s) ≡ false
  pub sum : e ≡ i + at_line + 4

end_from-Ends : (i e : ℕ) (s : List ℕ) → end_from i s ≡ some e → Ends i s e
unfolding end_from
end_from-Ends i e [] h = absurd (ground (arith, h))
end_from-Ends i e (c ∷ s) h = elim (Bool-cases (starts blank_line (c ∷ s))) [
  | inl y ↦
      let q : i + 4 ≡ e = some-injective (rw (y, end_from) at h) in
      record { at_line = 0; here = y; first = λ j l. absurd (omega arith); sum = omega (arith, q) }
  | inr y ↦
      let f = end_from-Ends (i + 1) e s (rw (y, end_from) at h) in
      record {
        at_line = suc f.at_line;
        here = f.here;
        sum = omega (arith, f.sum);
        first = λ j l. before c s f.at_line j l y f.first;
      }
]
  where
    before :
        (c : ℕ) (s : List ℕ) (n j : ℕ)
        → j < suc n
        → starts blank_line (c ∷ s) ≡ false
        → ((k : ℕ) → k < n → starts blank_line (drop k s) ≡ false)
        → starts blank_line (drop j (c ∷ s)) ≡ false
    before c s n zero l y f = y
    before c s n (suc j) l y f = f j (omega arith)

-- what the proxy sends on is one request line for a path on the backend
pub record Sane (f : Forward) : Type 0 where
  pub path_slash : starts (bytes "/") f.path ≡ true
  pub method_len : (0 < length f.method) × (length f.method < 16)
  pub no_tunnel : bytes_eq f.method (bytes "CONNECT") ≡ false
  pub body_whole : f.body_len ≤ length f.body

from_slash-starts : (s : List ℕ) → starts (bytes "/") (from_slash s) ≡ true
unfolding from_slash starts
from_slash-starts [] = refl
from_slash-starts (c ∷ s) = elim (Bool-cases (c == b'/')) [
  | inl y ↦ rw y (ground (arith, y))
  | inr y ↦ rw y (from_slash-starts s)
]

local_path_slash : (t path : List ℕ) → local_path t ≡ some path → starts (bytes "/") path ≡ true
unfolding local_path
local_path_slash t path h =
    let (_, h₁) = if_none-eq-some (starts (bytes "https://") t) _ h in
    elim (Bool-cases (starts (bytes "http://") t)) [
      | inl y ↦
          let e : from_slash (drop 7 t) ≡ path = some-injective (rw y at h₁) in
          rw (sym e) (from_slash-starts (drop 7 t))
      | inr y ↦ elim (Bool-cases (starts (bytes "/") t)) [
        | inl z ↦
            let e : t ≡ path = some-injective (rw (y, z) at h₁) in
            ap (starts (bytes "/")) (sym e) ∙ z
        | inr z ↦ absurd (ground (arith, rw (y, z) at h₁))
      ]
    ]

-- a guard that gives the answer 400 was passed
passed :
    {A : Type 0} (b : Bool) (x : Option A) {a : A}
    → (if b then none else x) ≡ some a
    → (b ≡ false) × (x ≡ some a)
passed b x h = if_none-eq-some b x h

with_body-Sane :
    (method path body : List ℕ) (z : ℤ) (f : Forward)
    → with_body method path z body ≡ some f
    → (0 < length method) × (length method < 16)
    → bytes_eq method (bytes "CONNECT") ≡ false
    → starts (bytes "/") path ≡ true
    → Sane f
unfolding with_body
with_body-Sane method path body (negsuc n) f h m c p = absurd (ground (arith, h))
with_body-Sane method path body (pos n) f h m c p =
    let (l, q) = passed (ltb (length body) n) _ h in
    let e : record { method = method; path = path; body_len = n; body = body } ≡ f =
      some-injective q in
    subst Sane e
      (record { path_slash = p; method_len = m; no_tunnel = c; body_whole = ground (arith, l) })

with_target-Sane :
    (buf method : List ℕ) (hend : ℕ) (o : Option (List ℕ × List ℕ)) (f : Forward)
    → with_target buf method hend o ≡ some f
    → (0 < length method) × (length method < 16)
    → Sane f
unfolding with_target with_path
with_target-Sane buf method hend none f h m = absurd (ground (arith, h))
with_target-Sane buf method hend (some (target, rest)) f h m =
    let (_, h₁) = passed (outside (length target) 1000) _ h in
    let (c, h₂) = passed (bytes_eq method (bytes "CONNECT")) _ h₁ in
    elim (Option-cases (local_path target)) [
      | inl e ↦ absurd (ground (arith, rw (e, with_path) at h₂))
      | inr (path, e) ↦
          with_body-Sane method path (drop hend buf) (header_content_length buf hend) f
            (rw (e, with_path) at h₂) m c (local_path_slash target path e)
    ]

with_method-Sane :
    (buf : List ℕ) (hend : ℕ) (o : Option (List ℕ × List ℕ)) (f : Forward)
    → with_method buf hend o ≡ some f
    → Sane f
unfolding with_method
with_method-Sane buf hend none f h = absurd (ground (arith, h))
with_method-Sane buf hend (some (method, rest)) f h =
    let (o, h₁) = passed (outside (length method) 16) _ h in
    with_target-Sane buf method hend (until_space rest) f h₁ (ground (arith, o), ground (arith, o))

-- If forward sends a request on, the bytes that it has read hold a whole header block, which ends at
-- the first blank line; the method has 1 to 15 bytes and is not CONNECT, the path begins with a slash,
-- also where the request named a URL, and Content-Length is no more than the bytes of the body that
-- have come.
pub read_request-Sane :
    (buf : List ℕ) (f : Forward)
    → read_request buf ≡ some f
    → (e : ℕ) × (find_headers_end buf ≡ some e) × Ends 0 buf e × Sane f
unfolding read_request
read_request-Sane buf f h = elim (Option-cases (find_headers_end buf)) [
  | inl e ↦ absurd (ground (arith, rw (e, read_request) at h))
  | inr (hend, e) ↦ (
    hend,
    e,
    end_from-Ends 0 hend buf (unfold find_headers_end in e),
    with_method-Sane buf hend (until_space buf) f (rw (e, read_request) at h),
  )
]

next_line_lt : (c d : ℕ) (s : List ℕ) → length (next_line (c ∷ d ∷ s)) < length (c ∷ d ∷ s)
unfolding next_line
next_line_lt c d [] = elim (Bool-cases (c == 13 && d == 10)) [
  | inl y ↦ rw y (omega arith)
  | inr y ↦ rw y (omega arith)
]
next_line_lt c d (e ∷ s) = elim (Bool-cases (c == 13 && d == 10)) [
  | inl y ↦ rw y (omega arith)
  | inr y ↦ rw y (omega (arith, next_line_lt d e s))
]

-- The fuel of header_content_length does not matter from the length of the headers on.
length_in_enough :
    (f g : ℕ) (s behind : List ℕ)
    → length s ≤ f
    → length s ≤ g
    → length_in f s behind ≡ length_in g s behind
unfolding length_in
length_in_enough zero zero s behind p q = refl
length_in_enough zero (suc g) [] behind p q = refl
length_in_enough zero (suc g) (c ∷ s) behind p q = absurd (omega arith)
length_in_enough (suc f) zero [] behind p q = refl
length_in_enough (suc f) zero (c ∷ s) behind p q = absurd (omega arith)
length_in_enough (suc f) (suc g) [] behind p q = refl
length_in_enough (suc f) (suc g) (c ∷ []) behind p q = refl
length_in_enough (suc f) (suc g) (c ∷ d ∷ s) behind p q =
    let l = next_line_lt c d s in
    rw (length_in_enough f g (next_line (c ∷ d ∷ s)) behind (omega arith) (omega arith)) refl
