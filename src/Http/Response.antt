-- ===== src/Http/Response.antt =====
-- app/st_httpclient/http_client.cc: what the callbacks of the response parser leave in ParseState.
use mathlib.Core.List.{append_assoc, append-nil}
use sthread.Prelude.{
  ℕ, zero, suc, ◌+◌, ◌*◌, ◌-◌, ◌≤◌, ◌<◌, ◌≡◌, ◌⊎◌, refl, sym, ap, ◌∙◌, inl, inr, List, [], ◌∷◌,
  ◌++◌, length, length-append, take, length-take, Bool, true, false, ◌&&◌, ◌||◌, some,
  if◌then◌else◌, ltb, Bool-cases, Option-cases, some-injective, arith,
}
use sthread.Http.{ByteBuf, max_cap, grow_cap}
use sthread.Http.Buffer.{Room}
use sthread.Http.Exchange.{
  ParseState, Callback, header_field, header_value, body_part, headers_complete, message_complete,
  append_body, append_upto, flush_header, on_header_field, on_header_value, on_body,
  on_headers_complete, on_message_complete, run_callback, run_callbacks,
}

grow_cap_le : (fuel cap need c : ℕ) → grow_cap fuel cap need ≡ some c → need ≤ c
unfolding grow_cap
grow_cap_le zero cap need c h = absurd (ground (arith, h))
grow_cap_le (suc fuel) cap need c h = elim (Bool-cases (ltb cap need)) [
  | inr y ↦ let e : cap ≡ c = some-injective (rw (y, grow_cap) at h) in ground (arith, y, e)
  | inl y ↦ elim (Bool-cases (ltb max_cap cap)) [
    | inl z ↦ absurd (ground (arith, rw (y, z, grow_cap) at h))
    | inr z ↦ grow_cap_le fuel (cap * 2) need c (rw (y, z, grow_cap) at h)
  ]
]

-- each array holds its null, and so does the buffer of the body once it is there
pub record InBounds (st : ParseState) : Type 0 where
  pub field_le : length st.field < 128
  pub value_le : length st.value < 256
  pub body_room : (st.body.text ≡ []) ⊎ Room st.body

append_upto_le :
    (size : ℕ) (old s : List ℕ) → length old < size → length (append_upto size old s) < size
unfolding append_upto
append_upto_le size old s h = omega (
  arith,
  length-append old (take (size - 1 - length old) s),
  length-take (size - 1 - length old) s,
)

-- the bytes of the body among the callbacks
pub body_of : List Callback → List ℕ
body_of [] = []
body_of (header_field s ∷ cs) = body_of cs
body_of (header_value s ∷ cs) = body_of cs
body_of (body_part s ∷ cs) = s ++ body_of cs
body_of (headers_complete n ∷ cs) = body_of cs
body_of (message_complete n b ∷ cs) = body_of cs

pub record Read (st : ParseState) (s : List ℕ) (r : Bool × ParseState) : Type 0 where
  pub bounds : InBounds r.1
  pub whole : r.0 ≡ true → r.1.body.text ≡ st.body.text ++ s
  pub failed : r.0 ≡ false → r.1.error ≡ true

flush_header-InBounds : (st : ParseState) → InBounds st → InBounds (flush_header st)
unfolding flush_header
flush_header-InBounds st b =
    elim (Bool-cases (st.verbose && (ltb 0 (length st.field) || ltb 0 (length st.value)))) [
      | inl y ↦
          rw y (record { field_le = omega arith; value_le = omega arith; body_room = b.body_room })
      | inr y ↦
          rw y (record { field_le = omega arith; value_le = omega arith; body_room = b.body_room })
    ]

flush_header_body : (st : ParseState) → (flush_header st).body ≡ st.body
unfolding flush_header
flush_header_body st =
    elim (Bool-cases (st.verbose && (ltb 0 (length st.field) || ltb 0 (length st.value)))) [
      | inl y ↦ rw y refl
      | inr y ↦ rw y refl
    ]

append_body_text :
    (s : List ℕ) (b b' : ByteBuf)
    → append_body s b ≡ some b'
    → (b.text ≡ []) ⊎ Room b
    → (b'.text ≡ b.text ++ s) × ((b'.text ≡ []) ⊎ Room b')
unfolding append_body
append_body_text [] b b' h r =
    let e : b ≡ b' = some-injective h in rw (sym e) (sym (append-nil _), r)
append_body_text (c ∷ s) b b' h r =
    let need = length b.text + length (c ∷ s) + 1 in
    let start = if ltb 0 b.cap then b.cap else 4096 in
    elim (Bool-cases (ltb max_cap (length (c ∷ s)))) [
      | inl y ↦ absurd (ground (arith, rw (y, append_body) at h))
      | inr y ↦ elim (Option-cases (grow_cap need start need)) [
        | inl e ↦ absurd (ground (arith, rw (y, e, append_body) at h))
        | inr (k, e) ↦
            let q : record { text = b.text ++ (c ∷ s); cap = k } ≡ b' =
              some-injective (rw (y, e, append_body) at h) in
            rw (sym q) (
              refl,
              inr (omega (arith, grow_cap_le need start need k e, length-append b.text (c ∷ s))),
            )
      ]
    ]

Read-stay : (st st' : ParseState) → InBounds st' → st'.body ≡ st.body → Read st [] (true, st')
Read-stay st st' b e = record {
  bounds = b;
  whole = λ _. ap (λ x. x.text) e ∙ sym (append-nil _);
  failed = λ q. absurd (ground (arith, q));
}

on_header_field-InBounds :
    (s : List ℕ) (st : ParseState) → InBounds st → Read st [] (true, on_header_field s st)
unfolding on_header_field
on_header_field-InBounds s st b = elim (Bool-cases (ltb 0 (length st.value))) [
  | inl y ↦
      let f = flush_header-InBounds st b in
      rw y (
        Read-stay st _
          (record {
            field_le = append_upto_le 128 _ s f.field_le;
            value_le = f.value_le;
            body_room = f.body_room;
          })
          (flush_header_body st))
  | inr y ↦ rw y (
      Read-stay st _
        (record {
          field_le = append_upto_le 128 _ s b.field_le;
          value_le = b.value_le;
          body_room = b.body_room;
        })
        refl)
]

run_callback-Read :
    (c : Callback) (st : ParseState) → InBounds st → Read st (body_of (c ∷ [])) (run_callback c st)
unfolding run_callback body_of on_header_value on_headers_complete on_message_complete on_body
run_callback-Read (header_field s) st b = on_header_field-InBounds s st b
run_callback-Read (header_value s) st b =
    Read-stay st _
      (record {
        field_le = b.field_le;
        value_le = append_upto_le 256 st.value s b.value_le;
        body_room = b.body_room;
      })
      refl
run_callback-Read (headers_complete n) st b =
    let f = flush_header-InBounds st b in
    Read-stay st _
      (record { field_le = f.field_le; value_le = f.value_le; body_room = f.body_room })
      (flush_header_body st)
run_callback-Read (message_complete n k) st b =
    Read-stay st _
      (record { field_le = b.field_le; value_le = b.value_le; body_room = b.body_room }) refl
run_callback-Read (body_part s) st b = elim (Option-cases (append_body s st.body)) [
  | inl e ↦ rw e (record {
    bounds = record { field_le = b.field_le; value_le = b.value_le; body_room = b.body_room };
    whole = λ q. absurd (ground (arith, q));
    failed = λ _. refl;
  })
  | inr (x, e) ↦
      let (text, room) = append_body_text s st.body x e b.body_room in
      rw e (record {
        bounds = record { field_le = b.field_le; value_le = b.value_le; body_room = room };
        whole = λ _. text ∙ ap (λ y. st.body.text ++ y) (sym (append-nil s));
        failed = λ q. absurd (ground (arith, q));
      })
]

body_of_step :
    (c : Callback) (cs : List Callback) → body_of (c ∷ cs) ≡ body_of (c ∷ []) ++ body_of cs
unfolding body_of
body_of_step (header_field s) cs = refl
body_of_step (header_value s) cs = refl
body_of_step (body_part s) cs = ap (λ x. x ++ body_of cs) (sym (append-nil s))
body_of_step (headers_complete n) cs = refl
body_of_step (message_complete n b) cs = refl

-- Whatever callbacks the parser makes: the arrays of a header's name and value never overflow, and
-- the buffer of a body has room for the null behind it. If all callbacks return 0, the body has
-- grown by the bytes given to on_body, in their order; otherwise the error is recorded.
pub run_callbacks-Read :
    (cs : List Callback) (st : ParseState)
    → InBounds st
    → Read st (body_of cs) (run_callbacks cs st)
unfolding run_callbacks body_of
run_callbacks-Read [] st b = Read-stay st st b refl
run_callbacks-Read (c ∷ cs) st b =
    let one = run_callback-Read c st b in
    let st₁ = (run_callback c st).1 in
    let more = run_callbacks-Read cs st₁ one.bounds in
    elim (Bool-cases (run_callback c st).0) [
      | inr y ↦ rw y (record {
        bounds = one.bounds;
        whole = λ q. absurd (ground (arith, q));
        failed = λ _. one.failed y;
      })
      | inl y ↦ rw y (record {
        bounds = more.bounds;
        failed = more.failed;
        whole = λ q.
            more.whole q
            ∙ rw (one.whole y) (
                append_assoc st.body.text _ _
                ∙ ap (λ x. st.body.text ++ x) (sym (body_of_step c cs)));
      })
    ]
