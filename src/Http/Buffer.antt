-- ===== src/Http/Buffer.antt =====
-- app/st_httpclient/http_client.cc: what buf_add appends, with room for a null behind the text.
use mathlib.Core.List.{append_assoc, append-nil}
use sthread.Prelude.{
  ℕ, zero, suc, ◌+◌, ◌*◌, ◌-◌, ◌≤◌, ◌<◌, ◌≡◌, refl, sym, ◌∙◌, List, [], ◌++◌, length, length-append,
  Bool, true, false, Option, some, if◌then◌else◌, ltb, Bool-cases, lt→ltb, nlt→ltb, dec_lt, nle→leb,
  arith,
}
use sthread.Http.{ByteBuf, max_cap, grow_cap, buf_add, ◌>>◌, add_printed, unless}

pub grow_cap_room :
    (fuel cap need : ℕ)
    → need - cap < fuel
    → 0 < cap
    → need ≤ max_cap
    → (c : ℕ) × (grow_cap fuel cap need ≡ some c) × (need ≤ c)
unfolding grow_cap
grow_cap_room zero cap need h p m = absurd (omega arith)
grow_cap_room (suc fuel) cap need h p m = elim (dec_lt cap need) [
  | yes y ↦
      rw (lt→ltb cap need y, nlt→ltb max_cap cap (λ q. omega arith))
        (grow_cap_room fuel (cap * 2) need (omega arith) (omega arith) m)
  | no n ↦ rw (nlt→ltb cap need n) (cap, refl, omega arith)
]

-- there is room for the null behind the text
abbrev pub Room : ByteBuf → Type 0
Room b = length b.text < b.cap

pub record Added (b : ByteBuf) (s : List ℕ) (r : Option ByteBuf) : Type 0 where
  pub after : ByteBuf
  pub returned : r ≡ some after
  pub text : after.text ≡ b.text ++ s
  pub room : Room after

-- the call adds `s` to each buffer with which it does not get too long
abbrev pub Adds : (ByteBuf → Option ByteBuf) → List ℕ → Type 0
Adds f s = (b : ByteBuf) → length (b.text ++ s) < max_cap → Room b → Added b s (f b)

pub buf_add-Added :
    (s : List ℕ) (b : ByteBuf) → length (b.text ++ s) < max_cap → Added b s (buf_add s b)
unfolding buf_add
buf_add-Added s b h =
    let need = length b.text + length s + 1 in
    let start = if ltb 0 b.cap then b.cap else 512 in
    let size = length-append b.text s in
    let (c, e, l) =
      grow_cap_room need start need (ground (arith, Bool-cases (ltb 0 b.cap)))
        (ground (arith, Bool-cases (ltb 0 b.cap))) (omega (arith, size)) in
    record {
      after = record { text = b.text ++ s; cap = c };
      returned = rw e refl;
      text = refl;
      room = omega (arith, size);
    }

pub buf_add-Adds : (s : List ℕ) → Adds (buf_add s) s
buf_add-Adds s b h r = buf_add-Added s b h

pub >>-Added :
    (f g : ByteBuf → Option ByteBuf) (s t : List ℕ) (b : ByteBuf)
    → length (b.text ++ (s ++ t)) < max_cap
    → Added b s (f b)
    → Adds g t
    → Added b (s ++ t) ((f >> g) b)
>>-Added f g s t b h a adds =
    let more = adds a.after (rw (a.text, append_assoc b.text s t) h) a.room in
    record {
      after = more.after;
      returned = rw (a.returned, ◌>>◌) more.returned;
      text = more.text ∙ rw a.text (append_assoc b.text s t);
      room = more.room;
    }

pub >>-Adds :
    (f g : ByteBuf → Option ByteBuf) (s t : List ℕ) → Adds f s → Adds g t → Adds (f >> g) (s ++ t)
>>-Adds f g s t a c b h r =
    >>-Added f g s t b h
      (a b (omega (arith, length-append b.text (s ++ t), length-append s t, length-append b.text s))
        r)
      c

pub stay-Adds : Adds some []
stay-Adds b h r = record { after = b; returned = refl; text = sym (append-nil _); room = r }

pub unless-Adds :
    (c : Bool) (f : ByteBuf → Option ByteBuf) (s : List ℕ)
    → (c ≡ false → Adds f s)
    → Adds (unless c f) (if c then [] else s)
unfolding unless
unless-Adds true f s a = stay-Adds
unless-Adds false f s a = a refl

pub add_printed-Adds : (line : List ℕ) → length line < 512 → Adds (add_printed line) line
unfolding add_printed
add_printed-Adds line l b h r =
    rw (nle→leb 512 (length line) (λ q. omega arith)) (buf_add-Added line b h)
