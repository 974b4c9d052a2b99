-- ===== src/Proxy/Pick.antt =====
-- app/st_httpproxy/main.cpp: which backend is picked, and in which order.
use sthread.Prelude.{
  ℕ, zero, suc, ◌+◌, ◌-◌, ◌%◌, ◌≤◌, ◌<◌, ◌≡◌, refl, sym, ap, ◌∙◌, inl, inr, Bool, true, false,
  Option, none, some, if◌then◌else◌, leb, Bool-cases, some-injective, ne→==, ℕ_discrete, dec_le,
  arith,
}
use native.Mathlib.Nat.{mod-eq_of_lt, add-mod_right}
use sthread.Proxy.{Backends, scan, pick_backend}

-- the backend at the place `j` of a round that begins at `start`
abbrev pub place : ℕ → ℕ → ℕ → ℕ
place n start j = (start + j) % n

scan_missing :
    (alive : ℕ → Bool) (n start i left : ℕ)
    → scan alive n start i left ≡ none
    → (j : ℕ) → i ≤ j
    → j < i + left
    → alive (place n start j) ≡ false
unfolding scan
scan_missing alive n start i zero h j a b = absurd (omega arith)
scan_missing alive n start i (suc left) h j a b = elim (Bool-cases (alive (place n start i))) [
  | inl y ↦ absurd (ground (arith, rw (y, scan) at h))
  | inr y ↦ elim (ℕ_discrete i j) [
    | yes e ↦ ap (λ k. alive (place n start k)) (sym e) ∙ y
    | no e ↦
        scan_missing alive n start (i + 1) left (rw (y, scan) at h) j (omega arith) (omega arith)
  ]
]

-- the first backend of the round that is alive
pub record First (alive : ℕ → Bool) (n start i left b : ℕ) : Type 0 where
  pub at_place : ℕ
  pub from : i ≤ at_place
  pub within : at_place < i + left
  pub same : b ≡ place n start at_place
  pub alive_there : alive b ≡ true
  pub dead_before : (e : ℕ) → i ≤ e → e < at_place → alive (place n start e) ≡ false

scan_found :
    (alive : ℕ → Bool) (n start i left b : ℕ)
    → scan alive n start i left ≡ some b
    → First alive n start i left b
unfolding scan
scan_found alive n start i zero b h = absurd (ground (arith, h))
scan_found alive n start i (suc left) b h = elim (Bool-cases (alive (place n start i))) [
  | inl y ↦
      let e : place n start i ≡ b = some-injective (rw (y, scan) at h) in
      record {
        at_place = i;
        from = omega arith;
        within = omega arith;
        same = sym e;
        alive_there = ap alive (sym e) ∙ y;
        dead_before = λ e a c. absurd (omega arith);
      }
  | inr y ↦
      let f = scan_found alive n start (i + 1) left b (rw (y, scan) at h) in
      record {
        at_place = f.at_place;
        from = omega (arith, f.from);
        within = omega (arith, f.within);
        same = f.same;
        alive_there = f.alive_there;
        dead_before = λ e a c. elim (ℕ_discrete i e) [
          | yes q ↦ ap (λ k. alive (place n start k)) (sym q) ∙ y
          | no q ↦ f.dead_before e (omega arith) c
        ];
      }
]

-- where the round begins
abbrev pub start_of : ℕ → Backends → ℕ
start_of n s = if leb n s.next then 0 else s.next

-- a backend, or a proof that none is alive; the next round begins one place later
pub data Picked (n : ℕ) (s : Backends) : Option ℕ → Type 0 where
  picked : (b : ℕ) → First s.alive n (start_of n s) 0 n b → Picked n s (some b)
  all_dead : ((b : ℕ) → b < n → s.alive b ≡ false) → Picked n s none

-- each backend has a place in the round
place_of : (n start b : ℕ) → start < n → b < n → (j : ℕ) × (j < n) × (place n start j ≡ b)
place_of n start b p q = elim (dec_le start b) [
  | yes y ↦ (b - start, omega arith, ap (λ k. k % n) (omega arith) ∙ mod-eq_of_lt q)
  | no y ↦ (
    b + n - start,
    omega arith,
    ap (λ k. k % n) {x = start + (b + n - start)} {y = b + n} (omega arith)
        ∙ add-mod_right b n
        ∙ mod-eq_of_lt q,
  )
]

start_of_lt : (n : ℕ) (s : Backends) → 0 < n → start_of n s < n
start_of_lt n s p = ground arith

scan-Picked :
    (n : ℕ) (s : Backends) (r : Option ℕ)
    → 0 < n
    → scan s.alive n (start_of n s) 0 n ≡ r
    → Picked n s r
scan-Picked n s none p h = all_dead λ b l.
    let (j, m, e) = place_of n (start_of n s) b (start_of_lt n s p) l in
    ap s.alive (sym e) ∙ scan_missing s.alive n (start_of n s) 0 n h j (omega arith) (omega arith)
scan-Picked n s (some b) p h = picked b (scan_found s.alive n (start_of n s) 0 n b h)

-- With at least one backend, pick_backend gives the first one that is alive in the round from
-- `g_next` on, and NULL only if no backend is alive. It changes `g_next` alone, to the place behind
-- the start of the round, which is below the number of backends again: which backends are alive and
-- which slots are in use is as before.
pub pick_backend-Picked :
    (n : ℕ) (s : Backends)
    → 0 < n
    → Picked n s (pick_backend n s).0
      × ((pick_backend n s).1 ≡ record s { next = (start_of n s + 1) % n })
      × ((pick_backend n s).1.next < n)
unfolding pick_backend
pick_backend-Picked n s p =
    rw (ne→== n 0 (λ q. omega arith)) (scan-Picked n s _ p refl, refl, omega (arith))
