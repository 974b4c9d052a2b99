-- ===== src/Proxy/Slots.antt =====
-- app/st_httpproxy/main.cpp: the slots of the backends, each with one connection, which the coroutines
-- of the requests take and give back while they run by turns.
use sthread.Prelude.{
  ℕ, zero, suc, ◌+◌, ◌-◌, ◌<◌, ◌≡◌, refl, sym, ap, ◌∙◌, inl, inr, Bool, true, false, ◌&&◌, some,
  if◌then◌else◌, ◌==◌, Bool-cases, Option-cases, some-injective, ==→eq, arith,
}
use sthread.Proxy.{Backends, free_slot, set_slot, take_slot, give_back, probe_backend, pick_backend}

-- how many requests hold a slot of a backend
abbrev pub Holders : Type 0
Holders = ℕ → ℕ → ℕ

abbrev pub is_at : ℕ → ℕ → ℕ → ℕ → Bool
is_at be slot j k = be == j && slot == k

abbrev pub one_more : Holders → ℕ → ℕ → Holders
one_more h be slot j k = h j k + (if is_at be slot j k then 1 else 0)

abbrev pub one_less : Holders → ℕ → ℕ → Holders
one_less h be slot j k = h j k - (if is_at be slot j k then 1 else 0)

-- what the coroutines do between two switches, with who holds what: `n` backends of `slots` slots
pub data Reach (n slots : ℕ) (s₀ : Backends) (h₀ : Holders) : Backends → Holders → Type 0 where
  here : Reach n slots s₀ h₀ s₀ h₀
  takes :
      {s : Backends} {h : Holders} (be slot : ℕ)
      → Reach n slots s₀ h₀ s h
      → (take_slot slots be s).0 ≡ some slot
      → Reach n slots s₀ h₀ (take_slot slots be s).1 (one_more h be slot)
  gives :
      {s : Backends} {h : Holders} (be slot : ℕ) (failed : Bool)
      → Reach n slots s₀ h₀ s h
      → 0 < h be slot
      → Reach n slots s₀ h₀ (give_back be slot failed s) (one_less h be slot)
  picks :
      {s : Backends} {h : Holders}
      → Reach n slots s₀ h₀ s h
      → Reach n slots s₀ h₀ (pick_backend n s).1 h
  probes :
      {s : Backends} {h : Holders} (be : ℕ) (ok : Bool) (status : ℕ)
      → Reach n slots s₀ h₀ s h
      → Reach n slots s₀ h₀ (probe_backend be ok status s) h

-- a slot is in use just if one request holds it, and no slot is held by two
abbrev pub Exclusive : Backends → Holders → Type 0
Exclusive s h = (j k : ℕ) → h j k ≡ (if s.in_use j k then 1 else 0)

free_slot_free :
    (used : ℕ → Bool) (i left k : ℕ)
    → free_slot used i left ≡ some k
    → (used k ≡ false) × (k < i + left)
unfolding free_slot
free_slot_free used i zero k h = absurd (ground (arith, h))
free_slot_free used i (suc left) k h = elim (Bool-cases (used i)) [
  | inl y ↦
      let (f, l) = free_slot_free used (i + 1) left k (rw (y, free_slot) at h) in
      (f, omega (arith, l))
  | inr y ↦
      let e : i ≡ k = some-injective (rw (y, free_slot) at h) in
      (ap used (sym e) ∙ y, omega (arith, e))
]

set_slot_in_use :
    (be slot : ℕ) (b : Bool) (s : Backends) (j k : ℕ)
    → (set_slot be slot b s).in_use j k ≡ (if is_at be slot j k then b else s.in_use j k)
unfolding set_slot
set_slot_in_use be slot b s j k = elim (Bool-cases (be == j)) [
  | inr y ↦ rw y refl
  | inl y ↦ elim (Bool-cases (slot == k)) [
    | inl z ↦ rw (y, z) refl
    | inr z ↦ rw (y, z) (ap (λ b. s.in_use b k) (==→eq be j y))
  ]
]

at_same :
    {A : Type 0} (be slot j k : ℕ) (f : ℕ → ℕ → A) → is_at be slot j k ≡ true → f be slot ≡ f j k
at_same be slot j k f y =
    let (a, b) : (be ≡ j) × (slot ≡ k) = ground arith in ap (λ q. f q slot) a ∙ ap (f j) b

take_slot-Exclusive :
    (slots be slot : ℕ) (s : Backends) (h : Holders)
    → Exclusive s h
    → (take_slot slots be s).0 ≡ some slot
    → Exclusive (take_slot slots be s).1 (one_more h be slot)
unfolding take_slot
take_slot-Exclusive slots be slot s h x q j k =
    elim (Option-cases (free_slot (s.in_use be) 0 slots)) [
      | inl e ↦ absurd (ground (arith, rw (e, take_slot) at q))
      | inr (found, e) ↦
          let same : found ≡ slot = some-injective (rw (e, take_slot) at q) in
          let free : s.in_use be slot ≡ false =
            ap (s.in_use be) (sym same) ∙ (free_slot_free (s.in_use be) 0 slots found e).0 in
          rw (e, same, take_slot, set_slot_in_use be slot true s j k)
            (elim (Bool-cases (is_at be slot j k)) [
              | inl y ↦ rw y (ground (arith, x j k, sym (at_same be slot j k s.in_use y) ∙ free))
              | inr y ↦ rw y (ground (arith, x j k))
            ])
    ]

give_back-Exclusive :
    (be slot : ℕ) (failed : Bool) (s : Backends) (h : Holders)
    → Exclusive s h
    → 0 < h be slot
    → Exclusive (give_back be slot failed s) (one_less h be slot)
unfolding give_back
give_back-Exclusive be slot failed s h x p j k =
    let put : (give_back be slot failed s).in_use j k
        ≡ (if is_at be slot j k then false else s.in_use j k) =
      (elim (Bool-cases failed) [ inl y ↦ rw (y, give_back) refl | inr y ↦ rw (y, give_back) refl ])
      ∙ set_slot_in_use be slot false s j k in
    rw put (elim (Bool-cases (is_at be slot j k)) [
      | inl y ↦ rw y (ground (arith, x j k, Bool-cases (s.in_use j k)))
      | inr y ↦ rw y (ground (arith, x j k))
    ])

pick_backend-Exclusive :
    (n : ℕ) (s : Backends) (h : Holders) → Exclusive s h → Exclusive (pick_backend n s).1 h
unfolding pick_backend
pick_backend-Exclusive n s h x j k = elim (Bool-cases (n == 0)) [
  | inl y ↦ rw (y, pick_backend) (x j k)
  | inr y ↦ rw (y, pick_backend) (x j k)
]

-- In every order in which requests take slots, give them back after a success or a failure, pick
-- backends, and in which backends are probed: a slot, and with it its connection, is held by at most
-- one request, and is marked as in use just as long as it is held.
pub Reach-Exclusive :
    {n slots : ℕ} {s₀ : Backends} {h₀ : Holders} {s : Backends} {h : Holders}
    → Exclusive s₀ h₀
    → Reach n slots s₀ h₀ s h
    → Exclusive s h
unfolding pick_backend probe_backend
Reach-Exclusive x here = x
Reach-Exclusive x (takes be slot r q) = take_slot-Exclusive _ be slot _ _ (Reach-Exclusive x r) q
Reach-Exclusive x (gives be slot failed r p) =
    give_back-Exclusive be slot failed _ _ (Reach-Exclusive x r) p
Reach-Exclusive x (picks r) = pick_backend-Exclusive _ _ _ (Reach-Exclusive x r)
Reach-Exclusive x (probes be ok status r) = Reach-Exclusive x r
