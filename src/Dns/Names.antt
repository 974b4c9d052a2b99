-- ===== src/Dns/Names.antt =====
-- app/st_dns/dns_proto.h: what st_dns_encode_qname writes and st_dns_decode_qname reads back.
use sthread.Prelude.{
  ℕ, ◌≤◌, ◌<◌, ◌≡◌, ◌≢◌, refl, sym, ap, ◌∙◌, inl, inr, List, [], ◌∷◌, ◌++◌, length, if◌then◌else◌,
  ◌==◌, ==→eq, Bool-cases,
}
use sthread.Dns.{labels}

-- the labels with a dot between each two
abbrev pub join : List (List ℕ) → List ℕ
join [] = []
join (l ∷ []) = l
join (l ∷ m ∷ ls) = l ++ b'.' ∷ join (m ∷ ls)

-- the bytes of labels in a packet, without the terminator
abbrev pub wire : List (List ℕ) → List ℕ
wire [] = []
wire (l ∷ ls) = length l ∷ (l ++ wire ls)

-- without the empty label behind a dot at the end
abbrev pub trim : List (List ℕ) → List (List ℕ)
trim [] = []
trim (l ∷ []) = l ∷ []
trim (l ∷ [] ∷ []) = l ∷ []
trim (l ∷ m ∷ ls) = l ∷ trim (m ∷ ls)

abbrev pub without_dot : List ℕ → List ℕ
without_dot [] = []
without_dot (c ∷ []) = if c == b'.' then [] else c ∷ []
without_dot (c ∷ d ∷ s) = c ∷ without_dot (d ∷ s)

abbrev pub All : (List ℕ → Type 0) → List (List ℕ) → Type 0
All P [] = Unit
All P (l ∷ ls) = P l × All P ls

abbrev pub IsLabel : List ℕ → Type 0
IsLabel l = (0 < length l) × (length l ≤ 63)

pub labels_cons : (s : List ℕ) → (l : List ℕ) × (ls : List (List ℕ)) × (labels s ≡ l ∷ ls)
unfolding labels
labels_cons [] = ([], [], refl)
labels_cons (c ∷ s) =
    let (l, ls, e) = labels_cons s in
    elim (Bool-cases (c == b'.')) [
      | inl y ↦ ([], l ∷ ls, rw (e, y))
      | inr y ↦ (c ∷ l, ls, rw (e, y))
    ]

join-cons : (c : ℕ) (l : List ℕ) (ls : List (List ℕ)) → join ((c ∷ l) ∷ ls) ≡ c ∷ join (l ∷ ls)
join-cons c l [] = refl
join-cons c l (m ∷ ls) = refl

pub join-labels : (s : List ℕ) → join (labels s) ≡ s
unfolding labels
join-labels [] = refl
join-labels (c ∷ s) =
    let (l, ls, e) = labels_cons s in
    let ih : join (l ∷ ls) ≡ s = rw e at (join-labels s) in
    elim (Bool-cases (c == b'.')) [
      | inl y ↦ rw (e, y) (ap (◌∷◌ b'.') ih ∙ ap (λ v. v ∷ s) (sym (==→eq c _ y)))
      | inr y ↦ rw (e, y) (join-cons c l ls ∙ ap (◌∷◌ c) ih)
    ]

trim-nil :
    (l : List ℕ) (ls : List (List ℕ))
    → l ∷ ls ≢ [] ∷ []
    → join (trim ([] ∷ l ∷ ls)) ≡ b'.' ∷ join (trim (l ∷ ls))
trim-nil [] [] h = absurd (h refl)
trim-nil (x ∷ l) [] h = refl
trim-nil [] ([] ∷ []) h = refl
trim-nil [] ((y ∷ m) ∷ []) h = refl
trim-nil (x ∷ l) ([] ∷ []) h = refl
trim-nil (x ∷ l) ((y ∷ m) ∷ []) h = refl
trim-nil [] ([] ∷ n ∷ ls) h = refl
trim-nil [] ((y ∷ m) ∷ n ∷ ls) h = refl
trim-nil (x ∷ l) ([] ∷ n ∷ ls) h = refl
trim-nil (x ∷ l) ((y ∷ m) ∷ n ∷ ls) h = refl

trim-cons :
    (c : ℕ) (l : List ℕ) (ls : List (List ℕ))
    → join (trim ((c ∷ l) ∷ ls)) ≡ c ∷ join (trim (l ∷ ls))
trim-cons c l [] = refl
trim-cons c l ([] ∷ []) = refl
trim-cons c l ((y ∷ m) ∷ []) = refl
trim-cons c l ([] ∷ n ∷ ls) = join-cons c l (trim ([] ∷ n ∷ ls))
trim-cons c l ((y ∷ m) ∷ n ∷ ls) = join-cons c l (trim ((y ∷ m) ∷ n ∷ ls))

nil-ne : {x : ℕ} {xs : List ℕ} → ◌≡◌ {A = List ℕ} [] (x ∷ xs) → ⊥
nil-ne q = cc

labels-cons :
    (c : ℕ) (s l : List ℕ) (ls : List (List ℕ))
    → labels s ≡ l ∷ ls
    → labels (c ∷ s) ≡ (if c == b'.' then [] ∷ l ∷ ls else (c ∷ l) ∷ ls)
unfolding labels
labels-cons c s l ls e = rw e

labels-nil : labels [] ≡ [] ∷ []
unfolding labels
labels-nil = refl

pub join-trim-labels : (s : List ℕ) → join (trim (labels s)) ≡ without_dot s
join-trim-labels [] = rw labels-nil
join-trim-labels (c ∷ []) = elim (Bool-cases (c == b'.')) [
  | inl y ↦ rw (labels-cons c [] [] [] labels-nil, y)
  | inr y ↦ rw (labels-cons c [] [] [] labels-nil, y)
]
join-trim-labels (c ∷ d ∷ s) =
    let (l, ls, e) = labels_cons (d ∷ s) in
    let whole : join (l ∷ ls) ≡ d ∷ s = rw e at (join-labels (d ∷ s)) in
    let ih : join (trim (l ∷ ls)) ≡ without_dot (d ∷ s) = rw e at (join-trim-labels (d ∷ s)) in
    let go : join (trim (if c == b'.' then [] ∷ l ∷ ls else (c ∷ l) ∷ ls))
        ≡ c ∷ without_dot (d ∷ s) =
      elim (Bool-cases (c == b'.')) [
        | inl y ↦ rw y (
            trim-nil l ls (λ q. absurd (nil-ne (sym (ap join q) ∙ whole)))
            ∙ rw (sym (==→eq c _ y)) (ap (◌∷◌ c) ih))
        | inr y ↦ rw y (trim-cons c l ls ∙ ap (◌∷◌ c) ih)
      ] in
    ap (λ v. join (trim v)) (labels-cons c (d ∷ s) l ls e) ∙ go
