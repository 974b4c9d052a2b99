-- ===== src/Chat/Mailbox.antt =====
-- app/st_chat/server.cpp: a mailbox holds a queue of at most eight lines.
use mathlib.Core.Path.{subst}
use sthread.Prelude.{
  ℕ, zero, suc, ◌+◌, ◌-◌, ◌%◌, ◌≤◌, ◌<◌, ◌≡◌, ◌∙◌, refl, ap, List, [], ◌∷◌, ◌++◌, length, take_all,
  Bool, true, false, ◌||◌, Option, none, some, if◌then◌else◌, leb, ◌==◌, update, Bool-cases, inl,
  inr, ℕ-cases, arith,
}
use sthread.Chat.{Mail, mail_push, mail_pop}

-- `n` lines from place `h` on, going round at 8
abbrev pub window : (ℕ → List ℕ) → ℕ → ℕ → List (List ℕ)
window t h zero = []
window t h (suc n) = t (h % 8) ∷ window t (h + 1) n

-- the lines of a mailbox, oldest first
unfoldable pub contents : Mail → List (List ℕ)
contents m = window m.text m.head m.n

length-window : (t : ℕ → List ℕ) (h n : ℕ) → length (window t h n) ≡ n
length-window t h zero = refl
length-window t h (suc n) = ap suc (length-window t (h + 1) n)

window_mod : (t : ℕ → List ℕ) (n a b : ℕ) → a % 8 ≡ b % 8 → window t a n ≡ window t b n
window_mod t zero a b e = refl
window_mod t (suc n) a b e = rw (e, window_mod t n (a + 1) (b + 1) (omega arith)) refl

-- a write just behind a window
window-update :
    (t : ℕ → List ℕ) (line : List ℕ) (n h i : ℕ)
    → n < 8
    → i ≡ (h + n) % 8
    → window (update t i line) h (suc n) ≡ window t h n ++ line ∷ []
window-update t line zero h i b e = ground arith
window-update t line (suc n) h i b e =
    let away : (i == h % 8) ≡ false = ground arith in
    rw away (ap (◌∷◌ (t (h % 8))) (window-update t line n (h + 1) i (omega arith) (omega arith)))

-- every line can be taken out whole
abbrev pub Fit : List (List ℕ) → Type 0
Fit [] = Unit
Fit (l ∷ ls) = (0 < length l) × (length l < 512) × Fit ls

pub record IsValid (m : Mail) : Type 0 where
  pub head_in : m.head < 8
  pub n_in : m.n ≤ 8
  pub fit : Fit (contents m)

-- a queue of at most eight lines of 1 to 511 bytes, oldest first
abbrev pub push_queue : List (List ℕ) → List ℕ → Bool × List (List ℕ)
push_queue q line =
    if length line == 0 || (leb 512 (length line) || leb 8 (length q))
    then (false, q)
    else (true, q ++ line ∷ [])

abbrev pub pop_queue : List (List ℕ) → Option (List ℕ) × List (List ℕ)
pop_queue [] = (none, [])
pop_queue (l ∷ ls) = (some l, ls)

Fit-snoc :
    (q : List (List ℕ)) (l : List ℕ) → Fit q → 0 < length l → length l < 512 → Fit (q ++ l ∷ [])
Fit-snoc [] l f a b = (a, b, tt)
Fit-snoc (x ∷ q) l f a b = (f.0, f.1, Fit-snoc q l f.2 a b)

pub length-contents : (m : Mail) → length (contents m) ≡ m.n
unfolding contents
length-contents m = length-window m.text m.head m.n

-- `m'` holds just the lines of `q`
abbrev pub HasLines : Mail → List (List ℕ) → Type 0
HasLines m q = IsValid m × (contents m ≡ q)

pushed_whole :
    (m : Mail) (line : List ℕ)
    → IsValid m
    → 0 < length line
    → length line < 512
    → m.n < 8
    → HasLines
        (record m { text = update m.text ((m.head + m.n) % 8) line; n = m.n + 1 })
        (contents m ++ line ∷ [])
unfolding contents
pushed_whole m line v a b c =
    let q : window (update m.text ((m.head + m.n) % 8) line) m.head (m.n + 1)
        ≡ window m.text m.head m.n ++ line ∷ [] =
      ap (window (update m.text ((m.head + m.n) % 8) line) m.head) {y = suc m.n} (omega arith)
      ∙ window-update m.text line m.n m.head ((m.head + m.n) % 8) c refl in
    (
      record {
        head_in = v.head_in;
        n_in = omega arith;
        fit = rw q (Fit-snoc (window m.text m.head m.n) line v.fit a b);
      },
      q,
    )

pub mail_push_queue :
    (m : Mail) (line : List ℕ)
    → IsValid m
    → ((mail_push m line).0 ≡ (push_queue (contents m) line).0)
      × HasLines (mail_push m line).1 (push_queue (contents m) line).1
unfolding mail_push
mail_push_queue m line v =
    let same : leb 8 (length (contents m)) ≡ leb 8 m.n = ap (leb 8) (length-contents m) in
    elim (Bool-cases (length line == 0 || (leb 512 (length line) || leb 8 m.n))) [
      | inl y ↦ rw (same, y) (refl, (v, refl))
      | inr n ↦
          rw (same, n)
            (
              refl,
              pushed_whole m line v (ground (arith, n)) (ground (arith, n)) (ground (arith, n)),
            )
    ]

popped_whole :
    (m : Mail) (n : ℕ)
    → IsValid m
    → m.n ≡ suc n
    → (contents m ≡ m.text m.head ∷ window m.text (m.head + 1) n)
      × HasLines (record m { head = (m.head + 1) % 8; n = m.n - 1 }) (window m.text (m.head + 1) n)
unfolding contents
popped_whole m n v e =
    let low : m.head % 8 ≡ m.head = omega (arith, v.head_in) in
    let q : window m.text m.head m.n ≡ m.text m.head ∷ window m.text (m.head + 1) n =
      ap (window m.text m.head) e ∙ ap (λ k. m.text k ∷ window m.text (m.head + 1) n) low in
    let r : window m.text ((m.head + 1) % 8) (m.n - 1) ≡ window m.text (m.head + 1) n =
      ap (window m.text ((m.head + 1) % 8)) {y = n} (omega arith)
      ∙ window_mod m.text n ((m.head + 1) % 8) (m.head + 1) (omega arith) in
    (
      q,
      (
        record {
          head_in = omega arith;
          n_in = omega (arith, v.n_in);
          fit = rw r (subst Fit q v.fit).2;
        },
        r,
      ),
    )

pub mail_pop_queue :
    (m : Mail)
    → IsValid m
    → ((mail_pop m 512).0 ≡ (pop_queue (contents m)).0)
      × HasLines (mail_pop m 512).1 (pop_queue (contents m)).1
unfolding mail_pop
mail_pop_queue m v = elim (ℕ-cases m.n) [
  | inl z ↦
      let e : contents m ≡ [] = unfold contents in ap (window m.text m.head) z in
      let y : (m.n == 0 || leb 512 1) ≡ true = ground arith in rw (e, y) (refl, (v, e))
  | inr (n, q) ↦
      let (whole, rest) = popped_whole m n v q in
      let first = (subst Fit whole v.fit) in
      let y : (m.n == 0 || leb 512 1) ≡ false = ground arith in
      let short : leb 512 (length (m.text m.head)) ≡ false = ground (arith, first.1) in
      rw (whole, y, short)
        (ap some (take_all (length (m.text m.head)) (m.text m.head) (omega arith)), rest)
]

pub data MailOp : Type 0 where
  puts : List ℕ → MailOp
  takes : MailOp

-- what broadcast and drain_mail see of a mailbox: whether the line was taken, and the line
abbrev pub Reply : Type 0
Reply = Bool × Option (List ℕ)

unfoldable pub run_mail : Mail → List MailOp → List Reply
run_mail m [] = []
run_mail m (puts l ∷ ops) = let r = mail_push m l in (r.0, none) ∷ run_mail r.1 ops
run_mail m (takes ∷ ops) = let r = mail_pop m 512 in (true, r.0) ∷ run_mail r.1 ops

unfoldable pub run_queue : List (List ℕ) → List MailOp → List Reply
run_queue q [] = []
run_queue q (puts l ∷ ops) = let r = push_queue q l in (r.0, none) ∷ run_queue r.1 ops
run_queue q (takes ∷ ops) = let r = pop_queue q in (true, r.0) ∷ run_queue r.1 ops

-- Every sequence of mail_push and of mail_pop into a buffer of 512 bytes, on a mailbox whose head is a
-- place and which holds at most eight lines of 1 to 511 bytes: the results are those of the queue of
-- its lines, first in first out, which takes a line of 1 to 511 bytes while it holds fewer than eight.
pub run_mail-run_queue :
    (ops : List MailOp) (m : Mail) → IsValid m → run_mail m ops ≡ run_queue (contents m) ops
unfolding run_mail run_queue
run_mail-run_queue [] m v = refl
run_mail-run_queue (puts l ∷ ops) m v =
    let (told, (rest, q)) = mail_push_queue m l v in
    rw (told, run_mail-run_queue ops (mail_push m l).1 rest, q) refl
run_mail-run_queue (takes ∷ ops) m v =
    let (told, (rest, q)) = mail_pop_queue m v in
    rw (told, run_mail-run_queue ops (mail_pop m 512).1 rest, q) refl
