-- ===== src/Resp/Print.antt =====
-- app/st_redisclient/resp.cc: %d of snprintf, read back by atoi, and the lines that find_crlf ends.
use mathlib.Core.List.{append_assoc}
use sthread.Prelude.{
  none, sym, heads, tails, ◌≢◌, ℕ, zero, suc, ◌+◌, ◌*◌, ◌/◌, ◌%◌, ◌<◌, ◌≤◌, ◌≡◌, ◌∙◌, ap, List, [],
  ◌∷◌, ◌++◌, length, length-append, some, true, false, ◌==◌, lt→ltb, nlt→ltb, dec_lt, Option-cases,
  inl, inr, refl, arith,
}
use sthread.Prelude.Int.{pos}
use sthread.Resp.{
  read_digits, skip_spaces, atoi, is_digit, is_space, find_crlf, decimal, decimal_loop,
}

split10 : (n : ℕ) → n / 10 * 10 + n % 10 ≡ n
split10 n = omega arith

rem10 : (n : ℕ) → n % 10 < 10
rem10 n = omega arith

div10 : (n : ℕ) → 10 ≤ n → n / 10 < n
div10 n h = omega arith

read_digits-digit :
    (acc d : ℕ) (s : List ℕ)
    → d < 10
    → read_digits acc ((b'0' + d) ∷ s) ≡ read_digits (acc * 10 + d) s
unfolding read_digits
read_digits-digit acc d s h =
    let y : is_digit (b'0' + d) ≡ true = ground arith in
    rw y (ap (λ k. read_digits (acc * 10 + k) s) (omega arith))

read_digits-decimal_loop :
    (fuel n : ℕ) (s : List ℕ)
    → n < fuel
    → read_digits 0 (decimal_loop fuel n ++ s) ≡ read_digits n s
unfolding decimal_loop
read_digits-decimal_loop zero n s h = absurd (omega arith)
read_digits-decimal_loop (suc fuel) n s h = elim (dec_lt n 10) [
  | yes y ↦ rw (lt→ltb n 10 y) (read_digits-digit 0 n s y ∙ ap (λ k. read_digits k s) (omega arith))
  | no y ↦ rw (nlt→ltb n 10 y) (
      ap (read_digits 0) (append_assoc (decimal_loop fuel (n / 10)) _ s)
      ∙ read_digits-decimal_loop fuel (n / 10) ((b'0' + n % 10) ∷ s)
          (omega (arith, div10 n (omega arith)))
      ∙ read_digits-digit (n / 10) (n % 10) s (rem10 n)
      ∙ ap (λ k. read_digits k s) (split10 n))
]

stop : (n : ℕ) (rest : List ℕ) → read_digits n (13 ∷ rest) ≡ n
unfolding read_digits
stop n rest = refl

-- bytes that are digits
pub Digits : List ℕ → Type 0
Digits [] = Unit
Digits (c ∷ s) = (is_digit c ≡ true) × Digits s

Digits-snoc : (s : List ℕ) (d : ℕ) → Digits s → d < 10 → Digits (s ++ (b'0' + d) ∷ [])
unfolding Digits
Digits-snoc [] d v h = (ground arith, tt)
Digits-snoc (c ∷ s) d v h = (v.0, Digits-snoc s d v.1 h)

pub decimal_loop-Digits : (fuel n : ℕ) → Digits (decimal_loop fuel n)
unfolding decimal_loop Digits
decimal_loop-Digits zero n = tt
decimal_loop-Digits (suc fuel) n = elim (dec_lt n 10) [
  | yes y ↦ rw (lt→ltb n 10 y) (ground arith, tt)
  | no y ↦ rw (nlt→ltb n 10 y) (
      Digits-snoc (decimal_loop fuel (n / 10)) (n % 10) (decimal_loop-Digits fuel (n / 10))
        (rem10 n))
]

decimal_loop_pos : (fuel n : ℕ) → 0 < length (decimal_loop (suc fuel) n)
unfolding decimal_loop
decimal_loop_pos fuel n = elim (dec_lt n 10) [
  | yes y ↦ rw (lt→ltb n 10 y) (omega arith)
  | no y ↦
      rw (nlt→ltb n 10 y)
        (omega (arith, length-append (decimal_loop fuel (n / 10)) ((b'0' + n % 10) ∷ [])))
]

-- atoi reads digits that are there as they are
atoi-Digits :
    (s rest : List ℕ) → Digits s → 0 < length s → atoi (s ++ rest) ≡ pos (read_digits 0 (s ++ rest))
unfolding atoi skip_spaces Digits
atoi-Digits [] rest v h = absurd (omega arith)
atoi-Digits (c ∷ s) rest v h =
    let a : is_space c ≡ false = ground (arith, v.0) in
    let m : (c == b'-') ≡ false = ground (arith, v.0) in
    let p : (c == b'+') ≡ false = ground (arith, v.0) in rw (a, m, p) refl

pub atoi-decimal : (n : ℕ) (rest : List ℕ) → atoi (decimal n ++ 13 ∷ rest) ≡ pos n
unfolding decimal
atoi-decimal n rest =
    let end : read_digits n (13 ∷ rest) ≡ n = stop n rest in
    atoi-Digits (decimal_loop (suc n) n) (13 ∷ rest) (decimal_loop-Digits (suc n) n)
      (decimal_loop_pos n n)
    ∙ ap pos (read_digits-decimal_loop (suc n) n (13 ∷ rest) (omega arith) ∙ end)

-- the first end of a line
find_crlf-cons :
    (c i : ℕ) (s : List ℕ)
    → (c == 13) ≡ false
    → find_crlf s ≡ some i
    → find_crlf (c ∷ s) ≡ some (i + 1)
unfolding find_crlf
find_crlf-cons c i [] n h = absurd (cc)
find_crlf-cons c i (d ∷ s) n h = rw (h, n) refl

find_crlf-Digits : (s rest : List ℕ) → Digits s → find_crlf (s ++ 13 ∷ 10 ∷ rest) ≡ some (length s)
unfolding find_crlf Digits
find_crlf-Digits [] rest v = elim (Option-cases (find_crlf (10 ∷ rest))) [
  | inl n ↦ rw n refl
  | inr (i, y) ↦ rw y refl
]
find_crlf-Digits (c ∷ s) rest v =
    find_crlf-cons c (length s) (s ++ 13 ∷ 10 ∷ rest) (ground (arith, v.0))
      (find_crlf-Digits s rest v.1)
    ∙ ap some (omega arith)

-- the line of a number, after its type byte
pub find_crlf-line :
    (c n : ℕ) (rest : List ℕ)
    → (c == 13) ≡ false
    → find_crlf (c ∷ (decimal n ++ 13 ∷ 10 ∷ rest)) ≡ some (length (decimal n) + 1)
unfolding decimal
find_crlf-line c n rest h =
    find_crlf-cons c (length (decimal n)) (decimal n ++ 13 ∷ 10 ∷ rest) h
      (find_crlf-Digits (decimal n) rest (decimal_loop-Digits (suc n) n))

pub find_crlf-empty :
    (c : ℕ) (s : List ℕ) → (c == 13) ≡ false → find_crlf (c ∷ 13 ∷ 10 ∷ s) ≡ some 1
unfolding Digits
find_crlf-empty c s h = find_crlf-cons c 0 (13 ∷ 10 ∷ s) h (find_crlf-Digits [] s tt)

pub decimal-Digits : (n : ℕ) → Digits (decimal n)
unfolding decimal
decimal-Digits n = decimal_loop-Digits (suc n) n

find_crlf-none-cons :
    (c : ℕ) (s : List ℕ) → (c == 13) ≡ false → find_crlf s ≡ none → find_crlf (c ∷ s) ≡ none
unfolding find_crlf
find_crlf-none-cons c [] n h = refl
find_crlf-none-cons c (d ∷ s) n h = rw (h, n) refl

-- a line that is cut off has no end
find_crlf-cut :
    (s u m : List ℕ) → Digits s → s ++ 13 ∷ 10 ∷ [] ≡ u ++ m → m ≢ [] → find_crlf u ≡ none
unfolding find_crlf Digits
find_crlf-cut s [] m v e n = refl
find_crlf-cut [] (y ∷ []) m v e n = refl
find_crlf-cut [] (y ∷ z ∷ []) m v e n = absurd (n (sym (tails (tails e))))
find_crlf-cut [] (y ∷ z ∷ x ∷ u) m v e n = absurd (omega (arith, ap length e))
find_crlf-cut (c ∷ s) (y ∷ u) m v e n =
    find_crlf-none-cons y u (ground (arith, v.0, heads e)) (find_crlf-cut s u m v.1 (tails e) n)

pub find_crlf-cut_line :
    (c n : ℕ) (u m : List ℕ)
    → (c == 13) ≡ false
    → c ∷ (decimal n ++ 13 ∷ 10 ∷ []) ≡ u ++ m
    → m ≢ []
    → find_crlf u ≡ none
unfolding find_crlf
find_crlf-cut_line c n [] m h e k = refl
find_crlf-cut_line c n (y ∷ u) m h e k =
    find_crlf-none-cons y u (ground (arith, h, heads e))
      (find_crlf-cut (decimal n) u m (decimal-Digits n) (tails e) k)
