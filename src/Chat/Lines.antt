-- ===== src/Chat/Lines.antt =====
-- app/st_chat/server.cpp: feed finds the lines of a stream, however it is cut.
use mathlib.Core.List.{append_assoc, append-nil}
use sthread.Prelude.{
  ℕ, ◌+◌, ◌≤◌, ◌≡◌, ◌∙◌, refl, sym, ap, List, [], ◌∷◌, ◌++◌, length, length-append, Bool, true,
  false, if◌then◌else◌, ltb, ◌==◌, Bool-cases, inl, inr, arith,
}
use sthread.Chat.{feed, line_of}

-- no end of a line, and room for it
unfoldable pub IsPlain : List ℕ → Type 0
IsPlain [] = Unit
IsPlain (c ∷ l) = ((c == 10) ≡ false) × IsPlain l

abbrev pub IsLine : List ℕ → Type 0
IsLine l = IsPlain l × (length l ≤ 1023)

abbrev pub AllLines : List (List ℕ) → Type 0
AllLines [] = Unit
AllLines (l ∷ ls) = IsLine l × AllLines ls

-- lines on the wire
abbrev pub wire : List (List ℕ) → List ℕ
wire [] = []
wire (l ∷ ls) = l ++ 10 ∷ wire ls

abbrev pub concat : List (List ℕ) → List ℕ
concat [] = []
concat (b ∷ bs) = b ++ concat bs

module _ {S : Type 0} (on : List ℕ → S → Bool × S) where
  -- the lines one after the other, until one quits
  pub run_lines : List (List ℕ) → S → Bool × S
  run_lines [] s = (false, s)
  run_lines (l ∷ ls) s =
      let r = on (line_of l) s in let rest = run_lines ls r.1 in if r.0 then (true, r.1) else rest

  -- what st_recv gives, part after part, until feed says that the peer quits
  unfoldable pub feed_all : List ℕ → List (List ℕ) → S → Bool × List ℕ × S
  feed_all acc [] s = (false, acc, s)
  feed_all acc (b ∷ bs) s =
      let r = feed on acc b s in let rest = feed_all r.1 bs r.2 in if r.0 then r else rest

  feed-append :
      (a b acc : List ℕ) (s : S)
      → feed on acc (a ++ b) s ≡ (
          if (feed on acc a s).0
          then feed on acc a s
          else feed on (feed on acc a s).1 b (feed on acc a s).2)
  unfolding feed
  feed-append [] b acc s = refl
  feed-append (c ∷ a) b acc s = elim (Bool-cases (c == 10)) [
    | inl y ↦ elim (Bool-cases (on (line_of acc) s).0) [
      | inl q ↦ rw (y, q) refl
      | inr q ↦ rw (y, q) (feed-append a b [] (on (line_of acc) s).1)
    ]
    | inr n ↦ rw n (feed-append a b (if ltb (length acc) 1023 then acc ++ c ∷ [] else []) s)
  ]

  feed_all-concat :
      (bs : List (List ℕ)) (acc : List ℕ) (s : S) → feed_all acc bs s ≡ feed on acc (concat bs) s
  unfolding feed_all feed
  feed_all-concat [] acc s = refl
  feed_all-concat (b ∷ bs) acc s =
      let r = feed on acc b s in
      ap (λ t. if r.0 then r else t) (feed_all-concat bs r.1 r.2)
      ∙ sym (feed-append b (concat bs) acc s)

  feed-plain :
      (l rest acc : List ℕ) (s : S)
      → IsPlain l
      → length acc + length l ≤ 1023
      → feed on acc (l ++ rest) s ≡ feed on (acc ++ l) rest s
  unfolding feed IsPlain
  feed-plain [] rest acc s p f = ap (λ a. feed on a rest s) (sym (append-nil acc))
  feed-plain (c ∷ l) rest acc s p f =
      let room : ltb (length acc) 1023 ≡ true = ground arith in
      rw (p.0, room)
        (feed-plain l rest (acc ++ c ∷ []) s p.1 (omega (arith, length-append acc (c ∷ [])))
          ∙ ap (λ a. feed on a rest s) (append_assoc acc (c ∷ []) l))

  -- what is left of the stream when no line has quit
  abbrev pub kept : Bool × List ℕ × S → List ℕ
  kept r = if r.0 then [] else r.1

  feed-newline :
      (acc rest : List ℕ) (s : S)
      → let r = on (line_of acc) s in
        feed on acc (10 ∷ rest) s ≡ (if r.0 then (true, acc, r.1) else feed on [] rest r.1)
  unfolding feed
  feed-newline acc rest s = refl

  feed-wire :
      (ls : List (List ℕ)) (tail : List ℕ) (s : S)
      → AllLines ls
      → IsLine tail
      → let r = feed on [] (wire ls ++ tail) s in
        (r.0 ≡ (run_lines ls s).0)
        × (r.2 ≡ (run_lines ls s).1)
        × (kept r ≡ (if (run_lines ls s).0 then [] else tail))
  unfolding run_lines
  feed-wire [] tail s v t =
      let e : feed on [] tail s ≡ (false, tail, s) =
        ap (λ b. feed on [] b s) (sym (append-nil tail))
        ∙ feed-plain tail [] [] s t.0 (omega (arith, t.1))
        ∙ unfold feed in refl in
      rw e (refl, refl, refl)
  feed-wire (l ∷ ls) tail s v t =
      let e : feed on [] (wire (l ∷ ls) ++ tail) s ≡ (
          if (on (line_of l) s).0
          then (true, l, (on (line_of l) s).1)
          else feed on [] (wire ls ++ tail) (on (line_of l) s).1) =
        ap (λ b. feed on [] b s) (append_assoc l (10 ∷ wire ls) tail)
        ∙ feed-plain l (10 ∷ (wire ls ++ tail)) [] s v.0.0 (omega (arith, v.0.1))
        ∙ feed-newline l (wire ls ++ tail) s in
      rw e (elim (Bool-cases (on (line_of l) s).0) [
        | inl q ↦ rw q (refl, refl, refl)
        | inr q ↦ rw q (feed-wire ls tail (on (line_of l) s).1 v.1 t)
      ])

  -- A stream of lines, each of at most 1023 bytes before its end, and an unfinished line of as many:
  -- however st_recv cuts it into parts, feeding them one after the other calls on_line for just these
  -- lines, in order and up to the first that quits, each without its carriage return and cut to 500
  -- bytes. It reports the quit, and if there is none it keeps the unfinished line.
  pub feed_all-wire :
      (bs ls : List (List ℕ)) (tail : List ℕ) (s : S)
      → concat bs ≡ wire ls ++ tail
      → AllLines ls
      → IsLine tail
      → let r = feed_all [] bs s in
        (r.0 ≡ (run_lines ls s).0)
        × (r.2 ≡ (run_lines ls s).1)
        × (kept r ≡ (if (run_lines ls s).0 then [] else tail))
  feed_all-wire bs ls tail s e v t =
      let q : feed_all [] bs s ≡ feed on [] (wire ls ++ tail) s =
        feed_all-concat bs [] s ∙ ap (λ b. feed on [] b s) e in
      rw q (feed-wire ls tail s v t)

  -- A line that is too long is not dropped: the bytes that follow its first 1024 are the next line.
  pub feed-long :
      (long rest : List ℕ) (c : ℕ) (s : S)
      → IsPlain long
      → length long ≡ 1023
      → (c == 10) ≡ false
      → feed on [] (long ++ c ∷ rest) s ≡ feed on [] rest s
  feed-long long rest c s p f n =
      feed-plain long (c ∷ rest) [] s p (omega arith)
      ∙ (let full : ltb (length long) 1023 ≡ false = ground arith in
          unfold feed in rw (n, full) refl)
