-- ===== src/Resp/Spill.antt =====
-- app/st_redisclient/resp.cc: a number is read past the end of its line.
use sthread.Prelude.{ℕ, zero, suc, ◌≡◌, ◌∙◌, ap, refl, List, [], ◌∷◌, ◌++◌, arith}
use sthread.Prelude.Int.{pos}
use sthread.Resp.{
  resp_int, complete, parse_one, parse_kind, parse_int_value, atoi, skip_spaces, decimal,
}
use sthread.Resp.Print.{atoi-decimal, find_crlf-empty}

-- strtoll skips the end of an empty line
atoi-empty : (s : List ℕ) → atoi (13 ∷ 10 ∷ s) ≡ atoi s
unfolding atoi skip_spaces
atoi-empty s = refl

parse_int-empty :
    (levels : ℕ) (s : List ℕ)
    → parse_one levels (b':' ∷ 13 ∷ 10 ∷ s) ≡ complete (resp_int (atoi s)) 3
unfolding parse_one parse_kind parse_int_value
parse_int-empty zero s =
    rw (find_crlf-empty b':' s (ground arith), parse_int_value)
      (ap (λ n. complete (resp_int n) 3) (atoi-empty s))
parse_int-empty (suc levels) s =
    rw (find_crlf-empty b':' s (ground arith), parse_int_value)
      (ap (λ n. complete (resp_int n) 3) (atoi-empty s))

-- An integer value whose line has no digit uses three bytes. It is 0 when nothing follows it, and n
-- when the decimal digits of n and a carriage return follow it, at every depth: the value depends on
-- how much of the stream has arrived.
pub parse_int-spills :
    (levels n : ℕ) (rest : List ℕ)
    → (parse_one levels (b':' ∷ 13 ∷ 10 ∷ []) ≡ complete (resp_int (pos 0)) 3)
      × (parse_one levels (b':' ∷ 13 ∷ 10 ∷ (decimal n ++ 13 ∷ rest))
          ≡ complete (resp_int (pos n)) 3)
unfolding atoi skip_spaces
parse_int-spills levels n rest = (
  parse_int-empty levels [],
  parse_int-empty levels _ ∙ ap (λ k. complete (resp_int k) 3) (atoi-decimal n rest),
)
