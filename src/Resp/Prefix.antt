-- ===== src/Resp/Prefix.antt =====
-- app/st_redisclient/resp.cc: a command of which only a part has arrived.
use mathlib.Core.List.{append_assoc}
use sthread.Prelude.{
  ℕ, zero, suc, ◌+◌, ◌≤◌, ◌<◌, ◌≡◌, ◌≢◌, ◌∙◌, ap, sym, refl, inl, inr, List, [], ◌∷◌, ◌++◌, length,
  length-append, drop, drop-append, split_append, heads, none, some, ◌==◌, lt→ltb, Bool-cases,
  arith,
}
use sthread.Resp.{
  RespValue, Parsed, complete, incomplete, resp_bulk, RespParser, parser_append, resp_parse,
  parse_one, parse_kind, parse_array, parse_elems, parse_bulk, bulk_body, as_array, number_line,
  resp_encode, resp_max_bulk, resp_max_array, find_crlf,
}
use sthread.Resp.Print.{find_crlf-cut_line}
use sthread.Resp.RoundTrip.{
  Short, bulk_wire, wire, resp_encode-wire, parse_bulk-line, parse_array-line, parse_one-wire,
}

parse_bulk-cut : (s : List ℕ) → find_crlf s ≡ none → parse_bulk s ≡ incomplete
unfolding parse_bulk
parse_bulk-cut s h = rw (h, parse_bulk) refl

parse_array-cut :
    (one : List ℕ → Parsed RespValue) (s : List ℕ)
    → find_crlf s ≡ none
    → parse_array one s ≡ incomplete
unfolding parse_array
parse_array-cut one s h = rw (h, parse_array) refl

bulk_body-cut :
    (s : List ℕ) (body blen : ℕ) → length s < body + blen + 2 → bulk_body s body blen ≡ incomplete
unfolding bulk_body
bulk_body-cut s body blen h = rw (lt→ltb _ _ h) refl

nonempty-length : (m : List ℕ) → m ≢ [] → 0 < length m
nonempty-length [] h = absurd (h refl)
nonempty-length (x ∷ m) h = omega arith

parse_bulk-prefix :
    (arg u m : List ℕ)
    → length arg ≤ resp_max_bulk
    → bulk_wire arg ≡ u ++ m
    → m ≢ []
    → parse_bulk u ≡ incomplete
parse_bulk-prefix arg u m h e n =
    let line = number_line b'$' (length arg) in
    elim (split_append u m line (arg ++ 13 ∷ 10 ∷ []) (sym e)) [
      | inl (t, p, q) ↦
          ap parse_bulk p
          ∙ parse_bulk-line (length arg) t h
          ∙ bulk_body-cut (line ++ t) (length line) (length arg) (
              omega (
                arith,
                length-append line t,
                ap length q,
                length-append arg (13 ∷ 10 ∷ []),
                length-append t m,
                nonempty-length m n,
              ))
      | inr (k, z, p) ↦
          parse_bulk-cut u (find_crlf-cut_line b'$' (length arg) u k (ground arith) p z)
    ]

parse_one-prefix :
    (levels : ℕ) (arg u m : List ℕ)
    → length arg ≤ resp_max_bulk
    → bulk_wire arg ≡ u ++ m
    → m ≢ []
    → parse_one levels u ≡ incomplete
unfolding parse_one parse_kind
parse_one-prefix zero arg [] m h e n = refl
parse_one-prefix (suc levels) arg [] m h e n = refl
parse_one-prefix zero arg (y ∷ u) m h e n =
    rw (sym (heads e))
      (ap (λ c. parse_bulk (c ∷ u)) (heads e) ∙ parse_bulk-prefix arg (y ∷ u) m h e n)
parse_one-prefix (suc levels) arg (y ∷ u) m h e n =
    rw (sym (heads e))
      (ap (λ c. parse_bulk (c ∷ u)) (heads e) ∙ parse_bulk-prefix arg (y ∷ u) m h e n)

parse_elems-cut :
    (one : List ℕ → Parsed RespValue) (n : ℕ) (s : List ℕ) (p : ℕ)
    → one (drop p s) ≡ incomplete
    → parse_elems one (suc n) s p ≡ incomplete
unfolding parse_elems
parse_elems-cut one n s p h = rw (h, parse_elems) refl

parse_elems-next :
    (one : List ℕ → Parsed RespValue) (n : ℕ) (s : List ℕ) (p u : ℕ) (v : RespValue)
    → one (drop p s) ≡ complete v u
    → parse_elems one n s (p + u) ≡ incomplete
    → parse_elems one (suc n) s p ≡ incomplete
unfolding parse_elems
parse_elems-next one n s p u v a b = rw (a, parse_elems) (rw b refl)

parse_elems-prefix :
    (args : List (List ℕ)) (levels : ℕ) (pre u m : List ℕ)
    → Short args
    → wire args ≡ u ++ m
    → m ≢ []
    → parse_elems (parse_one levels) (length args) (pre ++ u) (length pre) ≡ incomplete
parse_elems-prefix [] levels pre u m v e n =
    absurd (omega (arith, ap length e, length-append u m, nonempty-length m n))
parse_elems-prefix (arg ∷ args) levels pre u m v e n =
    elim (split_append u m (bulk_wire arg) (wire args) (sym e)) [
      | inl (t, p, q) ↦
          let w = bulk_wire arg in
          let first =
            ap (parse_one levels)
              (ap (drop (length pre)) (ap (λ r. pre ++ r) p) ∙ drop-append pre (w ++ t))
            ∙ parse_one-wire levels arg t v.0 in
          let later : parse_elems (parse_one levels) (length args) (pre ++ u)
                (length pre + length w)
              ≡ incomplete =
            ap (λ r. parse_elems (parse_one levels) (length args) r (length pre + length w))
              (ap (λ r. pre ++ r) p ∙ sym (append_assoc pre w t))
            ∙ ap (parse_elems (parse_one levels) (length args) ((pre ++ w) ++ t))
                (sym (length-append pre w))
            ∙ parse_elems-prefix args levels (pre ++ w) t m v.1 q n in
          parse_elems-next (parse_one levels) (length args) (pre ++ u) (length pre) (length w)
            (resp_bulk arg) first later
      | inr (k, z, p) ↦
          parse_elems-cut (parse_one levels) (length args) (pre ++ u) (length pre)
            (ap (parse_one levels) (drop-append pre u) ∙ parse_one-prefix levels arg u k v.0 p z)
    ]

parse_array-prefix :
    (argv : List (List ℕ)) (u m : List ℕ)
    → length argv ≤ resp_max_array
    → Short argv
    → number_line b'*' (length argv) ++ wire argv ≡ u ++ m
    → m ≢ []
    → parse_array (parse_one 4) u ≡ incomplete
parse_array-prefix argv u m h v e n =
    let line = number_line b'*' (length argv) in
    elim (split_append u m line (wire argv) (sym e)) [
      | inl (t, p, q) ↦
          ap (parse_array (parse_one 4)) p
          ∙ parse_array-line (parse_one 4) (length argv) t h
          ∙ ap as_array (parse_elems-prefix argv 4 line t m v q n)
      | inr (k, z, p) ↦
          parse_array-cut (parse_one 4) u
            (find_crlf-cut_line b'*' (length argv) u k (ground arith) p z)
    ]

starred :
    (u : List ℕ) (w m : List ℕ)
    → (b'*' ∷ w) ≡ u ++ m
    → parse_array (parse_one 4) u ≡ incomplete
    → parse_one 5 u ≡ incomplete
unfolding parse_one parse_kind
starred [] w m e h = refl
starred (y ∷ u) w m e h =
    rw (sym (heads e)) (ap (λ c. parse_array (parse_one 4) (c ∷ u)) (heads e) ∙ h)

-- Of a command that resp_encode wrote, of at most 32 arguments of at most 1048576 bytes each, every
-- part from the start that is not the whole is incomplete: resp_parse on a parser that holds just that
-- part after the append gives 0, and keeps it.
pub resp_parse-prefix :
    (argv : List (List ℕ)) (room : ℕ) (w m bytes : List ℕ) (p p' : RespParser)
    → resp_encode room argv ≡ some w
    → length argv ≤ resp_max_array
    → Short argv
    → parser_append p bytes ≡ some p'
    → w ≡ p'.buf ++ m
    → m ≢ []
    → resp_parse p bytes ≡ (incomplete, p')
unfolding resp_parse
resp_parse-prefix argv room w m bytes p p' x h v a e n =
    let q : number_line b'*' (length argv) ++ wire argv ≡ p'.buf ++ m =
      sym (resp_encode-wire argv room w x) ∙ e in
    let part = starred p'.buf _ m q (parse_array-prefix argv p'.buf m h v q n) in
    rw (a, resp_parse)
      (elim (Bool-cases (length p'.buf == 0)) [ inl y ↦ rw y refl | inr k ↦ rw (k, part) refl ])
