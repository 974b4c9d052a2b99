-- ===== src/Resp/RoundTrip.antt =====
-- app/st_redisclient/resp.cc: what resp_encode writes, and what resp_parse makes of it.
use mathlib.Core.List.{append_assoc, append-nil}
use sthread.Prelude.{
  ℕ, zero, suc, ◌+◌, ◌≤◌, ◌≡◌, ◌∙◌, ap, sym, refl, List, [], ◌∷◌, ◌++◌, length, length-append, take,
  drop, take-append, drop-append, get_or, get_or-append, some, false, ◌||◌, ltb, leb, ◌==◌, nlt→ltb,
  if_none-eq-some, arith,
}
use sthread.Prelude.Int.{pos}
use sthread.Resp.{
  RespValue, Elems, resp_bulk, resp_array, no_elems, elem, Parsed, complete, RespParser,
  parser_append, resp_parse, parse_one, parse_kind, parse_array, parse_elems, parse_bulk, bulk_body,
  as_array, decimal, number_line, encode_args, resp_encode, resp_max_bulk, resp_max_array,
  find_crlf, atoi,
}
use sthread.Resp.Print.{atoi-decimal, find_crlf-line}

-- an array of bulk strings
abbrev pub bulks : List (List ℕ) → Elems
bulks [] = no_elems
bulks (arg ∷ args) = elem (resp_bulk arg) (bulks args)

abbrev pub Short : List (List ℕ) → Type 0
Short [] = Unit
Short (arg ∷ args) = (length arg ≤ resp_max_bulk) × Short args

-- an argument on the wire
abbrev pub bulk_wire : List ℕ → List ℕ
bulk_wire arg = number_line b'$' (length arg) ++ (arg ++ 13 ∷ 10 ∷ [])

abbrev pub wire : List (List ℕ) → List ℕ
wire [] = []
wire (arg ∷ args) = bulk_wire arg ++ wire args

pub encode_args-wire :
    (args : List (List ℕ)) (cap : ℕ) (out w : List ℕ)
    → encode_args cap out args ≡ some w
    → w ≡ out ++ wire args
unfolding encode_args
encode_args-wire [] room out w h = ground (arith, append-nil out)
encode_args-wire (arg ∷ args) room out w h =
    let line = number_line b'$' (length arg) in
    let a = if_none-eq-some (leb room (length (out ++ line))) _ h in
    let b = if_none-eq-some (leb room (length (out ++ line) + length arg + 2)) _ a.1 in
    encode_args-wire args room ((out ++ line) ++ (arg ++ 13 ∷ 10 ∷ [])) w b.1
    ∙ ap (λ v. v ++ wire args) (append_assoc out line (arg ++ 13 ∷ 10 ∷ []))
    ∙ append_assoc out (bulk_wire arg) (wire args)

pub resp_encode-wire :
    (argv : List (List ℕ)) (cap : ℕ) (w : List ℕ)
    → resp_encode cap argv ≡ some w
    → w ≡ number_line b'*' (length argv) ++ wire argv
unfolding resp_encode
resp_encode-wire argv room w h =
    let a = if_none-eq-some (room == 0 || length argv == 0) _ h in
    let b = if_none-eq-some (leb room (length (number_line b'*' (length argv)))) _ a.1 in
    encode_args-wire argv room (number_line b'*' (length argv)) w b.1

bulk_body-whole :
    (pre arg rest : List ℕ)
    → bulk_body (pre ++ (arg ++ 13 ∷ 10 ∷ rest)) (length pre) (length arg)
      ≡ complete (resp_bulk arg) (length pre + length arg + 2)
unfolding bulk_body
bulk_body-whole pre arg rest =
    let s = pre ++ (arg ++ 13 ∷ 10 ∷ rest) in
    let room : ltb (length s) (length pre + length arg + 2) ≡ false =
      ground
        (arith, length-append pre (arg ++ 13 ∷ 10 ∷ rest), length-append arg (13 ∷ 10 ∷ rest)) in
    let at : (i d : ℕ) → get_or s (length pre + length arg + i) d ≡ get_or (13 ∷ 10 ∷ rest) i d =
      λ i d.
        ap (λ k. get_or s k d) (omega arith)
        ∙ get_or-append pre _ (length arg + i) d
        ∙ get_or-append arg _ i d in
    let cr : get_or s (length pre + length arg) 0 ≡ 13 =
      ap (λ k. get_or s k 0) (omega arith) ∙ at 0 0 in
    let body : take (length arg) (drop (length pre) s) ≡ arg =
      ap (take (length arg)) (drop-append pre _) ∙ take-append arg _ in
    rw (room, cr, at 1 0, body) refl

pub line-append : (c n : ℕ) (s : List ℕ) → number_line c n ++ s ≡ c ∷ (decimal n ++ 13 ∷ 10 ∷ s)
line-append c n s = ap (◌∷◌ c) (append_assoc (decimal n) (13 ∷ 10 ∷ []) s)

pub length-line : (c n : ℕ) → length (number_line c n) ≡ length (decimal n) + 1 + 2
length-line c n = omega (arith, length-append (decimal n) (13 ∷ 10 ∷ []))

parse_bulk-read :
    (t : List ℕ) (cr n : ℕ)
    → find_crlf t ≡ some cr
    → atoi (drop 1 t) ≡ pos n
    → n ≤ resp_max_bulk
    → parse_bulk t ≡ bulk_body t (cr + 2) n
unfolding parse_bulk
parse_bulk-read t cr n f a h =
    rw (f, parse_bulk) (rw (a, nlt→ltb resp_max_bulk n (omega arith)) refl)

parse_array-read :
    (one : List ℕ → Parsed RespValue) (t : List ℕ) (cr n : ℕ)
    → find_crlf t ≡ some cr
    → atoi (drop 1 t) ≡ pos n
    → n ≤ resp_max_array
    → parse_array one t ≡ as_array (parse_elems one n t (cr + 2))
unfolding parse_array
parse_array-read one t cr n f a h =
    rw (f, parse_array) (rw (a, nlt→ltb resp_max_array n (omega arith)) refl)

-- what is read of the line of a number
pub line_crlf :
    (c n : ℕ) (s : List ℕ)
    → (c == 13) ≡ false
    → find_crlf (number_line c n ++ s) ≡ some (length (decimal n) + 1)
line_crlf c n s h = ap find_crlf (line-append c n s) ∙ find_crlf-line c n s h

pub line_atoi : (c n : ℕ) (s : List ℕ) → atoi (drop 1 (number_line c n ++ s)) ≡ pos n
line_atoi c n s = ap (λ t. atoi (drop 1 t)) (line-append c n s) ∙ atoi-decimal n (10 ∷ s)

pub parse_bulk-line :
    (n : ℕ) (s : List ℕ)
    → n ≤ resp_max_bulk
    → parse_bulk (number_line b'$' n ++ s)
      ≡ bulk_body (number_line b'$' n ++ s) (length (number_line b'$' n)) n
parse_bulk-line n s h =
    parse_bulk-read (number_line b'$' n ++ s) (length (decimal n) + 1) n
      (line_crlf b'$' n s (ground arith)) (line_atoi b'$' n s) h
    ∙ ap (λ k. bulk_body (number_line b'$' n ++ s) k n) (sym (length-line b'$' n))

pub parse_array-line :
    (one : List ℕ → Parsed RespValue) (n : ℕ) (s : List ℕ)
    → n ≤ resp_max_array
    → parse_array one (number_line b'*' n ++ s)
      ≡ as_array (parse_elems one n (number_line b'*' n ++ s) (length (number_line b'*' n)))
parse_array-line one n s h =
    parse_array-read one (number_line b'*' n ++ s) (length (decimal n) + 1) n
      (line_crlf b'*' n s (ground arith)) (line_atoi b'*' n s) h
    ∙ ap (λ k. as_array (parse_elems one n (number_line b'*' n ++ s) k)) (sym (length-line b'*' n))

pub parse_one-bulk : (levels : ℕ) (s : List ℕ) → parse_one levels (b'$' ∷ s) ≡ parse_bulk (b'$' ∷ s)
unfolding parse_one parse_kind
parse_one-bulk zero s = refl
parse_one-bulk (suc levels) s = refl

pub parse_one-wire :
    (levels : ℕ) (arg rest : List ℕ)
    → length arg ≤ resp_max_bulk
    → parse_one levels (bulk_wire arg ++ rest) ≡ complete (resp_bulk arg) (length (bulk_wire arg))
parse_one-wire levels arg rest h =
    let line = number_line b'$' (length arg) in
    let q : bulk_wire arg ++ rest ≡ line ++ (arg ++ 13 ∷ 10 ∷ rest) =
      append_assoc line (arg ++ 13 ∷ 10 ∷ []) rest
      ∙ ap (λ t. line ++ t) (append_assoc arg (13 ∷ 10 ∷ []) rest) in
    ap (parse_one levels) q
    ∙ parse_one-bulk levels _
    ∙ parse_bulk-line (length arg) (arg ++ 13 ∷ 10 ∷ rest) h
    ∙ bulk_body-whole line arg rest
    ∙ ap (complete (resp_bulk arg))
        (omega (arith, length-append line (arg ++ 13 ∷ 10 ∷ []), length-append arg (13 ∷ 10 ∷ [])))

parse_elems-step :
    (one : List ℕ → Parsed RespValue) (n : ℕ) (s : List ℕ) (p u : ℕ) {v : RespValue} {vs : Elems}
    {e : ℕ}
    → one (drop p s) ≡ complete v u
    → parse_elems one n s (p + u) ≡ complete vs e
    → parse_elems one (suc n) s p ≡ complete (elem v vs) e
unfolding parse_elems
parse_elems-step one n s p u a b = rw (a, parse_elems) (rw b refl)

pub parse_elems-wire :
    (args : List (List ℕ)) (levels : ℕ) (pre rest : List ℕ)
    → Short args
    → parse_elems (parse_one levels) (length args) (pre ++ (wire args ++ rest)) (length pre)
      ≡ complete (bulks args) (length pre + length (wire args))
unfolding parse_elems
parse_elems-wire [] levels pre rest h = ap (complete no_elems) (omega arith)
parse_elems-wire (arg ∷ args) levels pre rest h =
    let w = bulk_wire arg in
    let q : pre ++ (wire (arg ∷ args) ++ rest) ≡ pre ++ (w ++ (wire args ++ rest)) =
      ap (λ t. pre ++ t) (append_assoc w (wire args) rest) in
    let first =
      ap (parse_one levels) (drop-append pre (w ++ (wire args ++ rest)))
      ∙ parse_one-wire levels arg (wire args ++ rest) h.0 in
    let later : parse_elems (parse_one levels) (length args) (pre ++ (w ++ (wire args ++ rest)))
          (length pre + length w)
        ≡ complete (bulks args) (length pre + length (wire (arg ∷ args))) =
      ap (λ t. parse_elems (parse_one levels) (length args) t (length pre + length w))
        (sym (append_assoc pre w (wire args ++ rest)))
      ∙ ap (parse_elems (parse_one levels) (length args) ((pre ++ w) ++ (wire args ++ rest)))
          (sym (length-append pre w))
      ∙ parse_elems-wire args levels (pre ++ w) rest h.1
      ∙ ap (complete (bulks args))
          (omega (arith, length-append pre w, length-append w (wire args))) in
    ap (λ t. parse_elems (parse_one levels) (suc (length args)) t (length pre)) q
    ∙ parse_elems-step (parse_one levels) (length args) (pre ++ (w ++ (wire args ++ rest)))
        (length pre) (length w) first later

pub parse_one-encoded :
    (argv : List (List ℕ)) (rest : List ℕ)
    → length argv ≤ resp_max_array
    → Short argv
    → parse_one 5 ((number_line b'*' (length argv) ++ wire argv) ++ rest)
      ≡ complete (resp_array (bulks argv)) (length (number_line b'*' (length argv) ++ wire argv))
unfolding parse_one parse_kind
parse_one-encoded argv rest h v =
    let line = number_line b'*' (length argv) in
    ap (parse_one 5) (append_assoc line (wire argv) rest)
    ∙ parse_array-line (parse_one 4) (length argv) (wire argv ++ rest) h
    ∙ ap as_array (parse_elems-wire argv 4 line rest v)
    ∙ ap (complete (resp_array (bulks argv))) (sym (length-append line (wire argv)))

-- A command that resp_encode wrote into w, of at most 32 arguments of at most 1048576 bytes each, is
-- read back by resp_parse as the array of its arguments as soon as the parser's buffer starts with w,
-- whatever was appended last and whatever follows: the result is 1 and the parser keeps what follows.
pub resp_parse-resp_encode :
    (argv : List (List ℕ)) (cap : ℕ) (w rest bytes : List ℕ) (p p' : RespParser)
    → resp_encode cap argv ≡ some w
    → length argv ≤ resp_max_array
    → Short argv
    → parser_append p bytes ≡ some p'
    → p'.buf ≡ w ++ rest
    → resp_parse p bytes ≡ (complete (resp_array (bulks argv)) (length w), record p' { buf = rest })
unfolding resp_parse
resp_parse-resp_encode argv room w rest bytes p p' e h v a b =
    let q = resp_encode-wire argv room w e in
    let found : (length p'.buf == 0) ≡ false = ground (
      arith,
      ap length b,
      length-append w rest,
      ap length q,
      length-append (number_line b'*' (length argv)) (wire argv),
    ) in
    let read : parse_one 5 p'.buf ≡ complete (resp_array (bulks argv)) (length w) =
      ap (parse_one 5) (b ∙ ap (λ t. t ++ rest) q)
      ∙ parse_one-encoded argv rest h v
      ∙ ap (λ t. complete (resp_array (bulks argv)) (length t)) (sym q) in
    rw (a, resp_parse)
      (rw (found, read)
        (ap (λ t. (complete (resp_array (bulks argv)) (length w), record p' { buf = t }))
          (ap (drop (length w)) b ∙ drop-append w rest)))
