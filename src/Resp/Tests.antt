-- ===== src/Resp/Tests.antt =====
-- app/st_redisclient/resp.cc: GET k and its bytes, and runs of the codec.
use sthread.Prelude.{ℕ, ◌≡◌, inl, refl, List, [], ◌∷◌, ◌++◌, none, some, drop, arith}
use sthread.Prelude.Int.{negsuc}
use sthread.Resp.{
  resp_int, resp_null, resp_array, complete, incomplete, RespParser, parser_append, resp_parse,
  resp_encode, parse_one, parse_kind, parse_bulk, parse_int_value, find_crlf, atoi, skip_spaces,
  read_digits, grow, encode_args, decimal, decimal_loop,
}
use sthread.Resp.RoundTrip.{resp_parse-resp_encode, bulks}
use sthread.Resp.Prefix.{resp_parse-prefix}
use sthread.Resp.Buffer.{IsValid, Fed, resp_parse-Fed}

abbrev get_k : List (List ℕ)
get_k = (b'G' ∷ b'E' ∷ b'T' ∷ []) ∷ (b'k' ∷ []) ∷ []

abbrev get_k_wire : List ℕ
get_k_wire =
    b'*' ∷ b'2' ∷ 13 ∷ 10 ∷ b'$' ∷ b'3' ∷ 13 ∷ 10 ∷ b'G' ∷ b'E' ∷ b'T' ∷ 13 ∷ 10 ∷ b'$' ∷ b'1' ∷ 13
    ∷ 10 ∷ b'k' ∷ 13 ∷ 10 ∷ []

abbrev fresh : RespParser
fresh = record { buf = []; cap = 0 }

abbrev holding : RespParser
holding = record { buf = get_k_wire ++ b':' ∷ []; cap = 256 }

get_k-encoded : resp_encode 64 get_k ≡ some get_k_wire
unfolding resp_encode encode_args decimal decimal_loop
get_k-encoded = refl

get_k-small : resp_encode 20 get_k ≡ none
unfolding resp_encode encode_args decimal decimal_loop
get_k-small = refl

get_k-appended : parser_append fresh (get_k_wire ++ b':' ∷ []) ≡ some holding
unfolding parser_append grow
get_k-appended = refl

resp_parse-resp_encode_example :
    resp_parse fresh (get_k_wire ++ b':' ∷ [])
    ≡ (complete (resp_array (bulks get_k)) 20, record { buf = b':' ∷ []; cap = 256 })
resp_parse-resp_encode_example =
    resp_parse-resp_encode get_k 64 get_k_wire (b':' ∷ []) (get_k_wire ++ b':' ∷ []) fresh holding
      get_k-encoded (omega arith) (omega arith, (omega arith, tt)) get_k-appended refl

-- what has arrived so far, and the rest
abbrev arrived : List ℕ
arrived = b'*' ∷ b'2' ∷ 13 ∷ 10 ∷ b'$' ∷ b'3' ∷ 13 ∷ []

abbrev to_come : List ℕ
to_come = drop 7 get_k_wire

arrived_kept : parser_append fresh arrived ≡ some (record { buf = arrived; cap = 256 })
unfolding parser_append grow
arrived_kept = refl

resp_parse-prefix_example :
    resp_parse fresh arrived ≡ (incomplete, record { buf = arrived; cap = 256 })
resp_parse-prefix_example =
    resp_parse-prefix get_k 64 get_k_wire to_come arrived fresh
      (record { buf = arrived; cap = 256 }) get_k-encoded (omega arith)
      (omega arith, (omega arith, tt)) arrived_kept refl (λ e. absurd (cc))

-- a null and a negative number, and too long a string
null_read : parse_one 5 (b'$' ∷ b'-' ∷ b'1' ∷ 13 ∷ 10 ∷ []) ≡ complete resp_null 5
unfolding parse_one parse_kind parse_bulk find_crlf atoi skip_spaces read_digits
null_read = refl

negative_read :
    parse_one 5 (b':' ∷ b'-' ∷ b'4' ∷ b'2' ∷ 13 ∷ 10 ∷ []) ≡ complete (resp_int (negsuc 41)) 6
unfolding parse_one parse_kind parse_int_value find_crlf atoi skip_spaces read_digits
negative_read = refl

fresh-IsValid : IsValid fresh
unfolding IsValid
fresh-IsValid = inl (refl, refl)

resp_parse-Fed_example :
    Fed fresh
      (b'+' ∷ b'O' ∷ [])
      (resp_parse fresh (b'+' ∷ b'O' ∷ [])).0
      (resp_parse fresh (b'+' ∷ b'O' ∷ [])).1
resp_parse-Fed_example = resp_parse-Fed fresh (b'+' ∷ b'O' ∷ []) fresh-IsValid
