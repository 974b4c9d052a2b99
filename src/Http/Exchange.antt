-- ===== src/Http/Exchange.antt =====
-- app/st_httpclient/http_client.cc: the callbacks of the response parser, and st_http_exchange over
-- the connections, the calls of st_sys.cc and http_parser.c as an interface over a world `W`.
use sthread.Prelude.{
  ℕ, zero, suc, ◌+◌, ◌-◌, List, [], ◌∷◌, ◌++◌, length, take, Bool, true, false, not, ◌&&◌, ◌||◌,
  Option, none, some, if◌then◌else◌, ltb, ◌==◌,
}
use sthread.Http.{ByteBuf, max_cap, grow_cap, put, StHttpRequest, build_request}

-- ParseState; `printed` is what went to stderr
pub record ParseState : Type 0 where
  pub complete : Bool
  pub status : ℕ
  pub error : Bool
  pub keep_alive : Bool
  pub verbose : Bool
  pub body : ByteBuf
  pub field : List ℕ
  pub value : List ℕ
  pub printed : List (List ℕ × List ℕ)

unfoldable pub append_body : List ℕ → ByteBuf → Option ByteBuf
append_body [] b = some b
append_body (c ∷ s) b =
    let need = length b.text + length (c ∷ s) + 1 in
    if ltb max_cap (length (c ∷ s))
    then none
    else put b (c ∷ s) (grow_cap need (if ltb 0 b.cap then b.cap else 4096) need)

unfoldable pub flush_header : ParseState → ParseState
flush_header st =
    if st.verbose && (ltb 0 (length st.field) || ltb 0 (length st.value))
    then record st { field = []; value = []; printed = st.printed ++ (st.field, st.value) ∷ [] }
    else record st { field = []; value = [] }

-- what on_header_field and on_header_value append to an array of `size` bytes
unfoldable pub append_upto : ℕ → List ℕ → List ℕ → List ℕ
append_upto size old s = old ++ take (size - 1 - length old) s

-- a call of a callback, with what it reads of the parser
pub data Callback : Type 0 where
  header_field header_value body_part : List ℕ → Callback
  headers_complete : ℕ → Callback
  message_complete : ℕ → Bool → Callback

unfoldable pub on_header_field : List ℕ → ParseState → ParseState
on_header_field s st =
    let st₁ = if ltb 0 (length st.value) then flush_header st else st in
    record st₁ { field = append_upto 128 st₁.field s }

unfoldable pub on_header_value : List ℕ → ParseState → ParseState
on_header_value s st = record st { value = append_upto 256 st.value s }

unfoldable pub on_headers_complete : ℕ → ParseState → ParseState
on_headers_complete code st = record (flush_header st) { status = code }

unfoldable pub on_message_complete : ℕ → Bool → ParseState → ParseState
on_message_complete code keep st = record st { complete = true; status = code; keep_alive = keep }

abbrev pub stored_body : ParseState → Option ByteBuf → Bool × ParseState
stored_body st none = (false, record st { error = true })
stored_body st (some b) = (true, record st { body = b })

unfoldable pub on_body : List ℕ → ParseState → Bool × ParseState
on_body s st = stored_body st (append_body s st.body)

-- a callback, and whether it returned 0
unfoldable pub run_callback : Callback → ParseState → Bool × ParseState
run_callback (header_field s) st = (true, on_header_field s st)
run_callback (header_value s) st = (true, on_header_value s st)
run_callback (body_part s) st = on_body s st
run_callback (headers_complete code) st = (true, on_headers_complete code st)
run_callback (message_complete code keep) st = (true, on_message_complete code keep st)

-- the parser stops at a callback that fails
unfoldable pub run_callbacks : List Callback → ParseState → Bool × ParseState
run_callbacks [] st = (true, st)
run_callbacks (c ∷ cs) st =
    let (ok, st₁) = run_callback c st in
    let rest = run_callbacks cs st₁ in if ok then rest else (false, st₁)

-- http_parser_execute: the callbacks, whether all bytes were parsed without an error, and the parser
pub record Parser (P : Type 0) : Type 0 where
  pub parser_init : P
  pub execute : List ℕ → P → List Callback × Bool × P

-- connections are numbers; `none` is NULL, or a result below 0
pub record Net (W : Type 0) : Type 0 where
  pub clock : W → ℕ × W
  pub ntop : ℕ → Bool
  pub alloc_ptr : W → Option ℕ × W
  pub free_ptr : ℕ → W → W
  pub create : ℕ → ℕ → W → Option ℕ × W
  pub send : ℕ → List ℕ → ℕ → W → Option ℕ × W
  pub recv : ℕ → ℕ → W → Option (List ℕ) × W

pub record StHttpConn : Type 0 where
  pub conn : Option ℕ
  pub fd : Option ℕ

pub record StHttpResponse : Type 0 where
  pub status : ℕ
  pub transport_error : Bool
  pub keep_alive : Bool
  pub body : List ℕ

abbrev pub is_some : Option ℕ → Bool
is_some none = false
is_some (some _) = true

abbrev pub new_conn : StHttpConn
new_conn = record { conn = none; fd = none }

abbrev pub no_response : StHttpResponse
no_response = record { status = 0; transport_error = true; keep_alive = false; body = [] }

abbrev pub new_state : Bool → ParseState
new_state verbose = record {
  complete = false;
  status = 0;
  error = false;
  keep_alive = false;
  verbose = verbose;
  body = record { text = []; cap = 0 };
  field = [];
  value = [];
  printed = [];
}

module _ {W P : Type 0} (net : Net W) (parser : Parser P) where
  -- for an elapsed time that fits into an int; the source casts it to one
  unfoldable pub remaining_ms : ℕ → ℕ → W → ℕ × W
  remaining_ms start timeout w = let (now, w₁) = net.clock w in (timeout - (now - start), w₁)

  -- st_http_conn_close, which leaves the StHttpConn as it was at the start
  unfoldable pub conn_close : StHttpConn → W → W
  conn_close io w = elim io.conn [ none ↦ w | some c ↦ net.free_ptr c w ]

  -- Create of a connection that was just allocated
  unfoldable pub dial : ℕ → ℕ → W → Bool × StHttpConn × W
  dial c left w =
      let held : StHttpConn = record { conn = some c; fd = none } in
      let (fd, w₁) = net.create c left w in
      elim fd [
        | none ↦ (false, new_conn, conn_close held w₁)
        | some n ↦ (true, record { conn = some c; fd = some n }, w₁)
      ]

  unfoldable pub open_conn : ℕ → ℕ → W → Bool × StHttpConn × W
  open_conn start timeout w =
      let (c, w₁) = net.alloc_ptr w in
      elim c [
        | none ↦ (false, new_conn, w₁)
        | some c ↦
            let (left, w₂) = remaining_ms start timeout w₁ in
            if left == 0
            then (false, new_conn, conn_close (record { conn = some c; fd = none }) w₂)
            else dial c left w₂
      ]

  unfoldable pub ensure_conn : StHttpRequest → StHttpConn → ℕ → W → Bool × StHttpConn × W
  ensure_conn req io start w =
      if is_some io.conn && is_some io.fd
      then (true, io, w)
      else (if net.ntop req.ip_be then open_conn start req.timeout_ms w else (false, io, w))

  -- one part of the stream; the result is whether parsing goes on
  unfoldable pub parse_part : List ℕ → P → ParseState → Bool × P × ParseState
  parse_part s p st =
      let (calls, parsed, p₁) = parser.execute s p in
      let (ok, st₁) = run_callbacks calls st in
      if ok && parsed then (true, p₁, st₁) else (false, p₁, record st₁ { error = true })

  -- the loop; `none` when the fuel runs out
  unfoldable pub receive : ℕ → ℕ → ℕ → ℕ → P → ParseState → W → Option (ParseState × W)
  receive zero fd start timeout p st w = none
  receive (suc fuel) fd start timeout p st w =
      let (left, w₁) = remaining_ms start timeout w in
      let (r, w₂) = net.recv fd left w₁ in
      let next : Option (ParseState × W) = elim r [
        | none ↦ some (record st { error = true }, w₂)
        | some [] ↦ some ((run_callbacks (parser.execute [] p).0 st).1, w₂)
        | some (c ∷ s) ↦
            let (ok, p₁, st₁) = parse_part (c ∷ s) p st in
            let again = receive fuel fd start timeout p₁ st₁ w₂ in
            if ok then again else some (st₁, w₂)
      ] in
      if st.complete || st.error
      then some (st, w)
      else (if left == 0 then some (record st { error = true }, w₁) else next)

  abbrev pub response : ParseState → Bool → StHttpResponse
  response st failed = record {
    status = st.status;
    transport_error = failed;
    keep_alive = st.keep_alive;
    body = st.body.text;
  }

  -- what follows the loop
  unfoldable pub finish :
      StHttpRequest → StHttpConn → ParseState × W → Bool × StHttpResponse × StHttpConn × W
  finish req io (st, w) =
      if not st.complete || st.error
      then (false, response st true, new_conn, conn_close io w)
      else (if not req.keepalive || not st.keep_alive
          then (true, response st false, new_conn, conn_close io w)
          else (true, response st false, io, w))

  abbrev pub ended :
      StHttpRequest
      → StHttpConn
      → Option (ParseState × W)
      → Option (Bool × StHttpResponse × StHttpConn × W)
  ended req io none = none
  ended req io (some r) = some (finish req io r)

  abbrev pub sent_all : ℕ → Option ℕ → Bool
  sent_all n none = false
  sent_all n (some k) = k == n

  -- after ensure_conn has succeeded, with the descriptor of the connection
  unfoldable pub talk :
      ℕ
      → StHttpRequest
      → ByteBuf
      → ℕ
      → StHttpConn
      → ℕ
      → W
      → Option (Bool × StHttpResponse × StHttpConn × W)
  talk fuel req raw start io fd w =
      let (left, w₁) = remaining_ms start req.timeout_ms w in
      let (sent, w₂) = net.send fd raw.text left w₁ in
      let done =
        ended req io
          (receive fuel fd start req.timeout_ms parser.parser_init (new_state req.verbose) w₂) in
      if sent_all (length raw.text) sent
      then done
      else some (false, no_response, new_conn, conn_close io w₂)

  unfoldable pub with_conn :
      ℕ
      → StHttpRequest
      → ByteBuf
      → ℕ
      → Bool × StHttpConn × W
      → Option (Bool × StHttpResponse × StHttpConn × W)
  with_conn fuel req raw start (ok, io, w) = elim io.fd [
    | none ↦ some (false, no_response, io, w)
    | some fd ↦
        let talked = talk fuel req raw start io fd w in
        if ok then talked else some (false, no_response, io, w)
  ]

  unfoldable pub exchange :
      ℕ → StHttpRequest → StHttpConn → W → Option (Bool × StHttpResponse × StHttpConn × W)
  exchange fuel req io w =
      let (start, w₁) = net.clock w in
      elim (build_request req) [
        | none ↦ some (false, no_response, io, w₁)
        | some raw ↦ with_conn fuel req raw start (ensure_conn req io start w₁)
      ]
