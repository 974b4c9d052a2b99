-- ===== src/Http/Tests.antt =====
-- app/st_httpclient/http_client.cc: a request, the callbacks of a response, and an exchange over a
-- connection that answers at once.
use sthread.Prelude.{
  ℕ, ◌+◌, ◌-◌, ◌/◌, ◌≡◌, refl, inl, [], ◌∷◌, length, bytes_eq, Bool, true, false, none, some, arith,
}
use sthread.Resp.{decimal, decimal_loop}
use sthread.Http.{bytes, ByteBuf, StHttpRequest, header_supplied, supplied_in, names, build_request}
use sthread.Http.Buffer.{Room}
use sthread.Http.Request.{
  request_text, request_line, field_lines, default_fields, own_lines, body_text, build_request_text,
}
use sthread.Http.Exchange.{
  Net, Parser, body_part, header_field, header_value, message_complete, new_state, run_callbacks,
}
use sthread.Http.Response.{Read, body_of, run_callbacks-Read}
use sthread.Http.Connections.{Pool}

-- the caller supplies the field Accept in small letters
abbrev request : StHttpRequest
request = record {
  method = none;
  host = bytes "h";
  port = 8080;
  path = none;
  body = none;
  body_len = 0;
  timeout_ms = 4;
  keepalive = false;
  verbose = false;
  headers = some (bytes "accept: a") ∷ [];
  ip_be = 1;
}

accept_is_supplied : header_supplied request (bytes "Accept") ≡ true
unfolding supplied_in names
accept_is_supplied = refl

build_request_text_example :
    (b : ByteBuf) × (build_request request ≡ some b) × (b.text ≡ request_text request) × Room b
unfolding request_text request_line field_lines default_fields supplied_in names own_lines body_text
    decimal decimal_loop bytes_eq
build_request_text_example = build_request_text request (omega arith) (omega arith) (omega arith)

run_callbacks-Read_example :
    let cs =
      header_field (bytes "A")
      ∷ header_value (bytes "b")
      ∷ body_part (1 ∷ [])
      ∷ body_part (2 ∷ [])
      ∷ [] in
    Read (new_state true) (body_of cs) (run_callbacks cs (new_state true))
run_callbacks-Read_example =
    run_callbacks-Read
      (header_field (bytes "A")
        ∷ header_value (bytes "b")
        ∷ body_part (1 ∷ [])
        ∷ body_part (2 ∷ [])
        ∷ [])
      (new_state true)
      (record { field_le = omega arith; value_le = omega arith; body_room = inl refl })

record Wire : Type 0 where
  time : ℕ
  live : ℕ

abbrev wire : Net Wire
wire = record {
  clock = λ w. (w.time / 1000000, record { time = w.time + 1; live = w.live });
  ntop = λ ip. true;
  alloc_ptr = λ w. (some w.live, record { time = w.time; live = w.live + 1 });
  free_ptr = λ c w. record { time = w.time; live = w.live - 1 };
  create = λ c left w. (some 5, w);
  send = λ fd s left w. (some (length s), w);
  recv = λ fd left w. (some (7 ∷ []), w);
}

abbrev parser : Parser Bool
parser = record {
  parser_init = true;
  execute = λ s p. (body_part s ∷ message_complete 200 false ∷ [], true, p);
}

abbrev pool : Pool wire
pool = record {
  live = λ w. w.live;
  time = λ w. w.time;
  clock_time = λ w. refl;
  clock_ticks = λ w. omega arith;
  clock_live = λ w. refl;
  alloc_live = λ w. refl;
  alloc_time = λ w. omega arith;
  free_live = λ c w h. omega arith;
  free_time = λ c w. omega arith;
  create_live = λ c left w. refl;
  create_time = λ c left w. omega arith;
  send_live = λ fd left s w. refl;
  send_time = λ fd left s w. omega arith;
  recv_live = λ fd left w. refl;
  recv_time = λ fd left w. omega arith;
}

abbrev quiet : Wire
quiet = record { time = 5; live = 2 }
