-- ===== src/Proxy/Tests.antt =====
-- app/st_httpproxy/main.cpp: three backends of two slots, and two requests.
use sthread.Prelude.{
  ℕ, ◌+◌, ◌%◌, ◌<◌, ◌≡◌, refl, List, [], ◌++◌, bytes_eq, true, false, some, if◌then◌else◌, ◌==◌,
  arith,
}
use sthread.Resp.{atoi, skip_spaces, read_digits}
use sthread.Http.{bytes, crlf}
use sthread.Proxy.{
  Backends, Forward, scan, pick_backend, free_slot, take_slot, starts, end_from, find_headers_end,
  header_name_is, next_line, length_in, header_content_length, until_space, local_path, from_slash,
  with_body, with_path, with_target, with_method, read_request,
}
use sthread.Proxy.Pick.{Picked, start_of, pick_backend-Picked}
use sthread.Proxy.Slots.{Holders, here, takes, one_more, Exclusive, Reach-Exclusive}
use sthread.Proxy.Headers.{Ends, Sane, read_request-Sane}

-- backend 1 is dead, and slot 0 of backend 2 is held
abbrev pool : Backends
pool = record {
  next = 1;
  alive = λ b. if b == 1 then false else true;
  in_use = λ b k. if b == 2 then k == 0 else false;
}

abbrev holders : Holders
holders j k = if (if j == 2 then k == 0 else false) then 1 else 0

pick_backend-Picked_example :
    Picked 3 pool (pick_backend 3 pool).0
    × ((pick_backend 3 pool).1 ≡ record pool { next = (start_of 3 pool + 1) % 3 })
    × ((pick_backend 3 pool).1.next < 3)
pick_backend-Picked_example = pick_backend-Picked 3 pool (omega arith)

skips_the_dead : (pick_backend 3 pool).0 ≡ some 2
unfolding pick_backend scan
skips_the_dead = refl

Reach-Exclusive_example : Exclusive (take_slot 2 2 pool).1 (one_more holders 2 1)
unfolding take_slot free_slot
Reach-Exclusive_example = Reach-Exclusive {n = 3} {slots = 2} (λ j k. refl) (takes 2 1 here refl)

abbrev post : List ℕ
post =
    bytes "POST http://h/p HTTP/1.1"
    ++ crlf
    ++ bytes "Content-Length: 2"
    ++ crlf
    ++ crlf
    ++ bytes "ab"

abbrev sent_on : Forward
sent_on = record { method = bytes "POST"; path = bytes "/p"; body_len = 2; body = bytes "ab" }

reads_post : read_request post ≡ some sent_on
unfolding read_request find_headers_end end_from starts until_space with_method with_target
    local_path from_slash with_path header_content_length length_in next_line header_name_is atoi
    skip_spaces read_digits with_body bytes_eq
reads_post = refl

read_request-Sane_example :
    (e : ℕ) × (find_headers_end post ≡ some e) × Ends 0 post e × Sane sent_on
read_request-Sane_example = read_request-Sane post sent_on reads_post

-- without a version in the request line, the path reaches into the next line of the headers
abbrev split : List ℕ
split = bytes "GET /p" ++ crlf ++ bytes "A: b" ++ crlf ++ crlf

path_with_line_end :
    read_request split
    ≡ some (record {
      method = bytes "GET";
      path = bytes "/p" ++ crlf ++ bytes "A:";
      body_len = 0;
      body = [];
    })
unfolding read_request find_headers_end end_from starts until_space with_method with_target
    local_path with_path header_content_length length_in next_line header_name_is with_body bytes_eq
path_with_line_end = refl
