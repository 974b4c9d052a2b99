-- ===== src/Http/Request.antt =====
-- app/st_httpclient/http_client.cc: build_request against the text of a request.
use mathlib.Core.List.{append_assoc, append-nil}
use sthread.Prelude.{
  ℕ, ◌<◌, ◌≡◌, refl, sym, ap, ◌∙◌, inl, inr, List, [], ◌∷◌, ◌++◌, length, length-append, take,
  false, Option, none, some, if◌then◌else◌, ltb, ◌==◌, Bool-cases, arith,
}
use mathlib.Core.Path.{subst}
use sthread.Resp.{decimal}
use sthread.Http.{
  bytes, ByteBuf, max_cap, buf_add, ◌>>◌, StHttpRequest, header_supplied, path_of, method_of, crlf,
  add_printed, unless, host_line, connection_line, type_line, length_line, has_content, add_headers,
  add_body, build_request,
}
use sthread.Http.Buffer.{
  Room, Adds, buf_add-Added, buf_add-Adds, >>-Added, >>-Adds, stay-Adds, unless-Adds,
  add_printed-Adds,
}

abbrev authority : StHttpRequest → List ℕ
authority req = if req.port == 80 then req.host else req.host ++ (b':' ∷ decimal req.port)

abbrev connection_value : StHttpRequest → List ℕ
connection_value req = if req.keepalive then bytes "keep-alive" else bytes "close"

abbrev content_fields : StHttpRequest → List (List ℕ × List ℕ)
content_fields req =
    if has_content req
    then (bytes "Content-Type", bytes "application/x-www-form-urlencoded")
      ∷ (bytes "Content-Length", decimal req.body_len)
      ∷ []
    else []

-- the line of a field, unless the caller has supplied one
abbrev field_line : StHttpRequest → List ℕ → List ℕ → List ℕ
field_line req name value =
    if header_supplied req name then [] else name ++ (bytes ": " ++ (value ++ crlf))

-- the header fields that the client gives, by name and value
unfoldable pub default_fields : StHttpRequest → List (List ℕ × List ℕ)
default_fields req =
    (bytes "Host", authority req)
    ∷ (bytes "User-Agent", bytes "sthread-httpclient/1.0")
    ∷ (bytes "Accept", bytes "*/*")
    ∷ (bytes "Connection", connection_value req)
    ∷ content_fields req

unfoldable pub field_lines : StHttpRequest → List (List ℕ × List ℕ) → List ℕ
field_lines req [] = []
field_lines req ((name, value) ∷ fs) = field_line req name value ++ field_lines req fs

unfoldable pub own_lines : List (Option (List ℕ)) → List ℕ
own_lines [] = []
own_lines (none ∷ hs) = own_lines hs
own_lines (some h ∷ hs) = h ++ (crlf ++ own_lines hs)

unfoldable pub body_text : ℕ → Option (List ℕ) → List ℕ
body_text n none = []
body_text n (some s) = take n s

unfoldable pub request_line : StHttpRequest → List ℕ
request_line req =
    method_of req.method ++ (bytes " " ++ (path_of req.path ++ (bytes " HTTP/1.1" ++ crlf)))

unfoldable pub request_text : StHttpRequest → List ℕ
request_text req =
    request_line req
    ++ (field_lines req (default_fields req)
        ++ (own_lines req.headers ++ (crlf ++ body_text req.body_len req.body)))

zero_of : (n : ℕ) → ltb 0 n ≡ false → n ≡ 0
zero_of n h = ground arith

add_headers-Adds : (hs : List (Option (List ℕ))) → Adds (add_headers hs) (own_lines hs)
unfolding add_headers own_lines
add_headers-Adds [] = stay-Adds
add_headers-Adds (none ∷ hs) = add_headers-Adds hs
add_headers-Adds (some h ∷ hs) =
    >>-Adds _ _ h _ (buf_add-Adds h) (>>-Adds _ _ crlf _ (buf_add-Adds crlf) (add_headers-Adds hs))

add_body-Adds : (n : ℕ) (o : Option (List ℕ)) → Adds (add_body n o) (body_text n o)
unfolding add_body body_text
add_body-Adds n none = stay-Adds
add_body-Adds n (some s) = elim (Bool-cases (ltb 0 n)) [
  | inl y ↦ rw y (buf_add-Adds (take n s))
  | inr z ↦ rw (z, zero_of n z) stay-Adds
]

Adds-text : {f : ByteBuf → Option ByteBuf} {s t : List ℕ} → s ≡ t → Adds f s → Adds f t
Adds-text {f} e a = subst (Adds f) e a

-- one field: its line is there unless the caller has given one
field-Adds :
    (req : StHttpRequest) (name value : List ℕ) (f : ByteBuf → Option ByteBuf)
    → (header_supplied req name ≡ false → Adds f (name ++ (bytes ": " ++ (value ++ crlf))))
    → Adds (unless (header_supplied req name) f) (field_line req name value)
field-Adds req name value f a = unless-Adds (header_supplied req name) f _ a

flat :
    (m a p e w x y z c r : List ℕ)
    → m ++ (a ++ (p ++ (e ++ (w ++ (x ++ (y ++ (z ++ (c ++ r))))))))
      ≡ (m ++ (a ++ (p ++ e))) ++ ((w ++ (x ++ (y ++ (z ++ c)))) ++ r)
flat m a p e w x y z c r = simp (append_assoc)

shorter : (s t : List ℕ) → length (s ++ t) < max_cap → length s < max_cap
shorter s t h = omega (arith, length-append s t)

module _ (req : StHttpRequest) where
  host-Adds :
      length (host_line req) < 512
      → Adds (add_printed (host_line req)) (bytes "Host" ++ (bytes ": " ++ (authority req ++ crlf)))
  host-Adds h =
      Adds-text
        (elim (Bool-cases (req.port == 80)) [
          | inl y ↦ rw y refl
          | inr y ↦ rw y (
              ap (λ x. bytes "Host: " ++ (x ++ crlf))
                (append_assoc req.host (b':' ∷ []) (decimal req.port)))
        ])
        (add_printed-Adds (host_line req) h)

  connection-Adds :
      Adds
        (buf_add (connection_line req.keepalive))
        (bytes "Connection" ++ (bytes ": " ++ (connection_value req ++ crlf)))
  connection-Adds =
      Adds-text (elim (Bool-cases req.keepalive) [ inl y ↦ rw y refl | inr y ↦ rw y refl ])
        (buf_add-Adds _)

  content-Adds :
      length (length_line req.body_len) < 512
      → Adds
          (if has_content req
            then unless (header_supplied req (bytes "Content-Type")) (buf_add type_line)
              >> unless
                  (header_supplied req (bytes "Content-Length"))
                  (add_printed (length_line req.body_len))
            else some)
          (field_lines req (content_fields req))
  unfolding field_lines
  content-Adds l = elim (Bool-cases (has_content req)) [
    | inr y ↦ rw y stay-Adds
    | inl y ↦ rw y (
        >>-Adds _ _ _ _
          (field-Adds req (bytes "Content-Type") (bytes "application/x-www-form-urlencoded") _
            λ _. buf_add-Adds type_line)
          (Adds-text (sym (append-nil _)) (
            field-Adds req (bytes "Content-Length") (decimal req.body_len) _
              λ _. add_printed-Adds (length_line req.body_len) l)))
  ]

  -- If the Host line and the Content-Length line fit into the line of 512 bytes and the whole request
  -- is shorter than 64 MB, build_request returns 0, and the buffer holds the text of the request with
  -- room for the null behind it: the request line, then each of the client's own header fields that
  -- the caller has not supplied in any case of letters, then the caller's, then the body.
  pub build_request_text :
      length (host_line req) < 512
      → length (length_line req.body_len) < 512
      → length (request_text req) < max_cap
      → (b : ByteBuf) × (build_request req ≡ some b) × (b.text ≡ request_text req) × Room b
  unfolding build_request request_text request_line field_lines default_fields
  build_request_text h l m =
      let host = field-Adds req (bytes "Host") _ _ λ _. host-Adds h in
      let agent =
        field-Adds req (bytes "User-Agent") (bytes "sthread-httpclient/1.0") _
          λ _. buf_add-Adds _ in
      let accept = field-Adds req (bytes "Accept") (bytes "*/*") _ λ _. buf_add-Adds _ in
      let connection = field-Adds req (bytes "Connection") _ _ λ _. connection-Adds in
      let rest =
        >>-Adds _ _ _ _ (add_headers-Adds req.headers)
          (>>-Adds _ _ _ _ (buf_add-Adds crlf) (add_body-Adds req.body_len req.body)) in
      let fields = >>-Adds _ _ _ _ host (
        >>-Adds _ _ _ _ agent (
          >>-Adds _ _ _ _ accept
            (>>-Adds _ _ _ _ connection (>>-Adds _ _ _ _ (content-Adds l) rest)))) in
      let line = >>-Adds _ _ _ _ (buf_add-Adds (bytes " ")) (
        >>-Adds _ _ _ _ (buf_add-Adds (path_of req.path))
          (>>-Adds _ _ _ _ (buf_add-Adds (bytes " HTTP/1.1" ++ crlf)) fields)) in
      let same =
        flat (method_of req.method) (bytes " ") (path_of req.path) (bytes " HTTP/1.1" ++ crlf)
          (field_line req (bytes "Host") (authority req))
          (field_line req (bytes "User-Agent") (bytes "sthread-httpclient/1.0"))
          (field_line req (bytes "Accept") (bytes "*/*"))
          (field_line req (bytes "Connection") (connection_value req))
          (field_lines req (content_fields req))
          (own_lines req.headers ++ (crlf ++ body_text req.body_len req.body)) in
      let start : ByteBuf = record { text = []; cap = 0 } in
      let short = subst (λ x. length x < max_cap) (sym same) m in
      let first =
        buf_add-Added (method_of req.method) start (shorter (method_of req.method) _ short) in
      let a = >>-Added (buf_add (method_of req.method)) _ _ _ start short first line in
      (a.after, a.returned, a.text ∙ same, a.room)
