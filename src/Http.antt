-- ===== src/Http.antt =====
-- app/st_httpclient/http_client.cc: the HTTP client. Text is a list of bytes, a C string one without
-- its null; sizes fit into an int and are not negative, and memory does not run out. Here is the
-- buffer that grows, and the request that is built in it.
pub mod Buffer
pub mod Request
pub mod Exchange
pub mod Response
pub mod Connections
mod Tests
use Prim.Native.Char.{code}
use Prim.Native.String.{String}
use sthread.Prelude.{
  ℕ, zero, suc, ◌+◌, ◌*◌, List, [], ◌∷◌, ◌++◌, length, take, Bool, true, false, ◌&&◌, ◌||◌, Option,
  none, some, if◌then◌else◌, ltb, leb, ◌==◌, bytes_eq,
}
use sthread.Resp.{decimal}

-- a string literal as its bytes
abbrev pub bytes : String → List ℕ
bytes String.[] = []
bytes (String.◌∷◌ c s) = code c ∷ bytes s

-- a buffer and its room; its length is that of the text
pub record ByteBuf : Type 0 where
  pub text : List ℕ
  pub cap : ℕ

abbrev pub max_cap : ℕ
max_cap = 67108864

-- the loop that doubles the room until it holds `need` bytes; -1 beyond 64 MB
unfoldable pub grow_cap : ℕ → ℕ → ℕ → Option ℕ
grow_cap zero cap need = none
grow_cap (suc fuel) cap need =
    let rest = grow_cap fuel (cap * 2) need in
    if ltb cap need then (if ltb max_cap cap then none else rest) else some cap

abbrev pub put : ByteBuf → List ℕ → Option ℕ → Option ByteBuf
put b s none = none
put b s (some cap) = some (record { text = b.text ++ s; cap = cap })

-- with fuel for one step of each byte that is needed
unfoldable pub buf_add : List ℕ → ByteBuf → Option ByteBuf
buf_add s b =
    let need = length b.text + length s + 1 in
    put b s (grow_cap need (if ltb 0 b.cap then b.cap else 512) need)

-- `f (...) != 0 || g (...) != 0` of calls that add to a buffer
infixr 4 ◌>>◌
abbrev pub ◌>>◌ : (ByteBuf → Option ByteBuf) → (ByteBuf → Option ByteBuf) → ByteBuf → Option ByteBuf
(f >> g) b = elim (f b) [ none ↦ none | some b' ↦ g b' ]

pub record StHttpRequest : Type 0 where
  pub method : Option (List ℕ)
  pub host : List ℕ
  pub port : ℕ
  pub path : Option (List ℕ)
  pub body : Option (List ℕ)
  pub body_len : ℕ
  pub timeout_ms : ℕ
  pub keepalive : Bool
  pub verbose : Bool
  pub headers : List (Option (List ℕ))
  pub ip_be : ℕ

-- tolower of the C locale
abbrev pub lower : ℕ → ℕ
lower c = if leb b'A' c && leb c b'Z' then c + 32 else c

-- a header text that begins with the name, in any case, and a colon
unfoldable pub names : List ℕ → List ℕ → Bool
names [] [] = false
names [] (c ∷ h) = c == b':'
names (n ∷ name) [] = false
names (n ∷ name) (c ∷ h) = lower n == lower c && names name h

unfoldable pub supplied_in : List (Option (List ℕ)) → List ℕ → Bool
supplied_in [] name = false
supplied_in (none ∷ hs) name = supplied_in hs name
supplied_in (some h ∷ hs) name = names name h || supplied_in hs name

abbrev pub header_supplied : StHttpRequest → List ℕ → Bool
header_supplied req name = supplied_in req.headers name

abbrev pub path_of : Option (List ℕ) → List ℕ
path_of none = b'/' ∷ []
path_of (some []) = b'/' ∷ []
path_of (some (c ∷ s)) = c ∷ s

abbrev pub method_of : Option (List ℕ) → List ℕ
method_of none = bytes "GET"
method_of (some s) = s

abbrev pub crlf : List ℕ
crlf = 13 ∷ 10 ∷ []

-- what snprintf prints into a line of 512 bytes, with its null
unfoldable pub add_printed : List ℕ → ByteBuf → Option ByteBuf
add_printed line b = if leb 512 (length line) then none else buf_add line b

unfoldable pub unless : Bool → (ByteBuf → Option ByteBuf) → ByteBuf → Option ByteBuf
unless c f b = if c then some b else f b

abbrev pub host_line : StHttpRequest → List ℕ
host_line req =
    if req.port == 80
    then bytes "Host: " ++ req.host ++ crlf
    else bytes "Host: " ++ req.host ++ bytes ":" ++ decimal req.port ++ crlf

abbrev pub connection_line : Bool → List ℕ
connection_line keep =
    if keep then bytes "Connection: keep-alive" ++ crlf else bytes "Connection: close" ++ crlf

abbrev pub type_line : List ℕ
type_line = bytes "Content-Type: application/x-www-form-urlencoded" ++ crlf

abbrev pub length_line : ℕ → List ℕ
length_line n = bytes "Content-Length: " ++ decimal n ++ crlf

-- no content headers for a request without body that is no POST
abbrev pub has_content : StHttpRequest → Bool
has_content req = ltb 0 req.body_len || bytes_eq (method_of req.method) (bytes "POST")

unfoldable pub add_headers : List (Option (List ℕ)) → ByteBuf → Option ByteBuf
add_headers [] b = some b
add_headers (none ∷ hs) b = add_headers hs b
add_headers (some h ∷ hs) b = (buf_add h >> buf_add crlf >> add_headers hs) b

-- the body, which has at least `body_len` bytes when it is there
unfoldable pub add_body : ℕ → Option (List ℕ) → ByteBuf → Option ByteBuf
add_body n none b = some b
add_body n (some s) b = if ltb 0 n then buf_add (take n s) b else some b

unfoldable pub build_request : StHttpRequest → Option ByteBuf
build_request req =
    (buf_add (method_of req.method)
        >> buf_add (bytes " ")
        >> buf_add (path_of req.path)
        >> buf_add (bytes " HTTP/1.1" ++ crlf)
        >> unless (header_supplied req (bytes "Host")) (add_printed (host_line req))
        >> unless (header_supplied req (bytes "User-Agent"))
            (buf_add (bytes "User-Agent: sthread-httpclient/1.0" ++ crlf))
        >> unless (header_supplied req (bytes "Accept")) (buf_add (bytes "Accept: */*" ++ crlf))
        >> unless (header_supplied req (bytes "Connection"))
            (buf_add (connection_line req.keepalive))
        >> (if has_content req
            then unless (header_supplied req (bytes "Content-Type")) (buf_add type_line)
              >> unless (header_supplied req (bytes "Content-Length"))
                  (add_printed (length_line req.body_len))
            else some)
        >> add_headers req.headers
        >> buf_add crlf
        >> add_body req.body_len req.body)
      (record { text = []; cap = 0 })
