-- ===== src/Http/Connections.antt =====
-- app/st_httpclient/http_client.cc: st_http_exchange ends, and it neither loses nor frees twice a
-- connection.
use sthread.Prelude.{ℕ, ◌+◌, ◌/◌, ◌≤◌, ◌<◌, ◌≡◌, List, Bool, not, if◌then◌else◌, arith}
use sthread.Http.Exchange.{Parser, Net, StHttpConn, StHttpResponse, is_some}

-- a pool of connections, `live` of which are handed out, and a clock that is not set back: `time` is in
-- nanoseconds, and no call takes less than none
pub record Pool {W : Type 0} (net : Net W) : Type 0 where
  pub live : W → ℕ
  pub time : W → ℕ
  pub clock_time : (w : W) → (net.clock w).0 ≡ time w / 1000000
  pub clock_ticks : (w : W) → time w < time (net.clock w).1
  pub clock_live : (w : W) → live (net.clock w).1 ≡ live w
  pub alloc_live :
      (w : W) → live (net.alloc_ptr w).1 ≡ live w + (if is_some (net.alloc_ptr w).0 then 1 else 0)
  pub alloc_time : (w : W) → time w ≤ time (net.alloc_ptr w).1
  -- a live connection is given back
  pub free_live : (c : ℕ) (w : W) → 0 < live w → live (net.free_ptr c w) + 1 ≡ live w
  pub free_time : (c : ℕ) (w : W) → time w ≤ time (net.free_ptr c w)
  pub create_live : (c left : ℕ) (w : W) → live (net.create c left w).1 ≡ live w
  pub create_time : (c left : ℕ) (w : W) → time w ≤ time (net.create c left w).1
  pub send_live : (fd left : ℕ) (s : List ℕ) (w : W) → live (net.send fd s left w).1 ≡ live w
  pub send_time : (fd left : ℕ) (s : List ℕ) (w : W) → time w ≤ time (net.send fd s left w).1
  pub recv_live : (fd left : ℕ) (w : W) → live (net.recv fd left w).1 ≡ live w
  pub recv_time : (fd left : ℕ) (w : W) → time w ≤ time (net.recv fd left w).1

-- the connections that a StHttpConn holds; it has a descriptor just if it has a connection
abbrev pub held : StHttpConn → ℕ
held io = if is_some io.conn then 1 else 0

abbrev pub IsConn : StHttpConn → Type 0
IsConn io = is_some io.conn ≡ is_some io.fd

module _ {W P : Type 0} (net : Net W) (parser : Parser P) (pool : Pool net) where
  -- all connections but the one that is held are as before; after an error the response says so, and
  -- nothing is held but what was before
  pub record Accounted (io : StHttpConn) (w : W) (r : Bool × StHttpResponse × StHttpConn × W)
      : Type 0 where
    pub balanced : pool.live r.3 + held io ≡ pool.live w + held r.2
    pub whole : IsConn r.2
    pub reported : r.1.transport_error ≡ not r.0

  -- what one part of the call leaves: `io` and `w` at its start, `io'` and `w'` at its end
  pub record Balanced (io : StHttpConn) (w : W) (io' : StHttpConn) (w' : W) : Type 0 where
    pub balanced : pool.live w' + held io ≡ pool.live w + held io'
    pub whole : IsConn io'
    pub later : pool.time w ≤ pool.time w'

  held_le :
      {io io' : StHttpConn} {w w' : W}
      → Balanced io w io' w'
      → held io ≤ pool.live w
      → held io' ≤ pool.live w'
  held_le b h = omega (arith, b.balanced)
