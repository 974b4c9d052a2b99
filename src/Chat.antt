-- ===== src/Chat.antt =====
-- app/st_chat/server.cpp: the chat room. A text is a C string without its null, a session is its
-- place in g_sess, and a thread is an address. What st_send leads to is a parameter.
pub mod Mailbox
pub mod Lines
pub mod Deliver
pub mod Broadcast
mod Tests
use sthread.Prelude.{
  ℕ, zero, suc, ◌+◌, ◌-◌, ◌%◌, List, [], ◌∷◌, ◌++◌, length, take, drop, Bool, true, false, not,
  ◌&&◌, ◌||◌, Option, none, some, if◌then◌else◌, ltb, leb, ◌==◌, update, bytes_eq, c_string,
}
use sthread.Heap.{Status, done}
use sthread.Thread.{StThreadSchedule}
use sthread.Sys.Notify.{st_notify}

pub record Mail : Type 0 where
  pub text : ℕ → List ℕ
  pub head : ℕ
  pub n : ℕ

pub record Session : Type 0 where
  pub used : Bool
  -- `none` is -1
  pub fd : Option ℕ
  pub self : ℕ
  pub nick : List ℕ
  pub mail : Mail
  pub item : ℕ

-- g_sess and the scheduler of threads
pub record Room : Type 0 where
  pub sess : ℕ → Session
  pub threads : StThreadSchedule

abbrev pub max_sessions : ℕ
max_sessions = 64

-- the results 0 and -1
unfoldable pub mail_push : Mail → List ℕ → Bool × Mail
mail_push m line =
    let len = length line in
    if len == 0 || (leb 512 len || leb 8 m.n)
    then (false, m)
    else (true, record m { text = update m.text ((m.head + m.n) % 8) line; n = m.n + 1 })

-- the line that goes to `out`, cut to its room; `none` is 0
unfoldable pub mail_pop : Mail → ℕ → Option (List ℕ) × Mail
mail_pop m cap =
    let line = m.text m.head in
    let len = if leb cap (length line) then cap - 1 else length line in
    if m.n == 0 || leb cap 1
    then (none, m)
    else (some (take len line), record m { head = (m.head + 1) % 8; n = m.n - 1 })

abbrev pub is_done : Status → Bool
is_done Status.done = true
is_done _ = false

abbrev pub set_mail : ℕ → Mail → Room → Room
set_mail i m r = record r { sess = update r.sess i (record (r.sess i) { mail = m }) }

-- a thread of another schedule is refused by st_notify
module _ (ours : ℕ → Bool) where
  -- the peer gets the line and is notified; whether it was dropped
  unfoldable pub deliver : ℕ → List ℕ → Room → Bool × Room
  deliver i line r =
      let peer = r.sess i in
      let pushed = mail_push peer.mail line in
      let told = st_notify peer.self (ours peer.self) r.threads in
      if pushed.0
      then (not (is_done told.0), record (set_mail i pushed.1 r) { threads = told.1 })
      else (true, r)

  -- the loop of broadcast over the `k` sessions from `i` on
  unfoldable pub broadcast_from : ℕ → ℕ → ℕ → List ℕ → Room → Bool × Room
  broadcast_from zero i from line r = (false, r)
  broadcast_from (suc k) i from line r =
      let peer = r.sess i in
      let sent = deliver i line r in
      let now = if not peer.used || (i == from || peer.self == 0) then (false, r) else sent in
      let rest = broadcast_from k (i + 1) from line now.1 in (now.0 || rest.0, rest.1)

  unfoldable pub broadcast : ℕ → List ℕ → Room → Bool × Room
  broadcast from line r = broadcast_from max_sessions 0 from line r

abbrev empty_mail : Mail
empty_mail = record { text = λ _. []; head = 0; n = 0 }

-- anon
abbrev pub anon : List ℕ
anon = b'a' ∷ b'n' ∷ b'o' ∷ b'n' ∷ []

-- the loop of alloc_session over the `k` sessions from `i` on
unfoldable pub find_unused : ℕ → ℕ → (ℕ → Session) → Option ℕ
find_unused zero i sess = none
find_unused (suc k) i sess = if (sess i).used then find_unused k (i + 1) sess else some i

unfoldable pub alloc_session : ℕ → ℕ → Room → Option ℕ × Room
alloc_session fd item r = elim (find_unused max_sessions 0 r.sess) [
  | none ↦ (none, r)
  | some i ↦ (
    some i,
    record r {
      sess = update r.sess i (record {
        used = true;
        fd = some fd;
        self = 0;
        nick = anon;
        mail = empty_mail;
        item = item;
      });
    },
  )
]

-- what is left of a session; ClearItem and close are the poller's and the kernel's
unfoldable pub release_session : ℕ → Room → Room
release_session i r = record r {
  sess = update r.sess i (record (r.sess i) {
    used = false;
    fd = none;
    self = 0;
    item = 0;
    mail = record (r.sess i).mail { head = 0; n = 0 };
  });
}

-- the bytes without a carriage return at the end
unfoldable pub strip_cr : List ℕ → List ℕ
strip_cr [] = []
strip_cr (c ∷ []) = if c == 13 then [] else c ∷ []
strip_cr (c ∷ d ∷ s) = c ∷ strip_cr (d ∷ s)

-- set_nick, on the bytes that were read
unfoldable pub nick_of : List ℕ → List ℕ
nick_of acc = let t = take 31 (strip_cr acc) in if length t == 0 then anon else c_string t

-- quit
abbrev quit_word : List ℕ
quit_word = b'q' ∷ b'u' ∷ b'i' ∷ b't' ∷ []

-- the message of a line, as snprintf writes it
abbrev pub message : List ℕ → List ℕ → List ℕ
message nick text = nick ++ (b':' ∷ b' ' ∷ (text ++ 10 ∷ []))

module _ (ours : ℕ → Bool) (reply_dropped : ℕ → Room → Room) where
  -- `reply_dropped` is the room after send_all of the note to the session, whose result is ignored
  unfoldable pub on_line : ℕ → List ℕ → Room → Bool × Room
  on_line i text r =
      let line = c_string text in
      let msg = message (r.sess i).nick line in
      let said = broadcast ours i msg r in
      if bytes_eq line quit_word then (true, r) else (
        false,
        (if leb 512 (length msg)
            then reply_dropped i r
            else (if said.0 then reply_dropped i said.1 else said.1)),
      )

-- the line that feed hands on
abbrev pub line_of : List ℕ → List ℕ
line_of acc = take 500 (strip_cr acc)

module _ {S : Type 0} (on : List ℕ → S → Bool × S) where
  -- feed, with the bytes of the unfinished line; `on` is on_line of the session
  unfoldable pub feed : List ℕ → List ℕ → S → Bool × List ℕ × S
  feed acc [] s = (false, acc, s)
  feed acc (c ∷ buf) s =
      let r = on (line_of acc) s in
      let next = feed [] buf r.1 in
      let more = feed (if ltb (length acc) 1023 then acc ++ c ∷ [] else []) buf s in
      if c == 10 then (if r.0 then (true, acc, r.1) else next) else more

  -- the loop of read_nick over the bytes of one st_recv: `none` when the nick has not ended, and
  -- else whether what follows it quits. `nick` is set_nick.
  unfoldable pub scan_nick : (List ℕ → S → S) → List ℕ → List ℕ → S → Option Bool × List ℕ × S
  scan_nick nick acc [] s = (none, acc, s)
  scan_nick nick acc (c ∷ buf) s =
      let fed = feed [] buf (nick acc s) in
      let more = scan_nick nick (if ltb (length acc) 1023 then acc ++ c ∷ [] else acc) buf s in
      if c == 10 then (some fed.0, fed.1, fed.2) else more
