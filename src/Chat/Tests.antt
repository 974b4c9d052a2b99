-- ===== src/Chat/Tests.antt =====
-- app/st_chat/server.cpp: a room of two sessions, and the lines of a stream.
use sthread.Prelude.{
  ℕ, ◌+◌, ◌≡◌, refl, inl, inr, List, [], ◌∷◌, ◌++◌, c_string, Bool-cases, Bool, true, some,
  if◌then◌else◌, ◌==◌, bytes_eq, arith,
}
use sthread.Thread.Init.{new_schedule, sys_init, sys_init-IsSafe}
use sthread.Chat.{
  Mail, Session, Room, broadcast, anon, strip_cr, feed, quit_word, find_unused, release_session,
  nick_of,
}
use sthread.Chat.Mailbox.{IsValid, contents, puts, takes, run_mail, run_queue, run_mail-run_queue}
use sthread.Chat.Lines.{IsPlain, run_lines, feed_all, kept, feed_all-wire}
use sthread.Chat.Broadcast.{Spread, broadcast-Spread}

abbrev hi : List ℕ
hi = b'h' ∷ b'i' ∷ []

-- seven older lines were taken out, and one is left
abbrev one_left : Mail
one_left = record { text = λ _. hi; head = 7; n = 1 }

one_left-IsValid : IsValid one_left
unfolding contents
one_left-IsValid = record {
  head_in = omega arith;
  n_in = omega arith;
  fit = (omega arith, omega arith, tt);
}

run_mail-run_queue_example :
    run_mail one_left (puts quit_word ∷ takes ∷ takes ∷ takes ∷ [])
    ≡ run_queue (hi ∷ []) (puts quit_word ∷ takes ∷ takes ∷ takes ∷ [])
unfolding contents
run_mail-run_queue_example =
    run_mail-run_queue (puts quit_word ∷ takes ∷ takes ∷ takes ∷ []) one_left one_left-IsValid

abbrev count_lines : List ℕ → ℕ → Bool × ℕ
count_lines l n = (bytes_eq l quit_word, n + 1)

-- two lines, the second with a carriage return, and the start of a third, in two parts
abbrev parts : List (List ℕ)
parts = (b'h' ∷ []) ∷ (b'i' ∷ 10 ∷ b'h' ∷ b'i' ∷ 13 ∷ 10 ∷ b'h' ∷ []) ∷ []

feed_all-wire_example :
    let r = feed_all count_lines [] parts 0 in
    let lines = run_lines count_lines (hi ∷ (hi ++ 13 ∷ []) ∷ []) 0 in
    (r.0 ≡ lines.0) × (r.2 ≡ lines.1) × (kept count_lines r ≡ (if lines.0 then [] else b'h' ∷ []))
unfolding IsPlain
feed_all-wire_example =
    feed_all-wire count_lines parts (hi ∷ (hi ++ 13 ∷ []) ∷ []) (b'h' ∷ []) 0 refl
      (((refl, (refl, tt)), omega arith), (((refl, (refl, (refl, tt))), omega arith), tt))
      ((refl, tt), omega arith)

-- two lines were counted
two_counted : (feed_all count_lines [] parts 0).2 ≡ 2
unfolding feed_all feed strip_cr bytes_eq
two_counted = refl

abbrev session : ℕ → Session
session self = record {
  used = true;
  fd = some 9;
  self = self;
  nick = anon;
  mail = one_left;
  item = 8;
}

-- the session 0 is that of thread 2, and all others that of thread 3
abbrev room : Room
room = record {
  sess = λ i. if i == 0 then session 2 else session 3;
  threads = sys_init 1024 true 1 2 new_schedule;
}

room-IsValid : (i : ℕ) → IsValid (if i == 0 then session 2 else session 3).mail
room-IsValid i = elim (Bool-cases (i == 0)) [
  | inl y ↦ rw y one_left-IsValid
  | inr y ↦ rw y one_left-IsValid
]

broadcast-Spread_example : Spread hi 0 room (broadcast (λ _. true) 0 hi room)
broadcast-Spread_example =
    broadcast-Spread (λ _. true) hi 0 room (λ t. refl) room-IsValid
      (sys_init-IsSafe 1024 true 1 2 (omega arith) (omega arith))

-- the first session is taken, and free again after the release
released : find_unused 3 0 (release_session 0 room).sess ≡ some 0
unfolding find_unused release_session
released = refl

nick_read : nick_of (hi ++ 13 ∷ []) ≡ hi
unfolding nick_of strip_cr c_string
nick_read = refl
