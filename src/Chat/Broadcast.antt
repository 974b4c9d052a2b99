-- ===== src/Chat/Broadcast.antt =====
-- app/st_chat/server.cpp: broadcast, seen through the queues of the mailboxes.
use sthread.Prelude.{
  ℕ, ◌≤◌, ◌<◌, ◌≡◌, ◌∙◌, ◌⊎◌, ◌↔◌, inl, inr, refl, sym, List, Bool, true, false, arith,
}
use sthread.Chat.{Room, broadcast, max_sessions}
use sthread.Thread.Life.{IsSafe}
use sthread.Thread.Reach.{Reach-IsSafe}
use sthread.Chat.Mailbox.{IsValid, contents, push_queue, mail_push_queue}
use sthread.Chat.Deliver.{Hears, Deaf, broadcast_from-Heard}

-- `line` was sent to all sessions but `from`, seen through the queues of the mailboxes
pub record Spread (line : List ℕ) (from : ℕ) (r : Room) (out : Bool × Room) : Type 0 where
  pub peers :
      (j : ℕ)
      → j < max_sessions
      → Hears from j (r.sess j)
      → IsValid (out.1.sess j).mail
        × (contents (out.1.sess j).mail ≡ (push_queue (contents (r.sess j).mail) line).1)
        × (record (out.1.sess j) { mail = (r.sess j).mail } ≡ r.sess j)
  pub others : (j : ℕ) → (max_sessions ≤ j) ⊎ Deaf from j (r.sess j) → out.1.sess j ≡ r.sess j
  pub told :
      (j : ℕ)
      → j < max_sessions
      → Hears from j (r.sess j)
      → (push_queue (contents (r.sess j).mail) line).0 ≡ true
      → out.1.threads.notified (r.sess j).self ≡ true
  pub dropped : (out.0 ≡ false) ↔ (
      (j : ℕ)
      → j < max_sessions
      → Hears from j (r.sess j)
      → (push_queue (contents (r.sess j).mail) line).0 ≡ true)
  pub safe : IsSafe out.1.threads

-- For every line and room whose scheduler is safe, whose threads belong to this schedule and whose
-- mailboxes are well formed. After broadcast each used session with a thread, but the sender, has the
-- line last in its mailbox if the line has 1 to 511 bytes and fewer than eight were there, and its
-- thread then has the sticky bit; nothing else of a session changes. The result is 0 just if no such
-- session missed the line, and the scheduler is safe.
pub broadcast-Spread :
    (ours : ℕ → Bool) (line : List ℕ) (from : ℕ) (r : Room)
    → ((t : ℕ) → ours t ≡ true)
    → ((j : ℕ) → IsValid (r.sess j).mail)
    → IsSafe r.threads
    → Spread line from r (broadcast ours from line r)
unfolding broadcast
broadcast-Spread ours line from r o v safe =
    let h = broadcast_from-Heard ours line o max_sessions 0 from r in
    let queued = λ (j : ℕ). mail_push_queue (r.sess j).mail line (v j) in
    record {
      peers = λ j b hears.
          let e = h.peers j (omega arith) (omega arith) hears in
          rw e ((queued j).1.0, (queued j).1.1, refl);
      others = λ j d. h.others j (elim d [ inl a ↦ inr (inl (omega arith)) | inr a ↦ inr (inr a) ]);
      told = λ j b hears p. h.told j (omega arith) (omega arith) hears ((queued j).0 ∙ p);
      dropped = (
        λ z j b hears. sym (queued j).0 ∙ h.dropped.0 z j (omega arith) (omega arith) hears,
        λ f. h.dropped.1 (λ j a b hears. (queued j).0 ∙ f j (omega arith) hears),
      );
      safe = Reach-IsSafe safe h.reached;
    }
