-- ===== src/Event/Wait.antt =====
-- src/st_thread.cc: the timeout of Wait, what Dispatch keeps, and what Schedule reports.
use sthread.Prelude.{
  ℕ, ◌<◌, ◌≡◌, ◌≢◌, inl, inr, refl, ◌∙◌, List, [], ◌∷◌, Bool, true, false, not, ◌&&◌, none, some,
  if◌then◌else◌, leb, ◌==◌, Bool-cases, ==→ne, arith, ne→==, eq→==,
}
use sthread.Poll.{Epoll, StFiredEvent, poll_timeout}
use sthread.Poll.Agrees.{Contract, AgreesWith}
use sthread.Event.{is_valid_fd, add_queue}
use sthread.Event.Dispatch.{
  World, wake, set_recv_events, handle, fire, dispatch_one, dispatch, wait_tv, received, recv_num,
  schedule_begin, schedule_end,
}
use sthread.Event.Registered.{Kept, queue-Kept, clear_item-Kept, delete_fd-Kept}
use sthread.Thread.{StThreadSchedule}
use sthread.Thread.Queues.{io_wait_to_runable, insert_runable, remove_io_wait}
use sthread.Thread.Around.{runable_after, remove_io_wait-Around}
use sthread.Thread.Life.{IsSafe}
use sthread.Thread.Reach.{Reach, Step, here, next, fires, Reach-IsSafe}

-- Wait with a positive timeout gives epoll_wait, through the seconds and microseconds, just the
-- smaller of the timeout and the schedule's positive limit in milliseconds. With 0 or a negative
-- timeout it waits without limit.
pub wait_timeout :
    (limit t : ℕ)
    → 0 < limit
    → (0 < t → poll_timeout (wait_tv limit (some t)) ≡ some (if leb t limit then t else limit))
      × (poll_timeout (wait_tv limit (some 0)) ≡ none)
      × (poll_timeout (wait_tv limit none) ≡ none)
unfolding wait_tv poll_timeout
wait_timeout limit t h = (λ p. ground arith, ground arith, refl)

-- the threads came from `s` by calls of the scheduler, and none of them has switched
abbrev pub Calls : StThreadSchedule → StThreadSchedule → Type 0
Calls s ts =
    Reach s ts × (ts.active_thread ≡ s.active_thread) × (ts.daemon_thread ≡ s.daemon_thread)

wake-Calls :
    {s : StThreadSchedule} (t : ℕ) (ts : StThreadSchedule) → Calls s ts → Calls s (wake t ts)
unfolding wake io_wait_to_runable
wake-Calls t ts r = elim (Bool-cases (t == 0)) [
  | inl y ↦ rw y r
  | inr y ↦ elim (Bool-cases (ts.flag t).io_list) [
    | inl z ↦
        let n = ==→ne t 0 y in
        let a = runable_after (remove_io_wait t ts).1 n (remove_io_wait-Around ts t n) in
        let step : Step ts (insert_runable t (remove_io_wait t ts).1).1 = rw y at (fires ts t z) in
        rw (y, z) (next r.0 step, a.active_eq ∙ r.1, a.daemon_eq ∙ r.2)
    | inr z ↦ rw (y, z) r
  ]
]

Calls-if :
    {s : StThreadSchedule} (b : Bool) (x y : StThreadSchedule)
    → Calls s x
    → Calls s y
    → Calls s (if b then x else y)
Calls-if true x y p q = p
Calls-if false x y p q = q

module _ {K : Type 0} {e : Epoll K} (c : Contract e) (ev_input ev_output : ℕ → ℕ) where
  handle-Calls :
      {s : StThreadSchedule} (item thread : ℕ) (v : StFiredEvent) (ts : StThreadSchedule)
      → Calls s ts
      → Calls s (handle e ev_input ev_output item thread v.mask ts)
  unfolding handle
  handle-Calls item thread v ts r =
      let ts₁ = if v.mask.readable then wake thread ts else ts in
      let r₁ = Calls-if v.mask.readable (wake thread ts) ts (wake-Calls thread ts r) r in
      let b = v.mask.writeable && ev_output item == 0 in
      Calls-if (v.mask.readable && not (ev_input item == 0)) ts (if b then wake thread ts₁ else ts₁)
        r (Calls-if b (wake thread ts₁) ts₁ (wake-Calls thread ts₁ r₁) r₁)

  -- the masks are those of the kernel, and and of the threads `Calls`
  pub record Runs (s : StThreadSchedule) (w : World K) : Type 0 where
    pub agrees : AgreesWith c w.schedule.io w.kernel
    pub calls : Calls s w.threads

  Runs-if :
      {s : StThreadSchedule} (b : Bool) (x y : World K)
      → Runs s x
      → Runs s y
      → Runs s (if b then x else y)
  Runs-if true x y p q = p
  Runs-if false x y p q = q

  fire-Runs :
      {s : StThreadSchedule} (v : StFiredEvent) (item : ℕ) (w : World K)
      → Runs s w
      → Runs s (fire e ev_input ev_output v item w)
  unfolding fire set_recv_events
  fire-Runs v item w r =
      let u = set_recv_events w.schedule item (record { mask = v.mask; everr = v.everr }) in
      let kept : Kept c u.revents u w.kernel = record { agrees = r.agrees; received = refl } in
      let t = w.schedule.owner item in
      Runs-if v.everr _ _
        (record {
          agrees = (clear_item-Kept c _ u item w.kernel kept).agrees;
          calls = wake-Calls t w.threads r.calls;
        })
        (record {
          agrees = r.agrees;
          calls =
              Calls-if (t == 0) w.threads (handle e ev_input ev_output item t v.mask w.threads)
                r.calls (handle-Calls item t v w.threads r.calls);
        })

  dispatch_one-Runs :
      {s : StThreadSchedule} (v : StFiredEvent) (w : World K)
      → Runs s w
      → Runs s (dispatch_one e ev_input ev_output v w)
  unfolding dispatch_one
  dispatch_one-Runs v w r =
      let kept : Kept c w.schedule.revents w.schedule w.kernel = record {
        agrees = r.agrees;
        received = refl;
      } in
      Runs-if (is_valid_fd w.schedule v.fd) _ _
        (Runs-if (w.schedule.event v.fd == 0) _ _
          (record {
            agrees = (delete_fd-Kept c _ w.schedule v.fd v.mask w.kernel kept).agrees;
            calls = r.calls;
          })
          (fire-Runs v (w.schedule.event v.fd) w r))
        r

  pub dispatch-Runs :
      {s : StThreadSchedule} (fired : List StFiredEvent) (w : World K)
      → Runs s w
      → Runs s (dispatch e ev_input ev_output fired w)
  unfolding dispatch
  dispatch-Runs [] w r = r
  dispatch-Runs (v ∷ rest) w r = dispatch-Runs rest _ (dispatch_one-Runs v w r)

  -- Whatever events the poller reports and whatever the handlers of the items return: Dispatch leaves
  -- the masks of the poller those of the kernel if they were, and the scheduler of threads safe if it
  -- was.
  pub dispatch-IsSafe :
      (fired : List StFiredEvent) (w : World K)
      → AgreesWith c w.schedule.io w.kernel
      → IsSafe w.threads
      → let w' = dispatch e ev_input ev_output fired w in
        AgreesWith c w'.schedule.io w'.kernel × IsSafe w'.threads
  dispatch-IsSafe fired w a safe =
      let r = dispatch-Runs fired w (record { agrees = a; calls = (here, refl, refl) }) in
      (r.agrees, Reach-IsSafe safe r.calls.0)

module _ {K : Type 0} {e : Epoll K} (c : Contract e) where
  -- the state in which a timer resumes the thread: no event came, the threads moved on
  abbrev pub resumed : World K → StThreadSchedule → World K
  resumed w ts = record w { threads = ts }

  begin_alone :
      (thread item wakeup_timeout : ℕ) (w : World K)
      → AgreesWith c w.schedule.io w.kernel
      → thread ≢ 0
      → item ≢ 0
      → w.fdset thread ≡ []
      → (schedule_begin e thread [] item wakeup_timeout w).0 ≡ true
      → let w' = (schedule_begin e thread [] item wakeup_timeout w).1 in
        (w'.schedule.revents ≡ w.schedule.revents) × (w'.fdset thread ≡ item ∷ [])
  unfolding schedule_begin
  begin_alone thread item wakeup_timeout w a t i f =
      let kept =
        (queue-Kept c w.schedule.revents (item ∷ []) w.schedule w.kernel
          (record { agrees = a; received = refl })).0 in
      elim (Bool-cases (add_queue e (item ∷ []) w.schedule w.kernel).0) [
        | inl y ↦
            rw (ne→== thread 0 t, ne→== item 0 i, f, y, eq→== thread thread refl)
              λ b. (kept.received, refl)
        | inr y ↦ rw (ne→== thread 0 t, ne→== item 0 i, f, y) λ b. absurd (ground arith)
      ]

  -- If an item has received an event in an earlier wait, a thread with no other item waits for it, the
  -- kernel accepts it and the thread is resumed without a new event, then Schedule reports an event and
  -- no timeout: the received events of the item are not reset.
  pub schedule_end-stale :
      (thread item wakeup_timeout : ℕ) (w : World K) (ts : StThreadSchedule)
      → AgreesWith c w.schedule.io w.kernel
      → thread ≢ 0
      → item ≢ 0
      → w.fdset thread ≡ []
      → received (w.schedule.revents item) ≡ true
      → (schedule_begin e thread [] item wakeup_timeout w).0 ≡ true
      → (schedule_end e thread (resumed (schedule_begin e thread [] item wakeup_timeout w).1 ts)).0
        ≡ true
  unfolding schedule_end recv_num
  schedule_end-stale thread item wakeup_timeout w ts a t i f g b =
      let (r, q) = begin_alone thread item wakeup_timeout w a t i f b in rw (q, r, g) refl
