-- ===== src/Thread/Yield.antt =====
-- src/st_thread.cc: the operations that yield keep the invariant, and the thread that runs next is
-- in no queue.
use sthread.Prelude.{
  ℕ, zero, suc, Bool, true, false, ◌==◌, if◌then◌else◌, List, ◌∷◌, ◌≡◌, ◌≢◌, ◌⊎◌, inl, inr, arith,
  some, none, count, count-erase, count-snoc, refl, sym, ne→==, eq→==, ℕ_discrete, List-cases, ap,
  ◌∙◌, length,
}
use mathlib.Core.Path.{subst}
use sthread.Thread.{StThreadSchedule, run, reclaim, tailq_remove, tailq_insert_tail, set_flag}
use sthread.Thread.Queues.{pop_runable}
use sthread.Thread.Switch.{delete_thread, reap_loop, reap_reclaim, next_thread, yield_to, yield}
use sthread.Thread.Consistent.{IsConsistent}
use sthread.Thread.Moves.{head_link, pop_runable-IsConsistent}

-- a thread that is in no queue, not asleep and not pooled, as one that runs is
pub record IsFree (s : StThreadSchedule) (t : ℕ) : Type 0 where
  pub not_null : t ≢ 0
  pub no_link : s.link t ≡ none
  pub awake : (s.flag t).sleep_list ≡ false
  pub used : count t s.idle ≡ 0

-- what a change of `s` to `s'` leaves: the invariant, the daemon thread, and every free thread
pub record Keeps (s s' : StThreadSchedule) : Type 0 where
  pub consistent : IsConsistent s'
  pub daemon_eq : s'.daemon_thread ≡ s.daemon_thread
  pub free : (t : ℕ) → IsFree s t → IsFree s' t

pub Keeps-trans : {s s' s'' : StThreadSchedule} → Keeps s s' → Keeps s' s'' → Keeps s s''
Keeps-trans a b = record {
  consistent = b.consistent;
  daemon_eq = b.daemon_eq ∙ a.daemon_eq;
  free = λ t f. b.free t (a.free t f);
}

abbrev dropped : StThreadSchedule → ℕ → StThreadSchedule
dropped s t = tailq_remove reclaim t s

module _ (s : StThreadSchedule) (t : ℕ) (c : IsConsistent s) where
  dropped-Keeps : s.link t ≡ some reclaim → Keeps s (dropped s t) × IsFree (dropped s t) t
  unfolding tailq_remove
  dropped-Keeps f = (
    record {
      consistent = record {
        valid = ground (arith, c.valid, f);
        intact = ground (arith, c.intact, f);
        listed = λ q u. ground (arith, c.listed q u, c.listed q t, f, count-erase t u (s.queue q));
        run_flag = λ u. ground (arith, c.run_flag u, f);
        io_flag = λ u. ground (arith, c.io_flag u, f);
        pend_flag = λ u. ground (arith, c.pend_flag u, f);
        asleep = λ u m. ground (arith, c.asleep u, f);
        apart = λ u m. ground (arith, c.apart u, f);
        pooled = λ u m. ground (arith, c.pooled u, f);
        idle_once = ground (arith, c.idle_once, f);
        null_idle = ground (arith, c.null_idle, f);
        null_link = ground (arith, c.null_link, f);
        null_index = ground (arith, c.null_index, f);
      };
      daemon_eq = ground (arith, f);
      free = λ u g. ground (arith, f);
    },
    record {
      not_null = ground (arith, f, c.null_link);
      no_link = ground (arith, f);
      awake = ground (arith, f, c.apart t);
      used = ground (arith, f, c.pooled t);
    },
  )

  -- a free thread enters the reclaim list
  pub reclaim-IsConsistent : IsFree s t → IsConsistent (tailq_insert_tail reclaim t s)
  unfolding tailq_insert_tail
  reclaim-IsConsistent f = record {
    valid = ground (arith, c.valid, f);
    intact = ground (arith, c.intact, f);
    listed = λ q u. ground (arith, c.listed q u, c.listed q t, f, count-snoc u t (s.queue q));
    run_flag = λ u. ground (arith, c.run_flag u, f);
    io_flag = λ u. ground (arith, c.io_flag u, f);
    pend_flag = λ u. ground (arith, c.pend_flag u, f);
    asleep = λ u m. ground (arith, c.asleep u, f);
    apart = λ u m. ground (arith, c.apart u, f);
    pooled = λ u m. ground (arith, c.pooled u, f);
    idle_once = ground (arith, c.idle_once, f);
    null_idle = ground (arith, c.null_idle, f);
    null_link = ground (arith, c.null_link, f);
    null_index = ground (arith, c.null_index, f);
  }

  delete_thread-Keeps : Keeps s (delete_thread t s)
  unfolding delete_thread
  delete_thread-Keeps = record {
    consistent = record {
      valid = c.valid;
      intact = c.intact;
      listed = c.listed;
      run_flag = c.run_flag;
      io_flag = c.io_flag;
      pend_flag = c.pend_flag;
      asleep = c.asleep;
      apart = c.apart;
      pooled = c.pooled;
      idle_once = c.idle_once;
      null_idle = c.null_idle;
      null_link = c.null_link;
      null_index = c.null_index;
    };
    daemon_eq = refl;
    free = λ u g. ground arith;
  }

pub Keeps-refl : (s : StThreadSchedule) → IsConsistent s → Keeps s s
Keeps-refl s c = record { consistent = c; daemon_eq = refl; free = λ t f. f }

-- PopRunable on a run list that starts with `t`
pop_runable-Keeps :
    (s : StThreadSchedule) (t : ℕ) (rest : List ℕ)
    → IsConsistent s
    → s.queue run ≡ t ∷ rest
    → ((pop_runable s).0 ≡ t) × Keeps s (pop_runable s).1 × IsFree (pop_runable s).1 t
pop_runable-Keeps s t rest c e =
    let (l, n) = head_link s run t rest c e in
    let whole : pop_runable s
        ≡ (t, set_flag t (record (s.flag t) { run_list = false }) (tailq_remove run t s)) =
      unfold pop_runable in rw (e, pop_runable) (unfold tailq_remove in ground arith) in
    (
      ap (λ r. r.0) whole,
      record {
        consistent = pop_runable-IsConsistent s c;
        daemon_eq = rw whole (unfold tailq_remove in ground (arith, l));
        free = λ u g. rw whole (unfold tailq_remove in ground (arith, l));
      },
      rw whole (unfold tailq_remove in ground (arith, l, n, c.apart t, c.pooled t)),
    )

module _ (s : StThreadSchedule) (c : IsConsistent s) where
  pub next_thread-Keeps :
      IsFree s s.daemon_thread
      → Keeps s (next_thread s).1 × IsFree (next_thread s).1 (next_thread s).0
  unfolding next_thread
  next_thread-Keeps f = elim (List-cases (s.queue run)) [
    | inl e ↦ rw (e, next_thread) (Keeps-refl s c, f)
    | inr (t, rest, e) ↦
        let (first, keeps, free) = pop_runable-Keeps s t rest c e in
        rw (e, next_thread, first) (keeps, free)
  ]

  pub yield_to-Keeps : (t : ℕ) → Keeps s (yield_to (t, s)) × ((yield_to (t, s)).active_thread ≡ t)
  unfolding yield_to
  yield_to-Keeps t = (
    record {
      consistent = record {
        valid = c.valid;
        intact = c.intact;
        listed = c.listed;
        run_flag = c.run_flag;
        io_flag = c.io_flag;
        pend_flag = c.pend_flag;
        asleep = c.asleep;
        apart = c.apart;
        pooled = c.pooled;
        idle_once = c.idle_once;
        null_idle = c.null_idle;
        null_link = c.null_link;
        null_index = c.null_index;
      };
      daemon_eq = refl;
      free = λ u g. ground arith;
    },
    refl,
  )

-- what ReapReclaim holds back is free
abbrev IsHeld : StThreadSchedule → ℕ → Type 0
IsHeld s hold = (hold ≡ 0) ⊎ IsFree s hold

-- one round of ReapReclaim
reap_step :
    (b : Bool) (s : StThreadSchedule) (t hold : ℕ)
    → IsConsistent s
    → s.link t ≡ some reclaim
    → IsHeld s hold
    → Keeps s (if b then dropped s t else delete_thread t (dropped s t))
      × IsHeld (if b then dropped s t else delete_thread t (dropped s t)) (if b then t else hold)
reap_step true s t hold c l h = let (k, f) = dropped-Keeps s t c l in (k, inr f)
reap_step false s t hold c l h =
    let (k, f) = dropped-Keeps s t c l in
    let k' = Keeps-trans k (delete_thread-Keeps (dropped s t) t k.consistent) in
    (k', held h (λ g. k'.free hold g))
  where
    held : {A B : Type 0} {x : ℕ} → (x ≡ 0) ⊎ A → (A → B) → (x ≡ 0) ⊎ B
    held (inl z) g = inl z
    held (inr a) g = inr (g a)

reap_loop-Keeps :
    (n current hold : ℕ) (s : StThreadSchedule)
    → IsConsistent s
    → IsHeld s hold
    → Keeps s (reap_loop n current hold s).1
      × IsHeld (reap_loop n current hold s).1 (reap_loop n current hold s).0
unfolding reap_loop
reap_loop-Keeps zero current hold s c h = (Keeps-refl s c, h)
reap_loop-Keeps (suc n) current hold s c h = elim (List-cases (s.queue reclaim)) [
  | inl e ↦ rw (e, reap_loop) (Keeps-refl s c, h)
  | inr (t, rest, e) ↦
      let (k, held) = reap_step (t == current) s t hold c (head_link s reclaim t rest c e).0 h in
      let (k', held') =
        reap_loop-Keeps n current (if t == current then t else hold)
          (if t == current then dropped s t else delete_thread t (dropped s t)) k.consistent held in
      rw (e, reap_loop) (Keeps-trans k k', held')
]

-- a thread that is free is not the one that is held back
reap_loop-ne :
    (n current hold d : ℕ) (s : StThreadSchedule)
    → IsConsistent s
    → IsHeld s hold
    → IsFree s d
    → hold ≢ d
    → (reap_loop n current hold s).0 ≢ d
unfolding reap_loop
reap_loop-ne zero current hold d s c h f n = n
reap_loop-ne (suc k) current hold d s c h f n = elim (List-cases (s.queue reclaim)) [
  | inl e ↦ rw (e, reap_loop) n
  | inr (t, rest, e) ↦
      let l = (head_link s reclaim t rest c e).0 in
      let (keeps, held) = reap_step (t == current) s t hold c l h in
      rw (e, reap_loop)
        (reap_loop-ne k current (if t == current then t else hold) d
          (if t == current then dropped s t else delete_thread t (dropped s t)) keeps.consistent
          held (keeps.free d f) (ground (arith, l, f.no_link)))
]

-- ReapReclaim keeps the invariant and every free thread
pub reap_reclaim-Keeps :
    (current : ℕ) (s : StThreadSchedule) → IsConsistent s → Keeps s (reap_reclaim current s)
unfolding reap_reclaim
reap_reclaim-Keeps current s c =
    let n = length (s.queue reclaim) in
    let hold = (reap_loop n current 0 s).0 in
    let (k, held) = reap_loop-Keeps n current 0 s c (inl refl) in
    elim (ℕ_discrete hold 0) [
      | yes z ↦ rw (eq→== hold 0 z) k
      | no m ↦
          let g : IsFree (reap_loop n current 0 s).1 hold = elim held [
            | inl z ↦ absurd (m z)
            | inr g ↦ g
          ] in
          rw (ne→== hold 0 m) (record {
            consistent = reclaim-IsConsistent _ hold k.consistent g;
            daemon_eq = unfold tailq_insert_tail in ground (arith, k.daemon_eq, g.no_link);
            free = λ t f.
                unfold tailq_insert_tail in
                ground (
                  arith,
                  k.free t f,
                  g.no_link,
                  reap_loop-ne n current 0 t s c (inl refl) f (λ z. f.not_null (sym z)),
                );
          })
    ]

-- Yield runs a thread that is in no queue, and keeps the invariant
pub record Runs (s s' : StThreadSchedule) : Type 0 where
  pub keeps : Keeps s s'
  pub active_free : IsFree s' s'.active_thread

pub yield-Runs :
    (t : ℕ) (s : StThreadSchedule) → IsConsistent s → IsFree s s.daemon_thread → Runs s (yield t s)
unfolding yield
yield-Runs t s c f =
    let k = reap_reclaim-Keeps t s c in
    let s₁ = reap_reclaim t s in
    let (k₁, f₁) =
      next_thread-Keeps s₁ k.consistent
        (subst (IsFree s₁) (sym k.daemon_eq) (k.free s.daemon_thread f)) in
    let u = (next_thread s₁).0 in
    let s₂ = (next_thread s₁).1 in
    let (k₂, e) = yield_to-Keeps s₂ k₁.consistent u in
    record {
      keeps = Keeps-trans k (Keeps-trans k₁ k₂);
      active_free = subst (IsFree (yield t s)) (sym e) (k₂.free u f₁);
    }
