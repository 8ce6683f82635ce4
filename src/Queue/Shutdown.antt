-- ===== src/Queue/Shutdown.antt =====
-- What a stop promises about the messages in a queue (internal/analyzer/queue/base_queue.go), with
-- and without the end of the context that `Start` was given.
use mathlib.Core.List.{Perm}
use mathlib.Core.List.Perm
use an_lf.Base.{
  subst, ℕ, zero, suc, ◌+◌, ◌≤◌, ◌<◌, ◌≡◌, refl, Bool, true, false, none, some, List, [], ◌∷◌, ◌++◌,
  arith, length, append-nil, ◌⊎◌, ap, ◌∙◌,
}
use an_lf.Base.Runs.{run_events, run_events-cons, run_events-step}
use an_lf.Queue.{
  BaseQueue, QueueConfig, Event, shutting_down, queue_full, enqueues, cancels, stops,
  worker_cancelled, worker_stopped, worker_receives, worker_handles, drain_receives, drain_handles,
  drain_returns, stop_returns, take_out, process_message, drain_message, stop_times_out,
  new_base_queue, start, send, enqueue, fire, run,
}
use an_lf.Queue.Invariant.{Inv, start-Inv, run-Inv}
use an_lf.Queue.Conserved.{run-Kept}

module _ {M : Type 0} where
  -- `Enqueue` never blocks and has three outcomes: it fails and changes nothing, because the queue
  -- is stopped or because it is full and not stopped, or it succeeds, on a queue with room, and the
  -- message stands last.
  pub enqueue_cases :
      (pick : Bool) (q : BaseQueue M) (m : M)
      → ((enqueue pick q m ≡ (q, some shutting_down)) × (q.stopped ≡ true))
        ⊎ ((enqueue pick q m ≡ (q, some queue_full))
            × (q.stopped ≡ false)
            × (q.capacity ≤ length q.buffer))
        ⊎ (((enqueue pick q m).1 ≡ none)
            × ((enqueue pick q m).0.buffer ≡ q.buffer ++ m ∷ [])
            × (length q.buffer < q.capacity))
  unfolding enqueue send
  enqueue_cases pick q m = ground arith

  all_handled : (h b c xs : List M) → b ≡ [] → c ≡ [] → xs ≡ [] → h ++ (b ++ (c ++ xs)) ≡ h
  all_handled h b c xs p q r = rw (p, q, r) (append-nil h)

  -- After a start, any events, and a `Stop` that returned nil: if the context did not end before,
  -- and no message was taken after the stop, every message that `Enqueue` took has been handled
  -- once.
  pub stop_drains :
      (cfg : QueueConfig) (es : List (Event M)) (u : BaseQueue M)
      → run (start (new_base_queue cfg)) es ≡ some u
      → u.done ≡ true
      → u.cancelled ≡ false
      → u.late ≡ 0
      → Perm u.accepted u.handled
  stop_drains cfg es u h d c l =
      let q : BaseQueue M = start (new_base_queue cfg) in
      let v = run-Inv q es u (start-Inv cfg) h in
      let (s, r, n, busy, clearing) = v.done_after_all d in
      let buffer : u.buffer ≡ [] =
        v.drained c (omega (arith, v.crew, v.staffed, r, n, ap length busy, ap length clearing))
          l in
      subst (Perm u.accepted)
        (all_handled u.handled u.busy u.clearing u.buffer busy clearing buffer)
        (run-Kept q es u (unfold start new_base_queue in Perm.rfl) h)

  abbrev IsIdle : BaseQueue M → Type 0
  IsIdle q = (q.running ≡ 0) × (q.draining ≡ 0) × (q.busy ≡ []) × (q.clearing ≡ [])

  -- Once all workers have returned, nothing more is handled, whatever happens.
  fire-IsIdle :
      (q : BaseQueue M) (e : Event M) (u : BaseQueue M)
      → IsIdle q
      → fire q e ≡ some u
      → IsIdle u × (u.handled ≡ q.handled)
  unfolding fire enqueue send take_out process_message drain_message
  fire-IsIdle q (enqueues pick m) u i h = ground arith
  fire-IsIdle q stops u i h = ground arith
  fire-IsIdle q cancels u i h = ground arith
  fire-IsIdle q worker_cancelled u i h = ground arith
  fire-IsIdle q worker_stopped u i h = ground arith
  fire-IsIdle q worker_receives u i h = ground arith
  fire-IsIdle q (worker_handles n) u i h = ground arith
  fire-IsIdle q drain_receives u i h = ground arith
  fire-IsIdle q (drain_handles n) u i h = ground arith
  fire-IsIdle q drain_returns u i h = ground arith
  fire-IsIdle q stop_returns u i h = ground arith
  fire-IsIdle q stop_times_out u i h = ground arith

  run_idle :
      (q : BaseQueue M) (es : List (Event M)) (u : BaseQueue M)
      → IsIdle q
      → run q es ≡ some u
      → u.handled ≡ q.handled
  run_idle q [] u i h = unfold run_events in ground arith
  run_idle q (e ∷ es) u i h =
      let (q', step, rest) = run_events-cons fire q e es u h in
      let (i', same) = fire-IsIdle q e q' i step in run_idle q' es u i' rest ∙ same

  -- After a stop that has ended, `Enqueue` on a queue with room may still report success (the
  -- `select` may prefer the channel to the closed `stopChan`), and then the message is never
  -- handled, whatever happens afterwards.
  pub late_enqueue_lost :
      (q : BaseQueue M) (m : M) (es : List (Event M)) (u : BaseQueue M)
      → Inv q
      → q.done ≡ true
      → length q.buffer < q.capacity
      → run (enqueue false q m).0 es ≡ some u
      → ((enqueue false q m).1 ≡ none)
        × ((enqueue false q m).0.accepted ≡ q.accepted ++ m ∷ [])
        × (u.handled ≡ q.handled)
  unfolding enqueue send
  late_enqueue_lost q m es u v d room h = (
    ground arith,
    ground arith,
    run_idle (enqueue false q m).0 es u (ground (arith, v.done_after_all d)) h ∙ ground arith,
  )

  -- A worker returns for the end of the context, `n` times.
  abbrev pub leave : ℕ → List (Event M) → List (Event M)
  leave zero es = es
  leave (suc n) es = worker_cancelled ∷ leave n es

  fire_cancelled :
      (n : ℕ) (q : BaseQueue M)
      → q.cancelled ≡ true
      → q.running ≡ suc n
      → fire q worker_cancelled ≡ some (record q { running = n; exited = q.exited + 1 })
  unfolding fire
  fire_cancelled n q c r = ground arith

  run-leave :
      (n : ℕ) (q : BaseQueue M) (es : List (Event M))
      → q.cancelled ≡ true
      → q.running ≡ n
      → run q (leave n es) ≡ run (record q { running = 0; exited = q.exited + n }) es
  run-leave zero q es c r = ap (λ (s : BaseQueue M). run s es) same
    where
      same : q ≡ record q { running = 0; exited = q.exited + 0 }
      same = ground arith
  run-leave (suc n) q es c r =
      run_events-step fire q q' worker_cancelled (leave n es) (fire_cancelled n q c r)
      ∙ run-leave n q' es c refl
      ∙ ap (λ (s : BaseQueue M). run s es) same
    where
      q' : BaseQueue M
      q' = record q { running = n; exited = q.exited + 1 }

      same :
          record q' { running = 0; exited = q'.exited + n }
          ≡ record q { running = 0; exited = q.exited + suc n }
      same = ground arith

  -- The shutdown of the application ends the context first. From any state in
  -- which nothing has been stopped and no worker is at a message, they may then all return at once,
  -- and `Stop` returns nil with the buffer as it was: none of its messages has been handled.
  pub cancel_loses :
      (q : BaseQueue M)
      → q.stopped ≡ false
      → q.draining ≡ 0
      → q.busy ≡ []
      → q.clearing ≡ []
      → q.done ≡ false
      → q.timed_out ≡ false
      → (u : BaseQueue M) × (run q (cancels ∷ leave q.running (stops ∷ stop_returns ∷ [])) ≡ some u)
        × (u.done ≡ true)
        × (u.buffer ≡ q.buffer)
        × (u.handled ≡ q.handled)
  unfolding fire
  cancel_loses q s d b c n t =
      let q1 : BaseQueue M = record q { cancelled = true } in
      let q2 : BaseQueue M = record q1 { running = 0; exited = q.exited + q.running } in
      let q3 : BaseQueue M = record q2 { stopped = true } in
      let q4 : BaseQueue M = record q3 { done = true } in
      (
        q4,
        run_events-step fire q q1 cancels _ refl
            ∙ run-leave q.running q1 _ refl refl
            ∙ run_events-step fire q2 q3 stops _ (ground arith)
            ∙ run_events-step fire q3 q4 stop_returns _ (ground arith)
            ∙ (unfold run_events in refl),
        refl,
        refl,
        refl,
      )
