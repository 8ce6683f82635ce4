-- ===== src/Queue/Invariant.antt =====
-- What holds of a queue (internal/analyzer/queue/base_queue.go) after any events: it keeps to its
-- capacity, every worker does one thing at a time, and the order in which they return.

use an_lf.Base.{
  ℕ, zero, suc, ◌+◌, ◌≤◌, ◌<◌, ◌≡◌, refl, true, false, none, some, List, [], ◌∷◌, ◌++◌, arith,
  length, length-append, Option, ap, ◌∙◌,
}
use an_lf.Base.Runs.{run_events-keeps}
use an_lf.Queue.{
  BaseQueue, QueueConfig, Event, enqueues, cancels, stops, worker_cancelled, worker_stopped,
  worker_receives, worker_handles, drain_receives, drain_handles, drain_returns, stop_returns,
  stop_times_out, new_base_queue, start, receive, drain_next, put_back, take_out, process_message,
  drain_message, fire, run,
}

module _ {M : Type 0} where
  put_back-some :
      (x : M) (o : Option (M × List M)) (m : M) (rest : List M)
      → put_back x o ≡ some (m, rest)
      → (others : List M) × (o ≡ some (m, others)) × (rest ≡ x ∷ others)
  put_back-some x none m rest h = cc
  put_back-some x (some (m', others)) m rest h = (others, cc, cc)

  -- A message that is taken out of the hands leaves the others in their order.
  pub take_out_lem :
      (n : ℕ) (xs : List M) (m : M) (rest : List M)
      → take_out n xs ≡ some (m, rest)
      → (l r : List M) × (xs ≡ l ++ m ∷ r) × (rest ≡ l ++ r)
  unfolding take_out
  take_out_lem n [] m rest h = cc
  take_out_lem zero (x ∷ xs) m rest h = ([], xs, cc, cc)
  take_out_lem (suc n) (x ∷ xs) m rest h =
      let (others, found, e) = put_back-some x (take_out n xs) m rest h in
      let (l, r, all, left) = take_out_lem n xs m others found in
      (x ∷ l, r, ap (◌∷◌ x) all, e ∙ ap (◌∷◌ x) left)

  take_out-length :
      (n : ℕ) (xs : List M) (m : M) (rest : List M)
      → take_out n xs ≡ some (m, rest)
      → length xs ≡ suc (length rest)
  take_out-length n xs m rest h =
      let (l, r, all, left) = take_out_lem n xs m rest h in
      ap length all ∙ length-append l (m ∷ r) ∙ omega (arith, length-append l r, ap length left)

  pub record Inv (q : BaseQueue M) : Type 0 where
    pub within : length q.buffer ≤ q.capacity
    pub staffed : 0 < q.worker_count
    pub room : 0 < q.capacity
    pub crew :
        q.running + length q.busy + (q.draining + length q.clearing) + q.exited ≡ q.worker_count
    -- Nobody drains before the stop; unless the context ends, nobody returns before it either.
    pub drain_after_stop : 0 < q.draining + length q.clearing → q.stopped ≡ true
    pub exit_after_stop : q.cancelled ≡ false → 0 < q.exited → q.stopped ≡ true
    -- A worker that has drained left nothing behind, but for what came after the stop.
    pub drained : q.cancelled ≡ false → 0 < q.exited → q.late ≡ 0 → q.buffer ≡ []
    pub done_after_all :
        q.done ≡ true
        → (q.stopped ≡ true)
          × (q.running ≡ 0)
          × (q.draining ≡ 0)
          × (q.busy ≡ [])
          × (q.clearing ≡ [])

  pub start-Inv : (cfg : QueueConfig) → Inv (start (new_base_queue {M = M} cfg))
  unfolding start new_base_queue
  start-Inv cfg = ground arith

  receive-Inv :
      (q : BaseQueue M) (buffer : List M) (u : BaseQueue M)
      → Inv q
      → 0 < q.running
      → q.buffer ≡ buffer
      → receive q buffer ≡ some u
      → Inv u
  unfolding receive
  receive-Inv q [] u v r e h = cc
  receive-Inv q (m ∷ rest) u v r e h = ground (arith, length-append q.busy (m ∷ []))

  drain_next-Inv :
      (q : BaseQueue M) (buffer : List M) (u : BaseQueue M)
      → Inv q
      → 0 < q.draining
      → q.buffer ≡ buffer
      → drain_next q buffer ≡ some u
      → Inv u
  unfolding drain_next
  drain_next-Inv q [] u v r e h = cc
  drain_next-Inv q (m ∷ rest) u v r e h = ground (arith, length-append q.clearing (m ∷ []))

  process_message-Inv :
      (q : BaseQueue M) (n : ℕ) (o : Option (M × List M)) (u : BaseQueue M)
      → Inv q
      → take_out n q.busy ≡ o
      → process_message q o ≡ some u
      → Inv u
  unfolding process_message
  process_message-Inv q n none u v e h = cc
  process_message-Inv q n (some (m, rest)) u v e h =
      ground (arith, take_out-length n q.busy m rest e)

  drain_message-Inv :
      (q : BaseQueue M) (n : ℕ) (o : Option (M × List M)) (u : BaseQueue M)
      → Inv q
      → take_out n q.clearing ≡ o
      → drain_message q o ≡ some u
      → Inv u
  unfolding drain_message
  drain_message-Inv q n none u v e h = cc
  drain_message-Inv q n (some (m, rest)) u v e h =
      ground (arith, take_out-length n q.clearing m rest e)

  -- Every event keeps the invariant.
  pub fire-Inv :
      (q : BaseQueue M) (e : Event M) (u : BaseQueue M) → Inv q → fire q e ≡ some u → Inv u
  unfolding fire
  fire-Inv q (enqueues pick m) u v h = ground (arith, length-append q.buffer (m ∷ []))
  fire-Inv q cancels u v h = ground arith
  fire-Inv q stops u v h = ground arith
  fire-Inv q worker_cancelled u v h = ground arith
  fire-Inv q worker_stopped u v h = ground arith
  fire-Inv q worker_receives u v h = ground (arith, receive-Inv q q.buffer u v)
  fire-Inv q (worker_handles n) u v h = process_message-Inv q n (take_out n q.busy) u v refl h
  fire-Inv q drain_receives u v h = ground (arith, drain_next-Inv q q.buffer u v)
  fire-Inv q (drain_handles n) u v h = drain_message-Inv q n (take_out n q.clearing) u v refl h
  fire-Inv q drain_returns u v h = ground arith
  fire-Inv q stop_returns u v h = ground arith
  fire-Inv q stop_times_out u v h = ground arith

  pub run-Inv :
      (q : BaseQueue M) (es : List (Event M)) (u : BaseQueue M) → Inv q → run q es ≡ some u → Inv u
  run-Inv q es u v h = run_events-keeps fire Inv fire-Inv q es u v h
