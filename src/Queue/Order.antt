-- ===== src/Queue/Order.antt =====
-- The order in which the messages of a queue are handled (internal/analyzer/queue/base_queue.go):
-- it is kept by a single worker only.
use mathlib.Core.List.{Perm}
use mathlib.Core.List.Perm
use an_lf.Base.{
  ◌-◌, ℕ, ◌+◌, ◌≤◌, ◌<◌, ◌≡◌, refl, none, some, List, [], ◌∷◌, ◌++◌, arith, length, length-append,
  append_assoc, Option, subst, ap, ◌∙◌, sym,
}
use an_lf.Base.Runs.{run_events, run_events-cons, run_events-step}
use an_lf.Queue.{
  BaseQueue, QueueConfig, Event, enqueues, cancels, stops, worker_cancelled, worker_stopped,
  worker_receives, worker_handles, drain_receives, drain_handles, drain_returns, stop_returns,
  stop_times_out, new_base_queue, start, receive, drain_next, take_out, process_message,
  drain_message, fire, run, send, enqueue,
}
use an_lf.Queue.Invariant.{Inv, take_out_lem, start-Inv, fire-Inv, run-Inv}
use an_lf.Queue.Conserved.{contents, or_else, appended, enqueue_keeps, run-Kept}

module _ {M : Type 0} where
  -- Nor are two of them swapped.
  abbrev pub Ordered : BaseQueue M → Type 0
  Ordered q = q.accepted ≡ contents q

  nothing_left : (xs : List M) → length xs ≡ 0 → xs ≡ []
  nothing_left [] h = refl
  nothing_left (x ∷ xs) h = absurd (omega (arith, h))

  one_moved_in :
      (h l r rest : List M) (m : M)
      → length l ≡ 0
      → length r ≡ 0
      → h ++ (l ++ (r ++ m ∷ rest)) ≡ h ++ ((l ++ m ∷ []) ++ (r ++ rest))
  one_moved_in h l r rest m p q = rw (nothing_left l p, nothing_left r q) refl

  -- The only message in hand.
  one_moved_out :
      (h k l r rest : List M) (m : M)
      → length k ≡ 0
      → length (l ++ m ∷ r) ≤ 1
      → h ++ (k ++ ((l ++ m ∷ r) ++ rest)) ≡ (h ++ m ∷ []) ++ (k ++ ((l ++ r) ++ rest))
  one_moved_out h k l r rest m p q =
      rw
        (
          nothing_left k p,
          nothing_left l (omega (arith, q, length-append l (m ∷ r))),
          nothing_left r (omega (arith, q, length-append l (m ∷ r))),
        )
        (sym (append_assoc h (m ∷ []) rest))

  receive-Ordered :
      (q : BaseQueue M) (buffer : List M) (u : BaseQueue M)
      → Inv q
      → q.worker_count ≡ 1
      → 0 < q.running
      → Ordered q
      → q.buffer ≡ buffer
      → receive q buffer ≡ some u
      → Ordered u
  unfolding receive
  receive-Ordered q [] u i one r v e h = cc
  receive-Ordered q (m ∷ rest) u i one r v e h = subst Ordered (ap (or_else q) h) (
      v
      ∙ ap (λ b. q.handled ++ (q.busy ++ (q.clearing ++ b))) e
      ∙ one_moved_in q.handled q.busy q.clearing rest m (omega (arith, i.crew, one, r))
          (omega (arith, i.crew, one, r)))

  drain_next-Ordered :
      (q : BaseQueue M) (buffer : List M) (u : BaseQueue M)
      → Inv q
      → q.worker_count ≡ 1
      → 0 < q.draining
      → Ordered q
      → q.buffer ≡ buffer
      → drain_next q buffer ≡ some u
      → Ordered u
  unfolding drain_next
  drain_next-Ordered q [] u i one r v e h = cc
  drain_next-Ordered q (m ∷ rest) u i one r v e h = subst Ordered (ap (or_else q) h) (
      v
      ∙ ap (λ b. q.handled ++ (q.busy ++ (q.clearing ++ b))) e
      ∙ ap (◌++◌ q.handled)
          (one_moved_in q.busy q.clearing [] rest m (omega (arith, i.crew, one, r)) refl))

  process_message-Ordered :
      (q : BaseQueue M) (n : ℕ) (o : Option (M × List M)) (u : BaseQueue M)
      → Inv q
      → q.worker_count ≡ 1
      → Ordered q
      → take_out n q.busy ≡ o
      → process_message q o ≡ some u
      → Ordered u
  unfolding process_message
  process_message-Ordered q n none u i one v e h = cc
  process_message-Ordered q n (some (m, rest)) u i one v e h =
      let (l, r, all, left) = take_out_lem n q.busy m rest e in
      subst Ordered (ap (or_else q) h) (
        v
        ∙ ap (λ b. q.handled ++ (b ++ (q.clearing ++ q.buffer))) all
        ∙ one_moved_out q.handled [] l r (q.clearing ++ q.buffer) m refl
            (omega (arith, i.crew, one, ap length all))
        ∙ ap (λ b. (q.handled ++ m ∷ []) ++ (b ++ (q.clearing ++ q.buffer))) (sym left))

  drain_message-Ordered :
      (q : BaseQueue M) (n : ℕ) (o : Option (M × List M)) (u : BaseQueue M)
      → Inv q
      → q.worker_count ≡ 1
      → Ordered q
      → take_out n q.clearing ≡ o
      → drain_message q o ≡ some u
      → Ordered u
  unfolding drain_message
  drain_message-Ordered q n none u i one v e h = cc
  drain_message-Ordered q n (some (m, rest)) u i one v e h =
      let (l, r, all, left) = take_out_lem n q.clearing m rest e in
      let size = ap length all ∙ length-append l (m ∷ r) in
      subst Ordered (ap (or_else q) h) (
        v
        ∙ ap (λ b. q.handled ++ (q.busy ++ (b ++ q.buffer))) all
        ∙ one_moved_out q.handled q.busy l r q.buffer m (omega (arith, i.crew, one, size))
            (omega (arith, i.crew, one, ap length all))
        ∙ ap (λ b. (q.handled ++ m ∷ []) ++ (q.busy ++ (b ++ q.buffer))) (sym left))

  send-Ordered : (q : BaseQueue M) (m : M) → Ordered q → Ordered (send q m)
  unfolding send
  send-Ordered q m v = ap (λ a. a ++ m ∷ []) v ∙ appended q.handled q.busy q.clearing q.buffer m

  -- With one worker, every event keeps the order.
  fire-Ordered :
      (q : BaseQueue M) (e : Event M) (u : BaseQueue M)
      → Inv q
      → q.worker_count ≡ 1
      → Ordered q
      → fire q e ≡ some u
      → Ordered u
  unfolding fire
  fire-Ordered q (enqueues pick m) u i one v h =
      subst Ordered (ap (or_else q) h) (enqueue_keeps Ordered pick q m v (send-Ordered q m v))
  fire-Ordered q cancels u i one v h = ground arith
  fire-Ordered q stops u i one v h = ground arith
  fire-Ordered q worker_cancelled u i one v h = ground arith
  fire-Ordered q worker_stopped u i one v h = ground arith
  fire-Ordered q worker_receives u i one v h = ground (arith, receive-Ordered q q.buffer u i one)
  fire-Ordered q (worker_handles n) u i one v h =
      process_message-Ordered q n (take_out n q.busy) u i one v refl h
  fire-Ordered q drain_receives u i one v h = ground (arith, drain_next-Ordered q q.buffer u i one)
  fire-Ordered q (drain_handles n) u i one v h =
      drain_message-Ordered q n (take_out n q.clearing) u i one v refl h
  fire-Ordered q drain_returns u i one v h = ground arith
  fire-Ordered q stop_returns u i one v h = ground arith
  fire-Ordered q stop_times_out u i one v h = ground arith

  fire-worker_count :
      (q : BaseQueue M) (e : Event M) (u : BaseQueue M)
      → fire q e ≡ some u
      → u.worker_count ≡ q.worker_count
  unfolding fire enqueue send receive drain_next process_message drain_message
  fire-worker_count q e u h = ground arith

  -- One worker that has begun with an empty queue: after any events the messages that were enqueued
  -- are, in their order, those that have been handled, the one in hand if there is one, and those
  -- in the buffer.
  pub run-Ordered :
      (q : BaseQueue M) (es : List (Event M)) (u : BaseQueue M)
      → Inv q
      → q.worker_count ≡ 1
      → Ordered q
      → run q es ≡ some u
      → u.accepted ≡ u.handled ++ (u.busy ++ (u.clearing ++ u.buffer))
  run-Ordered q [] u i one v h = unfold run_events in ground arith
  run-Ordered q (e ∷ es) u i one v h =
      let (q', step, rest) = run_events-cons fire q e es u h in
      run-Ordered q' es u (fire-Inv q e q' i step) (fire-worker_count q e q' step ∙ one)
        (fire-Ordered q e q' i one v step) rest

  -- After a start and any events, the queue keeps to its capacity, each of its workers does one
  -- thing, and every message that `Enqueue` took is in exactly one place: it has been handled, a
  -- worker has it in hand, or it is in the buffer.
  pub run_conserves :
      (cfg : QueueConfig) (es : List (Event M)) (u : BaseQueue M)
      → run (start (new_base_queue cfg)) es ≡ some u
      → (length u.buffer ≤ u.capacity)
        × (u.running + length u.busy + (u.draining + length u.clearing) + u.exited ≡ u.worker_count)
        × Perm u.accepted (u.handled ++ (u.busy ++ (u.clearing ++ u.buffer)))
  unfolding start new_base_queue
  run_conserves cfg es u h =
      let q : BaseQueue M = start (new_base_queue cfg) in
      let v = run-Inv q es u (start-Inv cfg) h in (v.within, v.crew, run-Kept q es u Perm.rfl h)

  -- Two workers that wait for the first two messages of the buffer may handle the second one first.
  pub overtakes :
      (q : BaseQueue M) (m n : M) (rest : List M)
      → q.buffer ≡ m ∷ n ∷ rest
      → 1 < q.running
      → q.busy ≡ []
      → (u : BaseQueue M) × (run q
            (worker_receives ∷ worker_receives ∷ worker_handles 1 ∷ worker_handles 0 ∷ [])
          ≡ some u)
        × (u.handled ≡ q.handled ++ n ∷ m ∷ [])
  unfolding fire receive process_message take_out
  overtakes q m n rest b r e =
      let q1 : BaseQueue M = record q {
        buffer = n ∷ rest;
        running = q.running - 1;
        busy = m ∷ [];
      } in
      let q2 : BaseQueue M = record q1 {
        buffer = rest;
        running = q1.running - 1;
        busy = m ∷ n ∷ [];
      } in
      let q3 : BaseQueue M = record q2 {
        running = q2.running + 1;
        busy = m ∷ [];
        handled = q.handled ++ n ∷ [];
      } in
      let q4 : BaseQueue M = record q3 {
        running = q3.running + 1;
        busy = [];
        handled = (q.handled ++ n ∷ []) ++ m ∷ [];
      } in
      (
        q4,
        run_events-step fire q q1 worker_receives _ (ground arith)
            ∙ run_events-step fire q1 q2 worker_receives _ (ground arith)
            ∙ run_events-step fire q2 q3 (worker_handles 1) _ refl
            ∙ run_events-step fire q3 q4 (worker_handles 0) _ refl
            ∙ (unfold run_events in refl),
        append_assoc q.handled (n ∷ []) (m ∷ []),
      )
