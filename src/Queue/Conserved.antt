-- ===== src/Queue/Conserved.antt =====
-- Where the messages of a queue are (internal/analyzer/queue/base_queue.go): handled, in the hands
-- of a worker, or in the buffer.
use mathlib.Core.List.{Perm}
use mathlib.Core.List.Perm
use an_lf.Base.{
  ℕ, ◌≡◌, refl, none, some, List, [], ◌∷◌, ◌++◌, arith, append_assoc, Option, subst, inl, inr, ◌⊎◌,
  ap, Bool, sym,
}
use an_lf.Base.Permutations.{to_front}
use an_lf.Base.Runs.{run_events-keeps}
use an_lf.Queue.{
  BaseQueue, Event, enqueues, cancels, stops, worker_cancelled, worker_stopped, worker_receives,
  worker_handles, drain_receives, drain_handles, drain_returns, stop_returns, stop_times_out,
  receive, drain_next, take_out, process_message, drain_message, fire, run, send, enqueue,
}
use an_lf.Queue.Invariant.{take_out_lem}

module _ {M : Type 0} where
  -- All messages that are somewhere: handled, in hand or waiting.
  abbrev pub contents : BaseQueue M → List M
  contents q = q.handled ++ (q.busy ++ (q.clearing ++ q.buffer))

  -- One message moves from the front of a list into the middle.
  moved_in :
      (h l r rest : List M) (m : M)
      → Perm (h ++ (l ++ (r ++ m ∷ rest))) (h ++ ((l ++ m ∷ []) ++ (r ++ rest)))
  moved_in h l r rest m = Perm.append_left h (
      subst (Perm (l ++ (r ++ m ∷ rest))) (sym (append_assoc l (m ∷ []) (r ++ rest)))
        (Perm.append_left l (to_front r rest m)))

  -- One message moves out of a list to the end of the one before it.
  moved_out :
      (h l r rest : List M) (m : M)
      → Perm (h ++ ((l ++ m ∷ r) ++ rest)) ((h ++ m ∷ []) ++ ((l ++ r) ++ rest))
  moved_out h l r rest m =
      subst (Perm (h ++ ((l ++ m ∷ r) ++ rest))) (sym (append_assoc h (m ∷ []) ((l ++ r) ++ rest)))
        (Perm.append_left h (Perm.append_right rest (to_front l r m)))

  -- The same past another list.
  moved_past :
      (h k l r rest : List M) (m : M)
      → Perm (h ++ (k ++ ((l ++ m ∷ r) ++ rest))) ((h ++ m ∷ []) ++ (k ++ ((l ++ r) ++ rest)))
  moved_past h k l r rest m =
      subst (Perm (h ++ (k ++ ((l ++ m ∷ r) ++ rest))))
        (sym (append_assoc h (m ∷ []) (k ++ ((l ++ r) ++ rest))))
        (Perm.append_left h (
          Perm.trans (Perm.append_left k (Perm.append_right rest (to_front l r m)))
            (to_front k ((l ++ r) ++ rest) m)))

  -- No message is lost or repeated.
  abbrev pub Kept : BaseQueue M → Type 0
  Kept q = Perm q.accepted (contents q)

  abbrev pub or_else : BaseQueue M → Option (BaseQueue M) → BaseQueue M
  or_else q none = q
  or_else q (some u) = u

  receive-Kept :
      (q : BaseQueue M) (buffer : List M) (u : BaseQueue M)
      → Kept q
      → q.buffer ≡ buffer
      → receive q buffer ≡ some u
      → Kept u
  unfolding receive
  receive-Kept q [] u v e h = cc
  receive-Kept q (m ∷ rest) u v e h = subst Kept (ap (or_else q) h) (
      Perm.trans (subst (λ b. Perm q.accepted (q.handled ++ (q.busy ++ (q.clearing ++ b)))) e v)
        (moved_in q.handled q.busy q.clearing rest m))

  drain_next-Kept :
      (q : BaseQueue M) (buffer : List M) (u : BaseQueue M)
      → Kept q
      → q.buffer ≡ buffer
      → drain_next q buffer ≡ some u
      → Kept u
  unfolding drain_next
  drain_next-Kept q [] u v e h = cc
  drain_next-Kept q (m ∷ rest) u v e h = subst Kept (ap (or_else q) h) (
      Perm.trans (subst (λ b. Perm q.accepted (q.handled ++ (q.busy ++ (q.clearing ++ b)))) e v)
        (Perm.append_left q.handled (moved_in q.busy q.clearing [] rest m)))

  process_message-Kept :
      (q : BaseQueue M) (n : ℕ) (o : Option (M × List M)) (u : BaseQueue M)
      → Kept q
      → take_out n q.busy ≡ o
      → process_message q o ≡ some u
      → Kept u
  unfolding process_message
  process_message-Kept q n none u v e h = cc
  process_message-Kept q n (some (m, rest)) u v e h =
      let (l, r, all, left) = take_out_lem n q.busy m rest e in
      subst Kept (ap (or_else q) h) (
        subst (λ b. Perm q.accepted ((q.handled ++ m ∷ []) ++ (b ++ (q.clearing ++ q.buffer))))
          (sym left)
          (Perm.trans
            (subst (λ b. Perm q.accepted (q.handled ++ (b ++ (q.clearing ++ q.buffer)))) all v)
            (moved_out q.handled l r (q.clearing ++ q.buffer) m)))

  drain_message-Kept :
      (q : BaseQueue M) (n : ℕ) (o : Option (M × List M)) (u : BaseQueue M)
      → Kept q
      → take_out n q.clearing ≡ o
      → drain_message q o ≡ some u
      → Kept u
  unfolding drain_message
  drain_message-Kept q n none u v e h = cc
  drain_message-Kept q n (some (m, rest)) u v e h =
      let (l, r, all, left) = take_out_lem n q.clearing m rest e in
      subst Kept (ap (or_else q) h) (
        subst (λ b. Perm q.accepted ((q.handled ++ m ∷ []) ++ (q.busy ++ (b ++ q.buffer))))
          (sym left)
          (Perm.trans
            (subst (λ b. Perm q.accepted (q.handled ++ (q.busy ++ (b ++ q.buffer)))) all v)
            (moved_past q.handled q.busy l r q.buffer m)))

  pub appended :
      (h b c xs : List M) (m : M)
      → (h ++ (b ++ (c ++ xs))) ++ m ∷ [] ≡ h ++ (b ++ (c ++ (xs ++ m ∷ [])))
  appended h b c xs m = simp (append_assoc)

  send-Kept : (q : BaseQueue M) (m : M) → Kept q → Kept (send q m)
  unfolding send
  send-Kept q m v =
      subst (Perm (q.accepted ++ m ∷ [])) (appended q.handled q.busy q.clearing q.buffer m)
        (Perm.append_right (m ∷ []) v)

  enqueue_changes :
      (pick : Bool) (q : BaseQueue M) (m : M)
      → ((enqueue pick q m).0 ≡ q) ⊎ ((enqueue pick q m).0 ≡ send q m)
  unfolding enqueue
  enqueue_changes pick q m = ground arith

  pub enqueue_keeps :
      (P : BaseQueue M → Type 0) (pick : Bool) (q : BaseQueue M) (m : M)
      → P q
      → P (send q m)
      → P (enqueue pick q m).0
  enqueue_keeps P pick q m old new = elim (enqueue_changes pick q m) [
    | inl same ↦ subst P (sym same) old
    | inr sent ↦ subst P (sym sent) new
  ]

  -- Every event keeps the messages.
  fire-Kept :
      (q : BaseQueue M) (e : Event M) (u : BaseQueue M) → Kept q → fire q e ≡ some u → Kept u
  unfolding fire
  fire-Kept q (enqueues pick m) u v h =
      subst Kept (ap (or_else q) h) (enqueue_keeps Kept pick q m v (send-Kept q m v))
  fire-Kept q cancels u v h = ground arith
  fire-Kept q stops u v h = ground arith
  fire-Kept q worker_cancelled u v h = ground arith
  fire-Kept q worker_stopped u v h = ground arith
  fire-Kept q worker_receives u v h = ground (arith, receive-Kept q q.buffer u v)
  fire-Kept q (worker_handles n) u v h = process_message-Kept q n (take_out n q.busy) u v refl h
  fire-Kept q drain_receives u v h = ground (arith, drain_next-Kept q q.buffer u v)
  fire-Kept q (drain_handles n) u v h = drain_message-Kept q n (take_out n q.clearing) u v refl h
  fire-Kept q drain_returns u v h = ground arith
  fire-Kept q stop_returns u v h = ground arith
  fire-Kept q stop_times_out u v h = ground arith

  -- Every run keeps the messages.
  pub run-Kept :
      (q : BaseQueue M) (es : List (Event M)) (u : BaseQueue M)
      → Kept q
      → run q es ≡ some u
      → Kept u
  run-Kept q es u v h = run_events-keeps fire Kept fire-Kept q es u v h
