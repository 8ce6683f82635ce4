-- ===== src/Queue.antt =====
-- internal/analyzer/queue/base_queue.go: a buffered channel, the workers that read it, and its
-- shutdown. The state holds what the goroutines share; an event is one choice of a `select`, or a
-- call. The workers differ only in the number they log, so the state counts them by what they do,
-- and keeps the messages that they have taken. The handler is one event, the moment at which it
-- takes effect: the exporters behind it hold a lock.
pub mod Invariant
pub mod Conserved
pub mod Order
pub mod Shutdown
use an_lf.Base.{
  ℕ, not, zero, suc, ◌+◌, ◌-◌, Bool, true, false, ◌&&◌, Option, none, some, List, [], ◌∷◌, ◌++◌,
  ltb, ◌==◌, if◌then◌else◌, length,
}
use an_lf.Base.Runs.{run_events}
use an_lf.Base.Int.{ℤ, pos, pos_part, leb_ℤ}

pub record QueueConfig : Type 0 where
  pub buffer_size : ℤ
  pub worker_count : ℤ

unfoldable pub default_queue_config : QueueConfig
default_queue_config = record { buffer_size = pos 10000; worker_count = pos 4 }

pub record BaseQueue (M : Type 0) : Type 0 where
  -- The channel `queue`, oldest message first, and its capacity.
  pub buffer : List M
  pub capacity : ℕ
  -- Whether `stopChan` and `doneChan` are closed, and the context that `Start` was given is done.
  pub stopped : Bool
  pub done : Bool
  pub cancelled : Bool
  -- Whether `Stop` has returned the error for its timeout.
  pub timed_out : Bool
  pub worker_count : ℕ
  -- The workers that wait in the loop of `worker` and in that of `drainQueue`, and those that have
  -- returned.
  pub running : ℕ
  pub draining : ℕ
  pub exited : ℕ
  -- The messages in the hands of the other workers, which go back to the one loop or the other.
  pub busy : List M
  pub clearing : List M
  -- A history, which the code does not keep: the messages that `Enqueue` took, those that have been
  -- handled, and how many were taken after `stopChan` was closed.
  pub accepted : List M
  pub handled : List M
  pub late : ℕ

-- A size that is not positive is replaced by the default.
unfoldable pub size_or : ℤ → ℤ → ℕ
size_or given default = pos_part (if leb_ℤ given (pos 0) then default else given)

-- `NewBaseQueue`; no worker runs yet.
unfoldable pub new_base_queue : {M : Type 0} → QueueConfig → BaseQueue M
unfolding size_or default_queue_config
new_base_queue cfg = record {
  buffer = [];
  capacity = size_or cfg.buffer_size default_queue_config.buffer_size;
  stopped = false;
  done = false;
  cancelled = false;
  timed_out = false;
  worker_count = size_or cfg.worker_count default_queue_config.worker_count;
  running = 0;
  draining = 0;
  exited = 0;
  busy = [];
  clearing = [];
  accepted = [];
  handled = [];
  late = 0;
}

pub data EnqueueError : Type 0 where
  shutting_down queue_full : EnqueueError

pub data Event (M : Type 0) : Type 0 where
  -- A call of `Enqueue` with its choice, the end of the context, a call of `Stop`.
  enqueues : Bool → M → Event M
  cancels stops : Event M
  -- The three cases of the `select` in `worker`, and the handler for one of the messages in hand.
  worker_cancelled worker_stopped worker_receives : Event M
  worker_handles : ℕ → Event M
  -- The same for the two cases of the `select` in `drainQueue`.
  drain_receives drain_returns : Event M
  drain_handles : ℕ → Event M
  -- The two cases of the `select` in `Stop`: all workers have returned, so it closes `doneChan` and
  -- returns nil, or the time is over.
  stop_returns stop_times_out : Event M

module _ {M : Type 0} where
  -- `Start` launches the workers.
  unfoldable pub start : BaseQueue M → BaseQueue M
  start q = record q { running = q.running + q.worker_count }

  unfoldable pub send : BaseQueue M → M → BaseQueue M
  send q m = record q {
    buffer = q.buffer ++ m ∷ [];
    accepted = q.accepted ++ m ∷ [];
    late = if q.stopped then suc q.late else q.late;
  }

  -- `Enqueue`. Where the channel has room and `stopChan` is closed, the `select` takes either case:
  -- `pick` is its choice.
  unfoldable pub enqueue : Bool → BaseQueue M → M → BaseQueue M × Option EnqueueError
  unfolding send
  enqueue pick q m =
      if ltb (length q.buffer) q.capacity
      then (if q.stopped && pick then (q, some shutting_down) else (send q m, none))
      else (if q.stopped then (q, some shutting_down) else (q, some queue_full))

  -- An idle worker takes the next message, if there is one.
  unfoldable pub receive : BaseQueue M → List M → Option (BaseQueue M)
  receive q [] = none
  receive q (m ∷ rest) =
      some (record q { buffer = rest; running = q.running - 1; busy = q.busy ++ m ∷ [] })

  unfoldable pub drain_next : BaseQueue M → List M → Option (BaseQueue M)
  drain_next q [] = none
  drain_next q (m ∷ rest) =
      some (record q { buffer = rest; draining = q.draining - 1; clearing = q.clearing ++ m ∷ [] })

  abbrev pub put_back : M → Option (M × List M) → Option (M × List M)
  put_back x none = none
  put_back x (some (m, rest)) = some (m, x ∷ rest)

  -- One of the messages in hand, and the others.
  unfoldable pub take_out : ℕ → List M → Option (M × List M)
  take_out n [] = none
  take_out zero (x ∷ xs) = some (x, xs)
  take_out (suc n) (x ∷ xs) = put_back x (take_out n xs)

  -- `processMessage`, whose error is logged only.
  unfoldable pub process_message : BaseQueue M → Option (M × List M) → Option (BaseQueue M)
  process_message q none = none
  process_message q (some (m, rest)) =
      some (record q { busy = rest; running = q.running + 1; handled = q.handled ++ m ∷ [] })

  unfoldable pub drain_message : BaseQueue M → Option (M × List M) → Option (BaseQueue M)
  drain_message q none = none
  drain_message q (some (m, rest)) =
      some (record q { clearing = rest; draining = q.draining + 1; handled = q.handled ++ m ∷ [] })

  unfoldable pub is_empty : List M → Bool
  is_empty [] = true
  is_empty (m ∷ rest) = false

  -- The state after an event, or `none` where the code cannot take it. Closing `stopChan` twice is
  -- a panic, so `stops` happens once.
  unfoldable pub fire : BaseQueue M → Event M → Option (BaseQueue M)
  unfolding enqueue receive drain_next process_message drain_message take_out is_empty
  fire q (enqueues pick m) = some (enqueue pick q m).0
  fire q cancels = some (record q { cancelled = true })
  fire q stops = if q.stopped then none else some (record q { stopped = true })
  fire q worker_cancelled =
      if q.cancelled && ltb 0 q.running
      then some (record q { running = q.running - 1; exited = q.exited + 1 })
      else none
  fire q worker_stopped =
      if q.stopped && ltb 0 q.running
      then some (record q { running = q.running - 1; draining = q.draining + 1 })
      else none
  fire q worker_receives = if ltb 0 q.running then receive q q.buffer else none
  fire q (worker_handles n) = process_message q (take_out n q.busy)
  fire q drain_receives = if ltb 0 q.draining then drain_next q q.buffer else none
  fire q drain_returns =
      if ltb 0 q.draining && is_empty q.buffer
      then some (record q { draining = q.draining - 1; exited = q.exited + 1 })
      else none
  fire q (drain_handles n) = drain_message q (take_out n q.clearing)
  fire q stop_returns =
      if q.stopped
        && not q.done
        && not q.timed_out
        && q.running == 0
        && q.draining == 0
        && is_empty q.busy
        && is_empty q.clearing
      then some (record q { done = true })
      else none
  fire q stop_times_out =
      if q.stopped && not q.done && not q.timed_out
      then some (record q { timed_out = true })
      else none

  abbrev pub run : BaseQueue M → List (Event M) → Option (BaseQueue M)
  run q es = run_events fire q es

  pub len : BaseQueue M → ℕ
  len q = length q.buffer

  pub cap : BaseQueue M → ℕ
  cap q = q.capacity
