-- ===== src/Service/Termination.antt =====
-- `terminateProcedure` of pkg/service/init.go with its timeout, and `StopAll` of
-- pkg/app/lifecycle.go, which calls each `Stop` in a goroutine of its own and goes on when that
-- takes too long. The server and the lifecycle manager are never nil in an application that
-- `NewApp` returns without an error. An event is one step of the goroutines or the end of a
-- timeout.
pub mod Laws
use an_lf.Base.{
  ◌≢◌, Bool-cases, ◌≡◌, refl, sym, ap, ◌∙◌, subst, Bool, true, false, ◌&&◌, not, Option, none, some,
  List, [], ◌∷◌, ◌++◌, append_assoc, append-nil, arith, if◌then◌else◌, Option-cases, inl, inr, ◌⊎◌,
}
use an_lf.Base.Runs.{run_events, run_events-keeps}

-- What the goroutine of `terminateProcedure` is at: the stop of the server, the loop of `StopAll`,
-- or the shutdown of the dispatcher; or it has closed `shutdownComplete`.
pub data Stage : Type 0 where
  stopping_server stopping_components shutting_dispatcher complete : Stage

-- What `terminateProcedure` itself has come to.
pub data Ending : Type 0 where
  waits graceful forced : Ending

-- `P` is the type of the components.
pub record Termination (P : Type 0) : Type 0 where
  -- Whether the application has a dispatcher.
  pub has_dispatcher : Bool
  pub stage : Stage
  pub ending : Ending
  -- The components that are still to be stopped, the next one first, and the one that is waited
  -- for.
  pub todo : List P
  pub current : Option P
  -- A history of the calls of `Stop`: those that were made, those that have returned in time, and
  -- those that were given up.
  pub called : List P
  pub in_time : List P
  pub given_up : List P
  pub dispatcher_shut : Bool

pub data Event : Type 0 where
  -- The server has stopped; `StopAll` calls the next `Stop`, which returns, or takes too long.
  server_stopped calls_next stop_returns stop_times_out : Event
  -- All components are done with; the dispatcher, if there is one, has been shut down.
  all_stopped dispatcher_done : Event
  -- The two cases of the `select` in `terminateProcedure`.
  sees_complete time_is_over : Event

abbrev pub is_looping : Stage → Bool
is_looping stopping_components = true
is_looping _ = false

module _ {P : Type 0} where
  -- Whether there is a dispatcher, and the components in the order in which they are stopped.
  unfoldable pub terminate : Bool → List P → Termination P
  terminate has_dispatcher ps = record {
    has_dispatcher = has_dispatcher;
    stage = stopping_server;
    ending = waits;
    todo = ps;
    current = none;
    called = [];
    in_time = [];
    given_up = [];
    dispatcher_shut = false;
  }

  abbrev at_server : Termination P → Stage → Option (Termination P)
  at_server t stopping_server = some (record t { stage = stopping_components })
  at_server t _ = none

  abbrev is_idle : Option P → Bool
  is_idle none = true
  is_idle (some p) = false

  unfoldable pub call_next : Termination P → List P → Option (Termination P)
  call_next t [] = none
  call_next t (p ∷ ps) =
      some (record t { todo = ps; current = some p; called = t.called ++ p ∷ [] })

  unfoldable pub returns : Termination P → Option P → Option (Termination P)
  returns t none = none
  returns t (some p) = some (record t { current = none; in_time = t.in_time ++ p ∷ [] })

  unfoldable pub give_up : Termination P → Option P → Option (Termination P)
  give_up t none = none
  give_up t (some p) = some (record t { current = none; given_up = t.given_up ++ p ∷ [] })

  abbrev leave_loop : Termination P → Stage → Option P → List P → Option (Termination P)
  leave_loop t stopping_components none [] = some (record t { stage = shutting_dispatcher })
  leave_loop t _ _ _ = none

  abbrev shut : Termination P → Stage → Option (Termination P)
  shut t shutting_dispatcher =
      some (record t { stage = complete; dispatcher_shut = t.has_dispatcher })
  shut t _ = none

  abbrev see : Termination P → Stage → Ending → Option (Termination P)
  see t complete waits = some (record t { ending = graceful })
  see t _ _ = none

  abbrev force : Termination P → Ending → Option (Termination P)
  force t waits = some (record t { ending = forced })
  force t _ = none

  -- The state after an event, or `none` where it cannot happen. The goroutine goes on after a
  -- timeout of `terminateProcedure`.
  unfoldable pub fire : Termination P → Event → Option (Termination P)
  unfolding call_next returns give_up
  fire t server_stopped = at_server t t.stage
  fire t calls_next = if is_looping t.stage && is_idle t.current then call_next t t.todo else none
  fire t stop_returns = returns t t.current
  fire t stop_times_out = give_up t t.current
  fire t all_stopped = leave_loop t t.stage t.current t.todo
  fire t dispatcher_done = shut t t.stage
  fire t sees_complete = see t t.stage t.ending
  fire t time_is_over = force t t.ending

  abbrev pub run : Termination P → List Event → Option (Termination P)
  run t es = run_events fire t es

  -- The component that is waited for.
  abbrev pub waited : Option P → List P
  waited none = []
  waited (some p) = p ∷ []
