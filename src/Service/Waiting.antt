-- ===== src/Service/Waiting.antt =====
-- The end of the program in pkg/service/init.go and internal/sbi/server.go: the goroutines of the
-- server and of `listenShutdown`, which the wait group counts, and `Start`, which waits for the end
-- of the context and then for them (`WaitRoutineStopped`). A panic of the server ends the process
-- and is left out.
pub mod Laws
use an_lf.Base.{
  ℕ, ◌+◌, ◌-◌, ◌≡◌, ◌≢◌, ◌⊎◌, inl, inr, refl, Bool, true, false, ◌&&◌, Option, none, some, List, [],
  ◌∷◌, ◌==◌, arith, if◌then◌else◌, Bool-cases,
}
use an_lf.Base.Runs.{run_events, run_events-keeps}

-- The server serves, has told the wait group that it is done, or has ended the context as well.
pub data Serving : Type 0 where
  serving told ended : Serving

-- `listenShutdown` waits for the end of the context, is in `terminateProcedure`, or has returned.
pub data Listening : Type 0 where
  listening terminating finished : Listening

-- `Start` waits for the context, waits for the goroutines, or has returned after them or for its
-- timeout.
pub data Waiting : Type 0 where
  blocked waiting stopped gave_up : Waiting

pub record AppRun : Type 0 where
  pub server : Serving
  pub listener : Listening
  pub main : Waiting
  pub cancelled : Bool
  -- The counter of the wait group.
  pub tasks : ℕ

-- `Start`, once the components and the server run.
unfoldable pub started : AppRun
started = record {
  server = serving;
  listener = listening;
  main = blocked;
  cancelled = false;
  tasks = 2;
}

pub data Event : Type 0 where
  -- `Terminate` is called, for a signal; the server stops serving, and then ends the context.
  terminates server_done server_terminates : Event
  -- `listenShutdown` sees the end of the context; `terminateProcedure` returns.
  listener_wakes terminated : Event
  -- `Start` sees the end of the context; the counter is 0; the time is over.
  main_wakes all_done time_is_over : Event

abbrev pub is_serving : Serving → Bool
is_serving serving = true
is_serving _ = false

abbrev pub is_told : Serving → Bool
is_told told = true
is_told _ = false

abbrev pub is_listening : Listening → Bool
is_listening listening = true
is_listening _ = false

abbrev pub is_terminating : Listening → Bool
is_terminating terminating = true
is_terminating _ = false

abbrev pub is_blocked : Waiting → Bool
is_blocked blocked = true
is_blocked _ = false

abbrev pub is_waiting : Waiting → Bool
is_waiting waiting = true
is_waiting _ = false

-- The state after an event, or `none` where it cannot happen.
unfoldable pub fire : AppRun → Event → Option AppRun
fire a terminates = some (record a { cancelled = true })
fire a server_done =
    if is_serving a.server then some (record a { server = told; tasks = a.tasks - 1 }) else none
fire a server_terminates =
    if is_told a.server then some (record a { server = ended; cancelled = true }) else none
fire a listener_wakes =
    if a.cancelled && is_listening a.listener
    then some (record a { listener = terminating })
    else none
fire a terminated =
    if is_terminating a.listener
    then some (record a { listener = finished; tasks = a.tasks - 1 })
    else none
fire a main_wakes =
    if a.cancelled && is_blocked a.main then some (record a { main = waiting }) else none
fire a all_done =
    if is_waiting a.main && a.tasks == 0 then some (record a { main = stopped }) else none
fire a time_is_over = if is_waiting a.main then some (record a { main = gave_up }) else none

abbrev pub run : AppRun → List Event → Option AppRun
run a es = run_events fire a es
