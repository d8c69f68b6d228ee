-- ===== src/Proxy.antt =====
-- cmd/proxy/main.go: the process of the proxy, with the goroutines of the listener, the cleanup worker
-- of the pool, and the goroutine that waits for a signal and calls `Stop`. `Stop` holds the server's
-- mutex until it returns, and the accept loop needs it to see that the server has stopped. `Acquire`
-- is cut in two here: the test of `closed`, and the receive from the channel, for which `Close` may
-- have closed it meanwhile. `Close` sets its flag and closes the channel in one step, since a receive
-- between the two finds the channel as one before both does.
pub mod Laws
pub mod Crashes
mod Examples
use transisi_db.Prelude.{
  ℕ, ◌+◌, ◌-◌, ltb, Bool, true, false, ◌&&◌, ◌||◌, not, Option, none, some, List, [], ◌∷◌,
  if◌then◌else◌,
}
use transisi_db.Config.{Config, Source, loaded, not_loaded, load}
use transisi_db.Pool.Cleanup.{Wake, tick, after}
use transisi_db.Pool.{BackendConn}
use transisi_db.Listener.{Server, new_server, Move, opens, advance, open_session, has_stopped}

-- `wakes` are the wakes of the cleanup worker that are still to come. `stop_returned` is set when
-- `Stop` has returned, and `exit` is the status with which the process has ended. `tested` counts the
-- goroutines of `starting` in the server that have passed the test of `closed` in `Acquire`.
pub record Process : Type 0 where
  pub server : Server
  pub tested : ℕ
  pub wakes : List Wake
  pub worker_returned : Bool
  pub stop_returned : Bool
  pub exit : Option ℕ

-- The process once the server listens, from the sizes that it reads of the configuration.
abbrev pub listening_process : ℕ → ℕ → ℕ → List Wake → Process
listening_process now pool_size max_connections_per_host wakes = record {
  server = new_server now pool_size max_connections_per_host;
  tested = 0;
  wakes = wakes;
  worker_returned = false;
  stop_returned = false;
  exit = none;
}

-- A step of one goroutine; `none` where it cannot be taken.
pub data Step (E : Type 0) : Type 0 where
  serves : Move E → Step E
  tests_pool : Step E
  receives : (BackendConn → Bool) → ℕ → ℕ → Option E → Step E
  worker_wakes stop_returns signal_exits start_returns : Step E

with_server : Process → Option Server → Option Process
with_server p none = none
with_server p (some s) = some (record p { server = s })

-- A goroutine whose `Acquire` runs through in one go has not passed the test before.
may_serve : {E : Type 0} → Move E → Process → Bool
may_serve (opens healthy now later dial) p = ltb p.tested p.server.starting
may_serve m p = true

serve_step : {E : Type 0} → Move E → Process → Option Process
unfolding with_server may_serve
serve_step m p = if may_serve m p then with_server p (advance m p.server) else none

-- The test of `closed` in `Acquire`.
test_step : Process → Option Process
test_step p =
    if not p.server.backend_pool.closed && ltb p.tested p.server.starting
    then some (record p { tested = p.tested + 1 })
    else none

-- The receive behind it. From a closed channel it gives nil, `IsHealthy` panics on that, and the
-- panic of a goroutine ends the process with status 2. On an open pool it goes on as `open_session`
-- does behind its test.
receive_step : {E : Type 0} → (BackendConn → Bool) → ℕ → ℕ → Option E → Process → Option Process
unfolding with_server
receive_step healthy now later dial p =
    if not (ltb 0 p.tested)
    then none
    else if p.server.backend_pool.closed
    then some (record p { exit = some 2 })
    else with_server (record p { tested = p.tested - 1 })
        (open_session healthy now later dial p.server)

-- The worker tests `closed` only behind its timer.
woken_by : Process → List Wake → Option Process
woken_by p [] = none
woken_by p (tick ∷ ws) = some (record p { wakes = ws })
woken_by p (after ∷ ws) =
    some
      (record p { wakes = ws; worker_returned = p.worker_returned || p.server.backend_pool.closed })

-- `Close` of the pool waits for its worker, and `Stop` for it and for the sessions.
stop_step : Process → Option Process
stop_step p =
    if has_stopped p.server && p.worker_returned
    then some (record p { stop_returned = true })
    else none

-- `os.Exit(0)` behind `Stop`.
signal_step : Process → Option Process
signal_step p = if p.stop_returned then some (record p { exit = some 0 }) else none

-- `Accept` fails on the closed socket; with the mutex, the loop sees that the server does not run,
-- `Start` returns nil and `main` returns.
start_step : Process → Option Process
start_step p =
    if not p.server.listening && (not p.server.accepted && p.stop_returned)
    then some (record p { exit = some 0 })
    else none

step_alive : {E : Type 0} → Step E → Process → Option Process
unfolding serve_step test_step receive_step woken_by stop_step signal_step start_step
step_alive (serves m) p = serve_step m p
step_alive tests_pool p = test_step p
step_alive (receives healthy now later dial) p = receive_step healthy now later dial p
step_alive worker_wakes p = woken_by p p.wakes
step_alive stop_returns p = stop_step p
step_alive signal_exits p = signal_step p
step_alive start_returns p = start_step p

has_ended : Option ℕ → Bool
has_ended none = false
has_ended (some code) = true

unfoldable pub step : {E : Type 0} → Step E → Process → Option Process
unfolding step_alive has_ended
step m p = if has_ended p.exit then none else step_alive m p

stepped : (Process → Option Process) → Option Process → Option Process
stepped rest none = none
stepped rest (some p) = rest p

unfoldable pub run : {E : Type 0} → List (Step E) → Process → Option Process
unfolding step stepped
run [] p = some p
run (m ∷ ms) p = stepped (run ms) (step m p)
