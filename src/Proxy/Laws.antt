-- ===== src/Proxy/Laws.antt =====
-- How the process of the proxy ends.
use transisi_db.Prelude.{
  ℕ, ◌≡◌, ◌⊎◌, ◌-◌, Bool, ltb, inl, inr, refl, false, ◌&&◌, not, Option, none, some, List, [], ◌∷◌,
  All, if-cases, arith,
}
use transisi_db.Pool.Cleanup.{Wake, tick, after, worker, next_tick}
use transisi_db.Pool.Cleanup.Laws.{worker_never_stops}
use transisi_db.Pool.{BackendConn}
use transisi_db.Listener.{Server, advance, open_session, has_stopped}
use transisi_db.Proxy.{
  Process, listening_process, Step, serves, tests_pool, receives, worker_wakes, stop_returns,
  signal_exits, start_returns, with_server, may_serve, serve_step, test_step, receive_step,
  woken_by, stop_step, signal_step, start_step, step_alive, has_ended, step, stepped, run,
}

-- What a step leads to, if it can be taken.
abbrev pub Leads : (Process → Type 0) → Option Process → Type 0
Leads P none = Unit
Leads P (some p) = P p

module _ (P : Process → Type 0) where
  stepped-Leads :
      (rest : Process → Option Process) (o : Option Process)
      → ((p : Process) → P p → Leads P (rest p))
      → Leads P o
      → Leads P (stepped rest o)
  unfolding stepped
  stepped-Leads rest none keep h = tt
  stepped-Leads rest (some p) keep h = keep p h

  pub run-Leads :
      {E : Type 0} (ms : List (Step E)) (p : Process)
      → ((m : Step E) (p : Process) → P p → Leads P (step m p))
      → P p
      → Leads P (run ms p)
  unfolding run
  run-Leads [] p keep h = h
  run-Leads (m ∷ ms) p keep h =
      stepped-Leads (run ms) (step m p) (λ q k. run-Leads ms q keep k) (keep m p h)

-- The worker runs, and so does `Stop`, if it was called; the process has not ended, or by the panic.
pub record IsHeldUp (p : Process) : Type 0 where
  pub only_ticks : All (λ w. w ≡ tick) p.wakes
  pub worker_runs : p.worker_returned ≡ false
  pub stop_waits : p.stop_returned ≡ false
  pub no_exit : (p.exit ≡ none) ⊎ (p.exit ≡ some 2)

with_server-IsHeldUp :
    (p : Process) (o : Option Server) → IsHeldUp p → Leads IsHeldUp (with_server p o)
unfolding with_server
with_server-IsHeldUp p none h = tt
with_server-IsHeldUp p (some s) h = record {
  only_ticks = h.only_ticks;
  worker_runs = h.worker_runs;
  stop_waits = h.stop_waits;
  no_exit = h.no_exit;
}

woken_by-IsHeldUp :
    (p : Process) (ws : List Wake)
    → All (λ w. w ≡ tick) ws
    → IsHeldUp p
    → Leads IsHeldUp (woken_by p ws)
unfolding woken_by
woken_by-IsHeldUp p [] a h = tt
woken_by-IsHeldUp p (tick ∷ ws) a h = record {
  only_ticks = a.1;
  worker_runs = h.worker_runs;
  stop_waits = h.stop_waits;
  no_exit = h.no_exit;
}
woken_by-IsHeldUp p (after ∷ ws) a h = absurd (ground (arith, a.0))

crashed-IsHeldUp : (p : Process) → IsHeldUp p → IsHeldUp (record p { exit = some 2 })
crashed-IsHeldUp p h = record {
  only_ticks = h.only_ticks;
  worker_runs = h.worker_runs;
  stop_waits = h.stop_waits;
  no_exit = inr refl;
}

less_tested-IsHeldUp : (p : Process) → IsHeldUp p → IsHeldUp (record p { tested = p.tested - 1 })
less_tested-IsHeldUp p h = record {
  only_ticks = h.only_ticks;
  worker_runs = h.worker_runs;
  stop_waits = h.stop_waits;
  no_exit = h.no_exit;
}

receive_step-IsHeldUp :
    {E : Type 0} (healthy : BackendConn → Bool) (now later : ℕ) (dial : Option E) (p : Process)
    → IsHeldUp p
    → Leads IsHeldUp (receive_step healthy now later dial p)
unfolding receive_step
receive_step-IsHeldUp healthy now later dial p h =
    if-cases (Leads IsHeldUp) (not (ltb 0 p.tested)) _ _ (λ _. tt)
      λ _.
        if-cases (Leads IsHeldUp) p.server.backend_pool.closed _ _ (λ _. crashed-IsHeldUp p h)
          (λ _.
            with_server-IsHeldUp _ (open_session healthy now later dial p.server)
              (less_tested-IsHeldUp p h))

step_alive-IsHeldUp :
    {E : Type 0} (m : Step E) (p : Process) → IsHeldUp p → Leads IsHeldUp (step_alive m p)
unfolding step_alive serve_step test_step stop_step signal_step start_step
step_alive-IsHeldUp (serves m) p h =
    if-cases (Leads IsHeldUp) (may_serve m p) _ _
      (λ _. with_server-IsHeldUp p (advance m p.server) h) (λ _. tt)
step_alive-IsHeldUp tests_pool p h =
    if-cases (Leads IsHeldUp) (not p.server.backend_pool.closed && ltb p.tested p.server.starting) _
      _
      (λ _. record {
        only_ticks = h.only_ticks;
        worker_runs = h.worker_runs;
        stop_waits = h.stop_waits;
        no_exit = h.no_exit;
      })
      (λ _. tt)
step_alive-IsHeldUp (receives healthy now later dial) p h =
    receive_step-IsHeldUp healthy now later dial p h
step_alive-IsHeldUp worker_wakes p h = woken_by-IsHeldUp p p.wakes h.only_ticks h
step_alive-IsHeldUp stop_returns p h =
    if-cases (Leads IsHeldUp) (has_stopped p.server && p.worker_returned) _ _
      (λ q. absurd (ground (arith, h.worker_runs))) (λ _. tt)
step_alive-IsHeldUp signal_exits p h =
    if-cases (Leads IsHeldUp) p.stop_returned _ _ (λ q. absurd (ground (arith, h.stop_waits)))
      (λ _. tt)
step_alive-IsHeldUp start_returns p h =
    if-cases (Leads IsHeldUp) (not p.server.listening && (not p.server.accepted && p.stop_returned))
      _ _ (λ q. absurd (ground (arith, h.stop_waits))) (λ _. tt)

step-IsHeldUp : {E : Type 0} (m : Step E) (p : Process) → IsHeldUp p → Leads IsHeldUp (step m p)
unfolding step
step-IsHeldUp m p h =
    if-cases (Leads IsHeldUp) (has_ended p.exit) _ _ (λ _. tt) (λ _. step_alive-IsHeldUp m p h)

runs_on :
    (o : Option Process) → Leads IsHeldUp o → Leads (λ p. (p.exit ≡ none) ⊎ (p.exit ≡ some 2)) o
runs_on none h = tt
runs_on (some p) h = h.no_exit

-- Once the proxy listens, with the wakes that the cleanup worker has from any start and for any
-- durations of its rounds, no schedule of these goroutines ends the process in order: after any of
-- them it still runs, or the panic of an `Acquire` has ended it with status 2. A signal does not end
-- it, since `Stop` does not return before the worker does.
pub no_orderly_exit :
    {E : Type 0} (now start size max : ℕ) (works : List ℕ) (ms : List (Step E))
    → Leads
        (λ p. (p.exit ≡ none) ⊎ (p.exit ≡ some 2))
        (run ms (listening_process now size max (worker start (next_tick start) works)))
no_orderly_exit now start size max works ms = runs_on _ (
    run-Leads IsHeldUp ms _ step-IsHeldUp (record {
      only_ticks = worker_never_stops start works;
      worker_runs = refl;
      stop_waits = refl;
      no_exit = inl refl;
    }))
