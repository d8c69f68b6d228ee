-- ===== src/Proxy/Crashes.antt =====
-- A signal that comes while a client starts.
use transisi_db.Prelude.{
  ℕ, ◌+◌, ◌<◌, ◌≡◌, refl, Bool, true, false, Option, none, some, List, [], ◌∷◌, arith,
}
use transisi_db.Pool.{BackendConn, close}
use transisi_db.Listener.{clears_running, closes_listener, closes_pool, advance}
use transisi_db.Proxy.{Process, Step, serves, tests_pool, receives, run, step}

-- `Stop` up to its wait, between the two halves of an `Acquire`.
abbrev pub stop_meanwhile : {E : Type 0} → (BackendConn → Bool) → ℕ → ℕ → Option E → List (Step E)
stop_meanwhile healthy now later dial =
    tests_pool
    ∷ serves clears_running
    ∷ serves closes_listener
    ∷ serves closes_pool
    ∷ receives healthy now later dial
    ∷ []

-- Whenever the proxy runs and some client has its slot and has not begun to acquire its connection,
-- a signal whose `Stop` closes the pool between the test and the receive of that `Acquire` makes the
-- process end with status 2; the sessions of the other clients are then still open.
pub stop_crashes :
    {E : Type 0} (healthy : BackendConn → Bool) (now later : ℕ) (dial : Option E) (p : Process)
    → p.exit ≡ none
    → p.server.running ≡ true
    → p.server.listening ≡ true
    → p.server.backend_pool.closed ≡ false
    → p.tested < p.server.starting
    → (q : Process) × (run (stop_meanwhile healthy now later dial) p ≡ some q)
      × (q.exit ≡ some 2)
      × (q.server.sessions ≡ p.server.sessions)
      × (q.server.closed ≡ p.server.closed)
unfolding run step advance close
stop_crashes healthy now later dial p e r l o t =
    let over = record (p.server) {
      running = false;
      listening = false;
      backend_pool = close p.server.backend_pool;
    } in
    (
      record p { tested = p.tested + 1; server = over; exit = some 2 },
      ground arith,
      refl,
      refl,
      refl,
    )
