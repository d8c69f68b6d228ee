-- ===== src/Listener/Stops.antt =====
-- What `Stop` leaves, and that no goroutine of the listener blocks the others for ever.
use transisi_db.Prelude.{
  ℕ, zero, suc, ◌≡◌, refl, Bool, true, Option, some, List, [], ◌∷◌, length, arith, if-cases, ltb,
  ltb→lt, ◌&&◌, not, ◌||◌, subst, sym,
}
use transisi_db.Pool.{BackendConn, BackendPool, acquire, err, pool_is_closed}
use transisi_db.Listener.{
  Server, new_server, opened, open_session, open_one, pick, ended, end_session, accept, spawn,
  take_slot, entered, clear_running, close_listener, close_pool, has_stopped, Move, accepts, spawns,
  takes_slot, clears_running, closes_listener, closes_pool, opens, ends, advance, play,
}
use transisi_db.Listener.Laws.{IsValid, Leads, play-Leads, history-IsValid}

-- The pool is closed, no session is there, and the sessions closed `bcs` in their time.
abbrev pub IsOver : List BackendConn → Server → Type 0
IsOver bcs s = (s.backend_pool.closed ≡ true) × (s.sessions ≡ []) × (s.closed ≡ bcs)

acquire_closed :
    {E : Type 0} (healthy : BackendConn → Bool) (now later : ℕ) (dial : Option E) (p : BackendPool)
    → p.closed ≡ true
    → acquire healthy now later dial p ≡ (p, err pool_is_closed)
unfolding acquire
acquire_closed healthy now later dial p c =
    if-cases (λ r. r ≡ (p, err pool_is_closed)) p.closed _ _ (λ _. refl)
      (λ f. absurd (ground arith))

open_one-IsOver :
    {E : Type 0} (bcs : List BackendConn) (healthy : BackendConn → Bool) (now later : ℕ)
    (dial : Option E) (n : ℕ) (s : Server)
    → IsOver bcs s
    → Leads (IsOver bcs) (open_one healthy now later dial n s)
unfolding open_one opened
open_one-IsOver bcs healthy now later dial zero s o = tt
open_one-IsOver bcs healthy now later dial (suc n) s (c, e, k) =
    subst (λ r. IsOver bcs (opened n s r))
      (sym (acquire_closed healthy now later dial s.backend_pool c)) (c, e, k)

ended-IsOver :
    (bcs : List BackendConn) (now : ℕ) (i : ℕ) (s : Server) (held : List BackendConn)
    → held ≡ []
    → Leads (IsOver bcs) (ended now s (pick held i))
unfolding ended pick
ended-IsOver bcs now i s [] e = tt
ended-IsOver bcs now i s (bc ∷ held) e = absurd (ground arith)

pub advance-IsOver :
    {E : Type 0} (bcs : List BackendConn) (m : Move E) (s : Server)
    → IsOver bcs s
    → Leads (IsOver bcs) (advance m s)
unfolding advance accept spawn take_slot entered clear_running close_listener close_pool
    open_session open_one end_session pick
advance-IsOver bcs accepts s o =
    if-cases (Leads (IsOver bcs)) (s.listening && not s.accepted) _ _ (λ _. o) (λ _. tt)
advance-IsOver bcs spawns s o = if-cases (Leads (IsOver bcs)) s.accepted _ _ (λ _. o) (λ _. tt)
advance-IsOver bcs takes_slot s o = ground arith
advance-IsOver bcs clears_running s o =
    if-cases (Leads (IsOver bcs)) s.running _ _ (λ _. o) (λ _. tt)
advance-IsOver bcs closes_listener s o =
    if-cases (Leads (IsOver bcs)) (not s.running && s.listening) _ _ (λ _. o) (λ _. tt)
advance-IsOver bcs closes_pool s o =
    if-cases (Leads (IsOver bcs)) (s.listening || s.backend_pool.closed) _ _ (λ _. tt)
      (λ f. absurd (ground arith))
advance-IsOver bcs (opens healthy now later dial) s o =
    open_one-IsOver bcs healthy now later dial s.starting s o
advance-IsOver bcs (ends now i) s o = ended-IsOver bcs now i s s.sessions o.1

length-zero : (bcs : List BackendConn) → length bcs ≡ 0 → bcs ≡ []
length-zero [] e = refl
length-zero (bc ∷ bcs) e = absurd (omega (arith, e))

pub has_stopped-IsOver : (s : Server) → has_stopped s ≡ true → IsValid s → IsOver s.closed s
unfolding has_stopped
has_stopped-IsOver s h (c, u, b) = (ground arith, length-zero s.sessions (ground arith), refl)

-- Once `Stop` has returned, in any run of a new server, no session is there, and however the
-- goroutines go on, none is opened and none is closed.
pub stopped_stays_empty :
    {E : Type 0} (now size max : ℕ) (ms ns : List (Move E)) (s : Server)
    → play ms (new_server now size max) ≡ some s
    → has_stopped s ≡ true
    → Leads (IsOver s.closed) (play ns s)
stopped_stays_empty now size max ms ns s r h =
    play-Leads (IsOver s.closed) ns s (advance-IsOver s.closed)
      (has_stopped-IsOver s h (subst (Leads IsValid) r (history-IsValid now size max ms)))

-- Every client waits for a slot, as long as the semaphore has none.
abbrev pub ServesNone : Server → Type 0
ServesNone s =
    (s.capacity ≡ 0) × (s.starting ≡ 0) × (s.sessions ≡ []) × (s.closed ≡ []) × (s.turned_away ≡ 0)

open_none-ServesNone :
    {E : Type 0} (healthy : BackendConn → Bool) (now later : ℕ) (dial : Option E) (n : ℕ)
    (s : Server)
    → n ≡ 0
    → Leads ServesNone (open_one healthy now later dial n s)
unfolding open_one
open_none-ServesNone healthy now later dial zero s e = tt
open_none-ServesNone healthy now later dial (suc n) s e = absurd (omega (arith, e))

end_none-ServesNone :
    (now i : ℕ) (s : Server) (held : List BackendConn)
    → held ≡ []
    → Leads ServesNone (ended now s (pick held i))
unfolding ended pick
end_none-ServesNone now i s [] e = tt
end_none-ServesNone now i s (bc ∷ held) e = absurd (ground arith)

advance-ServesNone :
    {E : Type 0} (m : Move E) (s : Server) → ServesNone s → Leads ServesNone (advance m s)
unfolding advance accept spawn take_slot clear_running close_listener close_pool open_session
    end_session
advance-ServesNone accepts s o =
    if-cases (Leads ServesNone) (s.listening && not s.accepted) _ _ (λ _. o) (λ _. tt)
advance-ServesNone spawns s o = if-cases (Leads ServesNone) s.accepted _ _ (λ _. o) (λ _. tt)
advance-ServesNone takes_slot s o =
    if-cases (Leads ServesNone) (ltb s.slots s.capacity) _ _
      (λ l. absurd (omega (arith, ltb→lt s.slots s.capacity l, o.0))) (λ _. tt)
advance-ServesNone clears_running s o = if-cases (Leads ServesNone) s.running _ _ (λ _. o) (λ _. tt)
advance-ServesNone closes_listener s o =
    if-cases (Leads ServesNone) (not s.running && s.listening) _ _ (λ _. o) (λ _. tt)
advance-ServesNone closes_pool s o =
    if-cases (Leads ServesNone) (s.listening || s.backend_pool.closed) _ _ (λ _. tt) (λ _. o)
advance-ServesNone (opens healthy now later dial) s o =
    open_none-ServesNone healthy now later dial s.starting s o.1
advance-ServesNone (ends now i) s o = end_none-ServesNone now i s s.sessions o.2

-- With `MaxConnectionsPerHost` 0, which an absent setting is, no schedule of a new server serves a
-- client or turns one away.
pub zero_capacity-ServesNone :
    {E : Type 0} (now size : ℕ) (ms : List (Move E))
    → Leads ServesNone (play ms (new_server now size 0))
unfolding new_server
zero_capacity-ServesNone now size ms =
    play-Leads ServesNone ms (new_server now size 0) advance-ServesNone
      (refl, refl, refl, refl, refl)
