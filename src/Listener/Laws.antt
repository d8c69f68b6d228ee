-- ===== src/Listener/Laws.antt =====
-- The counts of the listener, and what they mean for its sessions.
use transisi_db.Prelude.{
  ℕ, zero, suc, ◌+◌, ◌≡◌, ◌≤◌, ◌<◌, ◌∙◌, ◌||◌, refl, Bool, Option, none, some, List, [], ◌∷◌,
  length, arith, if-cases, ltb→lt, ltb, ◌&&◌, not,
}
use transisi_db.Breaker.{u64}
use transisi_db.Pool.{
  BackendConn, BackendPool, Acquired, conn, err, acquire, close, new_backend_pool,
}
use transisi_db.Pool.Dials.{Dialed, acquire-Dialed}
use transisi_db.Listener.{
  Server, new_server, opened, open_session, pick, behind, ended, entered, open_one, end_session,
  accept, spawn, take_slot, clear_running, close_listener, close_pool, Move, accepts, spawns,
  takes_slot, clears_running, closes_listener, closes_pool, opens, ends, advance, play, played,
}

-- Nothing idles in the pool, and nothing ever did.
pub record IsUnused (p : BackendPool) : Type 0 where
  pub none_idle : p.connections ≡ []
  pub none_reused : p.total_acquired ≡ 0
  pub none_returned : p.total_released ≡ 0

-- The wait group counts the goroutines, the semaphore those behind it, and it holds no more than
-- it can.
abbrev pub Counts : Server → Type 0
Counts s =
    (s.wg ≡ s.waiting + s.slots)
    × (s.slots ≡ s.starting + length s.sessions)
    × (s.slots ≤ s.capacity)

-- Besides: every connection that was created is held by a session or was closed by one.
abbrev pub IsValid : Server → Type 0
IsValid s =
    Counts s
    × IsUnused s.backend_pool
    × (s.backend_pool.total_created ≡ u64 (length s.sessions + length s.closed))

pub new_server-IsValid : (now size max : ℕ) → IsValid (new_server now size max)
unfolding new_server new_backend_pool
new_server-IsValid now size max =
    (ground arith, record { none_idle = refl; none_reused = refl; none_returned = refl }, refl)

-- What a step leads to, if it can be taken.
abbrev pub Leads : (Server → Type 0) → Option Server → Type 0
Leads P none = Unit
Leads P (some s) = P s

accept-IsValid : (s : Server) → IsValid s → Leads IsValid (accept s)
unfolding accept
accept-IsValid s v = if-cases (Leads IsValid) (s.listening && not s.accepted) _ _ (λ _. v) (λ _. tt)

spawn-IsValid : (s : Server) → IsValid s → Leads IsValid (spawn s)
unfolding spawn
spawn-IsValid s (c, u, b) =
    if-cases (Leads IsValid) s.accepted _ _ (λ _. (ground arith, u, b)) (λ _. tt)

entered-IsValid :
    (n : ℕ) (s : Server)
    → s.slots < s.capacity
    → s.waiting ≡ n
    → IsValid s
    → Leads IsValid (entered n s)
unfolding entered
entered-IsValid zero s l e v = tt
entered-IsValid (suc n) s l e (c, u, b) = (ground arith, u, b)

take_slot-IsValid : (s : Server) → IsValid s → Leads IsValid (take_slot s)
unfolding take_slot
take_slot-IsValid s v =
    if-cases (Leads IsValid) (ltb s.slots s.capacity) _ _
      (λ l. entered-IsValid s.waiting s (ltb→lt _ _ l) refl v) (λ _. tt)

clear_running-IsValid : (s : Server) → IsValid s → Leads IsValid (clear_running s)
unfolding clear_running
clear_running-IsValid s v = if-cases (Leads IsValid) s.running _ _ (λ _. v) (λ _. tt)

close_listener-IsValid : (s : Server) → IsValid s → Leads IsValid (close_listener s)
unfolding close_listener
close_listener-IsValid s v =
    if-cases (Leads IsValid) (not s.running && s.listening) _ _ (λ _. v) (λ _. tt)

close-IsUnused :
    (p : BackendPool)
    → IsUnused p
    → IsUnused (close p) × ((close p).total_created ≡ p.total_created)
unfolding close
close-IsUnused p u =
    if-cases (λ q. IsUnused q × (q.total_created ≡ p.total_created)) p.closed _ _ (λ _. (u, refl))
      (λ _. (
        record { none_idle = refl; none_reused = u.none_reused; none_returned = u.none_returned },
        refl,
      ))

close_pool-IsValid : (s : Server) → IsValid s → Leads IsValid (close_pool s)
unfolding close_pool
close_pool-IsValid s (c, u, b) =
    if-cases (Leads IsValid) (s.listening || s.backend_pool.closed) _ _ (λ _. tt)
      (λ _. let (unused, same) = close-IsUnused s.backend_pool u in (c, unused, same ∙ b))

opened-IsValid :
    {E : Type 0} (s : Server) (n : ℕ) (r : BackendPool × Acquired E)
    → s.starting ≡ suc n
    → IsValid s
    → Dialed s.backend_pool r
    → IsValid (opened n s r)
unfolding opened
opened-IsValid s n (p, conn bc) e (c, u, b) d = (
  ground arith,
  record {
    none_idle = d.none_idle;
    none_reused = d.same_acquired ∙ u.none_reused;
    none_returned = d.same_released ∙ u.none_returned;
  },
  omega (arith, d.counted.1, b),
)
opened-IsValid s n (p, err x) e (c, u, b) d = (
  ground arith,
  record {
    none_idle = d.none_idle;
    none_reused = d.same_acquired ∙ u.none_reused;
    none_returned = d.same_released ∙ u.none_returned;
  },
  d.counted ∙ b,
)

open_one-IsValid :
    {E : Type 0} (healthy : BackendConn → Bool) (now later : ℕ) (dial : Option E) (n : ℕ)
    (s : Server)
    → s.starting ≡ n
    → IsValid s
    → Leads IsValid (open_one healthy now later dial n s)
unfolding open_one
open_one-IsValid healthy now later dial zero s e v = tt
open_one-IsValid healthy now later dial (suc n) s e v =
    opened-IsValid s n (acquire healthy now later dial s.backend_pool) e v
      (acquire-Dialed healthy now later dial s.backend_pool v.1.none_idle)

-- What `pick` finds is one of the list.
IsPicked : List BackendConn → Option (BackendConn × List BackendConn) → Type 0
IsPicked bcs none = Unit
IsPicked bcs (some (bc, rest)) = length bcs ≡ length rest + 1

behind-IsPicked :
    (b : BackendConn) (bcs : List BackendConn) (o : Option (BackendConn × List BackendConn))
    → IsPicked bcs o
    → IsPicked (b ∷ bcs) (behind b o)
unfolding IsPicked behind
behind-IsPicked b bcs none h = tt
behind-IsPicked b bcs (some (bc, rest)) h = omega (arith, h)

pick-IsPicked : (bcs : List BackendConn) (i : ℕ) → IsPicked bcs (pick bcs i)
unfolding IsPicked pick
pick-IsPicked [] i = tt
pick-IsPicked (b ∷ bcs) zero = omega arith
pick-IsPicked (b ∷ bcs) (suc i) = behind-IsPicked b bcs (pick bcs i) (pick-IsPicked bcs i)

ended-IsValid :
    (now : ℕ) (s : Server) (o : Option (BackendConn × List BackendConn))
    → IsPicked s.sessions o
    → IsValid s
    → Leads IsValid (ended now s o)
unfolding IsPicked ended
ended-IsValid now s none h v = tt
ended-IsValid now s (some (bc, rest)) h (c, u, b) = (ground arith, u, omega (arith, h, b))

pub advance-IsValid :
    {E : Type 0} (m : Move E) (s : Server) → IsValid s → Leads IsValid (advance m s)
unfolding advance open_session end_session
advance-IsValid accepts s v = accept-IsValid s v
advance-IsValid spawns s v = spawn-IsValid s v
advance-IsValid takes_slot s v = take_slot-IsValid s v
advance-IsValid clears_running s v = clear_running-IsValid s v
advance-IsValid closes_listener s v = close_listener-IsValid s v
advance-IsValid closes_pool s v = close_pool-IsValid s v
advance-IsValid (opens healthy now later dial) s v =
    open_one-IsValid healthy now later dial s.starting s refl v
advance-IsValid (ends now i) s v =
    ended-IsValid now s (pick s.sessions i) (pick-IsPicked s.sessions i) v

played-Leads :
    (P : Server → Type 0) (rest : Server → Option Server) (o : Option Server)
    → ((s : Server) → P s → Leads P (rest s))
    → Leads P o
    → Leads P (played rest o)
unfolding played
played-Leads P rest none keep h = tt
played-Leads P rest (some s) keep h = keep s h

-- What every step keeps, every schedule keeps.
pub play-Leads :
    {E : Type 0} (P : Server → Type 0) (ms : List (Move E)) (s : Server)
    → ((m : Move E) (s : Server) → P s → Leads P (advance m s))
    → P s
    → Leads P (play ms s)
unfolding play
play-Leads P [] s keep h = h
play-Leads P (m ∷ ms) s keep h =
    played-Leads P (play ms) (advance m s) (λ t k. play-Leads P ms t keep k) (keep m s h)

-- After any schedule of a new server, in which an `Acquire` is one step: the wait group counts the goroutines that were spawned, the
-- sessions hold at most `MaxConnectionsPerHost` slots, no connection idles in the pool, none was
-- taken from it or returned to it, and those created are as many (mod 2 ^ 64) as those in use and
-- those that sessions closed.
pub history-IsValid :
    {E : Type 0} (now size max : ℕ) (ms : List (Move E))
    → Leads IsValid (play ms (new_server now size max))
history-IsValid now size max ms =
    play-Leads IsValid ms (new_server now size max) advance-IsValid
      (new_server-IsValid now size max)
