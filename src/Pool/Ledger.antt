-- ===== src/Pool/Ledger.antt =====
-- The books of the pool: every connection that was created is idle, lent out or closed.
use transisi_db.Prelude.{
  ℕ, ◌+◌, ◌≡◌, refl, ap, Bool, Option, none, some, List, [], ◌∷◌, ◌++◌, length, length-append,
  arith, if-cases,
}
use transisi_db.Breaker.{CallError, breaker_open, inner, call, u64}
use transisi_db.Pool.{
  BackendConn, BackendPool, Acquired, conn, err, reset, created, create_connection, take_or_create,
  acquire, release, close, discard_all, new_backend_pool,
}
use transisi_db.Pool.Cleanup.{Limits, cleanup}
use transisi_db.Pool.Cleanup.Keeps.{cleanup-Cleaned}
use transisi_db.Pool.Laws.{Inv, new_backend_pool-Inv, acquire-Inv, release-Inv, close-Inv}

-- The pool and the connections that its clients hold.
pub record World : Type 0 where
  pub pool : BackendPool
  pub lent : List BackendConn

abbrev pub start : ℕ → ℕ → World
start now size = record { pool = new_backend_pool now size; lent = [] }

abbrev hand_out : {E : Type 0} → BackendPool → List BackendConn → Acquired E → World
hand_out p lent (conn bc) = record { pool = p; lent = bc ∷ lent }
hand_out p lent (err e) = record { pool = p; lent = lent }

-- One call of a client, a change that a client makes to a connection that it holds, or a cleanup of
-- the worker that returns.
pub data Step (E : Type 0) (w : World) : World → Type 0 where
  acquires :
      (healthy : BackendConn → Bool) (now later : ℕ) (dial : Option E)
      → Step E w (
          hand_out
            (acquire healthy now later dial w.pool).0
            w.lent
            (acquire healthy now later dial w.pool).1)
  releases :
      (now : ℕ) (before : List BackendConn) (bc : BackendConn) (behind : List BackendConn)
      → w.lent ≡ before ++ bc ∷ behind
      → Step E w (record { pool = release now (some bc) w.pool; lent = before ++ behind })
  uses :
      (before : List BackendConn) (bc bc' : BackendConn) (behind : List BackendConn)
      → w.lent ≡ before ++ bc ∷ behind
      → Step E w (record { pool = w.pool; lent = before ++ bc' ∷ behind })
  cleans :
      (healthy : BackendConn → Bool) (limits : Limits) (now fuel : ℕ) (p : BackendPool)
      → cleanup healthy limits now fuel w.pool ≡ some p
      → Step E w (record { pool = p; lent = w.lent })
  closes : Step E w (record { pool = close w.pool; lent = w.lent })

pub data Reach (E : Type 0) (w : World) : World → Type 0 where
  here : Reach E w w
  next : {u v : World} → Reach E w u → Step E u v → Reach E w v

abbrev pub held : BackendPool → ℕ
held p = length p.connections + length p.discarded

-- Every connection created so far is in one place (mod 2 ^ 64, as the counter is).
abbrev pub Balanced : World → Type 0
Balanced w = w.pool.total_created ≡ u64 (held w.pool + length w.lent)

length-discard_all : (bs ds : List BackendConn) → length (discard_all bs ds) ≡ length bs + length ds
length-discard_all [] ds = omega arith
length-discard_all (b ∷ bs) ds = omega (arith, length-discard_all bs (b ∷ ds))

created-Balanced :
    {E : Type 0} (now : ℕ) (p : BackendPool) (lent : List BackendConn) (r : Option (CallError E))
    → Balanced (record { pool = p; lent = lent })
    → Balanced (hand_out (created now p r).0 lent (created now p r).1)
unfolding created
created-Balanced now p lent none b = ground arith
created-Balanced now p lent (some breaker_open) b = b
created-Balanced now p lent (some (inner e)) b = b

create-Balanced :
    {E : Type 0} (now later : ℕ) (dial : Option E) (p : BackendPool) (lent : List BackendConn)
    → Balanced (record { pool = p; lent = lent })
    → let r = create_connection now later dial p in Balanced (hand_out r.0 lent r.1)
unfolding create_connection
create-Balanced now later dial p lent b =
    let r = call now later dial p.circuit_breaker in
    created-Balanced later (record p { circuit_breaker = r.0 }) lent r.1 b

take_or_create-Balanced :
    {E : Type 0} (healthy : BackendConn → Bool) (now later : ℕ) (dial : Option E)
    (bcs : List BackendConn) (p : BackendPool) (lent : List BackendConn)
    → p.connections ≡ bcs
    → Balanced (record { pool = p; lent = lent })
    → let r = take_or_create healthy now later dial bcs p in Balanced (hand_out r.0 lent r.1)
unfolding take_or_create
take_or_create-Balanced healthy now later dial [] p lent e b =
    create-Balanced now later dial p lent b
take_or_create-Balanced {E} healthy now later dial (bc ∷ rest) p lent e b =
    if-cases (λ (r : BackendPool × Acquired E). Balanced (hand_out r.0 lent r.1)) (healthy bc) _ _
      (λ _. omega (arith, ap length e))
      (λ _. create-Balanced now later dial _ lent (omega (arith, ap length e)))

acquire-Balanced :
    {E : Type 0} (healthy : BackendConn → Bool) (now later : ℕ) (dial : Option E) (w : World)
    → Balanced w
    → let r = acquire healthy now later dial w.pool in Balanced (hand_out r.0 w.lent r.1)
unfolding acquire
acquire-Balanced {E} healthy now later dial w b =
    if-cases (λ (r : BackendPool × Acquired E). Balanced (hand_out r.0 w.lent r.1)) w.pool.closed _
      _ (λ _. b)
      (λ _. take_or_create-Balanced healthy now later dial w.pool.connections w.pool w.lent refl b)

release-held :
    (now : ℕ) (bc : BackendConn) (p : BackendPool)
    → (held (release now (some bc) p) ≡ held p + 1)
      × ((release now (some bc) p).total_created ≡ p.total_created)
unfolding release
release-held now bc p = ground (arith, length-append p.connections (reset now bc ∷ []))

close-held :
    (p : BackendPool) → (held (close p) ≡ held p) × ((close p).total_created ≡ p.total_created)
unfolding close
close-held p = ground (arith, length-discard_all p.connections p.discarded)

Step-Balanced : {E : Type 0} {w v : World} → Step E w v → Balanced w → Balanced v
Step-Balanced {w = w} (acquires healthy now later dial) b =
    acquire-Balanced healthy now later dial w b
Step-Balanced {w = w} (releases now before bc behind e) b = omega (
  arith,
  release-held now bc w.pool,
  ap length e,
  length-append before (bc ∷ behind),
  length-append before behind,
)
Step-Balanced {w = w} (uses before bc bc' behind e) b =
    omega
      (arith, ap length e, length-append before (bc ∷ behind), length-append before (bc' ∷ behind))
Step-Balanced {w = w} (cleans healthy limits now fuel p e) b =
    let c = cleanup-Cleaned healthy limits now fuel w.pool e in
    omega (arith, c.same_held, c.same_created)
Step-Balanced {w = w} closes b = omega (arith, close-held w.pool)

start-Balanced : (now size : ℕ) → Balanced (start now size)
unfolding new_backend_pool
start-Balanced now size = refl

-- After any history of a new pool in which clients acquire, use and release connections, the worker
-- cleans up and the pool is closed, one at a time in any order: the connections created are as many
-- as those idle, lent out and closed together, mod 2 ^ 64.
pub history-Balanced :
    {E : Type 0} (now size : ℕ) {w : World} → Reach E (start now size) w → Balanced w
history-Balanced now size here = start-Balanced now size
history-Balanced now size (next r st) = Step-Balanced st (history-Balanced now size r)

hand_out-Inv :
    {E : Type 0} (p : BackendPool) (lent : List BackendConn) (r : Acquired E)
    → Inv p
    → Inv (hand_out p lent r).pool
hand_out-Inv p lent (conn bc) i = i
hand_out-Inv p lent (err e) i = i

Step-Inv : {E : Type 0} {w v : World} → Step E w v → Inv w.pool → Inv v.pool
Step-Inv {E} {w = w} (acquires healthy now later dial) i =
    hand_out-Inv (acquire healthy now later dial w.pool).0 w.lent
      (acquire healthy now later dial w.pool).1 (acquire-Inv healthy now later dial w.pool i)
Step-Inv {w = w} (releases now before bc behind e) i = release-Inv now (some bc) w.pool i
Step-Inv {w = w} (uses before bc bc' behind e) i = i
Step-Inv {w = w} (cleans healthy limits now fuel p e) i =
    (cleanup-Cleaned healthy limits now fuel w.pool e).keeps_Inv i
Step-Inv {w = w} closes i = close-Inv w.pool i

-- After any such history the idle connections are at most as many as the channel holds, each of them
-- is in no transaction and on no database, and a closed pool has none.
pub history-Inv : {E : Type 0} (now size : ℕ) {w : World} → Reach E (start now size) w → Inv w.pool
history-Inv now size here = new_backend_pool-Inv now size
history-Inv now size (next r st) = Step-Inv st (history-Inv now size r)
