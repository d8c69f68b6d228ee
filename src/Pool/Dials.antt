-- ===== src/Pool/Dials.antt =====
-- `Acquire` on a pool without an idle connection.
use transisi_db.Prelude.{
  ℕ, ◌+◌, ◌≡◌, refl, Bool, if-cases, false, Option, none, some, List, [], ◌∷◌, arith,
}
use transisi_db.Breaker.{CircuitBreaker, CallError, breaker_open, inner, call, u64}
use transisi_db.Pool.{
  BackendConn, BackendPool, Acquired, conn, err, created, create_connection, take_or_create,
  acquire,
}
use transisi_db.Pool.Laws.{IsClean}

-- One more connection, of an open pool, and that it is new, or none.
abbrev pub Counted : {E : Type 0} → BackendPool → BackendPool × Acquired E → Type 0
Counted p (q, conn bc) =
    (p.closed ≡ false) × (q.total_created ≡ u64 (p.total_created + 1)) × IsClean bc
Counted p (q, err e) = q.total_created ≡ p.total_created

-- What such an `acquire` may give, and the fields that it leaves alone.
pub record Dialed {E : Type 0} (p : BackendPool) (r : BackendPool × Acquired E) : Type 0 where
  pub none_idle : r.0.connections ≡ []
  pub same_acquired : r.0.total_acquired ≡ p.total_acquired
  pub same_released : r.0.total_released ≡ p.total_released
  pub same_closed : r.0.closed ≡ p.closed
  pub counted : Counted p r

created-Dialed :
    {E : Type 0} (now : ℕ) (p : BackendPool) (r : Option (CallError E))
    → p.connections ≡ []
    → p.closed ≡ false
    → Dialed p (created now p r)
unfolding created
created-Dialed now p none i c = record {
  none_idle = i;
  same_acquired = refl;
  same_released = refl;
  same_closed = refl;
  counted = (c, refl, record { no_transaction = refl; no_database = refl });
}
created-Dialed now p (some breaker_open) i c = record {
  none_idle = i;
  same_acquired = refl;
  same_released = refl;
  same_closed = refl;
  counted = refl;
}
created-Dialed now p (some (inner e)) i c = record {
  none_idle = i;
  same_acquired = refl;
  same_released = refl;
  same_closed = refl;
  counted = refl;
}

-- The breaker of the pool does not matter.
redialed :
    {E : Type 0} (p : BackendPool) (breaker : CircuitBreaker) (r : BackendPool × Acquired E)
    → Dialed (record p { circuit_breaker = breaker }) r
    → Dialed p r
redialed p breaker (q, conn bc) d = record {
  none_idle = d.none_idle;
  same_acquired = d.same_acquired;
  same_released = d.same_released;
  same_closed = d.same_closed;
  counted = d.counted;
}
redialed p breaker (q, err e) d = record {
  none_idle = d.none_idle;
  same_acquired = d.same_acquired;
  same_released = d.same_released;
  same_closed = d.same_closed;
  counted = d.counted;
}

create_connection-Dialed :
    {E : Type 0} (now later : ℕ) (dial : Option E) (p : BackendPool)
    → p.connections ≡ []
    → p.closed ≡ false
    → Dialed p (create_connection now later dial p)
unfolding create_connection
create_connection-Dialed now later dial p i c =
    let r = call now later dial p.circuit_breaker in
    redialed p _ _ (created-Dialed later (record p { circuit_breaker = r.0 }) r.1 i c)

take_or_create-Dialed :
    {E : Type 0} (healthy : BackendConn → Bool) (now later : ℕ) (dial : Option E)
    (bcs : List BackendConn) (p : BackendPool)
    → bcs ≡ []
    → p.connections ≡ bcs
    → p.closed ≡ false
    → Dialed p (take_or_create healthy now later dial bcs p)
unfolding take_or_create
take_or_create-Dialed healthy now later dial [] p e i c =
    create_connection-Dialed now later dial p i c
take_or_create-Dialed healthy now later dial (bc ∷ bcs) p e i c = absurd (ground arith)

pub acquire-Dialed :
    {E : Type 0} (healthy : BackendConn → Bool) (now later : ℕ) (dial : Option E) (p : BackendPool)
    → p.connections ≡ []
    → Dialed p (acquire healthy now later dial p)
unfolding acquire
acquire-Dialed healthy now later dial p i =
    if-cases (Dialed p) p.closed _ _
      (λ c. record {
        none_idle = i;
        same_acquired = refl;
        same_released = refl;
        same_closed = refl;
        counted = refl;
      })
      (λ c. take_or_create-Dialed healthy now later dial p.connections p i refl c)
