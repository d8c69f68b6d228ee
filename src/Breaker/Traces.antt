-- ===== src/Breaker/Traces.antt =====
-- Many goroutines share the breaker: any interleaving of their `beforeRequest`, `afterRequest` and
-- `Reset`, each of which runs under the mutex.
use transisi_db.Prelude.{ℕ, zero, suc, ◌+◌, ◌≤◌, ◌<◌, ◌≡◌, Option, none, some, arith, if◌then◌else◌}
use transisi_db.Breaker.{
  CircuitBreaker, CircuitBreakerConfig, new_circuit_breaker, before_request, after_request, reset,
  u64,
}
use transisi_db.Breaker.Laws.{
  Inv, new_circuit_breaker-Inv, before_request-Inv, after_request-Inv, reset-Inv,
}

-- The breaker and the number of guarded functions that run at the moment.
pub record System : Type 0 where
  pub breaker : CircuitBreaker
  pub under_way : ℕ

abbrev pub start : ℕ → CircuitBreakerConfig → System
start now config = record { breaker = new_circuit_breaker now config; under_way = 0 }

abbrev pub begin : ℕ → System → System
begin now s =
    let (cb, ok) = before_request now s.breaker in
    record { breaker = cb; under_way = if ok then s.under_way + 1 else s.under_way }

pub data Step (E : Type 0) (s : System) : System → Type 0 where
  begins : (now : ℕ) → Step E s (begin now s)
  ends :
      (now : ℕ) (result : Option E) (n : ℕ)
      → s.under_way ≡ suc n
      → Step E s (record { breaker = after_request now result s.breaker; under_way = n })
  resets : (now : ℕ) → Step E s (record { breaker = reset now s.breaker; under_way = s.under_way })

-- A history of `n` steps.
pub data Reach (E : Type 0) (s : System) : ℕ → System → Type 0 where
  here : Reach E s zero s
  next : {n : ℕ} {t u : System} → Reach E s n t → Step E t u → Reach E s (suc n) u

-- Every request is refused, running, or counted once as a success or a failure.
abbrev pub Balanced : System → Type 0
Balanced s =
    s.breaker.total_requests
    ≡ u64 (
        s.breaker.total_successes + s.breaker.total_failures + s.breaker.total_rejections
        + s.under_way)

before_request_counts :
    (now : ℕ) (s : System)
    → Balanced s
    → Balanced (begin now s) × ((begin now s).breaker.failures ≤ s.breaker.failures)
unfolding before_request
before_request_counts now s b = ground arith

after_request_counts :
    {E : Type 0} (now : ℕ) (result : Option E) (s : System) (n : ℕ)
    → s.under_way ≡ suc n
    → Balanced s
    → Balanced (record { breaker = after_request now result s.breaker; under_way = n })
      × ((after_request now result s.breaker).failures ≤ s.breaker.failures + 1)
unfolding after_request
after_request_counts now none s n h b = ground arith
after_request_counts now (some e) s n h b = ground arith

pub record Sound (n : ℕ) (s : System) : Type 0 where
  pub inv : Inv s.breaker
  pub balanced : Balanced s
  pub counted : s.breaker.failures ≤ n

reset_counts :
    (now : ℕ) (s : System)
    → Balanced s
    → Balanced (record { breaker = reset now s.breaker; under_way = s.under_way })
      × ((reset now s.breaker).failures ≡ 0)
unfolding reset
reset_counts now s b = ground arith

Step-Sound : {E : Type 0} {n : ℕ} {s t : System} → Step E s t → Sound n s → Sound (suc n) t
Step-Sound {s = s} (begins now) v =
    let (b, f) = before_request_counts now s v.balanced in
    record {
      inv = before_request-Inv now s.breaker v.inv;
      balanced = b;
      counted = omega (arith, v.counted);
    }
Step-Sound {s = s} (ends now result n h) v =
    let (b, f) = after_request_counts now result s n h v.balanced in
    record {
      inv = after_request-Inv now result s.breaker v.inv;
      balanced = b;
      counted = omega (arith, v.counted);
    }
Step-Sound {s = s} (resets now) v =
    let (b, f) = reset_counts now s v.balanced in
    record { inv = reset-Inv now s.breaker v.inv; balanced = b; counted = omega arith }

start-Sound :
    (now : ℕ) (config : CircuitBreakerConfig) → 0 < config.max_failures → Sound 0 (start now config)
unfolding new_circuit_breaker
start-Sound now config h = record {
  inv = new_circuit_breaker-Inv now config h;
  balanced = ground arith;
  counted = omega arith;
}

-- After any interleaving of `n` steps of a new breaker with a positive threshold: while it is closed
-- its failures are below the threshold, the half-open slots in use are at most `max_requests`, every
-- request is accounted for (mod 2 ^ 64), and the failure count is at most `n`.
pub history-Sound :
    {E : Type 0} (now : ℕ) (config : CircuitBreakerConfig) {n : ℕ} {s : System}
    → 0 < config.max_failures
    → Reach E (start now config) n s
    → Sound n s
history-Sound now config h here = start-Sound now config h
history-Sound now config h (next r st) = Step-Sound st (history-Sound now config h r)
