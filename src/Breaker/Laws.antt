-- ===== src/Breaker/Laws.antt =====
-- What holds of the breaker between two methods, and when it refuses a request.
use transisi_db.Prelude.{
  ℕ, ◌+◌, ◌-◌, ◌≤◌, ◌<◌, ◌≡◌, ◌↔◌, inl, inr, false, Option, none, some, arith, Bool-cases,
}
use mathlib.Core.Option
use transisi_db.Breaker.{
  CircuitBreaker, CircuitBreakerConfig, state_closed, state_open, state_half_open,
  new_circuit_breaker, before_request, after_request, reset, call, inner, breaker_open, u64,
}

-- While closed the failures stay below the threshold; the half-open slots are never overdrawn.
pub record Inv (cb : CircuitBreaker) : Type 0 where
  pub threshold : 0 < cb.config.max_failures
  pub below : cb.state ≡ state_closed → cb.failures < cb.config.max_failures
  pub slots : cb.half_open_requests ≤ cb.config.max_requests

pub new_circuit_breaker-Inv :
    (now : ℕ) (config : CircuitBreakerConfig)
    → 0 < config.max_failures
    → Inv (new_circuit_breaker now config)
unfolding new_circuit_breaker
new_circuit_breaker-Inv now config h = ground arith

pub before_request-Inv : (now : ℕ) (cb : CircuitBreaker) → Inv cb → Inv (before_request now cb).0
unfolding before_request
before_request-Inv now cb v = ground arith

pub after_request-Inv :
    {E : Type 0} (now : ℕ) (result : Option E) (cb : CircuitBreaker)
    → Inv cb
    → Inv (after_request now result cb)
unfolding after_request
after_request-Inv now none cb v = ground arith
after_request-Inv now (some e) cb v = ground arith

pub reset-Inv : (now : ℕ) (cb : CircuitBreaker) → Inv cb → Inv (reset now cb)
unfolding reset
reset-Inv now cb v = ground arith

-- The breaker is in a state in which it lets nobody through.
pub data Blocked (now : ℕ) (cb : CircuitBreaker) : Type 0 where
  cooling : cb.state ≡ state_open → now - cb.last_failure_time ≤ cb.config.timeout → Blocked now cb
  used_up :
      cb.state ≡ state_half_open → cb.config.max_requests ≤ cb.half_open_requests → Blocked now cb

Blocked-of_refused :
    (now : ℕ) (cb : CircuitBreaker) → (before_request now cb).1 ≡ false → Blocked now cb
unfolding before_request
Blocked-of_refused now cb h = grind (arith, cooling, used_up)

refused_of_Blocked :
    (now : ℕ) (cb : CircuitBreaker) → Blocked now cb → (before_request now cb).1 ≡ false
unfolding before_request
refused_of_Blocked now cb (cooling s t) = ground arith
refused_of_Blocked now cb (used_up s t) = ground arith

-- A refused call does not run the function: it returns the breaker's error, and the only changes are
-- the counts of requests and of rejections.
pub refused_call :
    {E : Type 0} (now later : ℕ) (result : Option E) (cb : CircuitBreaker)
    → Blocked now cb
    → call now later result cb ≡ (
      record cb {
        total_requests = u64 (cb.total_requests + 1);
        total_rejections = u64 (cb.total_rejections + 1);
      },
      some breaker_open,
    )
unfolding call
refused_call now later result cb (cooling s t) = ground arith
refused_call now later result cb (used_up s t) = ground arith

-- A call is refused exactly when the breaker is cooling down or its half-open slots are used up.
pub refuses_exactly :
    (now : ℕ) (cb : CircuitBreaker) → ((before_request now cb).1 ≡ false) ↔ Blocked now cb
refuses_exactly now cb = (Blocked-of_refused now cb, refused_of_Blocked now cb)

-- A call that is not refused runs the function and hands on its result.
pub admitted_call :
    {E : Type 0} (now later : ℕ) (result : Option E) (cb : CircuitBreaker)
    → ¬ Blocked now cb
    → call now later result cb
      ≡ (after_request later result (before_request now cb).0, Option.map inner result)
unfolding call
admitted_call now later none cb h = elim (Bool-cases (before_request now cb).1) [
  | inl e ↦ ground arith
  | inr e ↦ absurd (h (Blocked-of_refused now cb e))
]
admitted_call now later (some x) cb h = elim (Bool-cases (before_request now cb).1) [
  | inl e ↦ ground arith
  | inr e ↦ absurd (h (Blocked-of_refused now cb e))
]
