-- ===== src/Breaker/HalfOpen.antt =====
-- The way back from an open breaker: how many requests the half-open state lets through, and when
-- it closes.
use transisi_db.Prelude.{
  ℕ, zero, suc, ◌+◌, ◌-◌, ◌≤◌, ◌<◌, ◌≡◌, refl, true, false, none, List, [], ◌∷◌, arith,
  if◌then◌else◌, length, min, ltb,
}
use transisi_db.Breaker.{
  CircuitBreaker, state_closed, state_open, state_half_open, before_request, on_success, call,
}

-- The number of the requests arriving at the given times that are let through, none of them
-- finishing meanwhile, and the breaker after them.
unfoldable pub burst : List ℕ → CircuitBreaker → ℕ × CircuitBreaker
burst [] cb = (0, cb)
burst (now ∷ times) cb =
    let (cb', ok) = before_request now cb in
    let (n, last) = burst times cb' in (if ok then suc n else n, last)

-- The clock has passed the timeout.
abbrev pub Recovered : ℕ → CircuitBreaker → Type 0
Recovered now cb = (cb.state ≡ state_open) × (cb.config.timeout < now - cb.last_failure_time)

take_slot :
    (now : ℕ) (cb : CircuitBreaker)
    → cb.state ≡ state_half_open
    → cb.half_open_requests < cb.config.max_requests
    → let r = before_request now cb in
      (r.1 ≡ true)
      × (r.0.state ≡ state_half_open)
      × (r.0.half_open_requests ≡ cb.half_open_requests + 1)
      × (r.0.config.max_requests ≡ cb.config.max_requests)
unfolding before_request
take_slot now cb s h = ground arith

no_slot :
    (now : ℕ) (cb : CircuitBreaker)
    → cb.state ≡ state_half_open
    → cb.config.max_requests ≤ cb.half_open_requests
    → let r = before_request now cb in
      (r.1 ≡ false)
      × (r.0.state ≡ state_half_open)
      × (r.0.half_open_requests ≡ cb.half_open_requests)
      × (r.0.config.max_requests ≡ cb.config.max_requests)
unfolding before_request
no_slot now cb s h = ground arith

first_probe :
    (now : ℕ) (cb : CircuitBreaker)
    → Recovered now cb
    → let r = before_request now cb in
      (r.1 ≡ true)
      × (r.0.state ≡ state_half_open)
      × (r.0.half_open_requests ≡ 0)
      × (r.0.config.max_requests ≡ cb.config.max_requests)
unfolding before_request
first_probe now cb r = ground arith

burst_slots :
    (times : List ℕ) (free : ℕ) (cb : CircuitBreaker)
    → cb.state ≡ state_half_open
    → cb.half_open_requests + free ≡ cb.config.max_requests
    → ((burst times cb).0 ≡ min free (length times))
      × ((burst times cb).1.state ≡ state_half_open)
      × ((burst times cb).1.half_open_requests ≡ cb.half_open_requests + (burst times cb).0)
      × ((burst times cb).1.config.max_requests ≡ cb.config.max_requests)
unfolding burst
burst_slots [] free cb s h = (omega arith, s, omega arith, refl)
burst_slots (now ∷ times) zero cb s h =
    let cb' = (before_request now cb).0 in
    ground (arith, no_slot now cb, burst_slots times zero cb')
burst_slots (now ∷ times) (suc free) cb s h =
    let cb' = (before_request now cb).0 in
    ground (arith, take_slot now cb, burst_slots times free cb')

-- Of the requests that arrive after the timeout, the first among them the one that moves the breaker
-- to half-open, `max_requests + 1` are let through and the others refused; the breaker is half-open
-- after them.
pub half_open_admits :
    (now : ℕ) (times : List ℕ) (cb : CircuitBreaker)
    → Recovered now cb
    → ((burst (now ∷ times) cb).0 ≡ min (cb.config.max_requests + 1) (length (now ∷ times)))
      × ((burst (now ∷ times) cb).1.state ≡ state_half_open)
unfolding burst
half_open_admits now times cb r =
    ground (
      arith,
      first_probe now cb,
      burst_slots times cb.config.max_requests (before_request now cb).0,
    )

-- When every slot is taken and no request has finished yet, the first success closes the breaker,
-- though the other `max_requests` requests are still under way.
pub first_success_closes :
    (now later : ℕ) (times : List ℕ) (cb : CircuitBreaker)
    → Recovered now cb
    → cb.config.max_requests ≤ length times
    → let r = burst (now ∷ times) cb in
      (r.0 ≡ cb.config.max_requests + 1)
      × ((on_success later r.1).state ≡ state_closed)
      × ((on_success later r.1).failures ≡ 0)
unfolding burst on_success
first_success_closes now later times cb r h =
    ground (
      arith,
      first_probe now cb,
      burst_slots times cb.config.max_requests (before_request now cb).0,
    )

-- Calls one after another, each of which succeeds; the clock at the start and end of each.
unfoldable pub successes : List (ℕ × ℕ) → CircuitBreaker → CircuitBreaker
successes [] cb = cb
successes ((now, later) ∷ times) cb = successes times (call {E = Unit {0}} now later none cb).0

success_call :
    (now later free : ℕ) (cb : CircuitBreaker)
    → cb.state ≡ state_half_open
    → cb.half_open_requests + suc (suc free) ≡ cb.config.max_requests
    → let next = (call {E = Unit {0}} now later none cb).0 in
      (next.state ≡ state_half_open)
      × (next.half_open_requests + suc free ≡ next.config.max_requests)
unfolding call
success_call now later free cb s h = ground arith

last_success_call :
    (now later : ℕ) (cb : CircuitBreaker)
    → cb.state ≡ state_half_open
    → cb.half_open_requests + 1 ≡ cb.config.max_requests
    → let next = (call {E = Unit {0}} now later none cb).0 in
      (next.state ≡ state_closed) × (next.failures ≡ 0)
unfolding call
last_success_call now later cb s h = ground arith

closed_stays :
    (times : List (ℕ × ℕ)) (cb : CircuitBreaker)
    → cb.state ≡ state_closed
    → cb.failures ≡ 0
    → ((successes times cb).state ≡ state_closed) × ((successes times cb).failures ≡ 0)
unfolding successes call
closed_stays [] cb s f = (s, f)
closed_stays ((now, later) ∷ times) cb s f =
    closed_stays times (call {E = Unit {0}} now later none cb).0 (ground arith) (ground arith)

successes_slots :
    (times : List (ℕ × ℕ)) (free : ℕ) (cb : CircuitBreaker)
    → cb.state ≡ state_half_open
    → cb.half_open_requests + suc free ≡ cb.config.max_requests
    → (length times ≤ free → (successes times cb).state ≡ state_half_open)
      × (free < length times
          → ((successes times cb).state ≡ state_closed) × ((successes times cb).failures ≡ 0))
unfolding successes
successes_slots [] free cb s h = (λ _. s, λ lt. absurd (omega arith))
successes_slots ((now, later) ∷ times) zero cb s h =
    let (st, fs) = last_success_call now later cb s (omega arith) in
    (λ lt. absurd (omega arith), λ _. closed_stays times _ st fs)
successes_slots ((now, later) ∷ times) (suc free) cb s h =
    let (st, slots) = success_call now later free cb s (omega arith) in
    let (few, enough) = successes_slots times free _ st slots in
    (λ le. few (omega arith), λ lt. enough (omega arith))

first_success :
    (now later max : ℕ) (cb : CircuitBreaker)
    → Recovered now cb
    → cb.config.max_requests ≡ suc max
    → let next = (call {E = Unit {0}} now later none cb).0 in
      (next.state ≡ state_half_open)
      × (next.half_open_requests + suc max ≡ next.config.max_requests)
unfolding call
first_success now later max cb r h = ground arith

-- After the timeout, calls that succeed one after another bring an open breaker back: up to
-- `max_requests` of them, if that is positive, leave it half-open, more close it.
pub recovers :
    (now later max : ℕ) (times : List (ℕ × ℕ)) (cb : CircuitBreaker)
    → Recovered now cb
    → cb.config.max_requests ≡ suc max
    → (successes ((now, later) ∷ times) cb).state
      ≡ (if ltb (length times) cb.config.max_requests then state_half_open else state_closed)
unfolding successes
recovers now later max times cb r h =
    let next = (call {E = Unit {0}} now later none cb).0 in
    let (st, slots) = first_success now later max cb r h in
    ground (arith, successes_slots times max next st slots)
