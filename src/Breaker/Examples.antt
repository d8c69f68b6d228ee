-- ===== src/Breaker/Examples.antt =====
-- Runs of the breaker, and its theorems at concrete inputs.
use Prim.Native.Nat.{ℕ}
use transisi_db.Prelude.{◌≡◌, refl, ◌↔◌, none, some, List, [], ◌∷◌, arith}
use transisi_db.Breaker.{
  CircuitBreaker, state_open, state_half_open, default_circuit_breaker_config, new_circuit_breaker,
  after_request,
}
use transisi_db.Breaker.Laws.{Blocked, cooling, used_up}
use transisi_db.Breaker.Trips.{Outcome, HasRun, record_all, opens_exactly}
use transisi_db.Breaker.HalfOpen.{burst, half_open_admits}

-- The error of a connection that is lost.
abbrev lost : ℕ
lost = 7

abbrev fresh : CircuitBreaker
fresh = new_circuit_breaker 0 default_circuit_breaker_config

abbrev five_failures : List (Outcome ℕ)
five_failures =
    (1, none)
    ∷ (2, some lost)
    ∷ (3, some lost)
    ∷ (4, some lost)
    ∷ (5, some lost)
    ∷ (6, some lost)
    ∷ []

abbrev tripped : CircuitBreaker
tripped = record_all five_failures fresh

-- The default configuration opens on the fifth failure in a row.
tripped_open : tripped.state ≡ state_open
unfolding record_all after_request new_circuit_breaker
tripped_open = refl

opens_exactly_example : (tripped.state ≡ state_open) ↔ HasRun 5 five_failures
unfolding new_circuit_breaker
opens_exactly_example = opens_exactly five_failures fresh refl refl (omega arith)

tripped-Blocked : Blocked 9 tripped
unfolding record_all after_request new_circuit_breaker
tripped-Blocked = cooling refl (omega arith)

fresh-not_Blocked : ¬ Blocked 3 fresh
unfolding new_circuit_breaker
fresh-not_Blocked (cooling s t) = cc
fresh-not_Blocked (used_up s t) = cc

-- 31 seconds later.
abbrev later : ℕ
later = 31_000_000_000

half_open_admits_example :
    ((burst (later ∷ later ∷ later ∷ later ∷ later ∷ later ∷ []) tripped).0 ≡ 4)
    × ((burst (later ∷ later ∷ later ∷ later ∷ later ∷ later ∷ []) tripped).1.state
        ≡ state_half_open)
unfolding record_all after_request new_circuit_breaker
half_open_admits_example =
    half_open_admits later (later ∷ later ∷ later ∷ later ∷ later ∷ []) tripped (refl, omega arith)
