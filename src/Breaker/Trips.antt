-- ===== src/Breaker/Trips.antt =====
-- When a closed breaker opens: on `max_failures` failures in a row, and on nothing less.
use transisi_db.Prelude.{
  ℕ, zero, suc, ◌+◌, ◌≤◌, ◌<◌, ◌≡◌, refl, ◌⊎◌, ◌↔◌, inl, inr, Option, none, some, List, ap, ◌∙◌, [],
  ◌∷◌, arith,
}
use transisi_db.Breaker.{
  CircuitBreaker, CircuitBreakerConfig, state_closed, state_open, after_request,
}

-- Results in the order in which they are recorded, each with the clock of its recording.
abbrev pub Outcome : Type 0 → Type 0
Outcome E = ℕ × Option E

abbrev pub IsFailure : {E : Type 0} → Outcome E → Type 0
IsFailure (now, none) = ⊥
IsFailure (now, some e) = Unit {0}

-- The next `k` results are failures.
abbrev pub StartsFailing : {E : Type 0} → ℕ → List (Outcome E) → Type 0
StartsFailing zero os = Unit {0}
StartsFailing (suc k) [] = ⊥
StartsFailing (suc k) (o ∷ os) = IsFailure o × StartsFailing k os

-- Somewhere `k` failures follow one another.
abbrev pub HasRun : {E : Type 0} → ℕ → List (Outcome E) → Type 0
HasRun {E} k [] = StartsFailing {E = E} k []
HasRun {E} k (o ∷ os) = StartsFailing k (o ∷ os) ⊎ HasRun k os

unfoldable pub record_all : {E : Type 0} → List (Outcome E) → CircuitBreaker → CircuitBreaker
record_all [] cb = cb
record_all ((now, result) ∷ os) cb = record_all os (after_request now result cb)

StartsFailing-le :
    {E : Type 0} (j k : ℕ) (os : List (Outcome E)) → j ≤ k → StartsFailing k os → StartsFailing j os
StartsFailing-le zero k os h s = tt
StartsFailing-le (suc j) zero os h s = absurd (omega arith)
StartsFailing-le (suc j) (suc k) [] h s = s
StartsFailing-le (suc j) (suc k) (o ∷ os) h s = (s.0, StartsFailing-le j k os (omega arith) s.1)

HasRun-of_start : {E : Type 0} (k : ℕ) (os : List (Outcome E)) → StartsFailing k os → HasRun k os
HasRun-of_start k [] s = s
HasRun-of_start k (o ∷ os) s = inl s

-- A result that comes in while the breaker is open does not close it.
after_request_open :
    {E : Type 0} (now : ℕ) (result : Option E) (cb : CircuitBreaker)
    → cb.state ≡ state_open
    → (after_request now result cb).state ≡ state_open
unfolding after_request
after_request_open now none cb h = ground arith
after_request_open now (some e) cb h = ground arith

record_all_open :
    {E : Type 0} (os : List (Outcome E)) (cb : CircuitBreaker)
    → cb.state ≡ state_open
    → (record_all os cb).state ≡ state_open
unfolding record_all
record_all_open [] cb h = h
record_all_open ((now, result) ∷ os) cb h =
    record_all_open os (after_request now result cb) (after_request_open now result cb h)

-- `k` more failures in a row, or `max` anywhere.
abbrev Reaches : {E : Type 0} → ℕ → ℕ → List (Outcome E) → Type 0
Reaches k max os = StartsFailing k os ⊎ HasRun max os

Reaches-fail :
    {E : Type 0} (now : ℕ) (e : E) (k max : ℕ) (os : List (Outcome E))
    → k < max
    → Reaches k max os ↔ Reaches (suc k) max ((now, some e) ∷ os)
Reaches-fail now e k zero os h = absurd (omega arith)
Reaches-fail now e k (suc max) os h = (to, from)
  where
    to : Reaches k (suc max) os → Reaches (suc k) (suc max) ((now, some e) ∷ os)
    to (inl s) = inl (tt, s)
    to (inr r) = inr (inr r)

    from : Reaches (suc k) (suc max) ((now, some e) ∷ os) → Reaches k (suc max) os
    from (inl s) = inl s.1
    from (inr (inl s)) = inl (StartsFailing-le k max os (omega arith) s.1)
    from (inr (inr r)) = inr r

Reaches-ok :
    {E : Type 0} (now k max : ℕ) (os : List (Outcome E))
    → 0 < k
    → 0 < max
    → Reaches {E = E} max max os ↔ Reaches k max ((now, none) ∷ os)
Reaches-ok now zero max os hk hm = absurd (omega arith)
Reaches-ok now (suc k) zero os hk hm = absurd (omega arith)
Reaches-ok {E} now (suc k) (suc max) os hk hm = (to, from)
  where
    to : Reaches {E = E} (suc max) (suc max) os → Reaches (suc k) (suc max) ((now, none) ∷ os)
    to (inl s) = inr (inr (HasRun-of_start (suc max) os s))
    to (inr r) = inr (inr r)

    from : Reaches {E = E} (suc k) (suc max) ((now, none) ∷ os) → Reaches (suc max) (suc max) os
    from (inl s) = absurd s.0
    from (inr (inl s)) = absurd s.0
    from (inr (inr r)) = inr r

iff_trans : {P Q R : Type 0} → P ↔ Q → Q ↔ R → P ↔ R
iff_trans e f = (λ p. f.0 (e.0 p), λ r. e.1 (f.1 r))

success_closed :
    (E : Type 0) (now : ℕ) (cb : CircuitBreaker)
    → cb.state ≡ state_closed
    → let next = after_request {E = E} now none cb in
      (next.state ≡ state_closed) × (next.failures ≡ 0) × (next.config ≡ cb.config)
unfolding after_request
success_closed E now cb s = ground arith

failure_closed :
    {E : Type 0} (now : ℕ) (e : E) (cb : CircuitBreaker)
    → cb.state ≡ state_closed
    → cb.failures + 1 < cb.config.max_failures
    → let next = after_request now (some e) cb in
      (next.state ≡ state_closed) × (next.failures ≡ cb.failures + 1) × (next.config ≡ cb.config)
unfolding after_request
failure_closed now e cb s h = ground arith

last_failure :
    {E : Type 0} (now : ℕ) (e : E) (cb : CircuitBreaker)
    → cb.state ≡ state_closed
    → cb.failures + 1 ≡ cb.config.max_failures
    → (after_request now (some e) cb).state ≡ state_open
unfolding after_request
last_failure now e cb s h = ground arith

-- A closed breaker with `k` failures to go opens exactly when they come, or a whole run does.
opens_from :
    {E : Type 0} (os : List (Outcome E)) (k max : ℕ) (cb : CircuitBreaker)
    → cb.state ≡ state_closed
    → 0 < k
    → cb.failures + k ≡ max
    → cb.config.max_failures ≡ max
    → ((record_all os cb).state ≡ state_open) ↔ Reaches k max os
unfolding record_all
opens_from {E} [] k max cb s p h c = (λ e. absurd (ground arith), nothing k p max (omega arith))
  where
    nothing :
        (k : ℕ) → 0 < k → (max : ℕ) → 0 < max → Reaches {E = E} k max [] → cb.state ≡ state_open
    nothing zero p max q r = absurd (omega arith)
    nothing (suc k) p zero q r = absurd (omega arith)
    nothing (suc k) p (suc max) q (inl r) = absurd r
    nothing (suc k) p (suc max) q (inr r) = absurd r
opens_from {E} ((now, none) ∷ os) k max cb s p h c =
    let (st, fs, cfg) = success_closed E now cb s in
    iff_trans
      (opens_from os max max (after_request {E = E} now none cb) st (omega arith) (omega arith)
        (ap (λ (x : CircuitBreakerConfig). x.max_failures) cfg ∙ c))
      (Reaches-ok now k max os p (omega arith))
opens_from ((now, some e) ∷ os) zero max cb s p h c = elim p [ ]
opens_from ((now, some e) ∷ os) (suc zero) max cb s p h c = (
  λ _. (Reaches-fail now e 0 max os (omega arith)).0 (inl tt),
  λ _. record_all_open os _ (last_failure now e cb s (omega arith)),
)
opens_from ((now, some e) ∷ os) (suc (suc k)) max cb s p h c =
    let (st, fs, cfg) = failure_closed now e cb s (omega arith) in
    iff_trans
      (opens_from os (suc k) max (after_request now (some e) cb) st (omega arith) (omega arith)
        (ap (λ (x : CircuitBreakerConfig). x.max_failures) cfg ∙ c))
      (Reaches-fail now e (suc k) max os (omega arith))

-- A closed breaker with no failures on record and a positive threshold, whatever results come in with no new admission from
-- another state, opens exactly when `max_failures` of them in a row are failures.
pub opens_exactly :
    {E : Type 0} (os : List (Outcome E)) (cb : CircuitBreaker)
    → cb.state ≡ state_closed
    → cb.failures ≡ 0
    → 0 < cb.config.max_failures
    → ((record_all os cb).state ≡ state_open) ↔ HasRun cb.config.max_failures os
opens_exactly os cb s z p =
    iff_trans
      (opens_from os cb.config.max_failures cb.config.max_failures cb s p (omega arith) refl)
      (λ r. elim r [ inl q ↦ HasRun-of_start _ os q | inr q ↦ q ], λ q. inr q)
