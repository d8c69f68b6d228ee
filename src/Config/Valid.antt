-- ===== src/Config/Valid.antt =====
-- Which configurations `Validate` accepts, said without its order of tests.
use transisi_db.Prelude.{
  ℕ, zero, suc, ◌≤◌, ◌≡◌, ◌≢◌, ◌↔◌, ◌⊎◌, refl, inl, inr, none, [], ◌∷◌, true, false, Bool-cases, ℤ,
  pos, negsuc, Name, bytes_eq, bytes_eq-eq, arith,
}
use transisi_db.Config.{
  Config, is_empty, is_zero, not_positive, outside, bankers_round, arithmetic_round, valid_strategy,
  validate,
}

pub record IsValid (c : Config) : Type 0 where
  pub host : c.database.host ≢ []
  pub port : c.database.port ≢ pos 0
  pub proxy_port : c.proxy.port ≢ pos 0
  pub ratio : (n : ℕ) × (c.conversion.ratio ≡ pos (suc n))
  pub precision : (n : ℕ) × (c.conversion.precision ≡ pos n) × (n ≤ 10)
  pub strategy :
      (c.conversion.rounding_strategy ≡ bankers_round)
      ⊎ (c.conversion.rounding_strategy ≡ arithmetic_round)

is_empty_iff : (s : Name) → (is_empty s ≡ false) ↔ (s ≢ [])
is_empty_iff [] = (λ h. cc, λ h. absurd (h refl))
is_empty_iff (c ∷ cs) = (λ h q. cc, λ h. refl)

is_zero_iff : (n : ℤ) → (is_zero n ≡ false) ↔ (n ≢ pos 0)
is_zero_iff (pos n) = ground arith
is_zero_iff (negsuc n) = (λ h q. cc, λ h. refl)

not_positive_iff : (n : ℤ) → (not_positive n ≡ false) ↔ ((k : ℕ) × (n ≡ pos (suc k)))
not_positive_iff (pos zero) = (λ h. cc, λ (k, e). cc)
not_positive_iff (pos (suc n)) = (λ h. (n, refl), λ h. refl)
not_positive_iff (negsuc n) = (λ h. cc, λ (k, e). cc)

outside_iff : (n : ℤ) → (outside 10 n ≡ false) ↔ ((k : ℕ) × (n ≡ pos k) × (k ≤ 10))
outside_iff (pos n) = (λ h. (n, refl, ground arith), λ (k, e, l). ground arith)
outside_iff (negsuc n) = (λ h. cc, λ (k, e, l). cc)

strategy_iff :
    (s : Name) → (valid_strategy s ≡ true) ↔ ((s ≡ bankers_round) ⊎ (s ≡ arithmetic_round))
strategy_iff s = (
  λ h. elim (Bool-cases (bytes_eq s bankers_round)) [
    | inl q ↦ inl (bytes_eq-eq s bankers_round q)
    | inr q ↦ inr (bytes_eq-eq s arithmetic_round (ground arith))
  ],
  λ h. elim h [ inl q ↦ rw q refl | inr q ↦ rw q refl ],
)

abbrev Passes : Config → Type 0
Passes c =
    (is_empty c.database.host ≡ false)
    × (is_zero c.database.port ≡ false)
    × (is_zero c.proxy.port ≡ false)
    × (not_positive c.conversion.ratio ≡ false)
    × (outside 10 c.conversion.precision ≡ false)
    × (valid_strategy c.conversion.rounding_strategy ≡ true)

validate-Passes : (c : Config) → (validate c ≡ none) ↔ Passes c
unfolding validate
validate-Passes c = (
  λ h. (ground arith, ground arith, ground arith, ground arith, ground arith, ground arith),
  λ (host, port, proxy, ratio, precision, strategy). ground arith,
)

-- `Validate` returns nil exactly for a valid configuration.
pub validate_iff : (c : Config) → (validate c ≡ none) ↔ IsValid c
validate_iff c =
    let (to, from) = validate-Passes c in
    (
      λ h.
          let (host, port, proxy, ratio, precision, strategy) = to h in
          record {
            host = (is_empty_iff c.database.host).0 host;
            port = (is_zero_iff c.database.port).0 port;
            proxy_port = (is_zero_iff c.proxy.port).0 proxy;
            ratio = (not_positive_iff c.conversion.ratio).0 ratio;
            precision = (outside_iff c.conversion.precision).0 precision;
            strategy = (strategy_iff c.conversion.rounding_strategy).0 strategy;
          },
      λ v. from (
        (is_empty_iff c.database.host).1 v.host,
        (is_zero_iff c.database.port).1 v.port,
        (is_zero_iff c.proxy.port).1 v.proxy_port,
        (not_positive_iff c.conversion.ratio).1 v.ratio,
        (outside_iff c.conversion.precision).1 v.precision,
        (strategy_iff c.conversion.rounding_strategy).1 v.strategy,
      ),
    )
