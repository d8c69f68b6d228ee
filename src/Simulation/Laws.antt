-- ===== src/Simulation/Laws.antt =====
-- Who is simulated, and what a simulated answer holds.
use transisi_db.Prelude.{
  ◌≡◌, ◌↔◌, ◌⊎◌, inl, inr, refl, sym, subst, Bool, true, false, not, ◌||◌, List, [], ◌∷◌, Name,
  bytes_eq, bytes_eq-eq, bytes_eq_refl, arith, if◌then◌else◌,
}
use transisi_db.Config.{Config}
use transisi_db.Simulation.{simulate_idn, any_address, allows, address_allowed, should_simulate}

-- A name of the list.
abbrev pub IsListed : Name → List Name → Type 0
IsListed ip [] = ⊥
IsListed ip (jp ∷ ips) = (ip ≡ jp) ⊎ IsListed ip ips

either :
    (b c d : Bool)
    → ((if b || c then true else d) ≡ true) ↔ ((b ≡ true) ⊎ ((c ≡ true) ⊎ (d ≡ true)))
either b c d = ground arith

allows-IsListed :
    (ip : Name) (ips : List Name)
    → allows ip ips ≡ true
    → IsListed ip ips ⊎ IsListed any_address ips
allows-IsListed ip [] h = absurd (ground arith)
allows-IsListed ip (jp ∷ ips) h =
    elim ((either (bytes_eq ip jp) (bytes_eq jp any_address) (allows ip ips)).0 h) [
      | inl e ↦ inl (inl (bytes_eq-eq ip jp e))
      | inr (inl e) ↦ inr (inl (sym (bytes_eq-eq jp any_address e)))
      | inr (inr e) ↦ elim (allows-IsListed ip ips e) [ inl a ↦ inl (inr a) | inr b ↦ inr (inr b) ]
    ]

IsListed-allows :
    (ip : Name) (ips : List Name)
    → IsListed ip ips ⊎ IsListed any_address ips
    → allows ip ips ≡ true
IsListed-allows ip [] (inl h) = absurd h
IsListed-allows ip [] (inr h) = absurd h
IsListed-allows ip (jp ∷ ips) h =
    (either (bytes_eq ip jp) (bytes_eq jp any_address) (allows ip ips)).1 (elim h [
      | inl (inl e) ↦ inl (subst (λ x. bytes_eq ip x ≡ true) e (bytes_eq_refl ip))
      | inl (inr a) ↦ inr (inr (IsListed-allows ip ips (inl a)))
      | inr (inl e) ↦
          inr (inl (subst (λ x. bytes_eq x any_address ≡ true) e (bytes_eq_refl any_address)))
      | inr (inr b) ↦ inr (inr (IsListed-allows ip ips (inr b)))
    ])

-- No address is named, this one is, or the entry for all of them is.
abbrev pub IsAllowed : Name → List Name → Type 0
IsAllowed ip ips = (ips ≡ []) ⊎ (IsListed ip ips ⊎ IsListed any_address ips)

address_allowed_iff :
    (ip : Name) (ips : List Name) → (address_allowed ip ips ≡ true) ↔ IsAllowed ip ips
address_allowed_iff ip [] = (λ _. inl refl, λ _. refl)
address_allowed_iff ip (jp ∷ ips) = (
  λ h. inr (allows-IsListed ip (jp ∷ ips) h),
  λ a. elim a [ inl e ↦ absurd (ground arith) | inr b ↦ IsListed-allows ip (jp ∷ ips) b ],
)

guarded :
    (b c d : Bool)
    → ((if not b then false else if not c then false else d) ≡ true)
      ↔ ((b ≡ true) × (c ≡ true) × (d ≡ true))
guarded b c d = ground arith

-- A request is simulated exactly when the mode is on, the header is SIMULATE_IDN, and the list of
-- allowed addresses is empty, names the client, or has the entry 0.0.0.0/0.
pub should_simulate_iff :
    (c : Config) (header client_ip : Name)
    → (should_simulate c header client_ip ≡ true) ↔ (
        (c.simulation.enabled ≡ true)
        × (header ≡ simulate_idn)
        × IsAllowed client_ip c.simulation.allowed_ips)
unfolding should_simulate
should_simulate_iff c header ip =
    let g =
      guarded c.simulation.enabled (bytes_eq header simulate_idn)
        (address_allowed ip c.simulation.allowed_ips) in
    let a = address_allowed_iff ip c.simulation.allowed_ips in
    (
      λ h. let (on, same, ok) = g.0 h in (on, bytes_eq-eq header simulate_idn same, a.0 ok),
      λ (on, same, ok). g.1 (
        on,
        subst (λ x. bytes_eq x simulate_idn ≡ true) (sym same) (bytes_eq_refl simulate_idn),
        a.1 ok,
      ),
    )
