-- ===== src/Parser/Targets.antt =====
-- The assignments of an UPDATE, and those that the rewriting adds to it.
use transisi_db.Prelude.{
  ◌≡◌, ◌≢◌, inl, inr, refl, sym, ap, ◌∙◌, Bool, true, false, ◌||◌, Option, none, some, List, [],
  ◌∷◌, ◌++◌, arith, Option-cases, Bool-cases, Name, bytes_eq, bytes_eq-eq, bytes_eq_refl,
  if◌then◌else◌,
}
use transisi_db.Parser.{Library, TableConfig, currency_in}
use transisi_db.Parser.Rewrite.{shadow_exprs}

-- The last assignment to a column.
abbrev pub last : {E : Type 0} → Name → List (Name × E) → Option E
last c [] = none
last c ((d, e) ∷ es) = elim (last c es) [
  | some x ↦ some x
  | none ↦ if bytes_eq c d then some e else none
]

abbrev pub or_else : {E : Type 0} → Option E → Option E → Option E
or_else none b = b
or_else (some a) b = some a

pub last-append :
    {E : Type 0} (c : Name) (xs ys : List (Name × E))
    → last c (xs ++ ys) ≡ or_else (last c ys) (last c xs)
last-append c [] ys = ground arith
last-append c ((d, e) ∷ xs) ys = ground (arith, last-append c xs ys)

abbrev pub mem : Name → List Name → Bool
mem c [] = false
mem c (d ∷ ds) = bytes_eq c d || mem c ds

pub mem-currency_in :
    (table : TableConfig) (c t : Name) (cs : List Name)
    → table.columns c ≡ some t
    → mem c (currency_in table cs) ≡ mem c cs
mem-currency_in table c t [] h = refl
mem-currency_in table c t (d ∷ ds) h = elim (Option-cases (table.columns d)) [
  | inl n ↦ elim (Bool-cases (bytes_eq c d)) [
    | inl q ↦ absurd (cc (ap table.columns (bytes_eq-eq c d q), h, n))
    | inr q ↦ ground (arith, n, q, mem-currency_in table c t ds h)
  ]
  | inr (u, s) ↦ ground (arith, s, mem-currency_in table c t ds h)
]

-- No other column is stored in `t`.
abbrev pub IsTarget : TableConfig → Name → Name → Type 0
IsTarget table c t = (table.columns c ≡ some t) × ((d : Name) → table.columns d ≡ some t → d ≡ c)

module _ {E F R : Type 0} (lib : Library E F R) where
  abbrev pub floats : Option F → Option E
  floats none = none
  floats (some f) = some (lib.float_val_of f)

  module _ (table : TableConfig) (converted : Name → Option F) where
    same_column :
        (c t d u : Name)
        → IsTarget table c t
        → table.columns d ≡ some u
        → bytes_eq t u ≡ true
        → bytes_eq c d ≡ true
    same_column c t d u h s q =
        let same : d ≡ c = h.1 d (s ∙ ap some (sym (bytes_eq-eq t u q))) in
        ap (bytes_eq c) same ∙ bytes_eq_refl c

    same_target :
        (c t d u : Name)
        → IsTarget table c t
        → table.columns d ≡ some u
        → bytes_eq c d ≡ true
        → (converted d ≡ converted c) × (bytes_eq t u ≡ true)
    same_target c t d u h s q =
        let same = bytes_eq-eq c d q in
        let target : t ≡ u = cc (sym (h.0) ∙ ap table.columns same ∙ s) in
        (ap converted (sym same), ap (bytes_eq t) (sym target) ∙ bytes_eq_refl t)

    configured_column :
        (c t d : Name) → IsTarget table c t → table.columns d ≡ none → bytes_eq c d ≡ false
    configured_column c t d h n = elim (Bool-cases (bytes_eq c d)) [
      | inl q ↦ absurd (cc (ap table.columns (bytes_eq-eq c d q), h.0, n))
      | inr q ↦ q
    ]

    pub shadow_exprs-last :
        (c t : Name) (cs : List Name)
        → IsTarget table c t
        → last t (shadow_exprs lib table converted cs)
          ≡ (if mem c cs then floats (converted c) else none)
    shadow_exprs-last c t [] h = refl
    shadow_exprs-last c t (d ∷ ds) h = elim (Option-cases (table.columns d)) [
      | inl n ↦
          let other = configured_column c t d h n in
          ground (arith, n, other, shadow_exprs-last c t ds h)
      | inr (u, s) ↦
          let differs = same_column c t d u h s in
          elim (Bool-cases (bytes_eq c d)) [
            | inl q ↦
                let (same, target) = same_target c t d u h s q in
                ground (arith, s, q, same, target, shadow_exprs-last c t ds h)
            | inr q ↦ ground (arith, s, q, differs, shadow_exprs-last c t ds h)
          ]
    ]

    -- A column that is no target is not assigned.
    pub shadow_exprs-other :
        (k : Name) (cs : List Name)
        → ((d : Name) → table.columns d ≢ some k)
        → last k (shadow_exprs lib table converted cs) ≡ none
    shadow_exprs-other k [] h = refl
    shadow_exprs-other k (d ∷ ds) h = elim (Option-cases (table.columns d)) [
      | inl n ↦ ground (arith, n, shadow_exprs-other k ds h)
      | inr (u, s) ↦ elim (Bool-cases (bytes_eq k u)) [
        | inl q ↦ absurd (h d (s ∙ ap some (sym (bytes_eq-eq k u q))))
        | inr q ↦ ground (arith, s, q, shadow_exprs-other k ds h)
      ]
    ]
