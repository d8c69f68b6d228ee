-- ===== src/Backfill/Table/Rows.antt =====
-- What an update of a pending row does to the table.
use transisi_db.Prelude.{
  ℕ, ◌+◌, ◌≡◌, ◌≢◌, inl, inr, refl, sym, ap, ◌∙◌, subst, Option, none, some, List, [], ◌∷◌, map,
  All, ℤ, ◌==◌, arith, if-cases, ==_iff, Option-cases,
}
use mathlib.Core.Path.{ap₂}
use transisi_db.Backfill.Table.{Row, pending, set_shadow, Among, IsKeyed}

module _ {F : Type 0} where
  set_shadow_same :
      (k : ℕ) (f : F) (r : Row F) → r.id ≡ k → set_shadow k f r ≡ record r { shadow = some f }
  set_shadow_same k f r e =
      if-cases (λ q. q ≡ record r { shadow = some f }) (r.id == k) _ _ (λ _. refl)
        (λ n. absurd (ground (arith, ==_iff r.id k, e)))

  set_shadow_other : (k : ℕ) (f : F) (r : Row F) → r.id ≢ k → set_shadow k f r ≡ r
  set_shadow_other k f r ne =
      if-cases (λ q. q ≡ r) (r.id == k) _ _ (λ e. absurd (ne ((==_iff r.id k).0 e))) (λ _. refl)

  map-set_shadow_other :
      (k : ℕ) (f : F) (rs : List (Row F)) → All (λ q. q.id ≢ k) rs → map (set_shadow k f) rs ≡ rs
  map-set_shadow_other k f [] a = refl
  map-set_shadow_other k f (r ∷ rs) (ne, a) =
      ap₂ ◌∷◌ (set_shadow_other k f r ne) (map-set_shadow_other k f rs a)

  id-set_shadow : (k : ℕ) (f : F) (r : Row F) → (set_shadow k f r).id ≡ r.id
  id-set_shadow k f r =
      if-cases (λ (q : Row F). q.id ≡ r.id) (r.id == k) _ _ (λ _. refl) (λ _. refl)

  All-ids :
      (k : ℕ) (f : F) (j : ℕ) (rs : List (Row F))
      → All (λ q. q.id ≢ j) rs
      → All (λ q. q.id ≢ j) (map (set_shadow k f) rs)
  All-ids k f j [] a = tt
  All-ids k f j (r ∷ rs) (ne, a) = (λ e. ne (sym (id-set_shadow k f r) ∙ e), All-ids k f j rs a)

  pub set_shadow-IsKeyed :
      (k : ℕ) (f : F) (rs : List (Row F)) → IsKeyed rs → IsKeyed (map (set_shadow k f) rs)
  set_shadow-IsKeyed k f [] u = tt
  set_shadow-IsKeyed k f (r ∷ rs) (a, u) = (
    subst (λ j. All (λ q. q.id ≢ j) (map (set_shadow k f) rs)) (sym (id-set_shadow k f r))
        (All-ids k f r.id rs a),
    set_shadow-IsKeyed k f rs u,
  )

  pub Among-set_shadow :
      (k : ℕ) (f : F) (q : Row F) (rs : List (Row F))
      → q.id ≢ k
      → Among q rs
      → Among q (map (set_shadow k f) rs)
  Among-set_shadow k f q [] ne m = m
  Among-set_shadow k f q (r ∷ rs) ne (inl e) =
      inl (sym (set_shadow_other k f q ne) ∙ ap (set_shadow k f) e)
  Among-set_shadow k f q (r ∷ rs) ne (inr m) = inr (Among-set_shadow k f q rs ne m)

  pub All-Among : (P : Row F → Type 0) (q : Row F) (rs : List (Row F)) → All P rs → Among q rs → P q
  All-Among P q [] a m = absurd m
  All-Among P q (r ∷ rs) (p, a) (inl e) = subst P (sym e) p
  All-Among P q (r ∷ rs) (p, a) (inr m) = All-Among P q rs a m

  -- The update hits the head, or passes it by.
  set_head :
      (q : Row F) (f : F) (r : Row F) (rs : List (Row F))
      → q ≡ r
      → All (λ x. x.id ≢ r.id) rs
      → map (set_shadow q.id f) (r ∷ rs) ≡ record r { shadow = some f } ∷ rs
  set_head q f r rs e a =
      let k = ap (λ (x : Row F). x.id) e in
      ap₂ ◌∷◌ (set_shadow_same q.id f r (sym k))
        (map-set_shadow_other q.id f rs (subst (λ j. All (λ x. x.id ≢ j) rs) (sym k) a))

  set_tail :
      (q : Row F) (f : F) (r : Row F) (rs : List (Row F))
      → All (λ x. x.id ≢ r.id) rs
      → Among q rs
      → map (set_shadow q.id f) (r ∷ rs) ≡ r ∷ map (set_shadow q.id f) rs
  set_tail q f r rs a m =
      ap (λ x. x ∷ map (set_shadow q.id f) rs)
        (set_shadow_other q.id f r (λ e. All-Among (λ x. x.id ≢ r.id) q rs a m (sym e)))

  pub pending_one :
      (r : Row F) (rs : List (Row F)) → r.shadow ≡ none → pending rs + 1 ≡ pending (r ∷ rs)
  pending_one r rs e = rw e (omega arith)

  pending_more :
      (r : Row F) (qs rs : List (Row F))
      → pending qs + 1 ≡ pending rs
      → pending (r ∷ qs) + 1 ≡ pending (r ∷ rs)
  pending_more r qs rs e = ground arith

  -- One row fewer is pending after the update of a pending one.
  pub pending-set_shadow :
      (q : Row F) (f : F) (rs : List (Row F))
      → q.shadow ≡ none
      → IsKeyed rs
      → Among q rs
      → pending (map (set_shadow q.id f) rs) + 1 ≡ pending rs
  pending-set_shadow q f [] n u m = absurd m
  pending-set_shadow q f (r ∷ rs) n (a, u) (inl e) =
      ap (λ l. pending l + 1) (set_head q f r rs e a)
      ∙ pending_one r rs (sym (ap (λ (x : Row F). x.shadow) e) ∙ n)
  pending-set_shadow q f (r ∷ rs) n (a, u) (inr m) =
      ap (λ l. pending l + 1) (set_tail q f r rs a m)
      ∙ pending_more r (map (set_shadow q.id f) rs) rs (pending-set_shadow q f rs n u m)

  -- The rows after a migration: those that are pending have their amounts converted.
  abbrev pub filled : (ℤ → F) → Option ℤ → Option F → Option F
  filled convert amount (some f) = some f
  filled convert none none = none
  filled convert (some v) none = some (convert v)

  abbrev pub migrated : (ℤ → F) → Row F → Row F
  migrated convert r = record r { shadow = filled convert r.amount r.shadow }

  migrated_pending :
      (convert : ℤ → F) (v : ℤ) (r : Row F)
      → r.shadow ≡ none
      → r.amount ≡ some v
      → record r { shadow = some (convert v) } ≡ migrated convert r
  migrated_pending convert v r n s = rw n (rw s refl)

  pub migrated-set_shadow :
      (convert : ℤ → F) (q : Row F) (v : ℤ) (rs : List (Row F))
      → q.shadow ≡ none
      → q.amount ≡ some v
      → IsKeyed rs
      → Among q rs
      → map (migrated convert) (map (set_shadow q.id (convert v)) rs) ≡ map (migrated convert) rs
  migrated-set_shadow convert q v [] n s u m = absurd m
  migrated-set_shadow convert q v (r ∷ rs) n s (a, u) (inl e) =
      ap (map (migrated convert)) (set_head q (convert v) r rs e a)
      ∙ ap (λ x. x ∷ map (migrated convert) rs)
          (migrated_pending convert v r (sym (ap (λ (x : Row F). x.shadow) e) ∙ n)
            (sym (ap (λ (x : Row F). x.amount) e) ∙ s))
  migrated-set_shadow convert q v (r ∷ rs) n s (a, u) (inr m) =
      ap (map (migrated convert)) (set_tail q (convert v) r rs a m)
      ∙ ap (◌∷◌ (migrated convert r)) (migrated-set_shadow convert q v rs n s u m)

  filled-some :
      (convert : ℤ → F) (f : F) (amount : Option ℤ) (shadow : Option F)
      → shadow ≡ some f
      → filled convert amount shadow ≡ shadow
  filled-some convert f amount none s = absurd (ground arith)
  filled-some convert f amount (some g) s = refl

  migrated-some : (convert : ℤ → F) (f : F) (r : Row F) → r.shadow ≡ some f → migrated convert r ≡ r
  migrated-some convert f r s =
      ap (λ (x : Option F). record r { shadow = x }) (filled-some convert f r.amount r.shadow s)

  pending_other :
      (f : F) (r : Row F) (rs : List (Row F)) → r.shadow ≡ some f → pending (r ∷ rs) ≡ pending rs
  pending_other f r rs s = rw s refl

  -- Nothing pending, nothing to do.
  pub migrated_none :
      (convert : ℤ → F) (rs : List (Row F)) → pending rs ≡ 0 → map (migrated convert) rs ≡ rs
  migrated_none convert [] e = refl
  migrated_none convert (r ∷ rs) e = elim (Option-cases r.shadow) [
    | inl n ↦ absurd (omega (arith, pending_one r rs n, e))
    | inr (f, s) ↦
        ap₂ ◌∷◌ (migrated-some convert f r s)
          (migrated_none convert rs (sym (pending_other f r rs s) ∙ e))
  ]

  pub keyed_once :
      (q r : Row F) (rs : List (Row F)) → IsKeyed rs → Among q rs → Among r rs → q.id ≡ r.id → q ≡ r
  keyed_once q r [] u m n e = absurd m
  keyed_once q r (x ∷ rs) (a, u) (inl m) (inl n) e = m ∙ sym n
  keyed_once q r (x ∷ rs) (a, u) (inl m) (inr n) e =
      absurd (All-Among (λ y. y.id ≢ x.id) r rs a n (sym e ∙ ap (λ (y : Row F). y.id) m))
  keyed_once q r (x ∷ rs) (a, u) (inr m) (inl n) e =
      absurd (All-Among (λ y. y.id ≢ x.id) q rs a m (e ∙ ap (λ (y : Row F). y.id) n))
  keyed_once q r (x ∷ rs) (a, u) (inr m) (inr n) e = keyed_once q r rs u m n e

  some_not_none : (f : F) → some f ≢ none
  some_not_none f e = cc

  set_shadow_back : (k : ℕ) (f : F) (q r : Row F) → q.shadow ≡ none → q ≡ set_shadow k f r → q ≡ r
  set_shadow_back k f q r n =
      if-cases (λ x. q ≡ x → q ≡ r) (r.id == k) _ _
        (λ _ e. absurd (some_not_none f (sym (ap (λ (x : Row F). x.shadow) e) ∙ n))) (λ _ e. e)

  -- An update makes no row pending.
  pub set_shadow-Among :
      (k : ℕ) (f : F) (q : Row F) (rs : List (Row F))
      → q.shadow ≡ none
      → Among q (map (set_shadow k f) rs)
      → Among q rs
  set_shadow-Among k f q [] n m = m
  set_shadow-Among k f q (r ∷ rs) n (inl e) = inl (set_shadow_back k f q r n e)
  set_shadow-Among k f q (r ∷ rs) n (inr m) = inr (set_shadow-Among k f q rs n m)
