-- ===== src/Backfill/Table/Memory.antt =====
-- A database that is the list of its rows, and selects the first of the pending ones.
use transisi_db.Prelude.{
  ℕ, zero, suc, ◌≡◌, ◌≢◌, inl, inr, refl, ap, ◌∙◌, true, none, List, [], ◌∷◌, map, length, take,
  min, All, if◌then◌else◌, arith, if-cases, Option-cases,
}
use transisi_db.Backfill.Table.{Row, is_pending, pending, set_shadow, Among, IsKeyed, Database}

module _ {F : Type 0} where
  abbrev pub pending_rows : List (Row F) → List (Row F)
  pending_rows [] = []
  pending_rows (r ∷ rs) = if is_pending r then r ∷ pending_rows rs else pending_rows rs

  All-pending_rows : (P : Row F → Type 0) (rs : List (Row F)) → All P rs → All P (pending_rows rs)
  All-pending_rows P [] a = tt
  All-pending_rows P (r ∷ rs) (p, a) =
      if-cases (All P) (is_pending r) _ _ (λ _. (p, All-pending_rows P rs a))
        (λ _. All-pending_rows P rs a)

  pub All-take : (P : Row F → Type 0) (n : ℕ) (rs : List (Row F)) → All P rs → All P (take n rs)
  All-take P zero rs a = tt
  All-take P (suc n) [] a = tt
  All-take P (suc n) (r ∷ rs) (p, a) = (p, All-take P n rs a)

  pub IsKeyed-pending_rows : (rs : List (Row F)) → IsKeyed rs → IsKeyed (pending_rows rs)
  IsKeyed-pending_rows [] u = tt
  IsKeyed-pending_rows (r ∷ rs) (a, u) =
      if-cases IsKeyed (is_pending r) _ _
        (λ _. (All-pending_rows (λ q. q.id ≢ r.id) rs a, IsKeyed-pending_rows rs u))
        (λ _. IsKeyed-pending_rows rs u)

  pub IsKeyed-take : (n : ℕ) (rs : List (Row F)) → IsKeyed rs → IsKeyed (take n rs)
  IsKeyed-take zero rs u = tt
  IsKeyed-take (suc n) [] u = tt
  IsKeyed-take (suc n) (r ∷ rs) (a, u) = (All-take (λ q. q.id ≢ r.id) n rs a, IsKeyed-take n rs u)

  length-pending_rows : (rs : List (Row F)) → length (pending_rows rs) ≡ pending rs
  length-pending_rows [] = refl
  length-pending_rows (r ∷ rs) = let h = length-pending_rows rs in ground arith

  take-min : (n : ℕ) (rs : List (Row F)) → length (take n rs) ≡ min n (length rs)
  take-min zero rs = omega arith
  take-min (suc n) [] = omega arith
  take-min (suc n) (r ∷ rs) = omega (arith, take-min n rs)

  -- Rows of `qs` that are pending.
  abbrev pub Chosen : List (Row F) → Row F → Type 0
  Chosen qs r = Among r qs × (r.shadow ≡ none)

  All-Chosen : (q : Row F) (qs rs : List (Row F)) → All (Chosen qs) rs → All (Chosen (q ∷ qs)) rs
  All-Chosen q qs [] a = tt
  All-Chosen q qs (r ∷ rs) ((m, n), a) = ((inr m, n), All-Chosen q qs rs a)

  shadow_none : (r : Row F) → is_pending r ≡ true → r.shadow ≡ none
  shadow_none r h = elim (Option-cases r.shadow) [ inl n ↦ n | inr (f, s) ↦ absurd (ground arith) ]

  pub pending_rows-Chosen : (rs : List (Row F)) → All (Chosen rs) (pending_rows rs)
  pending_rows-Chosen [] = tt
  pending_rows-Chosen (r ∷ rs) =
      let rest = All-Chosen r rs (pending_rows rs) (pending_rows-Chosen rs) in
      if-cases (All (Chosen (r ∷ rs))) (is_pending r) _ _ (λ h. ((inl refl, shadow_none r h), rest))
        (λ _. rest)

  pub take-length-min :
      (rs : List (Row F)) (n : ℕ) → length (take n (pending_rows rs)) ≡ min n (pending rs)
  take-length-min rs n = take-min n (pending_rows rs) ∙ ap (min n) (length-pending_rows rs)

  abbrev pub memory : Database (List (Row F)) F
  memory = record {
    rows = λ s. s;
    select = λ s n. take n (pending_rows s);
    count = pending;
    update = λ k f s. map (set_shadow k f) s;
    select_among = λ s n. All-take (Chosen s) n (pending_rows s) (pending_rows-Chosen s);
    select_keyed = λ s n u. IsKeyed-take n (pending_rows s) (IsKeyed-pending_rows s u);
    select_length = take-length-min;
    count_pending = λ s. refl;
    rows_update = λ k f s. refl;
  }
