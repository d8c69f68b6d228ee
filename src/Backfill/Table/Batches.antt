-- ===== src/Backfill/Table/Batches.antt =====
-- What a batch does to the table.
use transisi_db.Prelude.{
  ℕ, ◌+◌, ◌≤◌, ◌≡◌, ◌≢◌, refl, sym, ap, ◌∙◌, subst, Option, none, some, List, [], ◌∷◌, map, length,
  min, All, ℤ, arith,
}
use transisi_db.Backfill.{Batch, processed, failed_after}
use transisi_db.Backfill.Table.{
  Row, pending, Among, IsKeyed, Database, scanned, migrate_rows, migrate_batch,
}
use transisi_db.Backfill.Table.Rows.{
  set_shadow-IsKeyed, Among-set_shadow, set_shadow-Among, keyed_once, pending-set_shadow, migrated,
  migrated-set_shadow,
}

-- A pending row whose amount is NULL.
abbrev pub IsNull : {F : Type 0} → Row F → List (Row F) → Type 0
IsNull q rs = Among q rs × (q.shadow ≡ none) × (q.amount ≡ none)

module _ {S F : Type 0} (db : Database S F) (convert : ℤ → F) where
  -- The keys stay unique, a migration ends as it would have, and the same rows have NULL amounts.
  pub record Kept (s t : S) : Type 0 where
    pub keyed : IsKeyed (db.rows t)
    pub same_end : map (migrated convert) (db.rows t) ≡ map (migrated convert) (db.rows s)
    pub still_null : (q : Row F) → IsNull q (db.rows s) → IsNull q (db.rows t)
    pub was_null : (q : Row F) → IsNull q (db.rows t) → IsNull q (db.rows s)

  pub Kept-refl : (s : S) → IsKeyed (db.rows s) → Kept s s
  Kept-refl s u = record { keyed = u; same_end = refl; still_null = λ q n. n; was_null = λ q n. n }

  pub Kept-trans : (s t u : S) → Kept s t → Kept t u → Kept s u
  Kept-trans s t u h k = record {
    keyed = k.keyed;
    same_end = k.same_end ∙ h.same_end;
    still_null = λ q n. k.still_null q (h.still_null q n);
    was_null = λ q n. h.was_null q (k.was_null q n);
  }

  -- Rows that are still to be updated.
  abbrev pub Waiting : S → List (Row F) → Type 0
  Waiting s = All (λ r. Among r (db.rows s) × (r.shadow ≡ none))

  module _ (s : S) (r : Row F) (v : ℤ) (u : IsKeyed (db.rows s)) (m : Among r (db.rows s))
      (n : r.shadow ≡ none) (e : r.amount ≡ some v) where
    after : S
    after = db.update r.id (convert v) s

    apart : (q : Row F) → IsNull q (db.rows s) → q.id ≢ r.id
    apart q (l, h, k) i =
        absurd
          (ground (arith, ap (λ (x : Row F). x.amount) (keyed_once q r (db.rows s) u l m i), k, e))

    pub updated-Kept : Kept s (db.update r.id (convert v) s)
    updated-Kept =
        let rows = db.rows_update r.id (convert v) s in
        record {
          keyed = subst IsKeyed (sym rows) (set_shadow-IsKeyed r.id (convert v) (db.rows s) u);
          same_end =
              ap (map (migrated convert)) rows
              ∙ migrated-set_shadow convert r v (db.rows s) n e u m;
          still_null = λ q (l, h, k). (
            subst (Among q) (sym rows)
                (Among-set_shadow r.id (convert v) q (db.rows s) (apart q (l, h, k)) l),
            h,
            k,
          );
          was_null = λ q (l, h, k).
              (set_shadow-Among r.id (convert v) q (db.rows s) h (subst (Among q) rows l), h, k);
        }

    pub updated-pending : pending (db.rows (db.update r.id (convert v) s)) + 1 ≡ pending (db.rows s)
    updated-pending =
        ap (λ l. pending l + 1) (db.rows_update r.id (convert v) s)
        ∙ pending-set_shadow r (convert v) (db.rows s) n u m

  updated-Waiting :
      (s : S) (k : ℕ) (f : F) (rs : List (Row F))
      → All (λ q. q.id ≢ k) rs
      → Waiting s rs
      → Waiting (db.update k f s) rs
  updated-Waiting s k f [] a w = tt
  updated-Waiting s k f (r ∷ rs) (ne, a) ((m, n), w) = (
    (subst (Among r) (sym (db.rows_update k f s)) (Among-set_shadow k f r (db.rows s) ne m), n),
    updated-Waiting s k f rs a w,
  )

  -- What is left of a batch over `rs` that began at `s`, and its answer.
  abbrev pub IsDone : ℕ → List (Row F) → S → S → Batch → Type 0
  IsDone n rs s t (processed m) =
      (m ≡ n + length rs) × (pending (db.rows t) + length rs ≡ pending (db.rows s))
  IsDone n rs s t (failed_after m) =
      (pending (db.rows t) ≤ pending (db.rows s)) × (q : Row F) × IsNull q (db.rows s)

  continued :
      (n : ℕ) (rs : List (Row F)) (r : Row F) (s t : S) (b : S × Batch)
      → Kept s t
      → pending (db.rows t) + 1 ≡ pending (db.rows s)
      → Kept t b.0 × IsDone (n + 1) rs t b.0 b.1
      → Kept s b.0 × IsDone n (r ∷ rs) s b.0 b.1
  continued n rs r s t (z, processed m) k p (h, (c, d)) =
      (Kept-trans s t z k h, (omega (arith, c), omega (arith, p, d)))
  continued n rs r s t (z, failed_after m) k p (h, (c, q, d)) =
      (Kept-trans s t z k h, (omega (arith, p, c), q, k.was_null q d))

  scanned-IsDone :
      (n : ℕ) (rs : List (Row F)) (s : S) (r : Row F) (o : Option ℤ)
      → r.amount ≡ o
      → IsKeyed (db.rows s)
      → Among r (db.rows s) × (r.shadow ≡ none)
      → ((v : ℤ)
          → r.amount ≡ some v
          → let t = db.update r.id (convert v) s in
            let b = migrate_rows db convert (n + 1) rs t in
            Kept t b.0 × IsDone (n + 1) rs t b.0 b.1)
      → let b = scanned db convert n r.id s o (migrate_rows db convert (n + 1) rs) in
        Kept s b.0 × IsDone n (r ∷ rs) s b.0 b.1
  unfolding scanned
  scanned-IsDone n rs s r none e u (m, h) ih = (Kept-refl s u, (omega arith, r, (m, h, e)))
  scanned-IsDone n rs s r (some v) e u (m, h) ih =
      continued n rs r s (db.update r.id (convert v) s)
        (migrate_rows db convert (n + 1) rs (db.update r.id (convert v) s))
        (updated-Kept s r v u m h e) (updated-pending s r v u m h e) (ih v e)

  migrate_rows-IsDone :
      (n : ℕ) (rs : List (Row F)) (s : S)
      → IsKeyed (db.rows s)
      → IsKeyed rs
      → Waiting s rs
      → let r = migrate_rows db convert n rs s in Kept s r.0 × IsDone n rs s r.0 r.1
  unfolding migrate_rows
  migrate_rows-IsDone n [] s u k w = (Kept-refl s u, (omega arith, omega arith))
  migrate_rows-IsDone n (r ∷ rs) s u (a, k) (w, ws) =
      scanned-IsDone n rs s r r.amount refl u w λ v e.
        migrate_rows-IsDone (n + 1) rs (db.update r.id (convert v) s)
          (updated-Kept s r v u w.0 w.1 e).keyed k (updated-Waiting s r.id (convert v) rs a ws)

  -- A batch that starts with unique keys is one over some `rs`, as many as there are up to the limit.
  pub migrate_batch-IsDone :
      (batch_size : ℕ) (s : S)
      → IsKeyed (db.rows s)
      → let r = migrate_batch db convert batch_size s in
        Kept s r.0
        × ((rs : List (Row F)) × (length rs ≡ min batch_size (pending (db.rows s)))
            × IsDone 0 rs s r.0 r.1)
  unfolding migrate_batch
  migrate_batch-IsDone batch_size s u =
      let (k, d) =
        migrate_rows-IsDone 0 (db.select s batch_size) s u (db.select_keyed s batch_size u)
          (db.select_among s batch_size) in
      (k, (db.select s batch_size, db.select_length s batch_size, d))
