-- ===== src/Backfill/Table/Converts.antt =====
-- A migration of a table without NULL amounts converts all of it.
use transisi_db.Prelude.{
  ℕ, zero, suc, ◌+◌, ◌^◌, ◌<◌, ◌≡◌, ◌≢◌, refl, sym, ap, ◌∙◌, false, some, List, map, length, min, ℤ,
  arith,
}
use transisi_db.Breaker.{u64}
use transisi_db.Backfill.{Batch, processed, failed_after, Ending, finished, Worker}
use transisi_db.Backfill.Tracker.{
  Progress, complete, completed, start_progress, set_total, increment_completed,
}
use transisi_db.Backfill.Table.{
  Row, pending, IsKeyed, Database, migrate_batch, after_batch, migrate, after_count,
  start_migration,
}
use transisi_db.Backfill.Table.Rows.{migrated, migrated_none}
use transisi_db.Backfill.Table.Batches.{
  IsNull, Kept, Kept-refl, Kept-trans, IsDone, migrate_batch-IsDone,
}

-- The progress of a migration of `n` rows that is over.
abbrev pub over : ℕ → ℕ → Progress → Progress
over now n p = record p {
  completed_rows = u64 (p.completed_rows + n);
  end_time = some now;
  status = completed;
}

-- The progress of a backfill that found `n` rows and finished.
abbrev pub finished_progress : ℕ → List ℕ → ℕ → Progress → Progress
finished_progress now name n p = over now n (set_total n (start_progress now name p))

over-none :
    (now : ℕ) (p : Progress) (n : ℕ)
    → p.completed_rows < 2 ^ 64
    → n ≡ 0
    → complete now p ≡ over now n p
unfolding complete
over-none now p n c e =
    ap (λ (k : ℕ). record p { completed_rows = k; end_time = some now; status = completed })
      (omega (arith, c, e))

over-more :
    (now : ℕ) (p : Progress) (a b n : ℕ)
    → a + b ≡ n
    → over now a (increment_completed b p) ≡ over now n p
unfolding increment_completed
over-more now p a b n e =
    ap (λ (k : ℕ). record p { completed_rows = k; end_time = some now; status = completed })
      (omega (arith, e))

module _ {S F : Type 0} (db : Database S F) (convert : ℤ → F) where
  -- `r` is the end of a migration that began at `s`.
  pub record IsMigrated (now : ℕ) (s : S) (p : Progress) (r : S × Progress × Ending) : Type 0 where
    pub kept : Kept db convert s r.0
    pub none_pending : pending (db.rows r.0) ≡ 0
    pub progress : r.1 ≡ over now (pending (db.rows s)) p
    pub ending : r.2 ≡ finished

  after_batch-IsMigrated :
      (l attempts now : ℕ) (s : S) (p : Progress) (again : S × Progress → S × Progress × Ending)
      (r : S × Batch) (rs : List (Row F))
      → ((q : Row F) → ¬ IsNull q (db.rows s))
      → p.completed_rows < 2 ^ 64
      → Kept db convert s r.0
      → length rs ≡ min (suc l) (pending (db.rows s))
      → IsDone db convert 0 rs s r.0 r.1
      → ((m : ℕ)
          → pending (db.rows r.0) + suc m ≡ pending (db.rows s)
          → IsMigrated now r.0
              (increment_completed (suc m) p)
              (again (r.0, increment_completed (suc m) p)))
      → IsMigrated now s p (after_batch db convert attempts now again r p)
  unfolding after_batch complete
  after_batch-IsMigrated l attempts now s p again (t, processed zero) rs h c k e (d, f) ih =
      record {
        kept = k;
        none_pending = omega (arith, d, e, f);
        progress = over-none now p (pending (db.rows s)) c (omega (arith, d, e, f));
        ending = refl;
      }
  after_batch-IsMigrated l attempts now s p again (t, processed (suc m)) rs h c k e (d, f) ih =
      let i = ih m (omega (arith, d, f)) in
      record {
        kept = Kept-trans db convert s t _ k i.kept;
        none_pending = i.none_pending;
        progress =
            i.progress
            ∙ over-more now p (pending (db.rows t)) (suc m) (pending (db.rows s))
                (omega (arith, d, f));
        ending = i.ending;
      }
  after_batch-IsMigrated l attempts now s p again (t, failed_after m) rs h c k e (d, q, n) ih =
      absurd (h q n)

  migrate-IsMigrated :
      (l attempts now fuel : ℕ) (s : S) (p : Progress)
      → IsKeyed (db.rows s)
      → ((q : Row F) → ¬ IsNull q (db.rows s))
      → p.completed_rows < 2 ^ 64
      → pending (db.rows s) < fuel
      → IsMigrated now s p (migrate db convert (suc l) attempts now fuel (s, p))
  unfolding migrate increment_completed
  migrate-IsMigrated l attempts now zero s p u h c f = absurd (omega (arith, f))
  migrate-IsMigrated l attempts now (suc fuel) s p u h c f =
      let b = migrate_batch db convert (suc l) s in
      let (k, (rs, e, d)) = migrate_batch-IsDone db convert (suc l) s u in
      after_batch-IsMigrated l attempts now s p (migrate db convert (suc l) attempts now fuel) b rs
        h c k e d
        λ m less.
          migrate-IsMigrated l attempts now fuel b.0 (increment_completed (suc m) p) k.keyed
            (λ q n. h q (k.was_null q n)) (omega arith) (omega (arith, less, f))

  counted-IsMigrated :
      (l attempts now fuel n : ℕ) (s : S) (p : Progress)
      → pending (db.rows s) ≡ n
      → IsKeyed (db.rows s)
      → ((q : Row F) → ¬ IsNull q (db.rows s))
      → p.completed_rows < 2 ^ 64
      → n < fuel
      → IsMigrated now s (set_total n p) (after_count db convert (suc l) attempts now fuel s p n)
  unfolding after_count set_total
  counted-IsMigrated l attempts now fuel zero s p e u h c f = record {
    kept = Kept-refl db convert s u;
    none_pending = e;
    progress = over-none now (set_total 0 p) (pending (db.rows s)) c e;
    ending = refl;
  }
  counted-IsMigrated l attempts now fuel (suc n) s p e u h c f =
      migrate-IsMigrated l attempts now fuel s (set_total (suc n) p) u h c (omega (arith, e, f))

  IsMigrated-rows :
      (now : ℕ) (s : S) (p : Progress) (r : S × Progress × Ending)
      → IsMigrated now s p r
      → db.rows r.0 ≡ map (migrated convert) (db.rows s)
  IsMigrated-rows now s p r i =
      sym (migrated_none convert (db.rows r.0) i.none_pending) ∙ i.kept.same_end

  -- On a table whose keys are unique and whose pending rows all have an amount, with a batch size that
  -- is not 0 and more rounds than rows are pending: a worker that does not run finishes, whatever order
  -- the batches take; every pending row has got its converted amount and no other row or column has
  -- changed, and the progress counts these rows, all of them at once, on top of earlier ones.
  pub migration_converts :
      (batch_size now fuel : ℕ) (name : List ℕ) (s : S) (w : Worker)
      → batch_size ≢ 0
      → w.running ≡ false
      → IsKeyed (db.rows s)
      → ((q : Row F) → ¬ IsNull q (db.rows s))
      → w.progress.completed_rows < 2 ^ 64
      → pending (db.rows s) < fuel
      → let r = start_migration db convert batch_size now fuel name s w in
        (db.rows r.0 ≡ map (migrated convert) (db.rows s))
        × (r.1 ≡ finished_progress now name (pending (db.rows s)) w.progress)
        × (r.2 ≡ finished)
  unfolding start_migration start_progress
  migration_converts zero now fuel name s w ne i u h c f = absurd (ne refl)
  migration_converts (suc l) now fuel name s w ne i u h c f =
      let n = db.count s in
      let p = start_progress now name w.progress in
      let m =
        counted-IsMigrated l w.retry_attempts now fuel n s p (sym (db.count_pending s)) u h c
          (omega (arith, db.count_pending s, f)) in
      rw i (
        IsMigrated-rows now s _ _ m,
        m.progress ∙ ap (λ k. over now (pending (db.rows s)) (set_total k p)) (db.count_pending s),
        m.ending,
      )
