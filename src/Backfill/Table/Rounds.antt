-- ===== src/Backfill/Table/Rounds.antt =====
-- The loop on a table is the loop of Backfill on the answers that the table gives.
use transisi_db.Prelude.{
  ℕ, zero, suc, ◌≡◌, refl, Bool, true, false, List, [], ◌∷◌, ℤ, if◌then◌else◌,
}
use transisi_db.Backfill.{
  Event, Batch, Ending, batch, processed, failed_after, rounds, should_retry,
}
use transisi_db.Backfill.Tracker.{Progress, increment_errors}
use transisi_db.Backfill.Table.{Database, migrate_batch, after_batch, migrate}

module _ {S F : Type 0} (db : Database S F) (convert : ℤ → F) (batch_size now : ℕ) where
  -- The answers of the batches, one after another.
  abbrev pub answers : ℕ → S → List (ℕ × Event)
  answers zero s = []
  answers (suc fuel) s =
      let r = migrate_batch db convert batch_size s in (now, batch r.1) ∷ answers fuel r.0

  abbrev pub without_table : S × Progress × Ending → Progress × Ending
  without_table r = (r.1, r.2)

  chosen :
      (b : Bool) (x y : S × Progress × Ending) (x' : Progress × Ending)
      → without_table x ≡ x'
      → without_table (if b then x else y) ≡ (if b then x' else without_table y)
  chosen true x y x' e = e
  chosen false x y x' e = refl

  after_batch-rounds :
      (attempts : ℕ) (again : S × Progress → S × Progress × Ending) (r : S × Batch) (p : Progress)
      (es : List (ℕ × Event))
      → ((o : Progress) → without_table (again (r.0, o)) ≡ rounds attempts es o)
      → without_table (after_batch db convert attempts now again r p)
        ≡ rounds attempts ((now, batch r.1) ∷ es) p
  unfolding after_batch rounds
  after_batch-rounds attempts again (s, processed zero) p es ih = refl
  after_batch-rounds attempts again (s, processed (suc n)) p es ih = ih _
  after_batch-rounds attempts again (s, failed_after n) p es ih =
      chosen (should_retry attempts (increment_errors p)) _ _ _ (ih (increment_errors p))

  -- For any number of rounds, the loop on a table leaves the progress and has the ending of the loop on
  -- the list of its batches' answers.
  pub migrate-rounds :
      (attempts fuel : ℕ) (s : S) (p : Progress)
      → without_table (migrate db convert batch_size attempts now fuel (s, p))
        ≡ rounds attempts (answers fuel s) p
  unfolding migrate rounds
  migrate-rounds attempts zero s p = refl
  migrate-rounds attempts (suc fuel) s p =
      after_batch-rounds attempts (migrate db convert batch_size attempts now fuel)
        (migrate_batch db convert batch_size s) p _
        (λ o. migrate-rounds attempts fuel (migrate_batch db convert batch_size s).0 o)
