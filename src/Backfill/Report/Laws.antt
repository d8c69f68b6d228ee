-- ===== src/Backfill/Report/Laws.antt =====
-- What a snapshot tells of any history of a backfill's progress.
use transisi_db.Prelude.{ℕ, ◌+◌, ◌≡◌, ◌≢◌, refl, Option, none, some, List, [], ◌∷◌, arith}
use transisi_db.Breaker.{u64}
use transisi_db.Rounding.{Float}
use transisi_db.Backfill.Tracker.{
  Progress, Status, completed, new_progress, start_progress, set_total, increment_completed,
  increment_errors, complete, fail, pause_progress, resume_progress,
}
use transisi_db.Backfill.Report.{Snapshot, nil_dereference, get_snapshot, to_string, completed_text}

-- A call on the progress.
pub data Op : Type 0 where
  starts : ℕ → List ℕ → Op
  sets_total completes_rows : ℕ → Op
  counts_error pauses resumes : Op
  completes fails : ℕ → Op

unfoldable pub apply : Op → Progress → Progress
unfolding start_progress set_total increment_completed increment_errors complete fail pause_progress
    resume_progress
apply (starts now name) p = start_progress now name p
apply (sets_total n) p = set_total n p
apply (completes_rows n) p = increment_completed n p
apply counts_error p = increment_errors p
apply pauses p = pause_progress p
apply resumes p = resume_progress p
apply (completes now) p = complete now p
apply (fails now) p = fail now p

unfoldable pub run : List Op → Progress → Progress
unfolding apply
run [] p = p
run (op ∷ ops) p = run ops (apply op p)

-- The rows and errors that are counted.
abbrev pub rows_of : List Op → ℕ
rows_of [] = 0
rows_of (completes_rows n ∷ ops) = n + rows_of ops
rows_of (op ∷ ops) = rows_of ops

abbrev pub errors_of : List Op → ℕ
errors_of [] = 0
errors_of (counts_error ∷ ops) = 1 + errors_of ops
errors_of (op ∷ ops) = errors_of ops

abbrev Counts : ℕ → ℕ → Progress → Type 0
Counts rows errors p = (p.completed_rows ≡ u64 rows) × (p.errors ≡ u64 errors)

run-Counts :
    (rows errors : ℕ) (ops : List Op) (p : Progress)
    → Counts rows errors p
    → Counts (rows + rows_of ops) (errors + errors_of ops) (run ops p)
unfolding run apply
run-Counts rows errors [] p h = omega (arith, h)
run-Counts rows errors (completes_rows n ∷ ops) p h =
    let r = run-Counts (rows + n) errors ops (increment_completed n p) (omega (arith, h)) in
    omega (arith, r)
run-Counts rows errors (counts_error ∷ ops) p h =
    let r = run-Counts rows (errors + 1) ops (increment_errors p) (omega (arith, h)) in
    omega (arith, r)
run-Counts rows errors (op ∷ ops) p h = run-Counts rows errors ops (apply op p) (omega (arith, h))

-- The rows and errors of a progress are those of all its backfills together, mod 2 ^ 64: no call, and
-- so no start of another backfill, sets them back.
pub history_counts :
    (ops : List Op)
    → ((run ops new_progress).completed_rows ≡ u64 (rows_of ops))
      × ((run ops new_progress).errors ≡ u64 (errors_of ops))
history_counts ops = omega (arith, run-Counts 0 0 ops new_progress (omega arith))

-- A status that is an end has its time.
record HasEnd (p : Progress) : Type 0 where
  pub done : p.status ≡ completed → p.end_time ≢ none

apply-HasEnd : (op : Op) (p : Progress) → HasEnd p → HasEnd (apply op p)
unfolding apply
apply-HasEnd (starts now name) p h = record { done = λ e. cc }
apply-HasEnd (sets_total n) p h = record { done = h.done }
apply-HasEnd (completes_rows n) p h = record { done = h.done }
apply-HasEnd counts_error p h = record { done = h.done }
apply-HasEnd pauses p h = record { done = λ e. cc }
apply-HasEnd resumes p h = record { done = λ e. cc }
apply-HasEnd (completes now) p h = record { done = λ e q. cc }
apply-HasEnd (fails now) p h = record { done = λ e. cc }

run-HasEnd : (ops : List Op) (p : Progress) → HasEnd p → HasEnd (run ops p)
unfolding run
run-HasEnd [] p h = h
run-HasEnd (op ∷ ops) p h = run-HasEnd ops (apply op p) (apply-HasEnd op p h)

new-HasEnd : HasEnd new_progress
new-HasEnd = record { done = λ e. cc }

module _ {F : Type 0} (fl : Float F) (seconds : ℕ → F) where
  text_printed :
      (s : Snapshot F) (status : Status) (end_time : Option ℕ)
      → s.status ≡ status
      → s.end_time ≡ end_time
      → (status ≡ completed → end_time ≢ none)
      → to_string fl seconds s ≢ nil_dereference
  unfolding to_string completed_text
  text_printed s completed none h e k q = absurd (k refl refl)
  text_printed s completed (some t) h e k q = absurd (ground (arith, h, e, q))
  text_printed s status end_time h e k q = absurd (ground (arith, h, e, q))

  prints :
      (since now : ℕ) (p : Progress)
      → HasEnd p
      → to_string fl seconds (get_snapshot fl seconds since now p) ≢ nil_dereference
  unfolding get_snapshot
  prints since now p h q =
      text_printed (get_snapshot fl seconds since now p) p.status p.end_time refl refl h.done q

  -- Whatever calls a new progress has got, the text of its snapshot is printed: `String` never reads
  -- the end of a backfill that has none.
  pub history_prints :
      (since now : ℕ) (ops : List Op)
      → to_string fl seconds (get_snapshot fl seconds since now (run ops new_progress))
        ≢ nil_dereference
  history_prints since now ops =
      prints since now (run ops new_progress) (run-HasEnd ops new_progress new-HasEnd)
