-- ===== src/Backfill/Report.antt =====
-- `GetSnapshot` and `Snapshot.String` of internal/backfill/progress.go. Floating point numbers are
-- those of Rounding; `seconds` is `Duration.Seconds`; the clock does not go back. A line is given by what it prints, in order.
pub mod Laws
use transisi_db.Prelude.{
  ℕ, zero, suc, ◌+◌, ◌-◌, ◌*◌, ◌%◌, ◌^◌, ◌<◌, Bool, true, false, ◌&&◌, not, Option, none, some,
  List, ℤ, pos, negsuc, ltb, ◌==◌, if◌then◌else◌,
}
use transisi_db.Rounding.{Float}
use transisi_db.Backfill.Tracker.{Progress, Status, pending, running, paused, completed, failed}

-- The int64 that a word stands for, and the word of an integer.
abbrev pub signed : ℕ → ℤ
signed n = if ltb n (2 ^ 63) then pos n else negsuc (2 ^ 64 - 1 - n)

abbrev pub word : ℤ → ℕ
word (pos n) = n % 2 ^ 64
word (negsuc n) = 2 ^ 64 - 1 - n % 2 ^ 64

abbrev pub is_positive : ℤ → Bool
is_positive (pos (suc n)) = true
is_positive _ = false

-- `estimated_completion` is a time with the duration that is added to it, in nanoseconds.
pub record Snapshot (F : Type 0) : Type 0 where
  pub table_name : List ℕ
  pub status : Status
  pub total_rows : ℤ
  pub completed_rows : ℤ
  pub errors : ℤ
  pub progress_percentage : F
  pub rows_per_second : F
  pub start_time : ℕ
  pub end_time : Option ℕ
  pub estimated_completion : Option (ℕ × ℤ)

-- What `String` prints: of a completed backfill its duration; or the panic on a nil time.
pub data Line (F : Type 0) : Type 0 where
  completed_line : List ℕ → ℤ → ℤ → ℕ → Line F
  progress_line : List ℕ → Status → ℤ → ℤ → F → F → Option (ℕ × ℤ) → ℤ → Line F
  nil_dereference : Line F

abbrev pub is_running : Status → Bool
is_running running = true
is_running _ = false

abbrev pub is_completed : Status → Bool
is_completed completed = true
is_completed _ = false

module _ {F : Type 0} (fl : Float F) (seconds : ℕ → F) where
  unfoldable pub percentage : ℤ → ℤ → F
  percentage total done =
      if is_positive total
      then fl.mul (fl.div (fl.of_int done) (fl.of_int total)) (fl.of_int (pos 100))
      else fl.of_int (pos 0)

  -- `float64(completed) / elapsed`, where the job runs and a row is done.
  unfoldable pub speed : ℕ → Progress → F
  speed since p =
      if is_running p.status && is_positive (signed p.completed_rows)
      then fl.div (fl.of_int (signed p.completed_rows)) (seconds (since - p.start_time))
      else fl.of_int (pos 0)

  -- `time.Duration(etaSeconds) * time.Second`, on int64.
  unfoldable pub remaining_time : F → Progress → ℤ
  remaining_time rate p =
      let remaining = signed ((p.total_rows + 2 ^ 64 - p.completed_rows) % 2 ^ 64) in
      let eta_seconds = fl.to_int64 (fl.div (fl.of_int remaining) rate) in
      signed ((word eta_seconds * 1_000_000_000) % 2 ^ 64)

  unfoldable pub estimate : ℕ → F → Progress → Option (ℕ × ℤ)
  unfolding remaining_time
  estimate now rate p =
      if (is_running p.status && is_positive (signed p.completed_rows))
        && fl.less (fl.of_int (pos 0)) rate
      then some (now, remaining_time rate p)
      else none

  -- `since` and `now` are the two readings of the clock.
  unfoldable pub get_snapshot : ℕ → ℕ → Progress → Snapshot F
  unfolding percentage speed estimate
  get_snapshot since now p = record {
    table_name = p.table_name;
    status = p.status;
    total_rows = signed p.total_rows;
    completed_rows = signed p.completed_rows;
    errors = signed p.errors;
    progress_percentage = percentage (signed p.total_rows) (signed p.completed_rows);
    rows_per_second = speed since p;
    start_time = p.start_time;
    end_time = p.end_time;
    estimated_completion = estimate now (speed since p) p;
  }

  completed_text : Snapshot F → Option ℕ → Line F
  completed_text s none = nil_dereference
  completed_text s (some end) =
      completed_line s.table_name s.completed_rows s.total_rows (end - s.start_time)

  unfoldable pub to_string : Snapshot F → Line F
  unfolding completed_text
  to_string s =
      if is_completed s.status
      then completed_text s s.end_time
      else progress_line s.table_name s.status s.completed_rows s.total_rows s.progress_percentage
          s.rows_per_second s.estimated_completion s.errors
