-- ===== src/Backfill/Examples.antt =====
-- Tests and witnesses: a backfill of three batches, the second of which fails.
use transisi_db.Prelude.{
  ℕ, ℤ, pos, negsuc, none, map, inl, inr, ◌/◌, ◌+◌, ◌≡◌, refl, true, false, some, List, [], ◌∷◌,
  ◌++◌, arith, codes,
}
use transisi_db.Backfill.Tracker.{Progress, new_progress}
use transisi_db.Backfill.{
  Event, Ending, pause, batch, processed, failed_after, updated, update_error, Worker, finished,
  batch_error, process_batch, start,
}
use transisi_db.Backfill.Control.{
  Move, starts, cancels, pauses, stops, turns, receives_cancel, receives_stop, receives_pause,
  last_batch, moves, move, new_control, start_call, pause_call, stop_call, turn, away,
  paused_by_caller,
}
use transisi_db.Backfill.Control.Laws.{paused_ignores_stop, stop_calls}
use transisi_db.Backfill.Table.{Row, start_migration}
use transisi_db.Backfill.Table.Rows.{migrated}
use transisi_db.Backfill.Table.Batches.{IsNull}
use transisi_db.Backfill.Table.Converts.{migration_converts, finished_progress}
use transisi_db.Backfill.Table.Nulls.{null_amount_fails}
use transisi_db.Backfill.Report.{get_snapshot}
use transisi_db.Backfill.Report.Laws.{
  Op, sets_total, completes_rows, completes, counts_error, run, history_prints, history_counts,
}
use transisi_db.Backfill.Report.Laws
use transisi_db.Rounding.Examples.{quarters}
use transisi_db.Backfill.Table.Memory.{memory}
use transisi_db.Backfill.Loop.{advanced, begun, start_gives_up}

broken_batch :
    process_batch true (some (updated ∷ update_error ∷ updated ∷ [])) true ≡ failed_after 1
unfolding process_batch
broken_batch = refl

abbrev idle : Worker
idle = record { running = false; progress = new_progress; retry_attempts = 2 }

abbrev some_rounds : List (ℕ × Event)
some_rounds =
    (1, batch (processed 10))
    ∷ (2, batch (failed_after 3))
    ∷ (3, pause)
    ∷ (4, batch (processed 7))
    ∷ []

abbrev orders : List ℕ
orders = codes "orders"

start_gives_up_example :
    start 0 orders (some 20) (some_rounds ++ (5, batch (failed_after 0)) ∷ []) idle ≡ (
      record idle {
        progress = record (advanced some_rounds (begun 0 orders 20 new_progress)) { errors = 2 };
      },
      batch_error,
    )
start_gives_up_example =
    start_gives_up 0 5 orders 19 0 some_rounds [] idle refl tt (omega arith) refl (omega arith)

-- Paused while the context is cancelled and `Stop` is called twice.
abbrev to_pause : List Move
to_pause = starts ∷ pauses ∷ turns receives_pause ∷ []

abbrev halt : List Move
halt = cancels ∷ turns receives_cancel ∷ stops ∷ stops ∷ turns receives_stop ∷ []

is_paused : (moves to_pause new_control).place ≡ paused_by_caller
unfolding moves move new_control start_call pause_call turn
is_paused = refl

none_resuming : (moves to_pause new_control).resuming ≡ 0
unfolding moves move new_control start_call pause_call turn
none_resuming = refl

paused_ignores_stop_example :
    ((moves halt (moves to_pause new_control)).place ≡ paused_by_caller)
    × ((moves halt (moves to_pause new_control)).stopping
        ≡ (moves to_pause new_control).stopping + stop_calls halt)
paused_ignores_stop_example =
    paused_ignores_stop halt (moves to_pause new_control) (tt, (tt, (tt, (tt, (tt, tt))))) is_paused
      none_resuming

-- A call of `Pause` or `Stop` that the job's end leaves blocked acts on the next job.
stale_calls :
    (moves
      (starts ∷ pauses ∷ turns last_batch ∷ starts ∷ turns receives_pause ∷ [])
      new_control).place
    ≡ paused_by_caller
unfolding moves move new_control start_call pause_call turn
stale_calls = refl

stale_stop :
    (moves
      (starts ∷ stops ∷ turns last_batch ∷ starts ∷ turns receives_stop ∷ [])
      new_control).place
    ≡ away
unfolding moves move new_control start_call stop_call turn
stale_stop = refl

-- A table of four rows, one of which was converted before; batches of two.
abbrev kilo : ℤ → ℕ
kilo (pos n) = n / 1000
kilo (negsuc n) = 0

abbrev orders_rows : List (Row ℕ)
orders_rows =
    record { id = 1; amount = some (pos 5000); shadow = none }
    ∷ record { id = 2; amount = some (pos 7000); shadow = some 7 }
    ∷ record { id = 3; amount = some (pos 9000); shadow = none }
    ∷ record { id = 4; amount = some (pos 1000); shadow = none }
    ∷ []

all_converted :
    map
      (λ (r : Row ℕ). r.shadow)
      (start_migration memory kilo 2 8 5 (codes "orders") orders_rows idle).0
    ≡ some 5 ∷ some 7 ∷ some 9 ∷ some 1 ∷ []
unfolding start_migration
all_converted = refl

abbrev migrated_run : List (Row ℕ) × Progress × Ending
migrated_run = start_migration memory kilo 2 8 5 (codes "orders") orders_rows idle

no-IsNull : (q : Row ℕ) → ¬ IsNull q orders_rows
no-IsNull q (inl m, n, e) = absurd (ground arith)
no-IsNull q (inr (inl m), n, e) = absurd (ground arith)
no-IsNull q (inr (inr (inl m)), n, e) = absurd (ground arith)
no-IsNull q (inr (inr (inr (inl m))), n, e) = absurd (ground arith)
no-IsNull q (inr (inr (inr (inr m))), n, e) = absurd m

migration_converts_example :
    (migrated_run.0 ≡ map (migrated kilo) orders_rows)
    × (migrated_run.1 ≡ finished_progress 8 (codes "orders") 3 new_progress)
    × (migrated_run.2 ≡ finished)
migration_converts_example =
    migration_converts memory kilo 2 8 5 (codes "orders") orders_rows idle (omega arith) refl
      (omega arith) (λ q n. no-IsNull q n) (omega arith) (omega arith)

abbrev null_row : Row ℕ
null_row = record { id = 3; amount = none; shadow = none }

abbrev with_null : List (Row ℕ)
with_null =
    record { id = 1; amount = some (pos 5000); shadow = none }
    ∷ null_row
    ∷ record { id = 4; amount = some (pos 1000); shadow = none }
    ∷ []

null_amount_fails_example :
    (start_migration memory kilo 2 8 5 (codes "orders") with_null idle).2 ≡ batch_error
null_amount_fails_example =
    null_amount_fails memory kilo 2 8 5 (codes "orders") with_null idle null_row (omega arith) refl
      (omega arith) (inr (inl refl), refl, refl) (omega arith) (omega arith) (omega arith)

-- `LIMIT 0` gives no row, which is taken for the end.
zero_batch_size :
    let r = start_migration memory kilo 0 8 5 (codes "orders") orders_rows idle in
    (r.0 ≡ orders_rows) × (r.2 ≡ finished)
unfolding start_migration
zero_batch_size = (refl, refl)

-- Two backfills of one worker.
abbrev two_jobs : List Op
two_jobs =
    Laws.Op.starts 3 orders
    ∷ sets_total 10
    ∷ completes_rows 10
    ∷ completes 9
    ∷ Laws.Op.starts 20 (codes "users")
    ∷ sets_total 6
    ∷ completes_rows 2
    ∷ counts_error
    ∷ []

history_counts_example :
    ((run two_jobs new_progress).completed_rows ≡ 12) × ((run two_jobs new_progress).errors ≡ 1)
history_counts_example = history_counts two_jobs

-- Of the six rows of the second job two are done, and the percentage is 200.
over_hundred :
    (get_snapshot quarters (λ t. t) 30 31 (run two_jobs new_progress)).progress_percentage ≡ 800
unfolding get_snapshot run
over_hundred = refl
