-- ===== src/Logger/Laws.antt =====
-- The first call decides the level for good.
use transisi_db.Prelude.{◌≡◌, refl, true, some, List, [], ◌∷◌, arith, leb, if◌then◌else◌}
use transisi_db.Logger.{
  Level, info_level, severity, level_of, fresh, init, Output, line, silent, log, Call, inits, logs,
  run,
}

-- The lines of a logger whose level is fixed.
abbrev pub lines_at : Level → List Call → List Output
lines_at least [] = []
lines_at least (inits level ∷ calls) = lines_at least calls
lines_at least (logs level ∷ calls) =
    (if leb (severity least) (severity level) then line else silent) ∷ lines_at least calls

-- The level that the first call asks for: a line before `Init` asks for INFO.
abbrev pub first_level : List Call → Level
first_level (inits level ∷ calls) = level_of level
first_level _ = info_level

run_at :
    (least : Level) (calls : List Call)
    → run calls (record { once_done = true; default_logger = some least }) ≡ lines_at least calls
unfolding run init log
run_at least [] = refl
run_at least (inits level ∷ calls) = run_at least calls
run_at least (logs level ∷ calls) = ground (arith, run_at least calls)

-- In any history of a program, the first call fixes the level: that of its `Init`, or INFO if it
-- writes a line. From then on a call writes its line exactly when its own level is at least that,
-- every later `Init` is without effect, and no call meets a nil logger.
pub first_call_decides : (calls : List Call) → run calls fresh ≡ lines_at (first_level calls) calls
unfolding run init log
first_call_decides [] = refl
first_call_decides (inits level ∷ calls) = run_at (level_of level) calls
first_call_decides (logs level ∷ calls) = ground (arith, run_at info_level calls)
