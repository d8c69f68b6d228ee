-- ===== src/Logger/Examples.antt =====
-- A program that logs before it has read the level.
use transisi_db.Prelude.{◌≡◌, refl, List, [], ◌∷◌, codes}
use transisi_db.Logger.{
  Call, inits, logs, debug_level, info_level, error_level, fresh, run, line, silent,
}
use transisi_db.Logger.Laws.{lines_at, first_level, first_call_decides}

abbrev early : List Call
early =
    logs info_level
    ∷ inits (codes "ERROR")
    ∷ logs info_level
    ∷ logs debug_level
    ∷ logs error_level
    ∷ []

early_lines : run early fresh ≡ line ∷ line ∷ silent ∷ line ∷ []
unfolding run
early_lines = refl

-- A level in small letters is not known.
small_letters : run (inits (codes "debug") ∷ logs debug_level ∷ []) fresh ≡ silent ∷ []
unfolding run
small_letters = refl

first_call_decides_example : run early fresh ≡ lines_at (first_level early) early
first_call_decides_example = first_call_decides early
