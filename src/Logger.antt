-- ===== src/Logger.antt =====
-- internal/logger/logger.go: the level of the one logger, and which calls write a line. That a handler
-- of log/slog writes the records at its level and above is its documentation.
pub mod Laws
mod Examples
use transisi_db.Prelude.{
  ℕ, Bool, true, false, Option, none, some, List, [], ◌∷◌, ◌++◌, Name, codes, bytes_eq, leb,
  if◌then◌else◌,
}

pub data Level : Type 0 where
  debug_level info_level warn_level error_level : Level

-- The order of the levels.
abbrev pub severity : Level → ℕ
severity debug_level = 0
severity info_level = 1
severity warn_level = 2
severity error_level = 3

unfoldable pub level_of : Name → Level
level_of level =
    if bytes_eq level (codes "DEBUG")
    then debug_level
    else if bytes_eq level (codes "WARN")
    then warn_level
    else if bytes_eq level (codes "ERROR")
    then error_level
    else info_level

-- `once` and `defaultLogger`, as the level of its handler.
pub record Logger : Type 0 where
  pub once_done : Bool
  pub default_logger : Option Level

abbrev pub fresh : Logger
fresh = record { once_done = false; default_logger = none }

unfoldable pub init : Name → Logger → Logger
unfolding level_of
init level g =
    if g.once_done then g else record { once_done = true; default_logger = some (level_of level) }

-- What a call of `Debug`, `Info`, `Warn` or `Error` does: a line, none, or the panic on a nil logger.
pub data Output : Type 0 where
  line silent nil_dereference : Output

written : Level → Option Level → Output
written level none = nil_dereference
written level (some least) = if leb (severity least) (severity level) then line else silent

abbrev is_nil : Option Level → Bool
is_nil none = true
is_nil (some l) = false

unfoldable pub log : Level → Logger → Logger × Output
unfolding init written
log level g =
    let g' = if is_nil g.default_logger then init (codes "INFO") g else g in
    (g', written level g'.default_logger)

-- A call of the package.
pub data Call : Type 0 where
  inits : Name → Call
  logs : Level → Call

-- The outputs of a history.
unfoldable pub run : List Call → Logger → List Output
unfolding init log
run [] g = []
run (inits level ∷ calls) g = run calls (init level g)
run (logs level ∷ calls) g = let (g', out) = log level g in out ∷ run calls g'
