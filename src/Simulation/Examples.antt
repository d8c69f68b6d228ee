-- ===== src/Simulation/Examples.antt =====
-- Simulated requests, with the toy numbers of Rounding/Examples.
use transisi_db.Prelude.{◌≡◌, refl, Bool, true, false, some, List, [], ◌∷◌, Name, codes, pos, map}
use transisi_db.Config.{Config}
use transisi_db.Config.Examples.{file_config}
use transisi_db.Simulation.{should_simulate, simulate_idn, Value, int64, other, Rows}

abbrev simulating : Config
simulating = record file_config {
  simulation = record { enabled = true; allowed_ips = codes "10.0.0.1" ∷ [] };
}

allowed : should_simulate simulating simulate_idn (codes "10.0.0.1") ≡ true
unfolding should_simulate
allowed = refl

not_allowed : should_simulate simulating simulate_idn (codes "10.0.0.2") ≡ false
unfolding should_simulate
not_allowed = refl

abbrev columns : List Name
columns = codes "id" ∷ codes "total_amount" ∷ []

-- A row with a currency amount, and one where it is missing.
abbrev scanned : List (List (Value Bool))
scanned = (int64 (pos 7) ∷ int64 (pos 4000) ∷ []) ∷ (int64 (pos 8) ∷ other false ∷ []) ∷ []

abbrev rows : Rows Bool
rows = record { columns = some columns; rows = map some scanned; sound = true }
