-- ===== src/Simulation/Cells.antt =====
-- What a simulated answer holds in each cell.
use transisi_db.Prelude.{ℕ, ℤ, none, ◌≡◌, ◌≢◌, some, List, get_elem?, Name}
use transisi_db.Config.{Config, ColumnConfig, lookup}
use transisi_db.Rounding.{Float, convert_idr_to_idn}
use transisi_db.Simulation.{Value, int64, Cell, converted, as_scanned, new_engine}

-- The value at row `j` and column `i` of the scanned rows `vss`.
abbrev pub IsScanned : {V : Type 0} → List (List (Value V)) → ℕ → ℕ → Value V → Type 0
IsScanned {V} vss j i v =
    (vs : List (Value V)) × (get_elem? vss j ≡ some vs) × (get_elem? vs i ≡ some v)

-- The cell of a scanned value `v` in the column `k`: converted if the column is configured and the
-- value is an int64, and as it was scanned if either fails.
pub record IsCellOf {F V : Type 0} (fl : Float F) (c : Config)
    (configured : List (Name × ColumnConfig)) (k : Name) (v : Value V) (cell : Cell F V)
    : Type 0 where
  pub amount :
      (n : ℤ)
      → v ≡ int64 n
      → lookup k configured ≢ none
      → cell ≡ converted (convert_idr_to_idn fl (new_engine c) n c.conversion.ratio)
  pub other_column : lookup k configured ≡ none → cell ≡ as_scanned v
  pub other_value : ((n : ℤ) → v ≢ int64 n) → cell ≡ as_scanned v
