-- ===== src/Simulation.antt =====
-- internal/simulation/simulator.go: which requests are simulated, and the answer that is. The rows
-- are what package database/sql gives.
pub mod Laws
pub mod Cells
mod Examples
use transisi_db.Prelude.{
  ℕ, Bool, true, false, Option, none, some, List, [], ◌∷◌, Name, codes, ℤ, bytes_eq, not, ◌||◌,
  ◌++◌, if◌then◌else◌,
}
use transisi_db.Config.{Config, ColumnConfig, TableConfig, lookup, is_empty}
use transisi_db.Rounding.{Float, Engine, convert_idr_to_idn}

-- `NewSimulator`: the engine of a configuration.
abbrev pub new_engine : Config → Engine
new_engine c = record {
  strategy = c.conversion.rounding_strategy;
  precision = c.conversion.precision;
}

abbrev pub simulate_idn : Name
simulate_idn = codes "SIMULATE_IDN"

abbrev pub any_address : Name
any_address = codes "0.0.0.0/0"

-- The loop over the allowed addresses.
abbrev pub allows : Name → List Name → Bool
allows client_ip [] = false
allows client_ip (ip ∷ ips) =
    if bytes_eq client_ip ip || bytes_eq ip any_address then true else allows client_ip ips

abbrev pub address_allowed : Name → List Name → Bool
address_allowed client_ip [] = true
address_allowed client_ip (ip ∷ ips) = allows client_ip (ip ∷ ips)

unfoldable pub should_simulate : Config → Name → Name → Bool
should_simulate c header client_ip =
    if not c.simulation.enabled
    then false
    else if not (bytes_eq header simulate_idn)
    then false
    else address_allowed client_ip c.simulation.allowed_ips

-- A scanned value: an int64, or anything else of `V`.
pub data Value (V : Type 0) : Type 0 where
  int64 : ℤ → Value V
  other : V → Value V

-- A value of the answer: a converted amount, or what was scanned.
pub data Cell (F V : Type 0) : Type 0 where
  converted : F → Cell F V
  as_scanned : Value V → Cell F V

-- What a query gives: its columns, its rows, and whether `rows.Err` is nil; `none` is an error.
pub record Rows (V : Type 0) : Type 0 where
  pub columns : Option (List Name)
  pub rows : List (Option (List (Value V)))
  pub sound : Bool

pub data Error : Type 0 where
  table_not_configured no_columns scan_failed iteration_failed : Error

-- The rows, each the entries of its map with the latest first, and the ratio of the metadata; `error`
-- is the error.
pub data Response (F V : Type 0) : Type 0 where
  simulated : List (List (Name × Cell F V)) → ℤ → Response F V
  error : Error → Response F V

module _ {F V : Type 0} (fl : Float F) (c : Config) where
  unfoldable pub transform_value : List (Name × ColumnConfig) → Name → Value V → Cell F V
  transform_value configured col (int64 n) = elim (lookup col configured) [
    | none ↦ as_scanned (int64 n)
    | some _ ↦ converted (convert_idr_to_idn fl (new_engine c) n c.conversion.ratio)
  ]
  transform_value configured col (other v) = as_scanned (other v)

  -- The loop over the columns; a row has a value for each, so the other case does not arise.
  unfoldable pub transform_row :
      List (Name × ColumnConfig)
      → List Name
      → List (Value V)
      → List (Name × Cell F V)
      → List (Name × Cell F V)
  transform_row configured (col ∷ cols) (v ∷ vs) row =
      transform_row configured cols vs ((col, transform_value configured col v) ∷ row)
  transform_row configured cols vs row = row

  answered : Bool → List (List (Name × Cell F V)) → Response F V
  answered sound done = if sound then simulated done c.conversion.ratio else error iteration_failed

  -- The loop over the rows; the last argument holds those of earlier rounds.
  transform_rows :
      List (Name × ColumnConfig)
      → List Name
      → List (Option (List (Value V)))
      → Bool
      → List (List (Name × Cell F V))
      → Response F V
  unfolding answered
  transform_rows configured cols [] sound done = answered sound done
  transform_rows configured cols (none ∷ rs) sound done = error scan_failed
  transform_rows configured cols (some vs ∷ rs) sound done =
      transform_rows configured cols rs sound (done ++ transform_row configured cols vs [] ∷ [])

  with_columns : List (Name × ColumnConfig) → Option (List Name) → Rows V → Response F V
  unfolding transform_rows
  with_columns configured none rs = error no_columns
  with_columns configured (some cols) rs = transform_rows configured cols rs.rows rs.sound []

  for_table : Rows V → Option TableConfig → Response F V
  unfolding with_columns
  for_table rs none = error table_not_configured
  for_table rs (some t) = with_columns t.columns rs.columns rs

  unfoldable pub transform_response : Rows V → Name → Response F V
  unfolding for_table
  transform_response rs table = for_table rs (lookup table c.tables)
