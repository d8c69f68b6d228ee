-- ===== src/Parser/Arity.antt =====
-- The shape of a rewritten INSERT: how many columns and values it has, and which values they are.
use transisi_db.Prelude.{
  ℕ, ◌+◌, ◌≤◌, ◌≡◌, ◌≢◌, ◌↔◌, refl, true, Option, none, some, List, [], ◌∷◌, ◌++◌, map, length,
  length-append, All, arith, subst, ap, Name,
}
use transisi_db.Parser.{
  Rows, values, other_rows, Insert, insert, Library, TableConfig, TablesConfig, analyze_insert,
  new_parsed_query, currency_in, scan_row, first_row,
}
use transisi_db.Parser.Rewrite.{
  shadow_columns, shadow_values, converted_values, extend_rows, rewrite_insert, table_config,
}

abbrev pub HasWidth : {E R : Type 0} → ℕ → Rows E R → Type 0
HasWidth n (values rows) = All (λ row. length row ≡ n) rows
HasWidth n (other_rows r) = Unit

-- Every row has as many values as there are columns.
abbrev pub IsRectangular : {E R : Type 0} → Insert E R → Type 0
IsRectangular s = HasWidth (length s.columns) s.rows

module _ {E F R : Type 0} (lib : Library E F R) where
  -- Analysis, conversion and rewriting of an INSERT, as `handleQuery` chains them.
  unfoldable pub dual_write : TablesConfig → Name → Insert E R → Insert E R
  unfolding analyze_insert converted_values rewrite_insert
  dual_write tables query s =
      let pq = analyze_insert lib tables s (new_parsed_query lib query (insert s)) in
      rewrite_insert lib (table_config tables pq.table_name) pq.currency_columns
        (converted_values lib pq.values) s

  -- The values that are converted: those of the first row.
  abbrev pub conversion : List Name → List E → Name → Option F
  conversion columns row = converted_values lib (scan_row lib columns row (λ k. none))

  length-shadow_columns :
      (table : TableConfig) (cs : List Name)
      → length (shadow_columns table (currency_in table cs)) ≡ length (currency_in table cs)
  length-shadow_columns table [] = refl
  length-shadow_columns table (c ∷ cs) = ground (arith, length-shadow_columns table cs)

  length-shadow_values_le :
      (converted : Name → Option F) (cs : List Name)
      → length (shadow_values lib converted cs) ≤ length cs
  length-shadow_values_le converted [] = omega arith
  length-shadow_values_le converted (c ∷ cs) = ground (arith, length-shadow_values_le converted cs)

  length-shadow_values_iff :
      (converted : Name → Option F) (cs : List Name)
      → (length (shadow_values lib converted cs) ≡ length cs) ↔ All (λ c. converted c ≢ none) cs
  length-shadow_values_iff converted [] = (λ h. tt, λ h. refl)
  length-shadow_values_iff converted (c ∷ cs) =
      let (f, g) = length-shadow_values_iff converted cs in
      ground (arith, length-shadow_values_le converted cs, f, g)

  extend-rectangular :
      (n k : ℕ) (tail : List E) (rows : List (List E))
      → length tail ≡ k
      → All (λ row. length row ≡ n) rows
      → All (λ row. length row ≡ n + k) (map (λ row. row ++ tail) rows)
  extend-rectangular n k tail [] e h = tt
  extend-rectangular n k tail (row ∷ rows) e (h, hs) =
      (omega (arith, length-append row tail), extend-rectangular n k tail rows e hs)

  extend-HasWidth :
      (n k : ℕ) (tail row : List E) (rows : List (List E))
      → HasWidth {R = R} n (values (row ∷ rows))
      → HasWidth (n + k) (extend_rows lib tail (values (row ∷ rows))) ↔ (length tail ≡ k)
  extend-HasWidth n k tail row rows h = (
    λ g. omega (arith, length-append row tail, g.0, h.0),
    λ e. extend-rectangular n k tail (row ∷ rows) e h,
  )

  HasWidth-eq : {m n : ℕ} {a b : Rows E R} → m ≡ n → a ≡ b → HasWidth m a ↔ HasWidth n b
  HasWidth-eq p q = rw (p, q) (λ x. x, λ x. x)

  pub rewrite_insert-IsRectangular :
      (table : TableConfig) (cs : List Name) (converted : Name → Option F) (s : Insert E R)
      (row : List E) (rows : List (List E))
      → s.rows ≡ values (row ∷ rows)
      → IsRectangular s
      → IsRectangular (rewrite_insert lib table (currency_in table cs) converted s)
        ↔ All (λ c. converted c ≢ none) (currency_in table cs)
  unfolding rewrite_insert
  rewrite_insert-IsRectangular table cs converted s row rows r h =
      let k = length (currency_in table cs) in
      let tail = shadow_values lib converted (currency_in table cs) in
      let w =
        extend-HasWidth (length s.columns) k tail row rows
          (subst (λ z. HasWidth (length s.columns) z) r h) in
      let (f, g) = length-shadow_values_iff converted (currency_in table cs) in
      let shadow = shadow_columns table (currency_in table cs) in
      let width : length (s.columns ++ shadow) ≡ length s.columns + k = omega (
        arith,
        length-append s.columns (shadow_columns table (currency_in table cs)),
        length-shadow_columns table cs,
      ) in
      let (to, from) = HasWidth-eq width (ap (extend_rows lib tail) r) in
      (λ x. f (w.0 (to x)), λ y. from (w.1 (g y)))

  enabled-dual_write :
      (tables : TablesConfig) (query : Name) (s : Insert E R) (table : TableConfig) (row : List E)
      (rows : List (List E))
      → tables s.table ≡ some table
      → table.enabled ≡ true
      → s.rows ≡ values (row ∷ rows)
      → dual_write tables query s
        ≡ rewrite_insert lib table (currency_in table s.columns) (conversion s.columns row) s
  unfolding dual_write analyze_insert first_row
  enabled-dual_write tables query s table row rows t e r = ground arith

  -- Of an INSERT into an enabled table whose rows have as many values as it names columns, each
  -- rewritten row still has as many values as there are columns exactly when each currency column was
  -- given a converted value, which comes from the first row.
  pub rewritten-IsRectangular :
      (tables : TablesConfig) (query : Name) (s : Insert E R) (table : TableConfig) (row : List E)
      (rows : List (List E))
      → tables s.table ≡ some table
      → table.enabled ≡ true
      → s.rows ≡ values (row ∷ rows)
      → IsRectangular s
      → IsRectangular (dual_write tables query s)
        ↔ All (λ c. conversion s.columns row c ≢ none) (currency_in table s.columns)
  rewritten-IsRectangular tables query s table row rows t e r h =
      rw (enabled-dual_write tables query s table row rows t e r)
        (rewrite_insert-IsRectangular table s.columns (conversion s.columns row) s row rows r h)

  -- In every row of an INSERT into an enabled table the converted values that are added are those of
  -- the first row: the ones added when the first row is inserted alone.
  pub rows_alike :
      (tables : TablesConfig) (query : Name) (s : Insert E R) (table : TableConfig) (row : List E)
      (rows : List (List E))
      → tables s.table ≡ some table
      → table.enabled ≡ true
      → s.rows ≡ values (row ∷ rows)
      → let alone = dual_write tables query (record s { rows = values (row ∷ []) }) in
        (tail : List E) × (alone.rows ≡ values ((row ++ tail) ∷ []))
        × ((dual_write tables query s).rows ≡ values (map (λ r. r ++ tail) (row ∷ rows)))
  unfolding dual_write rewrite_insert analyze_insert first_row
  rows_alike tables query s table row rows t e r = (
    shadow_values lib (conversion s.columns row) (currency_in table s.columns),
    ground arith,
    ground arith,
  )
