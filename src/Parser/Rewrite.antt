-- ===== src/Parser/Rewrite.antt =====
-- The rewriting of a statement in internal/parser/parser.go, and how `handleQuery` of
-- internal/proxy/session.go uses it.
use transisi_db.Prelude.{false, Option, none, some, List, [], ◌∷◌, ◌++◌, map, if◌then◌else◌, Name}
use transisi_db.Protocol.Packet.{Packet}
use transisi_db.Session.Io.{Session, Io}
use transisi_db.Session.Query.{handle_query}
use transisi_db.Parser.{
  text, Values, Rows, values, other_rows, Insert, Update, Statement, insert, update, Library,
  TableConfig, TablesConfig, ParsedQuery, parse_query,
}

-- The target columns of the currency columns.
abbrev pub shadow_columns : TableConfig → List Name → List Name
shadow_columns table [] = []
shadow_columns table (c ∷ cs) = elim (table.columns c) [
  | none ↦ shadow_columns table cs
  | some target ↦ target ∷ shadow_columns table cs
]

-- `tableConfig := p.tableConfig[name]`, the zero value if there is none.
abbrev pub table_config : TablesConfig → Name → TableConfig
table_config tables name = elim (tables name) [
  | none ↦ record { enabled = false; columns = λ c. none }
  | some table ↦ table
]

module _ {E F R : Type 0} (lib : Library E F R) where
  -- The conversion in `handleQuery`: of the values that are texts.
  unfoldable pub converted_values : Values → Name → Option F
  converted_values m c = elim (m c) [ some (text s) ↦ some (lib.convert s) | _ ↦ none ]

  abbrev pub shadow_values : (Name → Option F) → List Name → List E
  shadow_values converted [] = []
  shadow_values converted (c ∷ cs) = elim (converted c) [
    | none ↦ shadow_values converted cs
    | some f ↦ lib.float_val_of f ∷ shadow_values converted cs
  ]

  abbrev pub extend_rows : List E → Rows E R → Rows E R
  extend_rows tail (values rows) = values (map (λ row. row ++ tail) rows)
  extend_rows tail (other_rows r) = other_rows r

  unfoldable pub rewrite_insert :
      TableConfig → List Name → (Name → Option F) → Insert E R → Insert E R
  rewrite_insert table currency converted s = record s {
    columns = s.columns ++ shadow_columns table currency;
    rows = extend_rows (shadow_values converted currency) s.rows;
  }

  abbrev pub shadow_exprs : TableConfig → (Name → Option F) → List Name → List (Name × E)
  shadow_exprs table converted [] = []
  shadow_exprs table converted (c ∷ cs) = elim (table.columns c) [
    | none ↦ shadow_exprs table converted cs
    | some target ↦ elim (converted c) [
      | none ↦ shadow_exprs table converted cs
      | some f ↦ (target, lib.float_val_of f) ∷ shadow_exprs table converted cs
    ]
  ]

  unfoldable pub rewrite_update :
      TableConfig → List Name → (Name → Option F) → Update E R → Update E R
  rewrite_update table currency converted s = record s {
    exprs = s.exprs ++ shadow_exprs table converted currency;
  }

  rewrite_statement : TableConfig → ParsedQuery E R → (Name → Option F) → Statement E R → Name
  unfolding rewrite_insert rewrite_update
  rewrite_statement table pq converted (insert s) =
      lib.print (insert (rewrite_insert table pq.currency_columns converted s))
  rewrite_statement table pq converted (update s) =
      lib.print (update (rewrite_update table pq.currency_columns converted s))
  rewrite_statement table pq converted _ = pq.original

  unfoldable pub rewrite_for_dual_write : TablesConfig → ParsedQuery E R → (Name → Option F) → Name
  unfolding rewrite_statement
  rewrite_for_dual_write tables pq converted =
      if pq.needs_transform
      then rewrite_statement (table_config tables pq.table_name) pq converted pq.statement
      else pq.original

  -- The new text of a query that `handleQuery` rewrites; `none` where it forwards the query as it is.
  unfoldable pub rewritten : TablesConfig → Name → Option Name
  unfolding parse_query converted_values rewrite_for_dual_write
  rewritten tables query = elim (parse_query lib tables query) [
    | none ↦ none
    | some pq ↦
        if pq.needs_transform
        then some (rewrite_for_dual_write tables pq (converted_values pq.values))
        else none
  ]

  -- `handleQuery` with its parser.
  unfoldable pub handle_query_with : TablesConfig → Packet → Session → Io (Unit {0})
  unfolding handle_query rewritten
  handle_query_with tables cmd s = handle_query (rewritten tables) cmd s
