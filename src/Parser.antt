-- ===== src/Parser.antt =====
-- internal/parser/parser.go, up to the analysis of a statement. Names and texts are byte lists, maps
-- are functions. Of the SQL library (github.com/xwb1989/sqlparser) only what the code reads of its
-- trees is written out; its parser, its printer, its expressions and number literals, and the rest of
-- a statement, are parameters.
pub mod Rewrite
pub mod Arity
pub mod Texts
pub mod Choice
pub mod Targets
pub mod Assignments
pub mod Quotes
pub mod Examples
use transisi_db.Prelude.{
  Name, Bool, true, false, not, ◌&&◌, ◌||◌, Option, none, some, List, [], ◌∷◌, ℕ, if◌then◌else◌,
  codes, bytes_eq, ◌==◌,
}
use mathlib.Core.List.{reverse}
use Prim.Native.String.{String}

-- What `extractValue` tells apart: the types of a `*SQLVal`, `BoolVal`, `*NullVal`, all else.
pub data Kind : Type 0 where
  int_val str_val float_val : Name → Kind
  other_val : Kind
  bool_val : Bool → Kind
  null_val : Kind
  other_expr : Kind

-- `NULL` is the nil interface.
pub data Value : Type 0 where
  text : Name → Value
  boolean : Bool → Value
  nil : Value

-- An aliased table with a plain name, or any other table expression.
pub data TableExpr : Type 0 where
  named : Name → TableExpr
  other_table : TableExpr

pub data Rows (E R : Type 0) : Type 0 where
  values : List (List E) → Rows E R
  other_rows : R → Rows E R

pub record Insert (E R : Type 0) : Type 0 where
  pub table : Name
  pub columns : List Name
  pub rows : Rows E R
  pub rest : R

pub record Update (E R : Type 0) : Type 0 where
  pub table_exprs : List TableExpr
  pub exprs : List (Name × E)
  pub rest : R

pub data Statement (E R : Type 0) : Type 0 where
  select : List TableExpr → R → Statement E R
  insert : Insert E R → Statement E R
  update : Update E R → Statement E R
  delete : List TableExpr → R → Statement E R
  other_statement : R → Statement E R

-- The SQL library, and the floats `F`: `convert` reads a number and divides it by the ratio,
-- `float_val_of` is `NewFloatVal` of the text with four decimals.
pub record Library (E F R : Type 0) : Type 0 where
  pub parse : Name → Option (Statement E R)
  pub print : Statement E R → Name
  pub kind : E → Kind
  pub print_expr : E → Name
  pub convert : Name → F
  pub float_val_of : F → E

pub record TableConfig : Type 0 where
  pub enabled : Bool
  pub columns : Name → Option Name

abbrev pub TablesConfig : Type 0
TablesConfig = Name → Option TableConfig

pub data QueryType : Type 0 where
  query_unknown query_select query_insert query_update query_delete : QueryType

unfoldable pub is_mutation : QueryType → Bool
is_mutation query_insert = true
is_mutation query_update = true
is_mutation query_delete = true
is_mutation _ = false

unfoldable pub query_type_string : QueryType → String
query_type_string query_select = "SELECT"
query_type_string query_insert = "INSERT"
query_type_string query_update = "UPDATE"
query_type_string query_delete = "DELETE"
query_type_string query_unknown = "UNKNOWN"

abbrev pub Values : Type 0
Values = Name → Option Value

pub record ParsedQuery (E R : Type 0) : Type 0 where
  pub original : Name
  pub query_type : QueryType
  pub statement : Statement E R
  pub table_name : Name
  pub currency_columns : List Name
  pub values : Values
  pub needs_transform : Bool

abbrev pub set : Name → Value → Values → Values
set c v m k = if bytes_eq k c then some v else m k

-- The columns that the table configures, in order.
abbrev pub currency_in : TableConfig → List Name → List Name
currency_in table [] = []
currency_in table (c ∷ cs) = elim (table.columns c) [
  | none ↦ currency_in table cs
  | some target ↦ c ∷ currency_in table cs
]

abbrev pub nonempty : List Name → Bool
nonempty [] = false
nonempty (c ∷ cs) = true

abbrev pub first_table : List TableExpr → Name
first_table (named t ∷ ts) = t
first_table _ = []

module _ {E F R : Type 0} (lib : Library E F R) where
  unfoldable pub extract_value : E → Value
  extract_value e = elim (lib.kind e) [
    | int_val s ↦ text s
    | str_val s ↦ text s
    | float_val s ↦ text s
    | bool_val b ↦ boolean b
    | null_val ↦ nil
    | _ ↦ text (lib.print_expr e)
  ]

  -- The values of a row under the names of their columns.
  unfoldable pub scan_row : List Name → List E → Values → Values
  unfolding extract_value
  scan_row (c ∷ cs) (e ∷ es) m = scan_row cs es (set c (extract_value e) m)
  scan_row _ _ m = m

  unfoldable pub first_row : List Name → Rows E R → Values → Values
  unfolding scan_row
  first_row columns (values (row ∷ rows)) m = scan_row columns row m
  first_row columns _ m = m

  -- A table that is configured and enabled.
  abbrev pub enabled_table : TablesConfig → Name → Option TableConfig
  enabled_table tables name = elim (tables name) [
    | none ↦ none
    | some table ↦ if table.enabled then some table else none
  ]

  unfoldable pub analyze_insert : TablesConfig → Insert E R → ParsedQuery E R → ParsedQuery E R
  unfolding first_row
  analyze_insert tables s pq = elim (enabled_table tables s.table) [
    | none ↦ record pq { table_name = s.table; needs_transform = false }
    | some table ↦ record pq {
      table_name = s.table;
      currency_columns = currency_in table s.columns;
      needs_transform = nonempty (currency_in table s.columns);
      values = first_row s.columns s.rows pq.values;
    }
  ]

  -- The values of the assignments to currency columns.
  unfoldable pub scan_exprs : TableConfig → List (Name × E) → Values → Values
  unfolding extract_value
  scan_exprs table [] m = m
  scan_exprs table ((c, e) ∷ es) m = elim (table.columns c) [
    | none ↦ scan_exprs table es m
    | some target ↦ scan_exprs table es (set c (extract_value e) m)
  ]

  abbrev pub names : List (Name × E) → List Name
  names [] = []
  names ((c, e) ∷ es) = c ∷ names es

  unfoldable pub analyze_update : TablesConfig → Update E R → ParsedQuery E R → ParsedQuery E R
  unfolding scan_exprs
  analyze_update tables s pq =
      let name = first_table s.table_exprs in
      elim (enabled_table tables name) [
        | none ↦ record pq { table_name = name; needs_transform = false }
        | some table ↦ record pq {
          table_name = name;
          currency_columns = currency_in table (names s.exprs);
          needs_transform = nonempty (currency_in table (names s.exprs));
          values = scan_exprs table s.exprs pq.values;
        }
      ]

  abbrev pub new_parsed_query : Name → Statement E R → ParsedQuery E R
  new_parsed_query query stmt = record {
    original = query;
    query_type = query_unknown;
    statement = stmt;
    table_name = [];
    currency_columns = [];
    values = λ k. none;
    needs_transform = false;
  }

  unfoldable pub analyze : TablesConfig → Statement E R → ParsedQuery E R → ParsedQuery E R
  unfolding analyze_insert analyze_update
  analyze tables (select ts r) pq = record pq {
    query_type = query_select;
    table_name = first_table ts;
    needs_transform = false;
  }
  analyze tables (insert s) pq = analyze_insert tables s (record pq { query_type = query_insert })
  analyze tables (update s) pq = analyze_update tables s (record pq { query_type = query_update })
  analyze tables (delete ts r) pq = record pq {
    query_type = query_delete;
    table_name = first_table ts;
    needs_transform = false;
  }
  analyze tables (other_statement r) pq = record pq { query_type = query_unknown }

  -- `Parse`; `none` is its error.
  unfoldable pub parse_query : TablesConfig → Name → Option (ParsedQuery E R)
  unfolding analyze
  parse_query tables query = elim (lib.parse query) [
    | none ↦ none
    | some stmt ↦ some (analyze tables stmt (new_parsed_query query stmt))
  ]
