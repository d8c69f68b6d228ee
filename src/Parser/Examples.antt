-- ===== src/Parser/Examples.antt =====
-- Tests and witnesses: an INSERT of two orders, with a library whose expressions are their kinds.
use transisi_db.Prelude.{
  ◌≡◌, ◌≢◌, ◌↔◌, refl, arith, bytes_eq-eq, Bool-cases, true, none, some, List, [], ◌∷◌, ◌++◌, map,
  if◌then◌else◌, All, inl, inr, codes, bytes_eq, Name,
}
use transisi_db.Parser.{
  Kind, int_val, float_val, str_val, values, named, Insert, Update, Statement, insert, update,
  Library, TableConfig, TablesConfig, currency_in, extract_value,
}
use transisi_db.Parser.Rewrite.{rewritten}
use transisi_db.Parser.Arity.{
  IsRectangular, dual_write, conversion, rewritten-IsRectangular, rows_alike,
}
use transisi_db.Parser.Texts.{Texts, dual_write-IsRectangular}
use transisi_db.Parser.Quotes.{normalize_table_name}
use transisi_db.Parser.Targets.{last, or_else, IsTarget}
use transisi_db.Parser.Assignments.{shadow_of, update_rewritten}
use transisi_db.Parser.Choice.{Covers, Writes, rewritten_iff}

abbrev pub amount : Name
amount = codes "total_amount"

abbrev pub shadow : Name
shadow = codes "total_amount_idn"

abbrev pub orders : TablesConfig
orders name =
    if bytes_eq name (codes "orders")
    then some
        (record { enabled = true; columns = λ c. if bytes_eq c amount then some shadow else none })
    else none

abbrev pub orders_table : TableConfig
orders_table = record {
  enabled = true;
  columns = λ c. if bytes_eq c amount then some shadow else none;
}

abbrev pub first_order : List Kind
first_order = int_val (codes "1") ∷ int_val (codes "500000") ∷ []

abbrev pub second_order : List Kind
second_order = int_val (codes "2") ∷ int_val (codes "7000") ∷ []

abbrev pub two_orders : Insert Kind (Unit {0})
two_orders = record {
  table = codes "orders";
  columns = codes "id" ∷ amount ∷ [];
  rows = values (first_order ∷ second_order ∷ []);
  rest = tt;
}

abbrev pub join : List Name → Name
join [] = []
join (n ∷ ns) = n ++ codes "," ++ join ns

abbrev pub show : Statement Kind (Unit {0}) → Name
show (insert s) = codes "INSERT " ++ join s.columns
show _ = []

abbrev pub sql : Library Kind Name (Unit {0})
sql = record {
  parse = λ q. if bytes_eq q (codes "INSERT") then some (insert two_orders) else none;
  print = show;
  kind = λ e. e;
  print_expr = λ e. [];
  convert = λ n. n;
  float_val_of = float_val;
}

abbrev pub query : Name
query = codes "INSERT"

orders_rewritten :
    (dual_write sql orders query two_orders).rows
    ≡ values (
        (first_order ++ float_val (codes "500000") ∷ [])
        ∷ (second_order ++ float_val (codes "500000") ∷ [])
        ∷ [])
unfolding dual_write
orders_rewritten = refl

query-rewritten :
    rewritten sql orders query ≡ some (codes "INSERT id,total_amount,total_amount_idn,")
unfolding rewritten
query-rewritten = refl

pub two_orders-IsRectangular : IsRectangular two_orders
two_orders-IsRectangular = (refl, (refl, tt))

first_order-Texts : Texts sql orders_table two_orders.columns first_order
unfolding extract_value
first_order-Texts = (λ h. absurd (h refl), (λ h. tt, tt))

pub two_orders-Covers : Covers orders (codes "orders") (codes "id" ∷ amount ∷ [])
two_orders-Covers = (orders_table, refl, refl, inr (inl (λ q. cc)))

rewritten-IsRectangular_example :
    IsRectangular (dual_write sql orders query two_orders)
    ↔ All
        (λ c. conversion sql two_orders.columns first_order c ≢ none)
        (currency_in orders_table two_orders.columns)
rewritten-IsRectangular_example =
    rewritten-IsRectangular sql orders query two_orders orders_table first_order (second_order ∷ [])
      refl refl refl two_orders-IsRectangular

rows_alike_example :
    (tail : List Kind) × ((dual_write sql orders query
        (record two_orders { rows = values (first_order ∷ []) })).rows
      ≡ values ((first_order ++ tail) ∷ []))
    × ((dual_write sql orders query two_orders).rows
        ≡ values (map (λ r. r ++ tail) (first_order ∷ second_order ∷ [])))
rows_alike_example =
    rows_alike sql orders query two_orders orders_table first_order (second_order ∷ []) refl refl
      refl

dual_write-IsRectangular_example : IsRectangular (dual_write sql orders query two_orders)
dual_write-IsRectangular_example =
    dual_write-IsRectangular sql orders query two_orders orders_table first_order
      (second_order ∷ []) refl refl refl two_orders-IsRectangular first_order-Texts

rewritten_iff_example :
    (rewritten sql orders query ≢ none)
    ↔ ((stmt : Statement Kind (Unit {0})) × (sql.parse query ≡ some stmt) × Writes sql orders stmt)
rewritten_iff_example = rewritten_iff sql orders query

-- An UPDATE that assigns the amount twice.
abbrev raised : Update Kind (Unit {0})
raised = record {
  table_exprs = named (codes "orders") ∷ [];
  exprs =
      (amount, int_val (codes "5"))
      ∷ (codes "note", str_val (codes "x"))
      ∷ (amount, int_val (codes "7"))
      ∷ [];
  rest = tt;
}

abbrev updates : Library Kind Name (Unit {0})
updates = record sql { parse = λ q. some (update raised) }

amount-IsTarget : IsTarget orders_table amount shadow
amount-IsTarget = (
  refl,
  λ d h. elim (Bool-cases (bytes_eq d amount)) [
    | inl q ↦ bytes_eq-eq d amount q
    | inr q ↦ absurd (ground (arith, q, h))
  ],
)

shadow_of-last :
    or_else (shadow_of updates (last amount raised.exprs)) (last shadow raised.exprs)
    ≡ some (float_val (codes "7"))
unfolding extract_value
shadow_of-last = refl

update_rewritten_example :
    (es : List (Name × Kind)) × (rewritten updates orders query
      ≡ some (updates.print (update (record raised { exprs = es }))))
    × ((c t : Name)
        → IsTarget orders_table c t
        → last t es ≡ or_else (shadow_of updates (last c raised.exprs)) (last t raised.exprs))
    × ((k : Name)
        → ((d : Name) → orders_table.columns d ≢ some k)
        → last k es ≡ last k raised.exprs)
update_rewritten_example =
    update_rewritten updates orders query raised orders_table refl refl refl (inl (λ q. cc))

quoted_name : normalize_table_name (codes "`\"orders\"`") ≡ codes "orders"
unfolding normalize_table_name
quoted_name = refl

-- The other way round one pair of quotes stays.
quoted_twice : normalize_table_name (codes "\"`orders`\"") ≡ codes "`orders`"
unfolding normalize_table_name
quoted_twice = refl
