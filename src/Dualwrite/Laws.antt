-- ===== src/Dualwrite/Laws.antt =====
-- A rewritten INSERT is well formed, and a query is executed in full or not at all.
use transisi_db.Prelude.{
  ◌≡◌, ◌≢◌, ◌↔◌, ◌⊎◌, inl, inr, refl, subst, true, Option, none, some, List, [], ◌∷◌, length, All,
  arith, Option-cases, Name, bytes_eq_refl,
}
use transisi_db.Parser.{
  Value, text, boolean, nil, Values, values, Insert, insert, Library, TableConfig, TablesConfig,
  set, scan_row, currency_in, extract_value, first_row, analyze, analyze_insert, parse_query,
}
use transisi_db.Parser.Rewrite.{rewrite_insert, rewrite_for_dual_write}
use transisi_db.Parser.Arity.{HasWidth, IsRectangular, rewrite_insert-IsRectangular}
use transisi_db.Parser.Texts.{All-currency}
use transisi_db.Parser.Choice.{Covers, needs}
use transisi_db.Dualwrite.{
  begin_tx, exec, commit, Answers, done, put, convert_currency_values, converted_query,
  intercept_and_rewrite, execute_with_dual_write, finish,
}

module _ {E F R : Type 0} (lib : Library E F R) (convert_int : Name → Option F) where
  keeps_present :
      (cs : List Name) (es : List E) (m : Values) (k : Name)
      → m k ≢ none
      → scan_row lib cs es m k ≢ none
  unfolding scan_row
  keeps_present [] es m k h = h
  keeps_present (c ∷ cs) [] m k h = h
  keeps_present (c ∷ cs) (e ∷ es) m k h =
      keeps_present cs es (set c (extract_value lib e) m) k (λ q. ground arith)

  -- Every column of a row that is as long as the column list has a value.
  presents :
      (table : TableConfig) (cs : List Name) (es : List E) (m : Values)
      → length es ≡ length cs
      → All (λ c. scan_row lib cs es m c ≢ none) (currency_in table cs)
  unfolding scan_row
  presents table [] es m l = tt
  presents table (c ∷ cs) [] m l = absurd (omega arith)
  presents table (c ∷ cs) (e ∷ es) m l =
      let m1 = set c (extract_value lib e) m in
      let now : m1 c ≡ some (extract_value lib e) = rw (bytes_eq_refl c) refl in
      All-currency table _ c cs (λ here. keeps_present cs es m1 c (λ q. cc))
        (presents table cs es m1 (omega arith))

  -- A conversion that succeeds has skipped its first column, or has put its value.
  abbrev Converts : Values → Name → List Name → (Name → Option F) → (Name → Option F) → Type 0
  Converts m c cs f g =
      ((m c ≡ none) × (convert_currency_values lib convert_int m cs f ≡ some g))
      ⊎ ((x : F) × (convert_currency_values lib convert_int m cs (put c x f) ≡ some g))

  with_value :
      (m : Values) (c : Name) (cs : List Name) (f g : Name → Option F) (v : Value)
      → m c ≡ some v
      → convert_currency_values lib convert_int m (c ∷ cs) f ≡ some g
      → Converts m c cs f g
  unfolding convert_currency_values
  with_value m c cs f g (text s) j h = elim (Option-cases (convert_int s)) [
    | inl n ↦ ground arith
    | inr (x, i) ↦ inr (x, ground arith)
  ]
  with_value m c cs f g (boolean b) j h = ground arith
  with_value m c cs f g nil j h = ground arith

  converts :
      (m : Values) (c : Name) (cs : List Name) (f g : Name → Option F)
      → convert_currency_values lib convert_int m (c ∷ cs) f ≡ some g
      → Converts m c cs f g
  unfolding convert_currency_values
  converts m c cs f g h = elim (Option-cases (m c)) [
    | inl n ↦ inl (n, ground arith)
    | inr (v, j) ↦ with_value m c cs f g v j h
  ]

  put_keeps : (c k : Name) (x : F) (f : Name → Option F) → f k ≢ none → put c x f k ≢ none
  put_keeps c k x f n = λ q. ground arith

  put_here : (c : Name) (x : F) (f : Name → Option F) → put c x f c ≢ none
  put_here c x f = rw (bytes_eq_refl c) (λ q. cc)

  keeps_converted :
      (m : Values) (cs : List Name) (f g : Name → Option F) (k : Name)
      → convert_currency_values lib convert_int m cs f ≡ some g
      → f k ≢ none
      → g k ≢ none
  unfolding convert_currency_values
  keeps_converted m [] f g k h n = λ q. ground arith
  keeps_converted m (c ∷ cs) f g k h n = elim (converts m c cs f g h) [
    | inl (a, e) ↦ keeps_converted m cs f g k e n
    | inr (x, e) ↦ keeps_converted m cs (put c x f) g k e (put_keeps c k x f n)
  ]

  each_converted :
      (m : Values) (cs : List Name) (f g : Name → Option F)
      → convert_currency_values lib convert_int m cs f ≡ some g
      → All (λ c. m c ≢ none) cs
      → All (λ c. g c ≢ none) cs
  unfolding convert_currency_values
  each_converted m [] f g h n = tt
  each_converted m (c ∷ cs) f g h (n, ns) = elim (converts m c cs f g h) [
    | inl (a, e) ↦ absurd (n a)
    | inr (x, e) ↦ (
      keeps_converted m cs (put c x f) g c e (put_here c x f),
      each_converted m cs (put c x f) g e ns,
    )
  ]

  -- The rewritten form of an INSERT into an enabled table, with the values that were converted.
  abbrev pub extended : TableConfig → Insert E R → (Name → Option F) → Insert E R
  extended table s g = rewrite_insert lib table (currency_in table s.columns) g s

  -- When the orchestrator rewrites an INSERT of rows into a configured column of an enabled table, and
  -- the rows have as many values as it names columns, then the query that it gives is the text of an
  -- INSERT of which the same is true.
  pub intercepted-insert :
      (tables : TablesConfig) (query : Name) (s : Insert E R) (table : TableConfig) (row : List E)
      (rows : List (List E)) {q : Name}
      → lib.parse query ≡ some (insert s)
      → Covers tables s.table s.columns
      → tables s.table ≡ some table
      → table.enabled ≡ true
      → s.rows ≡ values (row ∷ rows)
      → IsRectangular s
      → intercept_and_rewrite lib convert_int tables query ≡ some q
      → (t : Insert E R) × (q ≡ lib.print (insert t)) × IsRectangular t
  unfolding intercept_and_rewrite parse_query analyze analyze_insert first_row
      rewrite_for_dual_write converted_query
  intercepted-insert tables query s table row rows {q} p c t e r w h =
      let n = (needs lib tables query (insert s)).1 c in
      let m = scan_row lib s.columns row (λ k. none) in
      let cs = currency_in table s.columns in
      elim (Option-cases (convert_currency_values lib convert_int m cs (λ k. none))) [
        | inl i ↦ ground arith
        | inr (g, i) ↦ (
          extended table s g,
          ground arith,
          (rewrite_insert-IsRectangular lib table s.columns g s row rows r w).1 (
              each_converted m cs (λ k. none) g i
                (presents table s.columns row (λ k. none)
                  (subst (λ z. HasWidth (length s.columns) z) r w).0)),
        )
      ]

  -- What a success takes: the rewritten query, executed alone in a transaction, and that the three
  -- calls for it succeed.
  abbrev pub IsCommitted : TablesConfig → Answers → Name → Type 0
  IsCommitted tables db query =
      (q : Name) × (intercept_and_rewrite lib convert_int tables query ≡ some q)
      × ((execute_with_dual_write lib convert_int tables db query).0
          ≡ begin_tx ∷ exec q ∷ commit ∷ [])
      × (db.begins ≡ true)
      × (db.executes ≡ true)
      × (db.commits ≡ true)

  -- `ExecuteWithDualWrite` returns no error exactly when the query could be rewritten, the calls were
  -- those of a transaction of the rewritten query alone, and its begin, its execution and its commit
  -- all succeeded.
  pub done_iff :
      (tables : TablesConfig) (db : Answers) (query : Name)
      → ((execute_with_dual_write lib convert_int tables db query).1 ≡ done)
        ↔ IsCommitted tables db query
  unfolding execute_with_dual_write finish
  done_iff tables db query = (to, from)
    where
      to :
          (execute_with_dual_write lib convert_int tables db query).1 ≡ done
          → IsCommitted tables db query
      to h = elim (Option-cases (intercept_and_rewrite lib convert_int tables query)) [
        | inl n ↦ ground arith
        | inr (q, j) ↦ (q, j, ground arith, ground arith, ground arith, ground arith)
      ]

      from :
          IsCommitted tables db query
          → (execute_with_dual_write lib convert_int tables db query).1 ≡ done
      from (q, j, e, b, x, k) = ground arith
