-- ===== src/Parser/Choice.antt =====
-- Which queries are rewritten: those that write to a currency column of an enabled table.
use transisi_db.Prelude.{
  ◌≡◌, ◌≢◌, ◌↔◌, ◌⊎◌, inl, inr, Bool, true, false, Option, none, some, List, [], ◌∷◌, arith,
  Option-cases, Bool-cases, Name,
}
use transisi_db.Parser.{
  query_insert, query_update, Statement, select, insert, update, delete, other_statement, Insert,
  Update, Library, TableConfig, TablesConfig, ParsedQuery, currency_in, nonempty, first_table,
  names, enabled_table, analyze, analyze_insert, analyze_update, parse_query, new_parsed_query,
}
use transisi_db.Parser.Rewrite.{rewritten, rewrite_for_dual_write}
use transisi_db.Parser.Arity.{dual_write}

-- One of the columns is configured.
abbrev pub Touches : TableConfig → List Name → Type 0
Touches table [] = ⊥
Touches table (c ∷ cs) = (table.columns c ≢ none) ⊎ Touches table cs

abbrev pub Covers : TablesConfig → Name → List Name → Type 0
Covers tables name cs =
    (table : TableConfig) × (tables name ≡ some table) × (table.enabled ≡ true) × Touches table cs

nonempty-Touches :
    (table : TableConfig) (cs : List Name)
    → (nonempty (currency_in table cs) ≡ true) ↔ Touches table cs
nonempty-Touches table [] = (λ h. cc, λ h. absurd h)
nonempty-Touches table (c ∷ cs) = ground (arith, nonempty-Touches table cs)

module _ {E F R : Type 0} (lib : Library E F R) where
  -- The statement writes to a configured column of an enabled table.
  abbrev pub Writes : TablesConfig → Statement E R → Type 0
  Writes tables (insert s) = Covers tables s.table s.columns
  Writes tables (update s) = Covers tables (first_table s.table_exprs) (names lib s.exprs)
  Writes tables _ = ⊥

  abbrev needed : Option TableConfig → List Name → Bool
  needed none cs = false
  needed (some table) cs = nonempty (currency_in table cs)

  needed-Covers :
      (tables : TablesConfig) (name : Name) (cs : List Name)
      → (needed (enabled_table lib tables name) cs ≡ true) ↔ Covers tables name cs
  needed-Covers tables name cs = (to, from)
    where
      to : needed (enabled_table lib tables name) cs ≡ true → Covers tables name cs
      to h = elim (Option-cases (tables name)) [
        | inl n ↦ cc
        | inr (table, j) ↦ elim (Bool-cases table.enabled) [
          | inl e ↦ (table, j, e, (nonempty-Touches table cs).0 (ground arith))
          | inr e ↦ ground arith
        ]
      ]

      from : Covers tables name cs → needed (enabled_table lib tables name) cs ≡ true
      from (table, j, e, t) = let g = (nonempty-Touches table cs).1 t in ground arith

  insert_needs :
      (tables : TablesConfig) (s : Insert E R) (pq : ParsedQuery E R)
      → ((analyze_insert lib tables s pq).needs_transform ≡ true) ↔ Covers tables s.table s.columns
  unfolding analyze_insert
  insert_needs tables s pq =
      let same : (analyze_insert lib tables s pq).needs_transform
          ≡ needed (enabled_table lib tables s.table) s.columns =
        ground arith in
      rw same (needed-Covers tables s.table s.columns)

  update_needs :
      (tables : TablesConfig) (s : Update E R) (pq : ParsedQuery E R)
      → ((analyze_update lib tables s pq).needs_transform ≡ true)
        ↔ Covers tables (first_table s.table_exprs) (names lib s.exprs)
  unfolding analyze_update
  update_needs tables s pq =
      let name = first_table s.table_exprs in
      let same : (analyze_update lib tables s pq).needs_transform
          ≡ needed (enabled_table lib tables name) (names lib s.exprs) =
        ground arith in
      rw same (needed-Covers tables name (names lib s.exprs))

  pub needs :
      (tables : TablesConfig) (query : Name) (stmt : Statement E R)
      → ((analyze lib tables stmt (new_parsed_query lib query stmt)).needs_transform ≡ true)
        ↔ Writes tables stmt
  unfolding analyze
  needs tables query (select ts r) = (λ h. cc, λ h. absurd h)
  needs tables query (insert s) =
      insert_needs tables s
        (record (new_parsed_query lib query (insert s)) { query_type = query_insert })
  needs tables query (update s) =
      update_needs tables s
        (record (new_parsed_query lib query (update s)) { query_type = query_update })
  needs tables query (delete ts r) = (λ h. cc, λ h. absurd h)
  needs tables query (other_statement r) = (λ h. cc, λ h. absurd h)

  -- A query is rewritten exactly when it parses as an INSERT or an UPDATE that writes to a configured
  -- column of an enabled table; every other query is forwarded as it is.
  pub rewritten_iff :
      (tables : TablesConfig) (query : Name)
      → (rewritten lib tables query ≢ none)
        ↔ ((stmt : Statement E R) × (lib.parse query ≡ some stmt) × Writes tables stmt)
  unfolding rewritten parse_query
  rewritten_iff tables query = (to, from)
    where
      to :
          rewritten lib tables query ≢ none
          → (stmt : Statement E R) × (lib.parse query ≡ some stmt) × Writes tables stmt
      to h = elim (Option-cases (lib.parse query)) [
        | inl n ↦ absurd (h (ground arith))
        | inr (stmt, j) ↦ let m = (needs tables query stmt).0 in (stmt, j, m (ground arith))
      ]

      from :
          ((stmt : Statement E R) × (lib.parse query ≡ some stmt) × Writes tables stmt)
          → rewritten lib tables query ≢ none
      from (stmt, e, w) = let n = (needs tables query stmt).1 w in λ q. ground arith

  -- An INSERT that writes to a configured column of an enabled table is replaced by the text of its
  -- rewritten form.
  pub rewritten-insert :
      (tables : TablesConfig) (query : Name) (s : Insert E R)
      → lib.parse query ≡ some (insert s)
      → Covers tables s.table s.columns
      → rewritten lib tables query ≡ some (lib.print (insert (dual_write lib tables query s)))
  unfolding rewritten parse_query rewrite_for_dual_write dual_write analyze analyze_insert
  rewritten-insert tables query s h c = let n = (needs tables query (insert s)).1 c in ground arith
