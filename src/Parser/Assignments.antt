-- ===== src/Parser/Assignments.antt =====
-- What a rewritten UPDATE assigns. MySQL makes the assignments of an UPDATE one after the other, so
-- that the last one to a column is the one that stays.
use transisi_db.Prelude.{
  ◌≡◌, ◌≢◌, inl, inr, refl, ap, ◌∙◌, true, Option, none, some, List, [], ◌∷◌, ◌++◌, arith,
  Option-cases, Bool-cases, Name, bytes_eq, bytes_eq-eq,
}
use transisi_db.Parser.{
  text, Value, Values, set, Update, update, query_update, Library, TableConfig, TablesConfig,
  currency_in, first_table, extract_value, scan_exprs, names, analyze, analyze_update, parse_query,
  new_parsed_query,
}
use transisi_db.Parser.Rewrite.{
  converted_values, shadow_exprs, rewrite_update, table_config, rewritten, rewrite_for_dual_write,
}
use transisi_db.Parser.Choice.{Covers, Touches, needs}
use transisi_db.Parser.Targets.{
  last, or_else, last-append, mem, mem-currency_in, IsTarget, floats, shadow_exprs-last,
  shadow_exprs-other,
}

module _ {E F R : Type 0} (lib : Library E F R) where
  mem-names :
      (c : Name) (es : List (Name × E)) {e : E} → last c es ≡ some e → mem c (names lib es) ≡ true
  mem-names c [] h = cc
  mem-names c ((d, x) ∷ es) h = elim (Option-cases (last c es)) [
    | inl n ↦ ground (arith, n, h)
    | inr (y, s) ↦ ground (arith, mem-names c es s)
  ]

  abbrev assigned : Option E → Option Value → Option Value
  assigned none v = v
  assigned (some e) v = some (extract_value lib e)

  -- The value of a configured column is that of its last assignment.
  scan_exprs-last :
      (table : TableConfig) (c t : Name) (es : List (Name × E)) (m : Values)
      → table.columns c ≡ some t
      → scan_exprs lib table es m c ≡ assigned (last c es) (m c)
  unfolding scan_exprs
  scan_exprs-last table c t [] m h = refl
  scan_exprs-last table c t ((d, e) ∷ es) m h = elim (Option-cases (table.columns d)) [
    | inl n ↦ elim (Bool-cases (bytes_eq c d)) [
      | inl q ↦ absurd (cc (ap table.columns (bytes_eq-eq c d q), h, n))
      | inr q ↦ ground (arith, n, q, scan_exprs-last table c t es m h)
    ]
    | inr (u, s) ↦ ground (arith, s, scan_exprs-last table c t es (set d (extract_value lib e) m) h)
  ]

  -- The shadow of a value: its conversion, if it is a text.
  abbrev pub shadow_of : Option E → Option E
  shadow_of none = none
  shadow_of (some e) = elim (extract_value lib e) [
    | text s ↦ some (lib.float_val_of (lib.convert s))
    | _ ↦ none
  ]

  -- Analysis, conversion and rewriting of an UPDATE, as `handleQuery` chains them.
  unfoldable pub dual_update : TablesConfig → Name → Update E R → Update E R
  unfolding analyze_update converted_values rewrite_update
  dual_update tables query s =
      let pq =
        analyze_update lib tables s
          (record (new_parsed_query lib query (update s)) { query_type = query_update }) in
      rewrite_update lib (table_config tables pq.table_name) pq.currency_columns
        (converted_values lib pq.values) s

  dual_update-exprs :
      (tables : TablesConfig) (query : Name) (s : Update E R) (table : TableConfig)
      → tables (first_table s.table_exprs) ≡ some table
      → table.enabled ≡ true
      → dual_update tables query s ≡ record s {
        exprs =
            s.exprs
            ++ shadow_exprs lib table
                (converted_values lib (scan_exprs lib table s.exprs (λ k. none)))
                (currency_in table (names lib s.exprs));
      }
  unfolding dual_update
  dual_update-exprs tables query s table h e = ground (arith, h, e)

  floats-shadow_of :
      (m : Values) (c : Name) (o : Option E)
      → m c ≡ assigned o none
      → floats lib (converted_values lib m c) ≡ shadow_of o
  unfolding converted_values
  floats-shadow_of m c none h = ground (arith, h)
  floats-shadow_of m c (some e) h = ground (arith, h)

  shadow_assigned :
      (table : TableConfig) (c t : Name) (es : List (Name × E))
      → IsTarget table c t
      → last t (
          shadow_exprs lib table
            (converted_values lib (scan_exprs lib table es (λ k. none)))
            (currency_in table (names lib es)))
        ≡ shadow_of (last c es)
  shadow_assigned table c t es h =
      let m = scan_exprs lib table es (λ k. none) in
      let value = scan_exprs-last table c t es (λ k. none) h.0 in
      let listed = mem-currency_in table c t (names lib es) h.0 in
      shadow_exprs-last lib table (converted_values lib m) c t (currency_in table (names lib es)) h
      ∙ elim (Option-cases (last c es)) [
        | inl n ↦ ground (arith, n, floats-shadow_of m c (last c es) value)
        | inr (e, s) ↦
            ground (arith, s, listed, mem-names c es s, floats-shadow_of m c (last c es) value)
      ]

  rewritten-update :
      (tables : TablesConfig) (query : Name) (s : Update E R)
      → lib.parse query ≡ some (update s)
      → Covers tables (first_table s.table_exprs) (names lib s.exprs)
      → rewritten lib tables query ≡ some (lib.print (update (dual_update tables query s)))
  unfolding rewritten parse_query rewrite_for_dual_write dual_update analyze analyze_update
  rewritten-update tables query s h c =
      let n = (needs lib tables query (update s)).1 c in ground arith

  -- An UPDATE that writes to a configured column of an enabled table is replaced by one that also
  -- assigns the shadow columns: to the target of a configured column, when no other column has it,
  -- the conversion of the text that the UPDATE assigns to the column last; where that is no text, or
  -- nothing is assigned, the target is assigned as before. A column that is no target is assigned as
  -- before.
  pub update_rewritten :
      (tables : TablesConfig) (query : Name) (s : Update E R) (table : TableConfig)
      → lib.parse query ≡ some (update s)
      → tables (first_table s.table_exprs) ≡ some table
      → table.enabled ≡ true
      → Touches table (names lib s.exprs)
      → (es : List (Name × E)) × (rewritten lib tables query
          ≡ some (lib.print (update (record s { exprs = es }))))
        × ((c t : Name)
            → IsTarget table c t
            → last t es ≡ or_else (shadow_of (last c s.exprs)) (last t s.exprs))
        × ((k : Name) → ((d : Name) → table.columns d ≢ some k) → last k es ≡ last k s.exprs)
  update_rewritten tables query s table p h on touches =
      let m = scan_exprs lib table s.exprs (λ k. none) in
      let added =
        shadow_exprs lib table (converted_values lib m) (currency_in table (names lib s.exprs)) in
      (
        s.exprs ++ added,
        rewritten-update tables query s p (table, h, on, touches)
            ∙ ap (λ u. some (lib.print (update u))) (dual_update-exprs tables query s table h on),
        λ c t target.
            last-append t s.exprs added
            ∙ ap (λ o. or_else o (last t s.exprs)) (shadow_assigned table c t s.exprs target),
        λ k no_target.
            last-append k s.exprs added
            ∙ ap (λ o. or_else o (last k s.exprs))
                (shadow_exprs-other lib table (converted_values lib m) k
                  (currency_in table (names lib s.exprs)) no_target),
      )
