-- ===== src/Parser/Texts.antt =====
-- Rows whose currency values are texts, which all but NULL and Boolean values are: every currency
-- column is given a converted value.
use transisi_db.Prelude.{
  bytes_eq-eq, bytes_eq_refl, ◌≡◌, ◌≢◌, refl, sym, subst, true, Option, none, some, List, [], ◌∷◌,
  length, All, arith, Bool-cases, Option-cases, inl, inr, bytes_eq, Name,
}
use transisi_db.Parser.{
  Value, text, boolean, nil, Values, values, Insert, Library, TableConfig, TablesConfig,
  currency_in, set, scan_row, extract_value,
}
use transisi_db.Parser.Rewrite.{converted_values}
use transisi_db.Parser.Arity.{HasWidth, IsRectangular, dual_write, rewritten-IsRectangular}

abbrev pub IsText : Value → Type 0
IsText (text s) = Unit
IsText _ = ⊥

pub All-currency :
    (table : TableConfig) (P : Name → Type 0) (c : Name) (cs : List Name)
    → (table.columns c ≢ none → P c)
    → All P (currency_in table cs)
    → All P (currency_in table (c ∷ cs))
All-currency table P c cs h k =
    let step : Option Name → List Name =
      λ o. elim o [ none ↦ currency_in table cs | some target ↦ c ∷ currency_in table cs ] in
    elim (Option-cases (table.columns c)) [
      | inl n ↦ subst (λ o. All P (step o)) (sym n) k
      | inr (target, j) ↦ subst (λ o. All P (step o)) (sym j) (h (λ n. cc), k)
    ]

module _ {E F R : Type 0} (lib : Library E F R) where
  -- The values of the currency columns are texts.
  abbrev pub Texts : TableConfig → List Name → List E → Type 0
  Texts table (c ∷ cs) (e ∷ es) =
      (table.columns c ≢ none → IsText (extract_value lib e)) × Texts table cs es
  Texts table _ _ = Unit

  converted_text :
      (m : Values) (k : Name) (v : Value)
      → m k ≡ some v
      → IsText v
      → converted_values lib m k ≢ none
  unfolding converted_values
  converted_text m k (text s) e t = rw (converted_values, e) (λ q. cc)
  converted_text m k (boolean b) e t = absurd t
  converted_text m k nil e t = absurd t

  set_keeps :
      (m : Values) (k c : Name) (v : Value)
      → (bytes_eq k c ≡ true → IsText v)
      → converted_values lib m k ≢ none
      → converted_values lib (set c v m) k ≢ none
  unfolding converted_values
  set_keeps m k c v t h = elim (Bool-cases (bytes_eq k c)) [
    | inl q ↦ converted_text (set c v m) k v (ground arith) (t q)
    | inr q ↦ rw (converted_values, q) h
  ]

  -- A column that has a converted value keeps one while the rest of the row is read.
  keeps_value :
      (table : TableConfig) (cs : List Name) (es : List E) (m : Values) (k : Name)
      → Texts table cs es
      → table.columns k ≢ none
      → converted_values lib m k ≢ none
      → converted_values lib (scan_row lib cs es m) k ≢ none
  unfolding scan_row
  keeps_value table [] es m k t c h = h
  keeps_value table (c1 ∷ cs) [] m k t c h = h
  keeps_value table (c1 ∷ cs) (e ∷ es) m k (t, ts) c h =
      keeps_value table cs es (set c1 (extract_value lib e) m) k ts c (
        set_keeps m k c1 (extract_value lib e)
          (λ q. t (subst (λ x. table.columns x ≢ none) (bytes_eq-eq k c1 q) c)) h)

  gets_values :
      (table : TableConfig) (cs : List Name) (es : List E) (m : Values)
      → length es ≡ length cs
      → Texts table cs es
      → All (λ c. converted_values lib (scan_row lib cs es m) c ≢ none) (currency_in table cs)
  unfolding scan_row
  gets_values table [] es m l t = tt
  gets_values table (c ∷ cs) [] m l t = absurd (omega arith)
  gets_values table (c ∷ cs) (e ∷ es) m l (t, ts) =
      let m1 = set c (extract_value lib e) m in
      let rest = gets_values table cs es m1 (omega arith) ts in
      let now : m1 c ≡ some (extract_value lib e) = rw (bytes_eq_refl c) refl in
      All-currency table _ c cs
        (λ here.
          keeps_value table cs es m1 c ts here
            (converted_text m1 c (extract_value lib e) now (t here)))
        rest

  -- An INSERT into an enabled table whose rows have as many values as it names columns, and whose
  -- currency values in the first row are texts, has as many values as columns in every row after the
  -- rewriting too.
  pub dual_write-IsRectangular :
      (tables : TablesConfig) (query : Name) (s : Insert E R) (table : TableConfig) (row : List E)
      (rows : List (List E))
      → tables s.table ≡ some table
      → table.enabled ≡ true
      → s.rows ≡ values (row ∷ rows)
      → IsRectangular s
      → Texts table s.columns row
      → IsRectangular (dual_write lib tables query s)
  dual_write-IsRectangular tables query s table row rows t e r h x =
      let first : length row ≡ length s.columns =
        (subst (λ z. HasWidth (length s.columns) z) r h).0 in
      (rewritten-IsRectangular lib tables query s table row rows t e r h).1
        (gets_values table s.columns row (λ k. none) first x)
