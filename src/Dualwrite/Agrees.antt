-- ===== src/Dualwrite/Agrees.antt =====
-- The orchestrator and `handleQuery` of internal/proxy/session.go, the two clients of the parser.
use transisi_db.Prelude.{
  ◌≡◌, ◌⊎◌, inl, inr, refl, ap, ◌∙◌, true, Option, none, some, List, [], ◌∷◌, All, arith,
  Bool-cases, Name, bytes_eq, bytes_eq-eq, bytes_eq_refl,
}
use transisi_db.Parser.{
  text, Values, Insert, Update, Statement, insert, update, Library, TableConfig, TablesConfig,
  ParsedQuery, parse_query,
}
use transisi_db.Parser.Rewrite.{
  converted_values, shadow_values, shadow_exprs, rewrite_insert, rewrite_update,
  rewrite_for_dual_write, table_config, rewritten,
}
use transisi_db.Dualwrite.{put, convert_currency_values, converted_query, intercept_and_rewrite}

-- The text that is sent for a query.
abbrev pub sent_for : Name → Option Name → Name
sent_for query none = query
sent_for query (some q) = q

module _ {E F R : Type 0} (lib : Library E F R) (convert_int : Name → Option F) where
  -- A column without a value, or with a text that both clients convert to the same number.
  abbrev pub IsShared : Values → Name → Type 0
  IsShared m c =
      (m c ≡ none) ⊎ ((s : Name) × (m c ≡ some (text s)) × (convert_int s ≡ some (lib.convert s)))

  module _ (m : Values) where
    abbrev Agrees : (Name → Option F) → Name → Type 0
    Agrees converted k = converted k ≡ converted_values lib m k

    abbrev Within : (Name → Option F) → Type 0
    Within converted = (k : Name) → (converted k ≡ none) ⊎ Agrees converted k

    no_value :
        (converted : Name → Option F) (c : Name)
        → m c ≡ none
        → Within converted
        → Agrees converted c
    unfolding converted_values
    no_value converted c n w = elim (w c) [ inl e ↦ ground (arith, e, n) | inr e ↦ e ]

    put-Agrees :
        (converted : Name → Option F) (c s k : Name)
        → m c ≡ some (text s)
        → bytes_eq k c ≡ true
        → Agrees (put c (lib.convert s) converted) k
    unfolding converted_values
    put-Agrees converted c s k e q =
        let same : m k ≡ some (text s) = ap m (bytes_eq-eq k c q) ∙ e in ground (arith, same, q)

    put-keeps :
        (converted : Name → Option F) (c s k : Name)
        → m c ≡ some (text s)
        → Agrees converted k
        → Agrees (put c (lib.convert s) converted) k
    put-keeps converted c s k e a = elim (Bool-cases (bytes_eq k c)) [
      | inl q ↦ put-Agrees converted c s k e q
      | inr q ↦ ground (arith, q, a)
    ]

    put-Within :
        (converted : Name → Option F) (c s : Name)
        → m c ≡ some (text s)
        → Within converted
        → Within (put c (lib.convert s) converted)
    put-Within converted c s e w k = elim (Bool-cases (bytes_eq k c)) [
      | inl q ↦ inr (put-Agrees converted c s k e q)
      | inr q ↦ elim (w k) [
        | inl n ↦ inl (ground (arith, q, n))
        | inr a ↦ inr (put-keeps converted c s k e a)
      ]
    ]

    -- What the loop over the columns gives.
    record Converts (cs : List Name) (start : Name → Option F) : Type 0 where
      pub converted : Name → Option F
      pub result : convert_currency_values lib convert_int m cs start ≡ some converted
      pub within : Within converted
      pub kept : (k : Name) → Agrees start k → Agrees converted k
      pub all_agree : All (Agrees converted) cs

    converts :
        (cs : List Name) (start : Name → Option F)
        → All (IsShared m) cs
        → Within start
        → Converts cs start
    unfolding convert_currency_values
    converts [] start h w = record {
      converted = start;
      result = refl;
      within = w;
      kept = λ k a. a;
      all_agree = tt;
    }
    converts (c ∷ cs) start (inl n, h) w =
        let r = converts cs start h w in
        record {
          converted = r.converted;
          result = ground (arith, n, r.result);
          within = r.within;
          kept = r.kept;
          all_agree = (no_value r.converted c n r.within, r.all_agree);
        }
    converts (c ∷ cs) start (inr (s, e, same), h) w =
        let next = put c (lib.convert s) start in
        let r = converts cs next h (put-Within start c s e w) in
        record {
          converted = r.converted;
          result = ground (arith, e, same, r.result);
          within = r.within;
          kept = λ k a. r.kept k (put-keeps start c s k e a);
          all_agree = (r.kept c (put-Agrees start c s c e (bytes_eq_refl c)), r.all_agree);
        }

  module _ (one two : Name → Option F) where
    abbrev Same : Name → Type 0
    Same c = one c ≡ two c

    shadow_values-Same :
        (cs : List Name) → All Same cs → shadow_values lib one cs ≡ shadow_values lib two cs
    shadow_values-Same [] h = refl
    shadow_values-Same (c ∷ cs) (e, h) = ground (arith, e, shadow_values-Same cs h)

    shadow_exprs-Same :
        (table : TableConfig) (cs : List Name)
        → All Same cs
        → shadow_exprs lib table one cs ≡ shadow_exprs lib table two cs
    shadow_exprs-Same table [] h = refl
    shadow_exprs-Same table (c ∷ cs) (e, h) = ground (arith, e, shadow_exprs-Same table cs h)

    rewrite_insert-Same :
        (table : TableConfig) (cs : List Name) (s : Insert E R)
        → All Same cs
        → rewrite_insert lib table cs one s ≡ rewrite_insert lib table cs two s
    unfolding rewrite_insert
    rewrite_insert-Same table cs s h = ground (arith, shadow_values-Same cs h)

    rewrite_update-Same :
        (table : TableConfig) (cs : List Name) (s : Update E R)
        → All Same cs
        → rewrite_update lib table cs one s ≡ rewrite_update lib table cs two s
    unfolding rewrite_update
    rewrite_update-Same table cs s h = ground (arith, shadow_exprs-Same table cs h)

    -- A rewriting reads the conversions of the currency columns only.
    rewrite-Same :
        (tables : TablesConfig) (pq : ParsedQuery E R) (stmt : Statement E R)
        → pq.statement ≡ stmt
        → All Same pq.currency_columns
        → rewrite_for_dual_write lib tables pq one ≡ rewrite_for_dual_write lib tables pq two
    unfolding rewrite_for_dual_write
    rewrite-Same tables pq (insert s) e h =
        ground (
          arith,
          e,
          rewrite_insert-Same (table_config tables pq.table_name) pq.currency_columns s h,
        )
    rewrite-Same tables pq (update s) e h =
        ground (
          arith,
          e,
          rewrite_update-Same (table_config tables pq.table_name) pq.currency_columns s h,
        )
    rewrite-Same tables pq stmt e h = ground (arith, e)

  -- When every currency column of a statement has no value, or a text that both convert to the same
  -- number, the orchestrator executes the text that `handleQuery` forwards: the rewritten query, or
  -- the query itself where nothing is rewritten.
  pub clients_agree :
      (tables : TablesConfig) (query : Name) {pq : ParsedQuery E R}
      → parse_query lib tables query ≡ some pq
      → All (IsShared pq.values) pq.currency_columns
      → intercept_and_rewrite lib convert_int tables query
        ≡ some (sent_for query (rewritten lib tables query))
  unfolding intercept_and_rewrite converted_query rewritten
  clients_agree tables query {pq} p h =
      let r = converts pq.values pq.currency_columns (λ k. none) h (λ k. inl refl) in
      let same =
        rewrite-Same r.converted (converted_values lib pq.values) tables pq pq.statement refl
          r.all_agree in
      ground (arith, p, r.result, same)
