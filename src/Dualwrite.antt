-- ===== src/Dualwrite.antt =====
-- internal/dualwrite/orchestrator.go: a query is rewritten with its values converted, and executed in
-- a transaction. `convert_int` is `strconv.ParseInt` followed by the rounding engine, `none` where
-- the text is no int64. The database is a list of answers and the calls made of it.
pub mod Laws
pub mod Agrees
mod Examples
use transisi_db.Prelude.{
  Bool, true, false, Option, none, some, List, [], ◌∷◌, if◌then◌else◌, bytes_eq, Name,
}
use transisi_db.Parser.{Value, text, Values, Library, TablesConfig, ParsedQuery, parse_query}
use transisi_db.Parser.Rewrite.{rewrite_for_dual_write}

-- The calls of the database.
pub data Call : Type 0 where
  begin_tx : Call
  exec : Name → Call
  rollback commit : Call

-- The four messages for a call that fails, and the refusal before any.
pub data Failure : Type 0 where
  rewrite_failed begin_failed exec_failed exec_and_rollback_failed commit_failed : Failure

-- Whether each call succeeds.
pub record Answers : Type 0 where
  pub begins : Bool
  pub executes : Bool
  pub rolls_back : Bool
  pub commits : Bool

pub data Outcome : Type 0 where
  done : Outcome
  failed : Failure → Outcome

abbrev pub put : {F : Type 0} → Name → F → (Name → Option F) → Name → Option F
put c f converted k = if bytes_eq k c then some f else converted k

module _ {E F R : Type 0} (lib : Library E F R) (convert_int : Name → Option F) where
  -- `convertCurrencyValues`, its loop; `none` is an error.
  unfoldable pub convert_currency_values :
      Values → List Name → (Name → Option F) → Option (Name → Option F)
  convert_currency_values m [] converted = some converted
  convert_currency_values m (c ∷ cs) converted = elim (m c) [
    | none ↦ convert_currency_values m cs converted
    | some (text s) ↦ elim (convert_int s) [
      | none ↦ none
      | some f ↦ convert_currency_values m cs (put c f converted)
    ]
    | some _ ↦ none
  ]

  converted_query : TablesConfig → ParsedQuery E R → Option Name
  unfolding convert_currency_values rewrite_for_dual_write
  converted_query tables pq =
      elim (convert_currency_values pq.values pq.currency_columns (λ k. none)) [
        | none ↦ none
        | some converted ↦ some (rewrite_for_dual_write lib tables pq converted)
      ]

  unfoldable pub intercept_and_rewrite : TablesConfig → Name → Option Name
  unfolding parse_query converted_query
  intercept_and_rewrite tables query = elim (parse_query lib tables query) [
    | none ↦ none
    | some pq ↦ if pq.needs_transform then converted_query tables pq else some query
  ]

  finish : Answers → Name → List Call × Outcome
  finish db q =
      if db.executes
      then (if db.commits
          then (begin_tx ∷ exec q ∷ commit ∷ [], done)
          else (begin_tx ∷ exec q ∷ commit ∷ [], failed commit_failed))
      else (if db.rolls_back
          then (begin_tx ∷ exec q ∷ rollback ∷ [], failed exec_failed)
          else (begin_tx ∷ exec q ∷ rollback ∷ [], failed exec_and_rollback_failed))

  unfoldable pub execute_with_dual_write : TablesConfig → Answers → Name → List Call × Outcome
  unfolding intercept_and_rewrite finish
  execute_with_dual_write tables db query = elim (intercept_and_rewrite tables query) [
    | none ↦ ([], failed rewrite_failed)
    | some q ↦ if db.begins then finish db q else (begin_tx ∷ [], failed begin_failed)
  ]
