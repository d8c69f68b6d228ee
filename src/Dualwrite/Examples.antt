-- ===== src/Dualwrite/Examples.antt =====
-- Tests and witnesses, on the orders of Parser/Examples; every text converts to itself.
use transisi_db.Prelude.{◌≡◌, ◌↔◌, refl, true, false, none, some, [], ◌∷◌, codes, Name, inr}
use transisi_db.Parser.{text, insert, analyze, parse_query, new_parsed_query}
use transisi_db.Parser.Rewrite.{rewritten}
use transisi_db.Parser.Examples.{orders, sql, query, two_orders}
use transisi_db.Dualwrite.{
  Answers, begin_tx, exec, rollback, failed, exec_failed, done, intercept_and_rewrite,
  execute_with_dual_write, convert_currency_values,
}
use transisi_db.Dualwrite.Laws.{IsCommitted, done_iff}
use transisi_db.Dualwrite.Agrees.{sent_for, clients_agree}

abbrev sent : Name
sent = codes "INSERT id,total_amount,total_amount_idn,"

abbrev healthy : Answers
healthy = record { begins = true; executes = true; rolls_back = true; commits = true }

query_sent : intercept_and_rewrite sql some orders query ≡ some sent
unfolding intercept_and_rewrite
query_sent = refl

no_integer :
    convert_currency_values sql (λ s. none) (λ c. some (text c)) (sent ∷ []) (λ c. none) ≡ none
unfolding convert_currency_values
no_integer = refl

rolled_back :
    execute_with_dual_write sql some orders (record healthy { executes = false }) query
    ≡ (begin_tx ∷ exec sent ∷ rollback ∷ [], failed exec_failed)
unfolding execute_with_dual_write
rolled_back = refl

done_iff_example :
    ((execute_with_dual_write sql some orders healthy query).1 ≡ done)
    ↔ IsCommitted sql some orders healthy query
done_iff_example = done_iff sql some orders healthy query

clients_agree_example :
    intercept_and_rewrite sql some orders query ≡ some (sent_for query (rewritten sql orders query))
unfolding parse_query analyze
clients_agree_example =
    clients_agree sql some orders query
      {pq = analyze sql orders (insert two_orders) (new_parsed_query sql query (insert two_orders))}
      refl (inr (codes "500000", refl, refl), tt)
