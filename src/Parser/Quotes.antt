-- ===== src/Parser/Quotes.antt =====
-- `NormalizeTableName` of internal/parser/parser.go.
use transisi_db.Prelude.{ℕ, Name, [], ◌∷◌, ◌==◌, if◌then◌else◌}
use mathlib.Core.List.{reverse}

trim_start : ℕ → Name → Name
trim_start c [] = []
trim_start c (b ∷ bs) = if b == c then trim_start c bs else b ∷ bs

-- `strings.Trim` with one byte.
unfoldable pub trim : ℕ → Name → Name
unfolding trim_start
trim c s = reverse (trim_start c (reverse (trim_start c s)))

unfoldable pub normalize_table_name : Name → Name
unfolding trim
normalize_table_name name = trim b'"' (trim b'`' name)
