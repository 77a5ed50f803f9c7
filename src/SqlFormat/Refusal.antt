-- ===== src/SqlFormat/Refusal.antt =====
-- What `_refuse` of backend/sql_format.py lets pass.
use sqlide.Common.{ℕ, suc, List, [], ◌∷◌, if◌then◌else◌}
use sqlide.Common.Text.{Str}
use sqlide.SqlSplit.Lex.{Piece}
use sqlide.SqlFormat.{is_mark}

-- How many pieces are the given mark.
unfoldable pub marks : Str → List Piece → ℕ
unfolding is_mark
marks s [] = 0
marks s (p ∷ ps) = if is_mark s p then suc (marks s ps) else marks s ps
