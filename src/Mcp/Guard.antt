-- ===== src/Mcp/Guard.antt =====
-- backend/mcp/guard.py: which queries of an MCP client are admitted as read-only.
pub mod Sound
mod Tests
use mathlib.Core.List.{filter}
use sqlide.Common.{Bool, true, false, not, List, [], ◌∷◌, ◌++◌, if◌then◌else◌}
use sqlide.Common.Text.{Str, words, CharTable, is_one_of}
use sqlide.SqlSplit.Scan.{other}
use sqlide.SqlSplit.Lex.{tokens}
use sqlide.SqlSplit.Statements.{Statement, split_statements}
use sqlide.SqlRisk.{bare_words}

-- The connection kinds of `_ALLOWED_FIRST`; any other reads as jdbc.
pub data Connection : Type 0 where
  sqlite mysql postgres jdbc : Connection

-- `_ALLOWED_FIRST`
unfoldable pub allowed_first : Connection → List Str
allowed_first mysql = words ("SELECT" ∷ "WITH" ∷ "EXPLAIN" ∷ "SHOW" ∷ [])
allowed_first _ = words ("SELECT" ∷ "WITH" ∷ "EXPLAIN" ∷ [])

-- `_WRITE_WORDS`, in the order of `sorted`.
abbrev pub write_words : List Str
write_words = words ("DELETE" ∷ "INSERT" ∷ "INTO" ∷ "UPDATE" ∷ [])

pub data GuardError : Type 0 where
  empty_query : GuardError
  not_single : GuardError
  not_allowed : List Str → GuardError
  write_keyword : List Str → GuardError

pub data Result : Type 0 where
  ok : Str → Result
  err : GuardError → Result

-- `_WRITE_WORDS.intersection(words)`
unfoldable pub denied : List Str → List Str → List Str
denied [] ws = []
denied (w ∷ table) ws = let rest = denied table ws in if is_one_of w ws then w ∷ rest else rest

-- The end of `check_read_only`, with the keywords that the query must not hold.
admit : Str → List Str → Result
admit text [] = ok text
admit text (w ∷ ws) = err (write_keyword (w ∷ ws))

check_words : Connection → Str → List Str → Result
unfolding admit
check_words dialect text [] = err empty_query
check_words dialect text (w ∷ ws) =
    if is_one_of w (allowed_first dialect)
    then admit text (denied write_words (w ∷ ws))
    else err (not_allowed (allowed_first dialect))

check_statements : CharTable → Connection → List Statement → Result
unfolding check_words
check_statements u dialect [] = err empty_query
check_statements u dialect (s ∷ []) =
    check_words dialect s.text (bare_words (tokens u s.text other))
check_statements u dialect (s ∷ t ∷ rest) = err not_single

unfoldable pub check_read_only : CharTable → Str → Connection → Result
unfolding check_statements
check_read_only u sql dialect = check_statements u dialect (split_statements u sql other)
