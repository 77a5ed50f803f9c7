-- ===== src/SqlFormat.antt =====
-- backend/sql_format.py: a statement written out again from its pieces.
pub mod Writer
pub mod Walk
pub mod Gaps
pub mod Layout
pub mod Refusal
mod Tests
use sqlide.Common.{
  ℕ, zero, suc, ◌+◌, ◌-◌, String, Bool, true, false, not, ◌&&◌, ◌||◌, List, [], ◌∷◌, map,
  if◌then◌else◌, length, take, any, ◌==◌,
}
use sqlide.Common.Text.{Str, codes, words, CharTable, str_eq, is_one_of, to_upper, strip}
use sqlide.SqlSplit.Scan.{Dialect}
use sqlide.SqlSplit.Lex.{
  Kind, word, quoted, string, dollar, comment, number, param, punct, Piece, lex,
}

pub data KeywordCase : Type 0 where
  upper lower leave : KeywordCase

pub record FormatOptions : Type 0 where
  pub keyword_case : KeywordCase
  pub indent : ℕ
  pub comma_leading : Bool
  pub dialect : Dialect

pub record FormatResult : Type 0 where
  pub text : Str
  pub changed : Bool
  pub reason : Str

abbrev pub keywords : List Str
keywords = words (
    "ADD" ∷ "ALL" ∷ "ALTER" ∷ "AND" ∷ "ANY" ∷ "AS" ∷ "ASC" ∷ "BEGIN" ∷ "BETWEEN" ∷ "BY" ∷ "CASE"
    ∷ "CASCADE" ∷ "CHECK" ∷ "COLLATE" ∷ "COLUMN" ∷ "COMMIT" ∷ "CONFLICT" ∷ "CONSTRAINT" ∷ "CREATE"
    ∷ "CROSS" ∷ "CURRENT" ∷ "DEFAULT" ∷ "DEFERRABLE" ∷ "DELETE" ∷ "DESC" ∷ "DISTINCT" ∷ "DO"
    ∷ "DROP" ∷ "ELSE" ∷ "END" ∷ "ESCAPE" ∷ "EXCEPT" ∷ "EXISTS" ∷ "EXPLAIN" ∷ "FALSE" ∷ "FETCH"
    ∷ "FILTER" ∷ "FIRST" ∷ "FOLLOWING" ∷ "FOR" ∷ "FOREIGN" ∷ "FROM" ∷ "FULL" ∷ "GROUP" ∷ "GROUPS"
    ∷ "HAVING" ∷ "IF" ∷ "ILIKE" ∷ "IN" ∷ "INDEX" ∷ "INNER" ∷ "INSERT" ∷ "INTERSECT" ∷ "INTO" ∷ "IS"
    ∷ "JOIN" ∷ "KEY" ∷ "LAST" ∷ "LATERAL" ∷ "LEFT" ∷ "LIKE" ∷ "LIMIT" ∷ "MATERIALIZED" ∷ "NATURAL"
    ∷ "NEXT" ∷ "NO" ∷ "NOT" ∷ "NOTHING" ∷ "NULL" ∷ "NULLS" ∷ "OFFSET" ∷ "ON" ∷ "ONLY" ∷ "OR"
    ∷ "ORDER" ∷ "OUTER" ∷ "OVER" ∷ "PARTITION" ∷ "PRECEDING" ∷ "PRIMARY" ∷ "RANGE" ∷ "RECURSIVE"
    ∷ "REFERENCES" ∷ "RENAME" ∷ "REPLACE" ∷ "RESTRICT" ∷ "RETURNING" ∷ "RIGHT" ∷ "ROLLBACK" ∷ "ROW"
    ∷ "ROWS" ∷ "SAVEPOINT" ∷ "SELECT" ∷ "SET" ∷ "SIMILAR" ∷ "SOME" ∷ "TABLE" ∷ "TEMP" ∷ "TEMPORARY"
    ∷ "THEN" ∷ "TIES" ∷ "TO" ∷ "TRANSACTION" ∷ "TRUE" ∷ "TRUNCATE" ∷ "UNBOUNDED" ∷ "UNION"
    ∷ "UNIQUE" ∷ "UNLOGGED" ∷ "UPDATE" ∷ "USING" ∷ "VALUES" ∷ "VIEW" ∷ "WHEN" ∷ "WHERE" ∷ "WINDOW"
    ∷ "WITH" ∷ "WITHOUT" ∷ [])

abbrev pub clauses : List (List Str)
clauses = map words (
    ("INSERT" ∷ "INTO" ∷ [])
    ∷ ("DELETE" ∷ "FROM" ∷ [])
    ∷ ("ORDER" ∷ "BY" ∷ [])
    ∷ ("GROUP" ∷ "BY" ∷ [])
    ∷ ("UNION" ∷ "ALL" ∷ [])
    ∷ ("ON" ∷ "CONFLICT" ∷ [])
    ∷ ("SELECT" ∷ [])
    ∷ ("FROM" ∷ [])
    ∷ ("WHERE" ∷ [])
    ∷ ("HAVING" ∷ [])
    ∷ ("LIMIT" ∷ [])
    ∷ ("OFFSET" ∷ [])
    ∷ ("VALUES" ∷ [])
    ∷ ("RETURNING" ∷ [])
    ∷ ("UPDATE" ∷ [])
    ∷ ("SET" ∷ [])
    ∷ ("UNION" ∷ [])
    ∷ ("EXCEPT" ∷ [])
    ∷ ("INTERSECT" ∷ [])
    ∷ ("WITH" ∷ [])
    ∷ ("WINDOW" ∷ [])
    ∷ ("FETCH" ∷ [])
    ∷ [])

abbrev pub joins : List (List Str)
joins = map words (
    ("LEFT" ∷ "OUTER" ∷ "JOIN" ∷ [])
    ∷ ("RIGHT" ∷ "OUTER" ∷ "JOIN" ∷ [])
    ∷ ("FULL" ∷ "OUTER" ∷ "JOIN" ∷ [])
    ∷ ("NATURAL" ∷ "LEFT" ∷ "JOIN" ∷ [])
    ∷ ("NATURAL" ∷ "RIGHT" ∷ "JOIN" ∷ [])
    ∷ ("LEFT" ∷ "JOIN" ∷ [])
    ∷ ("RIGHT" ∷ "JOIN" ∷ [])
    ∷ ("FULL" ∷ "JOIN" ∷ [])
    ∷ ("INNER" ∷ "JOIN" ∷ [])
    ∷ ("CROSS" ∷ "JOIN" ∷ [])
    ∷ ("NATURAL" ∷ "JOIN" ∷ [])
    ∷ ("JOIN" ∷ [])
    ∷ [])

abbrev pub list_clauses : List Str
list_clauses = words ("SELECT" ∷ "GROUP BY" ∷ "ORDER BY" ∷ "SET" ∷ "RETURNING" ∷ [])

abbrev pub boolean_clauses : List Str
boolean_clauses = words ("WHERE" ∷ "HAVING" ∷ "ON" ∷ [])

abbrev pub routine_words : List Str
routine_words = words ("TRIGGER" ∷ "FUNCTION" ∷ "PROCEDURE" ∷ [])

abbrev pub is_word_kind : Kind → Bool
is_word_kind word = true
is_word_kind _ = false

abbrev pub is_comment : Kind → Bool
is_comment comment = true
is_comment _ = false

-- `piece.kind == "punct" and piece.text == text`
abbrev pub is_punct : Kind → Str → Str → Bool
is_punct punct text s = str_eq text s
is_punct _ text s = false

unfoldable pub is_mark : Str → Piece → Bool
unfolding str_eq
is_mark s p = is_punct p.kind p.text s

-- `[p.text.upper() for p in pieces if p.kind == "word"]`
unfoldable pub upper_words : CharTable → List Piece → List Str
upper_words u [] = []
upper_words u (p ∷ ps) =
    let rest = upper_words u ps in if is_word_kind p.kind then to_upper u p.text ∷ rest else rest

abbrev pub unterminated : Kind → Str
unterminated string = codes "unterminated string"
unterminated comment = codes "unterminated comment"
unterminated _ = codes "unterminated quoted body"

-- The first piece that is not closed, then `otherwise`.
unfoldable pub open_piece : List Piece → Str → Str
open_piece [] otherwise = otherwise
open_piece (p ∷ ps) otherwise =
    let rest = open_piece ps otherwise in if p.closed then rest else unterminated p.kind

abbrev unbalanced : Str
unbalanced = codes "unbalanced parentheses"

abbrev pub close_depth : ℕ → (ℕ → Str) → Str
close_depth zero more = unbalanced
close_depth (suc depth) more = more depth

-- The parentheses at a depth, then `otherwise`.
unfoldable pub depth_from : List Piece → Str → ℕ → Str
unfolding is_mark
depth_from [] otherwise zero = otherwise
depth_from [] otherwise (suc depth) = unbalanced
depth_from (p ∷ ps) otherwise depth =
    let rest = depth_from ps otherwise in
    if is_mark (codes "(") p
    then rest (suc depth)
    else if is_mark (codes ")") p
    then close_depth depth rest
    else rest depth

abbrev first_is : Str → List Str → Bool
first_is w [] = false
first_is w (x ∷ xs) = str_eq x w

unfoldable pub statement_reason : List Str → Str
unfolding str_eq
statement_reason ws =
    if first_is (codes "CREATE") ws && any (λ w. is_one_of w routine_words) (take 6 ws)
    then codes "routine body"
    else if first_is (codes "BEGIN") ws
    then codes "block statement"
    else []

-- `_refuse`
unfoldable pub refuse : CharTable → List Piece → Str
unfolding open_piece depth_from statement_reason upper_words
refuse u pieces = open_piece pieces (depth_from pieces (statement_reason (upper_words u pieces)) 0)
