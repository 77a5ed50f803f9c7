-- ===== src/SqlSplit/Tests.antt =====
-- Runs of the scanners of backend/sql_split.py, and the theorems at concrete scripts.
use mathlib.Core.List
use sqlide.Common.{
  suc, List, [], ◌∷◌, ◌++◌, ◌≡◌, ◌≢◌, refl, none, some, arith, first_case, map, length,
}
use sqlide.Common.Text.{
  Str, codes, words, ascii, ascii-IsPython, starts_with, find_here, run_length, strip_by,
  remove_suffix, str_eq,
}
use sqlide.SqlSplit.Scan.{Dialect, mysql, sqlite, other, quoted_end, dollar_delimiter, peek_word}
use sqlide.SqlSplit.Lex.{lex, lex_from, next_cut}
use sqlide.SqlSplit.Lex.Covers.{Covers, lex-Covers}
use sqlide.SqlSplit.Statements.{
  Statement, split_statements, split_from, initial, step, terminator_step, plain_step, word_step,
  keyword_step, end_step, delimiter_step, close_segment, statement_at,
}
use sqlide.SqlSplit.Statements.Placed.{InOrder, split_statements-InOrder}
use sqlide.SqlSplit.Statements.Cursor.{statement_at-split_statements}
use sqlide.SqlSplit.Dialects.{split_statements_plain}

abbrev texts : List Statement → List Str
texts = map (λ s. s.text)

abbrev script : Str
script = codes "SELECT ';' ; -- a;b\n DELETE FROM t;"

-- The scanners with all that they call unfolded.
run_split : Str → Dialect → List Str
unfolding split_statements split_from step terminator_step plain_step word_step keyword_step
    end_step delimiter_step close_segment quoted_end dollar_delimiter peek_word first_case
    starts_with find_here run_length strip_by remove_suffix str_eq List.flat_map
run_split sql dialect = texts (split_statements ascii sql dialect)

run_lex : Str → Dialect → List Str
unfolding lex lex_from next_cut quoted_end dollar_delimiter first_case starts_with find_here
    run_length
run_lex sql dialect = map (λ p. p.text) (lex ascii sql dialect)

split_runs : run_split script other ≡ words ("SELECT ';'" ∷ "-- a;b\n DELETE FROM t" ∷ [])
unfolding run_split
split_runs = refl

-- A trigger body and a custom terminator.
split_routine :
    run_split (codes "CREATE TRIGGER a BEGIN SELECT 1; END; SELECT 2;") sqlite
    ≡ words ("CREATE TRIGGER a BEGIN SELECT 1; END" ∷ "SELECT 2" ∷ [])
unfolding run_split
split_routine = refl

split_delimiter :
    run_split (codes "DELIMITER $$\nSELECT 1; SELECT 2$$\nDELIMITER ;\nSELECT 3") mysql
    ≡ words ("SELECT 1; SELECT 2" ∷ "SELECT 3" ∷ [])
unfolding run_split
split_delimiter = refl

lex_runs :
    run_lex (codes "a->>'b''c' /* ; */ $x$;$x$ 1e-3") other
    ≡ words ("a" ∷ "->>" ∷ "'b'" ∷ "'c'" ∷ "/* ; */" ∷ "$x$;$x$" ∷ "1e-3" ∷ [])
unfolding run_lex
lex_runs = refl

lex-Covers_example : Covers ascii 0 script (lex ascii script other)
lex-Covers_example = lex-Covers ascii ascii-IsPython script other

split_statements-InOrder_example :
    (split_from ascii script (suc (length script)) other initial 0 ≢ none)
    × InOrder script 0 (split_statements ascii script other)
split_statements-InOrder_example = split_statements-InOrder ascii ascii-IsPython script other

abbrev pair : Str
pair = codes "A;B"

abbrev first : Statement
first = record { text = codes "A"; start = 0; stop = 2 }

abbrev second : Statement
second = record { text = codes "B"; start = 2; stop = 3 }

pair_splits : split_statements ascii pair other ≡ (first ∷ []) ++ second ∷ []
unfolding run_split
pair_splits = refl

statement_at-split_statements_example :
    statement_at (split_statements ascii pair other) 3 ≡ some second
statement_at-split_statements_example =
    statement_at-split_statements ascii ascii-IsPython pair other (first ∷ []) second [] 3
      pair_splits (omega arith) (omega arith)

split_statements_plain_example :
    (split_statements ascii pair mysql ≡ split_statements ascii pair sqlite)
    × (lex ascii pair mysql ≡ lex ascii pair sqlite)
split_statements_plain_example =
    split_statements_plain ascii pair (refl, (refl, (refl, tt))) mysql sqlite
