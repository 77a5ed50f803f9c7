-- ===== src/Mcp/Guard/Tests.antt =====
-- Runs of backend/mcp/guard.py, and its theorem at a concrete query.
use mathlib.Core.List
use sqlide.Common.{true, List, [], ◌∷◌, ◌≡◌, refl, first_case}
use sqlide.Common.Text.{
  Str, codes, words, ascii, ascii-IsPython, starts_with, find_here, run_length, strip_by,
  remove_suffix, str_eq, is_one_of,
}
use sqlide.SqlSplit.Scan.{Dialect, mysql, quoted_end, dollar_delimiter, peek_word}
use sqlide.SqlSplit.Lex.{lex, lex_from, next_cut, tokens}
use sqlide.SqlSplit.Statements.{
  split_statements, split_from, step, terminator_step, plain_step, word_step, keyword_step,
  end_step, delimiter_step, close_segment,
}
use sqlide.SqlRisk.{bare_words}
use sqlide.Mcp.Guard.{
  Connection, Result, ok, err, empty_query, not_single, not_allowed, write_keyword, check_read_only,
  denied, allowed_first,
}
use sqlide.Mcp.Guard.Sound.{IsReadOnly, check_read_only-IsReadOnly}

run_words : Str → Dialect → List Str
unfolding tokens lex lex_from next_cut quoted_end dollar_delimiter first_case starts_with find_here
    run_length strip_by str_eq bare_words List.flat_map List.filter_map
run_words sql dialect = bare_words (tokens ascii sql dialect)

run_check : Str → Connection → Result
unfolding check_read_only denied allowed_first run_words split_statements split_from step
    terminator_step plain_step word_step keyword_step end_step delimiter_step close_segment
    peek_word remove_suffix
run_check = check_read_only ascii

check_runs :
    (run_check (codes "select 1;") Connection.sqlite ≡ ok (codes "select 1"))
    × (run_check (codes "-- none") Connection.sqlite ≡ err empty_query)
    × (run_check (codes "SELECT 1; SELECT 2") Connection.sqlite ≡ err not_single)
    × (run_check (codes "DROP TABLE t") Connection.jdbc
        ≡ err (not_allowed (words ("SELECT" ∷ "WITH" ∷ "EXPLAIN" ∷ []))))
    × (run_check (codes "WITH x AS (DELETE FROM t) SELECT 1 INTO u") Connection.postgres
        ≡ err (write_keyword (words ("DELETE" ∷ "INTO" ∷ []))))
unfolding run_check
check_runs = (refl, refl, refl, refl, refl)

-- A MySQL connection ends the string at another quote than the guard, which reads with no dialect:
-- the query is admitted, and MySQL sees the keyword INTO.
abbrev disguised : Str
disguised = codes "SELECT 'a\\', ' INTO OUTFILE '/tmp/x' -- '"

disguised_admitted : run_check disguised Connection.mysql ≡ ok disguised
unfolding run_check
disguised_admitted = refl

disguised_writes : is_one_of (codes "INTO") (run_words disguised mysql) ≡ true
unfolding run_words
disguised_writes = refl

abbrev plain_query : Str
plain_query = codes "SELECT 1;"

check_read_only-IsReadOnly_example :
    IsReadOnly ascii plain_query mysql Connection.mysql (codes "SELECT 1")
unfolding run_check
check_read_only-IsReadOnly_example =
    check_read_only-IsReadOnly ascii ascii-IsPython plain_query Connection.mysql mysql
      (codes "SELECT 1") (refl, (refl, (refl, (refl, (refl, (refl, (refl, (refl, (refl, tt)))))))))
      refl
