-- ===== src/SqlFormat/Tests.antt =====
-- Statements formatted.
use mathlib.Core.List.{flat_map}
use sqlide.Common.{true, false, [], ◌≡◌, refl, first_case}
use sqlide.Common.Text.{Str, codes, ascii, str_eq, strip_by, run_length}
use sqlide.SqlSplit.Scan.{other, quoted_end}
use sqlide.SqlSplit.Lex.{lex_from, next_cut}
use sqlide.SqlFormat.{upper, FormatOptions}
use sqlide.SqlFormat.Walk.{format_statement}
use sqlide.SqlFormat.Layout.Whole.{IsFormatOf, format_statement-IsFormatOf}

abbrev options : FormatOptions
options = record { keyword_case = upper; indent = 2; comma_leading = false; dialect = other }

abbrev query : Str
query =
    codes
      "select a, count(*) from t left join u on u.id = t.id where a between 1 and 2 or b in (select c from v)"

abbrev formatted : Str
formatted =
    codes
      "SELECT a,\n  count(*)\nFROM t\n  LEFT JOIN u\n    ON u.id = t.id\nWHERE a BETWEEN 1 AND 2\n  OR b IN (\n    SELECT c\n    FROM v\n  )"

format_test :
    format_statement ascii options query ≡ record { text = formatted; changed = true; reason = [] }
unfolding format_statement flat_map str_eq strip_by lex_from next_cut first_case run_length
    quoted_end
format_test = refl

-- A sign behind a sign is joined to it: what was a subtraction of a negative number is a comment.
format_minus :
    format_statement ascii options (codes "select 1 - -1")
    ≡ record { text = codes "SELECT 1 --1"; changed = true; reason = [] }
unfolding format_statement flat_map str_eq strip_by lex_from next_cut first_case run_length
    quoted_end
format_minus = refl

format_open :
    (format_statement ascii options (codes "select 'a")).reason ≡ codes "unterminated string"
unfolding format_statement flat_map str_eq strip_by lex_from next_cut first_case run_length
    quoted_end
format_open = refl

format_statement-IsFormatOf_example :
    IsFormatOf ascii options query (format_statement ascii options query)
format_statement-IsFormatOf_example = format_statement-IsFormatOf ascii options query
