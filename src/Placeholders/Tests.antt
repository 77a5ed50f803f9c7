-- ===== src/Placeholders/Tests.antt =====
-- Statements with placeholders.
use mathlib.Core.List.{flat_map}
use sqlide.Common.{ℕ, Bool, [], ◌∷◌, ◌≡◌, refl, List, if◌then◌else◌, leb, ◌&&◌, first_case, some}
use sqlide.Common.Text.{Str, codes, ascii, str_eq, strip_by, find_here}
use sqlide.Common.Int.{show_int}
use sqlide.Placeholders.{Placeholder, find_placeholders, find_from, substitute, as_literal}
use sqlide.Placeholders.Order.{InOrder, find_placeholders-InOrder}
use sqlide.Placeholders.Rendering.{rendered, substitute-rendered, shown}
use sqlide.Placeholders.Literal.{IsLiteralOf, as_literal-IsLiteralOf}

abbrev decimal : ℕ → Bool
decimal c = leb b'0' c && leb c b'9'

abbrev query : Str
query = codes "a = :lo::int -- :no\nAND b = ? AND c = ':x' AND d = ?"

abbrev query_marks : List Placeholder
query_marks =
    record { name = codes "lo"; start = 4; stop = 7 }
    ∷ record { name = codes "?1"; start = 28; stop = 29 }
    ∷ record { name = codes "?2"; start = 51; stop = 52 }
    ∷ []

find_test : find_placeholders query ≡ query_marks
unfolding find_placeholders first_case find_here show_int
find_test = refl

abbrev values : Str → Str
values name = if str_eq name (codes "lo") then codes " -1.5e3 " else codes "it's"

substitute_test :
    substitute ascii decimal values (codes "a = :lo AND b = ?") ≡ codes "a = -1.5e3 AND b = 'it''s'"
unfolding substitute first_case strip_by flat_map
substitute_test = refl

-- A backslash is written as it stands: to MySQL the quote behind it does not end the string.
literal_backslash : as_literal ascii decimal (codes "a\\") ≡ codes "'a\\'"
unfolding as_literal strip_by flat_map
literal_backslash = refl

find_placeholders-InOrder_example :
    (find_from 53 query 0 0 ≡ some (find_placeholders query))
    × InOrder query 0 0 (find_placeholders query)
find_placeholders-InOrder_example = find_placeholders-InOrder query

substitute-rendered_example :
    substitute ascii decimal values query
    ≡ rendered (shown ascii decimal values) query 0 (find_placeholders query)
substitute-rendered_example = substitute-rendered ascii decimal values query

as_literal-IsLiteralOf_example :
    IsLiteralOf decimal ascii (codes "it's") (as_literal ascii decimal (codes "it's"))
as_literal-IsLiteralOf_example = as_literal-IsLiteralOf decimal ascii (codes "it's")
