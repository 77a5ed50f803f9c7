-- ===== src/Placeholders.antt =====
-- backend/placeholders.py: the values that the console asks for before it runs a statement.
pub mod Order
pub mod Rendering
pub mod Literal
pub mod Numbers
mod Tests
use mathlib.Core.Option
use mathlib.Core.List.{flat_map, foldr}
use sqlide.Common.{
  ℕ, zero, suc, ◌+◌, ◌-◌, Bool, true, false, not, ◌&&◌, ◌||◌, Option, none, some, List, [], ◌∷◌,
  ◌++◌, if◌then◌else◌, ◌==◌, leb, length, get_elem?, take, drop, first_case,
}
use sqlide.Common.Int.{pos, show_int}
use sqlide.Common.Text.{
  Str, codes, words, CharTable, str_eq, is_one_of, starts_with, find, slice, run_length, to_upper,
  to_lower, strip,
}

pub record Placeholder : Type 0 where
  pub name : Str
  pub start : ℕ
  pub stop : ℕ

-- `[A-Za-z_]` and `[A-Za-z0-9_]`
abbrev pub is_name_start : ℕ → Bool
is_name_start c = (leb b'A' c && leb c b'Z') || (leb b'a' c && leb c b'z') || c == b'_'

abbrev pub is_name_char : ℕ → Bool
is_name_char c = is_name_start c || (leb b'0' c && leb c b'9')

-- How long a name stands at the front; 0 is no match.
unfoldable pub name_length : Str → ℕ
unfolding run_length
name_length [] = 0
name_length (c ∷ s) = if is_name_start c then suc (run_length is_name_char s) else 0

-- One round of the loop: go on at an offset, or note a named or a positional marker first.
pub data Move : Type 0 where
  skip : ℕ → Move
  named : Str → ℕ → Move
  positional : Move

abbrev past : ℕ → Str → Option ℕ → Move
past width sql none = skip (length sql)
past width sql (some e) = skip (e + width)

-- `while i < n and sql[i] != ch: i += 1`, from `i + 1` on, and one more.
unfoldable pub quote_move : Str → ℕ → ℕ → Move
unfolding run_length
quote_move sql i ch = skip (suc (suc i + run_length (λ c. not (c == ch)) (drop (suc i) sql)))

abbrev name_move : Str → ℕ → ℕ → Move
name_move sql i zero = skip (i + 1)
name_move sql i (suc k) = named (slice sql (suc i) (suc i + suc k)) (suc i + suc k)

unfoldable pub move_at : Str → ℕ → ℕ → Move
unfolding quote_move name_length starts_with
move_at sql i ch =
    first_case
      ((starts_with (codes "--") (drop i sql), past 1 sql (find sql (codes "\n") i))
        ∷ (starts_with (codes "/*") (drop i sql), past 2 sql (find sql (codes "*/") (i + 2)))
        ∷ (ch == b'\'' || ch == b'"' || ch == b'`', quote_move sql i ch)
        ∷ (starts_with (codes "::") (drop i sql), skip (i + 2))
        ∷ (ch == b':', name_move sql i (name_length (drop (suc i) sql)))
        ∷ (ch == b'?', positional)
        ∷ [])
      (skip (i + 1))

-- `f"?{positional}"`
abbrev pub positional_name : ℕ → Str
positional_name k = b'?' ∷ show_int (pos k)

abbrev mark : Str → ℕ → ℕ → Placeholder
mark name start stop = record { name = name; start = start; stop = stop }

-- What a move finds, with the count of the positional markers behind it.
unfoldable pub found_by : Move → ℕ → ℕ → List Placeholder
found_by (skip next) i k = []
found_by (named name next) i k = mark name i next ∷ []
found_by positional i k = mark (positional_name (suc k)) i (i + 1) ∷ []

unfoldable pub next_of : Move → ℕ → ℕ
next_of (skip next) i = next
next_of (named name next) i = next
next_of positional i = i + 1

unfoldable pub count_of : Move → ℕ → ℕ
count_of positional k = suc k
count_of _ k = k

-- The loop on fuel: `i` grows in every round. `none` means that the fuel ran out.
unfoldable pub find_from : ℕ → Str → ℕ → ℕ → Option (List Placeholder)
unfolding move_at found_by next_of count_of
find_from zero sql i k = none
find_from (suc fuel) sql i k = elim (get_elem? sql i) [
  | none ↦ some []
  | some ch ↦
      let m = move_at sql i ch in
      Option.map (◌++◌ (found_by m i k)) (find_from fuel sql (next_of m i) (count_of m k))
]

unfoldable pub find_placeholders : Str → List Placeholder
unfolding find_from
find_placeholders sql = Option.get_or (find_from (suc (length sql)) sql 0 0) []

-- `_NUMBER_RE`, `[+-]?\d+(?:\.\d+)?(?:[eE][+-]?\d+)?$`, as the automaton that it is.
pub data NumberState : Type 0 where
  sign whole_first whole dot fraction exponent exponent_first exponent_digits : NumberState

abbrev pub is_sign : ℕ → Bool
is_sign c = c == b'+' || c == b'-'

abbrev pub is_exponent : ℕ → Bool
is_exponent c = c == b'e' || c == b'E'

-- `is_decimal` is what `\d` matches. `none` is no match.
unfoldable pub number_step : (ℕ → Bool) → NumberState → ℕ → Option NumberState
number_step is_decimal sign c =
    if is_sign c then some whole_first else if is_decimal c then some whole else none
number_step is_decimal whole_first c = if is_decimal c then some whole else none
number_step is_decimal whole c =
    if is_decimal c
    then some whole
    else if c == b'.'
    then some dot
    else if is_exponent c
    then some exponent
    else none
number_step is_decimal dot c = if is_decimal c then some fraction else none
number_step is_decimal fraction c =
    if is_decimal c then some fraction else if is_exponent c then some exponent else none
number_step is_decimal exponent c =
    if is_sign c then some exponent_first else if is_decimal c then some exponent_digits else none
number_step is_decimal exponent_first c = if is_decimal c then some exponent_digits else none
number_step is_decimal exponent_digits c = if is_decimal c then some exponent_digits else none

abbrev pub accepts : NumberState → Bool
accepts whole = true
accepts fraction = true
accepts exponent_digits = true
accepts _ = false

-- The text holds no line end where `$` could stop short of the end: it is stripped.
unfoldable pub number_from : (ℕ → Bool) → Option NumberState → Str → Bool
unfolding number_step
number_from is_decimal none s = false
number_from is_decimal (some q) [] = accepts q
number_from is_decimal (some q) (c ∷ s) = number_from is_decimal (number_step is_decimal q c) s

abbrev pub bare_words : List Str
bare_words = words ("null" ∷ "true" ∷ "false" ∷ [])

-- `value.replace("'", "''")`
unfoldable pub doubled : Str → Str
doubled [] = []
doubled (c ∷ s) = if c == b'\'' then b'\'' ∷ b'\'' ∷ doubled s else c ∷ doubled s

abbrev pub is_blank : Str → Bool
is_blank [] = true
is_blank (c ∷ s) = false

module _ (u : CharTable) (is_decimal : ℕ → Bool) where
  unfoldable pub as_literal : Str → Str
  unfolding number_from doubled str_eq
  as_literal value =
      let text = strip u value in
      if is_blank text
      then codes "NULL"
      else if is_one_of (to_lower u text) bare_words
      then to_upper u text
      else if number_from is_decimal (some sign) text
      then text
      else b'\'' ∷ (doubled value ++ b'\'' ∷ [])

  -- `values.get(ph.name, "")` is `values ph.name`.
  unfoldable pub replace_one : (Str → Str) → Placeholder → Str → Str
  unfolding as_literal
  replace_one values ph result =
      take ph.start result ++ (as_literal (values ph.name) ++ drop ph.stop result)

  unfoldable pub substitute : (Str → Str) → Str → Str
  unfolding replace_one find_placeholders
  substitute values sql = foldr (replace_one values) sql (find_placeholders sql)
