-- ===== src/TomlWrite/Merge.antt =====
-- `merge` of backend/tomlwrite.py. What `str.splitlines` gives for the document is a parameter.
use sqlide.Common.{
  ℕ, Bool, true, false, not, ◌&&◌, ◌||◌, Option, none, some, List, [], ◌∷◌, ◌++◌, map,
  if◌then◌else◌, ◌==◌,
}
use sqlide.Common.Text.{Str, CharTable, str_eq, is_one_of, split_on, strip_by, strip, join}
use sqlide.TomlWrite.{
  Item, Table, Entry, scalar, table, table_array, Document, is_blank, line, key, value, table_lines,
  apart, dumps, finished,
}

-- Its leading lines, its name and its body.
pub record Section : Type 0 where
  pub lead : List Str
  pub name : Str
  pub body : List Str

-- Where `_split` is in the document.
pub record Split : Type 0 where
  pub head : List Str
  pub sections : List Section
  pub pending : List Str
  pub current : Option Section

abbrev pub starts_with_char : ℕ → Str → Bool
starts_with_char c [] = false
starts_with_char c (d ∷ s) = c == d

unfoldable pub ends_with_char : ℕ → Str → Bool
ends_with_char c [] = false
ends_with_char c (d ∷ []) = c == d
ends_with_char c (d ∷ e ∷ s) = ends_with_char c (e ∷ s)

abbrev strip_char : ℕ → Str → Str
strip_char c = strip_by (λ d. d == c)

-- The finished sections with the current one.
abbrev closed : Split → List Section
closed s = closed_with s.current
  where
    closed_with : Option Section → List Section
    closed_with none = s.sections
    closed_with (some c) = s.sections ++ c ∷ []

abbrev is_open : Option Section → Bool
is_open none = false
is_open (some c) = true

abbrev into_body : Str → Option Section → Option Section
into_body row none = none
into_body row (some c) = some (record { lead = c.lead; name = c.name; body = c.body ++ row ∷ [] })

-- `name in scalars`, and its value
unfoldable pub scalar_of : Str → Document → Option Item
unfolding str_eq
scalar_of name [] = none
scalar_of name ((k, scalar item) ∷ rest) =
    let found = scalar_of name rest in if str_eq k name then some item else found
scalar_of name ((k, _) ∷ rest) = scalar_of name rest

unfoldable pub tables_of : Str → Document → Option Entry
unfolding str_eq
tables_of name [] = none
tables_of name ((k, scalar item) ∷ rest) = tables_of name rest
tables_of name ((k, table t) ∷ rest) =
    let found = tables_of name rest in if str_eq k name then some (table t) else found
tables_of name ((k, table_array t ts) ∷ rest) =
    let found = tables_of name rest in if str_eq k name then some (table_array t ts) else found

module _ (u : CharTable) where
  -- `stripped.strip("[]").strip().strip('"').strip("'")`
  abbrev pub header_name : Str → Str
  header_name s =
      strip_char b'\'' (strip_char b'"' (strip u (strip_by (λ c. c == b'[' || c == b']') s)))

  abbrev pub is_comment : Str → Bool
  is_comment row = starts_with_char b'#' (strip u row)

  abbrev pub is_space : Str → Bool
  is_space row = is_blank (strip u row)

  unfoldable pub split_step : Split → Str → Split
  unfolding ends_with_char
  split_step s row =
      let stripped = strip u row in
      if starts_with_char b'[' stripped && ends_with_char b']' stripped
      then record {
        head = s.head;
        sections = closed s;
        pending = [];
        current = some (record { lead = s.pending; name = header_name stripped; body = [] });
      }
      else if is_open s.current
      then record {
        head = s.head;
        sections = s.sections;
        pending = s.pending;
        current = into_body row s.current;
      }
      else if is_comment row || is_space row
      then record {
        head = s.head;
        sections = s.sections;
        pending = s.pending ++ row ∷ [];
        current = s.current;
      }
      else record {
        head = s.head ++ (s.pending ++ row ∷ []);
        sections = s.sections;
        pending = [];
        current = s.current;
      }

  unfoldable pub split_from : Split → List Str → Split
  unfolding split_step
  split_from s [] = s
  split_from s (row ∷ rows) = split_from (split_step s row) rows

  abbrev pub split : List Str → List Str × List Section
  split rows =
      let s = split_from (record { head = []; sections = []; pending = []; current = none }) rows in
      (if is_open s.current then s.head else s.head ++ s.pending, closed s)

  -- `stripped.split("=", 1)[0].strip().strip('"').strip("'")`
  abbrev pub row_name : Str → Str
  row_name stripped = strip_char b'\'' (strip_char b'"' (strip u (split_on b'=' stripped).0))

  unfoldable pub has_equals : Str → Bool
  has_equals [] = false
  has_equals (c ∷ s) = c == b'=' || has_equals s

  -- The key that a line of the head sets, where `scalars` has it.
  unfoldable pub known_row : Document → Str → Option (Str × Item)
  unfolding has_equals scalar_of split_on
  known_row doc row =
      if not (is_space row) && (not (is_comment row) && has_equals (strip u row))
      then with_value (scalar_of (row_name (strip u row)) doc)
      else none
    where
      with_value : Option Item → Option (Str × Item)
      with_value none = none
      with_value (some item) = some (row_name (strip u row), item)

  abbrev pub rewritten : Str → Option (Str × Item) → Str
  rewritten row none = row
  rewritten row (some (name, item)) = line name item

  abbrev name_list : Option (Str × Item) → List Str
  name_list none = []
  name_list (some (name, item)) = name ∷ []

  unfoldable pub rewrite_rows : Document → List Str → List Str
  unfolding known_row key value
  rewrite_rows doc [] = []
  rewrite_rows doc (row ∷ rows) = rewritten row (known_row doc row) ∷ rewrite_rows doc rows

  unfoldable pub written_names : Document → List Str → List Str
  unfolding known_row
  written_names doc [] = []
  written_names doc (row ∷ rows) = name_list (known_row doc row) ++ written_names doc rows

  abbrev pub drop_space : Str → List Str → List Str
  drop_space row [] = if is_space row then [] else row ∷ []
  drop_space row (r ∷ rows) = row ∷ r ∷ rows

  -- `while out and not out[-1].strip(): out.pop()`
  unfoldable pub trimmed : List Str → List Str
  trimmed [] = []
  trimmed (row ∷ rows) = drop_space row (trimmed rows)

  -- `_rewrite_head`
  unfoldable pub rewrite_head : Document → List Str → List Str × List Str
  unfolding rewrite_rows written_names trimmed
  rewrite_head doc head = (trimmed (rewrite_rows doc head), written_names doc head)

  -- The scalars that the document does not have yet.
  unfoldable pub new_scalars : List Str → Document → List Str
  unfolding str_eq key value
  new_scalars written [] = []
  new_scalars written ((name, scalar item) ∷ rest) =
      let more = new_scalars written rest in
      if is_one_of name written then more else line name item ∷ more
  new_scalars written ((name, _) ∷ rest) = new_scalars written rest

  -- The tables of an array, with a blank line between two of them.
  abbrev array_lines : Str → Table → List Table → List Str
  array_lines name t ts = table_lines true name t ++ apart true name ts

  abbrev section_of : Section → List Str → Option Entry → List Str
  section_of s seen (some (table t)) = s.lead ++ table_lines false s.name t
  section_of s seen (some (table_array t ts)) =
      if is_one_of s.name seen then [] else s.lead ++ array_lines s.name t ts
  section_of s seen _ = []

  unfoldable pub old_sections : Document → List Str → List Section → List Str
  unfolding tables_of table_lines apart str_eq
  old_sections doc seen [] = []
  old_sections doc seen (s ∷ ss) =
      section_of s seen (tables_of s.name doc) ++ old_sections doc (s.name ∷ seen) ss

  abbrev entry_lines : Str → Entry → List Str
  entry_lines name (scalar item) = []
  entry_lines name (table t) = apart false name (t ∷ [])
  entry_lines name (table_array t ts) = apart true name (t ∷ ts)

  abbrev is_array : Entry → Bool
  is_array (table_array t ts) = true
  is_array _ = false

  -- The tables, or the arrays of tables, that the document does not have yet.
  unfoldable pub new_sections : Bool → List Str → Document → List Str
  unfolding apart str_eq
  new_sections arrays seen [] = []
  new_sections arrays seen ((name, e) ∷ rest) =
      let more = new_sections arrays seen rest in
      if is_one_of name seen || not (same arrays (is_array e))
      then more
      else entry_lines name e ++ more
    where
      same : Bool → Bool → Bool
      same true b = b
      same false b = not b

  unfoldable pub merge : (Str → List Str) → Str → Document → Str
  unfolding dumps split_from rewrite_head new_scalars old_sections new_sections join strip_by
  merge splitlines document doc =
      let parts = split (splitlines document) in
      let top = rewrite_head doc parts.0 in
      let seen = map (λ s. s.name) parts.1 in
      if is_space document
      then dumps doc
      else finished (
          top.0
          ++ (new_scalars top.1 doc
              ++ (old_sections doc [] parts.1
                  ++ (new_sections false seen doc ++ new_sections true seen doc))))
