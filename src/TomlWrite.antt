-- ===== src/TomlWrite.antt =====
-- backend/tomlwrite.py: the writer of TOML documents, and the merge into a document that is there.
pub mod Text
pub mod Merge
pub mod Comments
mod Tests
use mathlib.Core.List.{flat_map}
use sqlide.Common.{
  ℕ, Bool, true, false, not, ◌&&◌, ◌||◌, Option, none, some, List, [], ◌∷◌, ◌++◌, map,
  if◌then◌else◌, ◌==◌, leb, any, all,
}
use sqlide.Common.Text.{
  Str, codes, CharTable, str_eq, is_one_of, starts_with, split_on, strip_by, strip, join,
}

-- A scalar or an array; a number as `repr` writes it.
mutual
  pub data Item : Type 0 where
    truth : Bool → Item
    number : Str → Item
    text : Str → Item
    array : Items → Item

  pub data Items : Type 0 where
    nil : Items
    cons : Item → Items → Items

-- What a table holds under a key. What is nested deeper is passed over.
pub data Field : Type 0 where
  plain : Item → Field
  nested : Field

abbrev pub Table : Type 0
Table = List (Str × Field)

-- What a document holds under a key; an array of tables is not empty.
pub data Entry : Type 0 where
  scalar : Item → Entry
  table : Table → Entry
  table_array : Table → List Table → Entry

abbrev pub Document : Type 0
Document = List (Str × Entry)

abbrev pub is_blank : Str → Bool
is_blank [] = true
is_blank (c ∷ s) = false

abbrev pub is_bare : ℕ → Bool
is_bare c =
    (leb b'a' c && leb c b'z')
    || ((leb b'A' c && leb c b'Z') || ((leb b'0' c && leb c b'9') || (c == b'_' || c == b'-')))

-- `s.replace(old, new)` of one character
unfoldable pub replace_char : ℕ → Str → Str → Str
replace_char old new s = flat_map (λ c. if c == old then new else c ∷ []) s

unfoldable pub escaped : Str → Str
unfolding replace_char
escaped s = replace_char b'\t' (b'\\' ∷ b't' ∷ []) (
    replace_char b'\r' (b'\\' ∷ b'r' ∷ []) (
      replace_char b'\n' (b'\\' ∷ b'n' ∷ [])
        (replace_char b'"' (b'\\' ∷ b'"' ∷ []) (replace_char b'\\' (b'\\' ∷ b'\\' ∷ []) s))))

abbrev pub quoted : Str → Str
quoted s = b'"' ∷ (escaped s ++ b'"' ∷ [])

unfoldable mutual
  unfolding escaped join

  pub value : Item → Str
  value (truth true) = codes "true"
  value (truth false) = codes "false"
  value (number shown) = shown
  value (text s) = quoted s
  value (array items) = b'[' ∷ (join (codes ", ") (values items) ++ b']' ∷ [])

  pub values : Items → List Str
  values nil = []
  values (cons item items) = value item ∷ values items

unfoldable pub key : Str → Str
unfolding escaped
key name = if not (is_blank name) && all is_bare name then name else quoted name

-- `f"{key(name)} = {value(item)}"`
abbrev pub line : Str → Item → Str
line name item = key name ++ (codes " = " ++ value item)

abbrev field_lines : Table → List Str
field_lines [] = []
field_lines ((k, plain item) ∷ fields) = line k item ∷ field_lines fields
field_lines ((k, nested) ∷ fields) = field_lines fields

unfoldable pub table_lines : Bool → Str → Table → List Str
unfolding key value
table_lines is_array name fields =
    (if is_array
      then codes "[[" ++ (key name ++ codes "]]")
      else codes "[" ++ (key name ++ codes "]"))
    ∷ field_lines fields

-- The lines of tables, with a blank one in front of each.
unfoldable pub apart : Bool → Str → List Table → List Str
unfolding table_lines
apart is_array name [] = []
apart is_array name (t ∷ ts) = [] ∷ (table_lines is_array name t ++ apart is_array name ts)

unfoldable pub scalar_lines : Document → List Str
unfolding key value
scalar_lines [] = []
scalar_lines ((name, scalar item) ∷ rest) = line name item ∷ scalar_lines rest
scalar_lines ((name, _) ∷ rest) = scalar_lines rest

unfoldable pub section_lines : Document → List Str
unfolding apart
section_lines [] = []
section_lines ((name, scalar item) ∷ rest) = section_lines rest
section_lines ((name, table t) ∷ rest) = apart false name (t ∷ []) ++ section_lines rest
section_lines ((name, table_array t ts) ∷ rest) = apart true name (t ∷ ts) ++ section_lines rest

abbrev pub is_newline : ℕ → Bool
is_newline c = c == b'\n'

-- `"\n".join(lines).strip("\n") + "\n"`
abbrev pub finished : List Str → Str
finished lines = strip_by is_newline (join (codes "\n") lines) ++ codes "\n"

unfoldable pub dumps : Document → Str
unfolding scalar_lines section_lines join strip_by
dumps doc = finished (scalar_lines doc ++ section_lines doc)
