-- ===== src/TableModel/Sql.antt =====
-- The rendering of backend/db/table_model.py: CREATE TABLE, indexes and comments. A `TableModelError` is a
-- value.
use mathlib.Core.List.{flat_map}
use sqlide.Common.{
  Bool, true, false, not, ◌&&◌, List, [], ◌∷◌, ◌++◌, map, if◌then◌else◌, ℕ, String, any, first_case,
  ◌==◌,
}
use sqlide.Common.Raises.{Raises, returned, ◌>>=◌, ◌>>◌, raise_if, each}
use sqlide.Common.Text.{Str, codes, CharTable, str_eq, is_one_of, to_upper, to_lower, strip, join}
use sqlide.TableModel.{
  Options, OptionSpec, ColumnDefault, ColumnModel, ConstraintModel, TableModel, Dialect,
}
use sqlide.TableModel.Read.{
  is_blank, is_empty, render_option, option_value, option_set, has_default,
}

pub data TableModelError : Type 0 where
  empty_identifier nul_in_identifier no_table_name no_columns index_needs_columns
        check_needs_expression needs_referenced_table :
      TableModelError
  constraint_needs_columns : Str → TableModelError

-- The text of an f-string, in parts.
abbrev pub text : List Str → Str
text parts = flat_map (λ part. part) parts

-- `value.replace("'", "''")`
unfoldable pub doubled : Str → Str
doubled value = flat_map (λ c. if c == b'\'' then b'\'' ∷ b'\'' ∷ [] else c ∷ []) value

-- `"'" + value.replace("'", "''") + "'"`
abbrev pub quoted_text : Str → Str
quoted_text value = b'\'' ∷ (doubled value ++ b'\'' ∷ [])

abbrev pub bare_defaults : List Str
bare_defaults = map codes ("NULL" ∷ "TRUE" ∷ "FALSE" ∷ "CURRENT_TIMESTAMP" ∷ "CURRENT_DATE" ∷ [])

abbrev is_nul : ℕ → Bool
is_nul c = c == 0

-- `Dialect.quoted`
unfoldable pub quoted : Dialect → Str → Raises TableModelError Str
quoted dialect name = do
  raise_if (is_blank name) empty_identifier
  raise_if (any is_nul name) nul_in_identifier
  returned (dialect.quote_name name)

-- `", ".join(dialect.quoted(c) for c in names)`
abbrev pub quoted_list : Dialect → List Str → Raises TableModelError Str
quoted_list dialect names =
    each (quoted dialect) names >>= λ parts. returned (join (codes ", ") parts)

-- A name behind the schema, where there is one and the engine has them.
abbrev pub qualified : Dialect → Str → Str → Raises TableModelError Str
qualified dialect schema name = quoted dialect name >>= λ q.
    if dialect.schemas && not (is_blank schema)
    then (quoted dialect schema >>= λ s. returned (text (s ∷ codes "." ∷ q ∷ [])))
    else returned q

-- `Dialect.table_name`
unfoldable pub table_name : Dialect → TableModel → Raises TableModelError Str
unfolding quoted
table_name dialect m = qualified dialect m.schema m.name

-- `f"CONSTRAINT {…} "`, where there is a name
abbrev pub constraint_head : Dialect → Str → Raises TableModelError Str
constraint_head dialect name =
    if is_blank name
    then returned []
    else (quoted dialect name >>= λ q. returned (text (codes "CONSTRAINT " ∷ q ∷ codes " " ∷ [])))

-- What joined parts become behind a space, where there are any.
abbrev pub after_space : List Str → Str
after_space [] = []
after_space (p ∷ ps) = b' ' ∷ join (codes " ") (p ∷ ps)

-- `float(text)` succeeds where `is_float` holds of the stripped text.
module _ (u : CharTable) (is_float : Str → Bool) (dialect : Dialect) where
  -- `ColumnDefault.render`
  unfoldable pub render_default : ColumnDefault → Str
  unfolding has_default str_eq doubled
  render_default d =
      let value = strip u d.value in
      first_case
        ((not (has_default u d), [])
          ∷ (str_eq d.kind (codes "expression"), value)
          ∷ (is_one_of (to_upper u value) bare_defaults, to_upper u value)
          ∷ (is_float value, value)
          ∷ [])
        (quoted_text d.value)

  unfoldable pub identity_sql : ColumnModel → List Str → Str
  unfolding str_eq
  identity_sql c pk =
      first_case
        ((str_eq dialect.identity_style (codes "auto_increment"), codes " AUTO_INCREMENT")
          ∷ (
            str_eq dialect.identity_style (codes "identity"),
            codes " GENERATED BY DEFAULT AS IDENTITY",
          )
          ∷ (
            str_eq dialect.identity_style (codes "rowid") && is_only pk,
            codes " PRIMARY KEY AUTOINCREMENT",
          )
          ∷ [])
        []
    where
      -- `len(pk) == 1 and pk[0].lower() == column.name.lower()`
      is_only : List Str → Bool
      is_only (k ∷ []) = str_eq (to_lower u k) (to_lower u c.name)
      is_only _ = false

  unfoldable pub present_options : List OptionSpec → Options → List (OptionSpec × Str)
  unfolding option_set
  present_options [] options = []
  present_options (spec ∷ specs) options =
      let rest = present_options specs options in
      let value = option_value options spec in
      if is_blank spec.field && option_set u spec value then (spec, strip u value) ∷ rest else rest

  -- The rendered options whose placement passes the test.
  unfoldable pub placed : (Str → Bool) → List (OptionSpec × Str) → List Str
  unfolding render_option
  placed test [] = []
  placed test ((spec, value) ∷ rest) =
      let more = placed test rest in
      if test spec.placement then render_option spec value ∷ more else more

  abbrev pub is_with : Str → Bool
  is_with = str_eq (codes "with")

  abbrev pub is_prefix : Str → Bool
  is_prefix = str_eq (codes "prefix")

  -- The tail in order, the group of storage parameters where the first of them stands.
  unfoldable pub tail_parts : Str → Bool → List (OptionSpec × Str) → List Str
  unfolding render_option str_eq
  tail_parts group seen [] = []
  tail_parts group seen ((spec, value) ∷ rest) =
      let skipped = tail_parts group seen rest in
      let in_group = tail_parts group true rest in
      if is_prefix spec.placement
      then skipped
      else if is_with spec.placement
      then (if seen then in_group else group ∷ in_group)
      else render_option spec value ∷ skipped

  unfoldable pub options_sql : TableModel → Str
  unfolding present_options placed tail_parts join str_eq
  options_sql m =
      let entries = present_options dialect.table_options m.options in
      let group =
        text (codes "WITH (" ∷ join (codes ", ") (placed is_with entries) ∷ codes ")" ∷ []) in
      let tail = tail_parts group false entries in
      let separator =
        if str_eq dialect.option_style (codes "sqlite") then codes ", " else codes " " in
      if is_empty tail then [] else b' ' ∷ join separator tail

  unfoldable pub create_prefix : TableModel → Str
  unfolding present_options placed join
  create_prefix m =
      let prefixes = placed is_prefix (present_options dialect.table_options m.options) in
      if is_empty prefixes then [] else join (codes " ") prefixes ++ codes " "

  unfoldable pub column_options_sql : ColumnModel → Str
  unfolding present_options placed join
  column_options_sql c = after_space (
      placed (λ p. is_one_of p (codes "column" ∷ codes "tail" ∷ []))
        (present_options dialect.column_options c.options))

  -- A column's definition behind its name, type, collation and default.
  abbrev plain_definition : ColumnModel → List Str → Str → Str
  plain_definition c pk line =
      let default_sql = render_default c.default in
      text (
        line
        ∷ (if not (is_blank (strip u c.collation)) && dialect.collations
            then codes " COLLATE " ++ strip u c.collation
            else [])
        ∷ (if is_blank default_sql then [] else codes " DEFAULT " ++ default_sql)
        ∷ (if c.nullable then [] else codes " NOT NULL")
        ∷ (if c.identity then identity_sql c pk else [])
        ∷ column_options_sql c
        ∷ (if not (is_blank (strip u c.comment)) && dialect.inline_comments
            then codes " COMMENT " ++ quoted_text c.comment
            else [])
        ∷ [])

  -- `_column_sql`
  unfoldable pub column_sql : ColumnModel → List Str → Raises TableModelError Str
  unfolding quoted render_default identity_sql column_options_sql doubled
  column_sql c pk = quoted dialect c.name >>= λ q.
      let sql_type = strip u c.sql_type in
      let generated = strip u c.generated in
      let line = if is_blank sql_type then q else text (q ∷ codes " " ∷ sql_type ∷ []) in
      returned (
        if not (is_blank generated) && dialect.generated_columns
        then text (
            line
            ∷ codes " GENERATED ALWAYS AS ("
            ∷ generated
            ∷ codes ") "
            ∷ (if c.generated_stored then codes "STORED" else codes "VIRTUAL")
            ∷ [])
        else plain_definition c pk line)

  abbrev action_sql : String → Str → Str
  action_sql words action =
      if is_blank (strip u action) then [] else codes words ++ to_upper u (strip u action)

  abbrev references : Str → Str → ConstraintModel → Raises TableModelError Str
  references head cols con = do
    raise_if (is_blank con.ref_table) needs_referenced_table
    target ← qualified dialect con.ref_schema con.ref_table
    ref_cols ←
        (if is_empty con.ref_columns
          then returned []
          else (quoted_list dialect con.ref_columns >>= λ listed.
              returned (text (codes " (" ∷ listed ∷ codes ")" ∷ []))))
    returned (
        text (
          head
          ∷ codes "FOREIGN KEY ("
          ∷ cols
          ∷ codes ") REFERENCES "
          ∷ target
          ∷ ref_cols
          ∷ action_sql " ON DELETE " con.on_delete
          ∷ action_sql " ON UPDATE " con.on_update
          ∷ []))

  abbrev with_columns : Str → Str → ConstraintModel → Raises TableModelError Str
  with_columns kind head con = do
    raise_if (is_empty con.columns) (constraint_needs_columns kind)
    cols ← quoted_list dialect con.columns
    if str_eq kind (codes "FOREIGN KEY")
        then references head cols con
        else returned (text (head ∷ kind ∷ codes " (" ∷ cols ∷ codes ")" ∷ []))

  abbrev checked : Str → ConstraintModel → Raises TableModelError Str
  checked head con = do
    raise_if (is_blank (strip u con.expression)) check_needs_expression
    returned (text (head ∷ codes "CHECK (" ∷ strip u con.expression ∷ codes ")" ∷ []))

  -- `_constraint_sql`
  unfoldable pub constraint_sql : ConstraintModel → Raises TableModelError Str
  unfolding quoted str_eq each join
  constraint_sql con =
      let kind = to_upper u con.kind in
      if not (is_one_of kind dialect.constraint_kinds)
      then returned []
      else (constraint_head dialect con.name >>= λ head.
          if str_eq kind (codes "CHECK") then checked head con else with_columns kind head con)
