-- ===== src/TableModel/Create.antt =====
-- CREATE TABLE with its indexes and comments, in backend/db/table_model.py.
use sqlide.Common.{Bool, false, not, ◌&&◌, ◌||◌, List, [], ◌∷◌, ◌++◌, if◌then◌else◌, ℕ, suc, any}
use sqlide.Common.Raises.{Raises, returned, ◌>>=◌, ◌>>◌, raise_if, each, collect}
use sqlide.Common.Text.{Str, codes, CharTable, str_eq, to_upper, to_lower, strip, join}
use sqlide.TableModel.{ColumnModel, ConstraintModel, IndexModel, TableModel, Dialect}
use sqlide.TableModel.Read.{is_blank, is_empty, direction, primary_key}
use sqlide.TableModel.Sql.{
  TableModelError, no_table_name, no_columns, index_needs_columns, text, quoted, quoted_list,
  quoted_text, doubled, table_name, constraint_head, create_prefix, options_sql, column_sql,
  constraint_sql,
}

module _ (u : CharTable) (is_float : Str → Bool) (dialect : Dialect) where
  abbrev pub is_primary_key : ConstraintModel → Bool
  is_primary_key con = str_eq (to_upper u con.kind) (codes "PRIMARY KEY")

  unfoldable pub named_columns : List ColumnModel → List ColumnModel
  named_columns [] = []
  named_columns (c ∷ cs) =
      let rest = named_columns cs in if is_blank (strip u c.name) then rest else c ∷ rest

  unfoldable pub inline_pk_columns : List ColumnModel → List Str → Bool
  unfolding str_eq
  inline_pk_columns columns (k ∷ []) =
      str_eq dialect.identity_style (codes "rowid")
      && any (λ c. c.identity && str_eq (to_lower u c.name) (to_lower u k)) columns
  inline_pk_columns columns _ = false

  -- The name of the first PRIMARY KEY constraint that has one.
  unfoldable pub key_name : List ConstraintModel → Str
  unfolding str_eq
  key_name [] = []
  key_name (con ∷ cons) =
      let rest = key_name cons in
      if is_primary_key con && not (is_blank con.name) then con.name else rest

  abbrev indented : Str → Str
  indented definition = codes "  " ++ definition

  abbrev key_clause : List ConstraintModel → List Str → Raises TableModelError (List Str)
  key_clause constraints pk = do
    head ← constraint_head dialect (key_name constraints)
    cols ← quoted_list dialect pk
    returned (indented (text (head ∷ codes "PRIMARY KEY (" ∷ cols ∷ codes ")" ∷ [])) ∷ [])

  -- The entries that a constraint adds: none for the primary key, or where nothing is rendered.
  abbrev constraint_entry : ConstraintModel → Raises TableModelError (List Str)
  constraint_entry con =
      if is_primary_key con
      then returned []
      else (constraint_sql u is_float dialect con >>= λ sql.
          returned (if is_blank sql then [] else indented sql ∷ []))

  unfoldable pub render_create : TableModel → Raises TableModelError Str
  unfolding named_columns inline_pk_columns key_name column_sql constraint_sql primary_key quoted
      table_name create_prefix options_sql each collect str_eq join
  render_create m = do
    let columns = named_columns m.columns
    let pk = primary_key u m
    raise_if (is_blank (strip u m.name)) no_table_name
    raise_if (is_empty columns) no_columns
    defs ← each (λ c. column_sql u is_float dialect c pk >>= λ sql. returned (indented sql)) columns
    key ←
        (if is_empty pk || inline_pk_columns columns pk
          then returned []
          else key_clause m.constraints pk)
    others ← collect constraint_entry m.constraints
    table ← table_name dialect m
    returned (
        text (
          codes "CREATE "
          ∷ create_prefix u is_float dialect m
          ∷ codes "TABLE "
          ∷ table
          ∷ codes " (\n"
          ∷ join (codes ",\n") (defs ++ (key ++ others))
          ∷ codes "\n)"
          ∷ options_sql u is_float dialect m
          ∷ []))

  abbrev index_entries : IndexModel → ℕ → List Str → Raises TableModelError (List Str)
  index_entries index i [] = returned []
  index_entries index i (c ∷ cs) = do
    entry ← quoted dialect c
    rest ← index_entries index (suc i) cs
    let sort = direction u index i
    returned ((if is_blank sort then entry else text (entry ∷ codes " " ∷ sort ∷ [])) ∷ rest)

  -- `f"{dialect.quoted(index.name)} "`, where there is a name
  abbrev index_label : Str → Raises TableModelError Str
  index_label name =
      if is_blank name
      then returned []
      else (quoted dialect name >>= λ q. returned (q ++ codes " "))

  unfoldable pub index_sql : TableModel → IndexModel → Raises TableModelError Str
  unfolding quoted table_name direction join
  index_sql m index = do
    raise_if (is_empty index.columns) index_needs_columns
    label ← index_label index.name
    table ← table_name dialect m
    entries ← index_entries index 0 index.columns
    returned (
        text (
          codes "CREATE "
          ∷ (if index.unique then codes "UNIQUE " else [])
          ∷ codes "INDEX "
          ∷ label
          ∷ codes "ON "
          ∷ table
          ∷ (if not (is_blank (strip u index.method)) && dialect.index_method
              then codes " USING " ++ strip u index.method
              else [])
          ∷ codes " ("
          ∷ join (codes ", ") entries
          ∷ codes ")"
          ∷ (if not (is_blank (strip u index.where_sql)) && dialect.partial_indexes
              then codes " WHERE " ++ strip u index.where_sql
              else [])
          ∷ []))

  unfoldable pub render_indexes : TableModel → Raises TableModelError (List Str)
  unfolding index_sql collect
  render_indexes m =
      collect
        (λ index.
          if is_empty index.columns
          then returned []
          else (index_sql m index >>= λ sql. returned (sql ∷ [])))
        m.indexes

  abbrev column_comment : Str → ColumnModel → Raises TableModelError (List Str)
  column_comment table c =
      if is_blank (strip u c.comment)
      then returned []
      else (quoted dialect c.name >>= λ q. returned (
          text (
            codes "COMMENT ON COLUMN "
            ∷ table
            ∷ codes "."
            ∷ q
            ∷ codes " IS "
            ∷ quoted_text c.comment
            ∷ [])
          ∷ []))

  abbrev table_comment : Str → TableModel → List Str
  table_comment table m =
      if is_blank (strip u m.comment)
      then []
      else text (codes "COMMENT ON TABLE " ∷ table ∷ codes " IS " ∷ quoted_text m.comment ∷ []) ∷ []

  unfoldable pub render_comments : TableModel → Raises TableModelError (List Str)
  unfolding quoted table_name collect doubled
  render_comments m =
      if not dialect.comment_statements
      then returned []
      else (table_name dialect m >>= λ table.
          collect (column_comment table) m.columns >>= λ columns.
          returned (table_comment table m ++ columns))
