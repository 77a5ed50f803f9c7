-- ===== src/TableModel/Alter/Columns.antt =====
-- The changes of columns in place, in backend/db/table_model.py.
use sqlide.Common.{
  Bool, not, ◌&&◌, ◌||◌, Option, none, some, List, [], ◌∷◌, ◌++◌, if◌then◌else◌, String,
}
use sqlide.Common.Raises.{Raises, returned, ◌>>=◌}
use sqlide.Common.Text.{Str, codes, CharTable, str_eq, strip}
use sqlide.TableModel.{ColumnModel, Dialect}
use sqlide.TableModel.Read.{is_blank, bool_eq, has_default}
use sqlide.TableModel.Sql.{TableModelError, quoted, render_default, column_sql}
use sqlide.TableModel.Diff.{
  Classification, safe, rewrites, may_fail, destructive, Statement, statement, default_eq,
  same_name, column_changed,
}

module _ (u : CharTable) (is_float : Str → Bool) (dialect : Dialect) where
  abbrev not_null_fails : String → ColumnModel → String → List Str
  not_null_fails head c tail = codes head ∷ c.name ∷ codes tail ∷ []

  unfoldable pub add_column : Str → ColumnModel → List Str → Raises TableModelError Statement
  unfolding column_sql has_default
  add_column table c pk = column_sql u is_float dialect c pk >>= λ definition.
      let sql = codes "ALTER TABLE " ∷ table ∷ codes " ADD COLUMN " ∷ definition ∷ [] in
      returned (
        if not c.nullable && not (has_default u c.default)
        then statement may_fail sql (
            codes "Adds NOT NULL column "
            ∷ c.name
            ∷ codes " with no default: this fails if the table has rows"
            ∷ [])
        else statement safe sql (codes "Adds column " ∷ c.name ∷ []))

  abbrev tightened : ColumnModel → ColumnModel → Bool
  tightened old new = old.nullable && not new.nullable

  abbrev adds_not_null : ColumnModel → List Str
  adds_not_null c =
      codes "Adds NOT NULL to " ∷ c.name ∷ codes ": this fails if any row has a null there" ∷ []

  -- MySQL: the whole definition again, with CHANGE where the name is new.
  unfoldable pub restate_column :
      Str → ColumnModel → ColumnModel → List Str → Raises TableModelError (List Statement)
  unfolding column_sql quoted
  restate_column table old new pk = do
    definition ← column_sql u is_float dialect new pk
    verb ←
        (if same_name u old.name new.name
          then returned (codes "MODIFY COLUMN")
          else (quoted dialect old.name >>= λ q. returned (codes "CHANGE COLUMN " ++ q)))
    returned (
        statement (if tightened old new then may_fail else rewrites)
          (codes "ALTER TABLE " ∷ table ∷ codes " " ∷ verb ∷ codes " " ∷ definition ∷ [])
          (if tightened old new
            then adds_not_null new
            else codes "Rewrites column " ∷ new.name ∷ [])
        ∷ [])

  -- `f"ALTER TABLE {table} ALTER COLUMN {name} …"`
  abbrev alter : Classification → Str → Str → List Str → List Str → Statement
  alter c table name rest note =
      statement c (codes "ALTER TABLE " ∷ table ∷ codes " ALTER COLUMN " ∷ name ∷ rest) note

  abbrev change_type : Str → Str → ColumnModel → ColumnModel → List Statement
  change_type table name old new =
      if str_eq (strip u old.sql_type) (strip u new.sql_type)
      then []
      else alter rewrites table name (codes " TYPE " ∷ strip u new.sql_type ∷ [])
          (codes "Changes the type of " ∷ new.name ∷ codes ", rewriting the table" ∷ [])
        ∷ []

  abbrev change_null : Str → Str → ColumnModel → ColumnModel → List Statement
  change_null table name old new =
      if bool_eq old.nullable new.nullable
      then []
      else if tightened old new
      then alter may_fail table name (codes " SET NOT NULL" ∷ []) (adds_not_null new) ∷ []
      else alter safe table name (codes " DROP NOT NULL" ∷ [])
          (codes "Lets " ∷ new.name ∷ codes " be null" ∷ [])
        ∷ []

  abbrev change_default : Str → Str → ColumnModel → ColumnModel → List Statement
  change_default table name old new =
      let value = render_default u is_float dialect new.default in
      if default_eq old.default new.default
      then []
      else if is_blank value
      then alter safe table name (codes " DROP DEFAULT" ∷ [])
          (codes "Removes the default for " ∷ new.name ∷ [])
        ∷ []
      else alter safe table name (codes " SET DEFAULT " ∷ value ∷ [])
          (codes "Sets the default for " ∷ new.name ∷ [])
        ∷ []

  unfoldable pub modify_column :
      Str → ColumnModel → ColumnModel → List Str → Raises TableModelError (List Statement)
  unfolding restate_column quoted render_default default_eq str_eq
  modify_column table old new pk = quoted dialect new.name >>= λ name.
      if str_eq dialect.modify_style (codes "mysql")
      then restate_column table old new pk
      else returned (
          change_type table name old new
          ++ (change_null table name old new ++ change_default table name old new))

  abbrev rename_column : Str → ColumnModel → ColumnModel → Raises TableModelError (List Statement)
  rename_column table old new = do
    from_name ← quoted dialect old.name
    to_name ← quoted dialect new.name
    returned (
        statement safe
          (codes "ALTER TABLE "
            ∷ table
            ∷ codes " RENAME COLUMN "
            ∷ from_name
            ∷ codes " TO "
            ∷ to_name
            ∷ [])
          (codes "Renames " ∷ old.name ∷ codes " to " ∷ new.name ∷ [])
        ∷ [])

  -- What becomes of one column of the target: a new one, or the one that it is matched with.
  unfoldable pub alter_column :
      Str → List Str → Option ColumnModel → ColumnModel → Raises TableModelError (List Statement)
  unfolding add_column modify_column quoted column_changed str_eq
  alter_column table pk none c = add_column table c pk >>= λ s. returned (s ∷ [])
  alter_column table pk (some old) c = do
    let renamed = not (same_name u old.name c.name)
    let in_place = renamed && not (str_eq dialect.rename_column_style (codes "change"))
    rename ← (if in_place then rename_column table old c else returned [])
    change ←
        (if (renamed && not in_place) || column_changed u old c
          then modify_column table old c pk
          else returned [])
    returned (rename ++ change)

  unfoldable pub drop_column : Str → Bool → ColumnModel → Raises TableModelError (List Statement)
  unfolding quoted
  drop_column table lost c =
      if not lost
      then returned []
      else (quoted dialect c.name >>= λ name. returned (
          statement destructive (codes "ALTER TABLE " ∷ table ∷ codes " DROP COLUMN " ∷ name ∷ [])
            (codes "Drops column " ∷ c.name ∷ codes " and everything in it" ∷ [])
          ∷ []))
