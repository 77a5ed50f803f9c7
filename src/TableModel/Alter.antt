-- ===== src/TableModel/Alter.antt =====
-- The changes in place of backend/db/table_model.py.
pub mod Columns
use sqlide.Common.{
  Bool, not, ◌&&◌, ◌||◌, Option, none, some, List, [], ◌∷◌, ◌++◌, if◌then◌else◌, String, any,
}
use sqlide.Common.Raises.{Raises, returned, ◌>>=◌, collect}
use sqlide.Common.Text.{Str, codes, CharTable, str_eq, to_upper, to_lower, strip}
use sqlide.TableModel.{OptionSpec, ColumnModel, ConstraintModel, IndexModel, TableModel, Dialect}
use sqlide.TableModel.Read.{
  is_blank, bool_eq, constraint_key_eq, index_key_eq, title, render_option, option_value, option_on,
  has_default, primary_key,
}
use sqlide.TableModel.Sql.{
  TableModelError, text, quoted, table_name, render_default, column_sql, constraint_sql,
}
use sqlide.TableModel.Create.{index_sql}
use sqlide.TableModel.Diff.{
  Classification, safe, rewrites, may_fail, destructive, Statement, statement, put_all, keyed,
  default_eq, same_name, same_constraint, same_index, matched, is_lost, column_changed,
}
use sqlide.TableModel.Alter.Columns.{
  add_column, alter_column, drop_column, modify_column, restate_column,
}

module _ (u : CharTable) (is_float : Str → Bool) (dialect : Dialect) where
  unfoldable pub drop_constraint :
      Str → List ConstraintModel → ConstraintModel → Raises TableModelError (List Statement)
  unfolding quoted constraint_key_eq
  drop_constraint table after con =
      if any (same_constraint u con) after || is_blank con.name
      then returned []
      else (quoted dialect con.name >>= λ name. returned (
          statement destructive
            (codes "ALTER TABLE " ∷ table ∷ codes " DROP CONSTRAINT " ∷ name ∷ [])
            (codes "Drops constraint "
              ∷ con.name
              ∷ codes ": what it guaranteed stops being guaranteed"
              ∷ [])
          ∷ []))

  unfoldable pub add_constraint :
      Str → List ConstraintModel → ConstraintModel → Raises TableModelError (List Statement)
  unfolding constraint_sql constraint_key_eq
  add_constraint table before con =
      if any (same_constraint u con) before
      then returned []
      else (constraint_sql u is_float dialect con >>= λ sql. returned (
          if is_blank sql
          then []
          else statement may_fail (codes "ALTER TABLE " ∷ table ∷ codes " ADD " ∷ sql ∷ []) (
              codes "Adds a "
              ∷ to_upper u con.kind
              ∷ codes " constraint: this fails if any existing row breaks it"
              ∷ [])
            ∷ []))

  unfoldable pub constraint_statements :
      TableModel → TableModel → Str → Raises TableModelError (List Statement)
  unfolding drop_constraint add_constraint collect put_all constraint_key_eq
  constraint_statements current target table = do
    let before = keyed (same_constraint u) current.constraints
    let after = keyed (same_constraint u) target.constraints
    drops ← collect (drop_constraint table after) before
    adds ← collect (add_constraint table before) after
    returned (drops ++ adds)

  unfoldable pub drop_index : List IndexModel → IndexModel → Raises TableModelError (List Statement)
  unfolding quoted index_key_eq
  drop_index after index =
      if any (same_index u index) after || is_blank index.name
      then returned []
      else (quoted dialect index.name >>= λ name. returned (
          statement safe (codes "DROP INDEX " ∷ name ∷ []) (codes "Drops index " ∷ index.name ∷ [])
          ∷ []))

  unfoldable pub create_index :
      TableModel → List IndexModel → IndexModel → Raises TableModelError (List Statement)
  unfolding index_sql index_key_eq
  create_index target before index =
      if any (same_index u index) before
      then returned []
      else (index_sql u is_float dialect target index >>= λ sql. returned (
          statement (if index.unique then may_fail else safe) (sql ∷ []) (
            (if index.unique
              then codes "Adds a unique index: this fails if the existing rows have duplicates"
              else codes "Creates an index")
            ∷ [])
          ∷ []))

  unfoldable pub index_statements :
      TableModel → TableModel → Raises TableModelError (List Statement)
  unfolding drop_index create_index collect put_all index_key_eq
  index_statements current target = do
    let before = keyed (same_index u) current.indexes
    let after = keyed (same_index u) target.indexes
    drops ← collect (drop_index after) before
    adds ← collect (create_index target before) after
    returned (drops ++ adds)

  abbrev set_option : Str → OptionSpec → Str → List Statement
  set_option table spec value =
      let note = to_lower u (title spec) in
      if str_eq spec.placement (codes "with")
      then statement safe
          (codes "ALTER TABLE "
            ∷ table
            ∷ (if option_on u value
                then text (codes " SET (" ∷ render_option spec value ∷ codes ")" ∷ [])
                else text (codes " RESET (" ∷ spec.name ∷ codes ")" ∷ []))
            ∷ [])
          (codes "Sets " ∷ note ∷ [])
        ∷ []
      else if not (option_on u value)
      then []
      else statement rewrites
          (codes "ALTER TABLE " ∷ table ∷ codes " " ∷ render_option spec value ∷ [])
          (codes "Sets " ∷ note ∷ codes ", which rewrites the table" ∷ [])
        ∷ []

  unfoldable pub option_statements :
      TableModel → TableModel → Str → List OptionSpec → List Statement
  unfolding render_option str_eq
  option_statements current target table [] = []
  option_statements current target table (spec ∷ specs) =
      let rest = option_statements current target table specs in
      let before = strip u (option_value current.options spec) in
      let after = strip u (option_value target.options spec) in
      if not spec.alterable || not (is_blank spec.field) || str_eq before after
      then rest
      else set_option table spec after ++ rest

  abbrev pub rename_table : TableModel → TableModel → Raises TableModelError (List Statement)
  rename_table current target =
      if str_eq current.name target.name
        && not (dialect.schemas && not (str_eq current.schema target.schema))
      then returned []
      else do
        old_name ← table_name dialect current
        new_name ← quoted dialect target.name
        returned (
            statement safe (codes "ALTER TABLE " ∷ old_name ∷ codes " RENAME TO " ∷ new_name ∷ [])
              (codes "Renames the table" ∷ [])
            ∷ [])

  unfoldable pub alter_plan : TableModel → TableModel → Raises TableModelError (List Statement)
  unfolding table_name quoted alter_column drop_column constraint_statements index_statements
      option_statements matched is_lost primary_key collect str_eq
  alter_plan current target = do
    table ← table_name dialect target
    rename ← rename_table current target
    columns ←
        collect
          (λ c.
            alter_column u is_float dialect table (primary_key u target) (matched u current c) c)
          target.columns
    drops ←
        collect (λ c. drop_column u is_float dialect table (is_lost u current target c) c)
          current.columns
    constraints ← constraint_statements current target table
    indexes ← index_statements current target
    returned (
        rename
        ++ (columns
            ++ (drops
                ++ (constraints
                    ++ (indexes ++ option_statements current target table dialect.table_options)))))
