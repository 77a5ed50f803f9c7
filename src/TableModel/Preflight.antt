-- ===== src/TableModel/Preflight.antt =====
-- `preflight` of backend/db/table_model.py: the questions that are asked before a plan is run.
use sqlide.Common.{not, ◌&&◌, ◌||◌, Option, none, some, List, [], ◌∷◌, ◌++◌, if◌then◌else◌, any}
use sqlide.Common.Raises.{Raises, returned, ◌>>=◌, collect}
use sqlide.Common.Text.{Str, codes, CharTable, is_one_of, to_upper, join}
use sqlide.TableModel.{ColumnModel, ConstraintModel, IndexModel, TableModel, Dialect}
use sqlide.TableModel.Read.{is_empty, has_default, constraint_key_eq, index_key_eq}
use sqlide.TableModel.Sql.{TableModelError, text, quoted, quoted_list, table_name}
use sqlide.TableModel.Diff.{same_constraint, same_index, matched}

-- A query that counts the rows in the way of a change, with its label and what it stands beside.
pub record Check : Type 0 where
  pub sql : Str
  pub label : Str
  pub statement : Str

module _ (u : CharTable) (dialect : Dialect) where
  abbrev null_check : Str → ColumnModel → ColumnModel → Raises TableModelError (List Check)
  null_check table old c = quoted dialect old.name >>= λ name. returned (
      record {
        sql = text (
            codes "SELECT count(*) FROM " ∷ table ∷ codes " WHERE " ∷ name ∷ codes " IS NULL" ∷ []);
        label =
            text
              (codes "rows where " ∷ old.name ∷ codes " is null, which NOT NULL would reject" ∷ []);
        statement = c.name;
      }
      ∷ [])

  -- A column that loses its nulls and has no default is asked about.
  unfoldable pub column_checks :
      Str → Option ColumnModel → ColumnModel → Raises TableModelError (List Check)
  unfolding quoted has_default
  column_checks table none c = returned []
  column_checks table (some old) c =
      if old.nullable && (not c.nullable && not (has_default u c.default))
      then null_check table old c
      else returned []

  unfoldable pub duplicate_check : List Str → Str → Raises TableModelError (List Check)
  unfolding quoted join
  duplicate_check columns table = quoted_list dialect columns >>= λ listed. returned (
      record {
        sql = text (
            codes "SELECT count(*) FROM (SELECT "
            ∷ listed
            ∷ codes " FROM "
            ∷ table
            ∷ codes " GROUP BY "
            ∷ listed
            ∷ codes " HAVING count(*) > 1) AS d"
            ∷ []);
        label = text (
            codes "duplicate groups over "
            ∷ join (codes ", ") columns
            ∷ codes ", which UNIQUE would reject"
            ∷ []);
        statement = join (codes ", ") columns;
      }
      ∷ [])

  unfoldable pub constraint_checks :
      List ConstraintModel → Str → ConstraintModel → Raises TableModelError (List Check)
  unfolding duplicate_check constraint_key_eq
  constraint_checks before table con =
      let is_unique = is_one_of (to_upper u con.kind) (codes "UNIQUE" ∷ codes "PRIMARY KEY" ∷ []) in
      if any (same_constraint u con) before || (not is_unique || is_empty con.columns)
      then returned []
      else duplicate_check con.columns table

  unfoldable pub index_checks :
      List IndexModel → Str → IndexModel → Raises TableModelError (List Check)
  unfolding duplicate_check index_key_eq
  index_checks before table index =
      if any (same_index u index) before || (not index.unique || is_empty index.columns)
      then returned []
      else duplicate_check index.columns table

  unfoldable pub preflight : Option TableModel → TableModel → Raises TableModelError (List Check)
  unfolding table_name matched column_checks constraint_checks index_checks collect
  preflight none target = returned []
  preflight (some current) target = do
    table ← table_name dialect current
    columns ← collect (λ c. column_checks table (matched u current c) c) target.columns
    constraints ← collect (constraint_checks current.constraints table) target.constraints
    indexes ← collect (index_checks current.indexes table) target.indexes
    returned (columns ++ (constraints ++ indexes))
