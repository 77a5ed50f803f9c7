-- ===== src/TableModel/Tests.antt =====
-- Runs of the planner of backend/db/table_model.py, and the theorems at concrete tables.
use sqlide.Common.{
  not, Bool, true, false, Option, none, some, List, [], ◌∷◌, ◌++◌, map, ◌≡◌, refl, String, ℕ, any,
}
use sqlide.Common.Raises.{Raises, returned, raised}
use sqlide.Common.Text.{is_one_of, to_lower, Str, codes, words, ascii}
use sqlide.TableModel.{ColumnDefault, ColumnModel, ConstraintModel, IndexModel, TableModel, Dialect}
use sqlide.TableModel.Sql.{TableModelError, doubled}
use sqlide.TableModel.Diff.{Statement, destructive, is_lost}
use sqlide.TableModel.Preflight.{Check, preflight}
use sqlide.TableModel.Plan.{plan, worst}
use sqlide.TableModel.Loss.Copied.{copied_names, is_lost-carried}
use sqlide.TableModel.Loss.Worst.{worst-plan_iff}
use sqlide.TableModel.Same.{IsLoaded, plan_unchanged}

abbrev no_default : ColumnDefault
no_default = record { kind = codes "none"; value = [] }

abbrev a_column : String → String → Bool → String → ColumnModel
a_column name sql_type nullable was = record {
  name = codes name;
  sql_type = codes sql_type;
  nullable = nullable;
  primary_key = false;
  default = no_default;
  comment = [];
  collation = [];
  identity = false;
  generated = [];
  generated_stored = true;
  renamed_from = codes was;
  options = [];
}

abbrev a_table : List ColumnModel → TableModel
a_table columns = record {
  name = codes "t";
  schema = [];
  columns = columns;
  constraints = [];
  indexes = [];
  comment = [];
  options = [];
}

-- The name in double quotes.
abbrev ansi_quote : Str → Str
ansi_quote name = b'"' ∷ (name ++ b'"' ∷ [])

abbrev an_engine : Bool → Dialect
an_engine can_change = record {
  quote_name = ansi_quote;
  schemas = true;
  identity_style = codes "identity";
  inline_comments = false;
  comment_statements = true;
  collations = true;
  generated_columns = true;
  constraint_kinds = words ("PRIMARY KEY" ∷ "UNIQUE" ∷ "CHECK" ∷ "FOREIGN KEY" ∷ []);
  index_method = true;
  partial_indexes = true;
  can_drop_column = can_change;
  can_modify_column = can_change;
  can_alter_constraint = can_change;
  modify_style = codes "postgres";
  rename_column_style = codes "rename";
  rebuild_prologue = [];
  rebuild_epilogue = [];
  option_style = codes "postgres";
  table_options = [];
  column_options = [];
}

abbrev no_number : Str → Bool
no_number s = false

abbrev before : TableModel
before = a_table (a_column "id" "int" false "" ∷ a_column "note" "text" true "" ∷ [])

-- The column `note` is gone.
abbrev shorter : TableModel
shorter = a_table (a_column "id" "int" false "" ∷ [])

abbrev sqls : Raises TableModelError (List Statement) → List Str
sqls (raised e) = []
sqls (returned out) = map (λ s. s.sql) out

abbrev found_in : Raises TableModelError (List Statement) → List Statement
found_in (raised e) = []
found_in (returned out) = out

-- What the planner makes of the table on an engine that changes it in place, or rebuilds it.
abbrev planned : Bool → TableModel → Raises TableModelError (List Statement)
planned can_change target = plan ascii no_number (an_engine can_change) (some before) target

drop_in_place : sqls (planned true shorter) ≡ words ("ALTER TABLE \"t\" DROP COLUMN \"note\"" ∷ [])
unfolding plan sqlide.TableModel.Read.column_in mathlib.Core.List.flat_map
    sqlide.Common.Text.strip_by
drop_in_place = refl

drop_by_rebuild :
    sqls (planned false shorter)
    ≡ words (
        "ALTER TABLE \"t\" RENAME TO \"t__sqlide_old\""
        ∷ "CREATE TABLE \"t\" (\n  \"id\" int NOT NULL\n)"
        ∷ "INSERT INTO \"t\" (\"id\") SELECT \"id\" FROM \"t__sqlide_old\""
        ∷ "DROP TABLE \"t__sqlide_old\"" ∷ [])
unfolding plan sqlide.TableModel.Read.column_in mathlib.Core.List.flat_map
    sqlide.Common.Text.strip_by sqlide.Common.first_case
drop_by_rebuild = refl

-- `note` becomes `remark`, and a new column takes the name `note`: the planner takes the new column
-- for the old one and never adds it.
name_reused :
    sqls (
      planned true (
        a_table (
          a_column "id" "int" false ""
          ∷ a_column "remark" "text" true "note"
          ∷ a_column "note" "text" true ""
          ∷ [])))
    ≡ words ("ALTER TABLE \"t\" RENAME COLUMN \"note\" TO \"remark\"" ∷ [])
unfolding plan sqlide.TableModel.Read.column_in mathlib.Core.List.flat_map
    sqlide.Common.Text.strip_by
name_reused = refl

dropped_plan : planned true shorter ≡ returned (found_in (planned true shorter))
unfolding plan sqlide.TableModel.Read.column_in mathlib.Core.List.flat_map
    sqlide.Common.Text.strip_by
dropped_plan = refl

worst-plan_iff_example : worst (found_in (planned true shorter)) ≡ some destructive
unfolding plan sqlide.TableModel.Read.column_in mathlib.Core.List.flat_map
    sqlide.Common.Text.strip_by is_lost
worst-plan_iff_example =
    (worst-plan_iff ascii no_number (an_engine true) before shorter
        (found_in (planned true shorter)) dropped_plan).1
      refl

-- Two columns whose names differ in case alone: left as they are, the second is compared with the
-- first, and its type is changed to what it is.
abbrev by_case : TableModel
by_case = a_table (a_column "id" "int" false "" ∷ a_column "ID" "text" false "" ∷ [])

names_by_case :
    sqls (plan ascii no_number (an_engine true) (some by_case) by_case)
    ≡ words ("ALTER TABLE \"t\" ALTER COLUMN \"ID\" TYPE text" ∷ [])
unfolding plan sqlide.TableModel.Read.column_in mathlib.Core.List.flat_map
    sqlide.Common.Text.strip_by
names_by_case = refl

before-IsLoaded : IsLoaded ascii before
unfolding sqlide.Common.Text.str_eq mathlib.Core.List.flat_map
before-IsLoaded = record { distinct = (refl, (refl, tt)); not_renamed = (refl, (refl, tt)) }

plan_unchanged_example : plan ascii no_number (an_engine false) (some before) before ≡ returned []
unfolding sqlide.TableModel.Sql.table_name
plan_unchanged_example =
    plan_unchanged ascii no_number (an_engine false) before (codes "\"t\"") before-IsLoaded refl

-- `note` becomes NOT NULL, with a default for new rows.
abbrev with_default : TableModel
with_default = a_table (
    a_column "id" "int" false ""
    ∷ record {
      name = codes "note";
      sql_type = codes "text";
      nullable = false;
      primary_key = false;
      default = record { kind = codes "literal"; value = codes "none" };
      comment = [];
      collation = [];
      identity = false;
      generated = [];
      generated_stored = true;
      renamed_from = [];
      options = [];
    }
    ∷ [])

abbrev checks : Raises TableModelError (List Check) → List Str
checks (raised e) = []
checks (returned out) = map (λ c. c.sql) out

-- A default fills no row that is there, and the rows with a null in them are not counted.
nulls_not_asked :
    (sqls (planned true with_default)
      ≡ words (
          "ALTER TABLE \"t\" ALTER COLUMN \"note\" SET NOT NULL"
          ∷ "ALTER TABLE \"t\" ALTER COLUMN \"note\" SET DEFAULT 'none'" ∷ []))
    × (checks (preflight ascii (an_engine true) (some before) with_default) ≡ [])
unfolding plan preflight sqlide.TableModel.Read.column_in mathlib.Core.List.flat_map
    sqlide.Common.Text.strip_by sqlide.Common.first_case
nulls_not_asked = (refl, refl)

is_lost-carried_example :
    is_lost ascii before shorter (a_column "note" "text" true "")
    ≡ not (is_one_of (to_lower ascii (codes "note")) (copied_names ascii before shorter.columns))
is_lost-carried_example = is_lost-carried ascii before shorter (a_column "note" "text" true "")
