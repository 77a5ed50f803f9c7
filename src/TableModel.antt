-- ===== src/TableModel.antt =====
-- backend/db/table_model.py: the model of a table, what an engine can do to one, and what is compared.
pub mod Read
pub mod Sql
pub mod Create
pub mod Diff
pub mod Rebuild
pub mod Alter
pub mod Plan
pub mod Loss
pub mod Equal
pub mod Same
pub mod Preflight
mod Tests
use mathlib.Core.Option
use mathlib.Core.List.{filter}
use sqlide.Common.{
  Bool, true, false, not, ◌&&◌, ◌||◌, Option, none, some, List, [], ◌∷◌, ◌++◌, map, if◌then◌else◌,
  ℕ, suc, zero, get_elem?, length, ◌-◌, ◌+◌, drop, take, any, all, first_case,
}
use sqlide.Common.Text.{Str, codes, CharTable, str_eq, is_one_of, find, to_upper, to_lower, strip}

-- A dictionary of texts, in the order of its keys.
abbrev pub Options : Type 0
Options = List (Str × Str)

pub record OptionSpec : Type 0 where
  pub name : Str
  pub label : Str
  pub kind : Str
  pub field : Str
  pub placement : Str
  pub template : Str
  pub alterable : Bool

-- `kind` is "none", "literal" or "expression".
pub record ColumnDefault : Type 0 where
  pub kind : Str
  pub value : Str

pub record ColumnModel : Type 0 where
  pub name : Str
  pub sql_type : Str
  pub nullable : Bool
  pub primary_key : Bool
  pub default : ColumnDefault
  pub comment : Str
  pub collation : Str
  pub identity : Bool
  pub generated : Str
  pub generated_stored : Bool
  pub renamed_from : Str
  pub options : Options

pub record ConstraintModel : Type 0 where
  pub kind : Str
  pub name : Str
  pub columns : List Str
  pub ref_schema : Str
  pub ref_table : Str
  pub ref_columns : List Str
  pub on_delete : Str
  pub on_update : Str
  pub expression : Str

pub record IndexModel : Type 0 where
  pub name : Str
  pub columns : List Str
  pub unique : Bool
  pub method : Str
  pub where_sql : Str
  pub directions : List Str

pub record TableModel : Type 0 where
  pub name : Str
  pub schema : Str
  pub columns : List ColumnModel
  pub constraints : List ConstraintModel
  pub indexes : List IndexModel
  pub comment : Str
  pub options : Options

-- The fields that rendering and planning read.
pub record Dialect : Type 0 where
  pub quote_name : Str → Str
  pub schemas : Bool
  pub identity_style : Str
  pub inline_comments : Bool
  pub comment_statements : Bool
  pub collations : Bool
  pub generated_columns : Bool
  pub constraint_kinds : List Str
  pub index_method : Bool
  pub partial_indexes : Bool
  pub can_drop_column : Bool
  pub can_modify_column : Bool
  pub can_alter_constraint : Bool
  pub modify_style : Str
  pub rename_column_style : Str
  pub rebuild_prologue : List Str
  pub rebuild_epilogue : List Str
  pub option_style : Str
  pub table_options : List OptionSpec
  pub column_options : List OptionSpec
