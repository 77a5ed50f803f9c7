-- ===== src/TableModel/Diff.antt =====
-- What the planner of backend/db/table_model.py compares: statements, matched columns, keys.
use sqlide.Common.{
  Bool, true, false, not, ◌&&◌, ◌||◌, Option, none, some, List, [], ◌∷◌, ◌++◌, map, if◌then◌else◌,
  String, any, all,
}
use sqlide.Common.Text.{Str, codes, CharTable, str_eq, is_one_of, to_lower, strip}
use sqlide.TableModel.{ColumnDefault, ColumnModel, ConstraintModel, IndexModel, TableModel, Dialect}
use sqlide.TableModel.Read.{
  is_blank, bool_eq, strs_eq, constraint_key, constraint_key_eq, index_key, index_key_eq, column,
  primary_key,
}
use sqlide.TableModel.Sql.{text}

pub data Classification : Type 0 where
  safe rewrites may_fail destructive : Classification

pub record Statement : Type 0 where
  pub sql : Str
  pub classification : Classification
  pub note : Str

abbrev pub statement : Classification → List Str → List Str → Statement
statement c sql note = record { sql = text sql; classification = c; note = text note }

-- The statements of one kind, with one note.
abbrev pub statements : Classification → String → List Str → List Statement
statements c note sqls = map (λ sql. statement c (sql ∷ []) (codes note ∷ [])) sqls

abbrev pub is_destructive : Statement → Bool
is_destructive s = is_last s.classification
  where
    is_last : Classification → Bool
    is_last destructive = true
    is_last _ = false

-- `{x.key: x for x in xs}`: a later entry of the same key takes the place of an earlier one.
module _ {ℓ} {A : Type ℓ} (same : A → A → Bool) where
  unfoldable pub put : A → List A → List A
  put x [] = x ∷ []
  put x (y ∷ ys) = let rest = put x ys in if same x y then x ∷ ys else y ∷ rest

  unfoldable pub put_all : List A → List A → List A
  unfolding put
  put_all entries [] = entries
  put_all entries (x ∷ xs) = put_all (put x entries) xs

  abbrev pub keyed : List A → List A
  keyed xs = put_all [] xs

  -- `{x.key for x in xs} != {y.key for y in ys}`
  abbrev pub keys_differ : List A → List A → Bool
  keys_differ xs ys = not (all (λ x. any (same x) ys) xs && all (λ y. any (same y) xs) ys)

unfoldable pub default_eq : ColumnDefault → ColumnDefault → Bool
unfolding str_eq
default_eq d e = str_eq d.kind e.kind && str_eq d.value e.value

module _ (u : CharTable) where
  -- `name.lower() == other.lower()`
  abbrev pub same_name : Str → Str → Bool
  same_name name other = str_eq (to_lower u name) (to_lower u other)

  abbrev pub same_constraint : ConstraintModel → ConstraintModel → Bool
  same_constraint c d = constraint_key_eq (constraint_key u c) (constraint_key u d)

  abbrev pub same_index : IndexModel → IndexModel → Bool
  same_index i j = index_key_eq (index_key u i) (index_key u j)

  abbrev pub or_else : Option ColumnModel → Option ColumnModel → Option ColumnModel
  or_else none other = other
  or_else (some c) other = some c

  -- `_matched`
  unfoldable pub matched : TableModel → ColumnModel → Option ColumnModel
  matched current c =
      if is_blank c.renamed_from
      then column u current c.name
      else or_else (column u current c.renamed_from) (column u current c.name)

  abbrev pub name_of : Option ColumnModel → List Str
  name_of none = []
  name_of (some old) = to_lower u old.name ∷ []

  -- `_kept`
  unfoldable pub kept : TableModel → List ColumnModel → List Str
  unfolding matched
  kept current [] = []
  kept current (c ∷ cs) = name_of (matched current c) ++ kept current cs

  -- A column of the current table that no column of the target continues.
  unfoldable pub is_lost : TableModel → TableModel → ColumnModel → Bool
  unfolding kept str_eq
  is_lost current target c = not (is_one_of (to_lower u c.name) (kept current target.columns))

  unfoldable pub column_changed : ColumnModel → ColumnModel → Bool
  unfolding str_eq default_eq
  column_changed old new =
      not (str_eq (strip u old.sql_type) (strip u new.sql_type))
      || (not (bool_eq old.nullable new.nullable)
          || (not (default_eq old.default new.default)
              || not (str_eq (strip u old.collation) (strip u new.collation))))

  abbrev pub changed_from : Option ColumnModel → ColumnModel → Bool
  changed_from none c = false
  changed_from (some old) c = column_changed old c

  unfoldable pub needs_rebuild : TableModel → TableModel → Dialect → Bool
  unfolding is_lost matched column_changed constraint_key_eq primary_key
  needs_rebuild current target dialect =
      (not dialect.can_drop_column && any (is_lost current target) current.columns)
      || ((not dialect.can_modify_column
            && any (λ c. changed_from (matched current c) c) target.columns)
          || (not dialect.can_alter_constraint
              && (keys_differ same_constraint current.constraints target.constraints
                  || not (strs_eq (primary_key u current) (primary_key u target)))))
