-- ===== src/TableModel/Read.antt =====
-- What is read off a model of a table, in backend/db/table_model.py, and what is compared.
use sqlide.Common.{
  Bool, true, false, not, ◌&&◌, ◌||◌, Option, none, some, List, [], ◌∷◌, ◌++◌, map, if◌then◌else◌,
  ℕ, suc, get_elem?, ◌+◌, drop, take, first_case,
}
use sqlide.Common.Text.{Str, codes, CharTable, str_eq, is_one_of, find, to_upper, to_lower, strip}
use sqlide.TableModel.{
  ColumnDefault, ColumnModel, ConstraintModel, Dialect, IndexModel, OptionSpec, Options, TableModel,
}

abbrev pub is_blank : Str → Bool
is_blank [] = true
is_blank (c ∷ s) = false

abbrev pub is_empty {ℓ} : {A : Type ℓ} → List A → Bool
is_empty [] = true
is_empty (x ∷ xs) = false

-- `bool` as Python compares it
abbrev pub bool_eq : Bool → Bool → Bool
bool_eq true b = b
bool_eq false b = not b

-- Equality of tuples of texts.
unfoldable pub strs_eq : List Str → List Str → Bool
unfolding str_eq
strs_eq [] [] = true
strs_eq (a ∷ xs) (b ∷ ys) = str_eq a b && strs_eq xs ys
strs_eq _ _ = false

-- What two constraints, or two indexes, are compared by.
pub data ConstraintKey : Type 0 where
  by_name : Str → Str → ConstraintKey
  by_shape : Str → List Str → Str → List Str → Str → ConstraintKey

pub data IndexKey : Type 0 where
  index_name : Str → IndexKey
  index_shape : List Str → List Str → Bool → Str → IndexKey

unfoldable pub constraint_key_eq : ConstraintKey → ConstraintKey → Bool
unfolding strs_eq
constraint_key_eq (by_name k n) (by_name l m) = str_eq k l && str_eq n m
constraint_key_eq (by_shape k cs t rs e) (by_shape l ds v qs f) =
    str_eq k l && (strs_eq cs ds && (str_eq t v && (strs_eq rs qs && str_eq e f)))
constraint_key_eq _ _ = false

unfoldable pub index_key_eq : IndexKey → IndexKey → Bool
unfolding strs_eq
index_key_eq (index_name n) (index_name m) = str_eq n m
index_key_eq (index_shape cs ds u m) (index_shape es fs v n) =
    strs_eq cs es && (strs_eq ds fs && (bool_eq u v && str_eq m n))
index_key_eq _ _ = false

-- `options.get(name, "")`
unfoldable pub lookup_option : Str → Options → Str
unfolding str_eq
lookup_option name [] = []
lookup_option name ((k, v) ∷ rest) =
    let found = lookup_option name rest in if str_eq k name then v else found

-- `str.format(value=value)` of a template that has `{value}` once and no other brace.
unfoldable pub format_value : Str → Str → Str
format_value template value = elim (find template (codes "{value}") 0) [
  | none ↦ template
  | some i ↦ take i template ++ (value ++ drop (i + 7) template)
]

-- `OptionSpec.title`
abbrev pub title : OptionSpec → Str
title spec = if is_blank spec.label then spec.name else spec.label

-- `OptionSpec.render`
unfoldable pub render_option : OptionSpec → Str → Str
unfolding format_value str_eq
render_option spec value =
    first_case
      ((not (is_blank spec.template), format_value spec.template value)
        ∷ (str_eq spec.kind (codes "boolean"), spec.name)
        ∷ (str_eq spec.placement (codes "with"), spec.name ++ (codes " = " ++ value))
        ∷ [])
      (spec.name ++ (codes "=" ++ value))

-- `option_value` of an option that has no field of its own.
abbrev pub option_value : Options → OptionSpec → Str
option_value options spec = lookup_option spec.name options

-- `range(len(columns))`
abbrev pub positions_from : ℕ → List Str → List ℕ
positions_from i [] = []
positions_from i (c ∷ cs) = i ∷ positions_from (suc i) cs

module _ (u : CharTable) where
  abbrev pub option_on : Str → Bool
  option_on value = not (is_blank (strip u value))

  unfoldable pub option_set : OptionSpec → Str → Bool
  unfolding str_eq
  option_set spec value =
      not
        (str_eq spec.kind (codes "boolean") && str_eq (to_lower u (strip u value)) (codes "false"))
      && option_on value

  -- `ColumnDefault.present`
  unfoldable pub has_default : ColumnDefault → Bool
  unfolding str_eq
  has_default d =
      str_eq d.kind (codes "literal")
      || (str_eq d.kind (codes "expression") && not (is_blank (strip u d.value)))

  -- `ConstraintModel.key`
  unfoldable pub constraint_key : ConstraintModel → ConstraintKey
  constraint_key con =
      if not (is_blank con.name)
      then by_name (to_upper u con.kind) con.name
      else by_shape (to_upper u con.kind) con.columns con.ref_table con.ref_columns
          (strip u con.expression)

  -- `IndexModel.direction`, of what `directions` has at the position
  abbrev direction_of : Option Str → Str
  direction_of none = []
  direction_of (some d) =
      if str_eq (to_upper u (strip u d)) (codes "DESC") then codes "DESC" else []

  unfoldable pub direction : IndexModel → ℕ → Str
  unfolding str_eq
  direction index position = direction_of (get_elem? index.directions position)

  -- `IndexModel.key`
  unfoldable pub index_key : IndexModel → IndexKey
  unfolding direction
  index_key index =
      if not (is_blank index.name)
      then index_name index.name
      else index_shape index.columns (map (direction index) (positions_from 0 index.columns))
          index.unique index.method

  unfoldable pub column_in : List ColumnModel → Str → Option ColumnModel
  unfolding str_eq
  column_in [] name = none
  column_in (c ∷ cs) name =
      let rest = column_in cs name in
      if str_eq (to_lower u c.name) (to_lower u name) then some c else rest

  -- `TableModel.column`
  abbrev pub column : TableModel → Str → Option ColumnModel
  column m name = column_in m.columns name

  unfoldable pub flagged : List ColumnModel → List Str
  flagged [] = []
  flagged (c ∷ cs) = let rest = flagged cs in if c.primary_key then c.name ∷ rest else rest

  unfoldable pub key_columns : List ConstraintModel → List Str
  unfolding str_eq
  key_columns [] = []
  key_columns (con ∷ cons) =
      let rest = key_columns cons in
      if str_eq (to_upper u con.kind) (codes "PRIMARY KEY") then con.columns else rest

  -- `TableModel.primary_key`
  unfoldable pub primary_key : TableModel → List Str
  unfolding flagged key_columns
  primary_key m =
      if is_empty (flagged m.columns) then key_columns m.constraints else flagged m.columns

  unfoldable pub known_options : List OptionSpec → Options → Options
  unfolding str_eq
  known_options specs [] = []
  known_options specs ((k, v) ∷ rest) =
      let kept = known_options specs rest in
      if is_one_of (to_lower u k) (map (λ s. to_lower u s.name) specs) then (k, v) ∷ kept else kept

  unfoldable pub prune_column : List OptionSpec → ColumnModel → ColumnModel
  unfolding known_options
  prune_column specs c = record {
    name = c.name;
    sql_type = c.sql_type;
    nullable = c.nullable;
    primary_key = c.primary_key;
    default = c.default;
    comment = c.comment;
    collation = c.collation;
    identity = c.identity;
    generated = c.generated;
    generated_stored = c.generated_stored;
    renamed_from = c.renamed_from;
    options = known_options specs c.options;
  }

  unfoldable pub prune_options : Dialect → TableModel → TableModel
  unfolding prune_column known_options
  prune_options dialect m = record {
    name = m.name;
    schema = m.schema;
    columns = map (prune_column dialect.column_options) m.columns;
    constraints = m.constraints;
    indexes = m.indexes;
    comment = m.comment;
    options = known_options dialect.table_options m.options;
  }
