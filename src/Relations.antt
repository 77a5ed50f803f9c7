-- ===== src/Relations.antt =====
-- backend/db/relations.py: the moves that a grid offers along foreign keys. A row of a grid is a
-- function from column names, with none for a NULL or a column that is not there.
pub mod Buckets
pub mod FirstFit
pub mod Partition
pub mod Targets
mod Tests
use mathlib.Core.List.{flat_map}
use sqlide.Common.{
  ℕ, Bool, true, false, not, ◌&&◌, ◌||◌, Option, none, some, List, [], ◌∷◌, ◌++◌, map,
  if◌then◌else◌, any,
}
use sqlide.Common.Text.{Str, codes, str_eq, is_one_of}

-- `RelationInfo` of backend/db/base.py
pub record RelationInfo : Type 0 where
  pub table : Str
  pub column : Str
  pub ref_table : Str
  pub ref_column : Str
  pub schema : Str
  pub ref_schema : Str

abbrev is_empty : Str → Bool
is_empty [] = true
is_empty (c ∷ s) = false

-- `RelationInfo.cross_schema`
unfoldable pub cross_schema : RelationInfo → Bool
unfolding str_eq
cross_schema r = not (is_empty r.ref_schema) && not (str_eq r.ref_schema r.schema)

-- A `FilterCondition` whose operator is "=".
pub record FilterCondition : Type 0 where
  pub column : Str
  pub op : Str
  pub value : Str

pub record RelationTarget : Type 0 where
  pub table : Str
  pub schema : Str
  pub incoming : Bool
  pub filters : List FilterCondition
  pub columns : List (Str × Str)

-- `RelationTarget.label`
unfoldable pub label : RelationTarget → Str
label t = if is_empty t.schema then t.table else t.schema ++ (codes "." ++ t.table)

-- `_same_table`
unfoldable pub same_table : Str → Str → Bool
unfolding str_eq
same_table rel_schema schema = is_empty rel_schema || (is_empty schema || str_eq rel_schema schema)

-- The rows that pass a test, in order.
unfoldable pub select {ℓ} : {A : Type ℓ} → (A → Bool) → List A → List A
select p [] = []
select p (x ∷ xs) = let rest = select p xs in if p x then x ∷ rest else rest

unfoldable pub outgoing : List RelationInfo → Str → Str → List RelationInfo
unfolding select same_table str_eq
outgoing relations table schema =
    select (λ r. str_eq r.table table && same_table r.schema schema) relations

unfoldable pub incoming_keys : List RelationInfo → Str → Str → List RelationInfo
unfolding select same_table str_eq
incoming_keys references table schema =
    select (λ r. str_eq r.ref_table table && same_table r.ref_schema schema) references

-- `foreign_key_columns`, as a list
unfoldable pub foreign_key_columns : List RelationInfo → Str → Str → List Str
unfolding outgoing
foreign_key_columns relations table schema = map (λ r. r.column) (outgoing relations table schema)

-- A key of `groups`, a tuple of texts in the source.
abbrev pub Key : Type 0
Key = List Str

unfoldable pub key_eq : Key → Key → Bool
unfolding str_eq
key_eq [] [] = true
key_eq (a ∷ k) (b ∷ l) = str_eq a b && key_eq k l
key_eq _ _ = false

abbrev pub Bucket : Type 0
Bucket = List RelationInfo

module _ (key : RelationInfo → Key) (seen_of : RelationInfo → Str) where
  -- `seen_of(row) in {seen_of(r) for r in bucket}`
  unfoldable pub is_seen : RelationInfo → Bucket → Bool
  unfolding str_eq
  is_seen row bucket = is_one_of (seen_of row) (map seen_of bucket)

  -- The row goes to the first bucket that has not seen its column, or to a new one.
  unfoldable pub add_to : RelationInfo → List Bucket → List Bucket
  unfolding is_seen
  add_to row [] = (row ∷ []) ∷ []
  add_to row (b ∷ bs) = if is_seen row b then b ∷ add_to row bs else (b ++ row ∷ []) ∷ bs

  -- `groups.setdefault(key(row), [])`, and the row added to its buckets. A dict keeps the order in
  -- which its keys came.
  unfoldable pub add_row : RelationInfo → List (Key × List Bucket) → List (Key × List Bucket)
  unfolding key_eq add_to
  add_row row [] = (key row, add_to row []) ∷ []
  add_row row ((k, bs) ∷ groups) =
      if key_eq k (key row) then (k, add_to row bs) ∷ groups else (k, bs) ∷ add_row row groups

  unfoldable pub add_rows : List RelationInfo → List (Key × List Bucket) → List (Key × List Bucket)
  unfolding add_row
  add_rows [] groups = groups
  add_rows (row ∷ rows) groups = add_rows rows (add_row row groups)

  -- `_grouped`
  unfoldable pub grouped : List RelationInfo → List Bucket
  unfolding add_rows flat_map
  grouped rows = flat_map (λ g. g.1) (add_rows rows [])

abbrev pub constraint_key : RelationInfo → Key
constraint_key r = r.schema ∷ r.table ∷ r.ref_schema ∷ r.ref_table ∷ []

unfoldable pub constraints : List RelationInfo → List Bucket
unfolding grouped
constraints = grouped constraint_key (λ r. r.ref_column)

-- A row of a grid: the values of its columns as `str` writes them, none for a NULL.
abbrev pub Row : Type 0
Row = Str → Option Str

abbrev with_value : Option Str → Option (List Str) → Option (List Str)
with_value none vs = none
with_value (some v) none = none
with_value (some v) (some vs) = some (v ∷ vs)

-- The row's values of the given columns, or none if one of them is NULL.
unfoldable pub row_values : Row → List Str → Option (List Str)
row_values row [] = some []
row_values row (c ∷ cs) = with_value (row c) (row_values row cs)

-- One "=" condition for each column and its value.
unfoldable pub filters_for : List Str → List Str → List FilterCondition
filters_for (c ∷ cs) (v ∷ vs) = record { column = c; op = codes "="; value = v } ∷ filters_for cs vs
filters_for _ _ = []

unfoldable pub column_pairs : List Str → List Str → List (Str × Str)
column_pairs (c ∷ cs) (d ∷ ds) = (c, d) ∷ column_pairs cs ds
column_pairs _ _ = []

-- What `outgoing_targets` and `incoming_targets` make of one bucket.
abbrev outgoing_of : Bucket → List Str → List RelationTarget
outgoing_of [] vs = []
outgoing_of (first ∷ rest) vs =
    let group = first ∷ rest in
    record {
      table = first.ref_table;
      schema = if cross_schema first then first.ref_schema else [];
      incoming = false;
      filters = filters_for (map (λ r. r.ref_column) group) vs;
      columns = column_pairs (map (λ r. r.column) group) (map (λ r. r.ref_column) group);
    }
    ∷ []

abbrev incoming_of : Bucket → List Str → List RelationTarget
incoming_of [] vs = []
incoming_of (first ∷ rest) vs =
    let group = first ∷ rest in
    record {
      table = first.table;
      schema = if cross_schema first then first.schema else [];
      incoming = true;
      filters = filters_for (map (λ r. r.column) group) vs;
      columns = column_pairs (map (λ r. r.ref_column) group) (map (λ r. r.column) group);
    }
    ∷ []

-- Nothing for a bucket with a NULL in its key.
abbrev pub if_known : (List Str → List RelationTarget) → Option (List Str) → List RelationTarget
if_known f none = []
if_known f (some vs) = f vs

unfoldable pub outgoing_target : Str → Row → Bucket → List RelationTarget
unfolding row_values filters_for column_pairs cross_schema
outgoing_target column row group =
    if is_one_of column (map (λ r. r.column) group)
    then if_known (outgoing_of group) (row_values row (map (λ r. r.column) group))
    else []

unfoldable pub outgoing_targets : List RelationInfo → Str → Str → Row → Str → List RelationTarget
unfolding flat_map outgoing grouped outgoing_target
outgoing_targets relations table column row schema = flat_map (outgoing_target column row) (
    grouped (λ r. r.ref_schema ∷ r.ref_table ∷ []) (λ r. r.ref_column)
      (outgoing relations table schema))

unfoldable pub incoming_target : Row → Bucket → List RelationTarget
unfolding row_values filters_for column_pairs cross_schema
incoming_target row group =
    if_known (incoming_of group) (row_values row (map (λ r. r.ref_column) group))

unfoldable pub incoming_targets : List RelationInfo → Str → Row → Str → List RelationTarget
unfolding flat_map incoming_keys grouped incoming_target
incoming_targets references table row schema =
    flat_map (incoming_target row) (
      grouped (λ r. r.schema ∷ r.table ∷ []) (λ r. r.column)
        (incoming_keys references table schema))
