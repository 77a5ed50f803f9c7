-- ===== src/TableModel/Same.antt =====
-- A table that is not changed, in the planner of backend/db/table_model.py.
use sqlide.Common.{
  Bool, true, false, not, some, List, [], ◌∷◌, map, ◌≡◌, refl, ap, inl, inr, Bool-cases, any, All,
  All-both, All-map, any-false, any_self,
}
use sqlide.Common.Distinct.{Distinct}
use sqlide.Common.Raises.{returned}
use sqlide.Common.Text.{Str, CharTable, str_eq, is_one_of, to_lower, strip}
use sqlide.TableModel.{OptionSpec, ColumnModel, TableModel, Dialect}
use sqlide.TableModel.Read.{
  is_blank, constraint_key, index_key, column_in, option_value, primary_key, prune_column,
  prune_options,
}
use sqlide.TableModel.Sql.{table_name}
use sqlide.TableModel.Diff.{
  default_eq, keyed, same_constraint, same_index, matched, kept, is_lost, column_changed,
  changed_from, needs_rebuild,
}
use sqlide.TableModel.Alter.{
  drop_constraint, add_constraint, constraint_statements, drop_index, create_index,
  index_statements, option_statements, alter_plan,
}
use sqlide.TableModel.Alter.Columns.{alter_column, drop_column}
use sqlide.TableModel.Plan.{migrate, plan}
use sqlide.TableModel.Equal.{
  and_false, bool_eq_self, collect_nothing, constraint_key_eq_self, index_key_eq_self,
  keys_differ_self, last_true, str_eq_self, strs_eq_self,
}

module _ (u : CharTable) where
  -- No two columns share a name, whatever the case, and none is marked as renamed.
  pub record IsLoaded (m : TableModel) : Type 0 where
    pub distinct : Distinct (map (λ c. to_lower u c.name) m.columns)
    pub not_renamed : All (λ c. c.renamed_from ≡ []) m.columns

  not_same :
      (name : Str) (cs : List ColumnModel)
      → is_one_of name (map (λ c. to_lower u c.name) cs) ≡ false
      → All (λ c. str_eq name (to_lower u c.name) ≡ false) cs
  not_same name [] h = tt
  not_same name (c ∷ cs) h = elim (Bool-cases (str_eq name (to_lower u c.name))) [
    | inl e ↦ absurd (cc (rw e at h))
    | inr e ↦ (e, not_same name cs (rw e at h))
  ]

  column_in_self :
      (cs : List ColumnModel)
      → Distinct (map (λ c. to_lower u c.name) cs)
      → All (λ c. column_in u cs c.name ≡ some c) cs
  unfolding column_in
  column_in_self [] d = tt
  column_in_self (c ∷ cs) d = (
    rw (str_eq_self (to_lower u c.name)) refl,
    All-both (λ x differs found. rw (differs) found) cs (not_same (to_lower u c.name) cs d.0)
        (column_in_self cs d.1),
  )

  matched_self : (m : TableModel) → IsLoaded m → All (λ c. matched u m c ≡ some c) m.columns
  unfolding matched
  matched_self m h =
      All-both {R = λ c. matched u m c ≡ some c}
        (λ c blank found. let e : is_blank c.renamed_from ≡ true = ap is_blank blank in rw e found)
        m.columns h.not_renamed (column_in_self m.columns h.distinct)

  kept_self :
      (m : TableModel) (cs : List ColumnModel)
      → All (λ c. matched u m c ≡ some c) cs
      → kept u m cs ≡ map (λ c. to_lower u c.name) cs
  unfolding kept
  kept_self m [] h = refl
  kept_self m (c ∷ cs) h = rw (h.0, kept_self m cs h.1) refl

  lost_self : (m : TableModel) → IsLoaded m → All (λ c. is_lost u m m c ≡ false) m.columns
  unfolding is_lost
  lost_self m h =
      All-map
        (λ c found.
          rw
            (
              kept_self m m.columns (matched_self m h),
              any-map (str_eq (to_lower u c.name)) m.columns,
              found,
            )
            refl)
        m.columns
        (any_self (λ c d. str_eq (to_lower u c.name) (to_lower u d.name))
          (λ c. str_eq_self (to_lower u c.name)) m.columns)
    where
      any-map :
          (q : Str → Bool) (cs : List ColumnModel)
          → any q (map (λ c. to_lower u c.name) cs) ≡ any (λ c. q (to_lower u c.name)) cs
      any-map q [] = refl
      any-map q (c ∷ cs) = rw (any-map q cs) refl

  column_changed_self : (c : ColumnModel) → column_changed u c c ≡ false
  unfolding column_changed default_eq
  column_changed_self c =
      rw
        (
          str_eq_self (strip u c.sql_type),
          bool_eq_self c.nullable,
          str_eq_self c.default.kind,
          str_eq_self c.default.value,
          str_eq_self (strip u c.collation),
        )
        refl

  needs_rebuild_self :
      (m : TableModel) (dialect : Dialect) → IsLoaded m → needs_rebuild u m m dialect ≡ false
  unfolding needs_rebuild
  needs_rebuild_self m dialect h =
      let changed = λ (c : ColumnModel). changed_from u (matched u m c) c in
      let same =
        any-false changed m.columns
          (All-map (λ c e. rw (e) (column_changed_self c)) m.columns (matched_self m h)) in
      rw
        (
          any-false (is_lost u m m) m.columns (lost_self m h),
          and_false (not dialect.can_drop_column),
          same,
          and_false (not dialect.can_modify_column),
          keys_differ_self (same_constraint u) (λ c. constraint_key_eq_self (constraint_key u c))
              m.constraints,
          strs_eq_self (primary_key u m),
          and_false (not dialect.can_alter_constraint),
        )
        refl

  pub IsLoaded-prune :
      (dialect : Dialect) (m : TableModel) → IsLoaded m → IsLoaded (prune_options u dialect m)
  unfolding prune_options prune_column
  IsLoaded-prune dialect m h = record {
    distinct = rw (names m.columns) h.distinct;
    not_renamed = renamed m.columns h.not_renamed;
  }
    where
      names :
          (cs : List ColumnModel)
          → map (λ c. to_lower u c.name) (map (prune_column u dialect.column_options) cs)
            ≡ map (λ c. to_lower u c.name) cs
      names [] = refl
      names (c ∷ cs) = rw (names cs) refl

      renamed :
          (cs : List ColumnModel)
          → All (λ c. c.renamed_from ≡ []) cs
          → All (λ c. c.renamed_from ≡ []) (map (prune_column u dialect.column_options) cs)
      renamed [] k = tt
      renamed (c ∷ cs) k = (k.0, renamed cs k.1)

module _ (u : CharTable) (is_float : Str → Bool) (dialect : Dialect) where
  alter_column_self :
      (table : Str) (pk : List Str) (c : ColumnModel)
      → alter_column u is_float dialect table pk (some c) c ≡ returned []
  unfolding alter_column
  alter_column_self table pk c = rw (str_eq_self (to_lower u c.name), column_changed_self u c) refl

  drop_column_self :
      (table : Str) (c : ColumnModel) → drop_column u is_float dialect table false c ≡ returned []
  unfolding drop_column
  drop_column_self table c = refl

  constraint_statements_self :
      (m : TableModel) (table : Str)
      → constraint_statements u is_float dialect m m table ≡ returned []
  unfolding constraint_statements drop_constraint add_constraint
  constraint_statements_self m table =
      let entries = keyed (same_constraint u) m.constraints in
      let found =
        any_self (same_constraint u) (λ c. constraint_key_eq_self (constraint_key u c)) entries in
      rw
        (
          collect_nothing (drop_constraint u is_float dialect table entries) entries
              (All-map (λ c e. rw e refl) entries found),
          collect_nothing (add_constraint u is_float dialect table entries) entries
              (All-map (λ c e. rw e refl) entries found),
        )
        refl

  index_statements_self : (m : TableModel) → index_statements u is_float dialect m m ≡ returned []
  unfolding index_statements drop_index create_index
  index_statements_self m =
      let entries = keyed (same_index u) m.indexes in
      let found = any_self (same_index u) (λ i. index_key_eq_self (index_key u i)) entries in
      rw
        (
          collect_nothing (drop_index u is_float dialect entries) entries
              (All-map (λ c e. rw e refl) entries found),
          collect_nothing (create_index u is_float dialect m entries) entries
              (All-map (λ c e. rw e refl) entries found),
        )
        refl

  option_statements_self :
      (m : TableModel) (table : Str) (specs : List OptionSpec)
      → option_statements u is_float dialect m m table specs ≡ []
  unfolding option_statements
  option_statements_self m table [] = refl
  option_statements_self m table (spec ∷ specs) =
      let skipped =
        last_true (not spec.alterable) (not (is_blank spec.field))
          (str_eq_self (strip u (option_value m.options spec))) in
      rw skipped (option_statements_self m table specs)

  alter_plan_self :
      (m : TableModel) (table : Str)
      → IsLoaded u m
      → table_name dialect m ≡ returned table
      → alter_plan u is_float dialect m m ≡ returned []
  unfolding alter_plan
  alter_plan_self m table h named =
      rw
        (
          named,
          str_eq_self m.name,
          str_eq_self m.schema,
          and_false dialect.schemas,
          collect_nothing
              (λ c. alter_column u is_float dialect table (primary_key u m) (matched u m c) c)
              m.columns
              (All-map (λ c found. rw found (alter_column_self table (primary_key u m) c)) m.columns
                (matched_self u m h)),
          collect_nothing (λ c. drop_column u is_float dialect table (is_lost u m m c) c) m.columns
              (All-map (λ c lost. rw lost (drop_column_self table c)) m.columns (lost_self u m h)),
          constraint_statements_self m table,
          index_statements_self m,
          option_statements_self m table dialect.table_options,
        )
        refl

  -- A table no two of whose columns share a name, whatever the case, and none of whose columns is
  -- marked as renamed, needs no statement when it is left as it is, if the engine can write its name.
  pub plan_unchanged :
      (m : TableModel) (table : Str)
      → IsLoaded u m
      → table_name dialect m ≡ returned table
      → plan u is_float dialect (some m) m ≡ returned []
  unfolding plan migrate prune_options table_name
  plan_unchanged m table h named =
      let pruned = prune_options u dialect m in
      let loaded = IsLoaded-prune u dialect m h in
      rw (needs_rebuild_self u pruned dialect loaded) (alter_plan_self pruned table loaded named)
