-- ===== src/TableModel/Loss.antt =====
-- When the plan in place, and the rebuild, of backend/db/table_model.py are destructive.
pub mod Parts
pub mod Worst
pub mod Copied
use mathlib.Core.Option
use sqlide.Common.{
  Bool, true, false, not, ◌&&◌, ◌||◌, Option, none, some, List, [], ◌∷◌, ◌++◌, map, if◌then◌else◌,
  ℕ, String, any, all, ◌≡◌, refl, sym, ap, ◌∙◌, inl, inr, Bool-cases, ◌↔◌,
}
use sqlide.Common.Raises.{Raises, returned, ◌>>=◌, >>=-returned, returned-eq, any-append, collect}
use sqlide.Common.Text.{Str, codes, CharTable, str_eq, is_one_of, to_lower}
use sqlide.TableModel.{OptionSpec, ColumnModel, ConstraintModel, TableModel, Dialect}
use sqlide.TableModel.Read.{is_empty, prune_column, prune_options, column_in, primary_key}
use sqlide.TableModel.Sql.{TableModelError, quoted, quoted_list, table_name}
use sqlide.TableModel.Create.{render_create, render_indexes}
use sqlide.TableModel.Diff.{
  Classification, safe, rewrites, may_fail, destructive, Statement, statement, statements,
  is_destructive, keyed, same_constraint, matched, kept, is_lost, needs_rebuild,
}
use sqlide.TableModel.Rebuild.{rebuild_plan, wrapped, lost_names, carried, copied, drop_backup}
use sqlide.TableModel.Alter.{
  alter_plan, rename_table, constraint_statements, index_statements, option_statements,
}
use sqlide.TableModel.Alter.Columns.{alter_column, drop_column}
use sqlide.TableModel.Plan.{plan, migrate, worst}
use sqlide.TableModel.Loss.Parts.{
  Finds, Finds-returned, Finds-after, Finds-if, Harmless-returned, nothing, Harmless-one,
  statements-Harmless, is_dropped, alter_column-Harmless, drop_column-Finds,
  constraint_statements-Finds, index_statements-Harmless, option_statements-Harmless,
  Harmless-collect, Finds-collect, or_false,
}

module _ (u : CharTable) (is_float : Str → Bool) (dialect : Dialect) where
  -- A constraint with a name that the target does not have.
  abbrev pub drops_constraint : TableModel → TableModel → Bool
  drops_constraint current target =
      any (is_dropped u is_float dialect (keyed (same_constraint u) target.constraints))
        (keyed (same_constraint u) current.constraints)

  rename_table-Harmless :
      (current target : TableModel) → Finds false (rename_table u is_float dialect current target)
  rename_table-Harmless current target =
      Finds-if
        (str_eq current.name target.name
          && not (dialect.schemas && not (str_eq current.schema target.schema)))
        _ _ (Finds-returned [] refl)
        (Finds-after (table_name dialect current) _
          λ old_name. Finds-after (quoted dialect target.name) _ λ new_name. Finds-returned _ refl)

  alter_plan-Finds :
      (current target : TableModel)
      → Finds
          (any (is_lost u current target) current.columns || drops_constraint current target)
          (alter_plan u is_float dialect current target)
  unfolding alter_plan
  alter_plan-Finds current target ys h =
      let (table, t, h1) = >>=-returned (table_name dialect target) _ h in
      let (rename, r, h2) = >>=-returned (rename_table u is_float dialect current target) _ h1 in
      let alter = λ (c : ColumnModel).
        alter_column u is_float dialect table (primary_key u target) (matched u current c) c in
      let (columns, cs, h3) = >>=-returned (collect alter target.columns) _ h2 in
      let drop_of =
        λ (c : ColumnModel). drop_column u is_float dialect table (is_lost u current target c) c in
      let (drops, ds, h4) = >>=-returned (collect drop_of current.columns) _ h3 in
      let (constraints, ks, h5) =
        >>=-returned (constraint_statements u is_float dialect current target table) _ h4 in
      let (indexes, is, h6) =
        >>=-returned (index_statements u is_float dialect current target) _ h5 in
      let options =
        option_statements u is_float dialect current target table dialect.table_options in
      let e : rename ++ (columns ++ (drops ++ (constraints ++ (indexes ++ options)))) ≡ ys =
        returned-eq h6 in
      rw (sym e) (
        parts rename columns drops constraints indexes options
          (rename_table-Harmless current target rename r)
          (Harmless-collect alter
            (λ c.
              alter_column-Harmless u is_float dialect table (primary_key u target)
                (matched u current c) c)
            target.columns columns cs)
          (Finds-collect (is_lost u current target) drop_of
            (λ c. drop_column-Finds u is_float dialect table (is_lost u current target c) c)
            current.columns drops ds)
          (constraint_statements-Finds u is_float dialect current target table constraints ks)
          (index_statements-Harmless u is_float dialect current target indexes is)
          (option_statements-Harmless u is_float dialect current target table
            dialect.table_options).none_destructive)
    where
      parts :
          (rename columns drops constraints indexes options : List Statement) {b c : Bool}
          → any is_destructive rename ≡ false
          → any is_destructive columns ≡ false
          → any is_destructive drops ≡ b
          → any is_destructive constraints ≡ c
          → any is_destructive indexes ≡ false
          → any is_destructive options ≡ false
          → any is_destructive
              (rename ++ (columns ++ (drops ++ (constraints ++ (indexes ++ options)))))
            ≡ (b || c)
      parts rename columns drops constraints indexes options {b} {c} hr hc hd hk hi ho =
          rw
            (
              any-append is_destructive rename
                  (columns ++ (drops ++ (constraints ++ (indexes ++ options)))),
              any-append is_destructive columns (drops ++ (constraints ++ (indexes ++ options))),
              any-append is_destructive drops (constraints ++ (indexes ++ options)),
              any-append is_destructive constraints (indexes ++ options),
              any-append is_destructive indexes options,
              hr,
              hc,
              hd,
              hk,
              hi,
              ho,
              or_false c,
            )
            refl

  lost_names-any :
      (current target : TableModel) (cs : List ColumnModel)
      → is_empty (lost_names u current target cs) ≡ not (any (is_lost u current target) cs)
  unfolding lost_names
  lost_names-any current target [] = refl
  lost_names-any current target (c ∷ cs) = elim (Bool-cases (is_lost u current target c)) [
    | inl e ↦ rw e refl
    | inr e ↦ rw e (lost_names-any current target cs)
  ]

  drop_backup-any :
      (backup : Str) (names : List Str) (b : Bool)
      → is_empty names ≡ not b
      → is_destructive (drop_backup u is_float dialect backup names) ≡ b
  drop_backup-any backup [] true h = absurd (cc)
  drop_backup-any backup [] false h = refl
  drop_backup-any backup (n ∷ names) true h = refl
  drop_backup-any backup (n ∷ names) false h = absurd (cc)

  copied-Harmless :
      (target : TableModel) (backup : Str) (pairs : List (Str × Str))
      → Finds false (copied u is_float dialect target backup pairs)
  copied-Harmless target backup [] = Finds-returned [] refl
  copied-Harmless target backup (pair ∷ pairs) =
      Finds-after (quoted_list dialect (map (λ p. p.0) (pair ∷ pairs))) _ λ cols.
        Finds-after (quoted_list dialect (map (λ p. p.1) (pair ∷ pairs))) _ λ old_cols.
          Finds-after (table_name dialect target) _ λ table. Harmless-returned (Harmless-one refl)

  rebuild_plan-Finds :
      (current target : TableModel)
      → Finds
          (any (is_lost u current target) current.columns)
          (rebuild_plan u is_float dialect current target)
  unfolding rebuild_plan
  rebuild_plan-Finds current target ys h =
      let names = lost_names u current target current.columns in
      let (table, t, h1) = >>=-returned (table_name dialect current) _ h in
      let (backup, b, h2) =
        >>=-returned (quoted dialect (current.name ++ codes "__sqlide_old")) _ h1 in
      let (created, c, h3) = >>=-returned (render_create u is_float dialect target) _ h2 in
      let (copy, k, h4) =
        >>=-returned (copied u is_float dialect target backup (carried u current target.columns)) _
          h3 in
      let (indexes, i, h5) = >>=-returned (render_indexes u is_float dialect target) _ h4 in
      let e : _ ≡ ys = returned-eq h5 in
      rw
        (
          sym e,
          any-append is_destructive copy (
              drop_backup u is_float dialect backup names
              ∷ statements safe "Recreates an index" indexes),
          copied-Harmless target backup (carried u current target.columns) copy k,
          drop_backup-any backup names (any (is_lost u current target) current.columns)
              (lost_names-any current target current.columns),
          (statements-Harmless "Recreates an index" indexes).none_destructive,
        )
        (or_false (any (is_lost u current target) current.columns))

  wrapped-any :
      (body : List Statement)
      → any is_destructive (wrapped u is_float dialect body) ≡ any is_destructive body
  unfolding wrapped
  wrapped-any [] = refl
  wrapped-any (s ∷ rest) =
      elim (Bool-cases (is_empty dialect.rebuild_prologue && is_empty dialect.rebuild_epilogue)) [
        | inl e ↦ rw e refl
        | inr e ↦
            let before = statements safe "Makes the rebuild atomic" dialect.rebuild_prologue in
            let after = statements safe "Closes the rebuild" dialect.rebuild_epilogue in
            rw
              (
                e,
                any-append is_destructive before ((s ∷ rest) ++ after),
                (statements-Harmless "Makes the rebuild atomic"
                    dialect.rebuild_prologue).none_destructive,
                any-append is_destructive (s ∷ rest) after,
                (statements-Harmless "Closes the rebuild"
                    dialect.rebuild_epilogue).none_destructive,
              )
              (or_false (any is_destructive (s ∷ rest)))
      ]

  pub migrate-Finds :
      (current target : TableModel)
      → Finds
          (any (is_lost u current target) current.columns
            || (not (needs_rebuild u current target dialect) && drops_constraint current target))
          (migrate u is_float dialect current target)
  unfolding migrate
  migrate-Finds current target ys h = elim (Bool-cases (needs_rebuild u current target dialect)) [
    | inl e ↦
        let (body, made, last) =
          >>=-returned (rebuild_plan u is_float dialect current target) _ (rw e at h) in
        let k : wrapped u is_float dialect body ≡ ys = returned-eq last in
        rw (e, sym k, wrapped-any body, rebuild_plan-Finds current target body made)
          (sym (or_false (any (is_lost u current target) current.columns)))
    | inr e ↦ rw e (alter_plan-Finds current target ys (rw e at h))
  ]
