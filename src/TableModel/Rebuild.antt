-- ===== src/TableModel/Rebuild.antt =====
-- The rebuild of a table in backend/db/table_model.py: rename, create, copy, drop.
use sqlide.Common.{Bool, ◌&&◌, Option, none, some, List, [], ◌∷◌, ◌++◌, map, if◌then◌else◌}
use sqlide.Common.Raises.{Raises, returned, ◌>>=◌, each}
use sqlide.Common.Text.{Str, codes, CharTable, join}
use sqlide.TableModel.{ColumnModel, TableModel, Dialect}
use sqlide.TableModel.Read.{is_empty}
use sqlide.TableModel.Sql.{TableModelError, quoted, quoted_list, table_name}
use sqlide.TableModel.Create.{render_create, render_indexes}
use sqlide.TableModel.Diff.{
  safe, rewrites, destructive, Statement, statement, statements, matched, is_lost,
}

module _ (u : CharTable) where
  -- The names of the columns that are dropped.
  unfoldable pub lost_names : TableModel → TableModel → List ColumnModel → List Str
  unfolding is_lost
  lost_names current target [] = []
  lost_names current target (c ∷ cs) =
      let rest = lost_names current target cs in
      if is_lost u current target c then c.name ∷ rest else rest

  abbrev pub pair_of : ColumnModel → Option ColumnModel → List (Str × Str)
  pair_of c none = []
  pair_of c (some old) = (c.name, old.name) ∷ []

  -- The carried columns: the name in the target and the name that the column had.
  unfoldable pub carried : TableModel → List ColumnModel → List (Str × Str)
  unfolding matched
  carried current [] = []
  carried current (c ∷ cs) = pair_of c (matched u current c) ++ carried current cs

  module _ (is_float : Str → Bool) (dialect : Dialect) where
    abbrev pub copied :
        TableModel → Str → List (Str × Str) → Raises TableModelError (List Statement)
    copied target backup [] = returned []
    copied target backup (pair ∷ pairs) = do
      cols ← quoted_list dialect (map (λ p. p.0) (pair ∷ pairs))
      old_cols ← quoted_list dialect (map (λ p. p.1) (pair ∷ pairs))
      table ← table_name dialect target
      returned (
          statement rewrites
            (codes "INSERT INTO "
              ∷ table
              ∷ codes " ("
              ∷ cols
              ∷ codes ") SELECT "
              ∷ old_cols
              ∷ codes " FROM "
              ∷ backup
              ∷ [])
            (codes "Copies the existing rows across" ∷ [])
          ∷ [])

    abbrev pub drop_backup : Str → List Str → Statement
    drop_backup backup [] =
        statement rewrites (codes "DROP TABLE " ∷ backup ∷ [])
          (codes "Drops the old table once the rows are copied" ∷ [])
    drop_backup backup (name ∷ names) =
        statement destructive (codes "DROP TABLE " ∷ backup ∷ [])
          (codes "Drops the old table, losing " ∷ join (codes ", ") (name ∷ names) ∷ [])

    unfoldable pub rebuild_plan : TableModel → TableModel → Raises TableModelError (List Statement)
    unfolding table_name quoted carried lost_names render_create render_indexes each join
    rebuild_plan current target = do
      table ← table_name dialect current
      backup ← quoted dialect (current.name ++ codes "__sqlide_old")
      created ← render_create u is_float dialect target
      copy ← copied target backup (carried current target.columns)
      indexes ← render_indexes u is_float dialect target
      returned (
          statement rewrites (codes "ALTER TABLE " ∷ table ∷ codes " RENAME TO " ∷ backup ∷ [])
            (codes "Rebuilds the table: this engine cannot alter it in place" ∷ [])
          ∷ statement rewrites (created ∷ []) (codes "Creates the new table" ∷ [])
          ∷ (copy
              ++ (drop_backup backup (lost_names current target current.columns)
                  ∷ statements safe "Recreates an index" indexes)))

    -- A rebuild in what makes it atomic.
    unfoldable pub wrapped : List Statement → List Statement
    wrapped [] = []
    wrapped (s ∷ rest) =
        if is_empty dialect.rebuild_prologue && is_empty dialect.rebuild_epilogue
        then s ∷ rest
        else statements safe "Makes the rebuild atomic" dialect.rebuild_prologue
          ++ ((s ∷ rest) ++ statements safe "Closes the rebuild" dialect.rebuild_epilogue)
