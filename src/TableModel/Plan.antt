-- ===== src/TableModel/Plan.antt =====
-- `plan` and `worst` of backend/db/table_model.py.
use sqlide.Common.{Bool, Option, none, some, List, [], ◌∷◌, ◌++◌, if◌then◌else◌, ℕ, leb}
use sqlide.Common.Raises.{Raises, returned, ◌>>=◌}
use sqlide.Common.Text.{Str, codes, CharTable}
use sqlide.TableModel.{TableModel, Dialect}
use sqlide.TableModel.Read.{prune_options}
use sqlide.TableModel.Sql.{TableModelError}
use sqlide.TableModel.Create.{render_create, render_indexes, render_comments}
use sqlide.TableModel.Diff.{
  Classification, safe, rewrites, may_fail, destructive, Statement, statement, statements,
  needs_rebuild,
}
use sqlide.TableModel.Rebuild.{rebuild_plan, wrapped}
use sqlide.TableModel.Alter.{alter_plan}

module _ (u : CharTable) (is_float : Str → Bool) (dialect : Dialect) where
  unfoldable pub create_plan : TableModel → Raises TableModelError (List Statement)
  unfolding render_create render_indexes render_comments
  create_plan target = do
    created ← render_create u is_float dialect target
    indexes ← render_indexes u is_float dialect target
    comments ← render_comments u is_float dialect target
    returned (
        statement safe (created ∷ []) (codes "Creates the table" ∷ [])
        ∷ (statements safe "Creates an index" indexes ++ statements safe "Sets a comment" comments))

  unfoldable pub migrate : TableModel → TableModel → Raises TableModelError (List Statement)
  unfolding needs_rebuild rebuild_plan wrapped alter_plan
  migrate current target =
      if needs_rebuild u current target dialect
      then (rebuild_plan u is_float dialect current target >>= λ body.
          returned (wrapped u is_float dialect body))
      else alter_plan u is_float dialect current target

  unfoldable pub plan : Option TableModel → TableModel → Raises TableModelError (List Statement)
  unfolding create_plan migrate prune_options
  plan none target = create_plan (prune_options u dialect target)
  plan (some current) target =
      migrate (prune_options u dialect current) (prune_options u dialect target)

-- `CLASSIFICATIONS.index`
abbrev pub severity : Classification → ℕ
severity safe = 0
severity rewrites = 1
severity may_fail = 2
severity destructive = 3

abbrev pub worse_of : Classification → Option Classification → Option Classification
worse_of c none = some c
worse_of c (some d) = if leb (severity c) (severity d) then some d else some c

-- The most dangerous classification of a plan, from its last statement to its first.
unfoldable pub worst : List Statement → Option Classification
worst [] = none
worst (s ∷ rest) = worse_of s.classification (worst rest)
