-- ===== src/QueryModel/Render/Kinds.antt =====
-- The joins that a rendered query of backend/db/query_model.py has.
use sqlide.Common.{true, false, List, [], ◌∷◌, ◌++◌, ◌≡◌, ◌⊎◌}
use sqlide.Common.Text.{Str, codes, CharTable, is_one_of, to_upper}
use sqlide.QueryModel.{Join, On, Dialect, join_kinds_all, joins_without_on}
use sqlide.QueryModel.Render.Clauses.{rendered, is_empty, render_table}

-- What stands behind the table of a join: nothing where its kind takes no ON, else an ON clause.
abbrev pub IsClause : Str → List On → Str → Type 0
IsClause kind on clause =
    ((is_one_of kind joins_without_on ≡ true) × (is_empty on ≡ true) × (clause ≡ []))
    ⊎ ((is_one_of kind joins_without_on ≡ false)
        × (is_empty on ≡ false)
        × ((body : Str) × (clause ≡ codes " ON " ++ body)))

-- A line of a join whose kind the builder and the dialect know.
pub record IsLine (u : CharTable) (d : Dialect) (j : Join) (line : Str) : Type 0 where
  pub known : is_one_of (to_upper u j.kind) join_kinds_all ≡ true
  pub supported : is_one_of (to_upper u j.kind) d.join_kinds ≡ true
  pub table : Str
  pub source : render_table u d j.source ≡ rendered table
  pub clause : Str
  pub has_clause : IsClause (to_upper u j.kind) j.on clause
  pub text : line ≡ to_upper u j.kind ++ (codes " " ++ (table ++ clause))

abbrev pub AreLines : CharTable → Dialect → List Join → List Str → Type 0
AreLines u d [] [] = Unit
AreLines u d (j ∷ js) (l ∷ ls) = IsLine u d j l × AreLines u d js ls
AreLines u d _ _ = ⊥
