-- ===== src/TableModel/Loss/Copied.antt =====
-- What the rebuild of backend/db/table_model.py copies, and what it reports as lost.
use sqlide.Common.{not, Option, none, some, List, [], ◌∷◌, ◌++◌, map, ◌≡◌, refl, ap}
use sqlide.Common.Text.{Str, CharTable, is_one_of, to_lower}
use sqlide.TableModel.{ColumnModel, TableModel}
use sqlide.TableModel.Diff.{matched, kept, name_of, is_lost}
use sqlide.TableModel.Rebuild.{carried, pair_of}

module _ (u : CharTable) where
  -- The old names of the carried columns, in lower case.
  abbrev pub copied_names : TableModel → List ColumnModel → List Str
  copied_names current cs = map (λ p. to_lower u p.1) (carried u current cs)

  kept-copied_names :
      (current : TableModel) (cs : List ColumnModel) → kept u current cs ≡ copied_names current cs
  unfolding kept carried
  kept-copied_names current [] = refl
  kept-copied_names current (c ∷ cs) =
      both (matched u current c) (kept u current cs) (carried u current cs)
        (kept-copied_names current cs)
    where
      both :
          (o : Option ColumnModel) (names : List Str) (pairs : List (Str × Str))
          → names ≡ map (λ p. to_lower u p.1) pairs
          → name_of u o ++ names ≡ map (λ p. to_lower u p.1) (pair_of u c o ++ pairs)
      both none names pairs h = h
      both (some old) names pairs h = ap (λ rest. to_lower u old.name ∷ rest) h

  -- A rebuild loses a column exactly if it does not copy it: each column of the table is among the
  -- copied ones, or is a lost one, and never both.
  pub is_lost-carried :
      (current target : TableModel) (c : ColumnModel)
      → is_lost u current target c
        ≡ not (is_one_of (to_lower u c.name) (copied_names current target.columns))
  unfolding is_lost
  is_lost-carried current target c = rw (kept-copied_names current target.columns) refl
