-- ===== src/QueryModel/Flat/Tests.antt =====
-- Lines of the filter panel folded and unfolded.
use sqlide.Common.{ℕ, false, some, List, [], ◌∷◌, ◌≡◌}
use sqlide.Common.Text.{Str, codes}
use sqlide.QueryModel.{Condition}
use sqlide.QueryModel.Flat.{folded_group, unfold_group, as_nodes, unfold_group-folded_group}

abbrev equals : Str → ℕ → Condition ℕ
equals name value = record {
  column = some (record { name = name; source = [] });
  op = codes "=";
  value = value;
  expression = [];
  function = [];
  distinct = false;
}

abbrev panel : List (Str × Condition ℕ)
panel = (codes "AND", equals (codes "b") 2) ∷ (codes "OR", equals (codes "c") 3) ∷ []

unfold_group-folded_group_example :
    unfold_group (folded_group (as_nodes ((codes "OR", equals (codes "a") 1) ∷ panel)))
    ≡ some ((codes "AND", equals (codes "a") 1) ∷ panel)
unfold_group-folded_group_example =
    unfold_group-folded_group (codes "OR") (equals (codes "a") 1) panel
