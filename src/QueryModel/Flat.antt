-- ===== src/QueryModel/Flat.antt =====
-- `folded_group` and `unfold_group` of backend/db/query_model.py: the flat lines of the filter panel
-- and the group that they stand for.
mod Tests
use mathlib.Core.List.{append_assoc, append-nil}
use sqlide.Common.{
  Bool, true, false, Option, none, some, List, [], ◌∷◌, ◌++◌, ◌≡◌, refl, ap, sym, ◌∙◌, map,
}
use sqlide.Common.Text.{Str, codes}
use sqlide.QueryModel.{Condition, Filter, condition, group, Items, nil, cons, Group}

-- A node behind the group so far.
abbrev fold_step : {V : Type 0} → Option (Group V) → Str → Filter V → Group V
fold_step none conj node = record {
  items = cons node nil;
  conjunction = codes "AND";
  negated = false;
}
fold_step (some g) conj node = record {
  items = cons (group g.items g.conjunction g.negated) (cons node nil);
  conjunction = conj;
  negated = false;
}

unfoldable pub fold_from :
    {V : Type 0} → Option (Group V) → List (Str × Filter V) → Option (Group V)
fold_from g [] = g
fold_from g ((conj, node) ∷ lines) = fold_from (some (fold_step g conj node)) lines

unfoldable pub folded_group : {V : Type 0} → List (Str × Filter V) → Option (Group V)
unfolding fold_from
folded_group lines = fold_from none lines

abbrev then_line :
    {V : Type 0}
    → Option (List (Str × Condition V))
    → Str × Condition V
    → Option (List (Str × Condition V))
then_line none line = none
then_line (some lines) line = some (lines ++ line ∷ [])

-- The group by its items, its conjunction and whether it is negated.
unfoldable pub unfold_items :
    {V : Type 0} → Items V → Str → Bool → Option (List (Str × Condition V))
unfold_items (cons (condition c) nil) conj false = some ((codes "AND", c) ∷ [])
unfold_items (cons (group head inner negated) (cons (condition c) nil)) conj false =
    then_line (unfold_items head inner negated) (conj, c)
unfold_items _ _ _ = none

unfoldable pub unfold_group : {V : Type 0} → Option (Group V) → Option (List (Str × Condition V))
unfolding unfold_items
unfold_group none = none
unfold_group (some g) = unfold_items g.items g.conjunction g.negated

-- The lines of the panel, as nodes.
abbrev pub as_nodes : {V : Type 0} → List (Str × Condition V) → List (Str × Filter V)
as_nodes = map (λ line. (line.0, condition line.1))

unfold_group-fold_from :
    {V : Type 0} (g : Group V) (done lines : List (Str × Condition V))
    → unfold_group (some g) ≡ some done
    → unfold_group (fold_from (some g) (as_nodes lines)) ≡ some (done ++ lines)
unfolding fold_from unfold_group
unfold_group-fold_from g done [] h = h ∙ ap some (sym (append-nil done))
unfold_group-fold_from g done (line ∷ lines) h =
    unfold_group-fold_from (fold_step (some g) line.0 (condition line.1)) (done ++ line ∷ []) lines
      (ap (λ o. then_line o line) h)
    ∙ ap some (append_assoc done (line ∷ []) lines)

-- The lines of the filter panel come back from the group that they are folded into, in order and
-- with their conjunctions, that of the first line aside, which says AND.
pub unfold_group-folded_group :
    {V : Type 0} (conj : Str) (first : Condition V) (lines : List (Str × Condition V))
    → unfold_group (folded_group (as_nodes ((conj, first) ∷ lines)))
      ≡ some ((codes "AND", first) ∷ lines)
unfolding folded_group unfold_group
unfold_group-folded_group conj first lines =
    unfold_group-fold_from (fold_step none conj (condition first)) ((codes "AND", first) ∷ []) lines
      refl
