-- ===== src/TableModel/Loss/Worst.antt =====
-- What the worst class of a plan says, in backend/db/table_model.py: whether something is lost.
use mathlib.Core.Option
use sqlide.Common.{
  Bool, true, false, not, ◌&&◌, ◌||◌, Option, none, some, List, [], ◌∷◌, map, any, ◌≡◌, refl, sym,
  ap, ◌∙◌, inl, inr, Bool-cases, ◌↔◌,
}
use sqlide.Common.Raises.{returned}
use sqlide.Common.Text.{Str, CharTable, str_eq, to_lower}
use sqlide.TableModel.{OptionSpec, ColumnModel, TableModel, Dialect}
use sqlide.TableModel.Read.{prune_column, prune_options, column_in, column, is_blank}
use sqlide.TableModel.Diff.{
  or_else, name_of, Classification, safe, rewrites, may_fail, destructive, Statement, statement,
  is_destructive, matched, kept, is_lost, needs_rebuild,
}
use sqlide.TableModel.Plan.{plan, worst, worse_of}
use sqlide.TableModel.Loss.{drops_constraint, migrate-Finds}

column_in-prune :
    (u : CharTable) (specs : List OptionSpec) (cs : List ColumnModel) (name : Str)
    → column_in u (map (prune_column u specs) cs) name
      ≡ Option.map (prune_column u specs) (column_in u cs name)
unfolding column_in prune_column
column_in-prune u specs [] name = refl
column_in-prune u specs (c ∷ cs) name =
    elim (Bool-cases (str_eq (to_lower u c.name) (to_lower u name))) [
      | inl e ↦ rw e refl
      | inr e ↦ rw e (column_in-prune u specs cs name)
    ]

module _ (u : CharTable) (dialect : Dialect) where
  matched-prune :
      (current : TableModel) (c : ColumnModel)
      → matched u (prune_options u dialect current) (prune_column u dialect.column_options c)
        ≡ Option.map (prune_column u dialect.column_options) (matched u current c)
  unfolding matched prune_options prune_column
  matched-prune current c = elim (Bool-cases (is_blank c.renamed_from)) [
    | inl e ↦ rw e (column_in-prune u dialect.column_options current.columns c.name)
    | inr e ↦
        rw
          (
            e,
            column_in-prune u dialect.column_options current.columns c.renamed_from,
            column_in-prune u dialect.column_options current.columns c.name,
          )
          (or_else-prune (column u current c.renamed_from) (column u current c.name))
  ]
    where
      or_else-prune :
          (o p : Option ColumnModel)
          → or_else u
              (Option.map (prune_column u dialect.column_options) o)
              (Option.map (prune_column u dialect.column_options) p)
            ≡ Option.map (prune_column u dialect.column_options) (or_else u o p)
      or_else-prune none p = refl
      or_else-prune (some d) p = refl

  name_of-prune :
      (o : Option ColumnModel)
      → name_of u (Option.map (prune_column u dialect.column_options) o) ≡ name_of u o
  unfolding prune_column
  name_of-prune none = refl
  name_of-prune (some c) = refl

  kept-prune :
      (current : TableModel) (cs : List ColumnModel)
      → kept u (prune_options u dialect current) (map (prune_column u dialect.column_options) cs)
        ≡ kept u current cs
  unfolding kept
  kept-prune current [] = refl
  kept-prune current (c ∷ cs) =
      rw (matched-prune current c, kept-prune current cs, name_of-prune (matched u current c)) refl

  lost-prune :
      (current target : TableModel) (cs : List ColumnModel)
      → any
          (is_lost u (prune_options u dialect current) (prune_options u dialect target))
          (map (prune_column u dialect.column_options) cs)
        ≡ any (is_lost u current target) cs
  unfolding is_lost prune_options prune_column
  lost-prune current target [] = refl
  lost-prune current target (c ∷ cs) =
      rw (kept-prune current target.columns, lost-prune current target cs) refl

abbrev is_worst : Option Classification → Bool
is_worst (some destructive) = true
is_worst _ = false

is_worst_iff : (o : Option Classification) → (is_worst o ≡ true) ↔ (o ≡ some destructive)
is_worst_iff none = ((λ h. absurd (cc)), λ h. absurd (cc))
is_worst_iff (some safe) = ((λ h. absurd (cc)), λ h. absurd (cc))
is_worst_iff (some rewrites) = ((λ h. absurd (cc)), λ h. absurd (cc))
is_worst_iff (some may_fail) = ((λ h. absurd (cc)), λ h. absurd (cc))
is_worst_iff (some destructive) = ((λ h. refl), λ h. refl)

is_worst-worse_of :
    (c : Classification) (o : Option Classification)
    → is_worst (worse_of c o) ≡ (is_worst (some c) || is_worst o)
is_worst-worse_of safe none = refl
is_worst-worse_of safe (some safe) = refl
is_worst-worse_of safe (some rewrites) = refl
is_worst-worse_of safe (some may_fail) = refl
is_worst-worse_of safe (some destructive) = refl
is_worst-worse_of rewrites none = refl
is_worst-worse_of rewrites (some safe) = refl
is_worst-worse_of rewrites (some rewrites) = refl
is_worst-worse_of rewrites (some may_fail) = refl
is_worst-worse_of rewrites (some destructive) = refl
is_worst-worse_of may_fail none = refl
is_worst-worse_of may_fail (some safe) = refl
is_worst-worse_of may_fail (some rewrites) = refl
is_worst-worse_of may_fail (some may_fail) = refl
is_worst-worse_of may_fail (some destructive) = refl
is_worst-worse_of destructive none = refl
is_worst-worse_of destructive (some safe) = refl
is_worst-worse_of destructive (some rewrites) = refl
is_worst-worse_of destructive (some may_fail) = refl
is_worst-worse_of destructive (some destructive) = refl

class-is_destructive :
    (c : Classification) (sql note : List Str)
    → is_worst (some c) ≡ is_destructive (statement c sql note)
class-is_destructive safe sql note = refl
class-is_destructive rewrites sql note = refl
class-is_destructive may_fail sql note = refl
class-is_destructive destructive sql note = refl

is_worst-worst : (out : List Statement) → is_worst (worst out) ≡ any is_destructive out
unfolding worst
is_worst-worst [] = refl
is_worst-worst (s ∷ out) =
    is_worst-worse_of s.classification (worst out)
    ∙ ap (λ b. b || is_worst (worst out)) (class-is_destructive s.classification [] [])
    ∙ ap (λ b. is_destructive s || b) (is_worst-worst out)

module _ (u : CharTable) (is_float : Str → Bool) (dialect : Dialect) where
  -- A plan that changes a table leads with the worst class exactly if a column of the table is
  -- continued by no column of the target, or the table is changed in place and a named constraint of
  -- it is not among the target's.
  pub worst-plan_iff :
      (current target : TableModel) (out : List Statement)
      → plan u is_float dialect (some current) target ≡ returned out
      → (worst out ≡ some destructive) ↔ (
          (any (is_lost u current target) current.columns
            || (not (
                  needs_rebuild u
                    (prune_options u dialect current)
                    (prune_options u dialect target)
                    dialect)
                && drops_constraint u is_float dialect current target))
          ≡ true)
  unfolding plan prune_options
  worst-plan_iff current target out h =
      let found =
        is_worst-worst out
        ∙ migrate-Finds u is_float dialect (prune_options u dialect current)
            (prune_options u dialect target) out h
        ∙ ap
            (λ b.
              b
              || (not (
                    needs_rebuild u (prune_options u dialect current)
                      (prune_options u dialect target) dialect)
                  && drops_constraint u is_float dialect current target))
            (lost-prune u dialect current target current.columns) in
      (
        (λ w. sym found ∙ (is_worst_iff (worst out)).1 w),
        (λ r. (is_worst_iff (worst out)).0 (found ∙ r)),
      )
