-- ===== src/QueryModel/Render.antt =====
-- `_Renderer` of backend/db/query_model.py, and `_substitute`.
pub mod Clauses
pub mod Bound
pub mod Kinds
pub mod Marks
mod Tests
use mathlib.Core.List.{flat_map}
use sqlide.Common.{
  ℕ, zero, suc, ◌+◌, ◌-◌, String, Bool, true, false, not, ◌&&◌, ◌||◌, Option, none, some, List, [],
  ◌∷◌, ◌++◌, ◌⊎◌, inl, inr, map, if◌then◌else◌, ltb, leb, ◌==◌, length, any,
}
use sqlide.Common.Int.{ℤ, pos, show_int}
use sqlide.Common.Text.{Str, codes, words, CharTable, str_eq, is_one_of, to_upper, split_on, join}
use sqlide.QueryModel.{
  TableRef, Column, Projection, On, Join, Condition, Filter, condition, group, Items, nil, cons,
  Group, Order, QueryModel, Dialect, join_kinds_all, joins_without_on, aggregates_all,
  aggregates_without_column, on_operators, filter_operators, no_value_operators, conjunctions,
  qualified,
}
use sqlide.QueryModel.Render.Clauses.{
  Outcome, direction, headed, is_empty, is_set, is_some, marker, nonzero, numbered, quoted,
  raise_if, render_column, render_items, render_joins, render_table, rendered, select_list, term,
  unsupported_conjunction, wrap_group, ◌>>=◌, ◌>>◌,
}

-- The first projection that carries the alias.
projection_with : Str → List Projection → Option Projection
projection_with label [] = none
projection_with label (p ∷ ps) =
    let rest = projection_with label ps in if str_eq p.alias_name label then some p else rest

abbrev add_order : Bool → Option Str → List Str → List Str
add_order descending none rest = rest
add_order descending (some t) rest = (t ++ (codes " " ++ codes (direction descending))) ∷ rest

module _ (u : CharTable) (d : Dialect) where
  of_projection : Bool → Str → Option Projection → Outcome Str
  of_projection qualify label none = quoted u d label
  of_projection qualify label (some p) =
      term u d qualify p.column p.expression p.function p.distinct

  unfoldable pub alias_target : Bool → List Projection → Str → Outcome Str
  unfolding projection_with of_projection
  alias_target qualify projections label =
      if d.order_by_alias
      then quoted u d label
      else of_projection qualify label (projection_with label projections)

  -- The text of an ordering, or none for one that names nothing.
  order_text : Bool → List Projection → Order → Outcome (Option Str)
  unfolding alias_target
  order_text qualify projections o =
      if not (is_empty o.alias_name)
      then (do t ← alias_target qualify projections o.alias_name; rendered (some t))
      else if not (is_empty o.expression) || not (is_empty o.function) || is_some o.column
      then (do t ← term u d qualify o.column o.expression o.function o.distinct; rendered (some t))
      else rendered none

  unfoldable pub render_order : Bool → List Projection → List Order → Outcome (List Str)
  unfolding order_text
  render_order qualify projections [] = rendered []
  render_order qualify projections (o ∷ os) = do
    t ← order_text qualify projections o
    rest ← render_order qualify projections os
    rendered (add_order o.descending t rest)

  unfoldable pub render_grouping : Bool → List (Column ⊎ Str) → Outcome (List Str)
  render_grouping qualify [] = rendered []
  render_grouping qualify (inr raw ∷ gs) = do
    rest ← render_grouping qualify gs
    rendered (raw ∷ rest)
  render_grouping qualify (inl c ∷ gs) = do
    text ← render_column u d qualify c
    rest ← render_grouping qualify gs
    rendered (text ∷ rest)

module _ (u : CharTable) (d : Dialect) {V : Type 0} where
  -- `group(…, top=True)`, with "" for no group.
  unfoldable pub top_group : Bool → Option (Group V) → Outcome (Str × List V)
  unfolding render_items wrap_group
  top_group qualify none = rendered ([], [])
  top_group qualify (some g) = do
    let conj = to_upper u g.conjunction
    raise_if (not (is_one_of conj conjunctions)) (unsupported_conjunction g.conjunction)
    (parts, values) ← render_items u d qualify g.items
    rendered (wrap_group true g.negated conj parts, values)

  -- `limit`, or the stand-in where the engine has no OFFSET without one.
  abbrev pub limit_of : QueryModel V → Option ℤ
  limit_of m = elim m.limit [
    | some l ↦ some l
    | none ↦
        if is_set m.offset && not d.offset_without_limit then some d.offset_limit_stand_in else none
  ]

  -- The statement from its lines.
  unfoldable pub build_from : TableRef → QueryModel V → Outcome (Str × List V)
  unfolding select_list render_table render_joins top_group render_grouping render_order join
      show_int qualified
  build_from source m = do
    let qualify = qualified m
    selected ← select_list u d qualify m.projections
    table ← render_table u d source
    joined ← render_joins u d m.joins
    (filtered, values) ← top_group qualify m.where_group
    grouped ← render_grouping u d qualify m.group_by
    (kept, more) ← top_group qualify m.having
    ordered ← render_order u d qualify m.projections m.order_by
    let lines =
        (codes "SELECT " ++ ((if m.distinct then codes "DISTINCT " else []) ++ selected))
        ∷ (codes "FROM " ++ table)
        ∷ (joined
            ++ (headed "WHERE " filtered
                ++ (headed "GROUP BY " (join (codes ", ") grouped)
                    ++ (headed "HAVING " kept
                        ++ (headed "ORDER BY " (join (codes ", ") ordered)
                            ++ (numbered "LIMIT " (limit_of m)
                                ++ numbered "OFFSET " (nonzero m.offset)))))))
    rendered (join (codes "\n") lines ++ codes ";", values ++ more)

  -- `_Renderer.build`
  unfoldable pub build : QueryModel V → Outcome (Str × List V)
  unfolding build_from
  build m = elim m.source [
    | none ↦ rendered ([], [])
    | some t ↦ if is_empty t.name then rendered ([], []) else build_from t m
  ]

-- `out += (marker if index < count else "?") + rest`, from the parts behind the first.
splice : Str → ℕ → List Str → Str
splice mark count [] = []
splice mark count (p ∷ ps) =
    (if ltb 0 count then mark else marker ∷ []) ++ (p ++ splice mark (count - 1) ps)

-- `_substitute`
unfoldable pub substitute : Str → Str → ℕ → Str
unfolding splice split_on
substitute sql mark count =
    if str_eq mark (marker ∷ []) || count == 0
    then sql
    else (let (first, rest) = split_on marker sql in first ++ splice mark count rest)

-- `render`, without the formatter: the statement and its parameters.
unfoldable pub render :
    (u : CharTable) (d : Dialect) {V : Type 0} → QueryModel V → Outcome (Str × List V)
unfolding build substitute
render u d m = do
  (sql, params) ← build u d m
  rendered (substitute sql d.placeholder (length params), params)
