-- ===== src/QueryModel.antt =====
-- backend/db/query_model.py: a SELECT as data. `V` is the type of the values that filters bind.
pub mod Flat
pub mod Render
use sqlide.Common.{
  ℕ, Bool, Option, List, ◌⊎◌, none, some, [], ◌∷◌, ◌++◌, ltb, length, true, false, suc, map,
}
use sqlide.Common.Int.{ℤ}
use sqlide.Common.Text.{Str, codes, words}

pub record TableRef : Type 0 where
  pub name : Str
  pub schema : Str
  pub alias_name : Str

pub record Column : Type 0 where
  pub name : Str
  pub source : Str

pub record Projection : Type 0 where
  pub column : Option Column
  pub expression : Str
  pub alias_name : Str
  pub function : Str
  pub distinct : Bool

pub record On : Type 0 where
  pub left : Column
  pub right : Column
  pub op : Str

pub record Join : Type 0 where
  pub kind : Str
  pub source : TableRef
  pub on : List On

pub record Condition (V : Type 0) : Type 0 where
  pub column : Option Column
  pub op : Str
  pub value : V
  pub expression : Str
  pub function : Str
  pub distinct : Bool

-- `Condition | FilterGroup`, and the items of a group.
mutual
  pub data Filter (V : Type 0) : Type 0 where
    condition : Condition V → Filter V
    group : Items V → Str → Bool → Filter V

  pub data Items (V : Type 0) : Type 0 where
    nil : Items V
    cons : Filter V → Items V → Items V

-- A `FilterGroup`.
pub record Group (V : Type 0) : Type 0 where
  pub items : Items V
  pub conjunction : Str
  pub negated : Bool

pub record Order : Type 0 where
  pub column : Option Column
  pub expression : Str
  pub descending : Bool
  pub alias_name : Str
  pub function : Str
  pub distinct : Bool

pub record QueryModel (V : Type 0) : Type 0 where
  pub source : Option TableRef
  pub joins : List Join
  pub projections : List Projection
  pub distinct : Bool
  pub where_group : Option (Group V)
  pub group_by : List (Column ⊎ Str)
  pub having : Option (Group V)
  pub order_by : List Order
  pub limit : Option ℤ
  pub offset : Option ℤ

pub record Dialect : Type 0 where
  pub name : Str
  pub quote : Str → Str
  pub placeholder : Str
  pub join_kinds : List Str
  pub aggregates : List Str
  pub order_by_alias : Bool
  pub offset_without_limit : Bool
  pub offset_limit_stand_in : ℤ

abbrev pub join_kinds_all : List Str
join_kinds_all = words ("INNER JOIN" ∷ "LEFT JOIN" ∷ "RIGHT JOIN" ∷ "FULL JOIN" ∷ "CROSS JOIN" ∷ [])

abbrev pub joins_without_on : List Str
joins_without_on = words ("CROSS JOIN" ∷ [])

abbrev pub aggregates_all : List Str
aggregates_all = words ("COUNT" ∷ "SUM" ∷ "AVG" ∷ "MIN" ∷ "MAX" ∷ [])

abbrev pub aggregates_without_column : List Str
aggregates_without_column = words ("COUNT" ∷ [])

abbrev pub on_operators : List Str
on_operators = words ("=" ∷ "<>" ∷ "<" ∷ "<=" ∷ ">" ∷ ">=" ∷ [])

abbrev pub filter_operators : List Str
filter_operators =
    words
      ("=" ∷ "!=" ∷ "<" ∷ "<=" ∷ ">" ∷ ">=" ∷ "LIKE" ∷ "NOT LIKE" ∷ "IS NULL" ∷ "IS NOT NULL" ∷ [])

abbrev pub no_value_operators : List Str
no_value_operators = words ("IS NULL" ∷ "IS NOT NULL" ∷ [])

abbrev pub conjunctions : List Str
conjunctions = words ("AND" ∷ "OR" ∷ [])

abbrev base_source : Option TableRef → List TableRef
base_source none = []
base_source (some t) = t ∷ []

module _ {V : Type 0} where
  -- Base table and joined tables, in query order.
  unfoldable pub sources : QueryModel V → List TableRef
  sources m = base_source m.source ++ map (λ j. j.source) m.joins

  unfoldable pub qualified : QueryModel V → Bool
  unfolding sources
  qualified m = ltb 1 (length (sources m))
