-- ===== src/QueryModel/Render/Clauses.antt =====
-- The clauses of `_Renderer` of backend/db/query_model.py. A `ConnectorError` is a value.
use sqlide.Common.{
  ℕ, zero, String, Bool, true, false, not, ◌&&◌, ◌||◌, Option, none, some, List, [], ◌∷◌, ◌++◌,
  if◌then◌else◌, ◌==◌, any,
}
use sqlide.Common.Int.{ℤ, pos, show_int}
use sqlide.Common.Text.{Str, codes, CharTable, is_one_of, to_upper, join}
use sqlide.QueryModel.{
  TableRef, Column, Projection, On, Join, Condition, Filter, condition, group, Items, nil, cons,
  Dialect, join_kinds_all, joins_without_on, aggregates_all, aggregates_without_column,
  on_operators, filter_operators, no_value_operators, conjunctions,
}

pub data ConnectorError : Type 0 where
  empty_identifier nul_in_identifier needs_column nothing_to_render : ConnectorError
  unsupported_aggregate lacks_aggregate unsupported_join lacks_join takes_no_on needs_on :
      Str → ConnectorError
  unsupported_on_operator unsupported_filter_operator unsupported_conjunction : Str → ConnectorError

-- What a method of the renderer returns, or the error that it raises.
pub data Outcome {ℓ} (A : Type ℓ) : Type ℓ where
  failed : ConnectorError → Outcome A
  rendered : A → Outcome A

infixl 5 ◌>>=◌ ◌>>◌
abbrev pub ◌>>=◌ {ℓ μ} : {A : Type ℓ} {T : Type μ} → Outcome A → (A → Outcome T) → Outcome T
failed problem >>= next = failed problem
rendered text >>= next = next text

abbrev pub ◌>>◌ {μ} : {T : Type μ} → Outcome (Unit {0}) → Outcome T → Outcome T
check >> rest = check >>= λ _. rest

-- `if test: raise e`
abbrev pub raise_if : Bool → ConnectorError → Outcome (Unit {0})
raise_if true e = failed e
raise_if false e = rendered tt

abbrev pub is_empty {ℓ} : {A : Type ℓ} → List A → Bool
is_empty [] = true
is_empty (x ∷ xs) = false

abbrev pub has_name : Option Column → Bool
has_name none = false
has_name (some c) = not (is_empty c.name)

abbrev pub marker : ℕ
marker = b'?'

-- An operator that takes a value is followed by a marker, and the value is bound.
abbrev pub bind_value : {V : Type 0} → Bool → Str → V → Outcome (Str × List V)
bind_value true shown v = rendered (shown, [])
bind_value false shown v = rendered (shown ++ (codes " " ++ marker ∷ []), v ∷ [])

-- The text of a group from the texts of its items.
unfoldable pub wrap_group : Bool → Bool → Str → List Str → Str
wrap_group top negated conj [] = []
wrap_group top negated conj (p ∷ ps) =
    let text = join (codes " " ++ (conj ++ codes " ")) (p ∷ ps) in
    if negated
    then codes "NOT (" ++ (text ++ codes ")")
    else if top || is_empty ps
    then text
    else codes "(" ++ (text ++ codes ")")

-- A nested group that renders to nothing is left out.
abbrev pub add_part : {V : Type 0} → Bool → Str → List V → List Str × List V → List Str × List V
add_part skips [] vs (parts, values) = (if skips then parts else [] ∷ parts, vs ++ values)
add_part skips (c ∷ s) vs (parts, values) = ((c ∷ s) ∷ parts, vs ++ values)

abbrev pub is_group : {V : Type 0} → Filter V → Bool
is_group (condition c) = false
is_group (group items conj negated) = true

abbrev pub is_some {ℓ} : {A : Type ℓ} → Option A → Bool
is_some none = false
is_some (some a) = true

abbrev pub direction : Bool → String
direction true = "DESC"
direction false = "ASC"

-- A line of its own, if there is something behind its keyword.
abbrev pub headed : String → Str → List Str
headed keyword [] = []
headed keyword (c ∷ s) = (codes keyword ++ (c ∷ s)) ∷ []

abbrev pub numbered : String → Option ℤ → List Str
numbered keyword none = []
numbered keyword (some i) = (codes keyword ++ show_int i) ∷ []

-- `if offset`
abbrev pub nonzero : Option ℤ → Option ℤ
nonzero none = none
nonzero (some (pos zero)) = none
nonzero (some i) = some i

abbrev pub is_set : Option ℤ → Bool
is_set o = is_some (nonzero o)

module _ (u : CharTable) (d : Dialect) where
  -- `Dialect.quoted`
  unfoldable pub quoted : Str → Outcome Str
  quoted name = do
    raise_if (is_empty name) empty_identifier
    raise_if (any (λ c. c == 0) name) nul_in_identifier
    rendered (d.quote name)

  unfoldable pub render_table : TableRef → Outcome Str
  unfolding quoted
  render_table ref = do
    name ← quoted ref.name
    schema ←
        (if is_empty ref.schema
          then rendered []
          else quoted ref.schema >>= λ s. rendered (s ++ codes "."))
    label ←
        (if is_empty ref.alias_name
          then rendered []
          else quoted ref.alias_name >>= λ a. rendered (codes " AS " ++ a))
    rendered (schema ++ (name ++ label))

  -- The flag is `self.qualified or force_qualified`.
  unfoldable pub render_column : Bool → Column → Outcome Str
  unfolding quoted
  render_column qualify col =
      if not (is_empty col.source) && qualify
      then (do s ← quoted col.source; n ← quoted col.name; rendered (s ++ (codes "." ++ n)))
      else quoted col.name

  abbrev of_column : Bool → Option Column → Outcome Str
  of_column qualify none = failed nothing_to_render
  of_column qualify (some c) = render_column qualify c

  -- An aggregate `name`, in upper case, that the dialect has.
  aggregate_term : Bool → Str → Option Column → Bool → Outcome Str
  unfolding render_column
  aggregate_term qualify name column distinct =
      if not (has_name column)
      then (do
        raise_if (not (is_one_of name aggregates_without_column)) needs_column
        rendered (name ++ codes "(*)"))
      else (do
        inner ← of_column qualify column
        rendered (
            name
            ++ (codes "("
                ++ ((if distinct then codes "DISTINCT " else []) ++ (inner ++ codes ")")))))

  unfoldable pub term : Bool → Option Column → Str → Str → Bool → Outcome Str
  unfolding aggregate_term
  term qualify column expression function distinct =
      let name = to_upper u function in
      if not (is_empty expression)
      then rendered expression
      else if not (is_empty name)
      then (do
        raise_if (not (is_one_of name aggregates_all)) (unsupported_aggregate function)
        raise_if (not (is_one_of name d.aggregates)) (lacks_aggregate name)
        aggregate_term qualify name column distinct)
      else if has_name column
      then of_column qualify column
      else failed nothing_to_render

  render_projections : Bool → List Projection → Outcome (List Str)
  unfolding term
  render_projections qualify [] = rendered []
  render_projections qualify (p ∷ ps) = do
    text ← term qualify p.column p.expression p.function p.distinct
    label ←
        (if is_empty p.alias_name
          then rendered []
          else quoted p.alias_name >>= λ a. rendered (codes " AS " ++ a))
    rest ← render_projections qualify ps
    rendered ((text ++ label) ∷ rest)

  unfoldable pub select_list : Bool → List Projection → Outcome Str
  unfolding render_projections
  select_list qualify [] = rendered (codes "*")
  select_list qualify (p ∷ ps) = do
    parts ← render_projections qualify (p ∷ ps)
    rendered (join (codes ", ") parts)

  unfoldable pub render_on : List On → Outcome (List Str)
  unfolding render_column
  render_on [] = rendered []
  render_on (o ∷ os) = do
    let op = to_upper u o.op
    raise_if (not (is_one_of op on_operators)) (unsupported_on_operator o.op)
    left ← render_column true o.left
    right ← render_column true o.right
    rest ← render_on os
    rendered ((left ++ (codes " " ++ (op ++ (codes " " ++ right)))) ∷ rest)

  -- The ON clause of a join of the given kind.
  unfoldable pub on_clause : Str → List On → Outcome Str
  unfolding render_on
  on_clause kind on =
      if is_one_of kind joins_without_on
      then (do raise_if (not (is_empty on)) (takes_no_on kind); rendered [])
      else (do
        raise_if (is_empty on) (needs_on kind)
        parts ← render_on on
        rendered (codes " ON " ++ join (codes " AND ") parts))

  unfoldable pub render_joins : List Join → Outcome (List Str)
  unfolding render_table on_clause
  render_joins [] = rendered []
  render_joins (j ∷ js) = do
    let kind = to_upper u j.kind
    raise_if (not (is_one_of kind join_kinds_all)) (unsupported_join j.kind)
    raise_if (not (is_one_of kind d.join_kinds)) (lacks_join kind)
    table ← render_table j.source
    clause ← on_clause kind j.on
    rest ← render_joins js
    rendered ((kind ++ (codes " " ++ (table ++ clause))) ∷ rest)

  -- A condition with the values that it binds.
  unfoldable pub render_condition : {V : Type 0} → Bool → Condition V → Outcome (Str × List V)
  unfolding term
  render_condition qualify c = do
    let op = to_upper u c.op
    raise_if (not (is_one_of op filter_operators)) (unsupported_filter_operator c.op)
    text ← term qualify c.column c.expression c.function c.distinct
    let shown = text ++ (codes " " ++ op)
    bind_value (is_one_of op no_value_operators) shown c.value

unfoldable mutual
  unfolding render_condition wrap_group

  pub render_filter :
      (u : CharTable) (d : Dialect) {V : Type 0} → Bool → Filter V → Outcome (Str × List V)
  render_filter u d qualify (condition c) = render_condition u d qualify c
  render_filter u d qualify (group items conjunction negated) = do
    let conj = to_upper u conjunction
    raise_if (not (is_one_of conj conjunctions)) (unsupported_conjunction conjunction)
    (parts, values) ← render_items u d qualify items
    rendered (wrap_group false negated conj parts, values)

  pub render_items :
      (u : CharTable) (d : Dialect) {V : Type 0} → Bool → Items V → Outcome (List Str × List V)
  render_items u d qualify nil = rendered ([], [])
  render_items u d qualify (cons item rest) = do
    (text, vs) ← render_filter u d qualify item
    more ← render_items u d qualify rest
    rendered (add_part (is_group item) text vs more)
