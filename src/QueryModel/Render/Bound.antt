-- ===== src/QueryModel/Render/Bound.antt =====
-- The values that a statement of backend/db/query_model.py binds, and the joins that it takes.
use mathlib.Core.Path.{subst}
use sqlide.Common.{
  Bool, true, false, not, List, [], ◌∷◌, ◌++◌, ◌≡◌, refl, ◌∙◌, inl, inr, Option, none, some,
  Bool-cases, ◌⊎◌, if◌then◌else◌,
}
use sqlide.Common.Text.{Str, CharTable, is_one_of, to_upper}
use sqlide.QueryModel.{
  TableRef, Condition, Filter, condition, group, Items, nil, cons, Group, QueryModel, Dialect,
  no_value_operators, filter_operators, conjunctions, qualified,
}
use sqlide.QueryModel.Render.{top_group, build, build_from, render, render_grouping, render_order}
use sqlide.QueryModel.Render.Clauses.{
  Outcome, ConnectorError, rendered, failed, is_empty, term, add_part, is_group, render_table,
  render_joins, render_condition, render_filter, render_items, select_list, bind_value,
}

-- What a result holds where it holds one.
abbrev pub Holds {ℓ κ} : {A : Type ℓ} → (A → Type κ) → Outcome A → Type κ
Holds P (rendered a) = P a
Holds P (failed e) = Unit

pub Outcome-cases {ℓ} :
    {A : Type ℓ} (m : Outcome A)
    → ((a : A) × m ≡ rendered a) ⊎ ((e : ConnectorError) × m ≡ failed e)
Outcome-cases (rendered a) = inl (a, refl)
Outcome-cases (failed e) = inr (e, refl)

abbrev taken : {V : Type 0} → Bool → V → List V
taken true v = []
taken false v = v ∷ []

-- The values of the conditions that take one, in the order they are written.
unfoldable mutual
  pub filter_values : (u : CharTable) {V : Type 0} → Filter V → List V
  filter_values u (condition c) = taken (is_one_of (to_upper u c.op) no_value_operators) c.value
  filter_values u (group items conj negated) = items_values u items

  pub items_values : (u : CharTable) {V : Type 0} → Items V → List V
  items_values u nil = []
  items_values u (cons item rest) = filter_values u item ++ items_values u rest

unfoldable pub group_values : (u : CharTable) {V : Type 0} → Option (Group V) → List V
unfolding items_values
group_values u none = []
group_values u (some g) = items_values u g.items

bind_value-values :
    {V : Type 0} (b : Bool) (shown : Str) (v : V)
    → Holds (λ r. r.1 ≡ taken b v) (bind_value b shown v)
bind_value-values true shown v = refl
bind_value-values false shown v = refl

add_part-values :
    {V : Type 0} (b : Bool) (text : Str) (vs : List V) (more : List Str × List V)
    → (add_part b text vs more).1 ≡ vs ++ more.1
add_part-values b [] vs more = refl
add_part-values b (c ∷ s) vs more = refl

render_condition-values :
    (u : CharTable) (d : Dialect) {V : Type 0} (q : Bool) (c : Condition V)
    → Holds (λ r. r.1 ≡ filter_values u (condition c)) (render_condition u d q c)
unfolding render_condition filter_values
render_condition-values u d q c =
    elim (Bool-cases (not (is_one_of (to_upper u c.op) filter_operators))) [
      | inl e ↦ rw e tt
      | inr e ↦ elim (Outcome-cases (term u d q c.column c.expression c.function c.distinct)) [
        | inl (text, f) ↦
            rw (e, f) (bind_value-values (is_one_of (to_upper u c.op) no_value_operators) _ c.value)
        | inr (er, f) ↦ rw (e, f) tt
      ]
    ]

mutual
  unfolding render_items filter_values

  pub render_filter-values :
      (u : CharTable) (d : Dialect) {V : Type 0} (q : Bool) (f : Filter V)
      → Holds (λ r. r.1 ≡ filter_values u f) (render_filter u d q f)
  render_filter-values u d q (condition c) = render_condition-values u d q c
  render_filter-values u d q (group items conj negated) =
      let ih = render_items-values u d q items in
      elim (Bool-cases (not (is_one_of (to_upper u conj) conjunctions))) [
        | inl e ↦ rw e tt
        | inr e ↦ elim (Outcome-cases (render_items u d q items)) [
          | inl (r, f) ↦ rw (e, f) (rw f at ih)
          | inr (er, f) ↦ rw (e, f) tt
        ]
      ]

  pub render_items-values :
      (u : CharTable) (d : Dialect) {V : Type 0} (q : Bool) (is : Items V)
      → Holds (λ r. r.1 ≡ items_values u is) (render_items u d q is)
  render_items-values u d q nil = refl
  render_items-values u d q (cons item rest) =
      let ih = render_filter-values u d q item in
      let jh = render_items-values u d q rest in
      elim (Outcome-cases (render_filter u d q item)) [
        | inl (r, f) ↦ elim (Outcome-cases (render_items u d q rest)) [
          | inl (more, g) ↦
              let e : r.1 ≡ filter_values u item = rw f at ih in
              let k : more.1 ≡ items_values u rest = rw g at jh in
              rw (f, g) (add_part-values (is_group item) r.0 r.1 more ∙ cc)
          | inr (er, g) ↦ rw (f, g) tt
        ]
        | inr (er, f) ↦ rw f tt
      ]

top_group-values :
    (u : CharTable) (d : Dialect) {V : Type 0} (q : Bool) (g : Option (Group V))
    → Holds (λ r. r.1 ≡ group_values u g) (top_group u d q g)
unfolding top_group group_values
top_group-values u d q none = refl
top_group-values u d q (some g) =
    let ih = render_items-values u d q g.items in
    elim (Bool-cases (not (is_one_of (to_upper u g.conjunction) conjunctions))) [
      | inl e ↦ rw e tt
      | inr e ↦ elim (Outcome-cases (render_items u d q g.items)) [
        | inl (r, f) ↦ rw (e, f) (rw f at ih)
        | inr (er, f) ↦ rw (e, f) tt
      ]
    ]

-- The values of a query: those of WHERE, then those of HAVING; none without a table to select from.
unfoldable pub bound_values : (u : CharTable) {V : Type 0} → QueryModel V → List V
unfolding group_values
bound_values u m = elim m.source [
  | none ↦ []
  | some t ↦ if is_empty t.name then [] else group_values u m.where_group ++ group_values u m.having
]

build_from-values :
    (u : CharTable) (d : Dialect) {V : Type 0} (t : TableRef) (m : QueryModel V)
    → Holds
        (λ r. r.1 ≡ group_values u m.where_group ++ group_values u m.having)
        (build_from u d t m)
unfolding build_from
build_from-values u d t m =
    let q = qualified m in
    let ih = top_group-values u d q m.where_group in
    let jh = top_group-values u d q m.having in
    elim (Outcome-cases (select_list u d q m.projections)) [
      | inr (er, e) ↦ rw e tt
      | inl (_, e1) ↦ elim (Outcome-cases (render_table u d t)) [
        | inr (er, e) ↦ rw (e1, e) tt
        | inl (_, e2) ↦ elim (Outcome-cases (render_joins u d m.joins)) [
          | inr (er, e) ↦ rw (e1, e2, e) tt
          | inl (_, e3) ↦ elim (Outcome-cases (top_group u d q m.where_group)) [
            | inr (er, e) ↦ rw (e1, e2, e3, e) tt
            | inl (r, e4) ↦ elim (Outcome-cases (render_grouping u d q m.group_by)) [
              | inr (er, e) ↦ rw (e1, e2, e3, e4, e) tt
              | inl (_, e5) ↦ elim (Outcome-cases (top_group u d q m.having)) [
                | inr (er, e) ↦ rw (e1, e2, e3, e4, e5, e) tt
                | inl (r', e6) ↦
                    elim (Outcome-cases (render_order u d q m.projections m.order_by)) [
                      | inr (er, e) ↦ rw (e1, e2, e3, e4, e5, e6, e) tt
                      | inl (_, e7) ↦
                          let k : r.1 ≡ group_values u m.where_group = rw e4 at ih in
                          let l : r'.1 ≡ group_values u m.having = rw e6 at jh in
                          rw (e1, e2, e3, e4, e5, e6, e7) cc
                    ]
              ]
            ]
          ]
        ]
      ]
    ]

build-values :
    (u : CharTable) (d : Dialect) {V : Type 0} (m : QueryModel V)
    → Holds (λ r. r.1 ≡ bound_values u m) (build u d m)
unfolding build bound_values
build-values u d {V} m = by_source m.source
  where
    by_source :
        (o : Option TableRef)
        → Holds {A = Str × List V}
            (λ r. r.1 ≡ (elim o [
              | none ↦ []
              | some t ↦
                  if is_empty t.name
                  then []
                  else group_values u m.where_group ++ group_values u m.having
            ]))
            (elim o [
              | none ↦ rendered ([], [])
              | some t ↦ if is_empty t.name then rendered ([], []) else build_from u d t m
            ])
    by_source none = refl
    by_source (some t) = by_name (is_empty t.name)
      where
        by_name :
            (b : Bool)
            → Holds {A = Str × List V}
                (λ r.
                  r.1 ≡ (if b then [] else group_values u m.where_group ++ group_values u m.having))
                (if b then rendered ([], []) else build_from u d t m)
        by_name true = refl
        by_name false = build_from-values u d t m

-- A rendered query binds the values of exactly its conditions that take one, in the order they
-- are written, those of WHERE in front of those of HAVING, however the groups nest.
pub render-values :
    (u : CharTable) (d : Dialect) {V : Type 0} (m : QueryModel V) {sql : Str} {params : List V}
    → render u d m ≡ rendered (sql, params)
    → params ≡ bound_values u m
unfolding render
render-values u d {V} m h =
    let ih = build-values u d m in
    subst (Holds {A = Str × List V} (λ r. r.1 ≡ bound_values u m)) h
      (elim (Outcome-cases (build u d m)) [
        | inr (er, e) ↦ rw e tt
        | inl (r, e) ↦ rw e (rw e at ih)
      ])
