-- ===== src/TableModel/Loss/Parts.antt =====
-- Which parts of a plan of backend/db/table_model.py are destructive.
use sqlide.Common.{
  Bool, true, false, not, ◌&&◌, ◌||◌, Option, none, some, List, [], ◌∷◌, ◌++◌, if◌then◌else◌,
  String, any, ◌≡◌, refl, sym, ◌∙◌, inl, inr, Bool-cases,
}
use sqlide.Common.Raises.{
  Raises, returned, ◌>>=◌, collect, >>=-returned, returned-eq, any-append, any-collect,
}
use sqlide.Common.Text.{Str, codes, CharTable, str_eq, strip}
use sqlide.TableModel.{ColumnModel, ConstraintModel, IndexModel, OptionSpec, TableModel, Dialect}
use sqlide.TableModel.Read.{option_value, option_on, has_default, bool_eq, is_blank}
use sqlide.TableModel.Sql.{TableModelError, quoted, column_sql, constraint_sql, render_default}
use sqlide.TableModel.Create.{index_sql}
use sqlide.TableModel.Diff.{
  same_name, default_eq, column_changed, Classification, safe, rewrites, may_fail, Statement,
  statement, statements, is_destructive, keyed, same_constraint, same_index,
}
use sqlide.TableModel.Alter.{
  drop_constraint, add_constraint, constraint_statements, drop_index, create_index,
  index_statements, option_statements,
}
use sqlide.TableModel.Alter.Columns.{
  add_column, restate_column, modify_column, alter_column, drop_column,
}

pub or_false : (b : Bool) → (b || false) ≡ b
or_false true = refl
or_false false = refl

-- Whether what a part of the planner returns has a destructive statement in it.
abbrev pub Finds : Bool → Raises TableModelError (List Statement) → Type 0
Finds b m = (ys : List Statement) → m ≡ returned ys → any is_destructive ys ≡ b

pub Finds-returned :
    {b : Bool} (ys : List Statement) → any is_destructive ys ≡ b → Finds b (returned ys)
Finds-returned ys h zs e = let k : ys ≡ zs = returned-eq e in rw (sym k) h

pub Finds-after :
    {A : Type 0} {b : Bool} (m : Raises TableModelError A)
    (next : A → Raises TableModelError (List Statement))
    → ((a : A) → Finds b (next a))
    → Finds b (m >>= next)
Finds-after m next each_next ys h =
    let (a, found, rest) = >>=-returned m next h in each_next a ys rest

pub Finds-if :
    (test : Bool) {b : Bool} (m n : Raises TableModelError (List Statement))
    → Finds b m
    → Finds b n
    → Finds b (if test then m else n)
Finds-if true m n hm hn = hm
Finds-if false m n hm hn = hn

Finds-both :
    {b c : Bool} (m n : Raises TableModelError (List Statement))
    → Finds b m
    → Finds c n
    → Finds (b || c) (m >>= λ xs. n >>= λ ys. returned (xs ++ ys))
Finds-both m n hm hn zs h =
    let (xs, found, rest) = >>=-returned m (λ xs. n >>= λ ys. returned (xs ++ ys)) h in
    let (ys, more, end) = >>=-returned n (λ ys. returned (xs ++ ys)) rest in
    let e : xs ++ ys ≡ zs = returned-eq end in
    rw (sym e, any-append is_destructive xs ys, hm xs found, hn ys more) refl

pub Finds-collect :
    {A : Type 0} (q : A → Bool) (f : A → Raises TableModelError (List Statement))
    → ((a : A) → Finds (q a) (f a))
    → (xs : List A) → Finds (any q xs) (collect f xs)
Finds-collect q f each_part xs ys h = any-collect is_destructive q f each_part xs h

none_of : {A : Type 0} (xs : List A) → any (λ _. false) xs ≡ false
none_of [] = refl
none_of (x ∷ xs) = none_of xs

pub Harmless-collect :
    {A : Type 0} (f : A → Raises TableModelError (List Statement))
    → ((a : A) → Finds false (f a))
    → (xs : List A) → Finds false (collect f xs)
Harmless-collect f each_part xs ys h = Finds-collect (λ _. false) f each_part xs ys h ∙ none_of xs

-- Statements none of which is destructive, with the ways to put them together.
pub record Harmless (xs : List Statement) : Type 0 where
  pub none_destructive : any is_destructive xs ≡ false

pub Harmless-returned : {xs : List Statement} → Harmless xs → Finds false (returned xs)
Harmless-returned {xs} h = Finds-returned xs h.none_destructive

pub nothing : Harmless []
nothing = record { none_destructive = refl }

pub Harmless-one : {s : Statement} → is_destructive s ≡ false → Harmless (s ∷ [])
Harmless-one {s} h = record { none_destructive = rw h refl }

pub Harmless-append : {xs ys : List Statement} → Harmless xs → Harmless ys → Harmless (xs ++ ys)
Harmless-append {xs} {ys} hx hy = record {
  none_destructive =
      any-append is_destructive xs ys ∙ rw (hx.none_destructive, hy.none_destructive) refl;
}

Harmless-if :
    (test : Bool) {xs ys : List Statement}
    → Harmless xs
    → Harmless ys
    → Harmless (if test then xs else ys)
Harmless-if true hx hy = hx
Harmless-if false hx hy = hy

Harmless-choice :
    (test : Bool) (s t : Statement)
    → is_destructive s ≡ false
    → is_destructive t ≡ false
    → any is_destructive ((if test then s else t) ∷ []) ≡ false
Harmless-choice true s t hs ht = rw (hs) refl
Harmless-choice false s t hs ht = rw (ht) refl

Harmless-class :
    (test : Bool) (c d : Classification) (sql note : List Str)
    → is_destructive (statement c sql note) ≡ false
    → is_destructive (statement d sql note) ≡ false
    → any is_destructive (statement (if test then c else d) sql note ∷ []) ≡ false
Harmless-class true c d sql note hc hd = rw hc refl
Harmless-class false c d sql note hc hd = rw hd refl

pub statements-Harmless : (note : String) (sqls : List Str) → Harmless (statements safe note sqls)
statements-Harmless note [] = nothing
statements-Harmless note (sql ∷ sqls) = record {
  none_destructive = (statements-Harmless note sqls).none_destructive;
}

module _ (u : CharTable) (is_float : Str → Bool) (dialect : Dialect) where
  add_column-Harmless :
      (table : Str) (c : ColumnModel) (pk : List Str)
      → Finds false (add_column u is_float dialect table c pk >>= λ s. returned (s ∷ []))
  unfolding add_column
  add_column-Harmless table c pk ys h =
      let (s, found, end) =
        >>=-returned (add_column u is_float dialect table c pk) (λ s. returned (s ∷ [])) h in
      let (sql, made, last) = >>=-returned (column_sql u is_float dialect c pk) _ found in
      let e : s ∷ [] ≡ ys = returned-eq end in
      let k : _ ≡ s = returned-eq last in
      rw (sym e, sym k)
        (Harmless-choice (not c.nullable && not (has_default u c.default)) _ _ refl refl)

  restate_column-Harmless :
      (table : Str) (old c : ColumnModel) (pk : List Str)
      → Finds false (restate_column u is_float dialect table old c pk)
  unfolding restate_column
  restate_column-Harmless table old c pk ys h =
      let (sql, made, rest) = >>=-returned (column_sql u is_float dialect c pk) _ h in
      let (verb, chosen, last) =
        >>=-returned
          (if same_name u old.name c.name
            then returned (codes "MODIFY COLUMN")
            else (quoted dialect old.name >>= λ q. returned (codes "CHANGE COLUMN " ++ q)))
          _ rest in
      let e : _ ≡ ys = returned-eq last in
      rw (sym e) (Harmless-class (old.nullable && not c.nullable) may_fail rewrites [] [] refl refl)

  modify_column-Harmless :
      (table : Str) (old c : ColumnModel) (pk : List Str)
      → Finds false (modify_column u is_float dialect table old c pk)
  unfolding modify_column
  modify_column-Harmless table old c pk = Finds-after (quoted dialect c.name) _ λ name.
      Finds-if (str_eq dialect.modify_style (codes "mysql")) _ _
        (restate_column-Harmless table old c pk)
        (Harmless-returned (
          Harmless-append
            (Harmless-if (str_eq (strip u old.sql_type) (strip u c.sql_type)) nothing
              (Harmless-one refl))
            (Harmless-append
              (Harmless-if (bool_eq old.nullable c.nullable) nothing (
                Harmless-if (old.nullable && not c.nullable) (Harmless-one refl)
                  (Harmless-one refl)))
              (Harmless-if (default_eq old.default c.default) nothing (
                Harmless-if (is_blank (render_default u is_float dialect c.default))
                  (Harmless-one refl) (Harmless-one refl))))))

  pub alter_column-Harmless :
      (table : Str) (pk : List Str) (old : Option ColumnModel) (c : ColumnModel)
      → Finds false (alter_column u is_float dialect table pk old c)
  unfolding alter_column
  alter_column-Harmless table pk none c = add_column-Harmless table c pk
  alter_column-Harmless table pk (some old) c =
      let renamed = not (same_name u old.name c.name) in
      let in_place = renamed && not (str_eq dialect.rename_column_style (codes "change")) in
      Finds-both _ _
        (Finds-if in_place _ _
          (Finds-after (quoted dialect old.name) _
            λ from_name. Finds-after (quoted dialect c.name) _ λ to_name. Finds-returned _ refl)
          (Finds-returned [] refl))
        (Finds-if (renamed && not in_place || column_changed u old c) _ _
          (modify_column-Harmless table old c pk) (Finds-returned [] refl))

  pub drop_column-Finds :
      (table : Str) (lost : Bool) (c : ColumnModel)
      → Finds lost (drop_column u is_float dialect table lost c)
  unfolding drop_column
  drop_column-Finds table true c =
      Finds-after (quoted dialect c.name) _ λ name. Finds-returned _ refl
  drop_column-Finds table false c = Finds-returned [] refl

  -- A constraint with a name that the target does not have.
  abbrev pub is_dropped : List ConstraintModel → ConstraintModel → Bool
  is_dropped after con = not (any (same_constraint u con) after || is_blank con.name)

  drop_constraint-Finds :
      (table : Str) (after : List ConstraintModel) (con : ConstraintModel)
      → Finds (is_dropped after con) (drop_constraint u is_float dialect table after con)
  unfolding drop_constraint
  drop_constraint-Finds table after con =
      elim (Bool-cases (any (same_constraint u con) after || is_blank con.name)) [
        | inl e ↦ rw e (Finds-returned [] refl)
        | inr e ↦ rw e (Finds-after (quoted dialect con.name) _ λ name. Finds-returned _ refl)
      ]

  add_constraint-Harmless :
      (table : Str) (before : List ConstraintModel) (con : ConstraintModel)
      → Finds false (add_constraint u is_float dialect table before con)
  unfolding add_constraint
  add_constraint-Harmless table before con =
      Finds-if (any (same_constraint u con) before) _ _ (Finds-returned [] refl) (
        Finds-after (constraint_sql u is_float dialect con) _
          λ sql. Harmless-returned (Harmless-if (is_blank sql) nothing (Harmless-one refl)))

  pub constraint_statements-Finds :
      (current target : TableModel) (table : Str)
      → Finds
          (any
            (is_dropped (keyed (same_constraint u) target.constraints))
            (keyed (same_constraint u) current.constraints))
          (constraint_statements u is_float dialect current target table)
  unfolding constraint_statements
  constraint_statements-Finds current target table ys h =
      let before = keyed (same_constraint u) current.constraints in
      let after = keyed (same_constraint u) target.constraints in
      Finds-both _ _ (Finds-collect (is_dropped after) _ (drop_constraint-Finds table after) before)
        (Harmless-collect _ (add_constraint-Harmless table before) after) ys h
      ∙ or_false _

  drop_index-Harmless :
      (after : List IndexModel) (index : IndexModel)
      → Finds false (drop_index u is_float dialect after index)
  unfolding drop_index
  drop_index-Harmless after index =
      Finds-if (any (same_index u index) after || is_blank index.name) _ _ (Finds-returned [] refl)
        (Finds-after (quoted dialect index.name) _ λ name. Finds-returned _ refl)

  create_index-Harmless :
      (target : TableModel) (before : List IndexModel) (index : IndexModel)
      → Finds false (create_index u is_float dialect target before index)
  unfolding create_index
  create_index-Harmless target before index =
      Finds-if (any (same_index u index) before) _ _ (Finds-returned [] refl) (
        Finds-after (index_sql u is_float dialect target index) _
          λ sql. Finds-returned _ (Harmless-class index.unique may_fail safe [] [] refl refl))

  pub index_statements-Harmless :
      (current target : TableModel)
      → Finds false (index_statements u is_float dialect current target)
  unfolding index_statements
  index_statements-Harmless current target =
      let before = keyed (same_index u) current.indexes in
      let after = keyed (same_index u) target.indexes in
      Finds-both _ _ (Harmless-collect _ (drop_index-Harmless after) before)
        (Harmless-collect _ (create_index-Harmless target before) after)

  pub option_statements-Harmless :
      (current target : TableModel) (table : Str) (specs : List OptionSpec)
      → Harmless (option_statements u is_float dialect current target table specs)
  unfolding option_statements
  option_statements-Harmless current target table [] = nothing
  option_statements-Harmless current target table (spec ∷ specs) =
      let rest = option_statements-Harmless current target table specs in
      let before = strip u (option_value current.options spec) in
      let after = strip u (option_value target.options spec) in
      Harmless-if (not spec.alterable || not (is_blank spec.field) || str_eq before after) rest (
        Harmless-append
          (Harmless-if (str_eq spec.placement (codes "with")) (Harmless-one refl)
            (Harmless-if (not (option_on u after)) nothing (Harmless-one refl)))
          rest)
