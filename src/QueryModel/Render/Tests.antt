-- ===== src/QueryModel/Render/Tests.antt =====
-- Queries rendered.
use mathlib.Core.List.{flat_map}
use sqlide.Common.{ℕ, true, false, none, some, [], ◌∷◌, ◌++◌, ◌≡◌, refl, inl, arith}
use sqlide.Common.Int.{pos}
use sqlide.Common.Text.{Str, codes, words, ascii, str_eq}
use sqlide.QueryModel.{
  TableRef, Column, Join, Filter, condition, group, nil, cons, QueryModel, Dialect, aggregates_all,
}
use sqlide.QueryModel.Render.{render, substitute}
use sqlide.QueryModel.Render.Clauses.{rendered, failed, lacks_join}
use sqlide.QueryModel.Render.Bound.{bound_values, render-values}
use sqlide.QueryModel.Render.Marks.{substitute-swapped, swapped, markers}

abbrev mysql : Dialect
mysql = record {
  name = codes "MySQL";
  quote = λ s. codes "`" ++ (s ++ codes "`");
  placeholder = codes "%s";
  join_kinds = words ("INNER JOIN" ∷ "LEFT JOIN" ∷ "RIGHT JOIN" ∷ "CROSS JOIN" ∷ []);
  aggregates = aggregates_all;
  order_by_alias = true;
  offset_without_limit = false;
  offset_limit_stand_in = pos 9999;
}

abbrev table_ref : Str → TableRef
table_ref name = record { name = name; schema = []; alias_name = [] }

abbrev col : Str → Str → Column
col source name = record { name = name; source = source }

abbrev plain : Str → Str → Str → ℕ → Filter ℕ
plain source name op value = condition (record {
  column = some (col source name);
  op = op;
  value = value;
  expression = [];
  function = [];
  distinct = false;
})

abbrev orders_join : Str → Join
orders_join kind = record {
  kind = kind;
  source = table_ref (codes "o");
  on =
      record {
        left = col (codes "o") (codes "c");
        right = col (codes "t") (codes "id");
        op = codes "=";
      }
      ∷ [];
}

abbrev query : Str → QueryModel ℕ
query kind = record {
  source = some (table_ref (codes "t"));
  joins = orders_join kind ∷ [];
  projections =
      record {
        column = none;
        expression = [];
        alias_name = codes "n";
        function = codes "count";
        distinct = false;
      }
      ∷ [];
  distinct = false;
  where_group = some (record {
    items = cons (plain (codes "t") (codes "a") (codes "like") 7) (
        cons
          (group
            (cons (plain [] (codes "b") (codes "is null") 8)
              (cons (plain [] (codes "c") (codes ">") 9) nil))
            (codes "or") false)
          nil);
    conjunction = codes "and";
    negated = false;
  });
  group_by = inl (col (codes "t") (codes "a")) ∷ [];
  having = none;
  order_by =
      record {
        column = none;
        expression = [];
        descending = true;
        alias_name = codes "n";
        function = [];
        distinct = false;
      }
      ∷ [];
  limit = none;
  offset = some (pos 5);
}

abbrev query_text : Str
query_text =
    codes
      "SELECT COUNT(*) AS `n`\nFROM `t`\nLEFT JOIN `o` ON `o`.`c` = `t`.`id`\nWHERE `t`.`a` LIKE %s AND (`b` IS NULL OR `c` > %s)\nGROUP BY `t`.`a`\nORDER BY `n` DESC\nLIMIT 9999\nOFFSET 5;"

render_test : render ascii mysql (query (codes "left join")) ≡ rendered (query_text, 7 ∷ 9 ∷ [])
unfolding render flat_map str_eq
render_test = refl

render_full_join :
    render ascii mysql (query (codes "full join")) ≡ failed (lacks_join (codes "FULL JOIN"))
unfolding render flat_map str_eq
render_full_join = refl

-- The marker that stands in a name is replaced, and the one of the condition is not.
substitute_name : substitute (codes "`a?` = ?") (codes "%s") 1 ≡ codes "`a%s` = ?"
unfolding substitute str_eq
substitute_name = refl

render-values_example : 7 ∷ 9 ∷ [] ≡ bound_values ascii (query (codes "left join"))
render-values_example = render-values ascii mysql (query (codes "left join")) render_test

markers_test : markers (codes "a = ? AND b = ?") ≡ 2
unfolding markers
markers_test = refl

substitute-swapped_example :
    substitute (codes "a = ? AND b = ?") (codes "%s") 2
    ≡ flat_map (swapped (codes "%s")) (codes "a = ? AND b = ?")
substitute-swapped_example =
    substitute-swapped (codes "a = ? AND b = ?") (codes "%s") 2 (omega (arith, markers_test))
