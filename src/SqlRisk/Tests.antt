-- ===== src/SqlRisk/Tests.antt =====
-- Runs of backend/sql_risk.py, and its theorems at concrete statements.
use mathlib.Core.List
use sqlide.Common.{
  ◌≤◌, true, false, List, [], ◌∷◌, ◌≡◌, ◌≢◌, ◌↔◌, refl, arith, first_case, All, map,
}
use sqlide.Common.Text.{
  Str, codes, words, ascii, starts_with, find_here, run_length, strip_by, str_eq,
}
use sqlide.SqlSplit.Scan.{quoted_end, dollar_delimiter}
use sqlide.SqlSplit.Lex.{lex, lex_from, next_cut, tokens}
use sqlide.SqlRisk.{
  Risk, drop_object, delete, read, classify, worst, key, severe, destructive, changes_catalog,
  target_after, action_in, bare_words, confirmation_level, type_name, production, staging, always,
  non_dev, never,
}
use sqlide.SqlRisk.Catalog.{changes_catalog-schema}
use sqlide.SqlRisk.Ladder.{rung, confirmation_level_mono, type_name_iff}
use sqlide.SqlRisk.Worst.{confirmation_level-worst, worst-IsAmong, IsAmong}

run_classify : Str → Risk
unfolding classify tokens lex lex_from next_cut quoted_end dollar_delimiter first_case starts_with
    find_here run_length strip_by str_eq target_after action_in bare_words List.flat_map
    List.filter_map
run_classify = classify ascii

classify_delete :
    run_classify (codes "delete from \"where\" -- WHERE")
    ≡ record { action = delete; target = codes "where"; unfiltered = true }
unfolding run_classify
classify_delete = refl

classify_drop :
    run_classify (codes "DROP TABLE IF EXISTS t")
    ≡ record { action = drop_object; target = codes "t"; unfiltered = false }
unfolding run_classify
classify_drop = refl

-- A write under WITH is read as a read.
classify_with : (run_classify (codes "WITH x AS (DELETE FROM t) SELECT 1")).action ≡ read
unfolding run_classify
classify_with = refl

abbrev drop_t : Risk
drop_t = record { action = drop_object; target = codes "t"; unfiltered = false }

abbrev delete_t : Risk
delete_t = record { action = delete; target = codes "t"; unfiltered = false }

changes_catalog-schema_example : changes_catalog ascii (codes "DROP TABLE IF EXISTS t") ≡ true
unfolding run_classify
changes_catalog-schema_example = changes_catalog-schema ascii (codes "DROP TABLE IF EXISTS t") tt

confirmation_level_mono_example :
    rung (confirmation_level delete_t staging non_dev)
    ≤ rung (confirmation_level drop_t production always)
unfolding key severe destructive
confirmation_level_mono_example =
    confirmation_level_mono delete_t drop_t staging production non_dev always (omega arith)
      (omega arith) (omega arith)

type_name_iff_example :
    (confirmation_level drop_t production always ≡ type_name)
    ↔ ((always ≢ never) × (production ≡ production) × (severe drop_t ≡ true))
type_name_iff_example = type_name_iff drop_t production always

abbrev script : List Str
script = words ("SELECT 1" ∷ "DROP TABLE t" ∷ [])

confirmation_level-worst_example :
    All
      (λ s.
        rung (confirmation_level (classify ascii s) production always)
        ≤ rung (confirmation_level (worst ascii script) production always))
      script
confirmation_level-worst_example = confirmation_level-worst ascii script production always

script-IsAmong : IsAmong (worst ascii script) (map (classify ascii) script)
script-IsAmong = worst-IsAmong ascii (codes "SELECT 1") (codes "DROP TABLE t" ∷ [])
