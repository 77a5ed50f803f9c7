-- ===== src/SqlRisk.antt =====
-- backend/sql_risk.py: what a statement destroys, and how hard the app should make it.
pub mod Catalog
pub mod Ladder
pub mod Worst
mod Tests
use mathlib.Core.List.{filter_map}
use sqlide.Common.{
  ℕ, zero, suc, ◌+◌, String, Bool, true, false, not, ◌&&◌, ◌||◌, Option, none, some, List, [], ◌∷◌,
  ◌++◌, map, if◌then◌else◌, ltb, drop,
}
use sqlide.Common.Text.{Str, codes, words, CharTable, str_eq, is_one_of, strip}
use sqlide.SqlSplit.Scan.{other}
use sqlide.SqlSplit.Lex.{Token, tokens}

abbrev skipped : List Str
skipped = words (
    "TABLE" ∷ "VIEW" ∷ "INDEX" ∷ "TRIGGER" ∷ "FUNCTION" ∷ "PROCEDURE" ∷ "ROUTINE" ∷ "DATABASE"
    ∷ "SCHEMA" ∷ "EVENT" ∷ "SEQUENCE" ∷ "MATERIALIZED" ∷ "TEMPORARY" ∷ "TEMP" ∷ "IF" ∷ "EXISTS"
    ∷ "NOT" ∷ "ONLY" ∷ "FROM" ∷ "INTO" ∷ "CONCURRENTLY" ∷ "UNIQUE" ∷ "OR" ∷ "REPLACE" ∷ [])

-- The values of `_ACTIONS`, and "other".
pub data Action : Type 0 where
  drop_object truncate delete update insert alter create read other_action : Action

abbrev pub actions : List (Str × Action)
actions =
    (codes "DROP", drop_object)
    ∷ (codes "TRUNCATE", truncate)
    ∷ (codes "DELETE", delete)
    ∷ (codes "UPDATE", update)
    ∷ (codes "INSERT", insert)
    ∷ (codes "REPLACE", insert)
    ∷ (codes "ALTER", alter)
    ∷ (codes "CREATE", create)
    ∷ (codes "SELECT", read)
    ∷ (codes "WITH", read)
    ∷ (codes "EXPLAIN", read)
    ∷ (codes "SHOW", read)
    ∷ (codes "DESCRIBE", read)
    ∷ (codes "DESC", read)
    ∷ (codes "PRAGMA", read)
    ∷ []

-- `_ACTIONS.get(word, "other")`
unfoldable pub action_in : List (Str × Action) → Str → Action
action_in [] word = other_action
action_in ((key, a) ∷ table) word =
    let rest = action_in table word in if str_eq word key then a else rest

unfoldable pub is_destructive : Action → Bool
is_destructive create = false
is_destructive read = false
is_destructive other_action = false
is_destructive _ = true

unfoldable pub is_severe : Action → Bool
is_severe drop_object = true
is_severe truncate = true
is_severe _ = false

unfoldable pub is_catalog_safe : Action → Bool
is_catalog_safe read = true
is_catalog_safe insert = true
is_catalog_safe update = true
is_catalog_safe delete = true
is_catalog_safe _ = false

-- `action in ("delete", "update")`
unfoldable pub is_filterable : Action → Bool
is_filterable delete = true
is_filterable update = true
is_filterable _ = false

abbrev pub transaction_words : List Str
transaction_words =
    words ("BEGIN" ∷ "START" ∷ "COMMIT" ∷ "END" ∷ "ROLLBACK" ∷ "SAVEPOINT" ∷ "RELEASE" ∷ [])

-- `_VERBS`, and the fallback to the action's own name in upper case.
verb : Action → Str
verb drop_object = codes "DROP"
verb truncate = codes "TRUNCATE"
verb delete = codes "DELETE"
verb update = codes "UPDATE"
verb insert = codes "INSERT"
verb alter = codes "ALTER"
verb create = codes "CREATE"
verb read = codes "READ"
verb other_action = codes "OTHER"

pub record Risk : Type 0 where
  pub action : Action
  pub target : Str
  pub unfiltered : Bool

unfoldable pub destructive : Risk → Bool
unfolding is_destructive
destructive r = is_destructive r.action

unfoldable pub severe : Risk → Bool
unfolding is_severe is_filterable
severe r = is_severe r.action || (r.unfiltered && is_filterable r.action)

-- `[t.word for t in found if not t.quoted]`
abbrev bare_word : Token → Option Str
bare_word t = if t.quoted then none else some t.word

unfoldable pub bare_words : List Token → List Str
unfolding filter_map
bare_words = filter_map bare_word

-- The first token that is quoted or not skipped; the argument is `found[start:]`.
unfoldable pub target_after : List Token → Str
target_after [] = []
target_after (t ∷ ts) =
    let later = target_after ts in
    if t.quoted || not (is_one_of t.word skipped) then t.text else later

-- `action in ("read", "create", "other")`
is_plain : Action → Bool
is_plain create = true
is_plain read = true
is_plain other_action = true
is_plain _ = false

-- What is known of a statement whose first bare word is given.
classify_as : List Token → List Str → Action → Risk
unfolding is_plain is_filterable
classify_as found ws action =
    if is_plain action
    then record { action = action; target = target_after (drop 1 found); unfiltered = false }
    else record {
      action = action;
      target = target_after (drop 1 found);
      unfiltered = is_filterable action && not (is_one_of (codes "WHERE") ws);
    }

abbrev pub no_risk : Risk
no_risk = record { action = other_action; target = []; unfiltered = false }

abbrev classify_words : List Token → List Str → Risk
classify_words found [] = no_risk
classify_words found (w ∷ ws) = classify_as found (w ∷ ws) (action_in actions w)

module _ (u : CharTable) where
  unfoldable pub describe : Risk → Str
  unfolding verb
  describe r =
      let text = strip u (verb r.action ++ (codes " " ++ r.target)) in
      if r.unfiltered then text ++ codes " (no WHERE clause — every row)" else text

  unfoldable pub classify : Str → Risk
  unfolding classify_as
  classify sql = let found = tokens u sql other in classify_words found (bare_words found)

  abbrev changes_words : Str → List Str → Bool
  changes_words sql [] = false
  changes_words sql (w ∷ ws) =
      if is_one_of w transaction_words then false else not (is_catalog_safe (classify sql).action)

  unfoldable pub changes_catalog : Str → Bool
  unfolding is_catalog_safe
  changes_catalog sql = changes_words sql (bare_words (tokens u sql other))

-- `(r.destructive, r.severe)` as a number: Python compares the pairs in this order.
unfoldable pub key : Risk → ℕ
key r = (if destructive r then 2 else 0) + (if severe r then 1 else 0)

-- `max`: the first of the greatest.
unfoldable pub max_from : Risk → List Risk → Risk
max_from best [] = best
max_from best (r ∷ rs) = max_from (if ltb (key best) (key r) then r else best) rs

abbrev max_or : List Risk → Risk
max_or [] = no_risk
max_or (r ∷ rs) = max_from r rs

unfoldable pub worst : CharTable → List Str → Risk
worst u statements = max_or (map (classify u) statements)

pub data Level : Type 0 where
  no_question confirm type_name : Level

-- The environments; any other name reads as unset.
pub data Environment : Type 0 where
  development staging production unset : Environment

-- `ui.confirm_destructive`; `unknown` is any other text.
pub data Mode : Type 0 where
  always non_dev never unknown : Mode

-- `if mode not in CONFIRM_MODES: mode = DEFAULT_CONFIRM_MODE`
abbrev known : Mode → Mode
known unknown = non_dev
known mode = mode

abbrev is_never : Mode → Bool
is_never never = true
is_never _ = false

abbrev is_always : Mode → Bool
is_always always = true
is_always _ = false

level_in : Risk → Environment → Mode → Level
level_in risk development mode = if is_always mode then confirm else no_question
level_in risk production mode = if severe risk then type_name else confirm
level_in risk staging mode = confirm
level_in risk unset mode =
    if is_always mode then confirm else if severe risk then confirm else no_question

unfoldable pub confirmation_level : Risk → Environment → Mode → Level
unfolding level_in
confirmation_level risk environment mode =
    if is_never (known mode) || not (destructive risk)
    then no_question
    else level_in risk environment (known mode)
