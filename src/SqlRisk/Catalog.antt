-- ===== src/SqlRisk/Catalog.antt =====
-- Which statements drop a connection's catalog cache.
use mathlib.Core.Path.{subst}
use sqlide.Common.{◌∙◌, true, false, List, [], ◌∷◌, ◌≡◌, refl, inl, inr, arith, Bool-cases}
use sqlide.Common.Text.{Str, CharTable, str_eq, is_one_of, is_one_of_ind}
use sqlide.SqlSplit.Scan.{other}
use sqlide.SqlSplit.Lex.{tokens}
use sqlide.SqlRisk.{
  Action, drop_object, truncate, alter, create, other_action, actions, action_in, is_catalog_safe,
  transaction_words, bare_words, classify, changes_words, changes_catalog,
}

-- The actions that change the schema.
abbrev pub IsSchemaChange : Action → Type 0
IsSchemaChange drop_object = Unit
IsSchemaChange truncate = Unit
IsSchemaChange alter = Unit
IsSchemaChange create = Unit
IsSchemaChange _ = ⊥

-- No word of transaction control has an action of its own.
transaction-other :
    (w : Str) → is_one_of w transaction_words ≡ true → action_in actions w ≡ other_action
unfolding action_in str_eq
transaction-other w h =
    is_one_of_ind (λ x. action_in actions x ≡ other_action) w transaction_words
      (refl, (refl, (refl, (refl, (refl, (refl, (refl, tt))))))) h

unsafe : (a : Action) → IsSchemaChange a → is_catalog_safe a ≡ false
unfolding is_catalog_safe
unsafe drop_object h = refl
unsafe truncate h = refl
unsafe alter h = refl
unsafe create h = refl
unsafe _ h = elim h [ ]

module _ (u : CharTable) (sql : Str) where
  -- The first bare word decides the action.
  action-classify :
      (ws : List Str)
      → bare_words (tokens u sql other) ≡ ws
      → (classify u sql).action ≡ elim ws [ [] ↦ other_action | w ∷ _ ↦ action_in actions w ]
  unfolding classify
  action-classify [] e = rw (classify, e)
  action-classify (w ∷ ws) e = rw (classify, e) (ground arith)

  changes_words-schema :
      (ws : List Str)
      → bare_words (tokens u sql other) ≡ ws
      → IsSchemaChange (classify u sql).action
      → changes_words u sql ws ≡ true
  unfolding is_catalog_safe
  changes_words-schema [] e h = absurd (subst IsSchemaChange (action-classify [] e) h)
  changes_words-schema (w ∷ ws) e h = elim (Bool-cases (is_one_of w transaction_words)) [
    | inl t ↦ absurd (subst IsSchemaChange (action-classify (w ∷ ws) e ∙ transaction-other w t) h)
    | inr f ↦ rw (f, unsafe (classify u sql).action h)
  ]

  -- A statement with the action of DROP, TRUNCATE, ALTER or CREATE always drops the catalog cache.
  pub changes_catalog-schema : IsSchemaChange (classify u sql).action → changes_catalog u sql ≡ true
  unfolding changes_catalog
  changes_catalog-schema = changes_words-schema (bare_words (tokens u sql other)) refl
