-- ===== src/Mcp/Guard/Sound.antt =====
-- What an admitted query is, as the connection's own dialect reads it.
use mathlib.Core.Path.{subst}
use sqlide.Common.{
  ℕ, ◌+◌, true, false, List, [], ◌∷◌, ◌≡◌, refl, ap, ◌∙◌, inl, inr, Bool-cases, All, length,
}
use sqlide.Common.Text.{Str, CharTable, IsPython, is_one_of}
use sqlide.SqlSplit.Scan.{Dialect, other}
use sqlide.SqlSplit.Lex.{tokens}
use sqlide.SqlSplit.Statements.{Statement, split_statements}
use sqlide.SqlSplit.Statements.Placed.{InOrder, placed, split_statements-InOrder}
use sqlide.SqlSplit.Dialects.{NoBackslash, NoBackslash-slice, split_statements_plain, tokens_plain}
use sqlide.SqlRisk.{bare_words}
use sqlide.Mcp.Guard.{
  Connection, allowed_first, write_words, ok, denied, admit, check_words, check_statements,
  check_read_only,
}

-- A script that dialect `d` reads as the one statement `text`, which begins with an allowed
-- keyword and holds no keyword that writes.
pub record IsReadOnly (u : CharTable) (sql : Str) (d : Dialect) (kind : Connection) (text : Str)
    : Type 0 where
  pub start : ℕ
  pub stop : ℕ
  pub single : split_statements u sql d ≡ record { text = text; start = start; stop = stop } ∷ []
  pub first : Str
  pub rest : List Str
  pub keywords : bare_words (tokens u text d) ≡ first ∷ rest
  pub allowed : is_one_of first (allowed_first kind) ≡ true
  pub no_writes : All (λ w. is_one_of w (first ∷ rest) ≡ false) write_words

denied-nil : (table ws : List Str) → denied table ws ≡ [] → All (λ w. is_one_of w ws ≡ false) table
unfolding denied
denied-nil [] ws h = tt
denied-nil (w ∷ table) ws h = elim (Bool-cases (is_one_of w ws)) [
  | inl e ↦ absurd (cc (rw (e, denied) at h))
  | inr e ↦ (e, denied-nil table ws (rw (e, denied) at h))
]

admit-eq-ok : (t : Str) (ds : List Str) {text : Str} → admit t ds ≡ ok text → (t ≡ text) × (ds ≡ [])
unfolding admit
admit-eq-ok t [] h = (cc, refl)
admit-eq-ok t (d ∷ ds) h = absurd (cc)

-- What the keywords of an admitted query satisfy.
record Passed (kind : Connection) (ws : List Str) : Type 0 where
  first : Str
  rest : List Str
  keywords : ws ≡ first ∷ rest
  allowed : is_one_of first (allowed_first kind) ≡ true
  no_writes : All (λ w. is_one_of w (first ∷ rest) ≡ false) write_words

check_words-Passed :
    (kind : Connection) (t : Str) (ws : List Str) {text : Str}
    → check_words kind t ws ≡ ok text
    → (t ≡ text) × Passed kind ws
unfolding check_words
check_words-Passed kind t [] h = absurd (cc)
check_words-Passed kind t (w ∷ ws) h = elim (Bool-cases (is_one_of w (allowed_first kind))) [
  | inl e ↦
      let (same, none_denied) = admit-eq-ok t (denied write_words (w ∷ ws)) (rw e at h) in
      (
        same,
        record {
          first = w;
          rest = ws;
          keywords = refl;
          allowed = e;
          no_writes = denied-nil write_words (w ∷ ws) none_denied;
        },
      )
  | inr e ↦ absurd (cc (rw e at h))
]

module _ (u : CharTable) (laws : IsPython u) (sql : Str) (kind : Connection) (d : Dialect) where
  check_statements-IsReadOnly :
      (ss : List Statement) {text : Str}
      → NoBackslash sql
      → split_statements u sql other ≡ ss
      → InOrder sql 0 ss
      → check_statements u kind ss ≡ ok text
      → IsReadOnly u sql d kind text
  unfolding check_statements
  check_statements-IsReadOnly [] plain e o h = absurd (cc)
  check_statements-IsReadOnly (s ∷ []) {text} plain e (placed p r) h =
      let (same, passed) = check_words-Passed kind s.text (bare_words (tokens u s.text other)) h in
      let plain_text : NoBackslash s.text =
        subst NoBackslash p.verbatim
          (NoBackslash-slice sql s.start (s.start + length s.text) plain) in
      subst (IsReadOnly u sql d kind) same (record {
        start = s.start;
        stop = s.stop;
        single = (split_statements_plain u sql plain d other).0 ∙ e;
        first = passed.first;
        rest = passed.rest;
        keywords = ap bare_words (tokens_plain u s.text plain_text d other) ∙ passed.keywords;
        allowed = passed.allowed;
        no_writes = passed.no_writes;
      })
  check_statements-IsReadOnly (s ∷ t ∷ rest) plain e o h = absurd (cc)

-- An admitted query with no backslash is read-only in the dialect of its own connection too, though
-- the guard reads it with none: one statement, which begins with an allowed keyword, and no
-- keyword that writes outside its strings, comments and quoted names.
pub check_read_only-IsReadOnly :
    (u : CharTable) (laws : IsPython u) (sql : Str) (kind : Connection) (d : Dialect) (text : Str)
    → NoBackslash sql
    → check_read_only u sql kind ≡ ok text
    → IsReadOnly u sql d kind text
unfolding check_read_only
check_read_only-IsReadOnly u laws sql kind d text plain =
    check_statements-IsReadOnly u laws sql kind d (split_statements u sql other) plain refl
      (split_statements-InOrder u laws sql other).1
