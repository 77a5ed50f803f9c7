-- ===== src/SqlSplit/Lex.antt =====
-- `lex` and `tokens` of backend/sql_split.py.
pub mod Cuts
pub mod Covers
use mathlib.Core.Option
use mathlib.Core.List.{filter_map}
use sqlide.Common.{
  ℕ, zero, suc, ◌+◌, ◌-◌, ◌≤◌, ◌<◌, String, Bool, true, false, not, ◌&&◌, ◌||◌, Option, none, some,
  List, [], ◌∷◌, ◌≡◌, refl, inl, inr, arith, ◌==◌, if◌then◌else◌, ltb, first_case, length,
  get_elem?, drop, any, map,
}
use sqlide.Common.Text.{
  Str, codes, words, CharTable, str_eq, slice, run_length, find, starts_with, to_upper, strip_by,
}
use sqlide.SqlSplit.Scan.{Dialect, test_at, is_e, is_word, word_end, quoted_end, dollar_delimiter}

pub data Kind : Type 0 where
  word quoted string dollar comment number param punct : Kind

pub record Piece : Type 0 where
  pub kind : Kind
  pub text : Str
  pub start : ℕ
  pub stop : ℕ
  pub closed : Bool
  pub newline_before : Bool

abbrev pub operators : List Str
operators = words (
    "->>" ∷ "#>>" ∷ "<<=" ∷ ">>=" ∷ "->" ∷ "#>" ∷ "<=" ∷ ">=" ∷ "<>" ∷ "!=" ∷ "||" ∷ "::" ∷ ":="
    ∷ "<<" ∷ ">>" ∷ [])

-- The arguments of one call of `add`, but for the text, and where the scan goes on.
pub record Cut : Type 0 where
  pub kind : Kind
  pub stop : ℕ
  pub closed : Bool
  pub next : ℕ

abbrev cut : Kind → ℕ → Cut
cut kind stop = record { kind = kind; stop = stop; closed = true; next = stop }

-- `next((len(op) for op in _OPERATORS if sql.startswith(op, i)), 1)`
unfoldable pub operator_width : List Str → Str → ℕ
unfolding starts_with
operator_width [] s = 1
operator_width (op ∷ ops) s =
    let rest = operator_width ops s in if starts_with op s then length op else rest

-- A search from `i` on for what closes a piece, and its width; `wide` is added to the end found.
abbrev until : Kind → Str → Option ℕ → ℕ → Cut
until kind sql none wide = record {
  kind = kind;
  stop = length sql;
  closed = false;
  next = length sql;
}
until kind sql (some e) wide = record {
  kind = kind;
  stop = e + wide;
  closed = true;
  next = e + wide;
}

abbrev line_comment : Str → ℕ → Cut
line_comment sql i = cut comment (elim (find sql (codes "\n") i) [ none ↦ length sql | some e ↦ e ])

-- `min(end + 1, n)` and `end < n`, for the end of a quoted run.
abbrev run_cut : Kind → Str → ℕ → Cut
run_cut kind sql e = record {
  kind = kind;
  stop = (if ltb e (length sql) then e + 1 else length sql);
  closed = ltb e (length sql);
  next = e + 1;
}

module _ (u : CharTable) where
  -- The `while` loop of a number; the first argument is `sql[j - 1]`.
  unfoldable pub number_run : ℕ → Str → ℕ
  number_run prev [] = 0
  number_run prev (c ∷ s) =
      let rest = suc (number_run c s) in
      if u.is_alnum c || c == b'.' || ((c == b'+' || c == b'-') && is_e prev) then rest else 0

  -- The branches behind the dollar quotes, at the character `ch = sql[i]`.
  unfoldable pub plain_cut : Str → ℕ → ℕ → Cut
  unfolding operator_width number_run
  plain_cut sql i ch =
      first_case
        ((
          ch == b'$' && test_at u.is_digit sql (suc i),
          cut param (suc i + run_length u.is_digit (drop (suc i) sql)),
        )
          ∷ (
            ch == b'?' || ((ch == b':' || ch == b'@') && test_at (is_word u) sql (suc i)),
            cut param (word_end u sql (suc i)),
          )
          ∷ (
            u.is_digit ch || (ch == b'.' && test_at u.is_digit sql (suc i)),
            cut number (i + number_run 0 (drop i sql)),
          )
          ∷ (u.is_alpha ch || ch == b'_', cut word (word_end u sql i))
          ∷ [])
        (cut punct (i + operator_width operators (drop i sql)))

  -- A dollar quote, if a delimiter opens one at `i`.
  abbrev dollar_cut : Str → ℕ → ℕ → Option Str → Cut
  dollar_cut sql i ch (some delim) =
      until dollar sql (find sql delim (i + length delim)) (length delim)
  dollar_cut sql i ch none = plain_cut sql i ch

  -- The branches behind the whitespace and comment branches.
  unfoldable pub code_cut : Str → Dialect → ℕ → ℕ → Cut
  unfolding plain_cut
  code_cut sql dialect i ch =
      first_case
        ((ch == b'\'', run_cut string sql (quoted_end u b'\'' sql i dialect))
          ∷ (
            is_e ch && test_at (◌==◌ b'\'') sql (suc i),
            run_cut string sql (quoted_end u b'\'' sql (suc i) dialect),
          )
          ∷ (ch == b'"' || ch == b'`', run_cut quoted sql (quoted_end u ch sql i dialect))
          ∷ [])
        (dollar_cut sql i ch (if ch == b'$' then dollar_delimiter u sql i else none))

  unfoldable pub next_cut : Str → Dialect → ℕ → ℕ → Cut
  unfolding code_cut
  next_cut sql dialect i ch =
      first_case
        ((starts_with (codes "--") (drop i sql), line_comment sql i)
          ∷ (
            starts_with (codes "/*") (drop i sql),
            until comment sql (find sql (codes "*/") (i + 2)) 2,
          )
          ∷ [])
        (code_cut sql dialect i ch)

  -- The loop on fuel: `i` grows in every round.
  unfoldable pub lex_from : ℕ → Str → Dialect → ℕ → Bool → List Piece
  lex_from zero sql dialect i newline = []
  lex_from (suc fuel) sql dialect i newline = elim (get_elem? sql i) [
    | none ↦ []
    | some ch ↦
        let skip = lex_from fuel sql dialect (suc i) (newline || ch == b'\n') in
        let c = next_cut sql dialect i ch in
        let more = lex_from fuel sql dialect c.next false in
        if u.is_space ch
        then skip
        else record {
          kind = c.kind;
          text = slice sql i c.stop;
          start = i;
          stop = c.stop;
          closed = c.closed;
          newline_before = newline;
        }
          ∷ more
  ]

  unfoldable pub lex : Str → Dialect → List Piece
  lex sql dialect = lex_from (length sql) sql dialect 0 false

pub record Token : Type 0 where
  pub text : Str
  pub word : Str
  pub quoted : Bool

-- `piece.text.strip('"`')`
abbrev pub bare_name : Str → Str
bare_name = strip_by (λ c. c == b'"' || c == b'`')

unfoldable pub token_of : CharTable → Piece → Option Token
token_of u p = elim p.kind [
  | word ↦ some (record { text = p.text; word = to_upper u p.text; quoted = false })
  | quoted ↦ some (record { text = bare_name p.text; word = []; quoted = true })
  | _ ↦ none
]

unfoldable pub tokens : CharTable → Str → Dialect → List Token
unfolding token_of
tokens u sql dialect = filter_map (token_of u) (lex u sql dialect)
