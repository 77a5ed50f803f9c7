-- ===== src/SqlSplit/Statements.antt =====
-- `split_statements` and `statement_at` of backend/sql_split.py.
pub mod Strips
pub mod Placed
pub mod Cursor
use mathlib.Core.Option
use mathlib.Core.List.{get_last?}
use sqlide.Common.{
  ℕ, zero, suc, ◌+◌, ◌-◌, String, Bool, true, false, not, ◌&&◌, ◌||◌, Option, none, some, List, [],
  ◌∷◌, ◌++◌, ◌==◌, leb, if◌then◌else◌, first_case, length, get_elem?, drop,
}
use sqlide.Common.Text.{
  Str, codes, words, CharTable, str_eq, is_one_of, slice, find, starts_with, to_upper, strip,
  lstrip, remove_suffix,
}
use sqlide.SqlSplit.Scan.{Dialect, is_word, word_end, quoted_end, dollar_delimiter, peek_word}

pub record Statement : Type 0 where
  pub text : Str
  pub start : ℕ
  pub stop : ℕ

-- The variables of the loop, but for `i` and the statements.
pub record Segment : Type 0 where
  pub seg_start : ℕ
  pub has_content : Bool
  pub first_word : Str
  pub routine : Bool
  pub depth : ℕ
  pub terminator : Str

-- What one round does: the statements that it appends, and the variables behind it.
pub record Step : Type 0 where
  pub out : List Statement
  pub seg : Segment
  pub next : ℕ

abbrev pub semicolon : Str
semicolon = codes ";"

abbrev pub initial : Segment
initial = record {
  seg_start = 0;
  has_content = false;
  first_word = [];
  routine = false;
  depth = 0;
  terminator = semicolon;
}

abbrev quiet : Segment → ℕ → Step
quiet seg next = record { out = []; seg = seg; next = next }

-- `has_content = True`, and the scan goes on at `next`.
abbrev content : Segment → ℕ → Step
content seg next = quiet (record seg { has_content = true }) next

-- `n if e == -1 else e + wide`
abbrev end_or : Str → Option ℕ → ℕ → ℕ
end_or sql none wide = length sql
end_or sql (some e) wide = e + wide

abbrev or_semicolon : Str → Str
or_semicolon [] = semicolon
or_semicolon (c ∷ s) = c ∷ s

-- `if not first_word: first_word = word`
abbrev pub first_or : Str → Str → Str
first_or [] word = word
first_or (c ∷ s) word = c ∷ s

module _ (u : CharTable) (sql : Str) where
  -- The statement that `close_segment` appends, if the segment has content.
  unfoldable pub close_segment : Segment → ℕ → List Statement
  close_segment seg stop =
      let raw = slice sql seg.seg_start stop in
      if seg.has_content
      then record {
        text = strip u (remove_suffix seg.terminator (strip u raw));
        start = seg.seg_start + (length raw - length (lstrip u raw));
        stop = stop;
      }
        ∷ []
      else []

  -- The variables that `close_segment` resets.
  abbrev pub reopened : Segment → ℕ → Segment
  reopened seg stop = record seg {
    seg_start = stop;
    has_content = false;
    first_word = [];
    routine = false;
    depth = 0;
  }

  unfoldable pub terminator_step : Segment → ℕ → Step
  terminator_step seg i =
      let stop = i + length seg.terminator in
      if seg.depth == 0
      then record { out = close_segment seg stop; seg = reopened seg stop; next = stop }
      else quiet seg stop

  -- A DELIMITER line, whose word ends at `j`.
  unfoldable pub delimiter_step : Segment → ℕ → Step
  delimiter_step seg j =
      let eol = end_or sql (find sql (codes "\n") j) 0 in
      let next = if leb (eol + 1) (length sql) then eol + 1 else length sql in
      quiet (record seg { seg_start = next; terminator = or_semicolon (strip u (slice sql j eol)) })
        next

  -- The keyword `END` inside a routine, ending at `j`.
  unfoldable pub end_step : Segment → ℕ → Step
  end_step seg j =
      let (nxt, k) = peek_word u sql j in
      if is_one_of nxt (words ("IF" ∷ "LOOP" ∷ "WHILE" ∷ "REPEAT" ∷ []))
      then quiet seg k
      else quiet (record seg { depth = seg.depth - 1 }) (if str_eq nxt (codes "CASE") then k else j)

  -- A word that is none of DELIMITER's, ending at `j`, in a segment that begins with `first_word`.
  unfoldable pub keyword_step : Segment → Str → ℕ → Step
  keyword_step seg word j =
      first_case
        ((not (str_eq seg.first_word (codes "CREATE")), quiet seg j)
          ∷ (
            is_one_of word (words ("TRIGGER" ∷ "FUNCTION" ∷ "PROCEDURE" ∷ [])),
            quiet (record seg { routine = true }) j,
          )
          ∷ (
            seg.routine && is_one_of word (words ("BEGIN" ∷ "CASE" ∷ [])),
            quiet (record seg { depth = seg.depth + 1 }) j,
          )
          ∷ (seg.routine && str_eq word (codes "END"), end_step seg j)
          ∷ [])
        (quiet seg j)

  unfoldable pub word_step : Segment → ℕ → Step
  word_step seg i =
      let j = word_end u sql i in
      let word = to_upper u (slice sql i j) in
      if str_eq word (codes "DELIMITER") && not seg.has_content
      then delimiter_step seg j
      else keyword_step
          (record seg { has_content = true; first_word = first_or seg.first_word word }) word j

  -- The branches from `elif ch.isalpha()` on.
  unfoldable pub plain_step : Segment → ℕ → ℕ → Step
  plain_step seg i ch =
      if u.is_alpha ch || ch == b'_'
      then word_step seg i
      else quiet (record seg { has_content = not (u.is_space ch) || seg.has_content }) (suc i)

  abbrev dollar_step : Segment → ℕ → ℕ → Option Str → Step
  dollar_step seg i ch (some delim) =
      content seg (end_or sql (find sql delim (i + length delim)) (length delim))
  dollar_step seg i ch none = plain_step seg i ch

  -- One round of the loop, at the character `ch = sql[i]`.
  unfoldable pub step : Dialect → Segment → ℕ → ℕ → Step
  step dialect seg i ch =
      first_case
        ((starts_with (codes "--") (drop i sql), quiet seg (end_or sql (find sql (codes "\n") i) 1))
          ∷ (
            starts_with (codes "/*") (drop i sql),
            quiet seg (end_or sql (find sql (codes "*/") (i + 2)) 2),
          )
          ∷ (starts_with seg.terminator (drop i sql), terminator_step seg i)
          ∷ (
            ch == b'\'' || ch == b'"' || ch == b'`',
            content seg (quoted_end u ch sql i dialect + 1),
          )
          ∷ [])
        (dollar_step seg i ch (if ch == b'$' then dollar_delimiter u sql i else none))

  -- The loop on fuel: `i` grows in every round. `none` means that the fuel ran out.
  unfoldable pub split_from : ℕ → Dialect → Segment → ℕ → Option (List Statement)
  split_from zero dialect seg i = none
  split_from (suc fuel) dialect seg i = elim (get_elem? sql i) [
    | none ↦ some (close_segment seg (length sql))
    | some ch ↦
        let s = step dialect seg i ch in
        Option.map (◌++◌ s.out) (split_from fuel dialect s.seg s.next)
  ]

unfoldable pub split_statements : CharTable → Str → Dialect → List Statement
split_statements u sql dialect =
    Option.get_or (split_from u sql (suc (length sql)) dialect initial 0) []

unfoldable pub statement_at_or : List Statement → ℕ → Option Statement → Option Statement
statement_at_or [] offset last = last
statement_at_or (s ∷ rest) offset last =
    let later = statement_at_or rest offset (some s) in if leb offset s.stop then some s else later

-- The last statement that the loop has passed is `statements[-1]`.
unfoldable pub statement_at : List Statement → ℕ → Option Statement
unfolding statement_at_or
statement_at statements offset = statement_at_or statements offset none
