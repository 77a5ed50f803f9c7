-- ===== src/SqlFormat/Writer.antt =====
-- `_Writer` of backend/sql_format.py. The loop takes the pieces from its index on; `self.stack` is
-- `frame`, its last block, and `below`.
use sqlide.Common.{
  ℕ, zero, suc, ◌*◌, Bool, true, false, not, ◌&&◌, ◌||◌, Option, none, some, List, [], ◌∷◌, ◌++◌,
  if◌then◌else◌, length, take,
}
use sqlide.Common.Text.{Str, codes, words, CharTable, str_eq, is_one_of, to_upper, to_lower}
use sqlide.SqlSplit.Lex.{Kind, word, quoted, punct, Piece}
use sqlide.SqlFormat.{
  KeywordCase, upper, lower, leave, FormatOptions, keywords, is_word_kind, is_comment, upper_words,
}

pub record Frame : Type 0 where
  pub indent : ℕ
  pub clause : Str
  pub plain : ℕ
  pub between : Bool

pub record Writer : Type 0 where
  pub lines : List Str
  pub line : Str
  pub indent : ℕ
  pub prev : Option Piece
  pub unary : Bool
  pub frame : Frame
  pub below : List Frame

abbrev pub is_blank : Str → Bool
is_blank [] = true
is_blank (c ∷ s) = false

abbrev pub spaces : ℕ → Str
spaces zero = []
spaces (suc n) = b' ' ∷ spaces n

-- `"\n".join(lines)`
unfoldable pub join_lines : List Str → Str
join_lines [] = []
join_lines (l ∷ []) = l
join_lines (l ∷ m ∷ rest) = l ++ b'\n' ∷ join_lines (m ∷ rest)

abbrev pub phrase_eq : List Str → List Str → Bool
phrase_eq [] [] = true
phrase_eq (a ∷ rest) (b ∷ more) = str_eq a b && phrase_eq rest more
phrase_eq _ _ = false

abbrev pub prev_text : Option Piece → Str
prev_text none = []
prev_text (some p) = p.text

-- `word` or `quoted`
abbrev is_named : Kind → Bool
is_named word = true
is_named quoted = true
is_named _ = false

abbrev is_punct_kind : Kind → Bool
is_punct_kind punct = true
is_punct_kind _ = false

abbrev pub with_text : Piece → Str → Piece
with_text p t = record {
  kind = p.kind;
  text = t;
  start = p.start;
  stop = p.stop;
  closed = p.closed;
  newline_before = p.newline_before;
}

abbrev pub set_clause : Str → Frame → Frame
set_clause c f = record { indent = f.indent; clause = c; plain = f.plain; between = f.between }

abbrev pub set_plain : ℕ → Frame → Frame
set_plain n f = record { indent = f.indent; clause = f.clause; plain = n; between = f.between }

abbrev pub set_between : Bool → Frame → Frame
set_between b f = record { indent = f.indent; clause = f.clause; plain = f.plain; between = b }

abbrev pub with_frame : (Frame → Frame) → Writer → Writer
with_frame g w = record {
  lines = w.lines;
  line = w.line;
  indent = w.indent;
  prev = w.prev;
  unary = w.unary;
  frame = g w.frame;
  below = w.below;
}

-- The first phrase that the pieces begin with.
unfoldable pub phrase_at : CharTable → List (List Str) → List Piece → Option (List Str)
unfolding str_eq upper_words
phrase_at u [] pieces = none
phrase_at u (phrase ∷ phrases) pieces =
    let rest = phrase_at u phrases pieces in
    if phrase_eq (upper_words u (take (length phrase) pieces)) phrase then some phrase else rest

-- The first piece that is no comment is SELECT or WITH.
unfoldable pub is_subquery : CharTable → List Piece → Bool
unfolding str_eq
is_subquery u [] = false
is_subquery u (p ∷ ps) =
    let rest = is_subquery u ps in
    if is_comment p.kind
    then rest
    else is_word_kind p.kind && is_one_of (to_upper u p.text) (words ("SELECT" ∷ "WITH" ∷ []))

module _ (u : CharTable) (o : FormatOptions) where
  -- `_flush`
  unfoldable pub flush : Writer → Writer
  flush w = record {
    lines =
        (if is_blank w.line
          then w.lines
          else w.lines ++ (spaces (w.indent * o.indent) ++ w.line) ∷ []);
    line = [];
    indent = w.indent;
    prev = none;
    unary = w.unary;
    frame = w.frame;
    below = w.below;
  }

  -- `_break`
  unfoldable pub break_line : ℕ → Writer → Writer
  unfolding flush
  break_line indent w =
      let f = flush w in
      record {
        lines = f.lines;
        line = f.line;
        indent = indent;
        prev = f.prev;
        unary = f.unary;
        frame = f.frame;
        below = f.below;
      }

  -- `_is_unary`, from `self.prev`
  unfoldable pub is_unary : Option Piece → Bool
  unfolding str_eq
  is_unary none = true
  is_unary (some before) =
      is_punct_kind before.kind && not (str_eq before.text (codes ")"))
      || is_word_kind before.kind && is_one_of (to_upper u before.text) keywords

  -- `_space_before`
  unfoldable pub space_before : Writer → Str → Bool
  unfolding str_eq
  space_before w text = elim w.prev [
    | none ↦ false
    | some before ↦
        if w.unary || is_one_of before.text (words ("(" ∷ "." ∷ "::" ∷ []))
        then false
        else if is_one_of text (words ("," ∷ ";" ∷ ")" ∷ "." ∷ "::" ∷ []))
        then false
        else if str_eq text (codes "(")
        then is_one_of w.frame.clause (words ("INSERT INTO" ∷ "VALUES" ∷ []))
          || not (is_named before.kind && not (is_one_of (to_upper u before.text) keywords))
        else true
  ]

  -- `_write`: the sign is looked at once it is `self.prev` itself.
  unfoldable pub write : Piece → Str → Writer → Writer
  unfolding space_before is_unary
  write p text w = record {
    lines = w.lines;
    line =
        w.line
        ++ ((if not (is_blank w.line) && space_before w text then b' ' ∷ [] else []) ++ text);
    indent = w.indent;
    prev = some (with_text p text);
    unary = is_one_of text (words ("-" ∷ "+" ∷ [])) && is_unary (some (with_text p text));
    frame = w.frame;
    below = w.below;
  }

  unfoldable pub respell : KeywordCase → Str → Str
  respell upper s = to_upper u s
  respell lower s = to_lower u s
  respell leave s = s

  -- `_spelling`
  unfoldable pub spelling : Writer → Piece → Str
  unfolding str_eq respell
  spelling w p =
      if not (is_word_kind p.kind)
      then p.text
      else if not (is_one_of (to_upper u p.text) keywords)
      then p.text
      else if str_eq (prev_text w.prev) (codes ".")
      then p.text
      else respell o.keyword_case p.text
