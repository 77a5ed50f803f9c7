-- ===== src/SqlFormat/Walk.antt =====
-- The walk of `_Writer` over the pieces, and `format_statement`, in backend/sql_format.py. Each step
-- gives the writer with the pieces that are left.
use sqlide.Common.{
  ℕ, zero, suc, ◌+◌, ◌-◌, true, false, not, ◌&&◌, ◌||◌, Option, none, some, List, [], ◌∷◌, ◌++◌,
  if◌then◌else◌, length, ◌==◌, ltb,
}
use sqlide.Common.Text.{
  Str, codes, words, CharTable, str_eq, is_one_of, to_upper, starts_with, strip,
}
use sqlide.SqlSplit.Lex.{Piece, lex}
use sqlide.SqlFormat.{
  FormatOptions, FormatResult, clauses, joins, list_clauses, boolean_clauses, is_word_kind,
  is_comment, is_mark, refuse,
}
use sqlide.SqlFormat.Writer.{
  Frame, Writer, is_blank, join_lines, set_clause, set_plain, set_between, with_frame, phrase_at,
  is_subquery, flush, break_line, write, spelling,
}

abbrev pub open_frame : ℕ → Frame
open_frame indent = record { indent = indent; clause = []; plain = 0; between = false }

abbrev pub push : Writer → Writer
push w = record {
  lines = w.lines;
  line = w.line;
  indent = w.indent;
  prev = w.prev;
  unary = w.unary;
  frame = open_frame (w.indent + 1);
  below = w.frame ∷ w.below;
}

abbrev pub pop : Writer → Frame → List Frame → Writer
pop w f fs = record {
  lines = w.lines;
  line = w.line;
  indent = w.indent;
  prev = w.prev;
  unary = w.unary;
  frame = f;
  below = fs;
}

-- `self.line = ","; self.prev = piece; self.unary = False`, on a new line
abbrev pub lead_comma : Piece → Writer → Writer
lead_comma p w = record {
  lines = w.lines;
  line = codes ",";
  indent = w.indent;
  prev = some p;
  unary = false;
  frame = w.frame;
  below = w.below;
}

-- `" ".join(phrase)`
unfoldable pub phrase_text : List Str → Str
phrase_text [] = []
phrase_text (a ∷ []) = a
phrase_text (a ∷ b ∷ rest) = a ++ b' ' ∷ phrase_text (b ∷ rest)

abbrev pub first_writer : Writer
first_writer = record {
  lines = [];
  line = [];
  indent = 0;
  prev = none;
  unary = false;
  frame = open_frame 0;
  below = [];
}

module _ (u : CharTable) (o : FormatOptions) where
  unfoldable pub write_spelled : Piece → Writer → Writer
  unfolding write spelling
  write_spelled p w = write u o p (spelling u o w p) w

  -- `_comment`
  unfoldable pub write_comment : Piece → Writer → Writer
  unfolding write break_line starts_with
  write_comment p w =
      let started = if p.newline_before || is_blank w.line then break_line u o w.indent w else w in
      let written = write u o p p.text started in
      if starts_with (codes "--") p.text then break_line u o written.indent written else written

  -- `_emit_phrase`, for the words that are still to come
  unfoldable pub emit_phrase : ℕ → Writer → List Piece → Writer × List Piece
  unfolding write_comment write_spelled
  emit_phrase zero w ps = (w, ps)
  emit_phrase (suc n) w [] = (w, [])
  emit_phrase (suc n) w (p ∷ ps) =
      if is_comment p.kind
      then emit_phrase (suc n) (write_comment p w) ps
      else emit_phrase n (write_spelled p w) ps

  -- `_comma`
  unfoldable pub write_comma : Piece → Writer → Writer
  unfolding write break_line
  write_comma p w =
      if o.comma_leading
      then lead_comma p (break_line u o (w.frame.indent + 1) w)
      else (let written = write u o p (codes ",") w in
          break_line u o (written.frame.indent + 1) written)

  -- `_open_paren`
  unfoldable pub open_paren : Piece → List Piece → Writer → Writer
  unfolding write break_line is_subquery
  open_paren p ps w =
      let written = write u o p (codes "(") w in
      if is_subquery u ps
      then break_line u o (written.indent + 1) (push written)
      else with_frame (λ f. set_plain (f.plain + 1) f) written

  unfoldable pub close_block : Piece → Writer → List Frame → Writer
  unfolding write break_line
  close_block p w [] = write u o p (codes ")") w
  close_block p w (f ∷ fs) =
      write u o p (codes ")") (break_line u o (w.frame.indent - 1) (pop w f fs))

  -- `_close_paren`
  unfoldable pub close_paren : Piece → Writer → Writer
  unfolding close_block
  close_paren p w =
      if ltb 0 w.frame.plain
      then write u o p (codes ")") (with_frame (λ f. set_plain (f.plain - 1) f) w)
      else close_block p w w.below

  -- A clause head of `_maybe_clause`, or the word itself.
  unfoldable pub clause_at : Option (List Str) → Piece → List Piece → Writer → Writer × List Piece
  unfolding phrase_text emit_phrase break_line write_spelled
  clause_at none p ps w = (write_spelled p w, ps)
  clause_at (some phrase) p ps w =
      emit_phrase (length phrase)
        (break_line u o w.frame.indent (with_frame (set_clause (phrase_text phrase)) w)) (p ∷ ps)

  unfoldable pub note_between : Str → Writer → Writer
  unfolding str_eq
  note_between name w = if str_eq name (codes "BETWEEN") then with_frame (set_between true) w else w

  -- `_maybe_clause` behind its joins
  unfoldable pub word_step : Str → Piece → List Piece → Writer → Writer × List Piece
  unfolding clause_at write_spelled break_line str_eq phrase_at
  word_step name p ps w =
      if str_eq name (codes "AND") && w.frame.between
      then (write_spelled p (with_frame (set_between false) w), ps)
      else if is_one_of name (words ("AND" ∷ "OR" ∷ [])) && is_one_of w.frame.clause boolean_clauses
      then (
        write_spelled p (
            break_line u o (w.frame.indent + (if str_eq w.frame.clause (codes "ON") then 3 else 1))
              w),
        ps,
      )
      else clause_at (phrase_at u clauses (p ∷ ps)) p ps w

  unfoldable pub join_step : Option (List Str) → Piece → List Piece → Writer → Writer × List Piece
  unfolding word_step emit_phrase break_line write_spelled str_eq note_between
  join_step (some phrase) p ps w =
      emit_phrase (length phrase)
        (break_line u o (w.frame.indent + 1) (with_frame (set_clause (codes "JOIN")) w)) (p ∷ ps)
  join_step none p ps w =
      let name = to_upper u p.text in
      if str_eq name (codes "ON") && str_eq w.frame.clause (codes "JOIN")
      then (
        write_spelled p
            (break_line u o (w.frame.indent + 2) (with_frame (set_clause (codes "ON")) w)),
        ps,
      )
      else word_step name p ps (note_between name w)

  -- `_step`
  unfoldable pub step : Piece → List Piece → Writer → Writer × List Piece
  unfolding write_comment open_paren close_paren write_comma join_step phrase_at write_spelled
      is_mark
  step p ps w =
      if is_comment p.kind
      then (write_comment p w, ps)
      else if is_mark (codes "(") p
      then (open_paren p ps w, ps)
      else if is_mark (codes ")") p
      then (close_paren p w, ps)
      else if is_mark (codes ",") p
          && ((w.frame.plain == 0) && is_one_of w.frame.clause list_clauses)
      then (write_comma p w, ps)
      else if is_word_kind p.kind && (w.frame.plain == 0)
      then join_step (phrase_at u joins (p ∷ ps)) p ps w
      else (write_spelled p w, ps)

  -- The loop of `run`, on fuel.
  unfoldable pub run_from : ℕ → Writer → List Piece → Writer
  unfolding step
  run_from zero w ps = w
  run_from (suc fuel) w [] = w
  run_from (suc fuel) w (p ∷ ps) = let (next, rest) = step p ps w in run_from fuel next rest

  -- `run`
  unfoldable pub run : List Piece → Str
  unfolding run_from flush join_lines
  run pieces = join_lines (flush u o (run_from (length pieces) first_writer pieces)).lines

  -- `format_statement`
  unfoldable pub format_statement : Str → FormatResult
  unfolding run refuse lex str_eq
  format_statement sql =
      let text = strip u sql in
      let reason = refuse u (lex u text o.dialect) in
      let formatted = run (lex u text o.dialect) in
      if is_blank text
      then record { text = sql; changed = false; reason = [] }
      else if is_blank reason
      then record { text = formatted; changed = not (str_eq formatted sql); reason = [] }
      else record { text = sql; changed = false; reason = reason }
