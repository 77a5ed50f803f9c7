-- ===== src/SqlFormat/Layout/Whole.antt =====
-- The loop of `run` in backend/sql_format.py ends, and then all pieces are written.
use mathlib.Core.Path.{subst}
use native.Mathlib.Omega.{arith}
use sqlide.Common.{
  ℕ, zero, suc, ◌≤◌, true, false, ◌&&◌, List, [], ◌∷◌, ◌≡◌, refl, inl, inr, Bool-cases, ◌==◌,
  Option, none, some, ◌⊎◌, length, All, take, all, leb, &&-split,
}
use sqlide.Common.Text.{Str, codes, words, CharTable, str_eq, is_one_of, to_upper, strip}
use sqlide.SqlSplit.Lex.{Piece, lex}
use sqlide.SqlFormat.{
  FormatOptions, FormatResult, is_word_kind, is_comment, is_mark, joins, clauses, list_clauses,
  boolean_clauses, refuse, upper_words,
}
use sqlide.SqlFormat.Writer.{Writer, phrase_at, phrase_eq, flush, is_blank, join_lines}
use sqlide.SqlFormat.Walk.{
  write_spelled, write_comment, emit_phrase, clause_at, note_between, word_step, join_step, step,
  run_from, run, first_writer, format_statement,
}
use sqlide.SqlFormat.Gaps.{End}
use sqlide.SqlFormat.Layout.{text_of, Lays, stop}
use sqlide.SqlFormat.Layout.Pieces.{Wrote, trans}
use sqlide.SqlFormat.Layout.Steps.{step-Wrote}

-- Each phrase has a word.
abbrev HasWord : List Str → Type 0
HasWord phrase = 1 ≤ length phrase

phrase_at-HasWord :
    (u : CharTable) (phrases : List (List Str)) (pieces : List Piece) {phrase : List Str}
    → All HasWord phrases
    → phrase_at u phrases pieces ≡ some phrase
    → HasWord phrase
unfolding phrase_at
phrase_at-HasWord u [] pieces h e = absurd (cc)
phrase_at-HasWord u (q ∷ qs) pieces {phrase} h e =
    elim (Bool-cases (phrase_eq (upper_words u (take (length q) pieces)) q)) [
      | inl f ↦
          let k : some q ≡ some phrase = rw f at e in let l : q ≡ phrase = cc in subst HasWord l h.0
      | inr f ↦ phrase_at-HasWord u qs pieces h.1 (rw f at e)
    ]

leb-le : (a b : ℕ) → leb a b ≡ true → a ≤ b
leb-le a b h = ground arith

All-HasWord :
    (phrases : List (List Str)) → all (λ q. leb 1 (length q)) phrases ≡ true → All HasWord phrases
All-HasWord [] h = tt
All-HasWord (q ∷ qs) h =
    let (first, rest) = &&-split (leb 1 (length q)) (all (λ r. leb 1 (length r)) qs) h in
    (leb-le 1 (length q) first, All-HasWord qs rest)

-- What no text ends with.
abbrev nothing : End
nothing = ([], false)

module _ (u : CharTable) (o : FormatOptions) where
  emit_phrase-length :
      (n : ℕ) (w : Writer) (ps : List Piece) → length (emit_phrase u o n w ps).1 ≤ length ps
  unfolding emit_phrase
  emit_phrase-length zero w ps = omega arith
  emit_phrase-length (suc n) w [] = omega arith
  emit_phrase-length (suc n) w (p ∷ ps) = elim (Bool-cases (is_comment p.kind)) [
    | inl e ↦ rw e (omega (arith, emit_phrase-length (suc n) (write_comment u o p w) ps))
    | inr e ↦ rw e (omega (arith, emit_phrase-length n (write_spelled u o p w) ps))
  ]

  -- A phrase that has a word takes a piece.
  emit_phrase-shorter :
      (phrase : List Str) (w : Writer) (p : Piece) (ps : List Piece)
      → HasWord phrase
      → length (emit_phrase u o (length phrase) w (p ∷ ps)).1 ≤ length ps
  unfolding emit_phrase
  emit_phrase-shorter [] w p ps h = absurd (omega arith)
  emit_phrase-shorter (a ∷ phrase) w p ps h = elim (Bool-cases (is_comment p.kind)) [
    | inl e ↦ rw e (emit_phrase-length (suc (length phrase)) (write_comment u o p w) ps)
    | inr e ↦ rw e (emit_phrase-length (length phrase) (write_spelled u o p w) ps)
  ]

  clause_at-shorter :
      (c : Option (List Str)) (p : Piece) (ps : List Piece) (w : Writer)
      → ((phrase : List Str) → c ≡ some phrase → HasWord phrase)
      → length (clause_at u o c p ps w).1 ≤ length ps
  unfolding clause_at
  clause_at-shorter none p ps w h = omega arith
  clause_at-shorter (some phrase) p ps w h = emit_phrase-shorter phrase _ p ps (h phrase refl)

  word_step-shorter :
      (name : Str) (p : Piece) (ps : List Piece) (w : Writer)
      → length (word_step u o name p ps w).1 ≤ length ps
  unfolding word_step
  word_step-shorter name p ps w = elim (Bool-cases (str_eq name (codes "AND") && w.frame.between)) [
    | inl e ↦ rw e (omega arith)
    | inr e ↦
        elim (Bool-cases (
          is_one_of name (words ("AND" ∷ "OR" ∷ [])) && is_one_of w.frame.clause boolean_clauses)) [
            | inl f ↦ rw (e, f) (omega arith)
            | inr f ↦
                rw (e, f)
                  (clause_at-shorter (phrase_at u clauses (p ∷ ps)) p ps w
                    (λ phrase. phrase_at-HasWord u clauses (p ∷ ps) (All-HasWord clauses refl)))
          ]
  ]

  join_step-shorter :
      (j : Option (List Str)) (p : Piece) (ps : List Piece) (w : Writer)
      → ((phrase : List Str) → j ≡ some phrase → HasWord phrase)
      → length (join_step u o j p ps w).1 ≤ length ps
  unfolding join_step
  join_step-shorter (some phrase) p ps w h = emit_phrase-shorter phrase _ p ps (h phrase refl)
  join_step-shorter none p ps w h =
      let name = to_upper u p.text in
      elim (Bool-cases (str_eq name (codes "ON") && str_eq w.frame.clause (codes "JOIN"))) [
        | inl e ↦ rw e (omega arith)
        | inr e ↦ rw e (word_step-shorter name p ps (note_between u o name w))
      ]

  step-shorter : (p : Piece) (ps : List Piece) (w : Writer) → length (step u o p ps w).1 ≤ length ps
  unfolding step
  step-shorter p ps w =
      let in_list =
        is_mark (codes ",") p && ((w.frame.plain == 0) && is_one_of w.frame.clause list_clauses) in
      elim (Bool-cases (is_comment p.kind)) [
        | inl e ↦ rw e (omega arith)
        | inr e0 ↦ elim (Bool-cases (is_mark (codes "(") p)) [
          | inl e ↦ rw (e0, e) (omega arith)
          | inr e1 ↦ elim (Bool-cases (is_mark (codes ")") p)) [
            | inl e ↦ rw (e0, e1, e) (omega arith)
            | inr e2 ↦ elim (Bool-cases in_list) [
              | inl e ↦ rw (e0, e1, e2, e) (omega arith)
              | inr e3 ↦ elim (Bool-cases (is_word_kind p.kind && (w.frame.plain == 0))) [
                | inl e ↦
                    rw (e0, e1, e2, e3, e)
                      (join_step-shorter (phrase_at u joins (p ∷ ps)) p ps w
                        (λ phrase. phrase_at-HasWord u joins (p ∷ ps) (All-HasWord joins refl)))
                | inr e ↦ rw (e0, e1, e2, e3, e) (omega arith)
              ]
            ]
          ]
        ]
      ]

  run_from-Lays :
      (fuel : ℕ) (w : Writer) (ps : List Piece)
      → length ps ≤ fuel
      → Wrote u o ps w (run_from u o fuel w ps, [])
  unfolding run_from
  run_from-Lays zero w [] h = λ last i. (last, stop, i)
  run_from-Lays zero w (p ∷ ps) h = absurd (omega arith)
  run_from-Lays (suc fuel) w [] h = λ last i. (last, stop, i)
  run_from-Lays (suc fuel) w (p ∷ ps) h =
      let r = step u o p ps w in
      trans u o (p ∷ ps) w r (run_from u o fuel r.0 r.1, []) (step-Wrote u o p ps w)
        (run_from-Lays fuel r.0 r.1 (omega (arith, step-shorter p ps w)))

  -- The text that the formatter makes of some pieces is those pieces in their order and each once,
  -- with gaps between them.
  run-Lays :
      (pieces : List Piece) → (last : End) × Lays u o pieces [] nothing [] (run u o pieces) last
  unfolding run text_of flush join_lines
  run-Lays pieces =
      let (last, lays, i) =
        run_from-Lays (length pieces) first_writer pieces (omega arith) nothing (inl refl) in
      (last, lays)

  -- A result that leaves the statement as it is, or that sets its pieces.
  abbrev pub IsFormatOf : Str → FormatResult → Type 0
  IsFormatOf sql r =
      ((r.text ≡ sql) × (r.changed ≡ false))
      ⊎ ((r.reason ≡ [])
          × ((last : End) × Lays u o (lex u (strip u sql) o.dialect) [] nothing [] r.text last))

  -- The formatter gives back the statement that it was given, and says that nothing changed, or it
  -- gives the pieces of the statement, in their order and each once, character for character as they
  -- stand or, for a keyword, in the case that is set, and between them nothing but blanks and line
  -- ends: at least one between two pieces, unless one is empty, the first is a sign, an opening
  -- parenthesis, a dot or a double colon, or the second a comma, a semicolon, a parenthesis, a dot or
  -- a double colon. Behind a comment that goes up to the end of its line comes a line end,
  -- unless the next piece is empty.
  pub format_statement-IsFormatOf : (sql : Str) → IsFormatOf sql (format_statement u o sql)
  unfolding format_statement
  format_statement-IsFormatOf sql = elim (Bool-cases (is_blank (strip u sql))) [
    | inl e ↦ rw e (inl (refl, refl))
    | inr e ↦ elim (Bool-cases (is_blank (refuse u (lex u (strip u sql) o.dialect)))) [
      | inl f ↦ rw (e, f) (inr (refl, run-Lays (lex u (strip u sql) o.dialect)))
      | inr f ↦ rw (e, f) (inl (refl, refl))
    ]
  ]
