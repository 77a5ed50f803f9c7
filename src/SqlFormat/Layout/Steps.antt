-- ===== src/SqlFormat/Layout/Steps.antt =====
-- Each step of the walk in backend/sql_format.py writes the pieces that it takes, each once, behind a gap.
use sqlide.Common.{
  ℕ, zero, suc, ◌+◌, true, false, ◌&&◌, List, [], ◌∷◌, ◌≡◌, refl, sym, inl, inr, Bool-cases,
  if◌then◌else◌, ◌==◌, Option, none, some, length, &&-split,
}
use sqlide.Common.Text.{Str, codes, words, CharTable, str_eq, is_one_of, to_upper}
use sqlide.SqlSplit.Lex.{Piece}
use sqlide.SqlFormat.{
  FormatOptions, is_word_kind, is_comment, is_mark, joins, clauses, list_clauses, boolean_clauses,
}
use sqlide.SqlFormat.Writer.{
  Frame, Writer, flush, break_line, with_frame, set_clause, set_between, phrase_at,
}
use sqlide.SqlFormat.Walk.{
  write_spelled, write_comment, write_comma, emit_phrase, open_paren, close_paren, clause_at,
  note_between, word_step, join_step, step, phrase_text,
}
use sqlide.SqlFormat.Layout.{text_of, Writes, Like, break_line-Like, stop}
use sqlide.SqlFormat.Layout.Pieces.{
  is_mark-text, Wrote, one, plain, trans, behind, write_spelled-Wrote, broken_spelled-Wrote,
  write_comment-Wrote, write_comma-Writes, open_paren-Writes, close_paren-Writes,
}

module _ (u : CharTable) (o : FormatOptions) where
  emit_phrase-Wrote :
      (n : ℕ) (w : Writer) (ps : List Piece) → Wrote u o ps w (emit_phrase u o n w ps)
  unfolding emit_phrase
  emit_phrase-Wrote zero w ps = λ last i. (last, stop, i)
  emit_phrase-Wrote (suc n) w [] = λ last i. (last, stop, i)
  emit_phrase-Wrote (suc n) w (p ∷ ps) = elim (Bool-cases (is_comment p.kind)) [
    | inl e ↦ rw e (
        trans u o (p ∷ ps) w (write_comment u o p w, ps)
          (emit_phrase u o (suc n) (write_comment u o p w) ps) (write_comment-Wrote u o p ps w e)
          (emit_phrase-Wrote (suc n) (write_comment u o p w) ps))
    | inr e ↦ rw e (
        trans u o (p ∷ ps) w (write_spelled u o p w, ps)
          (emit_phrase u o n (write_spelled u o p w) ps) (write_spelled-Wrote u o p ps w e)
          (emit_phrase-Wrote n (write_spelled u o p w) ps))
  ]

  -- A clause head on a line of its own.
  broken_phrase-Wrote :
      (n m : ℕ) (g : Frame → Frame) (ps : List Piece) (w : Writer)
      → Wrote u o ps w (emit_phrase u o n (break_line u o m (with_frame g w)) ps)
  unfolding text_of flush
  broken_phrase-Wrote n m g ps w =
      let v = break_line u o m (with_frame g w) in
      behind u o ps w v (emit_phrase u o n v ps) (break_line-Like u o m (with_frame g w))
        (emit_phrase-Wrote n v ps)

  clause_at-Wrote :
      (c : Option (List Str)) (p : Piece) (ps : List Piece) (w : Writer)
      → is_comment p.kind ≡ false
      → Wrote u o (p ∷ ps) w (clause_at u o c p ps w)
  unfolding clause_at
  clause_at-Wrote none p ps w x = write_spelled-Wrote u o p ps w x
  clause_at-Wrote (some phrase) p ps w x =
      broken_phrase-Wrote (length phrase) w.frame.indent (set_clause (phrase_text phrase)) (p ∷ ps)
        w

  word_step-Wrote :
      (name : Str) (p : Piece) (ps : List Piece) (w : Writer)
      → is_comment p.kind ≡ false
      → Wrote u o (p ∷ ps) w (word_step u o name p ps w)
  unfolding word_step text_of flush
  word_step-Wrote name p ps w x = elim (Bool-cases (str_eq name (codes "AND") && w.frame.between)) [
    | inl e ↦ rw e (write_spelled-Wrote u o p ps (with_frame (set_between false) w) x)
    | inr e ↦
        elim (Bool-cases (
          is_one_of name (words ("AND" ∷ "OR" ∷ [])) && is_one_of w.frame.clause boolean_clauses)) [
            | inl f ↦
                rw (e, f)
                  (broken_spelled-Wrote u o p ps
                    (w.frame.indent + (if str_eq w.frame.clause (codes "ON") then 3 else 1)) w x)
            | inr f ↦ rw (e, f) (clause_at-Wrote (phrase_at u clauses (p ∷ ps)) p ps w x)
          ]
  ]

  note_between-Like : (name : Str) (w : Writer) → Like u o w (note_between u o name w)
  unfolding note_between text_of flush
  note_between-Like name w = elim (Bool-cases (str_eq name (codes "BETWEEN"))) [
    | inl e ↦ rw e (refl, λ last i. i)
    | inr e ↦ rw e (refl, λ last i. i)
  ]

  join_step-Wrote :
      (j : Option (List Str)) (p : Piece) (ps : List Piece) (w : Writer)
      → is_comment p.kind ≡ false
      → Wrote u o (p ∷ ps) w (join_step u o j p ps w)
  unfolding join_step text_of flush
  join_step-Wrote (some phrase) p ps w x =
      broken_phrase-Wrote (length phrase) (w.frame.indent + 1) (set_clause (codes "JOIN")) (p ∷ ps)
        w
  join_step-Wrote none p ps w x =
      let name = to_upper u p.text in
      elim (Bool-cases (str_eq name (codes "ON") && str_eq w.frame.clause (codes "JOIN"))) [
        | inl e ↦ rw e (
            broken_spelled-Wrote u o p ps (w.frame.indent + 2)
              (with_frame (set_clause (codes "ON")) w) x)
        | inr e ↦
            let v = note_between u o name w in
            rw e (
              behind u o (p ∷ ps) w v (word_step u o name p ps v) (note_between-Like name w)
                (word_step-Wrote name p ps v x))
      ]

  -- One piece that is the text that is written.
  mark-Wrote :
      (p : Piece) (ps : List Piece) (s : Str) (w v : Writer)
      → is_comment p.kind ≡ false
      → is_mark s p ≡ true
      → Writes u o (s, false) w v
      → Wrote u o (p ∷ ps) w (v, ps)
  mark-Wrote p ps s w v x h e =
      one u o p ps s w v (inl (sym (is_mark-text s p h))) (plain u o p s w v x e)

  pub step-Wrote :
      (p : Piece) (ps : List Piece) (w : Writer) → Wrote u o (p ∷ ps) w (step u o p ps w)
  unfolding step
  step-Wrote p ps w =
      let in_list =
        is_mark (codes ",") p && ((w.frame.plain == 0) && is_one_of w.frame.clause list_clauses) in
      elim (Bool-cases (is_comment p.kind)) [
        | inl e ↦ rw e (write_comment-Wrote u o p ps w e)
        | inr e0 ↦ elim (Bool-cases (is_mark (codes "(") p)) [
          | inl e ↦
              rw (e0, e)
                (mark-Wrote p ps (codes "(") w (open_paren u o p ps w) e0 e
                  (open_paren-Writes u o p ps w))
          | inr e1 ↦ elim (Bool-cases (is_mark (codes ")") p)) [
            | inl e ↦
                rw (e0, e1, e)
                  (mark-Wrote p ps (codes ")") w (close_paren u o p w) e0 e
                    (close_paren-Writes u o p w))
            | inr e2 ↦ elim (Bool-cases in_list) [
              | inl e ↦
                  rw (e0, e1, e2, e)
                    (mark-Wrote p ps (codes ",") w (write_comma u o p w) e0 (&&-split _ _ e).0
                      (write_comma-Writes u o p w (is_mark-text (codes ",") p (&&-split _ _ e).0)))
              | inr e3 ↦ elim (Bool-cases (is_word_kind p.kind && (w.frame.plain == 0))) [
                | inl e ↦
                    rw (e0, e1, e2, e3, e) (join_step-Wrote (phrase_at u joins (p ∷ ps)) p ps w e0)
                | inr e ↦ rw (e0, e1, e2, e3, e) (write_spelled-Wrote u o p ps w e0)
              ]
            ]
          ]
        ]
      ]
