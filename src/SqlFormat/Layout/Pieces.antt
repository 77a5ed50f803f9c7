-- ===== src/SqlFormat/Layout/Pieces.antt =====
-- What each method of `_Writer` in backend/sql_format.py writes, that writes one piece.
use mathlib.Core.Path.{subst}
use sqlide.Common.{
  ℕ, ◌+◌, ◌-◌, ◌*◌, Bool, true, false, ◌&&◌, ◌||◌, List, [], ◌∷◌, ◌++◌, ◌≡◌, refl, sym, inl, inr,
  Bool-cases, if◌then◌else◌, ltb,
}
use sqlide.Common.Text.{Str, codes, CharTable, str_eq_iff, starts_with}
use sqlide.SqlSplit.Lex.{Kind, word, quoted, string, dollar, comment, number, param, punct, Piece}
use sqlide.SqlFormat.{FormatOptions, is_comment, is_punct, is_mark}
use sqlide.SqlFormat.Writer.{
  Frame, Writer, is_blank, flush, break_line, write, spelling, with_frame, set_plain, is_subquery,
}
use sqlide.SqlFormat.Walk.{
  write_spelled, write_comment, write_comma, lead_comma, open_paren, close_block, close_paren, push,
  pop,
}
use sqlide.SqlFormat.Gaps.{placed, End}
use sqlide.SqlFormat.Layout.{
  end_of, text_of, Remembers, Writes, Like, before, break_after, break_line-Like, write-Writes,
  Spells, spelling-Spells, Lays, stop, next,
}

pub is_mark-text : (s : Str) (p : Piece) → is_mark s p ≡ true → p.text ≡ s
unfolding is_mark
is_mark-text s p h = by_kind p.kind h
  where
    by_kind : (k : Kind) → is_punct k p.text s ≡ true → p.text ≡ s
    by_kind punct e = (str_eq_iff p.text s).0 e
    by_kind word e = absurd (cc)
    by_kind quoted e = absurd (cc)
    by_kind string e = absurd (cc)
    by_kind dollar e = absurd (cc)
    by_kind comment e = absurd (cc)
    by_kind number e = absurd (cc)
    by_kind param e = absurd (cc)

module _ (u : CharTable) (o : FormatOptions) where
  -- From the first writer on, the pieces are written down to those that are left.
  abbrev pub Wrote : List Piece → Writer → Writer × List Piece → Type 0
  Wrote ps w r =
      (last : End)
      → Remembers u o w last
      → (m : End) × Lays u o ps (text_of u o w) last r.1 (text_of u o r.0) m × Remembers u o r.0 m

  -- One piece written.
  pub one :
      (p : Piece) (ps : List Piece) (t : Str) (w v : Writer)
      → Spells u o p t
      → Writes u o (end_of u o p t) w v
      → Wrote (p ∷ ps) w (v, ps)
  one p ps t w v s h last i =
      let ((gap, g, e), j) = h last i in
      let end = end_of u o p t in
      (
        end,
        next t gap s g
            (subst (λ b. Lays u o ps (text_of u o w ++ (gap ++ t)) end ps b end) (sym e) stop),
        j,
      )

  -- A piece that is no comment.
  pub plain :
      (p : Piece) (t : Str) (w v : Writer)
      → is_comment p.kind ≡ false
      → Writes u o (t, false) w v
      → Writes u o (end_of u o p t) w v
  plain p t w v e h = subst (λ c. Writes u o (t, c && starts_with (codes "--") t) w v) (sym e) h

  Lays-trans :
      {ps qs rs : List Piece} {a b c : Str} {l m n : End}
      → Lays u o ps a l qs b m
      → Lays u o qs b m rs c n
      → Lays u o ps a l rs c n
  Lays-trans stop r = r
  Lays-trans (next t gap s g q) r = next t gap s g (Lays-trans q r)

  pub trans :
      (ps : List Piece) (w : Writer) (r s : Writer × List Piece)
      → Wrote ps w r
      → Wrote r.1 r.0 s
      → Wrote ps w s
  trans ps w r s h k last i =
      let (m, lays, j) = h last i in let (n, more, l) = k m j in (n, Lays-trans lays more, l)

  -- The writer to begin with may have a line broken.
  pub behind :
      (ps : List Piece) (w v : Writer) (r : Writer × List Piece)
      → Like u o w v
      → Wrote ps v r
      → Wrote ps w r
  behind ps w v r (e, k) h last i =
      let (m, lays, j) = h last (k last i) in
      (m, subst (λ a. Lays u o ps a last r.1 (text_of u o r.0) m) e lays, j)

  pub write_spelled-Wrote :
      (p : Piece) (ps : List Piece) (w : Writer)
      → is_comment p.kind ≡ false
      → Wrote (p ∷ ps) w (write_spelled u o p w, ps)
  unfolding write_spelled
  write_spelled-Wrote p ps w x =
      let t = spelling u o w p in
      one p ps t w (write u o p t w) (spelling-Spells u o w p)
        (plain p t w (write u o p t w) x (write-Writes u o p t w))

  -- A piece written behind a line break.
  pub broken_spelled-Wrote :
      (p : Piece) (ps : List Piece) (n : ℕ) (w : Writer)
      → is_comment p.kind ≡ false
      → Wrote (p ∷ ps) w (write_spelled u o p (break_line u o n w), ps)
  broken_spelled-Wrote p ps n w x =
      behind (p ∷ ps) w (break_line u o n w) (write_spelled u o p (break_line u o n w), ps)
        (break_line-Like u o n w) (write_spelled-Wrote p ps (break_line u o n w) x)

  -- A text written behind a line break.
  break_write-Writes :
      (p : Piece) (t : Str) (n : ℕ) (w : Writer)
      → Writes u o (t, false) w (write u o p t (break_line u o n w))
  break_write-Writes p t n w =
      before u o w (break_line u o n w) (write u o p t (break_line u o n w)) (t, false)
        (break_line-Like u o n w) (write-Writes u o p t (break_line u o n w))

  -- A comment that goes up to the end of its line has the line broken behind it.
  write_comment-Writes :
      (p : Piece) (w : Writer)
      → Writes u o (p.text, starts_with (codes "--") p.text) w (write_comment u o p w)
  unfolding write_comment
  write_comment-Writes p w =
      let b = p.newline_before || is_blank w.line in
      closed (starts_with (codes "--") p.text)
        (write u o p p.text (if b then break_line u o w.indent w else w)) (started b)
    where
      started :
          (b : Bool)
          → Writes u o
              (p.text, false)
              w
              (write u o p p.text (if b then break_line u o w.indent w else w))
      started true = break_write-Writes p p.text w.indent w
      started false = write-Writes u o p p.text w

      closed :
          (b : Bool) (v : Writer)
          → Writes u o (p.text, false) w v
          → Writes u o (p.text, b) w (if b then break_line u o v.indent v else v)
      closed true v h = break_after u o w v v.indent p.text false true h
      closed false v h = h

  lead_comma-Writes :
      (p : Piece) (n : ℕ) (w : Writer)
      → p.text ≡ codes ","
      → Writes u o (codes ",", false) w (lead_comma p (break_line u o n w))
  unfolding break_line flush text_of
  lead_comma-Writes p n w e last i = (
    placed (n * o.indent) (flush u o w).lines [] (codes ",") last.0 last.1 false
        (λ a b. absurd (cc)) (λ a. absurd (cc)),
    inr (p, refl, e, λ h. absurd (cc), refl),
  )

  pub write_comma-Writes :
      (p : Piece) (w : Writer)
      → p.text ≡ codes ","
      → Writes u o (codes ",", false) w (write_comma u o p w)
  unfolding write_comma write
  write_comma-Writes p w e = by_style o.comma_leading
    where
      by_style :
          (b : Bool)
          → Writes u o
              (codes ",", false)
              w
              (if b
                then lead_comma p (break_line u o (w.frame.indent + 1) w)
                else (break_line u o (w.frame.indent + 1) (write u o p (codes ",") w)))
      by_style true = lead_comma-Writes p (w.frame.indent + 1) w e
      by_style false =
          break_after u o w (write u o p (codes ",") w) (w.frame.indent + 1) (codes ",") false false
            (write-Writes u o p (codes ",") w)

  pub open_paren-Writes :
      (p : Piece) (ps : List Piece) (w : Writer)
      → Writes u o (codes "(", false) w (open_paren u o p ps w)
  unfolding open_paren text_of flush
  open_paren-Writes p ps w = elim (Bool-cases (is_subquery u ps)) [
    | inl e ↦ rw e (
        break_after u o w (push (write u o p (codes "(") w)) (w.indent + 1) (codes "(") false false
          (write-Writes u o p (codes "(") w))
    | inr e ↦ rw e (write-Writes u o p (codes "(") w)
  ]

  close_block-Writes :
      (p : Piece) (w : Writer) (fs : List Frame)
      → Writes u o (codes ")", false) w (close_block u o p w fs)
  unfolding close_block text_of flush
  close_block-Writes p w [] = write-Writes u o p (codes ")") w
  close_block-Writes p w (f ∷ fs) =
      break_write-Writes p (codes ")") (w.frame.indent - 1) (pop w f fs)

  pub close_paren-Writes :
      (p : Piece) (w : Writer) → Writes u o (codes ")", false) w (close_paren u o p w)
  unfolding close_paren text_of flush
  close_paren-Writes p w = elim (Bool-cases (ltb 0 w.frame.plain)) [
    | inl e ↦ rw e (write-Writes u o p (codes ")") (with_frame (λ f. set_plain (f.plain - 1) f) w))
    | inr e ↦ rw e (close_block-Writes p w w.below)
  ]

  pub write_comment-Wrote :
      (p : Piece) (ps : List Piece) (w : Writer)
      → is_comment p.kind ≡ true
      → Wrote (p ∷ ps) w (write_comment u o p w, ps)
  write_comment-Wrote p ps w x = one p ps p.text w (write_comment u o p w) (inl refl) (
      subst
        (λ c. Writes u o (p.text, c && starts_with (codes "--") p.text) w (write_comment u o p w))
        (sym x) (write_comment-Writes p w))
