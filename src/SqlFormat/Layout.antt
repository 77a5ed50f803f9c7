-- ===== src/SqlFormat/Layout.antt =====
-- What `_Writer` of backend/sql_format.py has written: its pieces with gaps between them.
pub mod Pieces
pub mod Steps
pub mod Whole
use mathlib.Core.Path.{subst}
use mathlib.Core.List.{append_assoc, append-nil}
use sqlide.Common.{
  ℕ, zero, suc, ◌*◌, Bool, true, false, not, ◌&&◌, ◌||◌, Option, none, some, List, [], ◌∷◌, ◌++◌,
  ◌≡◌, ◌≢◌, refl, ap, sym, ◌∙◌, inl, inr, ◌⊎◌, Bool-cases, if◌then◌else◌, ◌==◌, All, &&-split,
}
use sqlide.Common.Text.{
  Str, codes, words, CharTable, str_eq, str_eq_iff, is_one_of, to_upper, starts_with,
}
use sqlide.SqlSplit.Lex.{Piece}
use sqlide.SqlFormat.{FormatOptions, keywords, is_word_kind, is_comment}
use sqlide.SqlFormat.Writer.{
  Writer, is_blank, spaces, join_lines, flush, break_line, space_before, write, spelling, respell,
  prev_text,
}
use sqlide.SqlFormat.Gaps.{
  signs, opening, closing, MayTouch, behind_sign, behind_mark, before_mark, before_paren, at_start,
  unwritten, End, IsGap, Placed, placed,
}

module _ (u : CharTable) (o : FormatOptions) where
  -- All that is written, the line being built included.
  unfoldable pub text_of : Writer → Str
  unfolding flush join_lines
  text_of w = join_lines (flush u o w).lines

  -- The writer remembers the last text that it wrote, where its line goes on.
  abbrev pub Remembers : Writer → End → Type 0
  Remembers w (last, ended) =
      (is_blank w.line ≡ true)
      ⊎ ((p : Piece) × (w.prev ≡ some p)
          × (p.text ≡ last)
          × (w.unary ≡ true → is_one_of last signs ≡ true)
          × (ended ≡ false))

  -- The second writer has written the text behind what the first one has.
  abbrev pub Writes : End → Writer → Writer → Type 0
  Writes e w v =
      (last : End) → Remembers w last → Placed (text_of w) last e.0 (text_of v) × Remembers v e

  -- The second writer has written the same as the first.
  abbrev pub Like : Writer → Writer → Type 0
  Like w v = (text_of v ≡ text_of w) × ((last : End) → Remembers w last → Remembers v last)

  pub before : (w v x : Writer) (t : End) → Like w v → Writes t v x → Writes t w x
  before w v x t (e, k) h last i =
      let ((gap, g, q), j) = h last (k last i) in
      ((gap, subst (λ a. IsGap a last t.0 gap) e g, q ∙ ap (λ a. a ++ (gap ++ t.0)) e), j)

  -- A line broken behind a text, which may then be a comment up to the end of its line.
  pub break_after :
      (w v : Writer) (n : ℕ) (t : Str) (b c : Bool)
      → Writes (t, b) w v
      → Writes (t, c) w (break_line u o n v)
  unfolding break_line text_of flush
  break_after w v n t b c h last i = let ((gap, g, q), j) = h last i in ((gap, g, q), inl refl)

  pub break_line-Like : (n : ℕ) (w : Writer) → Like w (break_line u o n w)
  unfolding break_line text_of flush
  break_line-Like n w = (refl, λ last i. inl refl)

  -- No space is written only between texts that may touch.
  space_before-MayTouch :
      (w : Writer) (t last : Str) (p : Piece)
      → w.prev ≡ some p
      → p.text ≡ last
      → (w.unary ≡ true → is_one_of last signs ≡ true)
      → space_before u o w t ≡ false
      → (text : Str) → MayTouch text last t
  unfolding space_before
  space_before-MayTouch w t last p e same sign h text = elim (Bool-cases w.unary) [
    | inl a ↦ behind_sign (sign a)
    | inr a ↦ elim (Bool-cases (is_one_of p.text opening)) [
      | inl b ↦ behind_mark (subst (λ s. is_one_of s opening ≡ true) same b)
      | inr b ↦ elim (Bool-cases (is_one_of t closing)) [
        | inl c ↦ before_mark c
        | inr c ↦ elim (Bool-cases (str_eq t (codes "("))) [
          | inl d ↦ before_paren ((str_eq_iff t (codes "(")).0 d)
          | inr d ↦ absurd (cc (rw (e, a, b, c, d, space_before) at h))
        ]
      ]
    ]
  ]

  may_touch :
      (w : Writer) (t last : Str) (ended : Bool)
      → Remembers w (last, ended)
      → space_before u o w t ≡ false
      → is_blank w.line ≡ false
      → (text : Str) → MayTouch text last t
  may_touch w t last ended (inl blank) h k text = absurd (cc)
  may_touch w t last ended (inr (p, e, same, sign, go)) h k text =
      space_before-MayTouch w t last p e same sign h text

  goes_on : (w : Writer) (last : End) → Remembers w last → is_blank w.line ≡ false → last.1 ≡ false
  goes_on w (last, ended) (inl blank) h = absurd (cc)
  goes_on w (last, ended) (inr (p, e, same, sign, go)) h = go

  pub write-Writes : (p : Piece) (t : Str) (w : Writer) → Writes (t, false) w (write u o p t w)
  unfolding write text_of flush
  write-Writes p t w last i = (
    placed (w.indent * o.indent) w.lines w.line t last.0 last.1 (space_before u o w t)
        (may_touch w t last.0 last.1 i) (goes_on w last i),
    inr (_, refl, refl, λ e. (&&-split _ _ e).0, refl),
  )

  -- How the formatter may spell a piece: as it stands, or a keyword in the case that is set.
  abbrev pub Spells : Piece → Str → Type 0
  Spells p t =
      (t ≡ p.text)
      ⊎ ((is_word_kind p.kind ≡ true)
          × (is_one_of (to_upper u p.text) keywords ≡ true)
          × (t ≡ respell u o o.keyword_case p.text))

  pub spelling-Spells : (w : Writer) (p : Piece) → Spells p (spelling u o w p)
  unfolding spelling
  spelling-Spells w p = elim (Bool-cases (is_word_kind p.kind)) [
    | inr e ↦ rw e (inl refl)
    | inl e ↦ elim (Bool-cases (is_one_of (to_upper u p.text) keywords)) [
      | inr f ↦ rw (e, f) (inl refl)
      | inl f ↦ elim (Bool-cases (str_eq (prev_text w.prev) (codes "."))) [
        | inl g ↦ rw (e, f, g) (inl refl)
        | inr g ↦ rw (e, f, g) (inr (refl, refl, refl))
      ]
    ]
  ]

  -- What a text ends with behind the piece.
  abbrev pub end_of : Piece → Str → End
  end_of p t = (t, is_comment p.kind && starts_with (codes "--") t)

  -- The pieces from the first list on to the second, each spelled behind a gap, make the second
  -- text of the first.
  pub data Lays : List Piece → Str → End → List Piece → Str → End → Type 0 where
    stop : {ps : List Piece} {a : Str} {l : End} → Lays ps a l ps a l
    next :
        {p : Piece} {ps qs : List Piece} {a b : Str} {l m : End} (t gap : Str)
        → Spells p t
        → IsGap a l t gap
        → Lays ps (a ++ (gap ++ t)) (end_of p t) qs b m
        → Lays (p ∷ ps) a l qs b m
