-- ===== src/SqlFormat/Gaps.antt =====
-- The gaps that `_Writer` of backend/sql_format.py leaves between texts.
use mathlib.Core.List.{append_assoc, append-nil}
use sqlide.Common.{
  ℕ, zero, suc, Bool, true, false, not, ◌&&◌, ◌||◌, List, [], ◌∷◌, ◌++◌, ◌≡◌, ◌≢◌, refl, ap, sym,
  ◌∙◌, inl, inr, ◌⊎◌, if◌then◌else◌, ◌==◌, All,
}
use sqlide.Common.Text.{Str, codes, words, is_one_of}
use sqlide.SqlFormat.Writer.{is_blank, spaces, join_lines}

abbrev pub signs : List Str
signs = words ("-" ∷ "+" ∷ [])

abbrev pub opening : List Str
opening = words ("(" ∷ "." ∷ "::" ∷ [])

abbrev pub closing : List Str
closing = words ("," ∷ ";" ∷ ")" ∷ "." ∷ "::" ∷ [])

-- When a piece may stand right behind the text written before, which ends with the second text.
pub data MayTouch (text last t : Str) : Type 0 where
  at_start : text ≡ [] → MayTouch text last t
  unwritten : t ≡ [] → MayTouch text last t
  behind_sign : is_one_of last signs ≡ true → MayTouch text last t
  behind_mark : is_one_of last opening ≡ true → MayTouch text last t
  before_mark : is_one_of t closing ≡ true → MayTouch text last t
  before_paren : t ≡ codes "(" → MayTouch text last t

abbrev IsSpace : ℕ → Type 0
IsSpace c = ((c == b' ') || (c == b'\n')) ≡ true

-- Nothing is written, neither before nor now, or the gap opens with a line end.
abbrev StartsLine : Str → Str → Str → Type 0
StartsLine text t gap = (text ≡ []) ⊎ ((t ≡ []) ⊎ ((rest : Str) × (gap ≡ b'\n' ∷ rest)))

-- What a text ends with: the last piece, as it was written, and whether it is a comment up to the
-- end of the line.
abbrev pub End : Type 0
End = Str × Bool

-- Blanks and line ends between a text and the next piece: at least one, unless the two may touch,
-- and a line end behind a comment that goes up to it.
abbrev pub IsGap : Str → End → Str → Str → Type 0
IsGap text (last, to_line_end) t gap =
    All IsSpace gap
    × ((gap ≢ []) ⊎ MayTouch text last t)
    × (to_line_end ≡ true → StartsLine text t gap)

spaces-All : (n : ℕ) → All IsSpace (spaces n)
spaces-All zero = tt
spaces-All (suc n) = (refl, spaces-All n)

join_lines-longer :
    (ls : List Str) (m x : Str) → join_lines (ls ++ (m ++ x) ∷ []) ≡ join_lines (ls ++ m ∷ []) ++ x
unfolding join_lines
join_lines-longer [] m x = refl
join_lines-longer (l ∷ []) m x = sym (append_assoc l (b'\n' ∷ m) x)
join_lines-longer (l ∷ k ∷ ls) m x =
    ap (λ s. l ++ b'\n' ∷ s) (join_lines-longer (k ∷ ls) m x)
    ∙ sym (append_assoc l (b'\n' ∷ join_lines (k ∷ ls ++ m ∷ [])) x)

join_lines-snoc :
    (l : Str) (ls : List Str) (m : Str)
    → join_lines (l ∷ ls ++ m ∷ []) ≡ join_lines (l ∷ ls) ++ b'\n' ∷ m
unfolding join_lines
join_lines-snoc l [] m = refl
join_lines-snoc l (k ∷ ls) m =
    ap (λ s. l ++ b'\n' ∷ s) (join_lines-snoc k ls m)
    ∙ sym (append_assoc l (b'\n' ∷ join_lines (k ∷ ls)) (b'\n' ∷ m))

-- The lines with the one being built, indented.
abbrev flushed : ℕ → List Str → Str → List Str
flushed n ls l = if is_blank l then ls else ls ++ (spaces n ++ l) ∷ []

abbrev pub Placed : Str → End → Str → Str → Type 0
Placed text last t after = (gap : Str) × IsGap text last t gap × (after ≡ text ++ (gap ++ t))

abbrev space_if : Bool → Str
space_if b = if b then b' ' ∷ [] else []

longer-Placed :
    (n : ℕ) (ls : List Str) (c : ℕ) (l t gap : Str) (last : End)
    → IsGap (join_lines (ls ++ (spaces n ++ c ∷ l) ∷ [])) last t gap
    → Placed
        (join_lines (ls ++ (spaces n ++ c ∷ l) ∷ []))
        last
        t
        (join_lines (ls ++ (spaces n ++ ((c ∷ l) ++ (gap ++ t))) ∷ []))
longer-Placed n ls c l t gap last g = (
  gap,
  g,
  ap (λ s. join_lines (ls ++ s ∷ [])) (sym (append_assoc (spaces n) (c ∷ l) (gap ++ t)))
      ∙ join_lines-longer ls (spaces n ++ c ∷ l) (gap ++ t),
)

-- What a text put behind the line being built adds to all that is written.
pub placed :
    (n : ℕ) (ls : List Str) (l t last : Str) (ended spaced : Bool)
    → (spaced ≡ false → is_blank l ≡ false → (text : Str) → MayTouch text last t)
    → (is_blank l ≡ false → ended ≡ false)
    → Placed
        (join_lines (flushed n ls l))
        (last, ended)
        t
        (join_lines (flushed n ls (l ++ (space_if (not (is_blank l) && spaced) ++ t))))
unfolding join_lines
placed n ls [] [] last ended spaced h k =
    ([], (tt, inr (unwritten refl), λ e. inr (inl refl)), sym (append-nil (join_lines ls)))
placed n [] [] (d ∷ t) last ended spaced h k =
    (spaces n, (spaces-All n, inr (at_start refl), λ e. inl refl), refl)
placed n (m ∷ ls) [] (d ∷ t) last ended spaced h k = (
  b'\n' ∷ spaces n,
  ((refl, spaces-All n), inl (λ e. cc), λ e. inr (inr (spaces n, refl))),
  join_lines-snoc m ls (spaces n ++ d ∷ t),
)
placed n ls (c ∷ l) t last ended true h k =
    longer-Placed n ls c l t (b' ' ∷ []) (last, ended)
      ((refl, tt), inl (λ e. cc), λ e. let f = k refl in absurd (cc))
placed n ls (c ∷ l) t last ended false h k =
    longer-Placed n ls c l t [] (last, ended)
      (tt, inr (h refl refl _), λ e. let f = k refl in absurd (cc))
