-- ===== src/SqlSplit/Lex/Covers.antt =====
-- The pieces that `lex` returns cover the script: see the docstring of `Piece`.
use sqlide.Common.{
  ℕ, zero, suc, ◌+◌, ◌≤◌, ◌<◌, Bool, true, false, List, [], ◌∷◌, ◌++◌, ◌≡◌, refl, inl, inr, arith,
  Bool-cases, Option-cases, length, get_elem?, drop, get_elem?-lt, get_elem?-none, drop-get_elem?,
  drop_past,
}
use sqlide.Common.Text.{Str, CharTable, IsPython, length-slice, slice-append-drop}
use sqlide.SqlSplit.Scan.{Dialect}
use sqlide.SqlSplit.Lex.{Piece, next_cut, lex_from, lex}
use sqlide.SqlSplit.Lex.Cuts.{Fits-next_cut}

-- From offset `i` on the script reads as the given text: the pieces in order, each with its text
-- at its offsets and not empty, and between them nothing but whitespace.
pub data Covers (u : CharTable) : ℕ → Str → List Piece → Type 0 where
  done : {i : ℕ} → Covers u i [] []
  space :
      {i c : ℕ} {s : Str} {ps : List Piece}
      → u.is_space c ≡ true
      → Covers u (suc i) s ps
      → Covers u i (c ∷ s) ps
  piece :
      {i : ℕ} {s t : Str} {p : Piece} {ps : List Piece}
      → t ≡ p.text ++ s
      → p.start ≡ i
      → p.stop ≡ i + length p.text
      → 0 < length p.text
      → Covers u p.stop s ps
      → Covers u i t (p ∷ ps)

module _ (u : CharTable) (laws : IsPython u) (sql : Str) (dialect : Dialect) where
  -- Behind the end of the script nothing is left, whatever the fuel.
  Covers-end :
      (fuel i j : ℕ) (newline : Bool)
      → length sql ≤ i
      → length sql ≤ j
      → Covers u j (drop j sql) (lex_from u fuel sql dialect i newline)
  unfolding lex_from
  Covers-end zero i j newline h k = rw (drop_past j sql k) done
  Covers-end (suc fuel) i j newline h k = elim (Option-cases (get_elem? sql i)) [
    | inl e ↦ rw (e, lex_from, drop_past j sql k) done
    | inr (c, e) ↦ absurd (omega (arith, get_elem?-lt sql i e))
  ]

  lex_from-Covers :
      (fuel i : ℕ) (newline : Bool)
      → length sql ≤ i + fuel
      → Covers u i (drop i sql) (lex_from u fuel sql dialect i newline)
  unfolding lex_from
  lex_from-Covers zero i newline h = rw (drop_past i sql (omega arith)) done
  lex_from-Covers (suc fuel) i newline h = elim (Option-cases (get_elem? sql i)) [
    | inl e ↦ rw (e, lex_from, drop_past i sql (get_elem?-none sql i e)) done
    | inr (ch, e) ↦
        let c = next_cut u sql dialect i ch in
        let f = Fits-next_cut u laws sql i ch e dialect in
        let wide = length-slice sql i c.stop (omega (arith, f.grows)) f.within in
        elim (Bool-cases (u.is_space ch)) [
          | inl s ↦
              rw (e, lex_from, s, drop-get_elem? sql i e)
                (space s (lex_from-Covers fuel (suc i) _ (omega arith)))
          | inr s ↦
              rw (e, lex_from, s)
                (piece (slice-append-drop sql i c.stop (omega (arith, f.grows))) refl
                  (omega (arith, f.grows, wide)) (omega (arith, f.grows, wide))
                  (elim f.follows [
                    | inl n ↦ rw n (lex_from-Covers fuel c.stop false (omega (arith, f.grows)))
                    | inr (n, m) ↦ Covers-end fuel c.next c.stop false m (omega (arith, n))
                  ]))
        ]
  ]

  -- The scanner's pieces rebuild the script: in order, each text verbatim at its offsets, no
  -- character lost or read twice, and only whitespace between them. So the fuel is enough.
  pub lex-Covers : Covers u 0 sql (lex u sql dialect)
  unfolding lex
  lex-Covers = lex_from-Covers (length sql) 0 false (omega arith)
