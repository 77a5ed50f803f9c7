-- ===== src/SqlSplit/Dialects.antt =====
-- The dialect decides only what a backslash means: without one, every dialect reads a script alike.
use sqlide.Common.{
  ℕ, zero, suc, Bool, true, false, [], ◌∷◌, ◌≡◌, refl, inl, inr, ◌==◌, length, get_elem?, drop,
  take, ◌-◌, Option-cases,
}
use sqlide.Common.Text.{Str, CharTable, slice}
use sqlide.SqlSplit.Scan.{Dialect, quoted_run, quoted_end, backslash_escapes}
use sqlide.SqlSplit.Lex.{code_cut, next_cut, lex_from, lex, tokens}
use sqlide.SqlSplit.Statements.{Segment, step, split_from, split_statements}

abbrev pub NoBackslash : Str → Type 0
NoBackslash [] = Unit {0}
NoBackslash (c ∷ s) = ((c == b'\\') ≡ false) × NoBackslash s

NoBackslash-drop : (n : ℕ) (s : Str) → NoBackslash s → NoBackslash (drop n s)
NoBackslash-drop zero s h = h
NoBackslash-drop (suc n) [] h = h
NoBackslash-drop (suc n) (c ∷ s) h = NoBackslash-drop n s h.1

NoBackslash-take : (n : ℕ) (s : Str) → NoBackslash s → NoBackslash (take n s)
NoBackslash-take zero s h = tt
NoBackslash-take (suc n) [] h = h
NoBackslash-take (suc n) (c ∷ s) h = (h.0, NoBackslash-take n s h.1)

pub NoBackslash-slice : (s : Str) (i j : ℕ) → NoBackslash s → NoBackslash (slice s i j)
NoBackslash-slice s i j h = NoBackslash-take (j - i) (drop i s) (NoBackslash-drop i s h)

quoted_run_plain :
    (quote : ℕ) (a b : Bool) (s : Str)
    → NoBackslash s
    → quoted_run quote a false s ≡ quoted_run quote b false s
unfolding quoted_run
quoted_run_plain quote a b [] h = refl
quoted_run_plain quote true true (c ∷ s) h = refl
quoted_run_plain quote true false (c ∷ s) h = rw (h.0, quoted_run_plain quote true false s h.1)
quoted_run_plain quote false true (c ∷ s) h = rw (h.0, quoted_run_plain quote false true s h.1)
quoted_run_plain quote false false (c ∷ s) h = refl

module _ (u : CharTable) (sql : Str) (plain : NoBackslash sql) (d d' : Dialect) where
  quoted_end_plain : (quote i : ℕ) → quoted_end u quote sql i d ≡ quoted_end u quote sql i d'
  unfolding quoted_end
  quoted_end_plain quote i = rw (
    quoted_end,
    quoted_run_plain quote (backslash_escapes u sql i d) (backslash_escapes u sql i d')
        (drop (suc i) sql) (NoBackslash-drop (suc i) sql plain),
  )

  next_cut_plain : (i ch : ℕ) → next_cut u sql d i ch ≡ next_cut u sql d' i ch
  unfolding next_cut code_cut
  next_cut_plain i ch = simp quoted_end_plain

  lex_from_plain :
      (fuel i : ℕ) (newline : Bool)
      → lex_from u fuel sql d i newline ≡ lex_from u fuel sql d' i newline
  unfolding lex_from
  lex_from_plain zero i newline = refl
  lex_from_plain (suc fuel) i newline = elim (Option-cases (get_elem? sql i)) [
    | inl e ↦ rw (e, lex_from)
    | inr (ch, e) ↦ rw (e, lex_from) (simp (next_cut_plain, lex_from_plain fuel))
  ]

  pub lex_plain : lex u sql d ≡ lex u sql d'
  unfolding lex
  lex_plain = lex_from_plain (length sql) 0 false

  pub tokens_plain : tokens u sql d ≡ tokens u sql d'
  unfolding tokens
  tokens_plain = rw lex_plain

  step_plain : (seg : Segment) (i ch : ℕ) → step u sql d seg i ch ≡ step u sql d' seg i ch
  unfolding step
  step_plain seg i ch = simp quoted_end_plain

  split_from_plain :
      (fuel : ℕ) (seg : Segment) (i : ℕ)
      → split_from u sql fuel d seg i ≡ split_from u sql fuel d' seg i
  unfolding split_from
  split_from_plain zero seg i = refl
  split_from_plain (suc fuel) seg i = elim (Option-cases (get_elem? sql i)) [
    | inl e ↦ rw (e, split_from)
    | inr (ch, e) ↦ rw (e, split_from) (simp (step_plain, split_from_plain fuel))
  ]

  -- A script without a backslash is split into the same statements, and every statement read into
  -- the same pieces, whatever the dialect.
  pub split_statements_plain :
      (split_statements u sql d ≡ split_statements u sql d') × (lex u sql d ≡ lex u sql d')
  unfolding split_statements
  split_statements_plain = (rw split_from_plain, lex_plain)
