-- ===== src/QueryModel/Render/Marks.antt =====
-- `_substitute` of backend/db/query_model.py against a replacement of every marker.
use mathlib.Core.List.{flat_map}
use native.Mathlib.Omega.{arith}
use sqlide.Common.{
  ℕ, zero, suc, ◌-◌, ◌≤◌, true, List, [], ◌∷◌, ◌++◌, ◌≡◌, refl, ap, sym, inl, inr, Bool-cases,
  if◌then◌else◌, ltb, ◌==◌, ==_iff,
}
use sqlide.Common.Text.{Str, str_eq, str_eq_iff, split_on}
use sqlide.QueryModel.Render.{splice, substitute}
use sqlide.QueryModel.Render.Clauses.{marker}

-- How often the marker stands in a text.
unfoldable pub markers : Str → ℕ
markers [] = 0
markers (c ∷ s) = if c == marker then suc (markers s) else markers s

abbrev pub swapped : Str → ℕ → Str
swapped mark c = if c == marker then mark else c ∷ []

-- The text of a split, spliced.
abbrev rebuilt : Str → ℕ → Str × List Str → Str
rebuilt mark n (first, rest) = first ++ splice mark n rest

rebuilt-split_on :
    (mark s : Str) (n : ℕ)
    → markers s ≤ n
    → rebuilt mark n (split_on marker s) ≡ flat_map (swapped mark) s
unfolding markers splice split_on flat_map
rebuilt-split_on mark [] n h = refl
rebuilt-split_on mark (c ∷ s) zero h = elim (Bool-cases (c == marker)) [
  | inl e ↦ let k : suc (markers s) ≤ 0 = rw e at h in absurd (omega arith)
  | inr e ↦ let ih = rebuilt-split_on mark s 0 (rw e at h) in rw e (ap (◌∷◌ c) ih)
]
rebuilt-split_on mark (c ∷ s) (suc n) h = elim (Bool-cases (c == marker)) [
  | inl e ↦
      let k : suc (markers s) ≤ suc n = rw e at h in
      let ih = rebuilt-split_on mark s n (omega arith) in
      let less : ltb 0 (suc n) ≡ true = ground arith in
      let one_less : suc n - 1 ≡ n = omega arith in rw (e, less, one_less) (ap (◌++◌ mark) ih)
  | inr e ↦ let ih = rebuilt-split_on mark s (suc n) (rw e at h) in rw e (ap (◌∷◌ c) ih)
]

-- A marker in place of itself changes nothing.
swapped_same : (s : Str) → flat_map (swapped (marker ∷ [])) s ≡ s
unfolding flat_map
swapped_same [] = refl
swapped_same (c ∷ s) = elim (Bool-cases (c == marker)) [
  | inl e ↦
      let k : c ≡ marker = (==_iff c marker).0 e in rw (e, k) (ap (◌∷◌ marker) (swapped_same s))
  | inr e ↦ rw e (ap (◌∷◌ c) (swapped_same s))
]

swapped_none : (mark s : Str) → markers s ≤ 0 → flat_map (swapped mark) s ≡ s
unfolding flat_map markers
swapped_none mark [] h = refl
swapped_none mark (c ∷ s) h = elim (Bool-cases (c == marker)) [
  | inl e ↦ let k : suc (markers s) ≤ 0 = rw e at h in absurd (omega arith)
  | inr e ↦ let ih = swapped_none mark s (rw e at h) in rw e (ap (◌∷◌ c) ih)
]

-- Where a statement holds no more "?" than it binds values, each of them gives way to the marker of
-- the driver, and nothing else changes.
pub substitute-swapped :
    (sql mark : Str) (count : ℕ)
    → markers sql ≤ count
    → substitute sql mark count ≡ flat_map (swapped mark) sql
unfolding substitute
substitute-swapped sql mark count h = elim (Bool-cases (str_eq mark (marker ∷ []))) [
  | inl e ↦
      let k : mark ≡ marker ∷ [] = (str_eq_iff mark (marker ∷ [])).0 e in
      rw (e, k) (sym (swapped_same sql))
  | inr e ↦ elim (Bool-cases (count == 0)) [
    | inl z ↦
        let k : count ≡ 0 = (==_iff count 0).0 z in
        rw (e, z) (sym (swapped_none mark sql (rw k at h)))
    | inr z ↦ rw (e, z) (rebuilt-split_on mark sql count h)
  ]
]
