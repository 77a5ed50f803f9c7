-- ===== src/Workspaces/Names.antt =====
-- The loops over numbered names in backend/workspaces.py end, with a name that is free.
use mathlib.Core.List.{append_cancel_left, append_cancel_right}
use mathlib.Core.Path.{subst}
use sqlide.Common.{
  ℕ, zero, suc, ◌+◌, ◌≤◌, ◌<◌, true, false, some, List, [], ◌∷◌, ◌≡◌, refl, sym, ◌∙◌, inl, inr,
  arith, Bool-cases, if◌then◌else◌, length,
}
use sqlide.Common.Decimal.{show_int-eq}
use sqlide.Common.Int.{pos, show_int}
use sqlide.Common.Text.{Str, codes, str_eq, str_eq_iff, is_one_of}
use sqlide.Workspaces.{free_from, numbered, workspace_name, unique_name, default_name}

-- The names without the first that is `a`.
drop_name : Str → List Str → List Str
drop_name a [] = []
drop_name a (x ∷ xs) = if str_eq a x then xs else x ∷ drop_name a xs

length-drop_name :
    (a : Str) (xs : List Str) → is_one_of a xs ≡ true → length (drop_name a xs) < length xs
unfolding drop_name
length-drop_name a [] h = absurd (cc)
length-drop_name a (x ∷ xs) h = elim (Bool-cases (str_eq a x)) [
  | inl e ↦ rw e (omega arith)
  | inr e ↦ let ih = length-drop_name a xs (rw e at h) in rw e (omega (arith, ih))
]

-- Another name is one of them as before.
is_one_of-drop_name :
    (a b : Str) (xs : List Str) → str_eq b a ≡ false → is_one_of b (drop_name a xs) ≡ is_one_of b xs
unfolding drop_name
is_one_of-drop_name a b [] h = refl
is_one_of-drop_name a b (x ∷ xs) h = elim (Bool-cases (str_eq a x)) [
  | inl e ↦
      let same : a ≡ x = (str_eq_iff a x).0 e in
      let k : str_eq b x ≡ false = subst (λ y. str_eq b y ≡ false) same h in rw (e, k) refl
  | inr e ↦ rw (e, is_one_of-drop_name a b xs h) refl
]

module _ (candidate : ℕ → Str) (apart : (m n : ℕ) → candidate m ≡ candidate n → m ≡ n) where
  differs : (m n : ℕ) → m < n → str_eq (candidate n) (candidate m) ≡ false
  differs m n h = elim (Bool-cases (str_eq (candidate n) (candidate m))) [
    | inl e ↦
        let same = apart n m ((str_eq_iff (candidate n) (candidate m)).0 e) in
        absurd (omega (arith, same))
    | inr e ↦ e
  ]

  -- A name that is passed does not count any more.
  free_from-drop_name :
      (fuel : ℕ) (m n : ℕ) (names : List Str)
      → m < n
      → free_from candidate fuel (drop_name (candidate m) names) n
        ≡ free_from candidate fuel names n
  unfolding free_from
  free_from-drop_name zero m n names h = refl
  free_from-drop_name (suc fuel) m n names h =
      rw
        (
          is_one_of-drop_name (candidate m) (candidate n) names (differs m n h),
          free_from-drop_name fuel m (n + 1) names (omega arith),
        )
        refl

  -- As many rounds as there are names, and one more, are enough.
  free_from-ends :
      (fuel : ℕ) (names : List Str) (n : ℕ)
      → length names < fuel
      → (k : ℕ) × (free_from candidate fuel names n ≡ some (candidate k))
        × (n ≤ k)
        × (is_one_of (candidate k) names ≡ false)
  unfolding free_from
  free_from-ends zero names n h = absurd (omega arith)
  free_from-ends (suc fuel) names n h = elim (Bool-cases (is_one_of (candidate n) names)) [
    | inr e ↦ (n, rw e refl, omega arith, e)
    | inl e ↦
        let shorter = length-drop_name (candidate n) names e in
        let (k, found, later, free) =
          free_from-ends fuel (drop_name (candidate n) names) (n + 1) (omega arith) in
        let same = free_from-drop_name fuel n (n + 1) names (omega arith) in
        let other =
          is_one_of-drop_name (candidate n) (candidate k) names (differs n k (omega arith)) in
        (k, rw e (sym same ∙ found), omega arith, sym other ∙ free)
  ]

numbered-eq : (name : Str) (m n : ℕ) → numbered name m ≡ numbered name n → m ≡ n
numbered-eq name m n h =
    let inner = append_cancel_left (codes " (") _ _ (append_cancel_left name _ _ h) in
    show_int-eq m n (append_cancel_right (show_int (pos m)) (show_int (pos n)) (codes ")") inner)

workspace_name-eq : (m n : ℕ) → workspace_name m ≡ workspace_name n → m ≡ n
workspace_name-eq m n h = show_int-eq m n (append_cancel_left (codes "Workspace ") _ _ h)

-- The loop over "name (2)", "name (3)" and so on ends, however many connections there are, and the
-- name that it gives is none of theirs.
pub unique_name-IsFree :
    (names : List Str) (name : Str) → is_one_of (unique_name names name) names ≡ false
unfolding unique_name
unique_name-IsFree names name = elim (Bool-cases (is_one_of name names)) [
  | inr e ↦ rw (e, e) refl
  | inl e ↦
      let (k, found, later, free) =
        free_from-ends (numbered name) (numbered-eq name) (suc (length names)) names 2
          (omega arith) in
      rw (e, found) free
]

-- The default name of a new workspace is none that a workspace has.
pub default_name-IsFree : (names : List Str) → is_one_of (default_name names) names ≡ false
unfolding default_name
default_name-IsFree [] = refl
default_name-IsFree (w ∷ names) =
    let (k, found, later, free) =
      free_from-ends workspace_name workspace_name-eq (suc (length (w ∷ names))) (w ∷ names) 2
        (omega arith) in
    let e : default_name (w ∷ names) ≡ workspace_name k = rw found refl in
    subst (λ n. is_one_of n (w ∷ names) ≡ false) (sym e) free
