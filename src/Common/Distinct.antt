-- ===== src/Common/Distinct.antt =====
-- Lists of texts without repeats.
use sqlide.Common.{true, false, List, [], ◌∷◌, ◌++◌, ◌≡◌, refl, sym, inl, inr, Bool-cases}
use sqlide.Common.Text.{Str, str_eq, str_eq_iff, is_one_of}

-- No text stands twice in the list.
abbrev pub Distinct : List Str → Type 0
Distinct [] = Unit
Distinct (x ∷ xs) = (is_one_of x xs ≡ false) × Distinct xs

pub str_eq-sym : (a b : Str) → str_eq a b ≡ false → str_eq b a ≡ false
str_eq-sym a b h = elim (Bool-cases (str_eq b a)) [
  | inl e ↦
      let same : a ≡ b = sym ((str_eq_iff b a).0 e) in
      let k : str_eq a b ≡ true = (str_eq_iff a b).1 same in absurd (cc)
  | inr e ↦ e
]

-- A text that is not yet there may join the end.
pub Distinct-snoc :
    (a : Str) (xs : List Str) → is_one_of a xs ≡ false → Distinct xs → Distinct (xs ++ a ∷ [])
Distinct-snoc a [] h d = (refl, tt)
Distinct-snoc a (x ∷ xs) h d = elim (Bool-cases (str_eq a x)) [
  | inl e ↦ absurd (cc (rw e at h))
  | inr e ↦ (is_one_of-snoc xs d.0 (str_eq-sym a x e), Distinct-snoc a xs (rw e at h) d.1)
]
  where
    is_one_of-snoc :
        (ys : List Str)
        → is_one_of x ys ≡ false
        → str_eq x a ≡ false
        → is_one_of x (ys ++ a ∷ []) ≡ false
    is_one_of-snoc [] h e = rw e refl
    is_one_of-snoc (y ∷ ys) h e = elim (Bool-cases (str_eq x y)) [
      | inl f ↦ absurd (cc (rw f at h))
      | inr f ↦ rw f (is_one_of-snoc ys (rw f at h) e)
    ]
