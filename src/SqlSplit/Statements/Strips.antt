-- ===== src/SqlSplit/Statements/Strips.antt =====
-- Stripping and `removesuffix` cut a text at its ends only.
use mathlib.Core.List.{append_assoc, append-nil}
use sqlide.Common.{
  ℕ, zero, suc, ◌+◌, ◌-◌, ◌≤◌, Bool, false, [], ◌∷◌, ◌++◌, ◌≡◌, refl, sym, ap, ◌∙◌, inl, inr, arith,
  Bool-cases, length, take, drop, length-append, take-append-drop,
}
use sqlide.Common.Text.{
  Str, str_eq, lstrip_by, rstrip_by, strip_last, strip_by, remove_suffix, slice,
}

-- `a` stands at the front of `b`.
pub record Heads (a b : Str) : Type 0 where
  pub rest : Str
  pub eq : a ++ rest ≡ b

pub Heads-refl : (a : Str) → Heads a a
Heads-refl a = record { rest = []; eq = append-nil a }

pub Heads-nil : (a : Str) → Heads [] a
Heads-nil a = record { rest = a; eq = refl }

pub Heads-trans : {a b c : Str} → Heads a b → Heads b c → Heads a c
Heads-trans {a} h k = record {
  rest = h.rest ++ k.rest;
  eq = sym (append_assoc a h.rest k.rest) ∙ ap (λ x. x ++ k.rest) h.eq ∙ k.eq;
}

pub Heads-cons : (c : ℕ) {a b : Str} → Heads a b → Heads (c ∷ a) (c ∷ b)
Heads-cons c h = record { rest = h.rest; eq = ap (◌∷◌ c) h.eq }

pub Heads-take : (n : ℕ) (s : Str) → Heads (take n s) s
Heads-take n s = record { rest = drop n s; eq = take-append-drop n s }

pub Heads-drop-take : (k n : ℕ) (s : Str) → Heads (drop k (take n s)) (drop k s)
Heads-drop-take zero n s = Heads-take n s
Heads-drop-take (suc k) zero s = Heads-nil (drop (suc k) s)
Heads-drop-take (suc k) (suc n) [] = Heads-nil []
Heads-drop-take (suc k) (suc n) (c ∷ s) = Heads-drop-take k n s

pub Heads-length : {a b : Str} → Heads a b → length a ≤ length b
Heads-length {a} {b} h = omega (arith, length-append a h.rest, ap (λ (x : Str). length x) h.eq)

take-length-append : (a r : Str) → take (length a) (a ++ r) ≡ a
take-length-append [] r = refl
take-length-append (c ∷ a) r = ap (◌∷◌ c) (take-length-append a r)

pub Heads-slice : {a : Str} (s : Str) (i : ℕ) → Heads a (drop i s) → slice s i (i + length a) ≡ a
Heads-slice {a} s i h =
    let e : i + length a - i ≡ length a = omega arith in
    rw (e, ← h.eq) (take-length-append a h.rest)

module _ (p : ℕ → Bool) where
  strip_last-Heads : (c : ℕ) (r : Str) {s : Str} → Heads r s → Heads (strip_last p c r) (c ∷ s)
  strip_last-Heads c [] {s} h = elim (Bool-cases (p c)) [
    | inl e ↦ rw e (Heads-nil (c ∷ s))
    | inr e ↦ rw e (Heads-cons c (Heads-nil s))
  ]
  strip_last-Heads c (d ∷ r) h = Heads-cons c h

  pub rstrip_by-Heads : (s : Str) → Heads (rstrip_by p s) s
  unfolding rstrip_by
  rstrip_by-Heads [] = Heads-refl []
  rstrip_by-Heads (c ∷ s) = strip_last-Heads c (rstrip_by p s) (rstrip_by-Heads s)

  pub lstrip_by-length : (s : Str) → length (lstrip_by p s) ≤ length s
  unfolding lstrip_by
  lstrip_by-length [] = omega arith
  lstrip_by-length (c ∷ s) = ground (arith, lstrip_by-length s)

  pub lstrip_by-drop : (s : Str) → lstrip_by p s ≡ drop (length s - length (lstrip_by p s)) s
  unfolding lstrip_by
  lstrip_by-drop [] = refl
  lstrip_by-drop (c ∷ s) = elim (Bool-cases (p c)) [
    | inl e ↦
        let n : suc (length s) - length (lstrip_by p s) ≡ suc (length s - length (lstrip_by p s)) =
          omega (arith, lstrip_by-length s) in
        rw (e, n) (lstrip_by-drop s)
    | inr e ↦ let n : suc (length s) - suc (length s) ≡ 0 = omega arith in rw (e, n)
  ]

  -- What has been stripped at the front begins with no such character, and so has any part of its front.
  lstrip_by-cons_self : (s : Str) (c : ℕ) {t : Str} → lstrip_by p s ≡ c ∷ t → p c ≡ false
  unfolding lstrip_by
  lstrip_by-cons_self [] c h = cc
  lstrip_by-cons_self (d ∷ s) c h = elim (Bool-cases (p d)) [
    | inl e ↦ lstrip_by-cons_self s c (rw (e, lstrip_by) at h)
    | inr e ↦ ground (arith, rw (e, lstrip_by) at h)
  ]

  pub lstrip_by-Heads_self : (a s : Str) → Heads a (lstrip_by p s) → lstrip_by p a ≡ a
  unfolding lstrip_by
  lstrip_by-Heads_self [] s h = refl
  lstrip_by-Heads_self (c ∷ a) s h = rw (lstrip_by-cons_self s c (sym h.eq))

  pub strip_by-Heads : (s : Str) → Heads (strip_by p s) (lstrip_by p s)
  unfolding strip_by
  strip_by-Heads s = rstrip_by-Heads (lstrip_by p s)

pub remove_suffix-Heads : (suffix s : Str) → Heads (remove_suffix suffix s) s
unfolding remove_suffix
remove_suffix-Heads suffix s =
    elim (Bool-cases (str_eq (drop (length s - length suffix) s) suffix)) [
      | inl e ↦ rw e (Heads-take (length s - length suffix) s)
      | inr e ↦ rw e (Heads-refl s)
    ]
