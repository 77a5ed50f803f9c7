-- ===== src/Placeholders/Numbers.antt =====
-- The numbers that `_NUMBER` of backend/placeholders.py matches.
use sqlide.Common.{
  ℕ, Bool, true, some, [], ◌∷◌, ◌++◌, ◌≡◌, ◌⊎◌, inl, inr, refl, ap, Bool-cases, ◌==◌, ==_iff, All,
}
use sqlide.Common.Text.{Str, codes}
use sqlide.Placeholders.{
  NumberState, sign, whole_first, whole, dot, fraction, exponent, exponent_first, exponent_digits,
  number_step, number_from, is_exponent,
}

module _ (is_decimal : ℕ → Bool) where
  -- One digit or more.
  abbrev pub IsDigits : Str → Type 0
  IsDigits [] = ⊥
  IsDigits (d ∷ ds) = All (λ c. is_decimal c ≡ true) (d ∷ ds)

  abbrev pub IsSign : Str → Type 0
  IsSign s = (s ≡ []) ⊎ ((s ≡ codes "+") ⊎ (s ≡ codes "-"))

  abbrev pub IsFraction : Str → Type 0
  IsFraction s = (s ≡ []) ⊎ ((ds : Str) × IsDigits ds × (s ≡ b'.' ∷ ds))

  -- The power behind the letter of an exponent.
  abbrev IsPower : Str → Type 0
  IsPower s = (sg : Str) × (ds : Str) × IsSign sg × IsDigits ds × (s ≡ sg ++ ds)

  abbrev pub IsExponent : Str → Type 0
  IsExponent s =
      (s ≡ []) ⊎ ((power : Str) × IsPower power × ((s ≡ b'e' ∷ power) ⊎ (s ≡ b'E' ∷ power)))

  -- A number as SQL writes one: at most one sign, digits, and perhaps a point with digits and an
  -- exponent. A second sign, which could open a comment, is nowhere beside the first.
  abbrev pub IsNumber : Str → Type 0
  IsNumber s =
      (sg ds fr ex : Str) × IsSign sg
      × IsDigits ds
      × IsFraction fr
      × IsExponent ex
      × (s ≡ sg ++ (ds ++ (fr ++ ex)))

  abbrev Runs : NumberState → Str → Type 0
  Runs q s = number_from is_decimal (some q) s ≡ true

  IsDigits-cons :
      (c : ℕ) (ds : Str)
      → is_decimal c ≡ true
      → All (λ c. is_decimal c ≡ true) ds
      → IsDigits (c ∷ ds)
  IsDigits-cons c ds h k = (h, k)

  exponent_digits-All : (s : Str) → Runs exponent_digits s → All (λ c. is_decimal c ≡ true) s
  unfolding number_from number_step
  exponent_digits-All [] h = tt
  exponent_digits-All (c ∷ s) h = elim (Bool-cases (is_decimal c)) [
    | inl e ↦ (e, exponent_digits-All s (rw (e, number_from, number_step) at h))
    | inr e ↦ absurd (cc (rw (e, number_from, number_step) at h))
  ]

  exponent_first-IsDigits : (s : Str) → Runs exponent_first s → IsDigits s
  unfolding number_from number_step
  exponent_first-IsDigits [] h = absurd (cc)
  exponent_first-IsDigits (c ∷ s) h = elim (Bool-cases (is_decimal c)) [
    | inl e ↦ (e, exponent_digits-All s (rw (e, number_from, number_step) at h))
    | inr e ↦ absurd (cc (rw (e, number_from, number_step) at h))
  ]

  exponent-IsPower : (s : Str) → Runs exponent s → IsPower s
  unfolding number_from number_step
  exponent-IsPower [] h = absurd (cc)
  exponent-IsPower (c ∷ s) h = elim (Bool-cases (c == b'+')) [
    | inl p ↦
        let k : c ≡ b'+' = (==_iff c b'+').0 p in
        (
          c ∷ [],
          s,
          inr (inl (ap (λ x. x ∷ []) k)),
          exponent_first-IsDigits s (rw (p, number_from, number_step) at h),
          refl,
        )
    | inr p ↦ elim (Bool-cases (c == b'-')) [
      | inl m ↦
          let k : c ≡ b'-' = (==_iff c b'-').0 m in
          (
            c ∷ [],
            s,
            inr (inr (ap (λ x. x ∷ []) k)),
            exponent_first-IsDigits s (rw (p, m, number_from, number_step) at h),
            refl,
          )
      | inr m ↦ elim (Bool-cases (is_decimal c)) [
        | inl e ↦ (
          [],
          c ∷ s,
          inl refl,
          (e, exponent_digits-All s (rw (p, m, e, number_from, number_step) at h)),
          refl,
        )
        | inr e ↦ absurd (cc (rw (p, m, e, number_from, number_step) at h))
      ]
    ]
  ]

  -- What follows the digits of the fraction, and those of the whole part.
  abbrev IsTail : Str → Type 0
  IsTail s = (ds ex : Str) × All (λ c. is_decimal c ≡ true) ds × IsExponent ex × (s ≡ ds ++ ex)

  exponent-letter : (c : ℕ) (s : Str) → is_exponent c ≡ true → Runs exponent s → IsExponent (c ∷ s)
  exponent-letter c s e h = elim (Bool-cases (c == b'e')) [
    | inl p ↦ inr (s, exponent-IsPower s h, inl (ap (λ x. x ∷ s) ((==_iff c b'e').0 p)))
    | inr p ↦ inr (s, exponent-IsPower s h, inr (ap (λ x. x ∷ s) ((==_iff c b'E').0 (rw p at e))))
  ]

  fraction-IsTail : (s : Str) → Runs fraction s → IsTail s
  unfolding number_from number_step
  fraction-IsTail [] h = ([], [], tt, inl refl, refl)
  fraction-IsTail (c ∷ s) h = elim (Bool-cases (is_decimal c)) [
    | inl e ↦
        let (ds, ex, k, l, m) = fraction-IsTail s (rw (e, number_from, number_step) at h) in
        (c ∷ ds, ex, (e, k), l, ap (λ x. c ∷ x) m)
    | inr e ↦ elim (Bool-cases (is_exponent c)) [
      | inl f ↦
          ([], c ∷ s, tt, exponent-letter c s f (rw (e, f, number_from, number_step) at h), refl)
      | inr f ↦ absurd (cc (rw (e, f, number_from, number_step) at h))
    ]
  ]

  dot-IsTail : (s : Str) → Runs dot s → (ds ex : Str) × IsDigits ds × IsExponent ex × (s ≡ ds ++ ex)
  unfolding number_from number_step
  dot-IsTail [] h = absurd (cc)
  dot-IsTail (c ∷ s) h = elim (Bool-cases (is_decimal c)) [
    | inl e ↦
        let (ds, ex, k, l, m) = fraction-IsTail s (rw (e, number_from, number_step) at h) in
        (c ∷ ds, ex, (e, k), l, ap (λ x. c ∷ x) m)
    | inr e ↦ absurd (cc (rw (e, number_from, number_step) at h))
  ]

  -- What follows the first digit.
  abbrev IsRest : Str → Type 0
  IsRest s =
      (ds fr ex : Str) × All (λ c. is_decimal c ≡ true) ds
      × IsFraction fr
      × IsExponent ex
      × (s ≡ ds ++ (fr ++ ex))

  whole-IsRest : (s : Str) → Runs whole s → IsRest s
  unfolding number_from number_step
  whole-IsRest [] h = ([], [], [], tt, inl refl, inl refl, refl)
  whole-IsRest (c ∷ s) h = elim (Bool-cases (is_decimal c)) [
    | inl e ↦
        let (ds, fr, ex, k, l, m, n) = whole-IsRest s (rw (e, number_from, number_step) at h) in
        (c ∷ ds, fr, ex, (e, k), l, m, ap (λ x. c ∷ x) n)
    | inr e ↦ elim (Bool-cases (c == b'.')) [
      | inl p ↦
          let (ds, ex, k, l, m) = dot-IsTail s (rw (e, p, number_from, number_step) at h) in
          let q : c ≡ b'.' = (==_iff c b'.').0 p in
          ([], c ∷ ds, ex, tt, inr (ds, k, ap (λ x. x ∷ ds) q), l, ap (λ x. c ∷ x) m)
      | inr p ↦ elim (Bool-cases (is_exponent c)) [
        | inl f ↦ (
          [],
          [],
          c ∷ s,
          tt,
          inl refl,
          exponent-letter c s f (rw (e, p, f, number_from, number_step) at h),
          refl,
        )
        | inr f ↦ absurd (cc (rw (e, p, f, number_from, number_step) at h))
      ]
    ]
  ]

  with_digit :
      (sg : Str) (c : ℕ) (s : Str)
      → IsSign sg
      → is_decimal c ≡ true
      → IsRest s
      → IsNumber (sg ++ c ∷ s)
  with_digit sg c s g e (ds, fr, ex, k, l, m, n) =
      (sg, c ∷ ds, fr, ex, g, (e, k), l, m, ap (λ x. sg ++ c ∷ x) n)

  whole_first-IsNumber : (sg s : Str) → IsSign sg → Runs whole_first s → IsNumber (sg ++ s)
  unfolding number_from number_step
  whole_first-IsNumber sg [] g h = absurd (cc)
  whole_first-IsNumber sg (c ∷ s) g h = elim (Bool-cases (is_decimal c)) [
    | inl e ↦ with_digit sg c s g e (whole-IsRest s (rw (e, number_from, number_step) at h))
    | inr e ↦ absurd (cc (rw (e, number_from, number_step) at h))
  ]

  -- What the pattern of a number takes is a number.
  pub number_from_lem : (s : Str) → Runs sign s → IsNumber s
  unfolding number_from number_step
  number_from_lem [] h = absurd (cc)
  number_from_lem (c ∷ s) h = elim (Bool-cases (c == b'+')) [
    | inl p ↦
        whole_first-IsNumber (c ∷ []) s (inr (inl (ap (λ x. x ∷ []) ((==_iff c b'+').0 p))))
          (rw (p, number_from, number_step) at h)
    | inr p ↦ elim (Bool-cases (c == b'-')) [
      | inl m ↦
          whole_first-IsNumber (c ∷ []) s (inr (inr (ap (λ x. x ∷ []) ((==_iff c b'-').0 m))))
            (rw (p, m, number_from, number_step) at h)
      | inr m ↦ elim (Bool-cases (is_decimal c)) [
        | inl e ↦
            with_digit [] c s (inl refl) e
              (whole-IsRest s (rw (p, m, e, number_from, number_step) at h))
        | inr e ↦ absurd (cc (rw (p, m, e, number_from, number_step) at h))
      ]
    ]
  ]
