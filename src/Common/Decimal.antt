-- ===== src/Common/Decimal.antt =====
-- `str` of a natural number tells numbers apart.
use sqlide.Common.{
  ℕ, zero, suc, ◌+◌, ◌-◌, ◌*◌, ◌/◌, ◌%◌, ◌<◌, [], ◌∷◌, ◌≡◌, ap, sym, ◌∙◌, inl, inr, arith, ltb,
  Bool-cases,
}
use sqlide.Common.Int.{pos, show_int, digits_onto}
use sqlide.Common.Text.{Str}

-- What a row of digits says behind a number.
read_onto : ℕ → Str → ℕ
read_onto n [] = n
read_onto n (c ∷ s) = read_onto (n * 10 + (c - 48)) s

read_onto-digits_onto :
    (fuel n : ℕ) (acc : Str) → n < fuel → read_onto 0 (digits_onto fuel n acc) ≡ read_onto n acc
unfolding digits_onto read_onto
read_onto-digits_onto zero n acc h = absurd (omega arith)
read_onto-digits_onto (suc fuel) n acc h = elim (Bool-cases (ltb n 10)) [
  | inl e ↦
      let k : 0 * 10 + (48 + n % 10 - 48) ≡ n = ground arith in rw e (ap (λ m. read_onto m acc) k)
  | inr e ↦
      let k : n / 10 * 10 + (48 + n % 10 - 48) ≡ n = omega arith in
      rw e (
        read_onto-digits_onto fuel (n / 10) ((48 + n % 10) ∷ acc) (ground arith)
        ∙ ap (λ m. read_onto m acc) k)
]

pub show_int-eq : (m n : ℕ) → show_int (pos m) ≡ show_int (pos n) → m ≡ n
unfolding show_int read_onto
show_int-eq m n h =
    sym (read_onto-digits_onto (suc m) m [] (omega arith))
    ∙ ap (read_onto 0) h
    ∙ read_onto-digits_onto (suc n) n [] (omega arith)
