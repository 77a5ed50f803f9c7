-- ===== src/Placeholders/Literal.antt =====
-- `as_literal` of backend/placeholders.py: a value stays one literal.
use mathlib.Core.Option
use mathlib.Core.List.{append_assoc}
use sqlide.Common.{
  ℕ, Bool, true, false, Option, none, some, [], ◌∷◌, ◌++◌, ◌≡◌, ◌⊎◌, inl, inr, refl, ap, sym,
  Bool-cases, ◌==◌, ==_iff, if◌then◌else◌,
}
use sqlide.Common.Text.{Str, codes, CharTable, is_one_of, to_upper, to_lower, strip}
use sqlide.Placeholders.Numbers.{IsNumber, number_from_lem}
use sqlide.Placeholders.{sign, number_from, bare_words, doubled, is_blank, as_literal}

abbrev starts_quoted : Str → Bool
starts_quoted [] = false
starts_quoted (c ∷ s) = c == b'\''

abbrev keep_char : ℕ → Str × Str → Str × Str
keep_char c (text, rest) = (c ∷ text, rest)

-- How standard SQL reads a string behind its opening quote: two quotes are one character, and one
-- quote ends it. The flag says that a quote has just been read, whose meaning the next character
-- decides. The string with what follows it.
unfoldable pub read_string : Bool → Str → Option (Str × Str)
read_string true [] = some ([], [])
read_string false [] = none
read_string true (c ∷ s) =
    let rest = Option.map (keep_char c) (read_string false s) in
    if c == b'\'' then rest else some ([], c ∷ s)
read_string false (c ∷ s) =
    let quote = read_string true s in
    let rest = Option.map (keep_char c) (read_string false s) in if c == b'\'' then quote else rest

read_string-end :
    (rest : Str) → starts_quoted rest ≡ false → read_string true rest ≡ some ([], rest)
unfolding read_string
read_string-end [] h = refl
read_string-end (c ∷ s) h = rw h refl

read_string-doubled :
    (v rest : Str)
    → starts_quoted rest ≡ false
    → read_string false (doubled v ++ b'\'' ∷ rest) ≡ some (v, rest)
unfolding read_string doubled
read_string-doubled [] rest h = read_string-end rest h
read_string-doubled (c ∷ v) rest h =
    let ih = read_string-doubled v rest h in
    elim (Bool-cases (c == b'\'')) [
      | inl e ↦
          let k : c ≡ b'\'' = (==_iff c b'\'').0 e in
          rw (e, ih) (ap (λ d. some (d ∷ v, rest)) (sym k))
      | inr e ↦ rw (e, e, ih) refl
    ]

module _ (is_decimal : ℕ → Bool) where
  -- What a literal may be: NULL for a blank value, one of the three bare words, a number as it was
  -- written, or a string that reads back as the whole value, whatever follows but a quote.
  abbrev pub IsLiteralOf : CharTable → Str → Str → Type 0
  IsLiteralOf u value lit =
      ((is_blank (strip u value) ≡ true) × (lit ≡ codes "NULL"))
      ⊎ (((is_one_of (to_lower u (strip u value)) bare_words ≡ true)
            × (lit ≡ to_upper u (strip u value)))
          ⊎ (((lit ≡ strip u value) × IsNumber is_decimal lit)
              ⊎ ((body : Str) × (lit ≡ b'\'' ∷ body)
                  × ((rest : Str)
                      → starts_quoted rest ≡ false
                      → read_string false (body ++ rest) ≡ some (value, rest)))))

  -- The text written for a value is NULL for a blank one, a bare word in upper case, the value itself
  -- where it is a number (one sign at most, digits, a fraction, an exponent), or else a string that
  -- standard SQL reads back as the value, with what follows left alone unless that opens with a quote.
  pub as_literal-IsLiteralOf :
      (u : CharTable) (value : Str) → IsLiteralOf u value (as_literal u is_decimal value)
  unfolding as_literal
  as_literal-IsLiteralOf u value =
      let text = strip u value in
      elim (Bool-cases (is_blank text)) [
        | inl e ↦ rw e (inl (refl, refl))
        | inr e ↦ elim (Bool-cases (is_one_of (to_lower u text) bare_words)) [
          | inl f ↦ rw (e, f) (inr (inl (refl, refl)))
          | inr f ↦ elim (Bool-cases (number_from is_decimal (some sign) text)) [
            | inl g ↦ rw (e, f, g) (inr (inr (inl (refl, number_from_lem is_decimal text g))))
            | inr g ↦
                rw (e, f, g)
                  (inr (
                    inr (
                      inr (
                        doubled value ++ b'\'' ∷ [],
                        refl,
                        λ rest h.
                            rw (append_assoc (doubled value) (b'\'' ∷ []) rest)
                              (read_string-doubled value rest h),
                      ))))
          ]
        ]
      ]
