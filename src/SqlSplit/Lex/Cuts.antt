-- ===== src/SqlSplit/Lex/Cuts.antt =====
-- Every cut of the scanner lies in the script and moves on.
use sqlide.Common.{
  ℕ, suc, ◌+◌, ◌-◌, ◌≤◌, ◌<◌, Bool, true, ◌&&◌, ◌||◌, Option, none, some, List, [], ◌∷◌, ◌≡◌, refl,
  inl, inr, ◌⊎◌, arith, ◌==◌, if◌then◌else◌, Option-cases, length, get_elem?, drop, length-drop,
  All, first_case_ind, get_elem?-lt, drop-get_elem?,
}
use sqlide.Common.Text.{
  Str, codes, CharTable, IsPython, run_length, run_length-le, find, find-le, find_here,
  find_here-le, starts_with, starts_with-length,
}
use sqlide.SqlSplit.Scan.{
  Dialect, test_at, is_e, is_word, word_end, word_end-le, quoted_end, quoted_end-le,
  dollar_delimiter, dollar_delimiter-le,
}
use sqlide.SqlSplit.Lex.{
  Kind, Cut, cut, until, line_comment, run_cut, operator_width, operators, number_run, plain_cut,
  dollar_cut, code_cut, next_cut, comment, string, quoted, dollar, word, number, param, punct,
}

-- The piece ends behind `i` and within the script, and the scan goes on at its end, or past the
-- end of the script.
pub record Fits (sql : Str) (i : ℕ) (c : Cut) : Type 0 where
  pub grows : i < c.stop
  pub within : c.stop ≤ length sql
  pub follows : (c.next ≡ c.stop) ⊎ ((c.stop ≡ length sql) × (length sql ≤ c.next))

module _ (sql : Str) (i : ℕ) where
  Fits-cut : (kind : Kind) (stop : ℕ) → i < stop → stop ≤ length sql → Fits sql i (cut kind stop)
  Fits-cut kind stop g w = record { grows = g; within = w; follows = inl refl }

  Fits-run_cut : (kind : Kind) (e : ℕ) → i < e → e ≤ length sql → Fits sql i (run_cut kind sql e)
  Fits-run_cut kind e g w = record {
    grows = ground arith;
    within = ground arith;
    follows = ground arith;
  }

  Fits-until :
      (kind : Kind) (o : Option ℕ) (wide : ℕ)
      → i < length sql
      → ((e : ℕ) → o ≡ some e → (i < e + wide) × (e + wide ≤ length sql))
      → Fits sql i (until kind sql o wide)
  Fits-until kind none wide h f = record { grows = h; within = omega arith; follows = inl refl }
  Fits-until kind (some e) wide h f = record {
    grows = (f e refl).0;
    within = (f e refl).1;
    follows = inl refl;
  }

  pub starts_with-room :
      (sub : Str) → starts_with sub (drop i sql) ≡ true → length sub ≤ length sql - i
  starts_with-room sub h = omega (arith, starts_with-length sub (drop i sql) h, length-drop i sql)

operator_width-le :
    (ops : List Str) (s : Str)
    → All (λ op. 0 < length op) ops
    → 0 < length s
    → (0 < operator_width ops s) × (operator_width ops s ≤ length s)
unfolding operator_width
operator_width-le [] s h n = omega arith
operator_width-le (op ∷ ops) s h n =
    ground (arith, operator_width-le ops s h.1 n, starts_with-length op s, h.0)

module _ (u : CharTable) where
  number_run-le : (prev : ℕ) (s : Str) → number_run u prev s ≤ length s
  unfolding number_run
  number_run-le prev [] = omega arith
  number_run-le prev (c ∷ s) = ground (arith, number_run-le c s)

module _ (u : CharTable) (laws : IsPython u) (sql : Str) (i ch : ℕ)
    (here : get_elem? sql i ≡ some ch) where
  in_range : i < length sql
  in_range = get_elem?-lt sql i here

  -- A run that takes its first character is not empty.
  run_pos : (p : ℕ → Bool) → p ch ≡ true → 0 < run_length p (drop i sql)
  unfolding run_length
  run_pos p h = rw (drop-get_elem? sql i here) (ground arith)

  number_pos :
      (u.is_digit ch || (ch == b'.' && test_at u.is_digit sql (suc i))) ≡ true
      → 0 < number_run u 0 (drop i sql)
  unfolding number_run
  number_pos h = rw (drop-get_elem? sql i here) (ground (arith, laws.digit_alnum ch))

  pub word_pos : (u.is_alpha ch || ch == b'_') ≡ true → i < word_end u sql i
  word_pos h = omega (arith, run_pos (is_word u) (ground (arith, laws.alpha_alnum ch)))

  after_e : is_e ch && test_at (◌==◌ b'\'') sql (suc i) ≡ true → suc i < length sql
  after_e h = elim (Option-cases (get_elem? sql (suc i))) [
    | inl e ↦ ground (arith, h)
    | inr (c, e) ↦ get_elem?-lt sql (suc i) e
  ]

  Fits-cut_digits : Fits sql i (cut param (suc i + run_length u.is_digit (drop (suc i) sql)))
  Fits-cut_digits =
      Fits-cut sql i param (suc i + run_length u.is_digit (drop (suc i) sql)) (omega arith) (
        omega
          (arith, in_range, run_length-le u.is_digit (drop (suc i) sql), length-drop (suc i) sql))

  Fits-cut_name : Fits sql i (cut param (word_end u sql (suc i)))
  Fits-cut_name =
      Fits-cut sql i param (word_end u sql (suc i)) (omega arith)
        (word_end-le u sql (suc i) (omega (arith, in_range)))

  Fits-cut_operator : Fits sql i (cut punct (i + operator_width operators (drop i sql)))
  Fits-cut_operator =
      let wide =
        operator_width-le operators (drop i sql) (omega arith)
          (omega (arith, in_range, length-drop i sql)) in
      Fits-cut sql i punct (i + operator_width operators (drop i sql)) (omega (arith, wide))
        (omega (arith, in_range, wide, length-drop i sql))

  Fits-plain_cut : Fits sql i (plain_cut u sql i ch)
  unfolding plain_cut
  Fits-plain_cut =
      first_case_ind (Fits sql i) _ _
        (
          (λ _. Fits-cut_digits),
          (
            (λ _. Fits-cut_name),
            (
              (λ h.
                  Fits-cut sql i number (i + number_run u 0 (drop i sql))
                    (omega (arith, number_pos h))
                    (omega (arith, in_range, number_run-le u 0 (drop i sql), length-drop i sql))),
              (
                (λ h.
                    Fits-cut sql i word (word_end u sql i) (word_pos h)
                      (word_end-le u sql i (omega (arith, in_range)))),
                tt,
              ),
            ),
          ),
        )
        Fits-cut_operator

  Fits-dollar_cut :
      (o : Option Str)
      → ((d : Str) → o ≡ some d → dollar_delimiter u sql i ≡ some d)
      → Fits sql i (dollar_cut u sql i ch o)
  Fits-dollar_cut none f = Fits-plain_cut
  Fits-dollar_cut (some d) f =
      let (pos, room) = dollar_delimiter-le u sql i (f d refl) in
      Fits-until sql i dollar _ (length d) in_range
        λ e h. let (a, b) = find-le sql d (i + length d) room h in (omega arith, b)

  Fits-quoted_end :
      (kind : Kind) (quote : ℕ) (dialect : Dialect)
      → Fits sql i (run_cut kind sql (quoted_end u quote sql i dialect))
  Fits-quoted_end kind quote dialect =
      let (a, b) = quoted_end-le u quote sql i dialect in_range in
      Fits-run_cut sql i kind (quoted_end u quote sql i dialect) a b

  Fits-code_cut : (dialect : Dialect) → Fits sql i (code_cut u sql dialect i ch)
  unfolding code_cut
  Fits-code_cut dialect =
      first_case_ind (Fits sql i) _ _
        (
          (λ _. Fits-quoted_end string b'\'' dialect),
          (
            (λ h.
                let (a, b) = quoted_end-le u b'\'' sql (suc i) dialect (after_e h) in
                Fits-run_cut sql i string (quoted_end u b'\'' sql (suc i) dialect) (omega arith) b),
            ((λ _. Fits-quoted_end quoted ch dialect), tt),
          ),
        )
        (Fits-dollar_cut (if ch == b'$' then dollar_delimiter u sql i else none)
          λ d h. ground (arith, h))

  line_break_behind :
      starts_with (codes "--") (drop i sql) ≡ true
      → {k : ℕ} → find_here (codes "\n") (drop i sql) ≡ some k
      → 0 < k
  unfolding find_here
  line_break_behind h {k} p = go (drop i sql) h p
    where
      go : (s : Str) → starts_with (codes "--") s ≡ true → find_here (codes "\n") s ≡ some k → 0 < k
      go [] a b = ground (arith, a)
      go (c ∷ s) a b = ground (arith, a, b)

  Fits-line_comment : starts_with (codes "--") (drop i sql) ≡ true → Fits sql i (line_comment sql i)
  Fits-line_comment h = elim (Option-cases (find_here (codes "\n") (drop i sql))) [
    | inl e ↦ rw e (Fits-cut sql i comment (length sql) in_range (omega arith))
    | inr (k, e) ↦ rw e (
        Fits-cut sql i comment (i + k) (omega (arith, line_break_behind h e))
          (omega (arith, in_range, find_here-le (codes "\n") (drop i sql) e, length-drop i sql)))
  ]

  pub Fits-next_cut : (dialect : Dialect) → Fits sql i (next_cut u sql dialect i ch)
  unfolding next_cut
  Fits-next_cut dialect =
      first_case_ind (Fits sql i) _ _
        (
          Fits-line_comment,
          (
            (λ h.
                let room = starts_with-room sql i (codes "/*") h in
                Fits-until sql i comment (find sql (codes "*/") (i + 2)) 2 in_range λ e p.
                  let (a, b) = find-le sql (codes "*/") (i + 2) (omega (arith, in_range)) p in
                  (omega arith, omega arith)),
            tt,
          ),
        )
        (Fits-code_cut dialect)
