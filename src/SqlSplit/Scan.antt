-- ===== src/SqlSplit/Scan.antt =====
-- The character helpers of backend/sql_split.py: where a quoted run, a dollar quote or a word ends.
use mathlib.Core.Option
use sqlide.Common.{
  ℕ, zero, suc, ◌+◌, ◌-◌, ◌≤◌, ◌<◌, Bool, false, not, ◌&&◌, ◌||◌, Option, none, some, [], ◌∷◌, ◌≡◌,
  refl, inl, inr, ◌⊎◌, arith, Option-cases, ◌==◌, if◌then◌else◌, length, get_elem?, drop,
  length-drop, get_elem?-lt, length-take_le,
}
use sqlide.Common.Text.{Str, CharTable, slice, run_length, run_length-le, to_upper}

-- `ConnectionProfile.kind`; only these three are told apart here.
pub data Dialect : Type 0 where
  mysql sqlite other : Dialect

-- `sql[i : i + 1]` passes the test; past the end it is "", which passes none.
abbrev pub test_at : (ℕ → Bool) → Str → ℕ → Bool
test_at p sql i = elim (get_elem? sql i) [ none ↦ false | some c ↦ p c ]

-- `ch in "Ee"`
abbrev pub is_e : ℕ → Bool
is_e c = c == b'E' || c == b'e'

-- How far behind the opening quote the closing one stands; the first flag says whether a backslash
-- escapes, the second that the next character is escaped.
unfoldable pub quoted_run : ℕ → Bool → Bool → Str → Option ℕ
quoted_run quote escaped skip [] = none
quoted_run quote escaped skip (c ∷ s) =
    let escapes = not skip && escaped && c == b'\\' in
    let rest = Option.map suc (quoted_run quote escaped escapes s) in
    if skip || escapes then rest else if c == quote then some 0 else rest

module _ (u : CharTable) where
  -- `ch.isalnum() or ch == "_"`
  abbrev pub is_word : ℕ → Bool
  is_word c = u.is_alnum c || c == b'_'

  -- The end of the run of word characters that starts at `i`.
  abbrev pub word_end : Str → ℕ → ℕ
  word_end sql i = i + run_length is_word (drop i sql)

  -- The E of E'…', and not the tail of a longer word.
  abbrev pub e_before : Str → ℕ → Bool
  e_before sql zero = false
  e_before sql (suc zero) = test_at is_e sql 0
  e_before sql (suc (suc k)) = test_at is_e sql (suc k) && not (test_at is_word sql k)

  unfoldable pub backslash_escapes : Str → ℕ → Dialect → Bool
  backslash_escapes sql i mysql = test_at (◌==◌ b'\'') sql i
  backslash_escapes sql i sqlite = false
  backslash_escapes sql i other = test_at (◌==◌ b'\'') sql i && e_before sql i

  -- The quote at `i` is the first argument.
  unfoldable pub quoted_end : ℕ → Str → ℕ → Dialect → ℕ
  unfolding quoted_run backslash_escapes
  quoted_end quote sql i dialect =
      elim (quoted_run quote (backslash_escapes sql i dialect) false (drop (suc i) sql)) [
        | none ↦ length sql
        | some k ↦ suc i + k
      ]

  -- `none` is "".
  unfoldable pub dollar_delimiter : Str → ℕ → Option Str
  dollar_delimiter sql i =
      let j = word_end sql (suc i) in
      if not (test_at (◌==◌ b'$') sql j)
      then none
      else if test_at u.is_digit (slice sql (suc i) j) 0
      then none
      else some (slice sql i (suc j))

  unfoldable pub peek_word : Str → ℕ → Str × ℕ
  peek_word sql i =
      let start = i + run_length u.is_space (drop i sql) in
      let stop = word_end sql start in (to_upper u (slice sql start stop), stop)

map-suc-lt :
    (o : Option ℕ) (n : ℕ) {k : ℕ}
    → ((j : ℕ) → o ≡ some j → j < n)
    → Option.map suc o ≡ some k
    → k < suc n
map-suc-lt none n h e = absurd (cc)
map-suc-lt (some j) n h e = ground (arith, h j refl)

-- What `quoted_run` returns is 0 or comes from further on.
run-cases :
    (a b : Bool) (o : Option ℕ) {k : ℕ}
    → (if a then o else if b then some 0 else o) ≡ some k
    → (k ≡ 0) ⊎ (o ≡ some k)
run-cases a b o h = ground arith

pub quoted_run-lt :
    (quote : ℕ) (escaped skip : Bool) (s : Str) {k : ℕ}
    → quoted_run quote escaped skip s ≡ some k
    → k < length s
unfolding quoted_run
quoted_run-lt quote escaped skip [] h = absurd (cc)
quoted_run-lt quote escaped skip (c ∷ s) h =
    let escapes = not skip && escaped && c == b'\\' in
    elim (run-cases (skip || escapes) (c == quote)
      (Option.map suc (quoted_run quote escaped escapes s)) h) [
        | inl e ↦ omega arith
        | inr e ↦
            map-suc-lt (quoted_run quote escaped escapes s) (length s)
              (λ j p. quoted_run-lt quote escaped escapes s p) e
      ]

module _ (u : CharTable) where
  pub quoted_end-le :
      (quote : ℕ) (sql : Str) (i : ℕ) (dialect : Dialect)
      → i < length sql
      → (i < quoted_end u quote sql i dialect) × (quoted_end u quote sql i dialect ≤ length sql)
  unfolding quoted_end
  quoted_end-le quote sql i dialect h =
      elim (Option-cases
        (quoted_run quote (backslash_escapes u sql i dialect) false (drop (suc i) sql))) [
          | inl e ↦ rw (e, quoted_end) (omega arith)
          | inr (k, e) ↦
              rw (e, quoted_end)
                (omega (
                  arith,
                  quoted_run-lt quote (backslash_escapes u sql i dialect) false (drop (suc i) sql)
                      e,
                  length-drop (suc i) sql,
                ))
        ]

  pub word_end-le : (sql : Str) (i : ℕ) → i ≤ length sql → word_end u sql i ≤ length sql
  word_end-le sql i h = omega (arith, run_length-le (is_word u) (drop i sql), length-drop i sql)

  -- A delimiter found is not empty and lies within the script.
  pub dollar_delimiter-le :
      (sql : Str) (i : ℕ) {d : Str}
      → dollar_delimiter u sql i ≡ some d
      → (0 < length d) × (i + length d ≤ length sql)
  unfolding dollar_delimiter
  dollar_delimiter-le sql i {d} h = go (get_elem? sql j) refl
    where
      j : ℕ
      j = word_end u sql (suc i)

      size : j < length sql → length (slice sql i (suc j)) ≡ suc j - i
      size lt = length-take_le (suc j - i) (drop i sql) (omega (arith, length-drop i sql))

      go : (o : Option ℕ) → get_elem? sql j ≡ o → (0 < length d) × (i + length d ≤ length sql)
      go none e = ground (arith, h)
      go (some c) e = ground (arith, h, size (get_elem?-lt sql j e), get_elem?-lt sql j e)
