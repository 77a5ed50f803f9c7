-- ===== src/Placeholders/Order.antt =====
-- Where the placeholders that backend/placeholders.py finds stand.
use sqlide.Common.{
  ℕ, zero, suc, ◌+◌, ◌-◌, ◌≤◌, ◌<◌, some, List, [], ◌∷◌, ◌++◌, ◌≡◌, ◌⊎◌, inl, inr, refl, arith,
  Option-cases, ==_iff, length, get_elem?, drop, get_elem?-lt, drop-get_elem?, length-drop,
  first_case_ind,
}
use sqlide.Common.Text.{Str, codes, slice, starts_with-length, find, find-le, run_length-le}
use sqlide.Placeholders.{
  Placeholder, Move, skip, named, positional, move_at, past, quote_move, name_length, name_move,
  is_name_char, found_by, next_of, count_of, find_from, find_placeholders, positional_name,
}

-- A placeholder behind offset `i`: ":name" with its name, or "?" as number `k + 1` of the positional
-- ones; then the others behind it.
abbrev pub InOrder : Str → ℕ → ℕ → List Placeholder → Type 0
InOrder sql i k [] = Unit
InOrder sql i k (p ∷ ps) =
    (i ≤ p.start)
    × (p.start < p.stop)
    × (p.stop ≤ length sql)
    × (((slice sql p.start p.stop ≡ b':' ∷ p.name) × InOrder sql p.stop k ps)
        ⊎ ((slice sql p.start p.stop ≡ b'?' ∷ [])
            × (p.name ≡ positional_name (suc k))
            × InOrder sql p.stop (suc k) ps))

InOrder-earlier :
    (sql : Str) (i j k : ℕ) (ps : List Placeholder)
    → i ≤ j
    → InOrder sql j k ps
    → InOrder sql i k ps
InOrder-earlier sql i j k [] h o = tt
InOrder-earlier sql i j k (p ∷ ps) h o = (omega arith, o.1, o.2, o.3)

-- What one round may do at `i`.
abbrev IsMove : Str → ℕ → Move → Type 0
IsMove sql i (skip next) = i < next
IsMove sql i (named name next) = (i < next) × (next ≤ length sql) × (slice sql i next ≡ b':' ∷ name)
IsMove sql i positional = slice sql i (i + 1) ≡ b'?' ∷ []

past-IsMove :
    (width : ℕ) (sql sub : Str) (i j : ℕ)
    → i < length sql
    → i ≤ j
    → j ≤ length sql
    → 0 < width
    → IsMove sql i (past width sql (find sql sub j))
past-IsMove width sql sub i j h ij jn w = elim (Option-cases (find sql sub j)) [
  | inl e ↦ rw e h
  | inr (k, e) ↦ let b = find-le sql sub j jn e in rw e (omega arith)
]

slice_one : (sql : Str) (i : ℕ) {c : ℕ} → get_elem? sql i ≡ some c → slice sql i (i + 1) ≡ c ∷ []
slice_one sql i {c} h =
    let d : drop i sql ≡ c ∷ drop (suc i) sql = drop-get_elem? sql i h in
    let e : i + 1 - i ≡ 1 = omega arith in rw (d, e) refl

name_length-le : (s : Str) → name_length s ≤ length s
unfolding name_length
name_length-le [] = omega arith
name_length-le (c ∷ s) = ground (arith, run_length-le is_name_char s)

name_move-IsMove :
    (sql : Str) (i m : ℕ)
    → get_elem? sql i ≡ some b':'
    → m ≤ length (drop (suc i) sql)
    → IsMove sql i (name_move sql i m)
name_move-IsMove sql i zero e h = omega arith
name_move-IsMove sql i (suc m) e h =
    let d : drop i sql ≡ b':' ∷ drop (suc i) sql = drop-get_elem? sql i e in
    let a : suc i + suc m - i ≡ suc (suc m) = omega arith in
    let b : suc i + suc m - suc i ≡ suc m = omega arith in
    (omega arith, omega (arith, length-drop (suc i) sql, get_elem?-lt sql i e), rw (d, a, b) refl)

move_at-IsMove :
    (sql : Str) (i ch : ℕ) → get_elem? sql i ≡ some ch → IsMove sql i (move_at sql i ch)
unfolding move_at quote_move
move_at-IsMove sql i ch e =
    let lt = get_elem?-lt sql i e in
    let two = length-drop i sql in
    first_case_ind (IsMove sql i) _ (skip (i + 1))
      (
        (λ h. past-IsMove 1 sql (codes "\n") i i lt (omega arith) (omega arith) (omega arith)),
        (
          (λ h.
              past-IsMove 2 sql (codes "*/") i (i + 2) lt (omega arith)
                (omega (arith, starts_with-length (codes "/*") (drop i sql) h)) (omega arith)),
          (
            (λ h. omega arith),
            (
              (λ h. omega arith),
              (
                (λ h.
                    let c : ch ≡ b':' = (==_iff ch b':').0 h in
                    name_move-IsMove sql i (name_length (drop (suc i) sql)) (rw c at e)
                      (name_length-le (drop (suc i) sql))),
                (
                  (λ h. let c : ch ≡ b'?' = (==_iff ch b'?').0 h in slice_one sql i (rw c at e)),
                  tt,
                ),
              ),
            ),
          ),
        ),
      )
      (omega arith)

found_by-InOrder :
    (m : Move) (sql : Str) (i k : ℕ) (ps : List Placeholder)
    → i < length sql
    → IsMove sql i m
    → InOrder sql (next_of m i) (count_of m k) ps
    → InOrder sql i k (found_by m i k ++ ps)
unfolding found_by next_of count_of
found_by-InOrder (skip next) sql i k ps lt h o = InOrder-earlier sql i next k ps (omega arith) o
found_by-InOrder (named name next) sql i k ps lt h o = (omega arith, h.0, h.1, inl (h.2, o))
found_by-InOrder positional sql i k ps lt h o =
    (omega arith, omega arith, omega arith, inr (h, refl, o))

next_of-lt : (m : Move) (sql : Str) (i : ℕ) → IsMove sql i m → i < next_of m i
unfolding next_of
next_of-lt (skip next) sql i h = h
next_of-lt (named name next) sql i h = h.0
next_of-lt positional sql i h = omega arith

find_from-InOrder :
    (fuel : ℕ) (sql : Str) (i k : ℕ)
    → length sql - i < fuel
    → (ps : List Placeholder) × (find_from fuel sql i k ≡ some ps) × InOrder sql i k ps
unfolding find_from
find_from-InOrder zero sql i k h = absurd (omega arith)
find_from-InOrder (suc fuel) sql i k h = elim (Option-cases (get_elem? sql i)) [
  | inl e ↦ ([], rw (e, find_from) refl, tt)
  | inr (ch, e) ↦
      let m = move_at sql i ch in
      let lt = get_elem?-lt sql i e in
      let fits = move_at-IsMove sql i ch e in
      let less = next_of-lt m sql i fits in
      let (ps, found, order) =
        find_from-InOrder fuel sql (next_of m i) (count_of m k) (omega arith) in
      (
        found_by m i k ++ ps,
        rw (e, find_from, found) refl,
        found_by-InOrder m sql i k ps lt fits order,
      )
]

-- The scan of a statement ends, and the placeholders that it returns stand in the statement in
-- order, none overlapping another: each is a colon with the name behind it, or a question mark, and
-- the question marks are named ?1, ?2 and so on in the order in which they stand.
pub find_placeholders-InOrder :
    (sql : Str)
    → (find_from (suc (length sql)) sql 0 0 ≡ some (find_placeholders sql))
      × InOrder sql 0 0 (find_placeholders sql)
unfolding find_placeholders
find_placeholders-InOrder sql =
    let (ps, found, order) = find_from-InOrder (suc (length sql)) sql 0 0 (omega arith) in
    rw (found) (refl, order)
