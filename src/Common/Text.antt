-- ===== src/Common/Text.antt =====
-- Python's `str` as a list of code points, and the methods of it that the modules use.
use Prim.Native.Char.{code}
use Prim.Native.String.{String}
use mathlib.Core.Option
use mathlib.Core.List.{List, [], ◌∷◌, ◌++◌, map, flat_map}
use mathlib.Core.Option.{Option, none, some}
use Prim.Native.Nat.{ℕ, suc, ◌+◌, ◌-◌, ◌≤◌}
use mathlib.Core.Path.{subst, ◌≡◌, refl, sym, ◌∙◌}
use mathlib.Core.Logic.{◌↔◌, inl, inr}
use mathlib.Core.Bool.{Bool, true, false, ◌&&◌, ◌||◌}
use native.Mathlib.Omega.{arith}
use sqlide.Common.Tests.{◌==◌, leb, if◌then◌else◌, Bool-cases, Option-cases}
use sqlide.Common.Lists.{
  All, length, take, drop, any, length-drop, length-take_le, take-append-drop, drop-drop,
}

abbrev pub Str : Type 0
Str = List ℕ

-- A literal of the source.
abbrev pub codes : String → Str
codes String.[] = []
codes (String.◌∷◌ c s) = code c ∷ codes s

abbrev pub words : List String → List Str
words = map codes

-- The character tables behind `str.isalpha`, `str.upper` and the like. They belong to the Python
-- runtime; the theorems hold for every table, and name the documented facts that they rely on.
pub record CharTable : Type 0 where
  pub is_alpha : ℕ → Bool
  pub is_digit : ℕ → Bool
  pub is_alnum : ℕ → Bool
  pub is_space : ℕ → Bool
  pub upper : ℕ → Str
  pub lower : ℕ → Str

-- "A character c is alphanumeric if one of c.isalpha(), c.isdecimal(), c.isdigit() or
-- c.isnumeric() returns True."
pub record IsPython (u : CharTable) : Type 0 where
  pub alpha_alnum : (c : ℕ) → u.is_alpha c ≡ true → u.is_alnum c ≡ true
  pub digit_alnum : (c : ℕ) → u.is_digit c ≡ true → u.is_alnum c ≡ true

-- `a == b`
unfoldable pub str_eq : Str → Str → Bool
str_eq [] [] = true
str_eq (x ∷ a) (y ∷ b) = x == y && str_eq a b
str_eq _ _ = false

pub str_eq_iff : (a b : Str) → (str_eq a b ≡ true) ↔ (a ≡ b)
unfolding str_eq
str_eq_iff (x ∷ a) (y ∷ b) = ground (arith, str_eq_iff a b)
str_eq_iff _ _ = ground arith

-- `a in words`
abbrev pub is_one_of : Str → List Str → Bool
is_one_of a ws = any (str_eq a) ws

-- What holds of each listed word holds of a word that is one of them.
pub is_one_of_ind {ℓ} :
    (P : Str → Type ℓ) (a : Str) (ws : List Str) → All P ws → is_one_of a ws ≡ true → P a
is_one_of_ind P a [] h e = absurd (cc)
is_one_of_ind P a (w ∷ ws) h e = elim (Bool-cases (str_eq a w)) [
  | inl same ↦ subst P (sym ((str_eq_iff a w).0 same)) h.0
  | inr differs ↦ is_one_of_ind P a ws h.1 (rw differs at e)
]

-- `s.startswith(sub)`
unfoldable pub starts_with : Str → Str → Bool
starts_with [] s = true
starts_with (x ∷ sub) [] = false
starts_with (x ∷ sub) (c ∷ s) = x == c && starts_with sub s

pub starts_with-length : (sub s : Str) → starts_with sub s ≡ true → length sub ≤ length s
unfolding starts_with
starts_with-length [] s h = omega arith
starts_with-length (x ∷ sub) [] h = absurd (cc)
starts_with-length (x ∷ sub) (c ∷ s) h = ground (arith, starts_with-length sub s)

-- How far into `s` the first `sub` stands.
unfoldable pub find_here : Str → Str → Option ℕ
unfolding starts_with
find_here sub [] = if starts_with sub [] then some 0 else none
find_here sub (c ∷ s) =
    let rest = Option.map suc (find_here sub s) in if starts_with sub (c ∷ s) then some 0 else rest

map-suc-le :
    (o : Option ℕ) (m n : ℕ) {k : ℕ}
    → ((j : ℕ) → o ≡ some j → j + m ≤ n)
    → Option.map suc o ≡ some k
    → k + m ≤ suc n
map-suc-le none m n h e = absurd (cc)
map-suc-le (some j) m n h e = ground (arith, h j refl)

pub find_here-le : (sub s : Str) {k : ℕ} → find_here sub s ≡ some k → k + length sub ≤ length s
unfolding find_here
find_here-le sub [] h = ground (arith, starts_with-length sub [])
find_here-le sub (c ∷ s) h = elim (Bool-cases (starts_with sub (c ∷ s))) [
  | inl e ↦ ground (arith, starts_with-length sub (c ∷ s) e, rw e at h)
  | inr e ↦
      map-suc-le (find_here sub s) (length sub) (length s) (λ j p. find_here-le sub s p) (rw e at h)
]

-- `sql.find(sub, i)`; `none` is -1.
abbrev pub find : Str → Str → ℕ → Option ℕ
find sql sub i = Option.map (◌+◌ i) (find_here sub (drop i sql))

-- `sql[i:j]`
abbrev pub slice : Str → ℕ → ℕ → Str
slice sql i j = take (j - i) (drop i sql)

pub length-slice : (s : Str) (i j : ℕ) → i ≤ j → j ≤ length s → length (slice s i j) ≡ j - i
length-slice s i j h k = length-take_le (j - i) (drop i s) (omega (arith, length-drop i s))

pub slice-append-drop : (s : Str) (i j : ℕ) → i ≤ j → drop i s ≡ slice s i j ++ drop j s
slice-append-drop s i j h =
    let e : i + (j - i) ≡ j = omega arith in
    sym (take-append-drop (j - i) (drop i s)) ∙ rw drop-drop (rw e)

-- `s.split(c)`: the first part and the others.
abbrev pub join_part : ℕ → Bool → Str × List Str → Str × List Str
join_part c true (part, parts) = ([], part ∷ parts)
join_part c false (part, parts) = (c ∷ part, parts)

unfoldable pub split_on : ℕ → Str → Str × List Str
split_on c [] = ([], [])
split_on c (x ∷ s) = join_part x (x == c) (split_on c s)

-- `sep.join(parts)`
unfoldable pub join : Str → List Str → Str
join sep [] = []
join sep (p ∷ []) = p
join sep (p ∷ q ∷ rest) = p ++ (sep ++ join sep (q ∷ rest))

-- How many characters from the front pass the test.
unfoldable pub run_length : (ℕ → Bool) → Str → ℕ
run_length p [] = 0
run_length p (c ∷ s) = let rest = suc (run_length p s) in if p c then rest else 0

pub run_length-le : (p : ℕ → Bool) (s : Str) → run_length p s ≤ length s
unfolding run_length
run_length-le p [] = omega arith
run_length-le p (c ∷ s) = ground (arith, run_length-le p s)

pub find-le :
    (sql sub : Str) (i : ℕ) {e : ℕ}
    → i ≤ length sql
    → find sql sub i ≡ some e
    → (i ≤ e) × (e + length sub ≤ length sql)
find-le sql sub i h p = elim (Option-cases (find_here sub (drop i sql))) [
  | inl q ↦ absurd (cc)
  | inr (k, q) ↦ ground (arith, find_here-le sub (drop i sql) q, length-drop i sql)
]

-- Strips from the front, or from the end, what passes the test.
unfoldable pub lstrip_by : (ℕ → Bool) → Str → Str
lstrip_by p [] = []
lstrip_by p (c ∷ s) = let rest = lstrip_by p s in if p c then rest else c ∷ s

abbrev pub strip_last : (ℕ → Bool) → ℕ → Str → Str
strip_last p c [] = if p c then [] else c ∷ []
strip_last p c (d ∷ r) = c ∷ d ∷ r

unfoldable pub rstrip_by : (ℕ → Bool) → Str → Str
rstrip_by p [] = []
rstrip_by p (c ∷ s) = strip_last p c (rstrip_by p s)

unfoldable pub strip_by : (ℕ → Bool) → Str → Str
unfolding lstrip_by rstrip_by
strip_by p s = rstrip_by p (lstrip_by p s)

-- `s.removesuffix(suffix)`
unfoldable pub remove_suffix : Str → Str → Str
unfolding str_eq
remove_suffix suffix s =
    let keep = length s - length suffix in if str_eq (drop keep s) suffix then take keep s else s

module _ (u : CharTable) where
  abbrev pub to_upper : Str → Str
  to_upper = flat_map u.upper

  abbrev pub to_lower : Str → Str
  to_lower = flat_map u.lower

  abbrev pub lstrip : Str → Str
  lstrip = lstrip_by u.is_space

  -- `s.strip()`
  abbrev pub strip : Str → Str
  strip = strip_by u.is_space

-- The tables restricted to ASCII, for tests and instances.
abbrev within : ℕ → ℕ → ℕ → Bool
within lo hi c = leb lo c && leb c hi

abbrev pub ascii : CharTable
ascii = record {
  is_alpha = λ c. within b'a' b'z' c || within b'A' b'Z' c;
  is_digit = within b'0' b'9';
  is_alnum = λ c. within b'a' b'z' c || within b'A' b'Z' c || within b'0' b'9' c;
  is_space = λ c. c == b' ' || within 9 13 c || within 28 31 c;
  upper = λ c. (if within b'a' b'z' c then c - 32 else c) ∷ [];
  lower = λ c. (if within b'A' b'Z' c then c + 32 else c) ∷ [];
}

pub ascii-IsPython : IsPython ascii
ascii-IsPython = record { alpha_alnum = λ c h. ground arith; digit_alnum = λ c h. ground arith }
