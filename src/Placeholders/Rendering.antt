-- ===== src/Placeholders/Rendering.antt =====
-- The replacement from the last placeholder to the first, in backend/placeholders.py, against a
-- rendering of the statement from its start to its end.
use mathlib.Core.Path.{subst}
use mathlib.Core.List.{foldr, append_assoc}
use sqlide.Common.{
  ℕ, Bool, zero, suc, ◌-◌, ◌≤◌, List, [], ◌∷◌, ◌++◌, ◌≡◌, inl, inr, refl, sym, ap, ◌∙◌, arith,
  length, take, drop, length-take_le, take-append-drop,
}
use sqlide.Common.Text.{Str, CharTable, slice}
use sqlide.Placeholders.{Placeholder, as_literal, replace_one, find_placeholders, substitute}
use sqlide.Placeholders.Order.{InOrder, find_placeholders-InOrder}

-- The statement from offset `i` on: the text up to a placeholder as it stands, then what the
-- placeholder's name gives.
unfoldable pub rendered : (Str → Str) → Str → ℕ → List Placeholder → Str
rendered shown sql i [] = drop i sql
rendered shown sql i (p ∷ ps) =
    slice sql i p.start ++ (shown p.name ++ rendered shown sql p.stop ps)

take_prefix : (n : ℕ) (xs ys : Str) → n ≤ length xs → take n (xs ++ ys) ≡ take n xs
take_prefix zero xs ys h = refl
take_prefix (suc n) [] ys h = elim h [ ]
take_prefix (suc n) (x ∷ xs) ys h = ap (◌∷◌ x) (take_prefix n xs ys (omega arith))

drop_prefix : (xs ys : Str) → drop (length xs) (xs ++ ys) ≡ ys
drop_prefix [] ys = refl
drop_prefix (x ∷ xs) ys = drop_prefix xs ys

take-take : (m n : ℕ) (xs : Str) → m ≤ n → take m (take n xs) ≡ take m xs
take-take zero n xs h = refl
take-take (suc m) zero xs h = elim h [ ]
take-take (suc m) (suc n) [] h = refl
take-take (suc m) (suc n) (x ∷ xs) h = ap (◌∷◌ x) (take-take m n xs (omega arith))

take-slice : (i j : ℕ) (xs : Str) → i ≤ j → take i xs ++ slice xs i j ≡ take j xs
take-slice zero j xs h = let e : j - 0 ≡ j = omega arith in rw e refl
take-slice (suc i) zero xs h = elim h [ ]
take-slice (suc i) (suc j) [] h = take_nil (suc j - suc i)
  where
    take_nil : (n : ℕ) → take {A = ℕ} n [] ≡ []
    take_nil zero = refl
    take_nil (suc n) = refl
take-slice (suc i) (suc j) (x ∷ xs) h =
    let e : suc j - suc i ≡ j - i = omega arith in
    rw e (ap (◌∷◌ x) (take-slice i j xs (omega arith)))

module _ (u : CharTable) (is_decimal : ℕ → Bool) (values : Str → Str) where
  abbrev pub shown : Str → Str
  shown name = as_literal u is_decimal (values name)

  replaced :
      (sql : Str) (i : ℕ) (p : Placeholder) (rest : Str)
      → i ≤ p.start
      → p.start ≤ p.stop
      → p.stop ≤ length sql
      → replace_one u is_decimal values p (take p.stop sql ++ rest)
        ≡ take i sql ++ (slice sql i p.start ++ (shown p.name ++ rest))
  unfolding replace_one
  replaced sql i p rest a b c =
      let whole : length (take p.stop sql) ≡ p.stop = length-take_le p.stop sql c in
      let front : take p.start (take p.stop sql ++ rest) ≡ take p.start sql =
        take_prefix p.start (take p.stop sql) rest (omega (arith, whole))
        ∙ take-take p.start p.stop sql b in
      let back : drop p.stop (take p.stop sql ++ rest) ≡ rest =
        subst (λ n. drop n (take p.stop sql ++ rest) ≡ rest) whole
          (drop_prefix (take p.stop sql) rest) in
      rw (front, back)
        (ap (λ t. t ++ (shown p.name ++ rest)) (sym (take-slice i p.start sql a))
          ∙ append_assoc (take i sql) (slice sql i p.start) (shown p.name ++ rest))

  replace_all-rendered :
      (sql : Str) (i k : ℕ) (ps : List Placeholder)
      → i ≤ length sql
      → InOrder sql i k ps
      → foldr (replace_one u is_decimal values) sql ps ≡ take i sql ++ rendered shown sql i ps
  unfolding rendered
  replace_all-rendered sql i k [] h o = sym (take-append-drop i sql)
  replace_all-rendered sql i k (p ∷ ps) h o =
      let ih : foldr (replace_one u is_decimal values) sql ps
          ≡ take p.stop sql ++ rendered shown sql p.stop ps =
        elim o.3 [
          | inl r ↦ replace_all-rendered sql p.stop k ps o.2 r.1
          | inr r ↦ replace_all-rendered sql p.stop (suc k) ps o.2 r.2
        ] in
      ap (replace_one u is_decimal values p) ih
      ∙ replaced sql i p (rendered shown sql p.stop ps) o.0 (omega arith) o.2

  -- Replacing the placeholders from the last to the first, by offsets into the statement as it was,
  -- gives the statement with each placeholder's literal in its place and all else as it stood.
  pub substitute-rendered :
      (sql : Str)
      → substitute u is_decimal values sql ≡ rendered shown sql 0 (find_placeholders sql)
  unfolding substitute
  substitute-rendered sql =
      replace_all-rendered sql 0 0 (find_placeholders sql) (omega arith)
        (find_placeholders-InOrder sql).1
