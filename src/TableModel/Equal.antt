-- ===== src/TableModel/Equal.antt =====
-- What backend/db/table_model.py compares is equal to itself.
use sqlide.Common.{
  Bool, true, false, ◌&&◌, ◌||◌, List, [], ◌∷◌, ◌≡◌, refl, any, All, all-true, any_self,
}
use sqlide.Common.Raises.{Raises, returned, collect}
use sqlide.Common.Text.{Str, str_eq, str_eq_iff}
use sqlide.TableModel.Read.{
  bool_eq, strs_eq, ConstraintKey, by_name, by_shape, constraint_key_eq, IndexKey, index_name,
  index_shape, index_key_eq,
}
use sqlide.TableModel.Sql.{TableModelError}
use sqlide.TableModel.Diff.{keys_differ, Statement}

pub str_eq_self : (s : Str) → str_eq s s ≡ true
str_eq_self s = (str_eq_iff s s).1 refl

pub bool_eq_self : (b : Bool) → bool_eq b b ≡ true
bool_eq_self true = refl
bool_eq_self false = refl

pub strs_eq_self : (xs : List Str) → strs_eq xs xs ≡ true
unfolding strs_eq
strs_eq_self [] = refl
strs_eq_self (x ∷ xs) = rw (str_eq_self x, strs_eq_self xs) refl

pub constraint_key_eq_self : (k : ConstraintKey) → constraint_key_eq k k ≡ true
unfolding constraint_key_eq
constraint_key_eq_self (by_name k n) = rw (str_eq_self k, str_eq_self n) refl
constraint_key_eq_self (by_shape k cs t rs e) =
    rw (str_eq_self k, strs_eq_self cs, str_eq_self t, strs_eq_self rs, str_eq_self e) refl

pub index_key_eq_self : (k : IndexKey) → index_key_eq k k ≡ true
unfolding index_key_eq
index_key_eq_self (index_name n) = str_eq_self n
index_key_eq_self (index_shape cs ds b m) =
    rw (strs_eq_self cs, strs_eq_self ds, bool_eq_self b, str_eq_self m) refl

pub collect_nothing :
    {A : Type 0} (f : A → Raises TableModelError (List Statement)) (xs : List A)
    → All (λ x. f x ≡ returned []) xs
    → collect f xs ≡ returned []
unfolding collect
collect_nothing f [] h = refl
collect_nothing f (x ∷ xs) h = rw (h.0, collect_nothing f xs h.1) refl

pub keys_differ_self :
    {A : Type 0} (same : A → A → Bool)
    → ((x : A) → same x x ≡ true)
    → (xs : List A) → keys_differ same xs xs ≡ false
keys_differ_self same itself xs =
    let found = any_self same itself xs in rw (all-true (λ x. any (same x) xs) xs found) refl

pub last_true : (a b : Bool) {c : Bool} → c ≡ true → (a || b || c) ≡ true
last_true true b h = refl
last_true false true h = refl
last_true false false h = h

pub and_false : (b : Bool) → (b && false) ≡ false
and_false true = refl
and_false false = refl
