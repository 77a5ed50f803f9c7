-- ===== src/SqlSplit/Statements/Cursor.antt =====
-- From the editor's cursor to the statement under it.
use sqlide.Common.{ℕ, ◌≤◌, ◌<◌, Option, none, some, List, [], ◌∷◌, ◌++◌, ◌≡◌, arith}
use mathlib.Core.Path.{subst}
use sqlide.Common.Text.{Str, CharTable, IsPython}
use sqlide.SqlSplit.Scan.{Dialect}
use sqlide.SqlSplit.Statements.{Statement, split_statements, statement_at_or, statement_at}
use sqlide.SqlSplit.Statements.Placed.{InOrder, placed, split_statements-InOrder}

module _ (sql : Str) where
  InOrder-behind :
      (lo : ℕ) (xs : List Statement) (s : Statement) (ys : List Statement)
      → InOrder sql lo (xs ++ s ∷ ys)
      → lo ≤ s.start
  InOrder-behind lo [] s ys (placed p r) = p.behind
  InOrder-behind lo (x ∷ xs) s ys (placed p r) =
      omega (arith, p.behind, p.text_fits, InOrder-behind x.stop xs s ys r)

  statement_at_or-InOrder :
      (lo : ℕ) (xs : List Statement) (s : Statement) (ys : List Statement) (offset : ℕ)
      (last : Option Statement)
      → InOrder sql lo (xs ++ s ∷ ys)
      → s.start < offset
      → offset ≤ s.stop
      → statement_at_or (xs ++ s ∷ ys) offset last ≡ some s
  unfolding statement_at_or
  statement_at_or-InOrder lo [] s ys offset last r h k = ground arith
  statement_at_or-InOrder lo (x ∷ xs) s ys offset last (placed p r) h k = ground (
    arith,
    InOrder-behind x.stop xs s ys r,
    statement_at_or-InOrder x.stop xs s ys offset (some x) r h k,
  )

-- A cursor behind the first character of a statement of the script, and up to just past its
-- terminator, picks that statement.
pub statement_at-split_statements :
    (u : CharTable) (laws : IsPython u) (sql : Str) (dialect : Dialect) (xs : List Statement)
    (s : Statement) (ys : List Statement) (offset : ℕ)
    → split_statements u sql dialect ≡ xs ++ s ∷ ys
    → s.start < offset
    → offset ≤ s.stop
    → statement_at (split_statements u sql dialect) offset ≡ some s
unfolding statement_at
statement_at-split_statements u laws sql dialect xs s ys offset e h k =
    let order = subst (InOrder sql 0) e (split_statements-InOrder u laws sql dialect).1 in
    rw e (statement_at_or-InOrder sql 0 xs s ys offset none order h k)
