-- ===== src/Relations/Buckets.antt =====
-- What each bucket of `_grouped` in backend/db/relations.py is: one key, no column twice.
use mathlib.Core.List.{flat_map, map, Permᴰ}
use sqlide.Common.{
  true, List, [], ◌∷◌, ◌++◌, ◌≡◌, refl, ap, sym, inl, inr, Bool-cases, All, All-append,
}
use sqlide.Common.Text.{Str, str_eq, str_eq_iff}
use sqlide.Common.Distinct.{Distinct, Distinct-snoc}
use sqlide.Relations.{
  RelationInfo, Key, Bucket, key_eq, is_seen, add_to, add_row, add_rows, grouped,
}
use sqlide.Relations.Partition.{rows_in, grouped-rows}

pub key_eq-eq : (k l : Key) → key_eq k l ≡ true → k ≡ l
unfolding key_eq
key_eq-eq [] [] h = refl
key_eq-eq [] (b ∷ l) h = absurd (cc)
key_eq-eq (a ∷ k) [] h = absurd (cc)
key_eq-eq (a ∷ k) (b ∷ l) h = elim (Bool-cases (str_eq a b)) [
  | inl e ↦
      let same : a ≡ b = (str_eq_iff a b).0 e in let rest : k ≡ l = key_eq-eq k l (rw e at h) in cc
  | inr e ↦ absurd (cc (rw e at h))
]

map-snoc :
    (f : RelationInfo → Str) (b : Bucket) (r : RelationInfo)
    → map f (b ++ r ∷ []) ≡ map f b ++ f r ∷ []
map-snoc f [] r = refl
map-snoc f (x ∷ b) r = ap (◌∷◌ (f x)) (map-snoc f b r)

snoc-non_empty : (b : Bucket) (r : RelationInfo) → ¬ (b ++ r ∷ [] ≡ [])
snoc-non_empty [] r e = absurd (cc)
snoc-non_empty (x ∷ b) r e = absurd (cc)

-- A bucket of one constraint: its rows share the key, and its columns differ.
pub record IsConstraint (key : RelationInfo → Key) (seen_of : RelationInfo → Str) (k : Key)
    (b : Bucket) : Type 0 where
  pub same_key : All (λ r. key r ≡ k) b
  pub distinct : Distinct (map seen_of b)
  pub non_empty : ¬ (b ≡ [])

module _ (key : RelationInfo → Key) (seen_of : RelationInfo → Str) where
  add_to-IsConstraint :
      (row : RelationInfo) (k : Key) (bs : List Bucket)
      → key row ≡ k
      → All (IsConstraint key seen_of k) bs
      → All (IsConstraint key seen_of k) (add_to key seen_of row bs)
  unfolding add_to is_seen
  add_to-IsConstraint row k [] e h =
      (record { same_key = (e, tt); distinct = (refl, tt); non_empty = λ p. absurd (cc) }, tt)
  add_to-IsConstraint row k (b ∷ bs) e h = elim (Bool-cases (is_seen key seen_of row b)) [
    | inl s ↦ rw s (h.0, add_to-IsConstraint row k bs e h.1)
    | inr s ↦
        let old = h.0 in
        rw s (
          record {
            same_key = All-append (λ r. key r ≡ k) b (row ∷ []) old.same_key (e, tt);
            distinct =
                rw (map-snoc seen_of b row)
                  (Distinct-snoc (seen_of row) (map seen_of b) s old.distinct);
            non_empty = snoc-non_empty b row;
          },
          h.1,
        )
  ]

  abbrev pub Grouped : Key × List Bucket → Type 0
  Grouped g = All (IsConstraint key seen_of g.0) g.1

  add_row-Grouped :
      (row : RelationInfo) (gs : List (Key × List Bucket))
      → All Grouped gs
      → All Grouped (add_row key seen_of row gs)
  unfolding add_row
  add_row-Grouped row [] h = (add_to-IsConstraint row (key row) [] refl tt, tt)
  add_row-Grouped row ((k, bs) ∷ gs) h = elim (Bool-cases (key_eq k (key row))) [
    | inl e ↦ rw e (add_to-IsConstraint row k bs (sym (key_eq-eq k (key row) e)) h.0, h.1)
    | inr e ↦ rw e (h.0, add_row-Grouped row gs h.1)
  ]

  pub add_rows-Grouped :
      (rows : List RelationInfo) (gs : List (Key × List Bucket))
      → All Grouped gs
      → All Grouped (add_rows key seen_of rows gs)
  unfolding add_rows
  add_rows-Grouped [] gs h = h
  add_rows-Grouped (row ∷ rows) gs h =
      add_rows-Grouped rows (add_row key seen_of row gs) (add_row-Grouped row gs h)

  -- A bucket of one constraint, whatever its key.
  abbrev pub IsBucket : Bucket → Type 0
  IsBucket b = (k : Key) × IsConstraint key seen_of k b

  All-key : (k : Key) (bs : List Bucket) → All (IsConstraint key seen_of k) bs → All IsBucket bs
  All-key k [] h = tt
  All-key k (b ∷ bs) h = ((k, h.0), All-key k bs h.1)

  Grouped-flat_map :
      (gs : List (Key × List Bucket)) → All Grouped gs → All IsBucket (flat_map (λ g. g.1) gs)
  unfolding flat_map
  Grouped-flat_map [] h = tt
  Grouped-flat_map ((k, bs) ∷ gs) h =
      All-append IsBucket bs (flat_map (λ g. g.1) gs) (All-key k bs h.0) (Grouped-flat_map gs h.1)

  -- Every row is in a bucket, each as often as it came, and a bucket is of one constraint.
  pub grouped-IsBucket :
      (rows : List RelationInfo)
      → Permᴰ (rows_in (grouped key seen_of rows)) rows × All IsBucket (grouped key seen_of rows)
  unfolding grouped
  grouped-IsBucket rows = (
    grouped-rows key seen_of rows,
    Grouped-flat_map (add_rows key seen_of rows []) (add_rows-Grouped rows [] tt),
  )
