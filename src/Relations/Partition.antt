-- ===== src/Relations/Partition.antt =====
-- No row of the catalog is lost in the grouping of backend/db/relations.py.
use mathlib.Core.List.{flat_map}
use mathlib.Core.List.{append_assoc, append-nil, Permᴰ}
use mathlib.Core.List.Permᴰ
use mathlib.Core.List.Permᴰ.{trans}
use mathlib.Core.Path.{subst}
use sqlide.Common.{List, [], ◌∷◌, ◌++◌, ◌≡◌, refl, sym, inl, inr, Bool-cases}
use sqlide.Common.Text.{Str}
use sqlide.Relations.{
  RelationInfo, Key, Bucket, key_eq, is_seen, add_to, add_row, add_rows, grouped,
}

-- The rows of some buckets, and those of all buckets of a dict.
unfoldable pub rows_in : List Bucket → List RelationInfo
rows_in [] = []
rows_in (b ∷ bs) = b ++ rows_in bs

unfoldable pub buckets_in : List (Key × List Bucket) → List Bucket
unfolding flat_map
buckets_in = flat_map (λ g. g.1)

rows_in-append : (bs cs : List Bucket) → rows_in (bs ++ cs) ≡ rows_in bs ++ rows_in cs
unfolding rows_in
rows_in-append [] cs = refl
rows_in-append (b ∷ bs) cs =
    rw (rows_in-append bs cs) (sym (append_assoc b (rows_in bs) (rows_in cs)))

module _ (key : RelationInfo → Key) (seen_of : RelationInfo → Str) where
  rows_in-add_to :
      (row : RelationInfo) (bs : List Bucket)
      → Permᴰ (rows_in (add_to key seen_of row bs)) (row ∷ rows_in bs)
  unfolding add_to rows_in
  rows_in-add_to row [] = Permᴰ.refl (row ∷ [])
  rows_in-add_to row (b ∷ bs) = elim (Bool-cases (is_seen key seen_of row b)) [
    | inl e ↦
        rw e (trans (Permᴰ.append_left b (rows_in-add_to row bs)) (Permᴰ.middle row b (rows_in bs)))
    | inr e ↦ rw (e, append_assoc b (row ∷ []) (rows_in bs)) (Permᴰ.middle row b (rows_in bs))
  ]

  rows_in-add_row :
      (row : RelationInfo) (gs : List (Key × List Bucket))
      → Permᴰ (rows_in (buckets_in (add_row key seen_of row gs))) (row ∷ rows_in (buckets_in gs))
  unfolding add_row buckets_in rows_in
  rows_in-add_row row [] = Permᴰ.refl (row ∷ [])
  rows_in-add_row row ((k, bs) ∷ gs) = elim (Bool-cases (key_eq k (key row))) [
    | inl e ↦
        rw
          (
            e,
            rows_in-append (add_to key seen_of row bs) (buckets_in gs),
            rows_in-append bs (buckets_in gs),
          )
          (Permᴰ.append_right (rows_in (buckets_in gs)) (rows_in-add_to row bs))
    | inr e ↦
        rw
          (
            e,
            rows_in-append bs (buckets_in (add_row key seen_of row gs)),
            rows_in-append bs (buckets_in gs),
          )
          (trans (Permᴰ.append_left (rows_in bs) (rows_in-add_row row gs))
            (Permᴰ.middle row (rows_in bs) (rows_in (buckets_in gs))))
  ]

  rows_in-add_rows :
      (rows : List RelationInfo) (gs : List (Key × List Bucket))
      → Permᴰ
          (rows_in (buckets_in (add_rows key seen_of rows gs)))
          (rows ++ rows_in (buckets_in gs))
  unfolding add_rows
  rows_in-add_rows [] gs = Permᴰ.refl _
  rows_in-add_rows (row ∷ rows) gs = trans (rows_in-add_rows rows (add_row key seen_of row gs)) (
      trans (Permᴰ.append_left rows (rows_in-add_row row gs))
        (Permᴰ.middle row rows (rows_in (buckets_in gs))))

  -- The buckets of a grouping hold the rows given to it, each as often, and no others.
  pub grouped-rows : (rows : List RelationInfo) → Permᴰ (rows_in (grouped key seen_of rows)) rows
  unfolding grouped buckets_in rows_in
  grouped-rows rows =
      subst (Permᴰ (rows_in (grouped key seen_of rows))) (append-nil rows)
        (rows_in-add_rows rows [])
