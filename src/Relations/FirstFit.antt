-- ===== src/Relations/FirstFit.antt =====
-- Which buckets `_grouped` in backend/db/relations.py makes: no more than a constraint needs.
use mathlib.Core.List.{flat_map, Permᴰ}
use mathlib.Core.Path.{subst}
use sqlide.Common.{
  true, false, List, [], ◌∷◌, ◌++◌, ◌≡◌, refl, inl, inr, Bool-cases, All, All-append,
}
use sqlide.Common.Text.{Str, str_eq, str_eq_iff}
use sqlide.Relations.{
  RelationInfo, Key, Bucket, key_eq, is_seen, add_to, add_row, add_rows, grouped,
}
use sqlide.Relations.Partition.{rows_in}
use sqlide.Relations.Buckets.{IsConstraint, IsBucket, Grouped, add_rows-Grouped, grouped-IsBucket}

All_weaken {ℓ κ} :
    {A : Type ℓ} (P Q : A → Type κ) (xs : List A) → ((x : A) → P x → Q x) → All P xs → All Q xs
All_weaken P Q [] k h = tt
All_weaken P Q (x ∷ xs) k h = (k x h.0, All_weaken P Q xs k h.1)

key_eq_same : (k : Key) → key_eq k k ≡ true
unfolding key_eq
key_eq_same [] = refl
key_eq_same (a ∷ k) = rw ((str_eq_iff a a).1 refl) (key_eq_same k)

module _ (key : RelationInfo → Key) (seen_of : RelationInfo → Str) where
  abbrev Sees : Bucket → RelationInfo → Type 0
  Sees b q = is_seen key seen_of q b ≡ true

  -- The bucket is of the row's key only where it holds a row with the row's column.
  abbrev pub HasNoRoom : Bucket → RelationInfo → Type 0
  HasNoRoom b q = All (λ r. key r ≡ key q) b → is_seen key seen_of q b ≡ true

  -- A row stands behind a bucket of its key only where that bucket had no room for it.
  abbrev pub FirstFit : List Bucket → Type 0
  FirstFit [] = Unit
  FirstFit (b ∷ bs) = All (All (HasNoRoom b)) bs × FirstFit bs

  -- The same in the buckets of one key.
  abbrev Nested : List Bucket → Type 0
  Nested [] = Unit
  Nested (b ∷ bs) = All (All (Sees b)) bs × Nested bs

  Sees-append : (b : Bucket) (row q : RelationInfo) → Sees b q → Sees (b ++ row ∷ []) q
  unfolding is_seen
  Sees-append [] row q h = absurd (cc)
  Sees-append (r ∷ b) row q h = elim (Bool-cases (str_eq (seen_of q) (seen_of r))) [
    | inl e ↦ rw e refl
    | inr e ↦ rw e (Sees-append b row q (rw e at h))
  ]

  All-add_to :
      (P : RelationInfo → Type 0) (row : RelationInfo) (bs : List Bucket)
      → P row
      → All (All P) bs
      → All (All P) (add_to key seen_of row bs)
  unfolding add_to
  All-add_to P row [] p h = ((p, tt), tt)
  All-add_to P row (b ∷ bs) p h = elim (Bool-cases (is_seen key seen_of row b)) [
    | inl e ↦ rw e (h.0, All-add_to P row bs p h.1)
    | inr e ↦ rw e (All-append P b (row ∷ []) h.0 (p, tt), h.1)
  ]

  add_to-Nested :
      (row : RelationInfo) (bs : List Bucket) → Nested bs → Nested (add_to key seen_of row bs)
  unfolding add_to
  add_to-Nested row [] h = (tt, tt)
  add_to-Nested row (b ∷ bs) h = elim (Bool-cases (is_seen key seen_of row b)) [
    | inl e ↦ rw e (All-add_to (Sees b) row bs e h.0, add_to-Nested row bs h.1)
    | inr e ↦ rw e (
      All_weaken (All (Sees b)) (All (Sees (b ++ row ∷ []))) bs
          (λ c. All_weaken (Sees b) (Sees (b ++ row ∷ [])) c (Sees-append b row)) h.0,
      h.1,
    )
  ]

  -- The groups of a dict: each nested, no key twice.
  abbrev Apart : List (Key × List Bucket) → Type 0
  Apart [] = Unit
  Apart ((k, bs) ∷ gs) = Nested bs × All (λ g. key_eq k g.0 ≡ false) gs × Apart gs

  All-add_row :
      (P : Key → Type 0) (row : RelationInfo) (gs : List (Key × List Bucket))
      → P (key row)
      → All (λ g. P g.0) gs
      → All (λ g. P g.0) (add_row key seen_of row gs)
  unfolding add_row
  All-add_row P row [] p h = (p, tt)
  All-add_row P row ((k, bs) ∷ gs) p h = elim (Bool-cases (key_eq k (key row))) [
    | inl e ↦ rw e h
    | inr e ↦ rw e (h.0, All-add_row P row gs p h.1)
  ]

  add_row-Apart :
      (row : RelationInfo) (gs : List (Key × List Bucket))
      → Apart gs
      → Apart (add_row key seen_of row gs)
  unfolding add_row
  add_row-Apart row [] h = (add_to-Nested row [] tt, tt, tt)
  add_row-Apart row ((k, bs) ∷ gs) (n, d, a) = elim (Bool-cases (key_eq k (key row))) [
    | inl e ↦ rw e (add_to-Nested row bs n, d, a)
    | inr e ↦ rw e (n, All-add_row (λ l. key_eq k l ≡ false) row gs e d, add_row-Apart row gs a)
  ]

  add_rows-Apart :
      (rows : List RelationInfo) (gs : List (Key × List Bucket))
      → Apart gs
      → Apart (add_rows key seen_of rows gs)
  unfolding add_rows
  add_rows-Apart [] gs h = h
  add_rows-Apart (row ∷ rows) gs h =
      add_rows-Apart rows (add_row key seen_of row gs) (add_row-Apart row gs h)

  FirstFit-append :
      (bs cs : List Bucket)
      → FirstFit bs
      → FirstFit cs
      → All (λ b. All (All (HasNoRoom b)) cs) bs
      → FirstFit (bs ++ cs)
  FirstFit-append [] cs h k x = k
  FirstFit-append (b ∷ bs) cs h k x =
      (All-append (All (HasNoRoom b)) bs cs h.0 x.0, FirstFit-append bs cs h.1 k x.1)

  Nested-FirstFit : (bs : List Bucket) → Nested bs → FirstFit bs
  Nested-FirstFit [] h = tt
  Nested-FirstFit (b ∷ bs) h = (
    All_weaken (All (Sees b)) (All (HasNoRoom b)) bs
        (λ c. All_weaken (Sees b) (HasNoRoom b) c (λ q s same. s)) h.0,
    Nested-FirstFit bs h.1,
  )

  -- A bucket of another key is not of the row's.
  HasNoRoom-other :
      (k l : Key) (b : Bucket) (q : RelationInfo)
      → IsConstraint key seen_of k b
      → key_eq k l ≡ false
      → key q ≡ l
      → HasNoRoom b q
  HasNoRoom-other k l [] q h d e same = absurd (h.non_empty refl)
  HasNoRoom-other k l (r ∷ b) q h d e same =
      let mine : key r ≡ k = h.same_key.0 in
      let theirs : key r ≡ key q = same.0 in
      let equal : k ≡ l = cc in
      let yes : key_eq k l ≡ true = subst (λ x. key_eq k x ≡ true) equal (key_eq_same k) in
      absurd (cc)

  HasNoRoom-bucket :
      (k l : Key) (b : Bucket) (c : Bucket)
      → IsConstraint key seen_of k b
      → key_eq k l ≡ false
      → IsConstraint key seen_of l c
      → All (HasNoRoom b) c
  HasNoRoom-bucket k l b c h d i =
      All_weaken (λ q. key q ≡ l) (HasNoRoom b) c (λ q. HasNoRoom-other k l b q h d) i.same_key

  HasNoRoom-groups :
      (k : Key) (b : Bucket) (gs : List (Key × List Bucket))
      → IsConstraint key seen_of k b
      → All (λ g. key_eq k g.0 ≡ false) gs
      → All (Grouped key seen_of) gs
      → All (All (HasNoRoom b)) (flat_map (λ g. g.1) gs)
  unfolding flat_map
  HasNoRoom-groups k b [] h d i = tt
  HasNoRoom-groups k b ((l, cs) ∷ gs) h d i =
      All-append (All (HasNoRoom b)) cs (flat_map (λ g. g.1) gs)
        (All_weaken (IsConstraint key seen_of l) (All (HasNoRoom b)) cs
          (λ c. HasNoRoom-bucket k l b c h d.0) i.0)
        (HasNoRoom-groups k b gs h d.1 i.1)

  Apart-FirstFit :
      (gs : List (Key × List Bucket))
      → Apart gs
      → All (Grouped key seen_of) gs
      → FirstFit (flat_map (λ g. g.1) gs)
  unfolding flat_map
  Apart-FirstFit [] h i = tt
  Apart-FirstFit ((k, bs) ∷ gs) (n, d, a) i =
      FirstFit-append bs (flat_map (λ g. g.1) gs) (Nested-FirstFit bs n) (Apart-FirstFit gs a i.1) (
        All_weaken (IsConstraint key seen_of k)
          (λ b. All (All (HasNoRoom b)) (flat_map (λ g. g.1) gs)) bs
          (λ b h. HasNoRoom-groups k b gs h d i.1) i.0)

  -- What the source promises of the buckets of some rows: all of the rows and no others, each
  -- bucket one key and no column twice, and no bucket opened while one of its key had room.
  pub record IsGrouping (rows : List RelationInfo) (bs : List Bucket) : Type 0 where
    pub partition : Permᴰ (rows_in bs) rows
    pub buckets : All (IsBucket key seen_of) bs
    pub first_fit : FirstFit bs

  -- The grouping of the rows of foreign keys has every row in a bucket, each as often as it came;
  -- a bucket is not empty, has one key and no column twice; and a row stands in a later bucket of
  -- its key only where each one before holds a row with the same column already.
  pub grouped-IsGrouping : (rows : List RelationInfo) → IsGrouping rows (grouped key seen_of rows)
  unfolding grouped
  grouped-IsGrouping rows = record {
    partition = (grouped-IsBucket key seen_of rows).0;
    buckets = (grouped-IsBucket key seen_of rows).1;
    first_fit =
        Apart-FirstFit (add_rows key seen_of rows []) (add_rows-Apart rows [] tt)
          (add_rows-Grouped key seen_of rows [] tt);
  }
