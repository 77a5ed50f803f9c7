-- ===== src/Relations/Targets.antt =====
-- The targets that backend/db/relations.py offers from a row.
use mathlib.Core.List.{flat_map, map}
use mathlib.Core.Path.{subst}
use sqlide.Common.{
  true, false, none, some, List, [], ◌∷◌, ◌≡◌, refl, ap, inl, inr, ◌⊎◌, Bool-cases, Option-cases,
  if◌then◌else◌,
}
use sqlide.Common.Text.{Str, codes, is_one_of}
use sqlide.Relations.{
  RelationInfo, FilterCondition, RelationTarget, Row, Bucket, row_values, filters_for, column_pairs,
  outgoing, incoming_keys, outgoing_target, outgoing_targets, incoming_target, incoming_targets,
  cross_schema,
}
use sqlide.Relations.FirstFit.{IsGrouping, grouped-IsGrouping}

-- The conditions say that the second column of each pair has the row's value of the first.
abbrev pub Matches : Row → List (Str × Str) → List FilterCondition → Type 0
Matches row [] [] = Unit
Matches row ((c, d) ∷ ps) (f ∷ fs) =
    (f.column ≡ d) × (f.op ≡ codes "=") × (row c ≡ some f.value) × Matches row ps fs
Matches row _ _ = ⊥

module _ (row : Row) (here there : RelationInfo → Str) where
  row_values-Matches :
      (b : Bucket) {vs : List Str}
      → row_values row (map here b) ≡ some vs
      → Matches row (column_pairs (map here b) (map there b)) (filters_for (map there b) vs)
  unfolding row_values column_pairs filters_for
  row_values-Matches [] h = tt
  row_values-Matches (r ∷ b) {vs} h = elim (Option-cases (row (here r))) [
    | inl e ↦ absurd (cc (rw e at h))
    | inr (v, e) ↦ elim (Option-cases (row_values row (map here b))) [
      | inl f ↦ absurd (cc (rw (e, f) at h))
      | inr (rest, f) ↦
          let k : some (v ∷ rest) ≡ some vs = rw (e, f) at h in
          let l : v ∷ rest ≡ vs = cc in
          subst
            (λ ws.
              Matches row (column_pairs (map here (r ∷ b)) (map there (r ∷ b)))
                (filters_for (map there (r ∷ b)) ws))
            l (refl, refl, e, row_values-Matches b f)
    ]
  ]

-- One of the columns is NULL in the row, or not there.
abbrev pub HasNull : Row → List Str → Type 0
HasNull row [] = ⊥
HasNull row (c ∷ cs) = (row c ≡ none) ⊎ HasNull row cs

row_values-HasNull : (row : Row) (cs : List Str) → row_values row cs ≡ none → HasNull row cs
unfolding row_values
row_values-HasNull row [] h = absurd (cc)
row_values-HasNull row (c ∷ cs) h = elim (Option-cases (row c)) [
  | inl e ↦ inl e
  | inr (v, e) ↦ elim (Option-cases (row_values row cs)) [
    | inl f ↦ inr (row_values-HasNull row cs f)
    | inr (vs, f) ↦ absurd (cc (rw (e, f) at h))
  ]
]

-- The targets of some buckets in their order: one where the bucket gives it, none where it is
-- passed over.
pub data Offers (Skips : Bucket → Type 0) (Gives : Bucket → RelationTarget → Type 0)
    : List Bucket → List RelationTarget → Type 0 where
  no_more : Offers Skips Gives [] []
  passed_over :
      {b : Bucket} {bs : List Bucket} {ts : List RelationTarget}
      → Skips b
      → Offers Skips Gives bs ts
      → Offers Skips Gives (b ∷ bs) ts
  offered :
      {b : Bucket} {bs : List Bucket} {t : RelationTarget} {ts : List RelationTarget}
      → Gives b t
      → Offers Skips Gives bs ts
      → Offers Skips Gives (b ∷ bs) (t ∷ ts)

-- What a function makes of one bucket.
abbrev Answers :
    (Bucket → Type 0) → (Bucket → RelationTarget → Type 0) → Bucket → List RelationTarget → Type 0
Answers Skips Gives b ts =
    (Skips b × (ts ≡ [])) ⊎ ((t : RelationTarget) × Gives b t × (ts ≡ t ∷ []))

flat_map-Offers :
    (Skips : Bucket → Type 0) (Gives : Bucket → RelationTarget → Type 0)
    (f : Bucket → List RelationTarget) (bs : List Bucket)
    → ((b : Bucket) → Answers Skips Gives b (f b))
    → Offers Skips Gives bs (flat_map f bs)
unfolding flat_map
flat_map-Offers Skips Gives f [] h = no_more
flat_map-Offers Skips Gives f (b ∷ bs) h = elim (h b) [
  | inl (s, e) ↦ rw e (passed_over s (flat_map-Offers Skips Gives f bs h))
  | inr (t, g, e) ↦ rw e (offered g (flat_map-Offers Skips Gives f bs h))
]

-- The key of a bucket: its pairs of a column on the side of the row and one on the other side.
abbrev pub pairs : (RelationInfo → Str) → (RelationInfo → Str) → Bucket → List (Str × Str)
pairs here there b = map (λ r. (here r, there r)) b

column_pairs-map :
    (here there : RelationInfo → Str) (b : Bucket)
    → column_pairs (map here b) (map there b) ≡ pairs here there b
unfolding column_pairs
column_pairs-map here there [] = refl
column_pairs-map here there (r ∷ b) = ap (◌∷◌ (here r, there r)) (column_pairs-map here there b)

-- The target is the other table of the bucket, with its schema only if the key crosses schemas.
abbrev pub Names : (RelationInfo → Str) → (RelationInfo → Str) → Bucket → RelationTarget → Type 0
Names table schema [] t = ⊥
Names table schema (r ∷ b) t =
    (t.table ≡ table r) × (t.schema ≡ (if cross_schema r then schema r else []))

-- A target that an outgoing key of the cell gives, and when there is none.
pub record IsOutgoing (column : Str) (row : Row) (b : Bucket) (t : RelationTarget) : Type 0 where
  pub takes_part : is_one_of column (map (λ r. r.column) b) ≡ true
  pub names : Names (λ r. r.ref_table) (λ r. r.ref_schema) b t
  pub whole_key : t.columns ≡ pairs (λ r. r.column) (λ r. r.ref_column) b
  pub matches : Matches row t.columns t.filters
  pub is_outgoing : t.incoming ≡ false

abbrev pub SkipsOutgoing : Str → Row → Bucket → Type 0
SkipsOutgoing column row b =
    (is_one_of column (map (λ r. r.column) b) ≡ false) ⊎ HasNull row (map (λ r. r.column) b)

-- A target that a key of another table on the row gives, and when there is none.
pub record IsIncoming (row : Row) (b : Bucket) (t : RelationTarget) : Type 0 where
  pub names : Names (λ r. r.table) (λ r. r.schema) b t
  pub whole_key : t.columns ≡ pairs (λ r. r.ref_column) (λ r. r.column) b
  pub matches : Matches row t.columns t.filters
  pub is_incoming : t.incoming ≡ true

abbrev pub SkipsIncoming : Row → Bucket → Type 0
SkipsIncoming row b = (b ≡ []) ⊎ HasNull row (map (λ r. r.ref_column) b)

outgoing_target-Answers :
    (column : Str) (row : Row) (b : Bucket)
    → Answers (SkipsOutgoing column row) (IsOutgoing column row) b (outgoing_target column row b)
unfolding outgoing_target
outgoing_target-Answers column row [] = inl (inl refl, refl)
outgoing_target-Answers column row (r ∷ b) =
    let here = λ (r : RelationInfo). r.column in
    let there = λ (r : RelationInfo). r.ref_column in
    elim (Bool-cases (is_one_of column (map here (r ∷ b)))) [
      | inr e ↦ rw e (inl (inl refl, refl))
      | inl e ↦ elim (Option-cases (row_values row (map here (r ∷ b)))) [
        | inl f ↦ rw (e, f) (inl (inr (row_values-HasNull row (map here (r ∷ b)) f), refl))
        | inr (vs, f) ↦
            rw (e, f)
              (inr (
                _,
                record {
                  takes_part = e;
                  names = (refl, refl);
                  whole_key = column_pairs-map here there (r ∷ b);
                  matches = row_values-Matches row here there (r ∷ b) f;
                  is_outgoing = refl;
                },
                refl,
              ))
      ]
    ]

incoming_target-Answers :
    (row : Row) (b : Bucket)
    → Answers (SkipsIncoming row) (IsIncoming row) b (incoming_target row b)
unfolding incoming_target
incoming_target-Answers row [] = inl (inl refl, refl)
incoming_target-Answers row (r ∷ b) =
    let here = λ (r : RelationInfo). r.ref_column in
    let there = λ (r : RelationInfo). r.column in
    elim (Option-cases (row_values row (map here (r ∷ b)))) [
      | inl f ↦ rw f (inl (inr (row_values-HasNull row (map here (r ∷ b)) f), refl))
      | inr (vs, f) ↦ rw f (
          inr (
            _,
            record {
              names = (refl, refl);
              whole_key = column_pairs-map here there (r ∷ b);
              matches = row_values-Matches row here there (r ∷ b) f;
              is_incoming = refl;
            },
            refl,
          ))
    ]

-- The table's own foreign keys group into constraints, and the targets of a cell are, in that
-- order, one for each constraint that the cell's column takes part in and whose columns are not
-- NULL in the row: the table that it references, with one "=" condition for each column of the
-- whole key, on the row's own value.
pub outgoing_targets-Offers :
    (relations : List RelationInfo) (table column : Str) (row : Row) (schema : Str)
    → (bs : List Bucket) × IsGrouping
        (λ r. r.ref_schema ∷ r.ref_table ∷ [])
        (λ r. r.ref_column)
        (outgoing relations table schema)
        bs
      × Offers
          (SkipsOutgoing column row)
          (IsOutgoing column row)
          bs
          (outgoing_targets relations table column row schema)
unfolding outgoing_targets
outgoing_targets-Offers relations table column row schema = (
  _,
  grouped-IsGrouping (λ r. r.ref_schema ∷ r.ref_table ∷ []) (λ r. r.ref_column)
      (outgoing relations table schema),
  flat_map-Offers (SkipsOutgoing column row) (IsOutgoing column row) (outgoing_target column row) _
      (outgoing_target-Answers column row),
)

-- The keys on the table group into constraints, and the incoming targets of a row are, in that
-- order, one for each constraint whose referenced columns are not NULL in the row: the table that
-- points at it, with one "=" condition for each column of the whole key, on the row's value of the
-- column that it references.
pub incoming_targets-Offers :
    (references : List RelationInfo) (table : Str) (row : Row) (schema : Str)
    → (bs : List Bucket) × IsGrouping
        (λ r. r.schema ∷ r.table ∷ [])
        (λ r. r.column)
        (incoming_keys references table schema)
        bs
      × Offers
          (SkipsIncoming row)
          (IsIncoming row)
          bs
          (incoming_targets references table row schema)
unfolding incoming_targets
incoming_targets-Offers references table row schema = (
  _,
  grouped-IsGrouping (λ r. r.schema ∷ r.table ∷ []) (λ r. r.column)
      (incoming_keys references table schema),
  flat_map-Offers (SkipsIncoming row) (IsIncoming row) (incoming_target row) _
      (incoming_target-Answers row),
)
