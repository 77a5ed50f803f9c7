-- ===== src/Relations/Tests.antt =====
-- Foreign keys of a small catalog.
use sqlide.Common.{false, none, some, List, [], ◌∷◌, ◌≡◌, refl, if◌then◌else◌}
use sqlide.Common.Text.{Str, codes, str_eq}
use sqlide.Relations.{
  RelationInfo, RelationTarget, Row, constraints, constraint_key, outgoing_targets,
  incoming_targets, grouped, outgoing, incoming_keys, Bucket,
}
use sqlide.Relations.FirstFit.{IsGrouping, grouped-IsGrouping}
use sqlide.Relations.Targets.{
  Offers, IsOutgoing, SkipsOutgoing, IsIncoming, SkipsIncoming, outgoing_targets-Offers,
  incoming_targets-Offers,
}

abbrev rel : Str → Str → Str → Str → RelationInfo
rel table column ref_table ref_column = record {
  table = table;
  column = column;
  ref_table = ref_table;
  ref_column = ref_column;
  schema = [];
  ref_schema = [];
}

abbrev tenant_key : RelationInfo
tenant_key = rel (codes "orders") (codes "tenant") (codes "parts") (codes "tenant")

abbrev code_key : RelationInfo
code_key = rel (codes "orders") (codes "code") (codes "parts") (codes "code")

abbrev second_code_key : RelationInfo
second_code_key = rel (codes "orders") (codes "spare") (codes "parts") (codes "code")

abbrev catalog : List RelationInfo
catalog = tenant_key ∷ code_key ∷ second_code_key ∷ []

abbrev row : Row
row c =
    if str_eq c (codes "tenant")
    then some (codes "7")
    else if str_eq c (codes "code")
    then some (codes "x")
    else none

constraints_test : constraints catalog ≡ (tenant_key ∷ code_key ∷ []) ∷ (second_code_key ∷ []) ∷ []
unfolding constraints str_eq
constraints_test = refl

abbrev parts_target : RelationTarget
parts_target = record {
  table = codes "parts";
  schema = [];
  incoming = false;
  filters =
      record { column = codes "tenant"; op = codes "="; value = codes "7" }
      ∷ record { column = codes "code"; op = codes "="; value = codes "x" }
      ∷ [];
  columns = (codes "tenant", codes "tenant") ∷ (codes "code", codes "code") ∷ [];
}

outgoing_test : outgoing_targets catalog (codes "orders") (codes "code") row [] ≡ parts_target ∷ []
unfolding outgoing_targets str_eq
outgoing_test = refl

-- The spare part is NULL.
outgoing_null : outgoing_targets catalog (codes "orders") (codes "spare") row [] ≡ []
unfolding outgoing_targets str_eq
outgoing_null = refl

grouped-IsGrouping_example :
    IsGrouping constraint_key
      (λ r. r.ref_column)
      catalog
      (grouped constraint_key (λ r. r.ref_column) catalog)
grouped-IsGrouping_example = grouped-IsGrouping constraint_key (λ r. r.ref_column) catalog

outgoing_targets-Offers_example :
    (bs : List Bucket) × IsGrouping
      (λ r. r.ref_schema ∷ r.ref_table ∷ [])
      (λ r. r.ref_column)
      (outgoing catalog (codes "orders") [])
      bs
    × Offers
        (SkipsOutgoing (codes "code") row)
        (IsOutgoing (codes "code") row)
        bs
        (outgoing_targets catalog (codes "orders") (codes "code") row [])
outgoing_targets-Offers_example =
    outgoing_targets-Offers catalog (codes "orders") (codes "code") row []

incoming_targets-Offers_example :
    (bs : List Bucket) × IsGrouping
      (λ r. r.schema ∷ r.table ∷ [])
      (λ r. r.column)
      (incoming_keys catalog (codes "parts") [])
      bs
    × Offers
        (SkipsIncoming row)
        (IsIncoming row)
        bs
        (incoming_targets catalog (codes "parts") row [])
incoming_targets-Offers_example = incoming_targets-Offers catalog (codes "parts") row []
