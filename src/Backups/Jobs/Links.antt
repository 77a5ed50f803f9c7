-- ===== src/Backups/Jobs/Links.antt =====
-- Jobs refer to destinations by id: what adding and removing does to the references.
use sqlide.Common.{
  Bool, true, false, not, Option, none, some, List, [], ◌∷◌, ◌++◌, ◌≡◌, ◌≢◌, refl, ◌⊎◌, inl, inr,
  arith, map, Bool-cases, Option-cases, All, All-append, length, ◌≤◌,
}
use sqlide.Common.Text.{Str, str_eq, str_eq_iff, is_one_of}
use sqlide.Backups.Jobs.History.{length-record_run}
use sqlide.Backups.Jobs.{
  Store, Job, Destination, first_with, select, remove_job, remove_destination, remove_first, detach,
  destination, add_destination, add_job, record_run, Run, max_runs,
}

-- The job writes nowhere yet, or to a destination of the store.
abbrev pub IsLinked : List Destination → Job → Type 0
IsLinked ds j = (j.destination_id ≡ []) ⊎ (first_with (λ d. str_eq d.id j.destination_id) ds ≢ none)

first_with-remove_first :
    (id k : Str) (ds : List Destination)
    → str_eq k id ≡ false
    → first_with (λ d. str_eq d.id k) (remove_first id ds) ≡ first_with (λ d. str_eq d.id k) ds
unfolding first_with remove_first
first_with-remove_first id k [] h = refl
first_with-remove_first id k (d ∷ ds) h = ground (
  arith,
  first_with-remove_first id k ds h,
  str_eq_iff d.id id,
  str_eq_iff d.id k,
  str_eq_iff k id,
)

first_with-append :
    (k : Str) (ds : List Destination) (d : Destination)
    → first_with (λ d. str_eq d.id k) ds ≢ none
    → first_with (λ d. str_eq d.id k) (ds ++ d ∷ []) ≢ none
unfolding first_with
first_with-append k [] d h = absurd (h refl)
first_with-append k (e ∷ ds) d h = elim (Bool-cases (str_eq e.id k)) [
  | inl p ↦ rw p (λ q. cc)
  | inr p ↦ rw p (first_with-append k ds d (rw p at h))
]

detach-IsLinked :
    (id : Str) (ds : List Destination) (j : Job)
    → IsLinked ds j
    → IsLinked (remove_first id ds) (detach id j)
detach-IsLinked id ds j h = elim (Bool-cases (str_eq j.destination_id id)) [
  | inl e ↦ ground arith
  | inr e ↦ ground (arith, h, first_with-remove_first id j.destination_id ds e)
]

All_weaken {κ} :
    (P Q : Job → Type κ) (js : List Job) → ((j : Job) → P j → Q j) → All P js → All Q js
All_weaken P Q [] k h = tt
All_weaken P Q (j ∷ js) k h = (k j h.0, All_weaken P Q js k h.1)

All-map {κ} :
    (P Q : Job → Type κ) (f : Job → Job) (js : List Job)
    → ((j : Job) → P j → Q (f j))
    → All P js
    → All Q (map f js)
All-map P Q f [] k h = tt
All-map P Q f (j ∷ js) k h = (k j h.0, All-map P Q f js k h.1)

-- The job writes nowhere yet, to a destination of the store, or to one of the given ids.
abbrev pub IsAllowed : List Destination → List Str → Job → Type 0
IsAllowed ds ids j = IsLinked ds j ⊎ (is_one_of j.destination_id ids ≡ true)

detach-IsAllowed :
    (id : Str) (ds : List Destination) (ids : List Str) (j : Job)
    → IsAllowed ds ids j
    → IsAllowed (remove_first id ds) ids (detach id j)
detach-IsAllowed id ds ids j (inl h) = inl (detach-IsLinked id ds j h)
detach-IsAllowed id ds ids j (inr h) = elim (Bool-cases (str_eq j.destination_id id)) [
  | inl e ↦ inl (inl (rw e refl))
  | inr e ↦ inr (rw e h)
]

remove_destination-IsAllowed :
    (store : Store) (id : Str) (ids : List Str)
    → All (IsAllowed store.destinations ids) store.jobs
    → All
        (IsAllowed (remove_destination store id).destinations ids)
        (remove_destination store id).jobs
unfolding remove_destination
remove_destination-IsAllowed store id ids h = elim (Option-cases (destination store id)) [
  | inl e ↦ rw (e, remove_destination) h
  | inr (d, e) ↦
      rw (e, remove_destination)
        (All-map (IsAllowed store.destinations ids)
          (IsAllowed (remove_first id store.destinations) ids) (detach id) store.jobs
          (detach-IsAllowed id store.destinations ids) h)
]

runs-remove_destination :
    (store : Store) (id : Str) → (remove_destination store id).runs ≡ store.runs
unfolding remove_destination
runs-remove_destination store id = elim (Option-cases (destination store id)) [
  | inl e ↦ rw (e, remove_destination)
  | inr (d, e) ↦ rw (e, remove_destination)
]

All-select {ℓ κ} :
    {A : Type ℓ} (P : A → Type κ) (keep : A → Bool) (xs : List A)
    → All P xs
    → All P (select keep xs)
unfolding select
All-select P keep [] h = tt
All-select P keep (x ∷ xs) h = elim (Bool-cases (keep x)) [
  | inl e ↦ rw e (h.0, All-select P keep xs h.1)
  | inr e ↦ rw e (All-select P keep xs h.1)
]

length-select {ℓ} :
    {A : Type ℓ} (keep : A → Bool) (xs : List A) → length (select keep xs) ≤ length xs
unfolding select
length-select keep [] = omega arith
length-select keep (x ∷ xs) = ground (arith, length-select keep xs)

-- The destination that a job names, where the store does not have it.
abbrev if_missing : Str → Option Destination → List Str
if_missing [] none = []
if_missing (c ∷ id) none = (c ∷ id) ∷ []
if_missing id (some d) = []

unfoldable pub missing_id : Store → Job → List Str
unfolding destination
missing_id s j = if_missing j.destination_id (destination s j.destination_id)

-- Any number of operations on the store, from the first one on, with the destinations that a job
-- named when it was added although they were missing: `add_job` takes any job.
pub data Changes (s : Store) : Store → List Str → Type 0 where
  here : Changes s s []
  destination_added :
      {t : Store} {ids : List Str} (d : Destination)
      → Changes s t ids
      → Changes s (add_destination t d) ids
  destination_removed :
      {t : Store} {ids : List Str} (id : Str)
      → Changes s t ids
      → Changes s (remove_destination t id) ids
  job_added :
      {t : Store} {ids : List Str} (j : Job)
      → Changes s t ids
      → Changes s (add_job t j) (missing_id t j ++ ids)
  job_removed :
      {t : Store} {ids : List Str} (id : Str) → Changes s t ids → Changes s (remove_job t id) ids
  run_recorded :
      {t : Store} {ids : List Str} (r : Run) → Changes s t ids → Changes s (record_run t r) ids

-- Every reference to a destination leads to one, but for those to the given destinations, and the
-- history is bounded.
pub record IsSound (s : Store) (ids : List Str) : Type 0 where
  pub linked : All (IsAllowed s.destinations ids) s.jobs
  pub bounded : length s.runs ≤ max_runs

is_one_of-append :
    (id : Str) (xs ids : List Str) → is_one_of id ids ≡ true → is_one_of id (xs ++ ids) ≡ true
is_one_of-append id [] ids h = h
is_one_of-append id (x ∷ xs) ids h = ground (arith, is_one_of-append id xs ids h)

if_missing-added :
    (id : Str) (o : Option Destination) (ids : List Str)
    → ((id ≡ []) ⊎ (o ≢ none)) ⊎ (is_one_of id (if_missing id o ++ ids) ≡ true)
if_missing-added [] o ids = inl (inl refl)
if_missing-added (c ∷ id) none ids =
    let same = (str_eq_iff (c ∷ id) (c ∷ id)).1 refl in inr (rw same refl)
if_missing-added (c ∷ id) (some d) ids = inl (inr (λ e. cc))

added-IsAllowed :
    (s : Store) (ids : List Str) (j : Job) → IsAllowed s.destinations (missing_id s j ++ ids) j
unfolding missing_id destination
added-IsAllowed s ids j =
    if_missing-added j.destination_id
      (first_with (λ d. str_eq d.id j.destination_id) s.destinations) ids

kept-IsAllowed :
    (s : Store) (j : Job) (ids : List Str) (k : Job)
    → IsAllowed s.destinations ids k
    → IsAllowed s.destinations (missing_id s j ++ ids) k
kept-IsAllowed s j ids k (inl l) = inl l
kept-IsAllowed s j ids k (inr l) = inr (is_one_of-append k.destination_id (missing_id s j) ids l)

grown-IsAllowed :
    (ds : List Destination) (d : Destination) (ids : List Str) (k : Job)
    → IsAllowed ds ids k
    → IsAllowed (ds ++ d ∷ []) ids k
grown-IsAllowed ds d ids k (inl (inl e)) = inl (inl e)
grown-IsAllowed ds d ids k (inl (inr f)) = inl (inr (first_with-append k.destination_id ds d f))
grown-IsAllowed ds d ids k (inr l) = inr l

-- Over any operations on a store whose references all lead somewhere and whose history is within its
-- bound, in any order, a job refers to a destination that is not there only by an id that some job
-- named while it was missing, as the job was added; where no job did, every reference leads to a
-- destination. The history keeps within its bound.
pub Changes-IsSound :
    {s t : Store} {ids : List Str} → Changes s t ids → IsSound s [] → IsSound t ids
unfolding add_destination add_job remove_job record_run
Changes-IsSound here h = h
Changes-IsSound (destination_added {t} {ids} d c) h =
    let before = Changes-IsSound c h in
    record {
      linked =
          All_weaken (IsAllowed t.destinations ids) (IsAllowed (t.destinations ++ d ∷ []) ids)
            t.jobs (grown-IsAllowed t.destinations d ids) before.linked;
      bounded = before.bounded;
    }
Changes-IsSound (destination_removed {t} {ids} id c) h =
    let before = Changes-IsSound c h in
    record {
      linked = remove_destination-IsAllowed t id ids before.linked;
      bounded = rw runs-remove_destination before.bounded;
    }
Changes-IsSound (job_added {t} {ids} j c) h =
    let before = Changes-IsSound c h in
    record {
      linked =
          All-append (IsAllowed t.destinations (missing_id t j ++ ids)) t.jobs (j ∷ [])
            (All_weaken (IsAllowed t.destinations ids)
              (IsAllowed t.destinations (missing_id t j ++ ids)) t.jobs (kept-IsAllowed t j ids)
              before.linked)
            (added-IsAllowed t ids j, tt);
      bounded = before.bounded;
    }
Changes-IsSound (job_removed {t} {ids} id c) h =
    let before = Changes-IsSound c h in
    record {
      linked = All-select (IsAllowed t.destinations ids) _ t.jobs before.linked;
      bounded =
          omega
            (arith, before.bounded, length-select (λ (r : Run). not (str_eq r.job_id id)) t.runs);
    }
Changes-IsSound (run_recorded {t} {ids} r c) h =
    let before = Changes-IsSound c h in
    record { linked = before.linked; bounded = length-record_run t r }
