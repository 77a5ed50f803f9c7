-- ===== src/Backups/Jobs.antt =====
-- backend/backups/jobs.py: destinations, jobs, run history, and the store that holds them. What
-- the store writes to disk and to the keyring is not modelled.
pub mod History
pub mod Links
pub mod Tests
use mathlib.Core.List.{reverse}
use sqlide.Common.{
  ℕ, ◌+◌, ◌-◌, Bool, true, false, not, ◌&&◌, ◌||◌, Option, none, some, List, [], ◌∷◌, ◌++◌, map,
  if◌then◌else◌, length, drop,
}
use sqlide.Common.Int.{ℤ}
use sqlide.Common.Text.{Str, codes, str_eq}

-- `mode`; `no_mode` is any other text than the five.
pub data Mode : Type 0 where
  off interval hourly daily weekly no_mode : Mode

pub record Schedule : Type 0 where
  pub mode : Mode
  pub every_minutes : ℤ
  pub minute : ℤ
  pub at_time : Str
  pub weekday : ℤ
  pub systemd : Bool

unfoldable pub has_schedule : Schedule → Bool
has_schedule s = elim s.mode [ off ↦ false | _ ↦ true ]

pub data DestinationKind : Type 0 where
  local_folder s3 sftp ftp : DestinationKind

pub record Destination : Type 0 where
  pub name : Str
  pub kind : DestinationKind
  pub id : Str
  pub path : Str
  pub bucket : Str
  pub endpoint_url : Str
  pub region : Str
  pub access_key : Str
  pub secret_key : Str
  pub host : Str
  pub port : ℕ
  pub user : Str
  pub password : Str
  pub key_path : Str
  pub tls : Bool

pub record Job : Type 0 where
  pub name : Str
  pub id : Str
  pub kind : Str
  pub workspace_id : Str
  pub connection : Str
  pub database : Str
  pub schema : Str
  pub objects : List Str
  pub content : Str
  pub compression : Str
  pub destination_id : Str
  pub schedule : Schedule
  pub keep : ℕ
  pub enabled : Bool

pub record Run : Type 0 where
  pub job_id : Str
  pub started : Str
  pub finished : Str
  pub ok : Bool
  pub artifact : Str
  pub size : ℕ
  pub message : Str
  pub log : Str

pub record Store : Type 0 where
  pub destinations : List Destination
  pub jobs : List Job
  pub runs : List Run

abbrev pub max_runs : ℕ
max_runs = 200

abbrev pub is_empty : Str → Bool
is_empty [] = true
is_empty (c ∷ s) = false

-- `[x for x in xs if keep(x)]`
unfoldable pub select {ℓ} : {A : Type ℓ} → (A → Bool) → List A → List A
select keep [] = []
select keep (x ∷ xs) = let rest = select keep xs in if keep x then x ∷ rest else rest

-- `next((x for x in xs if test(x)), None)`
unfoldable pub first_with {ℓ} : {A : Type ℓ} → (A → Bool) → List A → Option A
first_with test [] = none
first_with test (x ∷ xs) = let rest = first_with test xs in if test x then some x else rest

-- `del runs[:-n]`: the last `n` stay.
abbrev pub keep_last {ℓ} : {A : Type ℓ} → ℕ → List A → List A
keep_last n xs = drop (length xs - n) xs

unfoldable pub destination : Store → Str → Option Destination
unfolding first_with
destination store id = first_with (λ d. str_eq d.id id) store.destinations

unfoldable pub add_destination : Store → Destination → Store
add_destination store d = record store { destinations = store.destinations ++ d ∷ [] }

-- `self.destinations.remove(destination)`, for the first with its id.
unfoldable pub remove_first : Str → List Destination → List Destination
remove_first id [] = []
remove_first id (d ∷ ds) = let rest = remove_first id ds in if str_eq d.id id then ds else d ∷ rest

-- A job that wrote to the destination has none afterwards.
abbrev pub detach : Str → Job → Job
detach id j = if str_eq j.destination_id id then record j { destination_id = [] } else j

unfoldable pub remove_destination : Store → Str → Store
unfolding remove_first
remove_destination store id = elim (destination store id) [
  | none ↦ store
  | some d ↦ record store {
    destinations = remove_first id store.destinations;
    jobs = map (detach id) store.jobs;
  }
]

unfoldable pub job : Store → Str → Option Job
unfolding first_with
job store id = first_with (λ j. str_eq j.id id) store.jobs

unfoldable pub add_job : Store → Job → Store
add_job store j = record store { jobs = store.jobs ++ j ∷ [] }

unfoldable pub remove_job : Store → Str → Store
unfolding select
remove_job store id = record store {
  jobs = select (λ j. not (str_eq j.id id)) store.jobs;
  runs = select (λ r. not (str_eq r.job_id id)) store.runs;
}

-- `record`, a reserved word here.
unfoldable pub record_run : Store → Run → Store
record_run store run = record store { runs = keep_last max_runs (store.runs ++ run ∷ []) }

unfoldable pub runs_for : Store → Str → List Run
unfolding select
runs_for store id = select (λ r. str_eq r.job_id id) (reverse store.runs)

unfoldable pub last_run : Store → Str → Bool → Option Run
unfolding first_with
last_run store id ok_only =
    first_with (λ r. not (is_empty r.finished) && (r.ok || not ok_only)) (runs_for store id)
