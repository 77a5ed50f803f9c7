-- ===== src/Backups/Jobs/Tests.antt =====
-- The theorems on the backup store at a concrete store.
use sqlide.Common.{
  ℕ, zero, suc, true, false, none, some, List, [], ◌∷◌, ◌≡◌, refl, inl, inr, ◌++◌, arith, All,
}
use sqlide.Common.Int.{pos}
use sqlide.Common.Text.{Str, codes, str_eq}
use sqlide.Backups.Jobs.{
  Store, Run, Job, Destination, local_folder, Schedule, daily, record_run, last_run,
  remove_destination, first_with, add_job, destination, remove_first,
}
use sqlide.Backups.Jobs.History.{record_all, IsOther, last_run-record_run_self, last_run-record_all}
use sqlide.Backups.Jobs.Links.{
  IsSound, Changes-IsSound, here, run_recorded, destination_removed, job_added, missing_id,
}

abbrev pub nightly : Schedule
nightly = record {
  mode = daily;
  every_minutes = pos 60;
  minute = pos 0;
  at_time = codes "02:00";
  weekday = pos 0;
  systemd = false;
}

abbrev pub nightly_job : Job
nightly_job = record {
  name = codes "n";
  id = codes "a";
  kind = codes "database";
  workspace_id = [];
  connection = [];
  database = [];
  schema = [];
  objects = [];
  content = codes "both";
  compression = codes "gzip";
  destination_id = codes "d";
  schedule = nightly;
  keep = 7;
  enabled = true;
}

abbrev folder : Destination
folder = record {
  name = codes "f";
  kind = local_folder;
  id = codes "d";
  path = [];
  bucket = [];
  endpoint_url = [];
  region = [];
  access_key = [];
  secret_key = [];
  host = [];
  port = 0;
  user = [];
  password = [];
  key_path = [];
  tls = true;
}

abbrev pub run_of : Str → Run
run_of id = record {
  job_id = id;
  started = codes "2026-01-02T03:00:00";
  finished = codes "2026-01-02T03:01:00";
  ok = true;
  artifact = [];
  size = 1;
  message = [];
  log = [];
}

abbrev pub store : Store
store = record {
  destinations = folder ∷ [];
  jobs = nightly_job ∷ [];
  runs = run_of (codes "a") ∷ [];
}

abbrev copies : ℕ → Run → List Run
copies zero r = []
copies (suc n) r = r ∷ copies n r

abbrev pub others : List Run
others = copies 200 (run_of (codes "b"))

last_run-record_run_self_example :
    last_run (record_run store (run_of (codes "a"))) (codes "a") false ≡ some (run_of (codes "a"))
last_run-record_run_self_example = last_run-record_run_self store (run_of (codes "a")) refl

pub others-IsOther : (n : ℕ) → All (IsOther (codes "a")) (copies n (run_of (codes "b")))
unfolding str_eq
others-IsOther zero = tt
others-IsOther (suc n) = (refl, others-IsOther n)

last_run-record_all_example : last_run (record_all store others) (codes "a") false ≡ none
last_run-record_all_example =
    last_run-record_all (codes "a") store others false refl (others-IsOther 200)

sound : IsSound store []
unfolding first_with str_eq
sound = record { linked = (inl (inr (λ e. cc)), tt); bounded = omega arith }

-- A job that names the destination after it is removed.
abbrev emptied : Store
emptied = remove_destination (record_run store (run_of (codes "a"))) (codes "d")

missing_id-emptied : missing_id emptied nightly_job ≡ codes "d" ∷ []
unfolding missing_id destination remove_destination record_run remove_first first_with str_eq
missing_id-emptied = refl

Changes-IsSound_example :
    IsSound (add_job emptied nightly_job) (missing_id emptied nightly_job ++ [])
Changes-IsSound_example =
    Changes-IsSound
      (job_added nightly_job
        (destination_removed (codes "d") (run_recorded (run_of (codes "a")) here)))
      sound
