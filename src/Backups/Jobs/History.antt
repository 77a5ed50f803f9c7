-- ===== src/Backups/Jobs/History.antt =====
-- The run history: its bound, what a record adds, and what it pushes out.
use mathlib.Core.List.{foldl, reverse, reverse-append, append_assoc, append-nil}
use mathlib.Core.Path.{subst}
use sqlide.Common.{
  ℕ, zero, suc, ◌+◌, ◌-◌, ◌≤◌, ◌<◌, Bool, false, none, some, List, [], ◌∷◌, ◌++◌, ◌≡◌, refl, sym,
  ap, ◌∙◌, arith, length, drop, length-append, length-drop, All, All-append, All-reverse,
}
use sqlide.Common.Text.{Str, str_eq, str_eq_iff}
use sqlide.Backups.Jobs.{
  Store, Run, max_runs, is_empty, select, first_with, record_run, runs_for, last_run,
}

-- The history never holds more than `max_runs` runs.
pub length-record_run : (store : Store) (run : Run) → length (record_run store run).runs ≤ max_runs
unfolding record_run
length-record_run store run = omega (
  arith,
  length-drop (length (store.runs ++ run ∷ []) - max_runs) (store.runs ++ run ∷ []),
  length-append store.runs (run ∷ []),
)

drop-append {ℓ} :
    {A : Type ℓ} (n : ℕ) (xs ys : List A) → n ≤ length xs → drop n (xs ++ ys) ≡ drop n xs ++ ys
drop-append zero xs ys h = refl
drop-append (suc n) [] ys h = elim h [ ]
drop-append (suc n) (x ∷ xs) ys h = drop-append n xs ys (omega arith)

-- A finished run is at once the last run of its job, however full the history is.
pub last_run-record_run_self :
    (store : Store) (run : Run)
    → is_empty run.finished ≡ false
    → last_run (record_run store run) run.job_id false ≡ some run
unfolding last_run runs_for record_run
last_run-record_run_self store run h =
    rw
      (
        drop-append (length (store.runs ++ run ∷ []) - max_runs) store.runs (run ∷ [])
            (omega (arith, length-append store.runs (run ∷ []))),
        reverse-append,
        (str_eq_iff run.job_id run.job_id).1 refl,
        h,
      )
      (ground arith)

select-none {ℓ} :
    {A : Type ℓ} (keep : A → Bool) (xs : List A)
    → All (λ x. keep x ≡ false) xs
    → select keep xs ≡ []
unfolding select
select-none keep [] h = refl
select-none keep (x ∷ xs) h = rw h.0 (select-none keep xs h.1)

-- Runs recorded one after another.
abbrev pub record_all : Store → List Run → Store
record_all = foldl record_run

length-record_all :
    (store : Store) (rs : List Run) → 0 < length rs → length (record_all store rs).runs ≤ max_runs
length-record_all store [] h = elim h [ ]
length-record_all store (r ∷ []) h = length-record_run store r
length-record_all store (r ∷ q ∷ rs) h =
    length-record_all (record_run store r) (q ∷ rs) (omega arith)

module _ (id : Str) where
  abbrev pub IsOther : Run → Type 0
  IsOther r = str_eq r.job_id id ≡ false

  -- The history ends in that many runs of other jobs.
  record EndsIn (store : Store) (n : ℕ) : Type 0 where
    older : List Run
    newer : List Run
    eq : store.runs ≡ older ++ newer
    others : All IsOther newer
    size : length newer ≡ n

  EndsIn-record_run :
      (store : Store) (n : ℕ) (run : Run)
      → n < max_runs
      → EndsIn store n
      → IsOther run
      → EndsIn (record_run store run) (suc n)
  unfolding record_run
  EndsIn-record_run store n run small e other =
      let cut = length (store.runs ++ run ∷ []) - max_runs in
      let grown : store.runs ++ run ∷ [] ≡ e.older ++ (e.newer ++ run ∷ []) =
        ap (λ x. x ++ run ∷ []) e.eq ∙ append_assoc e.older e.newer (run ∷ []) in
      let room : cut ≤ length e.older = omega (
        arith,
        ap (λ (x : List Run). length x) e.eq,
        length-append e.older e.newer,
        length-append store.runs (run ∷ []),
        e.size,
      ) in
      record {
        older = drop cut e.older;
        newer = e.newer ++ run ∷ [];
        eq = ap (drop cut) grown ∙ drop-append cut e.older (e.newer ++ run ∷ []) room;
        others = All-append IsOther e.newer (run ∷ []) e.others (other, tt);
        size = omega (arith, length-append e.newer (run ∷ []), e.size);
      }

  EndsIn-record_all :
      (store : Store) (n : ℕ) (rs : List Run)
      → n + length rs ≤ max_runs
      → EndsIn store n
      → All IsOther rs
      → EndsIn (record_all store rs) (n + length rs)
  EndsIn-record_all store n [] h e o = let same : n + 0 ≡ n = omega arith in rw same e
  EndsIn-record_all store n (r ∷ rs) h e o =
      let same : n + suc (length rs) ≡ suc n + length rs = omega arith in
      rw same (
        EndsIn-record_all (record_run store r) (suc n) rs (omega arith)
          (EndsIn-record_run store n r (omega arith) e o.0) o.1)

  -- Once `max_runs` runs of other jobs are recorded, a job has no last run left: to the scheduler
  -- it is a job that never ran.
  pub last_run-record_all :
      (store : Store) (rs : List Run) (ok_only : Bool)
      → length rs ≡ max_runs
      → All IsOther rs
      → last_run (record_all store rs) id ok_only ≡ none
  unfolding last_run runs_for first_with
  last_run-record_all store rs ok_only full others =
      let bound = length-record_all store rs (omega arith) in
      let start : EndsIn store 0 = record {
        older = store.runs;
        newer = [];
        eq = sym (append-nil store.runs);
        others = tt;
        size = refl;
      } in
      let e = EndsIn-record_all store 0 rs (omega arith) start others in
      rw (
        select-none (λ r. str_eq r.job_id id) (reverse (record_all store rs).runs)
          (All-reverse IsOther (record_all store rs).runs (only e bound)))
    where
      only :
          EndsIn (record_all store rs) (0 + length rs)
          → length (record_all store rs).runs ≤ max_runs
          → All IsOther (record_all store rs).runs
      only e bound =
          subst (All IsOther) (sym e.eq)
            (All-append IsOther e.older e.newer (empty e.older none_left) e.others)
        where
          none_left : length e.older ≡ 0
          none_left =
              omega
                (arith, ap (λ (x : List Run). length x) e.eq, length-append e.older e.newer, e.size)

          empty : (xs : List Run) → length xs ≡ 0 → All IsOther xs
          empty [] h = tt
          empty (x ∷ xs) h = absurd (omega arith)
