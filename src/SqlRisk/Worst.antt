-- ===== src/SqlRisk/Worst.antt =====
-- `worst` stands for every statement of a script.
use sqlide.Common.{
  ◌∙◌, ◌≤◌, Bool, true, false, List, [], ◌∷◌, ◌≡◌, refl, inl, inr, ◌⊎◌, arith, if◌then◌else◌, ltb,
  map, All,
}
use sqlide.Common.Text.{Str, CharTable}
use sqlide.SqlRisk.{Risk, key, max_from, worst, classify, Environment, Mode, confirmation_level}
use sqlide.SqlRisk.Ladder.{rung, confirmation_level_mono}

-- The risk is one of the list.
abbrev pub IsAmong : Risk → List Risk → Type 0
IsAmong r [] = ⊥
IsAmong r (x ∷ xs) = (r ≡ x) ⊎ IsAmong r xs

max_from-le : (best : Risk) (rs : List Risk) → key best ≤ key (max_from best rs)
unfolding max_from
max_from-le best [] = omega arith
max_from-le best (r ∷ rs) =
    ground (arith, max_from-le (if ltb (key best) (key r) then r else best) rs)

max_from-All : (best : Risk) (rs : List Risk) → All (λ r. key r ≤ key (max_from best rs)) rs
unfolding max_from
max_from-All best [] = tt
max_from-All best (r ∷ rs) =
    let best' = if ltb (key best) (key r) then r else best in
    (ground (arith, max_from-le best' rs), max_from-All best' rs)

if-cases : (b : Bool) (x y : Risk) → ((if b then x else y) ≡ x) ⊎ ((if b then x else y) ≡ y)
if-cases true x y = inl refl
if-cases false x y = inr refl

max_from-IsAmong : (best : Risk) (rs : List Risk) → IsAmong (max_from best rs) (best ∷ rs)
unfolding max_from
max_from-IsAmong best [] = inl refl
max_from-IsAmong best (r ∷ rs) =
    let test = ltb (key best) (key r) in
    elim (max_from-IsAmong (if test then r else best) rs) [
      | inl p ↦ elim (if-cases test r best) [ inl e ↦ inr (inl (p ∙ e)) | inr e ↦ inl (p ∙ e) ]
      | inr q ↦ inr (inr q)
    ]

-- No statement of the script asks for a higher rung than the worst does, under any environment
-- and setting: who confirms the worst has climbed far enough for each.
pub confirmation_level-worst :
    (u : CharTable) (statements : List Str) (e : Environment) (m : Mode)
    → All
        (λ s.
          rung (confirmation_level (classify u s) e m)
          ≤ rung (confirmation_level (worst u statements) e m))
        statements
unfolding worst
confirmation_level-worst u [] e m = tt
confirmation_level-worst u (s ∷ ss) e m = (
  confirmation_level_mono (classify u s) (max_from (classify u s) (map (classify u) ss)) e e m m
      (max_from-le (classify u s) (map (classify u) ss)) (omega arith) (omega arith),
  below ss (max_from-All (classify u s) (map (classify u) ss)),
)
  where
    top : Risk
    top = max_from (classify u s) (map (classify u) ss)

    below :
        (xs : List Str)
        → All (λ r. key r ≤ key top) (map (classify u) xs)
        → All
            (λ x. rung (confirmation_level (classify u x) e m) ≤ rung (confirmation_level top e m))
            xs
    below [] h = tt
    below (x ∷ xs) h = (
      confirmation_level_mono (classify u x) top e e m m h.0 (omega arith) (omega arith),
      below xs h.1,
    )

-- The worst risk of a script is that of one of its statements.
pub worst-IsAmong :
    (u : CharTable) (s : Str) (ss : List Str)
    → IsAmong (worst u (s ∷ ss)) (map (classify u) (s ∷ ss))
unfolding worst
worst-IsAmong u s ss = max_from-IsAmong (classify u s) (map (classify u) ss)
