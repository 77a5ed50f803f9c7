-- ===== src/SqlRisk/Ladder.antt =====
-- The ladder of confirmations climbs with the risk, the environment and the setting.
use sqlide.Common.{ℕ, ◌≤◌, true, ◌≡◌, ◌≢◌, ◌↔◌, arith}
use sqlide.SqlRisk.{
  Risk, destructive, severe, key, Level, no_question, confirm, type_name, Environment, development,
  staging, production, unset, Mode, always, non_dev, never, unknown, confirmation_level,
}

abbrev pub rung : Level → ℕ
rung no_question = 0
rung confirm = 1
rung type_name = 2

-- From the least to the most guarded environment, and setting.
abbrev pub guarded : Environment → ℕ
guarded development = 0
guarded unset = 1
guarded staging = 2
guarded production = 3

abbrev pub strictness : Mode → ℕ
strictness never = 0
strictness non_dev = 1
strictness unknown = 1
strictness always = 2

-- What is severe destroys.
pub severe-destructive : (r : Risk) → severe r ≡ true → destructive r ≡ true
unfolding severe destructive
severe-destructive r h = ground arith

-- A greater risk, in the order that `worst` goes by, under a more guarded environment and a
-- stricter setting never stands on a lower rung.
pub confirmation_level_mono :
    (r r' : Risk) (e e' : Environment) (m m' : Mode)
    → key r ≤ key r'
    → guarded e ≤ guarded e'
    → strictness m ≤ strictness m'
    → rung (confirmation_level r e m) ≤ rung (confirmation_level r' e' m')
unfolding confirmation_level key
confirmation_level_mono r r' e e' m m' h g s =
    ground (arith, severe-destructive r, severe-destructive r')

-- The name has to be typed exactly where the setting is not "never", the environment is production
-- and the statement is severe.
pub type_name_iff :
    (r : Risk) (e : Environment) (m : Mode)
    → (confirmation_level r e m ≡ type_name) ↔ ((m ≢ never) × (e ≡ production) × (severe r ≡ true))
unfolding confirmation_level
type_name_iff r e m = (to, from)
  where
    to : confirmation_level r e m ≡ type_name → (m ≢ never) × (e ≡ production) × (severe r ≡ true)
    to h = ((λ n. ground (arith, n, h)), ground (arith, h), ground (arith, h))

    from : (m ≢ never) × (e ≡ production) × (severe r ≡ true) → confirmation_level r e m ≡ type_name
    from h = ground (arith, h, severe-destructive r)
