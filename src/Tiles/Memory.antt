-- ===== src/Tiles/Memory.antt =====
-- The tiles that the loader of backend/tiles.py holds in memory.
use sqlide.Common.{
  ℕ, suc, ◌-◌, ◌≤◌, ◌<◌, Bool, true, false, Option, none, some, List, [], ◌∷◌, ◌≡◌, refl, inl, inr,
  ==_iff, leb, length, first_case, ◌++◌, Bool-cases, Option-cases, arith,
}
use sqlide.Common.Raises.{Raises, raised, returned}
use sqlide.Common.Text.{Str, codes, CharTable}
use sqlide.Tiles.{
  Disk, TileSource, TileKey, Loader, is_blank, key_eq, recall, keep, validate, read_fresh, read_any,
  write_tile, remember, with_reason, with_files, available, cached, stale_or, take_answer, ask,
  unless_cached, fetch, reset, url,
}

leb-lt : (a b : ℕ) → leb a b ≡ false → b < a
leb-lt a b h = ground arith

key_eq_self : (k : TileKey) → key_eq k k ≡ true
key_eq_self (z, (x, y)) = rw ((==_iff z z).1 refl, (==_iff x x).1 refl, (==_iff y y).1 refl) refl

pub recall-keep {ℓ} :
    {B : Type ℓ} (key : TileKey) (b : B) (m : List (TileKey × B))
    → recall key (keep key b m) ≡ some b
unfolding recall keep
recall-keep key b [] = rw (key_eq_self key) refl
recall-keep key b ((k, c) ∷ rest) = elim (Bool-cases (key_eq k key)) [
  | inl e ↦ rw (e, e) refl
  | inr e ↦ rw (e, e) (recall-keep key b rest)
]

keep-length {ℓ} :
    {B : Type ℓ} (key : TileKey) (b : B) (m : List (TileKey × B))
    → length (keep key b m) ≤ suc (length m)
unfolding keep
keep-length key b [] = omega arith
keep-length key b ((k, c) ∷ rest) = elim (Bool-cases (key_eq k key)) [
  | inl e ↦ rw e (omega arith)
  | inr e ↦ rw e (omega (arith, keep-length key b rest))
]

module _ {F : Type 0} {B : Type 0} (disk : Disk F B) (u : CharTable) (source : TileSource)
    (directory : Str) (memory_tiles : ℕ) where
  -- One operation of the loader, whatever the network does, or a change of the files by another.
  pub data Step : Loader F B → Loader F B → Type 0 where
    look :
        (key : TileKey) (s : Loader F B)
        → Step s (cached disk u source directory memory_tiles key s).0
    probe :
        (online : Bool) (s : Loader F B)
        → Step s (available disk u source directory memory_tiles online s).0
    load :
        (key : TileKey) (online : Bool) (transport : Str → Raises Str B) (s : Loader F B)
        → Step s (fetch disk u source directory memory_tiles key online transport s).0
    again : (s : Loader F B) → Step s (reset disk u source directory memory_tiles s)
    elsewhere :
        (files : F) (s : Loader F B)
        → Step s (with_files disk u source directory memory_tiles files s)

  pub data Steps (s : Loader F B) : Loader F B → Type 0 where
    here : Steps s s
    next : {t r : Loader F B} → Steps s t → Step t r → Steps s r

  abbrev pub IsBounded : Loader F B → Type 0
  IsBounded s = length s.memory ≤ suc (memory_tiles - 1)

  remember-IsBounded :
      (key : TileKey) (b : B) (s : Loader F B)
      → IsBounded s
      → IsBounded (remember disk u source directory memory_tiles key b s)
  unfolding remember
  remember-IsBounded key b s h = elim (Bool-cases (leb memory_tiles (length s.memory))) [
    | inl e ↦ rw e (omega (arith, keep-length {B = B} key b []))
    | inr e ↦ rw e (
        let lt : length s.memory < memory_tiles = leb-lt memory_tiles (length s.memory) e in
        omega (arith, keep-length key b s.memory, lt))
  ]

  available-memory :
      (online : Bool) (s : Loader F B)
      → (available disk u source directory memory_tiles online s).0.memory ≡ s.memory
  unfolding available first_case
  available-memory online s = elim (Bool-cases source.enabled) [
    | inr e ↦ rw e refl
    | inl e ↦ elim (Bool-cases (is_blank (validate u source))) [
      | inr v ↦ rw (e, v) refl
      | inl v ↦ elim (Bool-cases (is_blank s.offline_reason)) [
        | inr r ↦ rw (e, v, r) refl
        | inl r ↦ elim (Bool-cases online) [
          | inl o ↦ rw (e, v, r, o) refl
          | inr o ↦ rw (e, v, r, o) refl
        ]
      ]
    ]
  ]

  cached-IsBounded :
      (key : TileKey) (s : Loader F B)
      → IsBounded s
      → IsBounded (cached disk u source directory memory_tiles key s).0
  unfolding cached
  cached-IsBounded key s h = elim (Option-cases (recall key s.memory)) [
    | inr (b, e) ↦ rw e h
    | inl e ↦ elim (Option-cases (read_fresh disk u source directory memory_tiles key s.files)) [
      | inr (b, f) ↦ rw (e, f) (remember-IsBounded key b s h)
      | inl f ↦ rw (e, f) h
    ]
  ]

  stale_or-IsBounded :
      (key : TileKey) (o : Option B) (problem : Str) (s after : Loader F B)
      → IsBounded s
      → IsBounded after
      → IsBounded (stale_or disk u source directory memory_tiles key o problem s after).0
  stale_or-IsBounded key (some b) problem s after h k = remember-IsBounded key b s h
  stale_or-IsBounded key none problem s after h k = k

  take_answer-IsBounded :
      (key : TileKey) (answer : Raises Str B) (s : Loader F B)
      → IsBounded s
      → IsBounded (take_answer disk u source directory memory_tiles key answer s).0
  unfolding take_answer
  take_answer-IsBounded key (raised e) s h =
      stale_or-IsBounded key (read_any disk u source directory memory_tiles key s.files)
        (codes "tile server unreachable: " ++ e) s
        (with_reason disk u source directory memory_tiles (codes "tile server unreachable: " ++ e)
          s)
        h h
  take_answer-IsBounded key (returned b) s h = elim (Bool-cases (disk.is_nothing b)) [
    | inl e ↦ rw e h
    | inr e ↦ rw e (
        remember-IsBounded key b
          (with_files disk u source directory memory_tiles
            (write_tile disk u source directory memory_tiles key b s.files) s)
          h)
  ]

  ask-IsBounded :
      (key : TileKey) (transport : Str → Raises Str B) (a : Loader F B × Str)
      → IsBounded a.0
      → IsBounded (ask disk u source directory memory_tiles key transport a).0
  ask-IsBounded key transport (s, []) h = take_answer-IsBounded key (transport (url source key)) s h
  ask-IsBounded key transport (s, c ∷ problem) h =
      stale_or-IsBounded key (read_any disk u source directory memory_tiles key s.files)
        (c ∷ problem) s s h h

  unless_cached-IsBounded :
      (key : TileKey) (online : Bool) (transport : Str → Raises Str B) (a : Loader F B × Option B)
      → IsBounded a.0
      → IsBounded (unless_cached disk u source directory memory_tiles key online transport a).0
  unless_cached-IsBounded key online transport (s, some b) h = h
  unless_cached-IsBounded key online transport (s, none) h =
      ask-IsBounded key transport (available disk u source directory memory_tiles online s)
        (rw (available-memory online s) h)

  fetch-IsBounded :
      (key : TileKey) (online : Bool) (transport : Str → Raises Str B) (s : Loader F B)
      → IsBounded s
      → IsBounded (fetch disk u source directory memory_tiles key online transport s).0
  unfolding fetch
  fetch-IsBounded key online transport s h =
      unless_cached-IsBounded key online transport
        (cached disk u source directory memory_tiles key s) (cached-IsBounded key s h)

  Step-IsBounded : {s t : Loader F B} → Step s t → IsBounded s → IsBounded t
  unfolding reset
  Step-IsBounded (look key s) h = cached-IsBounded key s h
  Step-IsBounded (probe online s) h = rw (available-memory online s) h
  Step-IsBounded (load key online transport s) h = fetch-IsBounded key online transport s h
  Step-IsBounded (again s) h = h
  Step-IsBounded (elsewhere files s) h = h

  -- A loader that has read nothing yet.
  abbrev pub opened : F → Loader F B
  opened files = record { memory = []; offline_reason = []; files = files }

  -- However the loader is used, and whatever the network and other programs do, it holds at most
  -- `memory_tiles` tiles in memory, or one where that is 0.
  pub Steps-IsBounded : (files : F) {s : Loader F B} → Steps (opened files) s → IsBounded s
  Steps-IsBounded files here = omega arith
  Steps-IsBounded files (next steps step) = Step-IsBounded step (Steps-IsBounded files steps)
