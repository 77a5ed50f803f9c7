-- ===== src/Tiles/Held.antt =====
-- What the loader of backend/tiles.py has fetched stays at hand.
use mathlib.Core.Path.{subst}
use sqlide.Common.{
  ℕ, Bool, Option, none, some, [], ◌∷◌, ◌++◌, ◌≡◌, refl, ◌∙◌, inl, inr, Bool-cases, Option-cases,
}
use sqlide.Common.Raises.{Raises, raised, returned}
use sqlide.Common.Text.{Str, codes, CharTable}
use sqlide.Tiles.{
  Disk, TileSource, TileKey, Loader, recall, read_fresh, read_any, write_tile, remember,
  with_reason, with_files, available, cached, stale_or, take_answer, ask, unless_cached, fetch, url,
}
use sqlide.Tiles.Memory.{recall-keep}

module _ {F : Type 0} {B : Type 0} (disk : Disk F B) (u : CharTable) (source : TileSource)
    (directory : Str) (memory_tiles : ℕ) where
  -- The tile that an operation returns is in memory behind it.
  abbrev IsHeld : TileKey → Loader F B × Raises Str B → Type 0
  IsHeld key (s, raised e) = Unit
  IsHeld key (s, returned tile) = recall key s.memory ≡ some tile

  remember-IsHeld :
      (key : TileKey) (b : B) (s : Loader F B)
      → recall key (remember disk u source directory memory_tiles key b s).memory ≡ some b
  unfolding remember
  remember-IsHeld key b s = recall-keep key b _

  cached-IsHeld :
      (key : TileKey) (s : Loader F B) (b : B)
      → (cached disk u source directory memory_tiles key s).1 ≡ some b
      → recall key (cached disk u source directory memory_tiles key s).0.memory ≡ some b
  unfolding cached
  cached-IsHeld key s b h = elim (Option-cases (recall key s.memory)) [
    | inr (c, e) ↦ let k : some c ≡ some b = rw e at h in rw e (e ∙ k)
    | inl e ↦ elim (Option-cases (read_fresh disk u source directory memory_tiles key s.files)) [
      | inr (c, f) ↦
          let k : some c ≡ some b = rw (e, f) at h in rw (e, f) (remember-IsHeld key c s ∙ k)
      | inl f ↦ let k : none ≡ some b = rw (e, f) at h in absurd (cc)
    ]
  ]

  stale_or-IsHeld :
      (key : TileKey) (o : Option B) (problem : Str) (s after : Loader F B)
      → IsHeld key (stale_or disk u source directory memory_tiles key o problem s after)
  stale_or-IsHeld key (some b) problem s after = remember-IsHeld key b s
  stale_or-IsHeld key none problem s after = tt

  take_answer-IsHeld :
      (key : TileKey) (answer : Raises Str B) (s : Loader F B)
      → IsHeld key (take_answer disk u source directory memory_tiles key answer s)
  unfolding take_answer
  take_answer-IsHeld key (raised e) s =
      stale_or-IsHeld key (read_any disk u source directory memory_tiles key s.files)
        (codes "tile server unreachable: " ++ e) s
        (with_reason disk u source directory memory_tiles (codes "tile server unreachable: " ++ e)
          s)
  take_answer-IsHeld key (returned b) s = elim (Bool-cases (disk.is_nothing b)) [
    | inl e ↦ rw e tt
    | inr e ↦ rw e (
        remember-IsHeld key b (
          with_files disk u source directory memory_tiles
            (write_tile disk u source directory memory_tiles key b s.files) s))
  ]

  ask-IsHeld :
      (key : TileKey) (transport : Str → Raises Str B) (p : Loader F B × Str)
      → IsHeld key (ask disk u source directory memory_tiles key transport p)
  ask-IsHeld key transport (s, []) = take_answer-IsHeld key (transport (url source key)) s
  ask-IsHeld key transport (s, c ∷ problem) =
      stale_or-IsHeld key (read_any disk u source directory memory_tiles key s.files) (c ∷ problem)
        s s

  unless_cached-IsHeld :
      (key : TileKey) (online : Bool) (transport : Str → Raises Str B) (r : Loader F B × Option B)
      → ((b : B) → r.1 ≡ some b → recall key r.0.memory ≡ some b)
      → IsHeld key (unless_cached disk u source directory memory_tiles key online transport r)
  unless_cached-IsHeld key online transport (s, some tile) h = h tile refl
  unless_cached-IsHeld key online transport (s, none) h =
      ask-IsHeld key transport (available disk u source directory memory_tiles online s)

  fetch-IsHeld :
      (key : TileKey) (online : Bool) (transport : Str → Raises Str B) (s : Loader F B)
      → IsHeld key (fetch disk u source directory memory_tiles key online transport s)
  unfolding fetch
  fetch-IsHeld key online transport s =
      unless_cached-IsHeld key online transport (cached disk u source directory memory_tiles key s)
        (cached-IsHeld key s)

  -- The tile that a fetch returns is at hand at once: looking it up gives it, and changes nothing.
  pub cached-fetch :
      (key : TileKey) (online : Bool) (transport : Str → Raises Str B) (s after : Loader F B)
      (tile : B)
      → fetch disk u source directory memory_tiles key online transport s ≡ (after, returned tile)
      → cached disk u source directory memory_tiles key after ≡ (after, some tile)
  unfolding cached
  cached-fetch key online transport s after tile h =
      let held : recall key after.memory ≡ some tile =
        subst (IsHeld key) h (fetch-IsHeld key online transport s) in
      rw held refl
