-- ===== src/Tiles.antt =====
-- backend/tiles.py: where map tiles come from, their cache on disk, and the loader. The file system, the
-- clock and the network are parameters.
pub mod Memory
pub mod Quiet
pub mod Held
mod Tests
use mathlib.Core.Option
use sqlide.Common.{
  ℕ, zero, suc, ◌+◌, ◌-◌, ◌*◌, Bool, true, false, not, ◌&&◌, ◌||◌, Option, none, some, List, [],
  ◌∷◌, ◌++◌, map, if◌then◌else◌, ◌==◌, leb, ltb, length, String, first_case,
}
use sqlide.Common.Int.{pos, show_int}
use sqlide.Common.Raises.{Raises, raised, returned}
use sqlide.Common.Text.{Str, codes, words, CharTable, starts_with, find, strip, join}

-- What `pathlib` does with a file: `none` stands for an `OSError`. The age is in seconds,
-- rounded up, and 0 for a time that is still to come.
pub record Disk (F : Type 0) (B : Type 0) : Type 0 where
  pub age : Str → F → Option ℕ
  pub read_bytes : Str → F → Option B
  pub write_bytes : Str → B → F → Option F
  pub is_nothing : B → Bool

pub record TileSource : Type 0 where
  pub url_template : Str
  pub attribution : Str
  pub enabled : Bool

-- `(z, x, y)`
abbrev pub TileKey : Type 0
TileKey = ℕ × (ℕ × ℕ)

abbrev pub max_age_days : ℕ
max_age_days = 30

abbrev pub marks : List Str
marks = words ("{z}" ∷ "{x}" ∷ "{y}" ∷ [])

abbrev pub is_blank : Str → Bool
is_blank [] = true
is_blank (c ∷ s) = false

-- `str(n)`
abbrev pub shown : ℕ → Str
shown n = show_int (pos n)

-- `s.replace(old, new)`, with as many characters of `s` to pass over as the count says.
unfoldable pub replace_from : Str → Str → ℕ → Str → Str
unfolding starts_with
replace_from old new skipped [] = []
replace_from old new (suc k) (c ∷ s) = replace_from old new k s
replace_from old new zero (c ∷ s) =
    let hit = replace_from old new (length old - 1) s in
    let miss = replace_from old new 0 s in if starts_with old (c ∷ s) then new ++ hit else c ∷ miss

abbrev pub replaced : String → ℕ → Str → Str
replaced mark n s = replace_from (codes mark) (shown n) 0 s

-- `TileSource.url`
unfoldable pub url : TileSource → TileKey → Str
unfolding replace_from show_int
url source (z, (x, y)) = replaced "{y}" y (replaced "{x}" x (replaced "{z}" z source.url_template))

abbrev is_found : Option ℕ → Bool
is_found none = false
is_found (some i) = true

-- `[p for p in _PLACEHOLDERS if p not in template]`
unfoldable pub missing_marks : Str → List Str → List Str
missing_marks template [] = []
missing_marks template (p ∷ ps) =
    let rest = missing_marks template ps in if is_found (find template p 0) then rest else p ∷ rest

-- `TileSource.validate`: blank, or why the source is not usable.
unfoldable pub validate : CharTable → TileSource → Str
unfolding missing_marks starts_with join
validate u source =
    let template = strip u source.url_template in
    let missing = missing_marks template marks in
    first_case
      ((is_blank template, codes "no tile URL is set")
        ∷ (
          not (starts_with (codes "http://") template || starts_with (codes "https://") template),
          codes "the tile URL must be an http(s) URL",
        )
        ∷ (leb 1 (length missing), codes "the tile URL is missing " ++ join (codes ", ") missing)
        ∷ (
          is_blank (strip u source.attribution),
          codes "a tile source must carry an attribution line",
        )
        ∷ [])
      []

-- `TileCache.path`
unfoldable pub tile_path : Str → TileKey → Str
unfolding show_int join
tile_path directory (z, (x, y)) =
    join (codes "/") (directory ∷ shown z ∷ shown x ∷ (shown y ++ codes ".tile") ∷ [])

abbrev pub key_eq : TileKey → TileKey → Bool
key_eq (z, (x, y)) (w, (v, t)) = z == w && (x == v && y == t)

-- `self._memory`, a dictionary.
unfoldable pub recall {ℓ} : {B : Type ℓ} → TileKey → List (TileKey × B) → Option B
recall key [] = none
recall key ((k, b) ∷ rest) = let found = recall key rest in if key_eq k key then some b else found

unfoldable pub keep {ℓ} : {B : Type ℓ} → TileKey → B → List (TileKey × B) → List (TileKey × B)
keep key tile [] = (key, tile) ∷ []
keep key tile ((k, b) ∷ rest) =
    let after = keep key tile rest in if key_eq k key then (k, tile) ∷ rest else (k, b) ∷ after

-- The loader, and the file system beside it.
pub record Loader (F : Type 0) (B : Type 0) : Type 0 where
  pub memory : List (TileKey × B)
  pub offline_reason : Str
  pub files : F

module _ {F : Type 0} {B : Type 0} (disk : Disk F B) (u : CharTable) (source : TileSource)
    (directory : Str) (memory_tiles : ℕ) where
  -- `TileCache.read`
  unfoldable pub read_fresh : TileKey → F → Option B
  unfolding tile_path
  read_fresh key files = elim (disk.age (tile_path directory key) files) [
    | none ↦ none
    | some age ↦
        if ltb (max_age_days * 86400) age
        then none
        else disk.read_bytes (tile_path directory key) files
  ]

  -- `TileCache.read_any`
  unfoldable pub read_any : TileKey → F → Option B
  unfolding tile_path
  read_any key files = disk.read_bytes (tile_path directory key) files

  -- `TileCache.write`: an `OSError` is passed over.
  unfoldable pub write_tile : TileKey → B → F → F
  unfolding tile_path
  write_tile key tile files =
      Option.get_or (disk.write_bytes (tile_path directory key) tile files) files

  unfoldable pub remember : TileKey → B → Loader F B → Loader F B
  unfolding keep
  remember key tile s = record {
    memory = keep key tile (if leb memory_tiles (length s.memory) then [] else s.memory);
    offline_reason = s.offline_reason;
    files = s.files;
  }

  abbrev pub with_reason : Str → Loader F B → Loader F B
  with_reason reason s = record { memory = s.memory; offline_reason = reason; files = s.files }

  abbrev pub with_files : F → Loader F B → Loader F B
  with_files files s = record {
    memory = s.memory;
    offline_reason = s.offline_reason;
    files = files;
  }

  -- `available`, of a loader whose probe answers `online`: blank, or why no tile can be fetched.
  unfoldable pub available : Bool → Loader F B → Loader F B × Str
  unfolding validate
  available online s =
      let offline = codes "no network connection — showing cached tiles" in
      first_case
        ((not source.enabled, (s, codes "map tiles are turned off in Preferences"))
          ∷ (not (is_blank (validate u source)), (s, validate u source))
          ∷ (not (is_blank s.offline_reason), (s, s.offline_reason))
          ∷ (not online, (with_reason offline s, offline))
          ∷ [])
        (s, [])

  abbrev noted : TileKey → Option B → Loader F B → Loader F B × Option B
  noted key none s = (s, none)
  noted key (some tile) s = (remember key tile s, some tile)

  abbrev pub from_disk : TileKey → Option B → Loader F B → Loader F B × Option B
  from_disk key (some tile) s = (s, some tile)
  from_disk key none s = noted key (read_fresh key s.files) s

  unfoldable pub cached : TileKey → Loader F B → Loader F B × Option B
  unfolding recall read_fresh remember
  cached key s = from_disk key (recall key s.memory) s

  -- The old tile on disk where there is one, else the error.
  abbrev pub stale_or :
      TileKey → Option B → Str → Loader F B → Loader F B → Loader F B × Raises Str B
  stale_or key (some stale) problem s after = (remember key stale s, returned stale)
  stale_or key none problem s after = (after, raised problem)

  -- What the transport answered, or how it failed.
  unfoldable pub take_answer : TileKey → Raises Str B → Loader F B → Loader F B × Raises Str B
  unfolding read_any remember write_tile
  take_answer key (raised e) s =
      let reason = codes "tile server unreachable: " ++ e in
      stale_or key (read_any key s.files) reason s (with_reason reason s)
  take_answer key (returned tile) s =
      if disk.is_nothing tile
      then (s, raised (codes "empty tile"))
      else (remember key tile (with_files (write_tile key tile s.files) s), returned tile)

  abbrev pub ask : TileKey → (Str → Raises Str B) → Loader F B × Str → Loader F B × Raises Str B
  ask key transport (s, []) = take_answer key (transport (url source key)) s
  ask key transport (s, c ∷ problem) = stale_or key (read_any key s.files) (c ∷ problem) s s

  abbrev pub unless_cached :
      TileKey → Bool → (Str → Raises Str B) → Loader F B × Option B → Loader F B × Raises Str B
  unless_cached key online transport (s, some tile) = (s, returned tile)
  unless_cached key online transport (s, none) = ask key transport (available online s)

  unfoldable pub fetch :
      TileKey → Bool → (Str → Raises Str B) → Loader F B → Loader F B × Raises Str B
  unfolding cached available take_answer url read_any remember
  fetch key online transport s = unless_cached key online transport (cached key s)

  unfoldable pub reset : Loader F B → Loader F B
  reset s = with_reason [] s
