-- ===== src/Tiles/Quiet.antt =====
-- When the loader of backend/tiles.py leaves the network alone.
use sqlide.Common.{
  ℕ, Bool, true, false, Option, none, some, [], ◌∷◌, ◌++◌, ◌≡◌, refl, inl, inr, ◌⊎◌, first_case,
  Bool-cases, Option-cases,
}
use sqlide.Common.Raises.{Raises, raised, returned}
use sqlide.Common.Text.{Str, codes, CharTable}
use sqlide.Tiles.{
  Disk, TileSource, TileKey, Loader, is_blank, recall, validate, read_fresh, read_any, remember,
  with_reason, with_files, available, cached, stale_or, take_answer, ask, unless_cached, fetch, url,
}

module _ {F : Type 0} {B : Type 0} (disk : Disk F B) (u : CharTable) (source : TileSource)
    (directory : Str) (memory_tiles : ℕ) where
  -- Tiles are turned off, the source is not usable, a failure is noted, or there is no network.
  abbrev pub IsQuiet : Bool → Loader F B → Type 0
  IsQuiet online s =
      (source.enabled ≡ false)
      ⊎ ((is_blank (validate u source) ≡ false)
          ⊎ ((is_blank s.offline_reason ≡ false) ⊎ (online ≡ false)))

  available-problem :
      (online : Bool) (s : Loader F B)
      → IsQuiet online s
      → is_blank (available disk u source directory memory_tiles online s).1 ≡ false
  unfolding available first_case
  available-problem online s q = elim (Bool-cases source.enabled) [
    | inr e ↦ rw e refl
    | inl e ↦ elim (Bool-cases (is_blank (validate u source))) [
      | inr v ↦ rw (e, v) v
      | inl v ↦ elim (Bool-cases (is_blank s.offline_reason)) [
        | inr r ↦ rw (e, v, r) r
        | inl r ↦ elim (Bool-cases online) [
          | inr o ↦ rw (e, v, r, o) refl
          | inl o ↦ elim q [
            | inl x ↦ absurd (cc)
            | inr (inl x) ↦ absurd (cc)
            | inr (inr (inl x)) ↦ absurd (cc)
            | inr (inr (inr x)) ↦ absurd (cc)
          ]
        ]
      ]
    ]
  ]

  available-IsQuiet :
      (online next : Bool) (s : Loader F B)
      → is_blank (available disk u source directory memory_tiles online s).1 ≡ false
      → IsQuiet next (available disk u source directory memory_tiles online s).0
  unfolding available first_case
  available-IsQuiet online next s h = elim (Bool-cases source.enabled) [
    | inr e ↦ inl e
    | inl e ↦ elim (Bool-cases (is_blank (validate u source))) [
      | inr v ↦ inr (inl v)
      | inl v ↦ elim (Bool-cases (is_blank s.offline_reason)) [
        | inr r ↦ rw (e, v, r) (inr (inr (inl r)))
        | inl r ↦ elim (Bool-cases online) [
          | inr o ↦ rw (e, v, r, o) (inr (inr (inl refl)))
          | inl o ↦ let k : true ≡ false = rw (e, v, r, o) at h in absurd (cc)
        ]
      ]
    ]
  ]

  cached-reason :
      (key : TileKey) (s : Loader F B)
      → (cached disk u source directory memory_tiles key s).0.offline_reason ≡ s.offline_reason
  unfolding cached remember
  cached-reason key s = elim (Option-cases (recall key s.memory)) [
    | inr (b, e) ↦ rw e refl
    | inl e ↦ elim (Option-cases (read_fresh disk u source directory memory_tiles key s.files)) [
      | inr (b, f) ↦ rw (e, f) refl
      | inl f ↦ rw (e, f) refl
    ]
  ]

  ask_same :
      (key : TileKey) (a b : Str → Raises Str B) (p : Loader F B × Str)
      → is_blank p.1 ≡ false
      → ask disk u source directory memory_tiles key a p
        ≡ ask disk u source directory memory_tiles key b p
  ask_same key a b (s, []) h = absurd (cc)
  ask_same key a b (s, c ∷ problem) h = refl

  unless_cached_same :
      (key : TileKey) (online : Bool) (a b : Str → Raises Str B) (r : Loader F B × Option B)
      → ((tile : B) × (r.1 ≡ some tile)) ⊎ IsQuiet online r.0
      → unless_cached disk u source directory memory_tiles key online a r
        ≡ unless_cached disk u source directory memory_tiles key online b r
  unless_cached_same key online a b (s, some tile) h = refl
  unless_cached_same key online a b (s, none) (inl (tile, h)) = absurd (cc)
  unless_cached_same key online a b (s, none) (inr h) =
      ask_same key a b (available disk u source directory memory_tiles online s)
        (available-problem online s h)

  -- A tile that is at hand, or a loader that is quiet, does not ask the network: what a fetch gives,
  -- and what it leaves, is the same whatever a request would have answered.
  pub fetch-IsQuiet :
      (key : TileKey) (online : Bool) (a b : Str → Raises Str B) (s : Loader F B)
      → ((tile : B) × ((cached disk u source directory memory_tiles key s).1 ≡ some tile))
        ⊎ IsQuiet online s
      → fetch disk u source directory memory_tiles key online a s
        ≡ fetch disk u source directory memory_tiles key online b s
  unfolding fetch
  fetch-IsQuiet key online a b s (inl hit) =
      unless_cached_same key online a b (cached disk u source directory memory_tiles key s)
        (inl hit)
  fetch-IsQuiet key online a b s (inr q) =
      unless_cached_same key online a b (cached disk u source directory memory_tiles key s)
        (inr (rw (cached-reason key s) q))

  -- Every further use of the loader that is not a reset: the operations of the client, and files
  -- that change beside it.
  pub data Uses (s : Loader F B) : Loader F B → Type 0 where
    unused : Uses s s
    looked_up :
        {t : Loader F B} (key : TileKey)
        → Uses s t
        → Uses s (cached disk u source directory memory_tiles key t).0
    probed :
        {t : Loader F B} (online : Bool)
        → Uses s t
        → Uses s (available disk u source directory memory_tiles online t).0
    fetched :
        {t : Loader F B} (key : TileKey) (online : Bool) (transport : Str → Raises Str B)
        → Uses s t
        → Uses s (fetch disk u source directory memory_tiles key online transport t).0
    files_changed :
        {t : Loader F B} (files : F)
        → Uses s t
        → Uses s (with_files disk u source directory memory_tiles files t)

  -- The loader is quiet for good, whatever the network does: what a noted failure leaves.
  abbrev IsSilent : Loader F B → Type 0
  IsSilent s =
      (source.enabled ≡ false)
      ⊎ ((is_blank (validate u source) ≡ false) ⊎ (is_blank s.offline_reason ≡ false))

  IsSilent-IsQuiet : (online : Bool) (s : Loader F B) → IsSilent s → IsQuiet online s
  IsSilent-IsQuiet online s (inl e) = inl e
  IsSilent-IsQuiet online s (inr (inl e)) = inr (inl e)
  IsSilent-IsQuiet online s (inr (inr e)) = inr (inr (inl e))

  available-IsSilent :
      (online : Bool) (s : Loader F B)
      → is_blank (available disk u source directory memory_tiles online s).1 ≡ false
      → IsSilent (available disk u source directory memory_tiles online s).0
  available-IsSilent online s h = elim (available-IsQuiet online true s h) [
    | inl e ↦ inl e
    | inr (inl e) ↦ inr (inl e)
    | inr (inr (inl e)) ↦ inr (inr e)
    | inr (inr (inr e)) ↦ absurd (cc)
  ]

  stale_or-IsSilent :
      (key : TileKey) (o : Option B) (problem : Str) (s after : Loader F B)
      → IsSilent s
      → IsSilent after
      → IsSilent (stale_or disk u source directory memory_tiles key o problem s after).0
  unfolding remember
  stale_or-IsSilent key (some b) problem s after h k = h
  stale_or-IsSilent key none problem s after h k = k

  ask-IsSilent :
      (key : TileKey) (transport : Str → Raises Str B) (p : Loader F B × Str)
      → is_blank p.1 ≡ false
      → IsSilent p.0
      → IsSilent (ask disk u source directory memory_tiles key transport p).0
  ask-IsSilent key transport (s, []) e h = absurd (cc)
  ask-IsSilent key transport (s, c ∷ problem) e h =
      stale_or-IsSilent key (read_any disk u source directory memory_tiles key s.files)
        (c ∷ problem) s s h h

  unless_cached-IsSilent :
      (key : TileKey) (online : Bool) (transport : Str → Raises Str B) (r : Loader F B × Option B)
      → IsSilent r.0
      → IsSilent (unless_cached disk u source directory memory_tiles key online transport r).0
  unless_cached-IsSilent key online transport (s, some tile) h = h
  unless_cached-IsSilent key online transport (s, none) h =
      let problem = available-problem online s (IsSilent-IsQuiet online s h) in
      ask-IsSilent key transport (available disk u source directory memory_tiles online s) problem
        (available-IsSilent online s problem)

  cached-IsSilent :
      (key : TileKey) (s : Loader F B)
      → IsSilent s
      → IsSilent (cached disk u source directory memory_tiles key s).0
  cached-IsSilent key s h = rw (cached-reason key s) h

  Uses-IsSilent : {s t : Loader F B} → Uses s t → IsSilent s → IsSilent t
  unfolding fetch
  Uses-IsSilent unused h = h
  Uses-IsSilent (looked_up {t} key c) h = cached-IsSilent key t (Uses-IsSilent c h)
  Uses-IsSilent (probed {t} online c) h =
      let before = IsSilent-IsQuiet online t (Uses-IsSilent c h) in
      available-IsSilent online t (available-problem online t before)
  Uses-IsSilent (fetched {t} key online transport c) h =
      unless_cached-IsSilent key online transport
        (cached disk u source directory memory_tiles key t)
        (cached-IsSilent key t (Uses-IsSilent c h))
  Uses-IsSilent (files_changed {t} files c) h = Uses-IsSilent c h

  -- No fetch of any tile asks the network, after whatever uses of the loader but a reset.
  abbrev pub StaysQuiet : Loader F B → Type 0
  StaysQuiet s =
      (t : Loader F B)
      → Uses s t
      → (key : TileKey) (online : Bool) (a b : Str → Raises Str B)
      → fetch disk u source directory memory_tiles key online a t
        ≡ fetch disk u source directory memory_tiles key online b t

  IsSilent-StaysQuiet : (s : Loader F B) → IsSilent s → StaysQuiet s
  IsSilent-StaysQuiet s h t c key online a b =
      fetch-IsQuiet key online a b t (inr (IsSilent-IsQuiet online t (Uses-IsSilent c h)))

  -- What an error of a fetch tells: the answer was empty, or the loader stays quiet.
  abbrev pub IsSilencing : Loader F B × Raises Str B → Type 0
  IsSilencing (s, returned tile) = Unit
  IsSilencing (s, raised e) = (e ≡ codes "empty tile") ⊎ StaysQuiet s

  stale_or-IsSilencing :
      (key : TileKey) (o : Option B) (problem : Str) (s after : Loader F B)
      → IsSilent after
      → IsSilencing (stale_or disk u source directory memory_tiles key o problem s after)
  stale_or-IsSilencing key (some b) problem s after h = tt
  stale_or-IsSilencing key none problem s after h = inr (IsSilent-StaysQuiet after h)

  take_answer-IsSilencing :
      (key : TileKey) (answer : Raises Str B) (s : Loader F B)
      → IsSilencing (take_answer disk u source directory memory_tiles key answer s)
  unfolding take_answer
  take_answer-IsSilencing key (raised e) s =
      stale_or-IsSilencing key (read_any disk u source directory memory_tiles key s.files)
        (codes "tile server unreachable: " ++ e) s
        (with_reason disk u source directory memory_tiles (codes "tile server unreachable: " ++ e)
          s)
        (inr (inr refl))
  take_answer-IsSilencing key (returned b) s = elim (Bool-cases (disk.is_nothing b)) [
    | inl e ↦ rw e (inl refl)
    | inr e ↦ rw e tt
  ]

  ask-IsSilencing :
      (key : TileKey) (transport : Str → Raises Str B) (p : Loader F B × Str)
      → (is_blank p.1 ≡ false → IsSilent p.0)
      → IsSilencing (ask disk u source directory memory_tiles key transport p)
  ask-IsSilencing key transport (s, []) h =
      take_answer-IsSilencing key (transport (url source key)) s
  ask-IsSilencing key transport (s, c ∷ problem) h =
      stale_or-IsSilencing key (read_any disk u source directory memory_tiles key s.files)
        (c ∷ problem) s s (h refl)

  unless_cached-IsSilencing :
      (key : TileKey) (online : Bool) (transport : Str → Raises Str B) (r : Loader F B × Option B)
      → IsSilencing (unless_cached disk u source directory memory_tiles key online transport r)
  unless_cached-IsSilencing key online transport (s, some tile) = tt
  unless_cached-IsSilencing key online transport (s, none) =
      ask-IsSilencing key transport (available disk u source directory memory_tiles online s)
        (available-IsSilent online s)

  -- A fetch that raises an error, other than for an empty answer, silences the loader: after any
  -- lookups, probes and fetches, and whatever happens to the files, a fetch of any tile gives and
  -- leaves the same whatever the network would have answered, until the loader is reset.
  pub fetch-IsSilencing :
      (key : TileKey) (online : Bool) (transport : Str → Raises Str B) (s : Loader F B)
      → IsSilencing (fetch disk u source directory memory_tiles key online transport s)
  unfolding fetch
  fetch-IsSilencing key online transport s =
      unless_cached-IsSilencing key online transport
        (cached disk u source directory memory_tiles key s)
