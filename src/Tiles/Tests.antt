-- ===== src/Tiles/Tests.antt =====
-- Runs of the loader of backend/tiles.py, and the theorems at a concrete disk.
use sqlide.Common.{
  ℕ, Bool, true, false, Option, none, some, List, [], ◌∷◌, ◌++◌, ◌≡◌, ◌≤◌, refl, inl, inr,
  if◌then◌else◌, length,
}
use sqlide.Common.Raises.{Raises, raised, returned}
use sqlide.Common.Text.{Str, codes, ascii, str_eq}
use sqlide.Tiles.{Disk, TileSource, TileKey, Loader, is_blank, url, validate, cached, fetch}
use sqlide.Tiles.Memory.{load, here, next, Steps-IsBounded}
use sqlide.Tiles.Quiet.{IsSilencing, fetch-IsQuiet, fetch-IsSilencing}
use sqlide.Tiles.Held.{cached-fetch}

-- A file system that keeps what is written, every file a minute old.
abbrev Files : Type 0
Files = List (Str × Str)

unfoldable bytes_at : Str → Files → Option Str
unfolding str_eq
bytes_at path [] = none
bytes_at path ((p, b) ∷ rest) =
    let found = bytes_at path rest in if str_eq p path then some b else found

abbrev a_minute : Option Str → Option ℕ
a_minute none = none
a_minute (some b) = some 60

abbrev a_disk : Disk Files Str
a_disk = record {
  age = λ path files. a_minute (bytes_at path files);
  read_bytes = bytes_at;
  write_bytes = λ path b files. some ((path, b) ∷ files);
  is_nothing = is_blank;
}

abbrev osm : TileSource
osm = record {
  url_template = codes "https://tile.openstreetmap.org/{z}/{x}/{y}.png";
  attribution = codes "OpenStreetMap";
  enabled = true;
}

abbrev a_key : TileKey
a_key = (3, (4, 2))

abbrev answering : Str → Raises Str Str
answering address = returned (codes "png")

abbrev failing : Str → Raises Str Str
failing address = raised (codes "timed out")

first_address : url osm a_key ≡ codes "https://tile.openstreetmap.org/3/4/2.png"
unfolding url
first_address = refl

osm_usable : validate ascii osm ≡ []
unfolding validate sqlide.Common.first_case sqlide.Common.Text.strip_by sqlide.Common.Text.find_here
osm_usable = refl

abbrev load_tile : (Str → Raises Str Str) → Loader Files Str → Loader Files Str × Raises Str Str
load_tile transport s = fetch a_disk ascii osm (codes "tiles") 1 a_key true transport s

abbrev fresh : Loader Files Str
fresh = record { memory = []; offline_reason = []; files = [] }

Steps-IsBounded_example : length (load_tile answering fresh).0.memory ≤ 1
Steps-IsBounded_example =
    Steps-IsBounded a_disk ascii osm (codes "tiles") 1 []
      (next here (load a_key true answering fresh))

fetch-IsQuiet_example :
    fetch a_disk ascii osm (codes "tiles") 1 a_key false answering fresh
    ≡ fetch a_disk ascii osm (codes "tiles") 1 a_key false failing fresh
fetch-IsQuiet_example =
    fetch-IsQuiet a_disk ascii osm (codes "tiles") 1 a_key false answering failing fresh
      (inr (inr (inr (inr refl))))

fetch-IsSilencing_example : IsSilencing a_disk ascii osm (codes "tiles") 1 (load_tile failing fresh)
fetch-IsSilencing_example =
    fetch-IsSilencing a_disk ascii osm (codes "tiles") 1 a_key true failing fresh

cached-fetch_example :
    cached a_disk ascii osm (codes "tiles") 1 a_key (load_tile answering fresh).0
    ≡ ((load_tile answering fresh).0, some (codes "png"))
unfolding fetch bytes_at sqlide.Common.first_case sqlide.Common.Text.strip_by
    sqlide.Common.Text.find_here
cached-fetch_example =
    cached-fetch a_disk ascii osm (codes "tiles") 1 a_key true answering fresh
      (load_tile answering fresh).0 (codes "png") refl
