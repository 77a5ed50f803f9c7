-- ===== src/Workspaces.antt =====
-- backend/workspaces.py with backend/secrets.py: the connections of a workspace and their passwords in
-- the system's keyring. A profile's other settings are `D`.
pub mod Names
pub mod Secrets
pub mod Lookup
pub mod Mirror
pub mod Files
mod Tests
use mathlib.Core.Option
use sqlide.Common.{
  ℕ, zero, suc, ◌+◌, ◌-◌, Bool, true, false, not, ◌&&◌, ◌||◌, Option, none, some, List, [], ◌∷◌,
  ◌++◌, ◌≡◌, map, if◌then◌else◌, length, drop,
}
use sqlide.Common.Int.{pos, show_int}
use sqlide.Common.Text.{Str, codes, str_eq, is_one_of}

-- The `keyring` package for one service: what it stores under a name.
pub record Keyring (K : Type 0) : Type 0 where
  pub get_password : Str → K → Option Str
  pub set_password : Str → Str → K → K
  pub delete_password : Str → K → K

-- What the package documents of its three functions. Deleting what is not there raises an error that
-- `set_secret` catches, and changes nothing.
pub record IsKeyring {K : Type 0} (kr : Keyring K) : Type 0 where
  pub get-set :
      (j k v : Str) (s : K)
      → kr.get_password k (kr.set_password j v s)
        ≡ (if str_eq j k then some v else kr.get_password k s)
  pub get-delete :
      (j k : Str) (s : K)
      → kr.get_password k (kr.delete_password j s)
        ≡ (if str_eq j k then none else kr.get_password k s)

pub record Profile (D : Type 0) : Type 0 where
  pub name : Str
  pub password : Str
  pub ssh_password : Str
  pub details : D

pub record HistoryEntry : Type 0 where
  pub sql : Str
  pub connection : Str
  pub timestamp : Str
  pub succeeded : Bool
  pub panel : Str
  pub panel_closed : Bool

pub record Workspace (D : Type 0) : Type 0 where
  pub id : Str
  pub connections : List (Profile D)
  pub history : List HistoryEntry

-- `MAX_HISTORY`
abbrev pub max_history : ℕ
max_history = 200

abbrev pub is_blank : Str → Bool
is_blank [] = true
is_blank (c ∷ s) = false

-- `_key`
unfoldable pub secret_key : Str → Str → Str → Str
secret_key workspace name field = workspace ++ (codes ":" ++ (name ++ (codes ":" ++ field)))

-- `while f"…{n}…" in names: n += 1`, on fuel
unfoldable pub free_from : (ℕ → Str) → ℕ → List Str → ℕ → Option Str
unfolding str_eq
free_from candidate zero names n = none
free_from candidate (suc fuel) names n =
    let rest = free_from candidate fuel names (n + 1) in
    if is_one_of (candidate n) names then rest else some (candidate n)

-- `f"{name} ({n})"`
abbrev pub numbered : Str → ℕ → Str
numbered name n = name ++ (codes " (" ++ (show_int (pos n) ++ codes ")"))

-- The variant of a name that none of the given names is.
unfoldable pub unique_name : List Str → Str → Str
unfolding free_from str_eq
unique_name names name =
    if not (is_one_of name names)
    then name
    else Option.get_or (free_from (numbered name) (suc (length names)) names 2) name

-- `f"Workspace {n}"`
abbrev pub workspace_name : ℕ → Str
workspace_name n = codes "Workspace " ++ show_int (pos n)

-- `WorkspaceStore.default_name`, from the names of the workspaces
unfoldable pub default_name : List Str → Str
unfolding free_from
default_name [] = codes "Default Workspace"
default_name (w ∷ names) =
    Option.get_or (free_from workspace_name (suc (length (w ∷ names))) (w ∷ names) 2) []

module _ {K : Type 0} (kr : Keyring K) (available : Bool) where
  unfoldable pub set_secret : Str → Str → Str → Str → K → K
  unfolding secret_key
  set_secret workspace name field value s =
      if not available
      then s
      else if is_blank value
      then kr.delete_password (secret_key workspace name field) s
      else kr.set_password (secret_key workspace name field) value s

  unfoldable pub get_secret : Str → Str → Str → K → Str
  unfolding secret_key
  get_secret workspace name field s =
      if not available
      then []
      else Option.get_or (kr.get_password (secret_key workspace name field) s) []

  unfoldable pub drop_profile_secrets : Str → Str → K → K
  unfolding set_secret
  drop_profile_secrets workspace name s =
      set_secret workspace name (codes "ssh_password") []
        (set_secret workspace name (codes "password") [] s)

module _ {D : Type 0} where
  abbrev pub names_of : List (Profile D) → List Str
  names_of = map (λ p. p.name)

  -- The names of the connections but for the one that is renamed.
  unfoldable pub other_names : Str → List (Profile D) → List Str
  unfolding str_eq
  other_names name [] = []
  other_names name (p ∷ ps) =
      if str_eq p.name name then names_of ps else p.name ∷ other_names name ps

  unfoldable pub add_history : HistoryEntry → Workspace D → Workspace D
  add_history entry w =
      let all = w.history ++ entry ∷ [] in
      record {
        id = w.id;
        connections = w.connections;
        history = drop (length all - max_history) all;
      }

  unfoldable pub find_profile : Str → List (Profile D) → Option (Profile D)
  unfolding str_eq
  find_profile name [] = none
  find_profile name (p ∷ ps) =
      let rest = find_profile name ps in if str_eq p.name name then some p else rest

  -- `[p for p in self.connections if p.name != name]`
  unfoldable pub without : Str → List (Profile D) → List (Profile D)
  unfolding str_eq
  without name [] = []
  without name (p ∷ ps) =
      let rest = without name ps in if str_eq p.name name then rest else p ∷ rest

  -- The profile that is edited, in place.
  unfoldable pub replace_profile : Str → Profile D → List (Profile D) → List (Profile D)
  unfolding str_eq
  replace_profile name edited [] = []
  replace_profile name edited (p ∷ ps) =
      let rest = replace_profile name edited ps in
      if str_eq p.name name then edited ∷ ps else p ∷ rest

  abbrev pub named : Str → Profile D → Profile D
  named name p = record {
    name = name;
    password = p.password;
    ssh_password = p.ssh_password;
    details = p.details;
  }

  abbrev pub with_connections : List (Profile D) → Workspace D → Workspace D
  with_connections ps w = record { id = w.id; connections = ps; history = w.history }

module _ {K : Type 0} (kr : Keyring K) (available : Bool) {D : Type 0} where
  unfoldable pub store_profile_secrets : Str → Profile D → K → K
  unfolding set_secret
  store_profile_secrets workspace p s =
      set_secret kr available workspace p.name (codes "ssh_password") p.ssh_password
        (set_secret kr available workspace p.name (codes "password") p.password s)

  unfoldable pub add_connection : Profile D → Workspace D × K → Workspace D × K
  unfolding store_profile_secrets unique_name
  add_connection p (w, s) =
      let added = named (unique_name (names_of w.connections) p.name) p in
      (with_connections (w.connections ++ added ∷ []) w, store_profile_secrets w.id added s)

  unfoldable pub remove_connection : Str → Workspace D × K → Workspace D × K
  unfolding without drop_profile_secrets
  remove_connection name (w, s) = (
    with_connections (without name w.connections) w,
    drop_profile_secrets kr available w.id name s,
  )

  unfoldable pub sync_renamed_connection_secrets : Str → Str → Profile D → K → K
  unfolding store_profile_secrets drop_profile_secrets str_eq
  sync_renamed_connection_secrets workspace old_name p s =
      let stored = store_profile_secrets workspace p s in
      if str_eq p.name old_name
      then stored
      else drop_profile_secrets kr available workspace old_name stored

  -- `_connection_edited` of frontend/window.py: the profile called `old_name` becomes `edited`, under
  -- a name that no other has.
  unfoldable pub edit_connection : Str → Profile D → Workspace D × K → Workspace D × K
  unfolding replace_profile other_names sync_renamed_connection_secrets unique_name
  edit_connection old_name edited (w, s) =
      let renamed = named (unique_name (other_names old_name w.connections) edited.name) edited in
      (
        with_connections (replace_profile old_name renamed w.connections) w,
        sync_renamed_connection_secrets w.id old_name renamed s,
      )

  -- `redact`: the profile as its file has it.
  unfoldable pub redact : Profile D → Profile D
  redact p =
      if not available
      then p
      else record { name = p.name; password = []; ssh_password = []; details = p.details }

  unfoldable pub load_profile_secrets : Str → Profile D → K → Profile D
  unfolding get_secret
  load_profile_secrets workspace p s = record {
    name = p.name;
    password =
        (if is_blank p.password
          then get_secret kr available workspace p.name (codes "password") s
          else p.password);
    ssh_password =
        (if is_blank p.ssh_password
          then get_secret kr available workspace p.name (codes "ssh_password") s
          else p.ssh_password);
    details = p.details;
  }

  unfoldable pub hydrate : Str → Profile D × K → Profile D × K
  unfolding load_profile_secrets store_profile_secrets
  hydrate workspace (p, s) =
      if not available
      then (p, s)
      else if not (is_blank p.password) || not (is_blank p.ssh_password)
      then (p, store_profile_secrets workspace p s)
      else (load_profile_secrets workspace p s, s)
