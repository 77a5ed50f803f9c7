-- ===== src/Workspaces/Tests.antt =====
-- A workspace over a keyring that is a function.
use mathlib.Core.List.{map}
use sqlide.Common.{
  ℕ, true, false, Option, none, some, List, [], ◌∷◌, ◌++◌, ◌≡◌, refl, if◌then◌else◌, length, drop,
  suc, ◌-◌, ◌≤◌,
}
use sqlide.Common.Int.{show_int}
use sqlide.Common.Text.{Str, codes, words, str_eq, is_one_of}
use sqlide.Workspaces.{
  Keyring, IsKeyring, Profile, HistoryEntry, Workspace, unique_name, default_name, add_history,
  add_connection, remove_connection, secret_key, max_history, hydrate, redact, find_profile,
}
use sqlide.Workspaces.Names.{unique_name-IsFree, default_name-IsFree}
use sqlide.Workspaces.Files.{hydrate-redact}
use sqlide.Workspaces.Mirror.{
  IsMirrored, here, next, add, remove, Changes-IsMirrored, add_history_bounds,
}

abbrev Box : Type 0
Box = Str → Option Str

abbrev box : Keyring Box
box = record {
  get_password = λ k s. s k;
  set_password = λ j v s k. if str_eq j k then some v else s k;
  delete_password = λ j s k. if str_eq j k then none else s k;
}

box-IsKeyring : IsKeyring box
box-IsKeyring = record { get-set = λ j k v s. refl; get-delete = λ j k s. refl }

abbrev taken : List Str
taken = words ("shop" ∷ "shop (2)" ∷ [])

unique_test : unique_name taken (codes "shop") ≡ codes "shop (3)"
unfolding unique_name str_eq show_int
unique_test = refl

unique_name-IsFree_example : is_one_of (unique_name taken (codes "shop")) taken ≡ false
unique_name-IsFree_example = unique_name-IsFree taken (codes "shop")

taken-IsFree : is_one_of (default_name taken) taken ≡ false
taken-IsFree = default_name-IsFree taken

abbrev shop : Profile ℕ
shop = record { name = codes "shop"; password = codes "pw"; ssh_password = []; details = 1 }

abbrev empty : Workspace ℕ
empty = record { id = codes "w"; connections = []; history = [] }

abbrev start : Workspace ℕ × Box
start = (empty, λ k. none)

abbrev added : Workspace ℕ × Box
added = add_connection box true shop start

abbrev twice : Workspace ℕ × Box
twice = add_connection box true shop (added.0, added.1)

twice_test : map (λ p. p.name) twice.0.connections ≡ words ("shop" ∷ "shop (2)" ∷ [])
unfolding add_connection str_eq show_int
twice_test = refl

Changes-IsMirrored_example :
    IsMirrored box box-IsKeyring (remove_connection box true (codes "shop") (twice.0, twice.1))
unfolding find_profile
Changes-IsMirrored_example =
    Changes-IsMirrored box box-IsKeyring {s = start}
      (record { distinct = tt; mirrored = λ name f. refl })
      (next (next (next here (add shop empty (λ k. none))) (add shop added.0 added.1))
        (remove (codes "shop") twice.0 twice.1))

abbrev run : HistoryEntry
run = record {
  sql = codes "select 1";
  connection = codes "shop";
  timestamp = [];
  succeeded = true;
  panel = [];
  panel_closed = false;
}

add_history_bounds_example :
    (length (add_history run empty).history ≤ max_history)
    × ((add_history run empty).history
        ≡ drop (suc (length empty.history) - max_history) empty.history ++ run ∷ [])
add_history_bounds_example = add_history_bounds run empty

-- A file with one password in the clear: the other is taken out of the keyring.
abbrev half_blank : Profile ℕ
half_blank = record { name = codes "shop"; password = codes "pw"; ssh_password = []; details = 1 }

abbrev both_stored : Box
both_stored =
    (add_connection box true
      (record {
        name = codes "shop";
        password = codes "pw";
        ssh_password = codes "tunnel";
        details = 1;
      })
      start).1

stored_before :
    both_stored (secret_key (codes "w") (codes "shop") (codes "ssh_password"))
    ≡ some (codes "tunnel")
unfolding add_connection secret_key str_eq
stored_before = refl

dropped_after :
    (hydrate box true (codes "w") (half_blank, both_stored)).1
      (secret_key (codes "w") (codes "shop") (codes "ssh_password"))
    ≡ none
unfolding hydrate add_connection secret_key str_eq
dropped_after = refl

hydrate-redact_example :
    hydrate box true (codes "w") (redact box true shop, added.1) ≡ (shop, added.1)
unfolding add_connection find_profile str_eq
hydrate-redact_example =
    hydrate-redact box box-IsKeyring (codes "shop") added.0 added.1 shop
      (Changes-IsMirrored box box-IsKeyring {s = start}
        (record { distinct = tt; mirrored = λ name f. refl })
        (next here (add shop empty (λ k. none))))
      refl
