-- ===== src/Workspaces/Mirror.antt =====
-- The operations on connections in backend/workspaces.py keep names apart and the keyring in step.
use mathlib.Core.Path.{subst}
use sqlide.Common.{
  ℕ, Bool, true, false, Option, none, some, List, [], ◌∷◌, ◌++◌, ◌≡◌, refl, sym, ap, ◌∙◌, inl, inr,
  arith, Bool-cases, length, drop, length-drop, length-append, ◌≤◌, zero, suc, ◌-◌, if◌then◌else◌,
}
use sqlide.Common.Distinct.{Distinct, Distinct-snoc, str_eq-sym}
use sqlide.Common.Text.{Str, str_eq, str_eq_iff, is_one_of}
use sqlide.Workspaces.{
  Keyring, IsKeyring, Profile, Workspace, HistoryEntry, max_history, names_of, other_names,
  find_profile, named, unique_name, add_history, add_connection, remove_connection, edit_connection,
  sync_renamed_connection_secrets, store_profile_secrets,
}
use sqlide.Workspaces.Names.{unique_name-IsFree}
use sqlide.Workspaces.Secrets.{
  Field, wanted, secret, secret-store, secret-drop, stored, field_value,
}
use sqlide.Workspaces.Lookup.{
  names_of-snoc, find_profile-snoc, find_profile-without, find_profile-replace_profile,
  Distinct-without, Distinct-replace_profile,
}

wanted-if :
    {D : Type 0} (f : Field) (b : Bool) (x y : Option (Profile D))
    → wanted f (if b then x else y) ≡ (if b then wanted f x else wanted f y)
wanted-if f true x y = refl
wanted-if f false x y = refl

if_shadow {ℓ} :
    {A : Type ℓ} (b c : Bool) (x y z : A)
    → c ≡ b
    → (if b then x else z) ≡ (if b then x else if c then y else z)
if_shadow true c x y z h = refl
if_shadow false c x y z h = rw h refl

if_swap {ℓ} :
    {A : Type ℓ} (b c : Bool) (x y z : A)
    → (b ≡ true → c ≡ false)
    → (if c then y else if b then x else z) ≡ (if b then x else if c then y else z)
if_swap true c x y z h = rw (h refl) refl
if_swap false c x y z h = refl

module _ {K : Type 0} (kr : Keyring K) (laws : IsKeyring kr) {D : Type 0} where
  -- No two connections share a name, and the keyring holds for every name and setting what the
  -- connection of that name has, and nothing where there is no such connection.
  pub record IsMirrored (s : Workspace D × K) : Type 0 where
    pub distinct : Distinct (names_of s.0.connections)
    pub mirrored :
        (name : Str) (f : Field)
        → secret kr laws s.0.id name f s.1 ≡ wanted f (find_profile name s.0.connections)

  -- One operation of the workspace, or of the window on it, while a keyring is there.
  pub data Change : Workspace D × K → Workspace D × K → Type 0 where
    history : (e : HistoryEntry) (w : Workspace D) (s : K) → Change (w, s) (add_history e w, s)
    add :
        (p : Profile D) (w : Workspace D) (s : K) → Change (w, s) (add_connection kr true p (w, s))
    remove :
        (name : Str) (w : Workspace D) (s : K)
        → Change (w, s) (remove_connection kr true name (w, s))
    edit :
        (name : Str) (p : Profile D) (w : Workspace D) (s : K)
        → is_one_of name (names_of w.connections) ≡ true
        → Change (w, s) (edit_connection kr true name p (w, s))

  pub data Changes (s : Workspace D × K) : Workspace D × K → Type 0 where
    here : Changes s s
    next : {t r : Workspace D × K} → Changes s t → Change t r → Changes s r

  add_connection-IsMirrored :
      (p : Profile D) (w : Workspace D) (s : K)
      → IsMirrored (w, s)
      → IsMirrored (add_connection kr true p (w, s))
  unfolding add_connection
  add_connection-IsMirrored p w s h =
      let ps = w.connections in
      let added = named (unique_name (names_of ps) p.name) p in
      let free = unique_name-IsFree (names_of ps) p.name in
      record {
        distinct =
            rw (names_of-snoc ps added) (Distinct-snoc added.name (names_of ps) free h.distinct);
        mirrored = λ name f.
            secret-store kr laws w.id added name f s
            ∙ ap (λ o. if str_eq added.name name then stored (field_value f added) else o)
                (h.mirrored name f)
            ∙ sym (wanted-if f (str_eq added.name name) (some added) (find_profile name ps))
            ∙ ap (wanted f) (sym (find_profile-snoc name ps added free));
      }

  remove_connection-IsMirrored :
      (a : Str) (w : Workspace D) (s : K)
      → IsMirrored (w, s)
      → IsMirrored (remove_connection kr true a (w, s))
  unfolding remove_connection
  remove_connection-IsMirrored a w s h = record {
    distinct = Distinct-without a w.connections h.distinct;
    mirrored = λ name f.
        secret-drop kr laws w.id a name f s
        ∙ ap (λ o. if str_eq a name then none else o) (h.mirrored name f)
        ∙ sym (wanted-if f (str_eq a name) none (find_profile name w.connections))
        ∙ ap (wanted f) (sym (find_profile-without a name w.connections));
  }

  secret-sync :
      (w a : Str) (p : Profile D) (name : Str) (f : Field) (s : K)
      → secret kr laws w name f (sync_renamed_connection_secrets kr true w a p s) ≡ (
          if str_eq p.name name
          then stored (field_value f p)
          else if str_eq a name
          then none
          else secret kr laws w name f s)
  unfolding sync_renamed_connection_secrets
  secret-sync w a p name f s = elim (Bool-cases (str_eq p.name a)) [
    | inl e ↦
        let same : p.name ≡ a = (str_eq_iff p.name a).0 e in
        rw e (
          secret-store kr laws w p name f s
          ∙ if_shadow (str_eq p.name name) (str_eq a name) (stored (field_value f p)) none
              (secret kr laws w name f s) (ap (λ n. str_eq n name) (sym same)))
    | inr e ↦ rw e (
        secret-drop kr laws w a name f (store_profile_secrets kr true w p s)
        ∙ ap (λ o. if str_eq a name then none else o) (secret-store kr laws w p name f s)
        ∙ if_swap (str_eq p.name name) (str_eq a name) (stored (field_value f p)) none
            (secret kr laws w name f s)
            (λ g.
              subst (λ n. str_eq a n ≡ false) ((str_eq_iff p.name name).0 g)
                (str_eq-sym p.name a e)))
  ]

  edit_connection-IsMirrored :
      (a : Str) (p : Profile D) (w : Workspace D) (s : K)
      → is_one_of a (names_of w.connections) ≡ true
      → IsMirrored (w, s)
      → IsMirrored (edit_connection kr true a p (w, s))
  unfolding edit_connection
  edit_connection-IsMirrored a p w s there h =
      let ps = w.connections in
      let edited = named (unique_name (other_names a ps) p.name) p in
      let free = unique_name-IsFree (other_names a ps) p.name in
      record {
        distinct = Distinct-replace_profile a edited ps h.distinct free;
        mirrored = λ name f.
            let rest = if str_eq a name then none else find_profile name ps in
            secret-sync w.id a edited name f s
            ∙ ap
                (λ o.
                  if str_eq edited.name name
                  then stored (field_value f edited)
                  else if str_eq a name
                  then none
                  else o)
                (h.mirrored name f)
            ∙ ap (λ o. if str_eq edited.name name then stored (field_value f edited) else o)
                (sym (wanted-if f (str_eq a name) none (find_profile name ps)))
            ∙ sym (wanted-if f (str_eq edited.name name) (some edited) rest)
            ∙ ap (wanted f)
                (sym (find_profile-replace_profile a name edited ps h.distinct there free));
      }

  -- Along any sequence of added, removed and edited connections and of history entries, no two
  -- connections of a workspace share a name, and the keyring holds for each connection the passwords
  -- that it has and no secret under any other name: none is left behind by a removal or a renaming.
  pub Changes-IsMirrored : {s t : Workspace D × K} → IsMirrored s → Changes s t → IsMirrored t
  unfolding add_history
  Changes-IsMirrored h here = h
  Changes-IsMirrored h (next c (history e w s)) =
      let k = Changes-IsMirrored h c in record { distinct = k.distinct; mirrored = k.mirrored }
  Changes-IsMirrored h (next c (add p w s)) =
      add_connection-IsMirrored p w s (Changes-IsMirrored h c)
  Changes-IsMirrored h (next c (remove name w s)) =
      remove_connection-IsMirrored name w s (Changes-IsMirrored h c)
  Changes-IsMirrored h (next c (edit name p w s there)) =
      edit_connection-IsMirrored name p w s there (Changes-IsMirrored h c)

drop-snoc {ℓ} :
    {A : Type ℓ} (n : ℕ) (xs : List A) (x : A)
    → n ≤ length xs
    → drop n (xs ++ x ∷ []) ≡ drop n xs ++ x ∷ []
drop-snoc zero xs x h = refl
drop-snoc (suc n) [] x h = elim h [ ]
drop-snoc (suc n) (y ∷ xs) x h = drop-snoc n xs x (omega arith)

-- Recording a run keeps the newest runs: never more than `max_history`, the new one last.
pub add_history_bounds :
    {D : Type 0} (e : HistoryEntry) (w : Workspace D)
    → (length (add_history e w).history ≤ max_history)
      × ((add_history e w).history
          ≡ drop (suc (length w.history) - max_history) w.history ++ e ∷ [])
unfolding add_history
add_history_bounds e w =
    let all = w.history ++ e ∷ [] in
    let one : length all ≡ suc (length w.history) =
      omega (arith, length-append w.history (e ∷ [])) in
    (
      omega (arith, length-drop (length all - max_history) all),
      ap (λ n. drop (n - max_history) all) one
          ∙ drop-snoc (suc (length w.history) - max_history) w.history e (omega arith),
    )
