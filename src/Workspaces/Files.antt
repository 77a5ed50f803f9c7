-- ===== src/Workspaces/Files.antt =====
-- A workspace's passwords through its files, in backend/secrets.py.
use mathlib.Core.Option
use sqlide.Common.{true, some, List, [], ◌∷◌, ◌≡◌, refl, sym, ap, ◌∙◌, inl, inr, Bool-cases}
use sqlide.Common.Text.{Str, str_eq, str_eq_iff}
use sqlide.Workspaces.{
  Keyring, IsKeyring, Profile, Workspace, find_profile, redact, hydrate, get_secret,
}
use sqlide.Workspaces.Secrets.{
  Field, password, ssh_password, field_text, field_value, stored, wanted, secret,
}
use sqlide.Workspaces.Mirror.{IsMirrored}

stored-get_or : (v : Str) → Option.get_or (stored v) [] ≡ v
stored-get_or [] = refl
stored-get_or (c ∷ v) = refl

find_profile-name :
    {D : Type 0} (name : Str) (ps : List (Profile D)) {p : Profile D}
    → find_profile name ps ≡ some p
    → p.name ≡ name
unfolding find_profile
find_profile-name name [] h = absurd (cc)
find_profile-name name (q ∷ ps) {p} h = elim (Bool-cases (str_eq q.name name)) [
  | inl e ↦
      let k : some q ≡ some p = rw e at h in
      let l : q ≡ p = cc in ap (λ r. r.name) (sym l) ∙ (str_eq_iff q.name name).0 e
  | inr e ↦ find_profile-name name ps (rw e at h)
]

module _ {K : Type 0} (kr : Keyring K) (laws : IsKeyring kr) {D : Type 0} where
  get_secret-field_value :
      (name : Str) (w : Workspace D) (s : K) (p : Profile D) (f : Field)
      → IsMirrored kr laws (w, s)
      → find_profile name w.connections ≡ some p
      → get_secret kr true w.id p.name (field_text f) s ≡ field_value f p
  unfolding get_secret
  get_secret-field_value name w s p f h e =
      ap (λ n. Option.get_or (secret kr laws w.id n f s) [])
        (find_profile-name name w.connections e)
      ∙ ap (λ o. Option.get_or o []) (h.mirrored name f ∙ ap (wanted f) e)
      ∙ stored-get_or (field_value f p)

  -- A connection whose file has its passwords blanked gets both back from the keyring when the
  -- workspace is opened again, and the keyring stays as it is.
  pub hydrate-redact :
      (name : Str) (w : Workspace D) (s : K) (p : Profile D)
      → IsMirrored kr laws (w, s)
      → find_profile name w.connections ≡ some p
      → hydrate kr true w.id (redact kr true p, s) ≡ (p, s)
  unfolding hydrate redact
  hydrate-redact name w s p h e =
      let first = get_secret-field_value name w s p password h e in
      let second = get_secret-field_value name w s p ssh_password h e in
      λ i. (
        record { name = p.name; password = first i; ssh_password = second i; details = p.details },
        s,
      )
