-- ===== src/Workspaces/Secrets.antt =====
-- The keyring holds the passwords of the connections of a workspace, and no others.
use mathlib.Core.List.{append_cancel_left, append_cancel_right, append_assoc}
use sqlide.Common.{
  ℕ, Bool, true, false, ◌&&◌, Option, none, some, [], ◌∷◌, ◌++◌, ◌≡◌, refl, sym, ap, ◌∙◌, arith,
  if◌then◌else◌, &&-split,
}
use sqlide.Common.Text.{Str, codes, str_eq, str_eq_iff}
use sqlide.Workspaces.{
  Keyring, IsKeyring, Profile, secret_key, set_secret, drop_profile_secrets, store_profile_secrets,
}

-- The two settings that go to the keyring.
pub data Field : Type 0 where
  password ssh_password : Field

abbrev pub field_text : Field → Str
field_text password = codes "password"
field_text ssh_password = codes "ssh_password"

abbrev pub field_eq : Field → Field → Bool
field_eq password password = true
field_eq ssh_password ssh_password = true
field_eq _ _ = false

abbrev pub field_value : {D : Type 0} → Field → Profile D → Str
field_value password p = p.password
field_value ssh_password p = p.ssh_password

-- A blank value is not stored.
abbrev pub stored : Str → Option Str
stored [] = none
stored (c ∷ s) = some (c ∷ s)

abbrev pub wanted : {D : Type 0} → Field → Option (Profile D) → Option Str
wanted f none = none
wanted f (some p) = stored (field_value f p)

last_char : ℕ → Str → ℕ
last_char d [] = d
last_char d (c ∷ s) = last_char c s

last_char-snoc : (d : ℕ) (s : Str) (c : ℕ) → last_char d (s ++ c ∷ []) ≡ c
unfolding last_char
last_char-snoc d [] c = refl
last_char-snoc d (x ∷ s) c = last_char-snoc x s c

-- No name ends in ":ssh" with an underscore for its colon.
name_clash : (a b : Str) → ¬ (a ++ codes ":password" ≡ b ++ codes ":ssh_password")
name_clash a b h =
    let h' : (a ++ codes ":") ++ codes "password" ≡ (b ++ codes ":ssh_") ++ codes "password" =
      append_assoc a (codes ":") (codes "password")
      ∙ h
      ∙ sym (append_assoc b (codes ":ssh_") (codes "password")) in
    let k = append_cancel_right (a ++ codes ":") (b ++ codes ":ssh_") (codes "password") h' in
    let l : b'_' ≡ b':' =
      sym (last_char-snoc 0 (b ++ codes ":ssh") b'_')
      ∙ ap (last_char 0) (append_assoc b (codes ":ssh") (codes "_") ∙ sym k)
      ∙ last_char-snoc 0 a b':' in
    absurd (omega (arith, l))

tail_eq :
    (a b : Str) (f g : Field)
    → a ++ (codes ":" ++ field_text f) ≡ b ++ (codes ":" ++ field_text g)
    → (str_eq a b && field_eq f g) ≡ true
tail_eq a b password password h =
    let e = append_cancel_right a b (codes ":password") h in rw ((str_eq_iff a b).1 e) refl
tail_eq a b ssh_password ssh_password h =
    let e = append_cancel_right a b (codes ":ssh_password") h in rw ((str_eq_iff a b).1 e) refl
tail_eq a b password ssh_password h = absurd (name_clash a b h)
tail_eq a b ssh_password password h = absurd (name_clash b a (sym h))

field_eq-eq : (f g : Field) → field_eq f g ≡ true → f ≡ g
field_eq-eq password password h = refl
field_eq-eq ssh_password ssh_password h = refl
field_eq-eq password ssh_password h = absurd (cc)
field_eq-eq ssh_password password h = absurd (cc)

Bool-eq : (a b : Bool) → (a ≡ true → b ≡ true) → (b ≡ true → a ≡ true) → a ≡ b
Bool-eq true b h k = sym (h refl)
Bool-eq false true h k = k refl
Bool-eq false false h k = refl

-- A key of the keyring belongs to one connection and one setting.
secret_key-eq :
    (w a b : Str) (f g : Field)
    → str_eq (secret_key w a (field_text f)) (secret_key w b (field_text g))
      ≡ (str_eq a b && field_eq f g)
unfolding secret_key
secret_key-eq w a b f g =
    let j = secret_key w a (field_text f) in
    let k = secret_key w b (field_text g) in
    Bool-eq (str_eq j k) (str_eq a b && field_eq f g)
      (λ h.
        tail_eq a b f g
          (append_cancel_left (codes ":") _ _ (append_cancel_left w _ _ ((str_eq_iff j k).0 h))))
      (λ h.
        let (same, field) = &&-split (str_eq a b) (field_eq f g) h in
        let names : a ≡ b = (str_eq_iff a b).0 same in
        let fields : f ≡ g = field_eq-eq f g field in (str_eq_iff j k).1 (rw (names, fields) refl))

if-and_true {ℓ} :
    {A : Type ℓ} (b : Bool) (x y : A) → (if b && true then x else y) ≡ (if b then x else y)
if-and_true true x y = refl
if-and_true false x y = refl

if-and_false {ℓ} : {A : Type ℓ} (b : Bool) (x y : A) → (if b && false then x else y) ≡ y
if-and_false true x y = refl
if-and_false false x y = refl

module _ {K : Type 0} (kr : Keyring K) (laws : IsKeyring kr) (w : Str) where
  -- What the keyring holds for a connection and a setting.
  abbrev pub secret : Str → Field → K → Option Str
  secret name f s = kr.get_password (secret_key w name (field_text f)) s

  secret-set_secret :
      (a b v : Str) (f g : Field) (s : K)
      → secret b g (set_secret kr true w a (field_text f) v s)
        ≡ (if str_eq a b && field_eq f g then stored v else secret b g s)
  unfolding set_secret
  secret-set_secret a b [] f g s =
      laws.get-delete _ _ s ∙ ap (λ c. if c then none else secret b g s) (secret_key-eq w a b f g)
  secret-set_secret a b (c ∷ v) f g s =
      laws.get-set _ _ (c ∷ v) s
      ∙ ap (λ d. if d then some (c ∷ v) else secret b g s) (secret_key-eq w a b f g)

  -- Both settings written.
  secret-both :
      (a b v v' : Str) (g : Field) (s : K)
      → secret b g (
          set_secret kr true w a
            (codes "ssh_password")
            v'
            (set_secret kr true w a (codes "password") v s))
        ≡ (if str_eq a b
            then (elim g [ password ↦ stored v | ssh_password ↦ stored v' ])
            else secret b g s)
  secret-both a b v v' password s =
      let t = set_secret kr true w a (codes "password") v s in
      secret-set_secret a b v' ssh_password password t
      ∙ if-and_false (str_eq a b) (stored v') (secret b password t)
      ∙ secret-set_secret a b v password password s
      ∙ if-and_true (str_eq a b) (stored v) (secret b password s)
  secret-both a b v v' ssh_password s =
      let t = set_secret kr true w a (codes "password") v s in
      secret-set_secret a b v' ssh_password ssh_password t
      ∙ if-and_true (str_eq a b) (stored v') (secret b ssh_password t)
      ∙ ap (λ y. if str_eq a b then stored v' else y)
          (secret-set_secret a b v password ssh_password s
            ∙ if-and_false (str_eq a b) (stored v) (secret b ssh_password s))

  pub secret-store :
      {D : Type 0} (p : Profile D) (b : Str) (g : Field) (s : K)
      → secret b g (store_profile_secrets kr true w p s)
        ≡ (if str_eq p.name b then stored (field_value g p) else secret b g s)
  unfolding store_profile_secrets
  secret-store p b password s = secret-both p.name b p.password p.ssh_password password s
  secret-store p b ssh_password s = secret-both p.name b p.password p.ssh_password ssh_password s

  pub secret-drop :
      (a b : Str) (g : Field) (s : K)
      → secret b g (drop_profile_secrets kr true w a s)
        ≡ (if str_eq a b then none else secret b g s)
  unfolding drop_profile_secrets
  secret-drop a b password s = secret-both a b [] [] password s
  secret-drop a b ssh_password s = secret-both a b [] [] ssh_password s
