-- ===== src/TomlWrite/Text.antt =====
-- A text that backend/tomlwrite.py writes, as TOML reads it.
use mathlib.Core.Option
use mathlib.Core.List.{append_assoc, flat_map}
use mathlib.Core.Path.{subst}
use sqlide.Common.{
  ℕ, Bool, true, false, not, ◌&&◌, ◌||◌, Option, none, some, [], ◌∷◌, ◌++◌, ◌≡◌, refl, sym, ap, ◌∙◌,
  inl, inr, if◌then◌else◌, ◌==◌, ==_iff, leb, Bool-cases, All,
}
use sqlide.Common.Text.{Str}
use sqlide.TomlWrite.{replace_char, escaped, value, text}

-- What TOML does not allow in a string: a control character other than a tab.
abbrev pub is_control : ℕ → Bool
is_control c = (leb c 31 && not (c == b'\t')) || c == 127

-- The character that an escape stands for, of those that the writer uses.
abbrev pub unescaped : ℕ → Option ℕ
unescaped c =
    if c == b'\\'
    then some b'\\'
    else if c == b'"'
    then some b'"'
    else if c == b'n'
    then some b'\n'
    else if c == b'r'
    then some b'\r'
    else if c == b't'
    then some b'\t'
    else none

abbrev keep_char : ℕ → Str × Str → Str × Str
keep_char c (s, rest) = (c ∷ s, rest)

abbrev keep_some : Option ℕ → Option (Str × Str) → Option (Str × Str)
keep_some none read = none
keep_some (some c) read = Option.map (keep_char c) read

-- A basic string behind its opening quote: what it holds, and what follows it. The flag says that a
-- backslash has just been read.
unfoldable pub read_basic : Bool → Str → Option (Str × Str)
read_basic escape [] = none
read_basic true (c ∷ s) = keep_some (unescaped c) (read_basic false s)
read_basic false (c ∷ s) =
    let escape = read_basic true s in
    let rest = read_basic false s in
    if c == b'"'
    then some ([], s)
    else if c == b'\\'
    then escape
    else if is_control c
    then none
    else Option.map (keep_char c) rest

replace_char-append :
    (old : ℕ) (new s t : Str)
    → replace_char old new (s ++ t) ≡ replace_char old new s ++ replace_char old new t
unfolding replace_char flat_map
replace_char-append old new [] t = refl
replace_char-append old new (c ∷ s) t =
    let first : Str = if c == old then new else c ∷ [] in
    ap (λ z. first ++ z) (replace_char-append old new s t)
    ∙ sym (append_assoc first (replace_char old new s) (replace_char old new t))

replace_char-parts :
    (old : ℕ) (new s a b : Str)
    → s ≡ a ++ b
    → replace_char old new s ≡ replace_char old new a ++ replace_char old new b
replace_char-parts old new s a b e = ap (replace_char old new) e ∙ replace_char-append old new a b

escaped-cons : (c : ℕ) (s : Str) → escaped (c ∷ s) ≡ escaped (c ∷ []) ++ escaped s
unfolding escaped
escaped-cons c s = replace_char-parts b'\t' _ _ _ _ (
    replace_char-parts b'\r' _ _ _ _ (
      replace_char-parts b'\n' _ _ _ _
        (replace_char-parts b'"' _ _ _ _ (replace_char-parts b'\\' _ (c ∷ s) (c ∷ []) s refl))))

-- A character that TOML allows in a string once it is written.
abbrev pub is_writable : ℕ → Bool
is_writable c = not (is_control c) || (c == b'\n' || c == b'\r')

read_basic-is :
    (d c : ℕ) (s : Str)
    → c ≡ d
    → read_basic false (escaped (d ∷ []) ++ s) ≡ Option.map (keep_char d) (read_basic false s)
    → read_basic false (escaped (c ∷ []) ++ s) ≡ Option.map (keep_char c) (read_basic false s)
read_basic-is d c s e h =
    subst
      (λ x.
        read_basic false (escaped (x ∷ []) ++ s) ≡ Option.map (keep_char x) (read_basic false s))
      (sym e) h

not_control :
    (c : ℕ)
    → is_writable c ≡ true
    → (c == b'\n') ≡ false
    → (c == b'\r') ≡ false
    → is_control c ≡ false
not_control c h e f = elim (Bool-cases (is_control c)) [
  | inr k ↦ k
  | inl k ↦ let l : false ≡ true = rw (k, e, f) at h in absurd (cc)
]

read_basic-escaped :
    (c : ℕ) (s : Str)
    → is_writable c ≡ true
    → read_basic false (escaped (c ∷ []) ++ s) ≡ Option.map (keep_char c) (read_basic false s)
unfolding escaped read_basic flat_map
read_basic-escaped c s h = elim (Bool-cases (c == b'\\')) [
  | inl e ↦ read_basic-is b'\\' c s ((==_iff c b'\\').0 e) refl
  | inr e1 ↦ elim (Bool-cases (c == b'"')) [
    | inl e ↦ read_basic-is b'"' c s ((==_iff c b'"').0 e) refl
    | inr e2 ↦ elim (Bool-cases (c == b'\n')) [
      | inl e ↦ read_basic-is b'\n' c s ((==_iff c b'\n').0 e) refl
      | inr e3 ↦ elim (Bool-cases (c == b'\r')) [
        | inl e ↦ read_basic-is b'\r' c s ((==_iff c b'\r').0 e) refl
        | inr e4 ↦ elim (Bool-cases (c == b'\t')) [
          | inl e ↦ read_basic-is b'\t' c s ((==_iff c b'\t').0 e) refl
          | inr e5 ↦
              let control = not_control c h e3 e4 in rw (e1, e2, e3, e4, e5, e2, e1, control) refl
        ]
      ]
    ]
  ]
]

read_basic-all :
    (s rest : Str)
    → All (λ c. is_writable c ≡ true) s
    → read_basic false (escaped s ++ b'"' ∷ rest) ≡ some (s, rest)
unfolding read_basic escaped flat_map
read_basic-all [] rest h = refl
read_basic-all (c ∷ s) rest h =
    rw
      (
        escaped-cons c s,
        append_assoc (escaped (c ∷ [])) (escaped s) (b'"' ∷ rest),
        read_basic-escaped c (escaped s ++ b'"' ∷ rest) h.0,
        read_basic-all s rest h.1,
      )
      refl

-- A text of characters that TOML allows, once they are written, is read back as it was: its quote ends
-- where the writer put it.
pub quoted-IsRead :
    (s rest : Str)
    → All (λ c. is_writable c ≡ true) s
    → (body : Str) × (value (text s) ≡ b'"' ∷ body)
      × (read_basic false (body ++ rest) ≡ some (s, rest))
unfolding value
quoted-IsRead s rest h = (
  escaped s ++ b'"' ∷ [],
  refl,
  rw (append_assoc (escaped s) (b'"' ∷ []) rest) (read_basic-all s rest h),
)
