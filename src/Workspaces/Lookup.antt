-- ===== src/Workspaces/Lookup.antt =====
-- The connections found by name behind each operation of backend/workspaces.py.
use mathlib.Core.Path.{subst}
use sqlide.Common.{
  Bool, true, false, ◌||◌, none, some, List, [], ◌∷◌, ◌++◌, ◌≡◌, refl, ap, ◌∙◌, inl, inr, arith,
  Bool-cases, if◌then◌else◌,
}
use sqlide.Common.Distinct.{Distinct, str_eq-sym}
use sqlide.Common.Text.{Str, str_eq, str_eq_iff, is_one_of}
use sqlide.Workspaces.{Profile, names_of, other_names, find_profile, without, replace_profile}

-- A text that equals one of two different texts is not the other.
apart : (a b c : Str) → str_eq a b ≡ true → str_eq c a ≡ false → str_eq c b ≡ false
apart a b c e d = let k : a ≡ b = (str_eq_iff a b).0 e in subst (λ x. str_eq c x ≡ false) k d

or_false : (a b : Bool) → (a || b) ≡ false → (a ≡ false) × (b ≡ false)
or_false a b h = ground arith

str_eq_self : (a : Str) → str_eq a a ≡ true
str_eq_self a = (str_eq_iff a a).1 refl

module _ {D : Type 0} where
  pub names_of-snoc :
      (ps : List (Profile D)) (p : Profile D) → names_of (ps ++ p ∷ []) ≡ names_of ps ++ p.name ∷ []
  names_of-snoc [] p = refl
  names_of-snoc (q ∷ ps) p = ap (◌∷◌ q.name) (names_of-snoc ps p)

  find_profile-none :
      (b : Str) (ps : List (Profile D))
      → is_one_of b (names_of ps) ≡ false
      → find_profile b ps ≡ none
  unfolding find_profile
  find_profile-none b [] h = refl
  find_profile-none b (p ∷ ps) h =
      let (first, rest) = or_false (str_eq b p.name) (is_one_of b (names_of ps)) h in
      rw (str_eq-sym b p.name first) (find_profile-none b ps rest)

  pub find_profile-snoc :
      (b : Str) (ps : List (Profile D)) (p : Profile D)
      → is_one_of p.name (names_of ps) ≡ false
      → find_profile b (ps ++ p ∷ []) ≡ (if str_eq p.name b then some p else find_profile b ps)
  unfolding find_profile
  find_profile-snoc b [] p h = refl
  find_profile-snoc b (q ∷ ps) p h =
      let (first, rest) = or_false (str_eq p.name q.name) (is_one_of p.name (names_of ps)) h in
      elim (Bool-cases (str_eq q.name b)) [
        | inl e ↦ rw (e, apart q.name b p.name e first) refl
        | inr e ↦ rw e (find_profile-snoc b ps p rest)
      ]

  pub find_profile-without :
      (a b : Str) (ps : List (Profile D))
      → find_profile b (without a ps) ≡ (if str_eq a b then none else find_profile b ps)
  unfolding find_profile without
  find_profile-without a b [] = elim (Bool-cases (str_eq a b)) [
    | inl e ↦ rw e refl
    | inr e ↦ rw e refl
  ]
  find_profile-without a b (p ∷ ps) = elim (Bool-cases (str_eq p.name a)) [
    | inl e ↦
        let same : str_eq p.name b ≡ str_eq a b =
          ap (λ n. str_eq n b) ((str_eq_iff p.name a).0 e) in
        elim (Bool-cases (str_eq a b)) [
          | inl f ↦ rw (e, find_profile-without a b ps, f) refl
          | inr f ↦ rw (e, find_profile-without a b ps, f, same ∙ f) refl
        ]
    | inr e ↦ elim (Bool-cases (str_eq p.name b)) [
      | inl f ↦ rw (e, f, apart p.name b a f (str_eq-sym p.name a e)) refl
      | inr f ↦ rw (e, f) (find_profile-without a b ps)
    ]
  ]

  pub find_profile-replace_profile :
      (a b : Str) (edited : Profile D) (ps : List (Profile D))
      → Distinct (names_of ps)
      → is_one_of a (names_of ps) ≡ true
      → is_one_of edited.name (other_names a ps) ≡ false
      → find_profile b (replace_profile a edited ps) ≡ (
          if str_eq edited.name b
          then some edited
          else if str_eq a b
          then none
          else find_profile b ps)
  unfolding find_profile replace_profile other_names
  find_profile-replace_profile a b edited [] d h f = absurd (cc)
  find_profile-replace_profile a b edited (p ∷ ps) d h f = elim (Bool-cases (str_eq p.name a)) [
    | inl e ↦
        let same : p.name ≡ a = (str_eq_iff p.name a).0 e in
        elim (Bool-cases (str_eq a b)) [
          | inl g ↦
              let names : a ≡ b = (str_eq_iff a b).0 g in
              let gone : find_profile b ps ≡ none =
                find_profile-none b ps
                  (subst (λ n. is_one_of n (names_of ps) ≡ false) (same ∙ names) d.0) in
              rw (e, g, gone) refl
          | inr g ↦ rw (e, g, ap (λ n. str_eq n b) same ∙ g) refl
        ]
    | inr e ↦
        let (first, rest) =
          or_false (str_eq edited.name p.name) (is_one_of edited.name (other_names a ps))
            (rw e at f) in
        let a_p = str_eq-sym p.name a e in
        let h' : is_one_of a (names_of ps) ≡ true = rw a_p at h in
        elim (Bool-cases (str_eq p.name b)) [
          | inl g ↦ rw (e, g, apart p.name b edited.name g first, apart p.name b a g a_p) refl
          | inr g ↦ rw (e, g) (find_profile-replace_profile a b edited ps d.1 h' rest)
        ]
  ]

  is_one_of-without :
      (a b : Str) (ps : List (Profile D))
      → is_one_of b (names_of ps) ≡ false
      → is_one_of b (names_of (without a ps)) ≡ false
  unfolding without
  is_one_of-without a b [] h = refl
  is_one_of-without a b (p ∷ ps) h =
      let (first, rest) = or_false (str_eq b p.name) (is_one_of b (names_of ps)) h in
      elim (Bool-cases (str_eq p.name a)) [
        | inl e ↦ rw e (is_one_of-without a b ps rest)
        | inr e ↦ rw (e, first) (is_one_of-without a b ps rest)
      ]

  pub Distinct-without :
      (a : Str) (ps : List (Profile D))
      → Distinct (names_of ps)
      → Distinct (names_of (without a ps))
  unfolding without
  Distinct-without a [] d = tt
  Distinct-without a (p ∷ ps) d = elim (Bool-cases (str_eq p.name a)) [
    | inl e ↦ rw e (Distinct-without a ps d.1)
    | inr e ↦ rw e (is_one_of-without a p.name ps d.0, Distinct-without a ps d.1)
  ]

  is_one_of-replace_profile :
      (a b : Str) (edited : Profile D) (ps : List (Profile D))
      → str_eq b edited.name ≡ false
      → is_one_of b (other_names a ps) ≡ false
      → is_one_of b (names_of (replace_profile a edited ps)) ≡ false
  unfolding replace_profile other_names
  is_one_of-replace_profile a b edited [] n h = refl
  is_one_of-replace_profile a b edited (p ∷ ps) n h = elim (Bool-cases (str_eq p.name a)) [
    | inl e ↦ let h' : is_one_of b (names_of ps) ≡ false = rw e at h in rw (e, n) h'
    | inr e ↦
        let (first, rest) =
          or_false (str_eq b p.name) (is_one_of b (other_names a ps)) (rw e at h) in
        rw (e, first) (is_one_of-replace_profile a b edited ps n rest)
  ]

  other_names-sublist :
      (a b : Str) (ps : List (Profile D))
      → is_one_of b (names_of ps) ≡ false
      → is_one_of b (other_names a ps) ≡ false
  unfolding other_names
  other_names-sublist a b [] h = refl
  other_names-sublist a b (p ∷ ps) h =
      let (first, rest) = or_false (str_eq b p.name) (is_one_of b (names_of ps)) h in
      elim (Bool-cases (str_eq p.name a)) [
        | inl e ↦ rw e rest
        | inr e ↦ rw (e, first) (other_names-sublist a b ps rest)
      ]

  pub Distinct-replace_profile :
      (a : Str) (edited : Profile D) (ps : List (Profile D))
      → Distinct (names_of ps)
      → is_one_of edited.name (other_names a ps) ≡ false
      → Distinct (names_of (replace_profile a edited ps))
  unfolding replace_profile other_names
  Distinct-replace_profile a edited [] d f = tt
  Distinct-replace_profile a edited (p ∷ ps) d f = elim (Bool-cases (str_eq p.name a)) [
    | inl e ↦ let f' : is_one_of edited.name (names_of ps) ≡ false = rw e at f in rw e (f', d.1)
    | inr e ↦
        let (first, rest) =
          or_false (str_eq edited.name p.name) (is_one_of edited.name (other_names a ps))
            (rw e at f) in
        rw e (
          is_one_of-replace_profile a p.name edited ps (str_eq-sym edited.name p.name first)
              (other_names-sublist a p.name ps d.0),
          Distinct-replace_profile a edited ps d.1 rest,
        )
  ]
