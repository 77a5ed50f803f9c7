-- ===== src/Common/Raises.antt =====
-- Python code that returns or raises, with the loop that collects what its body returns.
use mathlib.Core.List.{List, [], ◌∷◌, ◌++◌}
use mathlib.Core.Path.{◌≡◌, refl, sym}
use mathlib.Core.Bool.{Bool, true, false, ◌||◌}
use sqlide.Common.Lists.{any}

pub data Raises {ℓ μ} (E : Type ℓ) (A : Type μ) : Type (ℓ ⊔ μ) where
  raised : E → Raises E A
  returned : A → Raises E A

infixl 5 ◌>>=◌ ◌>>◌
abbrev pub ◌>>=◌ {ℓ μ ν} :
    {E : Type ℓ} {A : Type μ} {T : Type ν} → Raises E A → (A → Raises E T) → Raises E T
raised e >>= next = raised e
returned a >>= next = next a

abbrev pub ◌>>◌ {ℓ ν} : {E : Type ℓ} {T : Type ν} → Raises E (Unit {0}) → Raises E T → Raises E T
check >> rest = check >>= λ _. rest

-- `if test: raise e`
abbrev pub raise_if {ℓ} : {E : Type ℓ} → Bool → E → Raises E (Unit {0})
raise_if true e = raised e
raise_if false e = returned tt

-- The value and what was computed from it, where a chain returns.
pub >>=-returned {ℓ μ ν} :
    {E : Type ℓ} {A : Type μ} {T : Type ν} (m : Raises E A) (next : A → Raises E T) {y : T}
    → (m >>= next) ≡ returned y
    → (x : A) × (m ≡ returned x) × (next x ≡ returned y)
>>=-returned (raised e) next h = absurd (cc)
>>=-returned (returned a) next h = (a, refl, h)

-- The end of a chain.
pub returned-eq {ℓ μ} :
    {E : Type ℓ} {A : Type μ} {x y : A} → ◌≡◌ {A = Raises E A} (returned x) (returned y) → x ≡ y
returned-eq h = cc

-- `for x in xs: out.extend(f(x))`
unfoldable pub collect {ℓ μ ν} :
    {E : Type ℓ} {A : Type μ} {T : Type ν} → (A → Raises E (List T)) → List A → Raises E (List T)
collect f [] = returned []
collect f (x ∷ xs) = do first ← f x; rest ← collect f xs; returned (first ++ rest)

-- `[f(x) for x in xs]`
unfoldable pub each {ℓ μ ν} :
    {E : Type ℓ} {A : Type μ} {T : Type ν} → (A → Raises E T) → List A → Raises E (List T)
each f [] = returned []
each f (x ∷ xs) = do first ← f x; rest ← each f xs; returned (first ∷ rest)

pub any-append {ℓ} :
    {A : Type ℓ} (p : A → Bool) (xs ys : List A) → any p (xs ++ ys) ≡ (any p xs || any p ys)
any-append p [] ys = refl
any-append p (x ∷ xs) ys = rw (any-append p xs ys) (or_assoc (p x) (any p xs) (any p ys))
  where
    or_assoc : (a b c : Bool) → (a || (b || c)) ≡ ((a || b) || c)
    or_assoc true b c = refl
    or_assoc false b c = refl

-- What a test finds in the collected is what it finds in one of the parts.
pub any-collect {ℓ μ ν} :
    {E : Type ℓ} {A : Type μ} {T : Type ν} (p : T → Bool) (q : A → Bool) (f : A → Raises E (List T))
    → ((x : A) (ys : List T) → f x ≡ returned ys → any p ys ≡ q x)
    → (xs : List A) {ys : List T} → collect f xs ≡ returned ys
    → any p ys ≡ any q xs
unfolding collect
any-collect p q f each_part [] {ys} h = let e : [] ≡ ys = returned-eq h in rw (sym e) refl
any-collect p q f each_part (x ∷ xs) {ys} h =
    let (first, found, h_rest) = >>=-returned (f x) _ h in
    let (rest, found_rest, h_end) = >>=-returned (collect f xs) _ h_rest in
    let e : first ++ rest ≡ ys = returned-eq h_end in
    rw
      (
        sym e,
        any-append p first rest,
        each_part x first found,
        any-collect p q f each_part xs found_rest,
      )
      refl
