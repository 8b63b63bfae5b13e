-- ===== src/Prelude/Lists.antt =====
-- Lists measured and indexed by native numbers, under the library's names.
use Prim.Native.Nat.{ℕ, zero, suc, ◌+◌}
use mathlib.Core.Path.{◌≡◌, refl, sym, ap, subst}
use mathlib.Core.Logic.{◌⊎◌, ◌↔◌, inl, inr}
use mathlib.Core.Bool.{Bool, true, false}
use mathlib.Core.List.{List, [], ◌∷◌, ◌++◌, map}
use mathlib.Core.Option.{Option, none, some}
use native.Mathlib.Omega.{arith}
use kube_comp_mig.Prelude.Tests.{if◌then◌else◌}

module _ {ℓ} {A : Type ℓ} where
  abbrev pub length : List A → ℕ
  length [] = 0
  length (x ∷ xs) = suc (length xs)

  abbrev pub get_elem? : List A → ℕ → Option A
  get_elem? [] i = none
  get_elem? (x ∷ xs) zero = some x
  get_elem? (x ∷ xs) (suc i) = get_elem? xs i

  abbrev pub take : ℕ → List A → List A
  take zero xs = []
  take (suc n) [] = []
  take (suc n) (x ∷ xs) = x ∷ take n xs

  abbrev pub drop : ℕ → List A → List A
  drop zero xs = xs
  drop (suc n) [] = []
  drop (suc n) (x ∷ xs) = drop n xs

  -- A predicate on every element, by recursion.
  abbrev pub All {κ} : (A → Type κ) → List A → Type κ
  All P [] = Unit
  All P (x ∷ xs) = P x × All P xs

  -- One element has the property.
  abbrev pub Any : (A → Type 0) → List A → Type 0
  Any P [] = ⊥
  Any P (x ∷ xs) = P x ⊎ Any P xs

  pub length-append : (xs ys : List A) → length (xs ++ ys) ≡ length xs + length ys
  length-append [] ys = omega arith
  length-append (x ∷ xs) ys = omega (arith, length-append xs ys)

  pub All-append {κ} : (P : A → Type κ) (xs ys : List A) → All P xs → All P ys → All P (xs ++ ys)
  All-append P [] ys hx hy = hy
  All-append P (x ∷ xs) ys hx hy = (hx.0, All-append P xs ys hx.1 hy)

pub length-map {ℓ κ} :
    {A : Type ℓ} {B : Type κ} (f : A → B) (xs : List A) → length (map f xs) ≡ length xs
length-map f [] = refl
length-map f (x ∷ xs) = ap suc (length-map f xs)

-- The value is an element.
abbrev pub Member : {A : Type 0} → A → List A → Type 0
Member a xs = Any (λ x. x ≡ a) xs

-- An element that a test keeps.
pub Member-if :
    {A : Type 0} (b : Bool) (x a : A) (xs : List A) (X Y : Type 0)
    → ((b ≡ true) ↔ X)
    → (Member a xs ↔ Y)
    → Member a (if b then x ∷ xs else xs) ↔ ((x ≡ a) × X ⊎ Y)
Member-if true x a xs X Y f g = (
  λ h. elim h [ inl e ↦ inl (e, f.0 refl) | inr m ↦ inr (g.0 m) ],
  λ h. elim h [ inl p ↦ inl p.0 | inr y ↦ inr (g.1 y) ],
)
Member-if false x a xs X Y f g =
    (λ h. inr (g.0 h), λ h. elim h [ inl p ↦ absurd (ne (f.1 p.1)) | inr y ↦ g.1 y ])
  where
    ne : false ≡ true → ⊥
    ne e = cc

-- Where some element has one property and all have another, an element has both.
pub Any-All :
    {A : Type 0} {P Q : A → Type 0} (xs : List A) → Any P xs → All Q xs → (a : A) × P a × Q a
Any-All [] h k = absurd h
Any-All (x ∷ xs) (inl p) (q, qs) = (x, p, q)
Any-All (x ∷ xs) (inr p) (q, qs) = Any-All xs p qs

pub All-Member : {A : Type 0} (P : A → Type 0) (a : A) (xs : List A) → All P xs → Member a xs → P a
All-Member P a [] h k = absurd k
All-Member P a (x ∷ xs) (p, ps) (inl e) = subst P e p
All-Member P a (x ∷ xs) (p, ps) (inr m) = All-Member P a xs ps m

pub All-weaken :
    {A : Type 0} {P Q : A → Type 0} (xs : List A) → ((a : A) → P a → Q a) → All P xs → All Q xs
All-weaken [] f h = tt
All-weaken (x ∷ xs) f (p, ps) = (f x p, All-weaken xs f ps)

pub All-zip :
    {A : Type 0} (P Q : A → Type 0) (xs : List A) → All P xs → All Q xs → All (λ a. P a × Q a) xs
All-zip P Q [] h k = tt
All-zip P Q (x ∷ xs) (p, ps) (q, qs) = ((p, q), All-zip P Q xs ps qs)

-- What holds of every element holds of all.
pub Member-All :
    {A : Type 0} {P : A → Type 0} (xs : List A) → ((a : A) → Member a xs → P a) → All P xs
Member-All [] f = tt
Member-All (x ∷ xs) f = (f x (inl refl), Member-All xs (λ a m. f a (inr m)))

pub Member-Any : {A : Type 0} (P : A → Type 0) (a : A) (xs : List A) → Member a xs → P a → Any P xs
Member-Any P a [] m p = absurd m
Member-Any P a (x ∷ xs) (inl e) p = inl (subst P (sym e) p)
Member-Any P a (x ∷ xs) (inr m) p = inr (Member-Any P a xs m p)
