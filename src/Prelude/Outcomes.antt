-- ===== src/Prelude/Outcomes.antt =====
-- What a Go call comes to: a value, an error with its message, or a panic. A loop that waits for
-- something outside takes fuel, and is still running where the fuel ends.
use Prim.Native.Nat.{ℕ, ◌+◌}
use Prim.Native.String.{String}
use mathlib.Core.Path.{◌≡◌, refl, sym, ap, fun_ext, ◌∙◌}
use mathlib.Core.List.{List, [], ◌∷◌, ◌++◌}
use native.Mathlib.Omega.{arith}
use kube_comp_mig.Prelude.Lists.{length}

pub data Outcome {ℓ} (A : Type ℓ) : Type ℓ where
  ok : A → Outcome A
  err : String → Outcome A
  panic : Outcome A
  running : Outcome A

infixl 5 ◌>>=◌
abbrev pub ◌>>=◌ {ℓ κ} : {A : Type ℓ} {B : Type κ} → Outcome A → (A → Outcome B) → Outcome B
ok a >>= f = f a
err e >>= f = err e
panic >>= f = panic
running >>= f = running

pub >>=-assoc {ℓ κ μ} :
    {A : Type ℓ} {B : Type κ} {C : Type μ} (m : Outcome A) (f : A → Outcome B) (g : B → Outcome C)
    → ((m >>= f) >>= g) ≡ (m >>= λ a. f a >>= g)
>>=-assoc (ok a) f g = refl
>>=-assoc (err e) f g = refl
>>=-assoc panic f g = refl
>>=-assoc running f g = refl

-- `if err != nil { return fmt.Errorf("…: %v", err) }`: the message of the caller replaces the cause.
abbrev pub wrap {ℓ} : {A : Type ℓ} → String → Outcome A → Outcome A
wrap message (ok a) = ok a
wrap message (err e) = err message
wrap message panic = panic
wrap message running = running

-- `for i, a := range items`, whose body may return early with an error or panic.
unfoldable pub for_range {ℓ κ} :
    {A : Type ℓ} {S : Type κ} → (ℕ → A → S → Outcome S) → ℕ → List A → S → Outcome S
for_range body i [] s = ok s
for_range body i (a ∷ rest) s = body i a s >>= λ s'. for_range body (i + 1) rest s'

pub for_range-nil {ℓ κ} :
    {A : Type ℓ} {S : Type κ} (body : ℕ → A → S → Outcome S) (i : ℕ) (s : S)
    → for_range body i [] s ≡ ok s
unfolding for_range
for_range-nil body i s = refl

pub for_range-cons {ℓ κ} :
    {A : Type ℓ} {S : Type κ} (body : ℕ → A → S → Outcome S) (i : ℕ) (a : A) (rest : List A) (s : S)
    → for_range body i (a ∷ rest) s ≡ (body i a s >>= λ s'. for_range body (i + 1) rest s')
unfolding for_range
for_range-cons body i a rest s = refl

pub for_range-append {ℓ κ} :
    {A : Type ℓ} {S : Type κ} (body : ℕ → A → S → Outcome S) (i j : ℕ) (xs ys : List A) (s : S)
    → i + length xs ≡ j
    → for_range body i (xs ++ ys) s ≡ (for_range body i xs s >>= λ s'. for_range body j ys s')
unfolding for_range
for_range-append body i j [] ys s e = ap (λ k. for_range body k ys s) (omega arith)
for_range-append body i j (x ∷ xs) ys s e =
    ap (λ k. body i x s >>= k)
      (fun_ext (λ s'. for_range-append body (i + 1) j xs ys s' (omega arith)))
    ∙ sym (>>=-assoc (body i x s) (for_range body (i + 1) xs) (for_range body j ys))

-- A value of two calls comes from a value of the first.
pub >>=-ok {ℓ κ} :
    {A : Type ℓ} {B : Type κ} (m : Outcome A) (f : A → Outcome B) (b : B)
    → (m >>= f) ≡ ok b
    → (a : A) × (m ≡ ok a) × (f a ≡ ok b)
>>=-ok (ok a) f b h = (a, refl, h)
>>=-ok (err e) f b h = absurd (ne h)
  where
    ne : err e ≡ ok b → ⊥
    ne h = cc
>>=-ok panic f b h = absurd (ne h)
  where
    ne : panic ≡ ok b → ⊥
    ne h = cc
>>=-ok running f b h = absurd (ne h)
  where
    ne : running ≡ ok b → ⊥
    ne h = cc

pub ok_injective {ℓ} : {A : Type ℓ} (a b : A) → ok a ≡ ok b → a ≡ b
ok_injective a b h = cc
