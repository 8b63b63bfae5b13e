-- ===== src/Prelude/Maps.antt =====
-- Go maps as association lists; the order of the entries is the order of one `range` over the map,
-- which Go does not fix. `lookup` is `m[k]` with its second result.
use Prim.Native.Nat.{ℕ}
use Prim.Native.String.{String}
use mathlib.Core.Path.{◌≡◌, refl, sym, ◌∙◌}
use mathlib.Core.Logic.{◌↔◌, ◌⊎◌, inl, inr}
use mathlib.Core.Bool.{Bool, true, false}
use mathlib.Core.List.{List, [], ◌∷◌, map}
use mathlib.Core.Option.{Option, none, some}
use native.Mathlib.Omega.{arith}
use text.Mathlib.Text.{◌==◌ as str_eq}
use text.Mathlib.TextEquality.{eq_iff}
use kube_comp_mig.Prelude.Lists.{All, Any}
use kube_comp_mig.Prelude.Tests.{◌==◌, ==_iff, if◌then◌else◌}

pub record Eq {ℓ} (A : Type ℓ) : Type ℓ where
  pub beq : A → A → Bool
  pub beq_iff : (a b : A) → (beq a b ≡ true) ↔ (a ≡ b)

instance abbrev pub nat_eq : Eq ℕ
nat_eq = record { beq = ◌==◌; beq_iff = ==_iff }

instance abbrev pub string_eq : Eq String
string_eq = record { beq = str_eq; beq_iff = eq_iff }

-- `map[K]V`
abbrev pub Map {ℓ κ} : Type ℓ → Type κ → Type (ℓ ⊔ κ)
Map K V = List (K × V)

abbrev pub or_default {ℓ} : {A : Type ℓ} → A → Option A → A
or_default d none = d
or_default d (some a) = a

module _ {ℓ κ} {K : Type ℓ} {V : Type κ} ⦃e : Eq K⦄ where
  unfoldable pub lookup : K → Map K V → Option V
  lookup k [] = none
  lookup k ((j, v) ∷ m) = if e.beq j k then some v else lookup k m

  -- m[k] = v
  unfoldable pub insert : K → V → Map K V → Map K V
  insert k v [] = (k, v) ∷ []
  insert k v ((j, w) ∷ m) = if e.beq j k then (k, v) ∷ m else (j, w) ∷ insert k v m

  -- delete(m, k)
  unfoldable pub remove : K → Map K V → Map K V
  remove k [] = []
  remove k ((j, w) ∷ m) = let rest = remove k m in if e.beq j k then rest else (j, w) ∷ rest

  pub lookup-insert :
      (k j : K) (v : V) (m : Map K V)
      → lookup j (insert k v m) ≡ (if e.beq k j then some v else lookup j m)
  unfolding lookup insert
  lookup-insert k j v [] = refl
  lookup-insert k j v ((i, w) ∷ m) =
      ground (arith, e.beq_iff k j, e.beq_iff i k, e.beq_iff i j, lookup-insert k j v m)

  pub lookup-remove :
      (k j : K) (m : Map K V) → lookup j (remove k m) ≡ (if e.beq k j then none else lookup j m)
  unfolding lookup remove
  lookup-remove k j [] = ground arith
  lookup-remove k j ((i, w) ∷ m) =
      ground (arith, e.beq_iff k j, e.beq_iff i k, e.beq_iff i j, lookup-remove k j m)

pub keys {ℓ κ} : {K : Type ℓ} {V : Type κ} → Map K V → List K
keys m = map (λ p. p.0) m

module _ {K V : Type 0} ⦃e : Eq K⦄ where
  pub All-insert :
      (P : K × V → Type 0) (k : K) (v : V) (m : Map K V) → P (k, v) → All P m → All P (insert k v m)
  unfolding insert
  All-insert P k v [] p h = (p, tt)
  All-insert P k v ((j, w) ∷ m) p (q, h) = replaced (e.beq j k) (All-insert P k v m p h)
    where
      replaced :
          (b : Bool)
          → All P (insert k v m)
          → All P (if b then (k, v) ∷ m else (j, w) ∷ insert k v m)
      replaced true later = (p, h)
      replaced false later = (q, later)

  -- The map has an entry for the key.
  abbrev pub HasKey : K → Map K V → Type 0
  HasKey k m = Any (λ p. p.0 ≡ k) m

  pub insert-HasKey : (k : K) (v : V) (m : Map K V) → HasKey k (insert k v m)
  unfolding insert
  insert-HasKey k v [] = inl refl
  insert-HasKey k v ((j, w) ∷ m) = has (e.beq j k) (insert-HasKey k v m)
    where
      has :
          (b : Bool)
          → HasKey k (insert k v m)
          → HasKey k (if b then (k, v) ∷ m else (j, w) ∷ insert k v m)
      has true later = inl refl
      has false later = inr later

  pub HasKey-insert : (c k : K) (v : V) (m : Map K V) → HasKey c m → HasKey c (insert k v m)
  unfolding insert
  HasKey-insert c k v [] h = absurd h
  HasKey-insert c k v ((j, w) ∷ m) h = kept (e.beq j k) (e.beq_iff j k).0 (HasKey-insert c k v m) h
    where
      kept :
          (b : Bool)
          → (b ≡ true → j ≡ k)
          → (HasKey c m → HasKey c (insert k v m))
          → (j ≡ c) ⊎ HasKey c m
          → HasKey c (if b then (k, v) ∷ m else (j, w) ∷ insert k v m)
      kept true same later (inl x) = inl (sym (same refl) ∙ x)
      kept true same later (inr y) = inr y
      kept false same later (inl x) = inl x
      kept false same later (inr y) = inr (later y)
