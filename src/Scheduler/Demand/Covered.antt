-- ===== src/Scheduler/Demand/Covered.antt =====
-- When the loop over the scalar resources finds nothing missing.
use kube_comp_mig.Prelude.{
  ℕ, ◌+◌, ◌≤◌, ◌≡◌, refl, ◌↔◌, ◌⊎◌, inl, inr, Bool, true, false, String, some, List, [], ◌∷◌, ◌++◌,
  arith, get_elem?, Bool-cases, ltb, ◌==◌, if◌then◌else◌, ◌&&◌,
}
use kube_comp_mig.Prelude.Integers.{minus, gtb}
use kube_comp_mig.Prelude.Maps.{string_eq, or_default, lookup}
use kube_comp_mig.Prelude.Outcomes.{ok}
use kube_comp_mig.Prelude.Text.{split_on, slice_to}
use kube_comp_mig.Scheduler.Demand.{
  NodeInfo, Resource, InsufficientResource, Ignored, Demand, exceeds, basic, basics, too_many_pods,
  skips, compare_scalar,
}

-- Nothing is requested, or what is in use and what is requested fit together.
abbrev pub Covered : ℕ → ℕ → ℕ → Type 0
Covered request allocatable requested = (request ≡ 0) ⊎ (requested + request ≤ allocatable)

-- The scheme for a test that adds one entry or none.
abbrev one_or_none : Bool → InsufficientResource → List InsufficientResource
one_or_none b x = if b then x ∷ [] else []

one_or_none-nil : (b : Bool) (x : InsufficientResource) → (one_or_none b x ≡ []) ↔ (b ≡ false)
one_or_none-nil true x = (λ h. absurd (ne h), λ h. absurd (ne_true h))
  where
    ne : x ∷ [] ≡ [] → ⊥
    ne h = cc

    ne_true : true ≡ false → ⊥
    ne_true h = cc
one_or_none-nil false x = (λ h. refl, λ h. refl)

append-nil_iff : (xs ys : List InsufficientResource) → (xs ++ ys ≡ []) ↔ ((xs ≡ []) × (ys ≡ []))
append-nil_iff [] ys = (λ h. (refl, h), λ h. h.1)
append-nil_iff (x ∷ xs) ys = (λ h. absurd (ne (xs ++ ys) h), λ h. absurd (ne xs h.0))
  where
    ne : (zs : List InsufficientResource) → x ∷ zs ≡ [] → ⊥
    ne zs h = cc

exceeds_iff :
    (request allocatable requested : ℕ)
    → (exceeds request allocatable requested ≡ false) ↔ (requested + request ≤ allocatable)
unfolding exceeds gtb minus
exceeds_iff request allocatable requested = ground arith

basic-nil :
    (name reason : String) (request allocatable requested : ℕ)
    → (basic name reason request allocatable requested ≡ []) ↔ Covered request allocatable requested
unfolding basic
basic-nil name reason request allocatable requested = (
  λ h.
      covered (request == 0) refl
        ((one_or_none-nil (ltb 0 request && exceeds request allocatable requested) _).0 h),
  λ h. (one_or_none-nil (ltb 0 request && exceeds request allocatable requested) _).1 (elim h [
    | inl z ↦ ground (arith, z)
    | inr le ↦ ground (arith, (exceeds_iff request allocatable requested).1 le)
  ]),
)
  where
    covered :
        (b : Bool)
        → (request == 0) ≡ b
        → (ltb 0 request && exceeds request allocatable requested) ≡ false
        → Covered request allocatable requested
    covered true e h = inl (ground arith)
    covered false e h = inr ((exceeds_iff request allocatable requested).0 (ground arith))

-- The three tests on CPU, memory and storage.
abbrev pub BasicsCovered : Resource → NodeInfo → Type 0
BasicsCovered request node =
    Covered request.milli_cpu node.allocatable.milli_cpu node.requested.milli_cpu
    × (Covered request.memory node.allocatable.memory node.requested.memory
        × Covered request.ephemeral_storage node.allocatable.ephemeral_storage
            node.requested.ephemeral_storage)

pub iff_trans : {A B C : Type 0} → A ↔ B → B ↔ C → A ↔ C
iff_trans f g = (λ a. g.0 (f.0 a), λ c. f.1 (g.1 c))

pub append-nil_both :
    {A B : Type 0} (xs ys : List InsufficientResource)
    → (xs ≡ []) ↔ A
    → (ys ≡ []) ↔ B
    → (xs ++ ys ≡ []) ↔ (A × B)
append-nil_both xs ys f g = (
  λ h. let p = (append-nil_iff xs ys).0 h in (f.0 p.0, g.0 p.1),
  λ h. (append-nil_iff xs ys).1 (f.1 h.0, g.1 h.1),
)

pub basics-nil :
    (request : Resource) (node : NodeInfo) → (basics request node ≡ []) ↔ BasicsCovered request node
unfolding basics
basics-nil request node =
    let a = node.allocatable in
    let u = node.requested in
    append-nil_both _ _
      (basic-nil "cpu" "Insufficient cpu" request.milli_cpu a.milli_cpu u.milli_cpu)
      (append-nil_both _ _
        (basic-nil "memory" "Insufficient memory" request.memory a.memory u.memory)
        (basic-nil "ephemeral-storage" "Insufficient ephemeral-storage" request.ephemeral_storage
          a.ephemeral_storage u.ephemeral_storage))

pub too_many_pods-nil :
    (node : NodeInfo)
    → (too_many_pods node ≡ []) ↔ (node.pods + 1 ≤ node.allocatable.allowed_pod_number)
unfolding too_many_pods
too_many_pods-nil node =
    iff_trans (one_or_none-nil (ltb node.allocatable.allowed_pod_number (node.pods + 1)) _)
      (le_iff node.allocatable.allowed_pod_number (node.pods + 1))
  where
    le_iff : (a b : ℕ) → (ltb a b ≡ false) ↔ (b ≤ a)
    le_iff a b = ground arith

-- The name says a MIG slice: what follows its first slash begins with mig.
abbrev pub SaysSlice : List String → Type 0
SaysSlice parts = (part : String) × (get_elem? parts 1 ≡ some part) × (slice_to 3 part ≡ ok "mig")

abbrev pub NamesSlice : String → Type 0
NamesSlice name = SaysSlice (split_on 47 name)

-- A scalar resource that the loop has nothing to say about.
abbrev pub ScalarCovered : Ignored → NodeInfo → String × ℕ → Type 0
ScalarCovered ignored node (name, quantity) =
    (quantity ≡ 0)
    ⊎ (skips ignored name (split_on 47 name) ≡ true)
    ⊎ NamesSlice name
    ⊎ (or_default 0 (lookup name node.requested.scalar_resources) + quantity
        ≤ or_default 0 (lookup name node.allocatable.scalar_resources))

pub compare_scalar-empty :
    (node : NodeInfo) (name : String) (quantity : ℕ) (d : Demand)
    → ((compare_scalar node name quantity d).insufficient ≡ []) ↔ (
        (d.insufficient ≡ [])
        × (or_default 0 (lookup name node.requested.scalar_resources) + quantity
            ≤ or_default 0 (lookup name node.allocatable.scalar_resources)))
unfolding compare_scalar
compare_scalar-empty node name quantity d = elim (Bool-cases (exceeds quantity capacity used)) [
  | inl h ↦ rw (h) (
    λ e. absurd (cons_ne _ ((append-nil_iff d.insufficient (_ ∷ [])).0 e).1),
    λ p. absurd (apart h ((exceeds_iff quantity capacity used).1 p.1)),
  )
  | inr h ↦ rw (h) (λ e. (e, (exceeds_iff quantity capacity used).0 h), λ p. p.0)
]
  where
    capacity : ℕ
    capacity = or_default 0 (lookup name node.allocatable.scalar_resources)

    used : ℕ
    used = or_default 0 (lookup name node.requested.scalar_resources)

    apart : {b : Bool} → b ≡ true → b ≡ false → ⊥
    apart h k = cc

    cons_ne : (x : InsufficientResource) → x ∷ [] ≡ [] → ⊥
    cons_ne x e = cc
