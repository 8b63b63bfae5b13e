-- ===== src/Scheduler/Gpus/Found.antt =====
-- What the loop over the GPUs finds.
use kube_comp_mig.Prelude.{
  ℕ, zero, suc, ◌+◌, ◌≤◌, ◌<◌, ◌≡◌, refl, sym, ◌∙◌, subst, ◌↔◌, ◌⊎◌, inl, inr, Bool, true, false,
  arith,
}
use kube_comp_mig.Prelude.Outcomes.{Outcome, ok, >>=-ok, ok_injective}
use kube_comp_mig.Scheduler.Gpus.{Use, passed, changed, direct, gpu_loop}

-- A round that finds a use of its GPU.
abbrev pub Usable : (ℕ → Outcome Use) → ℕ → Type 0
Usable step k = (step k ≡ ok changed) ⊎ (step k ≡ ok direct)

-- One of the rounds from `i` on has the property.
abbrev pub Round : ℕ → ℕ → (ℕ → Type 0) → Type 0
Round i n P = (k : ℕ) × (i ≤ k) × (k < i + n) × P k

Round-suc : (i n : ℕ) (P : ℕ → Type 0) → Round i (suc n) P ↔ (P i ⊎ Round (i + 1) n P)
Round-suc i n P = (
  λ h. elim (first_or_later h.0 h.1) [
    | inl e ↦ inl (subst P (sym e) h.3)
    | inr l ↦ inr (h.0, l, omega (arith, h.2), h.3)
  ],
  λ h. elim h [
    | inl p ↦ (i, omega arith, omega arith, p)
    | inr r ↦ (r.0, omega (arith, r.1), omega (arith, r.2), r.3)
  ],
)
  where
    first_or_later : (k : ℕ) → i ≤ k → (i ≡ k) ⊎ (i + 1 ≤ k)
    first_or_later k h = ground arith

-- What the loop returns, said of its rounds.
abbrev pub Found : (ℕ → Outcome Use) → ℕ → ℕ → Bool → Bool × Bool → Type 0
Found step n i s (f, r) =
    ((f ≡ true) ↔ ((s ≡ true) ⊎ Round i n (Usable step)))
    × ((r ≡ false) ↔ Round i n (λ k. step k ≡ ok direct))

no_round : (i : ℕ) (P : ℕ → Type 0) → Round i 0 P → ⊥
no_round i P (k, l, u, p) = omega arith

Found-zero : (step : ℕ → Outcome Use) (i : ℕ) (s : Bool) → Found step 0 i s (s, true)
Found-zero step i s = (
  (λ h. inl h, λ h. elim h [ inl e ↦ e | inr r ↦ absurd (no_round i (Usable step) r) ]),
  (λ h. absurd (ne h), λ r. absurd (no_round i (λ k. step k ≡ ok direct) r)),
)
  where
    ne : true ≡ false → ⊥
    ne h = cc

Found-direct :
    (step : ℕ → Outcome Use) (n i : ℕ) (s : Bool)
    → step i ≡ ok direct
    → Found step (suc n) i s (true, false)
Found-direct step n i s e = (
  (λ _. inr ((Round-suc i n (Usable step)).1 (inl (inr e))), λ _. refl),
  (λ _. (Round-suc i n (λ k. step k ≡ ok direct)).1 (inl e), λ _. refl),
)

Found-changed :
    (step : ℕ → Outcome Use) (n i : ℕ) (s : Bool) (r : Bool × Bool)
    → step i ≡ ok changed
    → Found step n (i + 1) true r
    → Found step (suc n) i s r
Found-changed step n i s (f, r) e (g, h) = (
  (λ _. inr ((Round-suc i n (Usable step)).1 (inl (inl e))), λ _. g.1 (inl refl)),
  (
    λ k. (Round-suc i n (λ k. step k ≡ ok direct)).1 (inr (h.0 k)),
    λ k. elim ((Round-suc i n (λ k. step k ≡ ok direct)).0 k) [
      | inl d ↦ absurd (ne (sym e ∙ d))
      | inr l ↦ h.1 l
    ],
  ),
)
  where
    ne : ok changed ≡ ok direct → ⊥
    ne h = cc

Found-passed :
    (step : ℕ → Outcome Use) (n i : ℕ) (s : Bool) (r : Bool × Bool)
    → step i ≡ ok passed
    → Found step n (i + 1) s r
    → Found step (suc n) i s r
Found-passed step n i s (f, r) e (g, h) = (
  (
    λ k. elim (g.0 k) [ inl t ↦ inl t | inr l ↦ inr ((Round-suc i n (Usable step)).1 (inr l)) ],
    λ k. elim k [
      | inl t ↦ g.1 (inl t)
      | inr l ↦ g.1 (inr (later (Usable step) (unusable e) ((Round-suc i n (Usable step)).0 l)))
    ],
  ),
  (
    λ k. (Round-suc i n (λ k. step k ≡ ok direct)).1 (inr (h.0 k)),
    λ k. h.1 (
        later (λ k. step k ≡ ok direct) (λ d. unusable e (inr d))
          ((Round-suc i n (λ k. step k ≡ ok direct)).0 k)),
  ),
)
  where
    later : (P : ℕ → Type 0) → (P i → ⊥) → P i ⊎ Round (i + 1) n P → Round (i + 1) n P
    later P never (inl p) = absurd (never p)
    later P never (inr l) = l

    unusable : step i ≡ ok passed → Usable step i → ⊥
    unusable e (inl c) = ne_changed (sym e ∙ c)
      where
        ne_changed : ok passed ≡ ok changed → ⊥
        ne_changed h = cc
    unusable e (inr d) = ne_direct (sym e ∙ d)
      where
        ne_direct : ok passed ≡ ok direct → ⊥
        ne_direct h = cc

-- When the loop over the GPUs returns, `sufficientGPU` is true where it began so or some round finds a use
-- of its GPU, and `toReconfig` is false exactly where some round finds the use `direct`.
pub gpu_loop-Found :
    (step : ℕ → Outcome Use) (n i : ℕ) (s : Bool) (r : Bool × Bool)
    → gpu_loop step n i s ≡ ok r
    → Found step n i s r
unfolding gpu_loop
gpu_loop-Found step zero i s r h =
    subst (Found step 0 i s) (ok_injective (s, true) r h) (Found-zero step i s)
gpu_loop-Found step (suc n) i s r h =
    after (gpu_loop-Found step n (i + 1) s r) (gpu_loop-Found step n (i + 1) true r) (
      >>=-ok (step i)
        (λ u. elim u [
          | passed ↦ gpu_loop step n (i + 1) s
          | changed ↦ gpu_loop step n (i + 1) true
          | direct ↦ ok (true, false)
        ])
        r h)
  where
    rest : Use → Outcome (Bool × Bool)
    rest passed = gpu_loop step n (i + 1) s
    rest changed = gpu_loop step n (i + 1) true
    rest direct = ok (true, false)

    after :
        (gpu_loop step n (i + 1) s ≡ ok r → Found step n (i + 1) s r)
        → (gpu_loop step n (i + 1) true ≡ ok r → Found step n (i + 1) true r)
        → (u : Use) × (step i ≡ ok u) × (rest u ≡ ok r)
        → Found step (suc n) i s r
    after same on (passed, e, g) = Found-passed step n i s r e (same g)
    after same on (changed, e, g) = Found-changed step n i s r e (on g)
    after same on (direct, e, g) =
        subst (Found step (suc n) i s) (ok_injective (true, false) r g) (Found-direct step n i s e)
