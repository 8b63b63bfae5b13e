-- ===== src/Autoscaler/Scaler/Decision.antt =====
-- What a decision of the scaler promises.
use kube_comp_mig.Prelude.{
  ℕ, ◌≡◌, refl, sym, ap, ◌∙◌, subst, inl, inr, String, none, some, List, [], ◌∷◌, ◌++◌,
  Option-cases,
}
use kube_comp_mig.Prelude.Floats.{Float64}
use kube_comp_mig.Prelude.Outcomes.{Outcome, ok, err, panic, running, ◌>>=◌, >>=-ok, ok_injective}
use kube_comp_mig.Autoscaler.Resource.{GpuResource}
use kube_comp_mig.Autoscaler.Registry.{Node, tiers, avail_of, update_avail_tiers}
use kube_comp_mig.Autoscaler.Registry.Tiers.{FirstFree, next_tier, prev_tier}
use kube_comp_mig.Autoscaler.Traffic.{ScaleDecision, not_scaling, scaling_up, scaling_down}
use kube_comp_mig.Autoscaler.Scaler.{
  Quantities, ResourceRequirements, SimpleScaler, RevisionData, must_parse, one_gpu,
  no_requirements, with_tier, check, votes, check_scale_down, check_scale_up, decide_scale,
}
use mathlib.Core.List.{reverse}

module _ ⦃fl : Float64⦄ ⦃qt : Quantities⦄ (s : SimpleScaler) where
  -- The limits and the requests are both the default CPU and memory of the scaler and one slice of this
  -- name.
  abbrev pub AsksForOne : String → ResourceRequirements → Type 0
  AsksForOne name requirements =
      (cpu : qt.Quantity) × (memory : qt.Quantity) × (one : qt.Quantity) × (qt.parse_quantity
          s.default_cpu
        ≡ some cpu)
      × (qt.parse_quantity s.default_memory ≡ some memory)
      × (qt.parse_quantity "1" ≡ some one)
      × (requirements.limits ≡ ("cpu", cpu) ∷ ("memory", memory) ∷ (name, one) ∷ [])
      × (requirements.requests ≡ ("cpu", cpu) ∷ ("memory", memory) ∷ (name, one) ∷ [])

  -- The tier is the first one in the list with a slice to spare, and the requirements ask for one
  -- slice of it.
  abbrev pub MovesTo : (GpuResource → ℕ) → List GpuResource → ResourceRequirements → Type 0
  MovesTo avail list requirements =
      (tier : GpuResource) × FirstFree avail list (ok tier) × AsksForOne tier.gpu_name requirements

  must_parse-some :
      (text : String) (q : qt.Quantity) → must_parse text ≡ ok q → qt.parse_quantity text ≡ some q
  unfolding must_parse
  must_parse-some text q h = elim (Option-cases (qt.parse_quantity text)) [
    | inl e ↦ absurd (ne (sym (panics e) ∙ h))
    | inr (p, e) ↦ e ∙ ap some (ok_injective p q (sym (parses p e) ∙ h))
  ]
    where
      ne : panic ≡ ok q → ⊥
      ne e = cc

      panics : qt.parse_quantity text ≡ none → must_parse text ≡ panic
      panics e = rw (must_parse, e) refl

      parses : (p : qt.Quantity) → qt.parse_quantity text ≡ some p → must_parse text ≡ ok p
      parses p e = rw (must_parse, e) refl

  one_gpu-AsksForOne :
      (name : String) (requirements : ResourceRequirements)
      → one_gpu s name ≡ ok requirements
      → AsksForOne name requirements
  unfolding one_gpu
  one_gpu-AsksForOne name requirements h =
      let (cpu, a, h1) = >>=-ok (must_parse s.default_cpu) _ requirements h in
      let (memory, b, h2) = >>=-ok (must_parse s.default_memory) _ requirements h1 in
      let (one, c, h3) = >>=-ok (must_parse "1") _ requirements h2 in
      let same = ok_injective _ requirements h3 in
      (
        cpu,
        memory,
        one,
        must_parse-some s.default_cpu cpu a,
        must_parse-some s.default_memory memory b,
        must_parse-some "1" one c,
        ap (λ r. r.limits) (sym same),
        ap (λ r. r.requests) (sym same),
      )

  -- What a decision and its requirements say of the tiers below and above the current one.
  abbrev pub Justified :
      (GpuResource → ℕ)
      → List GpuResource
      → List GpuResource
      → ScaleDecision
      → ResourceRequirements
      → Type 0
  Justified avail below above scaling_up requirements = MovesTo avail above requirements
  Justified avail below above scaling_down requirements = MovesTo avail below requirements
  Justified avail below above not_scaling requirements = requirements ≡ no_requirements
  Justified avail below above _ requirements = ⊥

  module _ (avail : GpuResource → ℕ) (below above : List GpuResource) where
    JustifiedOutcome : Outcome (ScaleDecision × ResourceRequirements) → Type 0
    JustifiedOutcome (ok (d, requirements)) = Justified avail below above d requirements
    JustifiedOutcome _ = Unit

    up-Justified :
        (o : Outcome GpuResource)
        → FirstFree avail above o
        → JustifiedOutcome (with_tier s scaling_up o)
    unfolding with_tier JustifiedOutcome
    up-Justified (ok tier) f = moved (one_gpu s tier.gpu_name) refl
      where
        moved :
            (o : Outcome ResourceRequirements)
            → one_gpu s tier.gpu_name ≡ o
            → JustifiedOutcome (o >>= λ requirements. ok (scaling_up, requirements))
        moved (ok requirements) e = (tier, f, one_gpu-AsksForOne tier.gpu_name requirements e)
        moved (err m) e = tt
        moved panic e = tt
        moved running e = tt
    up-Justified (err e) f = refl
    up-Justified panic f = tt
    up-Justified running f = tt

    down-Justified :
        (o : Outcome GpuResource)
        → FirstFree avail below o
        → JustifiedOutcome (with_tier s scaling_down o)
    unfolding with_tier JustifiedOutcome
    down-Justified (ok tier) f = moved (one_gpu s tier.gpu_name) refl
      where
        moved :
            (o : Outcome ResourceRequirements)
            → one_gpu s tier.gpu_name ≡ o
            → JustifiedOutcome (o >>= λ requirements. ok (scaling_down, requirements))
        moved (ok requirements) e = (tier, f, one_gpu-AsksForOne tier.gpu_name requirements e)
        moved (err m) e = tt
        moved panic e = tt
        moved running e = tt
    down-Justified (err e) f = refl
    down-Justified panic f = tt
    down-Justified running f = tt

  check-Justified :
      (nodes : List Node) (r : RevisionData) (below above : List GpuResource) (d : ScaleDecision)
      → tiers r.gpu_resource.gpu_type ≡ reverse below ++ r.gpu_resource ∷ above
      → JustifiedOutcome
          (avail_of (update_avail_tiers nodes) r.gpu_resource.gpu_type)
          below
          above
          (check s nodes d r)
  unfolding check JustifiedOutcome check_scale_up check_scale_down
  check-Justified nodes r below above scaling_up e =
      up-Justified _ below above _ (next_tier nodes (reverse below) r.gpu_resource above e)
  check-Justified nodes r below above scaling_down e =
      down-Justified _ below above _ (prev_tier nodes below r.gpu_resource above e)
  check-Justified nodes r below above not_scaling e = refl
  check-Justified nodes r below above _ e = refl

  -- A decision of `DecideScale` for a resource of the tables: scaling up asks for one slice of the first
  -- tier above with a slice to spare, scaling down for one of the nearest such tier below, both with the
  -- default CPU and memory of the scaler, as limits and as requests; not scaling asks for nothing, and no
  -- other decision is taken.
  pub decide_scale_sound :
      (nodes : List Node) (r : RevisionData) (below above : List GpuResource) (d : ScaleDecision)
      (requirements : ResourceRequirements)
      → tiers r.gpu_resource.gpu_type ≡ reverse below ++ r.gpu_resource ∷ above
      → decide_scale s nodes r ≡ ok (d, requirements)
      → Justified
          (avail_of (update_avail_tiers nodes) r.gpu_resource.gpu_type)
          below
          above
          d
          requirements
  unfolding decide_scale JustifiedOutcome
  decide_scale_sound nodes r below above d requirements e h =
      subst
        (JustifiedOutcome (avail_of (update_avail_tiers nodes) r.gpu_resource.gpu_type) below above)
        h (check-Justified nodes r below above (votes r.metrics not_scaling) e)
