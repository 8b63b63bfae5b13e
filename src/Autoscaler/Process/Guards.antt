-- ===== src/Autoscaler/Process/Guards.antt =====
-- When the Autoscaler changes anything.
use kube_comp_mig.Prelude.{
  Bool, true, false, not, ◌||◌, ◌≡◌, ◌≢◌, ◌⊎◌, inl, inr, refl, Option, none, some, List, [], ◌∷◌,
  All, str_eq, eq_iff, if◌then◌else◌,
}
use kube_comp_mig.Prelude.Floats.{Float64}
use kube_comp_mig.Prelude.Outcomes.{Outcome, ok, err, panic, running}
use kube_comp_mig.Autoscaler.Traffic.{
  ScaleDecision, not_scaling, scaling_up, scaling_down, scaling_out, scaling_in,
}
use kube_comp_mig.Autoscaler.Scaler.{
  Quantities, ResourceRequirements, Metric, RevisionData, decide_scale,
}
use kube_comp_mig.Autoscaler.Knative.{Call}
use kube_comp_mig.Autoscaler.Apply.{apply_scale}
use kube_comp_mig.Autoscaler.Process.{
  PodView, all_ready, Parts, Processed, ends, after_scale, carry_out, decided, with_metrics,
  with_data, start, get_revision_data, process_pod,
}

all_ready-All : (bs : List Bool) → all_ready bs ≡ true → All (λ ready. ready ≡ true) bs
unfolding all_ready
all_ready-All [] h = tt
all_ready-All (true ∷ bs) h = (refl, all_ready-All bs h)
all_ready-All (false ∷ bs) h = absurd (ne h)
  where
    ne : false ≡ true → ⊥
    ne e = cc

module _ ⦃fl : Float64⦄ ⦃qt : Quantities⦄ (parts : Parts) where
  -- The decision of these data is to scale, and the calls are those of carrying it out.
  abbrev pub Applies : RevisionData → List Call → List Call → Type 0
  Applies rd h calls =
      (d : ScaleDecision) × (res : ResourceRequirements) × (decide_scale parts.scaler parts.nodes rd
        ≡ ok (d, res))
      × (d ≢ not_scaling)
      × (calls ≡ (apply_scale parts.cluster parts.fuel d rd res h).1)

  carry_out-Applies :
      (rd : RevisionData) (h : List Call) (d : ScaleDecision) (res : ResourceRequirements)
      → decide_scale parts.scaler parts.nodes rd ≡ ok (d, res)
      → ((carry_out parts rd h d res).calls ≡ h) ⊎ Applies rd h (carry_out parts rd h d res).calls
  unfolding carry_out after_scale
  carry_out-Applies rd h not_scaling res e = inl refl
  carry_out-Applies rd h scaling_up res e = inr (scaling_up, res, e, (λ x. cc), refl)
  carry_out-Applies rd h scaling_down res e = inr (scaling_down, res, e, (λ x. cc), refl)
  carry_out-Applies rd h scaling_out res e = inr (scaling_out, res, e, (λ x. cc), refl)
  carry_out-Applies rd h scaling_in res e = inr (scaling_in, res, e, (λ x. cc), refl)

  decided-Applies :
      (rd : RevisionData) (h : List Call) (o : Outcome (ScaleDecision × ResourceRequirements))
      → decide_scale parts.scaler parts.nodes rd ≡ o
      → ((decided parts rd h o).calls ≡ h) ⊎ Applies rd h (decided parts rd h o).calls
  unfolding decided
  decided-Applies rd h (ok (d, res)) e = carry_out-Applies rd h d res e
  decided-Applies rd h (err m) e = inl refl
  decided-Applies rd h panic e = inl refl
  decided-Applies rd h running e = inl refl

  -- The pod is ready, and its metrics make the scaler decide to scale.
  abbrev pub Guarded : PodView → RevisionData → List Call → List Call → Type 0
  Guarded pod rd h calls =
      All (λ ready. ready ≡ true) pod.containers_ready
      × (pod.phase ≡ "Running")
      × (pod.deleted ≡ false)
      × ((metrics : List (Metric × fl.F)) × (parts.fetch pod ≡ some metrics)
          × Applies (record rd { metrics = metrics }) h calls)

  with_metrics-Applies :
      (rd : RevisionData) (h : List Call) (o : Option (List (Metric × fl.F)))
      → ((with_metrics parts rd h o).calls ≡ h)
        ⊎ ((metrics : List (Metric × fl.F)) × (o ≡ some metrics)
            × Applies (record rd { metrics = metrics }) h (with_metrics parts rd h o).calls)
  unfolding with_metrics
  with_metrics-Applies rd h none = inl refl
  with_metrics-Applies rd h (some metrics) =
      elim (decided-Applies (record rd { metrics = metrics }) h _ refl) [
        | inl e ↦ inl e
        | inr p ↦ inr (metrics, refl, p)
      ]

  guarded_or_not :
      (r run del : Bool) (x y m : Processed) (h : List Call) (P : List Call → Type 0)
      → x.calls ≡ h
      → y.calls ≡ h
      → (m.calls ≡ h) ⊎ P m.calls
      → let p = if not r then x else if not run || del then y else m in
        (p.calls ≡ h) ⊎ ((r ≡ true) × (run ≡ true) × (del ≡ false) × P p.calls)
  guarded_or_not false run del x y m h P e f g = inl e
  guarded_or_not true false del x y m h P e f g = inl f
  guarded_or_not true true true x y m h P e f g = inl f
  guarded_or_not true true false x y m h P e f (inl g) = inl g
  guarded_or_not true true false x y m h P e f (inr g) = inr (refl, refl, refl, g)

  with_data-Guarded :
      (pod : PodView) (rd : RevisionData) (h : List Call)
      → ((with_data parts pod rd h).calls ≡ h) ⊎ Guarded pod rd h (with_data parts pod rd h).calls
  unfolding with_data
  with_data-Guarded pod rd h =
      elim (guarded_or_not (all_ready pod.containers_ready) (str_eq pod.phase "Running") pod.deleted
        (ends parts (err "pod is not ready") h) (ends parts (err "pod is not running") h)
        (with_metrics parts rd h (parts.fetch pod)) h
        (λ calls.
          (metrics : List (Metric × fl.F)) × (parts.fetch pod ≡ some metrics)
          × Applies (record rd { metrics = metrics }) h calls)
        refl refl (with_metrics-Applies rd h (parts.fetch pod))) [
          | inl e ↦ inl e
          | inr (ready, phase, alive, p) ↦ inr (
            all_ready-All pod.containers_ready ready,
            (eq_iff pod.phase "Running").0 phase,
            alive,
            p,
          )
        ]

  start-Guarded :
      (pod : PodView) (h : List Call) (o : Outcome RevisionData)
      → ((start parts pod o h).calls ≡ h)
        ⊎ ((rd : RevisionData) × (o ≡ ok rd) × Guarded pod rd h (start parts pod o h).calls)
  unfolding start
  start-Guarded pod h (ok rd) = elim (with_data-Guarded pod rd h) [
    | inl e ↦ inl e
    | inr p ↦ inr (rd, refl, p)
  ]
  start-Guarded pod h (err e) = inl refl
  start-Guarded pod h panic = inl refl
  start-Guarded pod h running = inl refl

  -- `processPod` calls nothing that changes the cluster, unless all containers of the pod are ready,
  -- its phase is "Running", it is not being deleted, its metrics can be fetched, and the scaler decides
  -- by them to scale; its calls are then those of carrying out that decision.
  pub process_pod-Guarded :
      (pod : PodView) (h : List Call)
      → ((process_pod parts pod h).calls ≡ h)
        ⊎ ((rd : RevisionData) × (get_revision_data pod ≡ ok rd)
            × Guarded pod rd h (process_pod parts pod h).calls)
  unfolding process_pod
  process_pod-Guarded pod h = start-Guarded pod h (get_revision_data pod)
