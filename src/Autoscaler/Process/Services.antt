-- ===== src/Autoscaler/Process/Services.antt =====
-- Which revisions the treatment of a service deletes.
use kube_comp_mig.Prelude.{
  String, true, ◌≡◌, inl, inr, refl, sym, ap, ◌∙◌, some, List, [], ◌∷◌, ◌++◌, All, All-append,
  Member, Member-All,
}
use mathlib.Core.List.{append_assoc}
use kube_comp_mig.Prelude.Floats.{Float64}
use kube_comp_mig.Prelude.Outcomes.{Outcome, ok, err, panic, running, ◌>>=◌}
use kube_comp_mig.Autoscaler.Resource.{GpuResource}
use kube_comp_mig.Autoscaler.Traffic.{
  ScaleDecision, not_scaling, scaling_up, scaling_down, scaling_out, scaling_in,
}
use kube_comp_mig.Autoscaler.Scaler.{Quantities, RevisionData}
use kube_comp_mig.Autoscaler.Knative.{Call}
use kube_comp_mig.Autoscaler.Knative.Quiet.{deletions}
use kube_comp_mig.Autoscaler.Apply.{apply_scale}
use kube_comp_mig.Autoscaler.Apply.Deletion.{deleted, apply_scale-Deletes}
use kube_comp_mig.Autoscaler.Process.{
  PodView, pod_resource, revision_name, get_revision_data, Parts, Processed, goes_on, process_pod,
  process_pods, process_service,
}
use kube_comp_mig.Autoscaler.Process.Guards.{process_pod-Guarded}

module _ ⦃fl : Float64⦄ ⦃qt : Quantities⦄ (parts : Parts) where
  -- The calls after `h` delete only revisions of ready pods among these.
  abbrev Owner : List PodView → String → Type 0
  Owner pods name =
      (pod : PodView) × Member pod pods
      × All (λ ready. ready ≡ true) pod.containers_ready
      × (name ≡ revision_name pod)

  abbrev pub OnlyOwn : List PodView → List Call → List Call → Type 0
  OnlyOwn pods h calls =
      (names : List String) × (deletions calls ≡ names ++ deletions h) × All (Owner pods) names

  deleted_names :
      (pods : List PodView) (d : ScaleDecision) (name : String) (o : Outcome (Unit {0}))
      → Owner pods name
      → All (Owner pods) (deleted parts.cluster d name o)
  deleted_names pods scaling_up name (ok u) own = (own, tt)
  deleted_names pods scaling_down name (ok u) own = (own, tt)
  deleted_names pods scaling_in name (ok u) own = (own, tt)
  deleted_names pods scaling_out name (ok u) own = tt
  deleted_names pods not_scaling name (ok u) own = tt
  deleted_names pods d name (err e) own = tt
  deleted_names pods d name panic own = tt
  deleted_names pods d name running own = tt

  name_of : Outcome RevisionData → String
  name_of (ok rd) = rd.name
  name_of (err e) = ""
  name_of panic = ""
  name_of running = ""

  data_name :
      (name : String) (f : GpuResource → RevisionData) (o : Outcome GpuResource) (rd : RevisionData)
      → ((gpu : GpuResource) → (f gpu).name ≡ name)
      → (o >>= λ gpu. ok (f gpu)) ≡ ok rd
      → rd.name ≡ name
  unfolding name_of
  data_name name f (ok gpu) rd n e = sym (ap name_of e) ∙ n gpu
  data_name name f (err m) rd n e = cc
  data_name name f panic rd n e = cc
  data_name name f running rd n e = cc

  own_name :
      (pod : PodView) (rd : RevisionData)
      → get_revision_data pod ≡ ok rd
      → rd.name ≡ revision_name pod
  unfolding get_revision_data
  own_name pod rd e = data_name (revision_name pod) _ (pod_resource pod.requests) rd (λ gpu. refl) e

  pod_deletes :
      (pods : List PodView) (pod : PodView) (h : List Call)
      → Member pod pods
      → OnlyOwn pods h (process_pod parts pod h).calls
  pod_deletes pods pod h m = elim (process_pod-Guarded parts pod h) [
    | inl e ↦ ([], ap deletions e, tt)
    | inr (rd, data_ok, (ready, phase, alive, (metrics, fetched, (d, res, decision, ne, calls)))) ↦
        (
          deleted parts.cluster d rd.name
              (apply_scale parts.cluster parts.fuel d (record rd { metrics = metrics }) res h).0,
          ap deletions calls
              ∙ apply_scale-Deletes parts.cluster parts.fuel d (record rd { metrics = metrics }) res
                  h,
          deleted_names pods d rd.name _ (pod, m, ready, own_name pod rd data_ok),
        )
  ]

  OnlyOwn-then :
      (pods : List PodView) (h k l : List Call)
      → OnlyOwn pods h k
      → OnlyOwn pods k l
      → OnlyOwn pods h l
  OnlyOwn-then pods h k l (xs, ex, ax) (ys, ey, ay) = (
    ys ++ xs,
    ey ∙ ap (λ zs. ys ++ zs) ex ∙ sym (append_assoc ys xs (deletions h)),
    All-append (Owner pods) ys xs ay ax,
  )

  goes_on-OnlyOwn :
      (pods : List PodView) (h : List Call) (o : Outcome (Unit {0})) (p q : Processed)
      → OnlyOwn pods h p.calls
      → OnlyOwn pods p.calls q.calls
      → OnlyOwn pods h (goes_on parts o p q).calls
  unfolding goes_on
  goes_on-OnlyOwn pods h (ok u) p q first rest = OnlyOwn-then pods h p.calls q.calls first rest
  goes_on-OnlyOwn pods h (err e) p q first rest = OnlyOwn-then pods h p.calls q.calls first rest
  goes_on-OnlyOwn pods h panic p q first rest = first
  goes_on-OnlyOwn pods h running p q first rest = first

  process_pods-OnlyOwn :
      (pods ps : List PodView) (h : List Call)
      → All (λ p. Member p pods) ps
      → OnlyOwn pods h (process_pods parts ps h).calls
  unfolding process_pods
  process_pods-OnlyOwn pods [] h members = ([], refl, tt)
  process_pods-OnlyOwn pods (p ∷ ps) h (m, members) =
      let first = process_pod parts p h in
      goes_on-OnlyOwn pods h first.result first (process_pods parts ps first.calls)
        (pod_deletes pods p h m) (process_pods-OnlyOwn pods ps first.calls members)

  -- `ProcessService` deletes only revisions that the label of a listed pod names, a pod whose containers
  -- are all ready; this holds whatever the cluster answers, and where a call fails or panics, too.
  pub process_service-OnlyOwn :
      (pods : List PodView) (h : List Call)
      → OnlyOwn pods h (process_service parts (some pods) h).calls
  unfolding process_service
  process_service-OnlyOwn pods h = process_pods-OnlyOwn pods pods h (Member-All pods (λ a m. m))
