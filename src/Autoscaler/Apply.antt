-- ===== src/Autoscaler/Apply.antt =====
-- Carrying out a scaling decision: `ApplyScale` of Autoscaler/scaler.go, and the API calls of
-- `updateServiceTraffic` around the computation of the split.
pub mod Deletion
pub mod Samples
use kube_comp_mig.Prelude.{
  ℕ, ◌*◌, String, Bool, true, false, Option, none, some, List, [], ◌∷◌, ◌++◌,
}
use kube_comp_mig.Prelude.Maps.{Map, insert, string_eq}
use kube_comp_mig.Prelude.Floats.{Float64}
use kube_comp_mig.Prelude.Outcomes.{Outcome, ok, panic, wrap, ◌>>=◌ as ◌!>=◌}
use kube_comp_mig.Prelude.Calls.{Act, and_then, ◌>>=◌, pure, stop}
use kube_comp_mig.Autoscaler.Traffic.{
  ScaleDecision, not_scaling, scaling_up, scaling_down, scaling_out, scaling_in, new_traffic,
}
use kube_comp_mig.Autoscaler.Scaler.{Quantities, ResourceRequirements, RevisionData}
use kube_comp_mig.Autoscaler.Knative.{
  Service, Call, Cluster, second, fetch_service, send_service, fetch_revisions, drop_revision,
  wait_service,
}

module _ ⦃fl : Float64⦄ ⦃qt : Quantities⦄ where
  -- `Containers[0].Resources = newResources`
  pub set_resources :
      ResourceRequirements → List ResourceRequirements → Outcome (List ResourceRequirements)
  set_resources new [] = panic
  set_resources new (old ∷ rest) = ok (new ∷ rest)

  -- `Annotations["update-at"] = …`: writing to a nil map panics.
  pub annotate : String → Option (Map String String) → Outcome (Map String String)
  annotate time none = panic
  annotate time (some m) = ok (insert "update-at" time m)

  -- `if Labels == nil { Labels = make(…) }`
  pub with_labels : Option (Map String String) → Option (Map String String)
  with_labels none = some []
  with_labels (some m) = some m

  -- `newService` of step 1, with the time read at two places: `now` and `later`.
  pub renewed : (ℕ → String) → ℕ → ℕ → ResourceRequirements → Service → Outcome Service
  unfolding set_resources annotate with_labels
  renewed print now later res s = set_resources res s.containers !>= λ containers.
      annotate (print now) s.annotations !>= λ annotations. ok (record s {
        containers = containers;
        annotations = some annotations;
        template_labels = with_labels s.template_labels;
        template_created = later;
      })

  module _ (c : Cluster) where
    -- `fmt.Errorf("…: %v", err)` around a call
    pub wrapped : {A : Type 0} → String → Act Call A → Act Call A
    wrapped message m h = (wrap message (m h).0, (m h).1)

    -- `updateServiceTraffic`
    unfoldable pub update_service_traffic : ScaleDecision → RevisionData → Act Call (Unit {0})
    update_service_traffic d rd = fetch_service c "error getting service" rd.svc_name >>= λ s.
        fetch_revisions c "error listing revisions" rd.svc_name >>= λ revisions.
        stop (new_traffic d rd.name s.latest_ready revisions s.traffic) >>= λ ts.
        send_service c "error updating service" (record s { traffic = ts })

    -- Step 1 of `ApplyScale`: the two readings of the clock come between the same calls.
    pub renew_service : ℕ → RevisionData → ResourceRequirements → Act Call (Unit {0})
    unfolding renewed wrapped
    renew_service fuel rd res = fetch_service c "error getting service" rd.svc_name >>= λ old. λ h.
        (stop (renewed c.rfc3339 (c.now h) (c.now h) res old) >>= λ new.
        send_service c "error updating service" new >>= λ u.
        wrapped "error waiting for service" (wait_service c fuel new (600 * second)))
          h

    pub first_step : ScaleDecision → ℕ → RevisionData → ResourceRequirements → Act Call (Unit {0})
    unfolding renew_service
    first_step scaling_in fuel rd res = pure tt
    first_step not_scaling fuel rd res = renew_service fuel rd res
    first_step scaling_up fuel rd res = renew_service fuel rd res
    first_step scaling_down fuel rd res = renew_service fuel rd res
    first_step scaling_out fuel rd res = renew_service fuel rd res

    -- Step 3. The error of `DeleteRevision` is not looked at.
    pub last_step : ScaleDecision → RevisionData → Act Call (Unit {0})
    last_step scaling_up rd = drop_revision c rd.name
    last_step scaling_down rd = drop_revision c rd.name
    last_step scaling_in rd = drop_revision c rd.name
    last_step scaling_out rd = pure tt
    last_step not_scaling rd = pure tt

    -- `ApplyScale`, with fuel for the rounds of `WaitService`.
    unfoldable pub apply_scale :
        ℕ → ScaleDecision → RevisionData → ResourceRequirements → Act Call (Unit {0})
    unfolding first_step last_step wrapped update_service_traffic
    apply_scale fuel d rd res = first_step d fuel rd res >>= λ u.
        wrapped "error updating service traffic" (update_service_traffic d rd) >>= λ v.
        last_step d rd
