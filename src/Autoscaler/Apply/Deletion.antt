-- ===== src/Autoscaler/Apply/Deletion.antt =====
-- Which revisions a scaling deletes.
use kube_comp_mig.Prelude.{ℕ, ◌*◌, String, ◌≡◌, refl, ap, ◌∙◌, List, [], ◌∷◌, ◌++◌}
use kube_comp_mig.Prelude.Floats.{Float64}
use kube_comp_mig.Prelude.Outcomes.{Outcome, ok, err, panic, running}
use kube_comp_mig.Prelude.Calls.{Act, and_then, ◌>>=◌, stop}
use kube_comp_mig.Autoscaler.Traffic.{
  ScaleDecision, new_traffic, not_scaling, scaling_up, scaling_down, scaling_out, scaling_in,
}
use kube_comp_mig.Autoscaler.Scaler.{Quantities, ResourceRequirements, RevisionData}
use kube_comp_mig.Autoscaler.Knative.{
  Call, Cluster, second, fetch_service, fetch_revisions, send_service, wait_service,
}
use kube_comp_mig.Autoscaler.Knative.Quiet.{deletions, Quiet, bind-Quiet, wait_service-Quiet}
use kube_comp_mig.Autoscaler.Apply.{
  renewed, wrapped, update_service_traffic, renew_service, first_step, last_step, apply_scale,
}

module _ ⦃fl : Float64⦄ ⦃qt : Quantities⦄ where
  module _ (c : Cluster) where
    wrapped-Quiet :
        {A : Type 0} (message : String) (m : Act Call A) → Quiet m → Quiet (wrapped c message m)
    unfolding wrapped
    wrapped-Quiet message m q h = q h

    update_service_traffic-Quiet :
        (d : ScaleDecision) (rd : RevisionData) → Quiet (update_service_traffic c d rd)
    unfolding update_service_traffic
    update_service_traffic-Quiet d rd =
        bind-Quiet (fetch_service c "error getting service" rd.svc_name) _ (λ h. refl)
          (λ s.
            bind-Quiet (fetch_revisions c "error listing revisions" rd.svc_name) _ (λ h. refl)
              (λ revisions.
                bind-Quiet (stop (new_traffic d rd.name s.latest_ready revisions s.traffic)) _
                  (λ h. refl) (λ ts h. refl)))

    renew_service-Quiet :
        (fuel : ℕ) (rd : RevisionData) (res : ResourceRequirements)
        → Quiet (renew_service c fuel rd res)
    unfolding renew_service
    renew_service-Quiet fuel rd res =
        bind-Quiet (fetch_service c "error getting service" rd.svc_name) _ (λ h. refl)
          (λ old h.
            bind-Quiet (stop (renewed c.rfc3339 (c.now h) (c.now h) res old)) _ (λ k. refl)
              (λ new.
                bind-Quiet (send_service c "error updating service" new) _ (λ k. refl)
                  (λ u.
                    wrapped-Quiet "error waiting for service"
                      (wait_service c fuel new (600 * second))
                      (wait_service-Quiet c fuel new (600 * second))))
              h)

    first_step-Quiet :
        (d : ScaleDecision) (fuel : ℕ) (rd : RevisionData) (res : ResourceRequirements)
        → Quiet (first_step c d fuel rd res)
    unfolding first_step
    first_step-Quiet scaling_in fuel rd res h = refl
    first_step-Quiet not_scaling fuel rd res h = renew_service-Quiet fuel rd res h
    first_step-Quiet scaling_up fuel rd res h = renew_service-Quiet fuel rd res h
    first_step-Quiet scaling_down fuel rd res h = renew_service-Quiet fuel rd res h
    first_step-Quiet scaling_out fuel rd res h = renew_service-Quiet fuel rd res h

    -- What a scaling with this outcome deletes.
    abbrev pub replaced : ScaleDecision → String → List String
    replaced scaling_up name = name ∷ []
    replaced scaling_down name = name ∷ []
    replaced scaling_in name = name ∷ []
    replaced scaling_out name = []
    replaced not_scaling name = []

    abbrev pub deleted : ScaleDecision → String → Outcome (Unit {0}) → List String
    deleted d name (ok u) = replaced d name
    deleted d name (err e) = []
    deleted d name panic = []
    deleted d name running = []

    -- An action that deletes what `deleted` says of its outcome.
    abbrev Deletes : ScaleDecision → String → Act Call (Unit {0}) → Type 0
    Deletes d name m = (h : List Call) → deletions (m h).1 ≡ deleted d name (m h).0 ++ deletions h

    last_step-Deletes :
        (d : ScaleDecision) (rd : RevisionData) → Deletes d rd.name (last_step c d rd)
    unfolding last_step
    last_step-Deletes scaling_up rd h = refl
    last_step-Deletes scaling_down rd h = refl
    last_step-Deletes scaling_in rd h = refl
    last_step-Deletes scaling_out rd h = refl
    last_step-Deletes not_scaling rd h = refl

    and_then-Deletes :
        {A : Type 0} (d : ScaleDecision) (name : String) (o : Outcome A)
        (f : A → Act Call (Unit {0})) (h k : List Call)
        → ((a : A) → Deletes d name (f a))
        → deletions k ≡ deletions h
        → deletions (and_then o f k).1 ≡ deleted d name (and_then o f k).0 ++ deletions h
    and_then-Deletes d name (ok a) f h k e q = e a k ∙ ap (λ xs. deleted d name (f a k).0 ++ xs) q
    and_then-Deletes d name (err e) f h k _ q = q
    and_then-Deletes d name panic f h k e q = q
    and_then-Deletes d name running f h k e q = q

    -- A quiet action before one that deletes what `deleted` says.
    bind-Deletes :
        {A : Type 0} (d : ScaleDecision) (name : String) (m : Act Call A)
        (f : A → Act Call (Unit {0}))
        → Quiet m
        → ((a : A) → Deletes d name (f a))
        → Deletes d name (m >>= f)
    bind-Deletes d name m f q e h = and_then-Deletes d name (m h).0 f h (m h).1 e (q h)

    -- `ApplyScale` deletes the scaled revision, and only that one, when it scales up, down or in and
    -- ends without an error; when it scales out or ends in any other way it deletes nothing.
    pub apply_scale-Deletes :
        (fuel : ℕ) (d : ScaleDecision) (rd : RevisionData) (res : ResourceRequirements)
        (h : List Call)
        → deletions (apply_scale c fuel d rd res h).1
          ≡ deleted d rd.name (apply_scale c fuel d rd res h).0 ++ deletions h
    unfolding apply_scale
    apply_scale-Deletes fuel d rd res =
        bind-Deletes d rd.name (first_step c d fuel rd res) _ (first_step-Quiet d fuel rd res) (λ u.
          bind-Deletes d rd.name
            (wrapped c "error updating service traffic" (update_service_traffic c d rd)) _
            (wrapped-Quiet "error updating service traffic" (update_service_traffic c d rd)
              (update_service_traffic-Quiet d rd))
            (λ v. last_step-Deletes d rd))
