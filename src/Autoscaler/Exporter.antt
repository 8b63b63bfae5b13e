-- ===== src/Autoscaler/Exporter.antt =====
-- The exporter (Autoscaler/exporter.go): its gauge for every revision, and the events that change it. The
-- gauge of the Prometheus client is a map from the label to the value.
use kube_comp_mig.Prelude.{String, List, [], ◌∷◌}
use kube_comp_mig.Prelude.Floats.{Float64}
use kube_comp_mig.Prelude.Maps.{Map, string_eq, insert, remove}
use kube_comp_mig.Autoscaler.Scaler.{RevisionData}
use kube_comp_mig.Autoscaler.Traffic.{
  ScaleDecision, not_scaling, scaling_up, scaling_down, scaling_out, scaling_in,
}

module _ ⦃fl : Float64⦄ where
  -- `Event`
  pub record Event : Type 0 where
    pub revision_data : RevisionData
    pub scaling_type : ScaleDecision

  -- One event.
  unfoldable pub export_event : Event → Map String fl.F → Map String fl.F
  export_event event gauge =
      let set = insert event.revision_data.name event.revision_data.gpu_resource.cpu_size gauge in
      let deleted = remove event.revision_data.name gauge in
      elim event.scaling_type [
        | not_scaling ↦ set
        | scaling_out ↦ set
        | scaling_in ↦ deleted
        | scaling_up ↦ deleted
        | scaling_down ↦ deleted
      ]

  -- The loop of the exporter over the events that are sent, from the empty gauge.
  unfoldable pub export_events : List Event → Map String fl.F → Map String fl.F
  unfolding export_event
  export_events [] gauge = gauge
  export_events (e ∷ es) gauge = export_events es (export_event e gauge)
