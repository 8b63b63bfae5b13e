-- ===== src/Scheduler/Permit.antt =====
-- `Permit` of noderesourcesfit/pkg/plugins/noderesources/fit.go. The answers of the API are arguments.
pub mod Placed
use kube_comp_mig.Prelude.{
  String, Bool, true, false, not, Option, none, some, List, [], ◌∷◌, str_eq, if◌then◌else◌,
}
use kube_comp_mig.Prelude.Maps.{Map, string_eq, lookup, insert}
use kube_comp_mig.Prelude.Outcomes.{Outcome, ok, panic}
use kube_comp_mig.Scheduler.Fit.{FilterState}
use kube_comp_mig.Scheduler.Cycle.{CycleState, get_filter_state}
use kube_comp_mig.Scheduler.Phases.{Pod, Status, success, unschedulable, error}

-- A node that the API returns; its map of labels may be nil.
pub data NodeLabels : Type 0 where
  nil_labels : NodeLabels
  labels : Map String String → NodeLabels

pub record Api : Type 0 where
  pub get_node : Option NodeLabels
  pub accepts_update : Map String String → Bool
  pub accepts_patch : Bool

-- The writes that the API has accepted, the latest first.
pub data Write : Type 0 where
  updated_node : String → Map String String → Write
  patched_pod : Pod → String → Write

pub record Permitted : Type 0 where
  pub status : Status
  pub writes : List Write

unfoldable pub update_node : Api → Pod → String → Map String String → Permitted
update_node api pod node_name new =
    let updated = updated_node node_name new in
    if api.accepts_update new
    then (if api.accepts_patch
        then record {
          status = unschedulable ("Wait for reconfigure" ∷ []);
          writes = patched_pod pod node_name ∷ updated ∷ [];
        }
        else record { status = error "Error updating pod labels"; writes = updated ∷ [] })
    else record { status = error "Error updating node labels"; writes = [] }

unfoldable pub label_node : Api → Pod → String → Option NodeLabels → Outcome Permitted
unfolding update_node
label_node api pod node_name none = ok (record { status = error "Error getting node"; writes = [] })
label_node api pod node_name (some nil_labels) = panic
label_node api pod node_name (some (labels old)) = ok (
    update_node api pod node_name
      (insert "targetNamespace" pod.namespace (insert "targetPod" pod.name old)))

unfoldable pub bind_directly : Option String → String → Permitted
bind_directly none node_name = record { status = success ("success" ∷ []); writes = [] }
bind_directly (some expected) node_name =
    if not (str_eq expected node_name)
    then record { status = unschedulable ("unexpected node" ∷ []); writes = [] }
    else record { status = success ("expected node" ∷ []); writes = [] }

unfoldable pub permit_with : Api → Pod → String → Option FilterState → Outcome Permitted
unfolding label_node bind_directly
permit_with api pod node_name none = ok (record {
  status = success ("pod %s not using mig resources, pass permit!" ∷ pod.name ∷ []);
  writes = [];
})
permit_with api pod node_name (some state) =
    if state.to_reconfig
    then label_node api pod node_name api.get_node
    else ok (bind_directly (lookup "expectedNode" pod.labels) node_name)

-- `Permit`
unfoldable pub permit : (cycle : CycleState) → Api → Pod → String → cycle.State → Outcome Permitted
unfolding permit_with
permit cycle api pod node_name s =
    permit_with api pod node_name (get_filter_state cycle s node_name)
