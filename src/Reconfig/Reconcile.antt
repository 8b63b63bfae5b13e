-- ===== src/Reconfig/Reconcile.antt =====
-- `Reconcile` of reconfig/kubecomp-mig/internal/controllers/node_controller.go. A `log.Fatal` ends the
-- process: it is an `err` here; the errors that Reconcile returns are values.
pub mod Untainted
mod Samples
use kube_comp_mig.Prelude.{
  ℕ, zero, suc, ◌+◌, String, Bool, true, false, not, ◌&&◌, Option, none, some, List, [], ◌∷◌, ◌++◌,
  str_eq, if◌then◌else◌,
}
use kube_comp_mig.Prelude.Calls.{Act, ◌>>=◌, pure, stop}
use kube_comp_mig.Prelude.Maps.{Map, nat_eq, string_eq, or_default, lookup, insert}
use kube_comp_mig.Prelude.Outcomes.{Outcome, ok, err, panic, running}
use kube_comp_mig.Reconfig.Config.{MigConfigs, get_reconfig_gpu}
use kube_comp_mig.Reconfig.Location.{LabelledPod, get_pod_location}
use kube_comp_mig.Reconfig.Selector.{Pod, get_best_config}
use kube_comp_mig.Reconfig.Usage.{PodSpec, requested}
use kube_comp_mig.Reconfig.Stopping.{
  Taint, Node, Call, get_node, get_target, update_node, list_pods, read_state, Target, Cluster,
  query, until, stop_pods, stop_gpu_reporter,
}

module _ (c : Cluster) where
  -- `stopPods = append(stopPods, podLocation[id]...)`
  unfoldable pub pods_of_gpus : List ℕ → Map ℕ (List Pod) → List Pod
  pods_of_gpus [] location = []
  pods_of_gpus (id ∷ ids) location = or_default [] (lookup id location) ++ pods_of_gpus ids location

  abbrev pub set_config : String → Node → Node
  set_config config node = record {
    name = node.name;
    labels = insert "nvidia.com/mig.config" config node.labels;
    taints = node.taints;
  }

  -- A failed update of the label ends the process.
  abbrev pub or_fatal : Bool → Act Call Unit
  or_fatal true = pure tt
  or_fatal false = stop (err "Error update nvConfigLabel")

  -- The end of Reconcile, with the chosen configuration.
  unfoldable pub change_config :
      ℕ → MigConfigs → Node → Map ℕ (List Pod) → String → Act Call (Option String)
  unfolding stop_pods stop_gpu_reporter pods_of_gpus
  change_config fuel configs node location config =
      let current = or_default "" (lookup "nvidia.com/mig.config" node.labels) in
      stop_pods c fuel (pods_of_gpus (get_reconfig_gpu configs current config) location) node.name
      >>= λ _. stop_gpu_reporter c node.name >>= λ _. query get_node c.node >>= λ fresh.
          query (update_node (set_config config fresh.0)) c.accepts_node >>= λ accepted.
          or_fatal accepted >>= λ _.
          until fuel (
            query (read_state fresh.0.name) c.mig_state >>= λ state.
            pure (not (str_eq state "pending")))
          >>= λ _. pure none

  unfoldable pub with_config :
      ℕ → MigConfigs → Node → Map ℕ (List Pod) → Outcome String → Act Call (Option String)
  unfolding change_config
  with_config fuel configs node location (ok config) =
      change_config fuel configs node location config
  with_config fuel configs node location (err e) = pure (some e)
  with_config fuel configs node location panic = stop panic
  with_config fuel configs node location running = stop running

  unfoldable pub with_specs :
      ℕ
      → MigConfigs
      → Node
      → Target
      → List LabelledPod
      → Option (List LabelledPod × List PodSpec)
      → Act Call (Option String)
  unfolding with_config
  with_specs fuel configs node target located (some (_, specs)) =
      let location = get_pod_location located in
      with_config fuel configs node location (
        get_best_config configs (requested specs target.spec) location
          (or_default "" (lookup "nvidia.com/mig.config" node.labels)))
  with_specs fuel configs node target located none = stop (err "Error listing pods on node")

  -- Two lists of the node's pods are read; a failed one ends the process.
  unfoldable pub with_pods :
      ℕ
      → MigConfigs
      → Node
      → Target
      → Option (List LabelledPod × List PodSpec)
      → Act Call (Option String)
  unfolding with_specs
  with_pods fuel configs node target (some (located, _)) =
      query (list_pods node.name) c.pods >>= with_specs fuel configs node target located
  with_pods fuel configs node target none = stop (err "Error listing pods on node")

  -- What stands between the taint and its removal.
  unfoldable pub reconfigure : ℕ → MigConfigs → Node → Target → Act Call (Option String)
  unfolding with_pods
  reconfigure fuel configs node target =
      query (list_pods node.name) c.pods >>= with_pods fuel configs node target

  unfoldable pub untainted : List Taint → List Taint
  untainted [] = []
  untainted (t ∷ ts) =
      let rest = untainted ts in
      if not (str_eq t.key "kubecomp.com/reconfig.state") then t ∷ rest else rest

  -- The deferred function, with the calls that it makes.
  unfoldable pub remove_taint : List Call → List Call
  unfolding untainted
  remove_taint h =
      let fresh = (c.node h).0 in
      update_node
        (record { name = fresh.name; labels = fresh.labels; taints = untainted fresh.taints })
      ∷ get_node
      ∷ h

  -- A deferred function runs when Reconcile returns or panics.
  unfoldable pub deferred :
      Outcome (Option String) × List Call → Outcome (Option String) × List Call
  unfolding remove_taint
  deferred (ok r, h) = (ok r, remove_taint h)
  deferred (panic, h) = (panic, remove_taint h)
  deferred (err e, h) = (err e, h)
  deferred (running, h) = (running, h)

  abbrev pub tainted : Node → Node
  tainted node = record {
    name = node.name;
    labels = node.labels;
    taints = node.taints ++ record { key = "kubecomp.com/reconfig.state"; value = "pending" } ∷ [];
  }

  unfoldable pub with_target : ℕ → MigConfigs → Node → Option Target → Act Call (Option String)
  unfolding deferred reconfigure
  with_target fuel configs node none h = (ok none, h)
  with_target fuel configs node (some target) h =
      if not (str_eq target.node_name "")
      then (ok none, h)
      else deferred
          (reconfigure fuel configs (tainted node) target (update_node (tainted node) ∷ h))

  -- `Reconcile`
  unfoldable pub reconcile : ℕ → MigConfigs → Act Call (Option String)
  unfolding with_target
  reconcile fuel configs = query get_node c.node >>= λ found.
      if not found.1
      then pure (some "the node is not found")
      else (query get_target c.target >>= with_target fuel configs found.0)

-- `LabelsChangedPredicate`
abbrev pub labels_changed : Map String String → Map String String → Bool
labels_changed old new = not (
    str_eq (or_default "" (lookup "targetPod" old)) (or_default "" (lookup "targetPod" new))
    && str_eq (or_default "" (lookup "targetNamespace" old))
        (or_default "" (lookup "targetNamespace" new)))
