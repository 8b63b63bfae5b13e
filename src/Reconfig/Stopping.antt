-- ===== src/Reconfig/Stopping.antt =====
-- `stopPods` and `stopGPUReporter` of reconfig/kubecomp-mig/internal/controllers/node_controller.go. The
-- state is the list of the calls made so far, the latest first.
pub mod Waiting
use kube_comp_mig.Prelude.{
  ℕ, zero, suc, ◌+◌, String, Bool, true, false, not, ◌&&◌, Option, none, some, List, [], ◌∷◌, ◌++◌,
  str_eq, if◌then◌else◌,
}
use kube_comp_mig.Prelude.Calls.{Act, ◌>>=◌, pure, stop}
use kube_comp_mig.Prelude.Maps.{Map, nat_eq, string_eq, or_default, lookup, insert}
use kube_comp_mig.Prelude.Outcomes.{Outcome, ok, err, panic, running}
use kube_comp_mig.Reconfig.Config.{MigConfigs, get_reconfig_gpu}
use kube_comp_mig.Reconfig.Location.{LabelledPod, get_pod_location}
use kube_comp_mig.Reconfig.Selector.{Pod, get_best_config}
use kube_comp_mig.Reconfig.Usage.{PodSpec, requested}

pub record Taint : Type 0 where
  pub key : String
  pub value : String

pub record Node : Type 0 where
  pub name : String
  pub labels : Map String String
  pub taints : List Taint

-- A pod of the reporter's namespace: whether it is on the node, and the daemon set owns it.
pub record ReporterPod : Type 0 where
  pub name : String
  pub node_name : String
  pub owned : Bool

pub data Call : Type 0 where
  get_node get_target : Call
  update_node : Node → Call
  list_pods : String → Call
  get_pod delete_pod : Pod → Call
  add_affinity : String → String → Call
  get_daemon_set list_reporters : Call
  delete_reporter : String → Call
  read_state : String → Call

-- The target pod of the node's labels.
pub record Target : Type 0 where
  pub node_name : String
  pub spec : PodSpec

-- What the cluster answers, depending on the calls made so far. A read of the node fills the object, and
-- says whether it succeeded.
pub record Cluster : Type 0 where
  pub node : List Call → Node × Bool
  pub target : List Call → Option Target
  pub accepts_node : List Call → Bool
  pub pods : List Call → Option (List LabelledPod × List PodSpec)
  pub pod : Pod → List Call → Option (Map String String)
  pub accepts_delete : Pod → List Call → Bool
  pub daemon_set : List Call → Bool
  pub reporters : List Call → Option (List ReporterPod)
  pub mig_state : List Call → String

-- A call whose answer depends on the calls before it.
abbrev pub query : {A : Type 0} → Call → (List Call → A) → Act Call A
query c answer h = (ok (answer h), c ∷ h)

-- A call whose answer is not read.
abbrev pub send : Call → Act Call Unit
send c h = (ok tt, c ∷ h)

-- `for { … if … { break } }`, with fuel for its rounds
unfoldable pub until : ℕ → Act Call Bool → Act Call Unit
until zero round h = (running, h)
until (suc fuel) round h =
    let again = until fuel round in (round >>= λ finished. if finished then pure tt else again) h

module _ (c : Cluster) where
  -- The hash of the pod's deployment, "" where there is none.
  abbrev pub hash_of : Option (Map String String) → String
  hash_of none = ""
  hash_of (some labels) = or_default "" (lookup "pod-template-hash" labels)

  unfoldable pub delete_pods : List Pod → String → Act Call Unit
  delete_pods [] node_name = pure tt
  delete_pods (p ∷ ps) node_name =
      let rest = delete_pods ps node_name in
      query (get_pod p) (c.pod p) >>= λ found.
      query (delete_pod p) (c.accepts_delete p) >>= λ accepted.
      (if accepted then send (add_affinity (hash_of found) node_name) else pure tt) >>= λ _. rest

  abbrev pub is_none {ℓ} : {A : Type ℓ} → Option A → Bool
  is_none none = true
  is_none (some a) = false

  -- One round: whether every pod is gone.
  unfoldable pub all_gone : List Pod → Act Call Bool
  all_gone [] = pure true
  all_gone (p ∷ ps) =
      let rest = all_gone ps in
      query (get_pod p) (c.pod p) >>= λ found. rest >>= λ gone. pure (is_none found && gone)

  unfoldable pub stop_pods : ℕ → List Pod → String → Act Call Unit
  unfolding delete_pods until all_gone
  stop_pods fuel pods node_name = delete_pods pods node_name >>= λ _. until fuel (all_gone pods)

  unfoldable pub delete_reporters : List ReporterPod → String → Act Call Unit
  delete_reporters [] node_name = pure tt
  delete_reporters (p ∷ ps) node_name =
      let rest = delete_reporters ps node_name in
      (if str_eq p.node_name node_name && p.owned then send (delete_reporter p.name) else pure tt)
      >>= λ _. rest

  abbrev reporters_found : String → Option (List ReporterPod) → Act Call Unit
  reporters_found node_name none = pure tt
  reporters_found node_name (some pods) = delete_reporters pods node_name

  unfoldable pub stop_gpu_reporter : String → Act Call Unit
  unfolding delete_reporters
  stop_gpu_reporter node_name = query get_daemon_set c.daemon_set >>= λ found.
      if found then (query list_reporters c.reporters >>= reporters_found node_name) else pure tt
