-- ===== src/Reconfig/Preprocess.antt =====
-- The pod controller (reconfig/kubecomp-mig/internal/controllers/pod_controller.go): it labels every new
-- pod before the scheduler sees it, and gives the pods of a stopped deployment their nodes back.
pub mod Channel
pub mod Blocking
mod Samples
use kube_comp_mig.Prelude.{
  ℕ, zero, suc, String, Bool, true, false, Option, none, some, List, [], ◌∷◌, if◌then◌else◌,
}
use kube_comp_mig.Prelude.Maps.{Map, string_eq, lookup, insert}
use kube_comp_mig.Prelude.Outcomes.{Outcome, ok, err, panic, running}
use kube_comp_mig.Reconfig.Queue.{
  KeyToQueue, is_empty, get_first_val, delete_first_val, delete_key, get_all_keys,
}
use kube_comp_mig.Reconfig.Selector.{Pod}

-- The answers of the API during one run of the handler; `none` is an error. A list of replica sets is
-- given by its length.
pub record Api : Type 0 where
  pub labels : Pod → Option (Map String String)
  pub accepts_patch : Pod → Bool
  pub accepts_update : Pod → Map String String → Bool
  pub replica_sets : String → Option ℕ

-- The writes that the API has accepted.
pub data Write : Type 0 where
  patched : Pod → Write
  updated : Pod → Map String String → Write

-- What a run of the handler leaves: the lookup, the writes, and whether it ends with a send of the pod
-- to the channel.
pub record Handled : Type 0 where
  pub lookup_after : KeyToQueue
  pub writes : List Write
  pub sends : Bool

-- `err != nil || len(replicaSetList.Items) == 0`
pub gone : Option ℕ → Bool
gone none = true
gone (some zero) = true
gone (some (suc n)) = false

pub delete_gone : Api → List String → KeyToQueue → KeyToQueue
unfolding gone
delete_gone api [] q = q
delete_gone api (k ∷ ks) q =
    delete_gone api ks (if gone (api.replica_sets k) then delete_key k q else q)

pub update_node_affinity_lookup : Api → KeyToQueue → KeyToQueue
unfolding delete_gone
update_node_affinity_lookup api q = delete_gone api (get_all_keys q) q

-- The end of the handler: the lookup is cleaned, and the pod goes to the channel again.
pub put_back : Api → KeyToQueue → Handled
unfolding update_node_affinity_lookup
put_back api q = record {
  lookup_after = update_node_affinity_lookup api q;
  writes = [];
  sends = true;
}

-- `DeleteFirstVal`, whose error is dropped.
pub take_first : String → KeyToQueue → Outcome KeyToQueue → KeyToQueue
take_first hash q (ok r) = r
take_first hash q (err e) = q
take_first hash q panic = q
take_first hash q running = q

-- The update with the two labels, where the lookup has a node.
pub use_node : Api → Pod → KeyToQueue → Map String String → String → Outcome String → Handled
unfolding put_back take_first
use_node api pod q labels hash (ok node) =
    let new = insert "expectedNode" node (insert "preprocess" "done" labels) in
    if api.accepts_update pod new
    then record {
      lookup_after = take_first hash q (delete_first_val hash q);
      writes = updated pod new ∷ [];
      sends = false;
    }
    else put_back api q
use_node api pod q labels hash (err e) = put_back api q
use_node api pod q labels hash panic = put_back api q
use_node api pod q labels hash running = put_back api q

pub with_hash : Api → Pod → KeyToQueue → Map String String → Option String → Handled
unfolding use_node
with_hash api pod q labels none = put_back api q
with_hash api pod q labels (some hash) = use_node api pod q labels hash (get_first_val hash q)

pub with_pod : Api → Pod → KeyToQueue → Option (Map String String) → Handled
unfolding with_hash
with_pod api pod q none = record { lookup_after = q; writes = []; sends = false }
with_pod api pod q (some labels) =
    if is_empty q
    then record {
      lookup_after = q;
      writes = if api.accepts_patch pod then patched pod ∷ [] else [];
      sends = false;
    }
    else with_hash api pod q labels (lookup "pod-template-hash" labels)

pub preprocess_handler : Api → Pod → KeyToQueue → Handled
unfolding with_pod
preprocess_handler api pod q = with_pod api pod q (api.labels pod)
