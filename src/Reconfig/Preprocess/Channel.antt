-- ===== src/Reconfig/Preprocess/Channel.antt =====
-- The goroutines that meet at the channel of cmd/reconfig/reconfig.go, which has no buffer: a send waits
-- until another goroutine receives, and only the loop of `Preprocess` receives.
use kube_comp_mig.Prelude.{String, Bool, ◌≡◌, List, ◌∷◌, ◌++◌, if◌then◌else◌}
use kube_comp_mig.Reconfig.Queue.{KeyToQueue, add}
use kube_comp_mig.Reconfig.Selector.{Pod}
use kube_comp_mig.Reconfig.Preprocess.{Api, Write, preprocess_handler}

-- Where the loop of `Preprocess` is: at its receive, or at the send at the end of the handler.
pub data Worker : Type 0 where
  receiving : Worker
  sending : Pod → Worker

-- `senders` are the pods that a `Reconcile` of the pod controller waits to send.
pub record System : Type 0 where
  pub worker : Worker
  pub senders : List Pod
  pub nodes : KeyToQueue
  pub writes : List Write

abbrev pub after_handler : Pod → Bool → Worker
after_handler pod b = if b then sending pod else receiving

-- The worker has received `pod`, run the handler, and gone on to its next channel operation.
abbrev pub handle : Api → Pod → List Pod → System → System
handle api pod others s =
    let h = preprocess_handler api pod s.nodes in
    record {
      worker = after_handler pod h.sends;
      senders = others;
      nodes = h.lookup_after;
      writes = h.writes ++ s.writes;
    }

pub data Step : System → System → Type 0 where
  -- `Reconcile` of a pod without the label comes to its send.
  arrive : (s : System) (pod : Pod) → Step s (record s { senders = pod ∷ s.senders })
  -- The node controller notes a node for a deployment.
  note : (s : System) (hash node : String) → Step s (record s { nodes = add hash node s.nodes })
  -- A waiting send and the receive of the worker meet.
  meet :
      (api : Api) (s : System) (before : List Pod) (pod : Pod) (after : List Pod)
      → s.worker ≡ receiving
      → s.senders ≡ before ++ pod ∷ after
      → Step s (handle api pod (before ++ after) s)
  -- A send of the worker and a receive of the worker cannot meet: there is no step for it.

pub data Steps : System → System → Type 0 where
  done : (s : System) → Steps s s
  next : (s t u : System) → Step s t → Steps t u → Steps s u
