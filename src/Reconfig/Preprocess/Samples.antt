-- ===== src/Reconfig/Preprocess/Samples.antt =====
-- A node waits for one deployment, and a pod of another one arrives.
use kube_comp_mig.Prelude.{String, true, ◌≡◌, refl, some, [], ◌∷◌}
use kube_comp_mig.Prelude.Maps.{Map, lookup}
use kube_comp_mig.Reconfig.Queue.{is_empty, get_first_val, first}
use kube_comp_mig.Reconfig.Selector.{Pod}
use kube_comp_mig.Reconfig.Preprocess.{Api}
use kube_comp_mig.Reconfig.Preprocess.Channel.{receiving, sending, System, Step, Steps}
use kube_comp_mig.Reconfig.Preprocess.Blocking.{Blocked, put_back_blocks}

abbrev other_labels : Map String String
other_labels = ("pod-template-hash", "other") ∷ []

abbrev small_api : Api
small_api = record {
  labels = λ pod. some other_labels;
  accepts_patch = λ pod. true;
  accepts_update = λ pod labels. true;
  replica_sets = λ hash. some 1;
}

abbrev other_pod : Pod
other_pod = record { name = "other-1"; namespace = "default" }

abbrev waiting : System
waiting = record {
  worker = receiving;
  senders = other_pod ∷ [];
  nodes = ("hash", "node-1" ∷ []) ∷ [];
  writes = [];
}

put_back_blocks_example :
    (t : System) × Step waiting t
    × (t.worker ≡ sending other_pod)
    × ((u : System) → Steps t u → Blocked other_pod t u)
unfolding is_empty get_first_val first lookup
put_back_blocks_example =
    put_back_blocks small_api waiting [] other_pod [] other_labels "other" refl refl refl refl refl
      refl
