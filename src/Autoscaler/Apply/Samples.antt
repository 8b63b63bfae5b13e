-- ===== src/Autoscaler/Apply/Samples.antt =====
-- A service with two revisions, and what carrying out a decision does to it.
use kube_comp_mig.Prelude.{◌+◌, ◌*◌, String, true, ◌≡◌, ◌≢◌, none, some, List, [], ◌∷◌, ◌++◌, arith}
use kube_comp_mig.Prelude.Samples.{small_floats}
use kube_comp_mig.Prelude.Outcomes.{running}
use kube_comp_mig.Autoscaler.Resource.{mig}
use kube_comp_mig.Autoscaler.Traffic.{scaling_up}
use kube_comp_mig.Autoscaler.Scaler.{ResourceRequirements, RevisionData}
use kube_comp_mig.Autoscaler.Samples.{texts}
use kube_comp_mig.Autoscaler.Knative.{
  Service, Call, get_service, update_service, list_revisions, delete_revision, new_ticker, tick,
  Cluster, second, wait_service,
}
use kube_comp_mig.Autoscaler.Knative.Waiting.{ticks, TicksTakeTime, wait_service-ends}
use kube_comp_mig.Autoscaler.Knative.Quiet.{deletions}
use kube_comp_mig.Autoscaler.Apply.{apply_scale}
use kube_comp_mig.Autoscaler.Apply.Deletion.{deleted, apply_scale-Deletes}

abbrev resources : ResourceRequirements
resources = record { limits = []; requests = [] }

abbrev ready : String → Service
ready latest = record {
  name = "m";
  annotations = some [];
  containers = resources ∷ [];
  template_labels = none;
  template_created = 0;
  traffic = record { percent = 100; revision_name = "m-1" } ∷ [];
  latest_ready = latest;
}

-- After an update the next revision is ready.
abbrev latest_after : List Call → String
latest_after [] = "m-1"
latest_after (update_service s ∷ h) = "m-2"
latest_after (tick ∷ h) = latest_after h
latest_after (new_ticker ∷ h) = latest_after h
latest_after (get_service n ∷ h) = latest_after h
latest_after (list_revisions n ∷ h) = latest_after h
latest_after (delete_revision n ∷ h) = latest_after h

abbrev pub small_cluster : Cluster
small_cluster = record {
  service = λ h n. some (ready (latest_after h));
  accepts = λ h s. true;
  revisions = λ h n. some ("m-1" ∷ "m-2" ∷ []);
  now = λ h. ticks h * second;
  rfc3339 = λ t. "2025-01-01T00:00:00Z";
}

ticks-append : (xs ys : List Call) → ticks (xs ++ ys) ≡ ticks xs + ticks ys
ticks-append [] ys = omega arith
ticks-append (tick ∷ xs) ys = omega (arith, ticks-append xs ys)
ticks-append (new_ticker ∷ xs) ys = ticks-append xs ys
ticks-append (get_service n ∷ xs) ys = ticks-append xs ys
ticks-append (update_service s ∷ xs) ys = ticks-append xs ys
ticks-append (list_revisions n ∷ xs) ys = ticks-append xs ys
ticks-append (delete_revision n ∷ xs) ys = ticks-append xs ys

small_cluster-TicksTakeTime : TicksTakeTime small_cluster
small_cluster-TicksTakeTime h later = omega (arith, ticks-append later (new_ticker ∷ h))

wait_service-ends_example :
    (wait_service small_cluster 603 (ready "m-1") (600 * second) []).0 ≢ running
wait_service-ends_example =
    wait_service-ends small_cluster 603 (ready "m-1") (600 * second) [] small_cluster-TicksTakeTime
      (omega arith)

abbrev first_revision : RevisionData
first_revision = record {
  name = "m-1";
  pod_name = "m-1-pod";
  namespace = "default";
  svc_name = "m";
  metrics = [];
  gpu_resource = record {
    gpu_type = mig;
    gpu_name = "nvidia.com/mig-1g.5gb";
    cpu_size = some 1;
    mem_size = some 5;
  };
}

apply_scale-Deletes_example :
    deletions (apply_scale small_cluster 603 scaling_up first_revision resources []).1
    ≡ deleted small_cluster scaling_up "m-1"
        (apply_scale small_cluster 603 scaling_up first_revision resources []).0
      ++ []
apply_scale-Deletes_example =
    apply_scale-Deletes small_cluster 603 scaling_up first_revision resources []
