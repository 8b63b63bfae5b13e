-- ===== src/Reporter/Devices.antt =====
-- The devices of the pods: `getRequestMig`, `getGPUIDsHelper` and `requestGPU` of
-- reconfig/kubecomp-mig/internal/reporter/gpu_reporter.go.
use kube_comp_mig.Prelude.{
  ℕ, ◌+◌, String, Bool, false, not, ◌||◌, Option, none, some, List, [], ◌∷◌, str_eq, if◌then◌else◌,
}
use Prim.Native.String.{◌++◌ as ◌<>◌}
use kube_comp_mig.Prelude.Maps.{Map, string_eq, or_default, lookup, insert}
use kube_comp_mig.Prelude.Outcomes.{Outcome, ok, err, panic, running, ◌>>=◌, wrap}
use kube_comp_mig.Prelude.Parsing.{itoa}
use kube_comp_mig.Prelude.Text.{codes, has_prefix}
use kube_comp_mig.Nvml.{NvLib, get_mig_device_type, get_mig_device_gpu_index}
use kube_comp_mig.Reporter.{get_gpu_ids}

-- A pod in the answer of the kubelet, with the ids of its devices in the order of the three loops.
pub record PodResources : Type 0 where
  pub name : String
  pub namespace : String
  pub device_ids : List String

-- The type, "" where there is an error.
abbrev pub type_or_empty : Outcome String → String
type_or_empty (ok t) = t
type_or_empty (err e) = ""
type_or_empty panic = ""
type_or_empty running = ""

unfoldable pub count_ids : NvLib → List String → Map String ℕ → Map String ℕ
count_ids lib [] requests = requests
count_ids lib (id ∷ ids) requests =
    let mig = type_or_empty (get_mig_device_type lib id) in
    count_ids lib ids (insert mig (or_default 0 (lookup mig requests) + 1) requests)

unfoldable pub count_pods : NvLib → List PodResources → Map String ℕ → Map String ℕ
unfolding count_ids
count_pods lib [] requests = requests
count_pods lib (p ∷ ps) requests = count_pods lib ps (count_ids lib p.device_ids requests)

-- `getRequestMig`; `none` is an error of the kubelet.
unfoldable pub get_request_mig : NvLib → Option (List PodResources) → Map String ℕ
unfolding count_pods
get_request_mig lib none = []
get_request_mig lib (some pods) = count_pods lib pods []

-- `strings.Join` with a comma
unfoldable pub join : List String → String
join [] = ""
join (s ∷ []) = s
join (s ∷ t ∷ rest) = s <> ("," <> join (t ∷ rest))

unfoldable pub gpu_ids : NvLib → List String → Outcome (List String)
gpu_ids lib [] = ok []
gpu_ids lib (id ∷ ids) =
    wrap "unable to get GPU used by the pod" (get_mig_device_gpu_index lib id) >>= λ gpu.
    gpu_ids lib ids >>= λ rest. ok (itoa gpu ∷ rest)

unfoldable pub find_pod : NvLib → String → String → List PodResources → Outcome String
unfolding gpu_ids join
find_pod lib name namespace [] = err "unable to get GPU used by the pod"
find_pod lib name namespace (p ∷ ps) =
    let later = find_pod lib name namespace ps in
    if not (str_eq p.name name) || not (str_eq p.namespace namespace)
    then later
    else (gpu_ids lib p.device_ids >>= λ ids. ok (join ids))

-- `getGPUIDsHelper`
unfoldable pub get_gpu_ids_helper :
    NvLib → String → String → Option (List PodResources) → Outcome String
unfolding find_pod
get_gpu_ids_helper lib name namespace none =
    err "unable to list resources used by running Pods from Kubelet gRPC socket"
get_gpu_ids_helper lib name namespace (some pods) = find_pod lib name namespace pods

-- A pod as the reporter reads it; a container is given by the names of its requests.
pub record ReportedPod : Type 0 where
  pub name : String
  pub namespace : String
  pub node_name : String
  pub labels : Map String String
  pub containers : List (List String)

unfoldable pub any_mig : List String → Bool
any_mig [] = false
any_mig (slice ∷ rest) = has_prefix (codes "nvidia.com/mig") (codes slice) || any_mig rest

-- `requestGPU`
unfoldable pub request_gpu : List (List String) → Bool
unfolding any_mig
request_gpu [] = false
request_gpu (c ∷ cs) = any_mig c || request_gpu cs

-- What a run of `Reconcile` leaves: its error, and the labels that it sends to the pod. The label of the
-- node is updated when it returns.
pub record Reported : Type 0 where
  pub error : Option String
  pub updated : Option (Map String String)

-- The answers of the API: the pod, the pod when it is read again, and whether an update is accepted.
pub record ReporterApi : Type 0 where
  pub get_pod : Option ReportedPod
  pub get_again : ReportedPod
  pub accepts_update : Map String String → Bool

abbrev nothing_sent : Reported
nothing_sent = record { error = none; updated = none }

unfoldable pub set_label : ReporterApi → Outcome String → Outcome Reported
set_label api (ok ids) =
    let new = insert "gpuIDs" ids api.get_again.labels in
    ok (record {
      error = if api.accepts_update new then none else some "error of the update";
      updated = some new;
    })
set_label api (err e) = ok nothing_sent
set_label api panic = panic
set_label api running = running

-- `Reconcile` of the reporter of a node: `list n` is what the kubelet answers at the n-th try.
unfoldable pub reconcile_pod :
    ℕ → NvLib → String → (ℕ → Option (List PodResources)) → ReporterApi → Outcome Reported
unfolding set_label
reconcile_pod fuel lib node_name list api = with_pod api.get_pod
  where
    with_pod : Option ReportedPod → Outcome Reported
    with_pod none = ok nothing_sent
    with_pod (some pod) =
        if not (str_eq pod.node_name node_name) || not (request_gpu pod.containers)
        then ok nothing_sent
        else set_label api
            (get_gpu_ids fuel (λ n. get_gpu_ids_helper lib pod.name pod.namespace (list n)))

-- The filter of `SetupWithManager` for updates: the node of the pod has changed.
abbrev pub updates : Option (ReportedPod × ReportedPod) → Bool
updates none = false
updates (some (old, new)) = not (str_eq old.node_name new.node_name)
