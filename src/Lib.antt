-- ===== src/Lib.antt =====
-- KubeComp-MIG: programs that run inference services on GPUs that are cut into MIG slices.
--
-- The Autoscaler (Autoscaler/*.go) reads the metrics of each Knative revision, decides whether its GPU
-- tier should change, asks Knative for a new revision and splits the service's traffic anew.
--
-- - Autoscaler/Resource.antt: `GpuResource` and `parseGpuResource` of Autoscaler/gpuResource.go.
--   Children: equality of resources as Go compares structs, and what the parser returns.
-- - Autoscaler/Registry.antt: the tables of tiers, `UpdateAvailTiers` and the three queries of
--   Autoscaler/gpuRegistry.go. Children: the index loops, the tables, the recorded availability.
-- - Autoscaler/Scaler.antt: `DecideScale` and the checks of Autoscaler/scaler.go. Children: the votes of
--   the metrics, and the decision.
-- - Autoscaler/Traffic.antt: the traffic split of `updateServiceTraffic` of Autoscaler/scaler.go.
--   Children: the loops, the shares, and the panics.
-- - Autoscaler/Knative.antt: the calls of Autoscaler/knativeHelper.go that scaling makes, and the loop of
--   `WaitService`. The answers of the cluster are functions of the calls made so far. The loop has fuel
--   for its rounds; three rounds more than the timeout has seconds are enough where a tick takes a second.
-- - Autoscaler/Apply.antt: `ApplyScale` and the calls of `updateServiceTraffic`. Child: what is deleted.
-- - Autoscaler/Process.antt: `getRevisionData`, `processPod`, `ProcessService` and `shouldProcessService` of
--   Autoscaler/autoscaler.go. Children: when a pod is scaled, and what the treatment of a service deletes.
-- - Autoscaler/Exporter.antt: the events of Autoscaler/exporter.go. Autoscaler/Revisions.antt:
--   `incrementRevision` of scaler.go. Autoscaler/Configuration.antt: `parseConfig` and a round of `main`.
--
-- The reconfiguration controllers (reconfig/kubecomp-mig) choose a new MIG configuration of a node for a
-- pod that finds no slice, stop the pods on the GPUs that change, and send them back to the node.
--
-- - Reconfig/Queue.antt: `KeyToQueue` of internal/controllers/util.go. Children: a queue for every key, and
--   that the map of lists implements it.
-- - Reconfig/Config.antt: `getConfig` and `getReconfigGPU` of internal/controllers/node_controller.go.
-- - Reconfig/Selector.antt: internal/controllers/config_selector.go. Children: the candidates, the scores,
--   the loop for the best score, and the choice.
-- - Reconfig/Usage.antt: `extractUsedGPU` of internal/controllers/node_controller.go and the requests of the
--   target pod that `Reconcile` adds. Child: what the counts add up to.
-- - Reconfig/Location.antt: `GetPodLocation` of internal/controllers/node_controller.go. Child: the labels
--   that the reporter writes.
-- - Reconfig/Stopping.antt: `stopPods` and `stopGPUReporter` of the same file. The loop that waits has fuel;
--   one round more than the number of calls after which every pod is gone is enough. Child: that it ends.
-- - Reconfig/Reconcile.antt: `Reconcile` of the same file. Child: the taint of the node.
-- - Reconfig/Preprocess.antt: the handler of internal/controllers/pod_controller.go. Children: the goroutines
--   at its channel as a step relation, and what happens when the handler puts a pod back.
--
-- The GPU reporter (reconfig/kubecomp-mig, internal/reporter/gpu_reporter.go) labels pods with their GPUs
-- and a node with its largest free slice.
--
-- - Reporter.antt: `getGPUIDs`, `getMaxMigRemain`, `isLarger` and the label of `updateNodeMaxMigLabel`.
--   The loop of `getGPUIDs` has fuel; five rounds are enough, the number of its retries. Children: the
--   retries, and where the label comes from.
-- - Reporter/Devices.antt: `getRequestMig`, `getGPUIDsHelper`, `requestGPU` and `Reconcile`.
--   Reporter/Unknown.antt: a device without a MIG type. Reporter/Labels.antt: `updateNodeMaxMigLabel` and
--   `updateNodeResourceLabel`.
-- - Nvml.antt: the NVML client of the reporter (reconfig/kubecomp-mig/pkg/gpu/client.go), over an interface
--   of the library that visits the devices.
--
-- The Dispatcher (Dispatcher/*.go) groups requests by their model and creates a service for each group.
--
-- - Dispatcher.antt: `ResourceEstimate` and `DecideService` of Dispatcher/processor.go. Child: the slice
--   that a service receives.
-- - Dispatcher/Requests.antt: `parseRequest` of Dispatcher/request.go and `handleRequest`.
-- - Dispatcher/Worker.antt: `worker` of Dispatcher/main.go. Child: the groups that it sends.
-- - Dispatcher/Assigner.antt: Dispatcher/assigner.go and `sequentialProcessor`. Child: the services that are
--   created.
--
-- The scheduler plugin (noderesourcesfit/pkg/plugins/noderesources/fit.go) places a pod on a node with room
-- for it, or has the node reconfigured for the pod.
--
-- - Scheduler/Slices.antt: `extractCPUAndMemory`. Child: printed names.
-- - Scheduler/Demand.antt: the first part of `fitsRequest`, up to its loop over the scalar resources.
--   Children: when it finds nothing missing, the requested slices with the sums of their sizes and their
--   numbers, the entries of their map, and that the quantities do not count for the sums.
-- - Scheduler/Gpus.antt: its loop over the GPUs. Children: what the loop finds, and which labels of a node
--   make a GPU acceptable.
-- - Scheduler/Fit.antt: `fitsRequest` from these parts. Children: when a node has room, for the slices and
--   for the rest, and the panics.
-- - Scheduler/Cycle.antt: the cycle state, as an interface, and its readers.
-- - Scheduler/Phases.antt: `PreFilter`, `Filter`, `Fits` and the hints. Child: the hint for a node.
-- - Scheduler/Permit.antt: `Permit`. Child: Permit after Filter.
-- - Scheduler/Score.antt: `PreScore`, `Score` and `NormalizeScore`. Child: the range of the scores.
--
-- The Prometheus support service (Promsupp/main.go) gives every Knative service an object for its metrics.
--
-- - Promsupp.antt: a round of `Run`.
--
-- Conventions. A Go call comes to an `Outcome`: a value, an error with its message, or a panic. A map is
-- an association list in the order of one `range` over it; a theorem about every list is one about every
-- order. A float64 is an abstract type with the laws of IEEE 754 that are used (Prelude/Floats.antt). An
-- int stays a natural number: counts, positions and percentages are never negative here, and each comment
-- says where Go's value would be. The scores of configurations are integers (Prelude/Integers.antt).
-- What the cluster reports is an argument. Logging is not modelled.
-- Not modelled: the metrics fetcher and the clients of the Autoscaler, the HTTP and JSON of the Dispatcher
-- and its Prometheus support, the scorers that are copied from Kubernetes, and the programs for
-- experiments.
pub mod Prelude
pub mod Autoscaler
pub mod Reconfig
pub mod Reporter
pub mod Dispatcher
pub mod Scheduler
pub mod Nvml
pub mod Promsupp
