-- ===== src/Reporter/Labels.antt =====
-- The labels of a node: `updateNodeResourceLabel`, and the update of `updateNodeMaxMigLabel`, of
-- reconfig/kubecomp-mig/internal/reporter/gpu_reporter.go.
use kube_comp_mig.Prelude.{ℕ, ◌+◌, String, Option, none, some, List, [], ◌∷◌, if◌then◌else◌}
use Prim.Native.String.{◌++◌ as ◌<>◌}
use kube_comp_mig.Prelude.Maps.{Map, nat_eq, string_eq, or_default, lookup, insert, remove}
use kube_comp_mig.Prelude.Outcomes.{Outcome, ok, err, panic, running}
use kube_comp_mig.Prelude.Parsing.{itoa}
use kube_comp_mig.Prelude.Text.{codes, has_prefix}
use kube_comp_mig.Nvml.{NvLib, MigInfo, get_all_migs}
use kube_comp_mig.Reconfig.Config.{MigConfigs}
use kube_comp_mig.Reporter.{max_mig_label}
use kube_comp_mig.Reporter.Devices.{PodResources, get_request_mig}

-- The labels of a node that the API returns; a nil map is `none` inside.
abbrev pub or_empty : Option (Map String String) → Map String String
or_empty none = []
or_empty (some labels) = labels

-- `updateNodeMaxMigLabel`: the labels that it sends. The outer `none` of the node is an error, and nothing
-- is sent then.
unfoldable pub update_node_max_mig_label :
    NvLib
    → MigConfigs
    → Option (List PodResources)
    → Option (Option (Map String String))
    → Option (Map String String)
update_node_max_mig_label lib configs pods none = none
update_node_max_mig_label lib configs pods (some labels) = some (
    insert "kubecomp.com/max-mig" (max_mig_label configs (get_request_mig lib pods) "")
      (or_empty labels))

unfoldable pub drop_ids : List String → Map String MigInfo → Map String MigInfo
drop_ids [] infos = infos
drop_ids (id ∷ ids) infos = drop_ids ids (remove id infos)

-- `delete(mig_info, cdId)` for the devices of every pod
unfoldable pub drop_used : List PodResources → Map String MigInfo → Map String MigInfo
unfolding drop_ids
drop_used [] infos = infos
drop_used (p ∷ ps) infos = drop_used ps (drop_ids p.device_ids infos)

-- `gpuResources[info.GpuID][info.Profile]++`
unfoldable pub count_free : Map String MigInfo → Map ℕ (Map String ℕ) → Map ℕ (Map String ℕ)
count_free [] resources = resources
count_free ((id, info) ∷ rest) resources =
    let profiles = or_default [] (lookup info.gpu_id resources) in
    count_free rest (
      insert info.gpu_id
        (insert info.profile (or_default 0 (lookup info.profile profiles) + 1) profiles) resources)

-- The old labels, as far as the prefix finds them.
unfoldable pub drop_old : Map String String → Map String String
drop_old [] = []
drop_old ((key, text) ∷ rest) =
    let later = drop_old rest in
    if has_prefix (codes "kubecomp/status-gpu") (codes key) then later else (key, text) ∷ later

unfoldable pub label_profiles : ℕ → Map String ℕ → Map String String → Map String String
label_profiles gpu [] labels = labels
label_profiles gpu ((profile, count) ∷ rest) labels = label_profiles gpu rest (
    insert ("kubecomp.com/status-gpu-" <> (itoa gpu <> ("-" <> (profile <> "-free")))) (itoa count)
      labels)

unfoldable pub label_gpus : Map ℕ (Map String ℕ) → Map String String → Map String String
unfolding label_profiles
label_gpus [] labels = labels
label_gpus ((gpu, profiles) ∷ rest) labels = label_gpus rest (label_profiles gpu profiles labels)

-- The map that `GetAllMigs` returns; it is empty beside the error of its initialisation.
abbrev pub all_migs : Outcome (Map String MigInfo) → Map String MigInfo
all_migs (ok infos) = infos
all_migs (err e) = []
all_migs panic = []
all_migs running = []

-- `updateNodeResourceLabel`: the labels that it sends. A node without labels panics where a label is
-- written.
unfoldable pub update_node_resource_label :
    NvLib
    → Option (List PodResources)
    → Option (Option (Map String String))
    → Outcome (Option (Map String String))
unfolding drop_used count_free drop_old label_gpus
update_node_resource_label lib none _ = ok none
update_node_resource_label lib (some pods) none = ok none
update_node_resource_label lib (some pods) (some labels) =
    written labels (count_free (drop_used pods (all_migs (get_all_migs lib))) [])
  where
    written :
        Option (Map String String) → Map ℕ (Map String ℕ) → Outcome (Option (Map String String))
    written none [] = ok (some [])
    written none (r ∷ rs) = panic
    written (some old) resources = ok (some (label_gpus resources (drop_old old)))
