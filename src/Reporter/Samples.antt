-- ===== src/Reporter/Samples.antt =====
-- A pod whose GPUs are known at the third try, and a node with one GPU.
use kube_comp_mig.Prelude.{
  ℕ, String, ◌≡◌, refl, true, false, ◌⊎◌, inl, none, some, [], ◌∷◌, ltb, if◌then◌else◌, arith,
}
use kube_comp_mig.Prelude.Outcomes.{Outcome, ok, err, for_range, ◌>>=◌}
use kube_comp_mig.Nvml.{NvLib, ended, get_mig_device_type}
use kube_comp_mig.Reporter.Devices.{PodResources, get_request_mig}
use kube_comp_mig.Reporter.Unknown.{unknown_device_blanks}
use kube_comp_mig.Prelude.Maps.{lookup, insert}
use kube_comp_mig.Reconfig.Config.{MigConfigs}
use kube_comp_mig.Reporter.{
  max_retries, retry_loop, get_gpu_ids, max_mig_label, profile_loop, get_max_mig_remain, set_slices,
  better, subtract, free_slices, last_sorted, enough, greatest_from, before, is_larger, first_digit,
}
use kube_comp_mig.Reporter.Remaining.{Listed, max_mig_label-Listed}
use kube_comp_mig.Reporter.Retries.{first_answer, get_gpu_ids-first_answer}

abbrev third_try : ℕ → Outcome String
third_try n = if ltb n 2 then err "unable to get GPU used by the pod" else ok "0,1"

third_try_ids : get_gpu_ids 5 third_try ≡ ok "0,1"
unfolding get_gpu_ids retry_loop
third_try_ids = refl

get_gpu_ids-first_answer_example :
    get_gpu_ids 5 third_try ≡ first_answer max_retries third_try 0 (third_try 0)
get_gpu_ids-first_answer_example = get_gpu_ids-first_answer 5 third_try (omega arith)

-- The first entry lists a slice that is in use; the second is not enabled.
abbrev gpu_configs : MigConfigs
gpu_configs =
    (
      "mixed",
      record {
        devices = 0 ∷ [];
        mig_enabled = true;
        mig_devices = ("1g.5gb", 1) ∷ ("2g.10gb", 3) ∷ ("3g.20gb", 1) ∷ [];
      }
          ∷ record { devices = 1 ∷ []; mig_enabled = false; mig_devices = ("7g.40gb", 1) ∷ [] }
          ∷ [],
    )
    ∷ []

gpu_configs_label : max_mig_label gpu_configs (("3g.20gb", 1) ∷ []) "" ≡ "2g.10gb"
unfolding max_mig_label profile_loop get_max_mig_remain set_slices better subtract free_slices
    last_sorted enough greatest_from before is_larger first_digit lookup insert
gpu_configs_label = refl

max_mig_label-Listed_example :
    (max_mig_label gpu_configs (("3g.20gb", 1) ∷ []) "" ≡ "")
    ⊎ Listed gpu_configs (max_mig_label gpu_configs (("3g.20gb", 1) ∷ []) "")
max_mig_label-Listed_example = max_mig_label-Listed gpu_configs (("3g.20gb", 1) ∷ [])

-- A node without MIG devices, on which a pod uses another device.
abbrev no_devices : NvLib
no_devices = record {
  init = none;
  mig_devices = [];
  gpus = [];
  mig_failure = none;
  gpu_failure = none;
  visit_mig_devices = λ f s. for_range (λ _. f) 0 [] s >>= ended none;
  visit_devices = λ f s. for_range (λ _. f) 0 [] s >>= ended none;
  visit_mig_devices-order = λ f s. refl;
  visit_devices-order = λ f s. refl;
}

not_found : get_mig_device_type no_devices "nic-0" ≡ err "failed to find mig type"
unfolding get_mig_device_type for_range
not_found = refl

abbrev pod_with_nic : PodResources
pod_with_nic = record { name = "p"; namespace = "default"; device_ids = "nic-0" ∷ [] }

unknown_device_blanks_example :
    max_mig_label gpu_configs (get_request_mig no_devices (some (pod_with_nic ∷ []))) "" ≡ ""
unknown_device_blanks_example =
    unknown_device_blanks no_devices gpu_configs (pod_with_nic ∷ [])
      (inl (inl ("failed to find mig type", not_found)))
      (((refl, (refl, (refl, tt))), ((refl, tt), tt)), tt)
