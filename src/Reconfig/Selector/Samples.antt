-- ===== src/Reconfig/Selector/Samples.antt =====
-- Three configurations of a node with two GPUs, and a pod that wants two larger slices: either GPU
-- can be changed for it.
use kube_comp_mig.Prelude.{
  ℕ, ◌≤◌, String, true, ◌≡◌, ◌≢◌, ◌↔◌, ◌⊎◌, refl, List, [], ◌∷◌, All, Member, arith, eq_iff,
}
use kube_comp_mig.Prelude.Maps.{Map, insert, lookup}
use kube_comp_mig.Prelude.Integers.{minus, gtb}
use kube_comp_mig.Prelude.Text.{slice_from}
use kube_comp_mig.Prelude.Outcomes.{ok, err}
use kube_comp_mig.Reconfig.Config.{
  MigConfigs, get_config, get_reconfig_gpu, find_config, set_configs, set_devices, changed, differs,
}
use kube_comp_mig.Reconfig.Config.Changes.{Touched, get_reconfig_gpu-Touched}
use kube_comp_mig.Reconfig.Selector.{
  Pod, get_best_config, get_best_config_filter, fits, count_slices, get_best_config_score,
  fill_scores, config_score, lower_score, pick, named,
}
use kube_comp_mig.Reconfig.Selector.Score.{disturbed}
use kube_comp_mig.Reconfig.Selector.Filter.{LongNames, Candidate}
use kube_comp_mig.Reconfig.Selector.Best.{get_best_config-Chosen}

abbrev two_gpus : MigConfigs
two_gpus =
    (
      "all-1g.5gb",
      record { devices = 0 ∷ 1 ∷ []; mig_enabled = true; mig_devices = ("1g.5gb", 7) ∷ [] } ∷ [],
    )
    ∷ (
      "mixed",
      record { devices = 0 ∷ []; mig_enabled = true; mig_devices = ("1g.5gb", 7) ∷ [] }
          ∷ record { devices = 1 ∷ []; mig_enabled = true; mig_devices = ("2g.10gb", 3) ∷ [] }
          ∷ [],
    )
    ∷ (
      "first",
      record { devices = 0 ∷ []; mig_enabled = true; mig_devices = ("2g.10gb", 3) ∷ [] }
          ∷ record { devices = 1 ∷ []; mig_enabled = true; mig_devices = ("1g.5gb", 7) ∷ [] }
          ∷ [],
    )
    ∷ []

abbrev wanted : Map String ℕ
wanted = ("nvidia.com/mig-2g.10gb", 2) ∷ []

-- One pod with three slices of the first GPU, and two pods with one of the second each.
abbrev three_pods : Map ℕ (List Pod)
three_pods =
    let p : Pod = record { name = "p"; namespace = "default" } in
    (0, p ∷ p ∷ p ∷ [])
    ∷ (
      1,
      record { name = "q"; namespace = "default" }
          ∷ record { name = "r"; namespace = "default" }
          ∷ [],
    )
    ∷ []

wanted-LongNames : LongNames wanted
unfolding slice_from
wanted-LongNames = (("2g.10gb", refl), tt)

two_gpus_named : All (λ p. p.0 ≢ "") two_gpus
two_gpus_named = (
  λ e. ground (arith, eq_iff "all-1g.5gb" ""),
  (λ e. ground (arith, eq_iff "mixed" ""), (λ e. ground (arith, eq_iff "first" ""), tt)),
)

-- The change of the second GPU is chosen, with two entries of two pods, and not that of the first, with
-- three entries of one pod.
mixed_chosen : get_best_config two_gpus wanted three_pods "all-1g.5gb" ≡ ok "mixed"
unfolding get_reconfig_gpu get_config find_config set_configs set_devices changed differs insert
    lookup get_best_config get_best_config_filter fits count_slices get_best_config_score
    fill_scores config_score lower_score pick named slice_from minus gtb
mixed_chosen = refl

fewer_entries :
    (disturbed two_gpus three_pods "all-1g.5gb" "mixed" ≡ 2)
    × (disturbed two_gpus three_pods "all-1g.5gb" "first" ≡ 3)
unfolding get_reconfig_gpu get_config find_config set_configs set_devices changed differs insert
    lookup
fewer_entries = (refl, refl)

get_best_config-Chosen_example :
    ((name : String) × (get_best_config two_gpus wanted three_pods "all-1g.5gb" ≡ ok name)
      × Candidate wanted wanted-LongNames name two_gpus
      × ((c : String)
          → Candidate wanted wanted-LongNames c two_gpus
          → disturbed two_gpus three_pods "all-1g.5gb" name
            ≤ disturbed two_gpus three_pods "all-1g.5gb" c))
    ⊎ ((get_best_config two_gpus wanted three_pods "all-1g.5gb" ≡ err "Config not found.")
        × ((c : String) → Candidate wanted wanted-LongNames c two_gpus → ⊥))
get_best_config-Chosen_example =
    get_best_config-Chosen two_gpus wanted three_pods "all-1g.5gb" wanted-LongNames two_gpus_named

get_reconfig_gpu-Touched_example :
    Member 1 (get_reconfig_gpu two_gpus "all-1g.5gb" "mixed")
    ↔ Touched (get_config two_gpus "all-1g.5gb") (get_config two_gpus "mixed") 1
get_reconfig_gpu-Touched_example = get_reconfig_gpu-Touched two_gpus "all-1g.5gb" "mixed" 1
