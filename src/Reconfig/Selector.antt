-- ===== src/Reconfig/Selector.antt =====
-- The choice of a configuration
-- (reconfig/kubecomp-mig/internal/controllers/config_selector.go).
pub mod Score
pub mod Filter
pub mod Pick
pub mod Best
mod Samples
use kube_comp_mig.Prelude.{
  ℕ, zero, suc, ◌+◌, ◌*◌, String, Bool, true, false, ◌||◌, List, [], ◌∷◌, length, ltb, str_eq,
  if◌then◌else◌,
}
use kube_comp_mig.Prelude.Integers.{ℤ, pos, minus, gtb}
use kube_comp_mig.Prelude.Maps.{Map, nat_eq, string_eq, or_default, lookup, insert}
use kube_comp_mig.Prelude.Text.{slice_from}
use kube_comp_mig.Prelude.Outcomes.{Outcome, ok, err, panic, ◌>>=◌}
use kube_comp_mig.Reconfig.Config.{MigConfig, MigConfigs, get_reconfig_gpu}

-- `Pod` of util.go
pub record Pod : Type 0 where
  pub name : String
  pub namespace : String

-- `len("nvidia.com/mig-")`
abbrev pub prefix_length : ℕ
prefix_length = 15

-- The loop over the devices of a configuration, which adds up `cnt`.
pub count_slices : String → List MigConfig → ℕ → Outcome ℕ
unfolding slice_from
count_slices request [] cnt = ok cnt
count_slices request (m ∷ ms) cnt = slice_from prefix_length request >>= λ name.
    count_slices request ms (cnt + or_default 0 (lookup name m.mig_devices) * length m.devices)

-- The loop over the requested slices; its result is `find`.
pub fits : Map String ℕ → List MigConfig → Outcome Bool
unfolding count_slices
fits [] ms = ok true
fits ((request, wanted) ∷ rest) ms =
    let later = fits rest ms in
    count_slices request ms 0 >>= λ cnt. if ltb cnt wanted then ok false else later

pub get_best_config_filter : MigConfigs → Map String ℕ → Outcome (List String)
unfolding fits
get_best_config_filter [] requests = ok []
get_best_config_filter ((profile, ms) ∷ rest) requests = fits requests ms >>= λ find.
    get_best_config_filter rest requests >>= λ names. ok (if find then profile ∷ names else names)

-- `score -= len(podLocation[id])` for every GPU.
pub lower_score : Map ℕ (List Pod) → List ℕ → ℤ → ℤ
lower_score location [] score = score
lower_score location (id ∷ ids) score =
    lower_score location ids (minus score (length (or_default [] (lookup id location))))

pub config_score : MigConfigs → Map ℕ (List Pod) → String → String → ℤ
unfolding lower_score
config_score configs location current config =
    lower_score location (get_reconfig_gpu configs current config) (pos 0)

-- The loop of `getBestConfigScore`, which fills `scores`.
pub fill_scores : MigConfigs → Map ℕ (List Pod) → String → List String → Map String ℤ → Map String ℤ
unfolding config_score
fill_scores configs location current [] scores = scores
fill_scores configs location current (c ∷ cs) scores =
    fill_scores configs location current cs
      (insert c (config_score configs location current c) scores)

pub get_best_config_score : MigConfigs → Map ℕ (List Pod) → String → List String → Map String ℤ
unfolding fill_scores
get_best_config_score configs location current candidates =
    fill_scores configs location current candidates []

-- The loop over the scores, with `maxConfigName` and `maxScore`.
pub pick : Map String ℤ → String × ℤ → String × ℤ
pick [] best = best
pick ((config, score) ∷ rest) best =
    pick rest (if gtb score best.1 || str_eq best.0 "" then (config, score) else best)

pub named : String → Outcome String
named name = if str_eq name "" then err "Config not found." else ok name

pub get_best_config : MigConfigs → Map String ℕ → Map ℕ (List Pod) → String → Outcome String
unfolding get_best_config_filter get_best_config_score pick named
get_best_config configs requests location current =
    get_best_config_filter configs requests >>= λ candidates.
    named (pick (get_best_config_score configs location current candidates) ("", pos 0)).0
