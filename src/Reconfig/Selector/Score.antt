-- ===== src/Reconfig/Selector/Score.antt =====
-- A score counts the entries of the pod locations on the GPUs that a change touches.
use kube_comp_mig.Prelude.{
  ℕ, ◌+◌, ◌≤◌, String, ◌≡◌, refl, sym, ap, ◌∙◌, false, List, [], ◌∷◌, length, ◌++◌, arith,
}
use kube_comp_mig.Prelude.{length-append}
use kube_comp_mig.Prelude.Integers.{pos, minus, gtb, minus-minus, gtb-minus}
use kube_comp_mig.Prelude.Maps.{Map, nat_eq, or_default, lookup}
use kube_comp_mig.Reconfig.Config.{MigConfigs, get_reconfig_gpu}
use kube_comp_mig.Reconfig.Selector.{Pod, lower_score, config_score}

-- The entries of the pod locations for these GPUs. A pod stands there once for each of its slices.
abbrev pub entries_on : Map ℕ (List Pod) → List ℕ → List Pod
entries_on location [] = []
entries_on location (id ∷ ids) = or_default [] (lookup id location) ++ entries_on location ids

-- How many entries lie on the GPUs that the change to a configuration touches.
abbrev pub disturbed : MigConfigs → Map ℕ (List Pod) → String → String → ℕ
disturbed configs location current config =
    length (entries_on location (get_reconfig_gpu configs current config))

lower_score-minus :
    (location : Map ℕ (List Pod)) (ids : List ℕ) (n : ℕ)
    → lower_score location ids (minus (pos 0) n)
      ≡ minus (pos 0) (n + length (entries_on location ids))
unfolding lower_score
lower_score-minus location [] n = ap (minus (pos 0)) (omega arith)
lower_score-minus location (id ∷ ids) n =
    let pods = length (or_default [] (lookup id location)) in
    let both = length-append (or_default [] (lookup id location)) (entries_on location ids) in
    ap (lower_score location ids) (minus-minus n pods)
    ∙ lower_score-minus location ids (n + pods)
    ∙ ap (minus (pos 0)) (omega (arith, both))

minus-nothing : minus (pos 0) 0 ≡ pos 0
unfolding minus
minus-nothing = refl

config_score-disturbed :
    (configs : MigConfigs) (location : Map ℕ (List Pod)) (current config : String)
    → config_score configs location current config
      ≡ minus (pos 0) (disturbed configs location current config)
unfolding config_score
config_score-disturbed configs location current config =
    let ids = get_reconfig_gpu configs current config in
    ap (lower_score location ids) (sym minus-nothing)
    ∙ lower_score-minus location ids 0
    ∙ ap (minus (pos 0)) (omega arith)

-- The better score belongs to the change that touches no more entries.
pub better-disturbed :
    (configs : MigConfigs) (location : Map ℕ (List Pod)) (current a b : String)
    → gtb (config_score configs location current a) (config_score configs location current b)
      ≡ false
    → disturbed configs location current b ≤ disturbed configs location current a
better-disturbed configs location current a b h =
    gtb-minus (disturbed configs location current a) (disturbed configs location current b) (
      ap (λ x. gtb x (minus (pos 0) (disturbed configs location current b)))
        (sym (config_score-disturbed configs location current a))
      ∙ ap (gtb (config_score configs location current a))
          (sym (config_score-disturbed configs location current b))
      ∙ h)
