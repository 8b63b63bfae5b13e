-- ===== src/Reconfig/Location.antt =====
-- `GetPodLocation` of reconfig/kubecomp-mig/internal/controllers/node_controller.go: which pods are on a
-- GPU, from the labels that the reporter has written. Negative numbers are left out: no GPU has one.
pub mod Written
use kube_comp_mig.Prelude.{
  ℕ, String, Bool, true, false, Option, none, some, List, [], ◌∷◌, ◌++◌, if◌then◌else◌,
}
use kube_comp_mig.Prelude.Integers.{ℤ, pos, negsuc}
use kube_comp_mig.Prelude.Maps.{Map, nat_eq, string_eq, or_default, lookup, insert}
use kube_comp_mig.Prelude.Parsing.{Parsed, value, syntax, range, parse_int}
use kube_comp_mig.Prelude.Text.{codes, split_on}
use kube_comp_mig.Reconfig.Selector.{Pod}

pub record LabelledPod : Type 0 where
  pub name : String
  pub namespace : String
  pub labels : Map String String

-- A part that is no number is left out.
abbrev pub with_number : Parsed → List ℕ → List ℕ
with_number (value (pos n)) ids = n ∷ ids
with_number (value (negsuc n)) ids = ids
with_number syntax ids = ids
with_number (range z) ids = ids

unfoldable pub numbers : List String → List ℕ
numbers [] = []
numbers (part ∷ parts) = with_number (parse_int (codes part)) (numbers parts)

-- `strings.Split(pod.Labels[gpuIDLabel], ",")`, and `strconv.Atoi` of the parts
unfoldable pub label_ids : String → List ℕ
unfolding numbers
label_ids label = numbers (split_on 44 label)

unfoldable pub add_pod : Pod → List ℕ → Map ℕ (List Pod) → Map ℕ (List Pod)
add_pod pod [] location = location
add_pod pod (id ∷ ids) location =
    add_pod pod ids (insert id (or_default [] (lookup id location) ++ pod ∷ []) location)

unfoldable pub add_labelled : List LabelledPod → Map ℕ (List Pod) → Map ℕ (List Pod)
unfolding add_pod label_ids
add_labelled [] location = location
add_labelled (p ∷ ps) location = add_labelled ps (
    add_pod (record { name = p.name; namespace = p.namespace })
      (label_ids (or_default "" (lookup "gpuIDs" p.labels))) location)

unfoldable pub get_pod_location : List LabelledPod → Map ℕ (List Pod)
unfolding add_labelled
get_pod_location pods = add_labelled pods []
