-- ===== src/Scheduler/Score.antt =====
-- PreScore, Score and NormalizeScore of noderesourcesfit/pkg/plugins/noderesources/fit.go. The scorer that
-- the profile chooses, the requests of a pod and the snapshot of the nodes are arguments.
pub mod Bounds
use kube_comp_mig.Prelude.{
  ℕ, ◌*◌, ◌/◌, ◌≤◌, ◌<◌, ◌≡◌, String, Bool, true, false, not, ◌&&◌, Option, none, some, List, [],
  ◌∷◌, if◌then◌else◌,
}
use kube_comp_mig.Prelude.Integers.{ℤ, pos, negsuc, gtb, add_int64, sub_int64}
use kube_comp_mig.Prelude.Outcomes.{Outcome, ok, ◌>>=◌}
use kube_comp_mig.Prelude.Text.{max_int64}
use kube_comp_mig.Scheduler.Demand.{NodeInfo}
use kube_comp_mig.Scheduler.Fit.{FilterState}
use kube_comp_mig.Scheduler.Cycle.{
  CycleState, pre_score_state, pre_score_state_key, get_pre_score_state, get_filter_state,
}
use kube_comp_mig.Scheduler.Phases.{Pod, Status, success, error}

abbrev pub max_node_score : ℕ
max_node_score = 100

module _ (cycle : CycleState) (calculate_pod_resource_request_list : Pod → List ℕ) where
  unfoldable pub pre_score : Pod → cycle.State → Outcome (Status × cycle.State)
  pre_score pod s =
      cycle.write pre_score_state_key (pre_score_state (calculate_pod_resource_request_list pod)) s
      >>= λ t. ok (success [], t)

  abbrev or_calculate : Pod → Option (List ℕ) → List ℕ
  or_calculate pod none = calculate_pod_resource_request_list pod
  or_calculate pod (some requests) = requests

  abbrev pub bonus : ℤ → Option FilterState → ℤ
  bonus score none = score
  bonus score (some state) =
      if not state.to_reconfig then add_int64 score (pos max_node_score) else score

  -- `Score`; `snapshot` is what the lister returns for the node.
  unfoldable pub score :
      (NodeInfo → List ℕ → ℤ × Status) → Option NodeInfo → Pod → String → cycle.State → ℤ × Status
  score allocation none pod node_name s = (pos 0, error "getting node from Snapshot")
  score allocation (some node) pod node_name s =
      let r = allocation node (or_calculate pod (get_pre_score_state cycle s)) in
      (bonus r.0 (get_filter_state cycle s node_name), r.1)

-- `math.MinInt64` and `math.MaxInt64`
abbrev pub min_int64 : ℤ
min_int64 = negsuc max_int64

unfoldable pub min_max_loop : List (String × ℤ) → ℤ → ℤ → ℤ × ℤ
min_max_loop [] min max = (min, max)
min_max_loop ((name, score) ∷ rest) min max =
    min_max_loop rest (if gtb min score then score else min) (if gtb score max then score else max)

-- `getMinMaxScores`
unfoldable pub get_min_max_scores : List (String × ℤ) → ℤ × ℤ
unfolding min_max_loop
get_min_max_scores scores = min_max_loop scores (pos max_int64) min_int64

abbrev pub int_eq : ℤ → ℤ → Bool
int_eq a b = not (gtb a b) && not (gtb b a)

-- `int64(100.0 * float64(a) / float64(b))`. For numbers below 2^32 the float64 product is exact, and the
-- rounded quotient has the integer part of the exact one.
pub record FloatScale : Type 0 where
  pub scale : ℤ → ℤ → ℤ
  pub scale-exact :
      (a b : ℕ)
      → a ≤ b
      → 0 < b
      → b < 4294967296
      → scale (pos a) (pos b) ≡ pos (max_node_score * a / b)

module _ (float : FloatScale) where
  abbrev pub normalized : ℤ → ℤ → ℤ → ℤ
  normalized min max score =
      if not (int_eq max min)
      then add_int64 (pos 0) (float.scale (sub_int64 score min) (sub_int64 max min))
      else pos 0

  unfoldable pub normalize_loop : ℤ → ℤ → List (String × ℤ) → List (String × ℤ)
  normalize_loop min max [] = []
  normalize_loop min max ((name, score) ∷ rest) =
      (name, normalized min max score) ∷ normalize_loop min max rest

  -- `NormalizeScore`: the scores after it
  unfoldable pub normalize_score : List (String × ℤ) → List (String × ℤ)
  unfolding get_min_max_scores normalize_loop
  normalize_score scores =
      let m = get_min_max_scores scores in
      if int_eq m.0 (pos 0) && int_eq m.1 (pos 0) then scores else normalize_loop m.0 m.1 scores
