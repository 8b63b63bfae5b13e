-- ===== src/Scheduler/Cycle.antt =====
-- The cycle state of the scheduler's framework, as an interface, and the keys and readers of
-- noderesourcesfit/pkg/plugins/noderesources/fit.go.
use kube_comp_mig.Prelude.{ℕ, ◌≡◌, String, List, Option, none, some, str_eq, if◌then◌else◌}
use Prim.Native.String.{◌++◌ as ◌<>◌}
use kube_comp_mig.Prelude.Outcomes.{Outcome, ok, panic}
use kube_comp_mig.Scheduler.Demand.{Resource}
use kube_comp_mig.Scheduler.Fit.{FilterState}

abbrev pub plugin_name : String
plugin_name = "MyNoderesourcesfit"

abbrev pub pre_filter_state_key : String
pre_filter_state_key = "PreFilterMyNoderesourcesfit"

abbrev pub pre_score_state_key : String
pre_score_state_key = "PreScoreMyNoderesourcesfit"

abbrev pub filter_state_key : String
filter_state_key = "FilterMyNoderesourcesfit"

-- `framework.StateData`: the three types of the plugin, and those of others.
pub data StateData : Type 0 where
  pre_filter_state : Resource → StateData
  filter_state : FilterState → StateData
  pre_score_state : List ℕ → StateData
  other : StateData

-- `framework.CycleState`: a read gives what was written last under its key; a write through a nil
-- pointer panics.
pub record CycleState : Type 1 where
  pub State : Type 0
  pub nil_state : State
  pub read : String → State → Option StateData
  pub write : String → StateData → State → Outcome State
  pub read-write :
      (k j : String) (v : StateData) (s t : State)
      → write k v s ≡ ok t
      → read j t ≡ (if str_eq k j then some v else read j s)
  pub write-nil : (k : String) (v : StateData) → write k v nil_state ≡ panic

-- The type assertions of the readers.
abbrev pub as_pre_filter : Option StateData → Option Resource
as_pre_filter (some (pre_filter_state r)) = some r
as_pre_filter _ = none

abbrev pub as_filter : Option StateData → Option FilterState
as_filter (some (filter_state f)) = some f
as_filter _ = none

abbrev pub as_pre_score : Option StateData → Option (List ℕ)
as_pre_score (some (pre_score_state p)) = some p
as_pre_score _ = none

module _ (cycle : CycleState) where
  -- `getPreFilterState`, `getPreScoreState`, `getFilterState`; `none` is an error.
  unfoldable pub get_pre_filter_state : cycle.State → Option Resource
  get_pre_filter_state s = as_pre_filter (cycle.read pre_filter_state_key s)

  unfoldable pub get_pre_score_state : cycle.State → Option (List ℕ)
  get_pre_score_state s = as_pre_score (cycle.read pre_score_state_key s)

  unfoldable pub get_filter_state : cycle.State → String → Option FilterState
  get_filter_state s node_name = as_filter (cycle.read (filter_state_key <> node_name) s)

  -- The write at the end of `fitsRequest`.
  unfoldable pub record_state : Option FilterState → cycle.State → Outcome cycle.State
  record_state none s = ok s
  record_state (some f) s = cycle.write (filter_state_key <> f.node_name) (filter_state f) s
