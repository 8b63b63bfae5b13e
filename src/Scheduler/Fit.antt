-- ===== src/Scheduler/Fit.antt =====
-- `fitsRequest` of noderesourcesfit/pkg/plugins/noderesources/fit.go: whether a node has what a pod
-- requests.
pub mod GpuRoom
pub mod Room
pub mod Faults
use kube_comp_mig.Prelude.{
  ℕ, zero, suc, ◌+◌, String, Bool, true, false, not, ◌&&◌, ◌||◌, Option, none, some, List, [], ◌∷◌,
  ◌++◌, length, get_elem?, str_eq, ltb, ◌==◌, if◌then◌else◌,
}
use Prim.Native.String.{◌++◌ as ◌<>◌}
use kube_comp_mig.Prelude.Integers.{ℤ, pos, negsuc, minus, gtb, geb, add_int64}
use kube_comp_mig.Prelude.Maps.{Map, string_eq, or_default, lookup, insert}
use kube_comp_mig.Prelude.Outcomes.{Outcome, ok, err, panic, running, ◌>>=◌, for_range}
use kube_comp_mig.Prelude.Parsing.{parse_int, number_of, itoa}
use kube_comp_mig.Prelude.Text.{codes, split_on, slice_from, slice_to}
use kube_comp_mig.Scheduler.Slices.{extract_cpu_and_memory}
use kube_comp_mig.Scheduler.Demand.{
  Resource, NodeInfo, InsufficientResource, Ignored, Demand, is_nil, too_many_pods, basics,
  scalar_loop,
}
use kube_comp_mig.Scheduler.Gpus.{Use, is_some, gpu_step, gpu_loop, rounds}

abbrev pub gpu_count_label : String
gpu_count_label = "gpu-count"

pub record FilterState : Type 0 where
  pub node_name : String
  pub to_reconfig : Bool

-- What a call of `fitsRequest` comes to: its list, and the state that it writes for the node.
pub record Verdict : Type 0 where
  pub insufficient : List InsufficientResource
  pub written : Option FilterState

abbrev pub lacking : String → String → InsufficientResource
lacking name reason = record {
  resource_name = name;
  reason = reason;
  requested = 0;
  used = 0;
  capacity = 0;
}

-- `totalGPU`, 0 where the node has no such label
abbrev pub total_gpu : Map String String → ℤ
total_gpu labels = number_of (parse_int (codes (or_default "" (lookup gpu_count_label labels))))

abbrev pub is_zero : ℤ → Bool
is_zero (pos n) = n == 0
is_zero (negsuc n) = false

-- The node has no label with a number of GPUs, or the number is 0.
abbrev pub no_gpus : NodeInfo → Bool
no_gpus node = not (is_some (lookup gpu_count_label node.labels)) || is_zero (total_gpu node.labels)

abbrev pub without_gpus : NodeInfo → Demand → Verdict
without_gpus node d = record {
  insufficient =
      d.insufficient
      ++ lacking "gpu" ("Node " <> (node.name <> " doesn't have mig resources")) ∷ [];
  written = none;
}

abbrev pub with_gpus : NodeInfo → Demand → Bool × Bool → Verdict
with_gpus node d (sufficient, to_reconfig) = record {
  insufficient =
      d.insufficient ++ (if sufficient then [] else lacking "mig" "Insufficient mig" ∷ []);
  written = some (record { node_name = node.name; to_reconfig = to_reconfig });
}

-- The end of `fitsRequest`, for a pod that requests slices.
unfoldable pub check_gpus : NodeInfo → Demand → Outcome Verdict
unfolding gpu_step gpu_loop
check_gpus node d =
    if no_gpus node
    then ok (without_gpus node d)
    else (gpu_loop (gpu_step node.labels d) (rounds (total_gpu node.labels)) 0 false >>= λ r.
        ok (with_gpus node d r))

unfoldable pub requests_nothing : Resource → Bool
requests_nothing request =
    (request.milli_cpu == 0)
    && (request.memory == 0)
    && (request.ephemeral_storage == 0)
    && is_nil request.scalar_resources

abbrev pub first_demand : Resource → NodeInfo → Demand
first_demand request node = record {
  insufficient = too_many_pods node ++ basics request node;
  use_mig = false;
  cpu = pos 0;
  memory = pos 0;
  slices = [];
}

abbrev pub conclude : NodeInfo → Demand → Outcome Verdict
conclude node d =
    if d.use_mig
    then check_gpus node d
    else ok (record { insufficient = d.insufficient; written = none })

-- `fitsRequest`
unfoldable pub fits_request : Ignored → Resource → NodeInfo → Outcome Verdict
unfolding scalar_loop check_gpus requests_nothing too_many_pods basics
fits_request ignored request node =
    if requests_nothing request
    then ok (record { insufficient = too_many_pods node; written = none })
    else (scalar_loop ignored node request.scalar_resources (first_demand request node)
        >>= conclude node)
