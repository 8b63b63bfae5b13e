-- ===== src/Scheduler/Gpus.antt =====
-- The loop of `fitsRequest` of noderesourcesfit/pkg/plugins/noderesources/fit.go over the GPUs of a node.
pub mod Found
pub mod Takes
use kube_comp_mig.Prelude.{
  ℕ, zero, suc, ◌+◌, String, Bool, true, false, not, ◌&&◌, ◌||◌, Option, none, some, List, [], ◌∷◌,
  ◌++◌, length, get_elem?, str_eq, ltb, ◌==◌, if◌then◌else◌,
}
use Prim.Native.String.{◌++◌ as ◌<>◌}
use kube_comp_mig.Prelude.Integers.{ℤ, pos, negsuc, minus, gtb, geb, add_int64}
use kube_comp_mig.Prelude.Maps.{Map, string_eq, or_default, lookup, insert}
use kube_comp_mig.Prelude.Outcomes.{Outcome, ok, err, panic, running, ◌>>=◌, for_range}
use kube_comp_mig.Prelude.Parsing.{parse_int, number_of, itoa}
use kube_comp_mig.Prelude.Text.{codes, split_on, slice_from, slice_to}
use kube_comp_mig.Scheduler.Slices.{extract_cpu_and_memory}
use kube_comp_mig.Scheduler.Demand.{Demand}

abbrev pub device_prefix : String
device_prefix = "kubecomp/status-gpu-"

abbrev pub max_label_suffix : String
max_label_suffix = "-max-mig"

-- `resourceCount >= num` for one of the requests
unfoldable pub has_match : Map String String → String → Map String ℤ → Bool
has_match labels gpu_id [] = false
has_match labels gpu_id ((request, num) ∷ rest) =
    let free = or_default "" (lookup (gpu_id <> ("-" <> (request <> "-free"))) labels) in
    geb (number_of (parse_int (codes free))) num || has_match labels gpu_id rest

abbrev pub is_some {ℓ} : {A : Type ℓ} → Option A → Bool
is_some none = false
is_some (some a) = true

-- What one GPU can do for the pod: nothing, after a change of its slices, or at once.
pub data Use : Type 0 where
  passed changed direct : Use

abbrev pub use_of : Map String String → Demand → String → Bool → ℤ × ℤ → Use
use_of labels d gpu_id exist (cpu, memory) =
    if exist && geb cpu d.cpu && geb memory d.memory
    then if has_match labels gpu_id d.slices then direct else changed
    else passed

abbrev pub or_passed : Outcome Use → Outcome Use
or_passed (ok u) = ok u
or_passed (err e) = ok passed
or_passed panic = panic
or_passed running = running

abbrev pub gpu_id : ℕ → String
gpu_id i = device_prefix <> itoa i

-- One round of the loop over the GPUs.
unfoldable pub gpu_step : Map String String → Demand → ℕ → Outcome Use
unfolding has_match
gpu_step labels d i =
    let max_slice = lookup (gpu_id i <> max_label_suffix) labels in
    or_passed (
      extract_cpu_and_memory (or_default "" max_slice) >>= λ remain.
      ok (use_of labels d (gpu_id i) (is_some max_slice) remain))

-- `for i := range totalGPU`, from `i` on with the rest of the rounds: `sufficientGPU` and `toReconfig`.
unfoldable pub gpu_loop : (ℕ → Outcome Use) → ℕ → ℕ → Bool → Outcome (Bool × Bool)
gpu_loop step zero i sufficient = ok (sufficient, true)
gpu_loop step (suc n) i sufficient =
    let later = gpu_loop step n (i + 1) in
    step i >>= λ u. elim u [
      | passed ↦ later sufficient
      | changed ↦ later true
      | direct ↦ ok (true, false)
    ]

-- `int64` as the bound of a `range`: no round where it is negative
abbrev pub rounds : ℤ → ℕ
rounds (pos n) = n
rounds (negsuc n) = 0
