-- ===== src/Scheduler/Samples.antt =====
-- A node with two GPUs, and pods that request slices of them.
use kube_comp_mig.Prelude.{
  ℕ, ◌<◌, ◌+◌, Bool, ◌*◌, ◌/◌, ◌≡◌, refl, sym, ap, ◌∙◌, ◌↔◌, ◌≢◌, inl, true, false, String, Option,
  none, some, [], ◌∷◌, arith, All, str_eq, if◌then◌else◌,
}
use kube_comp_mig.Prelude.Integers.{ℤ, pos, minus, gtb, ◌+ℤ◌, wrap_int64, add_int64}
use kube_comp_mig.Prelude.Maps.{Map, string_eq, lookup, insert, lookup-insert}
use kube_comp_mig.Prelude.Outcomes.{Outcome, ok, panic, ok_injective, for_range}
use kube_comp_mig.Prelude.Parsing.{
  parse_int, digits_from, some_digits, non_negative, negative, itoa, itoa_loop, digit,
}
use kube_comp_mig.Prelude.Text.{split_on, onto_first, slice_from, slice_to}
use kube_comp_mig.Scheduler.Slices.{extract_cpu_and_memory, extract_codes, middle}
use kube_comp_mig.Scheduler.Demand.{
  Resource, NodeInfo, Ignored, Demand, has, exceeds, too_many_pods, basic, basics, skips,
  add_slice_capacity, add_slice, compare_scalar, ask_scalar, scalar_step, scalar_loop,
}
use kube_comp_mig.Scheduler.Demand.Quantities.{gpu_requested, quantities_ignored}
use kube_comp_mig.Scheduler.Demand.Numbers.{number_asked, number_noted, scalar_loop-number}
use kube_comp_mig.Scheduler.Gpus.{has_match, gpu_step, gpu_loop}
use kube_comp_mig.Scheduler.Gpus.Found.{Round}
use kube_comp_mig.Scheduler.Gpus.Takes.{Takes}
use kube_comp_mig.Scheduler.Demand.Asked.{asked, sizes_from}
use kube_comp_mig.Scheduler.Fit.{Verdict, check_gpus, requests_nothing, first_demand, fits_request}
use kube_comp_mig.Scheduler.Fit.Room.{Room, fits_request-Room}
use kube_comp_mig.Scheduler.Fit.Faults.{unlabelled_gpu_panics, missing_slash_never_fits}
use kube_comp_mig.Scheduler.Cycle.{
  CycleState, StateData, filter_state, pre_filter_state, pre_filter_state_key, get_pre_filter_state,
  record_state,
}
use kube_comp_mig.Scheduler.Phases.{
  Pod, success, queue, filter, filter_with, is_schedulable_after_node_change,
}
use kube_comp_mig.Scheduler.Phases.Hints.{hint-ne-ok}
use kube_comp_mig.Scheduler.Permit.{Api, labels, permit}
use kube_comp_mig.Scheduler.Permit.Placed.{LetThrough, KindFree, filter-permit}
use kube_comp_mig.Scheduler.Score.{FloatScale, normalize_score, max_node_score}
use kube_comp_mig.Scheduler.Score.Bounds.{InRange, normalize_score-InRange}

abbrev with_scalars : Map String ℕ → Resource
with_scalars scalars = record {
  milli_cpu = 500;
  memory = 0;
  ephemeral_storage = 0;
  allowed_pod_number = 0;
  scalar_resources = scalars;
}

abbrev two_gpus : Map String String
two_gpus =
    ("gpu-count", "2")
    ∷ ("kubecomp/status-gpu-0-max-mig", "1g.5gb")
    ∷ ("kubecomp/status-gpu-1-max-mig", "3g.20gb")
    ∷ ("kubecomp/status-gpu-1-2g.10gb-free", "1")
    ∷ []

abbrev node_with : Map String String → NodeInfo
node_with node_labels = record {
  name = "node1";
  labels = node_labels;
  pods = 3;
  allocatable = record {
    milli_cpu = 4000;
    memory = 0;
    ephemeral_storage = 0;
    allowed_pod_number = 10;
    scalar_resources = [];
  };
  requested = record {
    milli_cpu = 3500;
    memory = 0;
    ephemeral_storage = 0;
    allowed_pod_number = 0;
    scalar_resources = [];
  };
}

abbrev none_ignored : Ignored
none_ignored = record { is_extended_resource_name = λ _. true; resources = []; groups = [] }

abbrev one_slice : Resource
one_slice = with_scalars (("nvidia.com/mig-2g.10gb", 1) ∷ [])

abbrev slice_demand : Demand
slice_demand = record {
  insufficient = [];
  use_mig = true;
  cpu = pos 2;
  memory = pos 10;
  slices = ("2g.10gb", pos 1) ∷ [];
}

one_slice_demand :
    (node_labels : Map String String)
    → scalar_loop none_ignored
        (node_with node_labels)
        one_slice.scalar_resources
        (first_demand one_slice (node_with node_labels))
      ≡ ok slice_demand
unfolding scalar_loop scalar_step skips has ask_scalar add_slice add_slice_capacity compare_scalar
    exceeds too_many_pods basics basic for_range split_on onto_first slice_from slice_to insert
    lookup extract_cpu_and_memory extract_codes middle parse_int digits_from some_digits
    non_negative negative add_int64 wrap_int64 ◌+ℤ◌ minus gtb
one_slice_demand node_labels = refl

abbrev at_once : Verdict
at_once = record {
  insufficient = [];
  written = some (record { node_name = "node1"; to_reconfig = false });
}

two_gpus_verdict : fits_request none_ignored one_slice (node_with two_gpus) ≡ ok at_once
unfolding fits_request requests_nothing check_gpus gpu_step gpu_loop has_match itoa itoa_loop digit
    lookup extract_cpu_and_memory extract_codes middle parse_int digits_from some_digits
    non_negative negative gtb
two_gpus_verdict = rw (one_slice_demand two_gpus) refl

fits_request-Room_example :
    (at_once.insufficient ≡ []) ↔ Room none_ignored one_slice (node_with two_gpus)
fits_request-Room_example =
    fits_request-Room none_ignored one_slice (node_with two_gpus) at_once two_gpus_verdict

quantities_ignored_example :
    gpu_requested (
      scalar_loop none_ignored
        (node_with [])
        (("nvidia.com/mig-2g.10gb", 1) ∷ [])
        (first_demand one_slice (node_with [])))
    ≡ gpu_requested (
        scalar_loop none_ignored
          (node_with [])
          (("nvidia.com/mig-2g.10gb", 7) ∷ [])
          (first_demand one_slice (node_with [])))
quantities_ignored_example =
    quantities_ignored none_ignored (node_with []) (("nvidia.com/mig-2g.10gb", 1) ∷ [])
      (("nvidia.com/mig-2g.10gb", 7) ∷ []) (first_demand one_slice (node_with []))
      (refl, omega arith, omega arith, tt)

-- Two resources of other vendors name the same slice.
abbrev two_vendors : Map String ℕ
two_vendors = ("nvidia.com/mig-2g.10gb", 2) ∷ ("example.com/mig-2g.10gb", 3) ∷ []

abbrev five_slices : Demand
five_slices = record {
  insufficient = [];
  use_mig = true;
  cpu = pos 4;
  memory = pos 20;
  slices = ("2g.10gb", pos 5) ∷ [];
}

five_slices_demand :
    scalar_loop none_ignored (node_with []) two_vendors (first_demand one_slice (node_with []))
    ≡ ok five_slices
unfolding scalar_loop scalar_step skips has ask_scalar add_slice add_slice_capacity compare_scalar
    exceeds too_many_pods basics basic for_range split_on onto_first slice_from slice_to insert
    lookup extract_cpu_and_memory extract_codes middle parse_int digits_from some_digits
    non_negative negative add_int64 wrap_int64 ◌+ℤ◌ minus gtb
five_slices_demand = refl

scalar_loop-number_example :
    number_noted "2g.10gb" five_slices.slices
    ≡ pos (number_asked none_ignored "2g.10gb" two_vendors)
unfolding lookup skips has split_on onto_first slice_from slice_to
scalar_loop-number_example =
    scalar_loop-number none_ignored (node_with []) two_vendors
      (first_demand one_slice (node_with [])) five_slices "2g.10gb" five_slices_demand refl
      (omega arith)

-- The reporter's label for the largest slice has another name.
abbrev reported : Map String String
reported = ("gpu-count", "1") ∷ ("kubecomp.com/max-mig", "3g.20gb") ∷ []

unlabelled_gpu_panics_example : fits_request none_ignored one_slice (node_with reported) ≡ panic
unfolding lookup parse_int digits_from some_digits non_negative negative itoa itoa_loop digit
unlabelled_gpu_panics_example =
    unlabelled_gpu_panics none_ignored one_slice (node_with reported) slice_demand
      (one_slice_demand reported) refl refl (omega arith) refl

abbrev huge_pages : Resource
huge_pages = with_scalars (("hugepages-2Mi", 1) ∷ [])

not_extended : Ignored
not_extended = record { is_extended_resource_name = λ _. false; resources = []; groups = [] }

missing_slash_never_fits_example :
    fits_request not_extended huge_pages (node_with two_gpus)
    ≢ ok (record { insufficient = []; written = none })
unfolding not_extended skips
missing_slash_never_fits_example =
    missing_slash_never_fits not_extended huge_pages (node_with two_gpus)
      (record { insufficient = []; written = none })
      (inl (
        omega arith,
        refl,
        (
          refl,
          (
            refl,
            (
              refl,
              (refl, (refl, (refl, (refl, (refl, (refl, (refl, (refl, (refl, (refl, tt)))))))))),
            ),
          ),
        ),
      ))

-- A cycle state as a map, or a nil pointer.
abbrev write :
    String → StateData → Option (Map String StateData) → Outcome (Option (Map String StateData))
write key state none = panic
write key state (some m) = ok (some (insert key state m))

abbrev read : String → Option (Map String StateData) → Option StateData
read key none = none
read key (some m) = lookup key m

read_write :
    (k j : String) (v : StateData) (s t : Option (Map String StateData))
    → write k v s ≡ ok t
    → read j t ≡ (if str_eq k j then some v else read j s)
read_write k j v none t h = absurd (ne h)
  where
    ne : panic ≡ ok t → ⊥
    ne h = cc
read_write k j v (some m) t h =
    ap (read j) (sym (ok_injective (some (insert k v m)) t h)) ∙ lookup-insert k j v m

abbrev map_state : CycleState
map_state = record {
  State = Option (Map String StateData);
  nil_state = none;
  read = read;
  write = write;
  read-write = read_write;
  write-nil = λ k v. refl;
}

abbrev some_pod : Pod
some_pod = record {
  uid = "1";
  name = "model";
  namespace = "default";
  node_name = "";
  labels = ("preprocess", "done") ∷ [];
  init_containers = [];
}

hint-ne-ok_example :
    is_schedulable_after_node_change map_state
      (λ _. one_slice)
      (λ _. true)
      some_pod
      (some (some (node_with two_gpus)))
    ≢ ok queue
unfolding lookup parse_int digits_from some_digits non_negative negative
hint-ne-ok_example =
    hint-ne-ok map_state (λ _. one_slice) (λ _. true) some_pod (node_with two_gpus) slice_demand
      queue (one_slice_demand two_gpus, refl, refl)

abbrev api : Api
api = record { get_node = some (labels two_gpus); accepts_update = λ _. true; accepts_patch = true }

abbrev before_filter : Option (Map String StateData)
before_filter = some ((pre_filter_state_key, pre_filter_state one_slice) ∷ [])

abbrev after_filter : Option (Map String StateData)
after_filter = some (
    (pre_filter_state_key, pre_filter_state one_slice)
    ∷ (
      "FilterMyNoderesourcesfitnode1",
      filter_state (record { node_name = "node1"; to_reconfig = false }),
    )
    ∷ [])

filtered :
    filter map_state none_ignored (node_with two_gpus) before_filter ≡ ok (success [], after_filter)
unfolding filter filter_with record_state get_pre_filter_state lookup insert
filtered = rw (two_gpus_verdict) refl

one_small :
    (slice : String)
    → number_asked none_ignored slice one_slice.scalar_resources < 9223372036854775808
unfolding lookup skips has split_on onto_first slice_from slice_to
one_small slice = small (str_eq "2g.10gb" slice)
  where
    small : (b : Bool) → (if b then 1 else 0) + 0 < 9223372036854775808
    small true = omega arith
    small false = omega arith

filter-permit_example :
    LetThrough (permit map_state api some_pod "node1" after_filter)
    ↔ Round 0 2 (λ k.
      Takes two_gpus (sizes_from (pos 0, pos 0) (asked none_ignored one_slice.scalar_resources)) k
      × KindFree two_gpus none_ignored one_slice.scalar_resources k)
unfolding lookup get_pre_filter_state parse_int digits_from some_digits non_negative negative
filter-permit_example =
    filter-permit map_state api some_pod none_ignored one_slice (node_with two_gpus) slice_demand
      before_filter (success []) after_filter refl (one_slice_demand two_gpus, refl, refl) one_small
      filtered (inl refl)

abbrev scale : ℤ → ℤ → ℤ
scale (pos a) (pos b) = pos (max_node_score * a / b)
scale _ _ = pos 0

abbrev exact : FloatScale
exact = record { scale = scale; scale-exact = λ a b h k l. refl }

normalize_score-InRange_example :
    All
      (λ p. InRange p.1)
      (normalize_score exact (("node1", pos 150) ∷ ("node2", pos 30) ∷ ("node3", pos 90) ∷ []))
normalize_score-InRange_example =
    normalize_score-InRange exact (("node1", pos 150) ∷ ("node2", pos 30) ∷ ("node3", pos 90) ∷ [])
      ((150, refl, omega arith), ((30, refl, omega arith), ((90, refl, omega arith), tt)))
