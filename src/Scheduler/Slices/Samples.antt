-- ===== src/Scheduler/Slices/Samples.antt =====
-- The name of a slice of an A100.
use kube_comp_mig.Prelude.{◌≡◌, refl, arith}
use kube_comp_mig.Prelude.Integers.{pos}
use kube_comp_mig.Prelude.Outcomes.{ok, panic}
use kube_comp_mig.Scheduler.Slices.{extract_cpu_and_memory, extract_codes}
use kube_comp_mig.Scheduler.Slices.Printed.{slice_name, extract-slice_name}

extract-slice_name_example : extract_cpu_and_memory (slice_name 3 20) ≡ ok (pos 3, pos 20)
extract-slice_name_example = extract-slice_name 3 20 (omega arith) (omega arith)

no_name : extract_cpu_and_memory "" ≡ panic
unfolding extract_cpu_and_memory extract_codes
no_name = refl
