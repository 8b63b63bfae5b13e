-- ===== src/Scheduler/Slices.antt =====
-- The names of MIG slices as the plugin reads them: `extractCPUAndMemory` of
-- noderesourcesfit/pkg/plugins/noderesources/fit.go.
pub mod Printed
mod Samples
use kube_comp_mig.Prelude.{ℕ, ◌-◌, String, List, [], ◌∷◌, length, take, drop, ltb, if◌then◌else◌}
use kube_comp_mig.Prelude.Integers.{ℤ}
use kube_comp_mig.Prelude.Outcomes.{Outcome, ok, err, panic, ◌>>=◌}
use kube_comp_mig.Prelude.Parsing.{Parsed, value, syntax, range, parse_int}
use kube_comp_mig.Prelude.Text.{codes}

-- The value of `strconv.ParseInt` or its error.
abbrev pub checked : Parsed → Outcome ℤ
checked (value z) = ok z
checked syntax = err "invalid syntax"
checked (range z) = err "value out of range"

-- `rName[3 : len(rName)-2]`, which panics where the text is shorter than five.
unfoldable pub middle : List ℕ → Outcome (List ℕ)
middle s = if ltb (length s) 5 then panic else ok (take (length s - 5) (drop 3 s))

unfoldable pub extract_codes : List ℕ → Outcome (ℤ × ℤ)
unfolding middle
extract_codes [] = panic
extract_codes (c ∷ s) = checked (parse_int (c ∷ [])) >>= λ cpu.
    middle (c ∷ s) >>= λ digits. checked (parse_int digits) >>= λ memory. ok (cpu, memory)

-- `extractCPUAndMemory`
unfoldable pub extract_cpu_and_memory : String → Outcome (ℤ × ℤ)
unfolding extract_codes
extract_cpu_and_memory name = extract_codes (codes name)
