-- ===== src/Scheduler/Demand/Asked.antt =====
-- The slices that a pod requests by the names of its scalar resources, with their sizes and numbers.
use kube_comp_mig.Prelude.{
  ℕ, Bool, true, false, ◌||◌, String, Option, none, some, List, [], ◌∷◌, get_elem?, str_eq, ◌==◌,
  if◌then◌else◌,
}
use kube_comp_mig.Prelude.Integers.{ℤ, pos, add_int64}
use kube_comp_mig.Prelude.Maps.{Map, string_eq, or_default, lookup, insert}
use kube_comp_mig.Prelude.Outcomes.{Outcome, ok}
use kube_comp_mig.Prelude.Text.{split_on, slice_to, slice_from}
use kube_comp_mig.Scheduler.Slices.{extract_cpu_and_memory}
use kube_comp_mig.Scheduler.Demand.{Ignored, skips}

abbrev pub got {ℓ} : {A : Type ℓ} → Outcome A → Option A
got (ok a) = some a
got _ = none

-- What follows "mig-" in the rest of a name that begins with "mig".
abbrev pub after_mig : Option String → Option String → Option String
after_mig none slice = none
after_mig (some head) slice = if str_eq head "mig" then slice else none

abbrev pub slice_in : Option String → Option String
slice_in none = none
slice_in (some part) = after_mig (got (slice_to 3 part)) (got (slice_from 4 part))

-- The slice that an entry requests: none with the quantity 0, with a resource that the profile leaves
-- out, and with another name.
abbrev pub slice_of : Ignored → String × ℕ → Option String
slice_of ignored (name, quantity) =
    if (quantity == 0) || skips ignored name (split_on 47 name)
    then none
    else slice_in (get_elem? (split_on 47 name) 1)

abbrev pub onto : Option String → List String → List String
onto none slices = slices
onto (some slice) slices = slice ∷ slices

-- The slices that a pod requests, each resource giving one however many of it are requested.
abbrev pub asked : Ignored → Map String ℕ → List String
asked ignored [] = []
asked ignored (e ∷ rest) = onto (slice_of ignored e) (asked ignored rest)

abbrev pub plus_sizes : ℤ × ℤ → Outcome (ℤ × ℤ) → ℤ × ℤ
plus_sizes (cpu, memory) (ok (c, m)) = (add_int64 cpu c, add_int64 memory m)
plus_sizes sizes _ = sizes

-- The compute slices and the memory of slices, as `int64` sums from given ones; a name that cannot be read
-- adds nothing.
abbrev pub sizes_from : ℤ × ℤ → List String → ℤ × ℤ
sizes_from sizes [] = sizes
sizes_from sizes (slice ∷ slices) =
    sizes_from (plus_sizes sizes (extract_cpu_and_memory slice)) slices

abbrev pub with_slice : ℤ × ℤ → Option String → ℤ × ℤ
with_slice sizes none = sizes
with_slice sizes (some slice) = plus_sizes sizes (extract_cpu_and_memory slice)

abbrev pub is_slice : Option String → Bool
is_slice none = false
is_slice (some slice) = true

-- A quantity of a slice, noted in the map of the requests.
abbrev pub noted : Option String → ℕ → Map String ℤ → Map String ℤ
noted none quantity m = m
noted (some slice) quantity m =
    insert slice (add_int64 (or_default (pos 0) (lookup slice m)) (pos quantity)) m

abbrev pub noted_all : Ignored → Map String ℕ → Map String ℤ → Map String ℤ
noted_all ignored [] m = m
noted_all ignored (e ∷ rest) m = noted_all ignored rest (noted (slice_of ignored e) e.1 m)
