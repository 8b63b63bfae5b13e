-- ===== src/Reporter.antt =====
-- The GPU reporter (reconfig/kubecomp-mig/internal/reporter/gpu_reporter.go), which labels the pods of a
-- node with their GPUs and the node with its largest free slice.
pub mod Retries
pub mod Remaining
pub mod Devices
pub mod Unknown
pub mod Labels
mod Samples
use kube_comp_mig.Prelude.{
  ℕ, zero, suc, ◌+◌, ◌-◌, ◌<◌, String, Bool, true, false, not, ◌&&◌, ◌||◌, Option, none, some, List,
  [], ◌∷◌, ltb, ◌==◌, ◌*◌, length, str_eq, if◌then◌else◌,
}
use kube_comp_mig.Prelude.Maps.{Map, string_eq, or_default, lookup, insert}
use kube_comp_mig.Prelude.Text.{codes, is_digit}
use kube_comp_mig.Reconfig.Config.{MigConfig, MigConfigs}
use kube_comp_mig.Prelude.Outcomes.{Outcome, ok, err, panic, running}

-- `maxRetries`
abbrev pub max_retries : ℕ
max_retries = 5

-- The loop of `getGPUIDs`, with fuel for its rounds: `try n` is what `getGPUIDsHelper` returns when it
-- is called for the n-th time, from 0.
pub retry_loop : ℕ → (ℕ → Outcome String) → ℕ → ℕ → Outcome String → Outcome String
retry_loop fuel try n retry_count (ok ids) = ok ids
retry_loop fuel try n retry_count panic = panic
retry_loop fuel try n retry_count running = running
retry_loop zero try n retry_count (err e) = if ltb retry_count max_retries then running else err e
retry_loop (suc fuel) try n retry_count (err e) =
    let again = retry_loop fuel try (n + 1) (retry_count + 1) (try (n + 1)) in
    if ltb retry_count max_retries then again else err e

-- `getGPUIDs`
unfoldable pub get_gpu_ids : ℕ → (ℕ → Outcome String) → Outcome String
unfolding retry_loop
get_gpu_ids fuel try = retry_loop fuel try 0 0 (try 0)

-- Whether a profile has a count, and it is not below the requested one.
pub enough : ℕ → Option ℕ → Bool
enough wanted none = false
enough wanted (some have) = not (ltb have wanted)

-- The loop of `getMaxMigRemain` over the requests: the profile after it, and whether it ran to its end.
-- The map that the caller gives is changed.
pub subtract : Map String ℕ → Map String ℕ → Map String ℕ × Bool
unfolding enough
subtract [] profile = (profile, true)
subtract ((mig, wanted) ∷ rest) profile =
    let later = subtract rest (insert mig (or_default 0 (lookup mig profile) - wanted) profile) in
    if enough wanted (lookup mig profile) then later else (profile, false)

-- `profileCnt > 0`
pub free_slices : Map String ℕ → List String
free_slices [] = []
free_slices ((mig, have) ∷ rest) =
    let later = free_slices rest in if ltb 0 have then mig ∷ later else later

-- The order of `sort.Strings`.
pub before : List ℕ → List ℕ → Bool
before [] [] = false
before [] (d ∷ ds) = true
before (c ∷ cs) [] = false
before (c ∷ cs) (d ∷ ds) = ltb c d || ((c == d) && before cs ds)

pub greatest_from : String → List String → String
unfolding before
greatest_from best [] = best
greatest_from best (s ∷ ss) = greatest_from (if before (codes best) (codes s) then s else best) ss

-- The last one of the sorted list, which is the greatest.
pub last_sorted : List String → String
unfolding greatest_from
last_sorted [] = ""
last_sorted (s ∷ ss) = greatest_from s ss

pub get_max_mig_remain : Map String ℕ → Map String ℕ → String × Map String ℕ
unfolding subtract free_slices last_sorted
get_max_mig_remain profile requests =
    let s = subtract requests profile in (if s.1 then last_sorted (free_slices s.0) else "", s.0)

-- `strconv.Atoi(string(large[0]))`, 0 where that is no digit
pub first_digit : List ℕ → ℕ
first_digit [] = 0
first_digit (c ∷ cs) = if is_digit c then c - 48 else 0

pub is_larger : String → String → Bool
unfolding first_digit
is_larger large small =
    if str_eq large ""
    then false
    else if str_eq small ""
    then true
    else ltb (first_digit (codes small)) (first_digit (codes large))

-- `for migType, cnt := range deviceConfig.MigDevices { profileResource[migType] = … }`
pub set_slices : ℕ → Map String ℕ → Map String ℕ → Map String ℕ
set_slices devices [] profile = profile
set_slices devices ((mig, cnt) ∷ rest) profile =
    set_slices devices rest (insert mig (cnt * devices) profile)

pub better : String → String → String
unfolding is_larger
better new max = if is_larger new max then new else max

-- The loop over the entries of one profile, with `profileResource` and `maxMigRemain`.
pub profile_loop : Map String ℕ → List MigConfig → Map String ℕ → String → String
unfolding get_max_mig_remain set_slices better
profile_loop requests [] profile max = max
profile_loop requests (m ∷ ms) profile max =
    let r = get_max_mig_remain (set_slices (length m.devices) m.mig_devices profile) requests in
    if m.mig_enabled
    then profile_loop requests ms r.1 (better r.0 max)
    else profile_loop requests ms profile max

-- The label that `updateNodeMaxMigLabel` computes.
pub max_mig_label : MigConfigs → Map String ℕ → String → String
unfolding profile_loop
max_mig_label [] requests max = max
max_mig_label ((name, ms) ∷ rest) requests max =
    max_mig_label rest requests (profile_loop requests ms [] max)
