-- ===== src/Nvml.antt =====
-- The NVML client (reconfig/kubecomp-mig/pkg/gpu/client.go). The library that visits the devices is an
-- interface; the answers of a device are values.
use kube_comp_mig.Prelude.{
  ℕ, ◌≡◌, String, Bool, Option, none, some, List, [], ◌∷◌, str_eq, if◌then◌else◌,
}
use kube_comp_mig.Prelude.Calls.{or_error}
use kube_comp_mig.Prelude.Maps.{Map, string_eq, insert}
use kube_comp_mig.Prelude.Outcomes.{Outcome, ok, err, ◌>>=◌, for_range}
use kube_comp_mig.Prelude.Text.{split_on}

-- What a MIG device answers; the name and the UUID are those that come with an error, too.
pub record MigDevice : Type 0 where
  pub gpu_index : ℕ
  pub name : String
  pub uuid : String
  pub uuid_success : Bool

-- A GPU and its MIG devices; `none` is an error.
pub record Gpu : Type 0 where
  pub index : ℕ
  pub mig_devices : Option (List MigDevice)

-- A visit that has called its function for every device ends well or with an error of its own.
abbrev pub ended : {A : Type 0} → Option String → A → Outcome A
ended none a = ok a
ended (some e) a = err e

-- The library: a visit calls its function for the devices in their order, until one call or the library
-- itself fails; the devices are those that it reaches.
pub record NvLib : Type 1 where
  pub init : Option String
  pub mig_devices : List MigDevice
  pub gpus : List Gpu
  pub mig_failure : Option String
  pub gpu_failure : Option String
  pub visit_mig_devices : {S : Type 0} → (MigDevice → S → Outcome S) → S → Outcome S
  pub visit_devices : {S : Type 0} → (Gpu → S → Outcome S) → S → Outcome S
  pub visit_mig_devices-order :
      {S : Type 0} (f : MigDevice → S → Outcome S) (s : S)
      → visit_mig_devices f s ≡ (for_range (λ _. f) 0 mig_devices s >>= ended mig_failure)
  pub visit_devices-order :
      {S : Type 0} (f : Gpu → S → Outcome S) (s : S)
      → visit_devices f s ≡ (for_range (λ _. f) 0 gpus s >>= ended gpu_failure)

pub record MigInfo : Type 0 where
  pub device_id : String
  pub gpu_id : ℕ
  pub profile : String

-- `if err := c.init(); err != nil`
abbrev pub after_init : {A : Type 0} → Option String → Outcome A → Outcome A
after_init none rest = rest
after_init (some e) rest = err e

unfoldable pub index_step : String → MigDevice → Option ℕ → Outcome (Option ℕ)
index_step id m (some result) = ok (some result)
index_step id m none =
    if m.uuid_success
    then (if str_eq m.uuid id then ok (some m.gpu_index) else ok none)
    else err "error getting UUID of MIG device"

-- `GetMigDeviceGpuIndex`
unfoldable pub get_mig_device_gpu_index : NvLib → String → Outcome ℕ
unfolding index_step
get_mig_device_gpu_index lib id = after_init lib.init (
    lib.visit_mig_devices (index_step id) none >>= λ found.
    or_error "GPU index of MIG device not found" found)

unfoldable pub last_of : List String → String
last_of [] = ""
last_of (s ∷ []) = s
last_of (s ∷ t ∷ rest) = last_of (t ∷ rest)

unfoldable pub extract_profile : String → String
unfolding last_of
extract_profile name = last_of (split_on 32 name)

unfoldable pub type_step : String → MigDevice → Option String → Outcome (Option String)
unfolding extract_profile
type_step id m (some found) = ok (some found)
type_step id m none = if str_eq m.uuid id then ok (some (extract_profile m.name)) else ok none

-- `GetMigDeviceType`
unfoldable pub get_mig_device_type : NvLib → String → Outcome String
unfolding type_step
get_mig_device_type lib id = after_init lib.init (
    lib.visit_mig_devices (type_step id) none >>= λ found. or_error "failed to find mig type" found)

unfoldable pub note_migs : ℕ → List MigDevice → Map String MigInfo → Map String MigInfo
unfolding extract_profile
note_migs i [] infos = infos
note_migs i (m ∷ ms) infos = note_migs i ms (
    insert m.uuid (record { device_id = m.uuid; gpu_id = i; profile = extract_profile m.name })
      infos)

abbrev pub note_gpu : Gpu → Map String MigInfo → Outcome (Map String MigInfo)
note_gpu g infos = ok (noted g.mig_devices)
  where
    noted : Option (List MigDevice) → Map String MigInfo
    noted none = infos
    noted (some ms) = note_migs g.index ms infos

-- `GetAllMigs`, without the partial map that Go returns beside an error
unfoldable pub get_all_migs : NvLib → Outcome (Map String MigInfo)
unfolding note_migs
get_all_migs lib = after_init lib.init (lib.visit_devices note_gpu [])
