-- ===== src/Reconfig/Config.antt =====
-- The MIG configurations (reconfig/kubecomp-mig/internal/controllers/util.go, and `getConfig` and
-- `getReconfigGPU` of node_controller.go). The counts of a configuration are not negative, and their
-- sums fit an int64.
pub mod Changes
use kube_comp_mig.Prelude.{
  ℕ, zero, suc, ◌+◌, ◌*◌, String, Bool, true, false, not, ◌||◌, List, [], ◌∷◌, length, ◌==◌, str_eq,
  if◌then◌else◌,
}
use kube_comp_mig.Prelude.Maps.{Map, nat_eq, string_eq, or_default, lookup, insert}

pub record MigConfig : Type 0 where
  pub devices : List ℕ
  pub mig_enabled : Bool
  pub mig_devices : Map String ℕ

-- `MigConfigYaml.MigConfigs`, in the order of one `range`.
abbrev pub MigConfigs : Type 0
MigConfigs = Map String (List MigConfig)

-- What `getConfig` returns: the slices of every GPU.
abbrev pub Layout : Type 0
Layout = Map ℕ (Map String ℕ)

-- `for _, d := range deviceConfig.Devices { config[d] = deviceConfig.MigDevices }`
unfoldable pub set_devices : Map String ℕ → List ℕ → Layout → Layout
set_devices slices [] config = config
set_devices slices (d ∷ ds) config = set_devices slices ds (insert d slices config)

unfoldable pub set_configs : List MigConfig → Layout → Layout
unfolding set_devices
set_configs [] config = config
set_configs (m ∷ ms) config = set_configs ms (set_devices m.mig_devices m.devices config)

-- The loop of `getConfig` over all profiles.
unfoldable pub find_config : String → MigConfigs → Layout → Layout
unfolding set_configs
find_config name [] config = config
find_config name ((profile, ms) ∷ rest) config =
    find_config name rest (if str_eq profile name then set_configs ms config else config)

unfoldable pub get_config : MigConfigs → String → Layout
unfolding find_config
get_config configs name = find_config name configs []

-- Whether `val != oldMigConfig[id][key]` for one key of the new configuration; a missing key reads 0.
unfoldable pub differs : Map String ℕ → Map String ℕ → Bool
differs old [] = false
differs old ((key, val) ∷ rest) = not (val == or_default 0 (lookup key old)) || differs old rest

unfoldable pub changed : Layout → Layout → List ℕ
unfolding differs
changed old [] = []
changed old ((id, config) ∷ rest) =
    let later = changed old rest in
    if differs (or_default [] (lookup id old)) config then id ∷ later else later

unfoldable pub get_reconfig_gpu : MigConfigs → String → String → List ℕ
unfolding get_config changed
get_reconfig_gpu configs old new = changed (get_config configs old) (get_config configs new)
