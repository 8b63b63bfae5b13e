-- ===== src/Autoscaler/Configuration.antt =====
-- The configuration of the Autoscaler and a round of its loop: `parseConfig` and `main` of
-- Autoscaler/autoscaler.go. The environment gives "" where a variable is not set; `time.ParseDuration` is
-- an argument, and a duration is a number of seconds.
use kube_comp_mig.Prelude.{ℕ, String, Option, none, some, List, [], ◌∷◌, str_eq, if◌then◌else◌}
use Prim.Native.String.{◌++◌ as ◌<>◌}
use kube_comp_mig.Prelude.Maps.{Map, or_default}
use kube_comp_mig.Prelude.Text.{split_on}
use kube_comp_mig.Autoscaler.Process.{should_process_service}

abbrev pub default_scrape_interval : ℕ
default_scrape_interval = 10

-- `Config`
pub record Config : Type 0 where
  pub scrape_interval : ℕ
  pub namespace : String
  pub ignore_list : List String
  pub cfg_map_name : String

abbrev pub or_text : String → String → String
or_text text default = if str_eq text "" then default else text

unfoldable pub parse_config : (String → Option ℕ) → (String → String) → Config
parse_config parse_duration env =
    let interval = env "METRICS_SCRAPE_INTERVAL" in
    let ignored = env "IGNORE_LIST" in
    record {
      scrape_interval =
          if str_eq interval ""
          then default_scrape_interval
          else or_default default_scrape_interval (parse_duration (interval <> "s"));
      namespace = or_text (env "NAMESPACE") "default";
      ignore_list = if str_eq ignored "" then [] else split_on 44 ignored;
      cfg_map_name = or_text (env "CONFIG_MAP_NAME") "autoscaler-config";
    }

-- The services that one round of the loop gives to `ProcessService`, in their order: a service is a name
-- and its labels. An error of the listing ends the round, an error of a service does not.
unfoldable pub processed_services :
    List String → Option (List (String × Map String String)) → List String
processed_services ignore_list none = []
processed_services ignore_list (some services) = chosen services
  where
    chosen : List (String × Map String String) → List String
    chosen [] = []
    chosen ((name, labels) ∷ rest) =
        let later = chosen rest in
        if should_process_service ignore_list name labels then name ∷ later else later
