-- ===== src/Promsupp.antt =====
-- The Prometheus support service (Promsupp/main.go): for every Knative service it keeps a Kubernetes service
-- that selects the latest revision, and a service monitor. The state is the list of the writes so far, the
-- latest first; the answers of the API may depend on them.
use kube_comp_mig.Prelude.{String, Bool, true, false, ◌||◌, List, [], ◌∷◌, str_eq, if◌then◌else◌}
use Prim.Native.String.{◌++◌ as ◌<>◌}
use kube_comp_mig.Prelude.Maps.{Map, string_eq, or_default, lookup}
use kube_comp_mig.Prelude.Text.{codes, contains}

abbrev pub ignore_list : List String
ignore_list = "dispatcher" ∷ "promsupp" ∷ []

-- A Knative service, as far as it is read.
pub record KnativeService : Type 0 where
  pub name : String
  pub uid : String
  pub latest_ready_revision_name : String

-- The Kubernetes service and the service monitor, with the parts that depend on the Knative service.
pub record PromService : Type 0 where
  pub name : String
  pub namespace : String
  pub owner : String × String
  pub labels : Map String String
  pub selector : Map String String

pub record ServiceMonitor : Type 0 where
  pub name : String
  pub namespace : String
  pub owner : String × String
  pub match_labels : Map String String

pub data Write : Type 0 where
  create_service update_service : PromService → Write
  create_monitor : ServiceMonitor → Write

-- The answer to a read: the object, that it is not there, or another error.
pub data Answer (A : Type 0) : Type 0 where
  found : A → Answer A
  not_found failed : Answer A

-- A write is recorded whether it is accepted or not: its error is only logged.
pub record Api : Type 0 where
  pub service : String → List Write → Answer (Map String String)
  pub monitor : String → List Write → Answer Unit

unfoldable pub is_ignored : List String → String → Bool
is_ignored [] name = false
is_ignored (item ∷ items) name = contains (codes name) (codes item) || is_ignored items name

-- `operateService`
unfoldable pub operate_service : KnativeService → Bool → List Write → List Write
operate_service svc create h =
    let service : PromService = record {
      name = svc.name <> "-promservice";
      namespace = "default";
      owner = (svc.name, svc.uid);
      labels = ("app", svc.name) ∷ [];
      selector = ("app", svc.latest_ready_revision_name) ∷ [];
    } in
    if create then create_service service ∷ h else update_service service ∷ h

unfoldable pub create_service_monitor : KnativeService → List Write → List Write
create_service_monitor svc h =
    create_monitor (record {
      name = svc.name <> "-servicemonitor";
      namespace = "default";
      owner = (svc.name, svc.uid);
      match_labels = ("app", svc.name) ∷ [];
    })
    ∷ h

unfoldable pub check_service : KnativeService → Answer (Map String String) → List Write → List Write
unfolding operate_service
check_service svc (found selector) h =
    if str_eq (or_default "" (lookup "app" selector)) svc.latest_ready_revision_name
    then h
    else operate_service svc false h
check_service svc not_found h = operate_service svc true h
check_service svc failed h = h

unfoldable pub check_monitor : KnativeService → Answer Unit → List Write → List Write
unfolding create_service_monitor
check_monitor svc (found _) h = h
check_monitor svc not_found h = create_service_monitor svc h
check_monitor svc failed h = h

-- One service of the list.
unfoldable pub check_one : Api → KnativeService → List Write → List Write
unfolding is_ignored check_service check_monitor
check_one api svc h =
    let after = check_service svc (api.service (svc.name <> "-promservice") h) h in
    if is_ignored ignore_list svc.name
    then h
    else check_monitor svc (api.monitor (svc.name <> "-servicemonitor") after) after

-- One round of `Run`; a failed listing ends the process.
unfoldable pub check_all : Api → List KnativeService → List Write → List Write
unfolding check_one
check_all api [] h = h
check_all api (svc ∷ rest) h = check_all api rest (check_one api svc h)
