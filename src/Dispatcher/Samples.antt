-- ===== src/Dispatcher/Samples.antt =====
-- Two nodes, of which the first has no small slice.
use kube_comp_mig.Prelude.{ℕ, ◌≡◌, refl, subst, ap, ◌∙◌, String, some, true, List, [], ◌∷◌, Member}
use kube_comp_mig.Prelude.Maps.{Map, string_eq, lookup}
use kube_comp_mig.Prelude.Text.{split_on, onto_first}
use kube_comp_mig.Nvml.{last_of}
use kube_comp_mig.Dispatcher.{Request, mig_config_list, smallest_slice}
use kube_comp_mig.Dispatcher.Requests.{parse_request, with_model_id, to_lower, lower_in, keep_valid}
use kube_comp_mig.Dispatcher.Worker.{worker}
use kube_comp_mig.Dispatcher.Worker.Singles.{worker-singles}
use kube_comp_mig.Dispatcher.Assigner.{
  Call, list_services, create_service, get_service, forward, start_waiting, Cluster,
  sequential_processor,
}
use kube_comp_mig.Dispatcher.Assigner.Once.{created, Distinct, ListsCreated, created-Distinct}
use kube_comp_mig.Dispatcher.Smallest.{total, FirstWith, smallest_slice-FirstWith}

abbrev two_nodes : List (Map String ℕ)
two_nodes =
    (("nvidia.com/mig-1g.5gb", 0) ∷ ("nvidia.com/mig-3g.20gb", 2) ∷ [])
    ∷ (("nvidia.com/mig-2g.10gb", 1) ∷ [])
    ∷ []

smallest_slice-FirstWith_example :
    FirstWith (λ n. total n two_nodes) mig_config_list (smallest_slice two_nodes)
smallest_slice-FirstWith_example = smallest_slice-FirstWith two_nodes

abbrev asks_for : String → Request
asks_for name = record { model = name; env = []; label = [] }

worker-singles_example :
    worker
      (asks_for "gpt2" ∷ asks_for "opt" ∷ asks_for "gpt2" ∷ [])
      (record { model_groups = []; sent = [] })
    ≡ record {
      model_groups = [];
      sent = (asks_for "gpt2" ∷ []) ∷ (asks_for "opt" ∷ []) ∷ (asks_for "gpt2" ∷ []) ∷ [];
    }
worker-singles_example = worker-singles (asks_for "gpt2" ∷ asks_for "opt" ∷ asks_for "gpt2" ∷ [])

parsed :
    (parse_request
      (some (record { model = ""; env = ("MODEL_ID", "openai/GPT-2") ∷ []; label = [] }))).model
    ≡ "gpt2"
unfolding parse_request with_model_id to_lower lower_in keep_valid lookup split_on onto_first
    last_of
parsed = refl

-- A cluster that accepts every service, and lists what was created.
abbrev names_of : List Call → List String
names_of [] = []
names_of (create_service s ∷ h) = s.name ∷ names_of h
names_of (list_services ∷ h) = names_of h
names_of (get_service n ∷ h) = names_of h
names_of (forward n r ∷ h) = names_of h
names_of (start_waiting n g ∷ h) = names_of h

abbrev open_cluster : Cluster
open_cluster = record {
  services = λ h. some (names_of h);
  accepts = λ s h. true;
  ready = λ n h. some true;
}

created-names_of : (h : List Call) → created open_cluster h ≡ names_of h
created-names_of [] = refl
created-names_of (create_service s ∷ h) = ap (λ t. s.name ∷ t) (created-names_of h)
created-names_of (list_services ∷ h) = created-names_of h
created-names_of (get_service n ∷ h) = created-names_of h
created-names_of (forward n r ∷ h) = created-names_of h
created-names_of (start_waiting n g ∷ h) = created-names_of h

open_cluster-ListsCreated : ListsCreated open_cluster
open_cluster-ListsCreated h names e n m = subst (Member n) (created-names_of h ∙ some_injective e) m
  where
    some_injective : {a b : List String} → some a ≡ some b → a ≡ b
    some_injective h = cc

created-Distinct_example : Distinct (
    created open_cluster
      (sequential_processor open_cluster two_nodes
        ((asks_for "gpt2" ∷ []) ∷ (asks_for "gpt2" ∷ []) ∷ [])
        []).1)
created-Distinct_example =
    created-Distinct open_cluster two_nodes ((asks_for "gpt2" ∷ []) ∷ (asks_for "gpt2" ∷ []) ∷ [])
      [] open_cluster-ListsCreated tt
