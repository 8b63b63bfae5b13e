-- ===== src/Dispatcher/Assigner.antt =====
-- The assigner (Dispatcher/assigner.go), which creates the service of a group or forwards its requests,
-- and the loop over the groups (Dispatcher/main.go). The state is the list of the calls made so far, the
-- latest first; a `log.Fatal` is an `err`.
pub mod Once
use kube_comp_mig.Prelude.{
  ℕ, zero, suc, String, Bool, true, false, ◌&&◌, ◌||◌, Option, none, some, List, [], ◌∷◌, ◌++◌,
  str_eq, if◌then◌else◌,
}
use Prim.Native.String.{◌++◌ as ◌<>◌}
use kube_comp_mig.Prelude.Calls.{Act, ◌>>=◌, pure, stop}
use kube_comp_mig.Prelude.Maps.{Map, string_eq, or_default, lookup, insert}
use kube_comp_mig.Prelude.Outcomes.{Outcome, ok, err, panic, running}
use kube_comp_mig.Prelude.Parsing.{itoa}
use kube_comp_mig.Dispatcher.{Request, ServiceSpec, decide_service}

-- The Knative service that is created, with the parts that depend on the specification. Its requests and
-- limits are the same.
pub record Service : Type 0 where
  pub name : String
  pub resources : Map String String
  pub image : String
  pub command : List String
  pub env : Map String String
  pub labels : Map String String

pub data Call : Type 0 where
  list_services : Call
  create_service : Service → Call
  get_service : String → Call
  forward : String → Request → Call
  start_waiting : String → List Request → Call

-- The answers of Knative: `none` is an error, a service is ready or not.
pub record Cluster : Type 0 where
  pub services : List Call → Option (List String)
  pub accepts : Service → List Call → Bool
  pub ready : String → List Call → Option Bool

-- `ImageMap`
abbrev pub image_map : Map String (Map String String)
image_map =
    ("test", ("image", "ghcr.io/deeeelin/knative-service:latest") ∷ ("command", "") ∷ [])
    ∷ (
      "tgi",
      ("image", "ghcr.io/huggingface/text-generation-inference:2.2.0") ∷ ("command", "") ∷ [],
    )
    ∷ []

unfoldable pub add_slices : Map String ℕ → Map String String → Map String String
add_slices [] resources = resources
add_slices ((slice, quantity) ∷ rest) resources =
    add_slices rest (insert slice (itoa quantity) resources)

unfoldable pub service_of : ServiceSpec → Service
unfolding add_slices
service_of spec =
    let selected : Map String String =
      or_default [] (lookup (if str_eq spec.model "test" then "test" else "tgi") image_map) in
    let command : String = or_default "" (lookup "command" selected) in
    record {
      name = spec.name;
      resources =
          add_slices spec.gpu_slices
            (("cpu", itoa spec.cpu <> "m") ∷ ("memory", itoa spec.memory <> "Mi") ∷ []);
      image = or_default "" (lookup "image" selected);
      command = if str_eq command "" then [] else command ∷ [];
      env = spec.env;
      labels = spec.label;
    }

unfoldable pub lists : String → List String → Bool
lists name [] = false
lists name (s ∷ ss) = str_eq s name || lists name ss

-- `CurrentService`
unfoldable pub current_service : String → List Request → Act Call Unit
current_service name [] h = (ok tt, h)
current_service name (r ∷ rs) h = current_service name rs (forward name r ∷ h)

-- What is done with the answer of one round.
unfoldable pub answered : String → List Request → Option Bool → Act Call Unit → Act Call Unit
unfolding current_service
answered name group none later = stop (err "Error getting Knative service")
answered name group (some true) later = current_service name group
answered name group (some false) later = later

module _ (c : Cluster) where
  -- `CreateNewService`; the goroutine that waits for the service is started.
  unfoldable pub create_new_service : ServiceSpec → List Request → Act Call Unit
  unfolding service_of
  create_new_service spec group h =
      let created = create_service (service_of spec) ∷ h in
      if c.accepts (service_of spec) h
      then (ok tt, start_waiting spec.name group ∷ created)
      else (err "Error creating Knative service", created)

  unfoldable pub with_services : ServiceSpec → List Request → Option (List String) → Act Call Unit
  unfolding create_new_service current_service lists
  with_services spec group none = stop (err "Error listing Knative services")
  with_services spec group (some names) =
      if lists spec.name names
      then current_service spec.name group
      else create_new_service spec group

  -- `AssignService`
  unfoldable pub assign_service : ServiceSpec → List Request → Act Call Unit
  unfolding with_services
  assign_service spec group h = with_services spec group (c.services h) (list_services ∷ h)

  -- `waitForServiceReadyAndForward`, with fuel for its rounds
  unfoldable pub wait_and_forward : ℕ → String → List Request → Act Call Unit
  unfolding answered
  wait_and_forward zero name group h = (running, h)
  wait_and_forward (suc fuel) name group h =
      answered name group (c.ready name h) (wait_and_forward fuel name group) (get_service name ∷ h)

  unfoldable pub with_spec : Outcome ServiceSpec → List Request → Act Call Unit
  unfolding assign_service
  with_spec (ok spec) group = assign_service spec group
  with_spec (err e) group = stop (err e)
  with_spec panic group = stop panic
  with_spec running group = stop running

  -- `sequentialProcessor`, for the groups of the channel
  unfoldable pub sequential_processor : List (Map String ℕ) → List (List Request) → Act Call Unit
  unfolding with_spec
  sequential_processor nodes [] = pure tt
  sequential_processor nodes (g ∷ gs) =
      let rest = sequential_processor nodes gs in with_spec (decide_service nodes g) g >>= λ _. rest
