-- ===== src/Dispatcher/Worker.antt =====
-- The worker that groups requests by their model (Dispatcher/main.go, Dispatcher/request.go). It is the
-- only goroutine that reads the map of groups, so the lock is not modelled; the groups that it sends are a
-- list.
pub mod Singles
use kube_comp_mig.Prelude.{
  ℕ, String, Bool, true, false, Option, none, some, List, [], ◌∷◌, ◌++◌, length, leb, if◌then◌else◌,
}
use kube_comp_mig.Prelude.Maps.{Map, string_eq, lookup, insert, remove}
use kube_comp_mig.Dispatcher.{Request}

abbrev pub max_requests_per_group : ℕ
max_requests_per_group = 1

-- The map of forming groups, and the groups that were sent to `processChannel`.
pub record Grouping : Type 0 where
  pub model_groups : Map String (List Request)
  pub sent : List (List Request)

-- `getOrCreateRequestGroup`
abbrev pub or_new : Option (List Request) → List Request
or_new none = []
or_new (some group) = group

unfoldable pub get_or_create_request_group : String → Map String (List Request) → List Request
get_or_create_request_group model groups = or_new (lookup model groups)

unfoldable pub add_request_to_group : List Request → Request → List Request
add_request_to_group group req = group ++ req ∷ []

-- One round of the worker.
unfoldable pub work : Request → Grouping → Grouping
unfolding get_or_create_request_group add_request_to_group
work req s =
    let group = add_request_to_group (get_or_create_request_group req.model s.model_groups) req in
    let groups = insert req.model group s.model_groups in
    if leb max_requests_per_group (length group)
    then record { model_groups = remove req.model groups; sent = s.sent ++ group ∷ [] }
    else record { model_groups = groups; sent = s.sent }

-- `for req := range requestChannel`
unfoldable pub worker : List Request → Grouping → Grouping
unfolding work
worker [] s = s
worker (r ∷ rs) s = worker rs (work r s)
