-- ===== src/Autoscaler/Knative.antt =====
-- The Knative client (Autoscaler/knativeHelper.go): its calls, and what the cluster answers. The answers
-- are parameters: functions of the calls made so far, so a service may change between two calls in any
-- way. `none` is an error.
pub mod Waiting
pub mod Quiet
use kube_comp_mig.Prelude.{
  ℕ, zero, suc, ◌+◌, ◌-◌, ◌≤◌, String, Bool, Option, none, some, List, [], ◌∷◌, ◌++◌, ltb, not,
  str_eq, if◌then◌else◌,
}
use kube_comp_mig.Prelude.Maps.{Map}
use kube_comp_mig.Prelude.Outcomes.{Outcome, ok, err, panic, running}
use kube_comp_mig.Prelude.Calls.{Act, ask, or_error, and_then, ◌>>=◌}
use kube_comp_mig.Autoscaler.Traffic.{TrafficTarget}
use kube_comp_mig.Autoscaler.Scaler.{Quantities, ResourceRequirements}

-- `kv1.Service`, with the parts that the program reads or writes: the resources of the template's
-- containers, its labels and its creation time in nanoseconds. A nil map is `none`.
pub record Service ⦃qt : Quantities⦄ : Type 0 where
  pub name : String
  pub annotations : Option (Map String String)
  pub containers : List ResourceRequirements
  pub template_labels : Option (Map String String)
  pub template_created : ℕ
  pub traffic : List TrafficTarget
  pub latest_ready : String

-- What the program asks of the cluster, and the two events of `WaitService` that take time.
pub data Call ⦃qt : Quantities⦄ : Type 0 where
  get_service : String → Call
  update_service : Service → Call
  list_revisions : String → Call
  delete_revision : String → Call
  new_ticker : Call
  tick : Call

-- The answers of the cluster, its clock in nanoseconds, and how Go prints a time.
pub record Cluster ⦃qt : Quantities⦄ : Type 0 where
  pub service : List Call → String → Option Service
  pub accepts : List Call → Service → Bool
  pub revisions : List Call → String → Option (List String)
  pub now : List Call → ℕ
  pub rfc3339 : ℕ → String

-- `time.Second`
abbrev pub second : ℕ
second = 1000000000

module _ ⦃qt : Quantities⦄ (c : Cluster) where
  -- `GetService`
  abbrev pub fetch_service : String → String → Act Call Service
  fetch_service message name = ask (get_service name) message (λ h. c.service h name)

  -- `UpdateService`
  abbrev pub send_service : String → Service → Act Call (Unit {0})
  send_service message s h = ((if c.accepts h s then ok tt else err message), update_service s ∷ h)

  -- `ListRevisions` with the label of the service
  abbrev pub fetch_revisions : String → String → Act Call (List String)
  fetch_revisions message name = ask (list_revisions name) message (λ h. c.revisions h name)

  -- `DeleteRevision`, whose result the program drops
  abbrev pub drop_revision : String → Act Call (Unit {0})
  drop_revision name h = (ok tt, delete_revision name ∷ h)

  -- What a poll of `WaitService` has found.
  pub poll : Service → ℕ → ℕ → Option Service → ℕ → Option (Outcome (Unit {0}))
  poll old timeout start none now = some (err "get service")
  poll old timeout start (some s) now =
      if not (str_eq s.latest_ready old.latest_ready)
      then some (ok tt)
      else if ltb timeout (now - start)
      then some (err "timeout waiting for service")
      else none

  pub or_again : Option (Outcome (Unit {0})) → Act Call (Unit {0}) → Act Call (Unit {0})
  or_again (some o) again h = (o, h)
  or_again none again h = again h

  -- The loop of `WaitService`, with fuel for its rounds; `start` is `timeStart`. Times are in nanoseconds.
  pub wait_loop : ℕ → Service → ℕ → ℕ → Act Call (Unit {0})
  unfolding poll or_again
  wait_loop zero old timeout start h = (running, h)
  wait_loop (suc fuel) old timeout start h =
      let asked = get_service old.name ∷ tick ∷ h in
      let again = wait_loop fuel old timeout start in
      or_again (poll old timeout start (c.service (tick ∷ h) old.name) (c.now asked)) again asked

  -- `WaitService`: the ticker is made before the clock is read.
  unfoldable pub wait_service : ℕ → Service → ℕ → Act Call (Unit {0})
  unfolding wait_loop
  wait_service fuel old timeout h =
      wait_loop fuel old timeout (c.now (new_ticker ∷ h)) (new_ticker ∷ h)
