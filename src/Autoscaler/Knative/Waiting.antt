-- ===== src/Autoscaler/Knative/Waiting.antt =====
-- `WaitService` ends: by a new revision, an error or the timeout.
use kube_comp_mig.Prelude.{
  ℕ, zero, suc, ◌+◌, ◌*◌, ◌≤◌, ◌<◌, ◌≡◌, ◌≢◌, refl, ap, Option, none, some, List, [], ◌∷◌, ◌++◌,
  arith,
}
use kube_comp_mig.Prelude.Calls.{Act}
use kube_comp_mig.Prelude.Outcomes.{Outcome, running}
use kube_comp_mig.Autoscaler.Scaler.{Quantities}
use kube_comp_mig.Autoscaler.Knative.{
  Service, Call, get_service, new_ticker, tick, Cluster, second, poll, or_again, wait_loop,
  wait_service,
}

module _ ⦃qt : Quantities⦄ where
  -- How many ticks the program has waited for.
  abbrev pub ticks : List Call → ℕ
  ticks [] = 0
  ticks (tick ∷ h) = suc (ticks h)
  ticks (Call.get_service n ∷ h) = ticks h
  ticks (Call.update_service s ∷ h) = ticks h
  ticks (Call.list_revisions n ∷ h) = ticks h
  ticks (Call.delete_revision n ∷ h) = ticks h
  ticks (new_ticker ∷ h) = ticks h

  -- The n-th tick of a ticker of one second comes n seconds after the ticker was made, or later, and
  -- less than a second passes before the clock is read.
  abbrev pub TicksTakeTime : Cluster → Type 0
  TicksTakeTime c =
      (h later : List Call)
      → c.now (new_ticker ∷ h) + ticks later * second ≤ c.now (later ++ new_ticker ∷ h) + second

  module _ (c : Cluster) (timed : TicksTakeTime c) where
    poll-running :
        (old : Service) (timeout start now : ℕ) (o : Option Service)
        → poll c old timeout start o now ≢ some running
    unfolding poll
    poll-running old timeout start now none = λ h. cc
    poll-running old timeout start now (some s) = λ h. ground arith

    poll-late :
        (old : Service) (timeout start now : ℕ) (o : Option Service)
        → start + timeout < now
        → poll c old timeout start o now ≢ none
    unfolding poll
    poll-late old timeout start now none late = λ h. cc
    poll-late old timeout start now (some s) late = λ h. ground arith

    or_again-ends :
        (o : Option (Outcome (Unit {0}))) (again : Act Call (Unit {0})) (h : List Call)
        → o ≢ some running
        → (o ≡ none → (again h).0 ≢ running)
        → (or_again c o again h).0 ≢ running
    unfolding or_again
    or_again-ends none again h f g = g refl
    or_again-ends (some o) again h f g = λ e. f (ap some e)

    -- A poll that finds nothing comes before the timeout, so there is fuel left.
    quiet_poll :
        (fuel : ℕ) (old : Service) (timeout start now waited : ℕ) (o : Option Service)
        → timeout + 3 * second ≤ (fuel + waited) * second
        → start + waited * second ≤ now + second
        → poll c old timeout start o now ≡ none
        → 0 < fuel
    quiet_poll zero old timeout start now waited o enough time quiet =
        absurd (poll-late old timeout start now o (omega arith) quiet)
    quiet_poll (suc fuel) old timeout start now waited o enough time quiet = omega arith

    wait_loop-ends :
        (fuel : ℕ) (old : Service) (timeout : ℕ) (h later : List Call)
        → timeout + 3 * second ≤ (fuel + ticks later) * second
        → 0 < fuel
        → (wait_loop c fuel old timeout (c.now (new_ticker ∷ h)) (later ++ new_ticker ∷ h)).0
          ≢ running
    unfolding wait_loop
    wait_loop-ends zero old timeout h later enough pos = absurd (omega arith)
    wait_loop-ends (suc fuel) old timeout h later enough pos =
        let start = c.now (new_ticker ∷ h) in
        let before = later ++ new_ticker ∷ h in
        let asked = get_service old.name ∷ tick ∷ before in
        let answer = c.service (tick ∷ before) old.name in
        or_again-ends (poll c old timeout start answer (c.now asked))
          (wait_loop c fuel old timeout start) asked
          (poll-running old timeout start (c.now asked) answer)
          (λ quiet.
            wait_loop-ends fuel old timeout h (get_service old.name ∷ tick ∷ later)
              (omega (arith, enough))
              (quiet_poll fuel old timeout start (c.now asked) (suc (ticks later)) answer
                (omega (arith, enough)) (timed h (get_service old.name ∷ tick ∷ later)) quiet))

  -- When ticks come no faster than one a second, `WaitService` returns within as many rounds as its
  -- timeout has seconds and three more.
  pub wait_service-ends :
      (c : Cluster) (fuel : ℕ) (old : Service) (timeout : ℕ) (h : List Call)
      → TicksTakeTime c
      → timeout + 3 * second ≤ fuel * second
      → (wait_service c fuel old timeout h).0 ≢ running
  unfolding wait_service
  wait_service-ends c fuel old timeout h timed enough =
      wait_loop-ends c timed fuel old timeout h [] (omega arith) (omega arith)
