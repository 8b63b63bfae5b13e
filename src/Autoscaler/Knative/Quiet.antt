-- ===== src/Autoscaler/Knative/Quiet.antt =====
-- Actions on the cluster that delete no revision.
use kube_comp_mig.Prelude.{ℕ, zero, suc, String, ◌≡◌, refl, ◌∙◌, Option, none, some, List, [], ◌∷◌}
use kube_comp_mig.Prelude.Outcomes.{Outcome, ok, err, panic, running}
use kube_comp_mig.Prelude.Calls.{Act, and_then, ◌>>=◌}
use kube_comp_mig.Autoscaler.Scaler.{Quantities}
use kube_comp_mig.Autoscaler.Knative.{
  Service, Call, get_service, update_service, list_revisions, delete_revision, new_ticker, tick,
  Cluster, poll, or_again, wait_loop, wait_service,
}

module _ ⦃qt : Quantities⦄ where
  -- The names of the deleted revisions, the latest first.
  abbrev pub deletions : List Call → List String
  deletions [] = []
  deletions (delete_revision n ∷ h) = n ∷ deletions h
  deletions (get_service n ∷ h) = deletions h
  deletions (update_service s ∷ h) = deletions h
  deletions (list_revisions n ∷ h) = deletions h
  deletions (new_ticker ∷ h) = deletions h
  deletions (tick ∷ h) = deletions h

  -- An action that deletes nothing.
  abbrev pub Quiet : {A : Type 0} → Act Call A → Type 0
  Quiet m = (h : List Call) → deletions (m h).1 ≡ deletions h

  pub and_then-Quiet :
      {A B : Type 0} (o : Outcome A) (f : A → Act Call B)
      → ((a : A) → Quiet (f a))
      → Quiet (and_then o f)
  and_then-Quiet (ok a) f q h = q a h
  and_then-Quiet (err e) f q h = refl
  and_then-Quiet panic f q h = refl
  and_then-Quiet running f q h = refl

  pub bind-Quiet :
      {A B : Type 0} (m : Act Call A) (f : A → Act Call B)
      → Quiet m
      → ((a : A) → Quiet (f a))
      → Quiet (m >>= f)
  bind-Quiet m f p q h = and_then-Quiet (m h).0 f q (m h).1 ∙ p h

  module _ (c : Cluster) where
    or_again-Quiet :
        (o : Option (Outcome (Unit {0}))) (again : Act Call (Unit {0}))
        → Quiet again
        → Quiet (or_again c o again)
    unfolding or_again
    or_again-Quiet none again q h = q h
    or_again-Quiet (some o) again q h = refl

    wait_loop-Quiet :
        (fuel : ℕ) (old : Service) (timeout start : ℕ) → Quiet (wait_loop c fuel old timeout start)
    unfolding wait_loop
    wait_loop-Quiet zero old timeout start h = refl
    wait_loop-Quiet (suc fuel) old timeout start h =
        let asked = get_service old.name ∷ tick ∷ h in
        or_again-Quiet (poll c old timeout start (c.service (tick ∷ h) old.name) (c.now asked))
          (wait_loop c fuel old timeout start) (wait_loop-Quiet fuel old timeout start) asked

    pub wait_service-Quiet : (fuel : ℕ) (old : Service) (t : ℕ) → Quiet (wait_service c fuel old t)
    unfolding wait_service
    wait_service-Quiet fuel old t h = wait_loop-Quiet fuel old t _ (new_ticker ∷ h)
