-- ===== src/Dispatcher/Worker/Singles.antt =====
-- The groups that the worker sends.
use kube_comp_mig.Prelude.{◌≡◌, refl, sym, ap, ◌∙◌, true, List, [], ◌∷◌, ◌++◌, map, str_eq, eq_iff}
use mathlib.Core.List.{append_assoc, append-nil}
use kube_comp_mig.Prelude.Maps.{string_eq, lookup, insert, remove}
use kube_comp_mig.Dispatcher.{Request}
use kube_comp_mig.Dispatcher.Worker.{
  Grouping, work, worker, get_or_create_request_group, add_request_to_group,
}

with_sent : List (List Request) → Grouping
with_sent sent = record { model_groups = []; sent = sent }

-- With no forming group, a request is a whole group.
work-single :
    (r : Request) (sent : List (List Request))
    → work r (with_sent sent) ≡ with_sent (sent ++ (r ∷ []) ∷ [])
unfolding work get_or_create_request_group add_request_to_group lookup insert remove with_sent
work-single r sent =
    let same : str_eq r.model r.model ≡ true = (eq_iff r.model r.model).1 refl in rw (same) refl

worker-with_sent :
    (rs : List Request) (sent : List (List Request))
    → worker rs (with_sent sent) ≡ with_sent (sent ++ map (λ r. r ∷ []) rs)
unfolding worker
worker-with_sent [] sent = ap with_sent (sym (append-nil sent))
worker-with_sent (r ∷ rs) sent =
    ap (worker rs) (work-single r sent)
    ∙ worker-with_sent rs (sent ++ (r ∷ []) ∷ [])
    ∙ ap with_sent (append_assoc sent ((r ∷ []) ∷ []) (map (λ r. r ∷ []) rs))

-- The worker, started with no forming group, sends every request as a group of its own, in the order in
-- which the requests arrive, and no group is forming afterwards.
pub worker-singles :
    (rs : List Request)
    → worker rs (record { model_groups = []; sent = [] })
      ≡ record { model_groups = []; sent = map (λ r. r ∷ []) rs }
unfolding with_sent
worker-singles rs = worker-with_sent rs []
