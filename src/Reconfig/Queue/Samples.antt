-- ===== src/Reconfig/Queue/Samples.antt =====
-- Two pods of one deployment.
use kube_comp_mig.Prelude.{String, true, ◌≡◌, ◌↔◌, refl, List, [], ◌∷◌}
use kube_comp_mig.Prelude.Maps.{lookup, insert, remove}
use kube_comp_mig.Prelude.Outcomes.{ok}
use kube_comp_mig.Reconfig.Queue.{
  is_empty, add, first, get_first_val, without_first, delete_first_val,
}
use kube_comp_mig.Reconfig.Queue.Promise.{
  Op, adding, deleting_first, steps, spec_steps, spec_first, no_queues,
}
use kube_comp_mig.Reconfig.Queue.Refinement.{queues_refine}

abbrev two_pods : List Op
two_pods = adding "hash" "node-1" ∷ adding "hash" "node-2" ∷ deleting_first "hash" ∷ []

second_node : get_first_val "hash" (steps two_pods []) ≡ ok "node-2"
unfolding get_first_val first add delete_first_val without_first lookup insert remove
second_node = refl

queues_refine_example :
    ((k : String)
      → get_first_val k (steps two_pods []) ≡ spec_first (spec_steps two_pods no_queues k))
    × ((is_empty (steps two_pods []) ≡ true)
        ↔ ((k : String) → spec_steps two_pods no_queues k ≡ []))
queues_refine_example = queues_refine two_pods
