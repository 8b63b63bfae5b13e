-- ===== src/Reconfig/Preprocess/Blocking.antt =====
-- A pod that the handler puts back blocks the loop for ever.
use kube_comp_mig.Prelude.{String, true, false, ◌≡◌, refl, sym, ap, ◌∙◌, some, List, [], ◌∷◌, ◌++◌}
use mathlib.Core.List.{append_assoc}
use kube_comp_mig.Prelude.Maps.{Map, string_eq, lookup}
use kube_comp_mig.Prelude.Outcomes.{err}
use kube_comp_mig.Reconfig.Queue.{KeyToQueue, is_empty, get_first_val}
use kube_comp_mig.Reconfig.Selector.{Pod}
use kube_comp_mig.Reconfig.Preprocess.{
  Api, put_back, use_node, with_hash, with_pod, preprocess_handler,
}
use kube_comp_mig.Reconfig.Preprocess.Channel.{
  receiving, sending, System, after_handler, handle, Step, arrive, note, meet, Steps, done, next,
}

-- The worker waits to send, nothing is written any more, and no waiting sender goes on.
abbrev pub Blocked : Pod → System → System → Type 0
Blocked pod s t =
    (t.worker ≡ sending pod)
    × (t.writes ≡ s.writes)
    × ((more : List Pod) × (t.senders ≡ more ++ s.senders))

still_sending : (pod : Pod) (s t : System) → Step s t → s.worker ≡ sending pod → Blocked pod s t
still_sending pod s _ (arrive _ p) w = (w, refl, (p ∷ [], refl))
still_sending pod s _ (note _ hash node) w = (w, refl, ([], refl))
still_sending pod s _ (meet api _ before p after r e) w = absurd (apart (sym w ∙ r))
  where
    apart : sending pod ≡ receiving → ⊥
    apart h = cc

ever_sending : (pod : Pod) (s t : System) → Steps s t → s.worker ≡ sending pod → Blocked pod s t
ever_sending pod s _ (done _) w = (w, refl, ([], refl))
ever_sending pod s _ (next _ t u first rest) w =
    let (w', writes, (more, senders)) = still_sending pod s t first w in
    let (w'', writes', (more', senders')) = ever_sending pod t u rest w' in
    (
      w'',
      writes' ∙ writes,
      (
        more' ++ more,
        senders' ∙ ap (λ xs. more' ++ xs) senders ∙ sym (append_assoc more' more s.senders),
      ),
    )

put_back-sends : (api : Api) (q : KeyToQueue) → (put_back api q).sends ≡ true
unfolding put_back
put_back-sends api q = refl

-- No node waits for the pod's deployment, but one waits for another deployment.
handler-put_back :
    (api : Api) (pod : Pod) (q : KeyToQueue) (labels : Map String String) (hash : String)
    → api.labels pod ≡ some labels
    → is_empty q ≡ false
    → lookup "pod-template-hash" labels ≡ some hash
    → get_first_val hash q ≡ err "Not found."
    → preprocess_handler api pod q ≡ put_back api q
unfolding preprocess_handler with_pod with_hash use_node
handler-put_back api pod q labels hash l e k n = rw (l, e, k, n) refl

-- When the lookup has a node for some deployment, but none for that of the pod that the loop receives,
-- the loop comes to its own send to the channel and stays there: in every later state it still sends
-- that pod, no further pod is labelled, and every pod that waits to be sent goes on waiting.
pub put_back_blocks :
    (api : Api) (s : System) (before : List Pod) (pod : Pod) (after : List Pod)
    (labels : Map String String) (hash : String)
    → s.worker ≡ receiving
    → s.senders ≡ before ++ pod ∷ after
    → api.labels pod ≡ some labels
    → is_empty s.nodes ≡ false
    → lookup "pod-template-hash" labels ≡ some hash
    → get_first_val hash s.nodes ≡ err "Not found."
    → (t : System) × Step s t
      × (t.worker ≡ sending pod)
      × ((u : System) → Steps t u → Blocked pod t u)
put_back_blocks api s before pod after labels hash w e l n k f =
    let t = handle api pod (before ++ after) s in
    let stuck : t.worker ≡ sending pod =
      ap (λ h. after_handler pod h.sends) (handler-put_back api pod s.nodes labels hash l n k f)
      ∙ ap (after_handler pod) (put_back-sends api s.nodes) in
    (t, meet api s before pod after w e, stuck, λ u steps. ever_sending pod t u steps stuck)
