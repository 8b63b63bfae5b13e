-- ===== src/Reconfig/Reconcile/Untainted.antt =====
-- The taint of a node that is reconfigured.
use kube_comp_mig.Prelude.{
  ℕ, ◌≡◌, refl, ◌⊎◌, inl, inr, false, String, Option, none, some, List, [], ◌∷◌, str_eq, All,
  Bool-cases,
}
use kube_comp_mig.Prelude.Outcomes.{Outcome, ok, err, panic, running}
use kube_comp_mig.Reconfig.Config.{MigConfigs}
use kube_comp_mig.Reconfig.Stopping.{
  Taint, Node, Call, get_node, get_target, update_node, Target, Cluster,
}
use kube_comp_mig.Reconfig.Reconcile.{untainted, remove_taint, deferred, with_target, reconcile}

-- Not the taint of a pending reconfiguration.
abbrev pub Clean : Taint → Type 0
Clean t = str_eq t.key "kubecomp.com/reconfig.state" ≡ false

untainted-Clean : (c : Cluster) (ts : List Taint) → All Clean (untainted c ts)
unfolding untainted
untainted-Clean c [] = tt
untainted-Clean c (t ∷ ts) = elim (Bool-cases (str_eq t.key "kubecomp.com/reconfig.state")) [
  | inl e ↦ rw (e) (untainted-Clean c ts)
  | inr e ↦ rw (e) (e, untainted-Clean c ts)
]

-- The last call sends the node without the taint.
abbrev pub EndsClean : List Call → Type 0
EndsClean h =
    (node : Node) × (rest : List Call) × (h ≡ update_node node ∷ rest) × All Clean node.taints

-- The process has ended, or it still waits.
abbrev pub Cut : Outcome (Option String) → Type 0
Cut o = ((e : String) × (o ≡ err e)) ⊎ (o ≡ running)

-- Nothing was sent: the calls are the two reads at most.
abbrev pub Untouched : List Call → List Call → Type 0
Untouched h g = (g ≡ get_node ∷ h) ⊎ (g ≡ get_target ∷ get_node ∷ h)

deferred-EndsClean :
    (c : Cluster) (r : Outcome (Option String) × List Call)
    → Cut (deferred c r).0 ⊎ EndsClean (deferred c r).1
unfolding deferred remove_taint
deferred-EndsClean c (ok r, h) = inr (_, _, refl, untainted-Clean c (c.node h).0.taints)
deferred-EndsClean c (panic, h) = inr (_, _, refl, untainted-Clean c (c.node h).0.taints)
deferred-EndsClean c (err e, h) = inl (inl (e, refl))
deferred-EndsClean c (running, h) = inl (inr refl)

-- A run of Reconcile sends nothing, or its last call sends the node without the taint of the
-- reconfiguration; but where a `log.Fatal` has ended the process, or a loop still waits, the taint may
-- stay.
pub reconcile-EndsClean :
    (c : Cluster) (fuel : ℕ) (configs : MigConfigs) (h : List Call)
    → Untouched h (reconcile c fuel configs h).1
      ⊎ (Cut (reconcile c fuel configs h).0 ⊎ EndsClean (reconcile c fuel configs h).1)
unfolding reconcile with_target
reconcile-EndsClean c fuel configs h = elim (Bool-cases (c.node h).1) [
  | inl e ↦ rw (e) (by_target (c.target (get_node ∷ h)))
  | inr e ↦ rw (e) (inl (inl refl))
]
  where
    reached : Option Target → Outcome (Option String) × List Call
    reached o = with_target c fuel configs (c.node h).0 o (get_target ∷ get_node ∷ h)

    by_target :
        (o : Option Target)
        → Untouched h (reached o).1 ⊎ (Cut (reached o).0 ⊎ EndsClean (reached o).1)
    by_target none = inl (inr refl)
    by_target (some target) = elim (Bool-cases (str_eq target.node_name "")) [
      | inl e ↦ rw (e) (inr (deferred-EndsClean c _))
      | inr e ↦ rw (e) (inl (inr refl))
    ]
