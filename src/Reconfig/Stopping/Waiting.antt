-- ===== src/Reconfig/Stopping/Waiting.antt =====
-- The loops of the node controller that wait for the cluster.
use kube_comp_mig.Prelude.{
  ℕ, zero, suc, ◌+◌, ◌≤◌, ◌<◌, ◌≡◌, refl, ap, ◌∙◌, true, false, Bool, String, none, List, [], ◌∷◌,
  length, arith, inl, inr, Bool-cases, ◌&&◌, if◌then◌else◌,
}
use kube_comp_mig.Prelude.Calls.{Act}
use kube_comp_mig.Prelude.Outcomes.{ok, ok_injective}
use kube_comp_mig.Reconfig.Selector.{Pod}
use kube_comp_mig.Reconfig.Stopping.{
  Call, get_pod, delete_pod, add_affinity, hash_of, Cluster, is_none, until, all_gone, delete_pods,
  stop_pods,
}

-- From some number of calls on, the cluster answers that no pod is there.
abbrev pub Gone : Cluster → ℕ → Type 0
Gone c n = (p : Pod) (h : List Call) → n ≤ length h → c.pod p h ≡ none

-- A round returns, says whether all are gone, and makes a call for each pod.
all_gone-ok :
    (c : Cluster) (ps : List Pod) (h : List Call)
    → (b : Bool) × (g : List Call) × (all_gone c ps h ≡ (ok b, g))
      × (length g ≡ length h + length ps)
unfolding all_gone
all_gone-ok c [] h = (true, h, refl, omega arith)
all_gone-ok c (p ∷ ps) h =
    let (b, g, e, n) = all_gone-ok c ps (get_pod p ∷ h) in
    (is_none c (c.pod p h) && b, g, rw (e) refl, omega (arith, n))

all_gone-true :
    (c : Cluster) (n : ℕ) (ps : List Pod) (h : List Call)
    → Gone c n
    → n ≤ length h
    → (g : List Call) × (all_gone c ps h ≡ (ok true, g))
unfolding all_gone
all_gone-true c n [] h k l = (h, refl)
all_gone-true c n (p ∷ ps) h k l =
    let (g, e) = all_gone-true c n ps (get_pod p ∷ h) k (omega arith) in (g, rw (e, k p h l) refl)

-- Some pod is not gone only where there is a pod.
one_left :
    (c : Cluster) (ps : List Pod) (h g : List Call)
    → all_gone c ps h ≡ (ok false, g)
    → 0 < length ps
unfolding all_gone
one_left c [] h g e = absurd (ne (ok_injective true false (ap (λ x. x.0) e)))
  where
    ne : true ≡ false → ⊥
    ne e = cc
one_left c (p ∷ ps) h g e = omega arith

until-suc :
    (fuel : ℕ) (round : Act Call Bool) (h g : List Call) (b : Bool)
    → round h ≡ (ok b, g)
    → until (suc fuel) round h ≡ (if b then (ok tt, g) else until fuel round g)
unfolding until
until-suc fuel round h g true e = rw (e) refl
until-suc fuel round h g false e = rw (e) refl

until-ends :
    (c : Cluster) (n fuel : ℕ) (ps : List Pod) (h : List Call)
    → Gone c n
    → n ≤ length h + fuel
    → (g : List Call) × (until (suc fuel) (all_gone c ps) h ≡ (ok tt, g))
until-ends c n zero ps h k l =
    let (g, e) = all_gone-true c n ps h k (omega arith) in
    (g, until-suc zero (all_gone c ps) h g true e)
until-ends c n (suc fuel) ps h k l =
    let (b, g, e, m) = all_gone-ok c ps h in by_round b g e m (λ l. until-ends c n fuel ps g k l)
  where
    by_round :
        (b : Bool) (g : List Call)
        → all_gone c ps h ≡ (ok b, g)
        → length g ≡ length h + length ps
        → (n ≤ length g + fuel
            → (f : List Call) × (until (suc fuel) (all_gone c ps) g ≡ (ok tt, f)))
        → (g : List Call) × (until (suc (suc fuel)) (all_gone c ps) h ≡ (ok tt, g))
    by_round true g e m later = (g, until-suc (suc fuel) (all_gone c ps) h g true e)
    by_round false g e m later =
        let (g', e') = later (omega (arith, one_left c ps h g e, m)) in
        (g', until-suc (suc fuel) (all_gone c ps) h g false e ∙ e')

delete_pods-ok :
    (c : Cluster) (ps : List Pod) (name : String) (h : List Call)
    → (g : List Call) × (delete_pods c ps name h ≡ (ok tt, g))
unfolding delete_pods
delete_pods-ok c [] name h = (h, refl)
delete_pods-ok c (p ∷ ps) name h = elim (Bool-cases (c.accepts_delete p (get_pod p ∷ h))) [
  | inl e ↦
      let (g, k) =
        delete_pods-ok c ps name
          (add_affinity (hash_of c (c.pod p h)) name ∷ delete_pod p ∷ get_pod p ∷ h) in
      (g, rw (e) k)
  | inr e ↦ let (g, k) = delete_pods-ok c ps name (delete_pod p ∷ get_pod p ∷ h) in (g, rw (e) k)
]

-- Stopping pods returns within one round more than the number of calls after which the cluster answers
-- that no pod is there.
pub stop_pods-ends :
    (c : Cluster) (n fuel : ℕ) (ps : List Pod) (name : String) (h : List Call)
    → Gone c n
    → n < fuel
    → (g : List Call) × (stop_pods c fuel ps name h ≡ (ok tt, g))
unfolding stop_pods
stop_pods-ends c n zero ps name h k l = absurd (omega arith)
stop_pods-ends c n (suc fuel) ps name h k l =
    let (g, e) = delete_pods-ok c ps name h in
    let (g', e') = until-ends c n fuel ps g k (omega arith) in (g', rw (e) e')
