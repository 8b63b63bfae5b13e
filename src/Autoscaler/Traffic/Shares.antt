-- ===== src/Autoscaler/Traffic/Shares.antt =====
-- What the traffic split promises: who receives traffic, and how much.
use kube_comp_mig.Prelude.{
  ℕ, ◌+◌, ◌/◌, ◌%◌, ◌<◌, String, ◌≡◌, ◌≢◌, ap, ◌∙◌, List, [], ◌∷◌, ◌++◌, arith, length,
  length-append, ltb, if◌then◌else◌,
}
use kube_comp_mig.Prelude.Outcomes.{ok}
use kube_comp_mig.Autoscaler.Traffic.{
  ScaleDecision, scaling_out, scaling_in, TrafficTarget, new_traffic,
}
use kube_comp_mig.Autoscaler.Traffic.Fill.{percents, targets}
use kube_comp_mig.Autoscaler.Traffic.Split.{
  names, names-targets, IsEven, targets-IsEven, percents_all, percents_skip,
}
use kube_comp_mig.Autoscaler.Traffic.Scaling.{Others, added, scale_out_lem}
use kube_comp_mig.Autoscaler.Traffic.Removal.{kept, scale_in_lem}
use kube_comp_mig.Autoscaler.Traffic.Replacement.{Replaces, replace_lem}
use mathlib.Core.List.{map-append}

-- `ScalingOut`, when the service's traffic has one entry for each revision but the new one, which is
-- listed last: the new traffic names every revision, in order, no two shares are further apart than
-- one percent, and the shares add up to 100.
pub scale_out_shares :
    (old latest : String) (before : List String) (new : String) (traffic : List TrafficTarget)
    → length traffic ≡ length before
    → (ts : List TrafficTarget) × (new_traffic scaling_out old latest (before ++ new ∷ []) traffic
        ≡ ok ts)
      × (names ts ≡ before ++ new ∷ [])
      × IsEven (100 / (length before + 1)) ts
      × (percents ts ≡ 100)
scale_out_shares old latest before new traffic e =
    let n = length (before ++ new ∷ []) in
    let size : n ≡ length before + 1 = omega (arith, length-append before (new ∷ [])) in
    (
      added before new,
      scale_out_lem old latest before new traffic e,
      names-targets (100 / n) (100 % n) 0 (before ++ new ∷ []),
      rw (← size) (targets-IsEven (100 / n) (100 % n) 0 (before ++ new ∷ [])),
      percents_all (before ++ new ∷ []) (omega (arith, size)),
    )

names-kept : (m : ℕ) (before after : List String) → names (kept m before after) ≡ before ++ after
unfolding kept
names-kept m before after =
    map-append _ (targets (100 / m) (100 % m) 0 before) _
    ∙ ap (λ xs. xs ++ names (targets (100 / m) (100 % m) (length before + 1) after))
        (names-targets (100 / m) (100 % m) 0 before)
    ∙ ap (λ xs. before ++ xs) (names-targets (100 / m) (100 % m) (length before + 1) after)

percents-kept :
    (m : ℕ) (before after : List String)
    → length before + length after ≡ m
    → 0 < m
    → percents (kept m before after) + (if ltb (length before) (100 % m) then 1 else 0) ≡ 100
unfolding kept
percents-kept m before after e h = percents_skip before after m e h

-- `ScalingIn` of one of several revisions, when the service's traffic has one entry for each: the new
-- traffic names the other revisions, in order. The shares add up to 100 where the position of the
-- scaled revision is not below the remainder of 100 by the number of those left, and to 99 where it is.
pub scale_in_shares :
    (old latest : String) (before after : List String) (traffic : List TrafficTarget)
    → Others old before
    → Others old after
    → 0 < length before + length after
    → length traffic ≡ length (before ++ old ∷ after)
    → (ts : List TrafficTarget) × (new_traffic scaling_in old latest (before ++ old ∷ after) traffic
        ≡ ok ts)
      × (names ts ≡ before ++ after)
      × (percents ts + (if ltb (length before) (100 % (length before + length after)) then 1 else 0)
          ≡ 100)
scale_in_shares old latest before after traffic f s pos e =
    let m = length before + length after in
    (
      kept m before after,
      scale_in_lem old latest before after traffic f s pos e,
      names-kept m before after,
      percents-kept m before after (omega arith) pos,
    )

-- `ScalingUp` and `ScalingDown`, when the revision is not the last one listed and the service's traffic
-- has one entry for each revision but the last: the new traffic names the other revisions, in order,
-- with the latest ready revision in place of the last. The shares add up to 100, or to 99 where the
-- position of the replaced revision is below the remainder of 100 by the number of those left.
pub replace_shares :
    (d : ScaleDecision) (old latest : String) (before mid : List String) (new : String)
    (traffic : List TrafficTarget)
    → Replaces d
    → Others old before
    → Others old mid
    → new ≢ old
    → length traffic ≡ length (before ++ old ∷ mid)
    → (ts : List TrafficTarget) × (new_traffic d old latest
          ((before ++ old ∷ mid) ++ new ∷ [])
          traffic
        ≡ ok ts)
      × (names ts ≡ before ++ (mid ++ latest ∷ []))
      × (percents ts
            + (if ltb (length before) (100 % (length before + length mid + 1)) then 1 else 0)
          ≡ 100)
replace_shares d old latest before mid new traffic r f s h e =
    let m = length before + length mid + 1 in
    (
      kept m before (mid ++ latest ∷ []),
      replace_lem d old latest before mid new traffic r f s h e,
      names-kept m before (mid ++ latest ∷ []),
      percents-kept m before (mid ++ latest ∷ []) (omega (arith, length-append mid (latest ∷ [])))
          (omega arith),
    )
