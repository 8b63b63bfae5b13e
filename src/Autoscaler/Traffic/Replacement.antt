-- ===== src/Autoscaler/Traffic/Replacement.antt =====
-- The loop of `case ScalingDown, ScalingUp`: the scaled revision gives way to the latest ready one.
use kube_comp_mig.Prelude.{
  ℕ, ◌+◌, ◌/◌, ◌%◌, String, ◌≡◌, ◌≢◌, refl, sym, ap, ◌∙◌, List, [], ◌∷◌, ◌++◌, arith, length,
  length-append, ◌==◌, true,
}
use kube_comp_mig.Prelude.Outcomes.{
  Outcome, ok, ◌>>=◌, for_range, for_range-nil, for_range-cons, for_range-append,
}
use kube_comp_mig.Autoscaler.Traffic.{
  ScaleDecision, scaling_out, scaling_up, scaling_down, TrafficTarget, Loop, split, new_traffic,
  replace_body, drop_replaced, push,
}
use kube_comp_mig.Autoscaler.Traffic.Fill.{targets}
use kube_comp_mig.Autoscaler.Traffic.Scaling.{Others, str_eq-ne, replace-Writes, targets-append}
use kube_comp_mig.Autoscaler.Traffic.Removal.{
  skip_loop, split_at, split-other, drop_skipped, replace_skips, kept,
}
use mathlib.Core.List.{append_assoc}

replace_last :
    (old latest : String) (n b r : ℕ) (i : ℕ) (new : String) (s : Loop)
    → new ≢ old
    → (i + 1 == n) ≡ true
    → for_range (replace_body old latest n b r) i (new ∷ []) s
      ≡ ok (record s { traffic = s.traffic ++ targets b r i (latest ∷ []) })
unfolding replace_body push targets
replace_last old latest n b r i new s h e =
    rw (for_range-cons, str_eq-ne new old h, e, for_range-nil)

-- The revisions listed behind the scaled one, with the latest ready name in place of the last.
replace_loop :
    (b r : ℕ) (old latest : String) (before mid : List String) (new : String) (n : ℕ)
    (traffic : List TrafficTarget)
    → n ≡ length before + 1 + length mid + 1
    → Others old before
    → Others old mid
    → new ≢ old
    → length traffic ≡ length before + 1 + length mid
    → (for_range
          (replace_body old latest n b r)
          0
          ((before ++ old ∷ mid) ++ new ∷ [])
          (record { traffic = traffic; revision_idx = 0 })
        >>= drop_replaced)
      ≡ ok (targets b r 0 before ++ targets b r (length before + 1) (mid ++ latest ∷ []))
replace_loop b r old latest before mid new n traffic size f s h e =
    let (g, parts, left, right) = split_at (length before) traffic (omega arith) in
    ap (λ o. o >>= drop_replaced)
      (for_range-append body 0 (length before + 1 + length mid) (before ++ old ∷ mid) (new ∷ []) _
          (omega (arith, length-append before (old ∷ mid)))
        ∙ ap
            (λ ts.
              for_range body 0 (before ++ old ∷ mid) (record { traffic = ts; revision_idx = 0 })
              >>= λ s'. for_range body (length before + 1 + length mid) (new ∷ []) s')
            parts
        ∙ ap (λ o. o >>= λ s'. for_range body (length before + 1 + length mid) (new ∷ []) s')
            (skip_loop body b r before old mid _ g _ left (omega (arith, right))
              (replace-Writes old latest n b r 0 before f (omega arith))
              (replace-Writes old latest n b r (length before + 1) mid s (omega arith))
              (replace_skips old latest n b r (length before)))
        ∙ replace_last old latest n b r (length before + 1 + length mid) new _ h (ground arith)
        ∙ ap (λ ts. ok (record { traffic = ts; revision_idx = length before })) (regroup g))
    ∙ drop_skipped b r before (mid ++ latest ∷ []) g
  where
    body : ℕ → String → Loop → Outcome Loop
    body = replace_body old latest n b r

    regroup :
        (g : TrafficTarget)
        → (targets b r 0 before ++ g ∷ targets b r (length before + 1) mid)
            ++ targets b r (length before + 1 + length mid) (latest ∷ [])
          ≡ targets b r 0 before ++ g ∷ targets b r (length before + 1) (mid ++ latest ∷ [])
    regroup g =
        append_assoc (targets b r 0 before) _ _
        ∙ ap (λ ts. targets b r 0 before ++ g ∷ ts)
            (sym (
              targets-append b r (length before + 1) (length before + 1 + length mid) mid
                (latest ∷ []) refl))

size :
    (before : List String) (old : String) (mid : List String) (new : String)
    → length ((before ++ old ∷ mid) ++ new ∷ []) ≡ length before + 1 + length mid + 1
size before old mid new =
    omega (arith, length-append (before ++ old ∷ mid) (new ∷ []), length-append before (old ∷ mid))

split_replaced :
    (d : ScaleDecision) (before : List String) (old : String) (mid : List String) (new : String)
    → d ≢ scaling_out
    → split d (length ((before ++ old ∷ mid) ++ new ∷ []))
      ≡ ok (100 / (length before + length mid + 1), 100 % (length before + length mid + 1))
split_replaced d before old mid new h =
    split-other d _ (length before + length mid + 1) h (omega (arith, size before old mid new))
      (omega arith)

-- The two decisions that replace a revision.
pub data Replaces : ScaleDecision → Type 0 where
  up : Replaces scaling_up
  down : Replaces scaling_down

pub replace_lem :
    (d : ScaleDecision) (old latest : String) (before mid : List String) (new : String)
    (traffic : List TrafficTarget)
    → Replaces d
    → Others old before
    → Others old mid
    → new ≢ old
    → length traffic ≡ length (before ++ old ∷ mid)
    → new_traffic d old latest ((before ++ old ∷ mid) ++ new ∷ []) traffic
      ≡ ok (kept (length before + length mid + 1) before (mid ++ latest ∷ []))
unfolding new_traffic kept
replace_lem _ old latest before mid new traffic up f s h e =
    rw (split_replaced scaling_up before old mid new (λ p. cc)) (
      replace_loop _ _ old latest before mid new _ traffic (size before old mid new) f s h
        (omega (arith, length-append before (old ∷ mid))))
replace_lem _ old latest before mid new traffic down f s h e =
    rw (split_replaced scaling_down before old mid new (λ p. cc)) (
      replace_loop _ _ old latest before mid new _ traffic (size before old mid new) f s h
        (omega (arith, length-append before (old ∷ mid))))
