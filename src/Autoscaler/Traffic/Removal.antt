-- ===== src/Autoscaler/Traffic/Removal.antt =====
-- The loops that leave the entry of the scaled revision out, and the slice that drops it.
use kube_comp_mig.Prelude.{
  ℕ, zero, suc, ◌+◌, ◌/◌, ◌%◌, ◌<◌, String, ◌≡◌, ◌≢◌, refl, sym, ap, ◌∙◌, List, [], ◌∷◌, ◌++◌,
  arith, length, length-append, ◌==◌, take, drop, false,
}
use kube_comp_mig.Prelude.Outcomes.{Outcome, ok, ◌>>=◌, for_range, for_range-cons, for_range-append}
use kube_comp_mig.Autoscaler.Traffic.{
  ScaleDecision, scaling_out, scaling_in, TrafficTarget, Loop, split, new_traffic, scale_in_body,
  replace_body, drop_replaced,
}
use kube_comp_mig.Autoscaler.Traffic.Fill.{targets, fill, Writes, remove_at-append}
use kube_comp_mig.Autoscaler.Traffic.Scaling.{Others, str_eq_self, scale_in-Writes}
use mathlib.Core.List.{append-nil, append_assoc}

pub length-targets : (b r i : ℕ) (xs : List String) → length (targets b r i xs) ≡ length xs
unfolding targets
length-targets b r i [] = refl
length-targets b r i (x ∷ xs) = ap suc (length-targets b r (i + 1) xs)

-- The entries that stay: those of the revisions in front of the scaled one and behind it.
unfoldable pub kept : ℕ → List String → List String → List TrafficTarget
kept m before after =
    targets (100 / m) (100 % m) 0 before ++ targets (100 / m) (100 % m) (length before + 1) after

-- The loop over a list with one revision that only records its position.
pub skip_loop :
    (body : ℕ → String → Loop → Outcome Loop) (b r : ℕ) (before : List String) (old : String)
    (after : List String) (given : List TrafficTarget) (g : TrafficTarget)
    (more : List TrafficTarget)
    → length given ≡ length before
    → length more ≡ length after
    → Writes body b r 0 before
    → Writes body b r (length before + 1) after
    → ((s : Loop) → body (length before) old s ≡ ok (record s { revision_idx = length before }))
    → for_range body 0
        (before ++ old ∷ after)
        (record { traffic = given ++ g ∷ more; revision_idx = 0 })
      ≡ ok (record {
        traffic = targets b r 0 before ++ g ∷ targets b r (length before + 1) after;
        revision_idx = length before;
      })
skip_loop body b r before old after given g more e f w v skip =
    rw (for_range-append body 0 (length before) before (old ∷ after) _ (omega arith)) (
      rw (fill body b r 0 0 before [] given (g ∷ more) e refl w) (
        rw (for_range-cons, skip)
          (ap loop (
              sym (append_assoc front (g ∷ []) more)
              ∙ ap (λ ts. (front ++ g ∷ []) ++ ts) (sym (append-nil more)))
            ∙ fill body b r (length before + 1) (length before) after (front ++ g ∷ []) more [] f
                (omega (arith, length-append front (g ∷ []), length-targets b r 0 before)) v
            ∙ ap done (
                ap (λ ts. (front ++ g ∷ []) ++ ts) (append-nil _)
                ∙ append_assoc front (g ∷ []) _))))
  where
    front : List TrafficTarget
    front = targets b r 0 before

    loop : List TrafficTarget → Outcome Loop
    loop ts =
        for_range body (length before + 1) after
          (record { traffic = ts; revision_idx = length before })

    done : List TrafficTarget → Outcome Loop
    done ts = ok (record { traffic = ts; revision_idx = length before })

pub split_at :
    (n : ℕ) (ts : List TrafficTarget)
    → n < length ts
    → (g : TrafficTarget) × (ts ≡ take n ts ++ g ∷ drop (suc n) ts)
      × (length (take n ts) ≡ n)
      × (length (drop (suc n) ts) + suc n ≡ length ts)
split_at n [] h = absurd (omega arith)
split_at zero (t ∷ ts) h = (t, refl, refl, omega arith)
split_at (suc n) (t ∷ ts) h =
    let (g, e, l, m) = split_at n ts (omega arith) in
    (g, ap (λ us. t ∷ us) e, ap suc l, omega (arith, m))

pub split-other :
    (d : ScaleDecision) (n m : ℕ)
    → d ≢ scaling_out
    → n ≡ suc m
    → 0 < m
    → split d n ≡ ok (100 / m, 100 % m)
unfolding split
split-other d n zero h e l = absurd (omega arith)
split-other scaling_out n m h e l = absurd (h refl)
split-other scaling_in n (suc m) h e l = rw e
split-other _ n (suc m) h e l = rw e

pub drop_skipped :
    (b r : ℕ) (before after : List String) (g : TrafficTarget)
    → drop_replaced (record {
      traffic = targets b r 0 before ++ g ∷ targets b r (length before + 1) after;
      revision_idx = length before;
    })
      ≡ ok (targets b r 0 before ++ targets b r (length before + 1) after)
unfolding drop_replaced
drop_skipped b r before after g =
    rw (← length-targets b r 0 before) (remove_at-append (targets b r 0 before) g _)

scale_in_skips :
    (old : String) (b r i : ℕ) (s : Loop)
    → scale_in_body old b r i old s ≡ ok (record s { revision_idx = i })
unfolding scale_in_body
scale_in_skips old b r i s = rw (str_eq_self old)

pub replace_skips :
    (old latest : String) (n b r i : ℕ) (s : Loop)
    → replace_body old latest n b r i old s ≡ ok (record s { revision_idx = i })
unfolding replace_body
replace_skips old latest n b r i s = rw (str_eq_self old)

scale_in_loop :
    (b r : ℕ) (old : String) (before after : List String) (traffic : List TrafficTarget)
    → Others old before
    → Others old after
    → length traffic ≡ length (before ++ old ∷ after)
    → (for_range
          (scale_in_body old b r)
          0
          (before ++ old ∷ after)
          (record { traffic = traffic; revision_idx = 0 })
        >>= drop_replaced)
      ≡ ok (targets b r 0 before ++ targets b r (length before + 1) after)
scale_in_loop b r old before after traffic f s e =
    let (g, parts, left, right) =
      split_at (length before) traffic (omega (arith, length-append before (old ∷ after))) in
    ap
      (λ ts.
        for_range (scale_in_body old b r) 0 (before ++ old ∷ after)
          (record { traffic = ts; revision_idx = 0 })
        >>= drop_replaced)
      parts
    ∙ ap (λ o. o >>= drop_replaced)
        (skip_loop (scale_in_body old b r) b r before old after _ g _ left
          (omega (arith, right, length-append before (old ∷ after)))
          (scale_in-Writes old b r 0 before f) (scale_in-Writes old b r (length before + 1) after s)
          (scale_in_skips old b r (length before)))
    ∙ drop_skipped b r before after g

pub scale_in_lem :
    (old latest : String) (before after : List String) (traffic : List TrafficTarget)
    → Others old before
    → Others old after
    → 0 < length before + length after
    → length traffic ≡ length (before ++ old ∷ after)
    → new_traffic scaling_in old latest (before ++ old ∷ after) traffic
      ≡ ok (kept (length before + length after) before after)
unfolding new_traffic kept
scale_in_lem old latest before after traffic f s pos e =
    rw
      (split-other scaling_in (length (before ++ old ∷ after)) (length before + length after)
        (λ h. cc) (omega (arith, length-append before (old ∷ after))) pos)
      (rw (several before old after pos) (scale_in_loop _ _ old before after traffic f s e))
  where
    several :
        (xs : List String) (x : String) (ys : List String)
        → 0 < length xs + length ys
        → (length (xs ++ x ∷ ys) == 1) ≡ false
    several xs x ys h = ground (arith, length-append xs (x ∷ ys))
