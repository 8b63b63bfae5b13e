-- ===== src/Autoscaler/Traffic/Faults.antt =====
-- Where the traffic split panics.
use kube_comp_mig.Prelude.{
  ℕ, zero, suc, ◌+◌, ◌<◌, String, ◌≡◌, ◌≢◌, refl, List, [], ◌∷◌, ◌++◌, arith, length, length-append,
  ◌==◌, str_eq, false, Bool-cases, inl, inr,
}
use kube_comp_mig.Prelude.Outcomes.{
  Outcome, ok, err, panic, running, ◌>>=◌, for_range, for_range-nil, for_range-cons,
  for_range-append,
}
use kube_comp_mig.Autoscaler.Traffic.{
  ScaleDecision, not_scaling, scaling_out, scaling_in, scaling_up, scaling_down, TrafficTarget,
  Loop, split, new_traffic, scale_in_body, replace_body, scale_out_body, drop_replaced, remove_at,
  write, set_at, push,
}
use kube_comp_mig.Autoscaler.Traffic.Scaling.{Others, replace-Writes, fill_all}
use kube_comp_mig.Autoscaler.Traffic.Removal.{length-targets, split-other, replace_skips}
use kube_comp_mig.Autoscaler.Traffic.Replacement.{Replaces, up, down}

-- With a single revision every decision but `ScalingOut` divides by zero: the code panics before it
-- reaches its own test for that case.
pub single_revision_panics :
    (d : ScaleDecision) (old latest revision : String) (traffic : List TrafficTarget)
    → d ≢ scaling_out
    → new_traffic d old latest (revision ∷ []) traffic ≡ panic
unfolding new_traffic split
single_revision_panics scaling_out old latest revision traffic h = absurd (h refl)
single_revision_panics not_scaling old latest revision traffic h = refl
single_revision_panics _ old latest revision traffic h = refl

-- The outcome is no error.
abbrev Sound : {A : Type 0} → Outcome A → Type 0
Sound o = (e : String) → o ≢ err e

Sound-ok : {A : Type 0} (a : A) → Sound (ok a)
Sound-ok a e h = cc

Sound->>= :
    {A B : Type 0} (m : Outcome A) (f : A → Outcome B)
    → Sound m
    → ((a : A) → Sound (f a))
    → Sound (m >>= f)
Sound->>= (ok a) f h k = k a
Sound->>= (err e) f h k = absurd (h e refl)
Sound->>= panic f h k = λ e p. cc
Sound->>= running f h k = λ e p. cc

Sound-for_range :
    {A S : Type 0} (body : ℕ → A → S → Outcome S)
    → ((i : ℕ) (a : A) (s : S) → Sound (body i a s))
    → (i : ℕ) (xs : List A) (s : S) → Sound (for_range body i xs s)
Sound-for_range body h i [] s = rw for_range-nil (Sound-ok s)
Sound-for_range body h i (x ∷ xs) s =
    rw for_range-cons (Sound->>= (body i x s) _ (h i x s) (Sound-for_range body h (i + 1) xs))

Sound-set_at : (xs : List TrafficTarget) (i : ℕ) (t : TrafficTarget) → Sound (set_at xs i t)
unfolding set_at
Sound-set_at [] i t = λ e h. cc
Sound-set_at (x ∷ xs) zero t = Sound-ok _
Sound-set_at (x ∷ xs) (suc i) t =
    Sound->>= (set_at xs i t) _ (Sound-set_at xs i t) (λ r. Sound-ok _)

Sound-write : (i : ℕ) (t : TrafficTarget) (s : Loop) → Sound (write i t s)
unfolding write
Sound-write i t s =
    Sound->>= (set_at s.traffic i t) _ (Sound-set_at s.traffic i t) (λ r. Sound-ok _)

Sound-drop : (s : Loop) → Sound (drop_replaced s)
unfolding drop_replaced remove_at
Sound-drop s = λ e h. ground arith

Sound-split : (d : ScaleDecision) (n : ℕ) → Sound (split d n)
unfolding split
Sound-split scaling_out zero = λ e h. cc
Sound-split scaling_out (suc n) = λ e h. cc
Sound-split not_scaling zero = λ e h. cc
Sound-split _ zero = λ e h. cc
Sound-split not_scaling (suc zero) = λ e h. cc
Sound-split _ (suc zero) = λ e h. cc
Sound-split _ (suc (suc n)) = λ e h. cc

Sound-in : (old : String) (b r i : ℕ) (x : String) (s : Loop) → Sound (scale_in_body old b r i x s)
unfolding scale_in_body
Sound-in old b r i x s = elim (Bool-cases (str_eq x old)) [
  | inl same ↦ rw same (Sound-ok _)
  | inr differ ↦ rw differ (Sound-write i _ s)
]

Sound-replace :
    (old latest : String) (n b r i : ℕ) (x : String) (s : Loop)
    → Sound (replace_body old latest n b r i x s)
unfolding replace_body push
Sound-replace old latest n b r i x s = elim (Bool-cases (str_eq x old)) [
  | inl same ↦ rw same (Sound-ok _)
  | inr differ ↦ rw differ (elim (Bool-cases (i + 1 == n)) [
    | inl last ↦ rw last (Sound-ok _)
    | inr inner ↦ rw inner (Sound-write i _ s)
  ])
]

Sound-out : (n b r i : ℕ) (x : String) (s : Loop) → Sound (scale_out_body n b r i x s)
unfolding scale_out_body push
Sound-out n b r i x s = elim (Bool-cases (i + 1 == n)) [
  | inl last ↦ rw last (Sound-ok _)
  | inr inner ↦ rw inner (Sound-write i _ s)
]

Sound-replacing :
    (d : ScaleDecision) (old latest : String) (revisions : List String) (start : Loop)
    → Sound (
        split d (length revisions) >>= λ p.
        for_range (replace_body old latest (length revisions) p.0 p.1) 0 revisions start
        >>= drop_replaced)
Sound-replacing d old latest revisions start =
    Sound->>= (split d (length revisions)) _ (Sound-split d _) λ p.
      Sound->>= (for_range (replace_body old latest (length revisions) p.0 p.1) 0 revisions start) _
        (Sound-for_range _ (Sound-replace old latest (length revisions) p.0 p.1) 0 revisions start)
        Sound-drop

-- The traffic split never returns an error: where it fails, it panics. So the error of `ScalingIn` for
-- a service with one revision is never returned.
pub new_traffic-ne-err :
    (d : ScaleDecision) (old latest : String) (revisions : List String)
    (traffic : List TrafficTarget) (e : String)
    → new_traffic d old latest revisions traffic ≢ err e
unfolding new_traffic split
new_traffic-ne-err scaling_in old latest [] traffic e =
    Sound->>=
      (for_range (scale_in_body old 0 0) 0 [] (record { traffic = traffic; revision_idx = 0 }))
      drop_replaced (Sound-for_range _ (Sound-in old 0 0) 0 [] _) Sound-drop e
new_traffic-ne-err scaling_in old latest (x ∷ []) traffic e = λ h. cc
new_traffic-ne-err scaling_in old latest (x ∷ y ∷ rest) traffic e = rw (several (length rest)) (
    Sound->>= (for_range (scale_in_body old _ _) 0 (x ∷ y ∷ rest) _) drop_replaced
      (Sound-for_range _ (Sound-in old _ _) 0 (x ∷ y ∷ rest) _) Sound-drop e)
  where
    several : (n : ℕ) → (suc (suc n) == 1) ≡ false
    several n = ground arith
new_traffic-ne-err scaling_out old latest revisions traffic e =
    Sound->>= (split scaling_out (length revisions)) _ (Sound-split scaling_out _)
      (λ p.
        Sound->>= (for_range (scale_out_body (length revisions) p.0 p.1) 0 revisions _) _
          (Sound-for_range _ (Sound-out (length revisions) p.0 p.1) 0 revisions _)
          (λ s. Sound-ok _))
      e
new_traffic-ne-err not_scaling old latest revisions traffic e =
    Sound->>= (split not_scaling (length revisions)) _ (Sound-split not_scaling _)
      (λ p. Sound-ok traffic) e
new_traffic-ne-err scaling_up old latest revisions traffic e =
    Sound-replacing scaling_up old latest revisions _ e
new_traffic-ne-err scaling_down old latest revisions traffic e =
    Sound-replacing scaling_down old latest revisions _ e

remove_past_end : (xs : List TrafficTarget) (i : ℕ) → i ≡ length xs → remove_at xs i ≡ panic
unfolding remove_at
remove_past_end xs i h = ground arith

replaced_last_loop :
    (b r : ℕ) (old latest : String) (before : List String) (n : ℕ) (traffic : List TrafficTarget)
    → n ≡ length before + 1
    → Others old before
    → length traffic ≡ length before
    → (for_range
          (replace_body old latest n b r)
          0
          (before ++ old ∷ [])
          (record { traffic = traffic; revision_idx = 0 })
        >>= drop_replaced)
      ≡ panic
unfolding drop_replaced
replaced_last_loop b r old latest before n traffic size f e =
    rw (for_range-append _ 0 (length before) before (old ∷ []) _ (omega arith)) (
      rw
        (fill_all (replace_body old latest n b r) b r before traffic e
          (replace-Writes old latest n b r 0 before f (omega arith)))
        (rw (for_range-cons, replace_skips old latest n b r (length before), for_range-nil)
          (remove_past_end _ (length before) (omega (arith, length-targets b r 0 before)))))

-- `ScalingUp` and `ScalingDown` of the revision that is listed last, when the service's traffic has one
-- entry for each of the others: the slice that should drop its entry lies out of range, and the code
-- panics.
pub newest_replaced_panics :
    (d : ScaleDecision) (old latest : String) (before : List String) (traffic : List TrafficTarget)
    → Replaces d
    → Others old before
    → 0 < length before
    → length traffic ≡ length before
    → new_traffic d old latest (before ++ old ∷ []) traffic ≡ panic
unfolding new_traffic
newest_replaced_panics _ old latest before traffic up f pos e =
    rw
      (split-other scaling_up (length (before ++ old ∷ [])) (length before) (λ h. cc)
        (omega (arith, length-append before (old ∷ []))) pos)
      (replaced_last_loop _ _ old latest before _ traffic
        (omega (arith, length-append before (old ∷ []))) f e)
newest_replaced_panics _ old latest before traffic down f pos e =
    rw
      (split-other scaling_down (length (before ++ old ∷ [])) (length before) (λ h. cc)
        (omega (arith, length-append before (old ∷ []))) pos)
      (replaced_last_loop _ _ old latest before _ traffic
        (omega (arith, length-append before (old ∷ []))) f e)
