-- ===== src/Autoscaler/Traffic.antt =====
-- The traffic split of a Knative service over its revisions: the part of `updateServiceTraffic` of
-- Autoscaler/scaler.go between the two API calls. Revisions are given by their names, in the order
-- in which the API lists them.
pub mod Fill
pub mod Split
pub mod Scaling
pub mod Removal
pub mod Replacement
pub mod Shares
pub mod Faults
mod Samples
use kube_comp_mig.Prelude.{
  ℕ, zero, suc, ◌+◌, ◌/◌, ◌%◌, String, List, [], ◌∷◌, ◌++◌, length, take, drop, ltb, ◌==◌,
  if◌then◌else◌, str_eq,
}
use kube_comp_mig.Prelude.Outcomes.{Outcome, ok, err, panic, ◌>>=◌, for_range}

-- `ScaleDecision`
pub data ScaleDecision : Type 0 where
  not_scaling scaling_up scaling_down scaling_out scaling_in : ScaleDecision

-- `kv1.TrafficTarget`, with the two fields that the program writes
pub record TrafficTarget : Type 0 where
  pub percent : ℕ
  pub revision_name : String

-- `newTraffic[i] = t`: an index out of range panics.
pub set_at : List TrafficTarget → ℕ → TrafficTarget → Outcome (List TrafficTarget)
set_at [] i t = panic
set_at (x ∷ xs) zero t = ok (t ∷ xs)
set_at (x ∷ xs) (suc i) t = set_at xs i t >>= λ rest. ok (x ∷ rest)

-- `append(newTraffic[:i], newTraffic[i+1:]...)`: slicing past the end panics.
pub remove_at : List TrafficTarget → ℕ → Outcome (List TrafficTarget)
remove_at xs i = if ltb i (length xs) then ok (take i xs ++ drop (i + 1) xs) else panic

-- The variables of the loops: `newTraffic` and `revisionIdx`.
pub record Loop : Type 0 where
  pub traffic : List TrafficTarget
  pub revision_idx : ℕ

-- `percent := int64(basePercent); if i < remainder { percent++ }`
pub percent_at : ℕ → ℕ → ℕ → ℕ
percent_at base remainder i = if ltb i remainder then base + 1 else base

pub write : ℕ → TrafficTarget → Loop → Outcome Loop
unfolding set_at
write i t s = set_at s.traffic i t >>= λ xs. ok (record s { traffic = xs })

pub push : TrafficTarget → Loop → Outcome Loop
push t s = ok (record s { traffic = s.traffic ++ t ∷ [] })

-- The body of the loop of `case ScalingIn`.
pub scale_in_body : String → ℕ → ℕ → ℕ → String → Loop → Outcome Loop
unfolding write percent_at
scale_in_body old base remainder i revision s =
    if str_eq revision old
    then ok (record s { revision_idx = i })
    else write i (record { percent = percent_at base remainder i; revision_name = revision }) s

-- The body of the loop of `case ScalingDown, ScalingUp`; `n` is the number of revisions.
pub replace_body : String → String → ℕ → ℕ → ℕ → ℕ → String → Loop → Outcome Loop
unfolding write push percent_at
replace_body old latest n base remainder i revision s =
    if str_eq revision old
    then ok (record s { revision_idx = i })
    else if i + 1 == n
    then push (record { percent = percent_at base remainder i; revision_name = latest }) s
    else write i (record { percent = percent_at base remainder i; revision_name = revision }) s

-- The body of the loop of `case ScalingOut`.
pub scale_out_body : ℕ → ℕ → ℕ → ℕ → String → Loop → Outcome Loop
unfolding write push percent_at
scale_out_body n base remainder i revision s =
    if i + 1 == n
    then push (record { percent = percent_at base remainder i; revision_name = revision }) s
    else write i (record { percent = percent_at base remainder i; revision_name = revision }) s

-- `basePercent` and `remainder`. A divisor 0 panics. With no revision at all the divisor of the
-- second case is -1; its quotient and remainder are read by no loop, and 0 stands for both.
pub split : ScaleDecision → ℕ → Outcome (ℕ × ℕ)
split scaling_out zero = panic
split scaling_out (suc n) = ok (100 / suc n, 100 % suc n)
split decision zero = ok (0, 0)
split decision (suc zero) = panic
split decision (suc (suc n)) = ok (100 / suc n, 100 % suc n)

pub drop_replaced : Loop → Outcome (List TrafficTarget)
unfolding remove_at
drop_replaced s = remove_at s.traffic s.revision_idx

-- `newTraffic`, from the service's traffic, the listed revisions, the name of the revision that is
-- scaled, and the name of the latest ready one.
pub new_traffic :
    ScaleDecision
    → String
    → String
    → List String
    → List TrafficTarget
    → Outcome (List TrafficTarget)
unfolding drop_replaced
new_traffic scaling_in old latest revisions traffic = split scaling_in (length revisions) >>= λ p.
    if length revisions == 1
    then err "cannot scale in further"
    else (for_range (scale_in_body old p.0 p.1) 0 revisions
          (record { traffic = traffic; revision_idx = 0 })
        >>= drop_replaced)
new_traffic scaling_out old latest revisions traffic = split scaling_out (length revisions) >>= λ p.
    for_range (scale_out_body (length revisions) p.0 p.1) 0 revisions
      (record { traffic = traffic; revision_idx = 0 })
    >>= λ s. ok s.traffic
new_traffic not_scaling old latest revisions traffic =
    split not_scaling (length revisions) >>= λ p. ok traffic
new_traffic scaling_up old latest revisions traffic = split scaling_up (length revisions) >>= λ p.
    for_range (replace_body old latest (length revisions) p.0 p.1) 0 revisions
      (record { traffic = traffic; revision_idx = 0 })
    >>= drop_replaced
new_traffic scaling_down old latest revisions traffic =
    split scaling_down (length revisions) >>= λ p.
    for_range (replace_body old latest (length revisions) p.0 p.1) 0 revisions
      (record { traffic = traffic; revision_idx = 0 })
    >>= drop_replaced
