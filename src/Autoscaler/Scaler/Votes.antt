-- ===== src/Autoscaler/Scaler/Votes.antt =====
-- How the metrics of a revision decide.
use kube_comp_mig.Prelude.{
  ◌≡◌, refl, sym, ap, ◌∙◌, List, [], ◌∷◌, arith, true, false, ◌⊎◌, inl, inr, ◌||◌, All, Any, Bool,
  Bool-cases, not, ◌&&◌,
}
use mathlib.Core.Bool.{false≢true}
use kube_comp_mig.Prelude.Floats.{Float64}
use kube_comp_mig.Autoscaler.Scaler.{Metric, vote, votes}
use kube_comp_mig.Autoscaler.Traffic.{
  ScaleDecision, not_scaling, scaling_up, scaling_down, scaling_in, scaling_out,
}

module _ ⦃fl : Float64⦄ where
  -- A value is too low for its metric, or no number at all.
  abbrev pub is_low : Metric × fl.F → Bool
  is_low (m, v) = fl.is_nan v || fl.lt v (fl.mul m.slo m.scale_down_factor)

  -- A value is not too low, and above the bound for scaling up.
  abbrev pub is_high : Metric × fl.F → Bool
  is_high (m, v) =
      not (fl.is_nan v || fl.lt v (fl.mul m.slo m.scale_down_factor))
      && fl.lt (fl.mul m.slo m.scale_up_factor) v

  vote-low :
      (p : Metric × fl.F) (d : ScaleDecision) → is_low p ≡ true → vote p.0 p.1 d ≡ scaling_down
  unfolding vote
  vote-low (m, v) d h = rw h

  vote-high :
      (p : Metric × fl.F) (d : ScaleDecision) → is_high p ≡ true → vote p.0 p.1 d ≡ scaling_up
  unfolding vote
  vote-high (m, v) d h = ground arith

  vote-Quiet :
      (p : Metric × fl.F) (d : ScaleDecision)
      → is_low p ≡ false
      → is_high p ≡ false
      → vote p.0 p.1 d ≡ d
  unfolding vote
  vote-Quiet (m, v) d h k = ground arith

  not_both : (p : Metric × fl.F) → is_low p ≡ true → is_high p ≡ false
  not_both (m, v) h = ground arith

  -- With no metric that is high, one that is low decides, and so does an earlier decision.
  low_decides :
      (ms : List (Metric × fl.F)) (d : ScaleDecision)
      → All (λ p. is_high p ≡ false) ms
      → (d ≡ scaling_down) ⊎ Any (λ p. is_low p ≡ true) ms
      → votes ms d ≡ scaling_down
  unfolding votes
  low_decides [] d h (inl e) = e
  low_decides [] d h (inr a) = absurd a
  low_decides (p ∷ ms) d h a = elim (Bool-cases (is_low p)) [
    | inl low ↦ low_decides ms _ h.1 (inl (vote-low p d low))
    | inr quiet ↦ low_decides ms _ h.1 (still quiet a)
  ]
    where
      still :
          is_low p ≡ false
          → (d ≡ scaling_down) ⊎ Any (λ q. is_low q ≡ true) (p ∷ ms)
          → (vote p.0 p.1 d ≡ scaling_down) ⊎ Any (λ q. is_low q ≡ true) ms
      still quiet (inl e) = inl (vote-Quiet p d quiet h.0 ∙ e)
      still quiet (inr (inl low)) = absurd (false≢true (sym quiet ∙ low))
      still quiet (inr (inr later)) = inr later

  high_decides :
      (ms : List (Metric × fl.F)) (d : ScaleDecision)
      → All (λ p. is_low p ≡ false) ms
      → (d ≡ scaling_up) ⊎ Any (λ p. is_high p ≡ true) ms
      → votes ms d ≡ scaling_up
  unfolding votes
  high_decides [] d h (inl e) = e
  high_decides [] d h (inr a) = absurd a
  high_decides (p ∷ ms) d h a = elim (Bool-cases (is_high p)) [
    | inl high ↦ high_decides ms _ h.1 (inl (vote-high p d high))
    | inr quiet ↦ high_decides ms _ h.1 (still quiet a)
  ]
    where
      still :
          is_high p ≡ false
          → (d ≡ scaling_up) ⊎ Any (λ q. is_high q ≡ true) (p ∷ ms)
          → (vote p.0 p.1 d ≡ scaling_up) ⊎ Any (λ q. is_high q ≡ true) ms
      still quiet (inl e) = inl (vote-Quiet p d h.0 quiet ∙ e)
      still quiet (inr (inl high)) = absurd (false≢true (sym quiet ∙ high))
      still quiet (inr (inr later)) = inr later

  quiet_keeps :
      (ms : List (Metric × fl.F)) (d : ScaleDecision)
      → All (λ p. (is_low p ≡ false) × (is_high p ≡ false)) ms
      → votes ms d ≡ d
  unfolding votes
  quiet_keeps [] d h = refl
  quiet_keeps (p ∷ ms) d h = ap (votes ms) (vote-Quiet p d h.0.0 h.0.1) ∙ quiet_keeps ms d h.1

  -- The metrics do not contradict one another, whatever their order.
  abbrev pub Agree : ScaleDecision → List (Metric × fl.F) → Type 0
  Agree scaling_down ms = All (λ p. is_high p ≡ false) ms × Any (λ p. is_low p ≡ true) ms
  Agree scaling_up ms = All (λ p. is_low p ≡ false) ms × Any (λ p. is_high p ≡ true) ms
  Agree not_scaling ms = All (λ p. (is_low p ≡ false) × (is_high p ≡ false)) ms
  Agree _ ms = ⊥

  -- Metrics that do not contradict one another decide alike in every order: down if one is low and
  -- none is high, up if one is high and none is low, nothing if none is either.
  pub agreed_votes :
      (d : ScaleDecision) (ms : List (Metric × fl.F)) → Agree d ms → votes ms not_scaling ≡ d
  agreed_votes scaling_down ms h = low_decides ms not_scaling h.0 (inr h.1)
  agreed_votes scaling_up ms h = high_decides ms not_scaling h.0 (inr h.1)
  agreed_votes not_scaling ms h = quiet_keeps ms not_scaling h
  agreed_votes scaling_in ms h = absurd h
  agreed_votes scaling_out ms h = absurd h

  -- Where one metric is low and another is high, the order in which the map is ranged over decides: the
  -- last of the two wins.
  pub contradicting_votes :
      (p q : Metric × fl.F) (d : ScaleDecision)
      → is_low p ≡ true
      → is_high q ≡ true
      → (votes (p ∷ q ∷ []) d ≡ scaling_up) × (votes (q ∷ p ∷ []) d ≡ scaling_down)
  unfolding votes
  contradicting_votes p q d low high = (vote-high q _ high, vote-low p _ low)
