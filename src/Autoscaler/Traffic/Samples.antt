-- ===== src/Autoscaler/Traffic/Samples.antt =====
-- Small services, and what the traffic split does with them.
use kube_comp_mig.Prelude.{
  ℕ, ◌+◌, String, ◌≡◌, ◌≢◌, refl, List, [], ◌∷◌, arith, eq_iff, str_eq, false,
}
use kube_comp_mig.Prelude.Outcomes.{ok, err, panic, for_range}
use kube_comp_mig.Autoscaler.Traffic.{
  scaling_out, scaling_in, scaling_up, scaling_down, TrafficTarget, new_traffic, split,
  scale_in_body, scale_out_body, replace_body,
}
use kube_comp_mig.Autoscaler.Traffic.Fill.{percents}
use kube_comp_mig.Autoscaler.Traffic.Split.{names, IsEven}
use kube_comp_mig.Autoscaler.Traffic.Shares.{scale_out_shares, scale_in_shares, replace_shares}
use kube_comp_mig.Autoscaler.Traffic.Replacement.{up, down}
use kube_comp_mig.Autoscaler.Traffic.Faults.{
  single_revision_panics, new_traffic-ne-err, newest_replaced_panics,
}

abbrev share : ℕ → String → TrafficTarget
share p name = record { percent = p; revision_name = name }

abbrev halves : List TrafficTarget
halves = share 50 "m-1" ∷ share 50 "m-2" ∷ []

scale_out-third :
    new_traffic scaling_out "m-1" "m-3" ("m-1" ∷ "m-2" ∷ "m-3" ∷ []) halves
    ≡ ok (share 34 "m-1" ∷ share 33 "m-2" ∷ share 33 "m-3" ∷ [])
unfolding new_traffic for_range split scale_out_body
scale_out-third = refl

-- The extra percent of the first position is lost.
scale_in-first :
    new_traffic scaling_in "m-1" "m-4"
      ("m-1" ∷ "m-2" ∷ "m-3" ∷ "m-4" ∷ [])
      (share 25 "m-1" ∷ share 25 "m-2" ∷ share 25 "m-3" ∷ share 25 "m-4" ∷ [])
    ≡ ok (share 33 "m-2" ∷ share 33 "m-3" ∷ share 33 "m-4" ∷ [])
unfolding new_traffic for_range split scale_in_body
scale_in-first = refl

scale_up-only :
    new_traffic scaling_up "m-1" "m-2" ("m-1" ∷ "m-2" ∷ []) (share 100 "m-1" ∷ [])
    ≡ ok (share 100 "m-2" ∷ [])
unfolding new_traffic for_range split replace_body
scale_up-only = refl

ne : (a b : String) → str_eq a b ≡ false → a ≢ b
ne a b h = ground (arith, eq_iff a b)

scale_out_shares_example :
    (ts : List TrafficTarget) × (new_traffic scaling_out "m-1" "m-3"
        ("m-1" ∷ "m-2" ∷ "m-3" ∷ [])
        halves
      ≡ ok ts)
    × (names ts ≡ "m-1" ∷ "m-2" ∷ "m-3" ∷ [])
    × IsEven 33 ts
    × (percents ts ≡ 100)
scale_out_shares_example = scale_out_shares "m-1" "m-3" ("m-1" ∷ "m-2" ∷ []) "m-3" halves refl

scale_in_shares_example :
    (ts : List TrafficTarget) × (new_traffic scaling_in "m-1" "m-2" ("m-1" ∷ "m-2" ∷ []) halves
      ≡ ok ts)
    × (names ts ≡ "m-2" ∷ [])
    × (percents ts + 0 ≡ 100)
scale_in_shares_example =
    scale_in_shares "m-1" "m-2" [] ("m-2" ∷ []) halves tt (ne "m-2" "m-1" refl, tt) (omega arith)
      refl

replace_shares_example :
    (ts : List TrafficTarget) × (new_traffic scaling_up "m-1" "m-2"
        ("m-1" ∷ "m-2" ∷ [])
        (share 100 "m-1" ∷ [])
      ≡ ok ts)
    × (names ts ≡ "m-2" ∷ [])
    × (percents ts + 0 ≡ 100)
replace_shares_example =
    replace_shares scaling_up "m-1" "m-2" [] [] "m-2" (share 100 "m-1" ∷ []) up tt tt
      (ne "m-2" "m-1" refl) refl

single_revision_panics_example :
    new_traffic scaling_in "m-1" "m-1" ("m-1" ∷ []) (share 100 "m-1" ∷ []) ≡ panic
single_revision_panics_example =
    single_revision_panics scaling_in "m-1" "m-1" "m-1" (share 100 "m-1" ∷ []) (λ h. cc)

new_traffic-ne-err_example :
    new_traffic scaling_in "m-1" "m-1" ("m-1" ∷ []) (share 100 "m-1" ∷ [])
    ≢ err "cannot scale in further"
new_traffic-ne-err_example =
    new_traffic-ne-err scaling_in "m-1" "m-1" ("m-1" ∷ []) (share 100 "m-1" ∷ [])
      "cannot scale in further"

newest_replaced_panics_example :
    new_traffic scaling_down "m-2" "m-2" ("m-1" ∷ "m-2" ∷ []) (share 100 "m-1" ∷ []) ≡ panic
newest_replaced_panics_example =
    newest_replaced_panics scaling_down "m-2" "m-2" ("m-1" ∷ []) (share 100 "m-1" ∷ []) down
      (ne "m-1" "m-2" refl, tt) (omega arith) refl
