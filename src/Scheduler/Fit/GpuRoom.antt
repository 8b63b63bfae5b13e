-- ===== src/Scheduler/Fit/GpuRoom.antt =====
-- When `fitsRequest` finds a GPU for the slices of a pod.
use kube_comp_mig.Prelude.{
  ℕ, ◌≡◌, refl, sym, ap, ◌∙◌, ◌↔◌, ◌⊎◌, inl, inr, Bool, true, false, not, String, Option, none,
  some, List, [], ◌∷◌, ◌++◌, arith, ==_iff, ◌||◌, if◌then◌else◌,
}
use kube_comp_mig.Prelude.Integers.{ℤ, pos, negsuc}
use kube_comp_mig.Prelude.Maps.{string_eq, lookup, or_default}
use kube_comp_mig.Prelude.Parsing.{parse_int, number_of}
use kube_comp_mig.Prelude.Text.{codes}
use kube_comp_mig.Prelude.Outcomes.{ok, >>=-ok, ok_injective, ◌>>=◌}
use kube_comp_mig.Scheduler.Demand.{NodeInfo, InsufficientResource, Demand}
use kube_comp_mig.Scheduler.Demand.Covered.{append-nil_both, iff_trans}
use kube_comp_mig.Scheduler.Gpus.{is_some, gpu_step, gpu_loop, rounds}
use kube_comp_mig.Scheduler.Gpus.Found.{Usable, Round, gpu_loop-Found}
use kube_comp_mig.Scheduler.Gpus.Takes.{Takes, gpu_step-Takes}
use kube_comp_mig.Scheduler.Fit.{
  Verdict, gpu_count_label, total_gpu, is_zero, lacking, check_gpus, no_gpus, without_gpus,
  with_gpus,
}

-- One of the GPUs that the node counts has a label for its largest slice that is large enough.
abbrev pub GpuRoom : NodeInfo → ℤ × ℤ → Type 0
GpuRoom node sizes = Round 0 (rounds (total_gpu node.labels)) (Takes node.labels sizes)

-- The same rounds have properties that agree.
pub Round-iff : (i n : ℕ) {P Q : ℕ → Type 0} → ((k : ℕ) → P k ↔ Q k) → Round i n P ↔ Round i n Q
Round-iff i n f = (λ (k, l, u, p). (k, l, u, (f k).0 p), λ (k, l, u, q). (k, l, u, (f k).1 q))

pub apart : {b : Bool} → b ≡ true → b ≡ false → ⊥
apart h k = cc

cons_ne : (x : InsufficientResource) → x ∷ [] ≡ [] → ⊥
cons_ne x e = cc

append_iff : (xs ys : List InsufficientResource) → (xs ++ ys ≡ []) ↔ ((xs ≡ []) × (ys ≡ []))
append_iff xs ys = append-nil_both xs ys (λ h. h, λ h. h) (λ h. h, λ h. h)

no_rounds : (node : NodeInfo) → no_gpus node ≡ true → rounds (total_gpu node.labels) ≡ 0
unfolding parse_int
no_rounds node h = of_label (lookup gpu_count_label node.labels) h
  where
    count : Option String → ℤ
    count label = number_of (parse_int (codes (or_default "" label)))

    of_zero : (z : ℤ) → is_zero z ≡ true → rounds z ≡ 0
    of_zero (pos n) h = (==_iff n 0).0 h
    of_zero (negsuc n) h = refl

    of_label :
        (label : Option String)
        → (not (is_some label) || is_zero (count label)) ≡ true
        → rounds (count label) ≡ 0
    of_label none h = refl
    of_label (some text) h = of_zero (count (some text)) h

pub check_gpus-empty :
    (node : NodeInfo) (d : Demand) (v : Verdict)
    → check_gpus node d ≡ ok v
    → (v.insufficient ≡ []) ↔ ((d.insufficient ≡ []) × GpuRoom node (d.cpu, d.memory))
unfolding check_gpus
check_gpus-empty node d v h = by_count (no_gpus node) refl h
  where
    sufficient :
        (b : Bool) (x : InsufficientResource) → ((if b then [] else x ∷ []) ≡ []) ↔ (b ≡ true)
    sufficient true x = (λ _. refl, λ _. refl)
    sufficient false x = (λ e. absurd (cons_ne x e), λ e. absurd (apart e refl))

    found : (b : Bool) (P : Type 0) → (b ≡ true) ↔ ((false ≡ true) ⊎ P) → (b ≡ true) ↔ P
    found b P f =
        (λ e. elim (f.0 e) [ inl t ↦ absurd (apart t refl) | inr p ↦ p ], λ p. f.1 (inr p))

    emptied : (w : Verdict) → w ≡ v → (v.insufficient ≡ []) ↔ (w.insufficient ≡ [])
    emptied w e = (λ k. ap (λ x. x.insufficient) e ∙ k, λ k. sym (ap (λ x. x.insufficient) e) ∙ k)

    looped :
        (r : Bool × Bool)
        → gpu_loop (gpu_step node.labels d) (rounds (total_gpu node.labels)) 0 false ≡ ok r
        → (with_gpus node d r).insufficient ≡ []
          ↔ ((d.insufficient ≡ []) × GpuRoom node (d.cpu, d.memory))
    looped (f, r) e =
        let n = rounds (total_gpu node.labels) in
        append-nil_both d.insufficient _ (λ k. k, λ k. k)
          (iff_trans (sufficient f (lacking "mig" "Insufficient mig")) (
            iff_trans
              (found f (Round 0 n (Usable (gpu_step node.labels d)))
                (gpu_loop-Found (gpu_step node.labels d) n 0 false (f, r) e).0)
              (Round-iff 0 n (gpu_step-Takes node.labels d))))

    by_count :
        (b : Bool)
        → no_gpus node ≡ b
        → (if b
            then ok (without_gpus node d)
            else (gpu_loop (gpu_step node.labels d) (rounds (total_gpu node.labels)) 0 false
                >>= λ r. ok (with_gpus node d r)))
          ≡ ok v
        → (v.insufficient ≡ []) ↔ ((d.insufficient ≡ []) × GpuRoom node (d.cpu, d.memory))
    by_count true e h =
        iff_trans (emptied (without_gpus node d) (ok_injective (without_gpus node d) v h)) (
          λ k. absurd (cons_ne _ ((append_iff d.insufficient (_ ∷ [])).0 k).1),
          λ k. absurd (below (no_rounds node e) k.1),
        )
      where
        below : rounds (total_gpu node.labels) ≡ 0 → GpuRoom node (d.cpu, d.memory) → ⊥
        below z (k, l, u, p) = omega (arith, z)
    by_count false e h =
        let (r, p, q) =
          >>=-ok (gpu_loop (gpu_step node.labels d) (rounds (total_gpu node.labels)) 0 false)
            (λ r. ok (with_gpus node d r)) v h in
        iff_trans (emptied (with_gpus node d r) (ok_injective (with_gpus node d r) v q))
          (looped r p)
