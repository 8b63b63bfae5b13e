-- ===== src/Autoscaler/Registry/Tiers.antt =====
-- What the registry answers, for the tables of tiers that it holds.
use kube_comp_mig.Prelude.{
  ℕ, ◌+◌, ◌-◌, String, ◌≡◌, refl, sym, ap, ◌∙◌, List, [], ◌∷◌, ◌<◌, ◌++◌, arith, ltb, str_eq,
  length, length-append, All, true, false, not, ◌&&◌, eq_iff, Bool, Bool-cases, inl, inr,
}
use kube_comp_mig.Prelude.Floats.{Float64}
use kube_comp_mig.Prelude.Outcomes.{Outcome, ok, err, panic, running}
use kube_comp_mig.Autoscaler.Resource.{GpuResource, GpuType, mig, mps, normal}
use kube_comp_mig.Autoscaler.Registry.{
  Node, tiers, avail_of, update_avail_tiers, get_prev_avail_tier, get_next_avail_tier, prev_in,
  next_in, found_or, scan_up, scan_down,
}
use kube_comp_mig.Autoscaler.Registry.Search.{
  first_available, Unnamed, scan_up_lem, scan_down_lem, at_name_lem, length-reverse,
}
use mathlib.Core.List.{reverse, append_assoc}

module _ ⦃fl : Float64⦄ where
  unnamed : String → List GpuResource → Bool
  unnamed name [] = true
  unnamed name (r ∷ rest) = not (str_eq r.gpu_name name) && unnamed name rest

  distinct : List GpuResource → Bool
  unfolding unnamed
  distinct [] = true
  distinct (r ∷ rest) = unnamed r.gpu_name rest && distinct rest

  distinct-tiers : (t : GpuType) → distinct (tiers t) ≡ true
  unfolding distinct tiers
  distinct-tiers mig = refl
  distinct-tiers mps = refl
  distinct-tiers normal = refl

  unnamed-Unnamed :
      (name : String) (xs : List GpuResource) → unnamed name xs ≡ true → Unnamed name xs
  unfolding unnamed
  unnamed-Unnamed name [] h = tt
  unnamed-Unnamed name (x ∷ xs) h = (ground arith, unnamed-Unnamed name xs (ground arith))

  str_eq_symm : (a b : String) → str_eq a b ≡ false → str_eq b a ≡ false
  str_eq_symm a b h = ground (arith, eq_iff a b, eq_iff b a)

  unnamed-append :
      (name : String) (xs : List GpuResource) (r : GpuResource) (ys : List GpuResource)
      → unnamed name (xs ++ r ∷ ys) ≡ true
      → str_eq r.gpu_name name ≡ false
  unfolding unnamed
  unnamed-append name [] r ys h = ground arith
  unnamed-append name (x ∷ xs) r ys h = unnamed-append name xs r ys (ground arith)

  -- In a table with distinct names no other tier has the name of the current one.
  distinct-Unnamed :
      (below : List GpuResource) (r : GpuResource) (above : List GpuResource)
      → distinct (below ++ r ∷ above) ≡ true
      → Unnamed r.gpu_name below × Unnamed r.gpu_name above
  unfolding distinct
  distinct-Unnamed [] r above h = (tt, unnamed-Unnamed r.gpu_name above (ground arith))
  distinct-Unnamed (x ∷ below) r above h =
      let later = distinct-Unnamed below r above (ground arith) in
      let here = unnamed-append x.gpu_name below r above (ground arith) in
      ((str_eq_symm r.gpu_name x.gpu_name here, later.0), later.1)

  -- The outcome is the first tier of the list with a slice to spare, or an error where there is none.
  abbrev pub FirstFree : (GpuResource → ℕ) → List GpuResource → Outcome GpuResource → Type 0
  FirstFree avail list (ok r) =
      (skipped rest : List GpuResource) × (list ≡ skipped ++ r ∷ rest)
      × All (λ q. avail q ≡ 0) skipped
      × (0 < avail r)
  FirstFree avail list (err e) = All (λ q. avail q ≡ 0) list
  FirstFree avail list panic = ⊥
  FirstFree avail list running = ⊥

  FirstFree-cons :
      (avail : GpuResource → ℕ) (x : GpuResource) (list : List GpuResource)
      (o : Outcome GpuResource)
      → avail x ≡ 0
      → FirstFree avail list o
      → FirstFree avail (x ∷ list) o
  FirstFree-cons avail x list (ok r) z (skipped, rest, e, taken, free) =
      (x ∷ skipped, rest, ap (λ l. x ∷ l) e, (z, taken), free)
  FirstFree-cons avail x list (err e) z h = (z, h)
  FirstFree-cons avail x list panic z h = h
  FirstFree-cons avail x list running z h = h

  first_available-FirstFree :
      (avail : GpuResource → ℕ) (message : String) (list : List GpuResource)
      → FirstFree avail list (found_or message (first_available avail list))
  unfolding first_available found_or
  first_available-FirstFree avail message [] = tt
  first_available-FirstFree avail message (x ∷ list) = elim (Bool-cases (ltb 0 (avail x))) [
    | inl free ↦ rw free ([], list, refl, tt, ground arith)
    | inr taken ↦ rw taken (
        FirstFree-cons avail x list (found_or message (first_available avail list)) (ground arith)
          (first_available-FirstFree avail message list))
  ]

  self_named : (r : GpuResource) → str_eq r.gpu_name r.gpu_name ≡ true
  self_named r = (eq_iff r.gpu_name r.gpu_name).1 refl

  next_in_lem :
      (avail : GpuResource → ℕ) (below : List GpuResource) (r : GpuResource)
      (above : List GpuResource)
      → distinct (below ++ r ∷ above) ≡ true
      → next_in avail (below ++ r ∷ above) r ≡ first_available avail above
  unfolding next_in
  next_in_lem avail below r above h =
      let apart = distinct-Unnamed below r above h in
      let i = 0 + length below + 1 in
      at_name_lem r.gpu_name
        (λ idx.
          scan_up avail (below ++ r ∷ above) (length (below ++ r ∷ above) - (idx + 1)) (idx + 1))
        0 below r above (self_named r) apart.0 apart.1
      ∙ ap (λ k. scan_up avail (below ++ r ∷ above) k i)
          (omega (arith, length-append below (r ∷ above)))
      ∙ ap (λ l. scan_up avail l (length above) i) (sym (append_assoc below (r ∷ []) above))
      ∙ scan_up_lem avail (below ++ r ∷ []) above i (omega (arith, length-append below (r ∷ [])))

  prev_in_lem :
      (avail : GpuResource → ℕ) (below : List GpuResource) (r : GpuResource)
      (above : List GpuResource)
      → distinct (reverse below ++ r ∷ above) ≡ true
      → prev_in avail (reverse below ++ r ∷ above) r ≡ first_available avail below
  unfolding prev_in
  prev_in_lem avail below r above h =
      let apart = distinct-Unnamed (reverse below) r above h in
      at_name_lem r.gpu_name (scan_down avail (reverse below ++ r ∷ above)) 0 (reverse below) r
        above (self_named r) apart.0 apart.1
      ∙ ap (scan_down avail (reverse below ++ r ∷ above)) (omega (arith, length-reverse below))
      ∙ scan_down_lem avail below (r ∷ above)

  -- For a tier of the tables, `GetNextAvailTier` returns the first tier above it that has a slice to
  -- spare, and an error exactly where no tier above it has one.
  pub next_tier :
      (nodes : List Node) (below : List GpuResource) (current : GpuResource)
      (above : List GpuResource)
      → tiers current.gpu_type ≡ below ++ current ∷ above
      → FirstFree
          (avail_of (update_avail_tiers nodes) current.gpu_type)
          above
          (get_next_avail_tier nodes current)
  unfolding get_next_avail_tier
  next_tier nodes below current above e =
      rw
        (
          e,
          next_in_lem (avail_of (update_avail_tiers nodes) current.gpu_type) below current above
              (rw (← e) (distinct-tiers current.gpu_type)),
        )
        (first_available-FirstFree (avail_of (update_avail_tiers nodes) current.gpu_type) _ above)

  -- For a tier of the tables, `GetPrevAvailTier` returns the nearest tier below it that has a slice to
  -- spare, and an error exactly where no tier below it has one. `below` lists the lower tiers, the
  -- nearest first.
  pub prev_tier :
      (nodes : List Node) (below : List GpuResource) (current : GpuResource)
      (above : List GpuResource)
      → tiers current.gpu_type ≡ reverse below ++ current ∷ above
      → FirstFree
          (avail_of (update_avail_tiers nodes) current.gpu_type)
          below
          (get_prev_avail_tier nodes current)
  unfolding get_prev_avail_tier
  prev_tier nodes below current above e =
      rw
        (
          e,
          prev_in_lem (avail_of (update_avail_tiers nodes) current.gpu_type) below current above
              (rw (← e) (distinct-tiers current.gpu_type)),
        )
        (first_available-FirstFree (avail_of (update_avail_tiers nodes) current.gpu_type) _ below)
