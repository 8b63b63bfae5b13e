-- ===== src/Autoscaler/Registry/Search.antt =====
-- The index loops of `GetPrevAvailTier` and `GetNextAvailTier` against a search through a list.
use kube_comp_mig.Prelude.{
  ℕ, suc, ◌+◌, String, ◌≡◌, refl, sym, ap, ◌∙◌, Option, none, some, List, [], ◌∷◌, ◌++◌, arith, ltb,
  str_eq, if◌then◌else◌, length, length-append, get_elem?, All, true, false,
}
use kube_comp_mig.Prelude.Floats.{Float64}
use kube_comp_mig.Autoscaler.Resource.{GpuResource}
use kube_comp_mig.Autoscaler.Registry.{scan_down, scan_up, at_name, first_of_two}
use mathlib.Core.List.{append_assoc, reverse, reverse-cons}

module _ ⦃fl : Float64⦄ where
  -- The first tier of a list with a slice to spare.
  unfoldable pub first_available : (GpuResource → ℕ) → List GpuResource → Option GpuResource
  first_available avail [] = none
  first_available avail (r ∷ rest) =
      let later = first_available avail rest in if ltb 0 (avail r) then some r else later

  -- No tier of the list has the name.
  abbrev pub Unnamed : String → List GpuResource → Type 0
  Unnamed name = All (λ r. str_eq r.gpu_name name ≡ false)

  get_elem?-append :
      (xs : List GpuResource) (y : GpuResource) (ys : List GpuResource)
      → get_elem? (xs ++ y ∷ ys) (length xs) ≡ some y
  get_elem?-append [] y ys = refl
  get_elem?-append (x ∷ xs) y ys = get_elem?-append xs y ys

  pub length-reverse : (xs : List GpuResource) → length (reverse xs) ≡ length xs
  length-reverse [] = refl
  length-reverse (x ∷ xs) =
      rw (reverse-cons x xs) (omega (arith, length-append (reverse xs) (x ∷ []), length-reverse xs))

  looked_at :
      (xs : List GpuResource) (y : GpuResource) (ys : List GpuResource)
      → get_elem? (reverse xs ++ y ∷ ys) (length xs) ≡ some y
  looked_at xs y ys = rw (← length-reverse xs) (get_elem?-append (reverse xs) y ys)

  module _ (avail : GpuResource → ℕ) where
    pub scan_up_lem :
        (xs ys : List GpuResource) (i : ℕ)
        → i ≡ length xs
        → scan_up avail (xs ++ ys) (length ys) i ≡ first_available avail ys
    unfolding scan_up first_available
    scan_up_lem xs [] i e = refl
    scan_up_lem xs (y ∷ ys) i e =
        rw (e, get_elem?-append xs y ys)
          (ap (λ o. if ltb 0 (avail y) then some y else o)
            (ap (λ l. scan_up avail l (length ys) (length xs + 1))
                (sym (append_assoc xs (y ∷ []) ys))
              ∙ scan_up_lem (xs ++ y ∷ []) ys (length xs + 1)
                  (omega (arith, length-append xs (y ∷ [])))))

    pub scan_down_lem :
        (xs ys : List GpuResource)
        → scan_down avail (reverse xs ++ ys) (length xs) ≡ first_available avail xs
    unfolding scan_down first_available
    scan_down_lem [] ys = refl
    scan_down_lem (x ∷ xs) ys =
        ap (λ l. scan_down avail l (suc (length xs)))
          (ap (λ l. l ++ ys) (reverse-cons x xs) ∙ append_assoc (reverse xs) (x ∷ []) ys)
        ∙ rw (looked_at xs x ys)
            (ap (λ o. if ltb 0 (avail x) then some x else o) (scan_down_lem xs (x ∷ ys)))

  at_name-Unnamed :
      (name : String) (scan : ℕ → Option GpuResource) (i : ℕ) (xs : List GpuResource)
      → Unnamed name xs
      → at_name name scan i xs ≡ none
  unfolding at_name
  at_name-Unnamed name scan i [] h = refl
  at_name-Unnamed name scan i (x ∷ xs) h = rw h.0 (at_name-Unnamed name scan (i + 1) xs h.1)

  first_of_two-none : (o : Option GpuResource) → first_of_two o none ≡ o
  unfolding first_of_two
  first_of_two-none none = refl
  first_of_two-none (some r) = refl

  pub at_name_lem :
      (name : String) (scan : ℕ → Option GpuResource) (i : ℕ) (xs : List GpuResource)
      (r : GpuResource) (ys : List GpuResource)
      → str_eq r.gpu_name name ≡ true
      → Unnamed name xs
      → Unnamed name ys
      → at_name name scan i (xs ++ r ∷ ys) ≡ scan (i + length xs)
  unfolding at_name
  at_name_lem name scan i [] r ys e h k =
      rw (e, at_name-Unnamed name scan (i + 1) ys k)
        (first_of_two-none (scan i) ∙ ap scan (omega arith))
  at_name_lem name scan i (x ∷ xs) r ys e h k =
      rw h.0 (at_name_lem name scan (i + 1) xs r ys e h.1 k ∙ ap scan (omega arith))
