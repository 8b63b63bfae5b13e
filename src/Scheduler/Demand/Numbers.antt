-- ===== src/Scheduler/Demand/Numbers.antt =====
-- The numbers of slices that a pod requests.
use kube_comp_mig.Prelude.{
  ℕ, ◌+◌, ◌<◌, ◌≡◌, ap, ◌∙◌, subst, ◌⊎◌, true, false, String, Option, none, some, [], ◌∷◌, arith,
  str_eq, eq_iff, Bool-cases, inl, inr, if◌then◌else◌,
}
use kube_comp_mig.Prelude.Integers.{ℤ, pos, add_int64, add_int64-pos}
use kube_comp_mig.Prelude.Maps.{Map, string_eq, or_default, lookup, lookup-insert}
use kube_comp_mig.Prelude.Outcomes.{ok}
use kube_comp_mig.Scheduler.Demand.{NodeInfo, Ignored, Demand, scalar_loop}
use kube_comp_mig.Scheduler.Demand.Asked.{slice_of, noted, noted_all}
use kube_comp_mig.Scheduler.Demand.Summed.{scalar_loop-asked}

-- The quantity, where the entry is for this slice.
abbrev number_in : String → Option String → ℕ → ℕ
number_in slice none quantity = 0
number_in slice (some asked) quantity = if str_eq asked slice then quantity else 0

-- How many of a slice the resources request, all together.
abbrev pub number_asked : Ignored → String → Map String ℕ → ℕ
number_asked ignored slice [] = 0
number_asked ignored slice (e ∷ rest) =
    number_in slice (slice_of ignored e) e.1 + number_asked ignored slice rest

-- What the map says of a slice, 0 where it has no entry.
abbrev pub number_noted : String → Map String ℤ → ℤ
number_noted slice m = or_default (pos 0) (lookup slice m)

noted-number :
    (slice : String) (o : Option String) (quantity : ℕ) (m : Map String ℤ) (n : ℕ)
    → number_noted slice m ≡ pos n
    → n + number_in slice o quantity < 9223372036854775808
    → number_noted slice (noted o quantity m) ≡ pos (n + number_in slice o quantity)
noted-number slice none quantity m n h l = h ∙ ap pos (omega arith)
noted-number slice (some asked) quantity m n h l =
    ap (or_default (pos 0))
      (lookup-insert asked slice (add_int64 (number_noted asked m) (pos quantity)) m)
    ∙ by_name (Bool-cases (str_eq asked slice)) l
  where
    by_name :
        (str_eq asked slice ≡ true) ⊎ (str_eq asked slice ≡ false)
        → n + (if str_eq asked slice then quantity else 0) < 9223372036854775808
        → or_default (pos 0) (
            if str_eq asked slice
            then some (add_int64 (number_noted asked m) (pos quantity))
            else lookup slice m)
          ≡ pos (n + (if str_eq asked slice then quantity else 0))
    by_name (inl e) l =
        let small : n + quantity < 9223372036854775808 =
          subst (λ b. n + (if b then quantity else 0) < 9223372036854775808) e l in
        let own : number_noted asked m ≡ pos n =
          ap (λ x. number_noted x m) ((eq_iff asked slice).0 e) ∙ h in
        rw (e) (ap (λ z. add_int64 z (pos quantity)) own ∙ add_int64-pos n quantity small)
    by_name (inr e) l = let same : n ≡ n + 0 = omega arith in rw (e) (h ∙ ap pos same)

noted_all-number :
    (ignored : Ignored) (slice : String) (scalars : Map String ℕ) (m : Map String ℤ) (n : ℕ)
    → number_noted slice m ≡ pos n
    → n + number_asked ignored slice scalars < 9223372036854775808
    → number_noted slice (noted_all ignored scalars m)
      ≡ pos (n + number_asked ignored slice scalars)
noted_all-number ignored slice [] m n h l = h ∙ ap pos (omega arith)
noted_all-number ignored slice (e ∷ rest) m n h l =
    let o = slice_of ignored e in
    noted_all-number ignored slice rest (noted o e.1 m) (n + number_in slice o e.1)
      (noted-number slice o e.1 m n h (omega (arith, l))) (omega (arith, l))
    ∙ ap pos (omega arith)

-- When the loop over the scalar resources returns and a slice has no entry before it, the map of the
-- requests says of the slice how many of it the resources that name it request together, for numbers
-- below 2^63; resources that are left out count as none.
pub scalar_loop-number :
    (ignored : Ignored) (node : NodeInfo) (scalars : Map String ℕ) (d e : Demand) (slice : String)
    → scalar_loop ignored node scalars d ≡ ok e
    → lookup slice d.slices ≡ none
    → number_asked ignored slice scalars < 9223372036854775808
    → number_noted slice e.slices ≡ pos (number_asked ignored slice scalars)
scalar_loop-number ignored node scalars d e slice h z l =
    ap (number_noted slice) (scalar_loop-asked ignored node scalars d e h).2
    ∙ noted_all-number ignored slice scalars d.slices 0 (ap (or_default (pos 0)) z)
        (omega (arith, l))
    ∙ ap pos (omega arith)
