-- ===== src/Scheduler/Demand/Missing.antt =====
-- What one pass of the loop over the scalar resources adds to the list.
use kube_comp_mig.Prelude.{
  ℕ, ◌+◌, ◌≤◌, ◌≡◌, refl, sym, ap, ◌∙◌, ◌↔◌, ◌⊎◌, inl, inr, Bool, true, false, String, Option, none,
  some, List, [], ◌∷◌, All, get_elem?, ==_iff, ◌==◌, str_eq, if◌then◌else◌, eq_iff,
}
use kube_comp_mig.Prelude.Integers.{ℤ}
use kube_comp_mig.Prelude.Maps.{Map, string_eq, or_default, lookup}
use kube_comp_mig.Prelude.Outcomes.{
  Outcome, ok, err, panic, running, >>=-ok, ok_injective, ◌>>=◌, for_range, for_range-cons,
  for_range-nil,
}
use kube_comp_mig.Prelude.Text.{split_on, slice_to, slice_from}
use kube_comp_mig.Scheduler.Slices.{extract_cpu_and_memory}
use kube_comp_mig.Scheduler.Demand.{
  NodeInfo, Ignored, Demand, skips, add_slice_capacity, add_slice, compare_scalar, second,
  ask_scalar, scalar_step, scalar_loop, mig_resource_prefix,
}
use kube_comp_mig.Scheduler.Demand.Covered.{ScalarCovered, SaysSlice, compare_scalar-empty}

apart : {b : Bool} → b ≡ true → b ≡ false → ⊥
apart h k = cc

left_alone :
    {C : Type 0} (d e : Demand) → C → d ≡ e → (e.insufficient ≡ []) ↔ ((d.insufficient ≡ []) × C)
left_alone d e s h =
    (λ k. (ap (λ x. x.insufficient) h ∙ k, s), λ k. sym (ap (λ x. x.insufficient) h) ∙ k.0)

-- What is added for a slice leaves the list as it is.
add_slice-kept :
    (quantity : ℕ) (slice : String) (d e : Demand)
    → add_slice quantity slice d ≡ ok e
    → e.insufficient ≡ d.insufficient
unfolding add_slice add_slice_capacity
add_slice-kept quantity slice d e h = kept (extract_cpu_and_memory slice) _ refl h
  where
    kept :
        (o : Outcome (ℤ × ℤ)) (noted : Demand)
        → noted.insufficient ≡ d.insufficient
        → add_slice_capacity o noted ≡ ok e
        → e.insufficient ≡ d.insufficient
    kept (ok c) noted same h = ap (λ x. x.insufficient) (sym (ok_injective _ e h)) ∙ same
    kept (err m) noted same h = ap (λ x. x.insufficient) (sym (ok_injective noted e h)) ∙ same
    kept panic noted same h = absurd (ne h)
      where
        ne : panic ≡ ok e → ⊥
        ne h = cc
    kept running noted same h = absurd (ne h)
      where
        ne : running ≡ ok e → ⊥
        ne h = cc

-- Which rest of a name there is, and how it begins.
asked_part :
    (node : NodeInfo) (name : String) (quantity : ℕ) (parts : List String) (d e : Demand)
    → ask_scalar node name quantity parts d ≡ ok e
    → (part : String) × (get_elem? parts 1 ≡ some part)
      × (head : String) × (slice_to 3 part ≡ ok head)
      × ((str_eq head "mig" ≡ true) × (e.insufficient ≡ d.insufficient)
          ⊎ (str_eq head "mig" ≡ false) × (e ≡ compare_scalar node name quantity d))
unfolding ask_scalar
asked_part node name quantity parts d e h =
    let (part, p, h1) = >>=-ok (second (get_elem? parts 1)) (of_part) e h in
    let (head, q, h2) = >>=-ok (slice_to 3 part) (of_head part) e h1 in
    (part, second_some (get_elem? parts 1) part p, head, q, branch part (str_eq head "mig") h2)
  where
    of_head : String → String → Outcome Demand
    of_head part head =
        if str_eq head mig_resource_prefix
        then (slice_from 4 part >>= λ slice. add_slice quantity slice d)
        else ok (compare_scalar node name quantity d)

    of_part : String → Outcome Demand
    of_part part = slice_to 3 part >>= of_head part

    second_some : (o : Option String) (part : String) → second o ≡ ok part → o ≡ some part
    second_some none part h = absurd (ne h)
      where
        ne : panic ≡ ok part → ⊥
        ne h = cc
    second_some (some p) part h = ap some (ok_injective p part h)

    branch :
        (part : String) (b : Bool)
        → (if b
            then (slice_from 4 part >>= λ slice. add_slice quantity slice d)
            else ok (compare_scalar node name quantity d))
          ≡ ok e
        → (b ≡ true) × (e.insufficient ≡ d.insufficient)
          ⊎ (b ≡ false) × (e ≡ compare_scalar node name quantity d)
    branch part true h =
        let (slice, s, g) = >>=-ok (slice_from 4 part) (λ slice. add_slice quantity slice d) e h in
        inl (refl, add_slice-kept quantity slice d e g)
    branch part false h = inr (refl, sym (ok_injective (compare_scalar node name quantity d) e h))

ask_scalar-empty :
    (node : NodeInfo) (name : String) (quantity : ℕ) (parts : List String) (d e : Demand)
    → ask_scalar node name quantity parts d ≡ ok e
    → (e.insufficient ≡ []) ↔ (
        (d.insufficient ≡ [])
        × (SaysSlice parts
            ⊎ (or_default 0 (lookup name node.requested.scalar_resources) + quantity
                ≤ or_default 0 (lookup name node.allocatable.scalar_resources))))
ask_scalar-empty node name quantity parts d e h =
    by_part (asked_part node name quantity parts d e h)
  where
    Fits : Type 0
    Fits =
        or_default 0 (lookup name node.requested.scalar_resources) + quantity
        ≤ or_default 0 (lookup name node.allocatable.scalar_resources)

    fits :
        (part head : String)
        → get_elem? parts 1 ≡ some part
        → slice_to 3 part ≡ ok head
        → str_eq head "mig" ≡ false
        → SaysSlice parts ⊎ Fits
        → Fits
    fits part head p q f (inl (part', p', q')) =
        let same : part' ≡ part = some_injective (sym p' ∙ p) in
        let mig : "mig" ≡ head = ok_injective "mig" head (sym q' ∙ ap (slice_to 3) same ∙ q) in
        absurd (apart ((eq_iff head "mig").1 (sym mig)) f)
      where
        some_injective : {a b : String} → some a ≡ some b → a ≡ b
        some_injective h = cc
    fits part head p q f (inr le) = le

    by_part :
        (part : String) × (get_elem? parts 1 ≡ some part)
          × (head : String) × (slice_to 3 part ≡ ok head)
          × ((str_eq head "mig" ≡ true) × (e.insufficient ≡ d.insufficient)
              ⊎ (str_eq head "mig" ≡ false) × (e ≡ compare_scalar node name quantity d))
        → (e.insufficient ≡ []) ↔ ((d.insufficient ≡ []) × (SaysSlice parts ⊎ Fits))
    by_part (part, p, head, q, inl (t, same)) =
        (λ k. (sym same ∙ k, inl (part, p, q ∙ ap ok ((eq_iff head "mig").0 t))), λ k. same ∙ k.0)
    by_part (part, p, head, q, inr (f, same)) =
        let scalar = compare_scalar-empty node name quantity d in
        (
          λ k. let r = scalar.0 (sym (ap (λ x. x.insufficient) same) ∙ k) in (r.0, inr r.1),
          λ k. ap (λ x. x.insufficient) same ∙ scalar.1 (k.0, fits part head p q f k.1),
        )

-- One round of the loop finds nothing missing where its resource is covered.
scalar_step-empty :
    (ignored : Ignored) (node : NodeInfo) (name : String) (quantity : ℕ) (d e : Demand)
    → scalar_step ignored node (name, quantity) d ≡ ok e
    → (e.insufficient ≡ []) ↔ ((d.insufficient ≡ []) × ScalarCovered ignored node (name, quantity))
unfolding scalar_step
scalar_step-empty ignored node name quantity d e h =
    by_test (quantity == 0) (skips ignored name parts) refl refl h
  where
    parts : List String
    parts = split_on 47 name

    left :
        (quantity == 0) ≡ false
        → skips ignored name parts ≡ false
        → ScalarCovered ignored node (name, quantity)
        → SaysSlice parts
          ⊎ (or_default 0 (lookup name node.requested.scalar_resources) + quantity
              ≤ or_default 0 (lookup name node.allocatable.scalar_resources))
    left z k (inl e) = absurd (apart ((==_iff quantity 0).1 e) z)
    left z k (inr (inl t)) = absurd (apart t k)
    left z k (inr (inr s)) = s

    by_test :
        (b c : Bool)
        → (quantity == 0) ≡ b
        → skips ignored name parts ≡ c
        → (if b then ok d else if c then ok d else ask_scalar node name quantity parts d) ≡ ok e
        → (e.insufficient ≡ [])
          ↔ ((d.insufficient ≡ []) × ScalarCovered ignored node (name, quantity))
    by_test true c z k h = left_alone d e (inl ((==_iff quantity 0).0 z)) (ok_injective d e h)
    by_test false true z k h = left_alone d e (inr (inl k)) (ok_injective d e h)
    by_test false false z k h =
        let f = ask_scalar-empty node name quantity parts d e h in
        (λ a. let r = f.0 a in (r.0, inr (inr r.1)), λ a. f.1 (a.0, left z k a.1))

for_range-empty :
    (ignored : Ignored) (node : NodeInfo) (i : ℕ) (scalars : Map String ℕ) (d e : Demand)
    → for_range (λ _. scalar_step ignored node) i scalars d ≡ ok e
    → (e.insufficient ≡ []) ↔ ((d.insufficient ≡ []) × All (ScalarCovered ignored node) scalars)
for_range-empty ignored node i [] d e h =
    let same = ap (λ x. x.insufficient) (ok_injective d e (sym (for_range-nil _ i d) ∙ h)) in
    (λ k. (same ∙ k, tt), λ k. sym same ∙ k.0)
for_range-empty ignored node i ((name, quantity) ∷ rest) d e h =
    let (f, p, q) =
      >>=-ok (scalar_step ignored node (name, quantity) d)
        (λ f. for_range (λ _. scalar_step ignored node) (i + 1) rest f) e
        (sym (for_range-cons (λ _. scalar_step ignored node) i (name, quantity) rest d) ∙ h) in
    let one = scalar_step-empty ignored node name quantity d f p in
    let more = for_range-empty ignored node (i + 1) rest f e q in
    (
      λ k. let a = more.0 k in let b = one.0 a.0 in (b.0, (b.1, a.1)),
      λ k. more.1 (one.1 (k.0, k.1.0), k.1.1),
    )

pub scalar_loop-empty :
    (ignored : Ignored) (node : NodeInfo) (scalars : Map String ℕ) (d e : Demand)
    → scalar_loop ignored node scalars d ≡ ok e
    → (e.insufficient ≡ []) ↔ ((d.insufficient ≡ []) × All (ScalarCovered ignored node) scalars)
unfolding scalar_loop
scalar_loop-empty ignored node scalars d e h = for_range-empty ignored node 0 scalars d e h
