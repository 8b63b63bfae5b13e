-- ===== src/Scheduler/Gpus/Takes.antt =====
-- Which GPUs the loop of `fitsRequest` accepts, by the labels of the node.
use kube_comp_mig.Prelude.{
  ℕ, ◌≡◌, refl, sym, ap, ◌∙◌, subst, ◌↔◌, ◌⊎◌, inl, inr, Bool, true, false, ◌&&◌, ◌||◌, String,
  Option, none, some, [], ◌∷◌, Any, if◌then◌else◌,
}
use Prim.Native.String.{◌++◌ as ◌<>◌}
use kube_comp_mig.Prelude.Integers.{ℤ, geb}
use kube_comp_mig.Prelude.Maps.{Map, string_eq, or_default, lookup}
use kube_comp_mig.Prelude.Outcomes.{Outcome, ok, err, panic, running, ok_injective, ◌>>=◌}
use kube_comp_mig.Prelude.Parsing.{parse_int, number_of, itoa}
use kube_comp_mig.Prelude.Text.{codes}
use kube_comp_mig.Scheduler.Slices.{extract_cpu_and_memory}
use kube_comp_mig.Scheduler.Demand.{Demand}
use kube_comp_mig.Scheduler.Gpus.{
  Use, passed, changed, direct, is_some, gpu_id, has_match, use_of, or_passed, gpu_step,
}
use kube_comp_mig.Scheduler.Gpus.Found.{Usable}

-- The label is there, names a slice, and the slice has so many compute slices and so much memory.
abbrev pub LabelHas : Option String → ℤ × ℤ → Type 0
LabelHas found (cpu, memory) =
    (label : String) × (found ≡ some label)
    × (c : ℤ) × (m : ℤ) × (extract_cpu_and_memory label ≡ ok (c, m))
    × (geb c cpu ≡ true)
    × (geb m memory ≡ true)

-- The label of a GPU for its largest slice is large enough.
abbrev pub Takes : Map String String → ℤ × ℤ → ℕ → Type 0
Takes labels sizes k =
    LabelHas (lookup (("kubecomp/status-gpu-" <> itoa k) <> "-max-mig") labels) sizes

-- So many of a slice are free on the GPU, a missing or unreadable label standing for 0.
abbrev pub Free : Map String String → ℕ → String → ℤ → Type 0
Free labels k slice n =
    let free =
      or_default ""
        (lookup (("kubecomp/status-gpu-" <> itoa k) <> ("-" <> (slice <> "-free"))) labels) in
    geb (number_of (parse_int (codes free))) n ≡ true

-- One of the slices is free on the GPU in its number.
abbrev pub OneFree : Map String String → Map String ℤ → ℕ → Type 0
OneFree labels slices k = Any (λ p. Free labels k p.0 p.1) slices

some_injective : {a b : String} → some a ≡ some b → a ≡ b
some_injective h = cc

or_iff : {P Q : Type 0} (a b : Bool) → (a ≡ true) ↔ P → (b ≡ true) ↔ Q → ((a || b) ≡ true) ↔ (P ⊎ Q)
or_iff true b f g = (λ h. inl (f.0 refl), λ h. refl)
or_iff false b f g = (λ h. inr (g.0 h), λ h. elim h [ inl p ↦ absurd (ne (f.1 p)) | inr q ↦ g.1 q ])
  where
    ne : false ≡ true → ⊥
    ne h = cc

has_match-OneFree :
    (labels : Map String String) (slices : Map String ℤ) (k : ℕ)
    → (has_match labels (gpu_id k) slices ≡ true) ↔ OneFree labels slices k
unfolding has_match
has_match-OneFree labels [] k = (λ h. ne h, λ h. absurd h)
  where
    ne : false ≡ true → ⊥
    ne h = cc
has_match-OneFree labels ((slice, n) ∷ rest) k =
    or_iff _ _ (λ h. h, λ h. h) (has_match-OneFree labels rest k)

-- What the two tests and the labels of free slices decide.
abbrev decided : Bool → Bool → Bool → Use
decided a b free = if a && b then if free then direct else changed else passed

abbrev IsUsable : Outcome Use → Type 0
IsUsable o = (o ≡ ok changed) ⊎ (o ≡ ok direct)

passed_ne : IsUsable (ok passed) → ⊥
passed_ne (inl h) = cc
passed_ne (inr h) = cc

decided-IsUsable : (a b free : Bool) → IsUsable (ok (decided a b free)) ↔ ((a ≡ true) × (b ≡ true))
decided-IsUsable true true true = (λ h. (refl, refl), λ h. inr refl)
decided-IsUsable true true false = (λ h. (refl, refl), λ h. inl refl)
decided-IsUsable true false free = (λ h. absurd (passed_ne h), λ h. absurd (ne h.1))
  where
    ne : false ≡ true → ⊥
    ne h = cc
decided-IsUsable false b free = (λ h. absurd (passed_ne h), λ h. absurd (ne h.0))
  where
    ne : false ≡ true → ⊥
    ne h = cc

decided-direct :
    (a b free : Bool)
    → (ok (decided a b free) ≡ ok direct) ↔ (((a ≡ true) × (b ≡ true)) × (free ≡ true))
decided-direct true true true = (λ h. ((refl, refl), refl), λ h. refl)
decided-direct true true false = (λ h. absurd (ne h), λ h. absurd (ne_true h.1))
  where
    ne : ok changed ≡ ok direct → ⊥
    ne h = cc

    ne_true : false ≡ true → ⊥
    ne_true h = cc
decided-direct true false free = (λ h. absurd (passed_ne (inr h)), λ h. absurd (ne h.0.1))
  where
    ne : false ≡ true → ⊥
    ne h = cc
decided-direct false b free = (λ h. absurd (passed_ne (inr h)), λ h. absurd (ne h.0.0))
  where
    ne : false ≡ true → ⊥
    ne h = cc

module _ (labels : Map String String) (d : Demand) (k : ℕ) where
  -- A round, by the label of the GPU and what is read from it.
  abbrev round : Option String → Outcome (ℤ × ℤ) → Outcome Use
  round found remain =
      or_passed (remain >>= λ remain. ok (use_of labels d (gpu_id k) (is_some found) remain))

  unlabelled : (o : Outcome (ℤ × ℤ)) → IsUsable (round none o) → ⊥
  unlabelled (ok (c, m)) h = passed_ne h
  unlabelled (err e) h = passed_ne h
  unlabelled panic (inl h) = cc
  unlabelled panic (inr h) = cc
  unlabelled running (inl h) = cc
  unlabelled running (inr h) = cc

  -- The sizes that a label names, and what the round makes of them.
  labelled :
      (label : String) (o : Outcome (ℤ × ℤ))
      → extract_cpu_and_memory label ≡ o
      → IsUsable (round (some label) o)
      → (c : ℤ) × (m : ℤ) × (o ≡ ok (c, m))
  labelled label (ok (c, m)) e h = (c, m, refl)
  labelled label (err x) e h = absurd (passed_ne h)
  labelled label panic e (inl h) = cc
  labelled label panic e (inr h) = cc
  labelled label running e (inl h) = cc
  labelled label running e (inr h) = cc

  round-sizes :
      (label : String) (c m : ℤ)
      → round (some label) (ok (c, m))
        ≡ ok (decided (geb c d.cpu) (geb m d.memory) (has_match labels (gpu_id k) d.slices))
  round-sizes label c m = refl

  same_sizes :
      (label : String) (c m : ℤ)
      → extract_cpu_and_memory label ≡ ok (c, m)
      → LabelHas (some label) (d.cpu, d.memory)
      → (geb c d.cpu ≡ true) × (geb m d.memory ≡ true)
  same_sizes label c m e (label', s, c', m', e', p, q) =
      let same : label ≡ label' = some_injective s in
      let pair : (c', m') ≡ (c, m) =
        ok_injective (c', m') (c, m) (sym e' ∙ sym (ap extract_cpu_and_memory same) ∙ e) in
      (ap (λ x. geb x.0 d.cpu) (sym pair) ∙ p, ap (λ x. geb x.1 d.memory) (sym pair) ∙ q)

  round-LabelHas :
      (found : Option String)
      → IsUsable (round found (extract_cpu_and_memory (or_default "" found)))
        ↔ LabelHas found (d.cpu, d.memory)
  round-LabelHas none =
      (λ h. absurd (unlabelled (extract_cpu_and_memory "") h), λ h. absurd (ne h.1))
    where
      ne : {label : String} → none ≡ some label → ⊥
      ne h = cc
  round-LabelHas (some label) = (
    λ h.
        let (c, m, e) = labelled label (extract_cpu_and_memory label) refl h in
        let tests =
          (decided-IsUsable (geb c d.cpu) (geb m d.memory) (has_match labels (gpu_id k) d.slices)).0
            (subst (λ o. IsUsable (round (some label) o)) e h) in
        (label, refl, c, m, e, tests.0, tests.1),
    λ (label', s, c, m, e', p, q).
        let e : extract_cpu_and_memory label ≡ ok (c, m) =
          ap extract_cpu_and_memory (some_injective s) ∙ e' in
        subst (λ o. IsUsable (round (some label) o)) (sym e)
          ((decided-IsUsable (geb c d.cpu) (geb m d.memory)
              (has_match labels (gpu_id k) d.slices)).1
            (p, q)),
  )

  round-direct :
      (found : Option String)
      → (round found (extract_cpu_and_memory (or_default "" found)) ≡ ok direct)
        ↔ (LabelHas found (d.cpu, d.memory) × OneFree labels d.slices k)
  round-direct none =
      (λ h. absurd (unlabelled (extract_cpu_and_memory "") (inr h)), λ h. absurd (ne h.0.1))
    where
      ne : {label : String} → none ≡ some label → ⊥
      ne h = cc
  round-direct (some label) = (
    λ h.
        let (c, m, e) = labelled label (extract_cpu_and_memory label) refl (inr h) in
        let tests =
          (decided-direct (geb c d.cpu) (geb m d.memory) (has_match labels (gpu_id k) d.slices)).0
            (sym (ap (round (some label)) e) ∙ h) in
        (
          (label, refl, c, m, e, tests.0.0, tests.0.1),
          (has_match-OneFree labels d.slices k).0 tests.1,
        ),
    λ (has, free).
        let (c, m, e) =
          labelled label (extract_cpu_and_memory label) refl
            ((round-LabelHas (some label)).1 has) in
        ap (round (some label)) e
        ∙ (decided-direct (geb c d.cpu) (geb m d.memory) (has_match labels (gpu_id k) d.slices)).1
            (same_sizes label c m e has, (has_match-OneFree labels d.slices k).1 free),
  )

  -- A round finds a use of the GPU exactly where the label for its largest slice is there and large
  -- enough.
  pub gpu_step-Takes : Usable (gpu_step labels d) k ↔ Takes labels (d.cpu, d.memory) k
  unfolding gpu_step
  gpu_step-Takes = round-LabelHas (lookup (gpu_id k <> "-max-mig") labels)

  -- The loop ends with a GPU exactly where, moreover, one kind of the requested slices is free.
  pub gpu_step-direct :
      (gpu_step labels d k ≡ ok direct)
      ↔ (Takes labels (d.cpu, d.memory) k × OneFree labels d.slices k)
  unfolding gpu_step
  gpu_step-direct = round-direct (lookup (gpu_id k <> "-max-mig") labels)
