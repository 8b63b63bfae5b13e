-- ===== src/Scheduler/Slices/Printed.antt =====
-- Reading the printed name of a slice.
use kube_comp_mig.Prelude.{
  ℕ, ◌+◌, ◌-◌, ◌≤◌, ◌<◌, ◌≡◌, refl, sym, ap, ◌∙◌, List, [], ◌∷◌, ◌++◌, false, String, length, take,
  drop, ltb, arith, length-append,
}
use Prim.Native.String.{◌++◌ as ◌<>◌}
use kube_comp_mig.Prelude.Integers.{pos}
use kube_comp_mig.Prelude.Outcomes.{ok}
use kube_comp_mig.Prelude.Parsing.{
  parse_int, value, itoa, parse_int-itoa, codes-append, itoa-digit, codes-digit,
}
use kube_comp_mig.Prelude.Text.{codes, max_int64}
use kube_comp_mig.Scheduler.Slices.{middle, extract_codes, extract_cpu_and_memory}

-- The name of a slice with some compute slices and some gigabytes: 1g.5gb.
abbrev pub slice_name : ℕ → ℕ → String
slice_name cpu memory = itoa cpu <> ("g." <> (itoa memory <> "gb"))

take-append : {A : Type 0} (xs ys : List A) (n : ℕ) → n ≡ length xs → take n (xs ++ ys) ≡ xs
take-append [] ys n e = rw (e) refl
take-append (x ∷ xs) ys n e = rw (e) (ap (λ t. x ∷ t) (take-append xs ys (length xs) refl))

middle-long : (s : List ℕ) → 5 ≤ length s → middle s ≡ ok (take (length s - 5) (drop 3 s))
unfolding middle
middle-long s h = let long : ltb (length s) 5 ≡ false = ground arith in rw (long) refl

middle-name :
    (c : ℕ) (digits : List ℕ) → middle (c ∷ codes "g." ++ (digits ++ codes "gb")) ≡ ok digits
middle-name c digits =
    let s = digits ++ codes "gb" in
    let n : length s ≡ length digits + 2 = length-append digits (codes "gb") in
    middle-long (c ∷ codes "g." ++ s) (omega (arith, n))
    ∙ ap ok (take-append digits (codes "gb") (length (c ∷ codes "g." ++ s) - 5) (omega (arith, n)))

name_codes :
    (cpu memory : ℕ)
    → cpu < 10
    → codes (slice_name cpu memory)
      ≡ ((48 + cpu) ∷ codes "g." ++ (codes (itoa memory) ++ codes "gb"))
name_codes cpu memory h =
    codes-append (itoa cpu) ("g." <> (itoa memory <> "gb"))
    ∙ ap (λ t. t ++ codes ("g." <> (itoa memory <> "gb")))
        (ap codes (itoa-digit cpu h) ∙ codes-digit cpu h)
    ∙ ap (λ t. (48 + cpu) ∷ t) (codes-append "g." (itoa memory <> "gb"))
    ∙ ap (λ t. (48 + cpu) ∷ codes "g." ++ t) (codes-append (itoa memory) "gb")

first_number : (cpu : ℕ) → cpu < 10 → parse_int ((48 + cpu) ∷ []) ≡ value (pos cpu)
first_number cpu h =
    ap parse_int (sym (ap codes (itoa-digit cpu h) ∙ codes-digit cpu h))
    ∙ parse_int-itoa cpu (omega arith)

-- Reading the name of a slice with a single digit of compute slices, and with gigabytes that fit an
-- int64, gives the two numbers that the name was printed from.
pub extract-slice_name :
    (cpu memory : ℕ)
    → cpu < 10
    → memory ≤ max_int64
    → extract_cpu_and_memory (slice_name cpu memory) ≡ ok (pos cpu, pos memory)
unfolding extract_cpu_and_memory extract_codes
extract-slice_name cpu memory h k =
    ap extract_codes (name_codes cpu memory h)
    ∙ rw (first_number cpu h, middle-name (48 + cpu) (codes (itoa memory)), parse_int-itoa memory k)
        refl
