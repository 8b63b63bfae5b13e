-- ===== src/Reconfig/Location/Written.antt =====
-- The label that the reporter writes, as the controller reads it.
use kube_comp_mig.Prelude.{
  ℕ, ◌≤◌, ◌≡◌, refl, ap, ◌∙◌, true, false, String, List, [], ◌∷◌, map, arith, All, All-weaken, ◌==◌,
}
use Prim.Native.String.{◌++◌ as ◌<>◌}
use text.Mathlib.TextLemmas.{nil-append, cons-append}
use kube_comp_mig.Prelude.Parsing.{parse_int, itoa, itoa-All, parse_int-itoa}
use kube_comp_mig.Prelude.Text.{
  codes, is_digit, max_int64, split_on, split_on-whole, split_on-append,
}
use kube_comp_mig.Reporter.Devices.{join}
use kube_comp_mig.Reconfig.Location.{numbers, label_ids}

no_comma : (n : ℕ) → All (λ c. (c == 44) ≡ false) (codes (itoa n))
no_comma n = All-weaken (codes (itoa n)) (λ c h. apart c h) (itoa-All n)
  where
    apart : (c : ℕ) → is_digit c ≡ true → (c == 44) ≡ false
    apart c h = ground arith

comma-append : (t : String) → "," <> t ≡ String.◌∷◌ "," t
comma-append t = cons-append "," "" t ∙ ap (String.◌∷◌ ",") (nil-append t)

split-join : (n : ℕ) (ns : List ℕ) → split_on 44 (join (map itoa (n ∷ ns))) ≡ map itoa (n ∷ ns)
unfolding join
split-join n [] = split_on-whole 44 (itoa n) (no_comma n)
split-join n (m ∷ ns) =
    ap (λ t. split_on 44 (itoa n <> t)) (comma-append (join (map itoa (m ∷ ns))))
    ∙ split_on-append 44 (itoa n) "," (join (map itoa (m ∷ ns))) (no_comma n) refl
    ∙ ap (λ t. itoa n ∷ t) (split-join m ns)

numbers-itoa : (ns : List ℕ) → All (λ n. n ≤ max_int64) ns → numbers (map itoa ns) ≡ ns
unfolding numbers
numbers-itoa [] h = refl
numbers-itoa (n ∷ ns) (h, hs) = rw (parse_int-itoa n h) (ap (λ t. n ∷ t) (numbers-itoa ns hs))

nothing : numbers (split_on 44 (join [])) ≡ []
unfolding join split_on numbers parse_int
nothing = refl

-- The controller reads from the label that the reporter writes for a pod exactly the GPUs that the
-- reporter has found, in their order, where they fit an int.
pub label_ids-join :
    (ns : List ℕ) → All (λ n. n ≤ max_int64) ns → label_ids (join (map itoa ns)) ≡ ns
unfolding label_ids
label_ids-join [] h = nothing
label_ids-join (n ∷ ns) h = ap numbers (split-join n ns) ∙ numbers-itoa (n ∷ ns) h
