-- ===== src/Autoscaler/Revisions.antt =====
-- The name of the next revision: `incrementRevision` of Autoscaler/scaler.go.
use kube_comp_mig.Prelude.{ℕ, ◌+◌, String, List, [], ◌∷◌, ltb, ◌==◌, if◌then◌else◌}
use Prim.Native.String.{◌++◌ as ◌<>◌}
use kube_comp_mig.Prelude.Integers.{pos, negsuc}
use kube_comp_mig.Prelude.Outcomes.{Outcome, ok, err}
use kube_comp_mig.Prelude.Parsing.{Parsed, value, syntax, range, parse_int, itoa}
use kube_comp_mig.Prelude.Text.{codes, max_int64, split_on}

-- `%04d` of a number that is not negative
unfoldable pub four_digits : ℕ → String
four_digits n =
    if ltb n 10
    then "000" <> itoa n
    else if ltb n 100
    then "00" <> itoa n
    else if ltb n 1000
    then "0" <> itoa n
    else itoa n

-- A part of the name holds no sign but "+", so the number is not negative; the largest one wraps round.
unfoldable pub next_number : String → Parsed → Outcome String
unfolding four_digits
next_number prefix (value (pos n)) =
    ok (prefix <> ("-" <> (if n == max_int64 then "-9223372036854775808" else four_digits (n + 1))))
next_number prefix (value (negsuc n)) = err "failed to parse number"
next_number prefix syntax = err "failed to parse number"
next_number prefix (range z) = err "failed to parse number"

abbrev two_parts : List String → Outcome String
two_parts (prefix ∷ number ∷ []) = next_number prefix (parse_int (codes number))
two_parts _ = err "invalid revision format"

unfoldable pub increment_revision : String → Outcome String
unfolding next_number
increment_revision revision = two_parts (split_on 45 revision)
