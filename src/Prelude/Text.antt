-- ===== src/Prelude/Text.antt =====
-- Go strings that a program walks, as the list of their code points (their bytes, where they are
-- ASCII), and the parts of package strconv that read a decimal number.
use Prim.Native.Nat.{ℕ, zero, suc, ◌+◌, ◌-◌, ◌*◌}
use Prim.Native.Char.{Char, code}
use Prim.Native.String.{String, ◌++◌ as ◌<>◌}
use text.Mathlib.TextLemmas.{nil-append, cons-append}
use mathlib.Core.Bool.{Bool, true, false, ◌&&◌, ◌||◌}
use mathlib.Core.List.{List, [], ◌∷◌}
use mathlib.Core.Option.{Option, none, some}
use kube_comp_mig.Prelude.Outcomes.{Outcome, ok, panic, ◌>>=◌}
use kube_comp_mig.Prelude.Lists.{All}
use mathlib.Core.Path.{◌≡◌, refl, ap, ◌∙◌}
use mathlib.Core.Logic.{inl, inr}
use kube_comp_mig.Prelude.Tests.{◌==◌, leb, ltb, if◌then◌else◌, Bool-cases}

abbrev pub codes : String → List ℕ
codes String.[] = []
codes (String.◌∷◌ c s) = code c ∷ codes s

abbrev pub is_digit : ℕ → Bool
is_digit c = leb b'0' c && leb c b'9'

-- What follows a prefix, or `none` where the text does not begin with it.
unfoldable pub strip_prefix : List ℕ → List ℕ → Option (List ℕ)
strip_prefix [] s = some s
strip_prefix (p ∷ ps) [] = none
strip_prefix (p ∷ ps) (c ∷ s) = let rest = strip_prefix ps s in if p == c then rest else none

-- The digits at the beginning, and the rest.
unfoldable pub span_digits : List ℕ → List ℕ × List ℕ
span_digits [] = ([], [])
span_digits (c ∷ s) =
    let later = span_digits s in if is_digit c then (c ∷ later.0, later.1) else ([], c ∷ s)

unfoldable pub decimal : ℕ → List ℕ → ℕ
decimal acc [] = acc
decimal acc (c ∷ s) = decimal (acc * 10 + (c - b'0')) s

abbrev pub max_int64 : ℕ
max_int64 = 9223372036854775807

-- `strconv.Atoi` of a text of digits, its error dropped: out of range it returns the largest int.
unfoldable pub atoi_clamped : List ℕ → ℕ
unfolding decimal
atoi_clamped s = let n = decimal 0 s in if ltb max_int64 n then max_int64 else n

-- `strings.HasPrefix` and `strings.Contains`
unfoldable pub has_prefix : List ℕ → List ℕ → Bool
has_prefix [] s = true
has_prefix (p ∷ ps) [] = false
has_prefix (p ∷ ps) (c ∷ s) = (p == c) && has_prefix ps s

unfoldable pub contains : List ℕ → List ℕ → Bool
unfolding has_prefix
contains [] sub = has_prefix sub []
contains (c ∷ s) sub = has_prefix sub (c ∷ s) || contains s sub

-- `s[n:]`, which panics past the end.
unfoldable pub slice_from : ℕ → String → Outcome String
slice_from zero s = ok s
slice_from (suc n) String.[] = panic
slice_from (suc n) (String.◌∷◌ c s) = slice_from n s

-- `s[:n]`, which panics past the end.
unfoldable pub slice_to : ℕ → String → Outcome String
slice_to zero s = ok ""
slice_to (suc n) String.[] = panic
slice_to (suc n) (String.◌∷◌ c s) = slice_to n s >>= λ rest. ok (String.◌∷◌ c rest)

unfoldable pub onto_first : Char → List String → List String
onto_first c [] = String.◌∷◌ c "" ∷ []
onto_first c (p ∷ ps) = String.◌∷◌ c p ∷ ps

-- `strings.Split`, for a separator of one character
unfoldable pub split_on : ℕ → String → List String
unfolding onto_first
split_on separator String.[] = "" ∷ []
split_on separator (String.◌∷◌ c s) =
    let parts = split_on separator s in
    if code c == separator then "" ∷ parts else onto_first c parts

-- A text with the character in it has two parts at least.
pub split_on-cons :
    (separator : ℕ) (s : String)
    → (p : String) × (ps : List String) × (split_on separator s ≡ p ∷ ps)
unfolding split_on onto_first
split_on-cons separator String.[] = ("", [], refl)
split_on-cons separator (String.◌∷◌ c s) = elim (Bool-cases (code c == separator)) [
  | inl h ↦ ("", split_on separator s, rw (h) refl)
  | inr h ↦ let (p, ps, e) = split_on-cons separator s in (String.◌∷◌ c p, ps, rw (h, e) refl)
]

-- A text without the character has one part.
pub split_on-whole :
    (separator : ℕ) (s : String)
    → All (λ c. (c == separator) ≡ false) (codes s)
    → split_on separator s ≡ s ∷ []
unfolding split_on onto_first
split_on-whole separator String.[] h = refl
split_on-whole separator (String.◌∷◌ c s) (h, hs) = rw (h, split_on-whole separator s hs) refl

-- A text is split after its first part.
pub split_on-append :
    (separator : ℕ) (s : String) (c : Char) (t : String)
    → All (λ c. (c == separator) ≡ false) (codes s)
    → (code c == separator) ≡ true
    → split_on separator (s <> String.◌∷◌ c t) ≡ s ∷ split_on separator t
unfolding split_on onto_first
split_on-append separator String.[] c t h e =
    ap (split_on separator) (nil-append (String.◌∷◌ c t)) ∙ rw (e) refl
split_on-append separator (String.◌∷◌ d s) c t (h, hs) e =
    ap (split_on separator) (cons-append d s (String.◌∷◌ c t))
    ∙ rw (h, split_on-append separator s c t hs e) refl
