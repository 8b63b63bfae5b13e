-- ===== src/Prelude/Parsing.antt =====
-- `strconv.ParseInt` with base 10 and 64 bits, and `strconv.Itoa` of a number that is not negative.
use Prim.Native.Nat.{ℕ, zero, suc, ◌+◌, ◌-◌, ◌*◌, ◌/◌, ◌%◌, ◌≤◌, ◌<◌}
use Prim.Native.Char.{code}
use Prim.Native.String.{String, ◌++◌ as ◌<>◌}
use mathlib.Core.Path.{◌≡◌, refl, sym, ap, ◌∙◌}
use mathlib.Core.Bool.{true, false}
use mathlib.Core.List.{List, [], ◌∷◌, ◌++◌, append_assoc, append-nil}
use mathlib.Core.Logic.{inl, inr}
use native.Mathlib.Omega.{arith}
use text.Mathlib.TextLemmas.{nil-append, cons-append}
use kube_comp_mig.Prelude.Tests.{ltb, ltb→lt, Bool-cases, ◌==◌, if◌then◌else◌}
use kube_comp_mig.Prelude.Integers.{ℤ, pos, negsuc, minus}
use kube_comp_mig.Prelude.Lists.{All, All-append}
use kube_comp_mig.Prelude.Text.{codes, is_digit, max_int64}

-- What the unsigned loop comes to: a number, a character that is no digit, or more than 64 bits.
pub data Digits : Type 0 where
  number : ℕ → Digits
  bad too_big : Digits

unfoldable pub digits_from : ℕ → List ℕ → Digits
digits_from acc [] = number acc
digits_from acc (c ∷ s) =
    let next = acc * 10 + (c - 48) in
    let later = digits_from next s in
    if is_digit c then if ltb 18446744073709551615 next then too_big else later else bad

-- The value, or one of the two errors; out of range Go returns the nearest value with the error.
pub data Parsed : Type 0 where
  value : ℤ → Parsed
  syntax : Parsed
  range : ℤ → Parsed

unfoldable pub non_negative : Digits → Parsed
non_negative (number n) = if ltb max_int64 n then range (pos max_int64) else value (pos n)
non_negative bad = syntax
non_negative too_big = range (pos max_int64)

unfoldable pub negative : Digits → Parsed
negative (number n) =
    if ltb (max_int64 + 1) n then range (negsuc max_int64) else value (minus (pos 0) n)
negative bad = syntax
negative too_big = range (negsuc max_int64)

unfoldable pub some_digits : List ℕ → Digits
unfolding digits_from
some_digits [] = bad
some_digits (c ∷ s) = digits_from 0 (c ∷ s)

unfoldable pub parse_int : List ℕ → Parsed
unfolding non_negative negative some_digits
parse_int [] = syntax
parse_int (c ∷ s) =
    if c == 43
    then non_negative (some_digits s)
    else if c == 45
    then negative (some_digits s)
    else non_negative (some_digits (c ∷ s))

-- The number that Go returns, where the error is dropped.
abbrev pub number_of : Parsed → ℤ
number_of (value z) = z
number_of syntax = pos 0
number_of (range z) = z

unfoldable pub digit : ℕ → String
digit zero = "0"
digit (suc zero) = "1"
digit (suc (suc zero)) = "2"
digit (suc (suc (suc zero))) = "3"
digit (suc (suc (suc (suc zero)))) = "4"
digit (suc (suc (suc (suc (suc zero))))) = "5"
digit (suc (suc (suc (suc (suc (suc zero)))))) = "6"
digit (suc (suc (suc (suc (suc (suc (suc zero))))))) = "7"
digit (suc (suc (suc (suc (suc (suc (suc (suc zero)))))))) = "8"
digit (suc (suc (suc (suc (suc (suc (suc (suc (suc n))))))))) = "9"

-- The digits of `n`; any fuel above `n` is enough.
unfoldable pub itoa_loop : ℕ → ℕ → String
unfolding digit
itoa_loop zero n = ""
itoa_loop (suc fuel) n =
    let front = itoa_loop fuel (n / 10) in if ltb n 10 then digit n else front <> digit (n % 10)

unfoldable pub itoa : ℕ → String
unfolding itoa_loop
itoa n = itoa_loop (n + 1) n

itoa_120 : itoa 120 ≡ "120"
unfolding itoa itoa_loop digit
itoa_120 = refl

pub codes-append : (a b : String) → codes (a <> b) ≡ codes a ++ codes b
codes-append String.[] b = ap codes (nil-append b)
codes-append (String.◌∷◌ c s) b =
    ap codes (cons-append c s b) ∙ ap (λ t. code c ∷ t) (codes-append s b)

pub codes-digit : (n : ℕ) → n < 10 → codes (digit n) ≡ (48 + n) ∷ []
unfolding digit
codes-digit zero h = refl
codes-digit (suc zero) h = refl
codes-digit (suc (suc zero)) h = refl
codes-digit (suc (suc (suc zero))) h = refl
codes-digit (suc (suc (suc (suc zero)))) h = refl
codes-digit (suc (suc (suc (suc (suc zero))))) h = refl
codes-digit (suc (suc (suc (suc (suc (suc zero)))))) h = refl
codes-digit (suc (suc (suc (suc (suc (suc (suc zero))))))) h = refl
codes-digit (suc (suc (suc (suc (suc (suc (suc (suc zero)))))))) h = refl
codes-digit (suc (suc (suc (suc (suc (suc (suc (suc (suc zero))))))))) h = refl
codes-digit (suc (suc (suc (suc (suc (suc (suc (suc (suc (suc n)))))))))) h = absurd (omega arith)

digits_from-cons :
    (acc c n : ℕ) (rest : List ℕ)
    → is_digit c ≡ true
    → acc * 10 + (c - 48) ≡ n
    → n ≤ max_int64
    → digits_from acc (c ∷ rest) ≡ digits_from n rest
unfolding digits_from
digits_from-cons acc c n rest d e h =
    let fits : ltb 18446744073709551615 (acc * 10 + (c - 48)) ≡ false = ground arith in
    rw (d, fits) (ap (λ k. digits_from k rest) e)

digit_range : (d : ℕ) → d < 10 → is_digit (48 + d) ≡ true
digit_range d h = ground arith

digits_from-digit :
    (acc d : ℕ) (rest : List ℕ)
    → d < 10
    → acc * 10 + d ≤ max_int64
    → digits_from acc (codes (digit d) ++ rest) ≡ digits_from (acc * 10 + d) rest
digits_from-digit acc d rest h k =
    ap (λ t. digits_from acc (t ++ rest)) (codes-digit d h)
    ∙ digits_from-cons acc (48 + d) (acc * 10 + d) rest (digit_range d h) (omega arith) k

-- The digits of a number, read from the beginning of a text.
digits_from-itoa :
    (fuel n : ℕ) (rest : List ℕ)
    → n < fuel
    → n ≤ max_int64
    → digits_from 0 (codes (itoa_loop fuel n) ++ rest) ≡ digits_from n rest
unfolding itoa_loop
digits_from-itoa zero n rest h k = absurd (omega arith)
digits_from-itoa (suc fuel) n rest h k = elim (Bool-cases (ltb n 10)) [
  | inl small ↦ rw (small) (
      digits_from-digit 0 n rest (ltb→lt n 10 small) (omega arith)
      ∙ ap (λ m. digits_from m rest) (omega arith))
  | inr large ↦
      let wide = ge_ten n large in
      rw (large) (
        ap (λ t. digits_from 0 (t ++ rest))
          (codes-append (itoa_loop fuel (n / 10)) (digit (n % 10)))
        ∙ ap (digits_from 0)
            (append_assoc (codes (itoa_loop fuel (n / 10))) (codes (digit (n % 10))) rest)
        ∙ digits_from-itoa fuel (n / 10) (codes (digit (n % 10)) ++ rest) (omega arith)
            (omega arith)
        ∙ digits_from-digit (n / 10) (n % 10) rest (omega arith) (omega arith)
        ∙ ap (λ m. digits_from m rest) (omega arith))
]
  where
    ge_ten : (m : ℕ) → ltb m 10 ≡ false → 10 ≤ m
    ge_ten m e = ground arith

-- A text that begins with a digit.
abbrev Numeral : List ℕ → Type 0
Numeral s = (c : ℕ) × (rest : List ℕ) × (s ≡ c ∷ rest) × (is_digit c ≡ true)

Numeral-append : (s t : List ℕ) → Numeral s → Numeral (s ++ t)
Numeral-append s t (c, rest, e, d) = (c, rest ++ t, ap (λ x. x ++ t) e, d)

itoa_loop-Numeral : (fuel n : ℕ) → n < fuel → Numeral (codes (itoa_loop fuel n))
unfolding itoa_loop
itoa_loop-Numeral zero n h = absurd (omega arith)
itoa_loop-Numeral (suc fuel) n h = elim (Bool-cases (ltb n 10)) [
  | inl small ↦
      rw (small) (48 + n, [], codes-digit n (ltb→lt n 10 small), digit_range n (ltb→lt n 10 small))
  | inr large ↦
      let wide = ge_ten n large in
      rw (large, codes-append (itoa_loop fuel (n / 10)) (digit (n % 10)))
        (Numeral-append _ (codes (digit (n % 10))) (itoa_loop-Numeral fuel (n / 10) (omega arith)))
]
  where
    ge_ten : (m : ℕ) → ltb m 10 ≡ false → 10 ≤ m
    ge_ten m e = ground arith

non_negative-value : (n : ℕ) → n ≤ max_int64 → non_negative (number n) ≡ value (pos n)
unfolding non_negative
non_negative-value n h = let fits : ltb max_int64 n ≡ false = ground arith in rw (fits) refl

some_digits-cons : (c : ℕ) (s : List ℕ) → some_digits (c ∷ s) ≡ digits_from 0 (c ∷ s)
unfolding some_digits
some_digits-cons c s = refl

parse_int-digits :
    (s : List ℕ) (n : ℕ)
    → Numeral s
    → digits_from 0 s ≡ number n
    → n ≤ max_int64
    → parse_int s ≡ value (pos n)
unfolding parse_int
parse_int-digits s n (c, rest, e, d) f h =
    let plus : (c == 43) ≡ false = ground arith in
    let dash : (c == 45) ≡ false = ground arith in
    ap parse_int e
    ∙ rw (plus, dash) (ap non_negative (some_digits-cons c rest ∙ sym (ap (digits_from 0) e) ∙ f))
    ∙ non_negative-value n h

digits_from-nil : (n : ℕ) → digits_from n [] ≡ number n
unfolding digits_from
digits_from-nil n = refl

-- Reading what was printed.
pub parse_int-itoa : (n : ℕ) → n ≤ max_int64 → parse_int (codes (itoa n)) ≡ value (pos n)
unfolding itoa
parse_int-itoa n h =
    parse_int-digits (codes (itoa_loop (n + 1) n)) n (itoa_loop-Numeral (n + 1) n (omega arith))
      (ap (digits_from 0) (sym (append-nil (codes (itoa_loop (n + 1) n))))
        ∙ digits_from-itoa (n + 1) n [] (omega arith) h
        ∙ digits_from-nil n)
      h

itoa_loop-digit : (fuel n : ℕ) → n < 10 → itoa_loop (suc fuel) n ≡ digit n
unfolding itoa_loop
itoa_loop-digit fuel n h = let small : ltb n 10 ≡ true = ground arith in rw (small) refl

pub itoa-digit : (n : ℕ) → n < 10 → itoa n ≡ digit n
unfolding itoa
itoa-digit n h =
    let fuel : n + 1 ≡ suc n = omega arith in ap (λ f. itoa_loop f n) fuel ∙ itoa_loop-digit n n h

-- Every character of a printed number is a digit.
itoa_loop-All : (fuel n : ℕ) → n < fuel → All (λ c. is_digit c ≡ true) (codes (itoa_loop fuel n))
unfolding itoa_loop
itoa_loop-All zero n h = absurd (omega arith)
itoa_loop-All (suc fuel) n h = elim (Bool-cases (ltb n 10)) [
  | inl small ↦ rw (small) (one_digit n (ltb→lt n 10 small))
  | inr large ↦
      let wide = ge_ten n large in
      rw (large, codes-append (itoa_loop fuel (n / 10)) (digit (n % 10)))
        (All-append _ _ (codes (digit (n % 10))) (itoa_loop-All fuel (n / 10) (omega arith))
          (one_digit (n % 10) (omega arith)))
]
  where
    ge_ten : (m : ℕ) → ltb m 10 ≡ false → 10 ≤ m
    ge_ten m e = ground arith

    one_digit : (m : ℕ) → m < 10 → All (λ c. is_digit c ≡ true) (codes (digit m))
    one_digit m h = rw (codes-digit m h) (digit_range m h, tt)

pub itoa-All : (n : ℕ) → All (λ c. is_digit c ≡ true) (codes (itoa n))
unfolding itoa
itoa-All n = itoa_loop-All (n + 1) n (omega arith)
