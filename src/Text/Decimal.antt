-- ===== src/Text/Decimal.antt =====
-- Decimal numerals: fmt "%d" and strconv.FormatUint (base 10), strconv.ParseUint (base 10), and
-- big.Int String and SetString (base 10).
use mathlib.Core.Option
use zchf_grenadier.Prelude.{
  ℕ, zero, suc, ◌+◌, ◌-◌, ◌*◌, ◌/◌, ◌%◌, ◌^◌, ◌<◌, ◌≡◌, refl, ◌∙◌, Bool, true, false, ◌&&◌, Option,
  none, some, ◌≢◌, List, [], ◌∷◌, ◌++◌, arith, leb, ltb, eqb, if◌then◌else◌, All, inl, inr,
  Bool-cases,
}
use zchf_grenadier.Prelude.Int.{ℤ, pos, negsuc}

abbrev Digits : Type 0
Digits = List ℕ

unfoldable pub is_digit : ℕ → Bool
is_digit c = leb b'0' c && leb c b'9'

print_fuel : ℕ → ℕ → Digits
print_fuel zero n = []
print_fuel (suc f) n =
    let rest = print_fuel f (n / 10) ++ (b'0' + n % 10) ∷ [] in
    if ltb n 10 then (b'0' + n) ∷ [] else rest

-- The shortest numeral of `n`.
unfoldable pub print : ℕ → Digits
unfolding print_fuel
print n = print_fuel (suc n) n

unfoldable pub parse_from : ℕ → Digits → Option ℕ
unfolding is_digit
parse_from acc [] = some acc
parse_from acc (c ∷ s) =
    let rest = parse_from (acc * 10 + (c - b'0')) s in if is_digit c then rest else none

-- A non-empty run of digits, leading zeros allowed.
unfoldable pub parse : Digits → Option ℕ
unfolding parse_from
parse [] = none
parse (c ∷ s) = parse_from 0 (c ∷ s)

-- strconv.ParseUint(s, 10, 64): out of range is an error.
unfoldable pub parse_uint64 : Digits → Option ℕ
unfolding parse
parse_uint64 s = elim (parse s) [ none ↦ none | some n ↦ if ltb n (2 ^ 64) then some n else none ]

unfoldable pub print_int : ℤ → Digits
print_int (pos n) = print n
print_int (negsuc n) = b'-' ∷ print (suc n)

unfoldable pub negate : ℕ → ℤ
negate zero = pos zero
negate (suc n) = negsuc n

-- big.Int SetString in base 10: an optional sign, then digits.
unfoldable pub parse_int : Digits → Option ℤ
unfolding parse negate
parse_int [] = none
parse_int (c ∷ s) =
    if eqb c b'-'
    then Option.map negate (parse s)
    else if eqb c b'+'
    then Option.map pos (parse s)
    else Option.map pos (parse (c ∷ s))

abbrev AllDigits : Digits → Type 0
AllDigits = All (λ c. is_digit c ≡ true)

AllDigits-append : (s t : Digits) → AllDigits s → AllDigits t → AllDigits (s ++ t)
AllDigits-append [] t hs ht = ht
AllDigits-append (c ∷ s) t hs ht = (hs.0, AllDigits-append s t hs.1 ht)

digit-is_digit : (d : ℕ) → d < 10 → is_digit (b'0' + d) ≡ true
unfolding is_digit
digit-is_digit d h = ground arith

AllDigits-print_fuel : (f n : ℕ) → AllDigits (print_fuel f n)
unfolding print_fuel
AllDigits-print_fuel zero n = tt
AllDigits-print_fuel (suc f) n = elim (Bool-cases (ltb n 10)) [
  | inl small ↦ rw small (digit-is_digit n (ground arith), tt)
  | inr large ↦ rw large (
      AllDigits-append (print_fuel f (n / 10)) _ (AllDigits-print_fuel f (n / 10))
        (digit-is_digit (n % 10) (omega arith), tt))
]

parse_from-append :
    (acc : ℕ) (s t : Digits) {m : ℕ}
    → parse_from acc s ≡ some m
    → parse_from acc (s ++ t) ≡ parse_from m t
unfolding parse_from
parse_from-append acc [] t h = ground arith
parse_from-append acc (c ∷ s) t h = elim (Bool-cases (is_digit c)) [
  | inl e ↦ rw e (parse_from-append (acc * 10 + (c - b'0')) s t (rw e at h))
  | inr e ↦ let bad : none ≡ some _ = rw e at h in cc
]

parse_from-print_fuel : (f n : ℕ) → n < f → parse_from 0 (print_fuel f n) ≡ some n
unfolding print_fuel parse_from
parse_from-print_fuel zero n h = elim h [ ]
parse_from-print_fuel (suc f) n h = elim (Bool-cases (ltb n 10)) [
  | inl small ↦ ground (arith, digit-is_digit n)
  | inr large ↦
      rw
        (
          large,
          parse_from-append 0 (print_fuel f (n / 10)) _
              (parse_from-print_fuel f (n / 10) (ground arith)),
        )
        (ground (arith, digit-is_digit (n % 10)))
]

snoc-ne-nil : (s : Digits) (c : ℕ) → s ++ c ∷ [] ≢ []
snoc-ne-nil [] c h = cc
snoc-ne-nil (d ∷ s) c h = cc

print-ne-nil : (n : ℕ) → print n ≢ []
unfolding print
print-ne-nil n = elim (Bool-cases (ltb n 10)) [
  | inl e ↦ rw e (λ h. cc)
  | inr e ↦ rw e (snoc-ne-nil (print_fuel n (n / 10)) _)
]

parse-eq-parse_from : (s : Digits) → s ≢ [] → parse s ≡ parse_from 0 s
unfolding parse
parse-eq-parse_from [] h = absurd (h refl)
parse-eq-parse_from (c ∷ s) h = refl

-- Every numeral that is printed reads back.
pub parse-print : (n : ℕ) → parse (print n) ≡ some n
parse-print n =
    parse-eq-parse_from (print n) (print-ne-nil n)
    ∙ unfold print in parse_from-print_fuel (suc n) n (omega arith)

parse_int_digits : (s : Digits) → AllDigits s → parse_int s ≡ Option.map pos (parse s)
unfolding parse_int is_digit
parse_int_digits [] h = refl
parse_int_digits (c ∷ s) h =
    let minus : eqb c b'-' ≡ false = ground (arith, h.0) in
    let plus : eqb c b'+' ≡ false = ground (arith, h.0) in rw (minus, plus)

-- Every integer that is printed reads back.
pub parse_int-print_int : (z : ℤ) → parse_int (print_int z) ≡ some z
unfolding print_int
parse_int-print_int (pos n) =
    rw (parse_int_digits (print n) (unfold print in AllDigits-print_fuel (suc n) n), parse-print n)
parse_int-print_int (negsuc n) = unfold parse_int in rw parse-print

-- A number of 64 bits reads back through strconv.ParseUint.
pub parse_uint64-print : (n : ℕ) → n < 2 ^ 64 → parse_uint64 (print n) ≡ some n
unfolding parse_uint64
parse_uint64-print n h = rw (parse-print n, parse_uint64) (ground arith)
