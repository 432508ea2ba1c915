-- ===== src/Api/Near/Amount.antt =====
-- The order that compareDigitStrings puts on digit strings, and their numbers.
use zchf_grenadier.Prelude.{
  ℕ, zero, suc, ◌+◌, ◌-◌, ◌*◌, ◌≤◌, ◌<◌, ◌≡◌, ◌⊎◌, refl, ◌∙◌, true, false, some, [], ◌∷◌, length,
  ltb, eqb, replicate, arith, Bool-cases, inl, inr, nat_eq, list_eq,
}
use zchf_grenadier.Prelude.Int.{pos, ltb_ℤ}
use zchf_grenadier.Text.{Text, text_lt}
use zchf_grenadier.Text.Decimal.{is_digit, parse, parse_from}
use zchf_grenadier.Api.Near.{all_digits, is_digit_string, compare_digit_strings, near_max_amount}

-- The number of a digit string behind `acc`.
abbrev pub value : ℕ → Text → ℕ
value acc [] = acc
value acc (c ∷ s) = value (acc * 10 + (c - 48)) s

digit_parts :
    (c : ℕ) (s : Text) → all_digits (c ∷ s) ≡ true → (48 ≤ c) × (c ≤ 57) × (all_digits s ≡ true)
unfolding all_digits is_digit
digit_parts c s h = ground arith

parse_from-value :
    (s : Text) (acc : ℕ) → all_digits s ≡ true → parse_from acc s ≡ some (value acc s)
unfolding parse_from is_digit all_digits
parse_from-value [] acc h = refl
parse_from-value (c ∷ s) acc h = ground (arith, parse_from-value s (acc * 10 + (c - 48)))

pub parse-value : (s : Text) → is_digit_string s ≡ true → parse s ≡ some (value 0 s)
unfolding parse is_digit_string
parse-value [] h = let bad : false ≡ true = h in cc
parse-value (c ∷ s) h = parse_from-value (c ∷ s) 0 h

-- A smaller prefix wins over whatever follows.
value_lt :
    (s t : Text) (a b : ℕ)
    → length s ≡ length t
    → all_digits s ≡ true
    → all_digits t ≡ true
    → a < b
    → value a s < value b t
value_lt [] [] a b n hs ht lt = lt
value_lt [] (d ∷ t) a b n hs ht lt = absurd (omega arith)
value_lt (c ∷ s) [] a b n hs ht lt = absurd (omega arith)
value_lt (c ∷ s) (d ∷ t) a b n hs ht lt =
    let p = digit_parts c s hs in
    let q = digit_parts d t ht in
    value_lt s t (a * 10 + (c - 48)) (b * 10 + (d - 48)) (omega arith) p.2 q.2
      (omega (arith, p.0, p.1, q.0, q.1))

-- On digit strings of one length the order of strings is the order of numbers.
value_le :
    (s t : Text) (a : ℕ)
    → length s ≡ length t
    → all_digits s ≡ true
    → all_digits t ≡ true
    → text_lt t s ≡ false
    → value a s ≤ value a t
unfolding text_lt
value_le [] [] a n hs ht h = omega arith
value_le [] (d ∷ t) a n hs ht h = absurd (omega arith)
value_le (c ∷ s) [] a n hs ht h = absurd (omega arith)
value_le (c ∷ s) (d ∷ t) a n hs ht h =
    let p = digit_parts c s hs in
    let q = digit_parts d t ht in
    elim (Bool-cases (eqb d c)) [
      | inl same ↦
          let e : d ≡ c = ground (arith, same) in
          rw e (value_le s t (a * 10 + (c - 48)) (omega arith) p.2 q.2 (rw same at h))
      | inr other ↦
          let apart : ltb d c ≡ false = rw other at h in
          let lt : c < d = ground (arith, other, apart) in
          let less =
            value_lt s t (a * 10 + (c - 48)) (a * 10 + (d - 48)) (omega arith) p.2 q.2
              (omega (arith, p.0)) in
          omega (arith, less)
    ]

pad : ℕ → Text → Text
pad zero s = s
pad (suc k) s = 48 ∷ pad k s

value-pad : (k : ℕ) (s : Text) → value 0 (pad k s) ≡ value 0 s
unfolding pad
value-pad zero s = refl
value-pad (suc k) s = value-pad k s

length-pad : (k : ℕ) (s : Text) → length (pad k s) ≡ k + length s
unfolding pad
length-pad zero s = omega arith
length-pad (suc k) s = let rest = length-pad k s in omega arith

all_digits-pad : (k : ℕ) (s : Text) → all_digits s ≡ true → all_digits (pad k s) ≡ true
unfolding pad all_digits is_digit
all_digits-pad zero s h = h
all_digits-pad (suc k) s h = all_digits-pad k s h

digits_of_string : (s : Text) → is_digit_string s ≡ true → all_digits s ≡ true
unfolding is_digit_string
digits_of_string [] h = let bad : false ≡ true = h in cc
digits_of_string (c ∷ s) h = h

text_lt_asym : (a b : Text) → text_lt a b ≡ true → text_lt b a ≡ false
unfolding text_lt
text_lt_asym [] [] h = refl
text_lt_asym [] (y ∷ ys) h = refl
text_lt_asym (x ∷ xs) [] h = let bad : false ≡ true = h in cc
text_lt_asym (x ∷ xs) (y ∷ ys) h = ground (arith, text_lt_asym xs ys)

compare_cases :
    (a b : Text)
    → ltb_ℤ (pos 0) (compare_digit_strings a b) ≡ false
    → (length a < length b) ⊎ ((length a ≡ length b) × (text_lt b a ≡ false))
unfolding compare_digit_strings
compare_cases a b h = elim (Bool-cases (eqb (length a) (length b))) [
  | inl same ↦ elim (Bool-cases (text_lt a b)) [
    | inl below ↦ inr (ground (arith, same), text_lt_asym a b below)
    | inr not_below ↦ elim (Bool-cases (text_lt b a)) [
      | inl above ↦ let bad : true ≡ false = rw (same, not_below, above) at h in cc
      | inr le ↦ inr (ground (arith, same), le)
    ]
  ]
  | inr other ↦ inl (ground (arith, other))
]

max_digits : all_digits near_max_amount ≡ true
unfolding all_digits is_digit
max_digits = refl

-- A digit string that compareDigitStrings does not put above the cap is a number up to the cap.
pub within_cap :
    (s : Text)
    → is_digit_string s ≡ true
    → ltb_ℤ (pos 0) (compare_digit_strings s near_max_amount) ≡ false
    → value 0 s ≤ 200000000000
within_cap s d h = elim (compare_cases s near_max_amount h) [
  | inl shorter ↦
      let k = 11 - length s in
      let size : length (pad k s) ≡ 11 = length-pad k s ∙ omega arith in
      let lt : value 0 (pad k s) < 200000000000 =
        value_lt (pad k s) (replicate 11 48) 0 2 size (all_digits-pad k s (digits_of_string s d))
          (unfold all_digits is_digit in refl) (omega arith) in
      omega (arith, value-pad k s, lt)
  | inr (same, le) ↦ value_le s near_max_amount 0 same (digits_of_string s d) max_digits le
]
