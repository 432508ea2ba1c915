-- ===== src/Chain/Multicall/Results.antt =====
-- How many results decodeAggregate3Result returns, and which bytes it reads.
use zchf_grenadier.Prelude.{
  ℕ, zero, suc, ◌+◌, ◌≡◌, refl, Bool, List, ◌∷◌, ◌++◌, arith, length, take, drop, ltb, eqb,
  Bool-cases, inl, inr,
}
use zchf_grenadier.Text.Hex.{big_endian}
use zchf_grenadier.Chain.Abi.{Decoded, value, refused, panicked, ◌>>=◌, encode_uint64, be_bytes}
use zchf_grenadier.Chain.Multicall.{
  McResult, result_at, results_from, counted_results, decode_aggregate3_result,
}

abbrev pub HasCount : ℕ → Decoded (List McResult) → Type 0
HasCount n (value rs) = length rs ≡ n
HasCount n refused = Unit
HasCount n panicked = Unit

module _ (fits : ℕ → ℕ → Bool) where
  one_more :
      (n : ℕ) (r : McResult) (rest : Decoded (List McResult))
      → HasCount n rest
      → HasCount (suc n) (rest >>= λ rs. value (r ∷ rs))
  one_more n r (value rs) h = omega (arith, h)
  one_more n r refused h = tt
  one_more n r panicked h = tt

  after_first :
      (n : ℕ) (r : Decoded McResult) (rest : Decoded (List McResult))
      → HasCount n rest
      → HasCount (suc n) (r >>= λ x. rest >>= λ rs. value (x ∷ rs))
  after_first n (value x) rest h = one_more n x rest h
  after_first n refused rest h = tt
  after_first n panicked rest h = tt

  results_from-HasCount : (bytes : List ℕ) (i n : ℕ) → HasCount n (results_from fits bytes i n)
  unfolding results_from
  results_from-HasCount bytes i zero = refl
  results_from-HasCount bytes i (suc n) =
      after_first n (result_at fits bytes i) (results_from fits bytes (i + 1) n)
        (results_from-HasCount bytes (i + 1) n)

  counted_results-HasCount : (bytes : List ℕ) (n : ℕ) → HasCount n (counted_results fits bytes n)
  unfolding counted_results
  counted_results-HasCount bytes n = elim (Bool-cases (eqb n 0)) [
    | inl none_left ↦ rw none_left (ground (arith, none_left))
    | inr some_left ↦ elim (Bool-cases (fits 32 n)) [
      | inl room ↦ rw (some_left, room) (results_from-HasCount bytes 0 n)
      | inr full ↦ rw (some_left, full) tt
    ]
  ]

  -- A response whose first word is the offset 32, as the ABI has it for every response, is decoded
  -- to exactly 32 results or not at all, whatever its length word and the bytes behind it say.
  pub decode_aggregate3_result-HasCount :
      (bytes : List ℕ) → HasCount 32 (decode_aggregate3_result fits (encode_uint64 32 ++ bytes))
  unfolding decode_aggregate3_result
  decode_aggregate3_result-HasCount bytes =
      let n : big_endian 0 (take 8 (drop 24 (encode_uint64 32 ++ bytes))) ≡ 32 =
        unfold encode_uint64 be_bytes big_endian in refl in
      elim (Bool-cases (ltb (length (encode_uint64 32 ++ bytes)) 64)) [
        | inl short ↦ rw short tt
        | inr long ↦ rw (long, n) (counted_results-HasCount (encode_uint64 32 ++ bytes) 32)
      ]
