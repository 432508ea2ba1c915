-- ===== src/Chain/Multicall.antt =====
-- chain/multicall.go: the calldata of aggregate3, and its results.
pub mod Offsets
pub mod Results
pub mod Refused
use zchf_grenadier.Prelude.{
  ℕ, zero, suc, ◌+◌, ◌*◌, Bool, Option, none, some, List, [], ◌∷◌, ◌++◌, if◌then◌else◌, length,
  take, drop, ltb, eqb,
}
use zchf_grenadier.Text.{Text}
use zchf_grenadier.Text.Hex.{big_endian}
use zchf_grenadier.Chain.Abi.{
  Decoded, value, refused, panicked, ◌>>=◌, wrap64, is_too_short, slice, uint64_at, flag_at,
  encode_uint64, encode_bool, encode_address, pad_to_32,
}

pub record McCall : Type 0 where
  pub target : Text
  pub allow_failure : Bool
  pub call_data : List ℕ

pub record McResult : Type 0 where
  pub success : Bool
  pub return_data : List ℕ

-- One round of the loop that serializes the tuples; the bytes are 3 words on.
unfoldable pub tuple_body : McCall → Option (List ℕ)
unfolding encode_address encode_bool encode_uint64 pad_to_32
tuple_body c = elim (encode_address c.target) [
  | none ↦ none
  | some addr ↦ some (
      addr
      ++ (encode_bool c.allow_failure
          ++ (encode_uint64 96 ++ (encode_uint64 (length c.call_data) ++ pad_to_32 c.call_data))))
]

unfoldable pub tuple_bodies : List McCall → Option (List (List ℕ))
unfolding tuple_body
tuple_bodies [] = some []
tuple_bodies (c ∷ cs) = elim (tuple_body c) [
  | none ↦ none
  | some b ↦ elim (tuple_bodies cs) [ none ↦ none | some bs ↦ some (b ∷ bs) ]
]

-- The tuple offsets, from the cursor on.
unfoldable pub offsets : ℕ → List (List ℕ) → List ℕ
unfolding encode_uint64
offsets cursor [] = []
offsets cursor (b ∷ bs) = encode_uint64 cursor ++ offsets (cursor + length b) bs

unfoldable pub joined : List (List ℕ) → List ℕ
joined [] = []
joined (b ∷ bs) = b ++ joined bs

-- The offsets, and the tuples behind them.
unfoldable pub array_data : List (List ℕ) → List ℕ
unfolding offsets joined
array_data bodies = offsets (length bodies * 32) bodies ++ joined bodies

-- encodeAggregate3, where `selector` is selAggregate3
unfoldable pub encode_aggregate3 : List ℕ → List McCall → Option (List ℕ)
unfolding tuple_bodies array_data encode_uint64
encode_aggregate3 selector calls = elim (tuple_bodies calls) [
  | none ↦ none
  | some bodies ↦
      some (selector ++ (encode_uint64 32 ++ (encode_uint64 (length calls) ++ array_data bodies)))
]

-- resultsStart
abbrev pub results_start : ℕ
results_start = 64

-- make panics where it has no room: `fits size count` says that it has, for elements of a size.
module _ (fits : ℕ → ℕ → Bool) where
  result_of : Bool → Decoded (List ℕ) → Decoded McResult
  result_of success (value bytes) = value (record { success = success; return_data = bytes })
  result_of success refused = refused
  result_of success panicked = panicked

  -- The bytes of one result, once their length is known.
  unfoldable result_body : List ℕ → Bool → ℕ → ℕ → Decoded McResult
  unfolding result_of slice wrap64
  result_body bytes success at len =
      if ltb (length bytes) (wrap64 (at + 32 + len))
      then refused
      else if fits 1 len
      then result_of success (slice (wrap64 (at + 32)) (wrap64 (at + 32 + len)) bytes)
      else panicked

  unfoldable result_bytes : List ℕ → Bool → ℕ → Decoded McResult
  unfolding result_body is_too_short uint64_at wrap64
  result_bytes bytes success at =
      if is_too_short bytes (wrap64 (at + 32))
      then refused
      else (uint64_at bytes at >>= result_body bytes success at)

  -- The tuple at `start`: its flag, and the offset of its bytes.
  unfoldable result_tuple : List ℕ → ℕ → Decoded McResult
  unfolding result_bytes is_too_short uint64_at flag_at wrap64
  result_tuple bytes start =
      if is_too_short bytes (wrap64 (start + 96))
      then refused
      else (flag_at bytes start >>= λ success. uint64_at bytes (wrap64 (start + 32)) >>= λ off.
          result_bytes bytes success (wrap64 (start + off)))

  -- One round of the loop.
  unfoldable pub result_at : List ℕ → ℕ → Decoded McResult
  unfolding result_tuple is_too_short uint64_at wrap64
  result_at bytes i =
      let position = wrap64 (results_start + i * 32) in
      if is_too_short bytes (wrap64 (position + 32))
      then refused
      else (uint64_at bytes position >>= λ off. result_tuple bytes (wrap64 (results_start + off)))

  -- The loop from `i` on, over `count` results.
  unfoldable pub results_from : List ℕ → ℕ → ℕ → Decoded (List McResult)
  unfolding result_at
  results_from bytes i zero = value []
  results_from bytes i (suc count) =
      result_at bytes i >>= λ r. results_from bytes (i + 1) count >>= λ rs. value (r ∷ rs)

  unfoldable pub counted_results : List ℕ → ℕ → Decoded (List McResult)
  unfolding results_from
  counted_results bytes n =
      if eqb n 0 then value [] else if fits 32 n then results_from bytes 0 n else panicked

  -- decodeAggregate3Result: n is read from data[24:32]
  unfoldable pub decode_aggregate3_result : List ℕ → Decoded (List McResult)
  unfolding counted_results big_endian
  decode_aggregate3_result bytes =
      if ltb (length bytes) 64
      then refused
      else counted_results bytes (big_endian 0 (take 8 (drop 24 bytes)))
