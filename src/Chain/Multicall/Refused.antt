-- ===== src/Chain/Multicall/Refused.antt =====
-- Responses of aggregate3 as the ABI lays them out.
use zchf_grenadier.Prelude.{ℕ, ◌≡◌, refl, Bool, true, List, [], ◌∷◌, ◌++◌, map, length}
use zchf_grenadier.Chain.Abi.{refused, encode_uint64, encode_bool}
use zchf_grenadier.Chain.Multicall.{decode_aggregate3_result, array_data}

-- The 32 bytes of a word, by their places.
abbrev pub word_bytes : (ℕ → ℕ) → List ℕ
word_bytes b = map b (
    0 ∷ 1 ∷ 2 ∷ 3 ∷ 4 ∷ 5 ∷ 6 ∷ 7 ∷ 8 ∷ 9 ∷ 10 ∷ 11 ∷ 12 ∷ 13 ∷ 14 ∷ 15 ∷ 16 ∷ 17 ∷ 18 ∷ 19 ∷ 20
    ∷ 21 ∷ 22 ∷ 23 ∷ 24 ∷ 25 ∷ 26 ∷ 27 ∷ 28 ∷ 29 ∷ 30 ∷ 31 ∷ [])

-- The tuple of a successful call that returned one word: success, the offset of the bytes, their
-- length, and the word.
abbrev pub word_tuple : (ℕ → ℕ) → List ℕ
word_tuple b = encode_bool true ++ (encode_uint64 64 ++ (encode_uint64 32 ++ word_bytes b))

-- The response to calls that succeeded and returned these words: the offset of the array, its
-- length, and its data.
abbrev pub response : List (ℕ → ℕ) → List ℕ
response words =
    encode_uint64 32 ++ (encode_uint64 (length words) ++ array_data (map word_tuple words))

-- The words of the 18 calls of HydratePosition, whose bytes are `v i j`.
abbrev pub hydration_words : (ℕ → ℕ → ℕ) → List (ℕ → ℕ)
hydration_words v =
    map v (0 ∷ 1 ∷ 2 ∷ 3 ∷ 4 ∷ 5 ∷ 6 ∷ 7 ∷ 8 ∷ 9 ∷ 10 ∷ 11 ∷ 12 ∷ 13 ∷ 14 ∷ 15 ∷ 16 ∷ 17 ∷ [])

-- A well-formed response of one successful call that returned one word, and one of 18 such calls,
-- are refused, whatever the words are, where make has room for what is asked of it.
pub decode_aggregate3_result-response :
    (fits : ℕ → ℕ → Bool) (one : ℕ → ℕ) (v : ℕ → ℕ → ℕ)
    → fits 32 32 ≡ true
    → fits 1 32 ≡ true
    → (decode_aggregate3_result fits (response (one ∷ [])) ≡ refused)
      × (decode_aggregate3_result fits (response (hydration_words v)) ≡ refused)
unfolding decode_aggregate3_result encode_bool array_data encode_uint64
decode_aggregate3_result-response fits one v many few = (rw (many, few) refl, rw (many, few) refl)
