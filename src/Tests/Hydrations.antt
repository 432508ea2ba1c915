-- ===== src/Tests/Hydrations.antt =====
-- The theorems on calldata, responses and hydration, at concrete bytes.
use zchf_grenadier.Prelude.{
  ◌*◌, ◌+◌, ℕ, ◌≡◌, refl, true, Option, some, List, [], ◌∷◌, take, drop, replicate,
}
use zchf_grenadier.Text.{Text, lower}
use zchf_grenadier.Chain.Abi.{refused, encode_uint64}
use zchf_grenadier.Chain.Multicall.{array_data, joined}
use zchf_grenadier.Chain.Multicall.Offsets.{array_data-offsets}
use zchf_grenadier.Chain.Multicall.Refused.{response, hydration_words}
use zchf_grenadier.Chain.Hydration.{hydrate_position}
use zchf_grenadier.Chain.Hydration.Refused.{hydrate_position-refused}
use zchf_grenadier.Chain.Hydration.Laws.{IsAt, hydrate_position-IsAt}
use zchf_grenadier.Tests.Data.{pool}

abbrev bodies : List (List ℕ)
bodies = (1 ∷ 2 ∷ []) ∷ (3 ∷ []) ∷ (4 ∷ 5 ∷ []) ∷ []

array_data-offsets_example :
    (take 32 (drop 32 (array_data bodies)) ≡ encode_uint64 98)
    × (take 1 (drop 98 (array_data bodies)) ≡ (3 ∷ []))
unfolding joined array_data
array_data-offsets_example = array_data-offsets ((1 ∷ 2 ∷ []) ∷ []) ((4 ∷ 5 ∷ []) ∷ []) (3 ∷ [])

-- Selectors of four bytes, and a Multicall3 whose calls all succeed and return the numbers 0 to 17.
abbrev selector : Text → List ℕ
selector sig = 1 ∷ 2 ∷ 3 ∷ 4 ∷ []

abbrev counting : List ℕ → Option (List ℕ)
counting calldata = some (response (hydration_words (λ i j. 7 * i + j)))

hydrate_position-refused_example :
    hydrate_position selector counting (λ size count. true) pool [] ≡ (refused, [])
hydrate_position-refused_example =
    hydrate_position-refused selector counting (λ size count. true) (λ calldata i j. 7 * i + j)
      (λ calldata. refl) refl refl pool []

-- A Multicall3 that answers with 32 results of one word each.
abbrev answering : List ℕ → Option (List ℕ)
answering calldata = some (response (replicate 32 (λ j. 7)))

hydrate_position-IsAt_example :
    IsAt (lower pool) (hydrate_position selector answering (λ size count. true) pool []).0
hydrate_position-IsAt_example =
    hydrate_position-IsAt selector answering (λ size count. true) pool []
