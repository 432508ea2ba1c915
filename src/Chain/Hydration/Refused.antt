-- ===== src/Chain/Hydration/Refused.antt =====
-- HydratePosition on well-formed responses.
use zchf_grenadier.Prelude.{
  ℕ, ◌≡◌, refl, ap, Bool, true, Option, some, List, map, inl, inr, Option-cases,
}
use zchf_grenadier.Text.{Text, lower}
use zchf_grenadier.Chain.Hydrate.{CollateralMeta}
use zchf_grenadier.Chain.Abi.{refused, ◌>>=◌}
use zchf_grenadier.Chain.Multicall.{McCall}
use zchf_grenadier.Chain.Multicall.Refused.{
  response, hydration_words, decode_aggregate3_result-response,
}
use zchf_grenadier.Chain.Returns.{signatures, position_of}
use zchf_grenadier.Chain.Hydration.{
  encoded, results_of, call_all, selector_call, with_balance, with_meta, hydrate_plain_position,
  hydrate_position,
}

module _ (selector : Text → List ℕ) (eth_call : List ℕ → Option (List ℕ)) (fits : ℕ → ℕ → Bool)
    (v : List ℕ → ℕ → ℕ → ℕ)
    (answers : (calldata : List ℕ)
      → eth_call calldata ≡ some (response (hydration_words (v calldata))))
    (many : fits 32 32 ≡ true) (few : fits 1 32 ≡ true) where
  results_of-refused : (bytes : List ℕ) → results_of selector eth_call fits bytes ≡ refused
  unfolding results_of
  results_of-refused bytes =
      rw (answers bytes) (decode_aggregate3_result-response fits (v bytes 0) (v bytes) many few).1

  call_all-refused : (calls : List McCall) → call_all selector eth_call fits calls ≡ refused
  unfolding call_all
  call_all-refused calls = elim (Option-cases (encoded selector eth_call fits calls)) [
    | inl e ↦ rw (e, call_all) refl
    | inr (bytes, e) ↦ rw (e, call_all) (results_of-refused bytes)
  ]

  plain-refused : (a : Text) → hydrate_plain_position selector eth_call fits a ≡ refused
  unfolding hydrate_plain_position
  plain-refused a =
      ap
        (λ d.
          d >>= λ rs. position_of (lower a) rs >>= with_balance selector eth_call fits (lower a))
        (call_all-refused (map (selector_call selector eth_call fits (lower a)) signatures))

  -- Where Multicall3 answers every calldata with a well-formed response of 18 successful calls that
  -- each returned one word, whatever the 32 bytes of each word are, HydratePosition returns an error
  -- and no position, for every address, where make has room for what is asked of it.
  pub hydrate_position-refused :
      (a : Text) (meta : CollateralMeta)
      → hydrate_position selector eth_call fits a meta ≡ (refused, meta)
  unfolding hydrate_position with_meta
  hydrate_position-refused a meta =
      ap (λ d. with_meta selector eth_call fits d meta) (plain-refused a)
