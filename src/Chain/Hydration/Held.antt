-- ===== src/Chain/Hydration/Held.antt =====
-- The metadata that a hydration is given is kept.
use zchf_grenadier.Prelude.{
  ℕ, ◌≡◌, refl, ap, sym, ◌∙◌, Bool, Option, none, some, List, [], nat_eq, list_eq, ◌==◌, ==_iff,
  Bool-cases, inl, inr,
}
use zchf_grenadier.Text.{Text}
use zchf_grenadier.Table.{find, upsert}
use zchf_grenadier.Table.Laws.{find-upsert}
use zchf_grenadier.Store.Rows.{Position}
use zchf_grenadier.Chain.Hydrate.{Erc20Meta, CollateralMeta}
use zchf_grenadier.Chain.Abi.{Decoded, value, refused, panicked}
use zchf_grenadier.Chain.Hydration.{
  add_token, held_or_added, token_meta, hydrate_erc20, set_zchf, with_zchf, set_collateral,
  with_meta, hydrate_plain_position, hydrate_position,
}

-- Metadata that is held stays.
abbrev Holds : CollateralMeta → CollateralMeta → Type 0
Holds old new = (k : Text) (m : Erc20Meta) → find k old ≡ some m → find k new ≡ some m

find-upsert_absent :
    (token k : Text) (t m : Erc20Meta) (meta : CollateralMeta)
    → find token meta ≡ none
    → find k meta ≡ some m
    → find k (upsert token t meta) ≡ some m
find-upsert_absent token k t m meta gone held = elim (Bool-cases (token == k)) [
  | inl same ↦
      let here : token ≡ k = (==_iff token k).0 same in
      let bad : none ≡ some m = sym gone ∙ ap (λ x. find x meta) here ∙ held in cc
  | inr other ↦ find-upsert token k t meta ∙ rw other held
]

module _ (selector : Text → List ℕ) (eth_call : List ℕ → Option (List ℕ))
    (fits : ℕ → ℕ → Bool) where
  token_meta-Holds :
      (token : Text) (meta : CollateralMeta)
      → Holds meta (token_meta selector eth_call fits token meta).1
  token_meta-Holds token meta k m h = unfold token_meta in go (find token meta) refl
    where
      added :
          find token meta ≡ none
          → (d : Decoded Erc20Meta)
          → find k (add_token selector eth_call fits token meta d).1 ≡ some m
      added gone (value t) = unfold add_token in find-upsert_absent token k t m meta gone h
      added gone refused = unfold add_token in h
      added gone panicked = unfold add_token in h

      go :
          (o : Option Erc20Meta)
          → find token meta ≡ o
          → find k (held_or_added selector eth_call fits token meta o).1 ≡ some m
      go (some x) e = unfold held_or_added in h
      go none e = unfold held_or_added in added e (hydrate_erc20 selector eth_call fits token)

  with_zchf-Holds :
      (p : Position) (meta : CollateralMeta)
      → Holds meta (with_zchf selector eth_call fits p meta).1
  unfolding with_zchf set_zchf
  with_zchf-Holds p meta = elim (Bool-cases (p.zchf == [])) [
    | inl e ↦ rw e (λ k m h. h)
    | inr e ↦ rw e (token_meta-Holds p.zchf meta)
  ]

  set_collateral-Holds :
      (p : Position) (old : CollateralMeta) (r : Decoded Erc20Meta × CollateralMeta)
      → Holds old r.1
      → Holds old (set_collateral selector eth_call fits p r).1
  unfolding set_collateral
  set_collateral-Holds p old (value t, meta) h = λ k m e.
      with_zchf-Holds
        (record p {
          collateral_name = t.name;
          collateral_symbol = t.symbol;
          collateral_decimals = t.decimals;
        })
        meta k m (h k m e)
  set_collateral-Holds p old (refused, meta) h = h
  set_collateral-Holds p old (panicked, meta) h = h

  with_meta-Holds :
      (d : Decoded Position) (meta : CollateralMeta)
      → Holds meta (with_meta selector eth_call fits d meta).1
  unfolding with_meta
  with_meta-Holds (value p) meta =
      set_collateral-Holds p meta (token_meta selector eth_call fits p.collateral meta)
        (token_meta-Holds p.collateral meta)
  with_meta-Holds refused meta = λ k m h. h
  with_meta-Holds panicked meta = λ k m h. h

  -- HydratePosition only adds to the metadata that it is given: a token that the map holds is
  -- held with the same metadata after it, whatever the chain answers.
  pub hydrate_position-find :
      (a k : Text) (meta : CollateralMeta) (m : Erc20Meta)
      → find k meta ≡ some m
      → find k (hydrate_position selector eth_call fits a meta).1 ≡ some m
  unfolding hydrate_position
  hydrate_position-find a k meta m held =
      with_meta-Holds (hydrate_plain_position selector eth_call fits a) meta k m held
