-- ===== src/Indexer/Refresh/Own.antt =====
-- HydratePosition answers a position of the address that it is asked for.
use mathlib.Core.Path.{subst}
use zchf_grenadier.Prelude.{ℕ, ◌≡◌, ap, sym, ◌∙◌, Bool, Option, List}
use zchf_grenadier.Text.{Text, lower, lower-lower}
use zchf_grenadier.Chain.Hydrate.{Reader, CollateralMeta}
use zchf_grenadier.Chain.Hydration.{hydrate_position}
use zchf_grenadier.Chain.Hydration.Laws.{IsAt, hydrate_position-IsAt}
use zchf_grenadier.Indexer.Refresh.Current.{HydratesOwn}

-- A reader whose hydrations are those of HydratePosition, over any eth_call, hydrates each address
-- as a position of that address.
hydrate_position-HydratesOwn :
    (selector : Text → List ℕ) (eth_call : List ℕ → Option (List ℕ)) (fits : ℕ → ℕ → Bool)
    (chain : Reader)
    → ((a : Text) (meta : CollateralMeta)
        → chain.hydrate a meta ≡ hydrate_position selector eth_call fits a meta)
    → HydratesOwn chain
hydrate_position-HydratesOwn selector eth_call fits chain same a meta p e =
    ap lower (
      subst (IsAt (lower a)) (ap (λ d. d.0) (sym (same a meta)) ∙ e)
        (hydrate_position-IsAt selector eth_call fits a meta))
    ∙ lower-lower a
