-- ===== src/Chain/Hydration/Laws.antt =====
-- Which position a hydration answers, and what it does to the metadata.
use zchf_grenadier.Prelude.{
  ℕ, ◌≡◌, refl, Bool, true, Option, List, [], ◌∷◌, ◌++◌, map, nat_eq, list_eq, ◌==◌, Bool-cases,
  Option-cases, inl, inr,
}
use mathlib.Core.Path.{subst}
use zchf_grenadier.Text.{Text, codes, lower}
use zchf_grenadier.Store.Rows.{Position}
use zchf_grenadier.Chain.Hydrate.{Erc20Meta, CollateralMeta}
use zchf_grenadier.Chain.Abi.{
  Decoded, value, refused, panicked, ◌>>=◌, decode_uint256, encode_address,
}
use zchf_grenadier.Chain.Multicall.{McResult}
use zchf_grenadier.Chain.Returns.{position_of, fields_of, placed, signatures}
use zchf_grenadier.Chain.Hydration.{
  selector_call, call_all, set_balance, balance_from, with_balance, token_meta, set_zchf, with_zchf,
  set_collateral, with_meta, hydrate_plain_position, hydrate_position,
}

-- A position that was decoded is at the address.
abbrev pub IsAt : Text → Decoded Position → Type 0
IsAt addr (value p) = p.position ≡ addr
IsAt addr refused = Unit
IsAt addr panicked = Unit

IsAt-bind :
    {A : Type 0} (addr : Text) (m : Decoded A) (k : A → Decoded Position)
    → ((a : A) → IsAt addr (k a))
    → IsAt addr (m >>= k)
IsAt-bind addr (value a) k h = h a
IsAt-bind addr refused k h = tt
IsAt-bind addr panicked k h = tt

position_of-IsAt : (addr : Text) (rs : List McResult) → IsAt addr (position_of addr rs)
unfolding position_of placed
position_of-IsAt addr rs = IsAt-bind addr (fields_of rs) (λ p. value (placed addr p)) (λ p. refl)

module _ (selector : Text → List ℕ) (eth_call : List ℕ → Option (List ℕ))
    (fits : ℕ → ℕ → Bool) where
  set_balance-IsAt :
      (p : Position) (d : Decoded ℕ) → IsAt p.position (set_balance selector eth_call fits p d)
  unfolding set_balance
  set_balance-IsAt p (value v) = refl
  set_balance-IsAt p refused = refl
  set_balance-IsAt p panicked = tt

  balance_from-IsAt :
      (p : Position) (d : Decoded (List McResult))
      → IsAt p.position (balance_from selector eth_call fits p d)
  unfolding balance_from
  balance_from-IsAt p (value []) = refl
  balance_from-IsAt p (value (r ∷ rs)) = elim (Bool-cases r.success) [
    | inl e ↦ rw e (set_balance-IsAt p (decode_uint256 r.return_data 0))
    | inr e ↦ rw e refl
  ]
  balance_from-IsAt p refused = refl
  balance_from-IsAt p panicked = tt

  with_balance-IsAt :
      (addr : Text) (p : Position) → IsAt p.position (with_balance selector eth_call fits addr p)
  unfolding with_balance
  with_balance-IsAt addr p = elim (Bool-cases (p.collateral == [])) [
    | inl e ↦ rw e refl
    | inr e ↦ elim (Option-cases (encode_address addr)) [
      | inl n ↦ rw (e, n) refl
      | inr (arg, n) ↦
          rw (e, n)
            (balance_from-IsAt p (
              call_all selector eth_call fits (
                record {
                  target = p.collateral;
                  allow_failure = true;
                  call_data = selector (codes "balanceOf(address)") ++ arg;
                }
                ∷ [])))
    ]
  ]

  then_balance :
      (addr : Text) (d : Decoded Position)
      → IsAt addr d
      → IsAt addr (d >>= with_balance selector eth_call fits addr)
  then_balance addr (value p) h =
      subst (λ a. IsAt a (with_balance selector eth_call fits addr p)) h (with_balance-IsAt addr p)
  then_balance addr refused h = tt
  then_balance addr panicked h = tt

  plain-IsAt : (a : Text) → IsAt (lower a) (hydrate_plain_position selector eth_call fits a)
  unfolding hydrate_plain_position
  plain-IsAt a =
      IsAt-bind (lower a)
        (call_all selector eth_call fits
          (map (selector_call selector eth_call fits (lower a)) signatures))
        (λ rs. position_of (lower a) rs >>= with_balance selector eth_call fits (lower a))
        (λ rs. then_balance (lower a) (position_of (lower a) rs) (position_of-IsAt (lower a) rs))

  set_zchf-IsAt :
      (p : Position) (r : Decoded Erc20Meta × CollateralMeta)
      → IsAt p.position (set_zchf selector eth_call fits p r).0
  unfolding set_zchf
  set_zchf-IsAt p (value t, meta) = refl
  set_zchf-IsAt p (refused, meta) = tt
  set_zchf-IsAt p (panicked, meta) = tt

  with_zchf-IsAt :
      (p : Position) (meta : CollateralMeta)
      → IsAt p.position (with_zchf selector eth_call fits p meta).0
  unfolding with_zchf
  with_zchf-IsAt p meta = elim (Bool-cases (p.zchf == [])) [
    | inl e ↦ rw e refl
    | inr e ↦ rw e (set_zchf-IsAt p (token_meta selector eth_call fits p.zchf meta))
  ]

  set_collateral-IsAt :
      (p : Position) (r : Decoded Erc20Meta × CollateralMeta)
      → IsAt p.position (set_collateral selector eth_call fits p r).0
  unfolding set_collateral
  set_collateral-IsAt p (value t, meta) =
      with_zchf-IsAt
        (record p {
          collateral_name = t.name;
          collateral_symbol = t.symbol;
          collateral_decimals = t.decimals;
        })
        meta
  set_collateral-IsAt p (refused, meta) = tt
  set_collateral-IsAt p (panicked, meta) = tt

  with_meta-IsAt :
      (addr : Text) (d : Decoded Position) (meta : CollateralMeta)
      → IsAt addr d
      → IsAt addr (with_meta selector eth_call fits d meta).0
  unfolding with_meta
  with_meta-IsAt addr (value p) meta h =
      subst
        (λ a.
          IsAt a
            (set_collateral selector eth_call fits p
              (token_meta selector eth_call fits p.collateral meta)).0)
        h (set_collateral-IsAt p (token_meta selector eth_call fits p.collateral meta))
  with_meta-IsAt addr refused meta h = tt
  with_meta-IsAt addr panicked meta h = tt

  -- The position that HydratePosition answers, on whatever results and balances the chain answers,
  -- is at the address that was asked for, in lower case.
  pub hydrate_position-IsAt :
      (a : Text) (meta : CollateralMeta)
      → IsAt (lower a) (hydrate_position selector eth_call fits a meta).0
  unfolding hydrate_position
  hydrate_position-IsAt a meta =
      with_meta-IsAt (lower a) (hydrate_plain_position selector eth_call fits a) meta (plain-IsAt a)
