-- ===== src/Indexer/Refresh/Current.antt =====
-- Refresh writes only at addresses that the cache holds.
use zchf_grenadier.Prelude.{
  ℕ, ◌≡◌, refl, ap, sym, ◌∙◌, true, false, Option, none, some, List, [], ◌∷◌, map, nat_eq, list_eq,
  ◌==◌, ==_iff, All, Bool-cases, inl, inr,
}
use zchf_grenadier.Prelude.Int.{ℤ, to_int64}
use zchf_grenadier.Text.{Text, lower}
use zchf_grenadier.Exec.{Result, ok, err, continue}
use zchf_grenadier.Table.{Table, upsert}
use zchf_grenadier.Store.Rows.{Position, PositionRow}
use zchf_grenadier.Store.Handle.{Db, Store}
use zchf_grenadier.Store.Positions.{upsert_position}
use zchf_grenadier.Store.Positions.Invariant.{IsValid, IsRow}
use zchf_grenadier.Chain.Abi.{value}
use zchf_grenadier.Chain.Hydrate.{Reader, CollateralMeta}
use zchf_grenadier.Indexer.State.{Indexer, on_store, known_addresses, cached, new_indexer}
use zchf_grenadier.Indexer.State.Laws.{
  IsCurrent, IsCurrentCache, Answers, Puts, addresses, upsert_position-Puts,
  known_addresses-Answers,
}
use zchf_grenadier.Indexer.Discover.Laws.{store_hydrated_rule}
use zchf_grenadier.Indexer.Refresh.{is_known, refresh_one, refresh_known, refresh}
use zchf_grenadier.Indexer.Refresh.Laws.{refresh_known_rule}

-- A row put at a key that is there leaves the keys.
upsert-keys :
    {R : Type 0} (k : Text) (r : R) (t : Table Text R)
    → is_known (map (λ p. p.0) t) k ≡ true
    → map (λ p. p.0) (upsert k r t) ≡ map (λ p. p.0) t
unfolding is_known upsert
upsert-keys k r [] h = let bad : false ≡ true = h in cc
upsert-keys k r ((j, q) ∷ t) h = elim (Bool-cases (j == k)) [
  | inl same ↦ rw (same, (==_iff j k).0 same) refl
  | inr other ↦ rw other (ap (λ ks. j ∷ ks) (upsert-keys k r t (rw other at h)))
]

addresses-Puts :
    (k : Text) (old : Db) (p : Result (Unit {0}) × Store)
    → Puts k old p
    → is_known (addresses old) k ≡ true
    → addresses p.1.db ≡ addresses old
addresses-Puts k old (ok u, s) (r, h) known = ap addresses h ∙ upsert-keys k r old.positions known
addresses-Puts k old (err e, s) h known = ap addresses h

abbrev AreFolded : List Text → Type 0
AreFolded = All (λ k. lower k ≡ k)

is_known-AreFolded : (ks : List Text) (a : Text) → AreFolded ks → is_known ks a ≡ true → lower a ≡ a
unfolding is_known
is_known-AreFolded [] a all h = let bad : false ≡ true = h in cc
is_known-AreFolded (k ∷ ks) a (first, rest) h = elim (Bool-cases (k == a)) [
  | inl same ↦ rw (← (==_iff k a).0 same) first
  | inr other ↦ is_known-AreFolded ks a rest (rw other at h)
]

addresses-AreFolded : (db : Db) → IsValid db → AreFolded (addresses db)
addresses-AreFolded db v = go db.positions v.agree
  where
    go : (t : Table Text PositionRow) → All IsRow t → AreFolded (map (λ p. p.0) t)
    go [] h = tt
    go (e ∷ t) (first, rest) = (first.folded, go t rest)

-- The hydration of a position answers that position.
abbrev pub HydratesOwn : Reader → Type 0
HydratesOwn chain =
    (a : Text) (meta : CollateralMeta) (p : Position)
    → (chain.hydrate a meta).0 ≡ value p
    → lower p.position ≡ lower a

pub IsCurrentCache-same :
    (o : Option (List Text)) (new old : Db)
    → addresses new ≡ addresses old
    → IsCurrentCache o old
    → IsCurrentCache o new
IsCurrentCache-same none new old e h = tt
IsCurrentCache-same (some ks) new old e h = h ∙ sym e

-- What the rounds of Refresh keep, over the addresses that it began with.
abbrev Stays : List Text → Indexer → Type 0
Stays addrs ix = IsCurrent ix × (addresses ix.store.db ≡ addrs)

module _ (chain : Reader) (order : Table Text ℕ → Table Text ℕ) (own : HydratesOwn chain) where
  Stays-put :
      (addrs : List Text) (p : Position) (block : ℤ) (meta : CollateralMeta) (ix : Indexer)
      → is_known addrs (lower p.position) ≡ true
      → Stays addrs ix
      → Stays addrs (on_store (upsert_position p block) (record ix { collateral_meta = meta })).1
  unfolding on_store cached
  Stays-put addrs p block meta ix known (h, e) =
      let stays =
        addresses-Puts (lower p.position) ix.store.db (upsert_position p block ix.store)
          (upsert_position-Puts p block ix.store)
          (ap (λ ks. is_known ks (lower p.position)) e ∙ known) in
      (IsCurrentCache-same (cached ix) _ _ stays h, stays ∙ e)

  refresh_one-Stays :
      (addrs : List Text) (e : Text × ℕ) (ix : Indexer)
      → AreFolded addrs
      → Stays addrs ix
      → Stays addrs (refresh_one chain order addrs e ix).1
  unfolding refresh_one cached new_indexer
  refresh_one-Stays addrs (a, block) ix folded h = elim (Bool-cases (is_known addrs a)) [
    | inl known ↦ rw known (
        store_hydrated_rule (Stays addrs) (λ p. p) block (chain.hydrate a ix.collateral_meta).0
          (chain.hydrate a ix.collateral_meta).1 ix (tt, h.1) h
          (λ p e.
            Stays-put addrs p (to_int64 block) (chain.hydrate a ix.collateral_meta).1 ix
              (ap (is_known addrs)
                  (own a ix.collateral_meta p e ∙ is_known-AreFolded addrs a folded known)
                ∙ known)
              h))
    | inr unknown ↦ rw unknown h
  ]

  after_addresses :
      (from to : ℕ) (db : Db) (p : Result (List Text) × Indexer)
      → AreFolded (addresses db)
      → Answers db p
      → IsCurrent (continue p.0 p.1 (refresh_known chain order from to)).1
  after_addresses from to db (ok ks, ix) folded (e, d, h) =
      (refresh_known_rule chain order (Stays ks) ks (λ t x. refresh_one-Stays ks t x (rw e folded))
        from to ix (h, rw d (sym e))).0
  after_addresses from to db (err x, ix) folded (d, h) = h

  -- Refresh leaves the cache of addresses right: where the addresses that the indexer caches are
  -- those of the positions table, that table is well formed, and the hydration of an address answers
  -- a position of that address, the cached addresses are those of the table after Refresh, whatever
  -- else the chain answers, in whatever order the positions are hydrated and whichever statements
  -- fail.
  pub refresh-IsCurrent :
      (from to : ℕ) (ix : Indexer)
      → IsValid ix.store.db
      → IsCurrent ix
      → IsCurrent (refresh chain order from to ix).1
  unfolding refresh
  refresh-IsCurrent from to ix v h =
      after_addresses from to ix.store.db (known_addresses ix) (addresses-AreFolded ix.store.db v)
        (known_addresses-Answers ix h)
