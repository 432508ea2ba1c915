-- ===== src/Indexer/Refresh/Laws.antt =====
-- What Refresh leaves behind.
use zchf_grenadier.Prelude.{
  ℕ, List, [], ◌∷◌, ◌++◌, nat_eq, list_eq, Bool-cases, Option-cases, inl, inr,
}
use zchf_grenadier.Prelude.Int.{ℤ}
use zchf_grenadier.Text.{Text}
use zchf_grenadier.Exec.Keeps.{Preserves, Preserves-bind}
use zchf_grenadier.Table.{Table}
use zchf_grenadier.Store.Rows.{Position}
use zchf_grenadier.Store.Handle.{Store}
use zchf_grenadier.Store.Positions.{upsert_position}
use zchf_grenadier.Chain.Log.{minting_hub_v2}
use zchf_grenadier.Chain.Hydrate.{Reader}
use zchf_grenadier.Indexer.State.{Indexer, on_store, known_addresses, new_indexer}
use zchf_grenadier.Indexer.Discover.Laws.{store_hydrated_rule}
use zchf_grenadier.Indexer.Refresh.{
  is_known, refresh_one, refresh_all, refresh_known, refresh, merge_logs, slices, addr_chunk,
  refresh_filter, touched,
}

-- A predicate on the indexer that a hydration of an address among `addrs` preserves.
module _ (chain : Reader) (order : Table Text ℕ → Table Text ℕ) (Q : Indexer → Type 0)
    (addrs : List Text)
    (step : (e : Text × ℕ) (ix : Indexer) → Q ix → Q (refresh_one chain order addrs e ix).1) where
  refresh_all_rule : (es : Table Text ℕ) → Preserves Q (refresh_all chain order addrs es)
  unfolding refresh_all
  refresh_all_rule [] ix h = h
  refresh_all_rule (e ∷ es) ix h =
      Preserves-bind Q (refresh_one chain order addrs e) _ (step e)
        (λ n.
          Preserves-bind Q (refresh_all chain order addrs es) _ (refresh_all_rule es) (λ m x k. k))
        ix h

module _ (chain : Reader) (order : Table Text ℕ → Table Text ℕ) (Q : Indexer → Type 0) where
  pub refresh_known_rule :
      (addrs : List Text)
      → ((e : Text × ℕ) (ix : Indexer) → Q ix → Q (refresh_one chain order addrs e ix).1)
      → (from to : ℕ) → Preserves Q (refresh_known chain order from to addrs)
  unfolding refresh_known
  refresh_known_rule [] step from to ix h = h
  refresh_known_rule (a ∷ more) step from to ix h =
      let asked =
        merge_logs (λ s. chain.get_logs (refresh_filter from to s))
          (slices addr_chunk ((a ∷ more) ++ minting_hub_v2 ∷ [])) in
      elim (Option-cases asked) [
        | inl e ↦ rw (e, refresh_known) h
        | inr (logs, e) ↦
            rw (e, refresh_known)
              (refresh_all_rule chain order Q (a ∷ more) step (order (touched logs [])) ix h)
      ]

-- A predicate on the store that the upsert of a position and the use of the addresses preserve.
module _ (I : Store → Type 0)
    (put : (p : Position) (block : ℤ) (s : Store) → I s → I (upsert_position p block s).1)
    (known : Preserves (λ ix. I ix.store) known_addresses) (chain : Reader)
    (order : Table Text ℕ → Table Text ℕ) where
  refresh_one-Preserves :
      (addrs : List Text) (e : Text × ℕ) (ix : Indexer)
      → I ix.store
      → I (refresh_one chain order addrs e ix).1.store
  unfolding refresh_one on_store new_indexer
  refresh_one-Preserves addrs (a, block) ix h = elim (Bool-cases (is_known addrs a)) [
    | inl known ↦
        rw known
          (store_hydrated_rule (λ x. I x.store) _ block _ _ ix h h (λ p e. put _ _ ix.store h))
    | inr unknown ↦ rw unknown h
  ]

  pub refresh-Preserves : (from to : ℕ) → Preserves (λ ix. I ix.store) (refresh chain order from to)
  unfolding refresh
  refresh-Preserves from to =
      Preserves-bind (λ ix. I ix.store) known_addresses (refresh_known chain order from to) known
        (λ addrs.
          refresh_known_rule chain order (λ ix. I ix.store) addrs (refresh_one-Preserves addrs) from
            to)
