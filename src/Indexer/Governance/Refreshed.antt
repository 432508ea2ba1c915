-- ===== src/Indexer/Governance/Refreshed.antt =====
-- What the tables hold after refreshGovernanceOnce.
use zchf_grenadier.Prelude.{ℕ, ◌≡◌, refl, ap, ◌∙◌, ◌⊎◌, inl, inr, List, [], ◌∷◌, map}
use zchf_grenadier.Exec.{Result, ok, err, Exec}
use zchf_grenadier.Store.Handle.{Db, Store}
use zchf_grenadier.Store.Governance.{bulk_upsert_minters}
use zchf_grenadier.Store.Governance.Snapshot.{Replaced, minter_entry, bulk_upsert_minters-Replaced}
use zchf_grenadier.Indexer.Sources.{fetch_and_decode, endpoint_minters}
use zchf_grenadier.Indexer.Governance.{Upstream, ApiMinterEntry, convert_minter, with_value}
use zchf_grenadier.Indexer.Governance.Fetch.{
  GovernanceSource, minters_source, leadrate_source, holders_source, delegations_source,
  fetch_and_store_minters, run_source, keep_first, refresh_governance_once,
}
use zchf_grenadier.Indexer.Governance.Laws.{
  indexer_tables, other_tables, Keeps-bulk_upsert_minters, Keeps-run_leadrate, Keeps-run_holders,
  Keeps-run_delegations,
}

-- The tables of the indexer are as before, and the applications are as before or are those that the
-- peers answered.
abbrev pub IsRefreshed : Upstream → Db → Db → Type 0
IsRefreshed up old new =
    (indexer_tables new ≡ indexer_tables old)
    × ((new.minters ≡ old.minters)
        ⊎ ((list : List ApiMinterEntry) × (fetch_and_decode up.http_get up.minters endpoint_minters
              ≡ ok list)
            × (new.minters ≡ map minter_entry (map convert_minter list))))

module _ (up : Upstream) where
  kept-IsRefreshed :
      (old mid new : Db)
      → (indexer_tables new ≡ indexer_tables mid)
      → new.minters ≡ mid.minters
      → IsRefreshed up old mid
      → IsRefreshed up old new
  kept-IsRefreshed old mid new e m (h, inl k) = (e ∙ h, inl (m ∙ k))
  kept-IsRefreshed old mid new e m (h, inr (list, f, k)) = (e ∙ h, inr (list, f, m ∙ k))

  others-IsRefreshed :
      (old : Db) (m : Exec Store (Unit {0})) (s : Store)
      → (other_tables (m s).1 ≡ other_tables s)
      → IsRefreshed up old s.db
      → IsRefreshed up old (m s).1.db
  others-IsRefreshed old m s e =
      kept-IsRefreshed old s.db (m s).1.db (ap (λ v. v.0) e) (ap (λ v. v.1) e)

  Replaced-IsRefreshed :
      (old mid : Db) (list : List ApiMinterEntry) (p : Result (Unit {0}) × Store)
      → fetch_and_decode up.http_get up.minters endpoint_minters ≡ ok list
      → indexer_tables p.1.db ≡ indexer_tables mid
      → Replaced (map convert_minter list) mid p
      → IsRefreshed up old mid
      → IsRefreshed up old p.1.db
  Replaced-IsRefreshed old mid list (ok u, s) f e r h = (e ∙ h.0, inr (list, f, r.0))
  Replaced-IsRefreshed old mid list (err x, s) f e r h =
      kept-IsRefreshed old mid s.db e (ap (λ (d : Db). d.minters) r) h

  with_value-IsRefreshed :
      (old : Db) (r : Result (List ApiMinterEntry)) (s : Store)
      → fetch_and_decode up.http_get up.minters endpoint_minters ≡ r
      → IsRefreshed up old s.db
      → IsRefreshed up old
          (with_value r (λ list. bulk_upsert_minters (map convert_minter list)) s).1.db
  unfolding with_value
  with_value-IsRefreshed old (ok list) s f h =
      Replaced-IsRefreshed old s.db list (bulk_upsert_minters (map convert_minter list) s) f
        (Keeps-bulk_upsert_minters (map convert_minter list) s)
        (bulk_upsert_minters-Replaced (map convert_minter list) s) h
  with_value-IsRefreshed old (err e) s f h = h

  run_source-IsRefreshed :
      (pages : ℕ) (x : GovernanceSource) (old : Db) (s : Store)
      → IsRefreshed up old s.db
      → IsRefreshed up old (run_source up pages x s).1.db
  run_source-IsRefreshed pages minters_source old s h =
      unfold run_source fetch_and_store_minters in
      with_value-IsRefreshed old (fetch_and_decode up.http_get up.minters endpoint_minters) s refl h
  run_source-IsRefreshed pages leadrate_source old s h =
      others-IsRefreshed old (run_source up pages leadrate_source) s (Keeps-run_leadrate up pages s)
        h
  run_source-IsRefreshed pages holders_source old s h =
      others-IsRefreshed old (run_source up pages holders_source) s (Keeps-run_holders up pages s) h
  run_source-IsRefreshed pages delegations_source old s h =
      others-IsRefreshed old (run_source up pages delegations_source) s
        (Keeps-run_delegations up pages s) h

  state-keep_first :
      (r : Result (Unit {0})) (p : Result (Unit {0}) × Store) → (keep_first r p).1 ≡ p.1
  unfolding keep_first
  state-keep_first (ok u) p = refl
  state-keep_first (err e) p = refl

  sources-IsRefreshed :
      (pages : ℕ) (order : List GovernanceSource) (old : Db) (s : Store)
      → IsRefreshed up old s.db
      → IsRefreshed up old (refresh_governance_once up pages order s).1.db
  unfolding refresh_governance_once
  sources-IsRefreshed pages [] old s h = h
  sources-IsRefreshed pages (x ∷ xs) old s h =
      let first = run_source up pages x s in
      rw (state-keep_first first.0 (refresh_governance_once up pages xs first.1))
        (sources-IsRefreshed pages xs old first.1 (run_source-IsRefreshed pages x old s h))

  -- A refresh of the governance tables, in whatever order its sources write, whatever the peers
  -- answer and whichever statements fail, leaves the tables of positions, meta data, challenges and
  -- bids, and leaves the applications as they were or replaces all of them by the converted entries
  -- of one answer, in its order.
  pub refresh_governance_once-IsRefreshed :
      (pages : ℕ) (order : List GovernanceSource) (s : Store)
      → IsRefreshed up s.db (refresh_governance_once up pages order s).1.db
  refresh_governance_once-IsRefreshed pages order s =
      sources-IsRefreshed pages order s.db s (refl, inl refl)
