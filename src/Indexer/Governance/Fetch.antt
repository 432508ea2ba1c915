-- ===== src/Indexer/Governance/Fetch.antt =====
-- The fetches of indexer/bootstrap_governance.go, and refreshGovernanceOnce.
use zchf_grenadier.Prelude.{
  ℕ, zero, suc, not, ◌||◌, Option, none, some, List, [], ◌∷◌, ◌++◌, map, keep, nat_eq, list_eq,
  ◌==◌, if◌then◌else◌,
}
use zchf_grenadier.Text.{Text, codes}
use zchf_grenadier.Exec.{Result, ok, err, rpc_failed, no_peer, Exec, fail, ◌>>◌}
use zchf_grenadier.Store.Rows.{LeadrateApproved, LeadrateProposed, EquityDelegation}
use zchf_grenadier.Store.Handle.{Store}
use zchf_grenadier.Store.Governance.{
  bulk_upsert_minters, bulk_upsert_approved, bulk_upsert_proposed, bulk_upsert_holders,
  bulk_upsert_delegations,
}
use zchf_grenadier.Indexer.Sources.{
  PeerKind, peer_grenadier, peer_official, peer_ponder, peers, fetch_and_decode, endpoint_minters,
}
use zchf_grenadier.Indexer.Governance.{
  Upstream, convert_minter, approved_of, proposed_of, rows_of_chains, has_balance, holder_of_item,
  decode_answer, without_errors, with_value, first_success,
}

-- The four sources, in the order in which their goroutines write.
pub data GovernanceSource : Type 0 where
  minters_source leadrate_source holders_source delegations_source : GovernanceSource

-- if r.err != nil && firstErr == nil
unfoldable pub keep_first :
    Result (Unit {0}) → Result (Unit {0}) × Store → Result (Unit {0}) × Store
keep_first (ok u) p = p
keep_first (err e) (r, s) = (err e, s)

module _ (up : Upstream) where
  -- fetchAndStoreMinters
  unfoldable pub fetch_and_store_minters : Exec Store (Unit {0})
  unfolding with_value bulk_upsert_minters convert_minter fetch_and_decode
  fetch_and_store_minters =
      with_value (fetch_and_decode up.http_get up.minters endpoint_minters)
        (λ list. bulk_upsert_minters (map convert_minter list))

  unfoldable pub write_leadrate :
      List LeadrateApproved × List LeadrateProposed → Exec Store (Unit {0})
  unfolding bulk_upsert_approved bulk_upsert_proposed
  write_leadrate (approved, proposed) =
      bulk_upsert_approved approved >> bulk_upsert_proposed proposed

  -- fetchLeadrateFromGrenadier
  unfoldable pub leadrate_from_grenadier : Text → Exec Store (Unit {0})
  unfolding with_value decode_answer write_leadrate
  leadrate_from_grenadier base =
      with_value (decode_answer up.leadrate (up.http_get (base ++ codes "/governance/leadrate")))
        write_leadrate

  unfoldable pub write_proposals : Text → Exec Store (Unit {0})
  unfolding with_value decode_answer rows_of_chains proposed_of bulk_upsert_proposed
  write_proposals body =
      with_value (decode_answer up.by_chain (some body))
        (λ list. bulk_upsert_proposed (map proposed_of (rows_of_chains list)))

  unfoldable pub write_rates : Text → Text → Exec Store (Unit {0})
  unfolding with_value decode_answer rows_of_chains approved_of bulk_upsert_approved write_proposals
  write_rates rates proposals = with_value (decode_answer up.by_chain (some rates)) (λ list.
      bulk_upsert_approved (map approved_of (rows_of_chains list)) >> write_proposals proposals)

  -- Both requests are answered, or there is an error.
  unfoldable pub both_answers : Option Text → Option Text → Exec Store (Unit {0})
  unfolding write_rates
  both_answers none proposals = fail rpc_failed
  both_answers (some rates) none = fail rpc_failed
  both_answers (some rates) (some proposals) = write_rates rates proposals

  -- fetchLeadrateFromOfficial
  unfoldable pub leadrate_from_official : Text → Exec Store (Unit {0})
  unfolding both_answers
  leadrate_from_official base =
      both_answers (up.http_get (base ++ codes "/savings/leadrate/rates"))
        (up.http_get (base ++ codes "/savings/leadrate/proposals"))

  unfoldable pub leadrate_job : PeerKind → Text → Option (Exec Store (Unit {0}))
  unfolding leadrate_from_grenadier leadrate_from_official
  leadrate_job peer_grenadier base = some (leadrate_from_grenadier base)
  leadrate_job peer_official base = some (leadrate_from_official base)
  leadrate_job peer_ponder base = none

  -- fetchFPSHoldersFromGrenadier
  unfoldable pub holders_from_grenadier : Text → Exec Store (Unit {0})
  unfolding with_value decode_answer bulk_upsert_holders
  holders_from_grenadier base =
      with_value (decode_answer up.holders (up.http_get (base ++ codes "/governance/fps-holders")))
        bulk_upsert_holders

  -- fetchFPSHoldersFromPonder
  unfoldable pub holders_from_ponder : Text → Exec Store (Unit {0})
  unfolding with_value without_errors decode_answer bulk_upsert_holders holder_of_item has_balance
  holders_from_ponder base =
      with_value (without_errors (decode_answer up.balances (up.post_balances base)))
        (λ page. bulk_upsert_holders (map holder_of_item (keep has_balance page.items)))

  unfoldable pub holders_job : PeerKind → Text → Option (Exec Store (Unit {0}))
  unfolding holders_from_grenadier holders_from_ponder
  holders_job peer_grenadier base = some (holders_from_grenadier base)
  holders_job peer_official base = none
  holders_job peer_ponder base = some (holders_from_ponder base)

  -- fetchDelegationsFromGrenadier
  unfoldable pub delegations_from_grenadier : Text → Exec Store (Unit {0})
  unfolding with_value decode_answer bulk_upsert_delegations
  delegations_from_grenadier base =
      with_value
        (decode_answer up.delegations (up.http_get (base ++ codes "/governance/delegations")))
        bulk_upsert_delegations

  -- The loop over the pages: `pages` of them are answered before the deadline of the context.
  unfoldable pub all_edges : ℕ → Text → Text → Result (List EquityDelegation)
  all_edges zero base after = err rpc_failed
  all_edges (suc pages) base after =
      elim (without_errors (decode_answer up.edges (up.post_delegations base after))) [
        | err e ↦ err e
        | ok page ↦
            if not page.has_next_page || page.end_cursor == []
            then ok page.items
            else elim (all_edges pages base page.end_cursor) [
              | err e ↦ err e
              | ok rest ↦ ok (page.items ++ rest)
            ]
      ]

  -- fetchDelegationsFromPonder
  unfoldable pub delegations_from_ponder : ℕ → Text → Exec Store (Unit {0})
  unfolding with_value all_edges bulk_upsert_delegations
  delegations_from_ponder pages base = with_value (all_edges pages base []) bulk_upsert_delegations

  unfoldable pub delegations_job : ℕ → PeerKind → Text → Option (Exec Store (Unit {0}))
  unfolding delegations_from_grenadier delegations_from_ponder
  delegations_job pages peer_grenadier base = some (delegations_from_grenadier base)
  delegations_job pages peer_official base = none
  delegations_job pages peer_ponder base = some (delegations_from_ponder pages base)

  unfoldable pub run_source : ℕ → GovernanceSource → Exec Store (Unit {0})
  unfolding fetch_and_store_minters first_success leadrate_job holders_job delegations_job
  run_source pages minters_source = fetch_and_store_minters
  run_source pages leadrate_source = first_success (λ p. leadrate_job p.kind p.base) no_peer peers
  run_source pages holders_source = first_success (λ p. holders_job p.kind p.base) no_peer peers
  run_source pages delegations_source =
      first_success (λ p. delegations_job pages p.kind p.base) no_peer peers

  -- refreshGovernanceOnce: each source runs whatever the others return.
  unfoldable pub refresh_governance_once : ℕ → List GovernanceSource → Exec Store (Unit {0})
  unfolding run_source keep_first
  refresh_governance_once pages [] s = (ok tt, s)
  refresh_governance_once pages (x ∷ xs) s =
      keep_first (run_source pages x s).0
        (refresh_governance_once pages xs (run_source pages x s).1)
