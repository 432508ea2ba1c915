-- ===== src/Tests/Bootstraps.antt =====
-- The theorems on the peers and the bootstraps, at concrete answers.
use zchf_grenadier.Prelude.{
  true, false, Option, none, some, [], ◌∷◌, ◌==◌, nat_eq, list_eq, if◌then◌else◌,
}
use zchf_grenadier.Prelude.Int.{pos}
use zchf_grenadier.Text.{Text, codes}
use zchf_grenadier.Store.Handle.{Store, fresh}
use zchf_grenadier.Indexer.Sources.{
  peers, endpoint_bids, fetch_from_peers, fetch_and_decode, endpoint_challenges,
}
use zchf_grenadier.Indexer.Sources.Laws.{IsFirstAnswer, fetch_from_peers-IsFirstAnswer}
use zchf_grenadier.Indexer.Bootstrap.{bootstrap}
use zchf_grenadier.Indexer.Bootstrap.Laws.{Booted, bootstrap-Booted}
use zchf_grenadier.Indexer.Bootstrap.Challenges.{bootstrap_challenges}
use zchf_grenadier.Indexer.Bootstrap.Challenges.Laws.{MarkedAfter, bootstrap_challenges-MarkedAfter}
use zchf_grenadier.Indexer.Governance.{Upstream, ApiMinterEntry}
use zchf_grenadier.Indexer.Governance.Fetch.{
  minters_source, leadrate_source, holders_source, delegations_source, refresh_governance_once,
}
use zchf_grenadier.Indexer.Governance.Refreshed.{IsRefreshed, refresh_governance_once-IsRefreshed}

-- Only the official peer answers, with an empty list.
abbrev official_only : Text → Option Text
official_only url =
    if url == codes "https://api.frankencoin.com/challenges/bids/list"
    then some (codes "[]")
    else none

fetch_from_peers-IsFirstAnswer_example :
    IsFirstAnswer official_only endpoint_bids 0 peers (fetch_from_peers official_only endpoint_bids)
fetch_from_peers-IsFirstAnswer_example = fetch_from_peers-IsFirstAnswer official_only endpoint_bids

-- Every peer answers.
abbrev all_answer : Text → Option Text
all_answer url = some (codes "{}")

-- The third statement of the store fails.
abbrev third_fails : Store
third_fails = record { db = fresh; outcomes = true ∷ true ∷ false ∷ [] }

bootstrap-Booted_example :
    Booted all_answer
      (λ body. some [])
      (λ t. none)
      (some 2400)
      fresh
      (bootstrap all_answer (λ body. some []) (λ t. none) (some 2400) third_fails)
bootstrap-Booted_example =
    bootstrap-Booted all_answer (λ body. some []) (λ t. none) (some 2400) third_fails

bootstrap_challenges-MarkedAfter_example :
    MarkedAfter
      (fetch_and_decode all_answer (λ body. some []) endpoint_challenges)
      (fetch_and_decode all_answer (λ body. some []) endpoint_bids)
      (some 2400)
      fresh
      (bootstrap_challenges all_answer (λ body. some []) (λ body. some []) (some 2400) third_fails)
bootstrap_challenges-MarkedAfter_example =
    bootstrap_challenges-MarkedAfter all_answer (λ body. some []) (λ body. some []) (some 2400)
      third_fails

-- An application that was not denied.
abbrev one_entry : ApiMinterEntry
one_entry = record {
  chain_id = pos 1;
  tx_hash = codes "0x1";
  minter = codes "0xA1";
  application_period = pos 10;
  application_fee = codes "1000";
  apply_message = codes "bridge";
  apply_date = pos 7;
  suggestor = codes "0xB1";
  deny_message = none;
  deny_date = none;
  deny_tx_hash = none;
  vetor = none;
}

-- Peers that list that application and know of nothing else.
abbrev one_minter : Upstream
one_minter = record {
  http_get = all_answer;
  post_balances = λ base. none;
  post_delegations = λ base after. none;
  minters = λ body. some (one_entry ∷ []);
  leadrate = λ body. some ([], []);
  by_chain = λ body. none;
  holders = λ body. none;
  balances = λ body. none;
  delegations = λ body. none;
  edges = λ body. none;
}

refresh_governance_once-IsRefreshed_example :
    IsRefreshed one_minter fresh
      (refresh_governance_once one_minter 3
        (holders_source ∷ minters_source ∷ delegations_source ∷ leadrate_source ∷ [])
        third_fails).1.db
refresh_governance_once-IsRefreshed_example =
    refresh_governance_once-IsRefreshed one_minter 3
      (holders_source ∷ minters_source ∷ delegations_source ∷ leadrate_source ∷ []) third_fails
